-- ===== src/Activity/Items.antt =====
-- crates/inline/src/activity.rs: the identifiers of the items, and what the updates do to one.
use camouflage.Prelude.{
  ◌≡◌, refl, sym, ap, subst, Bool, true, false, Option, none, some, List, [], ◌∷◌, if◌then◌else◌,
  Bool-cases, unwrap_or, retain, All, arith, inl, inr, is_some, is_empty, map, ◌&&◌, ◌==◌, ◌⊎◌,
}
use camouflage.Text.{Str, utf8, str_eq}
use camouflage.Text.Laws.{str_eq_iff, str_eq_refl}
use camouflage.Json.{Json, get_as, get_str}
use camouflage.Activity.{
  Item, Activity, Status, fresh, get, merge, merge_fields, set_status, upsert_as, update_or_push,
  upsert, upsert_all, status_in, parse_kind, parse_status, status_code, same_status, step_of,
}

-- No two items share an identifier.
abbrev pub Absent : Str → Activity → Type 0
Absent id items = All (λ (i : Item). str_eq i.id id ≡ false) items

abbrev pub Unique : Activity → Type 0
Unique [] = Unit
Unique (i ∷ items) = Absent i.id items × Unique items

-- A change that keeps the identifier.
KeepsId : (Item → Item) → Type 0
KeepsId f = (i : Item) → (f i).id ≡ i.id

str_eq_swap : (a b : Str) → str_eq a b ≡ false → str_eq b a ≡ false
str_eq_swap a b h = elim (Bool-cases (str_eq b a)) [
  | inl e ↦ absurd (ground (arith, h, same e))
  | inr e ↦ e
]
  where
    same : str_eq b a ≡ true → str_eq a b ≡ true
    same e = (str_eq_iff a b).1 (sym ((str_eq_iff b a).0 e))

str_eq_cong : (a b k : Str) → str_eq a b ≡ true → str_eq a k ≡ str_eq b k
str_eq_cong a b k h = ap (λ x. str_eq x k) ((str_eq_iff a b).0 h)

module _ (f : Item → Item) (keeps : (i : Item) → (f i).id ≡ i.id) where
  update_or_push-Absent :
      (id k : Str) (items : Activity)
      → str_eq id k ≡ false
      → Absent k items
      → Absent k (update_or_push id f items)
  unfolding update_or_push
  update_or_push-Absent id k [] n h = (rw (keeps (fresh id)) n, tt)
  update_or_push-Absent id k (i ∷ items) n h = elim (Bool-cases (str_eq i.id id)) [
    | inl e ↦ rw e (rw (keeps i) h.0, h.1)
    | inr e ↦ rw e (h.0, update_or_push-Absent id k items n h.1)
  ]

  update_or_push-Unique :
      (id : Str) (items : Activity) → Unique items → Unique (update_or_push id f items)
  unfolding update_or_push
  update_or_push-Unique id [] u = (tt, tt)
  update_or_push-Unique id (i ∷ items) u = elim (Bool-cases (str_eq i.id id)) [
    | inl e ↦ rw e (subst (λ k. Absent k items) (sym (keeps i)) u.0, u.1)
    | inr e ↦ rw e (
      update_or_push-Absent id i.id items (str_eq_swap i.id id e) u.0,
      update_or_push-Unique id items u.1,
    )
  ]

  get-update_or_push :
      (id : Str) (items : Activity)
      → get (update_or_push id f items) id ≡ some (f (unwrap_or (fresh id) (get items id)))
  unfolding update_or_push get
  get-update_or_push id [] = rw (keeps (fresh id), str_eq_refl id) refl
  get-update_or_push id (i ∷ items) = elim (Bool-cases (str_eq i.id id)) [
    | inl e ↦ rw (e, keeps i, e) refl
    | inr e ↦ rw (e, e) (get-update_or_push id items)
  ]

  get-update_or_push_other :
      (id k : Str) (items : Activity)
      → str_eq id k ≡ false
      → get (update_or_push id f items) k ≡ get items k
  unfolding update_or_push get
  get-update_or_push_other id k [] n = rw (keeps (fresh id), n) refl
  get-update_or_push_other id k (i ∷ items) n = elim (Bool-cases (str_eq i.id id)) [
    | inl e ↦ rw (e, keeps i, str_eq_cong i.id id k e, n) refl
    | inr e ↦ rw e (
        ap (λ rest. if str_eq i.id k then some i else rest) (get-update_or_push_other id k items n))
  ]

Absent-retain :
    (k : Str) (p : Item → Bool) (items : Activity) → Absent k items → Absent k (retain p items)
Absent-retain k p [] h = tt
Absent-retain k p (i ∷ items) h = elim (Bool-cases (p i)) [
  | inl e ↦ rw e (h.0, Absent-retain k p items h.1)
  | inr e ↦ rw e (Absent-retain k p items h.1)
]

pub Unique-retain : (p : Item → Bool) (items : Activity) → Unique items → Unique (retain p items)
Unique-retain p [] u = tt
Unique-retain p (i ∷ items) u = elim (Bool-cases (p i)) [
  | inl e ↦ rw e (Absent-retain i.id p items u.0, Unique-retain p items u.1)
  | inr e ↦ rw e (Unique-retain p items u.1)
]

set_status-KeepsId :
    (prev : Option Status) (s : Option Str) (i : Item) → (set_status prev s i).id ≡ i.id
unfolding set_status
set_status-KeepsId prev none i = refl
set_status-KeepsId prev (some s) i = refl

-- A value is what is given, or else stays.
abbrev pub Replaced : {A B : Type 0} → (A → B) → Option A → B → B → Type 0
Replaced f none old new = new ≡ old
Replaced f (some x) old new = new ≡ f x

-- A text that is there and not empty.
abbrev pub not_empty : Option Str → Option Str
not_empty none = none
not_empty (some t) = if is_empty t then none else some t

module _ {A B : Type 0} where
  Replaced-elim :
      (f : A → B) (o : Option A) (old : B) → Replaced f o old (elim o [ none ↦ old | some x ↦ f x ])
  Replaced-elim f none old = refl
  Replaced-elim f (some x) old = refl

  Replaced-bind :
      (f : A → Option B) (o : Option A) (old : Option B)
      → Replaced f o old (if is_some o then elim o [ none ↦ none | some x ↦ f x ] else old)
  Replaced-bind f none old = refl
  Replaced-bind f (some x) old = refl

Replaced-unwrap_or :
    {A : Type 0} (o : Option A) (old : A) → Replaced (λ x. x) o old (unwrap_or old o)
Replaced-unwrap_or none old = refl
Replaced-unwrap_or (some x) old = refl

Replaced-not_empty :
    {A : Type 0} (f : A → Option Str) (o : Option A) (old : Option Str)
    → Replaced
        (λ x. not_empty (f x))
        o
        old
        (if is_some o then not_empty (elim o [ none ↦ none | some x ↦ f x ]) else old)
Replaced-not_empty f none old = refl
Replaced-not_empty f (some x) old = refl

-- The status from before is that of the item, or no stop of it was asked for.
abbrev Stands : Option Status → Item → Type 0
Stands prev old = (prev ≡ some old.status) ⊎ (old.stop_requested ≡ false)

found-Stands :
    (id : Str) (o : Option Item)
    → Stands (elim o [ none ↦ none | some i ↦ some i.status ]) (unwrap_or (fresh id) o)
found-Stands id none = inr refl
found-Stands id (some i) = inl refl

stop_stays :
    (prev : Option Status) (old : Item) (st : Status)
    → Stands prev old
    → (same_status prev st && old.stop_requested)
      ≡ (old.stop_requested && (status_code st == status_code old.status))
stop_stays prev old st (inl e) = rw e (ground arith)
stop_stays prev old st (inr e) = rw e (ground arith)

-- A new status changes the status and the stop request only.
set_status-only :
    (prev : Option Status) (o : Option Str) (old : Item)
    → Stands prev old
    → (st : Status) × (stop : Bool) × (set_status prev o old
        ≡ record old { status = st; stop_requested = stop })
      × Replaced parse_status o old.status st
      × (stop ≡ (old.stop_requested && (status_code st == status_code old.status)))
unfolding set_status
set_status-only prev none old h = (old.status, old.stop_requested, refl, refl, ground arith)
set_status-only prev (some s) old h =
    (parse_status s, _, refl, refl, stop_stays prev old (parse_status s) h)

module _ {V : Type 0} (j : Json V) where
  pub merge-KeepsId : (p : V) (prev : Option Status) (i : Item) → (merge j p prev i).id ≡ i.id
  unfolding merge merge_fields
  merge-KeepsId p prev i = set_status-KeepsId prev (get_str j p (utf8 "status")) i

  upsert_as-Unique :
      (p : V) (announce_new : Bool) (o : Option Str) (items : Activity)
      → Unique items
      → Unique (upsert_as j p announce_new o items).0
  unfolding upsert_as
  upsert_as-Unique p announce_new none items u = u
  upsert_as-Unique p announce_new (some id) items u =
      update_or_push-Unique (merge j p (status_in id items)) (merge-KeepsId p (status_in id items))
        id items u

  -- `upsert` keeps the identifiers of the items different.
  pub upsert-Unique :
      (p : V) (announce_new : Bool) (items : Activity)
      → Unique items
      → Unique (upsert j p announce_new items).0
  unfolding upsert
  upsert-Unique p announce_new items u = upsert_as-Unique p announce_new _ items u

  -- What a payload makes of an item: a field that the payload gives is the new one, and any other is the
  -- old one. A summary that is there but no text or empty, or a progress that is there but no number,
  -- takes the old one away. A stop request stays exactly as long as the status does.
  pub record Merged (p : V) (old i : Item) : Type 0 where
    pub id : i.id ≡ old.id
    pub log : i.log ≡ old.log
    pub kind : Replaced parse_kind (get_str j p (utf8 "kind")) old.kind i.kind
    pub title : Replaced (λ t. t) (get_str j p (utf8 "title")) old.title i.title
    pub status : Replaced parse_status (get_str j p (utf8 "status")) old.status i.status
    pub stop_requested :
        i.stop_requested ≡ (old.stop_requested && (status_code i.status == status_code old.status))
    pub stoppable :
        Replaced (λ b. b) (get_as j j.as_bool p (utf8 "stoppable")) old.stoppable i.stoppable
    pub summary :
        Replaced (λ v. not_empty (j.as_str v)) (j.get p (utf8 "summary")) old.summary i.summary
    pub progress : Replaced j.as_unit_f32 (j.get p (utf8 "progress")) old.progress i.progress
    pub started_at_ms :
        Replaced some (get_as j j.as_i64 p (utf8 "started_at_ms")) old.started_at_ms i.started_at_ms
    pub updated_at_ms :
        Replaced some (get_as j j.as_i64 p (utf8 "updated_at_ms")) old.updated_at_ms i.updated_at_ms
    pub steps : Replaced (map (step_of j)) (get_as j j.as_array p (utf8 "steps")) old.steps i.steps

  merge-Merged :
      (p : V) (prev : Option Status) (old : Item)
      → Stands prev old
      → Merged p old (merge j p prev old)
  unfolding merge merge_fields get_str
  merge-Merged p prev old st =
      let (status, stop, e, r, b) = set_status-only prev (get_str j p (utf8 "status")) old st in
      subst (λ i. Merged p old (merge_fields j p i)) (sym e)
        (record {
          id = refl;
          log = refl;
          kind = Replaced-elim parse_kind (get_str j p (utf8 "kind")) old.kind;
          title = Replaced-unwrap_or (get_str j p (utf8 "title")) old.title;
          status = r;
          stop_requested = b;
          stoppable = Replaced-unwrap_or (get_as j j.as_bool p (utf8 "stoppable")) old.stoppable;
          summary = Replaced-not_empty j.as_str (j.get p (utf8 "summary")) old.summary;
          progress = Replaced-bind j.as_unit_f32 (j.get p (utf8 "progress")) old.progress;
          started_at_ms =
              Replaced-elim some (get_as j j.as_i64 p (utf8 "started_at_ms")) old.started_at_ms;
          updated_at_ms =
              Replaced-elim some (get_as j j.as_i64 p (utf8 "updated_at_ms")) old.updated_at_ms;
          steps = Replaced-elim (map (step_of j)) (get_as j j.as_array p (utf8 "steps")) old.steps;
        })

  -- A payload with an identifier changes the item of that identifier, or adds one: the item that is
  -- then there has each field that the payload gives, keeps the others of the old item (or of a fresh
  -- one), and loses a stop request exactly when its status changes. Every other item is as before.
  pub get-upsert :
      (p : V) (announce_new : Bool) (items : Activity) (id : Str)
      → get_str j p (utf8 "id") ≡ some id
      → (i : Item) × (get (upsert j p announce_new items).0 id ≡ some i)
        × Merged p (unwrap_or (fresh id) (get items id)) i
        × ((k : Str) → str_eq id k ≡ false → get (upsert j p announce_new items).0 k ≡ get items k)
  unfolding upsert upsert_as
  get-upsert p announce_new items id h = rw h (
    _,
    get-update_or_push (merge j p (status_in id items)) (merge-KeepsId p (status_in id items)) id
        items,
    merge-Merged p (status_in id items) (unwrap_or (fresh id) (get items id))
        (found-Stands id (get items id)),
    λ k n.
        get-update_or_push_other (merge j p (status_in id items))
          (merge-KeepsId p (status_in id items)) id k items n,
  )

  pub upsert_all-Unique :
      (vs : List V) (items : Activity) → Unique items → Unique (upsert_all j vs items).0
  unfolding upsert_all
  upsert_all-Unique [] items u = u
  upsert_all-Unique (v ∷ vs) items u = upsert_all-Unique vs _ (upsert-Unique v false items u)
