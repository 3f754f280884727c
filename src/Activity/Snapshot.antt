-- ===== src/Activity/Snapshot.antt =====
-- crates/inline/src/activity.rs: a snapshot replaces the whole list.
use camouflage.Prelude.{
  ◌≡◌, refl, true, false, Option, none, some, List, [], ◌∷◌, Bool-cases, unwrap_or, retain, All,
  arith, inl, inr,
}
use camouflage.Text.{Str, utf8, str_eq}
use camouflage.Text.Laws.{str_eq_refl}
use camouflage.Blocks.{one_of}
use camouflage.Json.{Json, get_as, get_str}
use camouflage.Activity.{
  Item, Activity, fresh, update_or_push, merge, upsert, upsert_as, upsert_all, ids_of, cons_some,
  snapshot, status_in,
}
use camouflage.Activity.Items.{Unique, Unique-retain, upsert_all-Unique, merge-KeepsId}

-- Every identifier is one of the snapshot.
abbrev pub Within : List Str → Activity → Type 0
Within ids items = All (λ (i : Item). one_of i.id ids ≡ true) items

Within-retain :
    (ids : List Str) (items : Activity) → Within ids (retain (λ (i : Item). one_of i.id ids) items)
Within-retain ids [] = tt
Within-retain ids (i ∷ items) = elim (Bool-cases (one_of i.id ids)) [
  | inl e ↦ rw e (e, Within-retain ids items)
  | inr e ↦ rw e (Within-retain ids items)
]

update_or_push-Within :
    (f : Item → Item)
    → ((i : Item) → (f i).id ≡ i.id)
    → (ids : List Str) (id : Str) (items : Activity) → one_of id ids ≡ true
    → Within ids items
    → Within ids (update_or_push id f items)
unfolding update_or_push
update_or_push-Within f keeps ids id [] h w = (rw (keeps (fresh id)) h, tt)
update_or_push-Within f keeps ids id (i ∷ items) h w = elim (Bool-cases (str_eq i.id id)) [
  | inl e ↦ rw e (rw (keeps i) w.0, w.1)
  | inr e ↦ rw e (w.0, update_or_push-Within f keeps ids id items h w.1)
]

any-cons : (id k : Str) (ids : List Str) → one_of id ids ≡ true → one_of id (k ∷ ids) ≡ true
unfolding one_of
any-cons id k ids h = ground (arith, h)

cons_some-Within :
    (o : Option Str) (ids : List Str) (items : Activity)
    → Within ids items
    → Within (cons_some o ids) items
cons_some-Within none ids items w = w
cons_some-Within (some k) ids [] w = tt
cons_some-Within (some k) ids (i ∷ items) w =
    (any-cons i.id k ids w.0, cons_some-Within (some k) ids items w.1)

one_of-here : (id : Str) (ids : List Str) → one_of id (id ∷ ids) ≡ true
unfolding one_of
one_of-here id ids = rw (str_eq_refl id) refl

module _ {V : Type 0} (j : Json V) where
  -- The identifiers of all the payloads: those to come are among `ids`.
  abbrev Covers : List V → List Str → Type 0
  Covers vs ids =
      All (λ v. (id : Str) → get_str j v (utf8 "id") ≡ some id → one_of id ids ≡ true) vs

  Covers-cons :
      (o : Option Str) (vs : List V) (ids : List Str) → Covers vs ids → Covers vs (cons_some o ids)
  Covers-cons none vs ids c = c
  Covers-cons (some k) [] ids c = tt
  Covers-cons (some k) (v ∷ vs) ids c =
      (λ id h. any-cons id k ids (c.0 id h), Covers-cons (some k) vs ids c.1)

  ids_of-Covers : (vs : List V) → Covers vs (ids_of j vs)
  unfolding ids_of
  ids_of-Covers [] = tt
  ids_of-Covers (v ∷ vs) = (
    λ id h. rw h (one_of-here id (ids_of j vs)),
    Covers-cons (get_str j v (utf8 "id")) vs (ids_of j vs) (ids_of-Covers vs),
  )

  upsert_as-Within :
      (p : V) (o : Option Str) (ids : List Str) (items : Activity)
      → ((id : Str) → o ≡ some id → one_of id ids ≡ true)
      → Within ids items
      → Within ids (upsert_as j p false o items).0
  unfolding upsert_as
  upsert_as-Within p none ids items h w = w
  upsert_as-Within p (some id) ids items h w =
      update_or_push-Within (merge j p (status_in id items))
        (merge-KeepsId j p (status_in id items)) ids id items (h id refl) w

  upsert_all-Within :
      (vs : List V) (ids : List Str) (items : Activity)
      → Covers vs ids
      → Within ids items
      → Within ids (upsert_all j vs items).0
  unfolding upsert_all upsert
  upsert_all-Within [] ids items c w = w
  upsert_all-Within (v ∷ vs) ids items c w =
      upsert_all-Within vs ids _ c.1 (upsert_as-Within v _ ids items c.0 w)

  -- The payloads of a snapshot.
  abbrev pub incoming : V → List V
  incoming p = unwrap_or [] (get_as j j.as_array p (utf8 "items"))

  -- After a snapshot the identifiers of the items are different, if they were before, and every
  -- item has an identifier that the snapshot lists.
  pub snapshot-Within :
      (p : V) (items : Activity)
      → Unique items
      → Unique (snapshot j p items).0 × Within (ids_of j (incoming p)) (snapshot j p items).0
  unfolding snapshot
  snapshot-Within p items u = (
    upsert_all-Unique j (incoming p) _
        (Unique-retain (λ i. one_of i.id (ids_of j (incoming p))) items u),
    upsert_all-Within (incoming p) (ids_of j (incoming p)) _ (ids_of-Covers (incoming p))
        (Within-retain (ids_of j (incoming p)) items),
  )
