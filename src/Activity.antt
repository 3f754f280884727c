-- ===== src/Activity.antt =====
-- crates/inline/src/activity.rs: the background jobs and agents that the host reports.
pub mod Items
pub mod Snapshot
pub mod Changes
pub mod Order
pub mod View
use camouflage.Prelude.{
  ℕ, zero, suc, ◌+◌, ◌-◌, min, Bool, true, false, not, ◌&&◌, ◌||◌, Option, none, some, is_some,
  List, [], ◌∷◌, ◌++◌, map, ltb, leb, ◌==◌, if◌then◌else◌, unwrap_or, is_empty, length, drop, any,
  find, retain, update_first,
}
use camouflage.Prelude.Int.{ℤ, ◌-ℤ◌, clamp_ℕ}
use camouflage.Text.{Str, utf8, str_eq, to_lower, split_at, replace_str, rfind_str}
use camouflage.Blocks.{one_of}
use camouflage.Ansi.{strip_ansi}
use camouflage.Json.{Json, get_as, get_str}

abbrev pub log_lines : ℕ
log_lines = 2000

abbrev pub max_steps : ℕ
max_steps = 6

pub data Kind : Type 0 where
  job agent : Kind

unfoldable pub parse_kind : Str → Kind
parse_kind s = if str_eq (to_lower s) (utf8 "agent") then agent else job

pub data Status : Type 0 where
  running waiting needs_attention done failed stopped : Status

unfoldable pub parse_status : Str → Status
parse_status s =
    if one_of s (utf8 "waiting" ∷ utf8 "queued" ∷ utf8 "pending" ∷ [])
    then waiting
    else if one_of s (utf8 "needs_attention" ∷ utf8 "attention" ∷ utf8 "blocked" ∷ [])
    then needs_attention
    else if one_of s (utf8 "done" ∷ utf8 "completed" ∷ utf8 "succeeded" ∷ utf8 "success" ∷ [])
    then done
    else if one_of s (utf8 "failed" ∷ utf8 "error" ∷ [])
    then failed
    else if one_of s (utf8 "stopped" ∷ utf8 "cancelled" ∷ utf8 "canceled" ∷ utf8 "killed" ∷ [])
    then stopped
    else running

abbrev pub active : Status → Bool
active running = true
active waiting = true
active needs_attention = true
active _ = false

abbrev pub status_code : Status → ℕ
status_code running = 0
status_code waiting = 1
status_code needs_attention = 2
status_code done = 3
status_code failed = 4
status_code stopped = 5

pub record Step : Type 0 where
  pub title : Str
  pub status : Str

-- `progress` is the bit pattern of the number.
pub record Item : Type 0 where
  pub id : Str
  pub kind : Kind
  pub title : Str
  pub status : Status
  pub stoppable : Bool
  pub summary : Option Str
  pub progress : Option ℕ
  pub started_at_ms : Option ℤ
  pub updated_at_ms : Option ℤ
  pub steps : List Step
  pub log : List Str
  pub stop_requested : Bool

unfoldable pub elapsed : Item → ℤ → Option ℕ
elapsed i now =
    let end = if active i.status then now else unwrap_or now i.updated_at_ms in
    elim i.started_at_ms [ none ↦ none | some start ↦ some (clamp_ℕ (end -ℤ start)) ]

pub data Transition : Type 0 where
  started finished failed needs_attention stopped : Transition

abbrev pub Activity : Type 0
Activity = List Item

unfoldable pub get : Activity → Str → Option Item
get items id = find (λ (i : Item). str_eq i.id id) items

-- The item that `upsert` pushes.
abbrev pub fresh : Str → Item
fresh id = record {
  id = id;
  kind = job;
  title = id;
  status = running;
  stoppable = false;
  summary = none;
  progress = none;
  started_at_ms = none;
  updated_at_ms = none;
  steps = [];
  log = [];
  stop_requested = false;
}

abbrev pub same_status : Option Status → Status → Bool
same_status none st = false
same_status (some a) st = status_code a == status_code st

-- The lifecycle change of a new status.
unfoldable pub change_of : Option Status → Status → Bool → Option Transition
change_of prev st announce_new =
    let was_active : Bool = elim prev [ none ↦ false | some a ↦ active a ] in
    if not (is_some prev) && active st && announce_new
    then some started
    else if was_active && same_status (some st) done
    then some finished
    else if was_active && same_status (some st) failed
    then some failed
    else if was_active && same_status (some st) stopped
    then some stopped
    else if same_status (some st) needs_attention
        && not (same_status prev needs_attention)
        && (is_some prev || announce_new)
    then some needs_attention
    else none

-- The first item of that id is changed, or a new one is pushed and changed.
unfoldable pub update_or_push : Str → (Item → Item) → Activity → Activity
update_or_push id f [] = f (fresh id) ∷ []
update_or_push id f (i ∷ items) =
    let rest = update_or_push id f items in if str_eq i.id id then f i ∷ items else i ∷ rest

-- One piece of a chunk: what follows its last carriage return.
unfoldable pub clean : Str → Str
clean part = elim (rfind_str (b'\r' ∷ []) part) [
  | none ↦ strip_ansi part
  | some i ↦ strip_ansi (drop (suc i) part)
]

unfoldable pub append_last : Str → List Str → List Str
append_last s [] = s ∷ []
append_last s (l ∷ []) = (l ++ s) ∷ []
append_last s (l ∷ m ∷ log) = l ∷ append_last s (m ∷ log)

unfoldable pub push_parts : List Str → List Str → List Str
push_parts [] log = append_last [] log
push_parts (first ∷ parts) log = append_last first log ++ parts

-- The log with the lines of a chunk, before its oldest lines are dropped.
unfoldable pub grown : Str → List Str → List Str
grown chunk log =
    push_parts (map clean (split_at b'\n' (replace_str (b'\r' ∷ b'\n' ∷ []) (b'\n' ∷ []) chunk)))
      log

unfoldable pub append_chunk : Str → List Str → List Str
append_chunk chunk log = drop (length (grown chunk log) - log_lines) (grown chunk log)

-- The status, and the stop request that a new one clears.
unfoldable pub set_status : Option Status → Option Str → Item → Item
set_status prev none i = i
set_status prev (some s) i = record i {
  status = parse_status s;
  stop_requested = same_status prev (parse_status s) && i.stop_requested;
}

-- A lifecycle change with the item it is about.
abbrev pub announce : Item → Option Transition → Option (Transition × Item)
announce item none = none
announce item (some c) = some (c, item)

unfoldable pub log_as : Option Str → Option Str → Activity → Activity
log_as (some id) (some chunk) items =
    update_first (λ (i : Item). str_eq i.id id) (λ i. record i { log = append_chunk chunk i.log })
      items
log_as _ _ items = items

abbrev pub cons_some {ℓ} : {A : Type ℓ} → Option A → List A → List A
cons_some none xs = xs
cons_some (some x) xs = x ∷ xs

abbrev pub status_in : Str → Activity → Option Status
status_in id items = elim (get items id) [ none ↦ none | some i ↦ some i.status ]

module _ {V : Type 0} (j : Json V) where
  abbrev pub step_of : V → Step
  step_of st = record {
    title = unwrap_or [] (get_str j st (utf8 "title"));
    status = unwrap_or (utf8 "pending") (get_str j st (utf8 "status"));
  }

  -- The fields that the payload has, but for the status.
  unfoldable pub merge_fields : V → Item → Item
  merge_fields p i = record i {
    kind = elim (get_str j p (utf8 "kind")) [ none ↦ i.kind | some k ↦ parse_kind k ];
    title = unwrap_or i.title (get_str j p (utf8 "title"));
    stoppable = unwrap_or i.stoppable (get_as j j.as_bool p (utf8 "stoppable"));
    summary =
        if is_some (j.get p (utf8 "summary"))
        then elim (get_str j p (utf8 "summary")) [
          | none ↦ none
          | some x ↦ if is_empty x then none else some x
        ]
        else i.summary;
    progress =
        if is_some (j.get p (utf8 "progress"))
        then get_as j j.as_unit_f32 p (utf8 "progress")
        else i.progress;
    started_at_ms = elim (get_as j j.as_i64 p (utf8 "started_at_ms")) [
      | none ↦ i.started_at_ms
      | some t ↦ some t
    ];
    updated_at_ms = elim (get_as j j.as_i64 p (utf8 "updated_at_ms")) [
      | none ↦ i.updated_at_ms
      | some t ↦ some t
    ];
    steps = elim (get_as j j.as_array p (utf8 "steps")) [
      | none ↦ i.steps
      | some steps ↦ map step_of steps
    ];
  }

  -- The fields that the payload has.
  unfoldable pub merge : V → Option Status → Item → Item
  merge p prev item = merge_fields p (set_status prev (get_str j p (utf8 "status")) item)

  unfoldable pub upsert_as :
      V → Bool → Option Str → Activity → Activity × Option (Transition × Item)
  upsert_as p announce_new none items = (items, none)
  upsert_as p announce_new (some id) items =
      let prev = status_in id items in
      let item = merge p prev (unwrap_or (fresh id) (get items id)) in
      (
        update_or_push id (merge p prev) items,
        announce item (change_of prev item.status announce_new),
      )

  -- The list, and the lifecycle change.
  unfoldable pub upsert : V → Bool → Activity → Activity × Option (Transition × Item)
  upsert p announce_new items = upsert_as p announce_new (get_str j p (utf8 "id")) items

  -- `log`
  unfoldable pub log_output : V → Activity → Activity
  log_output p items = log_as (get_str j p (utf8 "id")) (get_str j p (utf8 "chunk")) items

  unfoldable pub ids_of : List V → List Str
  ids_of [] = []
  ids_of (v ∷ vs) = cons_some (get_str j v (utf8 "id")) (ids_of vs)

  unfoldable pub upsert_all : List V → Activity → Activity × List (Transition × Item)
  upsert_all [] items = (items, [])
  upsert_all (v ∷ vs) items =
      let (items', change) = upsert v false items in
      let (items'', changes) = upsert_all vs items' in (items'', cons_some change changes)

  unfoldable pub snapshot : V → Activity → Activity × List (Transition × Item)
  snapshot p items =
      let incoming = unwrap_or [] (get_as j j.as_array p (utf8 "items")) in
      upsert_all incoming (retain (λ (i : Item). one_of i.id (ids_of incoming)) items)

unfoldable pub remove : Str → Activity → Activity
remove id items = retain (λ (i : Item). not (str_eq i.id id)) items

unfoldable pub request_stop : Str → Activity → Activity
request_stop id items =
    update_first (λ (i : Item). str_eq i.id id) (λ i. record i { stop_requested = true }) items

unfoldable pub any_active : Activity → Bool
any_active items = any (λ (i : Item). active i.status) items

-- The two parts of the sort key, as one number.
unfoldable pub rank : Item → ℕ
rank i =
    let kind : ℕ = elim i.kind [ job ↦ 3 | agent ↦ 0 ] in
    let state : ℕ = elim i.status [
      | needs_attention ↦ 0
      | running ↦ 1
      | waiting ↦ 1
      | done ↦ 2
      | failed ↦ 2
      | stopped ↦ 2
    ] in
    kind + state

-- `sort_by_key`, which is stable.
unfoldable pub insert_ordered : Item → Activity → Activity
insert_ordered i [] = i ∷ []
insert_ordered i (x ∷ xs) =
    let rest = insert_ordered i xs in if leb (rank i) (rank x) then i ∷ x ∷ xs else x ∷ rest

unfoldable pub ordered : Activity → Activity
ordered [] = []
ordered (i ∷ items) = insert_ordered i (ordered items)

-- Rows that the log gets in a terminal of `height` rows.
unfoldable pub log_rows : ℕ → Option Item → ℕ
log_rows height item =
    let steps : ℕ = elim item [ none ↦ 0 | some i ↦ min (length i.steps) (max_steps + 1) ] in
    let summary : ℕ = elim item [ none ↦ 0 | some i ↦ if is_some i.summary then 1 else 0 ] in
    let progress : ℕ = elim item [ none ↦ 0 | some i ↦ if is_some i.progress then 1 else 0 ] in
    let rows = height - (4 + steps + summary + progress + 3) in
    if ltb rows 3 then 3 else min rows 40
