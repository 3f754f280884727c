-- ===== src/Activity/Changes.antt =====
-- crates/inline/src/activity.rs: the lifecycle changes that are announced, and the bound of a log.
use camouflage.Prelude.{
  ℕ, ◌-◌, ◌≤◌, ◌≡◌, refl, Bool, true, false, not, ◌&&◌, ◌||◌, Option, none, some, is_some, List, [],
  ◌∷◌, Bool-cases, drop, length, length-drop, All, arith, inl, inr,
}
use camouflage.Text.{Str, str_eq}
use camouflage.Json.{Json}
use camouflage.Activity.{
  Item, Activity, Status, running, waiting, needs_attention, done, failed, stopped, active,
  change_of, same_status, log_as, log_output, log_lines, append_chunk, grown,
}

abbrev pub Announced : Status → Status → Bool → Type 0
Announced prev st announce_new = is_some (change_of (some prev) st announce_new) ≡ (
    active prev && not (active st)
    || same_status (some st) Status.needs_attention
      && not (same_status (some prev) Status.needs_attention))

from_running : (st : Status) (b : Bool) → Announced running st b
unfolding change_of
from_running st b = elim st as (λ s. Announced running s b) [
  | running ↦ refl
  | waiting ↦ refl
  | needs_attention ↦ refl
  | done ↦ refl
  | failed ↦ refl
  | stopped ↦ refl
]

from_waiting : (st : Status) (b : Bool) → Announced waiting st b
unfolding change_of
from_waiting st b = elim st as (λ s. Announced waiting s b) [
  | running ↦ refl
  | waiting ↦ refl
  | needs_attention ↦ refl
  | done ↦ refl
  | failed ↦ refl
  | stopped ↦ refl
]

from_needs_attention : (st : Status) (b : Bool) → Announced Status.needs_attention st b
unfolding change_of
from_needs_attention st b = elim st as (λ s. Announced Status.needs_attention s b) [
  | running ↦ refl
  | waiting ↦ refl
  | needs_attention ↦ refl
  | done ↦ refl
  | failed ↦ refl
  | stopped ↦ refl
]

from_done : (st : Status) (b : Bool) → Announced done st b
unfolding change_of
from_done st b = elim st as (λ s. Announced done s b) [
  | running ↦ refl
  | waiting ↦ refl
  | needs_attention ↦ refl
  | done ↦ refl
  | failed ↦ refl
  | stopped ↦ refl
]

from_failed : (st : Status) (b : Bool) → Announced Status.failed st b
unfolding change_of
from_failed st b = elim st as (λ s. Announced Status.failed s b) [
  | running ↦ refl
  | waiting ↦ refl
  | needs_attention ↦ refl
  | done ↦ refl
  | failed ↦ refl
  | stopped ↦ refl
]

from_stopped : (st : Status) (b : Bool) → Announced Status.stopped st b
unfolding change_of
from_stopped st b = elim st as (λ s. Announced Status.stopped s b) [
  | running ↦ refl
  | waiting ↦ refl
  | needs_attention ↦ refl
  | done ↦ refl
  | failed ↦ refl
  | stopped ↦ refl
]

known : (prev st : Status) (b : Bool) → Announced prev st b
known prev st b = elim prev as (λ p. Announced p st b) [
  | running ↦ from_running st b
  | waiting ↦ from_waiting st b
  | needs_attention ↦ from_needs_attention st b
  | done ↦ from_done st b
  | failed ↦ from_failed st b
  | stopped ↦ from_stopped st b
]

new : (st : Status) (b : Bool) → is_some (change_of none st b) ≡ (active st && b)
unfolding change_of
new st b = elim st as (λ s. is_some (change_of none s b) ≡ (active s && b)) [
  | running ↦ elim b as (λ c. is_some (change_of none running c) ≡ (active running && c)) [
    | true ↦ refl
    | false ↦ refl
  ]
  | waiting ↦ elim b as (λ c. is_some (change_of none waiting c) ≡ (active waiting && c)) [
    | true ↦ refl
    | false ↦ refl
  ]
  | needs_attention ↦
      elim b
        as (λ c.
          is_some (change_of none Status.needs_attention c)
          ≡ (active Status.needs_attention && c)) [ true ↦ refl | false ↦ refl ]
  | done ↦ elim b as (λ c. is_some (change_of none done c) ≡ (active done && c)) [
    | true ↦ refl
    | false ↦ refl
  ]
  | failed ↦
      elim b as (λ c. is_some (change_of none Status.failed c) ≡ (active Status.failed && c)) [
        | true ↦ refl
        | false ↦ refl
      ]
  | stopped ↦
      elim b as (λ c. is_some (change_of none Status.stopped c) ≡ (active Status.stopped && c)) [
        | true ↦ refl
        | false ↦ refl
      ]
]

-- Of an item that is known, exactly these changes are announced: it leaves the active statuses, or
-- it starts to need attention. Of a new one, exactly that it is active, and only if new items are
-- announced.
pub change_of-Announced :
    (prev st : Status) (announce_new : Bool)
    → Announced prev st announce_new
      × (is_some (change_of none st announce_new) ≡ (active st && announce_new))
unfolding change_of
change_of-Announced prev st announce_new = (known prev st announce_new, new st announce_new)

abbrev pub BoundedLogs : Activity → Type 0
BoundedLogs items = All (λ (i : Item). length i.log ≤ log_lines) items

kept_last {ℓ} : {A : Type ℓ} (n : ℕ) (xs : List A) → length (drop (length xs - n) xs) ≤ n
kept_last n xs = omega (arith, length-drop (length xs - n) xs)

append_chunk-bound : (chunk : Str) (log : List Str) → length (append_chunk chunk log) ≤ log_lines
unfolding append_chunk grown
append_chunk-bound chunk log = kept_last log_lines (grown chunk log)

log_as-BoundedLogs :
    (id chunk : Option Str) (items : Activity)
    → BoundedLogs items
    → BoundedLogs (log_as id chunk items)
unfolding log_as
log_as-BoundedLogs (some id) (some chunk) [] b = tt
log_as-BoundedLogs (some id) (some chunk) (i ∷ items) b = elim (Bool-cases (str_eq i.id id)) [
  | inl e ↦ rw e (append_chunk-bound chunk i.log, b.1)
  | inr e ↦ rw e (b.0, log_as-BoundedLogs (some id) (some chunk) items b.1)
]
log_as-BoundedLogs (some id) none items b = b
log_as-BoundedLogs none chunk items b = b

-- Output never makes a log longer than 2000 lines, whatever the chunk is.
pub log_output-BoundedLogs :
    {V : Type 0} (j : Json V) (p : V) (items : Activity)
    → BoundedLogs items
    → BoundedLogs (log_output j p items)
unfolding log_output
log_output-BoundedLogs j p items b = log_as-BoundedLogs _ _ items b
