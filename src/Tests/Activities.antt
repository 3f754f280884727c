-- ===== src/Tests/Activities.antt =====
-- Concrete runs of the activity list (crates/inline/src/activity.rs): a small form of JSON, and the
-- theorems at it.
use camouflage.Prelude.{
  ◌≡◌, refl, arith, true, false, ◌&&◌, Option, none, some, is_some, List, [], ◌∷◌, if◌then◌else◌,
  unwrap_or,
}
use camouflage.Text.{Str, utf8, str_eq}
use camouflage.Json.{Json, get_str}
use camouflage.Key.{text}
use camouflage.Activity.{
  Item, Activity, running, done, active, fresh, get, upsert, snapshot, ids_of, log_output,
  change_of,
}
use camouflage.Activity.Items.{Unique, Merged, get-upsert}
use camouflage.Activity.Snapshot.{Within, incoming, snapshot-Within}
use camouflage.Activity.Changes.{
  Announced, change_of-Announced, BoundedLogs, log_output-BoundedLogs,
}
use camouflage.Activity.View.{list, key}
use camouflage.Activity.View.Browse.{Safe, key-Safe}

-- A text, a payload about one item, a snapshot of two, and the list in it.
pub data Doc : Type 0 where
  words : Str → Doc
  about : Str → Str → Str → Doc
  two both : Str → Str → Doc

abbrev field : Doc → Str → Option Doc
field (words t) k = none
field (about id status chunk) k =
    if str_eq k (utf8 "id")
    then some (words id)
    else if str_eq k (utf8 "status")
    then some (words status)
    else if str_eq k (utf8 "chunk")
    then some (words chunk)
    else none
field (two a b) k = if str_eq k (utf8 "items") then some (both a b) else none
field (both a b) k = none

abbrev text_of : Doc → Option Str
text_of (words t) = some t
text_of _ = none

abbrev items_of : Doc → Option (List Doc)
items_of (both a b) = some (about a (utf8 "running") [] ∷ about b (utf8 "done") [] ∷ [])
items_of _ = none

abbrev pub docs : Json Doc
docs = record {
  get = field;
  as_str = text_of;
  as_bool = λ d. none;
  as_i64 = λ d. none;
  as_array = items_of;
  as_u64 = λ d. none;
  as_object = λ d. none;
  is_null = λ d. false;
  print = λ d. [];
  set = λ d k v. d;
  string = words;
  boolean = λ b. words [];
  as_unit_f32 = λ d. none;
}

abbrev one : Str
one = b'1' ∷ []

abbrev two_id : Str
two_id = b'2' ∷ []

abbrev finished : Item
finished = record (fresh two_id) { status = done }

abbrev some_items : Activity
some_items = finished ∷ fresh one ∷ []

some_items-Unique : Unique some_items
unfolding str_eq
some_items-Unique = ((refl, tt), (tt, tt))

abbrev update : Doc
update = about one (utf8 "failed") []

get-upsert_example :
    (i : Item) × (get (upsert docs update true some_items).0 one ≡ some i)
    × Merged docs update (unwrap_or (fresh one) (get some_items one)) i
    × ((k : Str)
        → str_eq one k ≡ false
        → get (upsert docs update true some_items).0 k ≡ get some_items k)
unfolding get_str utf8 str_eq
get-upsert_example = get-upsert docs update true some_items one refl

snapshot-Within_example :
    Unique (snapshot docs (two one two_id) some_items).0
    × Within
        (ids_of docs (incoming docs (two one two_id)))
        (snapshot docs (two one two_id) some_items).0
snapshot-Within_example = snapshot-Within docs (two one two_id) some_items some_items-Unique

change_of-Announced_example :
    Announced running done false × (is_some (change_of none done false) ≡ (active done && false))
change_of-Announced_example = change_of-Announced running done false

log_output-BoundedLogs_example : BoundedLogs (log_output docs (about one [] (utf8 "hi")) some_items)
log_output-BoundedLogs_example =
    log_output-BoundedLogs docs (about one [] (utf8 "hi")) some_items
      (omega arith, (omega arith, tt))

-- A running job that the host lets stop, chosen in the list.
abbrev stoppable_items : Activity
stoppable_items = record (fresh one) { stoppable = true } ∷ finished ∷ []

key-Safe_example :
    Safe
      (list 0)
      (text (b's' ∷ []))
      stoppable_items
      (key (list 0) (text (b's' ∷ [])) stoppable_items 5)
key-Safe_example = key-Safe (list 0) (text (b's' ∷ [])) stoppable_items 5
