-- ===== src/Activity/View.antt =====
-- crates/inline/src/activity.rs: the browser over the items.
pub mod Browse
use camouflage.Prelude.{
  ℕ, zero, suc, ◌+◌, ◌-◌, ◌%◌, min, max, Bool, true, false, not, ◌&&◌, ◌||◌, Option, none, some,
  is_some, List, [], ◌∷◌, ◌++◌, ltb, leb, ◌==◌, if◌then◌else◌, length, get_elem?,
}
use camouflage.Text.{Str, utf8, str_eq}
use camouflage.Blocks.{one_of}
use camouflage.Key.{
  Key, text, paste, back_tab, delete, enter, esc, tab, up, down, left, right, home, end, backspace,
  page_up, page_down, ctrl,
}
use camouflage.Activity.{Item, Activity, active, ordered, get}

pub data View : Type 0 where
  list : ℕ → View
  -- The item, the selection to return to, the scroll, whether it follows.
  detail : Str → ℕ → ℕ → Bool → View
  -- The item, the selection to return to, whether to return to the details.
  confirm : Str → ℕ → Bool → View

pub data Outcome : Type 0 where
  view_changed : Str → Option Str → Outcome
  stop : Str → Outcome
  close : Outcome

abbrev pub closed : List Outcome
unfolding utf8
closed = view_changed (utf8 "closed") none ∷ close ∷ []

abbrev pub may_stop : Option Item → Bool
may_stop none = false
may_stop (some i) = i.stoppable && active i.status

abbrev pub is_stop_key : Str → Bool
is_stop_key t = str_eq t (b's' ∷ []) || str_eq t (b'x' ∷ [])

abbrev pub open_detail : View → ℕ → Option Item → View × List Outcome
open_detail v sel none = (v, [])
open_detail v sel (some i) = (detail i.id sel 0 true, view_changed (utf8 "detail") (some i.id) ∷ [])

abbrev pub ask : View → Option Item → ℕ → Bool → View × List Outcome
ask v none back_sel from_detail = (v, [])
ask v (some i) back_sel from_detail =
    (if i.stoppable && active i.status then confirm i.id back_sel from_detail else v, [])

-- The arms of the list view; `v` is the view before the key.
unfoldable pub key_list : View → ℕ → Key → List Item → View × List Outcome
key_list v sel' key items =
    let n = length items in
    let sel = min sel' (n - 1) in
    let previous : View × List Outcome = (if ltb 0 n then list ((sel + n - 1) % n) else v, []) in
    let next : View × List Outcome = (if ltb 0 n then list ((sel + 1) % n) else v, []) in
    let opened : View × List Outcome = open_detail v sel (get_elem? items sel) in
    elim key [
      | text t ↦ if is_stop_key t then ask v (get_elem? items sel) sel false else (v, [])
      | paste t ↦ (v, [])
      | enter shift alt ↦ opened
      | esc ↦ (v, closed)
      | tab ↦ next
      | back_tab ↦ (v, [])
      | up ↦ previous
      | down ↦ next
      | page_up ↦ (v, [])
      | page_down ↦ (v, [])
      | home ↦ (v, [])
      | end ↦ (v, [])
      | left w ↦ (v, [])
      | right w ↦ opened
      | backspace w ↦ (v, [])
      | delete w ↦ (v, [])
      | ctrl c ↦
          if c == b'c' || c == b'b'
          then (v, closed)
          else if c == b'p'
          then previous
          else if c == b'n'
          then next
          else (v, [])
    ]

abbrev pub log_length : Option Item → ℕ
log_length none = 0
log_length (some i) = length i.log

-- The closure `set`: `follow` looks at the scroll before it is cut to the log.
unfoldable pub scroll_to : Str → ℕ → ℕ → ℕ → View
scroll_to id back_sel max_scroll scroll = detail id back_sel (min scroll max_scroll) (scroll == 0)

unfoldable pub key_detail : Str → ℕ → ℕ → Bool → Key → Activity → ℕ → View × List Outcome
key_detail id back_sel scroll follow key items page =
    let v = detail id back_sel scroll follow in
    let max_scroll = log_length (get items id) - max page 1 in
    let cur = if follow then 0 else scroll in
    let set : ℕ → View × List Outcome = λ n. (scroll_to id back_sel max_scroll n, []) in
    let back : View × List Outcome = (list back_sel, view_changed (utf8 "list") none ∷ []) in
    elim key [
      | text t ↦
          if is_stop_key t
          then (if may_stop (get items id) then confirm id back_sel true else v, [])
          else (v, [])
      | paste t ↦ (v, [])
      | enter shift alt ↦ (v, [])
      | esc ↦ back
      | tab ↦ (v, [])
      | back_tab ↦ (v, [])
      | up ↦ set (cur + 1)
      | down ↦ set (cur - 1)
      | page_up ↦ set (cur + max page 1)
      | page_down ↦ set (cur - max page 1)
      | home ↦ set max_scroll
      | end ↦ set 0
      | left w ↦ back
      | right w ↦ (v, [])
      | backspace w ↦ back
      | delete w ↦ (v, [])
      | ctrl c ↦
          if c == b'c' || c == b'b'
          then (v, closed)
          else if c == b'p'
          then set (cur + 1)
          else if c == b'n'
          then set (cur - 1)
          else (v, [])
    ]

abbrev pub back_of : Str → ℕ → Bool → View
back_of id back_sel true = detail id back_sel 0 true
back_of id back_sel false = list back_sel

unfoldable pub key_confirm : Str → ℕ → Bool → Key → View × List Outcome
key_confirm id back_sel from_detail key =
    let v = confirm id back_sel from_detail in
    let back = back_of id back_sel from_detail in
    elim key [
      | text t ↦
          if str_eq t (b'y' ∷ []) || str_eq t (b'Y' ∷ [])
          then (back, stop id ∷ [])
          else if str_eq t (b'n' ∷ []) || str_eq t (b'N' ∷ [])
          then (back, [])
          else (v, [])
      | paste t ↦ (v, [])
      | enter shift alt ↦ (back, stop id ∷ [])
      | esc ↦ (back, [])
      | tab ↦ (v, [])
      | back_tab ↦ (v, [])
      | up ↦ (v, [])
      | down ↦ (v, [])
      | page_up ↦ (v, [])
      | page_down ↦ (v, [])
      | home ↦ (v, [])
      | end ↦ (v, [])
      | left w ↦ (v, [])
      | right w ↦ (v, [])
      | backspace w ↦ (v, [])
      | delete w ↦ (v, [])
      | ctrl c ↦ if c == b'c' then (back, []) else (v, [])
    ]

-- `View::key`: `page` is the height of the log.
unfoldable pub key : View → Key → Activity → ℕ → View × List Outcome
key (list sel) k items page = key_list (list sel) sel k (ordered items)
key (detail id back_sel scroll follow) k items page =
    key_detail id back_sel scroll follow k items page
key (confirm id back_sel from_detail) k items page = key_confirm id back_sel from_detail k

unfoldable pub item_id : View → Option Str
item_id (list sel) = none
item_id (detail id back_sel scroll follow) = some id
item_id (confirm id back_sel from_detail) = some id
