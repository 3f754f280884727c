-- ===== src/Activity/View/Browse.antt =====
-- crates/inline/src/activity.rs: what a key in the browser can do.
use camouflage.Prelude.{
  ℕ, Bool, true, false, ◌&&◌, ◌||◌, Option, none, some, List, [], ◌∷◌, ltb, ◌==◌, if◌then◌else◌,
  Bool-cases, length, any, All, ◌≡◌, refl, arith, inl, inr,
}
use camouflage.Text.{Str, str_eq}
use camouflage.Text.Laws.{str_eq_refl}
use camouflage.Key.{
  Key, text, paste, back_tab, delete, enter, esc, tab, up, down, left, right, home, end, backspace,
  page_up, page_down, ctrl,
}
use camouflage.Activity.{Item, Activity, active, ordered, get}
use camouflage.Activity.Order.{Holds, Given, get_elem?-Given, ordered-Holds, get-Holds}
use camouflage.Activity.View.{
  View, list, detail, confirm, Outcome, view_changed, stop, close, closed, may_stop, is_stop_key,
  open_detail, ask, key_list, key_detail, key_confirm, scroll_to, back_of, key,
}

abbrev pub is_stop : Outcome → Bool
is_stop (view_changed v id) = false
is_stop (stop id) = true
is_stop close = false

abbrev pub is_confirm : View → Bool
is_confirm (confirm id back from_detail) = true
is_confirm _ = false

-- The answer to the question whether to stop.
abbrev pub is_yes : Key → Bool
is_yes (text t) = str_eq t (b'y' ∷ []) || str_eq t (b'Y' ∷ [])
is_yes (enter shift alt) = true
is_yes _ = false

abbrev pub stops : View × List Outcome → Bool
stops r = any is_stop r.1

-- The question is asked only about an item of the list that is active and that the host lets stop.
abbrev pub Asks : View → Activity → Type 0
Asks (confirm id back from_detail) items =
    (i : Item) × Holds items i
    × (i.stoppable ≡ true)
    × (active i.status ≡ true)
    × (str_eq i.id id ≡ true)
Asks _ items = Unit

abbrev Quiet : View × List Outcome → Activity → Type 0
Quiet r items = (stops r ≡ false) × Asks r.0 items

Quiet-if :
    (b : Bool) (x y : View × List Outcome) (items : Activity)
    → Quiet x items
    → Quiet y items
    → Quiet (if b then x else y) items
Quiet-if true x y items p q = p
Quiet-if false x y items p q = q

both : (a b : Bool) → (a && b) ≡ true → (a ≡ true) × (b ≡ true)
both true true e = (refl, refl)
both true false e = absurd (ground (arith, e))
both false b e = absurd (ground (arith, e))

ask-Quiet :
    (v : View) (o : Option Item) (back : ℕ) (from_detail : Bool) (items : Activity)
    → Given (Holds items) o
    → Quiet (v, []) items
    → Quiet (ask v o back from_detail) items
ask-Quiet v none back from_detail items g q = q
ask-Quiet v (some i) back from_detail items g q =
    elim (Bool-cases (i.stoppable && active i.status)) [
      | inl e ↦ rw e (
          let (may, live) = both i.stoppable (active i.status) e in
          (refl, (i, g, may, live, str_eq_refl i.id)))
      | inr e ↦ rw e q
    ]

open_detail-Quiet :
    (sel sel' : ℕ) (o : Option Item) (items : Activity)
    → Quiet (open_detail (list sel) sel' o) items
open_detail-Quiet sel sel' none items = (refl, tt)
open_detail-Quiet sel sel' (some i) items = (refl, tt)

moved-Quiet :
    (b : Bool) (sel next : ℕ) (items : Activity)
    → Quiet (if b then list next else list sel, []) items
moved-Quiet true sel next items = (refl, tt)
moved-Quiet false sel next items = (refl, tt)

key_list-Quiet :
    (sel : ℕ) (k : Key) (rows items : Activity)
    → All (Holds items) rows
    → Quiet (key_list (list sel) sel k rows) items
unfolding key_list closed
key_list-Quiet sel (text t) rows items h =
    Quiet-if (is_stop_key t) _ _ items
      (ask-Quiet (list sel) _ _ false items (get_elem?-Given (Holds items) rows _ h) (refl, tt))
      (refl, tt)
key_list-Quiet sel (paste t) rows items h = (refl, tt)
key_list-Quiet sel (enter s a) rows items h = open_detail-Quiet sel _ _ items
key_list-Quiet sel (right w) rows items h = open_detail-Quiet sel _ _ items
key_list-Quiet sel tab rows items h = moved-Quiet (ltb 0 (length rows)) sel _ items
key_list-Quiet sel up rows items h = moved-Quiet (ltb 0 (length rows)) sel _ items
key_list-Quiet sel down rows items h = moved-Quiet (ltb 0 (length rows)) sel _ items
key_list-Quiet sel (ctrl c) rows items h =
    Quiet-if (c == b'c' || c == b'b') _ _ items (refl, tt)
      (Quiet-if (c == b'p') _ _ items (moved-Quiet (ltb 0 (length rows)) sel _ items)
        (Quiet-if (c == b'n') _ _ items (moved-Quiet (ltb 0 (length rows)) sel _ items) (refl, tt)))
key_list-Quiet sel esc rows items h = (refl, tt)
key_list-Quiet sel back_tab rows items h = (refl, tt)
key_list-Quiet sel page_up rows items h = (refl, tt)
key_list-Quiet sel page_down rows items h = (refl, tt)
key_list-Quiet sel home rows items h = (refl, tt)
key_list-Quiet sel end rows items h = (refl, tt)
key_list-Quiet sel (left w) rows items h = (refl, tt)
key_list-Quiet sel (backspace w) rows items h = (refl, tt)
key_list-Quiet sel (delete w) rows items h = (refl, tt)

confirm_detail-Quiet :
    (id : Str) (back scroll : ℕ) (follow : Bool) (items : Activity) (o : Option Item)
    → Given (λ i. Holds items i × (str_eq i.id id ≡ true)) o
    → Quiet (if may_stop o then confirm id back true else detail id back scroll follow, []) items
confirm_detail-Quiet id back scroll follow items none h = (refl, tt)
confirm_detail-Quiet id back scroll follow items (some i) h =
    elim (Bool-cases (i.stoppable && active i.status)) [
      | inl e ↦ rw e (
          let (may, live) = both i.stoppable (active i.status) e in
          (refl, (i, h.0, may, live, h.1)))
      | inr e ↦ rw e (refl, tt)
    ]

key_detail-Quiet :
    (id : Str) (back scroll : ℕ) (follow : Bool) (k : Key) (items : Activity) (page : ℕ)
    → Quiet (key_detail id back scroll follow k items page) items
unfolding key_detail scroll_to closed
key_detail-Quiet id back scroll follow (text t) items page =
    Quiet-if (is_stop_key t) _ _ items
      (confirm_detail-Quiet id back scroll follow items (get items id) (get-Holds id items))
      (refl, tt)
key_detail-Quiet id back scroll follow (ctrl c) items page =
    Quiet-if (c == b'c' || c == b'b') _ _ items (refl, tt)
      (Quiet-if (c == b'p') _ _ items (refl, tt)
        (Quiet-if (c == b'n') _ _ items (refl, tt) (refl, tt)))
key_detail-Quiet id back scroll follow (paste t) items page = (refl, tt)
key_detail-Quiet id back scroll follow (enter s a) items page = (refl, tt)
key_detail-Quiet id back scroll follow esc items page = (refl, tt)
key_detail-Quiet id back scroll follow tab items page = (refl, tt)
key_detail-Quiet id back scroll follow back_tab items page = (refl, tt)
key_detail-Quiet id back scroll follow up items page = (refl, tt)
key_detail-Quiet id back scroll follow down items page = (refl, tt)
key_detail-Quiet id back scroll follow page_up items page = (refl, tt)
key_detail-Quiet id back scroll follow page_down items page = (refl, tt)
key_detail-Quiet id back scroll follow home items page = (refl, tt)
key_detail-Quiet id back scroll follow end items page = (refl, tt)
key_detail-Quiet id back scroll follow (left w) items page = (refl, tt)
key_detail-Quiet id back scroll follow (right w) items page = (refl, tt)
key_detail-Quiet id back scroll follow (backspace w) items page = (refl, tt)
key_detail-Quiet id back scroll follow (delete w) items page = (refl, tt)

-- Yes stops this item and asks no longer; all else stops nothing.
abbrev pub Answered : Str → Key → View × List Outcome → Type 0
Answered id k r =
    (r.1 ≡ (if is_yes k then stop id ∷ [] else [])) × (is_yes k ≡ true → is_confirm r.0 ≡ false)

confirmed :
    (id : Str) (back : ℕ) (from_detail : Bool) → is_confirm (back_of id back from_detail) ≡ false
confirmed id back true = refl
confirmed id back false = refl

silent-if :
    (b : Bool) (x y : View) (k : Key) (id : Str)
    → is_yes k ≡ false
    → Answered id k (if b then (x, []) else (y, []))
silent-if true x y k id h = (rw h refl, λ e. absurd (ground (arith, h, e)))
silent-if false x y k id h = (rw h refl, λ e. absurd (ground (arith, h, e)))

abbrev Silent : View × List Outcome → Type 0
Silent r = (r.1 ≡ []) × (false ≡ true → is_confirm r.0 ≡ false)

not_yes : (b : Bool) (x y : View) → Silent (if b then (x, []) else (y, []))
not_yes true x y = (refl, λ h. absurd (ground (arith, h)))
not_yes false x y = (refl, λ h. absurd (ground (arith, h)))

key_confirm-Answered :
    (id : Str) (back : ℕ) (from_detail : Bool) (k : Key)
    → Answered id k (key_confirm id back from_detail k)
unfolding key_confirm
key_confirm-Answered id back from_detail (text t) =
    elim (Bool-cases (str_eq t (b'y' ∷ []) || str_eq t (b'Y' ∷ []))) [
      | inl e ↦ rw e (refl, λ h. confirmed id back from_detail)
      | inr e ↦ rw e (not_yes (str_eq t (b'n' ∷ []) || str_eq t (b'N' ∷ [])) _ _)
    ]
key_confirm-Answered id back from_detail (enter s a) = (refl, λ h. confirmed id back from_detail)
key_confirm-Answered id back from_detail (ctrl c) = silent-if (c == b'c') _ _ (ctrl c) id refl
key_confirm-Answered id back from_detail (paste t) = (refl, λ h. absurd (ground (arith, h)))
key_confirm-Answered id back from_detail esc = (refl, λ h. absurd (ground (arith, h)))
key_confirm-Answered id back from_detail tab = (refl, λ h. absurd (ground (arith, h)))
key_confirm-Answered id back from_detail back_tab = (refl, λ h. absurd (ground (arith, h)))
key_confirm-Answered id back from_detail up = (refl, λ h. absurd (ground (arith, h)))
key_confirm-Answered id back from_detail down = (refl, λ h. absurd (ground (arith, h)))
key_confirm-Answered id back from_detail page_up = (refl, λ h. absurd (ground (arith, h)))
key_confirm-Answered id back from_detail page_down = (refl, λ h. absurd (ground (arith, h)))
key_confirm-Answered id back from_detail home = (refl, λ h. absurd (ground (arith, h)))
key_confirm-Answered id back from_detail end = (refl, λ h. absurd (ground (arith, h)))
key_confirm-Answered id back from_detail (left w) = (refl, λ h. absurd (ground (arith, h)))
key_confirm-Answered id back from_detail (right w) = (refl, λ h. absurd (ground (arith, h)))
key_confirm-Answered id back from_detail (backspace w) = (refl, λ h. absurd (ground (arith, h)))
key_confirm-Answered id back from_detail (delete w) = (refl, λ h. absurd (ground (arith, h)))

-- What one key may do in a view.
abbrev pub Safe : View → Key → Activity → View × List Outcome → Type 0
Safe (confirm id back from_detail) k items r = Answered id k r
Safe _ k items r = (stops r ≡ false) × Asks r.0 items

-- Nothing is stopped without a yes: a key stops an item exactly when the browser asks about that
-- item and the key says yes, and then it asks no longer. From the other views no key stops
-- anything, and one opens the question only about an item of the list that is active and that the
-- host lets stop.
pub key-Safe :
    (v : View) (k : Key) (items : Activity) (page : ℕ) → Safe v k items (key v k items page)
unfolding key
key-Safe (list sel) k items page = key_list-Quiet sel k (ordered items) items (ordered-Holds items)
key-Safe (detail id back scroll follow) k items page =
    key_detail-Quiet id back scroll follow k items page
key-Safe (confirm id back from_detail) k items page = key_confirm-Answered id back from_detail k
