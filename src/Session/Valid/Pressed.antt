-- ===== src/Session/Valid/Pressed.antt =====
-- crates/inline/src/session.rs: what a key does to the editor, a form and the browser keeps a session valid.
use camouflage.Prelude.{
  ℕ, ◌≤◌, Bool, true, false, not, ◌&&◌, Option, none, some, is_some, List, [], ◌∷◌, ◌++◌, ◌==◌,
  if◌then◌else◌, Bool-cases, is_empty, length, length-append, length-drop, unwrap_or, inl, inr,
  arith,
}
use camouflage.Prelude.Int.{ℤ}
use camouflage.Text.{Str, utf8, starts_with}
use camouflage.Width.{Unicode}
use camouflage.Key.{
  Key, text, paste, enter, esc, tab, back_tab, up, down, page_up, page_down, home, end, left, right,
  backspace, delete, ctrl,
}
use camouflage.Activity.View.{Outcome, View}
use camouflage.Blocks.{user}
use camouflage.Editor.{EditKey, EditOutcome, changed, submit, Editor}
use camouflage.Editor.Handle.{push_capped, handle}
use camouflage.Form.{FormState, FormOutcome, pending, submitted}
use camouflage.Session.{Session, send, is_busy, interrupt}
use camouflage.Session.Status.{flash, open_browser}
use camouflage.Session.Picker.{
  PickItem, was_sent, query_of, refresh_mention_query, submit_text, needs_args, accept_command,
  accept_mention, accept_item, accept_pick, picker,
}
use camouflage.Session.Keys.{
  form_outcome, browser_outcome, browser_outcomes, browser_key, is_ctrl, within_window, arm_exit,
  press_ctrl_c, press_ctrl_b, press_ctrl_r, global_ctrl, edited, edit_with, press_esc, global_key,
  pick_key, pick_or_edit, editor_key, input_text_width,
}
use camouflage.Session.Valid.{Kept-if, Valid, push_done-Kept}
use camouflage.Session.Valid.Settled.{interrupt-Valid}
use camouflage.Session.Valid.Entries.{Kept-Loose}
use camouflage.Session.Valid.Events.{open_browser-Kept}

push_capped-fits :
    {A : Type 0} (n : ℕ) (xs : List A) (x : A) → length xs ≤ n → length (push_capped n xs x) ≤ n
push_capped-fits n xs x h = ground (arith, length-append xs (x ∷ []), length-drop 1 (xs ++ x ∷ []))

submit_text-Valid : (t display : Str) (s : Session) → Valid s → Valid (submit_text t display s)
unfolding submit_text send
submit_text-Valid t display s v = push_done-Kept (user display) _ tt echoed
  where
    echoed : Valid (record s { echoes = push_capped 32 s.echoes display })
    echoed = record {
      fresh = v.fresh;
      consistent = v.consistent;
      streams_open = v.streams_open;
      reasons_open = v.reasons_open;
      waiting = v.waiting;
      few_echoes = push_capped-fits 32 s.echoes display v.few_echoes;
      live = v.live;
    }

query_of-Valid : (o : Option Str) (q : Str) (s : Session) → Valid s → Valid (query_of o q s)
unfolding query_of send
query_of-Valid none q s v = v
query_of-Valid (some dir) q s v = elim (Bool-cases (was_sent s.mention_query_sent dir)) [
  | inl c ↦ rw c v
  | inr c ↦ rw c v
]

refresh-Valid : (s : Session) → Valid s → Valid (refresh_mention_query s)
unfolding refresh_mention_query
refresh-Valid s v = query_of-Valid _ _ s v

accept_command-Valid :
    (run : Bool) (name : Str) (s : Session) → Valid s → Valid (accept_command run name s)
unfolding accept_command
accept_command-Valid run name s v = elim (Bool-cases (run && not (needs_args name s.commands))) [
  | inl c ↦ rw c (submit_text-Valid name name _ v)
  | inr c ↦ rw c v
]

accept_mention-Valid : (label : Str) (s : Session) → Valid s → Valid (accept_mention label s)
unfolding accept_mention
accept_mention-Valid label s v = refresh-Valid _ v

accept_item-Valid :
    (o : Option (List PickItem)) (run : Bool) (s : Session) → Valid s → Valid (accept_item o run s)
unfolding accept_item
accept_item-Valid none run s v = v
accept_item-Valid (some items) run s v =
    Kept-if (starts_with (utf8 "/") s.editor.buf) _ _ (accept_command-Valid run _ s v)
      (accept_mention-Valid _ s v)

pub form_outcome-Valid :
    (f : FormState) (o : FormOutcome) (s : Session) → Valid s → Valid (form_outcome f o s)
unfolding form_outcome send
form_outcome-Valid f pending s v = v
form_outcome-Valid f (submitted values) s v = v
form_outcome-Valid f FormOutcome.cancelled s v = v

browser_outcomes-Valid : (os : List Outcome) (s : Session) → Valid s → Valid (browser_outcomes os s)
unfolding browser_outcomes browser_outcome send
browser_outcomes-Valid [] s v = v
browser_outcomes-Valid (Outcome.close ∷ os) s v = browser_outcomes-Valid os _ v
browser_outcomes-Valid (Outcome.stop id ∷ os) s v = browser_outcomes-Valid os _ v
browser_outcomes-Valid (Outcome.view_changed w id ∷ os) s v = browser_outcomes-Valid os _ v

pub browser_key-Valid : (w : View) (k : Key) (s : Session) → Valid s → Valid (browser_key w k s)
unfolding browser_key
browser_key-Valid w k s v = browser_outcomes-Valid _ _ v

-- What a key gives, where it gives anything.
abbrev Gives : Option Session → Type 0
Gives none = Unit
Gives (some s) = Valid s

unwrap_or-Valid : (o : Option Session) (s : Session) → Gives o → Valid s → Valid (unwrap_or s o)
unwrap_or-Valid none s g v = v
unwrap_or-Valid (some t) s g v = g

Gives-if : (c : Bool) (x y : Option Session) → Gives x → Gives y → Gives (if c then x else y)
Gives-if true x y p q = p
Gives-if false x y p q = q

press_ctrl_c-Valid : (now : ℤ) (s : Session) → Valid s → Valid (press_ctrl_c now s)
unfolding press_ctrl_c
press_ctrl_c-Valid now s v = elim (Bool-cases (not (is_empty s.editor.buf))) [
  | inl c ↦ rw c v
  | inr c ↦ rw c (
      Kept-if (is_busy s) (arm_exit now (interrupt now s))
        (if within_window s.ctrl_c_at now then record s { exit = true } else arm_exit now s)
        (interrupt-Valid now s (Kept-Loose s v))
        (Kept-if (within_window s.ctrl_c_at now) (record s { exit = true }) (arm_exit now s) v v))
]

press_ctrl_b-Valid : (now : ℤ) (s : Session) → Valid s → Valid (press_ctrl_b now s)
unfolding press_ctrl_b flash
press_ctrl_b-Valid now s v =
    Kept-if (is_empty s.activity) (flash (utf8 "No background jobs or agents") now s)
      (open_browser s) v (open_browser-Kept s v)

global_ctrl-Gives : (c : ℕ) (now : ℤ) (s : Session) → Valid s → Gives (global_ctrl c now s)
unfolding global_ctrl press_ctrl_r flash
global_ctrl-Gives c now s v = Gives-if (c == b'c') _ _ (press_ctrl_c-Valid now s v) (
    Gives-if (c == b'd' && is_empty s.editor.buf) (some (record s { exit = true })) _ v (
      Gives-if (c == b'o') (some (record s { transcript_requested = true })) _ v (
        Gives-if (c == b'b' && is_empty s.editor.buf) _ _ (press_ctrl_b-Valid now s v) (
          Gives-if (c == b'r') (some (press_ctrl_r now s)) _ v
            (Gives-if (c == b'l') (some s) none v tt)))))

edited-Valid : (r : Editor × EditOutcome) (s : Session) → Valid s → Valid (edited r s)
unfolding edited
edited-Valid (e, submit t display) s v = submit_text-Valid t display _ v
edited-Valid (e, changed) s v = refresh-Valid _ v
edited-Valid (e, EditOutcome.none) s v = v

module _ (u : Unicode) (lowercase : Str → Str) where
  edit_with-Valid : (k : Option EditKey) (s : Session) → Valid s → Valid (edit_with u lowercase k s)
  unfolding edit_with
  edit_with-Valid none s v = v
  edit_with-Valid (some k) s v = edited-Valid (handle u k (input_text_width s) s.editor) s v

  press_esc-Valid : (now : ℤ) (s : Session) → Valid s → Valid (press_esc u lowercase now s)
  unfolding press_esc
  press_esc-Valid now s v =
      Kept-if (is_busy s) (interrupt now s)
        (if is_some (picker lowercase s)
          then record s { pick_dismissed = some s.editor.buf }
          else s)
        (interrupt-Valid now s (Kept-Loose s v))
        (Kept-if (is_some (picker lowercase s)) (record s { pick_dismissed = some s.editor.buf }) s
          v v)

  global_key-Gives :
      (k : Key) (now : ℤ) (s : Session) → Valid s → Gives (global_key u lowercase k now s)
  unfolding global_key send
  global_key-Gives esc now s v = press_esc-Valid now s v
  global_key-Gives back_tab now s v = v
  global_key-Gives (ctrl c) now s v = global_ctrl-Gives c now s v
  global_key-Gives (text t) now s v = tt
  global_key-Gives (paste t) now s v = tt
  global_key-Gives (enter a b) now s v = tt
  global_key-Gives tab now s v = tt
  global_key-Gives up now s v = tt
  global_key-Gives down now s v = tt
  global_key-Gives page_up now s v = tt
  global_key-Gives page_down now s v = tt
  global_key-Gives home now s v = tt
  global_key-Gives end now s v = tt
  global_key-Gives (left w) now s v = tt
  global_key-Gives (right w) now s v = tt
  global_key-Gives (backspace w) now s v = tt
  global_key-Gives (delete w) now s v = tt

  accept_pick-Valid : (run : Bool) (s : Session) → Valid s → Valid (accept_pick lowercase run s)
  unfolding accept_pick
  accept_pick-Valid run s v = accept_item-Valid (picker lowercase s) run s v

  pick_key-Gives : (k : Key) (n : ℕ) (s : Session) → Valid s → Gives (pick_key u lowercase k n s)
  unfolding pick_key
  pick_key-Gives up n s v = v
  pick_key-Gives down n s v = v
  pick_key-Gives tab n s v = accept_pick-Valid false s v
  pick_key-Gives (enter false false) n s v = accept_pick-Valid true s v
  pick_key-Gives (enter true b) n s v = tt
  pick_key-Gives (enter false true) n s v = tt
  pick_key-Gives (text t) n s v = tt
  pick_key-Gives (paste t) n s v = tt
  pick_key-Gives esc n s v = tt
  pick_key-Gives back_tab n s v = tt
  pick_key-Gives page_up n s v = tt
  pick_key-Gives page_down n s v = tt
  pick_key-Gives home n s v = tt
  pick_key-Gives end n s v = tt
  pick_key-Gives (left w) n s v = tt
  pick_key-Gives (right w) n s v = tt
  pick_key-Gives (backspace w) n s v = tt
  pick_key-Gives (delete w) n s v = tt
  pick_key-Gives (ctrl c) n s v = tt

  pick_or_edit-Valid :
      (k : Key) (o : Option (List PickItem)) (s : Session)
      → Valid s
      → Valid (pick_or_edit u lowercase k o s)
  unfolding pick_or_edit
  pick_or_edit-Valid k none s v = edit_with-Valid _ s v
  pick_or_edit-Valid k (some items) s v =
      unwrap_or-Valid _ _ (pick_key-Gives k (length items) s v) (edit_with-Valid _ s v)

  pub editor_key-Valid :
      (k : Key) (now : ℤ) (s : Session) → Valid s → Valid (editor_key u lowercase k now s)
  unfolding editor_key
  editor_key-Valid k now s v =
      unwrap_or-Valid _ _ (global_key-Gives k now _ calm) (pick_or_edit-Valid k _ _ calm)
    where
      calm : Valid (if is_ctrl b'c' k then s else record s { ctrl_c_at = none })
      calm = Kept-if (is_ctrl b'c' k) s (record s { ctrl_c_at = none }) v v
