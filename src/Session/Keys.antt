-- ===== src/Session/Keys.antt =====
-- crates/inline/src/session.rs: `handle_key`, the keys of the user, and the arms of `apply` for the
-- commands and the mentions.
use camouflage.Prelude.{
  ℕ, ◌+◌, ◌-◌, ◌%◌, max, Bool, true, false, not, ◌&&◌, ◌||◌, Option, none, some, is_some, List, [],
  ◌∷◌, map, ◌==◌, if◌then◌else◌, unwrap_or, is_empty, length,
}
use camouflage.Prelude.Int.{ℤ, pos, ◌-ℤ◌, ltb_ℤ}
use camouflage.Text.{Str, utf8}
use camouflage.Width.{Unicode}
use camouflage.Json.{Json, get_as, get_str}
use camouflage.Protocol.{
  form_response, activity_stop_requested, activity_view_changed, mode_change_requested,
}
use camouflage.Key.{
  Key, text, paste, enter, esc, tab, back_tab, up, down, home, end, left, right, backspace, delete,
  ctrl,
}
use camouflage.Activity.{Activity, Item, log_rows, request_stop, get}
use camouflage.Activity.View
use camouflage.Activity.View.{Outcome, View, item_id}
use camouflage.Editor.{EditKey, EditOutcome, changed, submit, Editor}
use camouflage.Editor.Handle.{clear, handle}
use camouflage.Form.{FormState, FormOutcome, pending, submitted, form_key}
use camouflage.Session.{
  Session, next_mode, cancelled, form_values, stop_item, view, is_busy, send, interrupt,
}
use camouflage.Session.Prompts.{prompt_key}
use camouflage.Session.Status.{flash, open_browser}
use camouflage.Session.Picker.{PickItem, picker, accept_pick, refresh_mention_query, submit_text}

abbrev pub ctrl_c_window_ms : ℤ
ctrl_c_window_ms = pos 1600

unfoldable pub input_text_width : Session → ℕ
input_text_width s = max (s.width - 6) 2

unfoldable pub form_outcome : FormState → FormOutcome → Session → Session
form_outcome form pending s = record s { form = some form }
form_outcome form (submitted values) s =
    send form_response (form_values form.id values) (record s { form = none })
form_outcome form FormOutcome.cancelled s =
    send form_response (cancelled form.id) (record s { form = none })

unfoldable pub browser_outcome : Outcome → Session → Session
browser_outcome Outcome.close s = record s { browser = none }
browser_outcome (Outcome.stop id) s =
    send activity_stop_requested (stop_item id) (record s { activity = request_stop id s.activity })
browser_outcome (Outcome.view_changed v id) s = send activity_view_changed (view v id) s

unfoldable pub browser_outcomes : List Outcome → Session → Session
browser_outcomes [] s = s
browser_outcomes (o ∷ os) s = browser_outcomes os (browser_outcome o s)

abbrev pub item_of : Option Str → Activity → Option Item
item_of none items = none
item_of (some id) items = get items id

unfoldable pub browser_key : View → Key → Session → Session
browser_key v k s =
    let (v', outcomes) =
      View.key v k s.activity (log_rows s.height (item_of (item_id v) s.activity)) in
    browser_outcomes outcomes (record s { browser = some v' })

abbrev pub is_ctrl : ℕ → Key → Bool
is_ctrl b (ctrl c) = c == b
is_ctrl b _ = false

abbrev pub within_window : Option ℤ → ℤ → Bool
within_window none now = false
within_window (some t) now = ltb_ℤ (now -ℤ t) ctrl_c_window_ms

abbrev pub arm_exit : ℤ → Session → Session
arm_exit now s = record s { ctrl_c_at = some now }

-- The first Ctrl+C clears the editor or interrupts the turn, and the next one quits.
unfoldable pub press_ctrl_c : ℤ → Session → Session
press_ctrl_c now s =
    if not (is_empty s.editor.buf)
    then arm_exit now (record s { editor = clear s.editor })
    else if is_busy s
    then arm_exit now (interrupt now s)
    else if within_window s.ctrl_c_at now
    then record s { exit = true }
    else arm_exit now s

unfoldable pub press_ctrl_b : ℤ → Session → Session
press_ctrl_b now s =
    if is_empty s.activity
    then flash (utf8 "No background jobs or agents") now s
    else open_browser s

unfoldable pub press_ctrl_r : ℤ → Session → Session
press_ctrl_r now s =
    flash (utf8 (if s.show_reasoning then "Reasoning hidden" else "Showing reasoning")) now
      (record s { show_reasoning = not s.show_reasoning })

-- The Ctrl keys that a session answers itself.
unfoldable pub global_ctrl : ℕ → ℤ → Session → Option Session
global_ctrl c now s =
    let at_start = is_empty s.editor.buf in
    if c == b'c'
    then some (press_ctrl_c now s)
    else if c == b'd' && at_start
    then some (record s { exit = true })
    else if c == b'o'
    then some (record s { transcript_requested = true })
    else if c == b'b' && at_start
    then some (press_ctrl_b now s)
    else if c == b'r'
    then some (press_ctrl_r now s)
    else if c == b'l'
    then some s
    else none

-- The editing key of a key.
unfoldable pub prompt_edit : Key → Option EditKey
prompt_edit (text t) = some (EditKey.text t)
prompt_edit (paste t) = some (EditKey.paste t)
prompt_edit (enter shift alt) = some (EditKey.enter (shift || alt))
prompt_edit (backspace word) = some (EditKey.backspace word)
prompt_edit (delete word) = some (EditKey.delete word)
prompt_edit (left word) = some (EditKey.left word)
prompt_edit (right word) = some (EditKey.right word)
prompt_edit up = some EditKey.up
prompt_edit down = some EditKey.down
prompt_edit home = some EditKey.line_start
prompt_edit end = some EditKey.line_end
prompt_edit (ctrl c) =
    if c == b'j'
    then some (EditKey.enter true)
    else if c == b'w'
    then some (EditKey.backspace true)
    else if c == b'b'
    then some (EditKey.left false)
    else if c == b'f'
    then some (EditKey.right false)
    else if c == b'p'
    then some EditKey.up
    else if c == b'n'
    then some EditKey.down
    else if c == b'a'
    then some EditKey.line_start
    else if c == b'e'
    then some EditKey.line_end
    else if c == b'k'
    then some EditKey.kill_to_end
    else if c == b'u'
    then some EditKey.kill_to_start
    else if c == b'y'
    then some EditKey.yank
    else if c == b'z' || c == b'_'
    then some EditKey.undo
    else none
prompt_edit _ = none

unfoldable pub edited : Editor × EditOutcome → Session → Session
edited (e, submit t display) s = submit_text t display (record s { editor = e })
edited (e, changed) s =
    refresh_mention_query (record s { editor = e; pick_sel = 0; pick_dismissed = none })
edited (e, EditOutcome.none) s = record s { editor = e }

module _ (u : Unicode) (lowercase : Str → Str) where
  unfoldable pub edit_with : Option EditKey → Session → Session
  edit_with none s = s
  edit_with (some k) s = edited (handle u k (input_text_width s) s.editor) s

  unfoldable pub press_esc : ℤ → Session → Session
  press_esc now s =
      if is_busy s
      then interrupt now s
      else if is_some (picker lowercase s)
      then record s { pick_dismissed = some s.editor.buf }
      else s

  -- The keys that come before the picker and the editor, with their effect.
  unfoldable pub global_key : Key → ℤ → Session → Option Session
  global_key esc now s = some (press_esc now s)
  global_key back_tab now s = some (send mode_change_requested next_mode s)
  global_key (ctrl c) now s = global_ctrl c now s
  global_key k now s = none

  -- The keys of the picker that shows `n` items.
  unfoldable pub pick_key : Key → ℕ → Session → Option Session
  pick_key up n s = some (record s { pick_sel = (s.pick_sel + n - 1) % n })
  pick_key down n s = some (record s { pick_sel = (s.pick_sel + 1) % n })
  pick_key tab n s = some (accept_pick lowercase false s)
  pick_key (enter false false) n s = some (accept_pick lowercase true s)
  pick_key k n s = none

  unfoldable pub pick_or_edit : Key → Option (List PickItem) → Session → Session
  pick_or_edit k none s = edit_with (prompt_edit k) s
  pick_or_edit k (some items) s =
      unwrap_or (edit_with (prompt_edit k) s) (pick_key k (length items) s)

  -- A key for the prompt editor.
  unfoldable pub editor_key : Key → ℤ → Session → Session
  editor_key k now s =
      let s' : Session = if is_ctrl b'c' k then s else record s { ctrl_c_at = none } in
      unwrap_or (pick_or_edit k (picker lowercase s') s') (global_key k now s')

  -- Who the key is for: the form, the prompt, the browser, or else the editor.
  unfoldable pub route : Option FormState → Bool → Option View → Key → ℤ → Session → Session
  route (some form) asks shown k now s =
      let (form', outcome) = form_key u k form in form_outcome form' outcome s
  route none true shown k now s = prompt_key lowercase k now s
  route none false (some v) k now s = browser_key v k s
  route none false none k now s = editor_key k now s

  unfoldable pub handle_key : Key → ℤ → Session → Session
  handle_key k now s = route s.form (is_some s.prompt) s.browser k now s

-- `trim_start_matches('/')`
unfoldable pub drop_slashes : Str → Str
drop_slashes [] = []
drop_slashes (b ∷ s) = let rest = drop_slashes s in if b == b'/' then rest else b ∷ s

abbrev pub tokens_of : List (Option Str) → List Str
tokens_of [] = []
tokens_of (none ∷ xs) = tokens_of xs
tokens_of (some x ∷ xs) = x ∷ tokens_of xs

unfoldable pub set_mentions : Option Str → List Str → Session → Session
set_mentions (some dir) tokens s = record s { path_mentions = some (dir, tokens); pick_sel = 0 }
set_mentions none tokens s = record s { mentions = tokens; pick_sel = 0 }

module _ {V : Type 0} (j : Json V) where
  abbrev pub command_of : V → Str × Str × Option Str
  command_of c = (
    drop_slashes (unwrap_or [] (get_str j c (utf8 "name"))),
    unwrap_or [] (get_str j c (utf8 "description")),
    get_str j c (utf8 "args_hint"),
  )

  -- `SlashCommandsRegistered`
  unfoldable pub commands_registered : V → Session → Session
  commands_registered p s = record s {
    commands = map command_of (unwrap_or [] (get_as j j.as_array p (utf8 "commands")));
  }

  -- `MentionCandidatesRegistered`
  unfoldable pub mentions_registered : V → Session → Session
  mentions_registered p s =
      set_mentions (get_str j p (utf8 "for_query"))
        (tokens_of (
          map (λ c. get_str j c (utf8 "token"))
            (unwrap_or [] (get_as j j.as_array p (utf8 "candidates")))))
        s
