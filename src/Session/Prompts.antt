-- ===== src/Session/Prompts.antt =====
-- crates/inline/src/session.rs: the prompts, how they open, and how a key answers one.
use camouflage.Prelude.{
  ℕ, zero, suc, ◌+◌, ◌-◌, ◌%◌, max, Bool, true, false, not, ◌&&◌, ◌||◌, Option, none, some, is_some,
  List, [], ◌∷◌, ◌++◌, leb, ◌==◌, if◌then◌else◌, unwrap_or, any, length, get_or, position,
}
use camouflage.Prelude.Int.{ℤ}
use camouflage.Text.{Str, utf8, str_eq, to_lower, is_continuation, is_digit}
use camouflage.Protocol.{permission_response, select_list_response, confirm_response}
use camouflage.Key.{
  Key, text, paste, enter, esc, tab, back_tab, up, down, page_up, page_down, home, end, left, right,
  backspace, delete, ctrl,
}
use camouflage.Session.{
  Session, permission_choice, value, yes_no, cancelled, send, interrupt, show_queued_prompt,
}
use camouflage.Session.Ask.{
  Prompt, PromptKind, permission, select, confirm, is_permission, armed, visible_options,
}

unfoldable pub open_beside : Option Prompt → Prompt → Session → Session
open_beside none p s = record s { prompt = some p }
open_beside (some shown) p s =
    if is_permission shown || is_permission p
    then record s { queued_prompts = s.queued_prompts ++ p ∷ [] }
    else record s { prompt = some p }

unfoldable pub open_prompt : Prompt → Session → Session
open_prompt p s = open_beside s.prompt p s

-- `shown_at.get_or_insert(now)`
unfoldable pub mark_shown : ℤ → Prompt → Prompt
mark_shown now p = record p { shown_at = some (unwrap_or now p.shown_at) }

unfoldable pub mark_open : ℤ → Option Prompt → Option Prompt
mark_open now none = none
mark_open now (some p) = some (mark_shown now p)

unfoldable pub frame_drawn : ℤ → Session → Session
frame_drawn now s = if is_some s.form then s else record s { prompt = mark_open now s.prompt }

unfoldable pub choice_name : Option ℕ → Str
choice_name (some zero) = utf8 "allow_once"
choice_name (some (suc zero)) = utf8 "allow_session"
choice_name _ = utf8 "deny"

-- The arm of `resolve_prompt` for a kind of prompt; `s` has no open prompt any more.
unfoldable pub resolve_kind : Prompt → PromptKind → Option ℕ → ℤ → Session → Session
resolve_kind p (permission request_id) choice now s =
    let sent = send permission_response (permission_choice request_id (choice_name choice)) s in
    show_queued_prompt (if is_some choice then sent else interrupt now sent)
resolve_kind p (select id values allow_cancel filterable) (some i) now s =
    show_queued_prompt (send select_list_response (value id (get_or values i [])) s)
resolve_kind p (select id values allow_cancel filterable) none now s =
    if allow_cancel
    then show_queued_prompt (send select_list_response (cancelled id) s)
    else record s { prompt = some (record p { kind = select id values allow_cancel true }) }
resolve_kind p (confirm id allow_cancel) (some i) now s =
    show_queued_prompt (send confirm_response (yes_no id (i == 0)) s)
resolve_kind p (confirm id allow_cancel) none now s =
    if allow_cancel
    then show_queued_prompt (send confirm_response (cancelled id) s)
    else record s { prompt = some p }

unfoldable pub resolve_open : Option Prompt → Option ℕ → ℤ → Session → Session
resolve_open none choice now s = s
resolve_open (some p) choice now s = resolve_kind p p.kind choice now (record s { prompt = none })

unfoldable pub resolve_prompt : Option ℕ → ℤ → Session → Session
resolve_prompt choice now s = resolve_open s.prompt choice now s

-- `filter.pop()`: without the last character.
unfoldable pub pop_char : Str → Str
pop_char [] = []
pop_char (b ∷ s) =
    let rest = pop_char s in if any (λ (c : ℕ). not (is_continuation c)) s then b ∷ rest else []

-- The digit that a text begins with.
abbrev pub digit_of : Str → Option ℕ
digit_of [] = none
digit_of (b ∷ s) = if is_digit b then some (b - 48) else none

abbrev pub is_filterable : PromptKind → Bool
is_filterable (select id values allow_cancel filterable) = filterable
is_filterable _ = false

abbrev pub is_confirm_kind : PromptKind → Bool
is_confirm_kind (confirm id allow_cancel) = true
is_confirm_kind _ = false

abbrev pub first_or : ℕ → List ℕ → ℕ
first_or d [] = d
first_or d (i ∷ is) = i

-- The option that a digit picks, counted from 0.
abbrev pub picked : Option ℕ → ℕ → Option ℕ
picked none n = none
picked (some zero) n = none
picked (some (suc d)) n = if leb (suc d) n then some d else none

abbrev pub set_prompt : Prompt → Session → Session
set_prompt p s = record s { prompt = some p }

abbrev pub is_cancel : Key → Bool
is_cancel esc = true
is_cancel (ctrl c) = c == b'c'
is_cancel _ = false

module _ (lowercase : Str → Str) where
  unfoldable pub type_filter : Str → Prompt → Prompt
  type_filter t p =
      let typed : Prompt = record p { filter = p.filter ++ t } in
      record typed { selected = first_or p.selected (visible_options lowercase typed) }

  unfoldable pub prompt_text : Str → Prompt → ℤ → Session → Session
  prompt_text t p now s =
      let yn = to_lower t in
      let filtered = if is_filterable p.kind then set_prompt (type_filter t p) s else s in
      if is_confirm_kind p.kind && (str_eq yn (b'y' ∷ []) || str_eq yn (b'n' ∷ []))
      then resolve_prompt (some (if str_eq yn (b'y' ∷ []) then 0 else 1)) now s
      else elim (if is_filterable p.kind then none else picked (digit_of t) (length p.options)) [
        | some d ↦ resolve_prompt (some d) now s
        | none ↦ filtered
      ]

  -- A key at a prompt that is armed.
  unfoldable pub answer_key : Key → Prompt → ℤ → Session → Session
  answer_key key p now s =
      let visible = visible_options lowercase p in
      let n = max (length visible) 1 in
      let pos = unwrap_or 0 (position (λ (i : ℕ). i == p.selected) visible) in
      let to : ℕ → Session =
        λ i. set_prompt (record p { selected = get_or visible i p.selected }) s in
      elim key [
        | text t ↦ prompt_text t p now s
        | paste t ↦ s
        | enter shift alt ↦
            if any (λ (i : ℕ). i == p.selected) visible
            then resolve_prompt (some p.selected) now s
            else s
        | esc ↦ resolve_prompt none now s
        | tab ↦ to ((pos + 1) % n)
        | back_tab ↦ s
        | up ↦ to ((pos + n - 1) % n)
        | down ↦ to ((pos + 1) % n)
        | page_up ↦ s
        | page_down ↦ s
        | home ↦ s
        | end ↦ s
        | left w ↦ s
        | right w ↦ s
        | backspace w ↦ set_prompt (record p { filter = pop_char p.filter }) s
        | delete w ↦ s
        | ctrl c ↦
            if c == b'c'
            then resolve_prompt none now s
            else if c == b'p'
            then to ((pos + n - 1) % n)
            else if c == b'n'
            then to ((pos + 1) % n)
            else s
      ]

  unfoldable pub prompt_key_at : Option Prompt → Key → ℤ → Session → Session
  prompt_key_at none key now s = s
  prompt_key_at (some p) key now s =
      if armed p now
      then answer_key key p now s
      else if is_cancel key
      then resolve_prompt none now s
      else s

  unfoldable pub prompt_key : Key → ℤ → Session → Session
  prompt_key key now s = prompt_key_at s.prompt key now s
