-- ===== src/Session/Valid/Routed.antt =====
-- crates/inline/src/session.rs: the keys of a prompt, and who a key is for, keep a session valid.
use camouflage.Prelude.{
  ℕ, Bool, true, false, ◌&&◌, ◌||◌, Option, none, some, is_some, List, [], ◌∷◌, ◌==◌, if◌then◌else◌,
  Bool-cases, length, any, inl, inr,
}
use camouflage.Prelude.Int.{ℤ}
use camouflage.Text.{Str, str_eq, to_lower}
use camouflage.Width.{Unicode}
use camouflage.Key.{
  Key, text, paste, enter, esc, tab, back_tab, up, down, page_up, page_down, home, end, left, right,
  backspace, delete, ctrl,
}
use camouflage.Activity.View.{View}
use camouflage.Form.{FormState}
use camouflage.Session.{Session}
use camouflage.Session.Ask.{Prompt, armed, visible_options}
use camouflage.Session.Prompts.{
  set_prompt, resolve_prompt, is_filterable, is_confirm_kind, type_filter, picked, digit_of,
  prompt_text, answer_key, is_cancel, prompt_key_at, prompt_key, frame_drawn, mark_open,
}
use camouflage.Session.Keys.{route, handle_key}
use camouflage.Session.Valid.{Kept-if, Valid, Waiting}
use camouflage.Session.Valid.Settled.{resolve_prompt-Valid, set_prompt-Valid}
use camouflage.Session.Valid.Entries.{Kept-with}
use camouflage.Session.Valid.Pressed.{editor_key-Valid, form_outcome-Valid, browser_key-Valid}

module _ (u : Unicode) (lowercase : Str → Str) where
  prompt_text-Valid :
      (t : Str) (p : Prompt) (now : ℤ) (s : Session)
      → Valid s
      → Valid (prompt_text lowercase t p now s)
  unfolding prompt_text
  prompt_text-Valid t p now s v = elim (Bool-cases answered) [
    | inl c ↦ rw c (resolve_prompt-Valid _ now s v)
    | inr c ↦
        rw c (at (if is_filterable p.kind then none else picked (digit_of t) (length p.options)))
  ]
    where
      answered : Bool
      answered =
          is_confirm_kind p.kind
          && (str_eq (to_lower t) (b'y' ∷ []) || str_eq (to_lower t) (b'n' ∷ []))

      filtered : Session
      filtered = if is_filterable p.kind then set_prompt (type_filter lowercase t p) s else s

      at :
          (o : Option ℕ)
          → Valid (elim o as (λ _. Session) [
            | some d ↦ resolve_prompt (some d) now s
            | none ↦ filtered
          ])
      at (some d) = resolve_prompt-Valid (some d) now s v
      at none =
          Kept-if (is_filterable p.kind) (set_prompt (type_filter lowercase t p) s) s
            (set_prompt-Valid _ s v) v

  answer_key-Valid :
      (k : Key) (p : Prompt) (now : ℤ) (s : Session)
      → Valid s
      → Valid (answer_key lowercase k p now s)
  unfolding answer_key
  answer_key-Valid (text t) p now s v = prompt_text-Valid t p now s v
  answer_key-Valid (paste t) p now s v = v
  answer_key-Valid (enter a b) p now s v =
      Kept-if (any (λ (i : ℕ). i == p.selected) (visible_options lowercase p))
        (resolve_prompt (some p.selected) now s) s (resolve_prompt-Valid (some p.selected) now s v)
        v
  answer_key-Valid esc p now s v = resolve_prompt-Valid none now s v
  answer_key-Valid tab p now s v = set_prompt-Valid _ s v
  answer_key-Valid up p now s v = set_prompt-Valid _ s v
  answer_key-Valid down p now s v = set_prompt-Valid _ s v
  answer_key-Valid (backspace w) p now s v = set_prompt-Valid _ s v
  answer_key-Valid (ctrl c) p now s v = elim (Bool-cases (c == b'c')) [
    | inl d ↦ rw d (resolve_prompt-Valid none now s v)
    | inr d ↦ rw d (elim (Bool-cases (c == b'p')) [
      | inl e ↦ rw e (set_prompt-Valid _ s v)
      | inr e ↦
          rw e (elim (Bool-cases (c == b'n')) [
            | inl f ↦ rw f (set_prompt-Valid _ s v)
            | inr f ↦ rw f v
          ])
    ])
  ]
  answer_key-Valid back_tab p now s v = v
  answer_key-Valid page_up p now s v = v
  answer_key-Valid page_down p now s v = v
  answer_key-Valid home p now s v = v
  answer_key-Valid end p now s v = v
  answer_key-Valid (left w) p now s v = v
  answer_key-Valid (right w) p now s v = v
  answer_key-Valid (delete w) p now s v = v

  prompt_key_at-Valid :
      (o : Option Prompt) (k : Key) (now : ℤ) (s : Session)
      → Valid s
      → Valid (prompt_key_at lowercase o k now s)
  unfolding prompt_key_at
  prompt_key_at-Valid none k now s v = v
  prompt_key_at-Valid (some p) k now s v =
      Kept-if (armed p now) (answer_key lowercase k p now s)
        (if is_cancel k then resolve_prompt none now s else s) (answer_key-Valid k p now s v)
        (Kept-if (is_cancel k) (resolve_prompt none now s) s (resolve_prompt-Valid none now s v) v)

  route-Valid :
      (f : Option FormState) (asks : Bool) (w : Option View) (k : Key) (now : ℤ) (s : Session)
      → Valid s
      → Valid (route u lowercase f asks w k now s)
  unfolding route prompt_key
  route-Valid (some f) asks w k now s v = form_outcome-Valid _ _ s v
  route-Valid none true w k now s v = prompt_key_at-Valid s.prompt k now s v
  route-Valid none false (some w) k now s v = browser_key-Valid w k s v
  route-Valid none false none k now s v = editor_key-Valid u lowercase k now s v

  -- A key keeps a session valid.
  pub handle_key-Valid :
      (k : Key) (now : ℤ) (s : Session) → Valid s → Valid (handle_key u lowercase k now s)
  unfolding handle_key
  handle_key-Valid k now s v = route-Valid s.form (is_some s.prompt) s.browser k now s v

mark_open-Waiting :
    (now : ℤ) (o : Option Prompt) (ps : List Prompt) → Waiting o ps → Waiting (mark_open now o) ps
unfolding mark_open
mark_open-Waiting now none ps w = w
mark_open-Waiting now (some p) ps w = tt

pub frame_drawn-Valid : (now : ℤ) (s : Session) → Valid s → Valid (frame_drawn now s)
unfolding frame_drawn
frame_drawn-Valid now s v =
    Kept-if (is_some s.form) s (record s { prompt = mark_open now s.prompt }) v
      (Kept-with (mark_open now s.prompt) s.queued_prompts s
        (mark_open-Waiting now s.prompt s.queued_prompts v.waiting) v)
