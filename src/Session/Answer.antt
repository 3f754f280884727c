-- ===== src/Session/Answer.antt =====
-- crates/inline/src/session.rs: keys typed ahead do not grant a request, and an answer is sent once.
use camouflage.Prelude.{
  ℕ, ◌≡◌, refl, sym, subst, ap, ◌∙◌, Bool, true, false, not, ◌||◌, Option, none, some, is_some,
  List, [], ◌∷◌, ◌++◌, if◌then◌else◌, unwrap_or, any, All, arith, append_assoc, append-nil,
}
use camouflage.Prelude.Int.{ℤ, ◌-ℤ◌, leb_ℤ}
use camouflage.Text.{Str, utf8, str_eq}
use camouflage.Protocol.{EventType, cancel_requested, permission_response}
use camouflage.Key.{Key}
use camouflage.Session.{
  Session, Outbound, empty, permission_choice, form_values, cancelled, send, interrupt,
  show_queued_prompt, show_first,
}
use camouflage.Session.Ask.{
  Prompt, PromptKind, permission, select, confirm, is_permission, permission_kind, armed,
  permission_arm_ms,
}
use camouflage.Session.Prompts.{
  mark_shown, mark_open, frame_drawn, choice_name, resolve_kind, resolve_open, resolve_prompt,
  prompt_key, prompt_key_at, answer_key, is_cancel,
}
use camouflage.Session.Settle.{settle-Rest}
use camouflage.Session.Still.{Consistent}

-- An answer that lets the request through.
abbrev pub grants : Outbound → Bool
unfolding utf8 str_eq
grants o = elim o.payload [ permission_choice id c ↦ not (str_eq c (utf8 "deny")) | _ ↦ false ]

-- What the second session has sent beyond the first lets no request through.
abbrev pub SendsNoGrant : Session → Session → Type 0
SendsNoGrant before after =
    (sent : List Outbound) × (after.outbound ≡ before.outbound ++ sent) × (any grants sent ≡ false)

pub nothing_sent : (s : Session) → SendsNoGrant s s
nothing_sent s = ([], sym (append-nil s.outbound), refl)

pub grants-form_values :
    (t : EventType) (id : Str) (values : List (Str × Str))
    → grants (record { event_type = t; payload = form_values id values }) ≡ false
unfolding grants
grants-form_values t id values = refl

pub grants-cancelled :
    (t : EventType) (id : Str) → grants (record { event_type = t; payload = cancelled id }) ≡ false
unfolding grants
grants-cancelled t id = refl

show_first-outbound :
    (p : Option Prompt) (ps : List Prompt) (s : Session) → (show_first p ps s).outbound ≡ s.outbound
unfolding show_first
show_first-outbound none (p ∷ ps) s = refl
show_first-outbound none [] s = refl
show_first-outbound (some p) ps s = refl

show_queued-outbound : (s : Session) → (show_queued_prompt s).outbound ≡ s.outbound
unfolding show_queued_prompt
show_queued-outbound s = show_first-outbound s.prompt s.queued_prompts s

-- What is sent for a choice at a permission prompt: the answer, and a cancellation when it was
-- dismissed.
abbrev pub response : Str → Option ℕ → List Outbound
response id choice =
    (record {
      event_type = permission_response;
      payload = permission_choice id (choice_name choice);
    })
    ∷ (if is_some choice
        then []
        else (record { event_type = cancel_requested; payload = empty }) ∷ [])

resolve_permission :
    (p : Prompt) (id : Str) (choice : Option ℕ) (now : ℤ) (s : Session)
    → All Consistent s.entries
    → (resolve_kind p (permission id) choice now s).outbound ≡ s.outbound ++ response id choice
unfolding resolve_kind send interrupt
resolve_permission p id (some i) now s c = show_queued-outbound _
resolve_permission p id none now s c = show_queued-outbound _ ∙ interrupted
  where
    interrupted :
        (interrupt now
          (send permission_response (permission_choice id (choice_name none)) s)).outbound
        ≡ s.outbound ++ response id none
    interrupted = (settle-Rest now true _ c).outbound ∙ append_assoc s.outbound (_ ∷ []) (_ ∷ [])

-- Resolving an open permission prompt sends exactly one answer to its request: what the user chose,
-- or, when it is dismissed, a denial that a cancellation of the turn follows. It is supposed that no
-- tool runs in an entry that is done.
pub resolve_prompt-response :
    (p : Prompt) (id : Str) (choice : Option ℕ) (now : ℤ) (s : Session)
    → s.prompt ≡ some p
    → p.kind ≡ permission id
    → All Consistent s.entries
    → (resolve_prompt choice now s).outbound ≡ s.outbound ++ response id choice
unfolding resolve_prompt resolve_open
resolve_prompt-response p id choice now s h k c =
    ap (λ o. (resolve_open o choice now s).outbound) h
    ∙ ap (λ x. (resolve_kind p x choice now (record s { prompt = none })).outbound) k
    ∙ resolve_permission p id choice now (record s { prompt = none }) c

-- A denial grants nothing.
denied : (id : Str) → any grants (response id none) ≡ false
unfolding choice_name utf8 str_eq
denied id = refl

-- A prompt that is not armed asks for a permission.
unarmed-kind : (p : Prompt) (now : ℤ) → armed p now ≡ false → (id : Str) × (p.kind ≡ permission id)
unfolding armed
unarmed-kind p now h = of_kind p.kind refl
  where
    of_kind : (k : PromptKind) → p.kind ≡ k → (id : Str) × (p.kind ≡ permission id)
    of_kind (permission id) e = (id, e)
    of_kind (select id vs a f) e = absurd (ground (arith, h, ap permission_kind e))
    of_kind (confirm id a) e = absurd (ground (arith, h, ap permission_kind e))

-- As long as the open prompt is not armed, no key sends an answer that grants: keys are dropped, and
-- one that cancels denies the request. It is supposed that no tool runs in an entry that is done.
pub prompt_key-unarmed :
    (lowercase : Str → Str) (k : Key) (p : Prompt) (now : ℤ) (s : Session)
    → s.prompt ≡ some p
    → armed p now ≡ false
    → All Consistent s.entries
    → SendsNoGrant s (prompt_key lowercase k now s)
unfolding prompt_key prompt_key_at
prompt_key-unarmed lowercase k p now s h a c =
    subst (λ o. SendsNoGrant s (prompt_key_at lowercase o k now s)) (sym h) (dropped (is_cancel k))
  where
    dropped :
        (b : Bool)
        → SendsNoGrant s (
            if armed p now
            then answer_key lowercase k p now s
            else if b
            then resolve_prompt none now s
            else s)
    dropped true =
        let (id, e) = unarmed-kind p now a in
        rw a (response id none, resolve_prompt-response p id none now s h e c, denied id)
    dropped false = rw a (nothing_sent s)

shown-unarmed :
    (p : Prompt) (t now : ℤ)
    → is_permission p ≡ true
    → p.shown_at ≡ none
    → leb_ℤ permission_arm_ms (now -ℤ t) ≡ false
    → armed (mark_shown t p) now ≡ false
unfolding armed mark_shown
shown-unarmed p t now perm unseen early =
    ap (λ o. not (permission_kind p.kind) || leb_ℤ permission_arm_ms (now -ℤ unwrap_or t o)) unseen
    ∙ ground (arith, perm, early)

-- A permission prompt that was never on the screen, drawn at `t`: a key that comes less than 400 ms
-- later adds to what is sent nothing that grants a request. No form is open, and no tool runs in an
-- entry that is done.
pub frame_drawn-prompt_key :
    (lowercase : Str → Str) (k : Key) (p : Prompt) (t now : ℤ) (s : Session)
    → s.prompt ≡ some p
    → is_permission p ≡ true
    → p.shown_at ≡ none
    → is_some s.form ≡ false
    → leb_ℤ permission_arm_ms (now -ℤ t) ≡ false
    → All Consistent s.entries
    → SendsNoGrant s (prompt_key lowercase k now (frame_drawn t s))
unfolding frame_drawn mark_open
frame_drawn-prompt_key lowercase k p t now s h perm unseen form early c =
    subst (λ b. SendsNoGrant s (prompt_key lowercase k now (if b then s else drawn))) (sym form)
      (prompt_key-unarmed lowercase k (mark_shown t p) now drawn (ap (mark_open t) h)
        (shown-unarmed p t now perm unseen early) c)
  where
    drawn : Session
    drawn = record s { prompt = mark_open t s.prompt }
