-- ===== src/Session/Queue.antt =====
-- crates/inline/src/session.rs: the prompts wait in the order in which they came.
use camouflage.Prelude.{
  ℕ, ◌≡◌, refl, sym, subst, ap, ◌∙◌, Bool, true, false, ◌||◌, Option, none, some, is_some, List, [],
  ◌∷◌, ◌++◌,
}
use camouflage.Prelude.Int.{ℤ}
use camouflage.Session.{Session, send, show_queued_prompt, show_first}
use camouflage.Session.Ask.{Prompt, PromptKind, permission, select, confirm, is_permission}
use camouflage.Session.Prompts.{
  open_prompt, open_beside, resolve_kind, resolve_open, resolve_prompt,
}

-- The open prompt and those behind it, first to last.
abbrev pub pending_of : Option Prompt → List Prompt → List Prompt
pending_of none ps = ps
pending_of (some p) ps = p ∷ ps

abbrev pub pending : Session → List Prompt
pending s = pending_of s.prompt s.queued_prompts

-- Prompts wait only behind an open one.
abbrev pub Ordered : Session → Type 0
Ordered s = is_some s.prompt ≡ false → s.queued_prompts ≡ []

-- Whether the open prompt or the new one is for a permission.
abbrev pub involved : Option Prompt → Prompt → Bool
involved none p = is_permission p
involved (some shown) p = is_permission shown || is_permission p

open_beside-pending :
    (o : Option Prompt) (p : Prompt) (s : Session)
    → s.prompt ≡ o
    → (is_some o ≡ false → s.queued_prompts ≡ [])
    → involved o p ≡ true
    → pending (open_beside o p s) ≡ pending_of o s.queued_prompts ++ p ∷ []
unfolding open_beside
open_beside-pending none p s e h i =
    ap (λ ps. p ∷ ps) (h refl) ∙ ap (λ ps. ps ++ p ∷ []) (sym (h refl))
open_beside-pending (some shown) p s e h i =
    rw i (ap (λ o. pending_of o (s.queued_prompts ++ p ∷ [])) e)

-- When prompts wait only behind an open one, a prompt that opens beside a permission prompt, or that
-- is one itself, goes behind all that wait: no request is lost, replaced or overtaken.
pub open_prompt-pending :
    (p : Prompt) (s : Session)
    → Ordered s
    → involved s.prompt p ≡ true
    → pending (open_prompt p s) ≡ pending s ++ p ∷ []
unfolding open_prompt
open_prompt-pending p s o i = open_beside-pending s.prompt p s refl o i

-- The first of the prompts is open, when there is one, and the others wait behind it.
abbrev pub Opens : List Prompt → Session → Type 0
Opens [] s = (s.prompt ≡ none) × (s.queued_prompts ≡ [])
Opens (p ∷ ps) s = (s.prompt ≡ some p) × (s.queued_prompts ≡ ps)

show_first-Opens :
    (ps : List Prompt) (s : Session)
    → s.prompt ≡ none
    → s.queued_prompts ≡ ps
    → Opens ps (show_first none ps s)
unfolding show_first
show_first-Opens [] s h e = (h, e)
show_first-Opens (p ∷ ps) s h e = (refl, refl)

show_queued-Opens : (s : Session) → s.prompt ≡ none → Opens s.queued_prompts (show_queued_prompt s)
unfolding show_queued_prompt
show_queued-Opens s h =
    subst (λ o. Opens s.queued_prompts (show_first o s.queued_prompts s)) (sym h)
      (show_first-Opens s.queued_prompts s h refl)

resolve_kind-Opens :
    (p : Prompt) (k : PromptKind) (i : ℕ) (now : ℤ) (s : Session)
    → s.prompt ≡ none
    → Opens s.queued_prompts (resolve_kind p k (some i) now s)
unfolding resolve_kind send
resolve_kind-Opens p (permission id) i now s h = show_queued-Opens _ h
resolve_kind-Opens p (select id values c f) i now s h = show_queued-Opens _ h
resolve_kind-Opens p (confirm id c) i now s h = show_queued-Opens _ h

-- After a choice at the open prompt the prompt that has waited longest is the open one and the others
-- wait behind it in their order; when none waits, no prompt is open and none waits.
pub resolve_prompt-pending :
    (p : Prompt) (i : ℕ) (now : ℤ) (s : Session)
    → s.prompt ≡ some p
    → Opens s.queued_prompts (resolve_prompt (some i) now s)
unfolding resolve_prompt resolve_open
resolve_prompt-pending p i now s h =
    subst (λ o. Opens s.queued_prompts (resolve_open o (some i) now s)) (sym h)
      (resolve_kind-Opens p p.kind i now (record s { prompt = none }) refl)
