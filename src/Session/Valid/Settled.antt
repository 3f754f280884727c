-- ===== src/Session/Valid/Settled.antt =====
-- crates/inline/src/session.rs: `settle`, and what opens and answers a prompt, keep a session valid.
use camouflage.Prelude.{
  ℕ, ◌≡◌, refl, sym, subst, Bool, true, false, not, ◌&&◌, ◌||◌, Option, none, some, List, [], ◌∷◌,
  ◌++◌, ◌==◌, if◌then◌else◌, Bool-cases, any, retain, inl, inr,
}
use camouflage.Prelude.Int.{ℤ}
use camouflage.Protocol.{permission_response}
use camouflage.Blocks.{notice, interrupted}
use camouflage.Compact.{clear}
use camouflage.Compact.Bounds.{new-IsValid}
use camouflage.Session.{
  Session, Entry, permission_choice, push_done, send, settle, settle_entries, settle_plan,
  keep_prompt, is_busy, interrupted_text, interrupt,
}
use camouflage.Session.Ask.{Prompt, PromptKind, permission, select, confirm, is_permission}
use camouflage.Session.Prompts.{
  open_prompt, open_beside, resolve_prompt, resolve_open, resolve_kind, set_prompt, choice_name,
}
use camouflage.Session.Valid.{Kept-if, Kept-live, Valid, Loose, Waiting, grown-Kept, push_done-Kept}
use camouflage.Session.Valid.Entries.{
  Kept-with, Kept-Loose, show_queued-Valid, Grows-settle, settle_plan-Loose,
}

pub settle-Valid : (now : ℤ) (by_user : Bool) (s : Session) → Loose s → Valid (settle now by_user s)
unfolding settle clear
settle-Valid now by_user s v =
    show_queued-Valid
      (record told {
        busy_since = none;
        prompt = keep_prompt told.prompt;
        queued_prompts = retain (λ (p : Prompt). not (is_permission p)) told.queued_prompts;
      })
      (Kept-with _ _ told tt (
        Kept-if (by_user && (is_busy s || any (λ (e : Entry). not e.done) kept)) noticed cleared
          (push_done-Kept _ cleared tt emptied) emptied))
  where
    kept : List Entry
    kept = retain (λ (e : Entry). not (any (λ r. r == e.id) s.plan_rows)) s.entries

    still : Session
    still = record s {
      plan_rows = [];
      entries = settle_entries now s.plan_rows s.entries;
      open_group = none;
      streams = [];
      tools = [];
      phase_busy = false;
    }

    cleared : Session
    cleared = record (settle_plan by_user still) {
      compact = clear (settle_plan by_user still).compact;
    }

    noticed : Session
    noticed = push_done (notice interrupted (interrupted_text s.app_name)) cleared

    told : Session
    told =
        if by_user && (is_busy s || any (λ (e : Entry). not e.done) kept) then noticed else cleared

    still-is : Loose still
    still-is =
        let g = grown-Kept s s.next_id _ (Grows-settle now s.plan_rows s.next_id s.entries) v in
        record {
          fresh = g.fresh;
          consistent = g.consistent;
          streams_open = tt;
          reasons_open = g.reasons_open;
          waiting = tt;
          few_echoes = g.few_echoes;
          live = g.live;
        }

    planned : Loose (settle_plan by_user still)
    planned = settle_plan-Loose by_user still still-is

    emptied : Loose cleared
    emptied =
        Kept-live (clear (settle_plan by_user still).compact) (settle_plan by_user still)
          new-IsValid planned

pub interrupt-Valid : (now : ℤ) (s : Session) → Loose s → Valid (interrupt now s)
unfolding interrupt send
interrupt-Valid now s v = settle-Valid now true _ v

open_beside-Valid :
    (o : Option Prompt) (p : Prompt) (s : Session)
    → s.prompt ≡ o
    → Loose s
    → Valid (open_beside o p s)
unfolding open_beside
open_beside-Valid none p s e v = Kept-with (some p) s.queued_prompts s tt v
open_beside-Valid (some shown) p s e v =
    elim (Bool-cases (is_permission shown || is_permission p)) [
      | inl c ↦ rw c (
          Kept-with s.prompt _ s (subst (λ o. Waiting o (s.queued_prompts ++ p ∷ [])) (sym e) tt) v)
      | inr c ↦ rw c (Kept-with (some p) s.queued_prompts s tt v)
    ]

pub open_prompt-Valid : (p : Prompt) (s : Session) → Loose s → Valid (open_prompt p s)
unfolding open_prompt
open_prompt-Valid p s v = open_beside-Valid s.prompt p s refl v

resolve_kind-Valid :
    (p : Prompt) (k : PromptKind) (o : Option ℕ) (now : ℤ) (s : Session)
    → Loose s
    → Valid (resolve_kind p k o now s)
unfolding resolve_kind send
resolve_kind-Valid p (permission id) none now s v =
    let sent = send permission_response (permission_choice id (choice_name none)) s in
    show_queued-Valid _ (Kept-Loose (interrupt now sent) (interrupt-Valid now sent v))
resolve_kind-Valid p (permission id) (some i) now s v = show_queued-Valid _ v
resolve_kind-Valid p (select id values c f) (some i) now s v = show_queued-Valid _ v
resolve_kind-Valid p (select id values c f) none now s v = elim (Bool-cases c) [
  | inl e ↦ rw e (show_queued-Valid _ v)
  | inr e ↦ rw e (Kept-with _ s.queued_prompts s tt v)
]
resolve_kind-Valid p (confirm id c) (some i) now s v = show_queued-Valid _ v
resolve_kind-Valid p (confirm id c) none now s v = elim (Bool-cases c) [
  | inl e ↦ rw e (show_queued-Valid _ v)
  | inr e ↦ rw e (Kept-with _ s.queued_prompts s tt v)
]

resolve_open-Valid :
    (o : Option Prompt) (choice : Option ℕ) (now : ℤ) (s : Session)
    → Valid s
    → Valid (resolve_open o choice now s)
unfolding resolve_open
resolve_open-Valid none choice now s v = v
resolve_open-Valid (some p) choice now s v =
    resolve_kind-Valid p p.kind choice now (record s { prompt = none })
      (Kept-with none s.queued_prompts s tt v)

pub resolve_prompt-Valid :
    (choice : Option ℕ) (now : ℤ) (s : Session) → Valid s → Valid (resolve_prompt choice now s)
unfolding resolve_prompt
resolve_prompt-Valid choice now s v = resolve_open-Valid s.prompt choice now s v

pub set_prompt-Valid : (p : Prompt) (s : Session) → Valid s → Valid (set_prompt p s)
set_prompt-Valid p s v = Kept-with (some p) s.queued_prompts s tt v
