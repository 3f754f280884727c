-- ===== src/Session/Settle.antt =====
-- crates/inline/src/session.rs: after `settle` nothing is in motion.
use camouflage.Prelude.{
  ◌≡◌, refl, Bool, false, not, Option, none, some, List, [], ◌∷◌, Bool-cases, any, retain, All,
  arith, inl, inr,
}
use camouflage.Prelude.Int.{ℤ}
use camouflage.Compact.{clear}
use camouflage.Session.{
  Session, Entry, is_busy, settle, settle_plan, show_first, settle_entries, show_queued_prompt,
  keep_prompt,
}
use camouflage.Session.Ask.{Prompt, is_permission}
use camouflage.Session.Still.{
  Consistent, Settled, settle_entries-Settled, Quiet, push_done-Quiet, Quiet-if, settle_plan-Quiet,
}

-- The end of `settle`: the prompts.
abbrev pub NoPermission : Option Prompt → Type 0
NoPermission none = Unit
NoPermission (some p) = is_permission p ≡ false

keep_prompt-NoPermission : (o : Option Prompt) → NoPermission (keep_prompt o)
unfolding keep_prompt
keep_prompt-NoPermission none = tt
keep_prompt-NoPermission (some p) = elim (Bool-cases (is_permission p)) [
  | inl e ↦ rw e tt
  | inr e ↦ rw e e
]

retain-NoPermission :
    (ps : List Prompt)
    → All
        (λ (p : Prompt). is_permission p ≡ false)
        (retain (λ (p : Prompt). not (is_permission p)) ps)
retain-NoPermission [] = tt
retain-NoPermission (p ∷ ps) = elim (Bool-cases (is_permission p)) [
  | inl e ↦ rw e (retain-NoPermission ps)
  | inr e ↦ rw e (e, retain-NoPermission ps)
]

-- What `settle` makes of a session, with what was sent before.
pub record Rest (o s : Session) : Type 0 where
  pub idle : is_busy s ≡ false
  pub entries : All Settled s.entries
  pub open_group : s.open_group ≡ none
  pub outbound : s.outbound ≡ o.outbound
  pub prompt : NoPermission s.prompt
  pub queue : All (λ (p : Prompt). is_permission p ≡ false) s.queued_prompts

idle-entries : (es : List Entry) → All Settled es → any (λ (e : Entry). not e.done) es ≡ false
idle-entries [] h = refl
idle-entries (e ∷ es) h = ground (arith, h.0.0, idle-entries es h.1)

show_first-Rest :
    (p : Option Prompt) (ps : List Prompt) (o s : Session)
    → All (λ (p : Prompt). is_permission p ≡ false) ps
    → Rest o s
    → Rest o (show_first p ps s)
unfolding show_first is_busy
show_first-Rest none (p ∷ ps) o s h r = record {
  idle = r.idle;
  entries = r.entries;
  open_group = r.open_group;
  outbound = r.outbound;
  prompt = h.0;
  queue = h.1;
}
show_first-Rest none [] o s h r = r
show_first-Rest (some p) ps o s h r = r

abbrev ended : Session → Session
ended t = record t {
  busy_since = none;
  prompt = keep_prompt t.prompt;
  queued_prompts = retain (λ (p : Prompt). not (is_permission p)) t.queued_prompts;
}

ended-Rest : (o t : Session) → Quiet o t → Rest o (show_queued_prompt (ended t))
unfolding show_queued_prompt is_busy
ended-Rest o t q =
    show_first-Rest (keep_prompt t.prompt) _ o (ended t) (retain-NoPermission t.queued_prompts)
      (record {
        idle = ground (arith, q.phase, idle-entries t.entries q.entries);
        entries = q.entries;
        open_group = q.open_group;
        outbound = q.outbound;
        prompt = keep_prompt-NoPermission t.prompt;
        queue = retain-NoPermission t.queued_prompts;
      })

-- Once `settle` has run, for whatever reason, the session is not busy, every entry is done, no tool
-- of an entry or of a group runs, every group is closed, no permission prompt is open or queued, and
-- nothing was sent. It is supposed that before no tool ran in an entry that was done.
pub settle-Rest :
    (now : ℤ) (by_user : Bool) (s : Session)
    → All Consistent s.entries
    → Rest s (settle now by_user s)
unfolding settle
settle-Rest now by_user s c =
    ended-Rest s _ (Quiet-if _ s _ _ (push_done-Quiet _ s _ tt cleared) cleared)
  where
    still : Session
    still = record s {
      plan_rows = [];
      entries = settle_entries now s.plan_rows s.entries;
      open_group = none;
      streams = [];
      tools = [];
      phase_busy = false;
    }

    begun : Quiet s still
    begun = record {
      entries = settle_entries-Settled now s.plan_rows s.entries c;
      open_group = refl;
      phase = refl;
      outbound = refl;
      prompt = refl;
      queue = refl;
    }

    cleared :
        Quiet s (record (settle_plan by_user still) {
          compact = clear (settle_plan by_user still).compact;
        })
    cleared =
        let q = settle_plan-Quiet by_user s still begun in
        record {
          entries = q.entries;
          open_group = q.open_group;
          phase = q.phase;
          outbound = q.outbound;
          prompt = q.prompt;
          queue = q.queue;
        }
