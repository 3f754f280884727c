-- ===== src/Session/Still.antt =====
-- crates/inline/src/session.rs: the entries of a settled turn, and what prints them.
use camouflage.Prelude.{
  ℕ, ◌≡◌, refl, sym, ap, subst, Bool, true, false, not, ◌&&◌, Option, none, List, [], ◌∷◌, ◌==◌,
  if◌then◌else◌, Bool-cases, any, All, All-append, inl, inr,
}
use camouflage.Prelude.Int.{ℤ}
use camouflage.Blocks.{
  ToolBlock, is_running, Block, welcome, user, assistant, reasoning, tool, plan, notice, custom,
  group,
}
use camouflage.Session.{
  Session, Entry, push, push_quiet, push_done, entry, close_group, close_open, keeps_group,
  settle_plan, settle_entries, settle_entry, settle_group, stop_running, open_items,
}

-- No tool of the block runs, and a group is closed.
abbrev pub Still : Block → Type 0
Still (tool t) = is_running t.status ≡ false
Still (group g) = (g.closed ≡ true) × All (λ (t : ToolBlock). is_running t.status ≡ false) g.tools
Still _ = Unit

-- A tool of an entry that is done does not run.
abbrev pub ToolDone : Block → Type 0
ToolDone (tool t) = is_running t.status ≡ false
ToolDone _ = Unit

abbrev pub Consistent : Entry → Type 0
Consistent e = e.done ≡ true → ToolDone e.block

abbrev pub Settled : Entry → Type 0
Settled e = (e.done ≡ true) × Still e.block

stop_running-stops :
    (now : ℤ) (ts : List ToolBlock)
    → All (λ (t : ToolBlock). is_running t.status ≡ false) (stop_running now ts)
stop_running-stops now [] = tt
stop_running-stops now (t ∷ ts) = (
  elim (Bool-cases (is_running t.status)) [ inl e ↦ rw e refl | inr e ↦ rw e e ],
  stop_running-stops now ts,
)

settle_group-Still : (now : ℤ) (b : Block) → ToolDone b → Still (settle_group now b)
unfolding settle_group
settle_group-Still now (group g) h = (refl, stop_running-stops now g.tools)
settle_group-Still now (tool t) h = h
settle_group-Still now (welcome t d) h = tt
settle_group-Still now (user t) h = tt
settle_group-Still now (assistant t) h = tt
settle_group-Still now (reasoning t) h = tt
settle_group-Still now (plan i l) h = tt
settle_group-Still now (notice k t) h = tt
settle_group-Still now (custom l) h = tt

settle_entry-done :
    (now : ℤ) (id : ℕ) (b : Block) (d : Bool)
    → (d ≡ true → ToolDone b)
    → ((settle_entry now (entry id b d)).done ≡ true)
      × ToolDone (settle_entry now (entry id b d)).block
unfolding settle_entry
settle_entry-done now id b true h = (refl, h refl)
settle_entry-done now id (group g) false h = (refl, tt)
settle_entry-done now id (tool t) false h = (refl, refl)
settle_entry-done now id (welcome t d) false h = (refl, tt)
settle_entry-done now id (user t) false h = (refl, tt)
settle_entry-done now id (assistant t) false h = (refl, tt)
settle_entry-done now id (reasoning t) false h = (refl, tt)
settle_entry-done now id (plan i l) false h = (refl, tt)
settle_entry-done now id (notice k t) false h = (refl, tt)
settle_entry-done now id (custom l) false h = (refl, tt)

pub settle_entries-Settled :
    (now : ℤ) (rows : List ℕ) (es : List Entry)
    → All Consistent es
    → All Settled (settle_entries now rows es)
unfolding settle_entries
settle_entries-Settled now rows [] h = tt
settle_entries-Settled now rows (e ∷ es) h = elim (Bool-cases (not (any (λ r. r == e.id) rows))) [
  | inl k ↦ rw k (
      let (d, t) = settle_entry-done now e.id e.block e.done h.0 in
      (
        (d, settle_group-Still now (settle_entry now e).block t),
        settle_entries-Settled now rows es h.1,
      ))
  | inr k ↦ rw k (settle_entries-Settled now rows es h.1)
]

-- A state in the course of `settle` that began at `o`: nothing is in motion, and what is sent and
-- asked is as it was.
pub record Quiet (o s : Session) : Type 0 where
  pub entries : All Settled s.entries
  pub open_group : s.open_group ≡ none
  pub phase : s.phase_busy ≡ false
  pub outbound : s.outbound ≡ o.outbound
  pub prompt : s.prompt ≡ o.prompt
  pub queue : s.queued_prompts ≡ o.queued_prompts

base : (b : Bool) (s : Session) → s.open_group ≡ none → (if b then s else close_group s) ≡ s
unfolding close_open close_group
base true s h = refl
base false s h = closed s.open_group h
  where
    closed : (g : Option ℕ) → g ≡ none → close_open g s ≡ s
    closed g h = ap (λ x. close_open x s) h

push_done-quiet :
    (b : Block) (s : Session) → s.open_group ≡ none → push_done b s ≡ (push_quiet b true s).0
unfolding push_done push
push_done-quiet b s h = ap (λ x. (push_quiet b true x).0) (base (keeps_group b) s h)

push_quiet-Quiet :
    (b : Block) (o s : Session) → Still b → Quiet o s → Quiet o (push_quiet b true s).0
unfolding push_quiet
push_quiet-Quiet b o s h q = record {
  entries = All-append Settled s.entries _ q.entries ((refl, h), tt);
  open_group = q.open_group;
  phase = q.phase;
  outbound = q.outbound;
  prompt = q.prompt;
  queue = q.queue;
}

pub push_done-Quiet : (b : Block) (o s : Session) → Still b → Quiet o s → Quiet o (push_done b s)
push_done-Quiet b o s h q =
    subst (Quiet o) (sym (push_done-quiet b s q.open_group)) (push_quiet-Quiet b o s h q)

pub Quiet-if : (c : Bool) (o x y : Session) → Quiet o x → Quiet o y → Quiet o (if c then x else y)
Quiet-if true o x y p q = p
Quiet-if false o x y p q = q

pub settle_plan-Quiet :
    (by_user : Bool) (o s : Session) → Quiet o s → Quiet o (settle_plan by_user s)
unfolding settle_plan
settle_plan-Quiet by_user o s q =
    Quiet-if (by_user && open_items s.plan) o _ _ (push_done-Quiet _ o _ tt taken) taken
  where
    taken : Quiet o (record s { plan = none })
    taken = record {
      entries = q.entries;
      open_group = q.open_group;
      phase = q.phase;
      outbound = q.outbound;
      prompt = q.prompt;
      queue = q.queue;
    }
