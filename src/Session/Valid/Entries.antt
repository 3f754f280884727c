-- ===== src/Session/Valid/Entries.antt =====
-- crates/inline/src/session.rs: the entries and the prompt when a turn is settled.
use camouflage.Prelude.{
  ℕ, ◌<◌, ◌≡◌, refl, sym, subst, Bool, true, false, not, ◌&&◌, Option, none, some, List, [], ◌∷◌,
  ◌==◌, Bool-cases, any, All, arith, inl, inr,
}
use camouflage.Prelude.Int.{ℤ}
use camouflage.Blocks.{
  Block, welcome, user, assistant, reasoning, tool, plan, notice, custom, group,
}
use camouflage.Session.{
  Session, Entry, entry, settle_entry, settle_group, settle_entries, settle_plan, open_items,
  show_first, show_queued_prompt,
}
use camouflage.Session.Ask.{Prompt}
use camouflage.Session.Still.{Consistent, Settled, Still, ToolDone, settle_entries-Settled}
use camouflage.Session.Valid.{
  Kept, Kept-if, Valid, Loose, Waiting, Grows, is_tool, push_done-Kept, map_All,
}

-- Other prompts in a session.
pub Kept-with :
    {W X : Option Prompt → List Prompt → Type 0} (o : Option Prompt) (ps : List Prompt)
    (s : Session)
    → X o ps
    → Kept W s
    → Kept X (record s { prompt = o; queued_prompts = ps })
Kept-with o ps s w v = record {
  fresh = v.fresh;
  consistent = v.consistent;
  streams_open = v.streams_open;
  reasons_open = v.reasons_open;
  waiting = w;
  few_echoes = v.few_echoes;
  live = v.live;
}

pub Kept-Loose : {W : Option Prompt → List Prompt → Type 0} (s : Session) → Kept W s → Loose s
Kept-Loose s v = Kept-with s.prompt s.queued_prompts s tt v

pub Loose-Valid : (s : Session) → Waiting s.prompt s.queued_prompts → Loose s → Valid s
Loose-Valid s w v = Kept-with s.prompt s.queued_prompts s w v

show_first-Valid :
    (o : Option Prompt) (ps : List Prompt) (s : Session)
    → s.prompt ≡ o
    → s.queued_prompts ≡ ps
    → Loose s
    → Valid (show_first o ps s)
unfolding show_first
show_first-Valid none (p ∷ ps) s e q v = Kept-with (some p) ps s tt v
show_first-Valid none [] s e q v =
    Loose-Valid s (subst (λ o. Waiting o s.queued_prompts) (sym e) q) v
show_first-Valid (some p) ps s e q v =
    Loose-Valid s (subst (λ o. Waiting o s.queued_prompts) (sym e) tt) v

pub show_queued-Valid : (s : Session) → Loose s → Valid (show_queued_prompt s)
unfolding show_queued_prompt
show_queued-Valid s v = show_first-Valid s.prompt s.queued_prompts s refl refl v

settle_group-same : (now : ℤ) (b : Block) → is_tool (settle_group now b) ≡ is_tool b
unfolding settle_group
settle_group-same now (group g) = refl
settle_group-same now (tool t) = refl
settle_group-same now (welcome t d) = refl
settle_group-same now (user t) = refl
settle_group-same now (assistant t) = refl
settle_group-same now (reasoning t) = refl
settle_group-same now (plan i l) = refl
settle_group-same now (notice k t) = refl
settle_group-same now (custom l) = refl

settle_entry-same :
    (now : ℤ) (id : ℕ) (b : Block) (d : Bool)
    → ((settle_entry now (entry id b d)).id ≡ id)
      × (is_tool (settle_entry now (entry id b d)).block ≡ is_tool b)
unfolding settle_entry
settle_entry-same now id b true = (refl, refl)
settle_entry-same now id (group g) false = (refl, refl)
settle_entry-same now id (tool t) false = (refl, refl)
settle_entry-same now id (welcome t d) false = (refl, refl)
settle_entry-same now id (user t) false = (refl, refl)
settle_entry-same now id (assistant t) false = (refl, refl)
settle_entry-same now id (reasoning t) false = (refl, refl)
settle_entry-same now id (plan i l) false = (refl, refl)
settle_entry-same now id (notice k t) false = (refl, refl)
settle_entry-same now id (custom l) false = (refl, refl)

module _ (P : ℕ → Bool → Type 0) where
  -- What holds of the identifiers and of which are tools.
  settle_entries-All :
      (now : ℤ) (rows : List ℕ) (es : List Entry)
      → All (λ (e : Entry). P e.id (is_tool e.block)) es
      → All (λ (e : Entry). P e.id (is_tool e.block)) (settle_entries now rows es)
  unfolding settle_entries
  settle_entries-All now rows [] h = tt
  settle_entries-All now rows (e ∷ es) h = elim (Bool-cases (not (any (λ r. r == e.id) rows))) [
    | inl k ↦ rw k (moved, settle_entries-All now rows es h.1)
    | inr k ↦ rw k (settle_entries-All now rows es h.1)
  ]
    where
      moved : P (settle_entry now e).id (is_tool (settle_group now (settle_entry now e).block))
      moved =
          let (i, t) = settle_entry-same now e.id e.block e.done in
          subst (P (settle_entry now e).id) (sym (settle_group-same now (settle_entry now e).block))
            (subst (P (settle_entry now e).id) (sym t)
              (subst (λ k. P k (is_tool e.block)) (sym i) h.0))

Settled-Consistent : (e : Entry) → Settled e → Consistent e
Settled-Consistent e (d, s) = λ _. rests e.block s
  where
    rests : (b : Block) → Still b → ToolDone b
    rests (group g) h = tt
    rests (tool t) h = h
    rests (welcome t d) h = tt
    rests (user t) h = tt
    rests (assistant t) h = tt
    rests (reasoning t) h = tt
    rests (plan i l) h = tt
    rests (notice k t) h = tt
    rests (custom l) h = tt

pub Grows-settle :
    (now : ℤ) (rows : List ℕ) (n : ℕ) (es : List Entry) → Grows n es n (settle_entries now rows es)
Grows-settle now rows n es = record {
  below = ground arith;
  fresh = settle_entries-All (λ id t. id < n) now rows es;
  consistent =
      λ h. map_All Settled Consistent Settled-Consistent _ (settle_entries-Settled now rows es h);
  tells = λ k l. settle_entries-All (λ id t. (id == k) ≡ true → t ≡ false) now rows es;
}

pub settle_plan-Loose : (by_user : Bool) (s : Session) → Loose s → Loose (settle_plan by_user s)
unfolding settle_plan
settle_plan-Loose by_user s v =
    Kept-if (by_user && open_items s.plan) _ (record s { plan = none }) (push_done-Kept _ _ tt v) v
