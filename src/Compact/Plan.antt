-- ===== src/Compact/Plan.antt =====
-- crates/inline/src/compact.rs: the plan that the live region shows.
use camouflage.Prelude.{
  Bool, true, false, List, [], ◌∷◌, ◌≡◌, refl, ap, arith, inl, inr, Bool-cases, any, update_first,
  map, ◌||◌,
}
use camouflage.Prelude.Int.{ℤ}
use camouflage.Text.{Str}
use camouflage.Blocks.{PlanItem, in_progress, is_pending, is_in_progress}
use camouflage.Compact.{
  CompactState, CompactPlanStep, plan, step_of, plan_step_done, advance, update_at,
}

abbrev pub Steps : Type 0
Steps = List CompactPlanStep

abbrev pub running : Steps → Bool
running ps = any (λ (p : CompactPlanStep). is_in_progress p.status) ps

abbrev pub waiting : Steps → Bool
waiting ps = any (λ (p : CompactPlanStep). is_pending p.status) ps

-- `plan` starts the first step that waits when no step is in progress.
started-running :
    (ps : Steps)
    → waiting ps ≡ true
    → running (
        update_first
          (λ (p : CompactPlanStep). is_pending p.status)
          (λ p. record p { status = in_progress })
          ps)
      ≡ true
started-running [] h = ground (arith, h)
started-running (p ∷ ps) h = elim (Bool-cases (is_pending p.status)) [
  | inl e ↦ rw e refl
  | inr e ↦ rw e (ground (arith, started-running ps (ground (arith, e, h))))
]

abbrev pub unfinished : List PlanItem → Bool
unfinished items = any (λ (i : PlanItem). is_pending i.status || is_in_progress i.status) items

waiting-steps :
    (items : List PlanItem)
    → unfinished items ≡ true
    → running (map step_of items) ≡ false
    → waiting (map step_of items) ≡ true
waiting-steps [] h n = absurd (ground (arith, h))
waiting-steps (i ∷ items) h n = ground (arith, h, n, waiting-steps items)

-- When a plan arrives that has a step in progress or a pending one, a step of the plan that the
-- state then holds is in progress.
pub plan-running :
    (items : List PlanItem) (c : CompactState)
    → unfinished items ≡ true
    → running (plan items c).plan ≡ true
unfolding plan
plan-running items c h = elim (Bool-cases (running (map step_of items))) [
  | inl e ↦ rw e e
  | inr e ↦ rw e (started-running (map step_of items) (waiting-steps items h e))
]

abbrev pub titles : Steps → List Str
titles ps = map (λ (p : CompactPlanStep). p.title) ps

titles-next :
    (ps : Steps)
    → titles (update_at 0 (λ (q : CompactPlanStep). record q { status = in_progress }) ps)
      ≡ titles ps
unfolding update_at
titles-next [] = refl
titles-next (p ∷ ps) = refl

titles-advance : (now : ℤ) (ps : Steps) → titles (advance now ps) ≡ titles ps
unfolding advance
titles-advance now [] = refl
titles-advance now (p ∷ ps) = elim (Bool-cases (is_in_progress p.status)) [
  | inl e ↦ rw e (ap (◌∷◌ p.title) (titles-next ps))
  | inr e ↦ rw e (ap (◌∷◌ p.title) (titles-advance now ps))
]

-- When no step is in progress, `plan_step_done` changes nothing.
advance-idle : (now : ℤ) (ps : Steps) → running ps ≡ false → advance now ps ≡ ps
unfolding advance
advance-idle now [] h = refl
advance-idle now (p ∷ ps) h = elim (Bool-cases (is_in_progress p.status)) [
  | inl e ↦ absurd (ground (arith, e, h))
  | inr e ↦ rw e (ap (◌∷◌ p) (advance-idle now ps (ground (arith, e, h))))
]

-- `plan_step_done` keeps the titles of the plan in their order, and changes nothing at all when no
-- step is in progress.
pub titles-plan_step_done :
    (now : ℤ) (c : CompactState)
    → (titles (plan_step_done now c).plan ≡ titles c.plan)
      × (running c.plan ≡ false → plan_step_done now c ≡ c)
unfolding plan_step_done
titles-plan_step_done now c = (titles-advance now c.plan, λ h. rw (advance-idle now c.plan h) refl)
