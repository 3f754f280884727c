-- ===== src/Editor/History.antt =====
-- Walking the history: coming back down restores the draft.
use native.Mathlib.Numerals.{add-one}
use camouflage.Prelude.{
  lt→ltb, ℕ, zero, suc, ◌+◌, ◌-◌, ◌≤◌, ◌<◌, false, Option, none, some, List, [], ◌∷◌, ◌≡◌, refl, ap,
  ◌∙◌, arith, inl, inr, ltb, Bool-cases, length, is_empty, unwrap_or,
}
use camouflage.Text.{Str}
use camouflage.Editor.{Editor}
use camouflage.Editor.Handle.{history_prev, history_next, prev_from, next_from, recall}

-- `history_prev` and `history_next`, `n` times.
abbrev pub prevs : ℕ → Editor → Editor
prevs zero e = e
prevs (suc n) e = (history_prev (prevs n e)).0

abbrev pub nexts : ℕ → Editor → Editor
nexts zero e = e
nexts (suc n) e = nexts n (history_next e).0

prev-recall :
    (i : ℕ) (d : Editor)
    → is_empty d.history ≡ false
    → (history_prev (recall (suc i) d)).0 ≡ recall i d
unfolding history_prev prev_from
prev-recall i d h = rw h

next-recall :
    (i : ℕ) (d : Editor)
    → suc i < length d.history
    → (history_next (recall i d)).0 ≡ recall (suc i) d
unfolding history_next next_from
next-recall i d h = rw (add-one, lt→ltb (suc i) (length d.history) h)

-- The editor that `d` becomes behind the newest entry.
abbrev released : Editor → Editor
released d =
    let draft = unwrap_or [] d.draft in
    record d { hist_idx = none; buf = draft; cur = length draft; draft = none }

next-recall_last :
    (i : ℕ) (d : Editor) → suc i ≡ length d.history → (history_next (recall i d)).0 ≡ released d
unfolding history_next next_from
next-recall_last i d h = elim (Bool-cases (ltb (i + 1) (length d.history))) [
  | inl e ↦ absurd (ground (arith, e, h))
  | inr e ↦ rw e
]

-- The editor that remembers its text as the draft.
abbrev drafted : Editor → Editor
drafted e = record e { draft = some e.buf }

prev_from-none :
    (o : Option ℕ) (e : Editor)
    → o ≡ none
    → (prev_from o e).0 ≡ recall (length e.history - 1) (drafted e)
unfolding prev_from
prev_from-none none e h = refl
prev_from-none (some i) e h = cc

prev-first :
    (e : Editor)
    → e.hist_idx ≡ none
    → is_empty e.history ≡ false
    → (history_prev e).0 ≡ recall (length e.history - 1) (drafted e)
unfolding history_prev
prev-first e h ne = rw ne (prev_from-none e.hist_idx e h)

prevs-recall :
    (n : ℕ) (e : Editor)
    → e.hist_idx ≡ none
    → is_empty e.history ≡ false
    → suc n ≤ length e.history
    → prevs (suc n) e ≡ recall (length e.history - suc n) (drafted e)
prevs-recall zero e h ne lt = prev-first e h ne
prevs-recall (suc n) e h ne lt =
    let i = length e.history - suc (suc n) in
    let step : length e.history - suc n ≡ suc i = omega arith in
    ap (λ d. (history_prev d).0)
      (prevs-recall n e h ne (omega arith) ∙ ap (λ k. recall k (drafted e)) step)
    ∙ prev-recall i (drafted e) ne

nexts-recall :
    (n : ℕ) (d : Editor)
    → suc n ≤ length d.history
    → nexts (suc n) (recall (length d.history - suc n) d) ≡ released d
nexts-recall zero d h = next-recall_last (length d.history - 1) d (omega arith)
nexts-recall (suc n) d h =
    let i = length d.history - suc (suc n) in
    let step : suc i ≡ length d.history - suc n = omega arith in
    ap (nexts (suc n)) (next-recall i d (omega arith) ∙ ap (λ k. recall k d) step)
    ∙ nexts-recall n d (omega arith)

-- From the draft, any number of steps up the history and as many down again give back the text that
-- was being typed, with the cursor at its end, and leave the history as it was.
pub nexts-prevs :
    (n : ℕ) (e : Editor)
    → e.hist_idx ≡ none
    → 0 < n
    → n ≤ length e.history
    → let back = nexts n (prevs n e) in
      (back.buf ≡ e.buf)
      × (back.cur ≡ length e.buf)
      × (back.hist_idx ≡ none)
      × (back.history ≡ e.history)
nexts-prevs zero e h lt le = elim lt [ ]
nexts-prevs (suc n) e h lt le =
    let ne = nonempty e.history (omega arith) in
    rw (prevs-recall n e h ne le, nexts-recall n (drafted e) le) (refl, refl, refl, refl)
  where
    nonempty : (xs : List Str) → 0 < length xs → is_empty xs ≡ false
    nonempty [] p = elim p [ ]
    nonempty (x ∷ xs) p = refl
