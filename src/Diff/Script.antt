-- ===== src/Diff/Script.antt =====
-- crates/inline/src/diff.rs: the edit script turns the old text into the new one.
use camouflage.Prelude.{
  ℕ, suc, ◌+◌, ◌≤◌, ◌≡◌, refl, sym, ap, ◌∙◌, false, not, List, [], ◌∷◌, map, ltb, leb, ◌*◌,
  Bool-cases, retain, length, any, arith, inl, inr,
}
use camouflage.Text.{Str, str_eq}
use camouflage.Text.Laws.{str_eq_iff}
use camouflage.Blocks.{DiffLine}
use camouflage.Diff.{
  is_context, is_add, is_del, at, walk, script, table, keep_near, diff_lines, abs_diff,
}

abbrev pub texts : List DiffLine → List Str
texts ds = map (λ (d : DiffLine). d.text) ds

-- The lines that the old text has, and those that the new text has.
abbrev pub old_side : List DiffLine → List Str
old_side ds = texts (retain (λ d. not (is_add d)) ds)

abbrev pub new_side : List DiffLine → List Str
new_side ds = texts (retain (λ d. not (is_del d)) ds)

walk-sides :
    (lcs : List (List ℕ)) (i j : ℕ) (xs ys : List Str)
    → (old_side (walk lcs i j xs ys) ≡ xs) × (new_side (walk lcs i j xs ys) ≡ ys)
unfolding walk
walk-sides lcs i j [] [] = (refl, refl)
walk-sides lcs i j [] (y ∷ ys) = let (o, n) = walk-sides lcs i (suc j) [] ys in (o, ap (◌∷◌ y) n)
walk-sides lcs i j (x ∷ xs) [] = let (o, n) = walk-sides lcs (suc i) j xs [] in (ap (◌∷◌ x) o, n)
walk-sides lcs i j (x ∷ xs) (y ∷ ys) = elim (Bool-cases (str_eq x y)) [
  | inl e ↦
      rw (e, walk)
        (let (o, n) = walk-sides lcs (suc i) (suc j) xs ys in
          (ap (◌∷◌ y) o ∙ ap (λ z. z ∷ xs) (sym ((str_eq_iff x y).0 e)), ap (◌∷◌ y) n))
  | inr e ↦ elim (Bool-cases (leb (at lcs i (suc j)) (at lcs (suc i) j))) [
    | inl l ↦
        rw (e, l, walk) (let (o, n) = walk-sides lcs (suc i) j xs (y ∷ ys) in (ap (◌∷◌ x) o, n))
    | inr l ↦
        rw (e, l, walk) (let (o, n) = walk-sides lcs i (suc j) (x ∷ xs) ys in (o, ap (◌∷◌ y) n))
  ]
]

-- The script without its additions is the old text, and without its deletions the new one.
pub script-sides : (a b : List Str) → (old_side (script a b) ≡ a) × (new_side (script a b) ≡ b)
unfolding script
script-sides a b = walk-sides (table a b) 0 0 a b

-- The changes of a diff.
abbrev pub changes : List DiffLine → List DiffLine
changes ds = retain (λ d. not (is_context d)) ds

changes-keep_near :
    (around k : ℕ) (near : List ℕ) (ds : List DiffLine)
    → changes (keep_near around k near ds) ≡ changes ds
unfolding keep_near
changes-keep_near around k near [] = refl
changes-keep_near around k near (d ∷ ds) =
    let ih = changes-keep_near around (k + 1) near ds in
    elim (Bool-cases (is_context d)) [
      | inr e ↦ rw (e, keep_near) (ground (arith, e, ih))
      | inl e ↦ elim (Bool-cases (any (λ c. leb (abs_diff c k) around) near)) [
        | inl n ↦ rw (e, n, keep_near) (ground (arith, e, ih))
        | inr n ↦ rw (e, n, keep_near) (ground (arith, e, ih))
      ]
    ]

-- Unless the texts are too long to compare, what is shown has every deletion and every addition of
-- the script, in its order.
pub changes-diff_lines :
    (a b : List Str) (around : ℕ)
    → length a * length b ≤ 16000000
    → changes (diff_lines a b around) ≡ changes (script a b)
unfolding diff_lines
changes-diff_lines a b around h = rw (small h) (changes-keep_near around 0 _ (script a b))
  where
    small : length a * length b ≤ 16000000 → ltb 16000000 (length a * length b) ≡ false
    small h = ground (arith, h)
