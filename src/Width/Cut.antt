-- ===== src/Width/Cut.antt =====
-- crates/inline/src/width.rs: a shortened text fits its cells and keeps as much as it can.
use camouflage.Prelude.{
  ℕ, ◌+◌, ◌-◌, ◌*◌, ◌/◌, ◌≤◌, ◌<◌, ◌≡◌, refl, sym, ap, ◌∙◌, List, [], ◌∷◌, ◌++◌, reverse, ltb, leb,
  leb→le, ltb→lt, subst, Bool-cases, arith, inl, inr,
}
use mathlib.Core.List.{reverse-append, reverse-reverse}
use camouflage.Text.{Str}
use camouflage.Width.{
  Unicode, concat, grapheme_width, sum_width, str_width, take_cells, ellipsis, truncate,
  ellipsize_middle,
}

module _ (u : Unicode) where
  -- No room for the grapheme that comes next.
  abbrev pub Full : ℕ → ℕ → List Str → Type 0
  Full max w [] = Unit
  Full max w (g ∷ gs) = max < w + grapheme_width u g

  -- The longest beginning of the graphemes that fits the cells.
  pub record IsPrefix (max : ℕ) (gs kept : List Str) : Type 0 where
    pub rest : List Str
    pub parts : gs ≡ kept ++ rest
    pub fits : sum_width u kept ≤ max
    pub full : Full max (sum_width u kept) rest

  take_cells-parts :
      (extra max w : ℕ) (gs : List Str)
      → w + extra ≤ max
      → (rest : List Str) × (gs ≡ take_cells u extra max w gs ++ rest)
        × (w + sum_width u (take_cells u extra max w gs) + extra ≤ max)
        × Full max (w + sum_width u (take_cells u extra max w gs) + extra) rest
  unfolding take_cells sum_width
  take_cells-parts extra max w [] h = ([], refl, omega arith, tt)
  take_cells-parts extra max w (g ∷ gs) h =
      elim (Bool-cases (ltb max (w + grapheme_width u g + extra))) [
        | inl e ↦ rw e (g ∷ gs, refl, omega arith, omega (arith, ltb→lt _ _ e))
        | inr e ↦
            let r = take_cells-parts extra max (w + grapheme_width u g) gs (ground (arith, e)) in
            rw e (
              r.0,
              ap (◌∷◌ g) r.1,
              omega (arith, r.2),
              subst (λ (n : ℕ). Full max n r.0) (omega arith) r.3,
            )
      ]

  Full-less :
      (extra max w : ℕ) (gs : List Str)
      → extra ≤ max
      → Full max (w + extra) gs
      → Full (max - extra) w gs
  Full-less extra max w [] k h = tt
  Full-less extra max w (g ∷ gs) k h = omega (arith, h)

  take_cells-IsPrefix :
      (extra max : ℕ) (gs : List Str)
      → extra ≤ max
      → IsPrefix (max - extra) gs (take_cells u extra max 0 gs)
  take_cells-IsPrefix extra max gs h =
      let kept = sum_width u (take_cells u extra max 0 gs) in
      let r = take_cells-parts extra max 0 gs (omega arith) in
      record {
        rest = r.0;
        parts = r.1;
        fits = omega (arith, r.2);
        full = Full-less extra max kept r.0 h (subst (λ (n : ℕ). Full max n r.0) (omega arith) r.3);
      }

  take_cells_all-IsPrefix : (max : ℕ) (gs : List Str) → IsPrefix max gs (take_cells u 0 max 0 gs)
  take_cells_all-IsPrefix max gs =
      subst (λ (n : ℕ). IsPrefix n gs (take_cells u 0 max 0 gs)) (omega arith)
        (take_cells-IsPrefix 0 max gs (omega arith))

  sum_width-append : (a b : List Str) → sum_width u (a ++ b) ≡ sum_width u a + sum_width u b
  unfolding sum_width
  sum_width-append [] b = omega arith
  sum_width-append (g ∷ a) b = omega (arith, sum_width-append a b)

  sum_width-reverse : (gs : List Str) → sum_width u (reverse gs) ≡ sum_width u gs
  unfolding sum_width
  sum_width-reverse [] = refl
  sum_width-reverse (g ∷ gs) =
      rw (reverse-append (g ∷ []) gs, sum_width-append (reverse gs) (g ∷ []), sum_width-reverse gs)
        (omega arith)

  -- The longest end of the graphemes that fits the cells; the first list is what stands before it.
  pub record IsSuffix (max : ℕ) (gs kept : List Str) : Type 0 where
    pub front : List Str
    pub parts : gs ≡ front ++ kept
    pub fits : sum_width u kept ≤ max
    pub full : Full max (sum_width u kept) (reverse front)

  IsPrefix-reverse :
      (max : ℕ) (gs kept : List Str)
      → IsPrefix max (reverse gs) kept
      → IsSuffix max gs (reverse kept)
  IsPrefix-reverse max gs kept h = record {
    front = reverse h.rest;
    parts = sym (reverse-reverse gs) ∙ (ap reverse h.parts ∙ reverse-append kept h.rest);
    fits = rw (sum_width-reverse kept) h.fits;
    full = rw (sum_width-reverse kept, reverse-reverse h.rest) h.full;
  }

  -- What `ellipsize_middle` makes of a text.
  pub data Shortened (s : Str) (max : ℕ) : Str → Type 0 where
    whole : str_width u s ≤ max → Shortened s max s
    cut_end :
        (kept : List Str)
        → max < str_width u s
        → max < 8
        → IsPrefix (max - 1) (u.graphemes s) kept
        → Shortened s max (concat kept ++ ellipsis u)
    cut_middle :
        (head_w tail_w : ℕ) (head tail : List Str)
        → max < str_width u s
        → 8 ≤ max
        → head_w + 1 + tail_w ≡ max
        → IsPrefix head_w (u.graphemes s) head
        → IsSuffix tail_w (u.graphemes s) tail
        → Shortened s max (concat head ++ ellipsis u ++ concat tail)

  -- To one cell or more a text is shortened only if it is wider. Then the longest beginning that
  -- leaves a cell for the ellipsis is kept, and from 8 cells on the longest beginning and the
  -- longest end of two parts that leave one.
  pub ellipsize_middle-Shortened :
      (s : Str) (max : ℕ) → 1 ≤ max → Shortened s max (ellipsize_middle u s max)
  unfolding ellipsize_middle truncate
  ellipsize_middle-Shortened s max h = elim (Bool-cases (leb (str_width u s) max)) [
    | inl e ↦ rw e (Shortened.whole (leb→le _ _ e))
    | inr e ↦ rw e (elim (Bool-cases (ltb max 8)) [
      | inl f ↦ rw f (
          Shortened.cut_end _ (ground (arith, e)) (ltb→lt _ _ f)
            (take_cells-IsPrefix 1 max (u.graphemes s) h))
      | inr f ↦ rw f (
          Shortened.cut_middle (max - 1 - (max - 1) * 2 / 5) ((max - 1) * 2 / 5) _ _
            (ground (arith, e)) (ground (arith, f)) (omega arith)
            (take_cells_all-IsPrefix (max - 1 - (max - 1) * 2 / 5) (u.graphemes s))
            (IsPrefix-reverse ((max - 1) * 2 / 5) (u.graphemes s) _
              (take_cells_all-IsPrefix ((max - 1) * 2 / 5) (reverse (u.graphemes s)))))
    ])
  ]
