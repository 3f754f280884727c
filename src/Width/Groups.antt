-- ===== src/Width/Groups.antt =====
-- crates/inline/src/width.rs: the cells of a line in groups, and the runs of the wrapping loop.
use camouflage.Prelude.{
  ℕ, ◌+◌, ◌≤◌, ◌≡◌, refl, sym, Bool, true, false, Option, List, [], ◌∷◌, ◌++◌, map, Bool-cases,
  length, is_empty, All, append_assoc, append-nil, arith, inl, inr,
}
use mathlib.Core.List.{flatten, map-append}
use camouflage.Style.{Color, Span, Line}
use camouflage.Width.Wrap.{Cell, is_space, cells_width, push_cell, push_cells, run_of, after_run}

-- The cells of the second list are those of the first in their order, less some that are blank.
pub data Thinned : List Cell → List Cell → Type 0 where
  nil : Thinned [] []
  keep : (c : Cell) {a b : List Cell} → Thinned a b → Thinned (c ∷ a) (c ∷ b)
  drop : (c : Cell) {a b : List Cell} → is_space c ≡ true → Thinned a b → Thinned (c ∷ a) b

pub Thinned_self : (a : List Cell) → Thinned a a
Thinned_self [] = Thinned.nil
Thinned_self (c ∷ a) = Thinned.keep c (Thinned_self a)

pub Thinned-append : {a b c d : List Cell} → Thinned a b → Thinned c d → Thinned (a ++ c) (b ++ d)
Thinned-append Thinned.nil t = t
Thinned-append (Thinned.keep x s) t = Thinned.keep x (Thinned-append s t)
Thinned-append (Thinned.drop x e s) t = Thinned.drop x e (Thinned-append s t)

abbrev pub Blank : List Cell → Type 0
Blank cs = All (λ c. is_space c ≡ true) cs

pub Thinned_blank : (cs : List Cell) → Blank cs → Thinned cs []
Thinned_blank [] h = Thinned.nil
Thinned_blank (c ∷ cs) h = Thinned.drop c h.0 (Thinned_blank cs h.1)

pub flatten-append :
    (gs : List (List Cell)) (g : List Cell) → flatten (gs ++ g ∷ []) ≡ flatten gs ++ g
unfolding flatten
flatten-append [] g = append-nil g
flatten-append (h ∷ gs) g = rw (flatten-append gs g) (sym (append_assoc h (flatten gs) g))

pub cells_width-append : (a b : List Cell) → cells_width (a ++ b) ≡ cells_width a + cells_width b
unfolding cells_width
cells_width-append [] b = omega arith
cells_width-append (c ∷ a) b = omega (arith, cells_width-append a b)

pub push_cells-append :
    (spans : List Span) (a b : List Cell)
    → push_cells spans (a ++ b) ≡ push_cells (push_cells spans a) b
unfolding push_cells
push_cells-append spans [] b = refl
push_cells-append spans (c ∷ a) b = push_cells-append (push_cell spans c) a b

-- The row of a group of cells.
unfoldable pub row_of : Option Color → List Cell → Line
unfolding push_cells
row_of fill g = record { spans = push_cells [] g; fill = fill }

pub rows_of-append :
    (fill : Option Color) (gs : List (List Cell)) (g : List Cell)
    → map (row_of fill) (gs ++ g ∷ []) ≡ map (row_of fill) gs ++ row_of fill g ∷ []
rows_of-append fill gs g = map-append (row_of fill) gs (g ∷ [])

pub is_empty_snoc : (gs : List (List Cell)) (g : List Cell) → is_empty (gs ++ g ∷ []) ≡ false
is_empty_snoc [] g = refl
is_empty_snoc (f ∷ gs) g = refl

-- A run and the cells behind it.
pub run_of-after_run : (space : Bool) (cs : List Cell) → run_of space cs ++ after_run space cs ≡ cs
unfolding run_of after_run
run_of-after_run space [] = refl
run_of-after_run space (c ∷ cs) = ground (arith, run_of-after_run space cs)

pub run_of-Blank : (cs : List Cell) → Blank (run_of true cs)
unfolding run_of
run_of-Blank [] = tt
run_of-Blank (c ∷ cs) = elim (Bool-cases (is_space c)) [
  | inl e ↦ rw e (e, run_of-Blank cs)
  | inr e ↦ rw e tt
]

length-after_run : (space : Bool) (cs : List Cell) → length (after_run space cs) ≤ length cs
unfolding after_run
length-after_run space [] = omega arith
length-after_run space (c ∷ cs) = ground (arith, length-after_run space cs)

pub length-after_run_cons :
    (c : Cell) (cs : List Cell) → length (after_run (is_space c) (c ∷ cs)) ≤ length cs
unfolding after_run
length-after_run_cons c cs = ground (arith, length-after_run (is_space c) cs)

-- The first row may take the whole width, those behind it what the indent leaves.
abbrev pub Fits : ℕ → ℕ → List (List Cell) → Type 0
Fits width indent_w [] = Unit
Fits width indent_w (g ∷ gs) =
    (cells_width g ≤ width) × All (λ h. cells_width h + indent_w ≤ width) gs
