-- ===== src/Width/Held.antt =====
-- crates/inline/src/width.rs: the rows of the wrapping loop as groups of the cells seen so far.
use camouflage.Prelude.{
  ℕ, ◌+◌, ◌-◌, ◌≤◌, ◌<◌, ◌≡◌, refl, sym, ◌&&◌, Option, List, [], ◌∷◌, ◌++◌, map, ltb, if◌then◌else◌,
  Bool-cases, is_empty, All, All-append, append_assoc, append-nil, arith, inl, inr,
}
use mathlib.Core.List.{flatten}
use camouflage.Style.{Color}
use camouflage.Width.Wrap.{
  Cell, cells_width, push_cells, Wrapping, push_run, push_row, limit, split_cell, split_run, start,
}
use camouflage.Width.Groups.{
  Thinned, Thinned_self, Thinned-append, Blank, Thinned_blank, flatten-append, cells_width-append,
  push_cells-append, row_of, rows_of-append, is_empty_snoc, Fits,
}

module _ (width indent_w : ℕ) (fill : Option Color) (fits : indent_w < width) where
  -- What a row of this place may take.
  pub room : List (List Cell) → ℕ
  room gs = if is_empty gs then width else width - indent_w

  pub Fits-append :
      (gs : List (List Cell)) (g : List Cell)
      → Fits width indent_w gs
      → cells_width g ≤ room gs
      → Fits width indent_w (gs ++ g ∷ [])
  unfolding room
  Fits-append [] g h k = (k, tt)
  Fits-append (f ∷ gs) g h k = (
    h.0,
    All-append (λ h. cells_width h + indent_w ≤ width) gs (g ∷ []) h.1 (omega (arith, k), tt),
  )

  -- The rows and the row being filled, as groups of the cells seen so far.
  pub record Held (seen : List Cell) (w : Wrapping) : Type 0 where
    pub groups : List (List Cell)
    pub group : List Cell
    pub rows_eq : w.rows ≡ map (row_of fill) groups
    pub row_eq : w.row ≡ push_cells [] group
    pub row_w_eq : w.row_w ≡ cells_width group
    pub first_eq : w.first ≡ is_empty groups
    pub groups_fit : Fits width indent_w groups
    pub group_fits : cells_width group ≤ room groups
    pub thinned : Thinned seen (flatten groups ++ group)

  limit-room :
      (seen : List Cell) (w : Wrapping) (h : Held seen w)
      → limit width indent_w fill w ≡ room h.groups
  unfolding limit room
  limit-room seen w h = rw h.first_eq refl

  pub push_row-Held :
      (seen : List Cell) (w : Wrapping) → Held seen w → Held seen (push_row width indent_w fill w)
  unfolding push_row room row_of push_cells cells_width
  push_row-Held seen w h = record {
    groups = h.groups ++ h.group ∷ [];
    group = [];
    rows_eq = rw (h.rows_eq, h.row_eq, rows_of-append fill h.groups h.group) refl;
    row_eq = refl;
    row_w_eq = refl;
    first_eq = sym (is_empty_snoc h.groups h.group);
    groups_fit = Fits-append h.groups h.group h.groups_fit h.group_fits;
    group_fits = rw (is_empty_snoc h.groups h.group) (omega arith);
    thinned =
        rw (append-nil (flatten (h.groups ++ h.group ∷ [])), flatten-append h.groups h.group)
          h.thinned;
  }

  pub push_run-Held :
      (seen run : List Cell) (w : Wrapping) (h : Held seen w)
      → w.row_w + cells_width run ≤ limit width indent_w fill w
      → Held (seen ++ run) (push_run run w)
  unfolding push_run
  push_run-Held seen run w h k = record {
    groups = h.groups;
    group = h.group ++ run;
    rows_eq = h.rows_eq;
    row_eq = rw (h.row_eq, push_cells-append [] h.group run) refl;
    row_w_eq = rw (h.row_w_eq, cells_width-append h.group run) refl;
    first_eq = h.first_eq;
    groups_fit = h.groups_fit;
    group_fits = rw (cells_width-append h.group run, ← h.row_w_eq, ← limit-room seen w h) k;
    thinned =
        rw (← append_assoc (flatten h.groups) h.group run)
          (Thinned-append h.thinned (Thinned_self run));
  }

  -- A run of blanks at a wrap point is left out.
  pub swallow-Held :
      (seen run : List Cell) (w : Wrapping) → Blank run → Held seen w → Held (seen ++ run) w
  swallow-Held seen run w b h = record {
    groups = h.groups;
    group = h.group;
    rows_eq = h.rows_eq;
    row_eq = h.row_eq;
    row_w_eq = h.row_w_eq;
    first_eq = h.first_eq;
    groups_fit = h.groups_fit;
    group_fits = h.group_fits;
    thinned =
        rw (← append-nil (flatten h.groups ++ h.group))
          (Thinned-append h.thinned (Thinned_blank run b));
  }

  split_cell_lem :
      (c : Cell) (w : Wrapping)
      → split_cell width indent_w fill c w
        ≡ push_run (c ∷ []) (
            if ltb (limit width indent_w fill w) (w.row_w + c.width) && ltb 0 w.row_w
            then push_row width indent_w fill w
            else w)
  unfolding split_cell push_run push_cells cells_width
  split_cell_lem c w = rw (plus_zero c.width) refl
    where
      plus_zero : (n : ℕ) → n + 0 ≡ n
      plus_zero n = omega arith

  limit_low : (w : Wrapping) → width - indent_w ≤ limit width indent_w fill w
  unfolding limit
  limit_low w = ground arith

  split_cell-Held :
      (seen : List Cell) (c : Cell) (w : Wrapping)
      → c.width + indent_w ≤ width
      → Held seen w
      → Held (seen ++ c ∷ []) (split_cell width indent_w fill c w)
  unfolding cells_width push_row
  split_cell-Held seen c w n h =
      rw (split_cell_lem c w)
        (elim (Bool-cases
          (ltb (limit width indent_w fill w) (w.row_w + c.width) && ltb 0 w.row_w)) [
            | inl e ↦ rw e (
                push_run-Held seen (c ∷ []) (push_row width indent_w fill w)
                  (push_row-Held seen w h)
                  (omega (arith, limit_low (push_row width indent_w fill w))))
            | inr e ↦ rw e (push_run-Held seen (c ∷ []) w h (ground (arith, limit_low w, e)))
          ])

  abbrev pub Narrow : List Cell → Type 0
  Narrow cs = All (λ (c : Cell). c.width + indent_w ≤ width) cs

  pub split_run-Held :
      (seen run : List Cell) (w : Wrapping)
      → Narrow run
      → Held seen w
      → Held (seen ++ run) (split_run width indent_w fill run w)
  unfolding split_run
  split_run-Held seen [] w n h = rw (append-nil seen) h
  split_run-Held seen (c ∷ run) w n h = rw (← append_assoc seen (c ∷ []) run) (
      split_run-Held (seen ++ c ∷ []) run (split_cell width indent_w fill c w) n.1
        (split_cell-Held seen c w n.0 h))

  pub start-Held : Held [] start
  unfolding push_cells cells_width room flatten
  start-Held = record {
    groups = [];
    group = [];
    rows_eq = refl;
    row_eq = refl;
    row_w_eq = refl;
    first_eq = refl;
    groups_fit = tt;
    group_fits = omega arith;
    thinned = Thinned.nil;
  }

  -- The row that is left over when the loop ends is one of the rows.
  pub last_row :
      (seen : List Cell) (w : Wrapping) (h : Held seen w)
      → w.rows ++ record { spans = w.row; fill = fill } ∷ []
        ≡ map (row_of fill) (h.groups ++ h.group ∷ [])
  unfolding row_of
  last_row seen w h = rw (h.rows_eq, h.row_eq, rows_of-append fill h.groups h.group) refl
