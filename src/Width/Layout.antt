-- ===== src/Width/Layout.antt =====
-- crates/inline/src/width.rs: the rows of a wrapped line hold its cells, and none is too wide.
use camouflage.Prelude.{
  ℕ, zero, suc, ◌+◌, ◌-◌, ◌*◌, ◌≤◌, ◌<◌, ◌≡◌, refl, sym, ap, ◌∙◌, subst, Bool, true, false, ◌&&◌,
  Option, some, List, [], ◌∷◌, ◌++◌, map, ltb, leb, leb→le, if◌then◌else◌, length, All,
  append_assoc, append-nil, arith,
}
use mathlib.Core.List.{flatten}
use camouflage.Style.{Color, Line}
use camouflage.Width.{Unicode}
use camouflage.Width.Wrap.{
  Cell, is_space, cells_width, cells_of, Wrapping, run_of, after_run, push_run, push_row, limit,
  split_run, turn, wrap_loop, finish_rows, wrap_width, indent_width, wrap_end, start, wrap,
}
use camouflage.Width.Groups.{
  Thinned, Blank, flatten-append, row_of, run_of-after_run, run_of-Blank, length-after_run_cons,
  Fits,
}
use camouflage.Width.Held.{
  Fits-append, Held, push_row-Held, push_run-Held, swallow-Held, split_run-Held, Narrow, start-Held,
  last_row,
}

module _ (width indent_w : ℕ) (fill : Option Color) (fits : indent_w < width) where
  -- The rounds that are enough for the cells that are left.
  rounds : List Cell → Wrapping → ℕ
  rounds cs w = 2 * length cs + (if ltb 0 w.row_w then 1 else 0)

  -- A round takes cells off, or gives the word a row of its own.
  record Turned (seen : List Cell) (c : Cell) (cs : List Cell) (w : Wrapping)
      (t : List Cell × Wrapping) : Type 0 where
    before : List Cell
    parts : before ++ t.0 ≡ c ∷ cs
    held : Held width indent_w fill fits (seen ++ before) t.1
    fewer : rounds t.0 t.1 < rounds (c ∷ cs) w

  Narrow-prefix :
      (a b : List Cell)
      → Narrow width indent_w fill fits (a ++ b)
      → Narrow width indent_w fill fits a
  Narrow-prefix [] b h = tt
  Narrow-prefix (c ∷ a) b h = (h.0, Narrow-prefix a b h.1)

  Narrow-suffix :
      (a b : List Cell)
      → Narrow width indent_w fill fits (a ++ b)
      → Narrow width indent_w fill fits b
  Narrow-suffix [] b h = h
  Narrow-suffix (c ∷ a) b h = Narrow-suffix a b h.1

  module _ (seen : List Cell) (c : Cell) (cs : List Cell) (w : Wrapping) where
    abbrev run : List Cell
    run = run_of (is_space c) (c ∷ cs)

    abbrev rest : List Cell
    rest = after_run (is_space c) (c ∷ cs)

    -- The run is behind, whatever became of it.
    advance :
        (v : Wrapping)
        → Held width indent_w fill fits (seen ++ run) v
        → Turned seen c cs w (rest, v)
    unfolding rounds
    advance v h = record {
      before = run;
      parts = run_of-after_run (is_space c) (c ∷ cs);
      held = h;
      fewer = ground (arith, length-after_run_cons c cs);
    }

    fresh_row :
        Held width indent_w fill fits seen w
        → ltb 0 w.row_w ≡ true
        → Turned seen c cs w (c ∷ cs, push_row width indent_w fill w)
    unfolding rounds push_row
    fresh_row h e = record {
      before = [];
      parts = refl;
      held = rw (append-nil seen) (push_row-Held width indent_w fill fits seen w h);
      fewer = ground (arith, e);
    }

    run-Blank : is_space c ≡ true → Blank run
    run-Blank e = rw e (run_of-Blank (c ∷ cs))

    run-Narrow : Narrow width indent_w fill fits (c ∷ cs) → Narrow width indent_w fill fits run
    run-Narrow n =
        Narrow-prefix run rest
          (subst (Narrow width indent_w fill fits) (sym (run_of-after_run (is_space c) (c ∷ cs))) n)

    -- The round by its three tests.
    turn_at : Bool → Bool → Bool → List Cell × Wrapping
    turn_at space room_left alone =
        if space
        then (if room_left then (rest, push_run run w) else (rest, push_row width indent_w fill w))
        else if room_left
        then (rest, push_run run w)
        else if alone
        then (c ∷ cs, push_row width indent_w fill w)
        else (rest, split_run width indent_w fill run w)

    turn_at-Turned :
        Narrow width indent_w fill fits (c ∷ cs)
        → Held width indent_w fill fits seen w
        → (space room_left alone : Bool) → is_space c ≡ space
        → leb (w.row_w + cells_width run) (limit width indent_w fill w) ≡ room_left
        → (ltb 0 w.row_w && leb (cells_width run) (width - indent_w)) ≡ alone
        → Turned seen c cs w (turn_at space room_left alone)
    unfolding turn_at
    turn_at-Turned n h true true alone e f g =
        advance (push_run run w)
          (push_run-Held width indent_w fill fits seen run w h (leb→le _ _ f))
    turn_at-Turned n h true false alone e f g = advance (push_row width indent_w fill w) (
        push_row-Held width indent_w fill fits (seen ++ run) w
          (swallow-Held width indent_w fill fits seen run w (run-Blank e) h))
    turn_at-Turned n h false true alone e f g =
        advance (push_run run w)
          (push_run-Held width indent_w fill fits seen run w h (leb→le _ _ f))
    turn_at-Turned n h false false true e f g = fresh_row h (ground (arith, g))
    turn_at-Turned n h false false false e f g =
        advance (split_run width indent_w fill run w)
          (split_run-Held width indent_w fill fits seen run w (run-Narrow n) h)

    turn-Turned :
        Narrow width indent_w fill fits (c ∷ cs)
        → Held width indent_w fill fits seen w
        → Turned seen c cs w (turn width indent_w fill c cs w)
    unfolding turn turn_at
    turn-Turned n h = turn_at-Turned n h _ _ _ refl refl refl

  -- The loop returns, and all cells are in rows.
  abbrev Returns : ℕ → List Cell → List Cell → Wrapping → Type 0
  Returns fuel seen cs w =
      (v : Wrapping) × (wrap_loop width indent_w fill fuel cs w ≡ some v)
      × Held width indent_w fill fits (seen ++ cs) v

  after_turn :
      (fuel : ℕ) (seen : List Cell) (c : Cell) (cs : List Cell) (w : Wrapping)
      (t : List Cell × Wrapping)
      → Narrow width indent_w fill fits (c ∷ cs)
      → rounds (c ∷ cs) w ≤ suc fuel
      → Turned seen c cs w t
      → ((seen' cs' : List Cell) (w' : Wrapping)
          → Narrow width indent_w fill fits cs'
          → Held width indent_w fill fits seen' w'
          → rounds cs' w' ≤ fuel
          → Returns fuel seen' cs' w')
      → (v : Wrapping) × (wrap_loop width indent_w fill fuel t.0 t.1 ≡ some v)
        × Held width indent_w fill fits (seen ++ c ∷ cs) v
  after_turn fuel seen c cs w t n m s ih =
      let end =
        ih (seen ++ s.before) t.0 t.1
          (Narrow-suffix s.before t.0 (subst (Narrow width indent_w fill fits) (sym s.parts) n))
          s.held (omega (arith, s.fewer)) in
      (
        end.0,
        end.1,
        subst (λ (a : List Cell). Held width indent_w fill fits a end.0)
            (append_assoc seen s.before t.0 ∙ ap (seen ++◌) s.parts) end.2,
      )

  wrap_loop-Held :
      (fuel : ℕ) (seen cs : List Cell) (w : Wrapping)
      → Narrow width indent_w fill fits cs
      → Held width indent_w fill fits seen w
      → rounds cs w ≤ fuel
      → Returns fuel seen cs w
  unfolding wrap_loop
  wrap_loop-Held fuel seen [] w n h m = (w, refl, rw (append-nil seen) h)
  wrap_loop-Held zero seen (c ∷ cs) w n h m = absurd (unfold rounds in omega arith)
  wrap_loop-Held (suc fuel) seen (c ∷ cs) w n h m =
      after_turn fuel seen c cs w (turn width indent_w fill c cs w) n m
        (turn-Turned seen c cs w n h) (wrap_loop-Held fuel)

  enough : (cs : List Cell) → rounds cs start ≤ 2 * length cs + 1
  unfolding rounds
  enough cs = omega arith

-- The rows of a wrapped line: groups of its cells, all cells but blanks kept in order, each group
-- within its row.
pub record IsLayout (u : Unicode) (line : Line) (width : ℕ) (indent : Line) (rows : List Line)
    : Type 0 where
  pub groups : List (List Cell)
  pub rows_eq :
      rows ≡ finish_rows (indent_width u width indent) indent.spans (map (row_of line.fill) groups)
  pub groups_fit : Fits (wrap_width u width) (indent_width u width indent) groups
  pub thinned : Thinned (cells_of u line.spans) (flatten groups)

module _ (u : Unicode) where
  indent_fits : (width : ℕ) (indent : Line) → indent_width u width indent < wrap_width u width
  unfolding indent_width wrap_width
  indent_fits width indent = omega arith

  -- A line none of whose graphemes is wider than a continuation row is wrapped: the loop ends, and
  -- each row holds the next cells of the line, which are all there in their order but for blanks.
  -- The cells of the first row fit the width, those of the others with the indent's share of it.
  pub wrap-IsLayout :
      (line : Line) (width : ℕ) (indent : Line)
      → All
          (λ (c : Cell). c.width + indent_width u width indent ≤ wrap_width u width)
          (cells_of u line.spans)
      → (rows : List Line) × (wrap u line width indent ≡ some rows)
        × IsLayout u line width indent rows
  unfolding wrap wrap_end
  wrap-IsLayout line width indent n =
      let w = wrap_width u width in
      let i = indent_width u width indent in
      let cells = cells_of u line.spans in
      let fits = indent_fits width indent in
      let end =
        wrap_loop-Held w i line.fill fits (2 * length cells + 1) [] cells start n
          (start-Held w i line.fill fits) (enough w i line.fill fits cells) in
      let held = end.2 in
      (
        _,
        ap (wrap_end i indent.spans line.fill) end.1,
        record {
          groups = held.groups ++ held.group ∷ [];
          rows_eq = ap (finish_rows i indent.spans) (last_row w i line.fill fits cells end.0 held);
          groups_fit =
              Fits-append w i line.fill fits held.groups held.group held.groups_fit held.group_fits;
          thinned = rw (flatten-append held.groups held.group) held.thinned;
        },
      )
