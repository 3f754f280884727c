-- ===== src/Width/Wrap.antt =====
-- crates/inline/src/width.rs: word wrap of a styled line. The loop over the cells runs on fuel, one
-- turn for each round of the source's `while`.
use camouflage.Prelude.{
  ℕ, zero, suc, ◌+◌, ◌-◌, ◌*◌, min, max, Bool, true, false, not, ◌&&◌, ◌||◌, Option, none, some,
  List, [], ◌∷◌, ◌++◌, map, ltb, leb, ◌==◌, if◌then◌else◌, length, is_empty,
}
use camouflage.Text.{Str, str_eq, is_blank, trim_end}
use camouflage.Width.{Unicode, grapheme_width}
use camouflage.Style.{Color, Style, Span, Line}
use camouflage.Style.Encode.{style_eq, line_width}

-- `(&str, Style, usize)`
pub record Cell : Type 0 where
  pub g : Str
  pub style : Style
  pub width : ℕ

-- `cell.0.trim().is_empty()`
unfoldable pub is_space : Cell → Bool
unfolding is_blank
is_space c = is_blank c.g

unfoldable pub cells_width : List Cell → ℕ
cells_width [] = 0
cells_width (c ∷ cs) = c.width + cells_width cs

module _ (u : Unicode) where
  unfoldable pub span_cells : Style → List Str → List Cell
  unfolding str_eq grapheme_width
  span_cells style [] = []
  span_cells style (g ∷ gs) =
      let rest = span_cells style gs in
      if str_eq g (b'\n' ∷ []) || str_eq g (b'\r' ∷ b'\n' ∷ [])
      then rest
      else record { g = g; style = style; width = grapheme_width u g } ∷ rest

  unfoldable pub cells_of : List Span → List Cell
  unfolding span_cells
  cells_of [] = []
  cells_of (s ∷ spans) = span_cells s.style (u.graphemes s.text) ++ cells_of spans

-- A cell joins the last span when that has its style.
unfoldable pub push_cell : List Span → Cell → List Span
unfolding style_eq
push_cell [] c = record { text = c.g; style = c.style } ∷ []
push_cell (s ∷ []) c =
    if style_eq s.style c.style
    then record s { text = s.text ++ c.g } ∷ []
    else s ∷ record { text = c.g; style = c.style } ∷ []
push_cell (s ∷ t ∷ spans) c = s ∷ push_cell (t ∷ spans) c

unfoldable pub push_cells : List Span → List Cell → List Span
unfolding push_cell
push_cells spans [] = spans
push_cells spans (c ∷ cs) = push_cells (push_cell spans c) cs

-- The variables of the loop; `row` is the spans of the row that is being filled.
pub record Wrapping : Type 0 where
  pub rows : List Line
  pub row : List Span
  pub row_w : ℕ
  pub first : Bool

-- The cells that are blank as the given test says, up to the first that is not.
unfoldable pub run_of : Bool → List Cell → List Cell
unfolding is_space
run_of space [] = []
run_of space (c ∷ cs) =
    let rest = run_of space cs in
    if is_space c then (if space then c ∷ rest else []) else if space then [] else c ∷ rest

unfoldable pub after_run : Bool → List Cell → List Cell
unfolding is_space
after_run space [] = []
after_run space (c ∷ cs) =
    let rest = after_run space cs in
    if is_space c then (if space then rest else c ∷ cs) else if space then c ∷ cs else rest

-- `push_cell` of all cells of a run, and their width.
unfoldable pub push_run : List Cell → Wrapping → Wrapping
unfolding push_cells cells_width
push_run run w = record w { row = push_cells w.row run; row_w = w.row_w + cells_width run }

module _ (width indent_w : ℕ) (fill : Option Color) where
  -- `rows.push(mem::replace(&mut row, …)); row_w = 0; first = false`
  unfoldable pub push_row : Wrapping → Wrapping
  push_row w = record {
    rows = w.rows ++ record { spans = w.row; fill = fill } ∷ [];
    row = [];
    row_w = 0;
    first = false;
  }

  unfoldable pub limit : Wrapping → ℕ
  limit w = if w.first then width else width - indent_w

  -- An overlong word, cell by cell.
  unfoldable pub split_cell : Cell → Wrapping → Wrapping
  unfolding limit push_row push_cell
  split_cell c w =
      let v = if ltb (limit w) (w.row_w + c.width) && ltb 0 w.row_w then push_row w else w in
      record v { row = push_cell v.row c; row_w = v.row_w + c.width }

  unfoldable pub split_run : List Cell → Wrapping → Wrapping
  unfolding split_cell
  split_run [] w = w
  split_run (c ∷ cs) w = split_run cs (split_cell c w)

  -- One round of the loop at the first of the cells that are left.
  unfoldable pub turn : Cell → List Cell → Wrapping → List Cell × Wrapping
  unfolding is_space run_of after_run cells_width push_run push_row limit split_run
  turn c cs w =
      let run = run_of (is_space c) (c ∷ cs) in
      let rest = after_run (is_space c) (c ∷ cs) in
      let word_w = cells_width run in
      if is_space c
      then (if leb (w.row_w + word_w) (limit w) then (rest, push_run run w) else (rest, push_row w))
      else if leb (w.row_w + word_w) (limit w)
      then (rest, push_run run w)
      else if ltb 0 w.row_w && leb word_w (width - indent_w)
      then (c ∷ cs, push_row w)
      else (rest, split_run run w)

  unfoldable pub wrap_loop : ℕ → List Cell → Wrapping → Option Wrapping
  unfolding turn
  wrap_loop fuel [] w = some w
  wrap_loop zero (c ∷ cs) w = none
  wrap_loop (suc fuel) (c ∷ cs) w = let t = turn c cs w in wrap_loop fuel t.0 t.1

-- The last span without the spaces at its end.
unfoldable pub trim_last : Span → List Span
unfolding trim_end
trim_last s =
    let text = trim_end s.text in
    if length text == length s.text
    then s ∷ []
    else if is_empty text
    then []
    else record s { text = text } ∷ []

-- Spans that are spaces alone are popped off, then the spaces at the end of the next.
unfoldable pub trim_spans : List Span → List Span
unfolding trim_last
trim_spans [] = []
trim_spans (s ∷ spans) = elim (trim_spans spans) [ [] ↦ trim_last s | t ∷ ts ↦ s ∷ t ∷ ts ]

unfoldable pub finish_row : ℕ → List Span → Bool → Line → Line
unfolding trim_spans
finish_row indent_w indent first r =
    let spans = trim_spans r.spans in
    record r { spans = if not first && ltb 0 indent_w then indent ++ spans else spans }

unfoldable pub finish_rows : ℕ → List Span → List Line → List Line
unfolding finish_row
finish_rows indent_w indent [] = []
finish_rows indent_w indent (r ∷ rows) =
    finish_row indent_w indent true r ∷ map (finish_row indent_w indent false) rows

-- The rows, with the one that is left over.
unfoldable pub wrap_end : ℕ → List Span → Option Color → Option Wrapping → Option (List Line)
unfolding finish_rows
wrap_end indent_w indent fill none = none
wrap_end indent_w indent fill (some w) =
    some (finish_rows indent_w indent (w.rows ++ record { spans = w.row; fill = fill } ∷ []))

abbrev pub start : Wrapping
start = record { rows = []; row = []; row_w = 0; first = true }

module _ (u : Unicode) where
  -- `width.max(1)`, and the part of it that the indent may take.
  unfoldable pub wrap_width : ℕ → ℕ
  wrap_width width = max width 1

  unfoldable pub indent_width : ℕ → Line → ℕ
  unfolding wrap_width line_width
  indent_width width indent = min (line_width u indent) (wrap_width width - 1)

  unfoldable pub wrap : Line → ℕ → Line → Option (List Line)
  unfolding wrap_width indent_width cells_of wrap_loop wrap_end
  wrap line width indent =
      let indent_w = indent_width width indent in
      let cells = cells_of u line.spans in
      wrap_end indent_w indent.spans line.fill
        (wrap_loop (wrap_width width) indent_w line.fill (2 * length cells + 1) cells start)
