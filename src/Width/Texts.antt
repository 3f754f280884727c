-- ===== src/Width/Texts.antt =====
-- crates/inline/src/width.rs: the texts of the rows of a wrapped line.
use camouflage.Prelude.{
  ℕ, ◌+◌, ◌≤◌, ◌≡◌, refl, ap, ◌∙◌, true, false, ◌||◌, Option, some, List, [], ◌∷◌, ◌++◌, map, ltb,
  if◌then◌else◌, Bool-cases, is_empty, All, All-append, inl, inr,
}
use mathlib.Core.List.{flatten}
use camouflage.Text.{Str, trim_end, str_eq}
use camouflage.Text.Utf8.{IsStr}
use camouflage.Width.{Unicode, IsSegmentation}
use camouflage.Style.{Color, Style, Span, Line}
use camouflage.Ansi.{plain_text}
use camouflage.Width.Wrap.{
  Cell, span_cells, cells_of, push_cells, trim_spans, finish_row, finish_rows, wrap_width,
  indent_width, wrap,
}
use camouflage.Width.Groups.{Thinned, Fits, row_of}
use camouflage.Width.Layout.{wrap-IsLayout}
use camouflage.Width.Trimmed.{
  cells_text, Good, GoodCells, plain_text-append, plain_text-push_cells, push_cells-Good,
  trim_spans-Trims,
}

-- The cells of a line are texts when its spans are.
module _ (u : Unicode) (seg : IsSegmentation u) where
  span_cells-Good :
      (style : Style) (gs : List Str)
      → All IsStr gs
      → All (λ g. is_empty g ≡ false) gs
      → GoodCells (span_cells u style gs)
  unfolding span_cells
  span_cells-Good style [] h k = tt
  span_cells-Good style (g ∷ gs) h k =
      elim (Bool-cases (str_eq g (b'\n' ∷ []) || str_eq g (b'\r' ∷ b'\n' ∷ []))) [
        | inl e ↦ rw e (span_cells-Good style gs h.1 k.1)
        | inr e ↦ rw e ((h.0, k.0), span_cells-Good style gs h.1 k.1)
      ]

  cells_of-Good :
      (spans : List Span) → All (λ (s : Span). IsStr s.text) spans → GoodCells (cells_of u spans)
  unfolding cells_of
  cells_of-Good [] h = tt
  cells_of-Good (s ∷ spans) h =
      All-append (λ (c : Cell). Good c.g) (span_cells u s.style (u.graphemes s.text)) _
        (span_cells-Good s.style (u.graphemes s.text) (seg.graphemes_IsStr s.text h.0)
          (seg.graphemes_ne s.text))
        (cells_of-Good spans h.1)

Thinned-Good : {a b : List Cell} → Thinned a b → GoodCells a → GoodCells b
Thinned-Good Thinned.nil h = tt
Thinned-Good (Thinned.keep c t) h = (h.0, Thinned-Good t h.1)
Thinned-Good (Thinned.drop c e t) h = Thinned-Good t h.1

GoodCells-left : (a b : List Cell) → GoodCells (a ++ b) → GoodCells a
GoodCells-left [] b h = tt
GoodCells-left (c ∷ a) b h = (h.0, GoodCells-left a b h.1)

GoodCells-right : (a b : List Cell) → GoodCells (a ++ b) → GoodCells b
GoodCells-right [] b h = h
GoodCells-right (c ∷ a) b h = GoodCells-right a b h.1

-- The texts of rows that hold these groups: trimmed, and from the second on behind the indent.
unfoldable pub row_text : ℕ → Str → List Cell → Str
unfolding cells_text
row_text indent_w indent g = (if ltb 0 indent_w then indent else []) ++ trim_end (cells_text g)

unfoldable pub row_texts : ℕ → Str → List (List Cell) → List Str
unfolding row_text cells_text
row_texts indent_w indent [] = []
row_texts indent_w indent (g ∷ gs) = trim_end (cells_text g) ∷ map (row_text indent_w indent) gs

unfoldable pub line_text : Line → Str
unfolding plain_text
line_text l = plain_text l.spans

module _ (fill : Option Color) (indent_w : ℕ) (indent : List Span) where
  trimmed_row :
      (g : List Cell)
      → GoodCells g
      → plain_text (trim_spans (push_cells [] g)) ≡ trim_end (cells_text g)
  unfolding plain_text
  trimmed_row g h =
      (trim_spans-Trims (push_cells [] g) (push_cells-Good [] g tt h)).0
      ∙ ap trim_end (plain_text-push_cells [] g)

  first_row-text :
      (g : List Cell)
      → GoodCells g
      → line_text (finish_row indent_w indent true (row_of fill g)) ≡ trim_end (cells_text g)
  unfolding line_text finish_row row_of
  first_row-text g h = trimmed_row g h

  next_row-text :
      (g : List Cell)
      → GoodCells g
      → line_text (finish_row indent_w indent false (row_of fill g))
        ≡ row_text indent_w (plain_text indent) g
  unfolding line_text finish_row row_of row_text
  next_row-text g h = elim (Bool-cases (ltb 0 indent_w)) [
    | inl e ↦ rw e (
        plain_text-append indent (trim_spans (push_cells [] g))
        ∙ ap (plain_text indent ++◌) (trimmed_row g h))
    | inr e ↦ rw e (trimmed_row g h)
  ]

  next_rows-text :
      (gs : List (List Cell))
      → All GoodCells gs
      → map line_text (map (finish_row indent_w indent false) (map (row_of fill) gs))
        ≡ map (row_text indent_w (plain_text indent)) gs
  next_rows-text [] h = refl
  next_rows-text (g ∷ gs) h = rw (next_row-text g h.0, next_rows-text gs h.1) refl

  finish_rows-text :
      (gs : List (List Cell))
      → All GoodCells gs
      → map line_text (finish_rows indent_w indent (map (row_of fill) gs))
        ≡ row_texts indent_w (plain_text indent) gs
  unfolding finish_rows row_texts
  finish_rows-text [] h = refl
  finish_rows-text (g ∷ gs) h = rw (first_row-text g h.0, next_rows-text gs h.1) refl

flatten-Good : (gs : List (List Cell)) → GoodCells (flatten gs) → All GoodCells gs
unfolding flatten
flatten-Good [] h = tt
flatten-Good (g ∷ gs) h =
    (GoodCells-left g (flatten gs) h, flatten-Good gs (GoodCells-right g (flatten gs) h))

-- A line as wrapped rows: groups of its cells, all cells but blanks kept in order, each group within
-- its row, and the texts of the rows those of the groups.
pub record IsWrapped (u : Unicode) (line : Line) (width : ℕ) (indent : Line) (rows : List Line)
    : Type 0 where
  pub groups : List (List Cell)
  pub groups_fit : Fits (wrap_width u width) (indent_width u width indent) groups
  pub thinned : Thinned (cells_of u line.spans) (flatten groups)
  pub texts :
      map line_text rows ≡ row_texts (indent_width u width indent) (plain_text indent.spans) groups

-- A line of well-formed texts, none of whose graphemes is wider than a continuation row, for any
-- segmentation that cuts texts into texts: the loop of `wrap` ends, and the rows hold the cells of
-- the line in their order, all but some blank ones. The cells of the first row take the width at
-- most, those of each other row what the indent leaves of it. The text of a row is that of its
-- cells without the spaces at the end, from the second row on behind the indent.
pub wrap-IsWrapped :
    (u : Unicode) (seg : IsSegmentation u) (line : Line) (width : ℕ) (indent : Line)
    → All (λ (s : Span). IsStr s.text) line.spans
    → All
        (λ (c : Cell). c.width + indent_width u width indent ≤ wrap_width u width)
        (cells_of u line.spans)
    → (rows : List Line) × (wrap u line width indent ≡ some rows)
      × IsWrapped u line width indent rows
wrap-IsWrapped u seg line width indent h n =
    let w = wrap-IsLayout u line width indent n in
    let l = w.2 in
    let good = flatten-Good l.groups (Thinned-Good l.thinned (cells_of-Good u seg line.spans h)) in
    (
      w.0,
      w.1,
      record {
        groups = l.groups;
        groups_fit = l.groups_fit;
        thinned = l.thinned;
        texts =
            ap (map line_text) l.rows_eq
            ∙ finish_rows-text line.fill (indent_width u width indent) indent.spans l.groups good;
      },
    )
