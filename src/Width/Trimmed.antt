-- ===== src/Width/Trimmed.antt =====
-- crates/inline/src/width.rs: the text of a row of cells, and of its spans without the spaces at the
-- end.
use camouflage.Prelude.{
  ◌≡◌, ◌≢◌, refl, sym, ap, ◌∙◌, true, false, List, [], ◌∷◌, ◌++◌, ◌==◌, ==_iff, Bool-cases, length,
  is_empty, All, append_assoc, append-nil, inl, inr,
}
use camouflage.Text.{Str, is_blank, trim_end}
use camouflage.Text.Utf8.{IsStr, well_formed-append}
use camouflage.Text.Trim.{trim_end-append, trim_end_blank, trim_end-length, trim_end-eq-nil}
use camouflage.Style.{Span}
use camouflage.Style.Encode.{style_eq}
use camouflage.Ansi.{plain_text}
use camouflage.Width.Wrap.{Cell, push_cell, push_cells, trim_last, trim_spans}

unfoldable pub cells_text : List Cell → Str
cells_text [] = []
cells_text (c ∷ cs) = c.g ++ cells_text cs

-- A text that is not empty, well-formed.
abbrev pub Good : Str → Type 0
Good s = IsStr s × (is_empty s ≡ false)

abbrev GoodSpans : List Span → Type 0
GoodSpans spans = All (λ (s : Span). Good s.text) spans

abbrev pub GoodCells : List Cell → Type 0
GoodCells cs = All (λ (c : Cell). Good c.g) cs

Good-append : (a b : Str) → Good a → Good b → Good (a ++ b)
Good-append [] b h k = cc
Good-append (x ∷ a) b h k = (well_formed-append 0 (x ∷ a) b h.0 k.0, refl)

plain_text-push_cell :
    (spans : List Span) (c : Cell) → plain_text (push_cell spans c) ≡ plain_text spans ++ c.g
unfolding push_cell plain_text
plain_text-push_cell [] c = append-nil c.g
plain_text-push_cell (s ∷ []) c = elim (Bool-cases (style_eq s.style c.style)) [
  | inl e ↦ rw e (append-nil (s.text ++ c.g) ∙ ap (◌++ c.g) (sym (append-nil s.text)))
  | inr e ↦ rw (e, append-nil c.g, append-nil s.text) refl
]
plain_text-push_cell (s ∷ t ∷ spans) c =
    rw (plain_text-push_cell (t ∷ spans) c)
      (sym (append_assoc s.text (t.text ++ plain_text spans) c.g))

pub plain_text-append : (a b : List Span) → plain_text (a ++ b) ≡ plain_text a ++ plain_text b
unfolding plain_text
plain_text-append [] b = refl
plain_text-append (s ∷ a) b =
    ap (s.text ++◌) (plain_text-append a b)
    ∙ sym (append_assoc s.text (plain_text a) (plain_text b))

pub plain_text-push_cells :
    (spans : List Span) (cs : List Cell)
    → plain_text (push_cells spans cs) ≡ plain_text spans ++ cells_text cs
unfolding push_cells cells_text
plain_text-push_cells spans [] = sym (append-nil (plain_text spans))
plain_text-push_cells spans (c ∷ cs) =
    rw
      (
        plain_text-push_cells (push_cell spans c) cs,
        plain_text-push_cell spans c,
        append_assoc (plain_text spans) c.g (cells_text cs),
      )
      refl

push_cell-Good :
    (spans : List Span) (c : Cell) → GoodSpans spans → Good c.g → GoodSpans (push_cell spans c)
unfolding push_cell
push_cell-Good [] c h k = (k, tt)
push_cell-Good (s ∷ []) c h k = elim (Bool-cases (style_eq s.style c.style)) [
  | inl e ↦ rw e (Good-append s.text c.g h.0 k, tt)
  | inr e ↦ rw e (h.0, (k, tt))
]
push_cell-Good (s ∷ t ∷ spans) c h k = (h.0, push_cell-Good (t ∷ spans) c h.1 k)

pub push_cells-Good :
    (spans : List Span) (cs : List Cell)
    → GoodSpans spans
    → GoodCells cs
    → GoodSpans (push_cells spans cs)
unfolding push_cells
push_cells-Good spans [] h k = h
push_cells-Good spans (c ∷ cs) h k =
    push_cells-Good (push_cell spans c) cs (push_cell-Good spans c h k.0) k.1

abbrev Filled : List Span → Type 0
Filled spans = All (λ (s : Span). is_empty s.text ≡ false) spans

-- What `trim_spans` makes of spans: the text without the spaces at its end, and no empty span.
abbrev Trims : List Span → Str → Type 0
Trims spans text = (plain_text spans ≡ trim_end text) × Filled spans

empty_eq : (s : Str) → is_empty s ≡ true → [] ≡ s
empty_eq [] h = refl
empty_eq (b ∷ s) h = cc

trim_last-Trims : (s : Span) → Good s.text → Trims (trim_last s) s.text
unfolding trim_last plain_text
trim_last-Trims s h = elim (Bool-cases (length (trim_end s.text) == length s.text)) [
  | inl e ↦ rw e (append-nil s.text ∙ sym (trim_end-length s.text ((==_iff _ _).0 e)), (h.1, tt))
  | inr e ↦ rw e (elim (Bool-cases (is_empty (trim_end s.text))) [
    | inl f ↦ rw f (empty_eq (trim_end s.text) f, tt)
    | inr f ↦ rw f (append-nil (trim_end s.text), (f, tt))
  ])
]

append-ne-nil : (a b : Str) → is_empty a ≡ false → a ++ b ≢ []
append-ne-nil [] b h e = cc
append-ne-nil (x ∷ a) b h e = cc

-- In front of spans that are trimmed: they are all gone, or the span stays as it is.
trim_front :
    (s : Span) (text : Str) (spans : List Span)
    → Good s.text
    → Trims spans text
    → Trims (elim spans [ [] ↦ trim_last s | t ∷ ts ↦ s ∷ t ∷ ts ]) (s.text ++ text)
unfolding plain_text
trim_front s text [] g h =
    let blank = trim_end-eq-nil text (sym h.0) in
    let last = trim_last-Trims s g in (rw (trim_end-append 0 s.text text g.0, blank) last.0, last.1)
trim_front s text (t ∷ ts) g h = elim (Bool-cases (is_blank text)) [
  | inl e ↦ absurd (append-ne-nil t.text _ h.1.0 (h.0 ∙ trim_end_blank text e))
  | inr e ↦ (rw (trim_end-append 0 s.text text g.0, e) (ap (s.text ++◌) h.0), (g.1, h.1))
]

pub trim_spans-Trims :
    (spans : List Span) → GoodSpans spans → Trims (trim_spans spans) (plain_text spans)
unfolding plain_text trim_spans
trim_spans-Trims [] h = (sym (trim_end_blank [] refl), tt)
trim_spans-Trims (s ∷ spans) h =
    trim_front s (plain_text spans) (trim_spans spans) h.0 (trim_spans-Trims spans h.1)
