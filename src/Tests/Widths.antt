-- ===== src/Tests/Widths.antt =====
-- Concrete runs of the word wrap, the shortening and the encoding of lines
-- (crates/inline/src/width.rs, crates/inline/src/style.rs).
use camouflage.Prelude.{ℕ, ◌≡◌, refl, Option, none, some, List, [], ◌∷◌, ◌++◌, map, arith}
use camouflage.Text.{Str, utf8}
use camouflage.Text.Utf8.{well_formed, lead}
use camouflage.Width.{concat, take_cells, grapheme_width, str_width, ellipsize_middle}
use camouflage.Style.{Line, red}
use camouflage.Style.Encode.{encode, is_bidi_control, code_point}
use camouflage.Style.Scan.{reading, scan}
use camouflage.Style.Inert.{encode-Inert}
use camouflage.Ansi.{plain_style, plain_text, strip_ansi, chars, is_control}
use camouflage.Style.Stripped.{band, strip_ansi-encode}
use camouflage.Width.Wrap.{cells_of, wrap_width, indent_width, wrap}
use camouflage.Width.Texts.{line_text, IsWrapped, wrap-IsWrapped}
use camouflage.Width.Cut.{Shortened, ellipsize_middle-Shortened}
use camouflage.Tests.{ascii, ascii-IsSegmentation}

abbrev raw : Str → Line
raw s = record { spans = record { text = s; style = plain_style } ∷ []; fill = none }

abbrev words : Line
words = raw (utf8 "the quick foxes jumped")

abbrev indent : Line
indent = raw (utf8 "  ")

abbrev texts : Option (List Line) → List Str
texts none = []
texts (some rows) = map line_text rows

wraps :
    texts (wrap ascii words 8 indent)
    ≡ utf8 "the" ∷ utf8 "  quick" ∷ utf8 "  foxes" ∷ utf8 "  jumped" ∷ []
unfolding wrap line_text utf8
wraps = refl

wrap-IsWrapped_example :
    (rows : List Line) × (wrap ascii words 8 indent ≡ some rows)
    × IsWrapped ascii words 8 indent rows
unfolding utf8 well_formed lead cells_of indent_width wrap_width
wrap-IsWrapped_example =
    wrap-IsWrapped ascii ascii-IsSegmentation words 8 indent (refl, tt) (omega arith)

shortens :
    ellipsize_middle ascii (utf8 "cargo test --all") 10 ≡ utf8 "cargo " ++ utf8 "…" ++ utf8 "all"
unfolding ellipsize_middle utf8 str_width concat take_cells grapheme_width
shortens = refl

ellipsize_middle-Shortened_example :
    Shortened ascii
      (utf8 "cargo test --all")
      10
      (ellipsize_middle ascii (utf8 "cargo test --all") 10)
ellipsize_middle-Shortened_example =
    ellipsize_middle-Shortened ascii (utf8 "cargo test --all") 10 (omega arith)

-- Red text with a cursor movement in it, on a band.
abbrev hostile : Line
hostile = record {
  spans =
      record {
        text = b'h' ∷ 27 ∷ b'[' ∷ b'2' ∷ b'J' ∷ b'i' ∷ [];
        style = record plain_style { fg = red };
      }
      ∷ [];
  fill = some red;
}

encode-Inert_example :
    (p : ℕ) × (q : ℕ) × (scan (reading 0 0) (encode ascii hostile 8) ≡ some (reading p q))
unfolding well_formed lead
encode-Inert_example = encode-Inert ascii hostile 8 (refl, tt)

abbrev greeting : Line
greeting = record {
  spans = record { text = b'h' ∷ b'i' ∷ []; style = plain_style } ∷ [];
  fill = some red;
}

strip_ansi-encode_example :
    strip_ansi (encode ascii greeting 8) ≡ plain_text greeting.spans ++ band ascii greeting 8
unfolding utf8 well_formed lead chars is_control is_bidi_control code_point
strip_ansi-encode_example =
    strip_ansi-encode ascii greeting 8 (refl, tt) (((refl, refl), ((refl, refl), tt)), tt)
