-- ===== src/Style/Encode.antt =====
-- crates/inline/src/style.rs: colors and styles as SGR sequences, and a line as terminal bytes.
use camouflage.Prelude.{
  ℕ, ◌+◌, ◌-◌, ◌*◌, Bool, true, false, not, ◌&&◌, ◌||◌, Option, none, some, List, [], ◌∷◌, ◌++◌,
  ltb, ◌==◌, if◌then◌else◌, get_or, replicate,
}
use camouflage.Text.{Str, utf8, to_decimal}
use camouflage.Width.{Unicode, str_width}
use camouflage.Style.{
  Color, default, black, red, green, yellow, blue, magenta, cyan, white, bright_black, bright_red,
  bright_green, bright_yellow, bright_blue, bright_magenta, bright_cyan, bright_white, indexed, rgb,
  Style, Span, Line,
}
use camouflage.Ansi.{plain_style, chars, is_control, within}

-- `==` on `Color` and `Style`.
unfoldable pub color_eq : Color → Color → Bool
color_eq default default = true
color_eq black black = true
color_eq red red = true
color_eq green green = true
color_eq yellow yellow = true
color_eq blue blue = true
color_eq magenta magenta = true
color_eq cyan cyan = true
color_eq white white = true
color_eq bright_black bright_black = true
color_eq bright_red bright_red = true
color_eq bright_green bright_green = true
color_eq bright_yellow bright_yellow = true
color_eq bright_blue bright_blue = true
color_eq bright_magenta bright_magenta = true
color_eq bright_cyan bright_cyan = true
color_eq bright_white bright_white = true
color_eq (indexed m) (indexed n) = m == n
color_eq (rgb r g b) (rgb s h c) = r == s && g == h && b == c
color_eq _ _ = false

same_flag : Bool → Bool → Bool
same_flag true b = b
same_flag false b = not b

unfoldable pub style_eq : Style → Style → Bool
unfolding color_eq same_flag
style_eq s t =
    color_eq s.fg t.fg
    && color_eq s.bg t.bg
    && same_flag s.bold t.bold
    && same_flag s.dim t.dim
    && same_flag s.italic t.italic
    && same_flag s.underline t.underline
    && same_flag s.strike t.strike
    && same_flag s.reverse t.reverse

-- The layer of `other` on top of a style.
unfoldable pub patch : Style → Style → Style
unfolding color_eq
patch s other = record {
  fg = if color_eq other.fg default then s.fg else other.fg;
  bg = if color_eq other.bg default then s.bg else other.bg;
  bold = s.bold || other.bold;
  dim = s.dim || other.dim;
  italic = s.italic || other.italic;
  underline = s.underline || other.underline;
  strike = s.strike || other.strike;
  reverse = s.reverse || other.reverse;
}

unfoldable pub is_plain : Style → Bool
unfolding style_eq
is_plain s = style_eq s plain_style

-- `;` and a number.
unfoldable pub param : ℕ → Str
param n = b';' ∷ to_decimal n

-- `Color::write_sgr`, what it appends.
unfoldable pub color_sgr : Color → Bool → Str
unfolding param
color_sgr c background =
    let base = if background then 40 else 30 in
    let bright = if background then 100 else 90 in
    let place = if background then 48 else 38 in
    elim c [
      | default ↦ param (if background then 49 else 39)
      | black ↦ param base
      | red ↦ param (base + 1)
      | green ↦ param (base + 2)
      | yellow ↦ param (base + 3)
      | blue ↦ param (base + 4)
      | magenta ↦ param (base + 5)
      | cyan ↦ param (base + 6)
      | white ↦ param (base + 7)
      | bright_black ↦ param bright
      | bright_red ↦ param (bright + 1)
      | bright_green ↦ param (bright + 2)
      | bright_yellow ↦ param (bright + 3)
      | bright_blue ↦ param (bright + 4)
      | bright_magenta ↦ param (bright + 5)
      | bright_cyan ↦ param (bright + 6)
      | bright_white ↦ param (bright + 7)
      | indexed n ↦ param place ++ (b';' ∷ b'5' ∷ param n)
      | rgb r g b ↦ param place ++ (b';' ∷ b'2' ∷ (param r ++ (param g ++ param b)))
    ]

unfoldable pub flag : Bool → ℕ → Str
flag on digit = if on then b';' ∷ digit ∷ [] else []

unfoldable pub color_part : Color → Bool → Str
unfolding color_eq color_sgr
color_part c background = if color_eq c default then [] else color_sgr c background

-- The parameters that `write_sgr` puts behind the reset.
unfoldable pub sgr_params : Style → Str
unfolding flag color_part
sgr_params s =
    flag s.bold b'1'
    ++ (flag s.dim b'2'
        ++ (flag s.italic b'3'
            ++ (flag s.underline b'4'
                ++ (flag s.reverse b'7'
                    ++ (flag s.strike b'9' ++ (color_part s.fg false ++ color_part s.bg true))))))

-- `Style::write_sgr`, what it appends.
unfoldable pub write_sgr : Style → Str
unfolding sgr_params
write_sgr s = 0x1b ∷ b'[' ∷ b'0' ∷ (sgr_params s ++ b'm' ∷ [])

-- The code point of a character, its bytes given: the first says how many count.
unfoldable pub code_point : Str → ℕ
code_point [] = 0
code_point (b ∷ t) =
    let bits = λ (i : ℕ). get_or t i 0 - 128 in
    if ltb b 128
    then b
    else if ltb b 224
    then (b - 192) * 64 + bits 0
    else if ltb b 240
    then (b - 224) * 4096 + bits 0 * 64 + bits 1
    else (b - 240) * 262144 + bits 0 * 4096 + bits 1 * 64 + bits 2

unfoldable pub is_bidi_control : Str → Bool
unfolding code_point
is_bidi_control ch =
    let c = code_point ch in
    c == 0x061C || c == 0x200E || c == 0x200F || within 0x202A 0x202E c || within 0x2066 0x2069 c

-- The text of a span, without what a terminal would act on.
unfoldable pub encode_char : Str → Str
unfolding is_control is_bidi_control
encode_char ch = elim ch [
  | [] ↦ []
  | b ∷ t ↦
      if b == b'\t'
      then utf8 "    "
      else if not (is_control (b ∷ t)) && not (is_bidi_control (b ∷ t))
      then b ∷ t
      else []
]

unfoldable pub encode_chars : List Str → Str
unfolding encode_char
encode_chars [] = []
encode_chars (ch ∷ cs) = encode_char ch ++ encode_chars cs

-- `\x1b[0m`
abbrev pub reset : Str
reset = 0x1b ∷ b'[' ∷ b'0' ∷ b'm' ∷ []

-- The style of a span on a band.
unfoldable pub on_fill : Option Color → Style → Style
unfolding color_eq
on_fill none s = s
on_fill (some bg) s = if color_eq s.bg default then record s { bg = bg } else s

-- `if style != current { style.write_sgr(out); current = style }`, what it appends.
unfoldable pub switch : Style → Style → Str
unfolding style_eq write_sgr
switch current style = if style_eq style current then [] else write_sgr style

-- The style that is current behind the spans.
unfoldable pub last_style : Option Color → Style → List Span → Style
unfolding on_fill
last_style fill current [] = current
last_style fill current (s ∷ spans) = last_style fill (on_fill fill s.style) spans

unfoldable pub encode_spans : Option Color → Style → List Span → Str
unfolding on_fill switch encode_chars chars
encode_spans fill current [] = []
encode_spans fill current (s ∷ spans) =
    let style = on_fill fill s.style in
    switch current style ++ (encode_chars (chars s.text) ++ encode_spans fill style spans)

module _ (u : Unicode) where
  unfoldable pub spans_width : List Span → ℕ
  unfolding str_width
  spans_width [] = 0
  spans_width (s ∷ spans) = str_width u s.text + spans_width spans

  -- `Line::width`
  unfoldable pub line_width : Line → ℕ
  unfolding spans_width
  line_width l = spans_width l.spans

  -- The band from the end of the text to the width, and the reset.
  unfoldable pub encode_end : Line → ℕ → Style → Str
  unfolding line_width switch is_plain
  encode_end l width current =
      let used = line_width l in
      elim l.fill [
        | none ↦ if is_plain current then [] else reset
        | some bg ↦
            let fill = record plain_style { bg = bg } in
            let after = if ltb used width then fill else current in
            (if ltb used width then switch current fill ++ replicate (width - used) b' ' else [])
            ++ (if is_plain after then [] else reset)
      ]

  -- `Line::encode`, what it appends.
  unfoldable pub encode : Line → ℕ → Str
  unfolding encode_spans last_style encode_end
  encode l width =
      encode_spans l.fill plain_style l.spans
      ++ encode_end l width (last_style l.fill plain_style l.spans)
