-- ===== src/Ansi.antt =====
-- crates/inline/src/ansi.rs: host text with escape sequences, parsed into styled lines. The loop
-- over the characters is a fold of `step`; `Mode` says which of the inner loops it is in.
pub mod Plain
use camouflage.Prelude.{
  ℕ, zero, suc, ◌-◌, ◌%◌, Bool, true, false, not, ◌&&◌, ◌||◌, Option, none, some, List, [], ◌∷◌,
  ◌++◌, map, ltb, leb, ◌==◌, if◌then◌else◌, unwrap_or, is_empty, get_or, get_elem?,
}
use camouflage.Text.{Str, utf8, str_eq, split_at, is_continuation, parse_usize}
use camouflage.Style.{
  Color, default, black, red, green, yellow, blue, magenta, cyan, white, bright_black, bright_red,
  bright_green, bright_yellow, bright_blue, bright_magenta, bright_cyan, bright_white, indexed, rgb,
  Style, Span, Line,
}

-- `Style::new`
abbrev pub plain_style : Style
plain_style = record {
  fg = default;
  bg = default;
  bold = false;
  dim = false;
  italic = false;
  underline = false;
  strike = false;
  reverse = false;
}

unfoldable pub basic : ℕ → Color
basic n = get_or (black ∷ red ∷ green ∷ yellow ∷ blue ∷ magenta ∷ cyan ∷ []) n white

unfoldable pub bright : ℕ → Color
bright n =
    get_or
      (bright_black ∷ bright_red ∷ bright_green ∷ bright_yellow ∷ bright_blue ∷ bright_magenta
        ∷ bright_cyan ∷ [])
      n bright_white

abbrev pub within : ℕ → ℕ → ℕ → Bool
within a b n = leb a n && leb n b

-- One number that is not 38 or 48.
unfoldable pub apply_simple : ℕ → Style → Style
unfolding basic bright
apply_simple n s =
    if n == 0
    then plain_style
    else if n == 1
    then record s { bold = true }
    else if n == 2
    then record s { dim = true }
    else if n == 3
    then record s { italic = true }
    else if n == 4
    then record s { underline = true }
    else if n == 7
    then record s { reverse = true }
    else if n == 9
    then record s { strike = true }
    else if n == 22
    then record s { bold = false; dim = false }
    else if n == 23
    then record s { italic = false }
    else if n == 24
    then record s { underline = false }
    else if n == 27
    then record s { reverse = false }
    else if n == 29
    then record s { strike = false }
    else if within 30 37 n
    then record s { fg = basic (n - 30) }
    else if n == 39
    then record s { fg = default }
    else if within 40 47 n
    then record s { bg = basic (n - 40) }
    else if n == 49
    then record s { bg = default }
    else if within 90 97 n
    then record s { fg = bright (n - 90) }
    else if within 100 107 n
    then record s { bg = bright (n - 100) }
    else s

-- The color behind a 38 or 48, and how many numbers it takes.
unfoldable pub extended : List ℕ → Color × ℕ
extended rest =
    let g : ℕ → ℕ = λ k. get_or rest (k - 1) 0 % 256 in
    if is_empty rest
    then (default, 0)
    else if get_or rest 0 0 == 5
    then (indexed (g 2), 2)
    else if get_or rest 0 0 == 2
    then (rgb (g 2) (g 3) (g 4), 4)
    else (default, 0)

-- The loop over the numbers: `skip` of them are already used.
unfoldable pub apply_from : ℕ → List ℕ → Style → Style
unfolding apply_simple extended
apply_from skip [] s = s
apply_from (suc skip) (n ∷ rest) s = apply_from skip rest s
apply_from zero (n ∷ rest) s =
    let (color, used) = extended rest in
    let fore = apply_from used rest (record s { fg = color }) in
    let back = apply_from used rest (record s { bg = color }) in
    let next = apply_from 0 rest (apply_simple n s) in
    if n == 38 then fore else if n == 48 then back else next

-- `p.parse::<u16>().unwrap_or(0)`
unfoldable pub parse_param : Str → ℕ
parse_param p = elim (parse_usize p) [ none ↦ 0 | some n ↦ if leb n 65535 then n else 0 ]

unfoldable pub apply_sgr : Style → Str → Style
unfolding apply_from parse_param
apply_sgr s params =
    let nums =
      if is_empty params
      then 0 ∷ []
      else map parse_param
          (split_at b';' (map (λ (b : ℕ). if b == b':' then b';' else b) params)) in
    apply_from 0 nums s

-- `text.chars()`: every character as its bytes.
unfoldable pub chars : Str → List Str
chars [] = []
chars (b ∷ s) = elim (chars s) [
  | [] ↦ (b ∷ []) ∷ []
  | c ∷ cs ↦ if starts_inside c then (b ∷ c) ∷ cs else (b ∷ []) ∷ c ∷ cs
]
  where
    starts_inside : Str → Bool
    starts_inside [] = false
    starts_inside (d ∷ t) = is_continuation d

-- `char::is_control`: the general category Cc.
unfoldable pub is_control : Str → Bool
is_control [] = false
is_control (b ∷ t) = ltb b 32 || b == 127 || b == 0xC2 && within 128 159 (get_or t 0 0)

pub data Mode : Type 0 where
  outside escape osc osc_escape : Mode
  csi : Str → Mode

pub record AnsiState : Type 0 where
  pub lines : List Line
  pub spans : List Span
  pub style : Style
  pub buf : Str
  pub mode : Mode

abbrev pub start : AnsiState
start = record { lines = []; spans = []; style = plain_style; buf = []; mode = outside }

unfoldable pub flush : AnsiState → AnsiState
flush a =
    if is_empty a.buf
    then a
    else record a { spans = a.spans ++ (record { text = a.buf; style = a.style }) ∷ []; buf = [] }

abbrev pub line_of : List Span → Line
line_of spans = record { spans = spans; fill = none }

unfoldable pub step_ground : AnsiState → Str → AnsiState
unfolding flush is_control
step_ground a c =
    if str_eq c (27 ∷ [])
    then record a { mode = escape }
    else if str_eq c (b'\n' ∷ [])
    then record (flush a) { lines = a.lines ++ line_of (flush a).spans ∷ []; spans = [] }
    else if str_eq c (b'\r' ∷ [])
    then a
    else if str_eq c (b'\t' ∷ [])
    then record a { buf = a.buf ++ utf8 "    " }
    else if is_control c
    then a
    else record a { buf = a.buf ++ c }

-- The character behind an escape.
unfoldable pub step_escape : AnsiState → Str → AnsiState
step_escape a c =
    if str_eq c (b'[' ∷ [])
    then record a { mode = csi [] }
    else if str_eq c (b']' ∷ [])
    then record a { mode = osc }
    else record a { mode = outside }

abbrev pub is_final : Str → Bool
is_final [] = false
is_final (b ∷ t) = within 64 126 b && is_empty t

unfoldable pub step_csi : Str → AnsiState → Str → AnsiState
unfolding flush
step_csi params a c =
    if is_final c
    then if str_eq c (b'm' ∷ [])
      then record (flush a) { style = apply_sgr a.style params; mode = outside }
      else record a { mode = outside }
    else record a { mode = csi (params ++ c) }

unfoldable pub step_osc : AnsiState → Str → AnsiState
step_osc a c =
    if str_eq c (7 ∷ [])
    then record a { mode = outside }
    else if str_eq c (27 ∷ [])
    then record a { mode = osc_escape }
    else record a { mode = osc }

-- `chars.peek() == Some(&'\\')`, else the character is one of the string.
unfoldable pub step_osc_escape : AnsiState → Str → AnsiState
step_osc_escape a c = if str_eq c (b'\\' ∷ []) then record a { mode = outside } else step_osc a c

unfoldable pub step_in : Mode → AnsiState → Str → AnsiState
step_in outside a c = step_ground a c
step_in escape a c = step_escape a c
step_in osc a c = step_osc a c
step_in osc_escape a c = step_osc_escape a c
step_in (csi params) a c = step_csi params a c

unfoldable pub run : AnsiState → List Str → AnsiState
run a [] = a
run a (c ∷ cs) = run (step_in a.mode a c) cs

unfoldable pub close : AnsiState → List Line
close a =
    let f = flush a in
    if not (is_empty f.spans) || is_empty f.lines then f.lines ++ line_of f.spans ∷ [] else f.lines

unfoldable pub parse_ansi : Str → List Line
parse_ansi text = close (run start (chars text))

-- `Line::plain_text`
unfoldable pub plain_text : List Span → Str
plain_text [] = []
plain_text (s ∷ spans) = s.text ++ plain_text spans

unfoldable pub join_lines : List Line → Str
join_lines [] = []
join_lines (l ∷ []) = plain_text l.spans
join_lines (l ∷ m ∷ ls) = plain_text l.spans ++ b'\n' ∷ join_lines (m ∷ ls)

unfoldable pub strip_ansi : Str → Str
strip_ansi text = join_lines (parse_ansi text)
