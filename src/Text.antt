-- ===== src/Text.antt =====
-- Rust's `str`: UTF-8 bytes, with the operations of the standard library that the program calls.
-- A position is a byte offset, as in the source.
pub mod Laws
pub mod Utf8
pub mod Boundary
pub mod Lines
pub mod Trim
use Prim.Native.Char.{code}
use Prim.Native.String.{String}
use camouflage.Prelude.{
  ℕ, zero, suc, ◌+◌, ◌-◌, ◌*◌, ◌/◌, ◌%◌, Bool, true, false, not, ◌&&◌, ◌||◌, Option, none, some,
  List, [], ◌∷◌, ◌++◌, ltb, leb, ◌==◌, if◌then◌else◌, length, is_empty,
}

abbrev pub Str : Type 0
Str = List ℕ

-- UTF-8 of one scalar value.
abbrev pub encode : ℕ → Str
encode c =
    if ltb c 128
    then c ∷ []
    else if ltb c 2048
    then (192 + c / 64) ∷ (128 + c % 64) ∷ []
    else if ltb c 65536
    then (224 + c / 4096) ∷ (128 + c / 64 % 64) ∷ (128 + c % 64) ∷ []
    else (240 + c / 262144) ∷ (128 + c / 4096 % 64) ∷ (128 + c / 64 % 64) ∷ (128 + c % 64) ∷ []

-- The bytes of a literal.
unfoldable pub utf8 : String → Str
utf8 String.[] = []
utf8 (String.◌∷◌ c s) = encode (code c) ++ utf8 s

unfoldable pub str_eq : Str → Str → Bool
str_eq [] [] = true
str_eq (x ∷ xs) (y ∷ ys) = x == y && str_eq xs ys
str_eq _ _ = false

-- `s.starts_with(p)`, the pattern first.
unfoldable pub starts_with : Str → Str → Bool
starts_with [] s = true
starts_with (p ∷ ps) [] = false
starts_with (p ∷ ps) (c ∷ s) = p == c && starts_with ps s

unfoldable pub ends_with : Str → Str → Bool
unfolding str_eq
ends_with p [] = is_empty p
ends_with p (c ∷ s) = str_eq p (c ∷ s) || ends_with p s

unfoldable pub strip_prefix : Str → Str → Option Str
strip_prefix [] s = some s
strip_prefix (p ∷ ps) [] = none
strip_prefix (p ∷ ps) (c ∷ s) = if p == c then strip_prefix ps s else none

unfoldable pub strip_suffix : Str → Str → Option Str
unfolding str_eq
strip_suffix p [] = if is_empty p then some [] else none
strip_suffix p (c ∷ s) =
    let rest = strip_suffix p s in
    if str_eq p (c ∷ s) then some [] else elim rest [ none ↦ none | some r ↦ some (c ∷ r) ]

-- The first and the last place of a pattern.
unfoldable pub find_str : Str → Str → Option ℕ
unfolding starts_with
find_str p [] = if is_empty p then some 0 else none
find_str p (c ∷ s) =
    let rest = find_str p s in
    if starts_with p (c ∷ s) then some 0 else elim rest [ none ↦ none | some i ↦ some (suc i) ]

unfoldable pub rfind_str : Str → Str → Option ℕ
unfolding starts_with
rfind_str p [] = if is_empty p then some 0 else none
rfind_str p (c ∷ s) = elim (rfind_str p s) [
  | none ↦ if starts_with p (c ∷ s) then some 0 else none
  | some i ↦ some (suc i)
]

-- `s.replace(from, to)` for a non-empty `from`: the leftmost matches, which do not overlap. The
-- number counts the bytes of a match that are still to be passed over.
unfoldable pub replace_from : ℕ → Str → Str → Str → Str
unfolding starts_with
replace_from k from to [] = []
replace_from (suc k) from to (c ∷ s) = replace_from k from to s
replace_from zero from to (c ∷ s) =
    let hit = starts_with from (c ∷ s) in
    (if hit then to else c ∷ []) ++ replace_from (if hit then length from - 1 else 0) from to s

unfoldable pub replace_str : Str → Str → Str → Str
unfolding replace_from
replace_str from to s = replace_from 0 from to s

-- `s.split(c)` for an ASCII character: never empty.
unfoldable pub split_at : ℕ → Str → List Str
split_at c [] = [] ∷ []
split_at c (x ∷ s) = elim (split_at c s) [
  | [] ↦ []
  | l ∷ ls ↦ if x == c then [] ∷ l ∷ ls else (x ∷ l) ∷ ls
]

strip_cr : Str → Str
strip_cr [] = []
strip_cr (c ∷ []) = if c == b'\r' then [] else c ∷ []
strip_cr (c ∷ d ∷ s) = c ∷ strip_cr (d ∷ s)

close_lines : List Str → List Str
unfolding strip_cr
close_lines [] = []
close_lines (l ∷ []) = if is_empty l then [] else l ∷ []
close_lines (l ∷ m ∷ r) = strip_cr l ∷ close_lines (m ∷ r)

-- `s.lines()`: a line ends at "\n" or "\r\n", and the last end may be left out.
unfoldable pub lines : Str → List Str
unfolding split_at close_lines
lines s = close_lines (split_at b'\n' s)

-- A byte that does not start a character.
abbrev pub is_continuation : ℕ → Bool
is_continuation b = leb 128 b && ltb b 192

-- `s.chars().count()`
unfoldable pub char_count : Str → ℕ
char_count [] = 0
char_count (b ∷ s) = (if is_continuation b then 0 else 1) + char_count s

-- `s.is_char_boundary(i)`, at the rest of the text from `i` on.
abbrev pub starts_char : Str → Bool
starts_char [] = true
starts_char (b ∷ s) = not (is_continuation b)

-- The length of the white-space character (Unicode White_Space) that a text begins with, or 0.
unfoldable pub white_len : Str → ℕ
unfolding starts_with
white_len [] = 0
white_len (b ∷ s) =
    if leb 9 b && leb b 13 || b == 32
    then 1
    else if b == 0xC2 && (starts_with (0x85 ∷ []) s || starts_with (0xA0 ∷ []) s)
    then 2
    else if b == 0xE1 && starts_with (0x9A ∷ 0x80 ∷ []) s
        || b == 0xE3 && starts_with (0x80 ∷ 0x80 ∷ []) s
    then 3
    else if b == 0xE2 && white_tail s
    then 3
    else 0
  where
    white_tail : Str → Bool
    white_tail [] = false
    white_tail (c ∷ []) = false
    white_tail (c ∷ d ∷ t) =
        c == 0x80 && (leb 0x80 d && leb d 0x8A || d == 0xA8 || d == 0xA9 || d == 0xAF)
        || c == 0x81 && d == 0x9F

unfoldable pub trim_start_from : ℕ → Str → Str
unfolding white_len
trim_start_from k [] = []
trim_start_from (suc k) (b ∷ s) = trim_start_from k s
trim_start_from zero (b ∷ s) =
    let w = white_len (b ∷ s) in
    let rest = trim_start_from (w - 1) s in if w == 0 then b ∷ s else rest

unfoldable pub trim_start : Str → Str
unfolding trim_start_from
trim_start s = trim_start_from 0 s

-- `s.trim().is_empty()`
unfoldable pub is_blank : Str → Bool
unfolding trim_start
is_blank s = is_empty (trim_start s)

unfoldable pub trim_end : Str → Str
unfolding is_blank
trim_end [] = []
trim_end (b ∷ s) = let rest = trim_end s in if is_blank (b ∷ s) then [] else b ∷ rest

unfoldable pub trim : Str → Str
unfolding trim_start trim_end
trim s = trim_end (trim_start s)

-- `to_ascii_lowercase`
abbrev pub lower_byte : ℕ → ℕ
lower_byte b = if leb b'A' b && leb b b'Z' then b + 32 else b

unfoldable pub to_lower : Str → Str
to_lower [] = []
to_lower (b ∷ s) = lower_byte b ∷ to_lower s

-- Decimal print of a `usize`, on fuel: each round divides by ten.
unfoldable pub to_decimal_from : ℕ → ℕ → Str
to_decimal_from zero n = []
to_decimal_from (suc f) n =
    let more = to_decimal_from f (n / 10) in (if ltb n 10 then [] else more) ++ ((48 + n % 10) ∷ [])

unfoldable pub to_decimal : ℕ → Str
unfolding to_decimal_from
to_decimal n = to_decimal_from (suc n) n

abbrev pub is_digit : ℕ → Bool
is_digit b = leb 48 b && leb b 57

parse_digits : ℕ → Str → Option ℕ
parse_digits acc [] = some acc
parse_digits acc (b ∷ s) =
    let rest = parse_digits (acc * 10 + (b - 48)) s in
    if is_digit b && leb (acc * 10 + (b - 48)) (18446744073709551615) then rest else none

-- `s.parse::<usize>()` on a 64-bit target.
unfoldable pub parse_usize : Str → Option ℕ
unfolding parse_digits
parse_usize [] = none
parse_usize (b ∷ s) =
    if b == b'+' then (if is_empty s then none else parse_digits 0 s) else parse_digits 0 (b ∷ s)
