-- ===== src/Style/Scan.antt =====
-- crates/inline/src/style.rs: a scan of terminal bytes that accepts text and SGR sequences alone, and
-- that the sequences of `write_sgr` are such.
use camouflage.Prelude.{
  ℕ, ◌≡◌, refl, ◌∙◌, Bool, true, false, not, ◌&&◌, ◌||◌, Option, none, some, Option-cases, [], ◌∷◌,
  ◌++◌, ltb, leb, ◌==◌, ◌/◌, zero, suc, if◌then◌else◌, Bool-cases, All, All-append, arith, inl, inr,
}
use camouflage.Text.{Str, to_decimal, to_decimal_from}
use camouflage.Ansi.{within}
use camouflage.Style.{
  Color, default, black, red, green, yellow, blue, magenta, cyan, white, bright_black, bright_red,
  bright_green, bright_yellow, bright_blue, bright_magenta, bright_cyan, bright_white, indexed, rgb,
  Style,
}
use camouflage.Style.Encode.{color_eq, param, color_sgr, flag, color_part, sgr_params, write_sgr}

-- A terminal that reads text (the last two bytes kept), or is inside an escape sequence.
pub data Scan : Type 0 where
  reading : ℕ → ℕ → Scan
  escape csi : Scan

-- A byte of text behind two others, by UTF-8: no C0 control or DEL, no control of the second set (0xC2 with 0x80 to 0x9F),
-- none of the format controls that reorder text (0xD8 0x9C, and behind 0xE2
-- 0x80 or 0xE2 0x81 the bytes below).
unfoldable pub shown : ℕ → ℕ → ℕ → Bool
shown p q b =
    leb 32 b
    && not (b == 127)
    && not (q == 0xC2 && within 0x80 0x9F b)
    && not (q == 0xD8 && b == 0x9C)
    && not (p == 0xE2 && q == 0x80 && (within 0x8E 0x8F b || within 0xAA 0xAE b))
    && not (p == 0xE2 && q == 0x81 && within 0xA6 0xA9 b)

-- One byte: text, or the bytes of `ESC [ … m` with digits and semicolons.
unfoldable pub scan_byte : Scan → ℕ → Option Scan
unfolding shown
scan_byte (reading p q) b =
    if b == 0x1b then some escape else if shown p q b then some (reading q b) else none
scan_byte escape b = if b == b'[' then some csi else none
scan_byte csi b =
    if b == b'm'
    then some (reading 0 b)
    else if within b'0' b'9' b || b == b';'
    then some csi
    else none

unfoldable pub scan : Scan → Str → Option Scan
unfolding scan_byte
scan state [] = some state
scan state (b ∷ s) = elim (scan_byte state b) [ none ↦ none | some next ↦ scan next s ]

-- From text to text, whatever text came before.
abbrev pub Quiet : Str → Type 0
Quiet s = (p q : ℕ) → (p' : ℕ) × (q' : ℕ) × (scan (reading p q) s ≡ some (reading p' q'))

next_scan : Option Scan → Str → Option Scan
next_scan none b = none
next_scan (some state) b = scan state b

scan_append_lem : (state : Scan) (a b : Str) → scan state (a ++ b) ≡ next_scan (scan state a) b
unfolding scan next_scan
scan_append_lem state [] b = refl
scan_append_lem state (x ∷ a) b = elim (Option-cases (scan_byte state x)) [
  | inl e ↦ rw (e, scan) refl
  | inr (t, e) ↦ rw (e, scan) (scan_append_lem t a b)
]

scan-append :
    (state next : Scan) (a b : Str) → scan state a ≡ some next → scan state (a ++ b) ≡ scan next b
unfolding next_scan
scan-append state next a b h = rw (scan_append_lem state a b, h) refl

pub Quiet-nil : Quiet []
unfolding scan
Quiet-nil p q = (p, q, refl)

pub Quiet-append : (a b : Str) → Quiet a → Quiet b → Quiet (a ++ b)
Quiet-append a b ha hb p q =
    let first = ha p q in
    let second = hb first.0 first.1 in
    (second.0, second.1, scan-append (reading p q) (reading first.0 first.1) a b first.2 ∙ second.2)

-- The bytes of the parameters.
abbrev pub IsParam : ℕ → Type 0
IsParam b = (within b'0' b'9' b || b == b';') ≡ true

abbrev pub Params : Str → Type 0
Params s = All IsParam s

Params-append : (a b : Str) → Params a → Params b → Params (a ++ b)
Params-append a b ha hb = All-append IsParam a b ha hb

to_decimal_from-Params : (f n : ℕ) → Params (to_decimal_from f n)
unfolding to_decimal_from
to_decimal_from-Params zero n = tt
to_decimal_from-Params (suc f) n = elim (Bool-cases (ltb n 10)) [
  | inl e ↦ rw e (ground arith, tt)
  | inr e ↦ rw e (Params-append _ _ (to_decimal_from-Params f (n / 10)) (ground arith, tt))
]

param-Params : (n : ℕ) → Params (param n)
unfolding param to_decimal
param-Params n = (refl, to_decimal_from-Params (suc n) n)

color_sgr-Params : (c : Color) (background : Bool) → Params (color_sgr c background)
unfolding color_sgr
color_sgr-Params default background = param-Params _
color_sgr-Params black background = param-Params _
color_sgr-Params red background = param-Params _
color_sgr-Params green background = param-Params _
color_sgr-Params yellow background = param-Params _
color_sgr-Params blue background = param-Params _
color_sgr-Params magenta background = param-Params _
color_sgr-Params cyan background = param-Params _
color_sgr-Params white background = param-Params _
color_sgr-Params bright_black background = param-Params _
color_sgr-Params bright_red background = param-Params _
color_sgr-Params bright_green background = param-Params _
color_sgr-Params bright_yellow background = param-Params _
color_sgr-Params bright_blue background = param-Params _
color_sgr-Params bright_magenta background = param-Params _
color_sgr-Params bright_cyan background = param-Params _
color_sgr-Params bright_white background = param-Params _
color_sgr-Params (indexed n) background =
    Params-append (param (if background then 48 else 38)) (b';' ∷ b'5' ∷ param n) (param-Params _)
      (refl, (refl, param-Params n))
color_sgr-Params (rgb r g b) background =
    Params-append (param (if background then 48 else 38))
      (b';' ∷ b'2' ∷ (param r ++ (param g ++ param b))) (param-Params _)
      (
        refl,
        (
          refl,
          Params-append (param r) (param g ++ param b) (param-Params r)
              (Params-append (param g) (param b) (param-Params g) (param-Params b)),
        ),
      )

flag-Params : (on : Bool) (digit : ℕ) → IsParam digit → Params (flag on digit)
unfolding flag
flag-Params true digit h = (refl, (h, tt))
flag-Params false digit h = tt

color_part-Params : (c : Color) (background : Bool) → Params (color_part c background)
unfolding color_part
color_part-Params c background = elim (Bool-cases (color_eq c default)) [
  | inl e ↦ rw e tt
  | inr e ↦ rw e (color_sgr-Params c background)
]

pub sgr_params-Params : (s : Style) → Params (sgr_params s)
unfolding sgr_params
sgr_params-Params s = Params-append _ _ (flag-Params s.bold b'1' refl) (
    Params-append _ _ (flag-Params s.dim b'2' refl) (
      Params-append _ _ (flag-Params s.italic b'3' refl) (
        Params-append _ _ (flag-Params s.underline b'4' refl) (
          Params-append _ _ (flag-Params s.reverse b'7' refl) (
            Params-append _ _ (flag-Params s.strike b'9' refl)
              (Params-append _ _ (color_part-Params s.fg false) (color_part-Params s.bg true)))))))

-- Parameters leave the scan inside the sequence.
scan-Params : (s rest : Str) → Params s → scan csi (s ++ rest) ≡ scan csi rest
unfolding scan scan_byte
scan-Params [] rest h = refl
scan-Params (b ∷ s) rest h = ground (arith, h.0, scan-Params s rest h.1)

pub sequence-Quiet : (s : Str) → Params s → Quiet (0x1b ∷ b'[' ∷ b'0' ∷ (s ++ b'm' ∷ []))
unfolding scan scan_byte
sequence-Quiet s h p q = (0, b'm', scan-Params s (b'm' ∷ []) h)

pub write_sgr-Quiet : (s : Style) → Quiet (write_sgr s)
unfolding write_sgr
write_sgr-Quiet s = sequence-Quiet (sgr_params s) (sgr_params-Params s)
