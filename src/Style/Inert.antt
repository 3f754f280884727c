-- ===== src/Style/Inert.antt =====
-- crates/inline/src/style.rs: what a terminal makes of an encoded line.
use camouflage.Prelude.{
  ℕ, ◌-◌, ◌≡◌, refl, true, false, not, Option, some, Option-cases, List, [], ◌∷◌, ltb, ◌==◌, zero,
  suc, if◌then◌else◌, Bool-cases, All, replicate, arith, inl, inr,
}
use camouflage.Text.{Str, utf8, starts_char, is_continuation}
use camouflage.Text.Utf8.{IsStr, starts_char_of_IsStr}
use camouflage.Width.{Unicode}
use camouflage.Ansi.{plain_style, chars, is_control}
use camouflage.Style.{Color, Style, Span, Line}
use camouflage.Style.Encode.{
  style_eq, is_plain, code_point, is_bidi_control, encode_char, encode_chars, on_fill, switch,
  last_style, encode_spans, line_width, reset, encode_end, encode,
}
use camouflage.Style.Scan.{
  reading, shown, scan_byte, scan, Quiet, Quiet-nil, Quiet-append, sequence-Quiet, write_sgr-Quiet,
}

-- A byte that begins a character, and the bytes that continue it.
abbrev pub Continues : Str → Type 0
Continues t = All (λ d. is_continuation d ≡ true) t

abbrev pub IsWhole : Str → Type 0
IsWhole [] = Unit
IsWhole (b ∷ t) = (is_continuation b ≡ false) × Continues t

-- A byte that may stand behind two others.
byte_shown : (p q b : ℕ) → shown p q b ≡ true → scan_byte (reading p q) b ≡ some (reading q b)
unfolding scan_byte shown
byte_shown p q b h = ground (arith, h)

first-shown :
    (p q b : ℕ) (t : Str)
    → is_continuation b ≡ false
    → is_control (b ∷ t) ≡ false
    → shown p q b ≡ true
unfolding shown is_control
first-shown p q b t w h = ground (arith, w, h)

second-shown :
    (p b d : ℕ) (t : Str)
    → is_continuation b ≡ false
    → is_continuation d ≡ true
    → is_control (b ∷ d ∷ t) ≡ false
    → is_bidi_control (b ∷ d ∷ t) ≡ false
    → shown p b d ≡ true
unfolding shown is_control is_bidi_control code_point
second-shown p b d t w v h k = ground (arith, w, v, h, k)

third-shown :
    (b d e : ℕ) (t : Str)
    → is_continuation d ≡ true
    → is_continuation e ≡ true
    → is_bidi_control (b ∷ d ∷ e ∷ t) ≡ false
    → shown b d e ≡ true
unfolding shown is_bidi_control code_point
third-shown b d e t v w k = ground (arith, v, w, k)

later-shown :
    (p q b : ℕ)
    → is_continuation p ≡ true
    → is_continuation q ≡ true
    → is_continuation b ≡ true
    → shown p q b ≡ true
unfolding shown
later-shown p q b u v w = ground (arith, u, v, w)

-- From the fourth byte on nothing is refused.
continued-Quiet :
    (t : Str) (p q : ℕ)
    → is_continuation p ≡ true
    → is_continuation q ≡ true
    → Continues t
    → (p' : ℕ) × (q' : ℕ) × (scan (reading p q) t ≡ some (reading p' q'))
unfolding scan
continued-Quiet [] p q hp hq h = (p, q, refl)
continued-Quiet (d ∷ t) p q hp hq h =
    rw (byte_shown p q d (later-shown p q d hp hq h.0), scan) (continued-Quiet t q d hq h.0 h.1)

char-Quiet : (c : Str) → IsWhole c → is_control c ≡ false → is_bidi_control c ≡ false → Quiet c
unfolding scan
char-Quiet [] w hc hb p q = (p, q, refl)
char-Quiet (b ∷ []) w hc hb p q =
    rw (byte_shown p q b (first-shown p q b [] w.0 hc), scan) (q, b, refl)
char-Quiet (b ∷ d ∷ []) w hc hb p q =
    rw
      (
        byte_shown p q b (first-shown p q b (d ∷ []) w.0 hc),
        byte_shown q b d (second-shown q b d [] w.0 w.1.0 hc hb),
        scan,
      )
      (b, d, refl)
char-Quiet (b ∷ d ∷ e ∷ t) w hc hb p q =
    rw
      (
        byte_shown p q b (first-shown p q b (d ∷ e ∷ t) w.0 hc),
        byte_shown q b d (second-shown q b d (e ∷ t) w.0 w.1.0 hc hb),
        byte_shown b d e (third-shown b d e t w.1.0 w.1.1.0 hb),
        scan,
      )
      (continued-Quiet t d e w.1.0 w.1.1.0 w.1.1.1)

spaces-Quiet : (n : ℕ) → Quiet (replicate n b' ')
unfolding scan is_control
spaces-Quiet zero p q = (p, q, refl)
spaces-Quiet (suc n) p q =
    rw (byte_shown p q b' ' (first-shown p q b' ' [] refl refl), scan) (spaces-Quiet n q b' ')

encode_char-Quiet : (c : Str) → IsWhole c → Quiet (encode_char c)
unfolding encode_char utf8
encode_char-Quiet [] w = Quiet-nil
encode_char-Quiet (b ∷ t) w = elim (Bool-cases (b == b'\t')) [
  | inl e ↦ rw e (spaces-Quiet 4)
  | inr e ↦ rw e (elim (Bool-cases (is_control (b ∷ t))) [
    | inl c ↦ rw c Quiet-nil
    | inr c ↦ rw c (elim (Bool-cases (is_bidi_control (b ∷ t))) [
      | inl k ↦ rw k Quiet-nil
      | inr k ↦ rw k (char-Quiet (b ∷ t) w c k)
    ])
  ])
]

encode_chars-Quiet : (cs : List Str) → All IsWhole cs → Quiet (encode_chars cs)
unfolding encode_chars
encode_chars-Quiet [] h = Quiet-nil
encode_chars-Quiet (c ∷ cs) h =
    Quiet-append (encode_char c) (encode_chars cs) (encode_char-Quiet c h.0)
      (encode_chars-Quiet cs h.1)

-- The characters of a text: all but the first begin with a byte that begins one, and the first with
-- the text's first byte.
abbrev Heads : Str → List Str → Type 0
Heads s [] = Unit
Heads s ([] ∷ cs) = All IsWhole cs
Heads s ((b ∷ c) ∷ cs) = (starts_char s ≡ not (is_continuation b)) × (Continues c × All IsWhole cs)

chars-Heads : (s : Str) → Heads s (chars s)
unfolding chars
chars-Heads [] = tt
chars-Heads (b ∷ s) = joined (chars s) (chars-Heads s)
  where
    joined :
        (cs : List Str)
        → Heads s cs
        → Heads (b ∷ s) (elim cs [
          | [] ↦ (b ∷ []) ∷ []
          | c ∷ cs' ↦
              if elim c [ [] ↦ false | d ∷ t ↦ is_continuation d ]
              then (b ∷ c) ∷ cs'
              else (b ∷ []) ∷ c ∷ cs'
        ])
    joined [] h = (refl, (tt, tt))
    joined ([] ∷ cs) h = (refl, (tt, (tt, h)))
    joined ((d ∷ t) ∷ cs) h = elim (Bool-cases (is_continuation d)) [
      | inl e ↦ rw e (refl, ((e, h.1.0), h.1.1))
      | inr e ↦ rw e (refl, (tt, ((e, h.1.0), h.1.1)))
    ]

pub chars-IsWhole : (s : Str) → IsStr s → All IsWhole (chars s)
chars-IsWhole s h = whole (chars s) (chars-Heads s)
  where
    whole : (cs : List Str) → Heads s cs → All IsWhole cs
    whole [] g = tt
    whole ([] ∷ cs) g = (tt, g)
    whole ((b ∷ c) ∷ cs) g = ((ground (arith, g.0, starts_char_of_IsStr s h), g.1.0), g.1.1)

switch-Quiet : (current style : Style) → Quiet (switch current style)
unfolding switch
switch-Quiet current style = elim (Bool-cases (style_eq style current)) [
  | inl e ↦ rw e Quiet-nil
  | inr e ↦ rw e (write_sgr-Quiet style)
]

reset-Quiet : (s : Style) → Quiet (if is_plain s then [] else reset)
reset-Quiet s = elim (Bool-cases (is_plain s)) [
  | inl e ↦ rw e Quiet-nil
  | inr e ↦ rw e (sequence-Quiet [] tt)
]

abbrev Texts : List Span → Type 0
Texts spans = All (λ (s : Span). IsStr s.text) spans

encode_spans-Quiet :
    (fill : Option Color) (current : Style) (spans : List Span)
    → Texts spans
    → Quiet (encode_spans fill current spans)
unfolding encode_spans
encode_spans-Quiet fill current [] h = Quiet-nil
encode_spans-Quiet fill current (s ∷ spans) h =
    Quiet-append (switch current (on_fill fill s.style)) _
      (switch-Quiet current (on_fill fill s.style))
      (Quiet-append (encode_chars (chars s.text)) _
        (encode_chars-Quiet (chars s.text) (chars-IsWhole s.text h.0))
        (encode_spans-Quiet fill (on_fill fill s.style) spans h.1))

module _ (u : Unicode) where
  encode_end-Quiet : (l : Line) (width : ℕ) (current : Style) → Quiet (encode_end u l width current)
  unfolding encode_end
  encode_end-Quiet l width current = elim (Option-cases l.fill) [
    | inl e ↦ rw e (reset-Quiet current)
    | inr (bg, e) ↦ rw e (elim (Bool-cases (ltb (line_width u l) width)) [
      | inl m ↦ rw m (
          Quiet-append _ _
            (Quiet-append _ _ (switch-Quiet current (record plain_style { bg = bg }))
              (spaces-Quiet (width - line_width u l)))
            (reset-Quiet (record plain_style { bg = bg })))
      | inr m ↦ rw m (reset-Quiet current)
    ])
  ]

  -- An encoded line whose texts are well-formed is text and SGR sequences alone: no control
  -- character, no format control that reorders text and no other escape sequence is written.
  pub encode-Inert :
      (l : Line) (width : ℕ)
      → All (λ (s : Span). IsStr s.text) l.spans
      → (p : ℕ) × (q : ℕ) × (scan (reading 0 0) (encode u l width) ≡ some (reading p q))
  unfolding encode
  encode-Inert l width h =
      Quiet-append _ _ (encode_spans-Quiet l.fill plain_style l.spans h)
        (encode_end-Quiet l width (last_style l.fill plain_style l.spans)) 0 0
