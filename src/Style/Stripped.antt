-- ===== src/Style/Stripped.antt =====
-- crates/inline/src/style.rs, crates/inline/src/ansi.rs: `strip_ansi` of an encoded line.
use camouflage.Prelude.{
  ℕ, ◌-◌, ◌≡◌, refl, ap, ◌∙◌, subst, false, not, ◌||◌, Option, none, some, List, [], ◌∷◌, ◌++◌, ltb,
  ◌==◌, if◌then◌else◌, Bool-cases, Option-cases, All, append-nil, is_empty, replicate, arith, inl,
  inr,
}
use camouflage.Text.{Str, is_continuation}
use camouflage.Text.Utf8.{IsStr}
use camouflage.Width.{Unicode, concat}
use camouflage.Style.{Color, Style, Span, Line}
use camouflage.Style.Encode.{
  encode_char, encode_chars, is_bidi_control, switch, write_sgr, sgr_params, encode_spans, on_fill,
  style_eq, is_plain, last_style, line_width, encode_end, encode, reset,
}
use camouflage.Style.Scan.{sgr_params-Params}
use camouflage.Style.Inert.{chars-IsWhole}
use camouflage.Ansi.{
  AnsiState, start, flush, run, close, parse_ansi, plain_text, join_lines, strip_ansi, chars,
  is_control, line_of, plain_style,
}
use camouflage.Style.Sequences.{flush-shown, sequence-Adds}
use camouflage.Style.Adds.{shown, Adds, Adds-append, Adds-nil, spaces-Adds, encode_chars-Adds}

write_sgr-Adds : (s : Style) → Adds (write_sgr s) []
unfolding write_sgr
write_sgr-Adds s = sequence-Adds (sgr_params s) (sgr_params-Params s)

switch-Adds : (current style : Style) → Adds (switch current style) []
unfolding switch
switch-Adds current style = elim (Bool-cases (style_eq style current)) [
  | inl e ↦ rw e Adds-nil
  | inr e ↦ rw e (write_sgr-Adds style)
]

reset-Adds : (s : Style) → Adds (if is_plain s then [] else reset) []
reset-Adds s = elim (Bool-cases (is_plain s)) [
  | inl e ↦ rw e Adds-nil
  | inr e ↦ rw e (sequence-Adds [] tt)
]

-- What the spans of a line show: a tab as four spaces, and no control or reordering character.
unfoldable pub shown_text : List Span → Str
unfolding encode_chars chars
shown_text [] = []
shown_text (s ∷ spans) = encode_chars (chars s.text) ++ shown_text spans

encode_spans-Adds :
    (fill : Option Color) (current : Style) (spans : List Span)
    → All (λ (s : Span). IsStr s.text) spans
    → Adds (encode_spans fill current spans) (shown_text spans)
unfolding encode_spans shown_text
encode_spans-Adds fill current [] h = Adds-nil
encode_spans-Adds fill current (s ∷ spans) h =
    Adds-append (switch current (on_fill fill s.style)) _ [] _
      (switch-Adds current (on_fill fill s.style))
      (Adds-append (encode_chars (chars s.text)) _ (encode_chars (chars s.text)) _
        (encode_chars-Adds (chars s.text) (chars-IsWhole s.text h.0))
        (encode_spans-Adds fill (on_fill fill s.style) spans h.1))

-- The spaces of the band behind the text.
unfoldable pub band : Unicode → Line → ℕ → Str
unfolding line_width
band u l width = elim l.fill [ none ↦ [] | some bg ↦ replicate (width - line_width u l) b' ' ]

-- The characters of a text make the text.
concat-chars : (s : Str) → concat (chars s) ≡ s
unfolding chars concat
concat-chars [] = refl
concat-chars (b ∷ s) = joined (chars s) ∙ ap (◌∷◌ b) (concat-chars s)
  where
    joined :
        (ds : List Str)
        → concat (elim ds [
          | [] ↦ (b ∷ []) ∷ []
          | d ∷ ds' ↦
              if elim d [ [] ↦ false | c ∷ t ↦ is_continuation c ]
              then (b ∷ d) ∷ ds'
              else (b ∷ []) ∷ d ∷ ds'
        ])
          ≡ b ∷ concat ds
    joined [] = refl
    joined ([] ∷ ds) = refl
    joined ((c ∷ t) ∷ ds) = elim (Bool-cases (is_continuation c)) [
      | inl e ↦ rw e refl
      | inr e ↦ rw e refl
    ]

-- A text that a terminal shows as it is.
abbrev pub Clean : Str → Type 0
Clean s = All (λ c. (is_control c ≡ false) × (is_bidi_control c ≡ false)) (chars s)

not_tab : (b : ℕ) (t : Str) → is_control (b ∷ t) ≡ false → (b == b'\t') ≡ false
unfolding is_control
not_tab b t h = ground (arith, h)

encode_char-clean : (c : Str) → is_control c ≡ false → is_bidi_control c ≡ false → encode_char c ≡ c
unfolding encode_char
encode_char-clean [] h k = refl
encode_char-clean (b ∷ t) h k = rw (not_tab b t h, h, k) refl

encode_chars-clean :
    (cs : List Str)
    → All (λ c. (is_control c ≡ false) × (is_bidi_control c ≡ false)) cs
    → encode_chars cs ≡ concat cs
unfolding encode_chars concat
encode_chars-clean [] h = refl
encode_chars-clean (c ∷ cs) h = rw (encode_char-clean c h.0.0 h.0.1, encode_chars-clean cs h.1) refl

shown_text-Clean :
    (spans : List Span)
    → All (λ (s : Span). Clean s.text) spans
    → shown_text spans ≡ plain_text spans
unfolding shown_text plain_text
shown_text-Clean [] h = refl
shown_text-Clean (s ∷ spans) h =
    rw (encode_chars-clean (chars s.text) h.0, concat-chars s.text, shown_text-Clean spans h.1) refl

close_at :
    (f : AnsiState)
    → f.lines ≡ []
    → join_lines (
        if not (is_empty f.spans) || is_empty f.lines
        then f.lines ++ line_of f.spans ∷ []
        else f.lines)
      ≡ plain_text f.spans
unfolding join_lines
close_at f e = elim (Bool-cases (is_empty f.spans)) [
  | inl s ↦ rw (s, e) refl
  | inr s ↦ rw (s, e) refl
]

shown-start : shown start ≡ []
unfolding shown plain_text
shown-start = refl

strip_ansi-Adds : (out text : Str) → Adds out text → strip_ansi out ≡ text
unfolding strip_ansi parse_ansi close
strip_ansi-Adds out text h =
    let a = run start (chars out) in
    let f = flush-shown a in
    close_at (flush a) (f.1 ∙ h.lines start refl)
    ∙ (f.2 ∙ (h.text_eq start refl ∙ ap (◌++ text) shown-start))

module _ (u : Unicode) where
  encode_end-Adds :
      (l : Line) (width : ℕ) (current : Style)
      → Adds (encode_end u l width current) (band u l width)
  unfolding encode_end band
  encode_end-Adds l width current = elim (Option-cases l.fill) [
    | inl e ↦ rw e (reset-Adds current)
    | inr (bg, e) ↦ rw e (elim (Bool-cases (ltb (line_width u l) width)) [
      | inl m ↦ rw m (
          subst (Adds _) (append-nil (replicate (width - line_width u l) b' ')) (
            Adds-append _ _ _ []
              (Adds-append _ _ [] _ (switch-Adds current (record plain_style { bg = bg }))
                (spaces-Adds (width - line_width u l)))
              (reset-Adds (record plain_style { bg = bg }))))
      | inr m ↦
          let full : width - line_width u l ≡ 0 = ground (arith, m) in
          rw (m, full) (reset-Adds current)
    ])
  ]

  strip_ansi-shown_text :
      (l : Line) (width : ℕ)
      → All (λ (s : Span). IsStr s.text) l.spans
      → strip_ansi (encode u l width) ≡ shown_text l.spans ++ band u l width
  unfolding encode
  strip_ansi-shown_text l width h = strip_ansi-Adds (encode u l width) _ (
      Adds-append _ _ _ _ (encode_spans-Adds l.fill plain_style l.spans h)
        (encode_end-Adds l width (last_style l.fill plain_style l.spans)))

  -- Stripping an encoded line of its sequences gives its text back, with the spaces of its band, for
  -- texts that are well-formed and hold no tab, no other control character and no format control
  -- that reorders text.
  pub strip_ansi-encode :
      (l : Line) (width : ℕ)
      → All (λ (s : Span). IsStr s.text) l.spans
      → All (λ (s : Span). Clean s.text) l.spans
      → strip_ansi (encode u l width) ≡ plain_text l.spans ++ band u l width
  strip_ansi-encode l width h k =
      strip_ansi-shown_text l width h ∙ ap (◌++ band u l width) (shown_text-Clean l.spans k)
