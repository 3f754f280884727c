-- ===== src/Ansi/Plain.antt =====
-- crates/inline/src/ansi.rs: what is left of host text has no control character.
use camouflage.Prelude.{
  ℕ, ◌≤◌, ◌≡◌, ◌≢◌, refl, Bool, true, false, not, ◌||◌, ◌&&◌, ◌==◌, leb, List, [], ◌∷◌, ◌++◌,
  if◌then◌else◌, Bool-cases, is_empty, All, All-append, arith, inl, inr,
}
use camouflage.Text.{Str, utf8, str_eq, is_continuation}
use camouflage.Text.Utf8.{IsStr}
use camouflage.Style.{Span, Line}
use camouflage.Style.Inert.{Continues, IsWhole, chars-IsWhole}
use camouflage.Ansi.{
  AnsiState, Mode, outside, escape, osc, osc_escape, csi, start, flush, line_of, step_ground,
  step_escape, step_csi, step_osc, step_osc_escape, step_in, run, close, parse_ansi, chars,
  is_control, is_final,
}

-- Not a C0 control and not DEL.
pub data Printable (b : ℕ) : Type 0 where
  printable : 32 ≤ b → b ≢ 127 → Printable b

-- The two bytes encode a control character from U+0080 to U+009F.
abbrev pub is_c1 : ℕ → ℕ → Bool
is_c1 p b = p == 0xC2 && leb 128 b && leb b 159

-- No such character among the bytes that follow `p`.
abbrev pub NoC1 : ℕ → Str → Type 0
NoC1 p [] = Unit
NoC1 p (b ∷ s) = (is_c1 p b ≡ false) × NoC1 b s

abbrev pub PlainText : Str → Type 0
PlainText s = All Printable s × NoC1 0 s

abbrev pub PlainSpans : List Span → Type 0
PlainSpans spans = All (λ (s : Span). PlainText s.text) spans

abbrev pub PlainLine : Line → Type 0
PlainLine l = PlainSpans l.spans

record Plain (a : AnsiState) : Type 0 where
  lines : All PlainLine a.lines
  spans : PlainSpans a.spans
  buf : PlainText a.buf

-- A piece that stays plain behind any other.
abbrev Piece : Str → Type 0
Piece t = All Printable t × ((p : ℕ) → NoC1 p t)

continued-Piece : (t : Str) → Continues t → All Printable t
continued-Piece [] h = tt
continued-Piece (d ∷ t) h =
    (printable (ground (arith, h.0)) (ground (arith, h.0)), continued-Piece t h.1)

continued-NoC1 : (d : ℕ) (t : Str) → is_continuation d ≡ true → Continues t → NoC1 d t
continued-NoC1 d [] c h = tt
continued-NoC1 d (e ∷ t) c h = (ground (arith, c), continued-NoC1 e t h.0 h.1)

char-NoC1 : (b : ℕ) (t : Str) → is_control (b ∷ t) ≡ false → Continues t → NoC1 b t
unfolding is_control
char-NoC1 b [] c h = tt
char-NoC1 b (d ∷ t) c h = (ground (arith, c), continued-NoC1 d t h.0 h.1)

plain_char : (c : Str) → IsWhole c → is_control c ≡ false → Piece c
unfolding is_control
plain_char [] i h = (tt, λ p. tt)
plain_char (b ∷ t) i h = (
  (printable (ground (arith, h)) (ground (arith, h)), continued-Piece t i.1),
  λ p. (ground (arith, i.0), char-NoC1 b t h i.1),
)

append-NoC1 : (p : ℕ) (s t : Str) → NoC1 p s → ((q : ℕ) → NoC1 q t) → NoC1 p (s ++ t)
append-NoC1 p [] t h k = k p
append-NoC1 p (b ∷ s) t h k = (h.0, append-NoC1 b s t h.1 k)

flush-Plain : (a : AnsiState) → Plain a → Plain (flush a)
unfolding flush
flush-Plain a p = elim (Bool-cases (is_empty a.buf)) [
  | inl e ↦ rw e p
  | inr e ↦ rw e (record {
    lines = p.lines;
    spans = All-append (λ (s : Span). PlainText s.text) a.spans _ p.spans (p.buf, tt);
    buf = (tt, tt);
  })
]

Plain-if : (b : Bool) {x y : AnsiState} → Plain x → Plain y → Plain (if b then x else y)
Plain-if true p q = p
Plain-if false p q = q

moved-Plain : (a : AnsiState) (m : Mode) → Plain a → Plain (record a { mode = m })
moved-Plain a m p = record { lines = p.lines; spans = p.spans; buf = p.buf }

step_escape-Plain : (a : AnsiState) (c : Str) → Plain a → Plain (step_escape a c)
unfolding step_escape
step_escape-Plain a c p =
    Plain-if (str_eq c (b'[' ∷ [])) (moved-Plain a (csi []) p)
      (Plain-if (str_eq c (b']' ∷ [])) (moved-Plain a osc p) (moved-Plain a outside p))

step_osc-Plain : (a : AnsiState) (c : Str) → Plain a → Plain (step_osc a c)
unfolding step_osc
step_osc-Plain a c p =
    Plain-if (str_eq c (7 ∷ [])) (moved-Plain a outside p)
      (Plain-if (str_eq c (27 ∷ [])) (moved-Plain a osc_escape p) (moved-Plain a osc p))

step_csi-Plain : (params : Str) (a : AnsiState) (c : Str) → Plain a → Plain (step_csi params a c)
unfolding step_csi
step_csi-Plain params a c p =
    let f = flush-Plain a p in
    Plain-if (is_final c)
      (Plain-if (str_eq c (b'm' ∷ [])) (record { lines = f.lines; spans = f.spans; buf = f.buf })
        (moved-Plain a outside p))
      (moved-Plain a (csi (params ++ c)) p)

spaces-Piece : Piece (utf8 "    ")
unfolding utf8
spaces-Piece =
    ((space, (space, (space, (space, tt)))), λ p. (ground arith, (refl, (refl, (refl, tt)))))
  where
    space : Printable 32
    space = printable (omega arith) (omega arith)

added-Plain : (a : AnsiState) (t : Str) → Piece t → Plain a → Plain (record a { buf = a.buf ++ t })
added-Plain a t h p = record {
  lines = p.lines;
  spans = p.spans;
  buf = (All-append Printable a.buf t p.buf.0 h.0, append-NoC1 0 a.buf t p.buf.1 h.1);
}

step_ground-Plain : (a : AnsiState) (c : Str) → IsWhole c → Plain a → Plain (step_ground a c)
unfolding step_ground
step_ground-Plain a c i p =
    let f = flush-Plain a p in
    Plain-if (str_eq c (27 ∷ [])) (moved-Plain a escape p) (
      Plain-if (str_eq c (b'\n' ∷ [])) (new_line f) (
        Plain-if (str_eq c (b'\r' ∷ [])) p (
          Plain-if (str_eq c (b'\t' ∷ [])) (added-Plain a (utf8 "    ") spaces-Piece p)
            (shown (is_control c) refl))))
  where
    new_line :
        Plain (flush a)
        → Plain (record (flush a) { lines = a.lines ++ line_of (flush a).spans ∷ []; spans = [] })
    new_line f = record {
      lines = All-append PlainLine a.lines _ p.lines (f.spans, tt);
      spans = tt;
      buf = f.buf;
    }

    shown : (b : Bool) → is_control c ≡ b → Plain (if b then a else record a { buf = a.buf ++ c })
    shown true h = p
    shown false h = added-Plain a c (plain_char c i h) p

step_in-Plain : (m : Mode) (a : AnsiState) (c : Str) → IsWhole c → Plain a → Plain (step_in m a c)
unfolding step_in step_osc_escape
step_in-Plain outside a c i p = step_ground-Plain a c i p
step_in-Plain escape a c i p = step_escape-Plain a c p
step_in-Plain osc a c i p = step_osc-Plain a c p
step_in-Plain osc_escape a c i p =
    Plain-if (str_eq c (b'\\' ∷ [])) (moved-Plain a outside p) (step_osc-Plain a c p)
step_in-Plain (csi params) a c i p = step_csi-Plain params a c p

run-Plain : (a : AnsiState) (cs : List Str) → All IsWhole cs → Plain a → Plain (run a cs)
unfolding run
run-Plain a [] h p = p
run-Plain a (c ∷ cs) h p = run-Plain (step_in a.mode a c) cs h.1 (step_in-Plain a.mode a c h.0 p)

close-Plain : (a : AnsiState) → Plain a → All PlainLine (close a)
unfolding close
close-Plain a p =
    let f = flush-Plain a p in
    elim (Bool-cases (not (is_empty (flush a).spans) || is_empty (flush a).lines)) [
      | inl e ↦ rw e (All-append PlainLine (flush a).lines _ f.lines (f.spans, tt))
      | inr e ↦ rw e f.lines
    ]

-- Whatever text the host sends, the spans that `parse_ansi` returns have no C0 control (escape, newline,
-- carriage return and tab among them), no DEL and no control character from U+0080 to U+009F.
pub parse_ansi-Plain : (text : Str) → IsStr text → All PlainLine (parse_ansi text)
unfolding parse_ansi
parse_ansi-Plain text h = close-Plain _ (
    run-Plain start (chars text) (chars-IsWhole text h)
      (record { lines = tt; spans = tt; buf = (tt, tt) }))
