-- ===== src/Style/Sequences.antt =====
-- crates/inline/src/ansi.rs: what `parse_ansi` makes of SGR sequences.
use camouflage.Prelude.{
  ℕ, ◌≡◌, refl, sym, ap, ◌∙◌, true, false, List, [], ◌∷◌, ◌++◌, Bool-cases, append_assoc,
  append-nil, is_empty, arith, inl, inr,
}
use camouflage.Text.{Str, str_eq, starts_char}
use camouflage.Style.{Span}
use camouflage.Style.Scan.{IsParam, Params}
use camouflage.Ansi.{
  AnsiState, outside, csi, flush, step_ground, step_escape, step_csi, step_in, run, plain_text,
  chars, is_final, apply_sgr,
}
use camouflage.Style.Adds.{chars-append, chars_whole, run-append, shown, Adds}

-- The parameters of a sequence, one byte at a time.
at_params : AnsiState → Str → AnsiState
at_params a params = record a { mode = csi params }

not_final : (b : ℕ) → IsParam b → is_final (b ∷ []) ≡ false
not_final b h = ground (arith, h)

param_step :
    (a : AnsiState) (params : Str) (b : ℕ)
    → IsParam b
    → step_in (csi params) (at_params a params) (b ∷ []) ≡ at_params a (params ++ b ∷ [])
unfolding step_in step_csi at_params
param_step a params b h = rw (not_final b h) refl

begins-Params : (s : Str) → Params s → starts_char (s ++ b'm' ∷ []) ≡ true
begins-Params [] h = refl
begins-Params (b ∷ s) h = ground (arith, h.0)

run_cons :
    (a : AnsiState) (params c : Str) (cs : List Str)
    → run (at_params a params) (c ∷ cs) ≡ run (step_in (csi params) (at_params a params) c) cs
unfolding run at_params
run_cons a params c cs = refl

run-Params :
    (a : AnsiState) (params s : Str)
    → Params s
    → run (at_params a params) (chars (s ++ b'm' ∷ []))
      ≡ run (at_params a (params ++ s)) (chars (b'm' ∷ []))
run-Params a params [] h = rw (append-nil params) refl
run-Params a params (b ∷ s) h =
    ap (run (at_params a params)) (chars-append (b ∷ []) (s ++ b'm' ∷ []) (begins-Params s h.1))
    ∙ (first
        ∙ (run-Params a (params ++ b ∷ []) s h.1
            ∙ ap (λ (ps : Str). run (at_params a ps) (chars (b'm' ∷ [])))
                (append_assoc params (b ∷ []) s)))
  where
    first :
        run (at_params a params) (chars (b ∷ []) ++ chars (s ++ b'm' ∷ []))
        ≡ run (at_params a (params ++ b ∷ [])) (chars (s ++ b'm' ∷ []))
    first =
        ap (λ (ds : List Str). run (at_params a params) (ds ++ chars (s ++ b'm' ∷ [])))
          (chars_whole b [] tt)
        ∙ (run_cons a params (b ∷ []) (chars (s ++ b'm' ∷ []))
            ∙ ap (λ (next : AnsiState). run next (chars (s ++ b'm' ∷ [])))
                (param_step a params b h.0))

plain_text_snoc :
    (spans : List Span) (s : Span) → plain_text (spans ++ s ∷ []) ≡ plain_text spans ++ s.text
unfolding plain_text
plain_text_snoc [] s = append-nil s.text
plain_text_snoc (t ∷ spans) s =
    ap (t.text ++◌) (plain_text_snoc spans s) ∙ sym (append_assoc t.text (plain_text spans) s.text)

empty_end : (a b : Str) → is_empty b ≡ true → a ++ b ≡ a
empty_end a [] h = append-nil a
empty_end a (x ∷ b) h = cc

pub flush-shown :
    (a : AnsiState)
    → (shown (flush a) ≡ shown a)
      × ((flush a).lines ≡ a.lines)
      × (plain_text (flush a).spans ≡ shown a)
unfolding flush shown
flush-shown a = elim (Bool-cases (is_empty a.buf)) [
  | inl e ↦ rw e (refl, refl, sym (empty_end (plain_text a.spans) a.buf e))
  | inr e ↦ rw e (
    append-nil _ ∙ plain_text_snoc a.spans (record { text = a.buf; style = a.style }),
    refl,
    plain_text_snoc a.spans (record { text = a.buf; style = a.style }),
  )
]

-- What a whole sequence does: it changes the style alone.
styled : AnsiState → Str → AnsiState
styled a params = record (flush (at_params a params)) {
  style = apply_sgr a.style params;
  mode = outside;
}

sequence-ends :
    (a : AnsiState) (params : Str) → run (at_params a params) (chars (b'm' ∷ [])) ≡ styled a params
unfolding chars run step_in step_csi at_params styled str_eq
sequence-ends a params = refl

opening : (a : AnsiState) → a.mode ≡ outside → run a (chars (0x1b ∷ b'[' ∷ [])) ≡ at_params a []
unfolding run step_in step_ground step_escape at_params str_eq chars
opening a e = ap (λ m. run (step_in m a (0x1b ∷ [])) ((b'[' ∷ []) ∷ [])) e

sequence-begins :
    (a : AnsiState) (rest : Str)
    → a.mode ≡ outside
    → starts_char rest ≡ true
    → run a (chars (0x1b ∷ b'[' ∷ rest)) ≡ run (at_params a []) (chars rest)
sequence-begins a rest e h =
    ap (run a) (chars-append (0x1b ∷ b'[' ∷ []) rest h)
    ∙ (run-append a (chars (0x1b ∷ b'[' ∷ [])) (chars rest)
        ∙ ap (λ (next : AnsiState). run next (chars rest)) (opening a e))

styled-shown :
    (a : AnsiState) (params : Str)
    → (shown (styled a params) ≡ shown a) × ((styled a params).lines ≡ a.lines)
unfolding styled shown at_params
styled-shown a params = let f = flush-shown (at_params a params) in (f.0, f.1)

styled-mode : (a : AnsiState) (params : Str) → (styled a params).mode ≡ outside
unfolding styled
styled-mode a params = refl

-- A sequence changes the style alone.
pub sequence-Adds : (s : Str) → Params s → Adds (0x1b ∷ b'[' ∷ b'0' ∷ (s ++ b'm' ∷ [])) []
sequence-Adds s h = record {
  begins = refl;
  mode = λ a e. rw (whole a e) (styled-mode a (b'0' ∷ s));
  lines = λ a e. rw (whole a e) (styled-shown a (b'0' ∷ s)).1;
  text_eq = λ a e. rw (whole a e, append-nil (shown a)) (styled-shown a (b'0' ∷ s)).0;
}
  where
    whole :
        (a : AnsiState)
        → a.mode ≡ outside
        → run a (chars (0x1b ∷ b'[' ∷ b'0' ∷ (s ++ b'm' ∷ []))) ≡ styled a (b'0' ∷ s)
    whole a e =
        sequence-begins a (b'0' ∷ (s ++ b'm' ∷ [])) e refl
        ∙ (run-Params a [] (b'0' ∷ s) (refl, h) ∙ sequence-ends a (b'0' ∷ s))
