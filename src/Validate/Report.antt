-- ===== src/Validate/Report.antt =====
-- crates/headless/src/validate.rs: the report accounts for every line that is not blank.
use camouflage.Prelude.{
  ℕ, suc, ◌+◌, ◌≤◌, ◌<◌, ◌≡◌, refl, arith, Bool, true, false, not, Option, none, some, Bool-cases,
  inl, inr, subst, List, [], ◌∷◌, ◌++◌, if◌then◌else◌, length, length-append, retain, unwrap_or,
}
use camouflage.Prelude.Int.{ℤ, leb_ℤ}
use camouflage.Text.{Str, lines, is_blank}
use camouflage.Protocol.{EventType}
use camouflage.Validate.{
  Envelope, ValidationError, not_json, bad_event_type, bad_payload, seq_out_of_order, Result, err,
  ok, ValidationReport, empty_report, State, count_line, count_valid, push_error, last_of,
  check_seq, check_order, envelope_at, parse_envelope, check_payload, check_envelope, validate_next,
  validate_from, validate_stream,
}

abbrev pub line_of : ValidationError → ℕ
line_of (not_json line) = line
line_of (bad_event_type line) = line
line_of (bad_payload line t) = line
line_of (seq_out_of_order line id seq previous) = line

-- Errors in the order of their lines, one at most for each line, from after `low` to `high`.
abbrev pub InOrder : ℕ → ℕ → List ValidationError → Type 0
InOrder low high [] = Unit
InOrder low high (e ∷ es) = (low < line_of e) × (line_of e ≤ high) × InOrder (line_of e) high es

InOrder-grow :
    (low high : ℕ) (es : List ValidationError) → InOrder low high es → InOrder low (suc high) es
InOrder-grow low high [] h = tt
InOrder-grow low high (e ∷ es) (above, below, rest) =
    (above, omega arith, InOrder-grow (line_of e) high es rest)

InOrder-push :
    (low high : ℕ) (es : List ValidationError) (e : ValidationError)
    → low ≤ high
    → line_of e ≡ suc high
    → InOrder low high es
    → InOrder low (suc high) (es ++ e ∷ [])
InOrder-push low high [] e l h o = (omega arith, omega arith, tt)
InOrder-push low high (d ∷ es) e l h (above, below, rest) =
    (above, omega arith, InOrder-push (line_of d) high es e below h rest)

-- A report of `total` lines that are not blank, among the first `i`; `open` of them have no result
-- yet.
record Sound (i total pending : ℕ) (r : ValidationReport) : Type 0 where
  total_is : r.lines_total ≡ total
  split : r.lines_total ≡ r.lines_valid + length r.errors + pending
  in_order : InOrder 0 i r.errors

Sound-valid :
    (i total : ℕ) (r : ValidationReport) → Sound i total 1 r → Sound (suc i) total 0 (count_valid r)
Sound-valid i total r s = record {
  total_is = s.total_is;
  split = omega (arith, s.split);
  in_order = InOrder-grow 0 i r.errors s.in_order;
}

Sound-error :
    (i total : ℕ) (e : ValidationError) (r : ValidationReport)
    → line_of e ≡ suc i
    → Sound i total 1 r
    → Sound (suc i) total 0 (push_error e r)
Sound-error i total e r h s = record {
  total_is = s.total_is;
  split = omega (arith, s.split, length-append r.errors (e ∷ []));
  in_order = InOrder-push 0 i r.errors e (omega arith) h s.in_order;
}

check_seq-Sound :
    (i total id : ℕ) (seq : ℤ) (o : Option ℤ) (st : State)
    → Sound i total 1 st.1
    → Sound (suc i) total 0 (check_seq (suc i) id seq o st).1
unfolding check_seq
check_seq-Sound i total id seq none (m, r) s = Sound-valid i total r s
check_seq-Sound i total id seq (some p) (m, r) s =
    either (leb_ℤ seq p) _ _ (Sound-error i total (seq_out_of_order (suc i) id seq p) r refl s)
      (Sound-valid i total r s)
  where
    either :
        (b : Bool) (x y : State)
        → Sound (suc i) total 0 x.1
        → Sound (suc i) total 0 y.1
        → Sound (suc i) total 0 (if b then x else y).1
    either true x y h k = h
    either false x y h k = k

check_order-Sound :
    (i total : ℕ) (id : Option ℕ) (seq : Option ℤ) (st : State)
    → Sound i total 1 st.1
    → Sound (suc i) total 0 (check_order (suc i) id seq st).1
unfolding check_order
check_order-Sound i total (some id) (some seq) (m, r) s =
    check_seq-Sound i total id seq (last_of id m) (m, r) s
check_order-Sound i total (some id) none (m, r) s = Sound-valid i total r s
check_order-Sound i total none seq (m, r) s = Sound-valid i total r s

Sound-skip :
    (i total : ℕ) (r : ValidationReport) → Sound i total 0 r → Sound (suc i) (0 + total) 0 r
Sound-skip i total r s = record {
  total_is = omega (arith, s.total_is);
  split = s.split;
  in_order = InOrder-grow 0 i r.errors s.in_order;
}

Sound-count :
    (i total : ℕ) (r : ValidationReport) → Sound i total 0 r → Sound i (1 + total) 1 (count_line r)
Sound-count i total r s = record {
  total_is = omega (arith, s.total_is);
  split = omega (arith, s.split);
  in_order = s.in_order;
}

abbrev pub written : List Str → ℕ
written ls = length (retain (λ raw. not (is_blank raw)) ls)

abbrev count_if : Bool → ℕ
count_if b = if b then 1 else 0

written-cons :
    (raw : Str) (ls : List Str) (total all : ℕ)
    → written (raw ∷ ls) + total ≡ all
    → written ls + (count_if (not (is_blank raw)) + total) ≡ all
written-cons raw ls total all h = ground (arith, h)

-- What a report says of an input.
abbrev pub Accounts : Str → ValidationReport → Type 0
Accounts input r =
    (r.lines_total ≡ written (lines input))
    × (r.lines_total ≡ r.lines_valid + length r.errors)
    × InOrder 0 (length (lines input)) r.errors

module _ {V : Type 0} where
  -- What a failure of a line is reported at.
  abbrev At : ℕ → Result (Envelope V) → Type 0
  At line (err e) = line_of e ≡ line
  At line (ok env) = Unit

  At-if :
      (line : ℕ) (b : Bool) (x y : Result (Envelope V))
      → At line x
      → At line y
      → At line (if b then x else y)
  At-if line true x y h k = h
  At-if line false x y h k = k

  envelope_at-At : (line : ℕ) (o : Option (Envelope V)) → At line (envelope_at line o)
  unfolding envelope_at
  envelope_at-At line none = refl
  envelope_at-At line (some env) = tt

  check_envelope-Sound :
      (i total : ℕ) (x : Result (Envelope V)) (st : State)
      → At (suc i) x
      → Sound i total 1 st.1
      → Sound (suc i) total 0 (check_envelope (suc i) x st).1
  unfolding check_envelope
  check_envelope-Sound i total (err e) (m, r) h s = Sound-error i total e r h s
  check_envelope-Sound i total (ok env) (m, r) h s =
      check_order-Sound i total env.session_id env.seq (m, r) s

module _ {V : Type 0} (null : V) (is_json : Str → Bool) (envelope : Str → Option (Envelope V))
    (fits : EventType → V → Bool) where
  parse_envelope-At :
      (line : ℕ) (raw : Str) → At line (parse_envelope null is_json envelope fits line raw)
  unfolding parse_envelope
  parse_envelope-At line raw =
      At-if line (is_json raw) _ _ (envelope_at-At line (envelope raw)) refl

  check_payload-At :
      (line : ℕ) (r : Result (Envelope V))
      → At line r
      → At line (check_payload null is_json envelope fits line r)
  unfolding check_payload
  check_payload-At line (err e) h = h
  check_payload-At line (ok env) h =
      At-if line (fits env.event_type (unwrap_or null env.payload)) _ _ tt refl

  validate_next-Sound :
      (i total : ℕ) (raw : Str) (st : State)
      → Sound i total 0 st.1
      → Sound
          (suc i)
          (count_if (not (is_blank raw)) + total)
          0
          (validate_next null is_json envelope fits (suc i) raw st).1
  unfolding validate_next
  validate_next-Sound i total raw (m, r) s = elim (Bool-cases (is_blank raw)) [
    | inl e ↦ rw e (Sound-skip i total r s)
    | inr e ↦ rw e (
        check_envelope-Sound i (1 + total) _ (m, count_line r)
          (check_payload-At (suc i) _ (parse_envelope-At (suc i) raw)) (Sound-count i total r s))
  ]

  validate_from-Sound :
      (i total high all : ℕ) (ls : List Str) (st : State)
      → i + length ls ≡ high
      → written ls + total ≡ all
      → Sound i total 0 st.1
      → Sound high all 0 (validate_from null is_json envelope fits i ls st).1
  unfolding validate_from
  validate_from-Sound i total high all [] (m, r) h k s =
      subst (λ n. Sound n all 0 r) (omega (arith, h))
        (subst (λ n. Sound i n 0 r) (omega (arith, k)) s)
  validate_from-Sound i total high all (raw ∷ ls) (m, r) h k s =
      validate_from-Sound (suc i) (count_if (not (is_blank raw)) + total) high all ls
        (validate_next null is_json envelope fits (suc i) raw (m, r)) (omega (arith, h))
        (written-cons raw ls total all k) (validate_next-Sound i total raw (m, r) s)

  -- The report counts every line that is not blank, each of them once as valid or as an error, and
  -- lists the errors in the order of their lines, one at most for each.
  pub validate_stream-Accounts :
      (input : Str) → Accounts input (validate_stream null is_json envelope fits input)
  unfolding validate_stream
  validate_stream-Accounts input =
      let s =
        validate_from-Sound 0 0 (length (lines input)) (written (lines input)) (lines input)
          ([], empty_report) (omega arith) (omega arith) start in
      (s.total_is, omega (arith, s.split), s.in_order)
    where
      start : Sound 0 0 0 empty_report
      start = record { total_is = refl; split = refl; in_order = tt }
