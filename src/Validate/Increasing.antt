-- ===== src/Validate/Increasing.antt =====
-- crates/headless/src/validate.rs: the numbers of each session in a stream without errors.
use camouflage.Prelude.{
  ℕ, suc, ◌⊎◌, ◌≡◌, refl, subst, arith, Bool, true, false, Option, none, some, List, [], ◌∷◌,
  if◌then◌else◌, Bool-cases, inl, inr, unwrap_or,
}
use mathlib.Core.Option.{some-ne-none}
use camouflage.Prelude.Int.{ℤ}
use camouflage.Text.{Str, lines, is_blank}
use camouflage.Protocol.{EventType}
use camouflage.Validate.{
  Envelope, not_json, bad_payload, Result, err, ok, is_ok, State, count_line, last_of, envelope_at,
  parse_envelope, check_payload, check_envelope, validate_next, validate_from, validate_stream,
  empty_report,
}
use camouflage.Validate.Order.{
  Ascending, number_in, add_number, Follows, NoErrors, push_error-not, check_order-Follows,
  check_order-errors, Ascending-add,
}

module _ {V : Type 0} where
  -- The number that a line gives to a session.
  abbrev pub number_at : ℕ → Option (Envelope V) → Option ℤ
  number_at id none = none
  number_at id (some env) = number_in id env.session_id env.seq

  abbrev envelope_in : Result (Envelope V) → Option (Envelope V)
  envelope_in (err e) = none
  envelope_in (ok env) = some env

  check_envelope-Follows :
      (line id : ℕ) (x : Result (Envelope V)) (st : State)
      → NoErrors (check_envelope line x st)
      → NoErrors st
        × Follows
            (number_at id (envelope_in x))
            (last_of id st.0)
            (last_of id (check_envelope line x st).0)
  unfolding check_envelope
  check_envelope-Follows line id (err x) (m, r) e =
      absurd (ground (arith, e, push_error-not x r.errors))
  check_envelope-Follows line id (ok env) (m, r) e = (
    check_order-errors line env.session_id env.seq (m, r) e,
    check_order-Follows line id env.session_id env.seq (m, r) e,
  )

  refused_envelope :
      (line : ℕ) (x : Result (Envelope V)) (st : State)
      → envelope_in x ≡ none
      → ¬ (NoErrors (check_envelope line x st))
  unfolding check_envelope
  refused_envelope line (err x) (m, r) h e = absurd (ground (arith, e, push_error-not x r.errors))
  refused_envelope line (ok env) (m, r) h e = absurd (some-ne-none env h)

  envelope_at-in : (line : ℕ) (o : Option (Envelope V)) → envelope_in (envelope_at line o) ≡ o
  unfolding envelope_at
  envelope_at-in line none = refl
  envelope_at-in line (some env) = refl

  kept_if :
      (b : Bool) (o : Option (Envelope V)) (x y : Result (Envelope V))
      → (envelope_in x ≡ none) ⊎ (envelope_in x ≡ o)
      → envelope_in y ≡ none
      → (envelope_in (if b then x else y) ≡ none) ⊎ (envelope_in (if b then x else y) ≡ o)
  kept_if true o x y h k = h
  kept_if false o x y h k = inl k

module _ {V : Type 0} (envelope : Str → Option (Envelope V)) where
  -- The numbers that the lines give to a session.
  abbrev pub numbers_of : ℕ → List Str → List ℤ
  numbers_of id [] = []
  numbers_of id (raw ∷ ls) =
      add_number (if is_blank raw then none else number_at id (envelope raw)) (numbers_of id ls)

module _ {V : Type 0} (null : V) (is_json : Str → Bool) (envelope : Str → Option (Envelope V))
    (fits : EventType → V → Bool) where
  check_payload-in :
      (line : ℕ) (o : Option (Envelope V)) (x : Result (Envelope V))
      → (envelope_in x ≡ none) ⊎ (envelope_in x ≡ o)
      → (envelope_in (check_payload null is_json envelope fits line x) ≡ none)
        ⊎ (envelope_in (check_payload null is_json envelope fits line x) ≡ o)
  unfolding check_payload
  check_payload-in line o (err e) h = h
  check_payload-in line o (ok env) h =
      kept_if (fits env.event_type (unwrap_or null env.payload)) o (ok env)
        (err (bad_payload line env.event_type)) h refl

  checked : ℕ → Str → Result (Envelope V)
  checked line raw =
      check_payload null is_json envelope fits line
        (parse_envelope null is_json envelope fits line raw)

  checked-in :
      (line : ℕ) (raw : Str)
      → (envelope_in (checked line raw) ≡ none) ⊎ (envelope_in (checked line raw) ≡ envelope raw)
  unfolding checked parse_envelope
  checked-in line raw = check_payload-in line (envelope raw) _ (
      kept_if (is_json raw) (envelope raw) (envelope_at line (envelope raw)) (err (not_json line))
        (inr (envelope_at-in line (envelope raw))) refl)

  checked-Follows :
      (line id : ℕ) (raw : Str) (st : State)
      → NoErrors (check_envelope line (checked line raw) st)
      → NoErrors st
        × Follows
            (number_at id (envelope raw))
            (last_of id st.0)
            (last_of id (check_envelope line (checked line raw) st).0)
  checked-Follows line id raw st e = elim (checked-in line raw) [
    | inl n ↦ absurd (refused_envelope line (checked line raw) st n e)
    | inr n ↦
        subst
          (λ o.
            NoErrors st
            × Follows (number_at id o) (last_of id st.0)
                (last_of id (check_envelope line (checked line raw) st).0))
          n (check_envelope-Follows line id (checked line raw) st e)
  ]

  validate_next-Follows :
      (line id : ℕ) (raw : Str) (st : State)
      → NoErrors (validate_next null is_json envelope fits line raw st)
      → NoErrors st
        × Follows
            (if is_blank raw then none else number_at id (envelope raw))
            (last_of id st.0)
            (last_of id (validate_next null is_json envelope fits line raw st).0)
  unfolding validate_next checked
  validate_next-Follows line id raw (m, r) = elim (Bool-cases (is_blank raw)) [
    | inl b ↦ rw b (λ e. (e, refl))
    | inr b ↦ rw b (checked-Follows line id raw (m, count_line r))
  ]

  validate_from-Ascending :
      (i id : ℕ) (ls : List Str) (st : State)
      → NoErrors (validate_from null is_json envelope fits i ls st)
      → NoErrors st × Ascending (last_of id st.0) (numbers_of envelope id ls)
  unfolding validate_from
  validate_from-Ascending i id [] st e = (e, tt)
  validate_from-Ascending i id (raw ∷ ls) st e =
      let rest =
        validate_from-Ascending (suc i) id ls
          (validate_next null is_json envelope fits (suc i) raw st) e in
      let here = validate_next-Follows (suc i) id raw st rest.0 in
      (
        here.0,
        Ascending-add (if is_blank raw then none else number_at id (envelope raw)) _ _ _ here.1
            rest.1,
      )

  -- In a stream that is accepted without errors, the numbers of each session strictly increase, in
  -- the order of its lines.
  pub validate_stream-Ascending :
      (input : Str) (id : ℕ)
      → is_ok (validate_stream null is_json envelope fits input) ≡ true
      → Ascending none (numbers_of envelope id (lines input))
  unfolding validate_stream is_ok last_of
  validate_stream-Ascending input id e =
      (validate_from-Ascending 0 id (lines input) ([], empty_report) e).1
