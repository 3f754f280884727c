-- ===== src/Validate.antt =====
-- crates/headless/src/validate.rs: the strict check of a stream. What serde does is a parameter:
-- whether a line is JSON, the envelope that it holds, and whether a payload fits its event type.
-- An identifier of a session is a number.
pub mod Report
pub mod Order
pub mod Increasing
use camouflage.Prelude.{
  ℕ, suc, Bool, true, false, not, ◌+◌, Option, none, some, List, [], ◌∷◌, ◌++◌, ◌==◌, if◌then◌else◌,
  is_empty, unwrap_or,
}
use camouflage.Prelude.Int.{ℤ, leb_ℤ}
use camouflage.Text.{Str, lines, is_blank}
use camouflage.Protocol.{EventType}

pub record Envelope (V : Type 0) : Type 0 where
  pub event_type : EventType
  pub payload : Option V
  pub session_id : Option ℕ
  pub seq : Option ℤ

pub data ValidationError : Type 0 where
  not_json bad_event_type : ℕ → ValidationError
  bad_payload : ℕ → EventType → ValidationError
  seq_out_of_order : ℕ → ℕ → ℤ → ℤ → ValidationError

pub data Result (A : Type 0) : Type 0 where
  err : ValidationError → Result A
  ok : A → Result A

-- The last number of each session, with the report.
pub record ValidationReport : Type 0 where
  pub lines_total : ℕ
  pub lines_valid : ℕ
  pub errors : List ValidationError

abbrev pub empty_report : ValidationReport
empty_report = record { lines_total = 0; lines_valid = 0; errors = [] }

unfoldable pub is_ok : ValidationReport → Bool
is_ok r = is_empty r.errors

-- `last_seq.get` and `last_seq.insert`
unfoldable pub last_of : ℕ → List (ℕ × ℤ) → Option ℤ
last_of id [] = none
last_of id ((k, n) ∷ m) = if k == id then some n else last_of id m

unfoldable pub set_last : ℕ → ℤ → List (ℕ × ℤ) → List (ℕ × ℤ)
set_last id v [] = (id, v) ∷ []
set_last id v ((k, n) ∷ m) =
    let rest = set_last id v m in if k == id then (k, v) ∷ m else (k, n) ∷ rest

abbrev pub count_line : ValidationReport → ValidationReport
count_line r = record r { lines_total = r.lines_total + 1 }

abbrev pub count_valid : ValidationReport → ValidationReport
count_valid r = record r { lines_valid = r.lines_valid + 1 }

abbrev pub push_error : ValidationError → ValidationReport → ValidationReport
push_error e r = record r { errors = r.errors ++ e ∷ [] }

abbrev pub State : Type 0
State = List (ℕ × ℤ) × ValidationReport

-- Whether a number follows the last one of its session.
unfoldable pub check_seq : ℕ → ℕ → ℤ → Option ℤ → State → State
check_seq line id seq none (m, r) = (set_last id seq m, count_valid r)
check_seq line id seq (some previous) (m, r) =
    if leb_ℤ seq previous
    then (m, push_error (seq_out_of_order line id seq previous) r)
    else (set_last id seq m, count_valid r)

unfoldable pub check_order : ℕ → Option ℕ → Option ℤ → State → State
check_order line (some id) (some seq) (m, r) = check_seq line id seq (last_of id m) (m, r)
check_order line (some id) none (m, r) = (m, count_valid r)
check_order line none seq (m, r) = (m, count_valid r)

module _ {V : Type 0} where
  unfoldable pub envelope_at : ℕ → Option (Envelope V) → Result (Envelope V)
  envelope_at line none = err (bad_event_type line)
  envelope_at line (some env) = ok env

  abbrev pub type_of : Result (Envelope V) → Result EventType
  type_of (err e) = err e
  type_of (ok env) = ok env.event_type

  -- The body of the loop, after a line was counted and its envelope and payload were checked.
  unfoldable pub check_envelope : ℕ → Result (Envelope V) → State → State
  check_envelope line (err e) (m, r) = (m, push_error e r)
  check_envelope line (ok env) (m, r) = check_order line env.session_id env.seq (m, r)

module _ {V : Type 0} (null : V) (is_json : Str → Bool) (envelope : Str → Option (Envelope V))
    (fits : EventType → V → Bool) where
  unfoldable pub parse_envelope : ℕ → Str → Result (Envelope V)
  parse_envelope line raw =
      if is_json raw then envelope_at line (envelope raw) else err (not_json line)

  unfoldable pub check_payload : ℕ → Result (Envelope V) → Result (Envelope V)
  check_payload line (err e) = err e
  check_payload line (ok env) =
      if fits env.event_type (unwrap_or null env.payload)
      then ok env
      else err (bad_payload line env.event_type)

  unfoldable pub validate_line : ℕ → Str → Result EventType
  validate_line line raw = type_of (check_payload line (parse_envelope line raw))

  unfoldable pub validate_next : ℕ → Str → State → State
  validate_next line raw (m, r) =
      if is_blank raw
      then (m, r)
      else check_envelope line (check_payload line (parse_envelope line raw)) (m, count_line r)

  unfoldable pub validate_from : ℕ → List Str → State → State
  validate_from i [] state = state
  validate_from i (raw ∷ rest) state = validate_from (suc i) rest (validate_next (suc i) raw state)

  unfoldable pub validate_stream : Str → ValidationReport
  validate_stream input = (validate_from 0 (lines input) ([], empty_report)).1
