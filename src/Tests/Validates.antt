-- ===== src/Tests/Validates.antt =====
-- Concrete runs of the strict check of a stream (crates/headless/src/validate.rs), for lines whose
-- first byte is the number of an event of session 1.
use camouflage.Prelude.{◌≡◌, refl, true, none, some, Option, Bool, ◌∷◌, [], ℕ}
use camouflage.Prelude.Int.{pos}
use camouflage.Text.{Str, lines, is_blank}
use camouflage.Protocol.{EventType, session_ended}
use camouflage.Validate.{
  Envelope, is_ok, validate_stream, validate_from, validate_next, check_envelope, check_payload,
  parse_envelope, envelope_at, check_order, check_seq, last_of, set_last,
}
use camouflage.Validate.Report.{Accounts, validate_stream-Accounts}
use camouflage.Validate.Increasing.{numbers_of, validate_stream-Ascending}
use camouflage.Validate.Order.{Ascending}

abbrev envelope : Str → Option (Envelope ℕ)
envelope [] = none
envelope (b ∷ s) =
    some (record {
      event_type = session_ended;
      payload = none;
      session_id = some 1;
      seq = some (pos b);
    })

abbrev fits : EventType → ℕ → Bool
fits t v = true

abbrev is_json : Str → Bool
is_json s = true

abbrev stream : Str
stream = b'1' ∷ b'\n' ∷ b'\n' ∷ b'2' ∷ []

validate_stream-Accounts_example : Accounts stream (validate_stream 0 is_json envelope fits stream)
validate_stream-Accounts_example = validate_stream-Accounts 0 is_json envelope fits stream

stream-is_ok : is_ok (validate_stream 0 is_json envelope fits stream) ≡ true
unfolding is_ok validate_stream validate_from lines validate_next is_blank check_envelope
    check_payload parse_envelope envelope_at check_order check_seq last_of set_last
stream-is_ok = refl

validate_stream-Ascending_example : Ascending none (numbers_of envelope 1 (lines stream))
validate_stream-Ascending_example =
    validate_stream-Ascending 0 is_json envelope fits stream 1 stream-is_ok
