-- ===== src/Tests/Decoders.antt =====
-- A concrete run of the decoder (crates/headless/src/lib.rs).
use camouflage.Prelude.{ℕ, refl, Bool, true, none, [], ◌∷◌}
use camouflage.Prelude.Int.{pos}
use camouflage.Protocol.{EventType}
use camouflage.Decoder.{Decoder, Shorthand, next_of, decode}
use camouflage.Decoder.Sequence.{Numbered, decode-Numbered}

abbrev seen : Decoder
seen = record { default_session = 0; seqs = (0, pos 3) ∷ [] }

abbrev any_payload : EventType → ℕ → Bool
any_payload t v = true

abbrev line : Shorthand ℕ
line = record {
  event_type = "UserMessageCreated";
  payload = none;
  id = none;
  session_id = none;
  seq = none;
  timestamp_ms = none;
  version = none;
}

decode-Numbered_example : Numbered none seen (decode 0 any_payload 7 (pos 1000) line seen)
unfolding next_of
decode-Numbered_example = decode-Numbered 0 any_payload 7 (pos 1000) line seen refl
