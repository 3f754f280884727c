-- ===== src/Decoder.antt =====
-- crates/headless/src/lib.rs: the decoder that fills in what a line of a stream leaves out. Parsing
-- JSON and checking a payload are parameters; identifiers of sessions and events are numbers.
pub mod Sequence
use camouflage.Prelude.{
  ℕ, ◌-◌, ◌^◌, Bool, true, false, not, ◌&&◌, Option, none, some, List, [], ◌∷◌, ◌==◌, if◌then◌else◌,
  unwrap_or,
}
use Prim.Native.String.{String}
use camouflage.Prelude.Int.{ℤ, pos, negsuc, ◌+ℤ◌, ltb_ℤ}
use camouflage.Protocol.{EventType, from_str}

abbrev pub schema_version : ℕ
schema_version = 1

-- The next number of each session that was seen.
pub record Decoder : Type 0 where
  pub default_session : ℕ
  pub seqs : List (ℕ × ℤ)

pub record Shorthand (V : Type 0) : Type 0 where
  pub event_type : String
  pub payload : Option V
  pub id : Option ℕ
  pub session_id : Option ℕ
  pub seq : Option ℤ
  pub timestamp_ms : Option ℤ
  pub version : Option ℕ

pub record Event (V : Type 0) : Type 0 where
  pub id : ℕ
  pub session_id : ℕ
  pub seq : ℤ
  pub timestamp_ms : ℤ
  pub version : ℕ
  pub event_type : EventType
  pub payload : V

pub data NdjsonError : Type 0 where
  unknown_event_type : String → NdjsonError
  schema_version_mismatch : ℕ → ℕ → NdjsonError
  invalid_payload : EventType → NdjsonError

pub data Decoded (V : Type 0) : Type 0 where
  refused : NdjsonError → Decoded V
  event : Event V → Decoded V

abbrev pub max_i64 : ℤ
max_i64 = pos (2 ^ 63 - 1)

-- `seq + 1` on an `i64`, which wraps to the least one where overflow is not checked.
unfoldable pub succ_i64 : ℤ → ℤ
succ_i64 a = if ltb_ℤ a max_i64 then a +ℤ pos 1 else negsuc (2 ^ 63 - 1)

-- `*seqs.entry(session_id).or_insert(0)`
unfoldable pub next_of : ℕ → List (ℕ × ℤ) → ℤ
next_of id [] = pos 0
next_of id ((k, n) ∷ m) = if k == id then n else next_of id m

unfoldable pub set_next : ℕ → ℤ → List (ℕ × ℤ) → List (ℕ × ℤ)
set_next id v [] = (id, v) ∷ []
set_next id v ((k, n) ∷ m) =
    let rest = set_next id v m in if k == id then (k, v) ∷ m else (k, n) ∷ rest

unfoldable pub next_seq : ℕ → Decoder → Decoder × ℤ
next_seq id d =
    let seq = next_of id d.seqs in (record d { seqs = set_next id (succ_i64 seq) d.seqs }, seq)

unfoldable pub observe_seq : ℕ → ℤ → Decoder → Decoder
observe_seq id seq d =
    let next = next_of id d.seqs in
    record d {
      seqs = set_next id (if ltb_ℤ next (succ_i64 seq) then succ_i64 seq else next) d.seqs;
    }

-- The number of an event: the host's, or the next one.
unfoldable pub take_seq : Option ℤ → ℕ → Decoder → Decoder × ℤ
take_seq (some seq) id d = (observe_seq id seq d, seq)
take_seq none id d = next_seq id d

abbrev pub mismatched : ℕ → Bool
mismatched version = not (version == 0) && not (version == schema_version)

-- `null` is the JSON value of a payload that is left out, `fresh_id` and `now` are what the system
-- gives, and `validate` says whether a payload fits its event type.
module _ {V : Type 0} (null : V) (validate : EventType → V → Bool) where
  unfoldable pub accept : EventType → ℕ → ℤ → Shorthand V → Decoder → Decoder × Decoded V
  accept t fresh_id now s d =
      let version = unwrap_or schema_version s.version in
      let payload = unwrap_or null s.payload in
      let session_id = unwrap_or d.default_session s.session_id in
      let (d', seq) = take_seq s.seq session_id d in
      let e : Event V = record {
        id = unwrap_or fresh_id s.id;
        session_id = session_id;
        seq = seq;
        timestamp_ms = unwrap_or now s.timestamp_ms;
        version = if version == 0 then schema_version else version;
        event_type = t;
        payload = payload;
      } in
      if mismatched version
      then (d, refused (schema_version_mismatch version schema_version))
      else if validate t payload
      then (d', event e)
      else (d, refused (invalid_payload t))

  unfoldable pub decode_as : Option EventType → ℕ → ℤ → Shorthand V → Decoder → Decoder × Decoded V
  decode_as none fresh_id now s d = (d, refused (unknown_event_type s.event_type))
  decode_as (some t) fresh_id now s d = accept t fresh_id now s d

  -- `parse_line` behind the JSON parser.
  unfoldable pub decode : ℕ → ℤ → Shorthand V → Decoder → Decoder × Decoded V
  decode fresh_id now s d = decode_as (from_str s.event_type) fresh_id now s d
