-- ===== src/Auth.antt =====
-- crates/headless/src/broadcast_auth.rs: the access token of the broadcast server's handshake. The
-- request and its headers belong to the crates http and tungstenite: a request is what the program
-- reads of it.
pub mod Compare
pub mod Decode
pub mod Handshake
use Prim.Native.Nat.{bit_or, bit_xor}
use camouflage.Prelude.{
  ℕ, zero, suc, ◌+◌, ◌-◌, ◌*◌, Bool, true, false, not, ◌&&◌, ◌||◌, Option, none, some, List, [],
  ◌∷◌, ◌++◌, leb, ltb, ◌==◌, if◌then◌else◌, length, take, drop,
}
use camouflage.Text.{Str, utf8, str_eq, find_str, split_at, trim, to_lower, is_digit, starts_char}

-- `constant_time_eq`: the fold over the pairs.
unfoldable pub differences : ℕ → Str → Str → ℕ
differences acc [] b = acc
differences acc (x ∷ a) [] = acc
differences acc (x ∷ a) (y ∷ b) = differences (bit_or acc (bit_xor x y)) a b

unfoldable pub constant_time_eq : Str → Str → Bool
constant_time_eq a b = if not (length a == length b) then false else differences 0 a b == 0

-- The digit of base 16 that a byte is.
abbrev pub hex_digit : ℕ → Option ℕ
hex_digit b =
    if is_digit b
    then some (b - 48)
    else if leb b'a' b && leb b b'f'
    then some (b - 87)
    else if leb b'A' b && leb b b'F'
    then some (b - 55)
    else none

unfoldable pub hex_pair : Option ℕ → Option ℕ → Option ℕ
hex_pair (some h) (some l) = some (h * 16 + l)
hex_pair (some h) none = none
hex_pair none l = none

-- `u8::from_str_radix(hex, 16).ok()` of two bytes; a sign may stand before a digit.
unfoldable pub from_hex : ℕ → ℕ → Option ℕ
from_hex h l = if h == b'+' then hex_digit l else hex_pair (hex_digit h) (hex_digit l)

-- How a character of more than one byte goes on: the bytes to come, and what the next one may be.
abbrev pub lead_range : ℕ → Option (ℕ × ℕ × ℕ)
lead_range b =
    if ltb b 0x80
    then some (0, 0x80, 0xBF)
    else if ltb b 0xC2
    then none
    else if ltb b 0xE0
    then some (1, 0x80, 0xBF)
    else if b == 0xE0
    then some (2, 0xA0, 0xBF)
    else if b == 0xED
    then some (2, 0x80, 0x9F)
    else if ltb b 0xF0
    then some (2, 0x80, 0xBF)
    else if b == 0xF0
    then some (3, 0x90, 0xBF)
    else if ltb b 0xF4
    then some (3, 0x80, 0xBF)
    else if b == 0xF4
    then some (3, 0x80, 0x8F)
    else none

-- Whether bytes are UTF-8: `String::from_utf8`.
unfoldable pub is_utf8 : ℕ → ℕ → ℕ → Str → Bool
is_utf8 zero lo hi [] = true
is_utf8 (suc k) lo hi [] = false
is_utf8 (suc k) lo hi (b ∷ s) = leb lo b && leb b hi && is_utf8 k 0x80 0xBF s
is_utf8 zero lo hi (b ∷ s) = elim (lead_range b) [
  | none ↦ false
  | some (k, lo', hi') ↦ is_utf8 k lo' hi' s
]

unfoldable pub from_utf8 : Str → Option Str
from_utf8 s = if is_utf8 0 0x80 0xBF s then some s else none

unfoldable pub push_byte : Option ℕ → Option Str → Option Str
push_byte (some b) (some s) = some (b ∷ s)
push_byte (some b) none = none
push_byte none s = none

abbrev pub plain_byte : ℕ → ℕ
plain_byte b = if b == b'+' then b' ' else b

-- The loop of `percent_decode`. `hex` is read by `s.get(i + 1..i + 3)`, which fails past the end and
-- inside a character.
unfoldable pub decode_bytes : Str → Option Str
decode_bytes [] = some []
decode_bytes (b ∷ []) = if b == b'%' then none else some (plain_byte b ∷ [])
decode_bytes (b ∷ h ∷ []) = elim (b == b'%') [
  | true ↦ none
  | false ↦ push_byte (some (plain_byte b)) (decode_bytes (h ∷ []))
]
decode_bytes (b ∷ h ∷ l ∷ r) = elim (b == b'%') [
  | true ↦ if starts_char r then push_byte (from_hex h l) (decode_bytes r) else none
  | false ↦ push_byte (some (plain_byte b)) (decode_bytes (h ∷ l ∷ r))
]

unfoldable pub from_bytes : Option Str → Option Str
from_bytes none = none
from_bytes (some out) = from_utf8 out

unfoldable pub percent_decode : Str → Option Str
percent_decode s = from_bytes (decode_bytes s)

-- `split_once(c)`
unfoldable pub split_once_at : Option ℕ → Str → Option (Str × Str)
split_once_at none s = none
split_once_at (some i) s = some (take i s, drop (suc i) s)

unfoldable pub split_once : ℕ → Str → Option (Str × Str)
split_once c s = split_once_at (find_str (c ∷ []) s) s

abbrev pub token_param : Str
token_param = utf8 "token"

abbrev pub key_value : Str → Option (Str × Str) → Str × Str
key_value pair none = (pair, [])
key_value pair (some kv) = kv

unfoldable pub value_if_token : Option Str → Str → Option Str
value_if_token none value = none
value_if_token (some key) value = if str_eq key token_param then percent_decode value else none

-- The closure of `token_from_query`, at one pair of the query.
unfoldable pub token_of_pair : Str → Option Str
token_of_pair pair =
    let kv = key_value pair (split_once b'=' pair) in value_if_token (percent_decode kv.0) kv.1

unfoldable pub or_next : Option Str → Option Str → Option Str
or_next (some t) rest = some t
or_next none rest = rest

-- `find_map`
unfoldable pub find_token : List Str → Option Str
find_token [] = none
find_token (pair ∷ pairs) = or_next (token_of_pair pair) (find_token pairs)

unfoldable pub token_from_query : Option Str → Option Str
token_from_query none = none
token_from_query (some query) = find_token (split_at b'&' query)

-- What is read of a request: the query of its URI, and the value of the Authorization header where
-- it is there and `to_str` succeeds.
pub record Request : Type 0 where
  pub query : Option Str
  pub authorization : Option Str

unfoldable pub bearer_of : Option (Str × Str) → Option Str
bearer_of none = none
bearer_of (some (scheme, token)) =
    if str_eq (to_lower scheme) (utf8 "bearer") then some (trim token) else none

unfoldable pub bearer_from : Option Str → Option Str
bearer_from none = none
bearer_from (some value) = bearer_of (split_once b' ' (trim value))

unfoldable pub bearer_token : Request → Option Str
bearer_token req = bearer_from req.authorization

unfoldable pub carries : Option Str → Str → Bool
carries none expected = false
carries (some token) expected = constant_time_eq token expected

unfoldable pub is_authorized : Request → Str → Bool
is_authorized req expected =
    carries (token_from_query req.query) expected || carries (bearer_token req) expected

-- `check_handshake`: the response, or the refusal that `unauthorized` makes.
pub data Reply (R : Type 0) : Type 0 where
  accepted : R → Reply R
  unauthorized : Reply R

unfoldable pub check_handshake : {R : Type 0} → Request → R → Str → Reply R
check_handshake req resp expected =
    if is_authorized req expected then accepted resp else unauthorized
