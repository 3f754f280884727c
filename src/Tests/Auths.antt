-- ===== src/Tests/Auths.antt =====
-- Concrete runs of the handshake (crates/headless/src/broadcast_auth.rs).
use camouflage.Prelude.{◌≡◌, refl, ◌↔◌, ◌⊎◌, none, some, ◌∷◌, []}
use camouflage.Text.{Str}
use camouflage.Auth.{
  from_bytes, push_byte, from_hex, from_utf8, is_utf8, Request, accepted, check_handshake,
  token_from_query, bearer_token, percent_decode, decode_bytes,
}
use camouflage.Auth.Handshake.{check_handshake_iff}

abbrev secret : Str
secret = b's' ∷ b'3' ∷ []

abbrev request : Request
request = record { query = some (b'x' ∷ []); authorization = none }

check_handshake_iff_example :
    (check_handshake request secret secret ≡ accepted secret)
    ↔ ((token_from_query request.query ≡ some secret) ⊎ (bearer_token request ≡ some secret))
check_handshake_iff_example = check_handshake_iff request secret secret

-- A sign is taken for a digit: `%+5`.
signed : percent_decode (b'%' ∷ b'+' ∷ b'5' ∷ []) ≡ some (5 ∷ [])
unfolding percent_decode decode_bytes from_bytes push_byte from_hex from_utf8 is_utf8
signed = refl
