-- ===== src/Auth/Decode.antt =====
-- crates/headless/src/broadcast_auth.rs: a token that needs no escapes is decoded to itself.
use camouflage.Prelude.{
  ℕ, ◌≡◌, refl, arith, Bool, true, false, not, ◌&&◌, some, [], ◌∷◌, ◌++◌, ltb, ◌==◌, All,
}
use camouflage.Text.{Str, utf8, split_at, find_str, str_eq, starts_with}
use camouflage.Auth.{
  decode_bytes, push_byte, is_utf8, from_utf8, from_bytes, percent_decode, token_of_pair,
  split_once, split_once_at, value_if_token, or_next, find_token, token_from_query, plain_byte,
}

-- An ASCII byte that is no part of an escape and does not end a pair of the query.
abbrev pub is_plain : ℕ → Bool
is_plain b = ltb b 128 && not (b == b'%') && not (b == b'+') && not (b == b'&')

abbrev pub IsPlain : Str → Type 0
IsPlain t = All (λ b. is_plain b ≡ true) t

plain-escape : (b : ℕ) → is_plain b ≡ true → (b == b'%') ≡ false
plain-escape b h = ground (arith, h)

plain-plus : (b : ℕ) → is_plain b ≡ true → plain_byte b ≡ b
plain-plus b h = ground (arith, h)

plain-end : (b : ℕ) → is_plain b ≡ true → (b == b'&') ≡ false
plain-end b h = ground (arith, h)

plain-ascii : (b : ℕ) → is_plain b ≡ true → ltb b 0x80 ≡ true
plain-ascii b h = ground (arith, h)

decode_bytes-plain : (t : Str) → IsPlain t → decode_bytes t ≡ some t
unfolding decode_bytes push_byte
decode_bytes-plain [] h = refl
decode_bytes-plain (b ∷ []) h = rw (plain-escape b h.0, plain-plus b h.0) refl
decode_bytes-plain (b ∷ c ∷ []) h =
    rw (plain-escape b h.0, decode_bytes)
      (rw (plain-plus b h.0, decode_bytes-plain (c ∷ []) h.1) refl)
decode_bytes-plain (b ∷ c ∷ d ∷ t) h =
    rw (plain-escape b h.0, decode_bytes)
      (rw (plain-plus b h.0, decode_bytes-plain (c ∷ d ∷ t) h.1) refl)

is_utf8-plain : (lo hi : ℕ) (t : Str) → IsPlain t → is_utf8 0 lo hi t ≡ true
unfolding is_utf8
is_utf8-plain lo hi [] h = refl
is_utf8-plain lo hi (b ∷ t) h = rw (plain-ascii b h.0, is_utf8) (is_utf8-plain 0x80 0xBF t h.1)

percent_decode-plain : (t : Str) → IsPlain t → percent_decode t ≡ some t
unfolding percent_decode from_bytes from_utf8
percent_decode-plain t h = rw (decode_bytes-plain t h, is_utf8-plain 0x80 0xBF t h) refl

split_at-plain : (t : Str) → IsPlain t → split_at b'&' t ≡ t ∷ []
unfolding split_at
split_at-plain [] h = refl
split_at-plain (b ∷ t) h = rw (split_at-plain t h.1, plain-end b h.0) refl

percent_decode-token_param : percent_decode (utf8 "token") ≡ some (utf8 "token")
unfolding utf8
percent_decode-token_param =
    percent_decode-plain (utf8 "token") (refl, (refl, (refl, (refl, (refl, tt)))))

token_of_pair-plain : (t : Str) → token_of_pair (utf8 "token=" ++ t) ≡ percent_decode t
unfolding token_of_pair value_if_token split_once split_once_at utf8 find_str starts_with str_eq
token_of_pair-plain t = rw percent_decode-token_param refl

pub token_from_query-plain :
    (t : Str) → IsPlain t → token_from_query (some (utf8 "token=" ++ t)) ≡ some t
unfolding token_from_query find_token or_next utf8 split_at
token_from_query-plain t h =
    rw (split_at-plain t h) (rw (token_of_pair-plain t, percent_decode-plain t h) refl)
