-- ===== src/Auth/Handshake.antt =====
-- crates/headless/src/broadcast_auth.rs: who passes the handshake.
use camouflage.Prelude.{
  ◌≡◌, refl, ◌↔◌, ◌⊎◌, inl, inr, arith, Bool, true, false, ◌||◌, Option, none, some, ap,
  if◌then◌else◌, ◌++◌,
}
use mathlib.Core.Option.{some-injective, none-ne-some}
use camouflage.Text.{Str, utf8}
use camouflage.Auth.{
  Request, accepted, unauthorized, check_handshake, is_authorized, carries, token_from_query,
  bearer_token,
}
use camouflage.Auth.Compare.{constant_time_eq_iff}
use camouflage.Auth.Decode.{IsPlain, token_from_query-plain}

carries_iff : (o : Option Str) (expected : Str) → (carries o expected ≡ true) ↔ (o ≡ some expected)
unfolding carries
carries_iff none e = (λ h. absurd (ground (arith, h)), λ h. absurd (none-ne-some e h))
carries_iff (some t) e =
    let same = constant_time_eq_iff t e in
    (λ h. ap some (same.0 h), λ h. same.1 (some-injective t e h))

or_iff : (a b : Bool) → ((a || b) ≡ true) ↔ ((a ≡ true) ⊎ (b ≡ true))
or_iff a b = ground arith

accepted_iff :
    {R : Type 0} (b : Bool) (resp : R)
    → ((if b then accepted resp else unauthorized) ≡ accepted resp) ↔ (b ≡ true)
accepted_iff true resp = (λ h. refl, λ h. refl)
accepted_iff false resp = (λ h. absurd (refused h), λ h. absurd (ground (arith, h)))
  where
    refused : ¬ (unauthorized ≡ accepted resp)
    refused h = cc

-- The handshake is accepted exactly when the first token of the query, decoded, or the one of the
-- Bearer header is the expected one.
pub check_handshake_iff :
    {R : Type 0} (req : Request) (resp : R) (expected : Str)
    → (check_handshake req resp expected ≡ accepted resp)
      ↔ ((token_from_query req.query ≡ some expected) ⊎ (bearer_token req ≡ some expected))
unfolding check_handshake is_authorized
check_handshake_iff req resp expected =
    let query = carries_iff (token_from_query req.query) expected in
    let header = carries_iff (bearer_token req) expected in
    let either =
      or_iff (carries (token_from_query req.query) expected)
        (carries (bearer_token req) expected) in
    let answer = accepted_iff (is_authorized req expected) resp in
    (
      λ h. elim (either.0 (answer.0 h)) [ inl a ↦ inl (query.0 a) | inr b ↦ inr (header.0 b) ],
      λ h. answer.1 (either.1 (elim h [ inl a ↦ inl (query.1 a) | inr b ↦ inr (header.1 b) ])),
    )

-- A client whose query is `token=` and the expected token, of ASCII bytes without `%`, `+` and `&`,
-- is let in whatever its headers say.
check_handshake-plain :
    {R : Type 0} (t : Str) (header : Option Str) (resp : R)
    → IsPlain t
    → check_handshake (record { query = some (utf8 "token=" ++ t); authorization = header }) resp t
      ≡ accepted resp
check_handshake-plain t header resp h =
    (check_handshake_iff (record { query = some (utf8 "token=" ++ t); authorization = header }) resp
        t).1
      (inl (token_from_query-plain t h))
