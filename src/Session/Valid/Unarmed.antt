-- ===== src/Session/Valid/Unarmed.antt =====
-- crates/inline/src/session.rs: in a whole run, no key grants a request that was not on the screen long
-- enough.
use camouflage.Prelude.{ℕ, ◌≡◌, refl, sym, subst, false, Option, none, some, is_some, List, All}
use camouflage.Prelude.Int.{ℤ}
use camouflage.Text.{Str}
use camouflage.Width.{Unicode}
use camouflage.Json.{Json}
use camouflage.Key.{Key}
use camouflage.Protocol.{form_response}
use camouflage.Blocks.{Block}
use camouflage.Form.{FormState, FormOutcome, pending, submitted, form_key}
use camouflage.Session.{Session, send}
use camouflage.Session.Ask.{Prompt, armed}
use camouflage.Session.Keys.{form_outcome, handle_key, route}
use camouflage.Session.Still.{Consistent}
use camouflage.Session.Answer.{
  SendsNoGrant, nothing_sent, grants-form_values, grants-cancelled, prompt_key-unarmed,
}
use camouflage.Session.Valid.Run.{Input, start, run, run-Sound}

form_outcome-SendsNoGrant :
    (f : FormState) (o : FormOutcome) (s : Session) → SendsNoGrant s (form_outcome f o s)
unfolding form_outcome send
form_outcome-SendsNoGrant f pending s = nothing_sent s
form_outcome-SendsNoGrant f (submitted values) s =
    (_, refl, rw (grants-form_values form_response f.id values) refl)
form_outcome-SendsNoGrant f FormOutcome.cancelled s =
    (_, refl, rw (grants-cancelled form_response f.id) refl)

module _ (u : Unicode) (lowercase : Str → Str) where
  handle_key-unarmed :
      (k : Key) (p : Prompt) (now : ℤ) (s : Session)
      → s.prompt ≡ some p
      → armed p now ≡ false
      → All Consistent s.entries
      → SendsNoGrant s (handle_key u lowercase k now s)
  unfolding handle_key route
  handle_key-unarmed k p now s h a c = at s.form
    where
      at :
          (f : Option FormState)
          → SendsNoGrant s (route u lowercase f (is_some s.prompt) s.browser k now s)
      at (some f) = form_outcome-SendsNoGrant (form_key u k f).0 (form_key u k f).1 s
      at none =
          subst (λ o. SendsNoGrant s (route u lowercase none (is_some o) s.browser k now s)) (sym h)
            (prompt_key-unarmed lowercase k p now s h a c)

  -- Whatever happened in a session so far: while the open prompt is a request for a permission that has
  -- been on the screen for less than 400 ms, or not at all, what a key adds to the answers that are to be
  -- sent grants no request, whether or not a form is open and whatever was to be sent before.
  pub run-unarmed :
      {V : Type 0} (j : Json V) (capitalize : Str → Str) {L : Type 0} (blank : L)
      (draw : Block → List L) (app_name : Str) (width height : ℕ) (is : List (Input V × ℤ))
      (k : Key) (p : Prompt) (now : ℤ)
      → (run j capitalize u lowercase blank draw is (start app_name width height)).session.prompt
        ≡ some p
      → armed p now ≡ false
      → SendsNoGrant
          (run j capitalize u lowercase blank draw is (start app_name width height)).session
          (handle_key u lowercase k now
            (run j capitalize u lowercase blank draw is (start app_name width height)).session)
  run-unarmed j capitalize blank draw app_name width height is k p now h a =
      handle_key-unarmed k p now _ h a
        (run-Sound j capitalize u lowercase blank draw app_name width height is).session.consistent
