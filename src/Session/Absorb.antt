-- ===== src/Session/Absorb.antt =====
-- crates/inline/src/session.rs: `absorb_wizard_answers` ends.
use mathlib.Core.Option.{some-ne-none}
use camouflage.Prelude.{
  ℕ, zero, suc, ◌+◌, ◌-◌, ◌<◌, ◌≤◌, ◌≡◌, refl, sym, subst, ap, ◌∙◌, unwrap_or, Option, none, some,
  is_some, List, [], ◌∷◌, ◌||◌, if◌then◌else◌, Bool-cases, length, length-append, length-drop,
  length-take, leb, get_elem?, take, drop, arith, inl, inr,
}
use camouflage.Prelude.Int.{ℤ}
use camouflage.Text.{Str, utf8, str_eq}
use camouflage.Json.{Json}
use camouflage.Session.{Session, Outbound, StepAnswer}
use camouflage.Session.Ask.{Prompt, is_permission}
use camouflage.Session.Apply
use camouflage.Session.Prompts.{open_prompt, open_beside}
use camouflage.Session.Requests
use camouflage.Session.Status.{string_at}
use camouflage.Session.Wizard.{
  Wizard, Hosted, remove_at, step_event, ask_event, ask_step, show_step, take_answer, answer_at,
  answer_to, step_id, without, absorb_event, absorb_turn, absorb_from, absorb,
}

open_beside-outbound :
    (o : Option Prompt) (p : Prompt) (s : Session) → (open_beside o p s).outbound ≡ s.outbound
unfolding open_beside
open_beside-outbound none p s = refl
open_beside-outbound (some shown) p s = elim (Bool-cases (is_permission shown || is_permission p)) [
  | inl c ↦ rw c refl
  | inr c ↦ rw c refl
]

module _ {V : Type 0} (j : Json V) (capitalize : Str → Str) where
  -- Asking a step sends nothing.
  ask_step-outbound :
      (o : Option V) (w : Wizard V) (now : ℤ) (s : Session)
      → (ask_step j capitalize o w now s).outbound ≡ s.outbound
  unfolding ask_step ask_event step_event Apply.apply Requests.show_select_list
      Requests.show_confirm Requests.show_form open_prompt
  ask_step-outbound none w now s = refl
  ask_step-outbound (some x) w now s =
      elim (Bool-cases (str_eq (string_at j x (utf8 "kind")) (utf8 "select"))) [
        | inl c ↦ rw c (open_beside-outbound s.prompt _ s)
        | inr c ↦ rw c (elim (Bool-cases (str_eq (string_at j x (utf8 "kind")) (utf8 "confirm"))) [
          | inl d ↦ rw d (open_beside-outbound s.prompt _ s)
          | inr d ↦ rw d refl
        ])
      ]

  -- How many events the loop has still to look at, when it goes on.
  abbrev ahead : ℕ → Hosted V → ℕ
  ahead i h = if is_some h.wizard then length h.session.outbound - i else 0

  show_step-ahead :
      (w : Wizard V) (now : ℤ) (i : ℕ) (s : Session)
      → ahead i (show_step j capitalize w now s) ≡ length s.outbound - i
  unfolding show_step
  show_step-ahead w now i s =
      ap (λ os. length os - i) (ask_step-outbound (get_elem? w.steps w.at) w now s)

  length-remove_at :
      (i : ℕ) (os : List Outbound) → i < length os → length (remove_at i os) + 1 ≡ length os
  unfolding remove_at
  length-remove_at i os l =
      omega (
        arith,
        length-append (take i os) (drop (suc i) os),
        length-take i os,
        length-drop (suc i) os,
      )

  get_elem?-some :
      (os : List Outbound) (i : ℕ) (o : Outbound) → get_elem? os i ≡ some o → i < length os
  get_elem?-some [] i o e = absurd (some-ne-none o (sym e))
  get_elem?-some (x ∷ xs) zero o e = omega arith
  get_elem?-some (x ∷ xs) (suc i) o e = omega (arith, get_elem?-some xs i o e)

  take_answer-ahead :
      (a : Option StepAnswer) (w : Wizard V) (now : ℤ) (i : ℕ) (s : Session)
      → ahead i (take_answer j capitalize a w now s) ≤ length s.outbound - i
  unfolding take_answer
  take_answer-ahead none w now i s = ground arith
  take_answer-ahead (some a) w now i s = elim (Bool-cases (leb (length w.steps) (w.at + 1))) [
    | inl c ↦ rw c (ground arith)
    | inr c ↦ rw c (omega (arith, show_step-ahead _ now i s))
  ]

  -- What a turn of the loop leaves to look at.
  abbrev Fewer : ℕ → Option (ℕ × Hosted V) → Type 0
  Fewer n none = Unit
  Fewer n (some (i, h)) = ahead i h < n

  absorb_event-Fewer :
      (w : Wizard V) (o : Option Outbound) (i : ℕ) (now : ℤ) (h : Hosted V)
      → get_elem? h.session.outbound i ≡ o
      → Fewer
          (length h.session.outbound - i)
          (absorb_event j capitalize w (answer_at j capitalize w o) i now h)
  unfolding absorb_event
  absorb_event-Fewer w none i now h e = tt
  absorb_event-Fewer w (some o) i now h e = judged (answer_to (step_id j capitalize w) o)
    where
      l : i < length h.session.outbound
      l = get_elem?-some h.session.outbound i o e

      judged :
          (a : Option (Option StepAnswer))
          → Fewer (length h.session.outbound - i) (absorb_event j capitalize w (some a) i now h)
      judged none = ground (arith, l)
      judged (some a) = omega (
        arith,
        l,
        length-remove_at i h.session.outbound l,
        take_answer-ahead a w now i (without j capitalize i h.session),
      )

  absorb_turn-Fewer :
      (o : Option (Wizard V)) (i : ℕ) (now : ℤ) (h : Hosted V)
      → h.wizard ≡ o
      → Fewer (ahead i h) (absorb_turn j capitalize o i now h)
  unfolding absorb_turn
  absorb_turn-Fewer none i now h e = tt
  absorb_turn-Fewer (some w) i now h e =
      subst
        (λ b.
          Fewer (if b then length h.session.outbound - i else 0)
            (absorb_turn j capitalize (some w) i now h))
        (sym (ap is_some e)) (absorb_event-Fewer w _ i now h refl)

  -- The result of a turn, given the rest of the loop.
  abbrev after : ℕ → ℤ → Hosted V → Option (ℕ × Hosted V) → Option (Hosted V)
  after k now h o = elim o [ none ↦ some h | some (i', h') ↦ absorb_from j capitalize k i' now h' ]

  -- Both numbers of turns bring the loop to its end, with one result.
  abbrev Ends : Option (Hosted V) → Option (Hosted V) → Type 0
  Ends a b = (r : Hosted V) × (a ≡ some r) × (b ≡ some r)

  absorb_from-enough :
      (n k i : ℕ) (now : ℤ) (h : Hosted V)
      → ahead i h < k
      → k ≤ n
      → Ends (absorb_from j capitalize n i now h) (absorb_from j capitalize k i now h)
  unfolding absorb_from
  absorb_from-enough n zero i now h l m = absurd (omega (arith, l))
  absorb_from-enough zero (suc k) i now h l m = absurd (omega (arith, m))
  absorb_from-enough (suc n) (suc k) i now h l m =
      next (absorb_turn j capitalize h.wizard i now h) (absorb_turn-Fewer h.wizard i now h refl)
        (λ i' h' l'. absorb_from-enough n k i' now h' l' (omega (arith, m)))
    where
      next :
          (o : Option (ℕ × Hosted V))
          → Fewer (ahead i h) o
          → ((i' : ℕ) (h' : Hosted V)
              → ahead i' h' < k
              → Ends (absorb_from j capitalize n i' now h') (absorb_from j capitalize k i' now h'))
          → Ends (after n now h o) (after k now h o)
      next none f same = (h, refl, refl)
      next (some (i', h')) f same = same i' h' (omega (arith, l, f))

  -- The loop over the events for the host ends, though an answer may lead to a further step of the
  -- wizard: with one turn more than there were events, or with any larger number of turns, it comes
  -- to its end before they are used up, and always with the same result.
  pub absorb_from-absorb :
      (m : ℕ) (now : ℤ) (h : Hosted V)
      → absorb_from j capitalize (length h.session.outbound + 1 + m) 0 now h
        ≡ some (absorb j capitalize now h)
  unfolding absorb
  absorb_from-absorb m now h =
      let n = length h.session.outbound + 1 in
      let (r, many, few) = absorb_from-enough (n + m) n 0 now h (ground arith) (omega arith) in
      many ∙ sym (ap (λ o. some (unwrap_or h o)) few)
