-- ===== src/Session/Wizard.antt =====
-- crates/inline/src/session.rs: a wizard, which asks its steps one by one as prompts and forms, and
-- gathers their answers.
use camouflage.Prelude.{
  ℕ, zero, suc, ◌+◌, Bool, true, false, Option, none, some, List, [], ◌++◌, leb, if◌then◌else◌,
  unwrap_or, is_empty, length, get_elem?, take, drop,
}
use camouflage.Prelude.Int.{ℤ}
use camouflage.Text.{Str, utf8, str_eq, to_decimal}
use camouflage.Width.{Unicode}
use camouflage.Json.{Json, get_as}
use camouflage.Key.{Key}
use camouflage.Protocol.{
  EventType, show_wizard, show_select_list, show_confirm, show_form, wizard_completed,
  wizard_cancelled, select_list_response, confirm_response, form_response,
}
use camouflage.Session.{
  Session, Outbound, Payload, StepAnswer, chosen, agreed, filled, value, yes_no, cancelled,
  form_values, wizard_results, wizard_stopped, send,
}
use camouflage.Session.Maps.{insert}
use camouflage.Session.Status.{elements, string_at}
use camouflage.Session.Keys.{handle_key}
use camouflage.Session.Apply

pub record Wizard (V : Type 0) : Type 0 where
  pub id : Str
  pub title : Str
  pub allow_cancel : Bool
  pub steps : List V
  pub at : ℕ
  pub results : List (Str × StepAnswer)

-- A session with its wizard.
pub record Hosted (V : Type 0) : Type 0 where
  pub session : Session
  pub wizard : Option (Wizard V)

-- What an answer to a prompt or a form says: its identifier, and the answer if it was not cancelled.
abbrev pub answer_of : Payload → Option (Str × Option StepAnswer)
answer_of (value id v) = some (id, some (chosen v))
answer_of (yes_no id b) = some (id, some (agreed b))
answer_of (form_values id vs) = some (id, some (filled vs))
answer_of (cancelled id) = some (id, none)
answer_of _ = none

abbrev pub answers_step : EventType → Bool
answers_step select_list_response = true
answers_step confirm_response = true
answers_step form_response = true
answers_step _ = false

abbrev pub starts_wizard : EventType → Bool
starts_wizard show_wizard = true
starts_wizard _ = false

abbrev pub matching : Str → Option (Str × Option StepAnswer) → Option (Option StepAnswer)
matching step none = none
matching step (some (id, a)) = if str_eq id step then some a else none

-- The answer to a step, where an event is one.
unfoldable pub answer_to : Str → Outbound → Option (Option StepAnswer)
answer_to step o = if answers_step o.event_type then matching step (answer_of o.payload) else none

unfoldable pub remove_at {ℓ} : {A : Type ℓ} → ℕ → List A → List A
remove_at i xs = take i xs ++ drop (suc i) xs

module _ {V : Type 0} (j : Json V) (capitalize : Str → Str) where
  abbrev pub progress_title : Wizard V → Str
  progress_title w = if is_empty w.title then [] else w.title ++ utf8 " · "

  unfoldable pub progress : Wizard V → Str
  progress w =
      progress_title w
      ++ utf8 "Step "
      ++ to_decimal (w.at + 1)
      ++ utf8 " of "
      ++ to_decimal (length w.steps)

  abbrev pub in_parens : Str → Str → Str
  in_parens text shown = text ++ utf8 "  (" ++ shown ++ utf8 ")"

  abbrev pub form_title : Str → Str → Str
  form_title title shown = if is_empty title then shown else in_parens title shown

  -- The event that asks a step.
  unfoldable pub step_event : Wizard V → V → EventType × V
  step_event w step =
      let kind = string_at j step (utf8 "kind") in
      let payload = j.set step (utf8 "allow_cancel") (j.boolean w.allow_cancel) in
      let asking =
        j.set payload (utf8 "prompt")
          (j.string (in_parens (string_at j step (utf8 "prompt")) (progress w))) in
      if str_eq kind (utf8 "select")
      then (show_select_list, asking)
      else if str_eq kind (utf8 "confirm")
      then (show_confirm, asking)
      else (
        show_form,
        j.set payload (utf8 "title")
            (j.string (form_title (string_at j step (utf8 "title")) (progress w))),
      )

  unfoldable pub ask_event : EventType × V → ℤ → Session → Session
  ask_event (event_type, payload) now s = Apply.apply j capitalize event_type payload now s

  -- `w.steps[w.at]` is in range: a wizard that is shown has this step.
  unfoldable pub ask_step : Option V → Wizard V → ℤ → Session → Session
  ask_step none w now s = s
  ask_step (some step) w now s = ask_event (step_event w step) now s

  -- `show_wizard_step`
  unfoldable pub show_step : Wizard V → ℤ → Session → Hosted V
  show_step w now s = record {
    session = ask_step (get_elem? w.steps w.at) w now s;
    wizard = some w;
  }

  unfoldable pub wizard_of : V → Wizard V
  wizard_of p = record {
    id = string_at j p (utf8 "id");
    title = string_at j p (utf8 "title");
    allow_cancel = unwrap_or true (get_as j j.as_bool p (utf8 "allow_cancel"));
    steps = elements j p (utf8 "steps");
    at = 0;
    results = [];
  }

  -- `ShowWizard`
  unfoldable pub start_wizard : V → ℤ → Hosted V → Hosted V
  start_wizard p now h =
      let w = wizard_of p in
      if is_empty w.steps
      then record h { session = send wizard_completed (wizard_results w.id []) h.session }
      else show_step w now h.session

  -- `apply`, with the arm of ShowWizard.
  unfoldable pub apply_event : EventType → V → ℤ → Hosted V → Hosted V
  apply_event event_type p now h =
      let applied : Hosted V = record h {
        session = Apply.apply j capitalize event_type p now h.session;
      } in
      if starts_wizard event_type then start_wizard p now h else applied

  abbrev pub step_name : Option V → Str
  step_name none = []
  step_name (some step) = string_at j step (utf8 "id")

  unfoldable pub step_id : Wizard V → Str
  step_id w = step_name (get_elem? w.steps w.at)

  -- An answer to the step that is asked; it is no longer among the events for the host.
  unfoldable pub take_answer : Option StepAnswer → Wizard V → ℤ → Session → Hosted V
  take_answer none w now s = record {
    session = send wizard_cancelled (wizard_stopped w.id w.at) s;
    wizard = none;
  }
  take_answer (some a) w now s =
      let w' : Wizard V = record w {
        results = insert str_eq (step_id w) a w.results;
        at = w.at + 1;
      } in
      let completed : Hosted V = record {
        session = send wizard_completed (wizard_results w.id w'.results) s;
        wizard = none;
      } in
      if leb (length w.steps) (w.at + 1) then completed else show_step w' now s

  abbrev pub answer_at : Wizard V → Option Outbound → Option (Option (Option StepAnswer))
  answer_at w none = none
  answer_at w (some o) = some (answer_to (step_id w) o)

  abbrev pub without : ℕ → Session → Session
  without i s = record s { outbound = remove_at i s.outbound }

  -- One turn of the loop of `absorb_wizard_answers`, at the event `i`: nothing when the loop ends.
  unfoldable pub absorb_event :
      Wizard V → Option (Option (Option StepAnswer)) → ℕ → ℤ → Hosted V → Option (ℕ × Hosted V)
  absorb_event w none i now h = none
  absorb_event w (some none) i now h = some (suc i, h)
  absorb_event w (some (some a)) i now h = some (i, take_answer a w now (without i h.session))

  unfoldable pub absorb_turn : Option (Wizard V) → ℕ → ℤ → Hosted V → Option (ℕ × Hosted V)
  absorb_turn none i now h = none
  absorb_turn (some w) i now h =
      absorb_event w (answer_at w (get_elem? h.session.outbound i)) i now h

  -- No result when the turns are used up before the loop ends.
  unfoldable pub absorb_from : ℕ → ℕ → ℤ → Hosted V → Option (Hosted V)
  absorb_from zero i now h = none
  absorb_from (suc k) i now h = elim (absorb_turn h.wizard i now h) [
    | none ↦ some h
    | some (i', h') ↦ absorb_from k i' now h'
  ]

  unfoldable pub absorb : ℤ → Hosted V → Hosted V
  absorb now h = unwrap_or h (absorb_from (length h.session.outbound + 1) 0 now h)

  -- `key`
  unfoldable pub press : Unicode → (Str → Str) → Key → ℤ → Hosted V → Hosted V
  press u lowercase k now h =
      absorb now (record h { session = handle_key u lowercase k now h.session })
