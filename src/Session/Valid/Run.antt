-- ===== src/Session/Valid/Run.antt =====
-- crates/inline/src/session.rs: a session from its start on, under the events of the host, the keys of
-- the user and what the terminal loop takes from it.
use camouflage.Prelude.{
  false, ℕ, zero, suc, ◌+◌, ◌<◌, refl, Bool, Option, none, some, List, [], ◌∷◌, Bool-cases,
  is_empty, length, leb, get_elem?, arith, inl, inr, unwrap_or,
}
use camouflage.Prelude.Int.{ℤ}
use camouflage.Text.{Str}
use camouflage.Width.{Unicode}
use camouflage.Json.{Json}
use camouflage.Key.{Key}
use camouflage.Protocol.{EventType}
use camouflage.Blocks.{Block}
use camouflage.Compact.Bounds.{new-IsValid}
use camouflage.Session.{new, Session, StepAnswer, send, settle, Payload}
use camouflage.Session.Prompts.{frame_drawn}
use camouflage.Session.Printed.{
  take_history, take_outbound, resize, set_history, set_project_context, finish_transcript,
  push_outbound,
}
use camouflage.Session.Wizard.{
  Wizard, Hosted, starts_wizard, ask_event, ask_step, show_step, start_wizard, wizard_of,
  apply_event, take_answer, without, absorb_from, absorb_event, absorb_turn, absorb, press,
  step_event,
}
use camouflage.Session.Status.{flash}
use camouflage.Session.Settle.{Rest, settle-Rest}
use camouflage.Session.Valid.{Valid}
use camouflage.Session.Valid.Printing.{take_history-Kept, finish_transcript-Kept}
use camouflage.Session.Valid.Events.{apply-Valid}
use camouflage.Session.Valid.Routed.{handle_key-Valid, frame_drawn-Valid}

-- What the terminal loop does with a session: the public methods, and the fields that it sets
-- (crates/tui/src/inline_app.rs).
pub data Input (V : Type 0) : Type 0 where
  event : EventType → V → Input V
  pressed : Key → Input V
  drawn printed finished taken shown wiped : Input V
  focus : Bool → Input V
  flashed : Str → Input V
  queued : EventType → Payload → Input V
  resized : ℕ → ℕ → Input V
  recalled : List Str → Input V
  placed : Str → Str → Input V

abbrev pub start : {V : Type 0} → Str → ℕ → ℕ → Hosted V
start app_name width height = record { session = new app_name width height; wizard = none }

-- The wizard has the step that it asks.
abbrev pub HasStep : {V : Type 0} → Option (Wizard V) → Type 0
HasStep none = Unit
HasStep (some w) = w.at < length w.steps

-- A valid session whose wizard has the step that it asks.
pub record Sound {V : Type 0} (h : Hosted V) : Type 0 where
  pub session : Valid h.session
  pub step : HasStep h.wizard

module _ {V : Type 0} (j : Json V) (capitalize : Str → Str) where
  ask_event-Valid :
      (e : EventType × V) (now : ℤ) (s : Session) → Valid s → Valid (ask_event j capitalize e now s)
  unfolding ask_event
  ask_event-Valid (t, p) now s v = apply-Valid j capitalize t p now s v

  ask_step-Valid :
      (o : Option V) (w : Wizard V) (now : ℤ) (s : Session)
      → Valid s
      → Valid (ask_step j capitalize o w now s)
  unfolding ask_step
  ask_step-Valid none w now s v = v
  ask_step-Valid (some x) w now s v = ask_event-Valid (step_event j capitalize w x) now s v

  show_step-Sound :
      (w : Wizard V) (now : ℤ) (s : Session)
      → w.at < length w.steps
      → Valid s
      → Sound (show_step j capitalize w now s)
  unfolding show_step
  show_step-Sound w now s l v = record {
    session = ask_step-Valid (get_elem? w.steps w.at) w now s v;
    step = l;
  }

  start_wizard-Sound :
      (p : V) (now : ℤ) (h : Hosted V) → Sound h → Sound (start_wizard j capitalize p now h)
  unfolding start_wizard wizard_of send
  start_wizard-Sound p now h s = elim (Bool-cases (is_empty (wizard_of j capitalize p).steps)) [
    | inl c ↦ rw c (record { session = s.session; step = s.step })
    | inr c ↦
        rw c
          (show_step-Sound (wizard_of j capitalize p) now h.session (ground (arith, c)) s.session)
  ]

  apply_event-Sound :
      (e : EventType) (p : V) (now : ℤ) (h : Hosted V)
      → Sound h
      → Sound (apply_event j capitalize e p now h)
  unfolding apply_event
  apply_event-Sound e p now h s = elim (Bool-cases (starts_wizard e)) [
    | inl c ↦ rw c (start_wizard-Sound p now h s)
    | inr c ↦
        rw c
          (record { session = apply-Valid j capitalize e p now h.session s.session; step = s.step })
  ]

  take_answer-Sound :
      (a : Option StepAnswer) (w : Wizard V) (now : ℤ) (s : Session)
      → Valid s
      → Sound (take_answer j capitalize a w now s)
  unfolding take_answer send
  take_answer-Sound none w now s v = record { session = v; step = tt }
  take_answer-Sound (some a) w now s v = elim (Bool-cases (leb (length w.steps) (w.at + 1))) [
    | inl c ↦ rw c (record { session = v; step = tt })
    | inr c ↦ rw c (show_step-Sound _ now s (ground (arith, c)) v)
  ]

  -- What a turn of the loop leaves.
  abbrev Leaves : Option (ℕ × Hosted V) → Type 0
  Leaves none = Unit
  Leaves (some (i, h)) = Sound h

  absorb_event-Leaves :
      (w : Wizard V) (o : Option (Option (Option StepAnswer))) (i : ℕ) (now : ℤ) (h : Hosted V)
      → Sound h
      → Leaves (absorb_event j capitalize w o i now h)
  unfolding absorb_event
  absorb_event-Leaves w none i now h s = tt
  absorb_event-Leaves w (some none) i now h s = s
  absorb_event-Leaves w (some (some a)) i now h s =
      take_answer-Sound a w now (without j capitalize i h.session) s.session

  absorb_turn-Leaves :
      (o : Option (Wizard V)) (i : ℕ) (now : ℤ) (h : Hosted V)
      → Sound h
      → Leaves (absorb_turn j capitalize o i now h)
  unfolding absorb_turn
  absorb_turn-Leaves none i now h s = tt
  absorb_turn-Leaves (some w) i now h s = absorb_event-Leaves w _ i now h s

  -- The result of the loop, when there is one, is sound.
  abbrev SoundResult : Option (Hosted V) → Type 0
  SoundResult none = Unit
  SoundResult (some h) = Sound h

  absorb_from-Sound :
      (k i : ℕ) (now : ℤ) (h : Hosted V)
      → Sound h
      → SoundResult (absorb_from j capitalize k i now h)
  unfolding absorb_from
  absorb_from-Sound zero i now h s = tt
  absorb_from-Sound (suc k) i now h s =
      at (absorb_turn j capitalize h.wizard i now h) (absorb_turn-Leaves h.wizard i now h s)
        (λ i' h'. absorb_from-Sound k i' now h')
    where
      at :
          (o : Option (ℕ × Hosted V))
          → Leaves o
          → ((i' : ℕ) (h' : Hosted V)
              → Sound h'
              → SoundResult (absorb_from j capitalize k i' now h'))
          → SoundResult (elim o as (λ _. Option (Hosted V)) [
            | none ↦ some h
            | some (i', h') ↦ absorb_from j capitalize k i' now h'
          ])
      at none l next = s
      at (some (i', h')) l next = next i' h' l

  unwrap_or-Sound :
      (h : Hosted V) (o : Option (Hosted V)) → Sound h → SoundResult o → Sound (unwrap_or h o)
  unwrap_or-Sound h none s r = s
  unwrap_or-Sound h (some x) s r = r

  absorb-Sound : (now : ℤ) (h : Hosted V) → Sound h → Sound (absorb j capitalize now h)
  unfolding absorb
  absorb-Sound now h s = unwrap_or-Sound h _ s (absorb_from-Sound _ 0 now h s)

  -- A turn of the terminal loop.
  module _ (u : Unicode) (lowercase : Str → Str) {L : Type 0} (blank : L)
      (draw : Block → List L) where
    abbrev on_session : (Session → Session) → Hosted V → Hosted V
    on_session f h = record h { session = f h.session }

    unfoldable pub turn : Input V → ℤ → Hosted V → Hosted V
    turn (event e p) now h = apply_event j capitalize e p now h
    turn (pressed k) now h = press j capitalize u lowercase k now h
    turn drawn now h = on_session (frame_drawn now) h
    turn printed now h = on_session (λ s. (take_history blank draw s).1) h
    turn finished now h = on_session (λ s. (finish_transcript blank draw s).1) h
    turn shown now h = on_session (λ s. record s { transcript_requested = false }) h
    turn wiped now h = on_session (λ s. record s { clear_screen = false }) h
    turn (focus f) now h = on_session (λ s. record s { focused = f }) h
    turn (flashed text) now h = on_session (flash text now) h
    turn (queued e p) now h = on_session (push_outbound e p) h
    turn taken now h = on_session (λ s. (take_outbound s).1) h
    turn (resized w n) now h = on_session (resize w n) h
    turn (recalled lines) now h = on_session (set_history lines) h
    turn (placed repo branch) now h = on_session (set_project_context repo branch) h

    unfoldable pub run : List (Input V × ℤ) → Hosted V → Hosted V
    run [] h = h
    run ((i, now) ∷ is) h = run is (turn i now h)

    turn-Sound : (i : Input V) (now : ℤ) (h : Hosted V) → Sound h → Sound (turn i now h)
    unfolding turn press take_outbound resize set_history set_project_context push_outbound flash
        send
    turn-Sound (event e p) now h s = apply_event-Sound e p now h s
    turn-Sound (pressed k) now h s =
        absorb-Sound now _ (record {
          session = handle_key-Valid u lowercase k now h.session s.session;
          step = s.step;
        })
    turn-Sound drawn now h s = record {
      session = frame_drawn-Valid now h.session s.session;
      step = s.step;
    }
    turn-Sound printed now h s = record {
      session = take_history-Kept blank draw h.session s.session;
      step = s.step;
    }
    turn-Sound finished now h s = record {
      session = finish_transcript-Kept blank draw h.session s.session;
      step = s.step;
    }
    turn-Sound shown now h s = record { session = s.session; step = s.step }
    turn-Sound wiped now h s = record { session = s.session; step = s.step }
    turn-Sound (focus f) now h s = record { session = s.session; step = s.step }
    turn-Sound (flashed text) now h s = record { session = s.session; step = s.step }
    turn-Sound (queued e p) now h s = record { session = s.session; step = s.step }
    turn-Sound taken now h s = record { session = s.session; step = s.step }
    turn-Sound (resized w n) now h s = record { session = s.session; step = s.step }
    turn-Sound (recalled lines) now h s = record { session = s.session; step = s.step }
    turn-Sound (placed repo branch) now h s = record { session = s.session; step = s.step }

    run-keeps : (is : List (Input V × ℤ)) (h : Hosted V) → Sound h → Sound (run is h)
    unfolding run
    run-keeps [] h s = s
    run-keeps ((i, now) ∷ is) h s = run-keeps is (turn i now h) (turn-Sound i now h s)

    start-Sound : (app_name : Str) (width height : ℕ) → Sound {V = V} (start app_name width height)
    start-Sound app_name width height = record {
      session = record {
        fresh = tt;
        consistent = tt;
        streams_open = tt;
        reasons_open = tt;
        waiting = refl;
        few_echoes = ground arith;
        live = new-IsValid;
      };
      step = tt;
    }

    -- Whatever the host, the user and the terminal do, in any order, a session is valid, and its wizard
    -- has the step that it asks.
    pub run-Sound :
        (app_name : Str) (width height : ℕ) (is : List (Input V × ℤ))
        → Sound (run is (start app_name width height))
    run-Sound app_name width height is = run-keeps is _ (start-Sound app_name width height)

    -- Whatever came before, when a turn is settled nothing is in motion.
    pub run-Rest :
        (app_name : Str) (width height : ℕ) (is : List (Input V × ℤ)) (now : ℤ) (by_user : Bool)
        → Rest
            (run is (start app_name width height)).session
            (settle now by_user (run is (start app_name width height)).session)
    run-Rest app_name width height is now by_user =
        settle-Rest now by_user _ (run-Sound app_name width height is).session.consistent
