-- ===== src/Tests/Runs.antt =====
-- Concrete runs of a whole session (crates/inline/src/session.rs): events of the host, keys, and what
-- the terminal takes.
use camouflage.Prelude.{arith, ◌+◌, ◌≡◌, refl, true, false, some, List, [], ◌∷◌}
use camouflage.Prelude.Int.{ℤ, pos, ◌-ℤ◌}
use camouflage.Text.{Str, to_lower}
use camouflage.Key.{esc, enter, ctrl}
use camouflage.Protocol
use camouflage.Protocol.{
  tool_execution_started, assistant_token_delta, cancel_requested, select_list_response,
}
use camouflage.Blocks.{Block, assistant}
use camouflage.Session.{new, Session, value, entry, settle}
use camouflage.Session.Printed.{finish_transcript, next_wakeup}
use camouflage.Session.Wakeup.{Later, next_wakeup-Later}
use camouflage.Session.Wizard.{Hosted, absorb, absorb_from}
use camouflage.Session.Absorb.{absorb_from-absorb}
use camouflage.Session.Settle.{Rest}
use camouflage.Session.Valid.Transcript.{laid_out, shown_blocks, finish_transcript-laid_out}
use camouflage.Session.Valid.Run.{
  Input, event, pressed, drawn, printed, start, Sound, run, run-Sound, run-Rest,
}
use camouflage.Session.Ask.{armed}
use camouflage.Session.Answer.{SendsNoGrant}
use camouflage.Session.Apply.{apply}
use camouflage.Session.Requests.{permission_requested, permission_prompt}
use camouflage.Session.Prompts.{open_prompt, open_beside}
use camouflage.Session.Wizard.{apply_event}
use camouflage.Session.Keys.{handle_key}
use camouflage.Session.Quit.{handle_key-exit}
use camouflage.Session.Valid.Run.{turn}
use camouflage.Session.Valid.Unarmed.{run-unarmed}
use camouflage.Tests.{ascii}
use camouflage.Tests.Activities.{Doc, words, about, docs}

abbrev as_is : Str → Str
as_is t = t

-- A tool starts and text streams, a permission is asked for, drawn, and dismissed.
abbrev inputs : List (Input Doc × ℤ)
inputs =
    (event tool_execution_started (words []), pos 1)
    ∷ (event assistant_token_delta (about [] [] []), pos 2)
    ∷ (event Protocol.permission_requested (words []), pos 3)
    ∷ (drawn, pos 4)
    ∷ (pressed esc, pos 5)
    ∷ (printed, pos 6)
    ∷ (event cancel_requested (words []), pos 7)
    ∷ (pressed (enter false false), pos 8)
    ∷ []

abbrev draw : Block → List Str
draw b = [] ∷ []

abbrev ran : Hosted Doc
ran = run docs as_is ascii to_lower [] draw inputs (start [] 80 24)

run-Sound_example : Sound ran
run-Sound_example = run-Sound docs as_is ascii to_lower [] draw [] 80 24 inputs

run-Rest_example : Rest ran.session (settle (pos 9) true ran.session)
run-Rest_example = run-Rest docs as_is ascii to_lower [] draw [] 80 24 inputs (pos 9) true

-- A reply streams, and nothing is asked.
abbrev streaming : Session
streaming = record (new [] 80 24) {
  entries = entry 0 (assistant (b'h' ∷ [])) false ∷ [];
  busy_since = some (pos 100);
}

finish_transcript-laid_out_example :
    ((finish_transcript [] draw streaming).0
      ≡ laid_out [] draw streaming.last_printed
          (shown_blocks streaming.show_reasoning streaming.entries))
    × ((finish_transcript [] draw streaming).1.entries ≡ [])
finish_transcript-laid_out_example = finish_transcript-laid_out [] draw streaming

next_wakeup-Later_example : Later (pos 150) (next_wakeup streaming (pos 150))
next_wakeup-Later_example = next_wakeup-Later streaming (pos 150)

-- A wizard of one step, whose answer waits among the events for the host.
abbrev answered : Hosted Doc
answered = record {
  session = record (new [] 80 24) {
    outbound =
        record { event_type = select_list_response; payload = value (b's' ∷ []) (b'a' ∷ []) } ∷ [];
  };
  wizard = some (record {
    id = b'w' ∷ [];
    title = [];
    allow_cancel = true;
    steps = about (b's' ∷ []) [] [] ∷ [];
    at = 0;
    results = [];
  });
}

absorb_from-absorb_example :
    absorb_from docs as_is (1 + 1 + 5) 0 (pos 1) answered
    ≡ some (absorb docs as_is (pos 1) answered)
absorb_from-absorb_example = absorb_from-absorb docs as_is 5 (pos 1) answered

-- A host asks for a permission, and nothing is drawn yet.
abbrev asked : Hosted Doc
asked =
    run docs as_is ascii to_lower [] draw
      ((event Protocol.permission_requested (words []), pos 3) ∷ []) (start [] 80 24)

run-unarmed_example :
    SendsNoGrant asked.session (handle_key ascii to_lower (enter false false) (pos 5) asked.session)
unfolding run turn apply_event apply permission_requested open_prompt open_beside armed
    permission_prompt
run-unarmed_example =
    run-unarmed ascii to_lower docs as_is [] draw [] 80 24
      ((event Protocol.permission_requested (words []), pos 3) ∷ []) (enter false false)
      (permission_prompt docs as_is [] (words [])) (pos 5) refl refl

-- Two presses at an empty editor.
handle_key-exit_example :
    (handle_key ascii to_lower
      (ctrl b'c')
      (pos 900)
      (handle_key ascii to_lower (ctrl b'c') (pos 200) streaming)).exit
    ≡ true
unfolding ◌-ℤ◌
handle_key-exit_example =
    handle_key-exit ascii to_lower (pos 200) (pos 900) streaming
      (record { form = refl; prompt = refl; browser = refl }) refl
      ((λ d. absurd (ground (arith, d))), tt) refl refl
