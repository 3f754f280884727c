-- ===== src/Tests/Sessions.antt =====
-- Concrete runs of a session (crates/inline/src/session.rs): a turn with a running tool and an open
-- permission prompt, behind which a list waits.
use mathlib.Core.Option.{none-ne-some}
use camouflage.Prelude.{List, ◌≡◌, refl, arith, true, false, none, some, [], ◌∷◌, ◌++◌, All}
use camouflage.Prelude.Int.{pos, ◌-ℤ◌}
use camouflage.Text.{to_lower, str_eq}
use camouflage.Key.{enter}
use camouflage.Blocks.{tool, tool_block}
use camouflage.Session
use camouflage.Session.{Session, entry, find_block, push, push_quiet, settle}
use camouflage.Session.Maps.{lookup, insert}
use camouflage.Session.Stream.{open_stream}
use camouflage.Session.Stream.Sound.{Sound, open_stream-Sound}
use camouflage.Session.Stream.Interleaved.{Streams}
use camouflage.Session.Stream.Run.{Step, token, printing, run, said, Told, run-Streams}
use camouflage.Session.Ask.{Prompt, PromptKind, permission, select}
use camouflage.Session.Prompts.{open_prompt, frame_drawn, resolve_prompt, prompt_key}
use camouflage.Session.Still.{Consistent}
use camouflage.Session.Answer.{
  SendsNoGrant, response, resolve_prompt-response, frame_drawn-prompt_key,
}
use camouflage.Session.Queue.{Opens, pending, open_prompt-pending, resolve_prompt-pending}

abbrev ask : PromptKind → Prompt
ask kind = record {
  kind = kind;
  title = [];
  subtitle = none;
  diff = none;
  question = none;
  options = (b'y' ∷ []) ∷ (b'n' ∷ []) ∷ [];
  hints = [];
  sections = [];
  columns = [];
  states = [];
  keywords = [];
  current = none;
  selected = 0;
  filter = [];
  shown_at = none;
}

abbrev request : Prompt
request = ask (permission (b'r' ∷ []))

abbrev choice : Prompt
choice = ask (select (b's' ∷ []) [] true true)

abbrev in_turn : Session
in_turn = record (Session.new [] 80 24) {
  entries = entry 0 (tool (tool_block (b't' ∷ []) [])) false ∷ [];
  tools = (b't' ∷ [], (0, none)) ∷ [];
  prompt = some request;
  queued_prompts = choice ∷ [];
  phase_busy = true;
  busy_since = some (pos 0);
}

in_turn-Consistent : All Consistent in_turn.entries
in_turn-Consistent = (λ h. absurd (ground (arith, h)), tt)

resolve_prompt-response_example :
    (resolve_prompt none (pos 9) in_turn).outbound ≡ [] ++ response (b'r' ∷ []) none
resolve_prompt-response_example =
    resolve_prompt-response request (b'r' ∷ []) none (pos 9) in_turn refl refl in_turn-Consistent

frame_drawn-prompt_key_example :
    SendsNoGrant in_turn
      (prompt_key to_lower (enter false false) (pos 300) (frame_drawn (pos 9) in_turn))
unfolding ◌-ℤ◌
frame_drawn-prompt_key_example =
    frame_drawn-prompt_key to_lower (enter false false) request (pos 9) (pos 300) in_turn refl refl
      refl refl refl in_turn-Consistent

open_prompt-pending_example : pending (open_prompt choice in_turn) ≡ pending in_turn ++ choice ∷ []
open_prompt-pending_example =
    open_prompt-pending choice in_turn (λ h. absurd (ground (arith, h))) refl

-- Two prompts wait behind the open one.
abbrev in_queue : Session
in_queue = record in_turn { queued_prompts = choice ∷ request ∷ [] }

resolve_prompt-pending_example :
    Opens (choice ∷ request ∷ []) (resolve_prompt (some 0) (pos 9) in_queue)
resolve_prompt-pending_example = resolve_prompt-pending request 0 (pos 9) in_queue refl

-- Two replies stream, behind the entry of the turn.
abbrev streaming : Session
streaming = (open_stream (b'y' ∷ []) (open_stream (b'x' ∷ []) in_turn).0).0

in_turn-Sound : Sound in_turn
unfolding lookup
in_turn-Sound = record {
  fresh = (omega arith, tt);
  unique = (tt, tt);
  below = λ sid id e. absurd (none-ne-some id e);
  apart = λ a b id e f. absurd (none-ne-some id e);
}

streaming-Sound : Sound streaming
streaming-Sound =
    open_stream-Sound (b'y' ∷ []) (open_stream (b'x' ∷ []) in_turn).0
      (open_stream-Sound (b'x' ∷ []) in_turn in_turn-Sound)

abbrev steps : List Step
steps =
    token (b'y' ∷ []) (b'b' ∷ []) (pos 1) ∷ printing ∷ token (b'x' ∷ []) (b'c' ∷ []) (pos 2) ∷ []

run-Streams_example :
    Sound (run steps streaming)
    × Streams (b'x' ∷ []) (said (b'x' ∷ []) steps) (run steps streaming)
    × Told steps streaming
unfolding Streams lookup insert find_block str_eq open_stream push push_quiet
run-Streams_example =
    run-Streams (b'x' ∷ []) [] steps streaming streaming-Sound
      (1, [], record { open_at = refl; held = refl; whole = refl })
