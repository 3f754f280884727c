-- ===== src/Session/Apply.antt =====
-- crates/inline/src/session.rs: `apply`, which hands an event of the host to its arm. The arm of
-- ShowWizard is in Wizard.
use camouflage.Prelude.{ℕ, Option, none, some, List, [], ◌∷◌, ◌++◌, unwrap_or}
use camouflage.Prelude.Int.{ℤ}
use Prim.Native.String.{String}
use camouflage.Text.{Str, utf8}
use camouflage.Json.{Json, get_as, get_str}
use camouflage.Protocol.{
  EventType, assistant_stream_started, assistant_token_delta, assistant_message_completed,
  assistant_reasoning_delta, user_message_created, tool_execution_started, tool_execution_stdout,
  tool_execution_stderr, tool_execution_finished, cancel_requested, activity_browser_open,
  show_key_value_view, slash_commands_registered, mention_candidates_registered,
}
use camouflage.Blocks.{DiffLine, assistant}
use camouflage.Diff.{parse_unified}
use camouflage.Session.{Session, push_done}
use camouflage.Session.Stream.{
  user_message, stream_started, token_delta, reasoning_delta, message_completed,
}
use camouflage.Session.Notices.{tool_output, cancel_received}
use camouflage.Session.Notices
use camouflage.Session.Requests
use camouflage.Session.Requests.{parse_diff_payload}
use camouflage.Session.Tools.{Finish, start_tool, end_tool}
use camouflage.Session.Tools
use camouflage.Session.Status.{title_markdown, escape_cell, open_browser, elements, string_at}
use camouflage.Session.Status
use camouflage.Session.Keys.{commands_registered, mentions_registered}

module _ {V : Type 0} (j : Json V) where
  abbrev pub says : V → String → Str
  says p k = string_at j p (utf8 k)

  abbrev pub said : V → String → Option Str
  said p k = get_str j p (utf8 k)

  -- `ToolExecutionStarted`
  unfoldable pub tool_started : V → ℤ → Session → Session
  tool_started p now s =
      start_tool (says p "tool_id") (says p "tool") (says p "command")
        (get_as j j.as_i64 p (utf8 "started_at_ms")) (get_as j j.as_bool p (utf8 "read_only")) now s

  unfoldable pub finish_of : V → Finish
  finish_of p = record {
    exit = get_as j j.as_i64 p (utf8 "exit_code");
    status = said p "status";
    summary = said p "summary";
    output = said p "output";
    preview = get_as j j.as_u64 p (utf8 "preview");
    output_lang = said p "output_lang";
    diff = get_as j (λ d. some (parse_diff_payload j d)) p (utf8 "diff");
  }

  -- `ToolExecutionFinished`
  unfoldable pub tool_finished : V → ℤ → Session → Session
  tool_finished p now s = end_tool (says p "tool_id") (finish_of p) now s

  abbrev pub unified_lines : Option Str → List DiffLine
  unified_lines none = []
  unified_lines (some u) = parse_unified u

  abbrev pub count_at : V → String → ℕ
  count_at p k = unwrap_or 0 (get_as j j.as_u64 p (utf8 k))

  -- `PatchProposed`
  unfoldable pub proposed : V → ℤ → Session → Session
  proposed p now s =
      Tools.patch_proposed (says p "path") (unified_lines (said p "diff"))
        (count_at p "added", count_at p "removed") now s

  unfoldable pub items_markdown : List V → Str
  items_markdown [] = []
  items_markdown (i ∷ is) =
      utf8 "- **"
      ++ escape_cell (says i "label")
      ++ utf8 "** "
      ++ escape_cell (says i "value")
      ++ utf8 "\n"
      ++ items_markdown is

  unfoldable pub kv_markdown : V → Str
  kv_markdown p = title_markdown (said p "title") ++ items_markdown (elements j p (utf8 "items"))

  -- `str::to_uppercase` of a first letter, by the Unicode tables, is a parameter of the prompts.
  unfoldable pub apply : (Str → Str) → EventType → V → ℤ → Session → Session
  apply capitalize EventType.session_started p now s = Notices.session_started j p s
  apply capitalize EventType.splash p now s = Notices.splash (says p "text") s
  apply capitalize user_message_created p now s = user_message (says p "text") s
  apply capitalize assistant_stream_started p now s = stream_started (says p "stream_id") now s
  apply capitalize assistant_reasoning_delta p now s =
      reasoning_delta (says p "stream_id") (says p "token") now s
  apply capitalize assistant_token_delta p now s =
      token_delta (says p "stream_id") (says p "token") now s
  apply capitalize assistant_message_completed p now s =
      message_completed (says p "stream_id") (said p "text") s
  apply capitalize tool_execution_started p now s = tool_started p now s
  apply capitalize tool_execution_stdout p now s = tool_output (says p "tool_id") (says p "chunk") s
  apply capitalize tool_execution_stderr p now s = tool_output (says p "tool_id") (says p "chunk") s
  apply capitalize tool_execution_finished p now s = tool_finished p now s
  apply capitalize EventType.patch_proposed p now s = proposed p now s
  apply capitalize EventType.permission_requested p now s =
      Requests.permission_requested j capitalize p s
  apply capitalize EventType.show_select_list p now s = Requests.show_select_list j p s
  apply capitalize EventType.show_confirm p now s = Requests.show_confirm j p s
  apply capitalize EventType.show_table p now s = Status.show_table j p s
  apply capitalize show_key_value_view p now s = push_done (assistant (kv_markdown p)) s
  apply capitalize EventType.show_form p now s = Requests.show_form j p s
  apply capitalize EventType.runtime_error p now s = Notices.runtime_error j p s
  apply capitalize EventType.session_compacted p now s = Notices.session_compacted s
  apply capitalize EventType.show_toast p now s =
      Status.show_toast (said p "kind") (get_as j j.as_i64 p (utf8 "ttl_ms")) (says p "text") now s
  apply capitalize EventType.status_update p now s = Status.status_update j p now s
  apply capitalize EventType.todo_list_update p now s = Notices.todo_list_update j p s
  apply capitalize EventType.background_task_update p now s = Notices.background_task_update j p s
  apply capitalize slash_commands_registered p now s = commands_registered j p s
  apply capitalize mention_candidates_registered p now s = mentions_registered j p s
  apply capitalize EventType.activity_update p now s = Status.activity_update j p now s
  apply capitalize EventType.activity_snapshot p now s = Status.activity_snapshot j p s
  apply capitalize EventType.activity_log p now s = Status.activity_log j p s
  apply capitalize EventType.activity_removed p now s = Status.activity_removed (says p "id") s
  apply capitalize activity_browser_open p now s = open_browser s
  apply capitalize EventType.transcript_cleared p now s = Notices.transcript_cleared s
  apply capitalize cancel_requested p now s = cancel_received now s
  apply capitalize event_type p now s = s
