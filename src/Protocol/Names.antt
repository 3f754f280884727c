-- ===== src/Protocol/Names.antt =====
-- The names on the wire determine the event types, and the other way round.
use Prim.Native.String.{String}
use text.Mathlib.Text.{◌==◌}
use text.Mathlib.TextEquality.{eq_iff}
use camouflage.Prelude.{◌≡◌, ◌↔◌, refl, subst, Option, none, some, arith, if◌then◌else◌}
use camouflage.Protocol.{
  EventType, session_started, session_ended, session_status, user_message_created,
  assistant_stream_started, assistant_token_delta, assistant_message_completed,
  tool_execution_started, tool_execution_stdout, tool_execution_stderr, tool_execution_finished,
  patch_proposed, patch_applied, permission_requested, permission_granted, permission_denied,
  runtime_error, session_compacted, viewport_marker, status_update, background_task_update,
  todo_list_update, user_input_submitted, permission_response, slash_commands_registered,
  mention_candidates_registered, show_select_list, select_list_response, show_confirm,
  confirm_response, show_table, show_key_value_view, show_form, form_response, show_wizard,
  wizard_completed, wizard_cancelled, mode_change_requested, cancel_requested, transcript_cleared,
  splash, show_toast, mention_query, assistant_reasoning_delta, terminal_suspend, terminal_resume,
  terminal_suspended, activity_update, activity_log, activity_removed, activity_snapshot,
  activity_browser_open, activity_stop_requested, activity_view_changed, as_str, from_str,
}

-- Every event type is read back from its name.
from_str-as_str : (t : EventType) → from_str (as_str t) ≡ some t
unfolding as_str from_str
from_str-as_str EventType.session_started = refl
from_str-as_str EventType.session_ended = refl
from_str-as_str EventType.session_status = refl
from_str-as_str EventType.user_message_created = refl
from_str-as_str EventType.assistant_stream_started = refl
from_str-as_str EventType.assistant_token_delta = refl
from_str-as_str EventType.assistant_message_completed = refl
from_str-as_str EventType.tool_execution_started = refl
from_str-as_str EventType.tool_execution_stdout = refl
from_str-as_str EventType.tool_execution_stderr = refl
from_str-as_str EventType.tool_execution_finished = refl
from_str-as_str EventType.patch_proposed = refl
from_str-as_str EventType.patch_applied = refl
from_str-as_str EventType.permission_requested = refl
from_str-as_str EventType.permission_granted = refl
from_str-as_str EventType.permission_denied = refl
from_str-as_str EventType.runtime_error = refl
from_str-as_str EventType.session_compacted = refl
from_str-as_str EventType.viewport_marker = refl
from_str-as_str EventType.status_update = refl
from_str-as_str EventType.background_task_update = refl
from_str-as_str EventType.todo_list_update = refl
from_str-as_str EventType.user_input_submitted = refl
from_str-as_str EventType.permission_response = refl
from_str-as_str EventType.slash_commands_registered = refl
from_str-as_str EventType.mention_candidates_registered = refl
from_str-as_str EventType.show_select_list = refl
from_str-as_str EventType.select_list_response = refl
from_str-as_str EventType.show_confirm = refl
from_str-as_str EventType.confirm_response = refl
from_str-as_str EventType.show_table = refl
from_str-as_str EventType.show_key_value_view = refl
from_str-as_str EventType.show_form = refl
from_str-as_str EventType.form_response = refl
from_str-as_str EventType.show_wizard = refl
from_str-as_str EventType.wizard_completed = refl
from_str-as_str EventType.wizard_cancelled = refl
from_str-as_str EventType.mode_change_requested = refl
from_str-as_str EventType.cancel_requested = refl
from_str-as_str EventType.transcript_cleared = refl
from_str-as_str EventType.splash = refl
from_str-as_str EventType.show_toast = refl
from_str-as_str EventType.mention_query = refl
from_str-as_str EventType.assistant_reasoning_delta = refl
from_str-as_str EventType.terminal_suspend = refl
from_str-as_str EventType.terminal_resume = refl
from_str-as_str EventType.terminal_suspended = refl
from_str-as_str EventType.activity_update = refl
from_str-as_str EventType.activity_log = refl
from_str-as_str EventType.activity_removed = refl
from_str-as_str EventType.activity_snapshot = refl
from_str-as_str EventType.activity_browser_open = refl
from_str-as_str EventType.activity_stop_requested = refl
from_str-as_str EventType.activity_view_changed = refl

-- What a prefix of the `match` returns is an event type of that name.
abbrev NamesOf : String → Option EventType → Type 0
NamesOf s o = (u : EventType) → o ≡ some u → as_str u ≡ s

NamesOf-arm :
    (s : String) (t : EventType) {r : Option EventType}
    → NamesOf s r
    → NamesOf s (if s == as_str t then some t else r)
NamesOf-arm s t rest u h = ground (arith, eq_iff s (as_str t), rest u)

NamesOf-none : (s : String) → NamesOf s none
NamesOf-none s u h = cc

-- A name that is read is the name of the event type that comes back.
as_str-from_str : (s : String) (t : EventType) → from_str s ≡ some t → as_str t ≡ s
unfolding as_str from_str
as_str-from_str s = NamesOf-arm s session_started (
    NamesOf-arm s session_ended (
      NamesOf-arm s session_status (
        NamesOf-arm s user_message_created (
          NamesOf-arm s assistant_stream_started (
            NamesOf-arm s assistant_token_delta (
              NamesOf-arm s assistant_message_completed (
                NamesOf-arm s tool_execution_started (
                  NamesOf-arm s tool_execution_stdout (
                    NamesOf-arm s tool_execution_stderr (
                      NamesOf-arm s tool_execution_finished (
                        NamesOf-arm s patch_proposed (
                          NamesOf-arm s patch_applied (
                            NamesOf-arm s permission_requested (
                              NamesOf-arm s permission_granted (
                                NamesOf-arm s permission_denied (
                                  NamesOf-arm s runtime_error (
                                    NamesOf-arm s session_compacted (
                                      NamesOf-arm s viewport_marker (
                                        NamesOf-arm s status_update (
                                          NamesOf-arm s background_task_update (
                                            NamesOf-arm s todo_list_update (
                                              NamesOf-arm s user_input_submitted (
                                                NamesOf-arm s permission_response (
                                                  NamesOf-arm s slash_commands_registered (
                                                    NamesOf-arm s mention_candidates_registered (
                                                      NamesOf-arm s show_select_list (
                                                        NamesOf-arm s select_list_response (
                                                          NamesOf-arm s show_confirm (
                                                            NamesOf-arm s confirm_response (
                                                            NamesOf-arm s show_table (
                                                            NamesOf-arm s show_key_value_view (
                                                            NamesOf-arm s show_form (
                                                            NamesOf-arm s form_response (
                                                            NamesOf-arm s show_wizard (
                                                            NamesOf-arm s wizard_completed (
                                                            NamesOf-arm s wizard_cancelled (
                                                            NamesOf-arm s mode_change_requested (
                                                            NamesOf-arm s cancel_requested (
                                                            NamesOf-arm s transcript_cleared (
                                                            NamesOf-arm s splash (
                                                            NamesOf-arm s show_toast (
                                                            NamesOf-arm s mention_query (
                                                            NamesOf-arm s assistant_reasoning_delta
                                                            (NamesOf-arm s terminal_suspend (
                                                            NamesOf-arm s terminal_resume (
                                                            NamesOf-arm s terminal_suspended (
                                                            NamesOf-arm s activity_update (
                                                            NamesOf-arm s activity_log (
                                                            NamesOf-arm s activity_removed (
                                                            NamesOf-arm s activity_snapshot (
                                                            NamesOf-arm s activity_browser_open (
                                                            NamesOf-arm s activity_stop_requested (
                                                            NamesOf-arm s activity_view_changed
                                                            (NamesOf-none s)))))))))))))))))))))))))
                                                            )))))))))))))))))))))))))))))

-- A name is read as an event type exactly when it is the name of that type.
pub from_str_iff : (s : String) (t : EventType) → (from_str s ≡ some t) ↔ (as_str t ≡ s)
from_str_iff s t =
    (as_str-from_str s t, λ e. subst (λ (r : String). from_str r ≡ some t) e (from_str-as_str t))
