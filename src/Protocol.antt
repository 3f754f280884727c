-- ===== src/Protocol.antt =====
-- crates/protocol/src/lib.rs: the event types and their names on the wire.
pub mod Names
use Prim.Native.String.{String}
use text.Mathlib.Text.{◌==◌}
use camouflage.Prelude.{Option, none, some, if◌then◌else◌}

pub data EventType : Type 0 where
  session_started session_ended session_status user_message_created : EventType
  assistant_stream_started assistant_token_delta assistant_message_completed : EventType
  tool_execution_started tool_execution_stdout tool_execution_stderr : EventType
  tool_execution_finished patch_proposed patch_applied permission_requested : EventType
  permission_granted permission_denied runtime_error session_compacted : EventType
  viewport_marker status_update background_task_update todo_list_update : EventType
  user_input_submitted permission_response slash_commands_registered : EventType
  mention_candidates_registered show_select_list select_list_response show_confirm : EventType
  confirm_response show_table show_key_value_view show_form form_response : EventType
  show_wizard wizard_completed wizard_cancelled mode_change_requested : EventType
  cancel_requested transcript_cleared splash show_toast mention_query : EventType
  assistant_reasoning_delta terminal_suspend terminal_resume terminal_suspended : EventType
  activity_update activity_log activity_removed activity_snapshot : EventType
  activity_browser_open activity_stop_requested activity_view_changed : EventType

unfoldable pub as_str : EventType → String
as_str session_started = "SessionStarted"
as_str session_ended = "SessionEnded"
as_str session_status = "SessionStatus"
as_str user_message_created = "UserMessageCreated"
as_str assistant_stream_started = "AssistantStreamStarted"
as_str assistant_token_delta = "AssistantTokenDelta"
as_str assistant_message_completed = "AssistantMessageCompleted"
as_str tool_execution_started = "ToolExecutionStarted"
as_str tool_execution_stdout = "ToolExecutionStdout"
as_str tool_execution_stderr = "ToolExecutionStderr"
as_str tool_execution_finished = "ToolExecutionFinished"
as_str patch_proposed = "PatchProposed"
as_str patch_applied = "PatchApplied"
as_str permission_requested = "PermissionRequested"
as_str permission_granted = "PermissionGranted"
as_str permission_denied = "PermissionDenied"
as_str runtime_error = "RuntimeError"
as_str session_compacted = "SessionCompacted"
as_str viewport_marker = "ViewportMarker"
as_str status_update = "StatusUpdate"
as_str background_task_update = "BackgroundTaskUpdate"
as_str todo_list_update = "TodoListUpdate"
as_str user_input_submitted = "UserInputSubmitted"
as_str permission_response = "PermissionResponse"
as_str slash_commands_registered = "SlashCommandsRegistered"
as_str mention_candidates_registered = "MentionCandidatesRegistered"
as_str show_select_list = "ShowSelectList"
as_str select_list_response = "SelectListResponse"
as_str show_confirm = "ShowConfirm"
as_str confirm_response = "ConfirmResponse"
as_str show_table = "ShowTable"
as_str show_key_value_view = "ShowKeyValueView"
as_str show_form = "ShowForm"
as_str form_response = "FormResponse"
as_str show_wizard = "ShowWizard"
as_str wizard_completed = "WizardCompleted"
as_str wizard_cancelled = "WizardCancelled"
as_str mode_change_requested = "ModeChangeRequested"
as_str cancel_requested = "CancelRequested"
as_str transcript_cleared = "TranscriptCleared"
as_str splash = "Splash"
as_str show_toast = "ShowToast"
as_str mention_query = "MentionQuery"
as_str assistant_reasoning_delta = "AssistantReasoningDelta"
as_str terminal_suspend = "TerminalSuspend"
as_str terminal_resume = "TerminalResume"
as_str terminal_suspended = "TerminalSuspended"
as_str activity_update = "ActivityUpdate"
as_str activity_log = "ActivityLog"
as_str activity_removed = "ActivityRemoved"
as_str activity_snapshot = "ActivitySnapshot"
as_str activity_browser_open = "ActivityBrowserOpen"
as_str activity_stop_requested = "ActivityStopRequested"
as_str activity_view_changed = "ActivityViewChanged"

-- The arms of the `match`, in their order.
unfoldable pub from_str : String → Option EventType
from_str s =
    if s == "SessionStarted"
    then some session_started
    else if s == "SessionEnded"
    then some session_ended
    else if s == "SessionStatus"
    then some session_status
    else if s == "UserMessageCreated"
    then some user_message_created
    else if s == "AssistantStreamStarted"
    then some assistant_stream_started
    else if s == "AssistantTokenDelta"
    then some assistant_token_delta
    else if s == "AssistantMessageCompleted"
    then some assistant_message_completed
    else if s == "ToolExecutionStarted"
    then some tool_execution_started
    else if s == "ToolExecutionStdout"
    then some tool_execution_stdout
    else if s == "ToolExecutionStderr"
    then some tool_execution_stderr
    else if s == "ToolExecutionFinished"
    then some tool_execution_finished
    else if s == "PatchProposed"
    then some patch_proposed
    else if s == "PatchApplied"
    then some patch_applied
    else if s == "PermissionRequested"
    then some permission_requested
    else if s == "PermissionGranted"
    then some permission_granted
    else if s == "PermissionDenied"
    then some permission_denied
    else if s == "RuntimeError"
    then some runtime_error
    else if s == "SessionCompacted"
    then some session_compacted
    else if s == "ViewportMarker"
    then some viewport_marker
    else if s == "StatusUpdate"
    then some status_update
    else if s == "BackgroundTaskUpdate"
    then some background_task_update
    else if s == "TodoListUpdate"
    then some todo_list_update
    else if s == "UserInputSubmitted"
    then some user_input_submitted
    else if s == "PermissionResponse"
    then some permission_response
    else if s == "SlashCommandsRegistered"
    then some slash_commands_registered
    else if s == "MentionCandidatesRegistered"
    then some mention_candidates_registered
    else if s == "ShowSelectList"
    then some show_select_list
    else if s == "SelectListResponse"
    then some select_list_response
    else if s == "ShowConfirm"
    then some show_confirm
    else if s == "ConfirmResponse"
    then some confirm_response
    else if s == "ShowTable"
    then some show_table
    else if s == "ShowKeyValueView"
    then some show_key_value_view
    else if s == "ShowForm"
    then some show_form
    else if s == "FormResponse"
    then some form_response
    else if s == "ShowWizard"
    then some show_wizard
    else if s == "WizardCompleted"
    then some wizard_completed
    else if s == "WizardCancelled"
    then some wizard_cancelled
    else if s == "ModeChangeRequested"
    then some mode_change_requested
    else if s == "CancelRequested"
    then some cancel_requested
    else if s == "TranscriptCleared"
    then some transcript_cleared
    else if s == "Splash"
    then some splash
    else if s == "ShowToast"
    then some show_toast
    else if s == "MentionQuery"
    then some mention_query
    else if s == "AssistantReasoningDelta"
    then some assistant_reasoning_delta
    else if s == "TerminalSuspend"
    then some terminal_suspend
    else if s == "TerminalResume"
    then some terminal_resume
    else if s == "TerminalSuspended"
    then some terminal_suspended
    else if s == "ActivityUpdate"
    then some activity_update
    else if s == "ActivityLog"
    then some activity_log
    else if s == "ActivityRemoved"
    then some activity_removed
    else if s == "ActivitySnapshot"
    then some activity_snapshot
    else if s == "ActivityBrowserOpen"
    then some activity_browser_open
    else if s == "ActivityStopRequested"
    then some activity_stop_requested
    else if s == "ActivityViewChanged"
    then some activity_view_changed
    else none
