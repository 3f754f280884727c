-- ===== src/Session/Notices.antt =====
-- crates/inline/src/session.rs: the arms of `apply` that print a line, keep the plan and the tasks, or
-- take the output of a tool, as functions of the payload.
use camouflage.Prelude.{
  ℕ, zero, suc, ◌-◌, Bool, true, false, not, ◌&&◌, Option, none, some, List, [], ◌∷◌, ◌++◌, map,
  if◌then◌else◌, unwrap_or, is_empty, length, drop, retain,
}
use camouflage.Prelude.Int.{ℤ}
use camouflage.Text.{Str, utf8, str_eq, is_blank}
use camouflage.Style.{Line, Span}
use camouflage.Ansi.{parse_ansi}
use camouflage.Activity.{grown}
use camouflage.Json.{Json, get_as, get_str}
use camouflage.Blocks.{
  ToolBlock, PlanStatus, pending, in_progress, done, PlanItem, NoticeKind, info, warn, failure,
  Block, welcome, tool, notice, custom, group,
}
use camouflage.Compact.{plan}
use camouflage.Session.{Session, Entry, push_done, settle, update_entry}
use camouflage.Session.Maps.{lookup, insert, remove}

abbrev pub tool_tail_lines : ℕ
tool_tail_lines = 400

unfoldable pub append_output : Str → List Str → List Str
append_output chunk out = drop (length (grown chunk out) - tool_tail_lines) (grown chunk out)

-- `tool_mut`, to change a tool: the whole entry, or one of a group.
unfoldable pub change_nth : ℕ → (ToolBlock → ToolBlock) → List ToolBlock → List ToolBlock
change_nth i f [] = []
change_nth zero f (t ∷ ts) = f t ∷ ts
change_nth (suc i) f (t ∷ ts) = t ∷ change_nth i f ts

unfoldable pub change_tool_of : Option ℕ → (ToolBlock → ToolBlock) → Block → Block
change_tool_of none f (tool t) = tool (f t)
change_tool_of (some i) f (group g) = group (record g { tools = change_nth i f g.tools })
change_tool_of idx f b = b

unfoldable pub change_tool : ℕ → Option ℕ → (ToolBlock → ToolBlock) → Session → Session
change_tool id idx f s = record s {
  entries =
      update_entry id (λ (e : Entry). record e { block = change_tool_of idx f e.block }) s.entries;
}

unfoldable pub tool_output_at : Option (ℕ × Option ℕ) → Str → Session → Session
tool_output_at none chunk s = s
tool_output_at (some (id, idx)) chunk s =
    change_tool id idx (λ (t : ToolBlock). record t { output = append_output chunk t.output }) s

-- `ToolExecutionStdout` and `ToolExecutionStderr`
unfoldable pub tool_output : Str → Str → Session → Session
tool_output tool_id chunk s = tool_output_at (lookup str_eq tool_id s.tools) chunk s

unfoldable pub span_texts : List Span → Str
span_texts [] = []
span_texts (x ∷ xs) = x.text ++ span_texts xs

abbrev pub is_blank_line : Line → Bool
is_blank_line l = is_blank (span_texts l.spans)

unfoldable pub drop_blank : List Line → List Line
drop_blank [] = []
drop_blank (l ∷ ls) = let rest = drop_blank ls in if is_blank_line l then rest else l ∷ ls

unfoldable pub drop_blank_end : List Line → List Line
drop_blank_end [] = []
drop_blank_end (l ∷ ls) =
    let rest = drop_blank_end ls in if is_empty rest && is_blank_line l then [] else l ∷ rest

-- `Splash`
unfoldable pub splash : Str → Session → Session
splash text s =
    let shown = drop_blank_end (drop_blank (parse_ansi text)) in
    if is_empty shown then s else push_done (custom shown) s

-- `SessionCompacted`
unfoldable pub session_compacted : Session → Session
session_compacted s = push_done (notice info (utf8 "Conversation compacted")) s

-- `TranscriptCleared`: the entries that are done go.
unfoldable pub transcript_cleared : Session → Session
transcript_cleared s = record s {
  entries = retain (λ (e : Entry). not e.done) s.entries;
  last_printed = none;
  plan = none;
  clear_screen = true;
}

-- `CancelRequested`
unfoldable pub cancel_received : ℤ → Session → Session
cancel_received now s = settle now true s

unfoldable pub set_plan : List PlanItem → Session → Session
set_plan items s =
    if is_empty items
    then record s { plan = none }
    else record s { plan = some items; plan_seen = true; compact = plan items s.compact }

unfoldable pub severity : Option Str → NoticeKind
severity none = failure
severity (some s) =
    if str_eq s (utf8 "info") then info else if str_eq s (utf8 "warn") then warn else failure

unfoldable pub plan_status : Option Str → PlanStatus
plan_status none = pending
plan_status (some s) =
    if str_eq s (utf8 "completed")
    then done
    else if str_eq s (utf8 "in_progress")
    then in_progress
    else pending

abbrev pub call_to_action : Option Str → Str
call_to_action none = []
call_to_action (some label) = utf8 " · " ++ label

unfoldable pub task_update : Option Str → Str → Str → Session → Session
task_update none id label s = record s { tasks = remove str_eq id s.tasks }
task_update (some state) id label s =
    let gone : Session = record s { tasks = remove str_eq id s.tasks } in
    if str_eq state (utf8 "running")
    then record s { tasks = insert str_eq id label s.tasks }
    else if str_eq state (utf8 "error")
    then push_done (notice warn (label ++ utf8 " failed")) gone
    else gone

unfoldable pub welcomed : Str → List Str → Session → Session
welcomed title detail s =
    if is_empty title && is_empty detail then s else push_done (welcome title detail) s

abbrev keep_some : List (Option Str) → List Str
keep_some [] = []
keep_some (none ∷ xs) = keep_some xs
keep_some (some x ∷ xs) = x ∷ keep_some xs

module _ {V : Type 0} (j : Json V) where
  abbrev text_at : V → Str → Str
  text_at p k = unwrap_or [] (get_str j p k)

  abbrev cta_label : V → Option Str
  cta_label c = get_str j c (utf8 "label")

  -- `RuntimeError`
  unfoldable pub runtime_error : V → Session → Session
  runtime_error p s =
      push_done
        (notice (severity (get_str j p (utf8 "severity")))
          (text_at p (utf8 "message") ++ call_to_action (get_as j cta_label p (utf8 "cta"))))
        s

  abbrev plan_item : V → PlanItem
  plan_item t = record {
    title = text_at t (utf8 "title");
    status = plan_status (get_str j t (utf8 "status"));
  }

  -- `TodoListUpdate`
  unfoldable pub todo_list_update : V → Session → Session
  todo_list_update p s =
      set_plan (map plan_item (unwrap_or [] (get_as j j.as_array p (utf8 "todos")))) s

  -- `BackgroundTaskUpdate`
  unfoldable pub background_task_update : V → Session → Session
  background_task_update p s =
      task_update (get_str j p (utf8 "state")) (text_at p (utf8 "task_id"))
        (text_at p (utf8 "label")) s

  -- `SessionStarted`, without its accent color.
  unfoldable pub session_started : V → Session → Session
  session_started p s =
      let named : Session = record s {
        app_name = unwrap_or s.app_name (get_str j p (utf8 "assistant_label"));
      } in
      if unwrap_or false (get_as j j.as_bool p (utf8 "synthetic"))
      then s
      else welcomed (unwrap_or named.app_name (get_str j p (utf8 "title")))
          (keep_some (map j.as_str (unwrap_or [] (get_as j j.as_array p (utf8 "detail"))))) named
