-- ===== src/Session/Tools.antt =====
-- crates/inline/src/session.rs: the arms of `apply` for the start and the finish of a tool, and for a
-- proposed patch, as functions of what they read of the event.
use camouflage.Prelude.{
  ℕ, zero, suc, take, Bool, true, false, not, ◌&&◌, ◌||◌, Option, none, some, is_some, List, [],
  ◌∷◌, ◌++◌, map, ◌==◌, if◌then◌else◌, unwrap_or, is_empty, length, any, retain, get_elem?,
}
use camouflage.Prelude.Int.{ℤ, pos, negsuc}
use camouflage.Text.{Str, utf8, str_eq, to_decimal}
use camouflage.Blocks.{
  ToolStatus, ok, error, declined, stopped, DiffLine, ToolBlock, tool_block, GroupBlock, Block,
  tool, group, run_label, is_plan_update,
}
use camouflage.Shell.{explore_kind_of}
use camouflage.Shell.Tools.{command}
use camouflage.Compact
use camouflage.Compact.{
  push_code_preview, take_chars, max_code_preview_lines, max_code_preview_chars,
  max_code_preview_path_chars,
}
use camouflage.Diff.{count_changes}
use camouflage.Session.{
  Session, Entry, push, push_quiet, push_done, close_group, became_busy, find_block, finish,
  finish_group_if_done, elapsed_since,
}
use camouflage.Session.Maps.{lookup, insert, remove}
use camouflage.Session.Stream.{change_block}
use camouflage.Session.Notices.{append_output, change_tool}
use camouflage.Session.Requests.{or_else, path_of}

-- Whether a tool only reads, by the host or else by its name and arguments.
unfoldable pub read_kind : Option Bool → Option Str → Option Str
read_kind (some true) kind = or_else kind (some command)
read_kind (some false) kind = none
read_kind none kind = kind

unfoldable pub same_label : Option Str → Option Str → Bool
same_label none none = true
same_label (some a) (some b) = str_eq a b
same_label _ _ = false

abbrev pub set_tool : Str → ℕ × Option ℕ → Session → Session
set_tool tid place s = record s { tools = insert str_eq tid place s.tools }

-- A tool with a row of its own.
unfoldable pub single_tool : Str → ToolBlock → Session → Session
single_tool tid t s = let (pushed, id) = push (tool t) false s in set_tool tid (id, none) pushed

-- The row of a plan update, which is held until it finishes.
unfoldable pub plan_tool : Str → ToolBlock → Session → Session
plan_tool tid t s =
    let (pushed, id) = push_quiet (tool t) false s in
    record (set_tool tid (id, none) pushed) { plan_rows = id ∷ pushed.plan_rows }

abbrev pub new_group : Option Str → ToolBlock → GroupBlock
new_group label t = record { tools = t ∷ []; closed = false; label = label }

-- A run of another kind starts.
unfoldable pub open_run : Str → Option Str → ToolBlock → Session → Session
open_run tid label t s =
    let (pushed, gid) = push (group (new_group label t)) false (close_group s) in
    set_tool tid (gid, some 0) (record pushed { open_group = some gid })

abbrev pub push_tool : ToolBlock → Block → Block
push_tool t (group g) = group (record g { tools = g.tools ++ t ∷ [] })
push_tool t b = b

-- The open group, when the tool belongs to its run.
unfoldable pub run_of : Option Str → Option ℕ → Option Block → Option (ℕ × GroupBlock)
run_of label (some gid) (some (group g)) = if same_label g.label label then some (gid, g) else none
run_of label gid b = none

unfoldable pub join_or_open :
    Option (ℕ × GroupBlock) → Str → Option Str → ToolBlock → Session → Session
join_or_open (some (gid, g)) tid label t s =
    set_tool tid (gid, some (length g.tools)) (change_block gid (push_tool t) s)
join_or_open none tid label t s = open_run tid label t s

abbrev pub open_block : Option ℕ → List Entry → Option Block
open_block none es = none
open_block (some gid) es = find_block gid es

unfoldable pub run_tool : Str → Option Str → ToolBlock → Session → Session
run_tool tid label t s =
    join_or_open (run_of label s.open_group (open_block s.open_group s.entries)) tid label t s

-- A tool that is no plan update.
unfoldable pub act : Str → Option Bool → ToolBlock → Session → Session
act tid read_only t s =
    let label = run_label t.name in
    let kind = read_kind read_only (explore_kind_of t.name t.args) in
    let t' : ToolBlock = record t { explore = kind } in
    if is_some kind || is_some label then run_tool tid label t' s else single_tool tid t' s

-- `ToolExecutionStarted`
unfoldable pub start_tool : Str → Str → Str → Option ℤ → Option Bool → ℤ → Session → Session
start_tool tid name args started read_only now s =
    let t : ToolBlock = record (tool_block name args) {
      started_at_ms = or_else started (some now);
    } in
    let busy = became_busy now s in
    let noted : Session = record busy {
      compact = Compact.tool_started tid name args now busy.compact;
    } in
    if is_plan_update name then plan_tool tid t busy else act tid read_only t noted

-- What `ToolExecutionFinished` reads of its payload; the diff may be there and say nothing.
pub record Finish : Type 0 where
  pub exit : Option ℤ
  pub status : Option Str
  pub summary : Option Str
  pub output : Option Str
  pub preview : Option ℕ
  pub output_lang : Option Str
  pub diff : Option (Option (Str × List DiffLine))

abbrev pub is_failure : Option ℤ → Bool
is_failure none = false
is_failure (some (pos zero)) = false
is_failure _ = true

unfoldable pub finish_status : Option Str → Option ℤ → ToolStatus
finish_status (some s) exit =
    if str_eq s (utf8 "error") || str_eq s (utf8 "err")
    then error
    else if str_eq s (utf8 "cancelled") || str_eq s (utf8 "canceled")
    then stopped
    else if str_eq s (utf8 "rejected")
    then declined
    else ok
finish_status none exit = if is_failure exit then error else ok

abbrev pub is_error : ToolStatus → Bool
is_error error = true
is_error _ = false

abbrev pub int_text : ℤ → Str
int_text (pos n) = to_decimal n
int_text (negsuc n) = b'-' ∷ to_decimal (suc n)

abbrev pub exit_text : Option ℤ → Str
exit_text none = utf8 "Failed"
exit_text (some code) = utf8 "Exit code " ++ int_text code

unfoldable pub finish_summary : Option Str → ToolStatus → Option ℤ → Option Str → Option Str
finish_summary (some text) status exit old = some text
finish_summary none status exit old = if is_error status then some (exit_text exit) else old

unfoldable pub diff_summary : Option Str → Option (Str × List DiffLine) → Option Str
diff_summary (some text) diff = some text
diff_summary none none = none
diff_summary none (some (path, lines)) =
    let (a, r) = count_changes lines in
    some (utf8 "Updated " ++ path ++ utf8 " · +" ++ to_decimal a ++ utf8 " −" ++ to_decimal r)

-- `if let Some(d) = p.get("diff")`
unfoldable pub with_diff : Option (Option (Str × List DiffLine)) → ToolBlock → ToolBlock
with_diff none t = t
with_diff (some diff) t = record t { diff = diff; summary = diff_summary t.summary diff }

abbrev pub new_output : Option Str → List Str → List Str
new_output none out = out
new_output (some text) out = append_output text []

unfoldable pub finish_tool : Finish → ℤ → ToolBlock → ToolBlock
finish_tool fin now t =
    let status = finish_status fin.status fin.exit in
    with_diff fin.diff (record t {
      status = status;
      elapsed_ms = elapsed_since now t.started_at_ms;
      summary = finish_summary fin.summary status fin.exit t.summary;
      output = new_output fin.output t.output;
      preview = unwrap_or (if is_error status then 12 else 0) fin.preview;
      output_lang = fin.output_lang;
    })

-- `tool_mut`, to read a tool.
unfoldable pub tool_in : Option ℕ → Option Block → Option ToolBlock
tool_in none (some (tool t)) = some t
tool_in (some i) (some (group g)) = get_elem? g.tools i
tool_in idx b = none

abbrev pub diff_of : Option ToolBlock → Option (Str × List DiffLine)
diff_of none = none
diff_of (some t) = t.diff

abbrev pub summary_of : Option ToolBlock → Option Str
summary_of none = none
summary_of (some t) = t.summary

-- `compact_diff`, cut to what a preview shows.
unfoldable pub preview_of :
    Bool → Option (Str × List DiffLine) → ℤ → Compact.CompactState → Compact.CompactState
preview_of true (some (path, lines)) now c =
    push_code_preview (take_chars max_code_preview_path_chars path)
      (map (λ (l : DiffLine). record l { text = take_chars max_code_preview_chars l.text })
        (take max_code_preview_lines lines))
      now c
preview_of fine diff now c = c

-- The compact region hears of the tool as it is now.
unfoldable pub tell_compact : Str → Bool → Option ToolBlock → ℤ → Session → Session
tell_compact tid fine t now s = record s {
  compact = preview_of fine (diff_of t) now (
      Compact.tool_finished tid fine (summary_of t) (path_of (diff_of t)) (is_some (diff_of t)) now
        s.compact);
}

-- A plan update whose plan was seen needs no row, unless it failed.
unfoldable pub drop_plan_row : ℕ → Bool → Session → Session
drop_plan_row id failed s =
    let held = any (λ r. r == id) s.plan_rows in
    let released : Session = record s { plan_rows = retain (λ r. not (r == id)) s.plan_rows } in
    if held && s.plan_seen && not failed
    then record released { entries = retain (λ (e : Entry). not (e.id == id)) s.entries }
    else released

unfoldable pub finish_place : ℕ → Option ℕ → Session → Session
finish_place id none s = finish id s
finish_place id (some i) s = finish_group_if_done id s

unfoldable pub end_tool_at : Option (ℕ × Option ℕ) → Str → Finish → ℤ → Session → Session
end_tool_at none tid fin now s = s
end_tool_at (some (id, idx)) tid fin now s =
    let failed = is_error (finish_status fin.status fin.exit) in
    let changed =
      change_tool id idx (finish_tool fin now) (record s { tools = remove str_eq tid s.tools }) in
    let told =
      tell_compact tid (not failed) (tool_in idx (find_block id changed.entries)) now changed in
    finish_place id idx (drop_plan_row id failed told)

-- `ToolExecutionFinished`
unfoldable pub end_tool : Str → Finish → ℤ → Session → Session
end_tool tid fin now s = end_tool_at (lookup str_eq tid s.tools) tid fin now s

unfoldable pub patch_text : ℕ × ℕ → Str
patch_text (a, r) = utf8 "Proposed · +" ++ to_decimal a ++ utf8 " −" ++ to_decimal r

-- `PatchProposed`, with the numbers that the host gives where there is no diff.
unfoldable pub patch_proposed : Str → List DiffLine → ℕ × ℕ → ℤ → Session → Session
patch_proposed path lines given now s =
    let counts = if is_empty lines then given else count_changes lines in
    let t : ToolBlock = record (tool_block (utf8 "Edit") path) {
      status = ok;
      summary = some (patch_text counts);
      diff = if is_empty lines then none else some (path, lines);
    } in
    push_done (tool t) (record s {
      compact = if is_empty lines then s.compact else push_code_preview path lines now s.compact;
    })
