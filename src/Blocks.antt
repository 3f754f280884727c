-- ===== src/Blocks.antt =====
-- crates/inline/src/blocks.rs: the blocks of the transcript, without how they are drawn.
use camouflage.Prelude.{
  ℕ, Bool, true, false, not, ◌&&◌, Option, none, some, List, [], ◌∷◌, if◌then◌else◌, any,
}
use camouflage.Prelude.Int.{ℤ}
use camouflage.Text.{Str, utf8, str_eq, to_lower, trim, replace_str}
use camouflage.Style.{Line}

pub data ToolStatus : Type 0 where
  running ok error declined stopped : ToolStatus

pub data DiffKind : Type 0 where
  context add del : DiffKind

pub record DiffLine : Type 0 where
  pub line_no : Option ℕ
  pub kind : DiffKind
  pub text : Str

pub record ToolBlock : Type 0 where
  pub name : Str
  pub args : Str
  pub status : ToolStatus
  pub summary : Option Str
  pub output : List Str
  pub output_lang : Option Str
  pub preview : ℕ
  pub diff : Option (Str × List DiffLine)
  pub started_at_ms : Option ℤ
  pub elapsed_ms : Option ℕ
  pub explore : Option Str

-- `ToolBlock::new`
abbrev pub tool_block : Str → Str → ToolBlock
tool_block name args = record {
  name = name;
  args = args;
  status = running;
  summary = none;
  output = [];
  output_lang = none;
  preview = 0;
  diff = none;
  started_at_ms = none;
  elapsed_ms = none;
  explore = none;
}

pub data PlanStatus : Type 0 where
  pending in_progress done : PlanStatus

pub record PlanItem : Type 0 where
  pub title : Str
  pub status : PlanStatus

pub data NoticeKind : Type 0 where
  info success warn failure interrupted : NoticeKind

pub record GroupBlock : Type 0 where
  pub tools : List ToolBlock
  pub closed : Bool
  pub label : Option Str

pub data Block : Type 0 where
  welcome : Str → List Str → Block
  user assistant reasoning : Str → Block
  tool : ToolBlock → Block
  plan : List PlanItem → Bool → Block
  notice : NoticeKind → Str → Block
  custom : List Line → Block
  group : GroupBlock → Block

abbrev pub is_running : ToolStatus → Bool
is_running running = true
is_running _ = false

abbrev pub is_done : PlanStatus → Bool
is_done done = true
is_done _ = false

abbrev pub is_pending : PlanStatus → Bool
is_pending pending = true
is_pending _ = false

abbrev pub is_in_progress : PlanStatus → Bool
is_in_progress in_progress = true
is_in_progress _ = false

-- `s.trim().replace('\n', " ⏎ ")`
unfoldable pub flat : Str → Str
flat s = replace_str (b'\n' ∷ []) (utf8 " ⏎ ") (trim s)

unfoldable pub one_of : Str → List Str → Bool
one_of s names = any (str_eq s) names

unfoldable pub run_label : Str → Option Str
run_label name =
    if one_of (to_lower name) (utf8 "execute_code" ∷ utf8 "code" ∷ [])
    then some (utf8 "Code")
    else none

unfoldable pub is_plan_update : Str → Bool
is_plan_update name = one_of (to_lower name) (
    utf8 "tasks_set"
    ∷ utf8 "set_tasks"
    ∷ utf8 "todo_write"
    ∷ utf8 "todowrite"
    ∷ utf8 "update_plan"
    ∷ utf8 "plan_set"
    ∷ [])

abbrev is_tight : Block → Bool
is_tight (tool t) = true
is_tight (group g) = true
is_tight (notice k t) = true
is_tight _ = false

-- Whether a blank row separates two blocks.
unfoldable pub gap_between : Block → Block → Bool
gap_between prev next = not (is_tight prev && is_tight next)
