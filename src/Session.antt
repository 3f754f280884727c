-- ===== src/Session.antt =====
-- crates/inline/src/session.rs: the state of a session, its transcript entries and its prompts. The
-- theme and the switch that expands tool output, which are only drawn with, are left out; the wizard
-- is in Wizard.
pub mod Ask
pub mod Prompts
pub mod Still
pub mod Settle
pub mod Answer
pub mod Queue
pub mod Maps
pub mod Stream
pub mod Requests
pub mod Notices
pub mod Tools
pub mod Status
pub mod Picker
pub mod Keys
pub mod Apply
pub mod Printed
pub mod Wizard
pub mod Wakeup
pub mod Absorb
pub mod Quit
pub mod Valid
use camouflage.Prelude.{
  ℕ, zero, suc, ◌+◌, max, Bool, true, false, not, ◌&&◌, ◌||◌, Option, none, some, is_some, List, [],
  ◌∷◌, ◌++◌, ◌==◌, if◌then◌else◌, unwrap_or, is_empty, any, retain, map,
}
use camouflage.Prelude.Int.{ℤ, ◌-ℤ◌, clamp_ℕ}
use camouflage.Text.{Str, utf8}
use camouflage.Protocol.{EventType, cancel_requested}
use camouflage.Blocks.{
  ToolStatus, running, stopped, ToolBlock, PlanItem, is_done, is_running, NoticeKind, interrupted,
  GroupBlock, Block, welcome, user, assistant, reasoning, tool, plan, notice, custom, group,
}
use camouflage.Compact
use camouflage.Compact.{CompactState, begin, clear}
use camouflage.Editor
use camouflage.Editor.{Editor}
use camouflage.Activity.{Activity}
use camouflage.Activity.View.{View}
use camouflage.Form.{FormState}
use camouflage.Session.Ask.{Prompt, is_permission}

pub record Entry : Type 0 where
  pub id : ℕ
  pub block : Block
  pub done : Bool

-- What the answer to a step of a wizard is.
pub data StepAnswer : Type 0 where
  chosen : Str → StepAnswer
  agreed : Bool → StepAnswer
  filled : List (Str × Str) → StepAnswer

-- The payloads of the events for the host: the texts and numbers that the source puts in them.
pub data Payload : Type 0 where
  empty next_mode : Payload
  permission_choice : Str → Str → Payload
  value : Str → Str → Payload
  yes_no : Str → Bool → Payload
  cancelled : Str → Payload
  form_values : Str → List (Str × Str) → Payload
  user_text query stop_item : Str → Payload
  view : Str → Option Str → Payload
  wizard_results : Str → List (Str × StepAnswer) → Payload
  wizard_stopped : Str → ℕ → Payload

pub record Outbound : Type 0 where
  pub event_type : EventType
  pub payload : Payload

pub data InputMode : Type 0 where
  normal accept_edits planning : InputMode

-- Which of the theme's styles a message has.
pub data Tone : Type 0 where
  warning failing good accented : Tone

pub record Session : Type 0 where
  pub app_name : Str
  pub project_repo : Option Str
  pub project_branch : Option Str
  pub width : ℕ
  pub height : ℕ
  pub entries : List Entry
  pub next_id : ℕ
  pub last_printed : Option Block
  pub streams : List (Str × ℕ)
  pub printed_prefix : List (ℕ × Str)
  pub tools : List (Str × (ℕ × Option ℕ))
  pub open_group : Option ℕ
  pub status_until : Option ℤ
  pub plan : Option (List PlanItem)
  pub plan_seen : Bool
  pub plan_rows : List ℕ
  pub segments : List (Str × Str)
  pub editor : Editor
  pub mode : InputMode
  pub commands : List (Str × Str × Option Str)
  pub mentions : List Str
  pub path_mentions : Option (Str × List Str)
  pub mention_query_sent : Option Str
  pub echoes : List Str
  pub pick_sel : ℕ
  pub pick_dismissed : Option Str
  pub prompt : Option Prompt
  pub queued_prompts : List Prompt
  pub form : Option FormState
  pub foot : Option (Str × Tone × ℤ)
  pub ctrl_c_at : Option ℤ
  pub phase_busy : Bool
  pub busy_since : Option ℤ
  pub streamed_chars : ℕ
  pub streamed_at_busy : ℕ
  pub tasks : List (Str × Str)
  pub transcript_requested : Bool
  pub show_reasoning : Bool
  pub reasoning : List (Str × ℕ)
  pub outbound : List Outbound
  pub clear_screen : Bool
  pub activity : Activity
  pub browser : Option View
  pub focused : Bool
  pub exit : Bool
  pub compact : CompactState

-- `Session::new`
abbrev pub new : Str → ℕ → ℕ → Session
new app_name width height = record {
  app_name = app_name;
  project_repo = none;
  project_branch = none;
  width = max width 20;
  height = max height 6;
  entries = [];
  next_id = 1;
  last_printed = none;
  streams = [];
  printed_prefix = [];
  tools = [];
  open_group = none;
  status_until = none;
  plan = none;
  plan_seen = false;
  plan_rows = [];
  segments = [];
  editor = Editor.new;
  mode = normal;
  commands = [];
  mentions = [];
  path_mentions = none;
  mention_query_sent = none;
  echoes = [];
  pick_sel = 0;
  pick_dismissed = none;
  prompt = none;
  queued_prompts = [];
  form = none;
  foot = none;
  ctrl_c_at = none;
  phase_busy = false;
  busy_since = none;
  streamed_chars = 0;
  streamed_at_busy = 0;
  tasks = [];
  transcript_requested = false;
  show_reasoning = false;
  reasoning = [];
  outbound = [];
  clear_screen = false;
  activity = [];
  browser = none;
  focused = true;
  exit = false;
  compact = Compact.new;
}

unfoldable pub is_busy : Session → Bool
is_busy s = s.phase_busy || any (λ (e : Entry). not e.done) s.entries

-- `entries.iter_mut().rev().find(|e| e.id == id)`
unfoldable pub update_entry : ℕ → (Entry → Entry) → List Entry → List Entry
update_entry id f [] = []
update_entry id f (e ∷ es) =
    let rest = update_entry id f es in
    if any (λ (x : Entry). x.id == id) es then e ∷ rest else if e.id == id then f e ∷ es else e ∷ es

unfoldable pub find_block : ℕ → List Entry → Option Block
find_block id [] = none
find_block id (e ∷ es) =
    let rest = find_block id es in
    if is_some rest then rest else if e.id == id then some e.block else none

abbrev pub close_block : Block → Block
close_block (group g) = group (record g { closed = true })
close_block b = b

-- `g.closed && g.tools.iter().all(|t| t.status != ToolStatus::Running)`
abbrev pub group_done : Option Block → Bool
group_done (some (group g)) = g.closed && not (any (λ (t : ToolBlock). is_running t.status) g.tools)
group_done _ = false

unfoldable pub finish : ℕ → Session → Session
finish id s = record s {
  entries = update_entry id (λ (e : Entry). record e { done = true }) s.entries;
}

unfoldable pub finish_group_if_done : ℕ → Session → Session
finish_group_if_done gid s = if group_done (find_block gid s.entries) then finish gid s else s

unfoldable pub close_open : Option ℕ → Session → Session
close_open none s = s
close_open (some gid) s = finish_group_if_done gid (record s {
  open_group = none;
  entries = update_entry gid (λ (e : Entry). record e { block = close_block e.block }) s.entries;
})

unfoldable pub close_group : Session → Session
close_group s = close_open s.open_group s

-- Reply text does not end a run of reads.
abbrev pub keeps_group : Block → Bool
keeps_group (assistant t) = true
keeps_group (reasoning t) = true
keeps_group (group g) = true
keeps_group _ = false

abbrev pub entry : ℕ → Block → Bool → Entry
entry id block done = record { id = id; block = block; done = done }

-- `push_quiet`: the new state and the new identifier.
unfoldable pub push_quiet : Block → Bool → Session → Session × ℕ
push_quiet block done s = (
  record s { next_id = s.next_id + 1; entries = s.entries ++ entry s.next_id block done ∷ [] },
  s.next_id,
)

unfoldable pub push : Block → Bool → Session → Session × ℕ
push block done s =
    let closed = close_group s in push_quiet block done (if keeps_group block then s else closed)

unfoldable pub push_done : Block → Session → Session
push_done block s = (push block true s).0

unfoldable pub became_busy : ℤ → Session → Session
became_busy now s = if is_some s.busy_since then s else record s {
  busy_since = some now;
  streamed_at_busy = s.streamed_chars;
  compact = begin now s.compact;
}

-- `t.elapsed_ms = t.started_at_ms.map(|st| (now - st).max(0) as u64)`
abbrev pub elapsed_since : ℤ → Option ℤ → Option ℕ
elapsed_since now none = none
elapsed_since now (some st) = some (clamp_ℕ (now -ℤ st))

abbrev pub stop_tool : ℤ → ToolBlock → ToolBlock
stop_tool now t = record t { status = stopped; elapsed_ms = elapsed_since now t.started_at_ms }

-- The first loop of `settle`: an entry that is not done.
unfoldable pub settle_entry : ℤ → Entry → Entry
settle_entry now e =
    let block : Block = elim e.block [
      | welcome t d ↦ welcome t d
      | user t ↦ user t
      | assistant t ↦ assistant t
      | reasoning t ↦ reasoning t
      | tool t ↦
          tool (record (stop_tool now t) { summary = some (unwrap_or (utf8 "Stopped") t.summary) })
      | plan i l ↦ plan i l
      | notice k t ↦ notice k t
      | custom l ↦ custom l
      | group g ↦ group g
    ] in
    if e.done then e else record e { block = block; done = true }

-- The second loop: the groups of all entries.
abbrev pub stop_running : ℤ → List ToolBlock → List ToolBlock
stop_running now [] = []
stop_running now (t ∷ ts) =
    (if is_running t.status then stop_tool now t else t) ∷ stop_running now ts

unfoldable pub settle_group : ℤ → Block → Block
settle_group now (group g) = group (record g { closed = true; tools = stop_running now g.tools })
settle_group now b = b

abbrev pub open_items : Option (List PlanItem) → Bool
open_items none = false
open_items (some items) = any (λ (i : PlanItem). not (is_done i.status)) items

unfoldable pub show_first : Option Prompt → List Prompt → Session → Session
show_first none (p ∷ ps) s = record s { prompt = some p; queued_prompts = ps }
show_first none [] s = s
show_first (some p) ps s = s

unfoldable pub show_queued_prompt : Session → Session
show_queued_prompt s = show_first s.prompt s.queued_prompts s

unfoldable pub keep_prompt : Option Prompt → Option Prompt
keep_prompt none = none
keep_prompt (some p) = if is_permission p then none else some p

-- `self.plan.take()`: the plan is printed when it was interrupted with open items.
unfoldable pub settle_plan : Bool → Session → Session
settle_plan by_user s =
    let items = unwrap_or [] s.plan in
    let taken : Session = record s { plan = none } in
    let printed = push_done (plan items false) taken in
    if by_user && open_items s.plan then printed else taken

unfoldable pub interrupted_text : Str → Str
interrupted_text app_name =
    utf8 "Interrupted · what should "
    ++ (if is_empty app_name then utf8 "the agent" else app_name)
    ++ utf8 " do instead?"

-- The entries after the loops of `settle`.
unfoldable pub settle_entries : ℤ → List ℕ → List Entry → List Entry
settle_entries now plan_rows entries =
    map (λ (e : Entry). record e { block = settle_group now e.block })
      (map (settle_entry now)
        (retain (λ (e : Entry). not (any (λ r. r == e.id) plan_rows)) entries))

unfoldable pub settle : ℤ → Bool → Session → Session
settle now by_user s =
    let kept = retain (λ (e : Entry). not (any (λ r. r == e.id) s.plan_rows)) s.entries in
    let any_open = any (λ (e : Entry). not e.done) kept in
    let still : Session = record s {
      plan_rows = [];
      entries = settle_entries now s.plan_rows s.entries;
      open_group = none;
      streams = [];
      tools = [];
      phase_busy = false;
    } in
    let planned = settle_plan by_user still in
    let cleared : Session = record planned { compact = clear planned.compact } in
    let noticed = push_done (notice interrupted (interrupted_text s.app_name)) cleared in
    let told = if by_user && (is_busy s || any_open) then noticed else cleared in
    show_queued_prompt (record told {
      busy_since = none;
      prompt = keep_prompt told.prompt;
      queued_prompts = retain (λ (p : Prompt). not (is_permission p)) told.queued_prompts;
    })

unfoldable pub send : EventType → Payload → Session → Session
send event_type payload s = record s {
  outbound = s.outbound ++ (record { event_type = event_type; payload = payload }) ∷ [];
}

-- `interrupt`
unfoldable pub interrupt : ℤ → Session → Session
interrupt now s = settle now true (send cancel_requested empty s)
