-- ===== src/Compact.antt =====
-- crates/inline/src/compact.rs: the bounded state that is drawn during a busy turn.
pub mod Bounds
pub mod Plan
use camouflage.Prelude.{
  ℕ, zero, suc, ◌+◌, ◌-◌, Bool, true, false, not, ◌&&◌, ◌||◌, Option, none, some, is_some, List, [],
  ◌∷◌, ◌++◌, map, ltb, ◌==◌, if◌then◌else◌, length, take, drop, is_empty, get_elem?, position, any,
  retain, update_first,
}
use camouflage.Prelude.Int.{ℤ}
use camouflage.Text.{Str, utf8, str_eq, to_lower, is_blank, starts_with, is_continuation}
use camouflage.Blocks.{
  DiffLine, PlanItem, PlanStatus, done, in_progress, is_pending, is_in_progress, flat, one_of,
}

abbrev pub max_trail_beads : ℕ
max_trail_beads = 32

abbrev pub max_code_previews : ℕ
max_code_previews = 4

abbrev pub max_code_preview_lines : ℕ
max_code_preview_lines = 96

abbrev pub max_code_preview_chars : ℕ
max_code_preview_chars = 512

abbrev pub max_code_preview_path_chars : ℕ
max_code_preview_path_chars = 512

pub data TrailKind : Type 0 where
  read search edit bash agent code error : TrailKind

abbrev pub is_edit : TrailKind → Bool
is_edit edit = true
is_edit _ = false

-- The arms of the `match`, in their order.
unfoldable pub from_tool : Str → TrailKind
from_tool name =
    let n = to_lower name in
    if one_of n (
      utf8 "read"
      ∷ utf8 "view"
      ∷ utf8 "cat"
      ∷ utf8 "open"
      ∷ utf8 "read_file"
      ∷ utf8 "read_file_contents"
      ∷ [])
    then read
    else if one_of n (
        utf8 "grep"
        ∷ utf8 "glob"
        ∷ utf8 "find"
        ∷ utf8 "search"
        ∷ utf8 "rg"
        ∷ utf8 "codesearch"
        ∷ utf8 "code_search"
        ∷ utf8 "web_search"
        ∷ utf8 "websearch"
        ∷ utf8 "ls"
        ∷ utf8 "list"
        ∷ utf8 "list_dir"
        ∷ utf8 "tree"
        ∷ utf8 "web_fetch"
        ∷ utf8 "webfetch"
        ∷ utf8 "fetch"
        ∷ [])
    then search
    else if starts_with (utf8 "lsp_") n
    then search
    else if one_of n (
        utf8 "edit"
        ∷ utf8 "write"
        ∷ utf8 "multiedit"
        ∷ utf8 "multi_edit"
        ∷ utf8 "notebook_edit"
        ∷ utf8 "write_file"
        ∷ [])
    then edit
    else if one_of n (utf8 "bash" ∷ utf8 "shell" ∷ [])
    then bash
    else if one_of n (utf8 "execute_code" ∷ utf8 "code" ∷ [])
    then code
    else if one_of n (utf8 "task" ∷ utf8 "agent" ∷ [])
    then agent
    else if starts_with (utf8 "subagent") n || starts_with (utf8 "mcp_") n
    then agent
    else read

pub record Bead : Type 0 where
  pub kind : TrailKind
  pub at : ℤ
  pub ok : Bool

pub record LatestAction : Type 0 where
  pub text : Str
  pub at : ℤ
  pub is_error : Bool

pub record CodePreview : Type 0 where
  pub path : Str
  pub diff : List DiffLine
  pub at : ℤ

pub record CompactPlanStep : Type 0 where
  pub title : Str
  pub status : PlanStatus
  pub done_at : Option ℤ

pub record Agent : Type 0 where
  pub n : ℕ
  pub title : Str
  pub started_at : ℤ
  pub finished_at : Option ℤ
  pub ok : Bool

-- The map `by_tool` is an association list with one entry for a key.
pub record CompactState : Type 0 where
  pub since : Option ℤ
  pub beads : List Bead
  pub by_tool : List (Str × ℕ)
  pub latest : Option LatestAction
  pub plan : List CompactPlanStep
  pub agents : List Agent
  pub files : ℕ
  pub code_previews : List CodePreview

abbrev pub new : CompactState
new = record {
  since = none;
  beads = [];
  by_tool = [];
  latest = none;
  plan = [];
  agents = [];
  files = 0;
  code_previews = [];
}

unfoldable pub clear : CompactState → CompactState
clear c = new

unfoldable pub begin : ℤ → CompactState → CompactState
begin now c = record (clear c) { since = some now }

-- `s.chars().take(n)`: the bytes of the first `n` characters.
unfoldable pub take_chars : ℕ → Str → Str
take_chars n [] = []
take_chars n (b ∷ s) =
    let inside = take_chars n s in
    if is_continuation b then b ∷ inside else elim n [ zero ↦ [] | suc m ↦ b ∷ take_chars m s ]

unfoldable pub push_code_preview : Str → List DiffLine → ℤ → CompactState → CompactState
push_code_preview path diff now c =
    let preview : CodePreview = record {
      path = take_chars max_code_preview_path_chars path;
      diff =
          map (λ (l : DiffLine). record l { text = take_chars max_code_preview_chars l.text })
            (take max_code_preview_lines diff);
      at = now;
    } in
    let pushed = c.code_previews ++ preview ∷ [] in
    if is_empty diff
    then c
    else record c { code_previews = drop (length pushed - max_code_previews) pushed }

-- The indices move down by one, and the tool of the first bead is forgotten.
unfoldable pub shift_down : List (Str × ℕ) → List (Str × ℕ)
shift_down [] = []
shift_down ((id, zero) ∷ m) = shift_down m
shift_down ((id, suc i) ∷ m) = (id, i) ∷ shift_down m

abbrev pub bead : TrailKind → ℤ → Bead
bead kind now = record { kind = kind; at = now; ok = true }

-- A place for one more bead.
unfoldable pub make_room : CompactState → CompactState
make_room c =
    if length c.beads == max_trail_beads
    then record c { beads = drop 1 c.beads; by_tool = shift_down c.by_tool }
    else c

-- The new state and the index of the new bead.
unfoldable pub push_bead : TrailKind → ℤ → CompactState → CompactState × ℕ
push_bead kind now c =
    let room = make_room c in
    (record room { beads = room.beads ++ bead kind now ∷ [] }, length room.beads)

-- `HashMap::insert`, `get` and `remove`.
unfoldable pub insert_tool : Str → ℕ → List (Str × ℕ) → List (Str × ℕ)
insert_tool id i m = (id, i) ∷ retain (λ (p : Str × ℕ). not (str_eq p.0 id)) m

unfoldable pub lookup_tool : Str → List (Str × ℕ) → Option ℕ
lookup_tool id [] = none
lookup_tool id ((k, i) ∷ m) = if str_eq k id then some i else lookup_tool id m

unfoldable pub remove_tool : Str → List (Str × ℕ) → List (Str × ℕ)
remove_tool id m = retain (λ (p : Str × ℕ). not (str_eq p.0 id)) m

unfoldable pub tool_started : Str → Str → Str → ℤ → CompactState → CompactState
tool_started id name title now c =
    let (c', index) = push_bead (from_tool name) now c in
    record c' {
      by_tool = insert_tool id index c'.by_tool;
      latest = some (record {
        text = flat (if is_blank title then name else title);
        at = now;
        is_error = false;
      });
    }

-- What happens to the bead of a finished tool.
unfoldable pub finish_bead : Bool → Bead → Bead
finish_bead ok b = record b { kind = if ok then b.kind else error; ok = ok }

-- `beads.get_mut(i)`
unfoldable pub update_at {ℓ} : {A : Type ℓ} → ℕ → (A → A) → List A → List A
update_at i f [] = []
update_at zero f (x ∷ xs) = f x ∷ xs
update_at (suc i) f (x ∷ xs) = x ∷ update_at i f xs

unfoldable pub counts_file : Bool → Bool → Option Bead → Bool
counts_file ok has_diff none = false
counts_file ok has_diff (some b) = ok && is_edit b.kind && has_diff

unfoldable pub finish_tool_bead : Option ℕ → Bool → Bool → CompactState → CompactState
finish_tool_bead none ok has_diff c = c
finish_tool_bead (some i) ok has_diff c =
    let extra = if counts_file ok has_diff (get_elem? c.beads i) then 1 else 0 in
    record c { beads = update_at i (finish_bead ok) c.beads; files = c.files + extra }

unfoldable pub failure_text : Option Str → Str
failure_text none = utf8 "Tool failed"
failure_text (some s) = if is_blank s then utf8 "Tool failed" else s

unfoldable pub tool_finished :
    Str → Bool → Option Str → Option Str → Bool → ℤ → CompactState → CompactState
tool_finished id ok failure path has_diff now c =
    let c' =
      finish_tool_bead (lookup_tool id c.by_tool) ok has_diff
        (record c { by_tool = remove_tool id c.by_tool }) in
    if ok then c' else record c' {
      latest = some (record { text = flat (failure_text failure); at = now; is_error = true });
    }

unfoldable pub agent_start : ℕ → Str → ℤ → CompactState → CompactState
agent_start n title now c =
    let agent' : Agent = record {
      n = n;
      title = flat title;
      started_at = now;
      finished_at = none;
      ok = true;
    } in
    (push_bead agent now (record c { agents = c.agents ++ agent' ∷ [] })).0

unfoldable pub agent_done : ℕ → Bool → ℤ → CompactState → CompactState
agent_done n ok now c = record c {
  agents =
      update_first (λ (a : Agent). a.n == n && not (is_some a.finished_at))
        (λ a. record a { finished_at = some now; ok = ok }) c.agents;
}

abbrev pub step_of : PlanItem → CompactPlanStep
step_of i = record { title = flat i.title; status = i.status; done_at = none }

unfoldable pub plan : List PlanItem → CompactState → CompactState
plan items c =
    let steps = map step_of items in
    record c {
      plan =
          if any (λ (p : CompactPlanStep). is_in_progress p.status) steps
          then steps
          else update_first (λ (p : CompactPlanStep). is_pending p.status)
              (λ p. record p { status = in_progress }) steps;
    }

-- The step in progress is done, and the one behind it, if there is one, is in progress.
unfoldable pub advance : ℤ → List CompactPlanStep → List CompactPlanStep
advance now [] = []
advance now (p ∷ ps) =
    let rest = advance now ps in
    let next = update_at 0 (λ (q : CompactPlanStep). record q { status = in_progress }) ps in
    if is_in_progress p.status
    then record p { status = done; done_at = some now } ∷ next
    else p ∷ rest

unfoldable pub plan_step_done : ℤ → CompactState → CompactState
plan_step_done now c = record c { plan = advance now c.plan }
