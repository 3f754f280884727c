-- ===== src/Session/Status.antt =====
-- crates/inline/src/session.rs: the arms of `apply` for the status, the toasts, the activities and the
-- tables, and the helpers behind them.
use camouflage.Prelude.{
  ℕ, zero, suc, max, Bool, true, false, not, ◌&&◌, ◌||◌, Option, none, some, is_some, List, [], ◌∷◌,
  ◌++◌, map, ◌==◌, ltb, leb, if◌then◌else◌, unwrap_or, is_empty, length, any, retain,
}
use camouflage.Prelude.Int.{ℤ, pos, ◌+ℤ◌, ltb_ℤ}
use camouflage.Text.{Str, utf8, str_eq, is_digit, parse_usize, replace_str}
use camouflage.Protocol.{activity_view_changed}
use camouflage.Json.{Json, get_as, get_str}
use camouflage.Activity
use camouflage.Activity.{
  Kind, agent, job, Item, Transition, started, finished, failed, needs_attention, Activity, upsert,
  snapshot, log_output,
}
use camouflage.Activity.View.{View, list, item_id}
use camouflage.Blocks.{info, success, warn, failure, Block, assistant, notice}
use camouflage.Compact.{agent_start, agent_done}
use camouflage.Session.{
  Session, InputMode, normal, accept_edits, planning, Tone, warning, failing, good, accented, view,
  send, push_done, settle, became_busy,
}
use camouflage.Session.Maps.{lookup, remove}
use camouflage.Shell.Tools.{names}

abbrev pub footer_show_ms : ℤ
footer_show_ms = pos 4000

abbrev pub clamp_ℤ : ℤ → ℤ → ℤ → ℤ
clamp_ℤ lo hi x = if ltb_ℤ x lo then lo else if ltb_ℤ hi x then hi else x

unfoldable pub toast_tone : Option Str → Tone
toast_tone none = accented
toast_tone (some k) =
    if str_eq k (utf8 "warn")
    then warning
    else if str_eq k (utf8 "error")
    then failing
    else if str_eq k (utf8 "success")
    then good
    else accented

-- `ShowToast`
unfoldable pub show_toast : Option Str → Option ℤ → Str → ℤ → Session → Session
show_toast kind ttl text now s =
    let ttl' = clamp_ℤ (pos 500) (pos 15000) (unwrap_or (pos 3500) ttl) in
    record s { foot = some (text, toast_tone kind, now +ℤ ttl') }

unfoldable pub flash : Str → ℤ → Session → Session
flash text now s = record s { foot = some (text, accented, now +ℤ pos 2500) }

-- The order of texts by their bytes, which is that of a `BTreeMap`.
unfoldable pub str_ltb : Str → Str → Bool
str_ltb [] [] = false
str_ltb [] (b ∷ t) = true
str_ltb (a ∷ s) [] = false
str_ltb (a ∷ s) (b ∷ t) = ltb a b || a == b && str_ltb s t

unfoldable pub insert_sorted : Str → Str → List (Str × Str) → List (Str × Str)
insert_sorted k v [] = (k, v) ∷ []
insert_sorted k v ((k', v') ∷ m) =
    let rest = insert_sorted k v m in
    if str_eq k' k
    then (k, v) ∷ m
    else if str_ltb k k'
    then (k, v) ∷ (k', v') ∷ m
    else (k', v') ∷ rest

unfoldable pub join : Str → List Str → Str
join sep [] = []
join sep (x ∷ []) = x
join sep (x ∷ y ∷ xs) = x ++ sep ++ join sep (y ∷ xs)

abbrev pub skipped : Str → Bool
skipped k = any (str_eq k) (
    names (
      "mode" ∷ "phase" ∷ "elapsed" ∷ "warn" ∷ "activity" ∷ "branch" ∷ "model" ∷ "tokens" ∷ "cost"
      ∷ []))

unfoldable pub other_parts : List (Str × Str) → List Str
other_parts [] = []
other_parts ((k, v) ∷ m) = let rest = other_parts m in if skipped k then rest else v ∷ rest

unfoldable pub ordered_parts : List Str → List (Str × Str) → List Str
ordered_parts [] m = []
ordered_parts (k ∷ ks) m = elim (lookup str_eq k m) [
  | none ↦ ordered_parts ks m
  | some v ↦ v ∷ ordered_parts ks m
]

unfoldable pub footer_right : Session → Str
footer_right s =
    join (utf8 " · ") (
      ordered_parts (names ("model" ∷ "tokens" ∷ "cost" ∷ [])) s.segments ++ other_parts s.segments)

-- One field of the segments: an empty one is taken away.
unfoldable pub set_segment : Str → Str → Session → Session
set_segment k v s = record s {
  segments = if is_empty v then remove str_eq k s.segments else insert_sorted k v s.segments;
}

unfoldable pub mode_of : Option Str → InputMode
mode_of none = normal
mode_of (some m) =
    if str_eq m (utf8 "plan")
    then planning
    else if any (str_eq m) (names ("auto" ∷ "accept" ∷ "accept-edits" ∷ "accept_edits" ∷ []))
    then accept_edits
    else normal

unfoldable pub is_busy_phase : Option Str → Bool
is_busy_phase none = false
is_busy_phase (some p) =
    any (str_eq p) (names ("thinking" ∷ "streaming" ∷ "tool" ∷ "running" ∷ "working" ∷ []))

abbrev pub branch_of : Option Str → Option Str → Option Str
branch_of none old = old
branch_of (some b) old = if is_empty b then old else some b

-- The turn begins or ends with the phase.
unfoldable pub set_phase : Bool → ℤ → Session → Session
set_phase true now s = became_busy now (record s { phase_busy = true })
set_phase false now s =
    if s.phase_busy then settle now false (record s { phase_busy = false }) else s

-- `StatusUpdate` after its segments are set; `before` is what the footer said.
unfoldable pub status_changed : Str → ℤ → Session → Session
status_changed before now s =
    set_phase (is_busy_phase (lookup str_eq (utf8 "phase") s.segments)) now (record s {
      status_until =
          if str_eq (footer_right s) before then s.status_until else some (now +ℤ footer_show_ms);
      mode = mode_of (lookup str_eq (utf8 "mode") s.segments);
    })

unfoldable pub kind_noun : Kind → Str
kind_noun job = utf8 "job"
kind_noun agent = utf8 "agent"

abbrev pub detail_of : Option Str → Str
detail_of none = []
detail_of (some t) = utf8 " · " ++ t

-- `capitalize` of the two nouns, which are ASCII.
abbrev pub noun_title : Kind → Str
noun_title job = utf8 "Job"
noun_title agent = utf8 "Agent"

unfoldable pub announcement : Transition → Item → Block
announcement started i = notice info (utf8 "Started " ++ kind_noun i.kind ++ utf8 " · " ++ i.title)
announcement finished i = notice success (noun_title i.kind ++ utf8 " finished · " ++ i.title)
announcement failed i =
    notice failure (noun_title i.kind ++ utf8 " failed · " ++ i.title ++ detail_of i.summary)
announcement needs_attention i =
    notice warn (noun_title i.kind ++ utf8 " needs attention · " ++ i.title ++ detail_of i.summary)
announcement Transition.stopped i =
    notice info (utf8 "Stopped " ++ kind_noun i.kind ++ utf8 " · " ++ i.title)

unfoldable pub announce : Transition → Item → Session → Session
announce change i s = push_done (announcement change i) s

unfoldable pub show_list : Session → Session
show_list s =
    send activity_view_changed (view (utf8 "list") none) (record s { browser = some (list 0) })

unfoldable pub open_browser : Session → Session
open_browser s = if is_some s.browser then s else show_list s

-- The item that the browser shows is gone.
unfoldable pub is_lost : Option View → Activity → Bool
is_lost none items = false
is_lost (some v) items = elim (item_id v) [
  | none ↦ false
  | some id ↦ not (is_some (Activity.get items id))
]

unfoldable pub fix_browser : Session → Session
fix_browser s = if is_lost s.browser s.activity then show_list s else s

-- `agent_n.parse::<u32>().unwrap_or(1)`
unfoldable pub agent_number : Str → ℕ
agent_number id = elim (parse_usize (retain is_digit id)) [
  | none ↦ 1
  | some n ↦ if leb n 4294967295 then n else 1
]

-- What the compact region hears of an agent.
unfoldable pub agent_change : Transition → Item → ℤ → Session → Session
agent_change started i now s = record s {
  compact = agent_start (agent_number i.id) i.title now s.compact;
}
agent_change finished i now s = record s {
  compact = agent_done (agent_number i.id) true now s.compact;
}
agent_change Transition.stopped i now s = record s {
  compact = agent_done (agent_number i.id) true now s.compact;
}
agent_change failed i now s = s
agent_change needs_attention i now s = s

abbrev pub is_agent : Kind → Bool
is_agent agent = true
is_agent job = false

unfoldable pub announce_change : Option (Transition × Item) → ℤ → Session → Session
announce_change none now s = s
announce_change (some (change, i)) now s =
    let told = announce change i s in
    if is_agent i.kind then agent_change change i now told else told

unfoldable pub announce_all : List (Transition × Item) → Session → Session
announce_all [] s = s
announce_all ((change, i) ∷ cs) s = announce_all cs (announce change i s)

-- `ActivityRemoved`
unfoldable pub activity_removed : Str → Session → Session
activity_removed id s = fix_browser (record s { activity = Activity.remove id s.activity })

unfoldable pub escape_cell : Str → Str
escape_cell s = replace_str (b'\n' ∷ []) (b' ' ∷ []) (replace_str (b'|' ∷ []) (b'\\' ∷ b'|' ∷ []) s)

unfoldable pub title_markdown : Option Str → Str
title_markdown none = []
title_markdown (some t) = utf8 "**" ++ escape_cell t ++ utf8 "**\n\n"

unfoldable pub repeat : ℕ → Str → Str
repeat zero s = []
repeat (suc n) s = s ++ repeat n s

unfoldable pub rows_markdown : List Str → Str
rows_markdown [] = []
rows_markdown (r ∷ rs) = utf8 "| " ++ r ++ utf8 " |\n" ++ rows_markdown rs

module _ {V : Type 0} (j : Json V) where
  unfoldable pub set_segments : List (Str × V) → Session → Session
  set_segments [] s = s
  set_segments ((k, v) ∷ m) s = set_segments m (set_segment k (unwrap_or [] (j.as_str v)) s)

  abbrev pub find_field : Str → List (Str × V) → Option Str
  find_field k m = elim (lookup str_eq k m) [ none ↦ none | some v ↦ j.as_str v ]

  unfoldable pub segments_read : Option (List (Str × V)) → Session → Session
  segments_read none s = s
  segments_read (some m) s = record (set_segments m s) {
    project_branch = branch_of (find_field (utf8 "branch") m) s.project_branch;
  }

  -- `StatusUpdate`
  unfoldable pub status_update : V → ℤ → Session → Session
  status_update p now s =
      status_changed (footer_right s) now
        (segments_read (get_as j j.as_object p (utf8 "segments")) s)

  -- `ActivityUpdate`
  unfoldable pub activity_update : V → ℤ → Session → Session
  activity_update p now s =
      let (items, change) = upsert j p true s.activity in
      fix_browser (announce_change change now (record s { activity = items }))

  -- `ActivitySnapshot`
  unfoldable pub activity_snapshot : V → Session → Session
  activity_snapshot p s =
      let (items, changes) = snapshot j p s.activity in
      fix_browser (announce_all changes (record s { activity = items }))

  -- `ActivityLog`
  unfoldable pub activity_log : V → Session → Session
  activity_log p s = record s { activity = log_output j p s.activity }

  abbrev pub string_at : V → Str → Str
  string_at p k = unwrap_or [] (get_str j p k)

  -- The name and the label of a column.
  unfoldable pub column_of : V → Str × Str
  column_of c = (
    string_at c (utf8 "name"),
    unwrap_or (string_at c (utf8 "name")) (get_str j c (utf8 "label")),
  )

  unfoldable pub cell_text : V → Str
  cell_text v = elim (j.as_str v) [
    | some t ↦ escape_cell t
    | none ↦ if j.is_null v then [] else escape_cell (j.print v)
  ]

  unfoldable pub cell_of : V → Str × Str → Str
  cell_of row col = elim (j.get row col.0) [ none ↦ [] | some v ↦ cell_text v ]

  unfoldable pub row_of : List (Str × Str) → V → Str
  row_of cols row = join (utf8 " | ") (map (cell_of row) cols)

  abbrev pub elements : V → Str → List V
  elements p k = unwrap_or [] (get_as j j.as_array p k)

  unfoldable pub table_markdown : V → Str
  table_markdown p =
      let cols = map column_of (elements p (utf8 "columns")) in
      title_markdown (get_str j p (utf8 "title"))
      ++ (utf8 "| "
          ++ join (utf8 " | ") (map (λ (c : Str × Str). escape_cell c.1) cols)
          ++ utf8 " |\n")
      ++ (utf8 "|" ++ repeat (max (length cols) 1) (utf8 "---|") ++ utf8 "\n")
      ++ rows_markdown (map (row_of cols) (elements p (utf8 "rows")))

  -- `ShowTable`
  unfoldable pub show_table : V → Session → Session
  show_table p s = push_done (assistant (table_markdown p)) s
