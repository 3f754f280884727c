-- ===== src/Session/Valid/Events.antt =====
-- crates/inline/src/session.rs: `apply` keeps a session valid.
use camouflage.Prelude.{
  sym, subst, Bool, true, false, not, ◌&&◌, Option, none, some, is_some, List, [], ◌∷◌,
  if◌then◌else◌, Bool-cases, is_empty, unwrap_or, inl, inr,
}
use camouflage.Prelude.Int.{ℤ}
use camouflage.Ansi.{parse_ansi}
use camouflage.Text.{Str, utf8, str_eq}
use camouflage.Json.{Json, get_as}
use camouflage.Protocol
use camouflage.Protocol.{EventType}
use camouflage.Activity
use camouflage.Activity.{
  Kind, agent, job, Item, Transition, started, finished, failed, needs_attention, Activity,
}
use camouflage.Blocks.{PlanItem}
use camouflage.Compact.{plan}
use camouflage.Compact.Bounds.{agent_start-IsValid, agent_done-IsValid, plan-IsValid}
use camouflage.Session.{Session, Entry, settle, send}
use camouflage.Session.Ask.{Prompt}
use camouflage.Session.Notices
use camouflage.Session.Notices.{set_plan, task_update, welcomed, drop_blank, drop_blank_end}
use camouflage.Session.Status
use camouflage.Session.Status.{
  set_segment, set_segments, segments_read, status_changed, set_phase, is_busy_phase, announcement,
  announce, show_list, open_browser, is_lost, fix_browser, agent_change, announce_change,
  announce_all, is_agent,
}
use camouflage.Session.Keys.{commands_registered, mentions_registered, set_mentions}
use camouflage.Session.Apply
use camouflage.Session.Apply.{apply}
use camouflage.Session.Requests
use camouflage.Session.Still.{ToolDone}
use camouflage.Session.Valid.{
  Kept, Kept-if, Kept-live, Valid, grown-Kept, push_done-Kept, became_busy-Kept,
}
use camouflage.Session.Valid.Streamed.{
  stream_started-Kept, token_delta-Kept, reasoning_delta-Kept, message_completed-Kept,
  user_message-Kept,
}
use camouflage.Session.Valid.Settled.{settle-Valid, open_prompt-Valid}
use camouflage.Session.Valid.Entries.{Kept-Loose}
use camouflage.Session.Valid.Tooled.{
  tool_output-Kept, end_tool-Kept, start_tool-Kept, patch_proposed-Kept,
}
use camouflage.Session.Valid.Finished.{Grows-retain}

announcement-rests : (t : Transition) (i : Item) → ToolDone (announcement t i)
unfolding announcement
announcement-rests started i = tt
announcement-rests finished i = tt
announcement-rests failed i = tt
announcement-rests needs_attention i = tt
announcement-rests Transition.stopped i = tt

module _ {W : Option Prompt → List Prompt → Type 0} where
  welcomed-Kept :
      (title : Str) (detail : List Str) (s : Session) → Kept W s → Kept W (welcomed title detail s)
  unfolding welcomed
  welcomed-Kept title detail s v =
      Kept-if (is_empty title && is_empty detail) s _ v (push_done-Kept _ s tt v)

  splash-Kept : (text : Str) (s : Session) → Kept W s → Kept W (Notices.splash text s)
  unfolding Notices.splash
  splash-Kept text s v =
      Kept-if (is_empty (drop_blank_end (drop_blank (parse_ansi text)))) s _ v
        (push_done-Kept _ s tt v)

  cleared-Kept : (s : Session) → Kept W s → Kept W (Notices.transcript_cleared s)
  unfolding Notices.transcript_cleared
  cleared-Kept s v =
      grown-Kept s s.next_id _ (Grows-retain (λ (e : Entry). not e.done) s.next_id s.entries) v

  set_plan-Kept : (items : List PlanItem) (s : Session) → Kept W s → Kept W (set_plan items s)
  unfolding set_plan
  set_plan-Kept items s v = elim (Bool-cases (is_empty items)) [
    | inl c ↦ rw c v
    | inr c ↦ rw c (Kept-live (plan items s.compact) s (plan-IsValid items s.compact v.live) v)
  ]

  task_update-Kept :
      (state : Option Str) (id label : Str) (s : Session)
      → Kept W s
      → Kept W (task_update state id label s)
  unfolding task_update
  task_update-Kept none id label s v = v
  task_update-Kept (some state) id label s v = elim (Bool-cases (str_eq state (utf8 "running"))) [
    | inl c ↦ rw c v
    | inr c ↦ rw c (elim (Bool-cases (str_eq state (utf8 "error"))) [
      | inl d ↦ rw d (push_done-Kept _ _ tt v)
      | inr d ↦ rw d v
    ])
  ]

  announce-Kept : (t : Transition) (i : Item) (s : Session) → Kept W s → Kept W (announce t i s)
  unfolding announce
  announce-Kept t i s v = push_done-Kept (announcement t i) s (announcement-rests t i) v

  agent_change-Kept :
      (t : Transition) (i : Item) (now : ℤ) (s : Session)
      → Kept W s
      → Kept W (agent_change t i now s)
  unfolding agent_change
  agent_change-Kept started i now s v = Kept-live _ s (agent_start-IsValid _ _ now _ v.live) v
  agent_change-Kept finished i now s v = Kept-live _ s (agent_done-IsValid _ true now _ v.live) v
  agent_change-Kept failed i now s v = v
  agent_change-Kept needs_attention i now s v = v
  agent_change-Kept Transition.stopped i now s v =
      Kept-live _ s (agent_done-IsValid _ true now _ v.live) v

  announce_change-Kept :
      (o : Option (Transition × Item)) (now : ℤ) (s : Session)
      → Kept W s
      → Kept W (announce_change o now s)
  unfolding announce_change
  announce_change-Kept none now s v = v
  announce_change-Kept (some (t, i)) now s v =
      Kept-if (is_agent i.kind) (agent_change t i now (announce t i s)) (announce t i s)
        (agent_change-Kept t i now _ (announce-Kept t i s v)) (announce-Kept t i s v)

  announce_all-Kept :
      (cs : List (Transition × Item)) (s : Session) → Kept W s → Kept W (announce_all cs s)
  unfolding announce_all
  announce_all-Kept [] s v = v
  announce_all-Kept ((t, i) ∷ cs) s v = announce_all-Kept cs _ (announce-Kept t i s v)

  fix_browser-Kept : (s : Session) → Kept W s → Kept W (fix_browser s)
  unfolding fix_browser show_list send
  fix_browser-Kept s v = elim (Bool-cases (is_lost s.browser s.activity)) [
    | inl c ↦ rw c v
    | inr c ↦ rw c v
  ]

  pub open_browser-Kept : (s : Session) → Kept W s → Kept W (open_browser s)
  unfolding open_browser show_list send
  open_browser-Kept s v = elim (Bool-cases (is_some s.browser)) [ inl c ↦ rw c v | inr c ↦ rw c v ]

  set_mentions-Kept :
      (o : Option Str) (tokens : List Str) (s : Session)
      → Kept W s
      → Kept W (set_mentions o tokens s)
  unfolding set_mentions
  set_mentions-Kept none tokens s v = v
  set_mentions-Kept (some d) tokens s v = v

set_phase-Valid : (busy : Bool) (now : ℤ) (s : Session) → Valid s → Valid (set_phase busy now s)
unfolding set_phase
set_phase-Valid true now s v = became_busy-Kept now _ v
set_phase-Valid false now s v = elim (Bool-cases s.phase_busy) [
  | inl c ↦
      subst (λ b. Valid (if b then settle now false (record s { phase_busy = false }) else s))
        (sym c) (settle-Valid now false (record s { phase_busy = false }) (Kept-Loose s v))
  | inr c ↦
      subst (λ b. Valid (if b then settle now false (record s { phase_busy = false }) else s))
        (sym c) v
]

status_changed-Valid :
    (before : Str) (now : ℤ) (s : Session) → Valid s → Valid (status_changed before now s)
unfolding status_changed
status_changed-Valid before now s v = set_phase-Valid _ now _ v

module _ {V : Type 0} (j : Json V) where
  set_segments-Kept :
      {W : Option Prompt → List Prompt → Type 0} (m : List (Str × V)) (s : Session)
      → Kept W s
      → Kept W (set_segments j m s)
  unfolding set_segments set_segment
  set_segments-Kept [] s v = v
  set_segments-Kept ((k, x) ∷ m) s v = set_segments-Kept m _ v

  segments_read-Kept :
      {W : Option Prompt → List Prompt → Type 0} (o : Option (List (Str × V))) (s : Session)
      → Kept W s
      → Kept W (segments_read j o s)
  unfolding segments_read
  segments_read-Kept none s v = v
  segments_read-Kept (some m) s v = set_segments-Kept m s v

  status_update-Valid :
      (p : V) (now : ℤ) (s : Session) → Valid s → Valid (Status.status_update j p now s)
  unfolding Status.status_update
  status_update-Valid p now s v = status_changed-Valid _ now _ (segments_read-Kept _ s v)

  session_started-Valid : (p : V) (s : Session) → Valid s → Valid (Notices.session_started j p s)
  unfolding Notices.session_started
  session_started-Valid p s v =
      Kept-if (unwrap_or false (get_as j j.as_bool p (utf8 "synthetic"))) s _ v
        (welcomed-Kept _ _ _ v)

  pub activity_update-Kept :
      {W : Option Prompt → List Prompt → Type 0} (p : V) (now : ℤ) (s : Session)
      → Kept W s
      → Kept W (Status.activity_update j p now s)
  unfolding Status.activity_update
  activity_update-Kept p now s v =
      fix_browser-Kept _ (announce_change-Kept (Activity.upsert j p true s.activity).1 now _ v)

  pub activity_snapshot-Kept :
      {W : Option Prompt → List Prompt → Type 0} (p : V) (s : Session)
      → Kept W s
      → Kept W (Status.activity_snapshot j p s)
  unfolding Status.activity_snapshot
  activity_snapshot-Kept p s v =
      fix_browser-Kept _ (announce_all-Kept (Activity.snapshot j p s.activity).1 _ v)

  -- An event of the host keeps a session valid.
  pub apply-Valid :
      (capitalize : Str → Str) (event_type : EventType) (p : V) (now : ℤ) (s : Session)
      → Valid s
      → Valid (apply j capitalize event_type p now s)
  unfolding apply Apply.tool_started Apply.tool_finished Apply.proposed Notices.session_compacted
      Notices.runtime_error Notices.todo_list_update Notices.background_task_update
      Notices.cancel_received Requests.permission_requested Requests.show_select_list
      Requests.show_confirm Requests.show_form Status.show_table Status.show_toast
      Status.activity_log Status.activity_removed commands_registered mentions_registered
  apply-Valid capitalize Protocol.session_started p now s v = session_started-Valid p s v
  apply-Valid capitalize Protocol.session_ended p now s v = v
  apply-Valid capitalize Protocol.session_status p now s v = v
  apply-Valid capitalize Protocol.user_message_created p now s v = user_message-Kept _ s v
  apply-Valid capitalize Protocol.assistant_stream_started p now s v = stream_started-Kept _ now s v
  apply-Valid capitalize Protocol.assistant_token_delta p now s v = token_delta-Kept _ _ now s v
  apply-Valid capitalize Protocol.assistant_message_completed p now s v =
      message_completed-Kept _ _ s v
  apply-Valid capitalize Protocol.tool_execution_started p now s v =
      start_tool-Kept _ _ _ _ _ now s v
  apply-Valid capitalize Protocol.tool_execution_stdout p now s v = tool_output-Kept _ _ s v
  apply-Valid capitalize Protocol.tool_execution_stderr p now s v = tool_output-Kept _ _ s v
  apply-Valid capitalize Protocol.tool_execution_finished p now s v = end_tool-Kept _ _ now s v
  apply-Valid capitalize Protocol.patch_proposed p now s v = patch_proposed-Kept _ _ _ now s v
  apply-Valid capitalize Protocol.patch_applied p now s v = v
  apply-Valid capitalize Protocol.permission_requested p now s v =
      open_prompt-Valid _ s (Kept-Loose s v)
  apply-Valid capitalize Protocol.permission_granted p now s v = v
  apply-Valid capitalize Protocol.permission_denied p now s v = v
  apply-Valid capitalize Protocol.runtime_error p now s v = push_done-Kept _ s tt v
  apply-Valid capitalize Protocol.session_compacted p now s v = push_done-Kept _ s tt v
  apply-Valid capitalize Protocol.viewport_marker p now s v = v
  apply-Valid capitalize Protocol.status_update p now s v = status_update-Valid p now s v
  apply-Valid capitalize Protocol.background_task_update p now s v = task_update-Kept _ _ _ s v
  apply-Valid capitalize Protocol.todo_list_update p now s v = set_plan-Kept _ s v
  apply-Valid capitalize Protocol.user_input_submitted p now s v = v
  apply-Valid capitalize Protocol.permission_response p now s v = v
  apply-Valid capitalize Protocol.slash_commands_registered p now s v = v
  apply-Valid capitalize Protocol.mention_candidates_registered p now s v =
      set_mentions-Kept _ _ s v
  apply-Valid capitalize Protocol.show_select_list p now s v =
      open_prompt-Valid _ s (Kept-Loose s v)
  apply-Valid capitalize Protocol.select_list_response p now s v = v
  apply-Valid capitalize Protocol.show_confirm p now s v = open_prompt-Valid _ s (Kept-Loose s v)
  apply-Valid capitalize Protocol.confirm_response p now s v = v
  apply-Valid capitalize Protocol.show_table p now s v = push_done-Kept _ s tt v
  apply-Valid capitalize Protocol.show_key_value_view p now s v = push_done-Kept _ s tt v
  apply-Valid capitalize Protocol.show_form p now s v = v
  apply-Valid capitalize Protocol.form_response p now s v = v
  apply-Valid capitalize Protocol.show_wizard p now s v = v
  apply-Valid capitalize Protocol.wizard_completed p now s v = v
  apply-Valid capitalize Protocol.wizard_cancelled p now s v = v
  apply-Valid capitalize Protocol.mode_change_requested p now s v = v
  apply-Valid capitalize Protocol.cancel_requested p now s v =
      settle-Valid now true s (Kept-Loose s v)
  apply-Valid capitalize Protocol.transcript_cleared p now s v = cleared-Kept s v
  apply-Valid capitalize Protocol.splash p now s v = splash-Kept _ s v
  apply-Valid capitalize Protocol.show_toast p now s v = v
  apply-Valid capitalize Protocol.mention_query p now s v = v
  apply-Valid capitalize Protocol.assistant_reasoning_delta p now s v =
      reasoning_delta-Kept _ _ now s v
  apply-Valid capitalize Protocol.terminal_suspend p now s v = v
  apply-Valid capitalize Protocol.terminal_resume p now s v = v
  apply-Valid capitalize Protocol.terminal_suspended p now s v = v
  apply-Valid capitalize Protocol.activity_update p now s v = activity_update-Kept p now s v
  apply-Valid capitalize Protocol.activity_log p now s v = v
  apply-Valid capitalize Protocol.activity_removed p now s v = fix_browser-Kept _ v
  apply-Valid capitalize Protocol.activity_snapshot p now s v = activity_snapshot-Kept p s v
  apply-Valid capitalize Protocol.activity_browser_open p now s v = open_browser-Kept s v
  apply-Valid capitalize Protocol.activity_stop_requested p now s v = v
  apply-Valid capitalize Protocol.activity_view_changed p now s v = v
