-- ===== src/Session/Printed.antt =====
-- crates/inline/src/session.rs: what a session gives to the terminal loop: the blocks for the scroll
-- history, the time of the next frame, and the events for the host. How a block is drawn is a
-- parameter.
use camouflage.Prelude.{
  ℕ, ◌+◌, ◌-◌, ◌*◌, ◌/◌, ◌%◌, max, Bool, true, false, not, ◌&&◌, ◌||◌, Option, none, some, is_some,
  List, [], ◌∷◌, ◌++◌, map, if◌then◌else◌, is_empty,
}
use camouflage.Prelude.Int.{ℤ, pos, negsuc, ◌+ℤ◌, ◌-ℤ◌, ltb_ℤ, clamp_ℕ}
use camouflage.Text.{Str, is_blank}
use camouflage.Protocol.{EventType}
use camouflage.Blocks.{Block, assistant, reasoning, gap_between}
use camouflage.Activity.{any_active}
use camouflage.Editor.Handle
use camouflage.Session.{Session, Entry, Outbound, Payload, Tone, is_busy, send}
use camouflage.Session.Stream.{split_streaming_paragraphs}
use camouflage.Session.Keys.{ctrl_c_window_ms}

abbrev pub frame_ms : ℕ
frame_ms = 80

abbrev pub unfocused_frame_ms : ℕ
unfocused_frame_ms = 1000

-- A reply without text is not printed, and neither is reasoning that is hidden.
abbrev pub is_shown : Bool → Block → Bool
is_shown reasons (assistant markdown) = not (is_blank markdown)
is_shown reasons (reasoning text) = reasons
is_shown reasons b = true

abbrev pub gap_after : Option Block → Block → Bool
gap_after none b = false
gap_after (some prev) b = gap_between prev b

abbrev pub cons_if {ℓ} : {A : Type ℓ} → Bool → A → List A → List A
cons_if c x xs = if c then x ∷ xs else xs

module _ {L : Type 0} (blank : L) (draw : Block → List L) where
  -- The loop of `take_history`: the lines, the entries that are left, and the block printed last.
  unfoldable pub print_front : Bool → List Entry → Option Block → List L × List Entry × Option Block
  print_front reasons [] prev = ([], [], prev)
  print_front reasons (e ∷ es) prev =
      let shown = is_shown reasons e.block in
      let (lines, held, last) = print_front reasons es (if shown then some e.block else prev) in
      if not e.done
      then ([], e ∷ es, prev)
      else if shown
      then (cons_if (gap_after prev e.block) blank (draw e.block ++ lines), held, last)
      else (lines, held, last)

  abbrev pub with_printed : Session → List L × List Entry × Option Block → List L × Session
  with_printed s (lines, held, last) = (lines, record s { entries = held; last_printed = last })

  unfoldable pub take_history : Session → List L × Session
  take_history s =
      let split = split_streaming_paragraphs s in
      with_printed split (print_front split.show_reasoning split.entries split.last_printed)

  unfoldable pub finish_transcript : Session → List L × Session
  finish_transcript s =
      take_history (record s { entries = map (λ (e : Entry). record e { done = true }) s.entries })

-- `rem_euclid` of a time by a positive number.
abbrev pub rem_euclid : ℤ → ℕ → ℕ
rem_euclid (pos n) k = n % k
rem_euclid (negsuc n) k = k - 1 - n % k

-- The next time after `now` that is a multiple of `k`, and one that is so counted from `since`.
unfoldable pub next_multiple : ℤ → ℕ → ℤ
next_multiple now k = now +ℤ pos k -ℤ pos (rem_euclid now k)

unfoldable pub next_since : ℤ → ℤ → ℕ → ℤ
next_since since now k = since +ℤ pos ((clamp_ℕ (now -ℤ since) / k + 1) * k)

abbrev pub frame_length : Bool → ℕ
frame_length focused = if focused then frame_ms else unfocused_frame_ms

unfoldable pub next_frame : Option ℤ → Bool → ℤ → ℤ
next_frame (some since) focused now = next_since since now (frame_length focused)
next_frame none focused now = next_multiple now (frame_length focused)

-- The closure `want`.
unfoldable pub want : Bool → ℤ → Option ℤ → Option ℤ
want wanted t none = if wanted then some t else none
want wanted t (some n) = some (if wanted && ltb_ℤ t n then t else n)

abbrev pub is_animated : Session → Bool
is_animated s = is_busy s && not (is_some s.prompt) || not (is_empty s.tasks)

abbrev pub foot_until : Option (Str × Tone × ℤ) → Option ℤ
foot_until none = none
foot_until (some (text, tone, until)) = some until

abbrev pub exit_until : Option ℤ → Option ℤ
exit_until none = none
exit_until (some t) = some (t +ℤ ctrl_c_window_ms)

-- A time that is waited for when it is still to come.
unfoldable pub want_until : Bool → Option ℤ → ℤ → Option ℤ → Option ℤ
want_until wanted none now next = next
want_until wanted (some until) now next = want (wanted && ltb_ℤ now until) until next

unfoldable pub next_wakeup : Session → ℤ → Option ℤ
next_wakeup s now =
    let framed = want (is_animated s) (next_frame s.busy_since s.focused now) none in
    let ticked =
      want (is_some s.browser && any_active s.activity) (next_multiple now 1000) framed in
    let status = want_until (not (is_busy s)) s.status_until now ticked in
    want_until true (exit_until s.ctrl_c_at) now (want_until true (foot_until s.foot) now status)

unfoldable pub set_project_context : Str → Str → Session → Session
set_project_context repo branch s = record s {
  project_repo = some repo;
  project_branch = some branch;
}

unfoldable pub resize : ℕ → ℕ → Session → Session
resize width height s = record s { width = max width 20; height = max height 6 }

unfoldable pub set_history : List Str → Session → Session
set_history lines s = record s { editor = Handle.set_history lines s.editor }

unfoldable pub push_outbound : EventType → Payload → Session → Session
push_outbound event_type payload s = send event_type payload s

unfoldable pub take_outbound : Session → List Outbound × Session
take_outbound s = (s.outbound, record s { outbound = [] })
