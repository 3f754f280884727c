-- ===== src/Session/Valid/Tooled.antt =====
-- crates/inline/src/session.rs: the start, the output and the finish of a tool keep a session valid.
use camouflage.Prelude.{
  ℕ, refl, Bool, false, not, ◌&&◌, ◌||◌, Option, none, some, is_some, List, ◌==◌, Bool-cases, any,
  arith, inl, inr, true, if◌then◌else◌, is_empty,
}
use camouflage.Prelude.Int.{ℤ}
use camouflage.Text.{Str, str_eq}
use camouflage.Blocks.{
  ToolBlock, tool_block, GroupBlock, DiffLine, tool, group, run_label, is_plan_update,
}
use camouflage.Shell.{explore_kind_of}
use camouflage.Session.{Session, close_group, became_busy}
use camouflage.Session.Ask.{Prompt}
use camouflage.Session.Maps.{lookup, remove}
use camouflage.Session.Notices.{change_tool_of, change_tool, tool_output, tool_output_at}
use camouflage.Session.Tools.{
  single_tool, plan_tool, open_run, push_tool, join_or_open, run_of, open_block, run_tool, act,
  start_tool, Finish, finish_tool, finish_status, drop_plan_row, finish_place, end_tool_at,
  end_tool, patch_proposed, tell_compact, read_kind, is_error, new_group,
}
use camouflage.Session.Requests.{or_else}
use camouflage.Compact
use camouflage.Compact.{CompactState, push_code_preview}
use camouflage.Compact.Bounds.{
  IsValid, tool_started-IsValid, tool_finished-IsValid, push_code_preview-IsValid,
}
use camouflage.Session.Valid.{
  Kept, Kept-if, Kept-live, grown-Kept, Grows-update_entry, finish-Kept, finish_group-Kept,
  push-Kept, push_quiet-Kept, push_done-Kept, became_busy-Kept, close_group-Kept,
}
use camouflage.Session.Valid.Streamed.{change_block-Kept}
use camouflage.Session.Valid.Finished.{
  Grows-retain, push_tool-Mild, Calm, change_tool_of-Mild, finish_tool-rests, drop_plan_row-Rests,
  told, told-Rests, preview_of-IsValid,
}

module _ {W : Option Prompt → List Prompt → Type 0} where
  change_tool-Kept :
      (id : ℕ) (idx : Option ℕ) (f : ToolBlock → ToolBlock) (s : Session)
      → Calm f
      → Kept W s
      → Kept W (change_tool id idx f s)
  unfolding change_tool
  change_tool-Kept id idx f s c v =
      grown-Kept s s.next_id _
        (Grows-update_entry (change_tool_of idx f) id s.next_id s.entries
          (change_tool_of-Mild idx f c))
        v

  pub tool_output-Kept :
      (tid chunk : Str) (s : Session) → Kept W s → Kept W (tool_output tid chunk s)
  unfolding tool_output tool_output_at
  tool_output-Kept tid chunk s v = at (lookup str_eq tid s.tools)
    where
      at : (o : Option (ℕ × Option ℕ)) → Kept W (tool_output_at o chunk s)
      at none = v
      at (some (id, idx)) = change_tool-Kept id idx _ s (λ t h. h) v

  drop_plan_row-Kept :
      (id : ℕ) (failed : Bool) (s : Session) → Kept W s → Kept W (drop_plan_row id failed s)
  unfolding drop_plan_row
  drop_plan_row-Kept id failed s v =
      elim (Bool-cases (any (λ r. r == id) s.plan_rows && s.plan_seen && not failed)) [
        | inl c ↦ rw c (grown-Kept s s.next_id _ (Grows-retain _ s.next_id s.entries) v)
        | inr c ↦ rw c v
      ]

  told-Kept :
      (id : ℕ) (idx : Option ℕ) (tid : Str) (fin : Finish) (now : ℤ) (s : Session)
      → Kept W s
      → Kept W (told id idx tid fin now s)
  unfolding tell_compact
  told-Kept id idx tid fin now s v =
      Kept-live _ changed
        (preview_of-IsValid _ _ now _
          (tool_finished-IsValid tid _ _ _ _ now changed.compact changed-is.live))
        changed-is
    where
      changed : Session
      changed =
          change_tool id idx (finish_tool fin now) (record s { tools = remove str_eq tid s.tools })

      changed-is : Kept W changed
      changed-is =
          change_tool-Kept id idx (finish_tool fin now)
            (record s { tools = remove str_eq tid s.tools }) (λ t h. finish_tool-rests fin now t) v

  end_tool_at-Kept :
      (o : Option (ℕ × Option ℕ)) (tid : Str) (fin : Finish) (now : ℤ) (s : Session)
      → Kept W s
      → Kept W (end_tool_at o tid fin now s)
  unfolding end_tool_at finish_place
  end_tool_at-Kept none tid fin now s v = v
  end_tool_at-Kept (some (id, some i)) tid fin now s v =
      finish_group-Kept id _ (drop_plan_row-Kept id _ _ (told-Kept id (some i) tid fin now s v))
  end_tool_at-Kept (some (id, none)) tid fin now s v =
      finish-Kept id _
        (drop_plan_row-Rests id (is_error (finish_status fin.status fin.exit))
          (told id none tid fin now s) (told-Rests id tid fin now s))
        (drop_plan_row-Kept id _ _ (told-Kept id none tid fin now s v))

  pub end_tool-Kept :
      (tid : Str) (fin : Finish) (now : ℤ) (s : Session)
      → Kept W s
      → Kept W (end_tool tid fin now s)
  unfolding end_tool
  end_tool-Kept tid fin now s v = end_tool_at-Kept _ tid fin now s v

  single_tool-Kept :
      (tid : Str) (t : ToolBlock) (s : Session) → Kept W s → Kept W (single_tool tid t s)
  unfolding single_tool
  single_tool-Kept tid t s v = push-Kept (tool t) false s (λ d. absurd (ground (arith, d))) v

  plan_tool-Kept : (tid : Str) (t : ToolBlock) (s : Session) → Kept W s → Kept W (plan_tool tid t s)
  unfolding plan_tool
  plan_tool-Kept tid t s v = push_quiet-Kept (tool t) false s (λ d. absurd (ground (arith, d))) v

  open_run-Kept :
      (tid : Str) (label : Option Str) (t : ToolBlock) (s : Session)
      → Kept W s
      → Kept W (open_run tid label t s)
  unfolding open_run
  open_run-Kept tid label t s v =
      push-Kept (group (new_group label t)) false (close_group s) (λ d. tt) (close_group-Kept s v)

  run_tool-Kept :
      (tid : Str) (label : Option Str) (t : ToolBlock) (s : Session)
      → Kept W s
      → Kept W (run_tool tid label t s)
  unfolding run_tool join_or_open
  run_tool-Kept tid label t s v = at (run_of label s.open_group (open_block s.open_group s.entries))
    where
      at : (o : Option (ℕ × GroupBlock)) → Kept W (join_or_open o tid label t s)
      at none = open_run-Kept tid label t s v
      at (some (gid, g)) = change_block-Kept (push_tool t) gid s (push_tool-Mild t) v

  act-Kept :
      (tid : Str) (read_only : Option Bool) (t : ToolBlock) (s : Session)
      → Kept W s
      → Kept W (act tid read_only t s)
  unfolding act
  act-Kept tid read_only t s v =
      Kept-if (is_some kind || is_some (run_label t.name)) (run_tool tid (run_label t.name) t' s)
        (single_tool tid t' s) (run_tool-Kept tid (run_label t.name) t' s v)
        (single_tool-Kept tid t' s v)
    where
      kind : Option Str
      kind = read_kind read_only (explore_kind_of t.name t.args)

      t' : ToolBlock
      t' = record t { explore = kind }

  pub start_tool-Kept :
      (tid name args : Str) (started : Option ℤ) (read_only : Option Bool) (now : ℤ) (s : Session)
      → Kept W s
      → Kept W (start_tool tid name args started read_only now s)
  unfolding start_tool
  start_tool-Kept tid name args started read_only now s v =
      Kept-if (is_plan_update name) (plan_tool tid t (became_busy now s))
        (act tid read_only t noted) (plan_tool-Kept tid t _ (became_busy-Kept now s v))
        (act-Kept tid read_only t noted (
          Kept-live _ (became_busy now s)
            (tool_started-IsValid tid name args now _ (became_busy-Kept now s v).live)
            (became_busy-Kept now s v)))
    where
      t : ToolBlock
      t = record (tool_block name args) { started_at_ms = or_else started (some now) }

      noted : Session
      noted = record (became_busy now s) {
        compact = Compact.tool_started tid name args now (became_busy now s).compact;
      }

  pub patch_proposed-Kept :
      (path : Str) (lines : List DiffLine) (given : ℕ × ℕ) (now : ℤ) (s : Session)
      → Kept W s
      → Kept W (patch_proposed path lines given now s)
  unfolding patch_proposed
  patch_proposed-Kept path lines given now s v =
      push_done-Kept _ _ refl (Kept-live previewed s (kept (is_empty lines)) v)
    where
      previewed : CompactState
      previewed = if is_empty lines then s.compact else push_code_preview path lines now s.compact

      kept :
          (b : Bool) → IsValid (if b then s.compact else push_code_preview path lines now s.compact)
      kept true = v.live
      kept false = push_code_preview-IsValid path lines now s.compact v.live
