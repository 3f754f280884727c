-- ===== src/Session/Valid/Finished.antt =====
-- crates/inline/src/session.rs: what a finished tool leaves in its block, the plan and the entries.
use camouflage.Prelude.{
  ℕ, ◌≡◌, refl, sym, ap, subst, ◌∙◌, Bool, false, not, ◌&&◌, Option, none, some, List, [], ◌∷◌,
  ◌==◌, ==_refl, Bool-cases, any, retain, All, arith, inl, inr, true,
}
use camouflage.Prelude.Int.{ℤ}
use camouflage.Text.{Str, str_eq}
use camouflage.Blocks.{
  ToolBlock, is_running, DiffLine, Block, welcome, user, assistant, reasoning, tool, plan, notice,
  custom, group,
}
use camouflage.Session.{Session, Entry, find_block, update_entry}
use camouflage.Session.Maps.{remove}
use camouflage.Session.Notices.{change_tool_of, change_tool}
use camouflage.Session.Stream.Updates.{find_block-update_entry, changed_if, map_block}
use camouflage.Session.Tools.{
  push_tool, Finish, finish_tool, finish_status, with_diff, drop_plan_row, tell_compact, preview_of,
  is_error, tool_in,
}
use camouflage.Compact.{CompactState}
use camouflage.Compact.Bounds.{IsValid, push_code_preview-IsValid}
use camouflage.Session.Still.{Consistent}
use camouflage.Session.Valid.{Grows, Mild, Rests}

pub Grows-retain : (keep : Entry → Bool) (n : ℕ) (es : List Entry) → Grows n es n (retain keep es)
Grows-retain keep n es = record {
  below = ground arith;
  fresh = kept _ es;
  consistent = kept Consistent es;
  tells = λ id l. kept _ es;
}
  where
    kept : (P : Entry → Type 0) (es : List Entry) → All P es → All P (retain keep es)
    kept P [] h = tt
    kept P (e ∷ es) h = elim (Bool-cases (keep e)) [
      | inl c ↦ rw c (h.0, kept P es h.1)
      | inr c ↦ rw c (kept P es h.1)
    ]

pub push_tool-Mild : (t : ToolBlock) → Mild (push_tool t)
push_tool-Mild t (tool u) = (refl, λ h. h)
push_tool-Mild t (group g) = (refl, λ h. h)
push_tool-Mild t (welcome u d) = (refl, λ h. h)
push_tool-Mild t (user u) = (refl, λ h. h)
push_tool-Mild t (assistant u) = (refl, λ h. h)
push_tool-Mild t (reasoning u) = (refl, λ h. h)
push_tool-Mild t (plan i l) = (refl, λ h. h)
push_tool-Mild t (notice k u) = (refl, λ h. h)
push_tool-Mild t (custom l) = (refl, λ h. h)

-- A change of a tool that starts none.
abbrev pub Calm : (ToolBlock → ToolBlock) → Type 0
Calm f = (t : ToolBlock) → is_running t.status ≡ false → is_running (f t).status ≡ false

pub change_tool_of-Mild :
    (idx : Option ℕ) (f : ToolBlock → ToolBlock) → Calm f → Mild (change_tool_of idx f)
unfolding change_tool_of
change_tool_of-Mild none f c (tool t) = (refl, c t)
change_tool_of-Mild (some i) f c (tool t) = (refl, λ h. h)
change_tool_of-Mild none f c (group g) = (refl, λ h. h)
change_tool_of-Mild (some i) f c (group g) = (refl, λ h. h)
change_tool_of-Mild none f c (welcome u d) = (refl, λ h. h)
change_tool_of-Mild (some i) f c (welcome u d) = (refl, λ h. h)
change_tool_of-Mild none f c (user u) = (refl, λ h. h)
change_tool_of-Mild (some i) f c (user u) = (refl, λ h. h)
change_tool_of-Mild none f c (assistant u) = (refl, λ h. h)
change_tool_of-Mild (some i) f c (assistant u) = (refl, λ h. h)
change_tool_of-Mild none f c (reasoning u) = (refl, λ h. h)
change_tool_of-Mild (some i) f c (reasoning u) = (refl, λ h. h)
change_tool_of-Mild none f c (plan i l) = (refl, λ h. h)
change_tool_of-Mild (some i) f c (plan is l) = (refl, λ h. h)
change_tool_of-Mild none f c (notice k u) = (refl, λ h. h)
change_tool_of-Mild (some i) f c (notice k u) = (refl, λ h. h)
change_tool_of-Mild none f c (custom l) = (refl, λ h. h)
change_tool_of-Mild (some i) f c (custom l) = (refl, λ h. h)

finish_status-rests :
    (status : Option Str) (exit : Option ℤ) → is_running (finish_status status exit) ≡ false
unfolding finish_status
finish_status-rests none exit = ground arith
finish_status-rests (some s) exit = ground arith

with_diff-rests :
    (d : Option (Option (Str × List DiffLine))) (t : ToolBlock)
    → is_running t.status ≡ false
    → is_running (with_diff d t).status ≡ false
unfolding with_diff
with_diff-rests none t h = h
with_diff-rests (some d) t h = h

pub finish_tool-rests :
    (fin : Finish) (now : ℤ) (t : ToolBlock) → is_running (finish_tool fin now t).status ≡ false
unfolding finish_tool
finish_tool-rests fin now t = with_diff-rests fin.diff _ (finish_status-rests fin.status fin.exit)

-- A tool that finished rests where it has an entry of its own.
finished-Rests :
    (f : ToolBlock → ToolBlock)
    → ((t : ToolBlock) → is_running (f t).status ≡ false)
    → (o : Option Block) → Rests (map_block (change_tool_of none f) o)
unfolding change_tool_of
finished-Rests f h none = tt
finished-Rests f h (some (tool t)) = h t
finished-Rests f h (some (group g)) = tt
finished-Rests f h (some (welcome t d)) = tt
finished-Rests f h (some (user t)) = tt
finished-Rests f h (some (assistant t)) = tt
finished-Rests f h (some (reasoning t)) = tt
finished-Rests f h (some (plan i l)) = tt
finished-Rests f h (some (notice k t)) = tt
finished-Rests f h (some (custom l)) = tt

retain-none :
    (id : ℕ) (es : List Entry) → find_block id (retain (λ (e : Entry). not (e.id == id)) es) ≡ none
unfolding find_block
retain-none id [] = refl
retain-none id (e ∷ es) = elim (Bool-cases (e.id == id)) [
  | inl c ↦ rw c (retain-none id es)
  | inr c ↦ rw c (rw (retain-none id es) (rw c refl))
]

pub drop_plan_row-Rests :
    (id : ℕ) (failed : Bool) (s : Session)
    → Rests (find_block id s.entries)
    → Rests (find_block id (drop_plan_row id failed s).entries)
unfolding drop_plan_row
drop_plan_row-Rests id failed s r =
    elim (Bool-cases (any (λ r. r == id) s.plan_rows && s.plan_seen && not failed)) [
      | inl c ↦ rw c (subst Rests (sym (retain-none id s.entries)) tt)
      | inr c ↦ rw c r
    ]

change_tool-Rests :
    (id : ℕ) (f : ToolBlock → ToolBlock) (s : Session)
    → ((t : ToolBlock) → is_running (f t).status ≡ false)
    → Rests (find_block id (change_tool id none f s).entries)
unfolding change_tool
change_tool-Rests id f s h = subst Rests (sym found) (finished-Rests f h (find_block id s.entries))
  where
    found :
        find_block id (
          update_entry id
            (λ (e : Entry). record e { block = change_tool_of none f e.block })
            s.entries)
        ≡ map_block (change_tool_of none f) (find_block id s.entries)
    found =
        find_block-update_entry (change_tool_of none f)
          (λ (e : Entry). record e { block = change_tool_of none f e.block })
          (record { id_is = λ e. refl; block_is = λ e. refl }) id id s.entries
        ∙ ap (λ b. changed_if (change_tool_of none f) b (find_block id s.entries)) (==_refl id)

-- The session after the change of the tool, as the compact region has heard of it.
abbrev pub told : ℕ → Option ℕ → Str → Finish → ℤ → Session → Session
told id idx tid fin now s =
    let changed =
      change_tool id idx (finish_tool fin now) (record s { tools = remove str_eq tid s.tools }) in
    tell_compact tid (not (is_error (finish_status fin.status fin.exit)))
      (tool_in idx (find_block id changed.entries)) now changed

pub told-Rests :
    (id : ℕ) (tid : Str) (fin : Finish) (now : ℤ) (s : Session)
    → Rests (find_block id (told id none tid fin now s).entries)
unfolding tell_compact
told-Rests id tid fin now s =
    change_tool-Rests id (finish_tool fin now) (record s { tools = remove str_eq tid s.tools })
      (finish_tool-rests fin now)

pub preview_of-IsValid :
    (fine : Bool) (diff : Option (Str × List DiffLine)) (now : ℤ) (c : CompactState)
    → IsValid c
    → IsValid (preview_of fine diff now c)
unfolding preview_of
preview_of-IsValid true (some (path, lines)) now c v = push_code_preview-IsValid _ _ now c v
preview_of-IsValid true none now c v = v
preview_of-IsValid false (some d) now c v = v
preview_of-IsValid false none now c v = v
