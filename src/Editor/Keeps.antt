-- ===== src/Editor/Keeps.antt =====
-- `handle` and the other public methods keep the editor valid.
use camouflage.Prelude.{
  ℕ, ◌+◌, ◌≤◌, Bool, true, false, ◌&&◌, Option, none, some, arith, inl, inr, ltb, leb, ◌==◌,
  if◌then◌else◌, Bool-cases, length, is_empty, unwrap_or,
}
use camouflage.Text.{Str}
use camouflage.Text.Utf8.{IsStr}
use camouflage.Text.Boundary.{Boundary, Boundary-within}
use camouflage.Width.{Unicode, IsSegmentation}
use camouflage.Editor.{
  EditKey, text, paste, enter, backspace, delete, left, right, up, down, line_start, line_end,
  kill_to_end, kill_to_start, yank, undo, EditOutcome, changed, Editor,
}
use camouflage.Editor.Motion.{
  prev_grapheme, next_grapheme, word_left, word_right, line_start_of, line_end_of,
}
use camouflage.Editor.Rows.{move_vertical, slice}
use camouflage.Editor.Steps.{
  Boundary-prev_grapheme, Boundary-next_grapheme, Boundary-word_left, Boundary-word_right,
  Boundary-line_start_of, Boundary-line_end_of, Boundary-behind_line, line_start_of-le,
  le-line_end_of,
}
use camouflage.Editor.Valid.{
  IsValid, Holds, moved-IsValid, snapshot-IsValid, insert-IsValid, pop_undo-IsValid,
}
use camouflage.Editor.HandleValid.{
  normalize-IsStr, move_vertical-IsValid, history_prev-IsValid, history_next-IsValid,
  with_kill-IsValid,
}
use camouflage.Editor.Handle.{
  normalize, snapshot, history_prev, history_next, or_else, backspace_from, handle,
}
use camouflage.Editor.Deletions.{
  KeyIsStr, after_snapshot, Boundary-if, IsValid-if, removed-IsValid, chip_before_cursor-Boundary,
  handle_paste-IsValid, handle_enter-IsValid,
}

Boundary-unwrap :
    (s : Str) (d : ℕ) (o : Option ℕ)
    → Boundary s d
    → Holds (Boundary s) o
    → Boundary s (unwrap_or d o)
Boundary-unwrap s d none h k = h
Boundary-unwrap s d (some i) h k = k

module _ (u : Unicode) (seg : IsSegmentation u) {e : Editor} (v : IsValid e) where
  word_or-Boundary :
      (word : Bool)
      → Boundary e.buf (if word then word_left u e.buf e.cur else prev_grapheme u e.buf e.cur)
  word_or-Boundary word =
      Boundary-if e.buf word _ _ (Boundary-word_left u seg e.buf e.cur v.cursor)
        (Boundary-prev_grapheme u seg e.buf e.cur v.cursor)

  word_or_right-Boundary :
      (word : Bool)
      → Boundary e.buf (if word then word_right u e.buf e.cur else next_grapheme u e.buf e.cur)
  word_or_right-Boundary word =
      Boundary-if e.buf word _ _ (Boundary-word_right u seg e.buf e.cur v.cursor)
        (Boundary-next_grapheme u seg e.buf e.cur v.cursor)

  backspace_from-Boundary : (word : Bool) → Boundary e.buf (backspace_from u word e)
  unfolding backspace_from
  backspace_from-Boundary word =
      Boundary-unwrap e.buf _ _ (word_or-Boundary word) (chip_before_cursor-Boundary v)

or_else-IsValid :
    (o : EditOutcome) (m : Option Editor) (r : Editor × EditOutcome)
    → Holds IsValid m
    → IsValid r.0
    → IsValid (or_else o m r).0
unfolding or_else
or_else-IsValid o none r h k = k
or_else-IsValid o (some e) r h k = h

-- Where `KillToEnd` stops: at the end of the line, or behind a newline at the cursor.
abbrev kill_end : Editor → ℕ
kill_end e =
    let stop = line_end_of e.buf e.cur in
    if stop == e.cur && ltb stop (length e.buf) then stop + 1 else stop

kill_end-Boundary :
    (u : Unicode) {e : Editor}
    → IsSegmentation u
    → IsValid e
    → Boundary e.buf (kill_end e) × (e.cur ≤ kill_end e)
kill_end-Boundary u {e} seg v =
    let stop = line_end_of e.buf e.cur in
    let le = le-line_end_of u seg e.buf e.cur v.cursor in
    elim (Bool-cases (stop == e.cur && ltb stop (length e.buf))) [
      | inl h ↦
          rw h
            (Boundary-behind_line u seg e.buf e.cur v.cursor (ground (arith, h)), omega (arith, le))
      | inr h ↦ rw h (Boundary-line_end_of u seg e.buf e.cur v.cursor, le)
    ]

module _ (u : Unicode) (seg : IsSegmentation u) (width : ℕ) {e : Editor} (v : IsValid e) where
  delete-IsValid : (word : Bool) → IsValid (handle u (delete word) width e).0
  unfolding handle
  delete-IsValid word =
      let s = snapshot-IsValid v false in
      IsValid-if (leb (length e.buf) e.cur) _ _ v
        (removed-IsValid s (snapshot false e).cur _ s.cursor (word_or_right-Boundary u seg s word))

  kill_to_end-IsValid : IsValid (handle u kill_to_end width e).0
  unfolding handle
  kill_to_end-IsValid =
      let s = snapshot-IsValid v false in
      let (cut, le) = kill_end-Boundary u seg v in
      let to = kill_end e in
      let (c, k) =
        after_snapshot (λ b c. Boundary b to × IsStr (slice b c to)) false e
          (cut, (Boundary-within e.buf e.cur to le v.cursor cut).after) in
      IsValid-if (to == e.cur) _ _ v
        (with_kill-IsValid (removed-IsValid s (snapshot false e).cur to s.cursor c) _ k)

  kill_to_start-IsValid : IsValid (handle u kill_to_start width e).0
  unfolding handle
  kill_to_start-IsValid =
      let s = snapshot-IsValid v false in
      let from = line_start_of e.buf e.cur in
      let cut = Boundary-line_start_of u seg e.buf e.cur v.cursor in
      let le = line_start_of-le u seg e.buf e.cur v.cursor in
      let (c, k) =
        after_snapshot (λ b c. Boundary b from × IsStr (slice b from c)) false e
          (cut, (Boundary-within e.buf from e.cur le cut v.cursor).after) in
      IsValid-if (from == e.cur) _ _ v (with_kill-IsValid (removed-IsValid s from _ c s.cursor) _ k)

-- Whatever key comes, a valid editor stays valid, if the segmentation cuts a text into texts and the
-- text of the key is well formed.
pub handle-IsValid :
    (u : Unicode) (key : EditKey) (width : ℕ) (e : Editor)
    → IsSegmentation u
    → KeyIsStr key
    → IsValid e
    → IsValid (handle u key width e).0
unfolding handle
handle-IsValid u (text t) width e seg h v =
    IsValid-if (is_empty (normalize t)) _ _ v
      (insert-IsValid (snapshot-IsValid v true) (normalize t) (normalize-IsStr t h))
handle-IsValid u (paste t) width e seg h v = handle_paste-IsValid v t h
handle-IsValid u (enter newline) width e seg h v = handle_enter-IsValid v newline
handle-IsValid u (backspace word) width e seg h v =
    let s = snapshot-IsValid v false in
    IsValid-if (e.cur == 0) _ _ v
      (removed-IsValid s _ _ (backspace_from-Boundary u seg s word) s.cursor)
handle-IsValid u (delete word) width e seg h v = delete-IsValid u seg width v word
handle-IsValid u (left word) width e seg h v = moved-IsValid v (word_or-Boundary u seg v word)
handle-IsValid u (right word) width e seg h v =
    moved-IsValid v (word_or_right-Boundary u seg v word)
handle-IsValid u up width e seg h v =
    or_else-IsValid changed (move_vertical u true e width) (history_prev e)
      (move_vertical-IsValid u seg true width v) (history_prev-IsValid v)
handle-IsValid u down width e seg h v =
    or_else-IsValid changed (move_vertical u false e width) (history_next e)
      (move_vertical-IsValid u seg false width v) (history_next-IsValid v)
handle-IsValid u line_start width e seg h v =
    moved-IsValid v (Boundary-line_start_of u seg e.buf e.cur v.cursor)
handle-IsValid u line_end width e seg h v =
    moved-IsValid v (Boundary-line_end_of u seg e.buf e.cur v.cursor)
handle-IsValid u kill_to_end width e seg h v = kill_to_end-IsValid u seg width v
handle-IsValid u kill_to_start width e seg h v = kill_to_start-IsValid u seg width v
handle-IsValid u yank width e seg h v =
    IsValid-if (is_empty e.kill) _ _ v (insert-IsValid (snapshot-IsValid v false) e.kill v.killed)
handle-IsValid u undo width e seg h v = pop_undo-IsValid v
