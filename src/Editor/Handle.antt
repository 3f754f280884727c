-- ===== src/Editor/Handle.antt =====
-- The methods of `Editor` that change it, up to `handle`.
use camouflage.Prelude.{
  ℕ, zero, suc, ◌+◌, ◌-◌, Bool, true, false, not, ◌&&◌, ◌||◌, Option, none, some, unwrap_or, List,
  [], ◌∷◌, ◌++◌, ltb, leb, ◌==◌, if◌then◌else◌, length, take, drop, is_empty, get_or, last?, min,
}
use camouflage.Text.{Str, replace_str, is_blank, ends_with, str_eq, char_count, starts_char}
use camouflage.Width.{Unicode}
use camouflage.Editor.{
  EditKey, text, paste, enter, backspace, delete, left, right, up, down, line_start, line_end,
  kill_to_end, kill_to_start, yank, undo, EditOutcome, changed, submit, Editor, max_history,
  max_undo, paste_lines, paste_chars,
}
use camouflage.Editor.Motion.{
  prev_grapheme, next_grapheme, word_left, word_right, line_start_of, line_end_of,
}
use camouflage.Editor.Rows.{move_vertical, slice}
use camouflage.Editor.Chips.{expand_chips, chip_before_cursor, chip, line_count}

-- `buf.replace_range(a..b, t)`
abbrev pub replace_range : Str → ℕ → ℕ → Str → Str
replace_range buf a b t = take a buf ++ t ++ drop b buf

-- `Vec::push`, where `remove(0)` keeps the length within a limit.
abbrev pub push_capped {ℓ} : {A : Type ℓ} → ℕ → List A → A → List A
push_capped limit xs x =
    let pushed = xs ++ x ∷ [] in if ltb limit (length pushed) then drop 1 pushed else pushed

-- "\r\n" and "\r" become "\n".
unfoldable pub normalize : Str → Str
normalize t =
    replace_str (b'\r' ∷ []) (b'\n' ∷ []) (replace_str (b'\r' ∷ b'\n' ∷ []) (b'\n' ∷ []) t)

unfoldable pub snapshot : Bool → Editor → Editor
snapshot typing e =
    if typing && e.typing
    then e
    else record e { typing = typing; undo_stack = push_capped max_undo e.undo_stack (e.buf, e.cur) }

unfoldable pub insert : Str → Editor → Editor
insert t e = record e { buf = replace_range e.buf e.cur e.cur t; cur = e.cur + length t }

-- `set_text` and `set_history` are called from outside; `replace_before_cursor` and `clear` too.
unfoldable pub set_text : Str → Editor → Editor
set_text t e = record (snapshot false e) { buf = t; cur = length t }

unfoldable pub set_history : List Str → Editor → Editor
set_history h e = record e { history = h; hist_idx = none }

unfoldable pub replace_before_cursor : ℕ → Str → Editor → Editor
replace_before_cursor from t e =
    let at = min from e.cur in
    if starts_char (drop at e.buf)
    then record (snapshot false e) { buf = replace_range e.buf at e.cur t; cur = at + length t }
    else e

unfoldable pub clear : Editor → Editor
clear e = record (if is_empty e.buf then e else snapshot false e) {
  buf = [];
  cur = 0;
  hist_idx = none;
  draft = none;
}

-- `replace_range(from..to, "")`, with the cursor left at `from`.
abbrev pub remove_range : ℕ → ℕ → Editor → Editor
remove_range from to e = record e { buf = replace_range e.buf from to []; cur = from }

unfoldable pub differs_from_last : Option Str → Str → Bool
differs_from_last none s = true
differs_from_last (some l) s = not (str_eq l s)

unfoldable pub submit_buffer : Editor → Editor × EditOutcome
submit_buffer e =
    let kept =
      if differs_from_last (last? e.history) e.buf
      then push_capped max_history e.history e.buf
      else e.history in
    if is_blank e.buf then (e, EditOutcome.none) else (
      record e {
        buf = [];
        cur = 0;
        history = kept;
        hist_idx = none;
        draft = none;
        undo_stack = [];
        typing = false;
      },
      submit (expand_chips e e.buf) e.buf,
    )

-- Go to entry `i`; `history[i]` exists, by the editor's invariant.
abbrev pub recall : ℕ → Editor → Editor
recall i e =
    let entry = get_or e.history i [] in
    record e { hist_idx = some i; buf = entry; cur = length entry }

unfoldable pub prev_from : Option ℕ → Editor → Editor × EditOutcome
prev_from none e = (recall (length e.history - 1) (record e { draft = some e.buf }), changed)
prev_from (some zero) e = (e, EditOutcome.none)
prev_from (some (suc i)) e = (recall i e, changed)

unfoldable pub history_prev : Editor → Editor × EditOutcome
history_prev e = if is_empty e.history then (e, EditOutcome.none) else prev_from e.hist_idx e

unfoldable pub next_from : Option ℕ → Editor → Editor × EditOutcome
next_from none e = (e, EditOutcome.none)
next_from (some i) e =
    let draft = unwrap_or [] e.draft in
    if ltb (i + 1) (length e.history)
    then (recall (i + 1) e, changed)
    else (record e { hist_idx = none; buf = draft; cur = length draft; draft = none }, changed)

unfoldable pub history_next : Editor → Editor × EditOutcome
history_next e = next_from e.hist_idx e

-- `undo.pop()`
abbrev pub pop_last {ℓ} : {A : Type ℓ} → List A → Option (List A × A)
pop_last [] = none
pop_last (x ∷ xs) = elim (pop_last xs) [
  | none ↦ some ([], x)
  | some (front, last) ↦ some (x ∷ front, last)
]

unfoldable pub pop_undo : Editor → Editor × EditOutcome
pop_undo e = elim (pop_last e.undo_stack) [
  | none ↦ (e, EditOutcome.none)
  | some (rest, saved) ↦
      (record e { undo_stack = rest; buf = saved.0; cur = saved.1; typing = false }, changed)
]

unfoldable pub handle_paste : Str → Editor → Editor
handle_paste raw e =
    let t = normalize raw in
    let count = line_count t in
    let e' = snapshot false e in
    let chipped = record e' { pastes = e'.pastes ++ t ∷ [] } in
    if ltb paste_lines count || ltb paste_chars (char_count t)
    then insert (chip (length chipped.pastes) count) chipped
    else insert t e'

unfoldable pub handle_enter : Bool → Editor → Editor × EditOutcome
handle_enter newline e =
    if newline
    then (insert (b'\n' ∷ []) (snapshot false e), changed)
    else if ends_with (b'\\' ∷ []) (take e.cur e.buf)
    then (
      let s = snapshot false e in
          record s { buf = replace_range s.buf (s.cur - 1) s.cur (b'\n' ∷ []) },
      changed,
    )
    else submit_buffer e

unfoldable pub or_else : EditOutcome → Option Editor → Editor × EditOutcome → Editor × EditOutcome
or_else o none r = r
or_else o (some e) r = (e, o)

module _ (u : Unicode) where
  unfoldable pub backspace_from : Bool → Editor → ℕ
  backspace_from word e =
      unwrap_or (if word then word_left u e.buf e.cur else prev_grapheme u e.buf e.cur)
        (chip_before_cursor e)

  unfoldable pub handle : EditKey → ℕ → Editor → Editor × EditOutcome
  handle (text t) width e =
      if is_empty (normalize t)
      then (e, EditOutcome.none)
      else (insert (normalize t) (snapshot true e), changed)
  handle (paste t) width e = (handle_paste t e, changed)
  handle (enter newline) width e = handle_enter newline e
  handle (backspace word) width e =
      if e.cur == 0
      then (e, EditOutcome.none)
      else (let s = snapshot false e in remove_range (backspace_from word s) s.cur s, changed)
  handle (delete word) width e = if leb (length e.buf) e.cur then (e, EditOutcome.none) else (
    let s = snapshot false e in
        let to = if word then word_right u s.buf s.cur else next_grapheme u s.buf s.cur in
        record s { buf = replace_range s.buf s.cur to [] },
    changed,
  )
  handle (left word) width e = (
    record e {
      cur = if word then word_left u e.buf e.cur else prev_grapheme u e.buf e.cur;
      typing = false;
    },
    changed,
  )
  handle (right word) width e = (
    record e {
      cur = if word then word_right u e.buf e.cur else next_grapheme u e.buf e.cur;
      typing = false;
    },
    changed,
  )
  handle up width e = or_else changed (move_vertical u true e width) (history_prev e)
  handle down width e = or_else changed (move_vertical u false e width) (history_next e)
  handle line_start width e = (record e { cur = line_start_of e.buf e.cur }, changed)
  handle line_end width e = (record e { cur = line_end_of e.buf e.cur }, changed)
  handle kill_to_end width e =
      let stop = line_end_of e.buf e.cur in
      let to = if stop == e.cur && ltb stop (length e.buf) then stop + 1 else stop in
      if to == e.cur then (e, EditOutcome.none) else (
        let s = snapshot false e in
            record s { kill = slice s.buf s.cur to; buf = replace_range s.buf s.cur to [] },
        changed,
      )
  handle kill_to_start width e =
      let from = line_start_of e.buf e.cur in
      if from == e.cur then (e, EditOutcome.none) else (
        let s = snapshot false e in
            record (remove_range from s.cur s) { kill = slice s.buf from s.cur },
        changed,
      )
  handle yank width e =
      if is_empty e.kill then (e, EditOutcome.none) else (insert e.kill (snapshot false e), changed)
  handle undo width e = pop_undo e
