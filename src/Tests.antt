-- ===== src/Tests.antt =====
-- Concrete runs of the editor (crates/inline/src/editor.rs): a segmentation that cuts off each ASCII
-- character, an editor in use, and the theorems at them. The children do the same for the other
-- parts.
pub mod Activities
pub mod Sessions
pub mod Runs
pub mod Decoders
pub mod Diffs
pub mod Forms
pub mod Auths
pub mod Shells
pub mod Validates
pub mod Widths
use camouflage.Prelude.{
  ℕ, ◌≡◌, ◌↔◌, refl, ap, arith, Bool, true, false, Option, none, some, List, [], ◌∷◌, ◌++◌, ltb,
  if◌then◌else◌, append-nil, Bool-cases, inl, inr, is_empty, length, All,
}
use camouflage.Text.{Str, utf8, lines, replace_str}
use camouflage.Text.Utf8.{IsStr, IsStr-ascii, well_formed, lead}
use camouflage.Text.Boundary.{Boundary}
use camouflage.Width.{Unicode, IsSegmentation, concat}
use camouflage.Protocol.{EventType, as_str, from_str, permission_requested}
use camouflage.Protocol.Names.{from_str_iff}
use camouflage.Style.{Line}
use camouflage.Ansi.{parse_ansi}
use camouflage.Ansi.Plain.{PlainLine, parse_ansi-Plain}
use camouflage.Editor.{
  EditKey, text, paste, enter, backspace, left, up, undo, changed, submit, Editor, new,
}
use camouflage.Editor.Valid.{IsValid, Saved, Holds}
use camouflage.Editor.Handle.{handle, normalize}
use camouflage.Editor.Chips.{chip, line_count}
use camouflage.Editor.Keeps.{handle-IsValid}
use camouflage.Editor.Undo.{type_all, handle_undo-handle, handle_undo-type_all}
use camouflage.Editor.History.{prevs, nexts, nexts-prevs}
use camouflage.Editor.Paste.{handle_enter-handle_paste}
use camouflage.Editor.Rows.{rows}
use camouflage.Editor.RowsValid.{RowOf, rows-RowOf}

abbrev pub ascii_graphemes : Str → List Str
ascii_graphemes [] = []
ascii_graphemes (b ∷ s) =
    let rest = ascii_graphemes s in if ltb b 128 then (b ∷ []) ∷ rest else (b ∷ s) ∷ []

abbrev pub ascii : Unicode
ascii = record { graphemes = ascii_graphemes; width = length }

concat-ascii : (s : Str) → concat (ascii_graphemes s) ≡ s
unfolding concat
concat-ascii [] = refl
concat-ascii (b ∷ s) = elim (Bool-cases (ltb b 128)) [
  | inl e ↦ rw e (ap (◌∷◌ b) (concat-ascii s))
  | inr e ↦ rw e (append-nil (b ∷ s))
]

ascii-nonempty : (s : Str) → All (λ g. is_empty g ≡ false) (ascii_graphemes s)
ascii-nonempty [] = tt
ascii-nonempty (b ∷ s) = elim (Bool-cases (ltb b 128)) [
  | inl e ↦ rw e (refl, ascii-nonempty s)
  | inr e ↦ rw e (refl, tt)
]

lead-ascii : (b : ℕ) → ltb b 128 ≡ true → lead b ≡ some 0
unfolding lead
lead-ascii b e = rw e refl

ascii-IsStr : (s : Str) → IsStr s → All IsStr (ascii_graphemes s)
unfolding well_formed
ascii-IsStr [] h = tt
ascii-IsStr (b ∷ s) h = elim (Bool-cases (ltb b 128)) [
  | inl e ↦ rw e (IsStr-ascii b e, ascii-IsStr s (rw (lead-ascii b e, well_formed) at h))
  | inr e ↦ rw e (h, tt)
]

ascii-IsSegmentation : IsSegmentation ascii
ascii-IsSegmentation = record {
  concat_graphemes = concat-ascii;
  graphemes_ne = ascii-nonempty;
  graphemes_IsStr = ascii-IsStr;
}

-- "ab", the cursor between the letters, with one line of history and one saved state.
abbrev in_use : Editor
in_use = record {
  buf = b'a' ∷ b'b' ∷ [];
  cur = 1;
  history = (b'l' ∷ b's' ∷ []) ∷ [];
  hist_idx = none;
  draft = none;
  pastes = [];
  undo_stack = (b'a' ∷ [], 1) ∷ [];
  kill = [];
  typing = false;
}

in_use-IsValid : IsValid in_use
unfolding well_formed lead
in_use-IsValid = record {
  cursor = record { in_range = omega arith; before = refl; after = refl };
  saved = (record { in_range = omega arith; before = refl; after = refl }, tt);
  undo_bound = omega arith;
  past = (refl, tt);
  place = tt;
  kept_draft = tt;
  killed = refl;
  pasted = tt;
}

handle-IsValid_example : IsValid (handle ascii (backspace true) 80 in_use).0
handle-IsValid_example =
    handle-IsValid ascii (backspace true) 80 in_use ascii-IsSegmentation tt in_use-IsValid

handle_undo-handle_example :
    let back = handle ascii undo 80 (handle ascii (backspace false) 80 in_use).0 in
    (back.0.buf ≡ in_use.buf) × (back.0.cur ≡ in_use.cur) × (back.1 ≡ changed)
unfolding handle
handle_undo-handle_example = handle_undo-handle ascii (backspace false) 80 in_use tt refl

abbrev letter : ℕ → Str
letter c = c ∷ []

handle_undo-type_all_example :
    let back = handle ascii undo 80 (type_all ascii 80 (letter b'x' ∷ letter b'y' ∷ []) in_use) in
    (back.0.buf ≡ in_use.buf) × (back.0.cur ≡ in_use.cur) × (back.1 ≡ changed)
unfolding normalize replace_str
handle_undo-type_all_example =
    handle_undo-type_all ascii 80 (letter b'x') (letter b'y' ∷ []) in_use refl refl

nexts-prevs_example :
    let back = nexts 1 (prevs 1 in_use) in
    (back.buf ≡ in_use.buf)
    × (back.cur ≡ 2)
    × (back.hist_idx ≡ none)
    × (back.history ≡ in_use.history)
nexts-prevs_example = nexts-prevs 1 in_use refl (omega arith) (omega arith)

-- Five lines.
abbrev pub five_lines : Str
five_lines = b'a' ∷ b'\n' ∷ b'b' ∷ b'\n' ∷ b'c' ∷ b'\n' ∷ b'd' ∷ b'\n' ∷ b'e' ∷ []

handle_enter-handle_paste_example :
    (handle ascii (enter false) 80 (handle ascii (paste five_lines) 80 new).0).1
    ≡ submit (normalize five_lines) (chip 1 (line_count (normalize five_lines)))
unfolding normalize line_count lines replace_str
handle_enter-handle_paste_example =
    handle_enter-handle_paste ascii 80 80 five_lines new refl refl refl refl

rows-RowOf_example : All (RowOf five_lines) (rows ascii five_lines 4)
unfolding well_formed lead
rows-RowOf_example = rows-RowOf ascii ascii-IsSegmentation five_lines 4 refl

from_str_iff_example :
    (from_str "PermissionRequested" ≡ some permission_requested)
    ↔ (as_str permission_requested ≡ "PermissionRequested")
from_str_iff_example = from_str_iff "PermissionRequested" permission_requested

-- A red "hi" that ends with a cursor movement.
abbrev colored : Str
colored = 27 ∷ b'[' ∷ b'3' ∷ b'1' ∷ b'm' ∷ b'h' ∷ 0xC2 ∷ 0x9B ∷ b'i' ∷ 27 ∷ b'[' ∷ b'H' ∷ []

parse_ansi-Plain_example : All PlainLine (parse_ansi colored)
unfolding well_formed lead
parse_ansi-Plain_example = parse_ansi-Plain colored refl
