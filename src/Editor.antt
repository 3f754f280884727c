-- ===== src/Editor.antt =====
-- crates/inline/src/editor.rs: the prompt editor. A cursor is a byte offset; a slice `s[a..b]` is
-- read by `take` and `drop`, and that its ends are in range is part of the editor's invariant.
pub mod Motion
pub mod Steps
pub mod Rows
pub mod Chips
pub mod Handle
pub mod Valid
pub mod RowsValid
pub mod HandleValid
pub mod Deletions
pub mod Keeps
pub mod Undo
pub mod History
pub mod Paste
use mathlib.Core.Option.{Option}
use camouflage.Prelude.{ℕ, Bool, List, [], false}
use camouflage.Text.{Str}

pub data EditKey : Type 0 where
  text paste : Str → EditKey
  enter : Bool → EditKey
  backspace delete left right : Bool → EditKey
  up down line_start line_end kill_to_end kill_to_start yank undo : EditKey

pub data EditOutcome : Type 0 where
  none changed : EditOutcome
  submit : Str → Str → EditOutcome

-- Byte range `[start, end)` of a visual row.
pub record Row : Type 0 where
  pub start : ℕ
  pub end : ℕ

abbrev pub max_history : ℕ
max_history = 500

abbrev pub max_undo : ℕ
max_undo = 200

abbrev pub paste_lines : ℕ
paste_lines = 3

abbrev pub paste_chars : ℕ
paste_chars = 800

pub record Editor : Type 0 where
  pub buf : Str
  pub cur : ℕ
  pub history : List Str
  pub hist_idx : Option ℕ
  pub draft : Option Str
  pub pastes : List Str
  pub undo_stack : List (Str × ℕ)
  pub kill : Str
  pub typing : Bool

abbrev pub new : Editor
new = record {
  buf = [];
  cur = 0;
  history = [];
  hist_idx = Option.none;
  draft = Option.none;
  pastes = [];
  undo_stack = [];
  kill = [];
  typing = false;
}
