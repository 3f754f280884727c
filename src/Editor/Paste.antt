-- ===== src/Editor/Paste.antt =====
-- A large paste shows as a chip, and is submitted as the text that was pasted.
use camouflage.Prelude.{
  ℕ, true, false, ◌||◌, [], ◌∷◌, ◌++◌, ◌≡◌, refl, arith, ltb, ◌==◌, length, take, take_all,
  append-nil, append_assoc,
}
use camouflage.Text.{
  Str, utf8, str_eq, ends_with, is_blank, trim_start, trim_start_from, char_count, replace_str,
  white_len, to_decimal,
}
use camouflage.Text.Laws.{replace_str_self}
use camouflage.Width.{Unicode}
use camouflage.Editor.{paste, enter, submit, Editor, paste_lines, paste_chars}
use camouflage.Editor.Chips.{chip, line_count, expand_chips, expand_from}
use camouflage.Editor.Handle.{
  normalize, snapshot, insert, handle_paste, handle_enter, submit_buffer, handle,
}

-- What makes a paste large: more than three lines, or more than 800 characters.
abbrev pub IsLarge : Str → Type 0
IsLarge t = (ltb paste_lines (line_count t) || ltb paste_chars (char_count t)) ≡ true

-- The chip is `[` and a rest that ends with `]`.
chip_rest : ℕ → ℕ → Str
unfolding utf8
chip_rest n count =
    utf8 "Pasted text #" ++ to_decimal n ++ utf8 " +" ++ to_decimal count ++ utf8 " lines"

chip-cons : (n count : ℕ) → chip n count ≡ b'[' ∷ (chip_rest n count ++ b']' ∷ [])
unfolding chip chip_rest utf8
chip-cons n count = simp append_assoc

ends_with-append_last : (c d : ℕ) (s : Str) → ends_with (c ∷ []) (s ++ d ∷ []) ≡ (c == d)
unfolding ends_with str_eq
ends_with-append_last c d [] = ground arith
ends_with-append_last c d (x ∷ s) = ground (arith, ends_with-append_last c d s, not_empty s)
  where
    not_empty : (a : Str) → str_eq [] (a ++ d ∷ []) ≡ false
    not_empty [] = refl
    not_empty (y ∷ a) = refl

chip-backslash : (n count : ℕ) → ends_with (b'\\' ∷ []) (chip n count) ≡ false
chip-backslash n count =
    rw (chip-cons n count) (ends_with-append_last b'\\' b']' (b'[' ∷ chip_rest n count))

pub chip-blank : (n count : ℕ) → is_blank (chip n count) ≡ false
unfolding is_blank trim_start trim_start_from white_len
chip-blank n count = rw (chip-cons n count)

chip-replaced : (n count : ℕ) (t : Str) → replace_str (chip n count) t (chip n count) ≡ t
chip-replaced n count t =
    rw (chip-cons n count) (replace_str_self b'[' (chip_rest n count ++ b']' ∷ []) t)

-- The state behind a large paste into an empty prompt.
pub record Pasted (t : Str) (d : Editor) : Type 0 where
  pub buf_is : d.buf ≡ chip 1 (line_count t)
  pub cur_is : d.cur ≡ length (chip 1 (line_count t))
  pub pastes_is : d.pastes ≡ t ∷ []

pub Pasted-handle_paste :
    (t : Str) (e : Editor)
    → e.buf ≡ []
    → e.cur ≡ 0
    → e.pastes ≡ []
    → IsLarge (normalize t)
    → Pasted (normalize t) (handle_paste t e)
unfolding handle_paste insert snapshot
Pasted-handle_paste t e b c p l = record {
  buf_is = rw (l, b, c, p) (append-nil _);
  cur_is = rw (l, c, p) (omega arith);
  pastes_is = rw (l, p);
}

submit_buffer-Pasted :
    (t : Str) (d : Editor) → Pasted t d → (submit_buffer d).1 ≡ submit t (chip 1 (line_count t))
unfolding submit_buffer expand_chips expand_from
submit_buffer-Pasted t d h =
    rw (h.buf_is, h.pastes_is, chip-blank 1 (line_count t)) (rw (chip-replaced 1 (line_count t) t))

handle_enter-Pasted :
    (t : Str) (d : Editor)
    → Pasted t d
    → (handle_enter false d).1 ≡ submit t (chip 1 (line_count t))
unfolding handle_enter
handle_enter-Pasted t d h =
    let shown : take d.cur d.buf ≡ chip 1 (line_count t) =
      rw (h.buf_is, h.cur_is) (take_all _ (chip 1 (line_count t)) (omega arith)) in
    let plain : ends_with (b'\\' ∷ []) (take d.cur d.buf) ≡ false =
      rw shown (chip-backslash 1 (line_count t)) in
    rw plain (submit_buffer-Pasted t d h)

-- Pasted into an empty prompt and submitted, a large text reaches the host as it is, with the line
-- ends normalized, and what was shown is the chip alone.
pub handle_enter-handle_paste :
    (u : Unicode) (w w' : ℕ) (t : Str) (e : Editor)
    → e.buf ≡ []
    → e.cur ≡ 0
    → e.pastes ≡ []
    → IsLarge (normalize t)
    → (handle u (enter false) w' (handle u (paste t) w e).0).1
      ≡ submit (normalize t) (chip 1 (line_count (normalize t)))
unfolding handle
handle_enter-handle_paste u w w' t e b c p l =
    handle_enter-Pasted (normalize t) (handle_paste t e) (Pasted-handle_paste t e b c p l)
