-- ===== src/Editor/HandleValid.antt =====
-- Every operation keeps the editor valid.
use camouflage.Prelude.{
  ℕ, zero, suc, ◌+◌, ◌-◌, ◌/◌, ◌%◌, ◌<◌, Bool, true, false, Option, none, some, List, [], ◌∷◌, ◌++◌,
  ◌≡◌, refl, ap, arith, inl, inr, ltb, leb, ◌==◌, if◌then◌else◌, Bool-cases, length, take, is_empty,
  All-append, length-append, length-pos, get_or, All-get_or, unwrap_or,
}
use camouflage.Text.{Str, utf8, to_decimal, to_decimal_from}
use camouflage.Text.Laws.{replace_str-IsStr}
use camouflage.Text.Utf8.{IsStr, IsStr-nil, IsStr-ascii, lead, well_formed, well_formed-append}
use camouflage.Text.Boundary.{
  Boundary, Boundary-IsStr, Boundary-zero, Boundary-length, Boundary-drop, Boundary-take,
  Boundary-within,
}
use camouflage.Width.{Unicode, grapheme_width, concat, IsSegmentation}
use camouflage.Editor.{Editor, Row}
use camouflage.Editor.Chips.{chip}
use camouflage.Editor.Steps.{Boundary-of_graphemes}
use camouflage.Editor.Rows.{
  rows, cursor_row, column, column_offset, place_in, move_vertical, slice, no_row,
}
use camouflage.Editor.RowsValid.{RowOf, rows-RowOf}
use camouflage.Editor.Valid.{IsValid, Holds, moved-IsValid}
use camouflage.Editor.Handle.{normalize, recall, prev_from, history_prev, next_from, history_next}

pub normalize-IsStr : (t : Str) → IsStr t → IsStr (normalize t)
unfolding normalize
normalize-IsStr t h =
    let newline = IsStr-ascii b'\n' refl in
    replace_str-IsStr b'\r' [] (b'\n' ∷ []) _ (refl, tt) newline
      (replace_str-IsStr b'\r' (b'\n' ∷ []) (b'\n' ∷ []) t (refl, (refl, tt)) newline h)

digit-IsStr : (n : ℕ) → IsStr ((48 + n % 10) ∷ [])
digit-IsStr n = IsStr-ascii (48 + n % 10) (ground arith)

to_decimal_from-IsStr : (f n : ℕ) → IsStr (to_decimal_from f n)
unfolding to_decimal_from
to_decimal_from-IsStr zero n = IsStr-nil
to_decimal_from-IsStr (suc f) n = elim (Bool-cases (ltb n 10)) [
  | inl e ↦ rw e (digit-IsStr n)
  | inr e ↦ rw e (
      well_formed-append 0 (to_decimal_from f (n / 10)) _ (to_decimal_from-IsStr f (n / 10))
        (digit-IsStr n))
]

chip_open-IsStr : IsStr (utf8 "[Pasted text #")
unfolding utf8 well_formed lead
chip_open-IsStr = refl

chip_plus-IsStr : IsStr (utf8 " +")
unfolding utf8 well_formed lead
chip_plus-IsStr = refl

chip_close-IsStr : IsStr (utf8 " lines]")
unfolding utf8 well_formed lead
chip_close-IsStr = refl

pub chip-IsStr : (n count : ℕ) → IsStr (chip n count)
unfolding chip to_decimal
chip-IsStr n count =
    well_formed-append 0 _ _
      (well_formed-append 0 _ _
        (well_formed-append 0 _ _
          (well_formed-append 0 _ _ chip_open-IsStr (to_decimal_from-IsStr (suc n) n))
          chip_plus-IsStr)
        (to_decimal_from-IsStr (suc count) count))
      chip_close-IsStr

pub Holds-if {ℓ κ} :
    {A : Type ℓ} (P : A → Type κ) (b : Bool) (x y : Option A)
    → Holds P x
    → Holds P y
    → Holds P (if b then x else y)
Holds-if P true x y h k = h
Holds-if P false x y h k = k

module _ (u : Unicode) (seg : IsSegmentation u) where
  -- The offset found in a row is the end of a group of its graphemes.
  column_offset-prefix :
      (col w : ℕ) (gs : List Str)
      → (a : List Str) × (b : List Str) × (gs ≡ a ++ b)
        × (column_offset u col w gs ≡ length (concat a))
  unfolding column_offset concat
  column_offset-prefix col w [] = ([], [], refl, refl)
  column_offset-prefix col w (g ∷ gs) = elim (Bool-cases (ltb col (w + grapheme_width u g))) [
    | inl e ↦ ([], g ∷ gs, refl, rw e)
    | inr e ↦
        let (a, b, split, off) = column_offset-prefix col (w + grapheme_width u g) gs in
        (g ∷ a, b, ap (◌∷◌ g) split, rw e (omega (arith, off, length-append g (concat a))))
  ]

  Boundary-in_row :
      (s : Str) (r : Row) (col : ℕ)
      → RowOf s r
      → Boundary s (r.start + column_offset u col 0 (u.graphemes (slice s r.start r.end)))
  Boundary-in_row s r col v =
      let piece = slice s r.start r.end in
      let (a, b, split, off) = column_offset-prefix col 0 (u.graphemes piece) in
      let inside = Boundary-within s r.start r.end v.ordered v.start_cut v.end_cut in
      let cut =
        Boundary-of_graphemes piece (u.graphemes piece) a b (seg.concat_graphemes piece)
          (seg.graphemes_IsStr piece inside.after) split in
      Boundary-take s r.end _ v.end_cut (Boundary-drop (take r.end s) r.start _ inside (rw off cut))

  place_in-IsValid :
      {e : Editor} (width col target : ℕ)
      → IsValid e
      → IsValid (place_in u e (rows u e.buf width) col target)
  unfolding place_in
  place_in-IsValid {e} width col target v =
      let whole = Boundary-IsStr e.buf e.cur v.cursor in
      let origin = Boundary-zero e.buf whole in
      moved-IsValid v (
        Boundary-in_row e.buf (get_or (rows u e.buf width) target no_row) col (
          All-get_or (RowOf e.buf) (rows u e.buf width) target no_row
            (record { ordered = omega arith; start_cut = origin; end_cut = origin })
            (rows-RowOf u seg e.buf width whole)))

  pub move_vertical-IsValid :
      {e : Editor} (upward : Bool) (width : ℕ)
      → IsValid e
      → Holds IsValid (move_vertical u upward e width)
  unfolding move_vertical
  move_vertical-IsValid {e} upward width v =
      let rs = rows u e.buf width in
      let r = cursor_row rs e.cur in
      let col = column u e.buf rs r e.cur in
      Holds-if IsValid upward _ _
        (Holds-if IsValid (r == 0) _ _ tt (place_in-IsValid width col (r - 1) v))
        (Holds-if IsValid (leb (length rs) (r + 1)) _ _ tt (place_in-IsValid width col (r + 1) v))

module _ {e : Editor} (v : IsValid e) where
  recall-IsValid : (i : ℕ) → i < length e.history → IsValid (recall i e)
  recall-IsValid i lt = record {
    cursor =
        Boundary-length (get_or e.history i []) (All-get_or IsStr e.history i [] IsStr-nil v.past);
    saved = v.saved;
    undo_bound = v.undo_bound;
    past = v.past;
    place = lt;
    kept_draft = v.kept_draft;
    killed = v.killed;
    pasted = v.pasted;
  }

  with_draft-IsValid : IsValid (record e { draft = some e.buf })
  with_draft-IsValid = record {
    cursor = v.cursor;
    saved = v.saved;
    undo_bound = v.undo_bound;
    past = v.past;
    place = v.place;
    kept_draft = Boundary-IsStr e.buf e.cur v.cursor;
    killed = v.killed;
    pasted = v.pasted;
  }

  pub with_kill-IsValid : (k : Str) → IsStr k → IsValid (record e { kill = k })
  with_kill-IsValid k h = record {
    cursor = v.cursor;
    saved = v.saved;
    undo_bound = v.undo_bound;
    past = v.past;
    place = v.place;
    kept_draft = v.kept_draft;
    killed = h;
    pasted = v.pasted;
  }

  pub with_paste-IsValid : (t : Str) → IsStr t → IsValid (record e { pastes = e.pastes ++ t ∷ [] })
  with_paste-IsValid t h = record {
    cursor = v.cursor;
    saved = v.saved;
    undo_bound = v.undo_bound;
    past = v.past;
    place = v.place;
    kept_draft = v.kept_draft;
    killed = v.killed;
    pasted = All-append IsStr e.pastes (t ∷ []) v.pasted (h, tt);
  }

  -- The history is left, with a text that is cut at its end.
  left_history-IsValid :
      (t : Str)
      → IsStr t
      → IsValid (record e { hist_idx = none; buf = t; cur = length t; draft = none })
  left_history-IsValid t h = record {
    cursor = Boundary-length t h;
    saved = v.saved;
    undo_bound = v.undo_bound;
    past = v.past;
    place = tt;
    kept_draft = tt;
    killed = v.killed;
    pasted = v.pasted;
  }

unwrap-IsStr : (o : Option Str) → Holds IsStr o → IsStr (unwrap_or [] o)
unwrap-IsStr none h = IsStr-nil
unwrap-IsStr (some s) h = h

pub history_prev-IsValid : {e : Editor} → IsValid e → IsValid (history_prev e).0
unfolding history_prev prev_from
history_prev-IsValid {e} v = elim (Bool-cases (is_empty e.history)) [
  | inl h ↦ rw (h, history_prev) v
  | inr h ↦ rw (h, history_prev) (at_place e.hist_idx h v.place)
]
  where
    at_place :
        (o : Option ℕ)
        → is_empty e.history ≡ false
        → Holds (λ i. i < length e.history) o
        → IsValid (prev_from o e).0
    at_place none h p =
        recall-IsValid (with_draft-IsValid v) (length e.history - 1)
          (omega (arith, length-pos e.history h))
    at_place (some zero) h p = v
    at_place (some (suc i)) h p = recall-IsValid v i (omega arith)

pub history_next-IsValid : {e : Editor} → IsValid e → IsValid (history_next e).0
unfolding history_next next_from
history_next-IsValid {e} v = at_place e.hist_idx
  where
    at_place : (o : Option ℕ) → IsValid (next_from o e).0
    at_place none = v
    at_place (some i) = elim (Bool-cases (ltb (i + 1) (length e.history))) [
      | inl h ↦ rw (h, next_from) (recall-IsValid v (i + 1) (ground (arith, h)))
      | inr h ↦
          rw (h, next_from)
            (left_history-IsValid v (unwrap_or [] e.draft) (unwrap-IsStr e.draft v.kept_draft))
    ]
