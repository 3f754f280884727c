-- ===== src/Editor/Rows.antt =====
-- `rows`, `cursor_row`, `cursor_pos` and `move_vertical`: the visual rows of the buffer.
use camouflage.Prelude.{
  ℕ, suc, ◌+◌, ◌-◌, Bool, false, not, ◌&&◌, ◌||◌, Option, none, some, List, [], ◌∷◌, ◌++◌, ltb, leb,
  ◌==◌, if◌then◌else◌, length, take, drop, max, is_empty, get_or,
}
use camouflage.Text.{Str, split_at}
use camouflage.Width.{Unicode, grapheme_width, sum_width}
use camouflage.Editor.{Row, Editor}

abbrev pub row : ℕ → ℕ → Row
row a b = record { start = a; end = b }

abbrev pub no_row : Row
no_row = row 0 0

-- `s[a..b]`
abbrev pub slice : Str → ℕ → ℕ → Str
slice s a b = drop a (take b s)

unfoldable pub cursor_row_from : ℕ → List Row → ℕ → ℕ
cursor_row_from k [] cur = k - 1
cursor_row_from k (r ∷ []) cur =
    if leb r.start cur && (ltb cur r.end || cur == r.end) then k else suc k - 1
cursor_row_from k (r ∷ s ∷ rest) cur =
    let later = cursor_row_from (suc k) (s ∷ rest) cur in
    if leb r.start cur && (ltb cur r.end || cur == r.end && not (s.start == cur)) then k else later

-- The first row that holds the cursor, or the last row.
unfoldable pub cursor_row : List Row → ℕ → ℕ
cursor_row rows cur = cursor_row_from 0 rows cur

module _ (u : Unicode) where
  -- The loop over the graphemes of one logical line, from its first one on.
  unfoldable pub wrap_line : ℕ → List Str → ℕ → ℕ → ℕ → List Row
  wrap_line width [] start w idx = row start idx ∷ []
  wrap_line width (g ∷ gs) start w idx =
      let gw = grapheme_width u g in
      let full = ltb width (w + gw) && ltb 0 w in
      let rest =
        wrap_line width gs (if full then idx else start) (if full then gw else w + gw)
          (idx + length g) in
      if full then row start idx ∷ rest else rest

  unfoldable pub rows_of : ℕ → ℕ → List Str → List Row
  rows_of width off [] = []
  rows_of width off (logical ∷ more) =
      (if is_empty logical
        then row off off ∷ []
        else elim (u.graphemes logical) [ [] ↦ [] | g ∷ gs ↦ wrap_line width (g ∷ gs) off 0 off ])
      ++ rows_of width (off + length logical + 1) more

  unfoldable pub rows : Str → ℕ → List Row
  rows buf width = rows_of (max width 1) 0 (split_at b'\n' buf)

  unfoldable pub column : Str → List Row → ℕ → ℕ → ℕ
  column buf rs r cur = sum_width u (u.graphemes (slice buf (get_or rs r no_row).start cur))

  -- The visual (row, column) of the cursor.
  unfoldable pub cursor_pos : Editor → ℕ → ℕ × ℕ
  cursor_pos e width =
      let rs = rows e.buf width in let r = cursor_row rs e.cur in (r, column e.buf rs r e.cur)

  -- The loop that looks for the column in the target row.
  unfoldable pub column_offset : ℕ → ℕ → List Str → ℕ
  column_offset col w [] = 0
  column_offset col w (g ∷ gs) =
      let rest = column_offset col (w + grapheme_width u g) gs in
      if ltb col (w + grapheme_width u g) then 0 else length g + rest

  unfoldable pub place_in : Editor → List Row → ℕ → ℕ → Editor
  place_in e rs col target =
      let t = get_or rs target no_row in
      record e {
        cur = t.start + column_offset col 0 (u.graphemes (slice e.buf t.start t.end));
        typing = false;
      }

  -- `none` stands for the result `false`: there is no row above or below. The flag says `dir == -1`.
  unfoldable pub move_vertical : Bool → Editor → ℕ → Option Editor
  move_vertical upward e width =
      let rs = rows e.buf width in
      let r = cursor_row rs e.cur in
      let col = column e.buf rs r e.cur in
      if upward
      then (if r == 0 then none else some (place_in e rs col (r - 1)))
      else if leb (length rs) (r + 1)
      then none
      else some (place_in e rs col (r + 1))
