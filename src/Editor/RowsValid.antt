-- ===== src/Editor/RowsValid.antt =====
-- The visual rows begin and end where the buffer may be cut, so `rows[r]` and its slices exist.
use camouflage.Prelude.{
  ℕ, suc, ◌+◌, ◌≤◌, ◌<◌, ◌&&◌, List, [], ◌∷◌, ◌++◌, ◌≡◌, ◌≢◌, refl, sym, ◌∙◌, arith, inl, inr, ltb,
  if◌then◌else◌, Bool-cases, length, max, is_empty, All, All-append, length-append, append_assoc,
  append-nil, subst,
}
use camouflage.Text.{Str, split_at}
use camouflage.Text.Utf8.{IsStr, IsStr-nil, IsStr-ascii, well_formed-append}
use camouflage.Text.Boundary.{Boundary, Boundary-append}
use camouflage.Text.Lines.{join, join-split_at, split_at-ne-nil, All-IsStr-join}
use camouflage.Width.{Unicode, grapheme_width, concat, IsSegmentation}
use camouflage.Width.Graphemes.{concat-IsStr}
use camouflage.Editor.{Row}
use camouflage.Editor.Rows.{row, wrap_line, rows_of, rows, cursor_row, cursor_row_from}

-- A row of the text `s`.
pub record RowOf (s : Str) (r : Row) : Type 0 where
  pub ordered : r.start ≤ r.end
  pub start_cut : Boundary s r.start
  pub end_cut : Boundary s r.end

-- `s` from offset `i` on is the text `t`, and the cut at `i` is one between characters.
pub record Rest (s : Str) (i : ℕ) (t : Str) : Type 0 where
  pub front : Str
  pub front_str : IsStr front
  pub at : length front ≡ i
  pub splits : s ≡ front ++ t

Rest-Boundary : (s : Str) (i : ℕ) (t : Str) → Rest s i t → IsStr t → Boundary s i
Rest-Boundary s i t r h =
    rw r.splits (subst (Boundary (r.front ++ t)) r.at (Boundary-append r.front t r.front_str h))

Rest-append : (s : Str) (i : ℕ) (g t : Str) → Rest s i (g ++ t) → IsStr g → Rest s (i + length g) t
Rest-append s i g t r h = record {
  front = r.front ++ g;
  front_str = well_formed-append 0 r.front g r.front_str h;
  at = omega (arith, length-append r.front g, r.at);
  splits = r.splits ∙ sym (append_assoc r.front g t);
}

join-IsStr : (ls : List Str) → All IsStr ls → IsStr (join b'\n' ls)
join-IsStr [] h = IsStr-nil
join-IsStr (l ∷ []) h = h.0
join-IsStr (l ∷ m ∷ ls) h = well_formed-append 0 l (b'\n' ∷ join b'\n' (m ∷ ls)) h.0 (
    well_formed-append 0 (b'\n' ∷ []) (join b'\n' (m ∷ ls)) (IsStr-ascii b'\n' refl)
      (join-IsStr (m ∷ ls) h.1))

module _ (u : Unicode) (width : ℕ) (s : Str) where
  wrap_line-RowOf :
      (gs : List Str) (post : Str) (start w idx : ℕ)
      → All IsStr gs
      → IsStr post
      → start ≤ idx
      → Boundary s start
      → Rest s idx (concat gs ++ post)
      → All (RowOf s) (wrap_line u width gs start w idx)
  unfolding wrap_line concat
  wrap_line-RowOf [] post start w idx h hp le b r =
      (record { ordered = le; start_cut = b; end_cut = Rest-Boundary s idx post r hp }, tt)
  wrap_line-RowOf (g ∷ gs) post start w idx h hp le b r =
      let r' : Rest s idx (g ++ (concat gs ++ post)) = rw (append_assoc g (concat gs) post) at r in
      let tail_str = well_formed-append 0 (concat gs) post (concat-IsStr gs h.1) hp in
      let here =
        Rest-Boundary s idx (g ++ (concat gs ++ post)) r'
          (well_formed-append 0 g (concat gs ++ post) h.0 tail_str) in
      let next = Rest-append s idx g (concat gs ++ post) r' h.0 in
      elim (Bool-cases (ltb width (w + grapheme_width u g) && ltb 0 w)) [
        | inl e ↦ rw e (
          record { ordered = le; start_cut = b; end_cut = here },
          wrap_line-RowOf gs post idx (grapheme_width u g) (idx + length g) h.1 hp (omega arith)
              here next,
        )
        | inr e ↦ rw e (
            wrap_line-RowOf gs post start (w + grapheme_width u g) (idx + length g) h.1 hp
              (omega arith) b next)
      ]

module _ (u : Unicode) (seg : IsSegmentation u) (width : ℕ) (s : Str) where
  line-RowOf :
      (l post : Str) (off : ℕ)
      → IsStr l
      → IsStr post
      → Rest s off (l ++ post)
      → All (RowOf s) (
          if is_empty l
          then row off off ∷ []
          else elim (u.graphemes l) [ [] ↦ [] | g ∷ gs ↦ wrap_line u width (g ∷ gs) off 0 off ])
  line-RowOf [] post off h hp r =
      let b = Rest-Boundary s off post r hp in
      (record { ordered = omega arith; start_cut = b; end_cut = b }, tt)
  line-RowOf (c ∷ l) post off h hp r =
      of_graphemes (u.graphemes (c ∷ l)) (seg.concat_graphemes (c ∷ l))
        (seg.graphemes_IsStr (c ∷ l) h)
    where
      of_graphemes :
          (gs : List Str)
          → concat gs ≡ c ∷ l
          → All IsStr gs
          → All (RowOf s) (elim gs [ [] ↦ [] | g ∷ hs ↦ wrap_line u width (g ∷ hs) off 0 off ])
      of_graphemes [] e a = tt
      of_graphemes (g ∷ gs) e a =
          wrap_line-RowOf u width s (g ∷ gs) post off 0 off a hp (omega arith)
            (Rest-Boundary s off (c ∷ l ++ post) r (well_formed-append 0 (c ∷ l) post h hp))
            (rw e r)

  rows_of-RowOf :
      (ls : List Str) (off : ℕ)
      → All IsStr ls
      → Rest s off (join b'\n' ls)
      → All (RowOf s) (rows_of u width off ls)
  unfolding rows_of
  rows_of-RowOf [] off h r = tt
  rows_of-RowOf (l ∷ []) off h r =
      All-append (RowOf s) _ [] (line-RowOf l [] off h.0 IsStr-nil (rw append-nil r)) tt
  rows_of-RowOf (l ∷ m ∷ ls) off h r =
      let more = join b'\n' (m ∷ ls) in
      let more_str = join-IsStr (m ∷ ls) h.1 in
      let newline = IsStr-ascii b'\n' refl in
      let post_str = well_formed-append 0 (b'\n' ∷ []) more newline more_str in
      let behind =
        Rest-append s (off + length l) (b'\n' ∷ []) more (Rest-append s off l (b'\n' ∷ more) r h.0)
          newline in
      All-append (RowOf s) _ _ (line-RowOf l (b'\n' ∷ more) off h.0 post_str r)
        (rows_of-RowOf (m ∷ ls) (off + length l + 1) h.1 behind)

module _ (u : Unicode) (seg : IsSegmentation u) where
  -- Every row of a well-formed text begins and ends at a cut between its characters, if the
  -- segmentation cuts a text into texts.
  pub rows-RowOf : (s : Str) (width : ℕ) → IsStr s → All (RowOf s) (rows u s width)
  unfolding rows
  rows-RowOf s width h =
      let whole : IsStr (join b'\n' (split_at b'\n' s)) = rw (join-split_at b'\n' s) h in
      rows_of-RowOf u seg (max width 1) s (split_at b'\n' s) 0
        (All-IsStr-join (split_at b'\n' s) whole)
        (record {
          front = [];
          front_str = IsStr-nil;
          at = refl;
          splits = sym (join-split_at b'\n' s);
        })

  wrap_line-ne-nil :
      (width : ℕ) (gs : List Str) (start w idx : ℕ) → 0 < length (wrap_line u width gs start w idx)
  unfolding wrap_line
  wrap_line-ne-nil width [] start w idx = omega arith
  wrap_line-ne-nil width (g ∷ gs) start w idx =
      elim (Bool-cases (ltb width (w + grapheme_width u g) && ltb 0 w)) [
        | inl e ↦ rw e (omega arith)
        | inr e ↦ rw e (wrap_line-ne-nil width gs start (w + grapheme_width u g) (idx + length g))
      ]

  rows_of-ne-nil : (width off : ℕ) (ls : List Str) → ls ≢ [] → 0 < length (rows_of u width off ls)
  unfolding rows_of
  rows_of-ne-nil width off [] ne = absurd (ne refl)
  rows_of-ne-nil width off ([] ∷ ls) ne = omega arith
  rows_of-ne-nil width off ((c ∷ l) ∷ ls) ne =
      of_graphemes (u.graphemes (c ∷ l)) (seg.concat_graphemes (c ∷ l))
    where
      of_graphemes :
          (gs : List Str)
          → concat gs ≡ c ∷ l
          → 0
            < length (
                elim gs [ [] ↦ [] | g ∷ hs ↦ wrap_line u width (g ∷ hs) off 0 off ]
                ++ rows_of u width (off + length (c ∷ l) + 1) ls)
      of_graphemes [] e = absurd (nil_ne (unfold concat in e))
        where
          nil_ne : ◌≡◌ {A = Str} [] (c ∷ l) → ⊥
          nil_ne p = cc
      of_graphemes (g ∷ gs) e = omega (
        arith,
        wrap_line-ne-nil width (g ∷ gs) off 0 off,
        length-append (wrap_line u width (g ∷ gs) off 0 off)
            (rows_of u width (off + length (c ∷ l) + 1) ls),
      )

  pub rows-ne-nil : (s : Str) (width : ℕ) → 0 < length (rows u s width)
  unfolding rows
  rows-ne-nil s width = rows_of-ne-nil (max width 1) 0 (split_at b'\n' s) (split_at-ne-nil b'\n' s)

cursor_row_from-bounds :
    (rs : List Row) (k cur : ℕ)
    → 0 < length rs
    → (k ≤ cursor_row_from k rs cur) × (cursor_row_from k rs cur < k + length rs)
unfolding cursor_row_from
cursor_row_from-bounds [] k cur h = absurd (omega arith)
cursor_row_from-bounds (r ∷ []) k cur h = ground arith
cursor_row_from-bounds (r ∷ t ∷ rs) k cur h =
    ground (arith, cursor_row_from-bounds (t ∷ rs) (suc k) cur (omega arith))

-- The row of the cursor is one of the rows.
pub cursor_row-lt : (rs : List Row) (cur : ℕ) → 0 < length rs → cursor_row rs cur < length rs
unfolding cursor_row
cursor_row-lt rs cur h = omega (arith, cursor_row_from-bounds rs 0 cur h)
