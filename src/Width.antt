-- ===== src/Width.antt =====
-- crates/inline/src/width.rs: display width in terminal cells, and shortening to a width. The
-- splitting into graphemes and their width come from the crates `unicode-segmentation` and
-- `unicode-width`, which are parameters.
pub mod Graphemes
pub mod Wrap
pub mod Groups
pub mod Held
pub mod Layout
pub mod Trimmed
pub mod Texts
pub mod Cut
use camouflage.Prelude.{
  ℕ, zero, suc, ◌+◌, ◌-◌, ◌*◌, ◌/◌, ◌≤◌, Bool, true, false, not, ◌&&◌, Option, none, some, is_some,
  List, [], ◌∷◌, ◌++◌, reverse, ◌≡◌, ltb, leb, ◌==◌, if◌then◌else◌, length, is_empty, All,
}
use camouflage.Text.{Str, str_eq, find_str, utf8}
use camouflage.Text.Utf8.{IsStr}

-- `graphemes(true)` and `UnicodeWidthStr::width`.
pub record Unicode : Type 0 where
  pub graphemes : Str → List Str
  pub width : Str → ℕ

unfoldable pub concat : List Str → Str
concat [] = []
concat (g ∷ gs) = g ++ concat gs

-- The documented behaviour of `graphemes`: it cuts a text into texts that are not empty.
pub record IsSegmentation (u : Unicode) : Type 0 where
  pub concat_graphemes : (s : Str) → concat (u.graphemes s) ≡ s
  pub graphemes_ne : (s : Str) → All (λ g. is_empty g ≡ false) (u.graphemes s)
  pub graphemes_IsStr : (s : Str) → IsStr s → All IsStr (u.graphemes s)

module _ (u : Unicode) where
  unfoldable pub grapheme_width : Str → ℕ
  unfolding str_eq find_str
  grapheme_width g =
      if str_eq g (b'\t' ∷ [])
      then 4
      else if u.width g == 1 && is_some (find_str (0xEF ∷ 0xB8 ∷ 0x8F ∷ []) g)
      then 2
      else u.width g

  unfoldable pub sum_width : List Str → ℕ
  sum_width [] = 0
  sum_width (g ∷ gs) = grapheme_width g + sum_width gs

  all_printable : Str → Bool
  all_printable [] = true
  all_printable (b ∷ s) = leb 0x20 b && leb b 0x7e && all_printable s

  unfoldable pub str_width : Str → ℕ
  unfolding all_printable
  str_width s = if all_printable s then length s else sum_width (u.graphemes s)

  -- The graphemes in front of the first that does not fit: `extra` cells are kept free.
  unfoldable pub take_cells : ℕ → ℕ → ℕ → List Str → List Str
  take_cells extra max w [] = []
  take_cells extra max w (g ∷ gs) =
      let gw = grapheme_width g in
      let rest = take_cells extra max (w + gw) gs in
      if ltb max (w + gw + extra) then [] else g ∷ rest

  -- `…`
  abbrev pub ellipsis : Str
  ellipsis = 0xE2 ∷ 0x80 ∷ 0xA6 ∷ []

  unfoldable pub truncate : Str → ℕ → Str
  truncate s max =
      if leb (str_width s) max then s else concat (take_cells 1 max 0 (u.graphemes s)) ++ ellipsis

  unfoldable pub ellipsize_middle : Str → ℕ → Str
  unfolding truncate
  ellipsize_middle s max =
      let keep = max - 1 in
      let tail_w = keep * 2 / 5 in
      let head_w = keep - tail_w in
      let head = take_cells 0 head_w 0 (u.graphemes s) in
      let tail = reverse (take_cells 0 tail_w 0 (reverse (u.graphemes s))) in
      if leb (str_width s) max
      then s
      else if ltb max 8
      then truncate s max
      else concat head ++ ellipsis ++ concat tail
