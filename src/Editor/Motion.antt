-- ===== src/Editor/Motion.antt =====
-- Where the cursor goes: the functions `prev_grapheme`, `next_grapheme`, `word_left`, `word_right`,
-- and the ends of the line.
use camouflage.Prelude.{
  ℕ, ◌+◌, Bool, not, none, some, unwrap_or, List, [], ◌∷◌, reverse, ◌==◌, if◌then◌else◌, length,
  take, drop,
}
use camouflage.Text.{Str, is_blank, rfind_str, find_str}
use camouflage.Width.{Unicode, concat}

-- The offset of the last grapheme, or 0.
unfoldable pub last_start : List Str → ℕ
last_start [] = 0
last_start (g ∷ []) = 0
last_start (g ∷ h ∷ gs) = length g + last_start (h ∷ gs)

-- `while p(gs[k - 1]) k -= 1`, on the list read backwards.
unfoldable pub drop_while : (Str → Bool) → List Str → List Str
drop_while p [] = []
drop_while p (g ∷ gs) = let rest = drop_while p gs in if p g then rest else g ∷ gs

unfoldable pub take_while : (Str → Bool) → List Str → List Str
take_while p [] = []
take_while p (g ∷ gs) = let rest = take_while p gs in if p g then g ∷ rest else []

abbrev pub visible : Str → Bool
visible g = not (is_blank g)

module _ (u : Unicode) where
  unfoldable pub prev_grapheme : Str → ℕ → ℕ
  prev_grapheme s i = last_start (u.graphemes (take i s))

  unfoldable pub next_grapheme : Str → ℕ → ℕ
  next_grapheme s i = elim (u.graphemes (drop i s)) [ [] ↦ length s | g ∷ _ ↦ i + length g ]

  -- The graphemes that stay in front of the word; `gs.get(k)` is none if that is all of them.
  unfoldable pub word_left : Str → ℕ → ℕ
  word_left s i =
      let gs = u.graphemes (take i s) in
      let kept = drop_while visible (drop_while is_blank (reverse gs)) in
      if length kept == length gs then i else length (concat (reverse kept))

  unfoldable pub word_right : Str → ℕ → ℕ
  word_right s i =
      let gs = u.graphemes (drop i s) in
      let blank = take_while is_blank gs in
      let word = take_while visible (drop_while is_blank gs) in
      i + length (concat blank) + length (concat word)

-- `s[..i].rfind('\n')` and `s[i..].find('\n')`
unfoldable pub line_start_of : Str → ℕ → ℕ
line_start_of s i =
    unwrap_or 0 (elim (rfind_str (b'\n' ∷ []) (take i s)) [ none ↦ none | some k ↦ some (k + 1) ])

unfoldable pub line_end_of : Str → ℕ → ℕ
line_end_of s i =
    unwrap_or (length s)
      (elim (find_str (b'\n' ∷ []) (drop i s)) [ none ↦ none | some k ↦ some (i + k) ])
