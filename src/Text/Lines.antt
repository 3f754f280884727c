-- ===== src/Text/Lines.antt =====
-- `split` at a newline, and the texts between the newlines.
use camouflage.Prelude.{
  ℕ, List, [], ◌∷◌, ◌++◌, ◌≡◌, ◌≢◌, refl, ap, ◌∙◌, arith, inl, inr, ◌==◌, if◌then◌else◌, Bool-cases,
  All,
}
use camouflage.Text.{Str, split_at}
use camouflage.Text.Utf8.{IsStr, well_formed-cut, well_formed_ascii}

-- The pieces with the separator between them.
abbrev pub join : ℕ → List Str → Str
join c [] = []
join c (l ∷ []) = l
join c (l ∷ m ∷ r) = l ++ c ∷ join c (m ∷ r)

join-cons : (c x : ℕ) (l : Str) (r : List Str) → join c ((x ∷ l) ∷ r) ≡ x ∷ join c (l ∷ r)
join-cons c x l [] = refl
join-cons c x l (m ∷ r) = refl

pub split_at-ne-nil : (c : ℕ) (s : Str) → split_at c s ≢ []
unfolding split_at
split_at-ne-nil c [] h = cc
split_at-ne-nil c (x ∷ s) h = piece (split_at c s) (split_at-ne-nil c s) h
  where
    piece :
        (ls : List Str)
        → ls ≢ []
        → (elim ls [ [] ↦ [] | l ∷ r ↦ if x == c then [] ∷ l ∷ r else (x ∷ l) ∷ r ]) ≢ []
    piece [] ne e = ne refl
    piece (l ∷ r) ne e = ground arith

-- No byte is lost.
pub join-split_at : (c : ℕ) (s : Str) → join c (split_at c s) ≡ s
unfolding split_at
join-split_at c [] = refl
join-split_at c (x ∷ s) = piece (split_at c s) (split_at-ne-nil c s) (join-split_at c s)
  where
    piece :
        (ls : List Str)
        → ls ≢ []
        → join c ls ≡ s
        → join c (elim ls [ [] ↦ [] | l ∷ r ↦ if x == c then [] ∷ l ∷ r else (x ∷ l) ∷ r ]) ≡ x ∷ s
    piece [] ne e = absurd (ne refl)
    piece (l ∷ r) ne e = elim (Bool-cases (x == c)) [
      | inl h ↦ rw h (ground (arith, e))
      | inr h ↦ rw h (join-cons c x l r ∙ ap (◌∷◌ x) e)
    ]

-- The pieces of a text are texts.
pub All-IsStr-join : (ls : List Str) → IsStr (join b'\n' ls) → All IsStr ls
All-IsStr-join [] h = tt
All-IsStr-join (l ∷ []) h = (h, tt)
All-IsStr-join (l ∷ m ∷ r) h =
    let (a, b) = well_formed-cut 0 l (b'\n' ∷ join b'\n' (m ∷ r)) h refl in
    (a, All-IsStr-join (m ∷ r) (well_formed_ascii 0 b'\n' (join b'\n' (m ∷ r)) refl b).1)
