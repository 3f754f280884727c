-- ===== src/Text/Utf8.antt =====
-- Well-formed UTF-8, and that the text operations keep it. The form of each character is checked (a
-- leading byte with its continuation bytes), not that it is the shortest or no surrogate.
use camouflage.Prelude.{
  ℕ, zero, suc, Bool, true, false, ◌&&◌, [], ◌∷◌, ◌++◌, ◌≡◌, refl, Option, none, some, Option-cases,
  inl, inr, arith, ltb, if◌then◌else◌,
}
use camouflage.Text.{Str, is_continuation, starts_char}

-- The continuation bytes that a leading byte announces.
unfoldable pub lead : ℕ → Option ℕ
lead b =
    if ltb b 128
    then some 0
    else if ltb b 192
    then none
    else if ltb b 224
    then some 1
    else if ltb b 240
    then some 2
    else if ltb b 248
    then some 3
    else none

-- The number is that of the continuation bytes which the last character still lacks.
unfoldable pub well_formed : ℕ → Str → Bool
well_formed zero [] = true
well_formed (suc k) [] = false
well_formed (suc k) (b ∷ s) = is_continuation b && well_formed k s
well_formed zero (b ∷ s) = elim (lead b) [ none ↦ false | some k ↦ well_formed k s ]

abbrev pub IsStr : Str → Type 0
IsStr s = well_formed 0 s ≡ true

pub well_formed-append :
    (k : ℕ) (a b : Str)
    → well_formed k a ≡ true
    → well_formed 0 b ≡ true
    → well_formed k (a ++ b) ≡ true
unfolding well_formed
well_formed-append zero [] b ha hb = hb
well_formed-append (suc k) [] b ha hb = cc
well_formed-append (suc k) (x ∷ a) b ha hb = ground (arith, well_formed-append k a b)
well_formed-append zero (x ∷ a) b ha hb = elim (Option-cases (lead x)) [
  | inl e ↦ cc
  | inr (k, e) ↦ rw (e, well_formed) (well_formed-append k a b (rw (e, well_formed) at ha) hb)
]

-- A text may be cut where a character starts.
pub well_formed-cut :
    (k : ℕ) (a b : Str)
    → well_formed k (a ++ b) ≡ true
    → starts_char b ≡ true
    → (well_formed k a ≡ true) × (well_formed 0 b ≡ true)
unfolding well_formed
well_formed-cut zero [] b h hb = (refl, h)
well_formed-cut (suc k) [] [] h hb = cc
well_formed-cut (suc k) [] (y ∷ b) h hb = ground arith
well_formed-cut (suc k) (x ∷ a) b h hb = ground (arith, well_formed-cut k a b)
well_formed-cut zero (x ∷ a) b h hb = elim (Option-cases (lead x)) [
  | inl e ↦ cc
  | inr (k, e) ↦ rw (e, well_formed) (well_formed-cut k a b (rw (e, well_formed) at h) hb)
]

pub starts_char_of_IsStr : (s : Str) → well_formed 0 s ≡ true → starts_char s ≡ true
unfolding well_formed lead
starts_char_of_IsStr [] h = refl
starts_char_of_IsStr (b ∷ s) h = ground arith

-- What follows an ASCII byte starts a character.
pub well_formed_ascii :
    (k b : ℕ) (s : Str)
    → ltb b 128 ≡ true
    → well_formed k (b ∷ s) ≡ true
    → (k ≡ 0) × (well_formed 0 s ≡ true)
unfolding well_formed lead
well_formed_ascii zero b s hb h = ground arith
well_formed_ascii (suc k) b s hb h = ground arith

pub IsStr-nil : IsStr []
unfolding well_formed
IsStr-nil = refl

pub IsStr-ascii : (b : ℕ) → ltb b 128 ≡ true → IsStr (b ∷ [])
unfolding well_formed lead
IsStr-ascii b h = ground arith
