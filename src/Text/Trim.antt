-- ===== src/Text/Trim.antt =====
-- `trim_end` of two texts put together: white space is told character by character.
use camouflage.Prelude.{
  ℕ, zero, suc, ◌-◌, ◌≡◌, ◌⊎◌, refl, ap, ◌∙◌, true, false, ◌&&◌, Option-cases, some, sym, [], ◌∷◌,
  ◌++◌, ltb, ◌==◌, if◌then◌else◌, Bool-cases, length, is_empty, subst, arith, inl, inr,
}
use camouflage.Text.{
  Str, is_continuation, starts_with, white_len, trim_start_from, trim_start, is_blank, trim_end,
}
use camouflage.Text.Utf8.{IsStr, well_formed, lead}

-- The bytes that continue a white-space character are those that its first byte announces.
white_len-lead : (x : ℕ) (s : Str) (w : ℕ) → white_len (x ∷ s) ≡ suc w → lead x ≡ some w
unfolding white_len lead starts_with
white_len-lead x s w h = ground (arith, h)

white_len-continuation : (x : ℕ) (s : Str) → is_continuation x ≡ true → white_len (x ∷ s) ≡ 0
unfolding white_len starts_with
white_len-continuation x s h = ground (arith, h)

one_byte : (x : ℕ) → IsStr (x ∷ []) → ltb x 128 ≡ true
unfolding well_formed lead
one_byte x h = ground (arith, h)

two_bytes : (x y : ℕ) → IsStr (x ∷ y ∷ []) → ltb x 224 ≡ true
unfolding well_formed lead
two_bytes x y h = ground (arith, h)

-- A whole character is white space or not, whatever follows.
white_len-append :
    (x : ℕ) (s b : Str) → IsStr (x ∷ s) → white_len (x ∷ (s ++ b)) ≡ white_len (x ∷ s)
unfolding white_len starts_with
white_len-append x [] b h = ground (arith, one_byte x h)
white_len-append x (y ∷ []) b h = ground (arith, two_bytes x y h)
white_len-append x (y ∷ z ∷ s) b h = refl

well_formed-lead : (x k : ℕ) (s : Str) → IsStr (x ∷ s) → lead x ≡ some k → well_formed k s ≡ true
unfolding well_formed
well_formed-lead x k s h e = rw (e, well_formed) at h

trim_first :
    (x : ℕ) (s : Str) (w : ℕ)
    → white_len (x ∷ s) ≡ w
    → trim_start_from 0 (x ∷ s) ≡ (if w == 0 then x ∷ s else trim_start_from (w - 1) s)
unfolding trim_start_from
trim_first x s w h =
    subst
      (λ (n : ℕ). trim_start_from 0 (x ∷ s) ≡ (if n == 0 then x ∷ s else trim_start_from (n - 1) s))
      h refl

trim_none : (x : ℕ) (s : Str) → white_len (x ∷ s) ≡ 0 → trim_start_from 0 (x ∷ s) ≡ x ∷ s
trim_none x s h = trim_first x s 0 h

trim_some :
    (x : ℕ) (s : Str) (w : ℕ)
    → white_len (x ∷ s) ≡ suc w
    → trim_start_from 0 (x ∷ s) ≡ trim_start_from w s
trim_some x s w h = ground (arith, trim_first x s (suc w) h)

ℕ_cases : (n : ℕ) → (n ≡ 0) ⊎ ((k : ℕ) × (n ≡ suc k))
ℕ_cases zero = inl refl
ℕ_cases (suc n) = inr (n, refl)

abbrev Splits : ℕ → Str → Str → Type 0
Splits k a b =
    is_empty (trim_start_from k (a ++ b)) ≡ (is_empty (trim_start_from k a) && is_blank b)

Splits-first :
    (x : ℕ) (a b : Str)
    → IsStr (x ∷ a)
    → ((k : ℕ) → well_formed k a ≡ true → Splits k a b)
    → Splits 0 (x ∷ a) b
Splits-first x a b h ih = elim (ℕ_cases (white_len (x ∷ a))) [
  | inl e ↦ rw (trim_none x (a ++ b) (white_len-append x a b h ∙ e), trim_none x a e) refl
  | inr (k, e) ↦
      rw (trim_some x (a ++ b) k (white_len-append x a b h ∙ e), trim_some x a k e)
        (ih k (well_formed-lead x k a h (white_len-lead x a k e)))
]

-- The white space at the start of two texts: all of the first, or an end of it is left.
Splits-all : (k : ℕ) (a b : Str) → well_formed k a ≡ true → Splits k a b
unfolding trim_start_from trim_start is_blank well_formed
Splits-all zero [] b h = refl
Splits-all (suc k) [] b h = cc
Splits-all (suc k) (x ∷ a) b h = Splits-all k a b (ground (arith, h))
Splits-all zero (x ∷ a) b h = Splits-first x a b h (λ k w. Splits-all k a b w)

-- No byte inside a character is white space.
is_blank_inside : (x : ℕ) (s : Str) → is_continuation x ≡ true → is_blank (x ∷ s) ≡ false
unfolding is_blank trim_start
is_blank_inside x s h = rw (trim_none x s (white_len-continuation x s h)) refl

inside : (k x : ℕ) (a : Str) → well_formed (suc k) (x ∷ a) ≡ true → is_continuation x ≡ true
unfolding well_formed
inside k x a h = ground (arith, h)

is_blank-append :
    (k x : ℕ) (a b : Str)
    → well_formed k (x ∷ a) ≡ true
    → is_blank (x ∷ (a ++ b)) ≡ (is_blank (x ∷ a) && is_blank b)
is_blank-append zero x a b h = unfold is_blank in unfold trim_start in Splits-all 0 (x ∷ a) b h
is_blank-append (suc k) x a b h =
    rw (is_blank_inside x (a ++ b) (inside k x a h), is_blank_inside x a (inside k x a h)) refl

rest_formed :
    (k x : ℕ) (a : Str) → well_formed k (x ∷ a) ≡ true → (l : ℕ) × (well_formed l a ≡ true)
unfolding well_formed
rest_formed (suc k) x a h = (k, ground (arith, h))
rest_formed zero x a h = elim (Option-cases (lead x)) [
  | inl e ↦ cc
  | inr (l, e) ↦ (l, rw (e, well_formed) at h)
]

trim_end_cons :
    (x : ℕ) (s : Str) → trim_end (x ∷ s) ≡ (if is_blank (x ∷ s) then [] else x ∷ trim_end s)
unfolding trim_end
trim_end_cons x s = refl

pub trim_end_blank : (s : Str) → is_blank s ≡ true → trim_end s ≡ []
trim_end_blank [] h = unfold trim_end in refl
trim_end_blank (x ∷ s) h = rw (trim_end_cons x s, h) refl

-- `trim_end` drops a blank text behind another, and otherwise leaves the other alone.
pub trim_end-append :
    (k : ℕ) (a b : Str)
    → well_formed k a ≡ true
    → trim_end (a ++ b) ≡ (if is_blank b then trim_end a else a ++ trim_end b)
trim_end-append k [] b h = elim (Bool-cases (is_blank b)) [
  | inl e ↦
      rw (e, trim_end_blank b e)
        (sym (trim_end_blank [] (unfold is_blank in unfold trim_start in refl)))
  | inr e ↦ rw e refl
]
trim_end-append k (x ∷ a) b h =
    let l = rest_formed k x a h in
    let ih = trim_end-append l.0 a b l.1 in
    ground (arith, trim_end_cons x (a ++ b), trim_end_cons x a, is_blank-append k x a b h, ih)

-- Nothing is trimmed when the length stays.
pub trim_end-length : (s : Str) → length (trim_end s) ≡ length s → trim_end s ≡ s
trim_end-length [] h = trim_end_blank [] (unfold is_blank in unfold trim_start in refl)
trim_end-length (x ∷ s) h = elim (Bool-cases (is_blank (x ∷ s))) [
  | inl e ↦ absurd (omega (arith, ap length (trim_end_blank (x ∷ s) e)))
  | inr e ↦
      let kept : trim_end (x ∷ s) ≡ x ∷ trim_end s = rw (trim_end_cons x s, e) refl in
      kept ∙ ap (◌∷◌ x) (trim_end-length s (omega (arith, ap length kept, h)))
]

pub trim_end-eq-nil : (s : Str) → trim_end s ≡ [] → is_blank s ≡ true
trim_end-eq-nil [] h = unfold is_blank in unfold trim_start in refl
trim_end-eq-nil (x ∷ s) h = ground (arith, trim_end_cons x s)
