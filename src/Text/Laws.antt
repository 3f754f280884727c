-- ===== src/Text/Laws.antt =====
-- Laws of the text operations.
use camouflage.Prelude.{
  ℕ, zero, suc, ◌≤◌, true, false, none, some, [], ◌∷◌, ◌++◌, ◌≡◌, refl, sym, ap, ◌∙◌, ◌↔◌, inl, inr,
  arith, if◌then◌else◌, Bool-cases, Option-cases, length, is_empty, drop, append-nil, drop_all, ltb,
  All, subst,
}
use native.Mathlib.Numerals.{sub-one}
use camouflage.Text.{
  Str, str_eq, starts_with, ends_with, strip_prefix, rfind_str, find_str, replace_from, replace_str,
}
use camouflage.Text.Utf8.{IsStr, well_formed, lead, well_formed-append, well_formed_ascii}

pub str_eq_iff : (a b : Str) → (str_eq a b ≡ true) ↔ (a ≡ b)
unfolding str_eq
str_eq_iff (x ∷ a) (y ∷ b) = ground (arith, str_eq_iff a b)
str_eq_iff _ _ = ground arith

pub str_eq_refl : (a : Str) → str_eq a a ≡ true
str_eq_refl a = (str_eq_iff a a).1 refl

pub starts_with-append : (p s : Str) → starts_with p (p ++ s) ≡ true
unfolding starts_with
starts_with-append [] s = refl
starts_with-append (x ∷ p) s = ground (arith, starts_with-append p s)

-- A text that starts with `p` is `p` and the rest.
pub starts_with-eq-append : (p s : Str) → starts_with p s ≡ true → s ≡ p ++ drop (length p) s
unfolding starts_with
starts_with-eq-append [] s h = refl
starts_with-eq-append (x ∷ p) [] h = cc
starts_with-eq-append (x ∷ p) (c ∷ s) h = ground (arith, starts_with-eq-append p s)

pub starts_with-length : (p s : Str) → starts_with p s ≡ true → length p ≤ length s
unfolding starts_with
starts_with-length [] s h = omega arith
starts_with-length (x ∷ p) [] h = cc
starts_with-length (x ∷ p) (c ∷ s) h = ground (arith, starts_with-length p s)

pub strip_prefix-eq-some : (p s r : Str) → strip_prefix p s ≡ some r → s ≡ p ++ r
unfolding strip_prefix
strip_prefix-eq-some [] s r h = cc
strip_prefix-eq-some (x ∷ p) [] r h = cc
strip_prefix-eq-some (x ∷ p) (c ∷ s) r h = ground (arith, strip_prefix-eq-some p s r)

-- `i` is a place in `s` where `p` stands.
abbrev pub StandsAt : Str → Str → ℕ → Type 0
StandsAt p s i = (i ≤ length s) × (starts_with p (drop i s) ≡ true)

StandsAt-suc : (p s : Str) (c i j : ℕ) → StandsAt p s j → suc j ≡ i → StandsAt p (c ∷ s) i
StandsAt-suc p s c i j (a, b) e = subst (StandsAt p (c ∷ s)) e (omega arith, b)

rfind_str_here :
    (p s : Str) (i : ℕ) → (if starts_with p s then some 0 else none) ≡ some i → StandsAt p s i
rfind_str_here p s zero h = (omega arith, ground arith)
rfind_str_here p s (suc i) h = ground arith

-- A place that `rfind` gives is one where the pattern stands.
pub rfind_str-StandsAt : (p s : Str) (i : ℕ) → rfind_str p s ≡ some i → StandsAt p s i
unfolding rfind_str starts_with
rfind_str-StandsAt [] [] zero h = (omega arith, refl)
rfind_str-StandsAt [] [] (suc i) h = cc
rfind_str-StandsAt (x ∷ p) [] i h = cc
rfind_str-StandsAt p (c ∷ s) i h = elim (Option-cases (rfind_str p s)) [
  | inl e ↦ rfind_str_here p (c ∷ s) i (rw (e, rfind_str) at h)
  | inr (j, e) ↦
      let g : some (suc j) ≡ some i = rw (e, rfind_str) at h in
      StandsAt-suc p s c i j (rfind_str-StandsAt p s j e) (cc)
]

-- So is the place that `find` gives.
pub find_str-StandsAt : (p s : Str) (i : ℕ) → find_str p s ≡ some i → StandsAt p s i
unfolding find_str starts_with
find_str-StandsAt [] [] zero h = (omega arith, refl)
find_str-StandsAt [] [] (suc i) h = cc
find_str-StandsAt (x ∷ p) [] i h = cc
find_str-StandsAt p (c ∷ s) i h = elim (Bool-cases (starts_with p (c ∷ s))) [
  | inl t ↦ rfind_str_here p (c ∷ s) i (rw t (rw (t, find_str) at h))
  | inr f ↦ elim (Option-cases (find_str p s)) [
    | inl e ↦ cc
    | inr (j, e) ↦
        let g : some (suc j) ≡ some i = rw (f, e, find_str) at h in
        StandsAt-suc p s c i j (find_str-StandsAt p s j e) (cc)
  ]
]

replace_from-drop :
    (k : ℕ) (from to s : Str) → replace_from k from to s ≡ replace_from 0 from to (drop k s)
unfolding replace_from
replace_from-drop zero from to s = refl
replace_from-drop (suc k) from to [] = refl
replace_from-drop (suc k) from to (c ∷ s) = replace_from-drop k from to s

replace_from_hit :
    (x : ℕ) (p to : Str) (c : ℕ) (s : Str)
    → starts_with (x ∷ p) (c ∷ s) ≡ true
    → replace_from 0 (x ∷ p) to (c ∷ s) ≡ to ++ replace_from 0 (x ∷ p) to (drop (length p) s)
unfolding replace_from
replace_from_hit x p to c s h = rw h (rw (sub-one) (rw (replace_from-drop (length p) (x ∷ p) to s)))

replace_from_miss :
    (from to : Str) (c : ℕ) (s : Str)
    → starts_with from (c ∷ s) ≡ false
    → replace_from 0 from to (c ∷ s) ≡ c ∷ replace_from 0 from to s
unfolding replace_from
replace_from_miss from to c s h = rw h

-- A text that is the pattern is replaced whole.
pub replace_str_self : (x : ℕ) (p to : Str) → replace_str (x ∷ p) to (x ∷ p) ≡ to
unfolding replace_str replace_from
replace_str_self x p to =
    replace_from_hit x p to x p (rw append-nil at (starts_with-append (x ∷ p) []))
    ∙ (rw (drop_all (length p) p (omega arith)) (append-nil to))

-- The pattern is ASCII, so that its matches are whole characters.
abbrev pub IsAscii : Str → Type 0
IsAscii s = All (λ b. ltb b 128 ≡ true) s

well_formed_after :
    (k : ℕ) (p s : Str)
    → IsAscii p
    → is_empty p ≡ false
    → well_formed k (p ++ s) ≡ true
    → (k ≡ 0) × (well_formed 0 s ≡ true)
well_formed_after k [] s a e h = cc
well_formed_after k (x ∷ []) s a e h = well_formed_ascii k x s a.0 h
well_formed_after k (x ∷ y ∷ p) s a e h =
    let (z, w) = well_formed_ascii k x (y ∷ p ++ s) a.0 h in
    (z, (well_formed_after 0 (y ∷ p) s a.1 refl w).1)

well_formed_cons :
    (k c : ℕ) (s t : Str)
    → well_formed k (c ∷ s) ≡ true
    → ((j : ℕ) → well_formed j s ≡ true → well_formed j t ≡ true)
    → well_formed k (c ∷ t) ≡ true
unfolding well_formed
well_formed_cons zero c s t h f = elim (Option-cases (lead c)) [
  | inl e ↦ cc
  | inr (j, e) ↦ rw (e, well_formed) (f j (rw (e, well_formed) at h))
]
well_formed_cons (suc k) c s t h f = ground (arith, f k)

-- Replacing whole characters by a text keeps the text well formed.
replace_from-well_formed :
    (x : ℕ) (p to s : Str) (k skip : ℕ)
    → IsAscii (x ∷ p)
    → IsStr to
    → well_formed k (drop skip s) ≡ true
    → well_formed k (replace_from skip (x ∷ p) to s) ≡ true
unfolding replace_from
replace_from-well_formed x p to [] k zero a t h = h
replace_from-well_formed x p to [] k (suc skip) a t h = h
replace_from-well_formed x p to (c ∷ s) k (suc skip) a t h =
    replace_from-well_formed x p to s k skip a t h
replace_from-well_formed x p to (c ∷ s) k zero a t h =
    elim (Bool-cases (starts_with (x ∷ p) (c ∷ s))) [
      | inl hit ↦
          let split = starts_with-eq-append (x ∷ p) (c ∷ s) hit in
          let (z, w) = well_formed_after k (x ∷ p) (drop (length p) s) a refl (rw split at h) in
          rw (replace_from_hit x p to c s hit, z)
            (well_formed-append 0 to _ t (
              rw (← replace_from-drop (length p) (x ∷ p) to s)
                (replace_from-well_formed x p to s 0 (length p) a t w)))
      | inr miss ↦
          rw (replace_from_miss (x ∷ p) to c s miss)
            (well_formed_cons k c s _ h (λ j w. replace_from-well_formed x p to s j 0 a t w))
    ]

pub replace_str-IsStr :
    (x : ℕ) (p to s : Str) → IsAscii (x ∷ p) → IsStr to → IsStr s → IsStr (replace_str (x ∷ p) to s)
unfolding replace_str
replace_str-IsStr x p to s a t h = replace_from-well_formed x p to s 0 0 a t h

-- A text that ends with an ASCII character is a text and that character.
pub ends_with_last : (c : ℕ) (s : Str) → ends_with (c ∷ []) s ≡ true → (a : Str) × (s ≡ a ++ c ∷ [])
unfolding ends_with
ends_with_last c [] h = cc
ends_with_last c (x ∷ s) h = elim (Bool-cases (str_eq (c ∷ []) (x ∷ s))) [
  | inl e ↦ ([], sym ((str_eq_iff (c ∷ []) (x ∷ s)).0 e))
  | inr e ↦ let (a, f) = ends_with_last c s (rw e at h) in (x ∷ a, ap (◌∷◌ x) f)
]
