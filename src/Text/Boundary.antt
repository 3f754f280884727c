-- ===== src/Text/Boundary.antt =====
-- Byte offsets at which a text may be cut (`is_char_boundary`), and edits at such offsets.
use camouflage.Prelude.{
  ℕ, zero, suc, ◌+◌, ◌≤◌, true, [], ◌∷◌, ◌++◌, ◌≡◌, refl, ap, arith, length, ltb, subst, take, drop,
  take-append-drop, take-append_length, drop-append_length, length-append, length-take, length-drop,
  drop-add, append-nil,
}
use camouflage.Text.{Str, starts_char}
use camouflage.Text.Laws.{StandsAt, starts_with-eq-append}
use camouflage.Text.Utf8.{
  IsStr, well_formed-append, well_formed-cut, well_formed_ascii, IsStr-nil, IsStr-ascii,
  starts_char_of_IsStr,
}

-- Both sides of the cut are texts.
pub record Boundary (s : Str) (i : ℕ) : Type 0 where
  pub in_range : i ≤ length s
  pub before : IsStr (take i s)
  pub after : IsStr (drop i s)

pub Boundary-IsStr : (s : Str) (i : ℕ) → Boundary s i → IsStr s
Boundary-IsStr s i b =
    rw take-append-drop at (well_formed-append 0 (take i s) (drop i s) b.before b.after)

pub Boundary-of_starts_char :
    (s : Str) (i : ℕ) → IsStr s → i ≤ length s → starts_char (drop i s) ≡ true → Boundary s i
Boundary-of_starts_char s i h le c =
    let (p, q) = well_formed-cut 0 (take i s) (drop i s) (rw (take-append-drop i s) h) c in
    record { in_range = le; before = p; after = q }

pub Boundary-append : (a b : Str) → IsStr a → IsStr b → Boundary (a ++ b) (length a)
Boundary-append a b ha hb = record {
  in_range = omega (arith, length-append a b);
  before = rw (take-append_length a b) ha;
  after = rw (drop-append_length a b) hb;
}

pub Boundary-zero : (s : Str) → IsStr s → Boundary s 0
Boundary-zero s h = Boundary-append [] s IsStr-nil h

pub Boundary-length : (s : Str) → IsStr s → Boundary s (length s)
Boundary-length s h = rw append-nil at (Boundary-append s [] h IsStr-nil)

take-take : (j i : ℕ) (s : Str) → j ≤ i → take j (take i s) ≡ take j s
take-take zero i s h = refl
take-take (suc j) zero s h = absurd (omega arith)
take-take (suc j) (suc i) [] h = refl
take-take (suc j) (suc i) (x ∷ s) h = ap (◌∷◌ x) (take-take j i s (omega arith))

drop-take-append : (j i : ℕ) (s : Str) → j ≤ i → drop j (take i s) ++ drop i s ≡ drop j s
drop-take-append zero i s h = take-append-drop i s
drop-take-append (suc j) zero s h = absurd (omega arith)
drop-take-append (suc j) (suc i) [] h = refl
drop-take-append (suc j) (suc i) (x ∷ s) h = drop-take-append j i s (omega arith)

-- A cut of the part in front of a cut.
pub Boundary-take : (s : Str) (i j : ℕ) → Boundary s i → Boundary (take i s) j → Boundary s j
Boundary-take s i j b c =
    let le : j ≤ i = omega (arith, c.in_range, length-take i s) in
    record {
      in_range = omega (arith, c.in_range, b.in_range, length-take i s);
      before = rw (take-take j i s le) at c.before;
      after =
          rw (drop-take-append j i s le) at
            (well_formed-append 0 (drop j (take i s)) (drop i s) c.after b.after);
    }

take-add : (i j : ℕ) (s : Str) → take (i + j) s ≡ take i s ++ take j (drop i s)
take-add zero j s = rw (plus j)
  where
    plus : (m : ℕ) → zero + m ≡ m
    plus m = omega arith
take-add (suc i) zero [] = rw (plus i)
  where
    plus : (m : ℕ) → suc m + zero ≡ suc m
    plus m = omega arith
take-add (suc i) (suc j) [] = rw (plus i j)
  where
    plus : (m n : ℕ) → suc m + suc n ≡ suc (m + suc n)
    plus m n = omega arith
take-add (suc i) j (x ∷ s) = rw (plus i j) (ap (◌∷◌ x) (take-add i j s))
  where
    plus : (m n : ℕ) → suc m + n ≡ suc (m + n)
    plus m n = omega arith

-- A cut of the part behind a cut.
pub Boundary-drop : (s : Str) (i j : ℕ) → Boundary s i → Boundary (drop i s) j → Boundary s (i + j)
Boundary-drop s i j b c = record {
  in_range = omega (arith, c.in_range, b.in_range, length-drop i s);
  before =
      rw (take-add i j s) (well_formed-append 0 (take i s) (take j (drop i s)) b.before c.before);
  after = rw (drop-add i j s) c.after;
}

-- The text that an edit leaves, cut behind the new part.
pub Boundary-replace :
    (s t : Str) (a b : ℕ)
    → Boundary s a
    → Boundary s b
    → IsStr t
    → Boundary (take a s ++ t ++ drop b s) (a + length t)
Boundary-replace s t a b ha hb ht =
    let e : length (take a s ++ t) ≡ a + length t =
      omega (arith, length-append (take a s) t, length-take a s, ha.in_range) in
    subst (Boundary (take a s ++ t ++ drop b s)) e (
      Boundary-append (take a s ++ t) (drop b s) (well_formed-append 0 (take a s) t ha.before ht)
        hb.after)

Boundary-cons : (s r : Str) (c : ℕ) → ltb c 128 ≡ true → IsStr s → s ≡ c ∷ r → Boundary s 1
Boundary-cons s r c a h e =
    rw e (Boundary-append (c ∷ []) r (IsStr-ascii c a) (well_formed_ascii 0 c r a (rw e at h)).1)

-- A place where an ASCII character stands, and the place behind it.
pub Boundary-of_ascii :
    (s : Str) (c i : ℕ)
    → ltb c 128 ≡ true
    → IsStr s
    → StandsAt (c ∷ []) s i
    → Boundary s i × Boundary s (i + 1)
Boundary-of_ascii s c i a h (le, at) =
    let split = starts_with-eq-append (c ∷ []) (drop i s) at in
    let here = Boundary-of_starts_char s i h le (rw split (ground arith)) in
    (
      here,
      Boundary-drop s i 1 here (Boundary-cons (drop i s) (drop 1 (drop i s)) c a here.after split),
    )

-- Two cuts of a text cut the part in front of the later one.
pub Boundary-within :
    (s : Str) (a b : ℕ) → a ≤ b → Boundary s a → Boundary s b → Boundary (take b s) a
Boundary-within s a b le ha hb =
    let whole : IsStr (drop a (take b s) ++ drop b s) = rw (drop-take-append a b s le) ha.after in
    record {
      in_range = omega (arith, length-take b s, ha.in_range, hb.in_range);
      before = rw (take-take a b s le) ha.before;
      after =
          (well_formed-cut 0 (drop a (take b s)) (drop b s) whole
            (starts_char_of_IsStr (drop b s) hb.after)).0;
    }
