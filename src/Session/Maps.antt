-- ===== src/Session/Maps.antt =====
-- The maps of a session (`HashMap` and `BTreeMap` in crates/inline/src/session.rs), as association
-- lists.
use camouflage.Prelude.{
  ◌≡◌, refl, ap, Bool, true, false, Bool-cases, inl, inr, ◌↔◌, ◌⊎◌, sym, ◌∙◌, Option, none, some,
  List, [], ◌∷◌, if◌then◌else◌, arith,
}

same_test :
    {A : Type 0} (d : Bool) (x y z : A)
    → (if d then x else z) ≡ (if d then x else if d then y else z)
same_test true x y z = refl
same_test false x y z = refl

other_test :
    {A : Type 0} (d c : Bool) (x y z : A)
    → (c ≡ true → d ≡ false)
    → (if c then y else if d then x else z) ≡ (if d then x else if c then y else z)
other_test true true x y z h = absurd (ground (arith, h refl))
other_test true false x y z h = refl
other_test false true x y z h = refl
other_test false false x y z h = refl

pub clash : (c : Bool) → c ≡ false → c ≡ true → ⊥
clash c f g = absurd (ground (arith, f, g))

module _ {K A : Type 0} (eq : K → K → Bool) where
  unfoldable pub lookup : K → List (K × A) → Option A
  lookup k [] = none
  lookup k ((k', a) ∷ m) = if eq k' k then some a else lookup k m

  unfoldable pub insert : K → A → List (K × A) → List (K × A)
  insert k a [] = (k, a) ∷ []
  insert k a ((k', b) ∷ m) =
      let rest = insert k a m in if eq k' k then (k, a) ∷ m else (k', b) ∷ rest

  unfoldable pub remove : K → List (K × A) → List (K × A)
  remove k [] = []
  remove k ((k', a) ∷ m) = let rest = remove k m in if eq k' k then rest else (k', a) ∷ rest

  -- An insertion, read back at any key.
  pub lookup-insert :
      ((a b : K) → (eq a b ≡ true) ↔ (a ≡ b))
      → (k j : K) (a : A) (m : List (K × A))
      → lookup j (insert k a m) ≡ (if eq k j then some a else lookup j m)
  unfolding lookup insert
  lookup-insert t k j a [] = refl
  lookup-insert t k j a ((k', b) ∷ m) = elim (Bool-cases (eq k' k)) [
    | inl e ↦
        rw (e, insert)
          (rw (ap (λ c. eq c j) ((t k' k).0 e)) (same_test (eq k j) (some a) (some b) (lookup j m)))
    | inr e ↦
        rw (e, insert)
          (rw (lookup-insert t k j a m) (
            other_test (eq k j) (eq k' j) (some a) (some b) (lookup j m)
              (λ f. apart (Bool-cases (eq k j)) f e)))
  ]
    where
      apart : (eq k j ≡ true) ⊎ (eq k j ≡ false) → eq k' j ≡ true → eq k' k ≡ false → eq k j ≡ false
      apart (inl g) f e = absurd (clash (eq k' k) e ((t k' k).1 ((t k' j).0 f ∙ sym ((t k j).0 g))))
      apart (inr g) f e = g
