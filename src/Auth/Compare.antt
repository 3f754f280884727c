-- ===== src/Auth/Compare.antt =====
-- crates/headless/src/broadcast_auth.rs: `constant_time_eq` is equality.
use Prim.Native.Nat.{bit_or, bit_xor, bit_or-bitwise, bit_xor-bitwise, digits, differ}
use camouflage.Prelude.{
  ℕ, zero, suc, ◌/◌, ◌%◌, ◌≤◌, max, ◌≡◌, refl, sym, ap, ◌∙◌, ◌↔◌, arith, Bool, true, false, not, [],
  ◌∷◌, ◌==◌, if◌then◌else◌, length, ==_iff, ==_refl, subst,
}
use camouflage.Text.{Str}
use camouflage.Auth.{differences, constant_time_eq}

differ-zero : (x y : ℕ) → differ x y ≡ 0 → x ≡ y
differ-zero zero y h = sym h
differ-zero (suc x) zero h = h
differ-zero (suc x) (suc y) h = ap suc (differ-zero x y h)

differ_self : (x : ℕ) → differ x x ≡ 0
differ_self zero = refl
differ_self (suc x) = differ_self x

digits-differ : (n a b : ℕ) → a ≤ n → digits (λ b. b) differ n a b ≡ 0 → a ≡ b
digits-differ zero zero b l h = sym h
digits-differ zero (suc a) b l h = absurd (omega arith)
digits-differ (suc n) zero b l h = sym h
digits-differ (suc n) (suc a) b l h =
    let upper : suc a / 2 ≡ b / 2 =
      digits-differ n (suc a / 2) (b / 2) (omega arith) (omega (arith, h)) in
    let last : suc a % 2 ≡ b % 2 = differ-zero (suc a % 2) (b % 2) (omega (arith, h)) in
    omega (arith, upper, last)

digits-differ_self : (n a : ℕ) → a ≤ n → digits (λ b. b) differ n a a ≡ 0
digits-differ_self zero zero l = refl
digits-differ_self zero (suc a) l = absurd (omega arith)
digits-differ_self (suc n) zero l = refl
digits-differ_self (suc n) (suc a) l =
    omega (arith, digits-differ_self n (suc a / 2) (omega arith), differ_self (suc a % 2))

digits-max : (n a b : ℕ) → a ≤ n → digits (λ b. b) max n a b ≡ 0 → (a ≡ 0) × (b ≡ 0)
digits-max zero zero b l h = (refl, h)
digits-max zero (suc a) b l h = absurd (omega arith)
digits-max (suc n) zero b l h = (refl, h)
digits-max (suc n) (suc a) b l h =
    let upper = digits-max n (suc a / 2) (b / 2) (omega arith) (omega (arith, h)) in
    absurd (omega (arith, h, upper.0, upper.1))

bit_xor-zero : (x y : ℕ) → bit_xor x y ≡ 0 → x ≡ y
bit_xor-zero x y h = digits-differ x x y (omega arith) (sym (bit_xor-bitwise x y) ∙ h)

bit_xor_self : (x : ℕ) → bit_xor x x ≡ 0
bit_xor_self x = bit_xor-bitwise x x ∙ digits-differ_self x x (omega arith)

bit_or-zero : (a b : ℕ) → bit_or a b ≡ 0 → (a ≡ 0) × (b ≡ 0)
bit_or-zero a b h = digits-max a a b (omega arith) (sym (bit_or-bitwise a b) ∙ h)

differences-zero :
    (acc : ℕ) (a b : Str) → length a ≡ length b → differences acc a b ≡ 0 → (acc ≡ 0) × (a ≡ b)
unfolding differences
differences-zero acc [] [] l h = (h, refl)
differences-zero acc [] (y ∷ b) l h = absurd (omega arith)
differences-zero acc (x ∷ a) [] l h = absurd (omega arith)
differences-zero acc (x ∷ a) (y ∷ b) l h =
    let rest = differences-zero (bit_or acc (bit_xor x y)) a b (omega arith) h in
    let both = bit_or-zero acc (bit_xor x y) rest.0 in
    (both.0, rw (bit_xor-zero x y both.1, rest.1))

differences_self : (a : Str) → differences 0 a a ≡ 0
unfolding differences
differences_self [] = refl
differences_self (x ∷ a) = rw (bit_xor_self x) (differences_self a)

constant_time_eq_self : (a : Str) → constant_time_eq a a ≡ true
unfolding constant_time_eq
constant_time_eq_self a = rw (==_refl (length a), differences_self a) refl

-- `constant_time_eq` says whether two byte strings are equal.
pub constant_time_eq_iff : (a b : Str) → (constant_time_eq a b ≡ true) ↔ (a ≡ b)
unfolding constant_time_eq
constant_time_eq_iff a b = (
  equal (length a == length b) refl,
  λ h. subst (λ c. constant_time_eq a c ≡ true) h (constant_time_eq_self a),
)
  where
    equal :
        (l : Bool)
        → (length a == length b) ≡ l
        → (if not l then false else differences 0 a b == 0) ≡ true
        → a ≡ b
    equal false e h = absurd (ground (arith, h))
    equal true e h =
        (differences-zero 0 a b ((==_iff (length a) (length b)).0 e) ((==_iff _ 0).0 h)).1
