-- ===== src/Validate/Order.antt =====
-- crates/headless/src/validate.rs: the check of the order of the numbers.
use camouflage.Prelude.{
  ℕ, ◌+◌, ◌≡◌, refl, subst, arith, true, false, Option, none, some, List, [], ◌∷◌, ◌++◌, ◌==◌,
  ==_iff, if◌then◌else◌, is_empty, Bool-cases, inl, inr, ◌<◌,
}
use camouflage.Prelude.Int.{ℤ, pos_part, neg_part, leb_ℤ}
use camouflage.Validate.{
  ValidationError, seq_out_of_order, State, count_valid, push_error, last_of, set_last, check_seq,
  check_order,
}

-- A number that is more than the last one, if there is one.
abbrev pub Above : Option ℤ → ℤ → Type 0
Above none n = Unit
Above (some p) n = pos_part p + neg_part n < pos_part n + neg_part p

abbrev pub Ascending : Option ℤ → List ℤ → Type 0
Ascending o [] = Unit
Ascending o (n ∷ ns) = Above o n × Ascending (some n) ns

-- The number that an envelope gives to a session.
abbrev pub number_in : ℕ → Option ℕ → Option ℤ → Option ℤ
number_in id (some k) (some n) = if k == id then some n else none
number_in id (some k) none = none
number_in id none n = none

abbrev pub add_number : Option ℤ → List ℤ → List ℤ
add_number none ns = ns
add_number (some n) ns = n ∷ ns

-- How a line changes the last number of a session.
abbrev pub Follows : Option ℤ → Option ℤ → Option ℤ → Type 0
Follows none before after = after ≡ before
Follows (some n) before after = Above before n × (after ≡ some n)

abbrev pub NoErrors : State → Type 0
NoErrors st = is_empty st.1.errors ≡ true

pub push_error-not :
    (e : ValidationError) (es : List ValidationError) → is_empty (es ++ e ∷ []) ≡ false
push_error-not e [] = refl
push_error-not e (d ∷ es) = refl

last_of-set_last :
    (id k : ℕ) (v : ℤ) (m : List (ℕ × ℤ))
    → last_of id (set_last k v m) ≡ (if k == id then some v else last_of id m)
unfolding last_of set_last
last_of-set_last id k v [] = refl
last_of-set_last id k v ((j, n) ∷ m) = ground (arith, last_of-set_last id k v m)

set_last-Follows :
    (id k : ℕ) (n : ℤ) (m : List (ℕ × ℤ))
    → Above (last_of k m) n
    → Follows (if k == id then some n else none) (last_of id m) (last_of id (set_last k n m))
set_last-Follows id k n m h = elim (Bool-cases (k == id)) [
  | inl e ↦
      rw (last_of-set_last id k n m)
        (rw e (subst (λ i. Above (last_of i m) n) ((==_iff k id).0 e) h, refl))
  | inr e ↦ rw (last_of-set_last id k n m) (rw e refl)
]

check_seq-Follows :
    (line id k : ℕ) (n : ℤ) (o : Option ℤ) (st : State)
    → last_of k st.0 ≡ o
    → NoErrors (check_seq line k n o st)
    → Follows
        (if k == id then some n else none)
        (last_of id st.0)
        (last_of id (check_seq line k n o st).0)
unfolding check_seq
check_seq-Follows line id k n none (m, r) h e = set_last-Follows id k n m (rw h tt)
check_seq-Follows line id k n (some p) (m, r) h e = elim (Bool-cases (leb_ℤ n p)) [
  | inl l ↦ absurd (failed (subst (λ b. NoErrors (if b then late else in_time)) l e))
  | inr l ↦ rw l (set_last-Follows id k n m (rw h (after l)))
]
  where
    late : State
    late = (m, push_error (seq_out_of_order line k n p) r)

    in_time : State
    in_time = (set_last k n m, count_valid r)

    failed : ¬ (NoErrors late)
    failed f = absurd (ground (arith, f, push_error-not (seq_out_of_order line k n p) r.errors))

    after : leb_ℤ n p ≡ false → Above (some p) n
    after f = ground (arith, f)

pub check_order-Follows :
    (line id : ℕ) (k : Option ℕ) (n : Option ℤ) (st : State)
    → NoErrors (check_order line k n st)
    → Follows (number_in id k n) (last_of id st.0) (last_of id (check_order line k n st).0)
unfolding check_order
check_order-Follows line id (some k) (some n) (m, r) e =
    check_seq-Follows line id k n (last_of k m) (m, r) refl e
check_order-Follows line id (some k) none (m, r) e = refl
check_order-Follows line id none n (m, r) e = refl

check_seq-errors :
    (line k : ℕ) (n : ℤ) (o : Option ℤ) (st : State)
    → NoErrors (check_seq line k n o st)
    → NoErrors st
unfolding check_seq
check_seq-errors line k n none (m, r) e = e
check_seq-errors line k n (some p) (m, r) e =
    ground (arith, e, push_error-not (seq_out_of_order line k n p) r.errors)

pub check_order-errors :
    (line : ℕ) (k : Option ℕ) (n : Option ℤ) (st : State)
    → NoErrors (check_order line k n st)
    → NoErrors st
unfolding check_order
check_order-errors line (some k) (some n) (m, r) e =
    check_seq-errors line k n (last_of k m) (m, r) e
check_order-errors line (some k) none (m, r) e = e
check_order-errors line none n (m, r) e = e

pub Ascending-add :
    (o : Option ℤ) (before after : Option ℤ) (ns : List ℤ)
    → Follows o before after
    → Ascending after ns
    → Ascending before (add_number o ns)
Ascending-add none before after ns f a = subst (λ l. Ascending l ns) f a
Ascending-add (some n) before after ns (above, f) a = (above, subst (λ l. Ascending l ns) f a)
