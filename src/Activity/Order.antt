-- ===== src/Activity/Order.antt =====
-- crates/inline/src/activity.rs: the items that a list, its display order or a lookup gives are listed.
use camouflage.Prelude.{
  ℕ, zero, suc, ◌≡◌, refl, true, Option, none, some, [], ◌∷◌, leb, Bool-cases, get_elem?, All, inl,
  inr,
}
use camouflage.Text.{Str, str_eq}
use camouflage.Activity.{Item, Activity, get, rank, insert_ordered, ordered}

-- The list holds the item.
abbrev pub Holds : Activity → Item → Type 0
Holds items i = (n : ℕ) × (get_elem? items n ≡ some i)

abbrev pub Given : (Item → Type 0) → Option Item → Type 0
Given P none = Unit
Given P (some i) = P i

module _ (P : Item → Type 0) where
  All-of_get_elem? :
      (items : Activity) → ((n : ℕ) (i : Item) → get_elem? items n ≡ some i → P i) → All P items
  All-of_get_elem? [] h = tt
  All-of_get_elem? (x ∷ xs) h = (h 0 x refl, All-of_get_elem? xs (λ n i e. h (suc n) i e))

  pub get_elem?-Given : (items : Activity) (n : ℕ) → All P items → Given P (get_elem? items n)
  get_elem?-Given [] n h = tt
  get_elem?-Given (x ∷ xs) zero h = h.0
  get_elem?-Given (x ∷ xs) (suc n) h = get_elem?-Given xs n h.1

  -- An item that is looked up has what all have, and the identifier.
  get-Given :
      (id : Str) (items : Activity)
      → All P items
      → Given (λ i. P i × (str_eq i.id id ≡ true)) (get items id)
  unfolding get
  get-Given id [] h = tt
  get-Given id (x ∷ xs) h = elim (Bool-cases (str_eq x.id id)) [
    | inl e ↦ rw e (h.0, e)
    | inr e ↦ rw e (get-Given id xs h.1)
  ]

  insert_ordered-All : (i : Item) (xs : Activity) → P i → All P xs → All P (insert_ordered i xs)
  unfolding insert_ordered
  insert_ordered-All i [] p h = (p, tt)
  insert_ordered-All i (x ∷ xs) p h = elim (Bool-cases (leb (rank i) (rank x))) [
    | inl e ↦ rw e (p, h)
    | inr e ↦ rw e (h.0, insert_ordered-All i xs p h.1)
  ]

  ordered-All : (items : Activity) → All P items → All P (ordered items)
  unfolding ordered
  ordered-All [] h = tt
  ordered-All (i ∷ items) h = insert_ordered-All i (ordered items) h.0 (ordered-All items h.1)

all-Holds : (items : Activity) → All (Holds items) items
all-Holds items = All-of_get_elem? (Holds items) items (λ n i e. (n, e))

pub ordered-Holds : (items : Activity) → All (Holds items) (ordered items)
ordered-Holds items = ordered-All (Holds items) items (all-Holds items)

pub get-Holds :
    (id : Str) (items : Activity)
    → Given (λ i. Holds items i × (str_eq i.id id ≡ true)) (get items id)
get-Holds id items = get-Given (Holds items) id items (all-Holds items)
