-- ===== src/Diff/Longest.antt =====
-- crates/inline/src/diff.rs: the table holds the lengths of longest common subsequences, and the
-- script keeps that many lines.
use camouflage.Prelude.{
  ℕ, zero, suc, ◌+◌, ◌≤◌, ◌<◌, max, ◌≡◌, refl, ap, ◌∙◌, Bool, List, [], ◌∷◌, leb, if◌then◌else◌,
  Bool-cases, retain, length, drop, get_or, replicate, arith, inl, inr,
}
use camouflage.Text.{Str, str_eq}
use camouflage.Text.Laws.{str_eq_refl}
use camouflage.Blocks.{DiffLine}
use camouflage.Diff.{is_context, at, walk, script, table, fill_row}

-- The reference: the length of a longest common subsequence.
abbrev pub lcs : List Str → List Str → ℕ
lcs [] ys = 0
lcs (x ∷ xs) [] = 0
lcs (x ∷ xs) (y ∷ ys) =
    if str_eq x y then lcs xs ys + 1 else max (lcs xs (y ∷ ys)) (lcs (x ∷ xs) ys)

pub data Subsequence : List Str → List Str → Type 0 where
  nil : Subsequence [] []
  skip : (c xs : List Str) (x : Str) → Subsequence c xs → Subsequence c (x ∷ xs)
  keep : (c xs : List Str) (x : Str) → Subsequence c xs → Subsequence (x ∷ c) (x ∷ xs)

lcs_row : List Str → List Str → List ℕ
lcs_row xs [] = lcs xs [] ∷ []
lcs_row xs (y ∷ ys) = lcs xs (y ∷ ys) ∷ lcs_row xs ys

row-head : (xs ys : List Str) → get_or (lcs_row xs ys) 0 0 ≡ lcs xs ys
unfolding lcs_row
row-head xs [] = refl
row-head xs (y ∷ ys) = refl

fill_row-lcs_row :
    (x : Str) (xs ys : List Str) → fill_row x ys (lcs_row xs ys) ≡ lcs_row (x ∷ xs) ys
unfolding fill_row lcs_row
fill_row-lcs_row x xs [] = refl
fill_row-lcs_row x xs (y ∷ ys) =
    rw (fill_row-lcs_row x xs ys, row-head xs ys, row-head (x ∷ xs) ys) refl

nil_row : (ys : List Str) → replicate (suc (length ys)) 0 ≡ lcs_row [] ys
unfolding lcs_row
nil_row [] = refl
nil_row (y ∷ ys) = ap (◌∷◌ 0) (nil_row ys)

lcs_rows : List Str → List Str → List (List ℕ)
lcs_rows [] ys = lcs_row [] ys ∷ []
lcs_rows (x ∷ xs) ys = lcs_row (x ∷ xs) ys ∷ lcs_rows xs ys

rows-head : (xs ys : List Str) → get_or (lcs_rows xs ys) 0 [] ≡ lcs_row xs ys
unfolding lcs_rows
rows-head [] ys = refl
rows-head (x ∷ xs) ys = refl

table-lcs_rows : (xs ys : List Str) → table xs ys ≡ lcs_rows xs ys
unfolding table lcs_rows
table-lcs_rows [] ys = ap (λ r. r ∷ []) (nil_row ys)
table-lcs_rows (x ∷ xs) ys =
    rw (table-lcs_rows xs ys, rows-head xs ys, fill_row-lcs_row x xs ys) refl

get-lcs_row :
    (xs ys : List Str) (j : ℕ) → j ≤ length ys → get_or (lcs_row xs ys) j 0 ≡ lcs xs (drop j ys)
unfolding lcs_row
get-lcs_row xs [] zero h = refl
get-lcs_row xs [] (suc j) h = absurd (omega arith)
get-lcs_row xs (y ∷ ys) zero h = refl
get-lcs_row xs (y ∷ ys) (suc j) h = get-lcs_row xs ys j (omega arith)

get-lcs_rows :
    (xs ys : List Str) (i : ℕ)
    → i ≤ length xs
    → get_or (lcs_rows xs ys) i [] ≡ lcs_row (drop i xs) ys
unfolding lcs_rows
get-lcs_rows [] ys zero h = refl
get-lcs_rows [] ys (suc i) h = absurd (omega arith)
get-lcs_rows (x ∷ xs) ys zero h = refl
get-lcs_rows (x ∷ xs) ys (suc i) h = get-lcs_rows xs ys i (omega arith)

-- Each entry of the table is the length for the lines from `i` and from `j` on.
pub at-table :
    (xs ys : List Str) (i j : ℕ)
    → i ≤ length xs
    → j ≤ length ys
    → at (table xs ys) i j ≡ lcs (drop i xs) (drop j ys)
at-table xs ys i j hi hj =
    rw (table-lcs_rows xs ys, get-lcs_rows xs ys i hi) (get-lcs_row (drop i xs) ys j hj)

drop-suc {ℓ} :
    {A : Type ℓ} (a xs : List A) (x : A) (i : ℕ)
    → drop i a ≡ x ∷ xs
    → (drop (suc i) a ≡ xs) × (i < length a)
drop-suc [] xs x zero h = absurd (ground (arith, h))
drop-suc [] xs x (suc i) h = absurd (ground (arith, h))
drop-suc (y ∷ a) xs x zero h = (ap (drop 1) h, omega arith)
drop-suc (y ∷ a) xs x (suc i) h = let (rest, lt) = drop-suc a xs x i h in (rest, omega (arith, lt))

abbrev pub kept : List DiffLine → ℕ
kept ds = length (retain is_context ds)

larger : (m n : ℕ) → n ≤ m → m ≡ max m n
larger m n h = omega arith

larger' : (m n : ℕ) → m ≤ n → n ≡ max m n
larger' m n h = omega arith

walk-kept :
    (a b : List Str) (i j : ℕ) (xs ys : List Str)
    → drop i a ≡ xs
    → drop j b ≡ ys
    → kept (walk (table a b) i j xs ys) ≡ lcs xs ys
unfolding walk
walk-kept a b i j [] [] hi hj = refl
walk-kept a b i j [] (y ∷ ys) hi hj = walk-kept a b i (suc j) [] ys hi (drop-suc b ys y j hj).0
walk-kept a b i j (x ∷ xs) [] hi hj =
    walk-kept a b (suc i) j xs [] (drop-suc a xs x i hi).0 hj ∙ no_more xs
  where
    no_more : (xs : List Str) → lcs xs [] ≡ 0
    no_more [] = refl
    no_more (x ∷ xs) = refl
walk-kept a b i j (x ∷ xs) (y ∷ ys) hi hj =
    let (rest, lt) = drop-suc a xs x i hi in
    let (rest', lt') = drop-suc b ys y j hj in
    let down : at (table a b) (suc i) j ≡ lcs xs (y ∷ ys) =
      at-table a b (suc i) j (omega (arith, lt)) (omega (arith, lt'))
      ∙ ap (λ z. lcs z (drop j b)) rest
      ∙ ap (lcs xs) hj in
    let right : at (table a b) i (suc j) ≡ lcs (x ∷ xs) ys =
      at-table a b i (suc j) (omega (arith, lt)) (omega (arith, lt'))
      ∙ ap (λ z. lcs z (drop (suc j) b)) hi
      ∙ ap (lcs (x ∷ xs)) rest' in
    let both = walk-kept a b (suc i) (suc j) xs ys rest rest' in
    let removed = walk-kept a b (suc i) j xs (y ∷ ys) rest hj in
    let added = walk-kept a b i (suc j) (x ∷ xs) ys hi rest' in
    elim (Bool-cases (str_eq x y)) [
      | inl e ↦ rw (e, walk) (omega (arith, both))
      | inr e ↦ elim (Bool-cases (leb (at (table a b) i (suc j)) (at (table a b) (suc i) j))) [
        | inl l ↦
            rw (e, l, walk)
              (removed
                ∙ larger (lcs xs (y ∷ ys)) (lcs (x ∷ xs) ys) (ground (arith, l, down, right)))
        | inr l ↦
            rw (e, l, walk)
              (added ∙ larger' (lcs xs (y ∷ ys)) (lcs (x ∷ xs) ys) (ground (arith, l, down, right)))
      ]
    ]

-- One more line on a side adds at most one to the length, and takes none away.
abbrev Steady : List Str → List Str → Type 0
Steady xs ys =
    ((x : Str) → (lcs xs ys ≤ lcs (x ∷ xs) ys) × (lcs (x ∷ xs) ys ≤ lcs xs ys + 1))
    × ((y : Str) → (lcs xs ys ≤ lcs xs (y ∷ ys)) × (lcs xs (y ∷ ys) ≤ lcs xs ys + 1))

-- One entry of the table between its neighbours.
entry-Steady :
    (b : Bool) (c n m : ℕ)
    → (c ≤ n) × (n ≤ c + 1)
    → (c ≤ m) × (m ≤ c + 1)
    → ((n ≤ (if b then c + 1 else max n m)) × ((if b then c + 1 else max n m) ≤ n + 1))
      × ((n ≤ (if b then c + 1 else max m n)) × ((if b then c + 1 else max m n) ≤ n + 1))
entry-Steady b c n m p q = ground arith

lcs-Steady : (xs ys : List Str) → Steady xs ys
lcs-Steady [] [] = (λ x. (omega arith, omega arith), λ y. (omega arith, omega arith))
lcs-Steady [] (y ∷ ys) =
    let (l, r) = lcs-Steady [] ys in
    (λ z. (entry-Steady (str_eq z y) _ _ _ (r y) (l z)).0, λ z. (omega arith, omega arith))
lcs-Steady (x ∷ xs) [] =
    let (l, r) = lcs-Steady xs [] in
    (λ z. (omega arith, omega arith), λ y. (entry-Steady (str_eq x y) _ _ _ (l x) (r y)).1)
lcs-Steady (x ∷ xs) (y ∷ ys) =
    let (l, r) = lcs-Steady (x ∷ xs) ys in
    let (l', r') = lcs-Steady xs (y ∷ ys) in
    (
      λ z. (entry-Steady (str_eq z y) _ _ _ (r y) (l z)).0,
      λ z. (entry-Steady (str_eq x z) _ _ _ (l' x) (r' z)).1,
    )

-- No common subsequence is longer than the reference says.
lcs-longest : (c xs ys : List Str) → Subsequence c xs → Subsequence c ys → length c ≤ lcs xs ys
lcs-longest c [] ys nil q = omega arith
lcs-longest c (x ∷ xs) [] p nil = omega arith
lcs-longest c (x ∷ xs) (y ∷ ys) (skip c' xs' x' p) q =
    omega (arith, lcs-longest c xs (y ∷ ys) p q, ((lcs-Steady xs (y ∷ ys)).0 x).0)
lcs-longest c (x ∷ xs) (y ∷ ys) p (skip c' ys' y' q) =
    omega (arith, lcs-longest c (x ∷ xs) ys p q, ((lcs-Steady (x ∷ xs) ys).1 y).0)
lcs-longest (z ∷ c) (x ∷ xs) (y ∷ ys) (keep c' xs' x' p) (keep c'' ys' y' q) =
    ground (arith, lcs-longest c xs ys p q, str_eq_refl z)

-- The script keeps at least as many lines as any sequence of lines that both texts contain in order.
pub script-longest :
    (a b c : List Str) → Subsequence c a → Subsequence c b → length c ≤ kept (script a b)
unfolding script
script-longest a b c p q = omega (arith, lcs-longest c a b p q, walk-kept a b 0 0 a b refl refl)
