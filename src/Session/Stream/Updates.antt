-- ===== src/Session/Stream/Updates.antt =====
-- crates/inline/src/session.rs: the change of one entry, and what the others are after it.
use camouflage.Prelude.{
  ℕ, ◌≡◌, refl, sym, ap, subst, ◌∙◌, Bool, true, false, Option, none, some, is_some, List, [], ◌∷◌,
  map, ◌==◌, ==_iff, if◌then◌else◌, Bool-cases, inl, inr, any, arith,
}
use camouflage.Blocks.{Block}
use camouflage.Session.{Entry, update_entry, find_block}

abbrev pub ids : List Entry → List ℕ
ids es = map (λ (e : Entry). e.id) es

abbrev pub map_block : (Block → Block) → Option Block → Option Block
map_block g none = none
map_block g (some b) = some (g b)

abbrev pub has_id : ℕ → List Entry → Bool
has_id id es = any (λ (x : Entry). x.id == id) es

pub has_id-find_block : (id : ℕ) (es : List Entry) → has_id id es ≡ is_some (find_block id es)
unfolding find_block
has_id-find_block id [] = refl
has_id-find_block id (e ∷ es) = ground (arith, has_id-find_block id es)

-- A change of an entry that keeps its identifier.
pub record Changes (g : Block → Block) (f : Entry → Entry) : Type 0 where
  pub id_is : (e : Entry) → (f e).id ≡ e.id
  pub block_is : (e : Entry) → (f e).block ≡ g e.block

pub ids-update_entry :
    (g : Block → Block) (f : Entry → Entry)
    → Changes g f
    → (id : ℕ) (es : List Entry) → ids (update_entry id f es) ≡ ids es
unfolding update_entry
ids-update_entry g f c id [] = refl
ids-update_entry g f c id (e ∷ es) = elim (Bool-cases (has_id id es)) [
  | inl h ↦ rw (h, update_entry) (ap (◌∷◌ e.id) (ids-update_entry g f c id es))
  | inr h ↦ elim (Bool-cases (e.id == id)) [
    | inl i ↦ rw (h, update_entry) (rw i (ap (λ k. k ∷ ids es) (c.id_is e)))
    | inr i ↦ rw (h, update_entry) (rw i refl)
  ]
]

-- `find_block` of a list, from what it finds behind the first entry.
abbrev pick : Option Block → Bool → Block → Option Block
pick x c b = if is_some x then x else if c then some b else none

abbrev pub changed_if : (Block → Block) → Bool → Option Block → Option Block
changed_if g same x = if same then map_block g x else x

pick-later :
    (g : Block → Block) (same c : Bool) (x : Option Block) (b : Block)
    → (same ≡ true → is_some x ≡ true)
    → pick (changed_if g same x) c b ≡ changed_if g same (pick x c b)
pick-later g true c none b h = absurd (ground (arith, h refl))
pick-later g true c (some y) b h = refl
pick-later g false c x b h = refl

pick-here :
    (g : Block → Block) (same c : Bool) (x : Option Block) (b : Block)
    → (same ≡ true → is_some x ≡ false)
    → c ≡ same
    → pick x c (g b) ≡ changed_if g same (pick x c b)
pick-here g true true none b h e = refl
pick-here g true c (some y) b h e = absurd (ground (arith, h refl))
pick-here g true false none b h e = absurd (ground (arith, e))
pick-here g false false x b h e = refl
pick-here g false true x b h e = absurd (ground (arith, e))

pick-other :
    (g : Block → Block) (same c : Bool) (x : Option Block) (b : Block)
    → (same ≡ true → is_some x ≡ false)
    → (same ≡ true → c ≡ false)
    → pick x c b ≡ changed_if g same (pick x c b)
pick-other g true false none b h e = refl
pick-other g true true none b h e = absurd (ground (arith, e refl))
pick-other g true c (some y) b h e = absurd (ground (arith, h refl))
pick-other g false c x b h e = refl

pub find_block-update_entry :
    (g : Block → Block) (f : Entry → Entry)
    → Changes g f
    → (k id : ℕ) (es : List Entry)
    → find_block k (update_entry id f es) ≡ changed_if g (k == id) (find_block k es)
unfolding update_entry find_block
find_block-update_entry g f c k id [] = nothing (k == id)
  where
    nothing : (b : Bool) → none ≡ changed_if g b none
    nothing true = refl
    nothing false = refl
find_block-update_entry g f c k id (e ∷ es) = elim (Bool-cases (has_id id es)) [
  | inl h ↦
      rw (h, update_entry)
        (rw (find_block-update_entry g f c k id es)
          (pick-later g (k == id) (e.id == k) (find_block k es) e.block (λ s. at_id s ∙ h)))
  | inr h ↦ elim (Bool-cases (e.id == id)) [
    | inl i ↦
        rw (h, update_entry)
          (rw (i, c.id_is e, c.block_is e)
            (pick-here g (k == id) (e.id == k) (find_block k es) e.block (λ s. at_id s ∙ h)
              (same i)))
    | inr i ↦
        rw (h, update_entry)
          (rw i (
            pick-other g (k == id) (e.id == k) (find_block k es) e.block (λ s. at_id s ∙ h)
              (other i)))
  ]
]
  where
    at_id : (k == id) ≡ true → is_some (find_block k es) ≡ has_id id es
    at_id s =
        subst (λ n. is_some (find_block n es) ≡ has_id id es) (sym ((==_iff k id).0 s))
          (sym (has_id-find_block id es))

    same : (e.id == id) ≡ true → (e.id == k) ≡ (k == id)
    same i = ground (arith, i)

    other : (e.id == id) ≡ false → (k == id) ≡ true → (e.id == k) ≡ false
    other i s = ground (arith, i, s)
