-- ===== src/Session/Stream/Sound.antt =====
-- crates/inline/src/session.rs: entries have different identifiers, and different open streams have
-- different entries.
use camouflage.Prelude.{
  ℕ, ◌+◌, ◌<◌, ◌≡◌, refl, sym, ap, subst, ◌∙◌, Bool, true, false, some, List, [], ◌∷◌, ◌++◌, ◌==◌,
  if◌then◌else◌, Bool-cases, inl, inr, ◌⊎◌, All, All-append, arith,
}
use mathlib.Core.Option.{some-injective}
use camouflage.Text.{Str, str_eq}
use camouflage.Text.Laws.{str_eq_iff}
use camouflage.Blocks.{Block, assistant}
use camouflage.Session.{Session, Entry, entry, push, push_quiet}
use camouflage.Session.Maps.{lookup, insert, lookup-insert}
use camouflage.Session.Stream.{open_stream, change_block}
use camouflage.Session.Stream.Keeps.{Keeps}
use camouflage.Session.Stream.Updates.{ids, ids-update_entry}

abbrev pub Unique : List ℕ → Type 0
Unique [] = Unit
Unique (i ∷ is) = All (λ k. (k == i) ≡ false) is × Unique is

pub record Sound (s : Session) : Type 0 where
  pub fresh : All (λ i. i < s.next_id) (ids s.entries)
  pub unique : Unique (ids s.entries)
  pub below : (sid : Str) (id : ℕ) → lookup str_eq sid s.streams ≡ some id → id < s.next_id
  pub apart :
      (a b : Str) (id : ℕ)
      → lookup str_eq a s.streams ≡ some id
      → lookup str_eq b s.streams ≡ some id
      → a ≡ b

-- The parts of a session that it is sound by.
Sound-same :
    (a b : Session)
    → b.streams ≡ a.streams
    → b.next_id ≡ a.next_id
    → ids b.entries ≡ ids a.entries
    → Sound a
    → Sound b
Sound-same a b st ne en h = record {
  fresh =
      subst (λ n. All (λ i. i < n) (ids b.entries)) (sym ne)
        (subst (λ l. All (λ i. i < a.next_id) l) (sym en) h.fresh);
  unique = subst Unique (sym en) h.unique;
  below = λ sid id e.
      subst (λ n. id < n) (sym ne) (h.below sid id (sym (ap (lookup str_eq sid) st) ∙ e));
  apart = λ x y id e f.
      h.apart x y id (sym (ap (lookup str_eq x) st) ∙ e) (sym (ap (lookup str_eq y) st) ∙ f);
}

pub Keeps-Sound : (a b : Session) → Keeps a b → Sound a → Sound b
Keeps-Sound a b k h = Sound-same a b k.streams_is k.next_is k.ids_is h

pub change_block-Sound :
    (id : ℕ) (g : Block → Block) (s : Session) → Sound s → Sound (change_block id g s)
unfolding change_block
change_block-Sound id g s h =
    Sound-same s _ refl refl
      (ids-update_entry g (λ (e : Entry). record e { block = g e.block })
        (record { id_is = λ e. refl; block_is = λ e. refl }) id s.entries)
      h

ids-append : (es fs : List Entry) → ids (es ++ fs) ≡ ids es ++ ids fs
ids-append [] fs = refl
ids-append (e ∷ es) fs = ap (◌∷◌ e.id) (ids-append es fs)

pub All-weaken : (n : ℕ) (is : List ℕ) → All (λ i. i < n) is → All (λ i. i < n + 1) is
All-weaken n [] h = tt
All-weaken n (i ∷ is) h = (omega (arith, h.0), All-weaken n is h.1)

pub All-apart : (n : ℕ) (is : List ℕ) → All (λ i. i < n) is → All (λ k. (k == n) ≡ false) is
All-apart n [] h = tt
All-apart n (i ∷ is) h = (ground (arith, h.0), All-apart n is h.1)

Unique-push : (n : ℕ) (is : List ℕ) → All (λ i. i < n) is → Unique is → Unique (is ++ n ∷ [])
Unique-push n [] f u = (tt, tt)
Unique-push n (i ∷ is) f u = (
  All-append (λ k. (k == i) ≡ false) is (n ∷ []) u.0 (ground (arith, f.0), tt),
  Unique-push n is f.1 u.1,
)

-- A stream that opens has a new entry.
module _ (sid : Str) (s : Session) (h : Sound s) where
  opened : List (Str × ℕ)
  opened = insert str_eq sid s.next_id s.streams

  lookup-opened :
      (x : Str) (id : ℕ)
      → lookup str_eq x opened ≡ some id
      → (str_eq sid x ≡ true) × (id ≡ s.next_id) ⊎ (lookup str_eq x s.streams ≡ some id)
  unfolding opened
  lookup-opened x id e = elim (Bool-cases (str_eq sid x)) [
    | inl b ↦ inl (b, sym (some-injective s.next_id id (subst test b found)))
    | inr b ↦ inr (subst test b found)
  ]
    where
      test : Bool → Type 0
      test c = (if c then some s.next_id else lookup str_eq x s.streams) ≡ some id

      found : test (str_eq sid x)
      found = sym (lookup-insert str_eq str_eq_iff sid x s.next_id s.streams) ∙ e

  Opened : Str → ℕ → Type 0
  Opened x id = (str_eq sid x ≡ true) × (id ≡ s.next_id) ⊎ (lookup str_eq x s.streams ≡ some id)

  same : (x y : Str) (id : ℕ) → Opened x id → Opened y id → x ≡ y
  unfolding Opened
  same x y id (inl (b, q)) (inl (c, r)) = sym ((str_eq_iff sid x).0 b) ∙ (str_eq_iff sid y).0 c
  same x y id (inl (b, q)) (inr l) = absurd (omega (arith, q, h.below y id l))
  same x y id (inr l) (inl (c, r)) = absurd (omega (arith, r, h.below x id l))
  same x y id (inr l) (inr k) = h.apart x y id l k

  pub open_stream-Sound : Sound (open_stream sid s).0
  unfolding open_stream push push_quiet opened Opened
  open_stream-Sound = record {
    fresh = rw (ids-append s.entries (entry s.next_id (assistant []) false ∷ [])) (
        All-append (λ i. i < s.next_id + 1) (ids s.entries) (s.next_id ∷ [])
          (All-weaken s.next_id (ids s.entries) h.fresh) (omega arith, tt));
    unique =
        rw (ids-append s.entries (entry s.next_id (assistant []) false ∷ []))
          (Unique-push s.next_id (ids s.entries) h.fresh h.unique);
    below = λ x id e. elim (lookup-opened x id e) [
      | inl (b, q) ↦ omega (arith, q)
      | inr l ↦ omega (arith, h.below x id l)
    ];
    apart = λ x y id e f. same x y id (lookup-opened x id e) (lookup-opened y id f);
  }
