-- ===== src/Session/Valid/Texts.antt =====
-- crates/inline/src/session.rs: the blocks that streamed text changes, and where entries are put.
use camouflage.Prelude.{
  ℕ, zero, suc, ◌+◌, ◌<◌, ◌≡◌, refl, sym, ap, subst, ◌∙◌, Bool, true, Option, none, some, List, [],
  ◌∷◌, if◌then◌else◌, Bool-cases, length, drop, All, ◌≤◌, arith, inl, inr,
}
use mathlib.Core.Option.{some-injective, some-ne-none}
use camouflage.Text.{Str, str_eq}
use camouflage.Blocks.{
  Block, welcome, user, assistant, reasoning, tool, plan, notice, custom, group,
}
use camouflage.Session.{Session, Entry, entry}
use camouflage.Session.Maps.{lookup, insert, remove}
use camouflage.Session.Stream.{
  change_block, append_markdown, append_reasoning, set_markdown, insert_at, final_text,
}
use camouflage.Session.Still.{Consistent, ToolDone}
use camouflage.Session.Valid.{Mild, Grows, Grows-update_entry, Tells, map_All}

module _ {A : Type 0} (P : Str × A → Type 0) where
  pub All-insert :
      (k : Str) (a : A) (m : List (Str × A)) → P (k, a) → All P m → All P (insert str_eq k a m)
  unfolding insert
  All-insert k a [] p h = (p, tt)
  All-insert k a ((k', b) ∷ m) p h = elim (Bool-cases (str_eq k' k)) [
    | inl e ↦ rw (e, insert) (p, h.1)
    | inr e ↦ rw (e, insert) (h.0, All-insert k a m p h.1)
  ]

  pub All-remove : (k : Str) (m : List (Str × A)) → All P m → All P (remove str_eq k m)
  unfolding remove
  All-remove k [] h = tt
  All-remove k ((k', b) ∷ m) h = elim (Bool-cases (str_eq k' k)) [
    | inl e ↦ rw (e, remove) (All-remove k m h.1)
    | inr e ↦ rw (e, remove) (h.0, All-remove k m h.1)
  ]

pub All-lookup :
    {A : Type 0} (Q : A → Type 0) (k : Str) (a : A) (m : List (Str × A))
    → lookup str_eq k m ≡ some a
    → All (λ (x : Str × A). Q x.1) m
    → Q a
unfolding lookup
All-lookup Q k a [] e h = absurd (some-ne-none a (sym e))
All-lookup Q k a ((k', b) ∷ m) e h = elim (Bool-cases (str_eq k' k)) [
  | inl c ↦
      subst Q (some-injective b a (ap (λ t. if t then some b else lookup str_eq k m) (sym c) ∙ e))
        h.0
  | inr c ↦ All-lookup Q k a m (ap (λ t. if t then some b else lookup str_eq k m) (sym c) ∙ e) h.1
]

pub append_markdown-Mild : (t : Str) → Mild (append_markdown t)
append_markdown-Mild t (group g) = (refl, λ h. h)
append_markdown-Mild t (tool u) = (refl, λ h. h)
append_markdown-Mild t (welcome u d) = (refl, λ h. h)
append_markdown-Mild t (user u) = (refl, λ h. h)
append_markdown-Mild t (assistant u) = (refl, λ h. h)
append_markdown-Mild t (reasoning u) = (refl, λ h. h)
append_markdown-Mild t (plan i l) = (refl, λ h. h)
append_markdown-Mild t (notice k u) = (refl, λ h. h)
append_markdown-Mild t (custom l) = (refl, λ h. h)

pub append_reasoning-Mild : (t : Str) → Mild (append_reasoning t)
append_reasoning-Mild t (group g) = (refl, λ h. h)
append_reasoning-Mild t (tool u) = (refl, λ h. h)
append_reasoning-Mild t (welcome u d) = (refl, λ h. h)
append_reasoning-Mild t (user u) = (refl, λ h. h)
append_reasoning-Mild t (assistant u) = (refl, λ h. h)
append_reasoning-Mild t (reasoning u) = (refl, λ h. h)
append_reasoning-Mild t (plan i l) = (refl, λ h. h)
append_reasoning-Mild t (notice k u) = (refl, λ h. h)
append_reasoning-Mild t (custom l) = (refl, λ h. h)

pub set_markdown-Mild : (t : Str) → Mild (set_markdown t)
set_markdown-Mild t (group g) = (refl, λ h. h)
set_markdown-Mild t (tool u) = (refl, λ h. h)
set_markdown-Mild t (welcome u d) = (refl, λ h. h)
set_markdown-Mild t (user u) = (refl, λ h. h)
set_markdown-Mild t (assistant u) = (refl, λ h. h)
set_markdown-Mild t (reasoning u) = (refl, λ h. h)
set_markdown-Mild t (plan i l) = (refl, λ h. h)
set_markdown-Mild t (notice k u) = (refl, λ h. h)
set_markdown-Mild t (custom l) = (refl, λ h. h)

pub all_below : (n : ℕ) (es : List Entry) → All (λ (e : Entry). e.id < n) es → Tells n es
all_below n es h = map_All _ _ (λ e l i. absurd (ground (arith, l, i))) es h

pub at_position :
    {A : Type 0} (P : A → Type 0) (i : ℕ) (x : A) (xs : List A)
    → P x
    → All P xs
    → All P (insert_at i x xs)
at_position P zero x xs p h = (p, h)
at_position P (suc i) x [] p h = (p, tt)
at_position P (suc i) x (y ∷ xs) p h = (h.0, at_position P i x xs p h.1)

pub Grows-insert_at :
    (i n : ℕ) (es : List Entry) (block : Block) (done : Bool)
    → (done ≡ true → ToolDone block)
    → Grows n es (n + 1) (insert_at i (entry n block done) es)
Grows-insert_at i n es block done c = record {
  below = ground arith;
  fresh = λ h. at_position _ i _ es (ground arith) (map_All _ _ (λ e l. ground (arith, l)) es h);
  consistent = λ h. at_position Consistent i _ es c h;
  tells = λ id l t. at_position _ i _ es (λ e. absurd (ground (arith, l, e))) t;
}

-- The texts stay such through the last text of a reply.
pub final_text-Tells :
    (id : ℕ) (o : Option Str) (s : Session)
    → Tells id s.entries
    → id < s.next_id
    → Tells id (final_text id o s).entries
unfolding final_text change_block
final_text-Tells id none s t l = t
final_text-Tells id (some rest) s t l =
    (Grows-update_entry _ id s.next_id s.entries (set_markdown-Mild _)).tells id l t

pub drop-fits : {A : Type 0} (i : ℕ) (xs : List A) → length (drop i xs) ≤ length xs
drop-fits zero xs = ground arith
drop-fits (suc i) [] = ground arith
drop-fits (suc i) (x ∷ xs) = ground (arith, drop-fits i xs)
