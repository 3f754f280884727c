-- ===== src/Session/Stream/Paragraph.antt =====
-- crates/inline/src/session.rs: `split_streaming_paragraphs` prints the beginning of the reply that
-- streams in the first entry.
use camouflage.Prelude.{
  ℕ, ◌+◌, ◌-◌, ◌≡◌, refl, sym, ap, subst, ◌∙◌, Bool, true, false, Option, none, some, List, [], ◌∷◌,
  ◌++◌, ◌==◌, if◌then◌else◌, Bool-cases, All, inl, inr, arith, append_assoc, take, drop, length,
  is_empty, take-append-drop, take-append_length, length-append,
}
use camouflage.Text.{Str, trim_end, is_blank}
use camouflage.Blocks.{Block, assistant}
use camouflage.Session.{Session, Entry, entry}
use camouflage.Session.Stream.{
  trim_newlines, tail_of, consumed_of, add_prefix, paragraph_split, split_text, split_block,
  split_first, split_streaming_paragraphs,
}

abbrev pub Newlines : Str → Type 0
Newlines s = All (λ b. b ≡ b'\n') s

trim_newlines-parts : (s : Str) → (p : Str) × Newlines p × (s ≡ p ++ trim_newlines s)
unfolding trim_newlines
trim_newlines-parts [] = ([], tt, refl)
trim_newlines-parts (b ∷ s) = elim (Bool-cases (b == b'\n')) [
  | inl e ↦
      rw e (let (p, n, q) = trim_newlines-parts s in (b ∷ p, (ground (arith, e), n), ap (◌∷◌ b) q))
  | inr e ↦ rw e ([], tt, refl)
]

trim_end-parts : (s : Str) → (w : Str) × (is_blank w ≡ true) × (s ≡ trim_end s ++ w)
unfolding trim_end
trim_end-parts [] = ([], unfold is_blank in refl, refl)
trim_end-parts (b ∷ s) = elim (Bool-cases (is_blank (b ∷ s))) [
  | inl e ↦ (b ∷ s, e, rw e refl)
  | inr e ↦ let (w, h, q) = trim_end-parts s in (w, h, rw e (ap (◌∷◌ b) q))
]

take-before : (p t : Str) → take (length (p ++ t) - length t) (p ++ t) ≡ p
take-before p t =
    subst (λ n. take n (p ++ t) ≡ p) (omega (arith, length-append p t)) (take-append_length p t)

consumed_of-parts :
    (at : ℕ) (md : Str)
    → (q : Str) × Newlines q
      × (consumed_of at md ≡ take at md ++ q)
      × (md ≡ (take at md ++ q) ++ tail_of at md)
consumed_of-parts at md =
    let (q, n, e) = trim_newlines-parts (drop at md) in
    let whole : md ≡ (take at md ++ q) ++ tail_of at md =
      sym (take-append-drop at md)
      ∙ ap (λ t. take at md ++ t) e
      ∙ sym (append_assoc (take at md) q (tail_of at md)) in
    (
      q,
      n,
      ap (λ m. take (length m - length (tail_of at md)) m) whole
          ∙ take-before (take at md ++ q) (tail_of at md),
      whole,
    )

-- What is printed and what is left are the whole text.
pub consumed_of-append : (at : ℕ) (md : Str) → consumed_of at md ++ tail_of at md ≡ md
consumed_of-append at md =
    let (q, n, before, whole) = consumed_of-parts at md in
    ap (λ t. t ++ tail_of at md) before ∙ sym whole

-- What the step may do: nothing, or the text of the reply in the first entry, which is not done, is
-- cut in four. The first part, which is not empty, becomes an entry of its own that is done, the blank
-- part and the newlines behind it are dropped, the rest stays, and the first three are noted as
-- printed.
pub data Printed (s : Session) : Session → Type 0 where
  as_before : Printed s s
  in_front :
      (e : Entry) (es : List Entry) (head space newlines tail : Str)
      → s.entries ≡ e ∷ es
      → e.done ≡ false
      → e.block ≡ assistant (head ++ space ++ newlines ++ tail)
      → is_empty head ≡ false
      → is_blank space ≡ true
      → Newlines newlines
      → Printed s (record s {
        printed_prefix = add_prefix e.id (head ++ space ++ newlines) s.printed_prefix;
        next_id = s.next_id + 1;
        entries = entry s.next_id (assistant head) true ∷ record e { block = assistant tail } ∷ es;
      })

module _ (e : Entry) (es : List Entry) (s : Session) where
  abbrev after : Str → Str → Str → Session
  after consumed head tail = record s {
    printed_prefix = add_prefix e.id consumed s.printed_prefix;
    next_id = s.next_id + 1;
    entries = entry s.next_id (assistant head) true ∷ record e { block = assistant tail } ∷ es;
  }

  split_text-Printed :
      (o : Option ℕ) (md : Str)
      → s.entries ≡ e ∷ es
      → e.done ≡ false
      → e.block ≡ assistant md
      → Printed s (split_text o md e es s)
  unfolding split_text
  split_text-Printed none md en d bl = as_before
  split_text-Printed (some at) md en d bl =
      let (q, n, before, whole) = consumed_of-parts at md in
      let (w, blank, cut) = trim_end-parts (take at md) in
      let head = trim_end (take at md) in
      let consumed : head ++ w ++ q ≡ take at md ++ q = ap (λ t. t ++ q) (sym cut) in
      elim (Bool-cases (is_empty (trim_end (take at md)))) [
        | inl c ↦ rw c as_before
        | inr c ↦ rw c (
            subst (λ t. Printed s (after t head (tail_of at md))) (consumed ∙ sym before)
              (in_front e es head w q (tail_of at md) en d
                (bl ∙ ap assistant (whole ∙ ap (λ t. t ++ tail_of at md) (sym consumed))) c blank
                n))
      ]

  split_block-Printed :
      (b : Block)
      → s.entries ≡ e ∷ es
      → e.done ≡ false
      → e.block ≡ b
      → Printed s (split_block b e es s)
  unfolding split_block
  split_block-Printed (assistant md) en d bl = split_text-Printed (paragraph_split md) md en d bl
  split_block-Printed b en d bl = as_before

split_first-Printed :
    (es : List Entry) (s : Session) → s.entries ≡ es → Printed s (split_first es s)
unfolding split_first
split_first-Printed [] s en = as_before
split_first-Printed (e ∷ es) s en = either e.done refl
  where
    either : (b : Bool) → e.done ≡ b → Printed s (if b then s else split_block e.block e es s)
    either true d = as_before
    either false d = split_block-Printed e es s e.block en d refl

pub split_streaming_paragraphs-Printed : (s : Session) → Printed s (split_streaming_paragraphs s)
unfolding split_streaming_paragraphs
split_streaming_paragraphs-Printed s = split_first-Printed s.entries s refl
