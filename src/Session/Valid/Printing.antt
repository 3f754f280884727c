-- ===== src/Session/Valid/Printing.antt =====
-- crates/inline/src/session.rs: what is printed, and what is left in a valid session.
use camouflage.Prelude.{
  ℕ, ◌+◌, ◌<◌, ◌≡◌, refl, sym, ap, subst, Bool, true, false, Option, none, some, List, [], ◌∷◌, map,
  if◌then◌else◌, Bool-cases, take, All, arith, inl, inr, is_empty,
}
use camouflage.Text.{Str, trim_end}
use camouflage.Blocks.{
  Block, welcome, user, assistant, reasoning, tool, plan, notice, custom, group,
}
use camouflage.Session.{Session, Entry, entry}
use camouflage.Session.Ask.{Prompt}
use camouflage.Session.Stream.{
  split_text, split_block, split_first, split_streaming_paragraphs, paragraph_split, tail_of,
}
use camouflage.Session.Printed.{
  print_front, take_history, finish_transcript, with_printed, is_shown,
}
use camouflage.Session.Still.{Consistent}
use camouflage.Session.Valid.{Kept, Kept-if, Grows, grown-Kept}

Grows-split :
    (n : ℕ) (e : Entry) (es : List Entry) (head tail : Str)
    → Grows n
        (e ∷ es)
        (n + 1)
        (entry n (assistant head) true ∷ record e { block = assistant tail } ∷ es)
Grows-split n e es head tail = record {
  below = ground arith;
  fresh = λ h. (ground arith, (ground (arith, h.0), widen es h.1));
  consistent = λ h. ((λ d. tt), ((λ d. tt), h.1));
  tells = λ k l t. ((λ i. refl), ((λ i. refl), t.1));
}
  where
    widen :
        (es : List Entry) → All (λ (e : Entry). e.id < n) es → All (λ (e : Entry). e.id < n + 1) es
    widen [] h = tt
    widen (e ∷ es) h = (ground (arith, h.0), widen es h.1)

module _ {W : Option Prompt → List Prompt → Type 0} where
  split_text-Kept :
      (o : Option ℕ) (md : Str) (e : Entry) (es : List Entry) (s : Session)
      → s.entries ≡ e ∷ es
      → Kept W s
      → Kept W (split_text o md e es s)
  unfolding split_text
  split_text-Kept none md e es s q v = v
  split_text-Kept (some at) md e es s q v = elim (Bool-cases (is_empty (trim_end (take at md)))) [
    | inl c ↦ rw c v
    | inr c ↦ rw c (grown-Kept s (s.next_id + 1) split grows v)
  ]
    where
      split : List Entry
      split =
          entry s.next_id (assistant (trim_end (take at md))) true
          ∷ record e { block = assistant (tail_of at md) }
          ∷ es

      grows : Grows s.next_id s.entries (s.next_id + 1) split
      grows =
          subst (λ x. Grows s.next_id x (s.next_id + 1) split) (sym q)
            (Grows-split s.next_id e es (trim_end (take at md)) (tail_of at md))

  split_block-Kept :
      (b : Block) (e : Entry) (es : List Entry) (s : Session)
      → s.entries ≡ e ∷ es
      → Kept W s
      → Kept W (split_block b e es s)
  unfolding split_block
  split_block-Kept (assistant md) e es s q v = split_text-Kept (paragraph_split md) md e es s q v
  split_block-Kept (welcome t d) e es s q v = v
  split_block-Kept (user t) e es s q v = v
  split_block-Kept (reasoning t) e es s q v = v
  split_block-Kept (tool t) e es s q v = v
  split_block-Kept (plan i l) e es s q v = v
  split_block-Kept (notice k t) e es s q v = v
  split_block-Kept (custom l) e es s q v = v
  split_block-Kept (group g) e es s q v = v

  split_first-Kept :
      (es : List Entry) (s : Session) → s.entries ≡ es → Kept W s → Kept W (split_first es s)
  unfolding split_first
  split_first-Kept [] s q v = v
  split_first-Kept (e ∷ es) s q v =
      Kept-if e.done s (split_block e.block e es s) v (split_block-Kept e.block e es s q v)

  pub split-Kept : (s : Session) → Kept W s → Kept W (split_streaming_paragraphs s)
  unfolding split_streaming_paragraphs
  split-Kept s v = split_first-Kept s.entries s refl v

module _ {L : Type 0} (blank : L) (draw : Block → List L) where
  -- What holds of the entries holds of those that are left.
  print_front-All :
      (P : Entry → Type 0) (reasons : Bool) (es : List Entry) (prev : Option Block)
      → All P es
      → All P (print_front blank draw reasons es prev).1
  unfolding print_front
  print_front-All P reasons [] prev h = tt
  print_front-All P reasons (e ∷ es) prev h = elim (Bool-cases e.done) [
    | inr d ↦ simp (d) h
    | inl d ↦ rw d (elim (Bool-cases (is_shown reasons e.block)) [
      | inl c ↦ rw c (print_front-All P reasons es (some e.block) h.1)
      | inr c ↦ rw c (print_front-All P reasons es prev h.1)
    ])
  ]

  pub take_history-Kept :
      {W : Option Prompt → List Prompt → Type 0} (s : Session)
      → Kept W s
      → Kept W (take_history blank draw s).1
  unfolding take_history
  take_history-Kept s v =
      grown-Kept split split.next_id _
        (record {
          below = ground arith;
          fresh = print_front-All _ split.show_reasoning split.entries split.last_printed;
          consistent =
              print_front-All Consistent split.show_reasoning split.entries split.last_printed;
          tells = λ id l. print_front-All _ split.show_reasoning split.entries split.last_printed;
        })
        (split-Kept s v)
    where
      split : Session
      split = split_streaming_paragraphs s

  -- The first of what is left is not done.
  abbrev pub Stops : List Entry → Type 0
  Stops [] = Unit
  Stops (e ∷ es) = e.done ≡ false

  print_front-Stops :
      (reasons : Bool) (es : List Entry) (prev : Option Block)
      → Stops (print_front blank draw reasons es prev).1
  unfolding print_front
  print_front-Stops reasons [] prev = tt
  print_front-Stops reasons (e ∷ es) prev = elim (Bool-cases e.done) [
    | inr d ↦ rw d refl
    | inl d ↦ rw d (elim (Bool-cases (is_shown reasons e.block)) [
      | inl c ↦ rw c (print_front-Stops reasons es (some e.block))
      | inr c ↦ rw c (print_front-Stops reasons es prev)
    ])
  ]

  abbrev pub Done : Entry → Type 0
  Done e = e.done ≡ true

  pub all_printed :
      (reasons : Bool) (es : List Entry) (prev : Option Block)
      → All Done es
      → (print_front blank draw reasons es prev).1 ≡ []
  all_printed reasons es prev h =
      empty _ (print_front-All Done reasons es prev h) (print_front-Stops reasons es prev)
    where
      empty : (es : List Entry) → All Done es → Stops es → es ≡ []
      empty [] h s = refl
      empty (e ∷ es) h s = absurd (ground (arith, h.0, s))

  pub unsplit : (es : List Entry) (s : Session) → All Done es → split_first es s ≡ s
  unfolding split_first
  unsplit [] s h = refl
  unsplit (e ∷ es) s h = ap (λ d. if d then s else split_block e.block e es s) h.0

  abbrev pub all_done : Session → Session
  all_done s = record s { entries = map (λ (e : Entry). record e { done = true }) s.entries }

  pub mark-Done : (es : List Entry) → All Done (map (λ (e : Entry). record e { done = true }) es)
  mark-Done [] = tt
  mark-Done (e ∷ es) = (refl, mark-Done es)

  emptied : (n : ℕ) (es : List Entry) → Grows n es n []
  emptied n es = record {
    below = ground arith;
    fresh = λ h. tt;
    consistent = λ h. tt;
    tells = λ id l h. tt;
  }

  pub finish_transcript-Kept :
      {W : Option Prompt → List Prompt → Type 0} (s : Session)
      → Kept W s
      → Kept W (finish_transcript blank draw s).1
  unfolding finish_transcript take_history split_streaming_paragraphs
  finish_transcript-Kept {W} s v =
      subst
        (λ (x : Session).
          Kept W
            (with_printed blank draw x
              (print_front blank draw x.show_reasoning x.entries x.last_printed)).1)
        (sym (unsplit (all_done s).entries (all_done s) (mark-Done s.entries)))
        (grown-Kept s s.next_id _
          (subst (Grows s.next_id s.entries s.next_id)
            (sym (
              all_printed s.show_reasoning (all_done s).entries s.last_printed
                (mark-Done s.entries)))
            (emptied s.next_id s.entries))
          v)
