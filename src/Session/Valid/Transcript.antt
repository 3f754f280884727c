-- ===== src/Session/Valid/Transcript.antt =====
-- crates/inline/src/session.rs: what `finish_transcript` prints.
use camouflage.Prelude.{
  ◌≡◌, refl, ap, ◌∙◌, Bool, true, Option, some, List, [], ◌∷◌, ◌++◌, map, retain, if◌then◌else◌,
  Bool-cases, All, inl, inr,
}
use camouflage.Blocks.{Block}
use camouflage.Session.{Session, Entry}
use camouflage.Session.Stream.{split_streaming_paragraphs}
use camouflage.Session.Printed.{
  print_front, take_history, finish_transcript, with_printed, is_shown, gap_after,
}
use camouflage.Session.Valid.Printing.{Done, all_printed, unsplit, all_done, mark-Done}

-- The blocks of the entries that are printed: all but blank replies and hidden reasoning.
abbrev pub shown_blocks : Bool → List Entry → List Block
shown_blocks reasons es = retain (λ b. is_shown reasons b) (map (λ (e : Entry). e.block) es)

module _ {L : Type 0} (blank : L) (draw : Block → List L) where
  -- The lines of blocks one after the other, with a blank line where two want one between them.
  unfoldable pub laid_out : Option Block → List Block → List L
  laid_out prev [] = []
  laid_out prev (b ∷ bs) =
      (if gap_after prev b then blank ∷ draw b else draw b) ++ laid_out (some b) bs

  print_front-laid_out :
      (reasons : Bool) (es : List Entry) (prev : Option Block)
      → All (Done blank draw) es
      → (print_front blank draw reasons es prev).0 ≡ laid_out prev (shown_blocks reasons es)
  unfolding print_front laid_out
  print_front-laid_out reasons [] prev h = refl
  print_front-laid_out reasons (e ∷ es) prev h =
      rw h.0 (elim (Bool-cases (is_shown reasons e.block)) [
        | inl c ↦ rw c (elim (Bool-cases (gap_after prev e.block)) [
          | inl g ↦ rw g (
              ap (λ ls. blank ∷ (draw e.block ++ ls))
                (print_front-laid_out reasons es (some e.block) h.1))
          | inr g ↦
              rw g
                (ap (λ ls. draw e.block ++ ls) (print_front-laid_out reasons es (some e.block) h.1))
        ])
        | inr c ↦ rw c (print_front-laid_out reasons es prev h.1)
      ])

  marked-blocks :
      (es : List Entry)
      → map (λ (e : Entry). e.block) (map (λ (e : Entry). record e { done = true }) es)
        ≡ map (λ (e : Entry). e.block) es
  marked-blocks [] = refl
  marked-blocks (e ∷ es) = ap (◌∷◌ e.block) (marked-blocks es)

  -- When the transcript is finished, nothing is held back: the lines that are printed are those of all
  -- the entries, in their order, done or not, but for blank replies and hidden reasoning, behind what
  -- was printed last, and no entry is left.
  pub finish_transcript-laid_out :
      (s : Session)
      → ((finish_transcript blank draw s).0
          ≡ laid_out s.last_printed (shown_blocks s.show_reasoning s.entries))
        × ((finish_transcript blank draw s).1.entries ≡ [])
  unfolding finish_transcript take_history split_streaming_paragraphs
  finish_transcript-laid_out s = (
    ap (λ x. (printed x).0) whole
        ∙ print_front-laid_out s.show_reasoning (all_done blank draw s).entries s.last_printed
            (mark-Done blank draw s.entries)
        ∙ ap (λ bs. laid_out s.last_printed (retain (λ b. is_shown s.show_reasoning b) bs))
            (marked-blocks s.entries),
    ap (λ x. (printed x).1.entries) whole
        ∙ all_printed blank draw s.show_reasoning (all_done blank draw s).entries s.last_printed
            (mark-Done blank draw s.entries),
  )
    where
      printed : Session → List L × Session
      printed x =
          with_printed blank draw x
            (print_front blank draw x.show_reasoning x.entries x.last_printed)

      whole : split_streaming_paragraphs (all_done blank draw s) ≡ all_done blank draw s
      whole =
          unsplit blank draw (all_done blank draw s).entries (all_done blank draw s)
            (mark-Done blank draw s.entries)
