-- ===== src/Session/Stream/Split.antt =====
-- crates/inline/src/session.rs: printing a paragraph of a reply takes it from what is held.
use camouflage.Prelude.{
  ℕ, ◌+◌, ◌<◌, ◌≡◌, refl, sym, ap, subst, ◌∙◌, Bool, true, false, Option, none, some, is_some, List,
  [], ◌∷◌, ◌++◌, ◌==◌, ==_iff, ==_refl, if◌then◌else◌, Bool-cases, inl, inr, All, arith,
  append_assoc, take, is_empty, unwrap_or,
}
use camouflage.Text.{Str, trim_end}
use camouflage.Blocks.{Block, assistant}
use camouflage.Session.{Session, Entry, entry, find_block}
use camouflage.Session.Maps.{lookup, lookup-insert}
use camouflage.Session.Stream.{
  tail_of, consumed_of, add_prefix, paragraph_split, split_text, split_block, split_first,
  split_streaming_paragraphs,
}
use camouflage.Session.Stream.Paragraph.{consumed_of-append}
use camouflage.Session.Stream.Updates.{ids}
use camouflage.Session.Stream.Sound.{Sound, Unique, All-weaken, All-apart}
use camouflage.Session.Stream.Interleaved.{Holds, Streams}

find_block-none :
    (i : ℕ) (es : List Entry) → All (λ k. (k == i) ≡ false) (ids es) → find_block i es ≡ none
unfolding find_block
find_block-none i [] h = refl
find_block-none i (e ∷ es) h = rw (find_block-none i es h.1) (rw h.0 refl)

assistant-injective : (a b : Str) → some (assistant a) ≡ some (assistant b) → a ≡ b
assistant-injective a b h = ap reply_text h
  where
    reply_text : Option Block → Str
    reply_text (some (assistant t)) = t
    reply_text _ = []

find_block-head :
    (e : Entry) (es : List Entry)
    → find_block e.id es ≡ none
    → find_block e.id (e ∷ es) ≡ some e.block
unfolding find_block
find_block-head e es h = rw h (rw (==_refl e.id) refl)

find_block-later :
    (k : ℕ) (e : Entry) (es : List Entry)
    → (e.id == k) ≡ false
    → find_block k (e ∷ es) ≡ find_block k es
unfolding find_block
find_block-later k e es h = rw h (rest (find_block k es))
  where
    rest : (o : Option Block) → (if is_some o then o else none) ≡ o
    rest none = refl
    rest (some b) = refl

find_block-first :
    (k : ℕ) (b : Block) (e : Entry) (es : List Entry)
    → find_block k es ≡ some b
    → find_block k (e ∷ es) ≡ some b
unfolding find_block
find_block-first k b e es h = rw h refl

module _ (at : ℕ) (md : Str) (e : Entry) (es : List Entry) (s : Session) where
  abbrev after : Session
  after = record s {
    printed_prefix = add_prefix e.id (consumed_of at md) s.printed_prefix;
    next_id = s.next_id + 1;
    entries =
        entry s.next_id (assistant (trim_end (take at md))) true
        ∷ record e { block = assistant (tail_of at md) }
        ∷ es;
  }

  after-Sound : s.entries ≡ e ∷ es → Sound s → Sound after
  after-Sound en h =
      let fresh : All (λ i. i < s.next_id) (e.id ∷ ids es) =
        subst (λ l. All (λ i. i < s.next_id) (ids l)) en h.fresh in
      record {
        fresh = (omega arith, All-weaken s.next_id (e.id ∷ ids es) fresh);
        unique =
            (All-apart s.next_id (e.id ∷ ids es) fresh, subst (λ l. Unique (ids l)) en h.unique);
        below = λ sid id l. omega (arith, h.below sid id l);
        apart = h.apart;
      }

  Holds-first :
      (sid text md' : Str)
      → s.entries ≡ e ∷ es
      → e.block ≡ assistant md
      → Sound s
      → Holds sid e.id md' text s
      → Holds sid e.id (tail_of at md) text after
  Holds-first sid text md' en bl so h =
      let old : Str = unwrap_or [] (lookup ◌==◌ e.id s.printed_prefix) in
      let alone : find_block e.id es ≡ none =
        find_block-none e.id es (subst (λ l. Unique (ids l)) en so.unique).0 in
      let same : md ≡ md' = assistant-injective md md' (
        sym (ap some bl)
        ∙ sym (find_block-head e es alone)
        ∙ sym (ap (find_block e.id) en)
        ∙ h.held) in
      let e' : Entry = record e { block = assistant (tail_of at md) } in
      let printed : lookup ◌==◌ e.id after.printed_prefix ≡ some (old ++ consumed_of at md) =
        lookup-insert ◌==◌ ==_iff e.id e.id (old ++ consumed_of at md) s.printed_prefix
        ∙ rw (==_refl e.id) refl in
      record {
        open_at = h.open_at;
        held =
            find_block-first e.id (assistant (tail_of at md))
              (entry s.next_id (assistant (trim_end (take at md))) true) (e' ∷ es)
              (find_block-head e' es alone);
        whole =
            ap (λ o. unwrap_or [] o ++ tail_of at md) printed
            ∙ append_assoc old (consumed_of at md) (tail_of at md)
            ∙ ap (λ t. old ++ t) (consumed_of-append at md ∙ same)
            ∙ h.whole;
      }

  Holds-later :
      (sid text md' : Str) (id : ℕ)
      → s.entries ≡ e ∷ es
      → (e.id == id) ≡ false
      → Holds sid id md' text s
      → Holds sid id md' text after
  Holds-later sid text md' id en c h =
      let old : Str = unwrap_or [] (lookup ◌==◌ e.id s.printed_prefix) in
      let e' : Entry = record e { block = assistant (tail_of at md) } in
      let printed : lookup ◌==◌ id after.printed_prefix ≡ lookup ◌==◌ id s.printed_prefix =
        lookup-insert ◌==◌ ==_iff e.id id (old ++ consumed_of at md) s.printed_prefix ∙ rw c refl in
      record {
        open_at = h.open_at;
        held =
            find_block-first id (assistant md')
              (entry s.next_id (assistant (trim_end (take at md))) true) (e' ∷ es)
              (find_block-later id e' es c
                ∙ sym (find_block-later id e es c)
                ∙ sym (ap (find_block id) en)
                ∙ h.held);
        whole = ap (λ o. unwrap_or [] o ++ md') printed ∙ h.whole;
      }

  after-Streams :
      (sid text : Str)
      → s.entries ≡ e ∷ es
      → e.block ≡ assistant md
      → Sound s
      → Streams sid text s
      → Streams sid text after
  unfolding Streams
  after-Streams sid text en bl so (id, md', h) = elim (Bool-cases (e.id == id)) [
    | inl c ↦ (
      id,
      tail_of at md,
      subst (λ k. Holds sid k (tail_of at md) text after) ((==_iff e.id id).0 c)
          (Holds-first sid text md' en bl so
            (subst (λ k. Holds sid k md' text s) (sym ((==_iff e.id id).0 c)) h)),
    )
    | inr c ↦ (id, md', Holds-later sid text md' id en c h)
  ]

-- The step keeps the session sound, and every reply that streams whole.
abbrev pub KeepsStreams : Session → Session → Type 0
KeepsStreams a b =
    (Sound a → Sound b) × ((sid text : Str) → Sound a → Streams sid text a → Streams sid text b)

KeepsStreams-refl : (s : Session) → KeepsStreams s s
KeepsStreams-refl s = (λ h. h, λ sid text so h. h)

split_text-KeepsStreams :
    (o : Option ℕ) (md : Str) (e : Entry) (es : List Entry) (s : Session)
    → s.entries ≡ e ∷ es
    → e.block ≡ assistant md
    → KeepsStreams s (split_text o md e es s)
unfolding split_text
split_text-KeepsStreams none md e es s en bl = KeepsStreams-refl s
split_text-KeepsStreams (some at) md e es s en bl = either (is_empty (trim_end (take at md)))
  where
    either : (b : Bool) → KeepsStreams s (if b then s else after at md e es s)
    either true = KeepsStreams-refl s
    either false = (
      after-Sound at md e es s en,
      λ sid text so h. after-Streams at md e es s sid text en bl so h,
    )

split_block-KeepsStreams :
    (b : Block) (e : Entry) (es : List Entry) (s : Session)
    → s.entries ≡ e ∷ es
    → e.block ≡ b
    → KeepsStreams s (split_block b e es s)
unfolding split_block
split_block-KeepsStreams (assistant md) e es s en bl =
    split_text-KeepsStreams (paragraph_split md) md e es s en bl
split_block-KeepsStreams b e es s en bl = KeepsStreams-refl s

split_first-KeepsStreams :
    (es : List Entry) (s : Session) → s.entries ≡ es → KeepsStreams s (split_first es s)
unfolding split_first
split_first-KeepsStreams [] s en = KeepsStreams-refl s
split_first-KeepsStreams (e ∷ es) s en = either e.done
  where
    either : (b : Bool) → KeepsStreams s (if b then s else split_block e.block e es s)
    either true = KeepsStreams-refl s
    either false = split_block-KeepsStreams e.block e es s en refl

pub split_streaming_paragraphs-KeepsStreams :
    (s : Session) → KeepsStreams s (split_streaming_paragraphs s)
unfolding split_streaming_paragraphs
split_streaming_paragraphs-KeepsStreams s = split_first-KeepsStreams s.entries s refl
