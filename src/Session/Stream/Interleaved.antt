-- ===== src/Session/Stream/Interleaved.antt =====
-- crates/inline/src/session.rs: replies that stream at the same time, while their first paragraphs are
-- printed.
use camouflage.Prelude.{
  ℕ, ◌<◌, ◌≡◌, refl, sym, ap, subst, ◌∙◌, true, false, Option, none, some, List, [], ◌∷◌, ◌++◌,
  ◌==◌, ==_iff, ==_refl, if◌then◌else◌, Bool-cases, inl, inr, arith, append-nil, append_assoc,
  unwrap_or,
}
use mathlib.Core.Option.{some-injective, some-ne-none}
use camouflage.Text.{Str, str_eq}
use camouflage.Text.Laws.{str_eq_iff}
use camouflage.Blocks.{Block, assistant}
use camouflage.Session.{Session, Entry, entry, find_block, push, push_quiet}
use camouflage.Session.Maps.{lookup, lookup-insert, clash}
use camouflage.Session.Stream.{append_token, append_markdown, stream_at, open_stream, change_block}
use camouflage.Session.Stream.Keeps.{Keeps}
use camouflage.Session.Stream.Updates.{find_block-update_entry, changed_if, map_block}
use camouflage.Session.Stream.Sound.{Sound}

-- A reply streams: all of its text, printed and held.
pub record Holds (sid : Str) (id : ℕ) (md text : Str) (s : Session) : Type 0 where
  pub open_at : lookup str_eq sid s.streams ≡ some id
  pub held : find_block id s.entries ≡ some (assistant md)
  pub whole : unwrap_or [] (lookup ◌==◌ id s.printed_prefix) ++ md ≡ text

unfoldable pub Streams : Str → Str → Session → Type 0
Streams sid text s = (id : ℕ) × (md : Str) × Holds sid id md text s

pub Keeps-Streams :
    (sid text : Str) (a b : Session) → Keeps a b → Streams sid text a → Streams sid text b
unfolding Streams
Keeps-Streams sid text a b k (id, md, h) = (
  id,
  md,
  record {
    open_at = ap (lookup str_eq sid) k.streams_is ∙ h.open_at;
    held = k.texts id md h.held;
    whole = ap (λ m. unwrap_or [] (lookup ◌==◌ id m) ++ md) k.prefix_is ∙ h.whole;
  },
)

-- The entry that a change of blocks leaves at an identifier.
find_block-change_block :
    (k id : ℕ) (g : Block → Block) (s : Session)
    → find_block k (change_block id g s).entries ≡ changed_if g (k == id) (find_block k s.entries)
unfolding change_block
find_block-change_block k id g s =
    find_block-update_entry g (λ (e : Entry). record e { block = g e.block })
      (record { id_is = λ e. refl; block_is = λ e. refl }) k id s.entries

-- What a token adds to the text of a stream.
abbrev pub added : Str → Str → Str → Str
added sid other token = if str_eq other sid then token else []

Holds-here :
    (sid token : Str) (id : ℕ) (md text : Str) (s : Session)
    → Holds sid id md text s
    → Holds sid id (md ++ token) (text ++ token) (change_block id (append_markdown token) s)
unfolding change_block
Holds-here sid token id md text s h = record {
  open_at = h.open_at;
  held =
      find_block-change_block id id (append_markdown token) s
      ∙ rw (==_refl id) (ap (map_block (append_markdown token)) h.held);
  whole =
      sym (append_assoc (unwrap_or [] (lookup ◌==◌ id s.printed_prefix)) md token)
      ∙ ap (λ t. t ++ token) h.whole;
}

Holds-there :
    (sid : Str) (g : Block → Block) (id other : ℕ) (md text : Str) (s : Session)
    → (id == other) ≡ false
    → Holds sid id md text s
    → Holds sid id md text (change_block other g s)
unfolding change_block
Holds-there sid g id other md text s n h = record {
  open_at = h.open_at;
  held = find_block-change_block id other g s ∙ rw n h.held;
  whole = h.whole;
}

find_block-append :
    (k : ℕ) (e : Entry) (es : List Entry)
    → (e.id == k) ≡ false
    → find_block k (es ++ e ∷ []) ≡ find_block k es
unfolding find_block
find_block-append k e [] h = rw h refl
find_block-append k e (x ∷ es) h = rw (find_block-append k e es h) refl

Holds-open :
    (sid other : Str) (id : ℕ) (md text : Str) (s : Session)
    → Sound s
    → str_eq other sid ≡ false
    → Holds sid id md text s
    → Holds sid id md text (open_stream other s).0
unfolding open_stream push push_quiet
Holds-open sid other id md text s so n h = record {
  open_at = lookup-insert str_eq str_eq_iff other sid s.next_id s.streams ∙ rw n h.open_at;
  held =
      find_block-append id (entry s.next_id (assistant []) false) s.entries
        (fresh (so.below sid id h.open_at))
      ∙ h.held;
  whole = h.whole;
}
  where
    fresh : id < s.next_id → (s.next_id == id) ≡ false
    fresh l = ground (arith, l)

pub append_token-Streams :
    (sid other token text : Str) (o : Option ℕ) (s : Session)
    → lookup str_eq other s.streams ≡ o
    → Sound s
    → Streams sid text s
    → Streams sid (text ++ added sid other token) (append_token token (stream_at o other s))
unfolding append_token stream_at Streams open_stream push push_quiet
append_token-Streams sid other token text (some k) s e so (id, md, h) =
    elim (Bool-cases (str_eq other sid)) [
      | inl b ↦ rw b (
        id,
        md ++ token,
        subst
            (λ n.
              Holds sid id (md ++ token) (text ++ token) (change_block n (append_markdown token) s))
            (here b) (Holds-here sid token id md text s h),
      )
      | inr b ↦
          rw (b, append-nil text)
            (id, md, Holds-there sid (append_markdown token) id k md text s (apart b) h)
    ]
  where
    here : str_eq other sid ≡ true → id ≡ k
    here b =
        some-injective id k (
          sym h.open_at
          ∙ ap (λ x. lookup str_eq x s.streams) (sym ((str_eq_iff other sid).0 b))
          ∙ e)

    apart : str_eq other sid ≡ false → (id == k) ≡ false
    apart b = elim (Bool-cases (id == k)) [
      | inl c ↦ absurd (
          clash (str_eq other sid) b (
            (str_eq_iff other sid).1
              (sym (so.apart sid other id h.open_at (e ∙ ap some (sym ((==_iff id k).0 c)))))))
      | inr c ↦ c
    ]
append_token-Streams sid other token text none s e so (id, md, h) =
    elim (Bool-cases (str_eq other sid)) [
      | inl b ↦ absurd (
          some-ne-none id (
            sym h.open_at
            ∙ ap (λ x. lookup str_eq x s.streams) (sym ((str_eq_iff other sid).0 b))
            ∙ e))
      | inr b ↦
          rw (b, append-nil text)
            (
              id,
              md,
              Holds-there sid (append_markdown token) id s.next_id md text (open_stream other s).0
                  (older (so.below sid id h.open_at)) (Holds-open sid other id md text s so b h),
            )
    ]
  where
    older : id < s.next_id → (id == s.next_id) ≡ false
    older l = ground (arith, l)
