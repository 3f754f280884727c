-- ===== src/Decoder/Sequence.antt =====
-- crates/headless/src/lib.rs: the numbers of the events of a session go up.
use camouflage.Prelude.{
  ℕ, ◌≡◌, refl, sym, ap, subst, Bool, true, false, Option, none, some, List, [], ◌∷◌, ◌==◌,
  if◌then◌else◌, Bool-cases, unwrap_or, arith, inl, inr,
}
use camouflage.Prelude.Int.{ℤ, pos, ◌+ℤ◌, ◌≤ℤ◌, ltb_ℤ, +ℤ_parts}
use camouflage.Protocol.{EventType, from_str}
use camouflage.Decoder.{
  Decoder, Shorthand, Decoded, refused, event, max_i64, succ_i64, next_of, set_next, next_seq,
  observe_seq, take_seq, accept, decode_as, decode, mismatched, schema_version,
}

next_of-set_next : (id : ℕ) (v : ℤ) (m : List (ℕ × ℤ)) → next_of id (set_next id v m) ≡ v
unfolding next_of set_next
next_of-set_next id v [] = ground arith
next_of-set_next id v ((k, n) ∷ m) = elim (Bool-cases (k == id)) [
  | inl e ↦ rw (e, e) refl
  | inr e ↦ rw (e, e) (next_of-set_next id v m)
]

next_of-set_next_other :
    (id k : ℕ) (v : ℤ) (m : List (ℕ × ℤ))
    → (id == k) ≡ false
    → next_of k (set_next id v m) ≡ next_of k m
unfolding next_of set_next
next_of-set_next_other id k v [] h = rw h refl
next_of-set_next_other id k v ((j, n) ∷ m) h = elim (Bool-cases (j == id)) [
  | inl e ↦ rw (e, j_k e) refl
  | inr e ↦ rw e (ap (λ x. if j == k then n else x) (next_of-set_next_other id k v m h))
]
  where
    j_k : (j == id) ≡ true → (j == k) ≡ false
    j_k e = ground (arith, e, h)

le_refl : (a : ℤ) → a ≤ℤ a
le_refl a = omega arith

-- What an event says of its number, in terms of the decoder before and after it.
abbrev pub Counted : ℕ → Option ℤ → ℤ → Decoder → Decoder → Type 0
Counted id given seq d d' =
    (seq +ℤ pos 1 ≤ℤ next_of id d'.seqs)
    × (next_of id d.seqs ≤ℤ next_of id d'.seqs)
    × (unwrap_or (next_of id d.seqs) given ≡ seq)
    × ((k : ℕ) → (id == k) ≡ false → next_of k d'.seqs ≡ next_of k d.seqs)

set_next-Counted :
    (given : Option ℤ) (seq v : ℤ) (id : ℕ) (d : Decoder)
    → seq +ℤ pos 1 ≤ℤ v
    → next_of id d.seqs ≤ℤ v
    → unwrap_or (next_of id d.seqs) given ≡ seq
    → Counted id given seq d (record d { seqs = set_next id v d.seqs })
set_next-Counted given seq v id d behind up e = (
  subst (λ n. seq +ℤ pos 1 ≤ℤ n) (sym (next_of-set_next id v d.seqs)) behind,
  subst (λ n. next_of id d.seqs ≤ℤ n) (sym (next_of-set_next id v d.seqs)) up,
  e,
  λ k h. next_of-set_next_other id k v d.seqs h,
)

le_succ : (a : ℤ) → a ≤ℤ a +ℤ pos 1
le_succ a = omega (arith, +ℤ_parts a (pos 1))

-- The number that an event gets is not the greatest `i64`.
abbrev pub Countable : Option ℤ → ℕ → Decoder → Type 0
Countable given id d = ltb_ℤ (unwrap_or (next_of id d.seqs) given) max_i64 ≡ true

succ_i64-succ : (a : ℤ) → ltb_ℤ a max_i64 ≡ true → succ_i64 a ≡ a +ℤ pos 1
unfolding succ_i64
succ_i64-succ a h = rw h refl

take_seq-Counted :
    (given : Option ℤ) (id : ℕ) (d : Decoder)
    → Countable given id d
    → Counted id given (take_seq given id d).1 d (take_seq given id d).0
unfolding take_seq next_seq observe_seq
take_seq-Counted none id d c =
    let next = next_of id d.seqs in
    rw (succ_i64-succ next c) (
      set_next-Counted none next (next +ℤ pos 1) id d (le_refl (next +ℤ pos 1)) (le_succ next) refl)
take_seq-Counted (some seq) id d c =
    rw (succ_i64-succ seq c) (later (ltb_ℤ (next_of id d.seqs) (seq +ℤ pos 1)) refl)
  where
    later :
        (b : Bool)
        → ltb_ℤ (next_of id d.seqs) (seq +ℤ pos 1) ≡ b
        → Counted id
            (some seq)
            seq
            d
            (record d { seqs = set_next id (if b then seq +ℤ pos 1 else next_of id d.seqs) d.seqs })
    later true h =
        set_next-Counted (some seq) seq (seq +ℤ pos 1) id d (le_refl (seq +ℤ pos 1))
          (ground (arith, h)) refl
    later false h =
        set_next-Counted (some seq) seq (next_of id d.seqs) id d (ground (arith, h))
          (le_refl (next_of id d.seqs)) refl

-- A refused line leaves the decoder as it was; an event is numbered.
abbrev pub Numbered : {V : Type 0} → Option ℤ → Decoder → Decoder × Decoded V → Type 0
Numbered given d (d', refused e) = d' ≡ d
Numbered given d (d', event e) = Counted e.session_id given e.seq d d'

module _ {V : Type 0} (null : V) (validate : EventType → V → Bool) where
  accept-Numbered :
      (t : EventType) (fresh_id : ℕ) (now : ℤ) (s : Shorthand V) (d : Decoder)
      → Countable s.seq (unwrap_or d.default_session s.session_id) d
      → Numbered s.seq d (accept null validate t fresh_id now s d)
  unfolding accept
  accept-Numbered t fresh_id now s d c =
      elim (Bool-cases (mismatched (unwrap_or schema_version s.version))) [
        | inl e ↦ rw e refl
        | inr e ↦ elim (Bool-cases (validate t (unwrap_or null s.payload))) [
          | inl ok ↦
              rw (e, ok) (take_seq-Counted s.seq (unwrap_or d.default_session s.session_id) d c)
          | inr bad ↦ rw (e, bad) refl
        ]
      ]

  decode_as-Numbered :
      (o : Option EventType) (fresh_id : ℕ) (now : ℤ) (s : Shorthand V) (d : Decoder)
      → Countable s.seq (unwrap_or d.default_session s.session_id) d
      → Numbered s.seq d (decode_as null validate o fresh_id now s d)
  unfolding decode_as
  decode_as-Numbered none fresh_id now s d c = refl
  decode_as-Numbered (some t) fresh_id now s d c = accept-Numbered t fresh_id now s d c

  -- When the number that the line gives, or else the next one of its session, is not the greatest
  -- `i64`: a line that is refused leaves all counters alone. An event that is accepted has the host's
  -- number, or else the next one of its session; afterwards the next number of that session is
  -- greater than this one and no smaller than it was, and other sessions are as before.
  pub decode-Numbered :
      (fresh_id : ℕ) (now : ℤ) (s : Shorthand V) (d : Decoder)
      → Countable s.seq (unwrap_or d.default_session s.session_id) d
      → Numbered s.seq d (decode null validate fresh_id now s d)
  unfolding decode
  decode-Numbered fresh_id now s d c = decode_as-Numbered (from_str s.event_type) fresh_id now s d c
