-- ===== src/Style/Adds.antt =====
-- crates/inline/src/ansi.rs: what `parse_ansi` makes of the characters of a text.
use camouflage.Prelude.{
  ℕ, zero, suc, ◌≡◌, refl, sym, ap, ◌∙◌, true, false, not, List, [], ◌∷◌, ◌++◌, ◌==◌, if◌then◌else◌,
  Bool-cases, All, append_assoc, append-nil, replicate, arith, inl, inr,
}
use camouflage.Text.{Str, utf8, str_eq, starts_char, is_continuation}
use camouflage.Style.Encode.{encode_char, encode_chars, is_bidi_control}
use camouflage.Style.Inert.{IsWhole}
use camouflage.Ansi.{AnsiState, outside, step_ground, step_in, run, plain_text, chars, is_control}

-- The first character of a text begins with its first byte.
chars_first : (x : ℕ) (s : Str) → (c : Str) × (cs : List Str) × (chars (x ∷ s) ≡ (x ∷ c) ∷ cs)
unfolding chars
chars_first x s = first (chars s)
  where
    first :
        (ds : List Str)
        → (c : Str) × (cs : List Str) × ((elim ds [
          | [] ↦ (x ∷ []) ∷ []
          | d ∷ ds' ↦
              if elim d [ [] ↦ false | b ∷ t ↦ is_continuation b ]
              then (x ∷ d) ∷ ds'
              else (x ∷ []) ∷ d ∷ ds'
        ])
            ≡ (x ∷ c) ∷ cs)
    first [] = ([], [], refl)
    first ([] ∷ ds) = ([], [] ∷ ds, refl)
    first ((b ∷ t) ∷ ds) = elim (Bool-cases (is_continuation b)) [
      | inl e ↦ (b ∷ t, ds, rw e refl)
      | inr e ↦ ([], (b ∷ t) ∷ ds, rw e refl)
    ]

-- Characters of two texts, where the second begins one.
pub chars-append : (a b : Str) → starts_char b ≡ true → chars (a ++ b) ≡ chars a ++ chars b
unfolding chars
chars-append [] b h = refl
chars-append (x ∷ []) [] h = refl
chars-append (x ∷ []) (y ∷ b) h =
    let f = chars_first y b in
    let y_begins : is_continuation y ≡ false = ground (arith, h) in rw (f.2, y_begins) refl
chars-append (x ∷ y ∷ a) b h =
    let f = chars_first y a in
    rw (chars-append (y ∷ a) b h, f.2)
      (elim (Bool-cases (is_continuation y)) [ inl e ↦ rw e refl | inr e ↦ rw e refl ])

pub chars_whole :
    (b : ℕ) (t : Str) → All (λ d. is_continuation d ≡ true) t → chars (b ∷ t) ≡ (b ∷ t) ∷ []
unfolding chars
chars_whole b [] h = refl
chars_whole b (d ∷ t) h = rw (chars_whole d t h.1, h.0) refl

pub run-append : (a : AnsiState) (cs ds : List Str) → run a (cs ++ ds) ≡ run (run a cs) ds
unfolding run
run-append a [] ds = refl
run-append a (c ∷ cs) ds = run-append (step_in a.mode a c) cs ds

-- The text read so far.
unfoldable pub shown : AnsiState → Str
shown a = plain_text a.spans ++ a.buf

-- Bytes that put this text behind what was read, on the same line and from text to text.
pub record Adds (out text : Str) : Type 0 where
  pub begins : starts_char out ≡ true
  pub mode : (a : AnsiState) → a.mode ≡ outside → (run a (chars out)).mode ≡ outside
  pub lines : (a : AnsiState) → a.mode ≡ outside → (run a (chars out)).lines ≡ a.lines
  pub text_eq : (a : AnsiState) → a.mode ≡ outside → shown (run a (chars out)) ≡ shown a ++ text

starts_char-append :
    (a b : Str) → starts_char a ≡ true → starts_char b ≡ true → starts_char (a ++ b) ≡ true
starts_char-append [] b h k = k
starts_char-append (x ∷ a) b h k = h

pub Adds-append : (o p s t : Str) → Adds o s → Adds p t → Adds (o ++ p) (s ++ t)
Adds-append o p s t h k = record {
  begins = starts_char-append o p h.begins k.begins;
  mode = λ a e. rw (both a) (k.mode (run a (chars o)) (h.mode a e));
  lines = λ a e. rw (both a) (k.lines (run a (chars o)) (h.mode a e) ∙ h.lines a e);
  text_eq = λ a e. rw (both a) (
      k.text_eq (run a (chars o)) (h.mode a e)
      ∙ (ap (◌++ t) (h.text_eq a e) ∙ append_assoc (shown a) s t));
}
  where
    both : (a : AnsiState) → run a (chars (o ++ p)) ≡ run (run a (chars o)) (chars p)
    both a = ap (run a) (chars-append o p k.begins) ∙ run-append a (chars o) (chars p)

pub Adds-nil : Adds [] []
unfolding chars run
Adds-nil = record {
  begins = refl;
  mode = λ a e. e;
  lines = λ a e. refl;
  text_eq = λ a e. sym (append-nil (shown a));
}

-- One character of text.
ground_char :
    (a : AnsiState) (b : ℕ) (t : Str)
    → is_control (b ∷ t) ≡ false
    → step_ground a (b ∷ t) ≡ record a { buf = a.buf ++ (b ∷ t) }
unfolding step_ground str_eq is_control
ground_char a b t h = ground (arith, h)

step_outside : (a : AnsiState) (c : Str) → step_in outside a c ≡ step_ground a c
unfolding step_in
step_outside a c = refl

char-Adds :
    (b : ℕ) (t : Str)
    → is_continuation b ≡ false
    → All (λ d. is_continuation d ≡ true) t
    → is_control (b ∷ t) ≡ false
    → Adds (b ∷ t) (b ∷ t)
unfolding run shown
char-Adds b t h k c = record {
  begins = ap not h;
  mode = λ a e. rw (stepped a e) e;
  lines = λ a e. rw (stepped a e) refl;
  text_eq = λ a e. rw (stepped a e) (sym (append_assoc (plain_text a.spans) a.buf (b ∷ t)));
}
  where
    stepped :
        (a : AnsiState)
        → a.mode ≡ outside
        → run a (chars (b ∷ t)) ≡ record a { buf = a.buf ++ (b ∷ t) }
    stepped a e =
        rw (chars_whole b t k)
          (ap (λ m. step_in m a (b ∷ t)) e ∙ step_outside a (b ∷ t) ∙ ground_char a b t c)

pub spaces-Adds : (n : ℕ) → Adds (replicate n b' ') (replicate n b' ')
unfolding is_control
spaces-Adds zero = Adds-nil
spaces-Adds (suc n) =
    Adds-append (b' ' ∷ []) (replicate n b' ') (b' ' ∷ []) (replicate n b' ')
      (char-Adds b' ' [] refl tt refl) (spaces-Adds n)

encode_char-Adds : (c : Str) → IsWhole c → Adds (encode_char c) (encode_char c)
unfolding encode_char utf8
encode_char-Adds [] w = Adds-nil
encode_char-Adds (b ∷ t) w = elim (Bool-cases (b == b'\t')) [
  | inl e ↦ rw e (spaces-Adds 4)
  | inr e ↦ rw e (elim (Bool-cases (is_control (b ∷ t))) [
    | inl c ↦ rw c Adds-nil
    | inr c ↦ rw c (elim (Bool-cases (is_bidi_control (b ∷ t))) [
      | inl k ↦ rw k Adds-nil
      | inr k ↦ rw k (char-Adds b t w.0 w.1 c)
    ])
  ])
]

pub encode_chars-Adds : (cs : List Str) → All IsWhole cs → Adds (encode_chars cs) (encode_chars cs)
unfolding encode_chars
encode_chars-Adds [] h = Adds-nil
encode_chars-Adds (c ∷ cs) h =
    Adds-append (encode_char c) (encode_chars cs) (encode_char c) (encode_chars cs)
      (encode_char-Adds c h.0) (encode_chars-Adds cs h.1)
