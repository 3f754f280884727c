-- ===== src/Editor/Steps.antt =====
-- Every place that the cursor is moved to is one where the buffer may be cut.
use mathlib.Core.List.{reverse-append, reverse-reverse}
use camouflage.Prelude.{
  ℕ, ◌+◌, ◌≤◌, ◌<◌, length-take, Bool, List, [], ◌∷◌, ◌++◌, reverse, ◌≡◌, refl, sym, ap, ◌∙◌, arith,
  inl, inr, ◌==◌, Bool-cases, Option-cases, length, take, drop, drop-append_length, All,
  length-append, append_assoc, append-nil, subst,
}
use camouflage.Text.{Str, is_blank, rfind_str, find_str}
use camouflage.Text.Laws.{rfind_str-StandsAt, find_str-StandsAt}
use camouflage.Text.Utf8.{IsStr}
use camouflage.Text.Boundary.{
  Boundary, Boundary-IsStr, Boundary-zero, Boundary-length, Boundary-take, Boundary-drop,
  Boundary-of_ascii,
}
use camouflage.Width.{Unicode, concat, IsSegmentation}
use camouflage.Width.Graphemes.{concat-append, Boundary-concat}
use camouflage.Editor.Motion.{
  last_start, drop_while, take_while, visible, prev_grapheme, next_grapheme, word_left, word_right,
  line_start_of, line_end_of,
}

Boundary-last_start : (gs : List Str) → All IsStr gs → Boundary (concat gs) (last_start gs)
unfolding last_start concat
Boundary-last_start [] h = Boundary-concat [] [] h tt
Boundary-last_start (g ∷ []) h = Boundary-concat [] (g ∷ []) tt h
Boundary-last_start (g ∷ k ∷ gs) h =
    Boundary-drop (concat (g ∷ k ∷ gs)) (length g) (last_start (k ∷ gs))
      (rw append-nil at (Boundary-concat (g ∷ []) (k ∷ gs) (h.0, tt) h.1))
      (rw (drop-append_length g (concat (k ∷ gs))) (Boundary-last_start (k ∷ gs) h.1))

-- `drop_while` leaves an end of the list, `take_while` the beginning that it leaves out.
pub take_while-drop_while :
    (p : Str → Bool) (gs : List Str) → take_while p gs ++ drop_while p gs ≡ gs
unfolding take_while drop_while
take_while-drop_while p [] = refl
take_while-drop_while p (g ∷ gs) = ground (arith, take_while-drop_while p gs)

pub All-split {ℓ κ} :
    {A : Type ℓ} (P : A → Type κ) (xs ys : List A) → All P (xs ++ ys) → All P xs × All P ys
All-split P [] ys h = (tt, h)
All-split P (x ∷ xs) ys h = let (a, b) = All-split P xs ys h.1 in ((h.0, a), b)

-- A cut of a text whose graphemes are `gs ++ hs`.
pub Boundary-of_graphemes :
    (s : Str) (all gs hs : List Str)
    → concat all ≡ s
    → All IsStr all
    → all ≡ gs ++ hs
    → Boundary s (length (concat gs))
Boundary-of_graphemes s all gs hs joined texts split =
    let (p, q) = All-split IsStr gs hs (rw split at texts) in
    rw (← joined, split) (Boundary-concat gs hs p q)

-- What is left of a list after its end is dropped twice.
kept-split :
    (p q : Str → Bool) (gs : List Str)
    → let kept = drop_while q (drop_while p (reverse gs)) in
      gs
      ≡ reverse kept
        ++ reverse (take_while p (reverse gs) ++ take_while q (drop_while p (reverse gs)))
kept-split p q gs =
    let a = take_while p (reverse gs) in
    let rest = drop_while p (reverse gs) in
    let b = take_while q rest in
    let e : (a ++ b) ++ drop_while q rest ≡ reverse gs =
      append_assoc a b (drop_while q rest)
      ∙ ap (a ++◌) (take_while-drop_while q rest)
      ∙ take_while-drop_while p (reverse gs) in
    sym (reverse-reverse gs) ∙ ap reverse (sym e) ∙ reverse-append (a ++ b) (drop_while q rest)

module _ (u : Unicode) (seg : IsSegmentation u) (s : Str) (i : ℕ) (b : Boundary s i) where
  pub Boundary-prev_grapheme : Boundary s (prev_grapheme u s i)
  unfolding prev_grapheme
  Boundary-prev_grapheme = Boundary-take s i _ b (
      subst (λ t. Boundary t (last_start (u.graphemes (take i s))))
        (seg.concat_graphemes (take i s))
        (Boundary-last_start (u.graphemes (take i s)) (seg.graphemes_IsStr (take i s) b.before)))

  pub Boundary-next_grapheme : Boundary s (next_grapheme u s i)
  unfolding next_grapheme concat
  Boundary-next_grapheme =
      first (u.graphemes (drop i s)) (seg.concat_graphemes (drop i s))
        (seg.graphemes_IsStr (drop i s) b.after)
    where
      first :
          (gs : List Str)
          → concat gs ≡ drop i s
          → All IsStr gs
          → Boundary s (elim gs [ [] ↦ length s | g ∷ _ ↦ i + length g ])
      first [] e h = Boundary-length s (Boundary-IsStr s i b)
      first (g ∷ gs) e h =
          Boundary-drop s i (length g) b
            (rw append-nil at (Boundary-of_graphemes (drop i s) (g ∷ gs) (g ∷ []) gs e h refl))

  pub Boundary-word_left : Boundary s (word_left u s i)
  unfolding word_left
  Boundary-word_left =
      let gs = u.graphemes (take i s) in
      let kept = drop_while visible (drop_while is_blank (reverse gs)) in
      elim (Bool-cases (length kept == length gs)) [
        | inl e ↦ rw e b
        | inr e ↦ rw e (
            Boundary-take s i _ b (
              Boundary-of_graphemes (take i s) gs (reverse kept) _ (seg.concat_graphemes (take i s))
                (seg.graphemes_IsStr (take i s) b.before) (kept-split is_blank visible gs)))
      ]

  pub Boundary-word_right : Boundary s (word_right u s i)
  unfolding word_right
  Boundary-word_right =
      let gs = u.graphemes (drop i s) in
      let blank = take_while is_blank gs in
      let rest = drop_while is_blank gs in
      let word = take_while visible rest in
      let split : gs ≡ (blank ++ word) ++ drop_while visible rest = sym (
        append_assoc blank word (drop_while visible rest)
        ∙ ap (blank ++◌) (take_while-drop_while visible rest)
        ∙ take_while-drop_while is_blank gs) in
      let cut =
        Boundary-of_graphemes (drop i s) gs (blank ++ word) _ (seg.concat_graphemes (drop i s))
          (seg.graphemes_IsStr (drop i s) b.after) split in
      subst (Boundary s)
        (omega
          (arith, ap length (concat-append blank word), length-append (concat blank) (concat word)))
        (Boundary-drop s i _ b cut)

  pub Boundary-line_start_of : Boundary s (line_start_of s i)
  unfolding line_start_of
  Boundary-line_start_of = elim (Option-cases (rfind_str (b'\n' ∷ []) (take i s))) [
    | inl e ↦ rw e (Boundary-zero s (Boundary-IsStr s i b))
    | inr (k, e) ↦ rw e (
        Boundary-take s i (k + 1) b
          (Boundary-of_ascii (take i s) b'\n' k refl b.before
            (rfind_str-StandsAt (b'\n' ∷ []) (take i s) k e)).1)
  ]

  pub Boundary-line_end_of : Boundary s (line_end_of s i)
  unfolding line_end_of
  Boundary-line_end_of = elim (Option-cases (find_str (b'\n' ∷ []) (drop i s))) [
    | inl e ↦ rw e (Boundary-length s (Boundary-IsStr s i b))
    | inr (k, e) ↦ rw e (
        Boundary-drop s i k b
          (Boundary-of_ascii (drop i s) b'\n' k refl b.after
            (find_str-StandsAt (b'\n' ∷ []) (drop i s) k e)).0)
  ]

  -- The start of the line is not behind the place, and its end not in front of it.
  pub line_start_of-le : line_start_of s i ≤ i
  unfolding line_start_of
  line_start_of-le = elim (Option-cases (rfind_str (b'\n' ∷ []) (take i s))) [
    | inl e ↦ rw e (omega arith)
    | inr (k, e) ↦
        let cut =
          (Boundary-of_ascii (take i s) b'\n' k refl b.before
            (rfind_str-StandsAt (b'\n' ∷ []) (take i s) k e)).1 in
        rw e (omega (arith, cut.in_range, length-take i s))
  ]

  pub le-line_end_of : i ≤ line_end_of s i
  unfolding line_end_of
  le-line_end_of = elim (Option-cases (find_str (b'\n' ∷ []) (drop i s))) [
    | inl e ↦ rw e b.in_range
    | inr (k, e) ↦ rw e (omega arith)
  ]

  -- An end of line that is not the end of the text is a newline.
  pub Boundary-behind_line : line_end_of s i < length s → Boundary s (line_end_of s i + 1)
  unfolding line_end_of
  Boundary-behind_line = elim (Option-cases (find_str (b'\n' ∷ []) (drop i s))) [
    | inl e ↦ rw e (λ h. absurd (omega arith))
    | inr (k, e) ↦ rw e (λ h. subst (Boundary s) (omega arith) (
        Boundary-drop s i (k + 1) b
          (Boundary-of_ascii (drop i s) b'\n' k refl b.after
            (find_str-StandsAt (b'\n' ∷ []) (drop i s) k e)).1))
  ]
