-- ===== src/Form/Submit.antt =====
-- crates/inline/src/form.rs: a form is only submitted when the required fields are filled.
use camouflage.Prelude.{
  ℕ, zero, suc, ◌+◌, ◌-◌, ◌%◌, ◌<◌, max, ◌≡◌, refl, sym, ap, Bool, true, false, ◌&&◌, Option, none,
  some, List, [], ◌∷◌, ltb, if◌then◌else◌, Bool-cases, length, position, All, arith, inl, inr, ◌==◌,
  ltb→lt,
}
use mathlib.Core.Option.{some-injective, none-ne-some}
use camouflage.Width.{Unicode}
use camouflage.Key.{Key, paste, enter, tab, back_tab, up, down, ctrl}
use camouflage.Editor.{EditKey}
use camouflage.Form.{
  FormState, FormOutcome, pending, cancelled, submitted, submit_at, submit_form, is_missing,
  values_from, update_at, edit_focused, key_edit, key_enter, key_any, key_plain, key_arrow,
  key_multiline, form_key, edit_key, is_cancel_key, arrow_moves,
}

-- The focused field exists, unless there are no fields.
abbrev pub IsFocused : FormState → Type 0
IsFocused s = s.focused < max (length s.fields) 1

-- What a form submits: all fields, and none that is required is blank.
abbrev pub Filled : FormState → Type 0
Filled s = All (λ f. is_missing f ≡ false) s.fields

-- A key leaves the focus on a field; it submits only a form that is filled, with its values, and
-- cancels only one that may be.
abbrev pub Answers : FormState × FormOutcome → Type 0
Answers (s, pending) = IsFocused s
Answers (s, cancelled) = IsFocused s × (s.allow_cancel ≡ true)
Answers (s, submitted values) = IsFocused s × Filled s × (values ≡ values_from [] s.fields)

found_after : Bool → Option ℕ → Option ℕ
found_after b o = if b then some 0 else elim o [ none ↦ none | some i ↦ some (suc i) ]

found_after-lt :
    (b : Bool) (o : Option ℕ) (n : ℕ)
    → ((i : ℕ) → o ≡ some i → i < n)
    → (i : ℕ) → found_after b o ≡ some i
    → i < suc n
unfolding found_after
found_after-lt true o n h i e = omega (arith, some-injective 0 i e)
found_after-lt false none n h i e = absurd (none-ne-some i e)
found_after-lt false (some j) n h i e = omega (arith, h j refl, some-injective (suc j) i e)

position-lt {ℓ} :
    {A : Type ℓ} (p : A → Bool) (xs : List A) (i : ℕ) → position p xs ≡ some i → i < length xs
unfolding found_after
position-lt p [] i h = absurd (none-ne-some i h)
position-lt p (x ∷ xs) i h = found_after-lt (p x) (position p xs) (length xs) (position-lt p xs) i h

found_after-none : (b : Bool) (o : Option ℕ) → found_after b o ≡ none → (b ≡ false) × (o ≡ none)
unfolding found_after
found_after-none true o e = absurd (none-ne-some 0 (sym e))
found_after-none false none e = (refl, refl)
found_after-none false (some i) e = absurd (none-ne-some (suc i) (sym e))

position-none {ℓ} :
    {A : Type ℓ} (p : A → Bool) (xs : List A) → position p xs ≡ none → All (λ x. p x ≡ false) xs
unfolding found_after
position-none p [] h = tt
position-none p (x ∷ xs) h =
    let parts = found_after-none (p x) (position p xs) h in (parts.0, position-none p xs parts.1)

length-update_at {ℓ} :
    {A : Type ℓ} (i : ℕ) (f : A → A) (xs : List A) → length (update_at i f xs) ≡ length xs
unfolding update_at
length-update_at i f [] = refl
length-update_at zero f (x ∷ xs) = refl
length-update_at (suc i) f (x ∷ xs) = ap suc (length-update_at i f xs)

submit_at-Answers :
    (o : Option ℕ) (s : FormState)
    → position is_missing s.fields ≡ o
    → IsFocused s
    → Answers (submit_at o s)
unfolding submit_at
submit_at-Answers none s h f = (f, position-none is_missing s.fields h, refl)
submit_at-Answers (some i) s h f = omega (arith, position-lt is_missing s.fields i h)

submit_form-Answers : (s : FormState) → IsFocused s → Answers (submit_form s)
unfolding submit_form
submit_form-Answers s f = submit_at-Answers (position is_missing s.fields) s refl f

Answers-if :
    (b : Bool) (x y : FormState × FormOutcome)
    → Answers x
    → Answers y
    → Answers (if b then x else y)
Answers-if true x y p q = p
Answers-if false x y p q = q

module _ (u : Unicode) where
  edit_focused-IsFocused :
      (k : EditKey) (width : ℕ) (s : FormState) → IsFocused s → IsFocused (edit_focused u k width s)
  unfolding edit_focused
  edit_focused-IsFocused k width s f = omega (arith, f, length-update_at s.focused _ s.fields)

  key_edit-Answers : (o : Option EditKey) (s : FormState) → IsFocused s → Answers (key_edit u o s)
  unfolding key_edit
  key_edit-Answers none s f = f
  key_edit-Answers (some k) s f = edit_focused-IsFocused k 1000 s f

  key_enter-Answers : (s : FormState) → IsFocused s → Answers (key_enter u s)
  unfolding key_enter
  key_enter-Answers s f = elim (Bool-cases (ltb (s.focused + 1) (length s.fields))) [
    | inl e ↦ rw e (in_range (ltb→lt (s.focused + 1) (length s.fields) e))
    | inr e ↦ rw e (submit_form-Answers s f)
  ]
    where
      in_range : s.focused + 1 < length s.fields → s.focused + 1 < max (length s.fields) 1
      in_range h = omega arith

  -- Moves around the fields end on one of them.
  moved-Answers :
      (d : ℕ) (s : FormState)
      → Answers (record s { focused = d % max (length s.fields) 1 }, pending)
  moved-Answers d s = omega arith

  key_plain-Answers : (k : Key) (s : FormState) → IsFocused s → Answers (key_plain u k s)
  unfolding key_plain
  key_plain-Answers (enter shift alt) s f = key_enter-Answers s f
  key_plain-Answers tab s f = moved-Answers (s.focused + 1) s
  key_plain-Answers down s f = moved-Answers (s.focused + 1) s
  key_plain-Answers back_tab s f = moved-Answers (s.focused + max (length s.fields) 1 - 1) s
  key_plain-Answers up s f = moved-Answers (s.focused + max (length s.fields) 1 - 1) s
  key_plain-Answers k s f = key_edit-Answers (edit_key k) s f

  key_any-Answers : (k : Key) (s : FormState) → IsFocused s → Answers (key_any u k s)
  unfolding key_any
  key_any-Answers k s f = elim (Bool-cases (is_cancel_key k && s.allow_cancel)) [
    | inl e ↦ rw e (f, and_right (is_cancel_key k) s.allow_cancel e)
    | inr e ↦ rw e (key_plain-Answers k s f)
  ]
    where
      and_right : (a b : Bool) → (a && b) ≡ true → b ≡ true
      and_right a b h = ground arith

  key_arrow-Answers :
      (e : EditKey) (k : Key) (s : FormState) → IsFocused s → Answers (key_arrow u e k s)
  unfolding key_arrow
  key_arrow-Answers e k s f =
      let kept = edit_focused-IsFocused e 1000 s f in
      Answers-if (arrow_moves u e s) _ _ kept (key_any-Answers k (edit_focused u e 1000 s) kept)

  key_multiline-Answers : (k : Key) (s : FormState) → IsFocused s → Answers (key_multiline u k s)
  unfolding key_multiline
  key_multiline-Answers (enter shift alt) s f = edit_focused-IsFocused (EditKey.enter true) 1000 s f
  key_multiline-Answers (paste t) s f = edit_focused-IsFocused (EditKey.paste t) 100000 s f
  key_multiline-Answers tab s f =
      Answers-if _ _ _ (submit_form-Answers s f) (key_any-Answers tab s f)
  key_multiline-Answers up s f = key_arrow-Answers EditKey.up up s f
  key_multiline-Answers down s f = key_arrow-Answers EditKey.down down s f
  key_multiline-Answers (ctrl c) s f =
      Answers-if (c == b'j') _ _ (edit_focused-IsFocused (EditKey.enter true) 1000 s f)
        (key_any-Answers (ctrl c) s f)
  key_multiline-Answers k s f = key_any-Answers k s f

  -- From a form whose focus is on a field, every key leaves it there; it submits only a form whose
  -- required fields are all filled, with the values of all the fields, and cancels only a form
  -- that allows it.
  pub form_key-Answers : (k : Key) (s : FormState) → IsFocused s → Answers (form_key u k s)
  unfolding form_key
  form_key-Answers k s f = Answers-if _ _ _ (key_multiline-Answers k s f) (key_any-Answers k s f)
