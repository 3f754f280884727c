-- ===== src/Editor/Deletions.antt =====
-- crates/inline/src/editor.rs: the edits of the buffer that keep an editor valid.
use camouflage.Prelude.{
  ℕ, ◌+◌, ◌-◌, Bool, true, false, ◌||◌, Option, none, some, List, [], ◌∷◌, ◌++◌, ◌≡◌, refl, sym, ap,
  arith, inl, inr, ltb, if◌then◌else◌, Bool-cases, length, take, drop, All, length-append, subst,
  last?, length-take,
}
use camouflage.Text.{
  Str, utf8, strip_prefix, strip_suffix, rfind_str, starts_char, ends_with, char_count, is_blank,
}
use camouflage.Text.Laws.{rfind_str-StandsAt, ends_with_last, starts_with-eq-append, StandsAt}
use camouflage.Text.Utf8.{IsStr, IsStr-nil, IsStr-ascii, well_formed-cut}
use camouflage.Text.Boundary.{
  Boundary, Boundary-IsStr, Boundary-zero, Boundary-take, Boundary-replace, Boundary-of_starts_char,
  Boundary-append,
}
use camouflage.Editor.{
  EditKey, text, paste, EditOutcome, Editor, max_history, paste_lines, paste_chars,
}
use camouflage.Editor.Chips.{line_count, chip_before_cursor, is_chip, ◌>>=◌}
use camouflage.Editor.Valid.{
  IsValid, Holds, All-push_capped, moved-IsValid, snapshot-IsValid, insert-IsValid,
}
use camouflage.Editor.HandleValid.{normalize-IsStr, chip-IsStr, Holds-if, with_paste-IsValid}
use camouflage.Editor.Handle.{
  normalize, snapshot, submit_buffer, differs_from_last, remove_range, replace_range, handle_paste,
  handle_enter,
}

-- The text in a key is a Rust string.
abbrev pub KeyIsStr : EditKey → Type 0
KeyIsStr (text t) = IsStr t
KeyIsStr (paste t) = IsStr t
KeyIsStr _ = Unit

-- What a snapshot leaves alone.
pub snapshot-buf :
    (t : Bool) (e : Editor) → ((snapshot t e).buf ≡ e.buf) × ((snapshot t e).cur ≡ e.cur)
unfolding snapshot
snapshot-buf t e = ground arith

pub after_snapshot {ℓ} :
    (P : Str → ℕ → Type ℓ) (t : Bool) (e : Editor)
    → P e.buf e.cur
    → P (snapshot t e).buf (snapshot t e).cur
after_snapshot P t e h =
    let (b, c) = snapshot-buf t e in
    subst (λ x. P x (snapshot t e).cur) (sym b) (subst (P e.buf) (sym c) h)

pub Boundary-if :
    (s : Str) (b : Bool) (x y : ℕ) → Boundary s x → Boundary s y → Boundary s (if b then x else y)
Boundary-if s true x y h k = h
Boundary-if s false x y h k = k

pub IsValid-if :
    (b : Bool) (x y : Editor × EditOutcome)
    → IsValid x.0
    → IsValid y.0
    → IsValid (if b then x else y).0
IsValid-if true x y h k = h
IsValid-if false x y h k = k

IsValid-if' : (b : Bool) (x y : Editor) → IsValid x → IsValid y → IsValid (if b then x else y)
IsValid-if' true x y h k = h
IsValid-if' false x y h k = k

All-if {ℓ κ} :
    {A : Type ℓ} (P : A → Type κ) (b : Bool) (x y : List A)
    → All P x
    → All P y
    → All P (if b then x else y)
All-if P true x y h k = h
All-if P false x y h k = k

Holds->>= {ℓ κ μ} :
    {A : Type ℓ} {B : Type κ} (P : B → Type μ) (o : Option A) (f : A → Option B)
    → ((a : A) → o ≡ some a → Holds P (f a))
    → Holds P (o >>= f)
Holds->>= P none f h = tt
Holds->>= P (some a) f h = h a refl

chip_open-Boundary :
    (s : Str) (i : ℕ) → IsStr s → StandsAt (utf8 "[Pasted text #") s i → Boundary s i
chip_open-Boundary s i h (le, at) =
    Boundary-of_starts_char s i h le (rw (starts_with-eq-append _ (drop i s) at) open_starts)
  where
    open_starts :
        starts_char (utf8 "[Pasted text #" ++ drop (length (utf8 "[Pasted text #")) (drop i s))
        ≡ true
    open_starts = unfold utf8 in refl

module _ {e : Editor} (v : IsValid e) where
  -- A range of the buffer is replaced, and the cursor is set behind the new text.
  replaced-IsValid :
      (a b : ℕ) (t : Str)
      → Boundary e.buf a
      → Boundary e.buf b
      → IsStr t
      → IsValid (record e { buf = replace_range e.buf a b t; cur = a + length t })
  replaced-IsValid a b t ha hb ht = moved-IsValid v (Boundary-replace e.buf t a b ha hb ht)

  pub removed-IsValid :
      (a b : ℕ) → Boundary e.buf a → Boundary e.buf b → IsValid (remove_range a b e)
  removed-IsValid a b ha hb =
      let e' : a + length {A = ℕ} [] ≡ a = omega arith in
      moved-IsValid v (subst (Boundary _) e' (Boundary-replace e.buf [] a b ha hb IsStr-nil))

  submitted-IsValid :
      (h : List Str)
      → All IsStr h
      → IsValid (record e {
        buf = [];
        cur = 0;
        history = h;
        hist_idx = none;
        draft = none;
        undo_stack = [];
        typing = false;
      })
  submitted-IsValid h a = record {
    cursor = Boundary-zero [] IsStr-nil;
    saved = tt;
    undo_bound = omega arith;
    past = a;
    place = tt;
    kept_draft = tt;
    killed = v.killed;
    pasted = v.pasted;
  }

  submit_buffer-IsValid : IsValid (submit_buffer e).0
  unfolding submit_buffer
  submit_buffer-IsValid =
      let whole = Boundary-IsStr e.buf e.cur v.cursor in
      IsValid-if (is_blank e.buf) _ _ v (
        submitted-IsValid _ (
          All-if IsStr (differs_from_last (last? e.history) e.buf) _ _
            (All-push_capped IsStr max_history e.history e.buf v.past whole) v.past))

  pub chip_before_cursor-Boundary : Holds (Boundary e.buf) (chip_before_cursor e)
  unfolding chip_before_cursor
  chip_before_cursor-Boundary =
      let before = take e.cur e.buf in
      Holds-if (Boundary e.buf) (ends_with (utf8 " lines]") before) _ _
        (Holds->>= (Boundary e.buf) (rfind_str (utf8 "[Pasted text #") before) _ (λ start found.
          let here = Boundary-take e.buf e.cur start v.cursor (
            chip_open-Boundary before start v.cursor.before
              (rfind_str-StandsAt (utf8 "[Pasted text #") before start found)) in
          Holds->>= (Boundary e.buf) (strip_prefix (utf8 "[Pasted text #") (drop start before)) _
            (λ rest _.
              Holds->>= (Boundary e.buf) (strip_suffix (utf8 " lines]") rest) _
                (λ inner _. Holds-if (Boundary e.buf) (is_chip inner) _ _ here tt))))
        tt

  pub handle_paste-IsValid : (t : Str) → IsStr t → IsValid (handle_paste t e)
  unfolding handle_paste
  handle_paste-IsValid raw h =
      let t = normalize raw in
      let t_str = normalize-IsStr raw h in
      let s = snapshot-IsValid v false in
      IsValid-if' (ltb paste_lines (line_count t) || ltb paste_chars (char_count t)) _ _
        (insert-IsValid (with_paste-IsValid s t t_str) _ (chip-IsStr _ _))
        (insert-IsValid s t t_str)

  backslash-IsValid :
      ends_with (b'\\' ∷ []) (take e.cur e.buf) ≡ true
      → IsValid (record e { buf = replace_range e.buf (e.cur - 1) e.cur (b'\n' ∷ []) })
  backslash-IsValid h =
      let (a, split) = ends_with_last b'\\' (take e.cur e.buf) h in
      let cut = well_formed-cut 0 a (b'\\' ∷ []) (rw split at v.cursor.before) refl in
      let before : Boundary (take e.cur e.buf) (length a) =
        rw split (Boundary-append a (b'\\' ∷ []) cut.0 cut.1) in
      let size : e.cur ≡ length a + 1 = omega (
        arith,
        length-take e.cur e.buf,
        ap length split,
        length-append a (b'\\' ∷ []),
        v.cursor.in_range,
      ) in
      let at : Boundary e.buf (e.cur - 1) =
        subst (Boundary e.buf) (omega (arith, size))
          (Boundary-take e.buf e.cur (length a) v.cursor before) in
      let e' : e.cur - 1 + length {A = ℕ} (b'\n' ∷ []) ≡ e.cur = omega (arith, size) in
      moved-IsValid v (
        subst (Boundary _) e' (
          Boundary-replace e.buf (b'\n' ∷ []) (e.cur - 1) e.cur at v.cursor
            (IsStr-ascii b'\n' refl)))

module _ {e : Editor} (v : IsValid e) where
  pub handle_enter-IsValid : (newline : Bool) → IsValid (handle_enter newline e).0
  unfolding handle_enter
  handle_enter-IsValid newline =
      let s = snapshot-IsValid v false in
      IsValid-if newline _ _ (insert-IsValid s (b'\n' ∷ []) (IsStr-ascii b'\n' refl))
        (elim (Bool-cases (ends_with (b'\\' ∷ []) (take e.cur e.buf))) [
          | inl h ↦ rw h (
              backslash-IsValid s
                (after_snapshot (λ b c. ends_with (b'\\' ∷ []) (take c b) ≡ true) false e h))
          | inr h ↦ rw h (submit_buffer-IsValid v)
        ])
