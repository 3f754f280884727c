-- ===== src/Editor/Valid.antt =====
-- The invariant of the editor: the cursor is in range and between two characters, in the buffer and
-- in every saved state, so that no slice of the source panics, and `history[idx]` exists.
use camouflage.Prelude.{
  ℕ, ◌≤◌, ◌<◌, Bool, ◌&&◌, Option, none, some, List, [], ◌∷◌, ◌++◌, ◌≡◌, refl, sym, ap, ◌∙◌, arith,
  inl, inr, ltb, Bool-cases, Option-cases, length, All, All-append, All-drop, length-append,
  length-drop,
}
use camouflage.Text.{Str}
use camouflage.Text.Utf8.{IsStr}
use camouflage.Text.Boundary.{Boundary, Boundary-replace}
use camouflage.Editor.{Editor, max_undo}
use camouflage.Editor.Steps.{All-split}
use camouflage.Editor.Handle.{push_capped, pop_last, pop_undo, snapshot, insert}

abbrev pub Saved : Str × ℕ → Type 0
Saved s = Boundary s.0 s.1

abbrev pub Holds {ℓ κ} : {A : Type ℓ} → (A → Type κ) → Option A → Type κ
Holds P none = Unit
Holds P (some a) = P a

pub record IsValid (e : Editor) : Type 0 where
  pub cursor : Boundary e.buf e.cur
  pub saved : All Saved e.undo_stack
  pub undo_bound : length e.undo_stack ≤ max_undo
  pub past : All IsStr e.history
  pub place : Holds (λ i. i < length e.history) e.hist_idx
  pub kept_draft : Holds IsStr e.draft
  pub killed : IsStr e.kill
  pub pasted : All IsStr e.pastes

pub All-push_capped {ℓ κ} :
    {A : Type ℓ} (P : A → Type κ) (n : ℕ) (xs : List A) (x : A)
    → All P xs
    → P x
    → All P (push_capped n xs x)
All-push_capped P n xs x h hx = elim (Bool-cases (ltb n (length (xs ++ x ∷ [])))) [
  | inl e ↦ rw e (All-drop P 1 (xs ++ x ∷ []) (All-append P xs (x ∷ []) h (hx, tt)))
  | inr e ↦ rw e (All-append P xs (x ∷ []) h (hx, tt))
]

pub length-push_capped {ℓ} :
    {A : Type ℓ} (n : ℕ) (xs : List A) (x : A) → length xs ≤ n → length (push_capped n xs x) ≤ n
length-push_capped n xs x h =
    ground (arith, length-append xs (x ∷ []), length-drop 1 (xs ++ x ∷ []))

abbrev joined {ℓ} : {A : Type ℓ} → Option (List A × A) → List A
joined none = []
joined (some (front, x)) = front ++ x ∷ []

joined-pop_last {ℓ} : {A : Type ℓ} (xs : List A) → joined (pop_last xs) ≡ xs
joined-pop_last [] = refl
joined-pop_last {A} (y ∷ ys) = with_head (pop_last ys) (joined-pop_last ys)
  where
    with_head :
        (o : Option (List A × A))
        → joined o ≡ ys
        → joined (elim o [ none ↦ some ([], y) | some (front, x) ↦ some (y ∷ front, x) ]) ≡ y ∷ ys
    with_head none e = ap (◌∷◌ y) e
    with_head (some (front, x)) e = ap (◌∷◌ y) e

pub pop_last-append {ℓ} :
    {A : Type ℓ} (xs front : List A) (x : A) → pop_last xs ≡ some (front, x) → xs ≡ front ++ x ∷ []
pop_last-append xs front x e = sym (joined-pop_last xs) ∙ ap joined e

module _ {e : Editor} (v : IsValid e) where
  -- Another text with the cursor at a cut of it.
  pub moved-IsValid :
      {b : Str} {c : ℕ} {t : Bool}
      → Boundary b c
      → IsValid (record e { buf = b; cur = c; typing = t })
  moved-IsValid h = record {
    cursor = h;
    saved = v.saved;
    undo_bound = v.undo_bound;
    past = v.past;
    place = v.place;
    kept_draft = v.kept_draft;
    killed = v.killed;
    pasted = v.pasted;
  }

  pushed-IsValid :
      (t : Bool)
      → IsValid
          (record e { typing = t; undo_stack = push_capped max_undo e.undo_stack (e.buf, e.cur) })
  pushed-IsValid t = record {
    cursor = v.cursor;
    saved = All-push_capped Saved max_undo e.undo_stack (e.buf, e.cur) v.saved v.cursor;
    undo_bound = length-push_capped max_undo e.undo_stack (e.buf, e.cur) v.undo_bound;
    past = v.past;
    place = v.place;
    kept_draft = v.kept_draft;
    killed = v.killed;
    pasted = v.pasted;
  }

  pub snapshot-IsValid : (t : Bool) → IsValid (snapshot t e)
  unfolding snapshot
  snapshot-IsValid t = elim (Bool-cases (t && e.typing)) [
    | inl h ↦ rw h v
    | inr h ↦ rw h (pushed-IsValid t)
  ]

  pub insert-IsValid : (t : Str) → IsStr t → IsValid (insert t e)
  unfolding insert
  insert-IsValid t h = moved-IsValid (Boundary-replace e.buf t e.cur e.cur v.cursor v.cursor h)

  pub pop_undo-IsValid : IsValid (pop_undo e).0
  unfolding pop_undo
  pop_undo-IsValid = elim (Option-cases (pop_last e.undo_stack)) [
    | inl h ↦ rw (h, pop_undo) v
    | inr ((front, x), h) ↦
        let split = pop_last-append e.undo_stack front x h in
        let (kept, restored) = All-split Saved front (x ∷ []) (rw split at v.saved) in
        rw (h, pop_undo)
          (record {
            cursor = restored.0;
            saved = kept;
            undo_bound = omega (arith, ap length split, length-append front (x ∷ []), v.undo_bound);
            past = v.past;
            place = v.place;
            kept_draft = v.kept_draft;
            killed = v.killed;
            pasted = v.pasted;
          })
  ]
