-- ===== src/Editor/Undo.antt =====
-- What undo gives back.
use camouflage.Prelude.{
  ℕ, ◌<◌, Bool, true, false, some, List, [], ◌∷◌, ◌++◌, ◌≡◌, refl, ap, ◌∙◌, arith, inl, inr, ltb,
  Bool-cases, length, is_empty,
}
use camouflage.Text.{Str}
use camouflage.Width.{Unicode}
use camouflage.Editor.{
  EditKey, text, paste, enter, backspace, delete, kill_to_end, kill_to_start, yank, undo, changed,
  Editor, max_undo,
}
use camouflage.Editor.Handle.{
  push_capped, pop_last, pop_undo, snapshot, insert, normalize, handle_paste, handle_enter,
  submit_buffer, handle,
}

pop_last-append {ℓ} : {A : Type ℓ} (xs : List A) (x : A) → pop_last (xs ++ x ∷ []) ≡ some (xs, x)
pop_last-append [] x = refl
pop_last-append (y ∷ xs) x = rw (pop_last-append xs x)

-- The last element pushed is the first popped, also when the oldest is dropped.
pop_last-push_capped {ℓ} :
    {A : Type ℓ} (n : ℕ) (xs : List A) (x : A)
    → 0 < n
    → (rest : List A) × (pop_last (push_capped n xs x) ≡ some (rest, x))
pop_last-push_capped n xs x h = elim (Bool-cases (ltb n (length (xs ++ x ∷ [])))) [
  | inl e ↦ capped xs e
  | inr e ↦ (xs, rw e (pop_last-append xs x))
]
  where
    capped :
        (ys : List _)
        → ltb n (length (ys ++ x ∷ [])) ≡ true
        → (rest : List _) × (pop_last (push_capped n ys x) ≡ some (rest, x))
    capped [] e = absurd (ground (arith, e))
    capped (y ∷ ys) e = (ys, rw e (pop_last-append ys x))

-- The keys that save the state before they change the text.
abbrev pub Records : EditKey → Type 0
Records (paste t) = Unit
Records (enter newline) = Unit
Records (backspace word) = Unit
Records (delete word) = Unit
Records kill_to_end = Unit
Records kill_to_start = Unit
Records yank = Unit
Records _ = ⊥

abbrev pushed : Editor → List (Str × ℕ)
pushed e = push_capped max_undo e.undo_stack (e.buf, e.cur)

snapshot-undo_stack : (e : Editor) → (snapshot false e).undo_stack ≡ pushed e
unfolding snapshot
snapshot-undo_stack e = refl

handle_enter-undo_stack :
    (newline : Bool) (e : Editor)
    → (handle_enter newline e).1 ≡ changed
    → (handle_enter newline e).0.undo_stack ≡ pushed e
unfolding handle_enter insert snapshot submit_buffer
handle_enter-undo_stack true e h = refl
handle_enter-undo_stack false e h = ground arith

handle_paste-undo_stack : (t : Str) (e : Editor) → (handle_paste t e).undo_stack ≡ pushed e
unfolding handle_paste insert snapshot
handle_paste-undo_stack t e = ground arith

-- A recorded change leaves the state before it on top of the stack.
handle-undo_stack :
    (u : Unicode) (key : EditKey) (width : ℕ) (e : Editor)
    → Records key
    → (handle u key width e).1 ≡ changed
    → (handle u key width e).0.undo_stack ≡ pushed e
unfolding handle
handle-undo_stack u (paste t) width e r h = handle_paste-undo_stack t e
handle-undo_stack u (enter newline) width e r h = handle_enter-undo_stack newline e h
handle-undo_stack u (backspace word) width e r h = ground (arith, snapshot-undo_stack e)
handle-undo_stack u (delete word) width e r h = ground (arith, snapshot-undo_stack e)
handle-undo_stack u kill_to_end width e r h = unfold snapshot in ground (arith)
handle-undo_stack u kill_to_start width e r h = ground (arith, snapshot-undo_stack e)
handle-undo_stack u yank width e r h = unfold insert in ground (arith, snapshot-undo_stack e)
handle-undo_stack u _ width e r h = absurd r

pop_undo-restores :
    (d : Editor) (rest : List (Str × ℕ)) (b : Str) (c : ℕ)
    → pop_last d.undo_stack ≡ some (rest, (b, c))
    → ((pop_undo d).0.buf ≡ b) × ((pop_undo d).0.cur ≡ c) × ((pop_undo d).1 ≡ changed)
unfolding pop_undo
pop_undo-restores d rest b c h = ground arith

restored :
    (u : Unicode) (width : ℕ) (e d : Editor)
    → d.undo_stack ≡ pushed e
    → ((handle u undo width d).0.buf ≡ e.buf)
      × ((handle u undo width d).0.cur ≡ e.cur)
      × ((handle u undo width d).1 ≡ changed)
unfolding handle
restored u width e d h =
    let (rest, p) = pop_last-push_capped max_undo e.undo_stack (e.buf, e.cur) (omega arith) in
    pop_undo-restores d rest e.buf e.cur (ap pop_last h ∙ p)

-- Undo after a paste, a newline, a deletion, a kill or a yank that changed something gives back the
-- text and the cursor, also when the undo stack was full.
pub handle_undo-handle :
    (u : Unicode) (key : EditKey) (width : ℕ) (e : Editor)
    → Records key
    → (handle u key width e).1 ≡ changed
    → let back = handle u undo width (handle u key width e).0 in
      (back.0.buf ≡ e.buf) × (back.0.cur ≡ e.cur) × (back.1 ≡ changed)
handle_undo-handle u key width e r h =
    restored u width e (handle u key width e).0 (handle-undo_stack u key width e r h)

-- Typed texts, one after the other.
abbrev pub type_all : Unicode → ℕ → List Str → Editor → Editor
type_all u width [] e = e
type_all u width (t ∷ ts) e = type_all u width ts (handle u (text t) width e).0

typing-keeps_stack :
    (u : Unicode) (width : ℕ) (ts : List Str) (e d : Editor)
    → d.typing ≡ true
    → d.undo_stack ≡ pushed e
    → (type_all u width ts d).undo_stack ≡ pushed e
typing-keeps_stack u width [] e d t h = h
typing-keeps_stack u width (x ∷ ts) e d t h =
    typing-keeps_stack u width ts e (handle u (text x) width d).0
      (unfold handle insert snapshot in ground (arith))
      (unfold handle insert snapshot in ground (arith))

-- Consecutive typing is one undo step: undo gives back what was there before the first key.
pub handle_undo-type_all :
    (u : Unicode) (width : ℕ) (t : Str) (ts : List Str) (e : Editor)
    → e.typing ≡ false
    → is_empty (normalize t) ≡ false
    → let back = handle u undo width (type_all u width (t ∷ ts) e) in
      (back.0.buf ≡ e.buf) × (back.0.cur ≡ e.cur) × (back.1 ≡ changed)
handle_undo-type_all u width t ts e f ne = restored u width e (type_all u width (t ∷ ts) e) (
    typing-keeps_stack u width ts e (handle u (text t) width e).0
      (unfold handle insert snapshot in ground arith)
      (unfold handle insert snapshot in ground arith))
