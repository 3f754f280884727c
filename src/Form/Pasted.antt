-- ===== src/Form/Pasted.antt =====
-- crates/inline/src/form.rs: a large paste into a multi-line field, and what is submitted of it.
use camouflage.Prelude.{arith, ◌≡◌, ap, true, false, ◌&&◌, Bool, [], ◌∷◌, ◌∙◌}
use camouflage.Text.{Str, is_blank}
use camouflage.Width.{Unicode}
use camouflage.Key.{tab, paste}
use camouflage.Editor.Chips.{chip, line_count}
use camouflage.Editor.Handle.{handle, normalize, handle_paste}
use camouflage.Editor.Paste.{IsLarge, Pasted-handle_paste, chip-blank}
use camouflage.Form.{
  Field, FormState, submitted, submit_at, submit_form, values_from, insert_value, update_at,
  edit_focused, key_multiline, form_key,
}

-- A form of one empty multi-line field.
abbrev pub single : Field → FormState → FormState
single f s = record s { fields = f ∷ []; focused = 0 }

submit_form-single :
    (f : Field) (s : FormState)
    → is_blank f.editor.buf ≡ false
    → (submit_form (single f s)).1 ≡ submitted ((f.name, f.editor.buf) ∷ [])
unfolding submit_form submit_at values_from insert_value
submit_form-single f s h = rw (not_missing f.required (is_blank f.editor.buf) h)
  where
    not_missing : (a b : Bool) → b ≡ false → (a && b) ≡ false
    not_missing a b e = ground arith

-- Pasted into a form of one empty multi-line field, a large text is submitted as the chip that the
-- editor shows for it, not as the text.
pub form_key-single_paste :
    (u : Unicode) (t : Str) (f : Field) (s : FormState)
    → f.multiline ≡ true
    → f.editor.buf ≡ []
    → f.editor.cur ≡ 0
    → f.editor.pastes ≡ []
    → IsLarge (normalize t)
    → (form_key u tab (form_key u (paste t) (single f s)).0).1
      ≡ submitted ((f.name, chip 1 (line_count (normalize t))) ∷ [])
unfolding form_key key_multiline edit_focused update_at handle
form_key-single_paste u t f s m b c p l =
    let pasted = Pasted-handle_paste t f.editor b c p l in
    let g : Field = record f { multiline = true; editor = handle_paste t f.editor } in
    let shown : is_blank g.editor.buf ≡ false =
      rw pasted.buf_is (chip-blank 1 (line_count (normalize t))) in
    rw m (submit_form-single g s shown ∙ ap (λ v. submitted ((f.name, v) ∷ [])) pasted.buf_is)
