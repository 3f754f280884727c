-- ===== src/Tests/Forms.antt =====
-- Concrete runs of a form (crates/inline/src/form.rs) of one required multi-line field.
use camouflage.Prelude.{◌≡◌, refl, arith, true, false, none, [], ◌∷◌}
use camouflage.Text.{replace_str, lines}
use camouflage.Key.{tab, paste}
use camouflage.Editor.{new}
use camouflage.Editor.Chips.{chip, line_count}
use camouflage.Editor.Handle.{normalize}
use camouflage.Form.{Field, FormState, submitted, form_key}
use camouflage.Form.Submit.{Answers, form_key-Answers}
use camouflage.Form.Pasted.{form_key-single_paste, single}
use camouflage.Tests.{ascii, five_lines}

abbrev notes : Field
notes = record {
  name = b'n' ∷ [];
  label = b'N' ∷ [];
  password = false;
  multiline = true;
  placeholder = [];
  required = true;
  editor = new;
}

abbrev form : FormState
form = record {
  id = [];
  title = [];
  allow_cancel = true;
  fields = notes ∷ [];
  focused = 0;
  error = none;
}

form_key-Answers_example : Answers (form_key ascii tab form)
form_key-Answers_example = form_key-Answers ascii tab form (omega arith)

form_key-single_paste_example :
    (form_key ascii tab (form_key ascii (paste five_lines) (single notes form)).0).1
    ≡ submitted ((notes.name, chip 1 (line_count (normalize five_lines))) ∷ [])
unfolding normalize line_count lines replace_str
form_key-single_paste_example =
    form_key-single_paste ascii five_lines notes form refl refl refl refl refl
