-- ===== src/Form.antt =====
-- crates/inline/src/form.rs: a form of labeled fields, each with an editor.
pub mod Submit
pub mod Pasted
use camouflage.Prelude.{
  ℕ, zero, suc, ◌+◌, ◌-◌, ◌%◌, max, Bool, true, false, not, ◌&&◌, ◌||◌, Option, none, some, List,
  [], ◌∷◌, ◌++◌, map, leb, ltb, ◌==◌, if◌then◌else◌, unwrap_or, length, get_elem?, position,
}
use camouflage.Text.{Str, utf8, str_eq, is_blank}
use camouflage.Width.{Unicode}
use camouflage.Json.{Json, get_as, get_str}
use camouflage.Key.{
  Key, text, paste, enter, esc, tab, back_tab, up, down, page_up, page_down, home, end, left, right,
  backspace, delete, ctrl,
}
use camouflage.Editor.{EditKey, EditOutcome, changed, submit, Editor, new}
use camouflage.Editor.Handle.{handle, set_text}

pub record Field : Type 0 where
  pub name : Str
  pub label : Str
  pub password : Bool
  pub multiline : Bool
  pub placeholder : Str
  pub required : Bool
  pub editor : Editor

pub record FormState : Type 0 where
  pub id : Str
  pub title : Str
  pub allow_cancel : Bool
  pub fields : List Field
  pub focused : ℕ
  pub error : Option Str

pub data FormOutcome : Type 0 where
  pending cancelled : FormOutcome
  submitted : List (Str × Str) → FormOutcome

module _ {V : Type 0} (j : Json V) where
  abbrev pub str_or_empty : V → Str → Str
  str_or_empty v k = unwrap_or [] (get_str j v k)

  abbrev pub default_editor : Option Str → Editor
  default_editor none = new
  default_editor (some d) = set_text d new

  abbrev pub is_kind : V → Str → Bool
  is_kind f kind = elim (get_str j f (utf8 "kind")) [ none ↦ false | some k ↦ str_eq k kind ]

  unfoldable pub field_of : V → Field
  field_of f = record {
    name = str_or_empty f (utf8 "name");
    label = str_or_empty f (utf8 "label");
    password = is_kind f (utf8 "password");
    multiline = is_kind f (utf8 "multiline");
    placeholder = str_or_empty f (utf8 "placeholder");
    required = unwrap_or false (get_as j j.as_bool f (utf8 "required"));
    editor = default_editor (get_str j f (utf8 "default"));
  }

  unfoldable pub from_payload : V → FormState
  from_payload p = record {
    id = str_or_empty p (utf8 "id");
    title = str_or_empty p (utf8 "title");
    allow_cancel = unwrap_or true (get_as j j.as_bool p (utf8 "allow_cancel"));
    fields = map field_of (unwrap_or [] (get_as j j.as_array p (utf8 "fields")));
    focused = 0;
    error = none;
  }

-- `Map::insert`: the value of a key that is there is replaced.
unfoldable pub insert_value : Str → Str → List (Str × Str) → List (Str × Str)
insert_value k v [] = (k, v) ∷ []
insert_value k v ((k', v') ∷ m) =
    let rest = insert_value k v m in if str_eq k' k then (k, v) ∷ m else (k', v') ∷ rest

unfoldable pub values_from : List (Str × Str) → List Field → List (Str × Str)
values_from m [] = m
values_from m (f ∷ fs) = values_from (insert_value f.name f.editor.buf m) fs

abbrev pub is_missing : Field → Bool
is_missing f = f.required && is_blank f.editor.buf

abbrev pub label_at : ℕ → List Field → Str
label_at i fs = elim (get_elem? fs i) [ none ↦ [] | some f ↦ f.label ]

unfoldable pub submit_at : Option ℕ → FormState → FormState × FormOutcome
submit_at (some i) s =
    (record s { focused = i; error = some (label_at i s.fields ++ utf8 " is required") }, pending)
submit_at none s = (s, submitted (values_from [] s.fields))

unfoldable pub submit_form : FormState → FormState × FormOutcome
submit_form s = submit_at (position is_missing s.fields) s

unfoldable pub update_at {ℓ} : {A : Type ℓ} → ℕ → (A → A) → List A → List A
update_at i f [] = []
update_at zero f (x ∷ xs) = f x ∷ xs
update_at (suc i) f (x ∷ xs) = x ∷ update_at i f xs

-- What `replace` makes of the characters, as bytes.
abbrev pub newline_to_space : ℕ → ℕ
newline_to_space b = if b == b'\n' then b' ' else b

abbrev pub line_ends_to_space : ℕ → ℕ
line_ends_to_space b = if b == b'\n' || b == b'\r' then b' ' else b

-- The editing key of a key, outside of a multi-line field's own keys.
unfoldable pub edit_key : Key → Option EditKey
edit_key (text t) = some (EditKey.text (map newline_to_space t))
edit_key (paste t) = some (EditKey.text (map line_ends_to_space t))
edit_key (backspace word) = some (EditKey.backspace word)
edit_key (delete word) = some (EditKey.delete word)
edit_key (left word) = some (EditKey.left word)
edit_key (right word) = some (EditKey.right word)
edit_key home = some EditKey.line_start
edit_key end = some EditKey.line_end
edit_key (ctrl c) =
    if c == b'w'
    then some (EditKey.backspace true)
    else if c == b'a'
    then some EditKey.line_start
    else if c == b'e'
    then some EditKey.line_end
    else if c == b'u'
    then some EditKey.kill_to_start
    else if c == b'k'
    then some EditKey.kill_to_end
    else if c == b'y'
    then some EditKey.yank
    else if c == b'z'
    then some EditKey.undo
    else none
edit_key _ = none

abbrev pub is_changed : EditOutcome → Bool
is_changed changed = true
is_changed _ = false

abbrev pub is_cancel_key : Key → Bool
is_cancel_key esc = true
is_cancel_key (ctrl c) = c == b'c'
is_cancel_key _ = false

module _ (u : Unicode) where
  -- `self.fields.get_mut(self.focused)` with an editing key.
  unfoldable pub edit_focused : EditKey → ℕ → FormState → FormState
  edit_focused k width s = record s {
    fields =
        update_at s.focused (λ (f : Field). record f { editor = (handle u k width f.editor).0 })
          s.fields;
  }

  abbrev pub clears_error : EditKey → FormState → Bool
  clears_error k s = elim (get_elem? s.fields s.focused) [
    | none ↦ false
    | some f ↦ is_changed (handle u k 1000 f.editor).1
  ]

  unfoldable pub key_edit : Option EditKey → FormState → FormState × FormOutcome
  key_edit none s = (s, pending)
  key_edit (some k) s = (
    record (edit_focused k 1000 s) { error = if clears_error k s then none else s.error },
    pending,
  )

  -- `Key::Enter` outside of a multi-line field.
  unfoldable pub key_enter : FormState → FormState × FormOutcome
  key_enter s =
      if ltb (s.focused + 1) (length s.fields)
      then (record s { focused = s.focused + 1 }, pending)
      else submit_form s

  -- The second `match`, after its first arm.
  unfoldable pub key_plain : Key → FormState → FormState × FormOutcome
  key_plain (enter shift alt) s = key_enter s
  key_plain tab s = (record s { focused = (s.focused + 1) % max (length s.fields) 1 }, pending)
  key_plain down s = (record s { focused = (s.focused + 1) % max (length s.fields) 1 }, pending)
  key_plain back_tab s =
      let n = max (length s.fields) 1 in (record s { focused = (s.focused + n - 1) % n }, pending)
  key_plain up s =
      let n = max (length s.fields) 1 in (record s { focused = (s.focused + n - 1) % n }, pending)
  key_plain k s = key_edit (edit_key k) s

  unfoldable pub key_any : Key → FormState → FormState × FormOutcome
  key_any k s = if is_cancel_key k && s.allow_cancel then (s, cancelled) else key_plain k s

  -- An arrow in a multi-line field: whether the cursor moved.
  unfoldable pub arrow_moves : EditKey → FormState → Bool
  arrow_moves k s = elim (get_elem? s.fields s.focused) [
    | none ↦ false
    | some f ↦ not ((handle u k 1000 f.editor).0.cur == f.editor.cur)
  ]

  unfoldable pub key_arrow : EditKey → Key → FormState → FormState × FormOutcome
  key_arrow e k s =
      let moved = edit_focused e 1000 s in
      if arrow_moves e s then (moved, pending) else key_any k moved

  -- The first `match`, in a multi-line field.
  unfoldable pub key_multiline : Key → FormState → FormState × FormOutcome
  key_multiline (enter shift alt) s = (edit_focused (EditKey.enter true) 1000 s, pending)
  key_multiline (paste t) s = (edit_focused (EditKey.paste t) 100000 s, pending)
  key_multiline tab s =
      if leb (length s.fields) (s.focused + 1) then submit_form s else key_any tab s
  key_multiline up s = key_arrow EditKey.up up s
  key_multiline down s = key_arrow EditKey.down down s
  key_multiline (ctrl c) s =
      if c == b'j' then (edit_focused (EditKey.enter true) 1000 s, pending) else key_any (ctrl c) s
  key_multiline k s = key_any k s

  abbrev pub is_multiline : Option Field → Bool
  is_multiline none = false
  is_multiline (some f) = f.multiline

  -- `FormState::key`
  unfoldable pub form_key : Key → FormState → FormState × FormOutcome
  form_key k s =
      if is_multiline (get_elem? s.fields s.focused) then key_multiline k s else key_any k s
