-- ===== src/Session/Requests.antt =====
-- crates/inline/src/session.rs: the arms of `apply` that ask the user, as functions of the payload. The
-- rows in which a diff is drawn are left out of a prompt.
use camouflage.Prelude.{
  ℕ, Bool, true, Option, none, some, is_some, List, [], ◌∷◌, ◌++◌, map, if◌then◌else◌, unwrap_or,
  is_empty, position,
}
use camouflage.Text.{Str, utf8, str_eq, find_str}
use camouflage.Json.{Json, get_as, get_str}
use camouflage.Blocks.{DiffLine}
use camouflage.Diff.{parse_unified, diff_texts}
use camouflage.Session.{Session}
use camouflage.Session.Ask.{Prompt, PromptKind, permission, select, confirm}
use camouflage.Session.Prompts.{open_prompt}
use camouflage.Form.{from_payload}

-- `x.or_else(|| y)`
abbrev pub or_else {ℓ} : {A : Type ℓ} → Option A → Option A → Option A
or_else (some a) o = some a
or_else none o = o

-- A prompt of a kind, without what only some kinds have.
abbrev pub plain_prompt : PromptKind → Str → List Str → ℕ → Prompt
plain_prompt kind title options selected = record {
  kind = kind;
  title = title;
  subtitle = none;
  diff = none;
  question = none;
  options = options;
  hints = [];
  sections = [];
  columns = [];
  states = [];
  keywords = [];
  current = none;
  selected = selected;
  filter = [];
  shown_at = none;
}

-- `sub` is left out where the title says it.
abbrev pub unless_said : Str → Option Str → Option Str
unless_said title none = none
unless_said title (some sub) = if is_some (find_str sub title) then none else some sub

abbrev pub path_of : Option (Str × List DiffLine) → Option Str
path_of none = none
path_of (some (path, lines)) = some path

unfoldable pub diff_of_texts : Str → Option Str → Option Str → Option (Str × List DiffLine)
diff_of_texts path none none = none
diff_of_texts path (some before) after = some (path, diff_texts before (unwrap_or [] after) 2)
diff_of_texts path none (some after) = some (path, diff_texts [] after 2)

unfoldable pub diff_of_unified :
    Str → Option Str → Option (Str × List DiffLine) → Option (Str × List DiffLine)
diff_of_unified path (some u) texts = some (path, parse_unified u)
diff_of_unified path none texts = texts

-- The first place of a value.
abbrev pub place_of : Option Str → List Str → ℕ
place_of none values = 0
place_of (some d) values = unwrap_or 0 (position (λ v. str_eq v d) values)

abbrev pub said_or : Str → Str → Str
said_or other s = if is_empty s then other else s

module _ {V : Type 0} (j : Json V) where
  abbrev pub text_at : V → Str → Str
  text_at p k = unwrap_or [] (get_str j p k)

  unfoldable pub parse_diff_payload : V → Option (Str × List DiffLine)
  parse_diff_payload d =
      diff_of_unified (text_at d (utf8 "path"))
        (or_else (get_str j d (utf8 "unified")) (j.as_str d))
        (diff_of_texts (text_at d (utf8 "path")) (get_str j d (utf8 "before"))
          (get_str j d (utf8 "after")))

  -- `capitalize` uses the Unicode tables.
  unfoldable pub permission_prompt : (Str → Str) → Str → V → Prompt
  permission_prompt capitalize app_name p =
      let tool = text_at p (utf8 "tool") in
      let action = text_at p (utf8 "action") in
      let detail = text_at p (utf8 "detail") in
      let diff = get_as j parse_diff_payload p (utf8 "diff") in
      let title =
        if is_empty action then utf8 "Allow " ++ tool ++ utf8 "?" else capitalize action in
      record (plain_prompt (permission (text_at p (utf8 "request_id"))) title
        (utf8 "Yes"
          ∷ utf8 "Yes, and don't ask again this session"
          ∷ (utf8 "No, and tell "
              ++ said_or (utf8 "the agent") app_name
              ++ utf8 " what to do differently")
          ∷ [])
        0) {
          subtitle = unless_said title (if is_empty detail then path_of diff else some detail);
          diff = diff;
          question =
              some (utf8 "Do you want to allow this " ++ said_or (utf8 "action") tool ++ utf8 "?");
        }

  -- `PermissionRequested`
  unfoldable pub permission_requested : (Str → Str) → V → Session → Session
  permission_requested capitalize p s = open_prompt (permission_prompt capitalize s.app_name p) s

  abbrev pub is_on : Option Str → Option Bool
  is_on none = none
  is_on (some v) = some (str_eq v (utf8 "on"))

  abbrev pub list_at : V → Str → List V
  list_at p k = unwrap_or [] (get_as j j.as_array p k)

  unfoldable pub select_prompt : V → Prompt
  select_prompt p =
      let opts = list_at p (utf8 "options") in
      let values = map (λ o. text_at o (utf8 "value")) opts in
      let chosen = get_str j p (utf8 "default") in
      let selected = place_of chosen values in
      record (plain_prompt
        (select (text_at p (utf8 "id")) values
          (unwrap_or true (get_as j j.as_bool p (utf8 "allow_cancel")))
          (unwrap_or true (get_as j j.as_bool p (utf8 "allow_filter"))))
        (text_at p (utf8 "prompt")) (map (λ o. text_at o (utf8 "label")) opts) selected) {
          subtitle = get_str j p (utf8 "subtitle");
          hints = map (λ o. get_str j o (utf8 "description")) opts;
          sections = map (λ o. get_str j o (utf8 "section")) opts;
          columns =
              map (λ o. map (λ v. unwrap_or [] (j.as_str v)) (list_at o (utf8 "columns"))) opts;
          states = map (λ o. is_on (get_str j o (utf8 "state"))) opts;
          keywords = map (λ o. text_at o (utf8 "keywords")) opts;
          current = if is_some chosen then some selected else none;
        }

  -- `ShowSelectList`
  unfoldable pub show_select_list : V → Session → Session
  show_select_list p s = open_prompt (select_prompt p) s

  abbrev pub says : V → Str → Str → Bool
  says p k word = str_eq (text_at p k) word

  unfoldable pub confirm_prompt : V → Prompt
  confirm_prompt p =
      plain_prompt
        (confirm (text_at p (utf8 "id"))
          (unwrap_or true (get_as j j.as_bool p (utf8 "allow_cancel"))))
        (text_at p (utf8 "prompt"))
        (unwrap_or (utf8 "Yes") (get_str j p (utf8 "yes_label"))
          ∷ unwrap_or (utf8 "No") (get_str j p (utf8 "no_label"))
          ∷ [])
        (if says p (utf8 "default") (utf8 "no") then 1 else 0)

  -- `ShowConfirm`
  unfoldable pub show_confirm : V → Session → Session
  show_confirm p s = open_prompt (confirm_prompt p) s

  -- `ShowForm`
  unfoldable pub show_form : V → Session → Session
  show_form p s = record s { form = some (from_payload j p) }
