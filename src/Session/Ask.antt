-- ===== src/Session/Ask.antt =====
-- crates/inline/src/session.rs: a question to the user, and the options that its filter leaves.
use camouflage.Prelude.{
  ℕ, zero, suc, ◌+◌, ◌-◌, ◌*◌, Bool, true, false, not, ◌&&◌, ◌||◌, Option, none, some, List, [],
  ◌∷◌, ◌++◌, ltb, leb, ◌==◌, if◌then◌else◌, is_empty, length, get_or,
}
use camouflage.Prelude.Int.{ℤ, ◌-ℤ◌, leb_ℤ, pos}
use camouflage.Text.{Str, str_eq}
use camouflage.Ansi.{chars}
use camouflage.Blocks.{DiffLine}

pub data PromptKind : Type 0 where
  permission : Str → PromptKind
  -- The values, whether it can be cancelled, whether it filters.
  select : Str → List Str → Bool → Bool → PromptKind
  confirm : Str → Bool → PromptKind

pub record Prompt : Type 0 where
  pub kind : PromptKind
  pub title : Str
  pub subtitle : Option Str
  pub diff : Option (Str × List DiffLine)
  pub question : Option Str
  pub options : List Str
  pub hints : List (Option Str)
  pub sections : List (Option Str)
  pub columns : List (List Str)
  pub states : List (Option Bool)
  pub keywords : List Str
  pub current : Option ℕ
  pub selected : ℕ
  pub filter : Str
  pub shown_at : Option ℤ

abbrev pub permission_arm_ms : ℤ
permission_arm_ms = pos 400

abbrev pub permission_kind : PromptKind → Bool
permission_kind (permission id) = true
permission_kind _ = false

abbrev pub is_permission : Prompt → Bool
is_permission p = permission_kind p.kind

unfoldable pub armed : Prompt → ℤ → Bool
armed p now =
    not (is_permission p)
    || elim p.shown_at [ none ↦ false | some t ↦ leb_ℤ permission_arm_ms (now -ℤ t) ]

-- The byte offsets of the characters of `q` in the text, and the characters that are not found.
unfoldable pub hits_from : ℕ → List Str → List Str → List ℕ × List Str
hits_from bi cs [] = ([], [])
hits_from bi [] (c ∷ q) = ([], c ∷ q)
hits_from bi (ch ∷ cs) (c ∷ q) =
    let found = hits_from (bi + length ch) cs q in
    let missed = hits_from (bi + length ch) cs (c ∷ q) in
    if str_eq ch c then (bi ∷ found.0, found.1) else missed

abbrev pub last_or : ℕ → List ℕ → ℕ
last_or d [] = d
last_or d (x ∷ xs) = last_or x xs

-- `str::to_lowercase`, by the Unicode tables.
module _ (lowercase : Str → Str) where
  unfoldable pub fuzzy : Str → Str → Option (ℕ × List ℕ)
  fuzzy candidate query =
      let (hits, left) = hits_from 0 (chars (lowercase candidate)) (chars (lowercase query)) in
      let span = last_or 0 hits - get_or hits 0 0 in
      if is_empty query
      then some (0, [])
      else if is_empty left
      then some (span * 4 + get_or hits 0 0, hits)
      else none

  abbrev pub text_or_nil : Option Str → Str
  text_or_nil none = []
  text_or_nil (some s) = s

  abbrev pub first_score : Option (ℕ × List ℕ) → Option (ℕ × List ℕ) → Option ℕ
  first_score (some (s, hits)) extra = some s
  first_score none (some (s, hits)) = some (s + 1000)
  first_score none none = none

  unfoldable pub option_score : Prompt → ℕ → Option ℕ
  option_score p i =
      let hay = text_or_nil (get_or p.hints i none) ++ b' ' ∷ get_or p.keywords i [] in
      first_score (fuzzy (get_or p.options i []) p.filter) (fuzzy hay p.filter)

  -- `sort` on pairs of a score and an index.
  unfoldable pub insert_scored : ℕ × ℕ → List (ℕ × ℕ) → List (ℕ × ℕ)
  insert_scored x [] = x ∷ []
  insert_scored x (y ∷ ys) =
      let rest = insert_scored x ys in
      if ltb x.0 y.0 || x.0 == y.0 && leb x.1 y.1 then x ∷ y ∷ ys else y ∷ rest

  abbrev pub insert_some : Option ℕ → ℕ → List (ℕ × ℕ) → List (ℕ × ℕ)
  insert_some none i ys = ys
  insert_some (some s) i ys = insert_scored (s, i) ys

  -- The options from `i` on, of which there are `n`.
  unfoldable pub scored_from : Prompt → ℕ → ℕ → List (ℕ × ℕ)
  scored_from p i zero = []
  scored_from p i (suc n) = insert_some (option_score p i) i (scored_from p (suc i) n)

  abbrev pub range : ℕ → ℕ → List ℕ
  range i zero = []
  range i (suc n) = i ∷ range (suc i) n

  abbrev pub indices : List (ℕ × ℕ) → List ℕ
  indices [] = []
  indices (x ∷ xs) = x.1 ∷ indices xs

  unfoldable pub visible_options : Prompt → List ℕ
  visible_options p =
      if is_empty p.filter
      then range 0 (length p.options)
      else indices (scored_from p 0 (length p.options))
