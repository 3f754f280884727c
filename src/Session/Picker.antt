-- ===== src/Session/Picker.antt =====
-- crates/inline/src/session.rs: the list of commands, files and folders that opens over the prompt
-- editor, and the sending of what the user wrote.
use camouflage.Prelude.{
  ℕ, ◌+◌, ◌-◌, min, Bool, false, not, ◌&&◌, ◌||◌, Option, none, some, List, [], ◌∷◌, ◌++◌, map,
  ◌==◌, ltb, leb, if◌then◌else◌, unwrap_or, is_empty, length, any, retain, get_or, take, drop,
}
use camouflage.Text.{
  Str, utf8, str_eq, starts_with, ends_with, strip_prefix, rfind_str, white_len, trim_start,
  is_blank,
}
use camouflage.Protocol.{user_input_submitted, mention_query}
use camouflage.Blocks.{user}
use camouflage.Editor.Handle.{push_capped, set_text, replace_before_cursor, clear}
use camouflage.Session.{Session, user_text, query, send, push_done}
use camouflage.Session.Ask.{fuzzy}

pub record PickItem : Type 0 where
  pub label : Str
  pub hint : Option Str
  pub hits : List ℕ

-- `contains(char::is_whitespace)`
unfoldable pub has_white : Str → Bool
has_white [] = false
has_white (b ∷ s) = ltb 0 (white_len (b ∷ s)) || has_white s

-- `ends_with(char::is_whitespace)`
unfoldable pub ends_white : Str → Bool
ends_white [] = false
ends_white (b ∷ s) = white_len (b ∷ s) == length (b ∷ s) || ends_white s

unfoldable pub until_white : Str → Str
until_white [] = []
until_white (b ∷ s) = let rest = until_white s in if ltb 0 (white_len (b ∷ s)) then [] else b ∷ rest

-- `split_whitespace().next().unwrap_or("")`
unfoldable pub first_word : Str → Str
first_word s = until_white (trim_start s)

abbrev pub is_path : Str → Bool
is_path q =
    starts_with (utf8 "/") q
    || starts_with (utf8 "~") q
    || starts_with (utf8 "./") q
    || starts_with (utf8 "../") q
    || str_eq q (utf8 ".")
    || str_eq q (utf8 "..")

abbrev pub up_to : Option ℕ → Str → Option Str
up_to none q = none
up_to (some i) q = some (take (i + 1) q)

unfoldable pub path_dir : Str → Option Str
path_dir q =
    if not (is_path q)
    then none
    else if str_eq q (utf8 "~")
        || str_eq q (utf8 ".")
        || str_eq q (utf8 "..")
        || ends_with (utf8 "/..") q
    then some (q ++ utf8 "/")
    else up_to (rfind_str (utf8 "/") q) q

abbrev pub before_cursor : Session → Str
before_cursor s = take s.editor.cur s.editor.buf

-- The text after the last `@`, which is at a place of `before`.
unfoldable pub partial_at : Option ℕ → Str → Option Str
partial_at none before = none
partial_at (some at) before =
    let q = drop (at + 1) before in
    if has_white q || ltb 0 at && not (ends_white (take at before)) then none else some q

unfoldable pub mention_partial : Session → Option Str
mention_partial s = partial_at (rfind_str (utf8 "@") (before_cursor s)) (before_cursor s)

abbrev pub dir_of : Option Str → Option Str
dir_of none = none
dir_of (some q) = path_dir q

abbrev pub was_sent : Option Str → Str → Bool
was_sent none dir = false
was_sent (some sent) dir = str_eq sent dir

unfoldable pub query_of : Option Str → Str → Session → Session
query_of none q s = s
query_of (some dir) q s =
    if was_sent s.mention_query_sent dir
    then s
    else send mention_query (query q) (record s { mention_query_sent = some dir })

unfoldable pub refresh_mention_query : Session → Session
refresh_mention_query s = let q = mention_partial s in query_of (dir_of q) (unwrap_or [] q) s

abbrev pub hint_text : Option Str → Str
hint_text none = []
hint_text (some h) = b' ' ∷ h

abbrev pub command_item : Str × Str × Option Str → PickItem
command_item (n, d, h) = record {
  label = b'/' ∷ n ++ hint_text h;
  hint = if is_empty d then none else some d;
  hits = [];
}

abbrev pub some_items : List PickItem → Option (List PickItem)
some_items items = if is_empty items then none else some items

-- The commands that begin with the text, the one of that name first.
unfoldable pub command_items : Str → List (Str × Str × Option Str) → List PickItem
command_items q commands =
    let matches = retain (λ (c : Str × Str × Option Str). starts_with q c.0) commands in
    map command_item (
      retain (λ (c : Str × Str × Option Str). str_eq c.0 q) matches
      ++ retain (λ (c : Str × Str × Option Str). not (str_eq c.0 q)) matches)

abbrev pub scored_ltb : ℕ × PickItem → ℕ × PickItem → Bool
scored_ltb (s, i) (t, k) = ltb s t || s == t && leb (length i.label) (length k.label)

-- The stable `sort_by_key` on the score and the length of the label.
unfoldable pub insert_item : ℕ × PickItem → List (ℕ × PickItem) → List (ℕ × PickItem)
insert_item x [] = x ∷ []
insert_item x (y ∷ ys) =
    let rest = insert_item x ys in if scored_ltb x y then x ∷ y ∷ ys else y ∷ rest

unfoldable pub sort_items : List (ℕ × PickItem) → List (ℕ × PickItem)
sort_items [] = []
sort_items (x ∷ xs) = insert_item x (sort_items xs)

abbrev pub picked_item : ℕ × PickItem → PickItem
picked_item (score, i) = i

abbrev pub no_item : PickItem
no_item = record { label = []; hint = none; hits = [] }

-- `submit`
unfoldable pub submit_text : Str → Str → Session → Session
submit_text text display s =
    send user_input_submitted (user_text text)
      (push_done (user display) (record s { echoes = push_capped 32 s.echoes display }))

-- A hint in brackets says that the arguments are optional.
abbrev pub wants_args : Option Str → Bool
wants_args none = false
wants_args (some h) = not (is_blank h) && not (starts_with (utf8 "[") (trim_start h))

unfoldable pub needs_args : Str → List (Str × Str × Option Str) → Bool
needs_args name commands =
    any (λ (c : Str × Str × Option Str). str_eq (b'/' ∷ c.0) name && wants_args c.2) commands

unfoldable pub accept_command : Bool → Str → Session → Session
accept_command run name s =
    if run && not (needs_args name s.commands)
    then submit_text name name (record s { editor = clear s.editor })
    else record s { editor = set_text (name ++ utf8 " ") s.editor }

unfoldable pub accept_mention : Str → Session → Session
accept_mention label s =
    let at = unwrap_or 0 (rfind_str (utf8 "@") (before_cursor s)) in
    let inserted = b'@' ∷ label ++ (if ends_with (utf8 "/") label then [] else utf8 " ") in
    refresh_mention_query (record s { editor = replace_before_cursor at inserted s.editor })

unfoldable pub accept_item : Option (List PickItem) → Bool → Session → Session
accept_item none run s = s
accept_item (some items) run s =
    let item = get_or items (min s.pick_sel (length items - 1)) no_item in
    let accepted =
      if starts_with (utf8 "/") s.editor.buf
      then accept_command run (first_word item.label) s
      else accept_mention item.label s in
    record accepted { pick_sel = 0 }

-- `str::to_lowercase`, by the Unicode tables.
module _ (lowercase : Str → Str) where
  -- A name whose part after `from` is compared with the text.
  abbrev pub scored_item : Str → Str → Str → ℕ → Option (ℕ × PickItem)
  scored_item label name q from = elim (fuzzy lowercase name q) [
    | none ↦ none
    | some (score, hits) ↦
        some (score, record { label = label; hint = none; hits = map (λ h. h + from) hits })
  ]

  abbrev pub entry_item : Str → Str → Str → Option (ℕ × PickItem)
  entry_item dir rest t =
      let name = unwrap_or t (strip_prefix dir t) in
      scored_item t name rest (length t - length name)

  abbrev pub keep_scored : List (Option (ℕ × PickItem)) → List (ℕ × PickItem)
  keep_scored [] = []
  keep_scored (none ∷ xs) = keep_scored xs
  keep_scored (some x ∷ xs) = x ∷ keep_scored xs

  unfoldable pub entries_of : Option (Str × List Str) → Str → Str → Option (List PickItem)
  entries_of none dir q = none
  entries_of (some (for_dir, tokens)) dir q =
      let rest = drop (min (length dir) (length q)) q in
      if str_eq for_dir dir
      then some_items
          (take 8 (map picked_item (take 200 (keep_scored (map (entry_item dir rest) tokens)))))
      else none

  unfoldable pub mention_items : List Str → Str → Option (List PickItem)
  mention_items mentions q = some_items (
      map picked_item (take 8 (sort_items (keep_scored (map (λ m. scored_item m m q 0) mentions)))))

  unfoldable pub items_for : Option Str → Session → Option (List PickItem)
  items_for none s = none
  items_for (some q) s = elim (path_dir q) [
    | some dir ↦ entries_of s.path_mentions dir q
    | none ↦ mention_items s.mentions q
  ]

  abbrev pub is_dismissed : Session → Bool
  is_dismissed s = was_sent s.pick_dismissed s.editor.buf

  unfoldable pub picker : Session → Option (List PickItem)
  picker s = if is_dismissed s then none else elim (strip_prefix (utf8 "/") s.editor.buf) [
    | some q ↦ if has_white q then none else some_items (command_items q s.commands)
    | none ↦ items_for (mention_partial s) s
  ]

  unfoldable pub accept_pick : Bool → Session → Session
  accept_pick run s = accept_item (picker s) run s
