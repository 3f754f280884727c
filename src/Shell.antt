-- ===== src/Shell.antt =====
-- crates/inline/src/blocks.rs: which tools only read, and which shell commands. The characters that are
-- tested are ASCII, so a text is gone through by bytes, but by characters where white space counts.
-- A kind is its noun.
pub mod Tools
pub mod Scan
use camouflage.Prelude.{
  ℕ, zero, suc, ◌+◌, Bool, true, false, not, ◌&&◌, ◌||◌, Option, none, some, is_some, List, [], ◌∷◌,
  ◌++◌, ◌==◌, leb, ltb, if◌then◌else◌, is_empty, any, retain, drop, take, unwrap_or,
}
use Prim.Native.String.{String}
use camouflage.Text.{
  Str, utf8, str_eq, starts_with, ends_with, strip_prefix, find_str, rfind_str, replace_str,
  trim_start, is_blank, white_len, to_lower, is_digit,
}
use camouflage.Ansi.{chars}
use camouflage.Blocks.{one_of}
use camouflage.Shell.Tools.{
  command, explore_kind, file, folder, lookup_kind, names, page, rank, search_kind, ◌or_kind◌,
}
use camouflage.Shell.Scan.{
  back_to, has_unquoted, in_quote, is_found, is_quote, redirects, segment_bare, segment_step,
  segments_from, shell_segments, strip_all, strip_dev_null, unquoted_from, unquoted_next, word_bare,
  word_step, words, words_from, ShellMode, WordState,
}

-- Whether white space begins a text, or nothing does.
abbrev pub white_or_end : Str → Bool
white_or_end s = is_empty s || not (white_len s == 0)

abbrev pub without_prompt : Str → Option Str → Str
without_prompt cmd none = cmd
without_prompt cmd (some rest) = if white_or_end rest then trim_start rest else cmd

unfoldable pub strip_prompt : Str → Str
strip_prompt cmd = without_prompt (trim_start cmd) (strip_prefix (b'$' ∷ []) (trim_start cmd))

abbrev pub is_alpha : ℕ → Bool
is_alpha c = leb b'a' c && leb c b'z' || leb b'A' c && leb c b'Z'

abbrev pub is_name : Str → Bool
is_name [] = false
is_name (c ∷ s) =
    (is_alpha c || c == b'_')
    && not (any (λ (d : ℕ). not (is_alpha d || is_digit d || d == b'_')) s)

unfoldable pub is_env_assignment : Str → Bool
is_env_assignment word = elim (find_str (b'=' ∷ []) word) [
  | none ↦ false
  | some i ↦ is_name (take i word)
]

-- The words before a command's name.
unfoldable pub drop_prefixes : List Str → List Str
drop_prefixes [] = []
drop_prefixes (f ∷ w) =
    let rest = drop_prefixes w in
    if one_of f (names ("!" ∷ "time" ∷ "command" ∷ "builtin" ∷ [])) || is_env_assignment f
    then rest
    else f ∷ w

-- `rsplit('/').next()`
unfoldable pub base_name : Str → Str
base_name s = elim (rfind_str (b'/' ∷ []) s) [ none ↦ s | some i ↦ drop (suc i) s ]

abbrev pub ellipsis_run : Str → Bool
ellipsis_run [] = true
ellipsis_run (a ∷ b ∷ c ∷ s) = a == 0xE2 && b == 0x80 && c == 0xA6 && ellipsis_run s
ellipsis_run _ = false

-- `trim_end_matches('…')`
unfoldable pub trim_ellipsis : Str → Str
trim_ellipsis [] = []
trim_ellipsis (b ∷ s) = let rest = trim_ellipsis s in if ellipsis_run (b ∷ s) then [] else b ∷ rest

abbrev pub takes_value : Str → Bool
takes_value a = one_of a (names ("-C" ∷ "-c" ∷ "--git-dir" ∷ "--work-tree" ∷ "--namespace" ∷ []))

abbrev pub is_global_flag : Str → Bool
is_global_flag a =
    starts_with (utf8 "--git-dir=") a
    || starts_with (utf8 "--work-tree=") a
    || starts_with (utf8 "-c") a
    || one_of a (names ("--no-pager" ∷ "--paginate" ∷ "-P" ∷ "--no-optional-locks" ∷ []))

-- The words from git's command on, without its global flags.
unfoldable pub git_command : List Str → List Str
git_command [] = []
git_command (a ∷ []) = if takes_value a || is_global_flag a then [] else a ∷ []
git_command (a ∷ b ∷ w) = elim (takes_value a) [
  | true ↦ git_command w
  | false ↦ elim (is_global_flag a) [ true ↦ git_command (b ∷ w) | false ↦ a ∷ b ∷ w ]
]

abbrev pub first_is : (Str → Bool) → Bool → List Str → Bool
first_is p d [] = d
first_is p d (x ∷ xs) = p x

-- A command of git that only reads, with its words.
unfoldable pub git_reads : Str → List Str → Bool
git_reads sub rest =
    one_of sub (
      names (
        "log" ∷ "show" ∷ "diff" ∷ "blame" ∷ "status" ∷ "ls-files" ∷ "rev-parse" ∷ "describe"
        ∷ "shortlog" ∷ "cat-file" ∷ "show-ref" ∷ "for-each-ref" ∷ "whatchanged" ∷ "reflog" ∷ []))
    || one_of sub (names ("branch" ∷ "tag" ∷ []))
      && not (any (λ a. not (starts_with (b'-' ∷ []) a)) rest)
    || str_eq sub (utf8 "remote")
      && not (any (λ a. not (one_of a (names ("-v" ∷ "--verbose" ∷ "show" ∷ "get-url" ∷ [])))) rest)
    || str_eq sub (utf8 "stash")
      && first_is (λ a. one_of a (names ("list" ∷ "show" ∷ []))) true rest
    || str_eq sub (utf8 "config")
      && any (λ a. one_of a (names ("-l" ∷ "--list" ∷ "--get" ∷ "--get-all" ∷ "--get-regexp" ∷ [])))
          rest
    || str_eq sub (utf8 "worktree") && first_is (λ a. str_eq a (utf8 "list")) false rest

unfoldable pub git_sub_kind : List Str → Option Str
git_sub_kind [] = none
git_sub_kind (sub ∷ rest) =
    (str_eq sub (utf8 "grep"), search_kind) or_kind (git_reads sub rest, command) or_kind none

unfoldable pub git_kind : List Str → Option Str
git_kind args = git_sub_kind (git_command args)

abbrev pub find_writes : List Str → Bool
find_writes args =
    any
      (λ a. one_of a (
        names (
          "-delete" ∷ "-exec" ∷ "-execdir" ∷ "-ok" ∷ "-okdir" ∷ "-fprint" ∷ "-fprintf" ∷ "-fls"
          ∷ [])))
      args

abbrev pub sed_writes : List Str → Bool
sed_writes args =
    any
      (λ a.
        str_eq a (utf8 "--in-place")
        || starts_with (utf8 "--in-place=") a
        || starts_with (utf8 "-i") a)
      args

-- The kind of a command by its name and its words.
unfoldable pub command_kind : Str → List Str → Option Str
command_kind cmd args =
    (
      one_of cmd (names ("grep" ∷ "egrep" ∷ "fgrep" ∷ "rg" ∷ "ag" ∷ "ack" ∷ "fd" ∷ "locate" ∷ [])),
      search_kind,
    )
    or_kind (str_eq cmd (utf8 "find") && not (find_writes args), search_kind)
    or_kind (one_of cmd (names ("ls" ∷ "tree" ∷ "du" ∷ "df" ∷ [])), folder)
    or_kind (
      one_of cmd (
          names (
            "cat" ∷ "head" ∷ "tail" ∷ "wc" ∷ "nl" ∷ "bat" ∷ "less" ∷ "more" ∷ "jq" ∷ "diff" ∷ "file"
            ∷ "stat" ∷ "md5sum" ∷ "shasum" ∷ "sha256sum" ∷ "cut" ∷ "sort" ∷ "uniq" ∷ "tr" ∷ "column"
            ∷ "basename" ∷ "dirname" ∷ "realpath" ∷ "readlink" ∷ [])),
      file,
    )
    or_kind (str_eq cmd (utf8 "sed") && not (sed_writes args), file)
    or_kind (one_of cmd (names ("awk" ∷ "gawk" ∷ "mawk" ∷ [])), file)
    or_kind (
      one_of cmd (
          names (
            "echo" ∷ "printf" ∷ "pwd" ∷ "which" ∷ "type" ∷ "env" ∷ "date" ∷ "true" ∷ "false" ∷ "cd"
            ∷ "export" ∷ "set" ∷ "unset" ∷ "sleep" ∷ "test" ∷ "[" ∷ "seq" ∷ "yes" ∷ "whoami"
            ∷ "uname" ∷ "hostname" ∷ [])),
      command,
    )
    or_kind (if str_eq cmd (utf8 "git") then git_kind args else none)

unfoldable pub words_kind : List Str → Option Str
words_kind [] = none
words_kind (w ∷ args) =
    let cmd = base_name w in
    if starts_with (utf8 "…") cmd then some command else command_kind (trim_ellipsis cmd) args

unfoldable pub segment_kind : Str → Option Str
segment_kind raw =
    let seg = strip_dev_null raw in
    if is_some (find_str (utf8 "… +") seg) || has_unquoted seg b'>'
    then none
    else words_kind (drop_prefixes (words seg))

-- The better of two kinds, where the first one was found before.
abbrev pub better : Option Str → Str → Str
better none kind = kind
better (some b) kind = if ltb (rank b) (rank kind) then kind else b

-- The loop of `shell_explore_kind`.
unfoldable pub best_kind : Option Str → List Str → Option (Option Str)
best_kind best [] = some best
best_kind best (seg ∷ segs) = elim (segment_kind seg) [
  | none ↦ none
  | some kind ↦ best_kind (some (better best kind)) segs
]

-- No kind without a command.
abbrev pub if_seen : Option (Option Str) → Option Str
if_seen none = none
if_seen (some best) = best

unfoldable pub shell_explore_kind : Str → Option Str
shell_explore_kind cmd = if_seen (best_kind none (shell_segments (strip_prompt cmd)))

abbrev pub is_shell : Str → Bool
is_shell name =
    one_of (to_lower name)
      (names ("bash" ∷ "shell" ∷ "sh" ∷ "run" ∷ "exec" ∷ "terminal" ∷ "command" ∷ []))

abbrev pub or_shell : Option Str → Option Str → Option Str
or_shell (some kind) o = some kind
or_shell none o = o

unfoldable pub explore_kind_of : Str → Str → Option Str
explore_kind_of name args =
    or_shell (explore_kind name) (if is_shell name then shell_explore_kind args else none)
