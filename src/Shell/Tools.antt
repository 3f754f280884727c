-- ===== src/Shell/Tools.antt =====
-- crates/inline/src/blocks.rs: the kinds of tools that only read, by their names.
use camouflage.Prelude.{ℕ, Bool, Option, none, some, List, [], ◌∷◌, if◌then◌else◌}
use Prim.Native.String.{String}
use camouflage.Text.{Str, utf8, str_eq, starts_with, to_lower}
use camouflage.Blocks.{one_of}

infixr 4 ◌or_kind◌
-- A row of a `match` on names, and the rows after it.
abbrev pub ◌or_kind◌ : Bool × Str → Option Str → Option Str
row or_kind rest = if row.0 then some row.1 else rest

abbrev pub file : Str
file = utf8 "file"

abbrev pub search_kind : Str
search_kind = utf8 "search"

abbrev pub folder : Str
folder = utf8 "folder"

abbrev pub page : Str
page = utf8 "page"

abbrev pub lookup_kind : Str
lookup_kind = utf8 "lookup"

abbrev pub command : Str
command = utf8 "command"

abbrev pub names : List String → List Str
names [] = []
names (s ∷ ss) = utf8 s ∷ names ss

unfoldable pub explore_kind : Str → Option Str
explore_kind name =
    let n = to_lower name in
    (one_of n (names ("read" ∷ "view" ∷ "cat" ∷ "open" ∷ "read_file" ∷ [])), file)
    or_kind (
      one_of n (
          names (
            "grep" ∷ "glob" ∷ "find" ∷ "search" ∷ "rg" ∷ "codesearch" ∷ "code_search" ∷ "web_search"
            ∷ "websearch" ∷ [])),
      search_kind,
    )
    or_kind (one_of n (names ("ls" ∷ "list" ∷ "list_dir" ∷ "tree" ∷ [])), folder)
    or_kind (
      one_of n (names ("web_fetch" ∷ "webfetch" ∷ "fetch" ∷ "browser_fetch" ∷ "browserfetch" ∷ [])),
      page,
    )
    or_kind (
      one_of n (
          names (
            "github_read_code" ∷ "github_read_issue" ∷ "github_read_pr" ∷ "github_read_file"
            ∷ "github_get_file" ∷ [])),
      page,
    )
    or_kind (
      one_of n (
          names (
            "memory_recall" ∷ "job_status" ∷ "job_logs" ∷ "worker_status" ∷ "github_pr_checks"
            ∷ "github_list_releases" ∷ "github_list_merged_prs" ∷ "github_list_prs"
            ∷ "github_list_issues" ∷ "github_list_commits" ∷ [])),
      lookup_kind,
    )
    or_kind (starts_with (utf8 "lsp_") n, lookup_kind)
    or_kind none

unfoldable pub rank : Str → ℕ
rank kind =
    if str_eq kind search_kind
    then 3
    else if str_eq kind folder
    then 2
    else if str_eq kind file
    then 1
    else 0
