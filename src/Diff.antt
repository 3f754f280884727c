-- ===== src/Diff.antt =====
-- crates/inline/src/diff.rs: the lines of a diff, from two texts or from a unified diff.
pub mod Script
pub mod Longest
use camouflage.Prelude.{
  ℕ, zero, suc, ◌+◌, ◌-◌, ◌*◌, ◌%◌, ◌^◌, max, Bool, true, false, not, ◌&&◌, ◌||◌, Option, none,
  some, List, [], ◌∷◌, ◌++◌, map, ltb, leb, ◌==◌, if◌then◌else◌, length, get_or, replicate, any,
  retain, unwrap_or,
}
use camouflage.Text.{Str, utf8, str_eq, lines, starts_with, strip_prefix, is_digit, parse_usize}
use camouflage.Blocks.{DiffKind, context, add, del, DiffLine}

-- `i as u32 + 1`
abbrev pub line_no_of : ℕ → ℕ
line_no_of i = i % 4294967296 + 1

abbrev pub diff_line : ℕ → DiffKind → Str → DiffLine
diff_line n kind text = record { line_no = some n; kind = kind; text = text }

abbrev pub is_context : DiffLine → Bool
is_context d = elim d.kind [ context ↦ true | add ↦ false | del ↦ false ]

abbrev pub is_add : DiffLine → Bool
is_add d = elim d.kind [ context ↦ false | add ↦ true | del ↦ false ]

abbrev pub is_del : DiffLine → Bool
is_del d = elim d.kind [ context ↦ false | add ↦ false | del ↦ true ]

-- Row `i` of the table, from row `i + 1`; the last column is 0.
unfoldable pub fill_row : Str → List Str → List ℕ → List ℕ
fill_row x [] below = 0 ∷ []
fill_row x (y ∷ ys) [] = 0 ∷ []
fill_row x (y ∷ ys) (d ∷ below) =
    let rest = fill_row x ys below in
    (if str_eq x y then get_or below 0 0 + 1 else max d (get_or rest 0 0)) ∷ rest

-- The table `lcs`, filled from its last row up.
unfoldable pub table : List Str → List Str → List (List ℕ)
table [] ys = replicate (suc (length ys)) 0 ∷ []
table (x ∷ xs) ys = let t = table xs ys in fill_row x ys (get_or t 0 []) ∷ t

-- `lcs[i][j]`
abbrev pub at : List (List ℕ) → ℕ → ℕ → ℕ
at lcs i j = get_or (get_or lcs i []) j 0

-- The loop that writes the edit script: the lines from `i` and from `j` on are left.
unfoldable pub walk : List (List ℕ) → ℕ → ℕ → List Str → List Str → List DiffLine
walk lcs i j [] [] = []
walk lcs i j [] (y ∷ ys) = diff_line (line_no_of j) add y ∷ walk lcs i (suc j) [] ys
walk lcs i j (x ∷ xs) [] = diff_line (line_no_of i) del x ∷ walk lcs (suc i) j xs []
walk lcs i j (x ∷ xs) (y ∷ ys) = elim (str_eq x y) [
  | true ↦ diff_line (line_no_of j) context y ∷ walk lcs (suc i) (suc j) xs ys
  | false ↦ elim (leb (at lcs i (suc j)) (at lcs (suc i) j)) [
    | true ↦ diff_line (line_no_of i) del x ∷ walk lcs (suc i) j xs (y ∷ ys)
    | false ↦ diff_line (line_no_of j) add y ∷ walk lcs i (suc j) (x ∷ xs) ys
  ]
]

unfoldable pub script : List Str → List Str → List DiffLine
script a b = walk (table a b) 0 0 a b

-- The places of the changes, counted from `k`.
unfoldable pub changed_from : ℕ → List DiffLine → List ℕ
changed_from k [] = []
changed_from k (d ∷ ds) =
    let rest = changed_from (k + 1) ds in if is_context d then rest else k ∷ rest

-- `c.abs_diff(k)`
abbrev pub abs_diff : ℕ → ℕ → ℕ
abs_diff c k = (c - k) + (k - c)

unfoldable pub keep_near : ℕ → ℕ → List ℕ → List DiffLine → List DiffLine
keep_near around k changed [] = []
keep_near around k changed (d ∷ ds) =
    let rest = keep_near around (k + 1) changed ds in
    if not (is_context d) || any (λ c. leb (abs_diff c k) around) changed then d ∷ rest else rest

unfoldable pub all_added : ℕ → List Str → List DiffLine
all_added i [] = []
all_added i (y ∷ ys) = diff_line (line_no_of i) add y ∷ all_added (i + 1) ys

unfoldable pub diff_lines : List Str → List Str → ℕ → List DiffLine
diff_lines a b around =
    if ltb 16000000 (length a * length b)
    then all_added 0 b
    else keep_near around 0 (changed_from 0 (script a b)) (script a b)

unfoldable pub diff_texts : Str → Str → ℕ → List DiffLine
diff_texts before after around = diff_lines (lines before) (lines after) around

-- `split(|c| !c.is_ascii_digit())` without the empty pieces: the runs of digits.
unfoldable pub digit_runs : Str → List Str
digit_runs [] = []
digit_runs (b ∷ s) = elim (is_digit b) [
  | false ↦ digit_runs s
  | true ↦ elim s [
    | [] ↦ (b ∷ []) ∷ []
    | c ∷ t ↦ elim (is_digit c) [
      | false ↦ (b ∷ []) ∷ digit_runs s
      | true ↦ elim (digit_runs s) [ [] ↦ (b ∷ []) ∷ [] | r ∷ rs ↦ (b ∷ r) ∷ rs ]
    ]
  ]
]

-- `filter_map(|s| s.parse::<u32>().ok())`
unfoldable pub parse_all_u32 : List Str → List ℕ
parse_all_u32 [] = []
parse_all_u32 (r ∷ rs) =
    let rest = parse_all_u32 rs in
    elim (parse_usize r) [ none ↦ rest | some n ↦ if leb n 4294967295 then n ∷ rest else rest ]

-- The line numbers `old` and `new` of a hunk header.
unfoldable pub hunk_start : Str → ℕ × ℕ
hunk_start line =
    let nums = parse_all_u32 (digit_runs line) in (get_or nums 0 1, get_or nums 2 (get_or nums 1 1))

abbrev pub is_header : Str → Bool
is_header line =
    starts_with (utf8 "+++") line
    || starts_with (utf8 "---") line
    || starts_with (utf8 "diff ") line
    || starts_with (utf8 "index ") line

-- `+= 1` on a `u32`, which wraps where overflow is not checked.
unfoldable pub succ_u32 : ℕ → ℕ
succ_u32 n = (n + 1) % 2 ^ 32

-- The lines of a unified diff, where the next line numbers are `old` and `new`.
unfoldable pub parse_lines : ℕ → ℕ → List Str → List DiffLine
parse_lines old new [] = []
parse_lines old new (line ∷ ls) = elim (starts_with (utf8 "@@") line) [
  | true ↦ parse_lines (hunk_start line).0 (hunk_start line).1 ls
  | false ↦ elim (is_header line) [
    | true ↦ parse_lines old new ls
    | false ↦ elim (strip_prefix (b'+' ∷ []) line) [
      | some t ↦ diff_line new add t ∷ parse_lines old (succ_u32 new) ls
      | none ↦ elim (strip_prefix (b'-' ∷ []) line) [
        | some t ↦ diff_line old del t ∷ parse_lines (succ_u32 old) new ls
        | none ↦
            diff_line new context (unwrap_or line (strip_prefix (b' ' ∷ []) line))
            ∷ parse_lines (succ_u32 old) (succ_u32 new) ls
      ]
    ]
  ]
]

unfoldable pub parse_unified : Str → List DiffLine
parse_unified diff = parse_lines 0 0 (lines diff)

unfoldable pub count_changes : List DiffLine → ℕ × ℕ
count_changes ds = (length (retain is_add ds), length (retain is_del ds))
