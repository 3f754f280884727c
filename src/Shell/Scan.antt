-- ===== src/Shell/Scan.antt =====
-- crates/inline/src/blocks.rs: a shell command cut into simple commands and words, and what stands
-- outside of its quotes.
use camouflage.Prelude.{
  ℕ, Bool, true, false, not, ◌&&◌, ◌||◌, Option, none, some, List, [], ◌∷◌, ◌++◌, ◌==◌,
  if◌then◌else◌, retain,
}
use camouflage.Text.{Str, str_eq, starts_with, ends_with, replace_str, is_blank, white_len}
use camouflage.Ansi.{chars}
use camouflage.Shell.Tools.{names}

-- Where a scan of a command stands: outside of quotes, inside, behind a backslash (inside of a quote
-- or not), or at a character that is passed over.
pub data ShellMode : Type 0 where
  bare skipping : ShellMode
  quoted : ℕ → ShellMode
  escaped : Option ℕ → ShellMode

abbrev pub is_quote : ℕ → Bool
is_quote c = c == b'\'' || c == b'"'

abbrev pub back_to : Option ℕ → ShellMode
back_to none = bare
back_to (some q) = quoted q

-- The mode after a character inside of a quote.
abbrev pub in_quote : ℕ → ℕ → ShellMode
in_quote q c =
    if c == b'\\' && q == b'"' then escaped (some q) else if c == q then bare else quoted q

-- A separator that is half of a redirection: `>&` and `&>`.
abbrev pub redirects : Str → Str → Bool
redirects cur s = ends_with (b'>' ∷ []) cur || starts_with (b'>' ∷ []) s

-- One round of the loop of `shell_segments`: what is pushed, the mode, and the current command.
unfoldable pub segment_bare : ℕ → Str → Str → List Str × ShellMode × Str
segment_bare c cur s =
    if is_quote c
    then ([], quoted c, cur ++ c ∷ [])
    else if c == b'\\'
    then ([], escaped none, cur ++ c ∷ [])
    else if c == b';' || c == b'\n'
    then (cur ∷ [], bare, [])
    else if c == b'|' || c == b'&'
    then (if redirects cur s
        then ([], bare, cur ++ c ∷ [])
        else (cur ∷ [], if starts_with (c ∷ []) s then skipping else bare, []))
    else ([], bare, cur ++ c ∷ [])

unfoldable pub segment_step : ShellMode → ℕ → Str → Str → List Str × ShellMode × Str
segment_step bare c cur s = segment_bare c cur s
segment_step skipping c cur s = ([], bare, cur)
segment_step (quoted q) c cur s = ([], in_quote q c, cur ++ c ∷ [])
segment_step (escaped o) c cur s = ([], back_to o, cur ++ c ∷ [])

unfoldable pub segments_from : ShellMode → Str → Str → List Str
segments_from m cur [] = cur ∷ []
segments_from m cur (c ∷ s) =
    let (out, m', cur') = segment_step m c cur s in out ++ segments_from m' cur' s

unfoldable pub shell_segments : Str → List Str
shell_segments cmd = retain (λ s. not (is_blank s)) (segments_from bare [] cmd)

-- One round of the loop of `words`: what is pushed, the quote, the current word, whether it started.
pub record WordState : Type 0 where
  pub quote : Option Str
  pub cur : Str
  pub started : Bool

unfoldable pub word_bare : Str → WordState → List Str × WordState
word_bare c w =
    if str_eq c (b'\'' ∷ []) || str_eq c (b'"' ∷ [])
    then ([], record w { quote = some c; started = true })
    else if not (white_len c == 0)
    then (if w.started then (w.cur ∷ [], record w { cur = []; started = false }) else ([], w))
    else ([], record w { cur = w.cur ++ c; started = true })

unfoldable pub word_step : Option Str → Str → WordState → List Str × WordState
word_step none c w = word_bare c w
word_step (some q) c w =
    if str_eq c q
    then ([], record w { quote = none; started = true })
    else ([], record w { cur = w.cur ++ c; started = true })

unfoldable pub words_from : WordState → List Str → List Str
words_from w [] = if w.started then w.cur ∷ [] else []
words_from w (c ∷ cs) = let next = word_step w.quote c w in next.0 ++ words_from next.1 cs

unfoldable pub words : Str → List Str
words s = words_from (record { quote = none; cur = []; started = false }) (chars s)

unfoldable pub strip_all : List Str → Str → Str
strip_all [] s = s
strip_all (p ∷ ps) s = strip_all ps (replace_str p (b' ' ∷ []) s)

unfoldable pub strip_dev_null : Str → Str
strip_dev_null s =
    strip_all
      (names ("2>/dev/null" ∷ "1>/dev/null" ∷ "&>/dev/null" ∷ ">/dev/null" ∷ "2>&1" ∷ "1>&2" ∷ []))
      s

-- A round of `has_unquoted`: a backslash outside of quotes is a character like any other there.
unfoldable pub unquoted_next : ShellMode → ℕ → ShellMode
unquoted_next (quoted q) c = in_quote q c
unquoted_next (escaped o) c = back_to o
unquoted_next m c = if is_quote c then quoted c else bare

unfoldable pub is_found : ShellMode → ℕ → ℕ → Bool
is_found (quoted q) c needle = false
is_found (escaped o) c needle = false
is_found m c needle = not (is_quote c) && c == needle

unfoldable pub unquoted_from : ShellMode → ℕ → Str → Bool
unquoted_from m needle [] = false
unquoted_from m needle (c ∷ s) = is_found m c needle || unquoted_from (unquoted_next m c) needle s

unfoldable pub has_unquoted : Str → ℕ → Bool
has_unquoted s needle = unquoted_from bare needle s
