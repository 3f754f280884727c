-- ===== src/Editor/Chips.antt =====
-- The chips that stand for large pastes: `expand_chips` and `chip_before_cursor`.
use camouflage.Prelude.{
  ℕ, suc, ◌+◌, Bool, false, ◌&&◌, Option, none, some, is_some, List, [], ◌∷◌, ◌++◌, if◌then◌else◌,
  length, take, drop, max,
}
use camouflage.Text.{
  Str, utf8, lines, to_decimal, parse_usize, replace_str, ends_with, rfind_str, find_str,
  strip_prefix, strip_suffix,
}
use camouflage.Editor.{Editor}

-- The parts of `[Pasted text #1 +42 lines]`, where "[" is kept apart since the text starts with it.
abbrev pub chip_open : Str
chip_open = utf8 "[Pasted text #"

abbrev pub chip_close : Str
chip_close = utf8 " lines]"

unfoldable pub line_count : Str → ℕ
line_count t = max (length (lines t)) 1

unfoldable pub chip : ℕ → ℕ → Str
chip n count =
    utf8 "[Pasted text #" ++ to_decimal n ++ utf8 " +" ++ to_decimal count ++ utf8 " lines]"

-- The pastes from number `n` on are replaced, the last one first.
unfoldable pub expand_from : ℕ → List Str → Str → Str
expand_from n [] s = s
expand_from n (paste ∷ more) s =
    replace_str (chip n (line_count paste)) paste (expand_from (suc n) more s)

unfoldable pub expand_chips : Editor → Str → Str
expand_chips e s = expand_from 1 e.pastes s

unfoldable pub is_chip : Str → Bool
is_chip inner = elim (find_str (utf8 " +") inner) [
  | none ↦ false
  | some i ↦ is_some (parse_usize (take i inner)) && is_some (parse_usize (drop (i + 2) inner))
]

infixl 5 ◌>>=◌
abbrev pub ◌>>=◌ {ℓ κ} : {A : Type ℓ} {B : Type κ} → Option A → (A → Option B) → Option B
none >>= f = none
some a >>= f = f a

-- The start of a chip that ends at the cursor.
unfoldable pub chip_before_cursor : Editor → Option ℕ
chip_before_cursor e =
    let before = take e.cur e.buf in
    if ends_with (utf8 " lines]") before
    then (rfind_str (utf8 "[Pasted text #") before >>= λ start.
        strip_prefix (utf8 "[Pasted text #") (drop start before) >>= λ rest.
        strip_suffix (utf8 " lines]") rest >>= λ inner. if is_chip inner then some start else none)
    else none
