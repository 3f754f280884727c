-- ===== src/Tests/Diffs.antt =====
-- Concrete runs of the diffs (crates/inline/src/diff.rs).
use camouflage.Prelude.{◌≡◌, ◌≤◌, List, [], ◌∷◌, length}
use camouflage.Text.{Str}
use camouflage.Diff.{script}
use camouflage.Diff.Script.{old_side, new_side, script-sides}
use camouflage.Diff.Longest.{nil, skip, keep, kept, script-longest}

abbrev line : Str
line = b'a' ∷ []

abbrev other : Str
other = b'b' ∷ []

abbrev before : List Str
before = line ∷ other ∷ []

abbrev after : List Str
after = other ∷ line ∷ []

script-sides_example :
    (old_side (script before after) ≡ before) × (new_side (script before after) ≡ after)
script-sides_example = script-sides before after

script-longest_example : length (line ∷ []) ≤ kept (script before after)
script-longest_example =
    script-longest before after (line ∷ []) (keep [] (other ∷ []) line (skip [] [] other nil))
      (skip (line ∷ []) (line ∷ []) other (keep [] [] line nil))
