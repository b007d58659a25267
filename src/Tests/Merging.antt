-- ===== src/Tests/Merging.antt =====
-- Runs of internal/merge, and its theorems at concrete texts.
use mathlib.Core.List.{flatten}
use mathlib.Core.Option
use yggsync.Prelude.{◌≤◌, ◌≡◌, refl, false, List, [], ◌∷◌, Text, codes, some, length, arith}
use yggsync.Merge
use yggsync.Merge.{merge, taken}
use yggsync.Merge.Laws.{IsMerge, merge-IsMerge}
use yggsync.Merge.Symmetry.{outcome, merge-swap}
use yggsync.Merge.Lines.{split_lines}
use yggsync.Merge.Lines.Laws.{IsLines, line, unterminated, split_lines-flatten}
use yggsync.Merge.Lcs.{match_index}
use yggsync.Merge.Lcs.Longest.{stop, skip_left, skip_right, both, Common-le-match_index}

abbrev base : Text
base = codes "a\nb\nc\n"

abbrev ours : Text
ours = codes "A\nb\nc\n"

abbrev theirs : Text
theirs = codes "a\nb\nC\n"

disjoint_edits : merge base ours theirs ≡ some (taken (codes "A\nb\nC\n"))
unfolding merge
disjoint_edits = refl

same_line_edited :
    merge (codes "x") (codes "y\n") (codes "z")
    ≡ some (record {
      merged = codes "<<<<<<< ours\ny\n||||||| base\nx\n=======\nz\n>>>>>>> theirs\n";
      clean = false;
      conflicts = 1;
    })
unfolding merge
same_line_edited = refl

abbrev lines : List Text
lines = codes "one\n" ∷ codes "two" ∷ []

lines-IsLines : IsLines lines
lines-IsLines =
    line (codes "one") _ (omega arith) (unterminated b't' (codes "wo") (omega arith) (omega arith))

abbrev base_lines : List Text
base_lines = codes "a\n" ∷ codes "b\n" ∷ codes "c\n" ∷ []

abbrev our_lines : List Text
our_lines = codes "b\n" ∷ codes "x\n" ∷ codes "c\n" ∷ []

merge-IsMerge_example :
    (r : Merge.Result) × (merge base ours theirs ≡ some r) × IsMerge base ours theirs r
merge-IsMerge_example = merge-IsMerge base ours theirs

merge-swap_example :
    Option.map outcome (merge base theirs ours) ≡ Option.map outcome (merge base ours theirs)
merge-swap_example = merge-swap base ours theirs

split_lines-flatten_example : split_lines (flatten lines) ≡ lines
split_lines-flatten_example = split_lines-flatten lines lines-IsLines

Common-le-match_index_example : 2 ≤ length (match_index base_lines our_lines)
Common-le-match_index_example =
    Common-le-match_index 2 base_lines our_lines
      (skip_left (both refl (skip_right (both refl stop))))
