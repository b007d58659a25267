-- ===== src/Merge/Lcs.antt =====
-- internal/merge/merge.go, `matchIndex`: the table of lengths and the walk through it.
pub mod Matches
pub mod Longest
use yggsync.Prelude.{ℕ, suc, ◌+◌, true, false, List, [], ◌∷◌, ◌==◌, Text, text_eq}
use yggsync.Prelude.{if◌then◌else◌, leb, length, replicate, get_or, drop, text_dec}
use yggsync.Prelude.Dict.{Dict}

-- `dp[i][j]`
unfoldable pub cell : List (List ℕ) → ℕ → ℕ → ℕ
cell dp i j = get_or (get_or dp i []) j 0

-- The row `dp[i]`, filled from its end, for the line `y = o[i]`; `below` is `dp[i+1]`.
unfoldable pub fill_row : Text → List Text → List ℕ → List ℕ
fill_row y [] below = 0 ∷ []
fill_row y (x ∷ xs) below =
    let row = fill_row y xs (drop 1 below) in
    (if y == x
      then get_or below 1 0 + 1
      else if leb (get_or row 0 0) (get_or below 0 0)
      then get_or below 0 0
      else get_or row 0 0)
    ∷ row

-- The rows from `dp[i]` on, for the lines `o[i:]`.
unfoldable pub fill : List Text → List Text → List (List ℕ)
unfolding fill_row
fill [] xs = replicate (length xs + 1) 0 ∷ []
fill (y ∷ o) xs = let dp = fill o xs in fill_row y xs (get_or dp 0 []) ∷ dp

-- The second loop, at `o[i:]` and `x[j:]`.
unfoldable pub walk : List (List ℕ) → List Text → List Text → ℕ → ℕ → Dict ℕ ℕ
unfolding cell
walk dp [] xs i j = []
walk dp (y ∷ o) [] i j = []
walk dp (y ∷ o) (x ∷ xs) i j = elim (y == x) [
  | true ↦ (i, j) ∷ walk dp o xs (i + 1) (j + 1)
  | false ↦ elim (leb (cell dp i (j + 1)) (cell dp (i + 1) j)) [
    | true ↦ walk dp o (x ∷ xs) (i + 1) j
    | false ↦ walk dp (y ∷ o) xs i (j + 1)
  ]
]

unfoldable pub match_index : List Text → List Text → Dict ℕ ℕ
unfolding fill walk text_dec
match_index o x = walk (fill o x) o x 0 0
