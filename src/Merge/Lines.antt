-- ===== src/Merge/Lines.antt =====
-- internal/merge/merge.go, `splitLines` and `equal`.
pub mod Laws
use yggsync.Prelude.{ℕ, Bool, true, false, List, [], ◌∷◌, ◌++◌, ◌==◌, Text, text_eq, nat_eq}
use yggsync.Prelude.{if◌then◌else◌, codes, text_dec, ℕ_discrete}

abbrev pub newline : ℕ
newline = b'\n'

-- The loop over `s`; `line` is `s[start:i]`.
unfoldable pub split_loop : Text → Text → List Text
split_loop line [] = if line == [] then [] else line ∷ []
split_loop line (c ∷ s) = elim (c == newline) [
  | true ↦ (line ++ c ∷ []) ∷ split_loop [] s
  | false ↦ split_loop (line ++ c ∷ []) s
]

unfoldable pub split_lines : Text → List Text
unfolding split_loop
split_lines s = if s == [] then [] else split_loop [] s

-- The lengths are compared first, which the recursion on both lists does at their ends.
unfoldable pub equal : List Text → List Text → Bool
equal [] [] = true
equal (x ∷ xs) (y ∷ ys) = if x == y then equal xs ys else false
equal [] (y ∷ ys) = false
equal (x ∷ xs) [] = false
