-- ===== src/Merge/Lcs/Matches.antt =====
-- internal/merge/merge.go, `matchIndex`: what it matches are equal lines at increasing indices.
use yggsync.Prelude.{ℕ, suc, ◌+◌, ◌≤◌, ◌≡◌, refl, ap, ◌∙◌, List, [], ◌∷◌, ◌==◌}
use yggsync.Prelude.{Text, text_eq, nat_eq, some, get_elem?, drop, get_elem?-drop, drop-drop, arith}
use yggsync.Prelude.{Bool-cases, eq_of_==, leb, sym, inl, inr}
use yggsync.Prelude.Dict.{Dict, lookup}
use yggsync.Merge.Lcs.{cell, walk, fill, match_index}

-- The line `o[i]` is the line `x[j]`.
abbrev pub SameLine : List Text → List Text → ℕ → ℕ → Type 0
SameLine o x i j = (t : Text) × (get_elem? o i ≡ some t) × (get_elem? x j ≡ some t)

-- Every pair matches equal lines, and the pairs from `(i, j)` on increase on both sides.
abbrev pub IsMatching : List Text → List Text → ℕ → ℕ → Dict ℕ ℕ → Type 0
IsMatching o x i j [] = Unit
IsMatching o x i j ((k, l) ∷ m) =
    (i ≤ k) × (j ≤ l) × SameLine o x k l × IsMatching o x (suc k) (suc l) m

IsMatching-le :
    (o x : List Text) (i j i' j' : ℕ) (m : Dict ℕ ℕ)
    → i ≤ i'
    → j ≤ j'
    → IsMatching o x i' j' m
    → IsMatching o x i j m
IsMatching-le o x i j i' j' [] hi hj h = tt
IsMatching-le o x i j i' j' ((k, l) ∷ m) hi hj (hk, hl, same, rest) =
    (omega arith, omega arith, same, rest)

get_elem?-of_drop :
    (n : ℕ) (xs : List Text) {y : Text} {ys : List Text}
    → drop n xs ≡ y ∷ ys
    → (get_elem? xs n ≡ some y) × (drop (n + 1) xs ≡ ys)
get_elem?-of_drop n xs {y} {ys} e = (
  ap (get_elem? xs) {x = n} {y = n + 0} (omega arith)
      ∙ sym (get_elem?-drop n 0 xs)
      ∙ ap (λ l. get_elem? l 0) e,
  ap (λ k. drop k xs) (omega arith) ∙ sym (drop-drop 1 n xs) ∙ ap (drop 1) e,
)

walk-IsMatching :
    (dp : List (List ℕ)) (o₀ x₀ o x : List Text) (i j : ℕ)
    → drop i o₀ ≡ o
    → drop j x₀ ≡ x
    → IsMatching o₀ x₀ i j (walk dp o x i j)
unfolding walk
walk-IsMatching dp o₀ x₀ [] x i j ho hx = tt
walk-IsMatching dp o₀ x₀ (y ∷ o) [] i j ho hx = tt
walk-IsMatching dp o₀ x₀ (y ∷ o) (x ∷ xs) i j ho hx = elim (Bool-cases (y == x)) [
  | inl e ↦
      rw (e, walk)
        (
          omega arith,
          omega arith,
          (y, (get_elem?-of_drop i o₀ ho).0, rw (eq_of_== y x e) (get_elem?-of_drop j x₀ hx).0),
          IsMatching-le o₀ x₀ (suc i) (suc j) (i + 1) (j + 1) _ (omega arith) (omega arith) (
              walk-IsMatching dp o₀ x₀ o xs (i + 1) (j + 1) (get_elem?-of_drop i o₀ ho).1
                (get_elem?-of_drop j x₀ hx).1),
        )
  | inr ne ↦ elim (Bool-cases (leb (cell dp i (j + 1)) (cell dp (i + 1) j))) [
    | inl b ↦
        rw (ne, b, walk)
          (IsMatching-le o₀ x₀ i j (i + 1) j _ (omega arith) (omega arith)
            (walk-IsMatching dp o₀ x₀ o (x ∷ xs) (i + 1) j (get_elem?-of_drop i o₀ ho).1 hx))
    | inr b ↦
        rw (ne, b, walk)
          (IsMatching-le o₀ x₀ i j i (j + 1) _ (omega arith) (omega arith)
            (walk-IsMatching dp o₀ x₀ (y ∷ o) xs i (j + 1) ho (get_elem?-of_drop j x₀ hx).1))
  ]
]

-- The matching pairs equal lines, in increasing order on both sides.
pub match_index-IsMatching : (o x : List Text) → IsMatching o x 0 0 (match_index o x)
unfolding match_index
match_index-IsMatching o x = walk-IsMatching (fill o x) o x o x 0 0 refl refl

IsMatching-lookup :
    (o x : List Text) (i j k : ℕ) {l : ℕ} (m : Dict ℕ ℕ)
    → IsMatching o x i j m
    → lookup k m ≡ some l
    → SameLine o x k l
unfolding lookup
IsMatching-lookup o x i j k [] h e = ground arith
IsMatching-lookup o x i j k ((a, b) ∷ m) (_, _, (t, ho, hx), rest) e = elim (Bool-cases (k == a)) [
  | inl p ↦ (t, ground (arith, eq_of_== k a p), ground arith)
  | inr p ↦ IsMatching-lookup o x (suc a) (suc b) k m rest (ground arith)
]

-- A matched line is the same on both sides.
pub match_index-SameLine :
    (o x : List Text) (k : ℕ) {l : ℕ} → lookup k (match_index o x) ≡ some l → SameLine o x k l
match_index-SameLine o x k e =
    IsMatching-lookup o x 0 0 k (match_index o x) (match_index-IsMatching o x) e
