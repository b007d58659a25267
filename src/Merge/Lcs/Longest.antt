-- ===== src/Merge/Lcs/Longest.antt =====
-- internal/merge/merge.go, `matchIndex`: no common subsequence is longer than what it finds.
use Prim.Native.Nat.{max}
use yggsync.Prelude.{
  ℕ, zero, suc, ◌+◌, ◌≤◌, ◌≡◌, refl, ap, ◌∙◌, sym, true, false, List, [], ◌∷◌, ◌==◌,
}
use yggsync.Prelude.{Text, text_eq, length, replicate, get_or, drop, drop-drop, arith}
use yggsync.Prelude.{==_of_eq}
use yggsync.Merge.Lcs.{cell, fill_row, fill, walk, match_index}

-- The length of a longest common subsequence, by its recursion equations.
pub lcs : List Text → List Text → ℕ
lcs [] xs = 0
lcs (y ∷ o) [] = 0
lcs (y ∷ o) (x ∷ xs) = elim (y == x) [
  | true ↦ suc (lcs o xs)
  | false ↦ max (lcs o (x ∷ xs)) (lcs (y ∷ o) xs)
]

lcs-nil : (o : List Text) → lcs o [] ≡ 0
unfolding lcs
lcs-nil [] = refl
lcs-nil (y ∷ o) = refl

-- One more line on a side lengthens the longest common subsequence by at most one.
lcs-step :
    (o x : List Text) (y z : Text)
    → (lcs o x ≤ lcs (y ∷ o) x)
      × (lcs o x ≤ lcs o (z ∷ x))
      × (lcs (y ∷ o) x ≤ suc (lcs o x))
      × (lcs o (z ∷ x) ≤ suc (lcs o x))
unfolding lcs
lcs-step [] [] y z = omega arith
lcs-step [] (x ∷ xs) y z = ground (arith, lcs-step [] xs y x)
lcs-step (w ∷ o) [] y z = ground (arith, lcs-step o [] w z, lcs-nil o)
lcs-step (w ∷ o) (x ∷ xs) y z = ground (arith, lcs-step o (x ∷ xs) w z, lcs-step (w ∷ o) xs y x)

-- Both lists have a common subsequence of that length.
pub data Common : ℕ → List Text → List Text → Type 0 where
  stop : {o x : List Text} → Common 0 o x
  skip_left : {n : ℕ} {y : Text} {o x : List Text} → Common n o x → Common n (y ∷ o) x
  skip_right : {n : ℕ} {z : Text} {o x : List Text} → Common n o x → Common n o (z ∷ x)
  both :
      {n : ℕ} {y z : Text} {o x : List Text} → y ≡ z → Common n o x → Common (suc n) (y ∷ o) (z ∷ x)

Common-le-lcs : (n : ℕ) (o x : List Text) → Common n o x → n ≤ lcs o x
unfolding lcs
Common-le-lcs _ _ _ stop = omega arith
Common-le-lcs n _ _ (skip_left {y} {o} {x} c) =
    omega (arith, Common-le-lcs n o x c, (lcs-step o x y []).0)
Common-le-lcs n _ _ (skip_right {z} {o} {x} c) =
    omega (arith, Common-le-lcs n o x c, (lcs-step o x [] z).1)
Common-le-lcs _ _ _ (both {n} {y} {z} {o} {x} e c) =
    rw (==_of_eq y z e, lcs) (ground (arith, Common-le-lcs n o x c))

get_or-drop_one : (xs : List ℕ) (j : ℕ) → get_or (drop 1 xs) j 0 ≡ get_or xs (suc j) 0
get_or-drop_one [] j = ground arith
get_or-drop_one (x ∷ xs) j = refl

-- `dp[i][j]` is the length for `o[i:]` and `x[j:]`.
get_or-fill_row :
    (y : Text) (o x : List Text) (below : List ℕ)
    → ((j : ℕ) → get_or below j 0 ≡ lcs o (drop j x))
    → (j : ℕ) → get_or (fill_row y x below) j 0 ≡ lcs (y ∷ o) (drop j x)
unfolding fill_row lcs
get_or-fill_row y o [] below h zero = refl
get_or-fill_row y o [] below h (suc j) = refl
get_or-fill_row y o (x ∷ xs) below h zero = ground (
  arith,
  h 0,
  h 1,
  get_or-fill_row y o xs (drop 1 below) (λ j. get_or-drop_one below j ∙ h (suc j)) 0,
)
get_or-fill_row y o (x ∷ xs) below h (suc j) =
    get_or-fill_row y o xs (drop 1 below) (λ k. get_or-drop_one below k ∙ h (suc k)) j

get_or-replicate : (n j : ℕ) → get_or {A = ℕ} (replicate n 0) j 0 ≡ 0
get_or-replicate zero j = refl
get_or-replicate (suc n) zero = refl
get_or-replicate (suc n) (suc j) = get_or-replicate n j

cell-fill : (o x : List Text) (i j : ℕ) → cell (fill o x) i j ≡ lcs (drop i o) (drop j x)
unfolding cell fill lcs
cell-fill [] x zero j = get_or-replicate (length x + 1) j
cell-fill [] x (suc i) j = refl
cell-fill (y ∷ o) x zero j = get_or-fill_row y o x (get_or (fill o x) 0 []) (cell-fill o x 0) j
cell-fill (y ∷ o) x (suc i) j = cell-fill o x i j

drop_suc :
    (n : ℕ) (xs : List Text) {y : Text} {ys : List Text} → drop n xs ≡ y ∷ ys → drop (n + 1) xs ≡ ys
drop_suc n xs {ys} e = ap (λ k. drop k xs) (omega arith) ∙ sym (drop-drop 1 n xs) ∙ ap (drop 1) e

-- At `o[i:]` and `x[j:]` the walk finds as many pairs as the table promises.
length-walk :
    (o₀ x₀ o x : List Text) (i j : ℕ)
    → drop i o₀ ≡ o
    → drop j x₀ ≡ x
    → length (walk (fill o₀ x₀) o x i j) ≡ lcs o x
unfolding walk lcs
length-walk o₀ x₀ [] x i j ho hx = refl
length-walk o₀ x₀ (y ∷ o) [] i j ho hx = refl
length-walk o₀ x₀ (y ∷ o) (x ∷ xs) i j ho hx = ground (
  arith,
  cell-fill o₀ x₀ i (j + 1),
  cell-fill o₀ x₀ (i + 1) j,
  drop_suc i o₀ ho,
  drop_suc j x₀ hx,
  length-walk o₀ x₀ o xs (i + 1) (j + 1) (drop_suc i o₀ ho) (drop_suc j x₀ hx),
  length-walk o₀ x₀ o (x ∷ xs) (i + 1) j (drop_suc i o₀ ho) hx,
  length-walk o₀ x₀ (y ∷ o) xs i (j + 1) ho (drop_suc j x₀ hx),
)

-- No common subsequence is longer than the matching that `matchIndex` finds.
pub Common-le-match_index : (n : ℕ) (o x : List Text) → Common n o x → n ≤ length (match_index o x)
unfolding match_index
Common-le-match_index n o x c =
    omega (arith, Common-le-lcs n o x c, length-walk o x o x 0 0 refl refl)
