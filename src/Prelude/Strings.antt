-- ===== src/Prelude/Strings.antt =====
-- Go's package strings, for ASCII white space.
use Prim.Native.Nat.{ℕ}
use mathlib.Core.Logic.{◌≢◌}
use mathlib.Core.Path.{◌≡◌, refl, ap, ◌∙◌}
use mathlib.Core.Bool.{Bool, true, false, ◌&&◌, ◌||◌}
use mathlib.Core.List.{List, [], ◌∷◌, ◌++◌}
use native.Mathlib.Omega.{arith}
use yggsync.Prelude.Equality.{Text, nat_eq, ◌==◌, leb, if◌then◌else◌}

abbrev pub is_space : ℕ → Bool
is_space c = c == 32 || (leb 9 c && leb c 13)

abbrev pub trim_left : Text → Text
trim_left [] = []
trim_left (c ∷ t) = let rest = trim_left t in if is_space c then rest else c ∷ t

abbrev pub all_spaces : Text → Bool
all_spaces [] = true
all_spaces (c ∷ t) = is_space c && all_spaces t

abbrev pub trim_right : Text → Text
trim_right [] = []
trim_right (c ∷ t) = let rest = trim_right t in if all_spaces (c ∷ t) then [] else c ∷ rest

-- `strings.TrimSpace`
unfoldable pub trim_space : Text → Text
trim_space t = trim_right (trim_left t)

-- `strings.HasPrefix(t, p)`
unfoldable pub has_prefix : Text → Text → Bool
has_prefix [] t = true
has_prefix (x ∷ p) [] = false
has_prefix (x ∷ p) (y ∷ t) = (x == y) && has_prefix p t

-- `strings.Contains(t, c)`, for one byte.
unfoldable pub has_byte : ℕ → Text → Bool
has_byte c [] = false
has_byte c (x ∷ t) = (x == c) || has_byte c t

abbrev pub onto_first : ℕ → List Text → List Text
onto_first c [] = (c ∷ []) ∷ []
onto_first c (p ∷ ps) = (c ∷ p) ∷ ps

-- `strings.Split(t, c)`, for one byte: there is always a part.
unfoldable pub split_on : ℕ → Text → List Text
split_on c [] = [] ∷ []
split_on c (x ∷ t) = let rest = split_on c t in if x == c then [] ∷ rest else onto_first x rest

-- `strings.Join(ps, c)`
unfoldable pub join_on : ℕ → List Text → Text
join_on c [] = []
join_on c (p ∷ []) = p
join_on c (p ∷ q ∷ ps) = p ++ (c ∷ join_on c (q ∷ ps))

split_on-whole : (c : ℕ) (p : Text) → has_byte c p ≡ false → split_on c p ≡ p ∷ []
unfolding split_on has_byte
split_on-whole c [] h = refl
split_on-whole c (x ∷ p) h = ground (arith, split_on-whole c p)

split_on-append :
    (c : ℕ) (p t : Text) → has_byte c p ≡ false → split_on c (p ++ (c ∷ t)) ≡ p ∷ split_on c t
unfolding split_on has_byte
split_on-append c [] t h = ground arith
split_on-append c (x ∷ p) t h = ground (arith, split_on-append c p t)

-- No part has the separator.
abbrev pub Separated : ℕ → List Text → Type 0
Separated c [] = Unit {0}
Separated c (p ∷ ps) = (has_byte c p ≡ false) × Separated c ps

pub split_on-join_on :
    (c : ℕ) (p : Text) (ps : List Text)
    → Separated c (p ∷ ps)
    → split_on c (join_on c (p ∷ ps)) ≡ p ∷ ps
unfolding join_on
split_on-join_on c p [] h = split_on-whole c p h.0
split_on-join_on c p (q ∷ ps) h =
    split_on-append c p (join_on c (q ∷ ps)) h.0 ∙ ap (◌∷◌ p) (split_on-join_on c q ps h.1)

pub join_on-full : (c : ℕ) (p : Text) (ps : List Text) → p ≢ [] → join_on c (p ∷ ps) ≢ []
unfolding join_on
join_on-full c p [] full = full
join_on-full c [] (q ∷ ps) full = λ _. full refl
join_on-full c (x ∷ p) (q ∷ ps) full = λ e. cc
