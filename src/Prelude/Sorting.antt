-- ===== src/Prelude/Sorting.antt =====
-- Go's sets of strings and `sort.Strings`, which orders strings by their bytes.

use mathlib.Core.Path.{◌≡◌, refl}
use mathlib.Core.Bool.{Bool, true, false, ◌||◌}
use mathlib.Core.Option.{none, some}
use mathlib.Core.List.{List, [], ◌∷◌, ◌++◌}
use native.Mathlib.Omega.{arith}
use yggsync.Prelude.Equality.{Text, text_eq, nat_eq, ◌==◌, ltb, if◌then◌else◌}
use yggsync.Prelude.Dict.{Dict, keys, lookup}

-- `a <= b` on strings.
unfoldable pub leb_text : Text → Text → Bool
leb_text [] b = true
leb_text (x ∷ a) [] = false
leb_text (x ∷ a) (y ∷ b) =
    let rest = leb_text a b in if ltb x y then true else if x == y then rest else false

unfoldable pub insert_sorted : Text → List Text → List Text
insert_sorted p [] = p ∷ []
insert_sorted p (q ∷ qs) =
    let rest = insert_sorted p qs in if leb_text p q then p ∷ q ∷ qs else q ∷ rest

unfoldable pub sort : List Text → List Text
unfolding insert_sorted
sort [] = []
sort (p ∷ ps) = insert_sorted p (sort ps)

-- `_, ok := set[p]`
unfoldable pub member : Text → List Text → Bool
member p [] = false
member p (q ∷ qs) = (p == q) || member p qs

pub member-insert_sorted :
    (p q : Text) (qs : List Text) → member p (insert_sorted q qs) ≡ ((p == q) || member p qs)
unfolding member insert_sorted
member-insert_sorted p q [] = refl
member-insert_sorted p q (_ ∷ qs) = ground (arith, member-insert_sorted p q qs)

pub member-sort : (p : Text) (ps : List Text) → member p (sort ps) ≡ member p ps
unfolding sort member
member-sort p [] = refl
member-sort p (q ∷ qs) = ground (arith, member-insert_sorted p q (sort qs), member-sort p qs)

pub member-keys :
    {V : Type 0} (p : Text) (d : Dict Text V) {v : V}
    → lookup p d ≡ some v
    → member p (keys d) ≡ true
unfolding member keys lookup
member-keys p [] h = cc
member-keys p ((q, _) ∷ d) {v = v} h = ground (arith, member-keys p d {v = v})

pub missing-keys :
    {V : Type 0} (p : Text) (d : Dict Text V) → lookup p d ≡ none → member p (keys d) ≡ false
unfolding member keys lookup
missing-keys p [] h = refl
missing-keys p ((q, _) ∷ d) h = ground (arith, missing-keys p d)

pub member-append :
    (p : Text) (xs ys : List Text) → member p (xs ++ ys) ≡ (member p xs || member p ys)
unfolding member
member-append p [] ys = refl
member-append p (x ∷ xs) ys = ground (arith, member-append p xs ys)
