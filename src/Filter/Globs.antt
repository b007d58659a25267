-- ===== src/Filter/Globs.antt =====
-- internal/filter/filter.go, `globToRegex` and `compile`: the regular expression of a glob.
pub mod Meaning
use yggsync.Prelude.{
  ℕ, zero, suc, ◌-◌, ◌≡◌, ◌≢◌, refl, ap, sym, ◌∙◌, ◌↔◌, Bool, true, false, not, ◌&&◌, ◌||◌, List,
  [], ◌∷◌, ◌++◌, Text, codes, ◌==◌, nat_eq, text_eq, ltb, if◌then◌else◌, arith, Bool-cases, ◌⊎◌,
  inl, inr, ==_of_ne, append_assoc, ℕ_discrete,
}
use yggsync.Filter.{
  metacharacters, one_of, bracketed, begins, tail_of, piece, regex_from, glob_to_regex,
}

-- The pieces of a glob without brackets: a byte, `?`, `*`, `**/` and `**`.
pub data Piece : Type 0 where
  literal : ℕ → Piece
  any_char : Piece
  star : Piece
  folders : Piece
  anything : Piece

abbrev pub print_piece : Piece → Text
print_piece (literal c) = c ∷ []
print_piece any_char = codes "?"
print_piece star = codes "*"
print_piece folders = codes "**/"
print_piece anything = codes "**"

unfoldable pub print : List Piece → Text
print [] = []
print (p ∷ ps) = print_piece p ++ print ps

-- A piece that stands before this text can be read back.
abbrev pub IsReadable : Piece → Text → Type 0
IsReadable (literal c) t = (c ≢ b'*') × (c ≢ b'?') × (c ≢ b'[')
IsReadable any_char t = Unit {0}
IsReadable star t = begins b'*' t ≡ false
IsReadable folders t = Unit {0}
IsReadable anything t = begins b'/' t ≡ false

abbrev pub IsGlob : List Piece → Type 0
IsGlob [] = Unit {0}
IsGlob (p ∷ ps) = IsReadable p (print ps) × IsGlob ps

-- The regular expression for a piece.
abbrev pub show_piece : Piece → Text
show_piece (literal c) = if one_of c metacharacters then 92 ∷ c ∷ [] else c ∷ []
show_piece any_char = codes "[^/]"
show_piece star = codes "[^/]*"
show_piece folders = codes "(?:.*/)?"
show_piece anything = codes ".*"

unfoldable pub show : List Piece → Text
show [] = []
show (p ∷ ps) = show_piece p ++ show ps

abbrev pub anchored : List Piece → Text
anchored ps = codes "^" ++ show ps ++ codes "$"

skip_one : (c : ℕ) (t : Text) → regex_from 1 (c ∷ t) ≡ regex_from 0 t
unfolding regex_from ℕ_discrete
skip_one c t = refl

skip_two : (c d : ℕ) (t : Text) → regex_from 2 (c ∷ d ∷ t) ≡ regex_from 0 t
unfolding regex_from ℕ_discrete
skip_two c d t = refl

regex_from-literal :
    (c : ℕ) (t : Text)
    → IsReadable (literal c) t
    → regex_from 0 (c ∷ t) ≡ show_piece (literal c) ++ regex_from 0 t
unfolding regex_from piece ℕ_discrete
regex_from-literal c t (not_star, not_mark, not_bracket) =
    elim (Bool-cases (one_of c metacharacters)) [
      | inl e ↦ rw (==_of_ne c b'*' not_star, ==_of_ne c b'?' not_mark, e) refl
      | inr e ↦
          rw (==_of_ne c b'*' not_star, ==_of_ne c b'?' not_mark, e, ==_of_ne c b'[' not_bracket)
            refl
    ]

regex_from-piece :
    (p : Piece) (t : Text)
    → IsReadable p t
    → regex_from 0 (print_piece p ++ t) ≡ show_piece p ++ regex_from 0 t
unfolding regex_from piece ℕ_discrete
regex_from-piece (literal c) t h = regex_from-literal c t h
regex_from-piece any_char t h = refl
regex_from-piece star t h = rw h refl
regex_from-piece folders t h = refl
regex_from-piece anything t h = rw h refl

regex_from-print : (ps : List Piece) → IsGlob ps → regex_from 0 (print ps) ≡ show ps
unfolding regex_from print show
regex_from-print [] h = refl
regex_from-print (p ∷ ps) (a, h) =
    regex_from-piece p (print ps) a ∙ ap (λ z. show_piece p ++ z) (regex_from-print ps h)

pub glob_to_regex-print : (ps : List Piece) → IsGlob ps → glob_to_regex (print ps) ≡ anchored ps
unfolding glob_to_regex
glob_to_regex-print ps h = ap (λ z. codes "^" ++ z ++ codes "$") (regex_from-print ps h)
