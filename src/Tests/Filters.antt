-- ===== src/Tests/Filters.antt =====
-- Filters, and the theorems there.
use yggsync.Prelude.{
  arith, ◌≡◌, refl, false, List, [], ◌∷◌, codes, text_dec, text_eq, ℕ_discrete, ◌==◌,
}
use yggsync.Prelude.Strings.{trim_space, has_byte}
use yggsync.Prelude.Results.{ok}
use yggsync.Backend.Paths.{slashed}
use yggsync.Filter.{Matcher, normalize, has_double, single_slashes, halve_slashes}
use yggsync.Filter.Slashes.{normalize-no_double}
use yggsync.Filter.Globs.{Piece, literal, star, folders, print, IsGlob}
use yggsync.Filter.Globs.Meaning.{accepts, is_ascii, IsMatcherOf, compile-Matches}

normalize-no_double_example : has_double (normalize (codes "./a////b//c")) ≡ false
normalize-no_double_example = normalize-no_double (codes "./a////b//c")

-- Everything but one folder.
abbrev but_trash : Matcher
but_trash = record {
  include_matchers = [];
  exclude_matchers = [];
  rules =
      record {
        includes = false;
        matcher = record { raw = codes "trash"; has_slash = false; re = λ t. t == codes "trash" };
      }
      ∷ [];
}

-- `**/*.md`
abbrev notes : List Piece
notes = folders ∷ star ∷ literal b'.' ∷ literal b'm' ∷ literal b'd' ∷ []

notes-IsGlob : IsGlob notes
unfolding print ℕ_discrete
notes-IsGlob = (
  tt,
  (
    refl,
    (
      (λ e. omega arith, λ e. omega arith, λ e. omega arith),
      (
        (λ e. omega arith, λ e. omega arith, λ e. omega arith),
        ((λ e. omega arith, λ e. omega arith, λ e. omega arith), tt),
      ),
    ),
  ),
)

compile-Matches_example : IsMatcherOf (λ text. ok (accepts notes)) notes (codes "a/b/c.md")
unfolding normalize trim_space slashed single_slashes halve_slashes has_double print is_ascii
    has_byte text_dec ℕ_discrete
compile-Matches_example =
    compile-Matches (λ text. ok (accepts notes)) notes (accepts notes) (λ e. cc) refl notes-IsGlob
      refl (λ t h. refl) (codes "a/b/c.md") refl
