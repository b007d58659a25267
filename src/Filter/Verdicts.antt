-- ===== src/Filter/Verdicts.antt =====
-- internal/filter/filter.go, `Match` and `New`: which of a job's rules decides about a path.
use yggsync.Prelude.{
  ◌≡◌, ◌≢◌, ◌⊎◌, Bool, true, false, not, ◌&&◌, ◌||◌, List, [], ◌∷◌, ◌++◌, Text, codes, ◌==◌,
  text_eq, if◌then◌else◌,
}
use yggsync.Filter.{GlobMatcher, Rule, Matcher, is_nil, match_glob, allowed_by, some_match}

-- Rules none of which matches a path.
pub data Silent (rel : Text) : List Rule → Type 0 where
  nil : Silent rel []
  cons :
      (r : Rule) (rs : List Rule)
      → match_glob r.matcher rel ≡ false
      → Silent rel rs
      → Silent rel (r ∷ rs)

-- What a list of rules says: the last one that matches, and without one what held before.
pub data Says (rel : Text) (start : Bool) : List Rule → Bool → Type 0 where
  nobody : (rs : List Rule) → Silent rel rs → Says rel start rs start
  last :
      (before : List Rule) (r : Rule) (after : List Rule)
      → match_glob r.matcher rel ≡ true
      → Silent rel after
      → Says rel start (before ++ r ∷ after) r.includes

-- A matcher of the list matches a path.
pub data Somewhere (rel : Text) : List GlobMatcher → Type 0 where
  here :
      (m : GlobMatcher) (ms : List GlobMatcher) → match_glob m rel ≡ true → Somewhere rel (m ∷ ms)
  there : (m : GlobMatcher) (ms : List GlobMatcher) → Somewhere rel ms → Somewhere rel (m ∷ ms)

-- What include and exclude patterns say.
pub record IsSelected (m : Matcher) (rel : Text) : Type 0 where
  included : (m.include_matchers ≡ []) ⊎ Somewhere rel m.include_matchers
  not_excluded : ¬ (Somewhere rel m.exclude_matchers)

-- The verdict of a filter about a normal path.
pub data IsVerdict (m : Matcher) (rel : Text) : Bool → Type 0 where
  root : rel ≡ codes "." → IsVerdict m rel true
  by_rules :
      (b : Bool) → rel ≢ codes "." → m.rules ≢ [] → Says rel true m.rules b → IsVerdict m rel b
  selected : rel ≢ codes "." → m.rules ≡ [] → IsSelected m rel → IsVerdict m rel true
  rejected : rel ≢ codes "." → m.rules ≡ [] → ¬ (IsSelected m rel) → IsVerdict m rel false

abbrev included_or : Matcher → Text → Bool
included_or m rel = is_nil m.include_matchers || some_match m.include_matchers rel

abbrev verdict : Matcher → Text → Bool
verdict m rel =
    if rel == codes "."
    then true
    else if is_nil m.rules
    then included_or m rel && not (some_match m.exclude_matchers rel)
    else allowed_by true m.rules rel
