-- ===== src/Filter.antt =====
-- internal/filter/filter.go: the rules of a job and the paths that they let through. The regular
-- expressions of package regexp are a parameter.
pub mod Globs
pub mod Slashes
pub mod Verdicts
use mathlib.Core.List.{reverse}
use yggsync.Prelude.{
  length, not, zero, suc, ℕ, ◌+◌, ◌-◌, Bool, true, false, ◌&&◌, ◌||◌, List, [], ◌∷◌, ◌++◌, Text,
  codes, Option, none, some, ◌==◌, nat_eq, text_eq, if◌then◌else◌,
}
use yggsync.Prelude.Strings.{trim_space, split_on, has_byte}
use yggsync.Prelude.Results.{Error, failed, Result, ok, err, then_result}
use yggsync.Config.{Job}
use yggsync.Backend.Paths.{slashed, trim_slash}

abbrev pub is_nil {ℓ} : {A : Type ℓ} → List A → Bool
is_nil [] = true
is_nil (x ∷ xs) = false

-- A regular expression that compiled, as the test that it is.
pub record GlobMatcher : Type 0 where
  pub raw : Text
  pub has_slash : Bool
  pub re : Text → Bool

pub record Rule : Type 0 where
  pub includes : Bool
  pub matcher : GlobMatcher

pub record Matcher : Type 0 where
  pub include_matchers : List GlobMatcher
  pub exclude_matchers : List GlobMatcher
  pub rules : List Rule

-- Normal paths.
abbrev pub drop_dot_slash : Text → Text
drop_dot_slash [] = []
drop_dot_slash (a ∷ []) = a ∷ []
drop_dot_slash (a ∷ b ∷ p) = if (a == b'.') && (b == b'/') then p else a ∷ b ∷ p

-- `strings.Contains(p, "//")`
unfoldable pub has_double : Text → Bool
has_double [] = false
has_double (a ∷ []) = false
has_double (a ∷ b ∷ p) = (a == b'/') && (b == b'/') || has_double (b ∷ p)

-- `strings.ReplaceAll(p, "//", "/")`, with whether a slash has been read that still waits for its
-- second: what the next byte adds to the result.
abbrev pub halved : Bool → Bool → ℕ → Text → Text
halved true true c rest = b'/' ∷ rest
halved true false c rest = b'/' ∷ c ∷ rest
halved false true c rest = rest
halved false false c rest = c ∷ rest

unfoldable pub halve_slashes : Bool → Text → Text
halve_slashes false [] = []
halve_slashes true [] = b'/' ∷ []
halve_slashes waits (c ∷ p) =
    let rest = halve_slashes (not waits && (c == b'/')) p in halved waits (c == b'/') c rest

-- The loop of `normalize`, with fuel.
unfoldable pub single_slashes : ℕ → Text → Text
unfolding has_double halve_slashes
single_slashes zero p = p
single_slashes (suc n) p =
    let rest = single_slashes n (halve_slashes false p) in if has_double p then rest else p

unfoldable pub normalize : Text → Text
unfolding trim_space slashed single_slashes
normalize p =
    let q = trim_slash (drop_dot_slash (slashed (trim_space p))) in single_slashes (length q) q

-- The translation of a glob.
abbrev pub metacharacters : Text
metacharacters = codes ".+()|^${}" ++ (92 ∷ [])

abbrev pub one_of : ℕ → Text → Bool
one_of c [] = false
one_of c (x ∷ t) = (c == x) || one_of c t

-- What stands before the first `]`.
abbrev pub bracketed : Text → Option Text
bracketed [] = none
bracketed (c ∷ t) =
    let rest = bracketed t in
    if c == b']' then some [] else elim rest [ none ↦ none | some k ↦ some (c ∷ k) ]

abbrev pub begins : ℕ → Text → Bool
begins c [] = false
begins c (x ∷ t) = x == c

abbrev pub tail_of : Text → Text
tail_of [] = []
tail_of (x ∷ t) = t

-- What one step of the loop writes at a byte that the text `t` follows, and how many bytes of `t`
-- it has dealt with as well.
unfoldable pub piece : ℕ → Text → Text × ℕ
piece c t =
    if c == b'*'
    then if begins b'*' t
      then if begins b'/' (tail_of t) then (codes "(?:.*/)?", 2) else (codes ".*", 1)
      else (codes "[^/]*", 0)
    else if c == b'?'
    then (codes "[^/]", 0)
    else if one_of c metacharacters
    then (92 ∷ c ∷ [], 0)
    else if c == b'['
    then elim (bracketed t) [
      | none ↦ (92 ∷ codes "[", 0)
      | some k ↦ (b'[' ∷ k ++ codes "]", suc (length k))
    ]
    else (c ∷ [], 0)

-- The loop of `globToRegex`: `ahead` bytes have been dealt with already.
unfoldable pub regex_from : ℕ → Text → Text
unfolding piece
regex_from ahead [] = []
regex_from ahead (c ∷ t) =
    let (text, more) = piece c t in
    let rest = regex_from (if ahead == 0 then more else ahead - 1) t in
    if ahead == 0 then text ++ rest else rest

unfoldable pub glob_to_regex : Text → Text
unfolding regex_from
glob_to_regex glob = codes "^" ++ regex_from 0 glob ++ codes "$"

-- `path.Base`
abbrev last_element : List Text → Text
last_element [] = codes "/"
last_element (p ∷ ps) = if p == [] then last_element ps else p

unfoldable pub base : Text → Text
unfolding split_on
base p = if p == [] then codes "." else last_element (reverse (split_on b'/' p))

-- What a matcher is asked about.
unfoldable pub subject : GlobMatcher → Text → Text
unfolding base
subject m rel = if m.has_slash then rel else base rel

unfoldable pub match_glob : GlobMatcher → Text → Bool
unfolding subject
match_glob m rel = m.re (subject m rel)

-- The last rule that matches decides.
unfoldable pub allowed_by : Bool → List Rule → Text → Bool
unfolding match_glob
allowed_by allowed [] rel = allowed
allowed_by allowed (r ∷ rs) rel =
    allowed_by (if match_glob r.matcher rel then r.includes else allowed) rs rel

unfoldable pub some_match : List GlobMatcher → Text → Bool
unfolding match_glob
some_match [] rel = false
some_match (m ∷ ms) rel = match_glob m rel || some_match ms rel

-- `Match`
unfoldable pub match_path : Matcher → Text → Bool
unfolding normalize allowed_by some_match
match_path m path =
    let rel = normalize path in
    if rel == codes "."
    then true
    else if is_nil m.rules
    then (is_nil m.include_matchers || some_match m.include_matchers rel)
      && not (some_match m.exclude_matchers rel)
    else allowed_by true m.rules rel

module _ (compile_regexp : Text → Result (Text → Bool)) where
  unfoldable pub compile : Text → Result GlobMatcher
  unfolding normalize glob_to_regex has_byte
  compile text =
      let pattern = normalize text in
      if pattern == []
      then err (failed (codes "empty pattern"))
      else then_result (compile_regexp (glob_to_regex pattern))
          (λ re. ok (record { raw = pattern; has_slash = has_byte b'/' pattern; re = re }))

  unfoldable pub compile_all : List Text → Result (List GlobMatcher)
  unfolding compile
  compile_all [] = ok []
  compile_all (raw ∷ raws) =
      then_result (compile raw) (λ m. then_result (compile_all raws) (λ ms. ok (m ∷ ms)))

  abbrev one_rule : Bool → Text → Result Rule
  one_rule includes raw =
      then_result (compile (trim_space raw))
        (λ matcher. ok (record { includes = includes; matcher = matcher }))

  -- A rule, already trimmed and not empty.
  unfoldable pub compile_rule : Text → Result Rule
  unfolding trim_space compile
  compile_rule [] = err (failed (codes "unsupported filter rule"))
  compile_rule (c ∷ raw) =
      if c == b'+'
      then one_rule true raw
      else if c == b'-'
      then one_rule false raw
      else err (failed (codes "unsupported filter rule"))

  unfoldable pub compile_rules : List Text → Result (List Rule)
  unfolding trim_space compile_rule
  compile_rules [] = ok []
  compile_rules (raw ∷ raws) =
      let rest = compile_rules raws in
      if trim_space raw == []
      then rest
      else then_result (compile_rule (trim_space raw)) (λ r. then_result rest (λ rs. ok (r ∷ rs)))

  -- `New`
  unfoldable pub new : Job → Result Matcher
  unfolding compile_rules compile_all
  new job =
      if is_nil job.filter_rules
      then then_result (compile_all job.include) (λ include_matchers.
        then_result (compile_all job.exclude) (λ exclude_matchers. ok (record {
          include_matchers = include_matchers;
          exclude_matchers = exclude_matchers;
          rules = [];
        })))
      else then_result (compile_rules job.filter_rules)
          (λ rules. ok (record { include_matchers = []; exclude_matchers = []; rules = rules }))
