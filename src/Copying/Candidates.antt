-- ===== src/Copying/Candidates.antt =====
-- internal/runner/runner.go: `retentionCandidates` and `keepLatestCandidates`, the local files that a
-- retained_copy job would like to delete.
pub mod Newest
pub mod Retention
use yggsync.Prelude.{
  ℕ, ◌+◌, ◌*◌, ◌%◌, Bool, true, false, List, [], ◌∷◌, ◌++◌, Text, Option, none, some,
}
use yggsync.Prelude.{if◌then◌else◌, ltb, text_eq, drop}
use yggsync.Prelude.Int.{ℤ, pos, pos_part, sub_ℕ, ◌-ℤ◌, ltb_ℤ}
use yggsync.Prelude.Dict.{Dict, lookup, keys}
use yggsync.Prelude.Sorting.{sort}
use yggsync.Backend.{Time}
use yggsync.Config.{KeepLatestRule}
use yggsync.Worktree.State.{FileState, Snapshot, state_of}

-- The `int64` that the low 64 bits of a number stand for.
unfoldable pub wrap_int64 : ℕ → ℤ
wrap_int64 n =
    let low = n % 18446744073709551616 in
    if ltb low 9223372036854775808 then pos low else sub_ℕ low 18446744073709551616

abbrev pub day : ℕ
day = 86400000000000

-- `time.Now().Add(-time.Duration(days) * 24 * time.Hour)`, for a positive number of days.
unfoldable pub cutoff : Time → ℕ → ℤ
unfolding wrap_int64
cutoff now days = pos now -ℤ wrap_int64 (days * day)

-- The files that were modified before the cutoff.
unfoldable pub older : ℤ → Dict Text FileState → List Text
older limit [] = []
older limit ((p, st) ∷ d) =
    let rest = older limit d in if ltb_ℤ (pos st.mod_time) limit then p ∷ rest else rest

unfoldable pub retention_candidates : Snapshot → ℕ → Time → List Text
unfolding cutoff older sort
retention_candidates snap days now = sort (older (cutoff now days) snap.files)

abbrev pub time_of : Snapshot → Text → Time
time_of snap p = (state_of (lookup p snap.files)).mod_time

-- `sort.Slice` by time, the latest first. Which of two files of one time comes first is open.
unfoldable pub insert_newest : (Text → Time) → Text → List Text → List Text
insert_newest time p [] = p ∷ []
insert_newest time p (q ∷ qs) =
    let rest = insert_newest time p qs in if ltb (time p) (time q) then q ∷ rest else p ∷ q ∷ qs

unfoldable pub by_time : (Text → Time) → List Text → List Text
unfolding insert_newest
by_time time [] = []
by_time time (p ∷ ps) = insert_newest time p (by_time time ps)

-- `glob_match` is `filepath.Match`, false for a malformed pattern.
module _ (glob_match : Text → Text → Bool) where
  unfoldable pub matching : Text → List Text → List Text
  matching glob [] = []
  matching glob (p ∷ ps) =
      let rest = matching glob ps in if glob_match glob p then p ∷ rest else rest

  -- The files of one rule that are past the number to keep.
  unfoldable pub rule_candidates : Snapshot → KeepLatestRule → List Text
  unfolding matching by_time lookup keys
  rule_candidates snap rule =
      if ltb_ℤ rule.keep (pos 1)
      then []
      else drop (pos_part rule.keep) (by_time (time_of snap) (matching rule.glob (keys snap.files)))

  unfoldable pub all_candidates : Snapshot → List KeepLatestRule → List Text
  unfolding rule_candidates
  all_candidates snap [] = []
  all_candidates snap (rule ∷ rules) = rule_candidates snap rule ++ all_candidates snap rules

  unfoldable pub keep_latest_candidates : Snapshot → List KeepLatestRule → List Text
  unfolding all_candidates sort
  keep_latest_candidates snap rules = sort (all_candidates snap rules)
