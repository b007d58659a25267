-- ===== src/Copying/Candidates/Retention.antt =====
-- internal/runner/runner.go, `retentionCandidates`: which files are old enough, and the overflow.
use yggsync.Prelude.{
  ℕ, ◌+◌, ◌*◌, ◌≤◌, ◌≡◌, refl, ap, ◌∙◌, true, List, [], ◌∷◌, Text, arith, if◌then◌else◌, ltb,
  text_eq,
}
use yggsync.Prelude.Int.{pos, ltb_ℤ}
use yggsync.Prelude.Dict.{Dict, keys}
use yggsync.Prelude.Sorting.{member, member-sort}
use yggsync.Backend.{Time}
use yggsync.Worktree.State.{FileState, Snapshot}
use yggsync.Copying.Candidates.{wrap_int64, day, cutoff, older, retention_candidates}

-- The files that were last modified more than so many days ago, in exact arithmetic.
unfoldable pub aged : Time → ℕ → Dict Text FileState → List Text
aged now days [] = []
aged now days ((p, st) ∷ d) =
    let rest = aged now days d in if ltb (st.mod_time + days * day) now then p ∷ rest else rest

-- No file of the snapshot is from the future.
abbrev pub IsPast : Time → Dict Text FileState → Type 0
IsPast now [] = Unit {0}
IsPast now ((_, st) ∷ d) = (st.mod_time ≤ now) × IsPast now d

cutoff-lt :
    (now days t : ℕ) → days ≤ 106751 → ltb_ℤ (pos t) (cutoff now days) ≡ ltb (t + days * day) now
unfolding cutoff wrap_int64
cutoff-lt now days t h = ground arith

-- From 106,752 days the duration wraps to a negative one.
cutoff_wrapped :
    (now days t : ℕ)
    → 106752 ≤ days
    → days ≤ 213503
    → t ≤ now
    → ltb_ℤ (pos t) (cutoff now days) ≡ true
unfolding cutoff wrap_int64
cutoff_wrapped now days t lo hi h = ground arith

older-aged :
    (now days : ℕ) (d : Dict Text FileState)
    → days ≤ 106751
    → older (cutoff now days) d ≡ aged now days d
unfolding older aged
older-aged now days [] h = refl
older-aged now days ((p, st) ∷ d) h =
    ground (arith, cutoff-lt now days st.mod_time, older-aged now days d)

older_wrapped :
    (now days : ℕ) (d : Dict Text FileState)
    → 106752 ≤ days
    → days ≤ 213503
    → IsPast now d
    → older (cutoff now days) d ≡ keys d
unfolding older keys
older_wrapped now days [] lo hi past = refl
older_wrapped now days ((p, st) ∷ d) lo hi past =
    ground (arith, cutoff_wrapped now days st.mod_time, older_wrapped now days d)

-- Up to 106,751 days the candidates are the files that are older than the days, in exact arithmetic.
pub retention_candidates-aged :
    (now days : ℕ) (snap : Snapshot) (p : Text)
    → days ≤ 106751
    → member p (retention_candidates snap days now) ≡ member p (aged now days snap.files)
unfolding retention_candidates
retention_candidates-aged now days snap p h =
    member-sort p _ ∙ ap (member p) (older-aged now days snap.files h)

-- From 106,752 to 213,503 days the candidates are all files, where none is from the future.
pub retention_candidates_overflow :
    (now days : ℕ) (snap : Snapshot) (p : Text)
    → 106752 ≤ days
    → days ≤ 213503
    → IsPast now snap.files
    → member p (retention_candidates snap days now) ≡ member p (keys snap.files)
unfolding retention_candidates
retention_candidates_overflow now days snap p lo hi past =
    member-sort p _ ∙ ap (member p) (older_wrapped now days snap.files lo hi past)
