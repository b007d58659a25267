-- ===== src/Tests/Candidates.antt =====
-- The choice of local files to delete, on concrete snapshots, and the theorems there.
use yggsync.Prelude.{◌*◌, ◌≡◌, refl, ◌⊎◌, Bool, true, false, [], ◌∷◌, Text, codes, text_eq, arith}
use yggsync.Prelude.Int.{pos, pos_part}
use yggsync.Prelude.Dict.{keys}
use yggsync.Prelude.Sorting.{member}
use yggsync.Config.{Job, KeepLatestRule}
use yggsync.Backend.{Time}
use yggsync.Backend.Memory.{memory, memory-IsLawful}
use yggsync.Worktree.State.{FileState, Snapshot}
use yggsync.Copying.Candidates.{day, time_of, retention_candidates, rule_candidates, matching}
use yggsync.Copying.Candidates.Newest.{KeepsNewest, rule_candidates-KeepsNewest}
use yggsync.Copying.Candidates.Retention.{
  aged, retention_candidates-aged, retention_candidates_overflow,
}
use yggsync.Copying.Retained.{run_retained_copy, Released, run_retained_copy-Released}
use yggsync.Tests.Configs.{notes}
use yggsync.Tests.Copies.{photo, source, destination}

abbrev shot : Time → FileState
shot t = record { size = 3; mode = 0o644; mod_time = t; hash = [] }

abbrev roll : Snapshot
roll = record {
  files =
      (codes "a.jpg", shot (5 * day))
      ∷ (codes "b.jpg", shot (9 * day))
      ∷ (codes "c.jpg", shot (7 * day))
      ∷ [];
  dirs = [];
}

abbrev keep_two : KeepLatestRule
keep_two = record { glob = codes "*.jpg"; keep = pos 2 }

abbrev everything : Text → Text → Bool
everything glob p = true

rule_candidates-KeepsNewest_example :
    KeepsNewest
      (time_of roll)
      (pos_part (pos 2))
      (matching everything (codes "*.jpg") (keys roll.files))
      (rule_candidates everything roll keep_two)
rule_candidates-KeepsNewest_example = rule_candidates-KeepsNewest everything roll keep_two refl

retention_candidates-aged_example :
    member (codes "a.jpg") (retention_candidates roll 4 (10 * day))
    ≡ member (codes "a.jpg") (aged (10 * day) 4 roll.files)
retention_candidates-aged_example =
    retention_candidates-aged (10 * day) 4 roll (codes "a.jpg") (omega arith)

retention_candidates_overflow_example :
    member (codes "b.jpg") (retention_candidates roll 110000 (10 * day))
    ≡ member (codes "b.jpg") (keys roll.files)
retention_candidates_overflow_example =
    retention_candidates_overflow (10 * day) 110000 roll (codes "b.jpg") (omega arith) (omega arith)
      (omega arith, (omega arith, (omega arith, tt)))

-- A job that keeps the photos of the last days.
abbrev camera : Job
camera = record (notes (codes "retained_copy") (codes "push")) { local_retention_days = pos 3 }

run_retained_copy-Released_example :
    let after =
      (run_retained_copy memory memory everything
        (λ _. true)
        camera
        (20 * day)
        false
        (source, destination)).1 in
    (memory.read after.0 photo ≡ memory.read source photo)
    ⊎ Released memory memory memory-IsLawful everything
        (λ _. true)
        camera
        (20 * day)
        false
        source
        after.1
        photo
run_retained_copy-Released_example =
    run_retained_copy-Released memory memory memory-IsLawful everything (λ _. true) camera
      (20 * day) false source destination photo
