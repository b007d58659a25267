-- ===== src/Copying/Retained.antt =====
-- internal/runner/runner.go: `runRetainedCopy` once the job is open, and what it deletes.
use yggsync.Prelude.{
  ◌≡◌, refl, Bool, true, false, List, [], ◌∷◌, ◌++◌, Text, if◌then◌else◌, ◌⊎◌, inl, inr,
}
use yggsync.Prelude.Int.{pos, pos_part, ltb_ℤ}
use yggsync.Prelude.Sorting.{member}
use yggsync.Prelude.Results.{Result, ok, err, Done, done, Action, ◌>>◌, resume}
use yggsync.Backend.{Time, Fs, IsLawful}
use yggsync.Config.{Job}
use yggsync.Worktree.State.{Snapshot}
use yggsync.Copying.{create_dirs, copy_missing_or_changed, safe_delete}
use yggsync.Copying.Candidates.{retention_candidates, keep_latest_candidates}
use yggsync.Copying.Scan.{scan_fs, scan_dest, ended}
use yggsync.Copying.Safety.{Confirmed, safe_delete-Safe}

abbrev is_empty : {A : Type 0} → List A → Bool
is_empty [] = true
is_empty (_ ∷ _) = false

-- What the job would like to delete at its source.
unfoldable pub candidates : (Text → Text → Bool) → Job → Snapshot → Time → List Text
unfolding retention_candidates keep_latest_candidates
candidates glob_match job snap now =
    (if ltb_ℤ (pos 0) job.local_retention_days
      then retention_candidates snap (pos_part job.local_retention_days) now
      else [])
    ++ (if is_empty job.keep_latest
        then []
        else keep_latest_candidates glob_match snap job.keep_latest)

module _ (L R : Fs) (glob_match : Text → Text → Bool) (matches : Text → Bool) (job : Job)
    (now : Time) (dry_run : Bool) where
  abbrev Both : Type 0
  Both = L.State × R.State

  -- After the copying, which has left the destination in a state `r`.
  unfoldable pub prune : Snapshot → R.State → Action L.State (Unit {0})
  unfolding candidates safe_delete
  prune snap r l =
      let paths = candidates glob_match job snap now in
      if is_empty paths then (done, l) else safe_delete L R r snap dry_run [] paths l

  abbrev after_copy : Snapshot → L.State → Done × R.State → Done × Both
  after_copy snap l (err e, r) = (err e, (l, r))
  after_copy snap l (ok _, r) = let out = prune snap r l in (out.0, (out.1, r))

  abbrev copied : Snapshot → Snapshot → L.State → Action R.State (Unit {0})
  copied local_snap remote_snap l = do
    create_dirs R local_snap dry_run
    copy_missing_or_changed L R l local_snap remote_snap dry_run

  unfoldable pub run_retained_copy : Action Both (Unit {0})
  unfolding scan_fs scan_dest create_dirs copy_missing_or_changed prune
  run_retained_copy (l, r) =
      resume (ended (scan_fs matches L l), (l, r))
        (λ local_snap s.
          resume (scan_dest matches R r, s)
            (λ remote_snap s2.
              after_copy local_snap s2.0 (copied local_snap remote_snap s2.0 s2.1)))

module _ (L R : Fs) (law : IsLawful L) (glob_match : Text → Text → Bool) (matches : Text → Bool)
    (job : Job) (now : Time) (dry_run : Bool) where
  -- A file that the job wanted to delete, and of which the destination, as the job has left it, has one of
  -- the same size and of a time near its own.
  pub record Released (l : L.State) (r : R.State) (q : Text) : Type 0 where
    pub snap : Snapshot
    pub scanned : scan_fs matches L l ≡ (snap, done)
    pub wanted : member q (candidates glob_match job snap now) ≡ true
    pub confirmed : Confirmed L R law r snap dry_run q

  abbrev Kept : L.State → Text → Both L R glob_match matches job now dry_run → Type 0
  Kept l q after = (L.read after.0 q ≡ L.read l q) ⊎ Released l after.1 q

  after_copy-Released :
      (snap : Snapshot) (l : L.State) (out : Done × R.State) (q : Text)
      → scan_fs matches L l ≡ (snap, done)
      → Kept l q (after_copy L R glob_match matches job now dry_run snap l out).1
  unfolding prune
  after_copy-Released snap l (err e, r) q h = inl refl
  after_copy-Released snap l (ok _, r) q h =
      let paths = candidates glob_match job snap now in
      elim (is_empty paths)
        as (λ b. Kept l q (
          let out : Done × L.State =
            (if b then (done, l) else safe_delete L R r snap dry_run [] paths l) in
          (out.1, r))) [
            | true ↦ inl refl
            | false ↦ elim (safe_delete-Safe L R law r snap dry_run l paths q) [
              | inl same ↦ inl same
              | inr (listed, sure) ↦
                  inr (record { snap = snap; scanned = h; wanted = listed; confirmed = sure })
            ]
          ]

  scanned-Released :
      (l : L.State) (r : R.State) (q : Text) (found : Snapshot × Done) (there : Result Snapshot)
      → scan_fs matches L l ≡ found
      → Kept l q
          (resume
            (ended found, (l, r))
            (λ local_snap s.
              resume
                (there, s)
                (λ remote_snap s2.
                  after_copy L R glob_match matches job now dry_run local_snap s2.0 (
                    copied L R glob_match matches job now dry_run local_snap remote_snap s2.0
                      s2.1)))).1
  scanned-Released l r q (snap, err e) there h = inl refl
  scanned-Released l r q (snap, ok _) (err e) h = inl refl
  scanned-Released l r q (snap, ok _) (ok remote_snap) h = after_copy-Released snap l _ q h

  -- Whatever the job returns, each path of a lawful local file system reads as before, or it was a
  -- candidate of the scan and the destination, as the job left it, has a file of the same size, of a time
  -- within two seconds or, as `sameTime` wraps, at least 2^63 nanoseconds later, in a run that is no dry run.
  pub run_retained_copy-Released :
      (l : L.State) (r : R.State) (q : Text)
      → let after = (run_retained_copy L R glob_match matches job now dry_run (l, r)).1 in
        (L.read after.0 q ≡ L.read l q) ⊎ Released l after.1 q
  unfolding run_retained_copy
  run_retained_copy-Released l r q =
      scanned-Released l r q (scan_fs matches L l) (scan_dest matches R r) refl
