-- ===== src/Jobs.antt =====
-- internal/runner/runner.go: `New`, `RunJob` and `RunJobs`.
pub mod Accounts
pub mod Opening
pub mod Lock
pub mod Balance
pub mod Runner
use yggsync.Prelude.{
  ℕ, Bool, true, false, ◌||◌, List, [], ◌∷◌, ◌++◌, Text, codes, Option, none, some, ◌==◌, text_eq,
  if◌then◌else◌,
}
use yggsync.Prelude.Dict.{Dict, insert}
use yggsync.Prelude.Results.{Error, failed, Result, ok, err, Done, done, Action, fail}
use yggsync.Config.{Job, Config, find_job}

-- What a job does to the state of the replicas. The handlers are given the whole job, and with it the
-- time after which its context is cancelled.
pub record Handlers (S : Type 0) : Type 0 where
  pub worktree : Job → Action S (Unit {0})
  pub copy : Job → Action S (Unit {0})
  pub retained_copy : Job → Action S (Unit {0})

-- What `acquireLock` does, and the function that it returns.
pub record ProcessLock (S : Type 0) : Type 1 where
  pub Held : Type 0
  pub acquire : Action S Held
  pub release : Held → Action S (Unit {0})

pub record Summary : Type 0 where
  pub succeeded : List Text
  pub failures : Dict Text Error

module _ {S : Type 0} (handlers : Handlers S) (jobs : List Job) where
  -- The switch on the type of the job.
  unfoldable pub dispatch : Job → Action S (Unit {0})
  dispatch job =
      if job.type == codes "worktree"
      then handlers.worktree job
      else if (job.type == codes "copy") || (job.type == codes "sync")
      then handlers.copy job
      else if job.type == codes "retained_copy"
      then handlers.retained_copy job
      else fail (failed (codes "unsupported type"))

  abbrev run_found : Option Job → Action S (Unit {0})
  run_found none = fail (failed (codes "unknown job"))
  run_found (some job) = dispatch job

  unfoldable pub run_job : Text → Action S (Unit {0})
  unfolding dispatch find_job
  run_job name = run_found (find_job name jobs)

  abbrev pub noted : Summary → Text → Done → Summary
  noted summary name (ok _) = record summary { succeeded = summary.succeeded ++ name ∷ [] }
  noted summary name (err e) = record summary { failures = insert name e summary.failures }

  -- The loop over the names: a job that fails does not stop the ones after it.
  unfoldable pub run_names : Summary → List Text → S → Summary × S
  unfolding run_job insert
  run_names summary [] s = (summary, s)
  run_names summary (name ∷ names) s =
      let out = run_job name s in run_names (noted summary name out.0) names out.1

  abbrev pub nothing_run : Summary
  nothing_run = record { succeeded = []; failures = [] }

  abbrev lock_failed : Error → Summary
  lock_failed e = record nothing_run { failures = insert (codes "_lock") e [] }

  abbrev pub under_lock : (lock : ProcessLock S) → List Text → Result lock.Held × S → Summary × S
  under_lock lock names (err e, s) = (lock_failed e, s)
  under_lock lock names (ok held, s) =
      let out = run_names nothing_run names s in (out.0, (lock.release held out.1).1)

  -- Without the lock of the process no job is run.
  unfoldable pub run_jobs : ProcessLock S → List Text → S → Summary × S
  unfolding run_names insert
  run_jobs lock names s = under_lock lock names (lock.acquire s)
