-- ===== src/Tests/Commands.antt =====
-- Invocations of the program on a small configuration, and the theorems there.
use yggsync.Prelude.{
  ℕ, ◌+◌, ◌≡◌, refl, false, [], ◌∷◌, ◌++◌, codes, none, some, text_dec, text_eq, ℕ_discrete,
}
use yggsync.Prelude.Int.{ℤ_discrete}
use yggsync.Prelude.Dict.{lookup, insert}
use yggsync.Prelude.Strings.{split_on, trim_space, has_prefix}
use yggsync.Prelude.Results.{locked, failed, ok, done, pure, fail}
use yggsync.Config.{Job, find_job}
use yggsync.Config.Defaults.{fill_defaults}
use yggsync.Config.Runtime.{Platform, expand_path, load_config, load_profiles}
use yggsync.Jobs.{Handlers, ProcessLock, Summary, run_jobs, run_names, run_job, dispatch}
use yggsync.Jobs.Accounts.{Attempt, run_jobs-Attempt}
use yggsync.Command.{
  job_names, bulk_names, select_names, explicit_names, trimmed, effective_label, notify_worthy,
  first_failed,
}
use yggsync.Command.Main.{Flags, Outcome, exit_code, main, run, gate}
use yggsync.Tests.Configs.{notes, sample}
use yggsync.Tests.Gates.{degrees}

abbrev pub vault : Job
vault = notes (codes "worktree") (codes "push")

abbrev pub photos : Job
photos = record (notes (codes "copy") (codes "push")) { name = codes "photos" }

-- Worktree jobs count a run, and copies fail.
abbrev pub counting : Handlers ℕ
counting = record {
  worktree = λ job n. (done, n + 1);
  copy = λ job. fail (failed (codes "no hub"));
  retained_copy = λ job. pure tt;
}

-- A lock that nobody holds, and one that another process holds.
abbrev pub free : ProcessLock ℕ
free = record { Held = Unit {0}; acquire = pure tt; release = λ _. pure tt }

abbrev pub busy : ProcessLock ℕ
busy = record { Held = Unit {0}; acquire = fail locked; release = λ _. pure tt }

run_jobs-Attempt_example :
    Attempt counting
      (vault ∷ photos ∷ [])
      free
      (codes "photos" ∷ codes "notes" ∷ [])
      (free.acquire 4)
      (run_jobs counting (vault ∷ photos ∷ []) free (codes "photos" ∷ codes "notes" ∷ []) 4)
run_jobs-Attempt_example =
    run_jobs-Attempt counting (vault ∷ photos ∷ []) free (codes "photos" ∷ codes "notes" ∷ []) 4

bounced_run : (run_jobs counting (vault ∷ photos ∷ []) busy (codes "notes" ∷ []) 4).1 ≡ 4
unfolding run_jobs
bounced_run = refl

-- A system with one file, the configuration, that names one worktree job.
abbrev pub one_file : Platform ℕ
one_file = record {
  read_file = λ path. ok [];
  user_home = none;
  getenv = λ name. [];
  path_join = λ a b. a ++ b;
  parse_config = λ raw. some (sample [] [] vault);
  parse_gate = λ raw. none;
  parse_profiles = λ raw. some [];
}

abbrev plain : Flags
plain = record {
  config = codes "c.toml";
  job_list = [];
  list = false;
  dry_run = false;
  worktree_op = [];
  allow_mass_delete = false;
  reason = codes "manual";
  runtime = [];
  profile = [];
  show_version = false;
}

abbrev started : Outcome × ℕ
started =
    main degrees one_file none (λ flags config. counting) (λ config. free) plain []
      (codes "notes" ∷ []) 6

abbrev its_summary : Summary
its_summary = record { succeeded = codes "notes" ∷ []; failures = [] }

started_run : started.0 ≡ Outcome.ran (codes "notes" ∷ []) its_summary none
unfolding main load_config load_profiles effective_label gate run lookup job_names expand_path
    fill_defaults has_prefix explicit_names trimmed select_names run_jobs run_names run_job dispatch
    find_job insert notify_worthy first_failed trim_space text_dec ℕ_discrete ℤ_discrete split_on
    bulk_names
started_run = refl

started_well : exit_code started.0 ≡ 0
unfolding exit_code
started_well = rw started_run refl
