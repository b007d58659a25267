-- ===== src/Tests/Programs.antt =====
-- Jobs of a runner on two stores in memory, and the theorem there.
use yggsync.Prelude.{ℕ, ◌+◌, ◌-◌, ◌≡◌, refl, true, false, [], ◌∷◌, codes, none, arith}
use yggsync.Prelude.Results.{ok, pure, done}
use yggsync.Backend.Memory.{memory}
use yggsync.Jobs.{ProcessLock, run_jobs}
use yggsync.Jobs.Opening.{Backends}
use yggsync.Jobs.Runner.{Runner, Machine, runner_handlers}
use yggsync.Jobs.Balance.{IsCounted, run_jobs-count}
use yggsync.Tests.Commands.{vault, photos, one_file}
use yggsync.Tests.Configs.{sample}
use yggsync.Tests.Runs.{blank}

-- A store, and how many file systems are open.
record Stored : Type 0 where
  opened : ℕ
  files : memory.State

abbrev one_store : Backends Stored
one_store = record {
  Handle = Unit {0};
  connect = λ at w. (ok tt, record w { opened = w.opened + 1 });
  close = λ _ w. (done, record w { opened = w.opened - 1 });
  mount = λ _. record { F = memory; get = λ w. w.files; put = λ s w. record w { files = s } };
}

abbrev count : Stored → ℕ
count w = w.opened

one_store-IsCounted : IsCounted one_store count
one_store-IsCounted = record {
  connected = λ at w. refl;
  released = λ h w n e. omega (arith, e);
  kept = λ h w s. refl;
}

abbrev machine : Machine Stored
machine = record {
  sha256_hex = λ t. t;
  format_stamp = λ t. [];
  rfc3339 = λ t. [];
  decimal = λ n. [];
  json = blank;
  now = λ w. 9;
  wall = λ w. 9;
  hostname = none;
  compile_regexp = λ t. ok (λ u. true);
  glob_match = λ p t. true;
}

abbrev runner : Runner ℕ
runner = record {
  config = record (sample [] [] vault) { jobs = vault ∷ photos ∷ [] };
  dry_run = false;
  worktree_op = codes "sync";
  version = codes "1";
  allow_mass_delete = false;
}

abbrev free_lock : ProcessLock Stored
free_lock = record { Held = Unit {0}; acquire = pure tt; release = λ _. pure tt }

run_jobs-count_example :
    count
      (run_jobs
        (runner_handlers one_store machine one_file runner)
        runner.config.jobs
        free_lock
        (codes "notes" ∷ codes "photos" ∷ [])
        (record { opened = 2; files = [] })).1
    ≡ 2
run_jobs-count_example =
    run_jobs-count one_store count one_store-IsCounted machine one_file runner free_lock
      (codes "notes" ∷ codes "photos" ∷ []) (record { opened = 2; files = [] })
      (record { taking = λ w. refl; giving = λ held w. refl })
