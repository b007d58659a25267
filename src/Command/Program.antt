-- ===== src/Command/Program.antt =====
-- cmd/yggsync/main.go: the process on the runner of internal/runner.
use yggsync.Prelude.{Text, List}
use yggsync.Config.{Config}
use yggsync.Config.Runtime.{Platform, expand_path}
use yggsync.Gate.{Temperatures}
use yggsync.Gate.Phone.{Phone}
use yggsync.Jobs.{Handlers, ProcessLock}
use yggsync.Jobs.Opening.{Backends}
use yggsync.Jobs.Runner.{Runner, Machine, new_runner, set_allow_mass_delete, runner_handlers}
use yggsync.Jobs.Lock.{LockCalls, process_lock}
use yggsync.TermuxJobs.{Tools}
use yggsync.Command.Main.{Flags}
use yggsync.Command.Invocation.{Formats, Ended, invoke}

-- The runner of a configuration and the flags; `version` is the program's.
unfoldable pub runner_of : {Temp : Type 0} → Text → Flags → Config Temp → Runner Temp
unfolding new_runner set_allow_mass_delete
runner_of version flags config =
    set_allow_mass_delete flags.allow_mass_delete
      (new_runner config flags.dry_run flags.worktree_op version)

module _ (T : Temperatures) {W : Type 0} (platform : Platform T.Temp) (phone : Phone T.Temp W)
    (tools : Tools W) (formats : Formats) (B : Backends W) (m : Machine W) (calls : LockCalls W)
    (process_id : Text) (version : Text) where
  abbrev pub jobs_of : Flags → Config T.Temp → Handlers W
  jobs_of flags config = runner_handlers B m platform (runner_of version flags config)

  abbrev pub lock_of : Config T.Temp → ProcessLock W
  lock_of config = process_lock calls process_id (expand_path platform config.lock_file)

  unfoldable pub program : List Text → W → Ended × W
  unfolding invoke runner_of runner_handlers process_lock expand_path
  program = invoke T platform phone tools formats jobs_of lock_of
