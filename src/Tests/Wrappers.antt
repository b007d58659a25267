-- ===== src/Tests/Wrappers.antt =====
-- The scripts of a small configuration, what their arguments come to, and the theorems there.
use yggsync.Prelude.{
  ℕ, ◌≡◌, refl, List, [], ◌∷◌, ◌++◌, Text, codes, Option, none, some, text_dec, ℕ_discrete, true,
  false,
}
use yggsync.Prelude.Int.{ℤ_discrete}
use yggsync.Prelude.Dict.{lookup, insert}
use yggsync.Prelude.Strings.{has_prefix, trim_space, split_on}
use yggsync.Prelude.FlagSet.{parse_flags, read_one, argument, cut_value}
use yggsync.Prelude.Results.{Error, ok, err, not_exist, failed, pure}
use yggsync.Config.{Config, find_job}
use yggsync.Config.Defaults.{fill_defaults}
use yggsync.Config.Runtime.{Platform, load_config, load_profiles, expand_path, default_config_path}
use yggsync.Gate.Phone.{read_battery}
use yggsync.Jobs.{run_jobs, run_names, run_job, dispatch, Summary}
use yggsync.TermuxJobs.{Tools, wrapper, obsidian_words, fields, arguments}
use yggsync.Command.{
  split_args, subcommand, effective_label, explicit_names, trimmed, select_names, bulk_names,
  job_names, notify_worthy, first_failed,
}
use yggsync.Command.Main.{exit_code, Flags, Outcome, main, gate, run}
use yggsync.Command.Arguments.{main_flags, default_flags}
use yggsync.Command.Arguments.Printed.{flag_args, parse_flags-flag_args}
use yggsync.Command.Chosen.{Proceeds}
use yggsync.Command.Invocation.{Formats, noticed, Ended, came_to, status, invoke}
use yggsync.Command.Scripted.{IsJobName}
use yggsync.Command.Succeeded.{SucceededWith, invoke-Succeeded}
use yggsync.Command.Wrappers.{obsidian_flags, obsidian_words-runs}
use yggsync.Tests.Commands.{vault, photos, counting, one_file, free}
use yggsync.Tests.Configs.{sample}
use yggsync.Tests.Gates.{degrees, silent}

the_script :
    wrapper
      (codes "/bin/bash")
      (codes "/y")
      (obsidian_words (codes "notes") (codes "c") [])
      (codes "l")
    ≡ codes "#!/bin/bash"
      ++ 10 ∷ codes "exec '/y' notes -config 'c' -runtime '' -reason scheduled >>'l' 2>&1"
      ++ 10 ∷ []
unfolding wrapper obsidian_words
the_script = refl

-- A job's name with a blank in it is two arguments.
two_names :
    arguments (obsidian_words (codes "my notes") [] [])
    ≡ codes "my"
      ∷ codes "notes"
      ∷ codes "-config"
      ∷ []
      ∷ codes "-runtime"
      ∷ []
      ∷ codes "-reason"
      ∷ codes "scheduled"
      ∷ []
unfolding obsidian_words fields ℕ_discrete
two_names = refl

flagged :
    parse_flags main_flags
      (codes "--list" ∷ codes "-jobs=a" ∷ codes "--" ∷ codes "-b" ∷ [])
      (default_flags one_file)
    ≡ ok (record (default_flags one_file) { list = true; job_list = codes "a" }, codes "-b" ∷ [])
unfolding parse_flags read_one argument cut_value lookup text_dec ℕ_discrete
flagged = refl

abbrev given_flags : Flags
given_flags = record {
  config = codes "c.toml";
  job_list = codes "-a";
  list = false;
  dry_run = true;
  worktree_op = codes "commit";
  allow_mass_delete = false;
  reason = codes "scheduled";
  runtime = [];
  profile = codes "bulk";
  show_version = false;
}

parse_flags-flag_args_example :
    parse_flags main_flags (flag_args given_flags ++ codes "notes" ∷ []) (default_flags one_file)
    ≡ ok (given_flags, codes "notes" ∷ [])
unfolding argument ℕ_discrete
parse_flags-flag_args_example =
    parse_flags-flag_args given_flags (default_flags one_file) (codes "notes" ∷ []) refl

abbrev no_tools : Tools ℕ
no_tools = record {
  executable = err not_exist;
  look_path = λ name. none;
  mkdir_all = λ path. pure tt;
  write_script = λ path text. pure tt;
  run = λ bin args. pure tt;
}

abbrev both : Config ℕ
both =
    record (sample (codes "~/.local/state/yggsync.lock") (codes "~/.local/state/yggsync/worktrees")
      vault) { jobs = vault ∷ photos ∷ [] }

abbrev formats : Formats
formats = record { decimal = λ n. []; parse_int = λ t. none; reason = λ v. []; message = λ e. [] }

-- A system with a configuration of a worktree job and a copy job.
abbrev two_jobs : Platform ℕ
two_jobs = record one_file { parse_config = λ raw. some both }

abbrev process : List Text → Ended × ℕ
process args =
    invoke degrees two_jobs silent no_tools formats (λ flags config. counting) (λ config. free) args
      6

unknown_flag : status (process (codes "-jbos" ∷ [])).0 ≡ 2
unfolding invoke split_args subcommand status has_prefix parse_flags read_one argument cut_value
    lookup text_dec ℕ_discrete
unknown_flag = refl

abbrev bulk_summary : Summary
bulk_summary = record { succeeded = []; failures = (codes "photos", failed (codes "no hub")) ∷ [] }

notes-IsJobName : IsJobName (codes "notes")
unfolding trim_space has_prefix ℕ_discrete
notes-IsJobName = record {
  full = λ e. cc;
  tight = refl;
  no_flag = refl;
  not_run = λ e. cc;
  not_android = λ e. cc;
  not_policy = λ e. cc;
}

notes_Proceeds :
    Proceeds degrees two_jobs
      (read_battery silent)
      (λ flags config. counting)
      (λ config. free)
      (obsidian_flags degrees two_jobs silent no_tools formats
        (λ flags config. counting)
        (λ config. free)
        (codes "c")
        [])
      (codes "notes" ∷ [])
      []
      both
unfolding default_flags default_config_path load_config load_profiles fill_defaults expand_path
    has_prefix read_battery gate effective_label lookup trim_space text_dec ℕ_discrete ℤ_discrete
notes_Proceeds = record {
  profiles = [];
  no_version = refl;
  no_list = refl;
  loaded = refl;
  known = refl;
  goes = refl;
}

obsidian_words-runs_example :
    (notice : Option (Text × Error)) × (process
        (arguments (obsidian_words (codes "notes") (codes "c") []))
      ≡ noticed degrees two_jobs silent no_tools formats
          (λ flags config. counting)
          (λ config. free)
          (
            Outcome.ran
                (codes "notes" ∷ [])
                (run_jobs counting both.jobs free (codes "notes" ∷ []) 6).0
                notice,
            (run_jobs counting both.jobs free (codes "notes" ∷ []) 6).1,
          ))
obsidian_words-runs_example =
    obsidian_words-runs degrees two_jobs silent no_tools formats (λ flags config. counting)
      (λ config. free) (codes "notes") (codes "c") [] both 6 notes-IsJobName refl notes_Proceeds

abbrev notes_summary : Summary
notes_summary = record { succeeded = codes "notes" ∷ []; failures = [] }

notes_run :
    (process (arguments (obsidian_words (codes "notes") (codes "c") []))).0
    ≡ came_to (Outcome.ran (codes "notes" ∷ []) notes_summary none)
unfolding invoke split_args subcommand status has_prefix parse_flags read_one argument cut_value
    lookup text_dec ℕ_discrete main load_config load_profiles effective_label gate run job_names
    expand_path fill_defaults explicit_names trimmed select_names run_jobs run_names run_job
    dispatch find_job insert notify_worthy first_failed trim_space ℤ_discrete split_on bulk_names
    default_flags default_config_path obsidian_words fields read_battery
notes_run = refl

notes_well : status (process (arguments (obsidian_words (codes "notes") (codes "c") []))).0 ≡ 0
unfolding status exit_code
notes_well = rw notes_run refl

invoke-Succeeded_example :
    SucceededWith degrees two_jobs silent no_tools formats
      (λ flags config. counting)
      (λ config. free)
      (parse_flags main_flags
        (split_args (arguments (obsidian_words (codes "notes") (codes "c") []))).1
        (default_flags two_jobs))
      (codes "notes" ∷ [])
      6
      (process (arguments (obsidian_words (codes "notes") (codes "c") []))).1
      notes_summary
invoke-Succeeded_example =
    invoke-Succeeded degrees two_jobs silent no_tools formats (λ flags config. counting)
      (λ config. free) (arguments (obsidian_words (codes "notes") (codes "c") [])) 6
      (codes "notes" ∷ []) notes_summary none notes_run notes_well
