-- ===== src/Command/Invocation.antt =====
-- cmd/yggsync/main.go: `main`, from the arguments of the process to its exit status.
use yggsync.Prelude.{ℕ, true, List, Text, codes, Option, some}
use yggsync.Prelude.Int.{ℤ}
use yggsync.Prelude.Results.{Error, Result, ok, err, Done, Action, pure}
use yggsync.Config.{Config}
use yggsync.Config.Runtime.{Platform}
use yggsync.Gate.{Temperatures, Verdict}
use yggsync.Gate.Phone.{Phone, read_battery, notify}
use yggsync.Jobs.{Handlers, ProcessLock}
use yggsync.Prelude.FlagSet.{parse_flags}
use yggsync.TermuxJobs.{Tools}
use yggsync.TermuxJobs.Arguments.{install_from_args}
use yggsync.Command.{Subcommand, jobs, install_jobs, unsupported, split_args, subcommand}
use yggsync.Command.Main.{Flags, Outcome, skipped, ran, exit_code, main}
use yggsync.Command.Arguments.{main_flags, default_flags}

-- `usage` is an error of the flags, and `installed` how the registration of the scheduled jobs ended.
pub data Ended : Type 0 where
  usage : Error → Ended
  unknown_subcommand : Ended
  installed : Done → Ended
  came_to : Outcome → Ended

-- The status of the process.
unfoldable pub status : Ended → ℕ
unfolding exit_code
status (usage _) = 2
status unknown_subcommand = 1
status (installed (ok _)) = 0
status (installed (err _)) = 1
status (came_to outcome) = exit_code outcome

-- `%d`, `strconv.ParseInt(s, 0, 64)`, the reason for a skipped run with its values, and `err.Error()`.
pub record Formats : Type 0 where
  pub decimal : ℤ → Text
  pub parse_int : Text → Option ℤ
  pub reason : Verdict → Text
  pub message : Error → Text

module _ (T : Temperatures) {S : Type 0} (platform : Platform T.Temp) (phone : Phone T.Temp S)
    (tools : Tools S) (formats : Formats) (handlers : Flags → Config T.Temp → Handlers S)
    (lock : Config T.Temp → ProcessLock S) where
  -- The phone is told of what the outcome says.
  unfoldable pub give_notice : Outcome → Action S (Unit {0})
  unfolding notify
  give_notice (skipped verdict true) =
      notify phone (codes "yggsync skipped") (formats.reason verdict)
  give_notice (ran _ _ (some (title, e))) = notify phone title (formats.message e)
  give_notice _ = pure tt

  abbrev pub noticed : Outcome × S → Ended × S
  noticed (outcome, s) = (came_to outcome, (give_notice outcome s).1)

  abbrev pub with_flags : List Text → Result (Flags × List Text) → S → Ended × S
  with_flags positional (err e) s = (usage e, s)
  with_flags positional (ok (flags, args)) s =
      noticed (main T platform (read_battery phone) handlers lock flags positional args s)

  abbrev installs : Done × S → Ended × S
  installs (out, s) = (installed out, s)

  abbrev pub started : Subcommand → List Text → S → Ended × S
  started (jobs positional) rest s =
      with_flags positional (parse_flags main_flags rest (default_flags platform)) s
  started install_jobs rest s =
      installs (install_from_args platform tools formats.decimal formats.parse_int rest s)
  started unsupported rest s = (unknown_subcommand, s)

  -- The process, given its arguments.
  unfoldable pub invoke : List Text → S → Ended × S
  unfolding split_args subcommand parse_flags main read_battery install_from_args default_flags
      give_notice
  invoke raw s = let (positional, rest) = split_args raw in started (subcommand positional) rest s
