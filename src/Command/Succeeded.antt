-- ===== src/Command/Succeeded.antt =====
-- cmd/yggsync/main.go: what the exit status of the process says of the jobs.
use yggsync.Prelude.{◌≡◌, refl, ap, sym, subst, ◌∙◌, none, List, Text, Option}
use yggsync.Prelude.Results.{Error, Result, ok, err}
use yggsync.Config.{Config}
use yggsync.Config.Runtime.{Platform, load_config}
use yggsync.Gate.{Temperatures}
use yggsync.Gate.Phone.{Phone, read_battery}
use yggsync.Jobs.{Handlers, ProcessLock, Summary}
use yggsync.Prelude.FlagSet.{parse_flags}
use yggsync.TermuxJobs.{Tools}
use yggsync.Command.{Subcommand, jobs, install_jobs, unsupported, split_args, subcommand}
use yggsync.Command.Main.{Flags, Outcome, main}
use yggsync.Command.Arguments.{main_flags, default_flags}
use yggsync.Command.Exit.{AllSucceeded, main-Clean}
use yggsync.Command.Invocation.{
  Ended, came_to, Formats, noticed, give_notice, status, with_flags, started, invoke,
}

module _ (T : Temperatures) {S : Type 0} (platform : Platform T.Temp) (phone : Phone T.Temp S)
    (tools : Tools S) (formats : Formats) (handlers : Flags → Config T.Temp → Handlers S)
    (lock : Config T.Temp → ProcessLock S) where
  abbrev process : List Text → S → Ended × S
  process = invoke T platform phone tools formats handlers lock

  abbrev given : List Text → Result (Flags × List Text)
  given rest = parse_flags main_flags rest (default_flags platform)

  -- All jobs succeeded, with the settings that were parsed and the configuration that these name, and the
  -- state `t` is the one after the release of the lock.
  pub record SucceededWith (parsed : Result (Flags × List Text)) (names : List Text) (s t : S)
      (summary : Summary) : Type 0 where
    pub flags : Flags
    pub args : List Text
    pub settings : parsed ≡ ok (flags, args)
    pub config : Config T.Temp
    pub loaded : load_config platform flags.config ≡ ok config
    pub all : AllSucceeded (handlers flags config) config.jobs (lock config) names s t summary

  -- If a process comes to a run, and its status is zero, then all its jobs succeeded.
  abbrev IsHonest : Result (Flags × List Text) → S → Ended × S → Type 0
  IsHonest parsed s out =
      (names : List Text) (summary : Summary) (notice : Option (Text × Error))
      → out.0 ≡ came_to (Outcome.ran names summary notice)
      → status out.0 ≡ 0
      → SucceededWith parsed names s out.1 summary

  not_noticed :
      (names : List Text) (summary : Summary) (out : Outcome × S)
      → out.0 ≡ Outcome.ran names summary none
      → (noticed T platform phone tools formats handlers lock out).1 ≡ out.1
  unfolding give_notice
  not_noticed names summary (outcome, s) h = rw (h) refl

  with_flags-IsHonest :
      (positional : List Text) (parsed : Result (Flags × List Text)) (s : S)
      → IsHonest parsed s
          (with_flags T platform phone tools formats handlers lock positional parsed s)
  unfolding status
  with_flags-IsHonest positional (err e) s names summary notice h zero_status = cc
  with_flags-IsHonest positional (ok (flags, args)) s names summary notice h zero_status =
      let out = main T platform (read_battery phone) handlers lock flags positional args s in
      let same : out.0 ≡ Outcome.ran names summary notice = cc in
      let clean =
        main-Clean T platform (read_battery phone) handlers lock flags positional args s names
          summary notice same zero_status in
      let ended =
        not_noticed names summary out (same ∙ ap (Outcome.ran names summary) clean.silent) in
      record {
        flags = flags;
        args = args;
        settings = refl;
        config = clean.config;
        loaded = clean.loaded;
        all =
            subst
              (λ t.
                AllSucceeded (handlers flags clean.config) clean.config.jobs (lock clean.config)
                  names s t summary)
              (sym ended) clean.all;
      }

  started-IsHonest :
      (chosen : Subcommand) (rest : List Text) (s : S)
      → IsHonest (given rest) s (started T platform phone tools formats handlers lock chosen rest s)
  started-IsHonest (jobs positional) rest s = with_flags-IsHonest positional (given rest) s
  started-IsHonest install_jobs rest s = λ names summary notice h zero_status. cc
  started-IsHonest unsupported rest s = λ names summary notice h zero_status. cc

  -- Where a process, on any arguments, comes to a run of some names, and its exit status is 0, then with the
  -- settings that its arguments give and the configuration that is loaded from their path, the lock of the
  -- process was taken, each of the names was run, in order, and succeeded, and the summary says so; and the
  -- process ends in the state that the release of the lock has left.
  pub invoke-Succeeded :
      (raw : List Text) (s : S) (names : List Text) (summary : Summary)
      (notice : Option (Text × Error))
      → (process raw s).0 ≡ came_to (Outcome.ran names summary notice)
      → status (process raw s).0 ≡ 0
      → SucceededWith (given (split_args raw).1) names s (process raw s).1 summary
  unfolding invoke
  invoke-Succeeded raw s = started-IsHonest (subcommand (split_args raw).0) (split_args raw).1 s
