-- ===== src/TermuxJobs/Arguments.antt =====
-- internal/termuxjobs/jobs.go: the flags of `android install-jobs`, and `InstallJobs` on its arguments.
use yggsync.Prelude.{Bool, false, List, [], ◌∷◌, Text, codes, Option, none, some, if◌then◌else◌}
use yggsync.Prelude.Int.{ℤ, pos}
use yggsync.Prelude.Dict.{Dict}
use yggsync.Prelude.FlagSet.{Flag, switch, setting, parse_flags}
use yggsync.Prelude.Results.{Result, ok, err, Action, pure}
use yggsync.Config.Runtime.{Platform, default_config_path}
use yggsync.TermuxJobs.{Periods, Tools, install_jobs}

pub record InstallFlags : Type 0 where
  pub config : Text
  pub runtime : Text
  pub periods : Periods
  pub show_version : Bool

abbrev set_obsidian : InstallFlags → Option ℤ → Option InstallFlags
set_obsidian f none = none
set_obsidian f (some n) = some (record f { periods = record f.periods { obsidian_ms = n } })

abbrev set_bulk : InstallFlags → Option ℤ → Option InstallFlags
set_bulk f none = none
set_bulk f (some n) = some (record f { periods = record f.periods { bulk_ms = n } })

-- `parse_int` is `strconv.ParseInt(s, 0, 64)`.
abbrev install_flags : (Text → Option ℤ) → Dict Text (Flag InstallFlags)
install_flags parse_int =
    (codes "config", setting (λ v f. some (record f { config = v })))
    ∷ (codes "runtime", setting (λ v f. some (record f { runtime = v })))
    ∷ (codes "obsidian-period-ms", setting (λ v f. set_obsidian f (parse_int v)))
    ∷ (codes "bulk-period-ms", setting (λ v f. set_bulk f (parse_int v)))
    ∷ (codes "version", switch (λ b f. record f { show_version = b }))
    ∷ []

module _ {Temp S : Type 0} (platform : Platform Temp) (tools : Tools S) (decimal : ℤ → Text)
    (parse_int : Text → Option ℤ) where
  unfoldable install_defaults : InstallFlags
  unfolding default_config_path
  install_defaults = record {
    config = default_config_path platform;
    runtime = [];
    periods = record { obsidian_ms = pos 10800000; bulk_ms = pos 43200000 };
    show_version = false;
  }

  abbrev install_parsed : Result (InstallFlags × List Text) → Action S (Unit {0})
  install_parsed (err e) s = (err e, s)
  install_parsed (ok (f, _)) s =
      if f.show_version
      then pure tt s
      else install_jobs platform tools decimal f.config f.runtime f.periods s

  -- `InstallJobs`: arguments after the flags are dropped.
  unfoldable pub install_from_args : List Text → Action S (Unit {0})
  unfolding parse_flags install_defaults install_jobs
  install_from_args args =
      install_parsed (parse_flags (install_flags parse_int) args install_defaults)
