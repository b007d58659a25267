-- ===== src/Command/Arguments.antt =====
-- cmd/yggsync/main.go: the flags of `main`, and their defaults.
pub mod Printed
use yggsync.Prelude.{Bool, true, false, List, [], ◌∷◌, Text, codes, Option, some}
use yggsync.Prelude.Dict.{Dict}
use yggsync.Prelude.FlagSet.{Flag, switch, setting}
use yggsync.Config.Runtime.{Platform, default_config_path}
use yggsync.Command.Main.{Flags}

abbrev pub main_flags : Dict Text (Flag Flags)
main_flags =
    (codes "config", setting (λ v f. some (record f { config = v })))
    ∷ (codes "jobs", setting (λ v f. some (record f { job_list = v })))
    ∷ (codes "list", switch (λ b f. record f { list = b }))
    ∷ (codes "dry-run", switch (λ b f. record f { dry_run = b }))
    ∷ (codes "worktree-op", setting (λ v f. some (record f { worktree_op = v })))
    ∷ (codes "allow-mass-delete", switch (λ b f. record f { allow_mass_delete = b }))
    ∷ (codes "reason", setting (λ v f. some (record f { reason = v })))
    ∷ (codes "runtime", setting (λ v f. some (record f { runtime = v })))
    ∷ (codes "profile", setting (λ v f. some (record f { profile = v })))
    ∷ (codes "resync", switch (λ b f. f))
    ∷ (codes "force-bisync", switch (λ b f. f))
    ∷ (codes "version", switch (λ b f. record f { show_version = b }))
    ∷ []

unfoldable pub default_flags : {Temp : Type 0} → Platform Temp → Flags
unfolding default_config_path
default_flags platform = record {
  config = default_config_path platform;
  job_list = [];
  list = false;
  dry_run = false;
  worktree_op = codes "sync";
  allow_mass_delete = false;
  reason = codes "manual";
  runtime = [];
  profile = [];
  show_version = false;
}
