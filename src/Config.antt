-- ===== src/Config.antt =====
-- internal/config/config.go: the records of a configuration, `fillDefaults` and the lookups by name.
pub mod Defaults
pub mod Runtime
use yggsync.Prelude.{ℕ, Bool, List, [], ◌∷◌, Text, Option, none, some, ◌==◌, text_eq, if◌then◌else◌}
use yggsync.Prelude.Int.{ℤ}

pub record KeepLatestRule : Type 0 where
  pub glob : Text
  pub keep : ℤ

pub record Target : Type 0 where
  pub name : Text
  pub type : Text
  pub host : Text
  pub port : ℤ
  pub share : Text
  pub base_path : Text
  pub path : Text
  pub username : Text
  pub password : Text
  pub username_env : Text
  pub password_env : Text
  pub domain : Text

pub record Job : Type 0 where
  pub name : Text
  pub description : Text
  pub type : Text
  pub local : Text
  pub remote : Text
  pub direction : Text
  pub flags : List Text
  pub include : List Text
  pub exclude : List Text
  pub filter_rules : List Text
  pub local_retention_days : ℤ
  pub keep_latest : List KeepLatestRule
  pub resync_on_exit : List ℤ
  pub resync_flags : List Text
  pub timeout_seconds : ℤ
  pub state_file : Text
  pub client_id : Text
  pub no_merge : Bool

-- A temperature, a float64, is a value of a type of its own.
pub record Policy (Temp : Type 0) : Type 0 where
  pub enabled : Bool
  pub battery_min_percent : ℤ
  pub require_charging : Bool
  pub max_battery_temp_c : Temp

pub record Config (Temp : Type 0) : Type 0 where
  pub lock_file : Text
  pub worktree_state_dir : Text
  pub default_flags : List Text
  pub gate : Policy Temp
  pub targets : List Target
  pub jobs : List Job
  pub rclone_binary : Text
  pub rclone_config : Text

unfoldable pub find_job : Text → List Job → Option Job
find_job name [] = none
find_job name (j ∷ js) = if j.name == name then some j else find_job name js

unfoldable pub find_target : Text → List Target → Option Target
find_target name [] = none
find_target name (t ∷ ts) = if t.name == name then some t else find_target name ts

-- `Config.Job` and `Config.Target`
abbrev pub job : {Temp : Type 0} → Config Temp → Text → Option Job
job c name = find_job name c.jobs

abbrev pub target : {Temp : Type 0} → Config Temp → Text → Option Target
target c name = find_target name c.targets
