-- ===== src/Config/Runtime.antt =====
-- internal/config/config.go: the files that are loaded, device profiles, and paths with `~`.
use yggsync.Prelude.{
  Bool, false, ◌||◌, [], Text, codes, Option, none, some, ◌==◌, text_eq, if◌then◌else◌, drop,
}
use yggsync.Prelude.Strings.{has_prefix}
use yggsync.Prelude.Int.{ℤ, pos, ltb_ℤ}
use yggsync.Prelude.Dict.{Dict}
use yggsync.Prelude.Results.{not_exist, failed, Result, ok, err, then_result}
use yggsync.Config.{Target, Config, Policy}
use yggsync.Config.Defaults.{fill_defaults}
use yggsync.Gate.{Temperatures}

pub record DeviceProfile (Temp : Type 0) : Type 0 where
  pub enabled : Bool
  pub min_battery : ℤ
  pub max_battery_temp_c : Temp
  pub monitor_interval_sec : ℤ
  pub notify : Bool
  pub cellular_limit_bytes : ℤ

-- What the package calls of the operating system and of the TOML parser.
pub record Platform (Temp : Type 0) : Type 0 where
  pub read_file : Text → Result Text
  pub user_home : Option Text
  pub getenv : Text → Text
  pub path_join : Text → Text → Text
  pub parse_config : Text → Option (Config Temp)
  pub parse_gate : Text → Option (Policy Temp)
  pub parse_profiles : Text → Option (Dict Text (DeviceProfile Temp))

module _ (T : Temperatures) where
  -- The zero values of Go.
  abbrev pub no_policy : Policy T.Temp
  no_policy = record {
    enabled = false;
    battery_min_percent = pos 0;
    require_charging = false;
    max_battery_temp_c = T.zero_temp;
  }

  abbrev pub no_profile : DeviceProfile T.Temp
  no_profile = record {
    enabled = false;
    min_battery = pos 0;
    max_battery_temp_c = T.zero_temp;
    monitor_interval_sec = pos 0;
    notify = false;
    cellular_limit_bytes = pos 0;
  }

  -- `DeviceProfile.Gate`
  unfoldable pub profile_gate : DeviceProfile T.Temp → Policy T.Temp
  profile_gate p = record {
    enabled =
        p.enabled || (ltb_ℤ (pos 0) p.min_battery || T.above p.max_battery_temp_c T.zero_temp);
    battery_min_percent = p.min_battery;
    require_charging = false;
    max_battery_temp_c = p.max_battery_temp_c;
  }

module _ {Temp : Type 0} (platform : Platform Temp) where
  abbrev home_path : Option Text → Text → Text
  home_path none p = p
  home_path (some home) p = platform.path_join home (drop 1 p)

  unfoldable pub expand_path : Text → Text
  unfolding has_prefix
  expand_path p = if has_prefix (codes "~") p then home_path platform.user_home p else p

  abbrev pub parsed : {A : Type 0} → Option A → Result A
  parsed none = err (failed (codes "invalid TOML"))
  parsed (some a) = ok a

  unfoldable pub load_config : Text → Result (Config Temp)
  unfolding expand_path fill_defaults
  load_config path =
      then_result (platform.read_file (expand_path path))
        (λ raw. then_result (parsed (platform.parse_config raw)) fill_defaults)

  -- A missing file is one without settings.
  abbrev optional : {A : Type 0} → (Text → Option A) → A → Result Text → Result A
  optional parse missing (ok raw) = parsed (parse raw)
  optional parse missing (err not_exist) = ok missing
  optional parse missing (err other) = err other

  -- `LoadRuntime`, given the zero policy.
  unfoldable pub load_runtime : Policy Temp → Text → Result (Policy Temp)
  unfolding expand_path
  load_runtime missing path =
      if path == []
      then ok missing
      else optional platform.parse_gate missing (platform.read_file (expand_path path))

  unfoldable pub load_profiles : Text → Result (Dict Text (DeviceProfile Temp))
  unfolding expand_path
  load_profiles path =
      if path == []
      then ok []
      else optional platform.parse_profiles [] (platform.read_file (expand_path path))

  abbrev or_env : Text → Text → Text
  or_env value variable =
      if value == [] then if variable == [] then [] else platform.getenv variable else value

  unfoldable pub resolved_username : Target → Text
  resolved_username t = or_env t.username t.username_env

  unfoldable pub resolved_password : Target → Text
  resolved_password t = or_env t.password t.password_env

  unfoldable pub default_config_path : Text
  default_config_path =
      let path = platform.getenv (codes "YGG_SYNC_CONFIG") in
      if path == [] then codes "~/.config/ygg_sync.toml" else path
