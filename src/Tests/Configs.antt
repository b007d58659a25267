-- ===== src/Tests/Configs.antt =====
-- A configuration that is accepted, and the theorem there.
use yggsync.Prelude.{ℕ, ◌≡◌, refl, false, [], ◌∷◌, Text, codes, some, text_dec}
use yggsync.Prelude.Int.{pos, ℤ_discrete}
use yggsync.Prelude.Results.{ok}
use yggsync.Config.{Job, Config, job}
use yggsync.Config.Defaults.{fill_defaults}
use yggsync.Config.Defaults.Validity.{IsRunnable, here, fill_defaults-IsRunnable}

abbrev pub notes : Text → Text → Job
notes type direction = record {
  name = codes "notes";
  description = [];
  type = type;
  local = codes "~/notes";
  remote = codes "hub:notes";
  direction = direction;
  flags = [];
  include = [];
  exclude = [];
  filter_rules = [];
  local_retention_days = pos 0;
  keep_latest = [];
  resync_on_exit = [];
  resync_flags = [];
  timeout_seconds = pos 0;
  state_file = [];
  client_id = [];
  no_merge = false;
}

abbrev pub sample : Text → Text → Job → Config ℕ
sample lock states j = record {
  lock_file = lock;
  worktree_state_dir = states;
  default_flags = [];
  gate = record {
    enabled = false;
    battery_min_percent = pos 0;
    require_charging = false;
    max_battery_temp_c = 0;
  };
  targets = [];
  jobs = j ∷ [];
  rclone_binary = [];
  rclone_config = [];
}

abbrev filled : Config ℕ
filled =
    sample (codes "~/.local/state/yggsync.lock") (codes "~/.local/state/yggsync/worktrees")
      (notes (codes "worktree") (codes "push"))

accepted : fill_defaults (sample [] [] (notes (codes " BiSync ") [])) ≡ ok filled
unfolding fill_defaults text_dec ℤ_discrete
accepted = refl

fill_defaults-IsRunnable_example :
    IsRunnable (notes (codes "worktree") (codes "push"))
    × (job filled (codes "notes") ≡ some (notes (codes "worktree") (codes "push")))
fill_defaults-IsRunnable_example =
    fill_defaults-IsRunnable (sample [] [] (notes (codes " BiSync ") [])) filled
      (notes (codes "worktree") (codes "push")) accepted here
