-- ===== src/Gate.antt =====
-- internal/gate/gate.go: the decision to skip a run, over any ordered type of temperatures.
pub mod Phone
pub mod Reasons
use yggsync.Prelude.{Bool, true, false, not, ◌&&◌, ◌==◌, if◌then◌else◌, Option, none, some}
use yggsync.Prelude.Int.{ℤ, pos, int_eq, ltb_ℤ}
use yggsync.Config.{Policy}

-- The float64 temperatures: zero, the default of 45, and the tests `== 0`, `>=` and `>`.
pub record Temperatures : Type 1 where
  pub Temp : Type 0
  pub zero_temp : Temp
  pub default_temp : Temp
  pub is_zero : Temp → Bool
  pub at_least : Temp → Temp → Bool
  pub above : Temp → Temp → Bool

pub record Status (Temp : Type 0) : Type 0 where
  pub percentage : ℤ
  pub temp_c : Temp
  pub charging : Bool

-- Why a run is skipped. The messages of the source also print the values.
pub data Verdict : Type 0 where
  go : Verdict
  hot : Verdict
  not_charging : Verdict
  battery_low : Verdict

module _ (T : Temperatures) where
  unfoldable pub with_defaults : Policy T.Temp → Policy T.Temp
  with_defaults p = record p {
    battery_min_percent = if p.battery_min_percent == pos 0 then pos 20 else p.battery_min_percent;
    max_battery_temp_c =
        if T.is_zero p.max_battery_temp_c then T.default_temp else p.max_battery_temp_c;
  }

  abbrev pub decide_enabled : Policy T.Temp → Status T.Temp → Verdict
  decide_enabled p s =
      if T.above p.max_battery_temp_c T.zero_temp && T.at_least s.temp_c p.max_battery_temp_c
      then hot
      else if p.require_charging && not s.charging
      then not_charging
      else if ltb_ℤ (pos 0) p.battery_min_percent
          && (not s.charging && ltb_ℤ s.percentage p.battery_min_percent)
      then battery_low
      else go

  unfoldable pub decide : Policy T.Temp → Status T.Temp → Verdict
  unfolding with_defaults
  decide p s = if not p.enabled then go else decide_enabled (with_defaults p) s

  -- `Check`: a device whose state cannot be read is not held back.
  unfoldable pub check : Policy T.Temp → Option (Status T.Temp) → Verdict
  unfolding decide
  check p none = go
  check p (some s) = if not p.enabled then go else decide p s
