-- ===== src/Tests/Gates.antt =====
-- Two devices before a gate, and the theorem there.
use yggsync.Prelude.{
  ℕ, codes, text_dec, some, none, [], ◌≡◌, refl, true, false, ◌==◌, nat_eq, leb, ltb, ℕ_discrete,
}
use yggsync.Prelude.Int.{pos, ℤ_discrete}
use yggsync.Config.{Policy}
use yggsync.Gate.{Temperatures, Status, go, battery_low, decide, check}
use yggsync.Gate.Phone.{Phone, read_battery, is_charging}
use yggsync.Gate.Reasons.{Justified, check-Justified}
use yggsync.Prelude.Results.{pure}

abbrev pub degrees : Temperatures
degrees = record {
  Temp = ℕ;
  zero_temp = 0;
  default_temp = 45;
  is_zero = λ t. t == 0;
  at_least = λ a b. leb b a;
  above = λ a b. ltb b a;
}

abbrev policy : Policy ℕ
policy = record {
  enabled = true;
  battery_min_percent = pos 0;
  require_charging = false;
  max_battery_temp_c = 0;
}

abbrev pub half_full : Status ℕ
half_full = record { percentage = pos 50; temp_c = 30; charging = false }

abbrev nearly_empty : Status ℕ
nearly_empty = record { percentage = pos 19; temp_c = 30; charging = false }

held_back : decide degrees policy nearly_empty ≡ battery_low
unfolding decide ℕ_discrete ℤ_discrete
held_back = refl

half_goes : decide degrees policy half_full ≡ go
unfolding decide ℕ_discrete ℤ_discrete
half_goes = refl

abbrev pub silent : Phone ℕ ℕ
silent = record {
  look_path = λ name. none;
  output = λ bin. none;
  parse_battery = λ out. none;
  start = λ bin args. pure tt;
  cancel = pure tt;
}

-- A phone with a battery that is nearly empty.
abbrev at_nineteen : Phone ℕ ℕ
at_nineteen = record {
  look_path = λ name. some name;
  output = λ bin. some [];
  parse_battery = λ out. some (record {
    percentage = pos 19;
    temperature = 30;
    plugged = codes "UNPLUGGED";
    status = codes "DISCHARGING";
  });
  start = λ bin args. pure tt;
  cancel = pure tt;
}

it_reads : read_battery at_nineteen ≡ some nearly_empty
unfolding read_battery is_charging text_dec ℕ_discrete
it_reads = refl

check-Justified_example :
    Justified degrees at_nineteen policy (check degrees policy (read_battery at_nineteen))
check-Justified_example = check-Justified degrees at_nineteen policy
