-- ===== src/Gate/Phone.antt =====
-- internal/gate/gate.go: `readBattery` and `Notify`, over the programs of the phone.
use yggsync.Prelude.{
  Bool, not, ◌&&◌, ◌||◌, List, [], ◌∷◌, Text, codes, Option, none, some, ◌==◌, text_eq,
}
use yggsync.Prelude.Int.{ℤ}
use yggsync.Prelude.Results.{Action, pure, ignore, ◌>>◌}
use yggsync.Gate.{Status}

-- The fields of the report that `termux-battery-status` prints.
pub record Battery (Temp : Type 0) : Type 0 where
  pub percentage : ℤ
  pub temperature : Temp
  pub plugged : Text
  pub status : Text

-- The calls of packages os/exec and encoding/json. `output` is what a program prints, if it succeeds,
-- `start` starts one without waiting for its end, and `cancel` ends the one that was started.
pub record Phone (Temp S : Type 0) : Type 0 where
  pub look_path : Text → Option Text
  pub output : Text → Option Text
  pub parse_battery : Text → Option (Battery Temp)
  pub start : Text → List Text → Action S (Unit {0})
  pub cancel : Action S (Unit {0})

abbrev pub then_some : {A B : Type 0} → Option A → (A → Option B) → Option B
then_some none f = none
then_some (some a) f = f a

module _ {Temp S : Type 0} (phone : Phone Temp S) where
  unfoldable pub is_charging : Battery Temp → Bool
  is_charging raw =
      (raw.status == codes "CHARGING")
      || ((raw.status == codes "FULL")
          || (not (raw.plugged == []) && not (raw.plugged == codes "UNPLUGGED")))

  abbrev pub status_of : Battery Temp → Status Temp
  status_of raw = record {
    percentage = raw.percentage;
    temp_c = raw.temperature;
    charging = is_charging raw;
  }

  unfoldable pub read_battery : Option (Status Temp)
  unfolding is_charging
  read_battery = then_some (phone.look_path (codes "termux-battery-status")) (λ bin.
      then_some (phone.output bin)
        (λ out. then_some (phone.parse_battery out) (λ raw. some (status_of raw))))

  abbrev notify_args : Text → Text → List Text
  notify_args title msg =
      codes "--title" ∷ title ∷ codes "--content" ∷ msg ∷ codes "--id" ∷ codes "yggsync-gate" ∷ []

  -- No failure of the notification is the run's. The deferred cancel ends the program at once.
  unfoldable pub notify : Text → Text → Action S (Unit {0})
  notify title msg = elim (phone.look_path (codes "termux-notification")) [
    | none ↦ pure tt
    | some bin ↦ ignore (phone.start bin (notify_args title msg)) >> ignore phone.cancel
  ]
