-- ===== src/Gate/Reasons.antt =====
-- internal/gate/gate.go, `Check` on what `readBattery` reads: why a run is skipped, or is not.
use yggsync.Prelude.{
  ◌≡◌, refl, sym, ap, subst, ◌∙◌, Bool, true, false, not, ◌&&◌, Text, codes, Option, none, some,
  Bool-cases, inl, inr, ◌⊎◌,
}
use yggsync.Prelude.Int.{pos, ltb_ℤ}
use yggsync.Config.{Policy}
use yggsync.Gate.{
  Temperatures, Status, Verdict, go, hot, not_charging, battery_low, with_defaults, decide_enabled,
  decide, check,
}
use yggsync.Gate.Phone.{Battery, Phone, then_some, is_charging, status_of, read_battery}

then_some-cases :
    {A B : Type 0} (o : Option A) (f : A → Option B) {b : B}
    → then_some o f ≡ some b
    → (a : A) × (o ≡ some a) × (f a ≡ some b)
then_some-cases none f h = cc
then_some-cases (some a) f h = (a, refl, h)

Option-cases : {A : Type 0} (o : Option A) → (o ≡ none) ⊎ ((a : A) × (o ≡ some a))
Option-cases none = inl refl
Option-cases (some a) = inr (a, refl)

module _ (T : Temperatures) {S : Type 0} (phone : Phone T.Temp S) where
  -- What the phone says of its battery.
  pub record Reports (raw : Battery T.Temp) : Type 0 where
    pub bin : Text
    pub out : Text
    pub found : phone.look_path (codes "termux-battery-status") ≡ some bin
    pub printed : phone.output bin ≡ some out
    pub parsed : phone.parse_battery out ≡ some raw

  -- The three conditions of a policy with its defaults.
  abbrev pub too_hot : Policy T.Temp → Battery T.Temp → Bool
  too_hot p raw =
      T.above p.max_battery_temp_c T.zero_temp && T.at_least raw.temperature p.max_battery_temp_c

  abbrev pub must_charge : Policy T.Temp → Battery T.Temp → Bool
  must_charge p raw = p.require_charging && not (is_charging phone raw)

  abbrev pub too_low : Policy T.Temp → Battery T.Temp → Bool
  too_low p raw =
      ltb_ℤ (pos 0) p.battery_min_percent
      && (not (is_charging phone raw) && ltb_ℤ raw.percentage p.battery_min_percent)

  abbrev pub Holds : Policy T.Temp → Battery T.Temp → Verdict → Type 0
  Holds p raw go = (too_hot p raw ≡ false) × (must_charge p raw ≡ false) × (too_low p raw ≡ false)
  Holds p raw hot = too_hot p raw ≡ true
  Holds p raw not_charging = must_charge p raw ≡ true
  Holds p raw battery_low = too_low p raw ≡ true

  pub data Justified (p : Policy T.Temp) : Verdict → Type 0 where
    disabled : p.enabled ≡ false → Justified p go
    unread : read_battery phone ≡ none → Justified p go
    measured :
        {raw : Battery T.Temp} {v : Verdict}
        → p.enabled ≡ true
        → Reports raw
        → Holds (with_defaults T p) raw v
        → Justified p v

  read_battery-Reports :
      (s : Status T.Temp)
      → read_battery phone ≡ some s
      → (raw : Battery T.Temp) × Reports raw × (status_of phone raw ≡ s)
  unfolding read_battery
  read_battery-Reports s h =
      let (bin, found, h1) = then_some-cases _ _ h in
      let (out, printed, h2) = then_some-cases _ _ h1 in
      let (raw, parsed, h3) = then_some-cases _ _ h2 in
      (raw, record { bin = bin; out = out; found = found; printed = printed; parsed = parsed }, cc)

  decide_enabled-Holds :
      (p : Policy T.Temp) (raw : Battery T.Temp)
      → Holds p raw (decide_enabled T p (status_of phone raw))
  decide_enabled-Holds p raw = elim (Bool-cases (too_hot p raw)) [
    | inl h ↦ rw h h
    | inr h ↦ elim (Bool-cases (must_charge p raw)) [
      | inl k ↦ rw (h, k) k
      | inr k ↦ elim (Bool-cases (too_low p raw)) [
        | inl l ↦ rw (h, k, l) l
        | inr l ↦ rw (h, k, l) (h, k, l)
      ]
    ]
  ]

  check-off : (p : Policy T.Temp) → p.enabled ≡ false → check T p (read_battery phone) ≡ go
  unfolding check
  check-off p off = elim (Option-cases (read_battery phone)) [
    | inl u ↦ rw u refl
    | inr (s, r) ↦ rw (r, off) refl
  ]

  check-on :
      (p : Policy T.Temp) (s : Status T.Temp)
      → p.enabled ≡ true
      → check T p (some s) ≡ decide_enabled T (with_defaults T p) s
  unfolding check decide
  check-on p s on = rw on refl

  -- A verdict of `Check` on what `readBattery` reads has its reason: a run goes where the gate is
  -- disabled or the battery cannot be read; else the phone has reported its battery, and where the
  -- run is skipped, the condition that the verdict names holds of the report under the policy with its
  -- defaults, and where it goes, none of the three does.
  pub check-Justified : (p : Policy T.Temp) → Justified p (check T p (read_battery phone))
  unfolding check
  check-Justified p = elim (Bool-cases p.enabled) [
    | inr off ↦ subst (Justified p) (sym (check-off p off)) (disabled off)
    | inl on ↦ elim (Option-cases (read_battery phone)) [
      | inl u ↦ subst (λ b. Justified p (check T p b)) (sym u) (unread u)
      | inr (s, r) ↦
          let (raw, reports, same) = read_battery-Reports s r in
          subst (Justified p)
            (sym (ap (check T p) (r ∙ sym (ap some same)) ∙ check-on p (status_of phone raw) on))
            (measured on reports (decide_enabled-Holds (with_defaults T p) raw))
    ]
  ]
