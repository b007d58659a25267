-- ===== src/Command/Chosen.antt =====
-- cmd/yggsync/main.go: the names that a run of `main` is for.
use yggsync.Prelude.{
  ◌≡◌, ◌≢◌, refl, ap, ◌∙◌, true, false, List, [], Text, Option, none, text_eq, ◌==◌, ==_of_ne,
  if◌then◌else◌,
}
use yggsync.Prelude.Dict.{Dict, lookup}
use yggsync.Prelude.Results.{Error, Result, ok, err}
use yggsync.Config.{Config}
use yggsync.Config.Runtime.{DeviceProfile, Platform, load_config, load_profiles}
use yggsync.Gate.{Temperatures, Status, Verdict, go, hot, not_charging, battery_low}
use yggsync.Jobs.{Handlers, ProcessLock, Summary}
use yggsync.Command.{job_names, select_names, explicit_names, effective_label}
use yggsync.Command.Main.{Flags, Outcome, profile_or, gate, run, gated, profiled, configured, main}

module _ (T : Temperatures) {S : Type 0} (platform : Platform T.Temp)
    (battery : Option (Status T.Temp)) (handlers : Flags → Config T.Temp → Handlers S)
    (lock : Config T.Temp → ProcessLock S) (flags : Flags) (positional args : List Text) where
  -- The names of a run, as the configuration and a label give them. A profile that is named is the label.
  pub record Choice (names : List Text) : Type 0 where
    pub config : Config T.Temp
    pub label : Text
    pub loaded : load_config platform flags.config ≡ ok config
    pub labelled : flags.profile ≢ [] → label ≡ flags.profile
    pub chosen :
        names ≡ select_names label config.jobs (explicit_names flags.job_list positional args)

  abbrev IsChosen : Outcome × S → Type 0
  IsChosen out =
      (names : List Text) (summary : Summary) (notice : Option (Text × Error))
      → out.0 ≡ Outcome.ran names summary notice
      → Choice names

  gated-IsChosen :
      (config : Config T.Temp) (label : Text) (device : DeviceProfile T.Temp)
      (verdict : Result Verdict) (s : S)
      → load_config platform flags.config ≡ ok config
      → (flags.profile ≢ [] → label ≡ flags.profile)
      → IsChosen (
          gated T platform battery handlers lock flags positional args config label device verdict
            s)
  unfolding run
  gated-IsChosen config label device (err e) s loaded labelled = λ names summary notice h. cc
  gated-IsChosen config label device (ok hot) s loaded labelled = λ names summary notice h. cc
  gated-IsChosen config label device (ok not_charging) s loaded labelled =
      λ names summary notice h. cc
  gated-IsChosen config label device (ok battery_low) s loaded labelled =
      λ names summary notice h. cc
  gated-IsChosen config label device (ok go) s loaded labelled = λ names summary notice h. record {
    config = config;
    label = label;
    loaded = loaded;
    labelled = labelled;
    chosen = cc;
  }

  effective_label-named :
      (profiles : Dict Text (DeviceProfile T.Temp))
      → flags.profile ≢ []
      → effective_label flags.profile positional profiles ≡ flags.profile
  unfolding effective_label
  effective_label-named profiles named = rw (==_of_ne flags.profile [] named)

  profiled-IsChosen :
      (config : Config T.Temp) (profiles : Result (Dict Text (DeviceProfile T.Temp))) (s : S)
      → load_config platform flags.config ≡ ok config
      → IsChosen (profiled T platform battery handlers lock flags positional args config profiles s)
  profiled-IsChosen config (err e) s loaded = λ names summary notice h. cc
  profiled-IsChosen config (ok profiles) s loaded =
      gated-IsChosen config _ _ _ s loaded (effective_label-named profiles)

  configured-IsChosen :
      (config : Result (Config T.Temp)) (s : S)
      → load_config platform flags.config ≡ config
      → IsChosen (configured T platform battery handlers lock flags positional args config s)
  configured-IsChosen (err e) s loaded = λ names summary notice h. cc
  configured-IsChosen (ok config) s loaded =
      elim (flags.list)
        as (λ b. IsChosen (
          if b
          then (Outcome.listed (job_names config.jobs), s)
          else profiled T platform battery handlers lock flags positional args config
              (load_profiles platform flags.runtime) s)) [
                | true ↦ λ names summary notice h. cc
                | false ↦ profiled-IsChosen config (load_profiles platform flags.runtime) s loaded
              ]

  pub main-Choice :
      (s : S) (names : List Text) (summary : Summary) (notice : Option (Text × Error))
      → (main T platform battery handlers lock flags positional args s).0
        ≡ Outcome.ran names summary notice
      → Choice names
  unfolding main
  main-Choice s =
      elim (flags.show_version)
        as (λ b. IsChosen (
          if b
          then (Outcome.version, s)
          else configured T platform battery handlers lock flags positional args
              (load_config platform flags.config) s)) [
                | true ↦ λ names summary notice h. cc
                | false ↦ configured-IsChosen (load_config platform flags.config) s refl
              ]

  abbrev pub device_of : Dict Text (DeviceProfile T.Temp) → DeviceProfile T.Temp
  device_of profiles =
      let label = effective_label flags.profile positional profiles in
      profile_or T platform battery handlers lock flags positional args
        (if label == [] then none else lookup label profiles)

  -- The configuration and the profiles load, and the gate lets the run go.
  pub record Proceeds (config : Config T.Temp) : Type 0 where
    pub profiles : Dict Text (DeviceProfile T.Temp)
    pub no_version : flags.show_version ≡ false
    pub no_list : flags.list ≡ false
    pub loaded : load_config platform flags.config ≡ ok config
    pub known : load_profiles platform flags.runtime ≡ ok profiles
    pub goes :
        gate T platform battery handlers lock flags positional args
          (effective_label flags.profile positional profiles)
          (device_of profiles)
        ≡ ok go

  -- Then `main` is the run.
  pub main-Proceeds :
      (config : Config T.Temp) (s : S) (p : Proceeds config)
      → main T platform battery handlers lock flags positional args s
        ≡ run T platform battery handlers lock flags positional args config
            (effective_label flags.profile positional p.profiles)
            (device_of p.profiles)
            s
  unfolding main
  main-Proceeds config s p =
      let label = effective_label flags.profile positional p.profiles in
      let from_config = configured T platform battery handlers lock flags positional args in
      let from_profiles = profiled T platform battery handlers lock flags positional args config in
      let from_gate =
        gated T platform battery handlers lock flags positional args config label
          (device_of p.profiles) in
      ap
        (λ b. if b then (Outcome.version, s) else from_config (load_config platform flags.config) s)
        p.no_version
      ∙ ap (λ c. from_config c s) p.loaded
      ∙ ap
          (λ b.
            if b
            then (Outcome.listed (job_names config.jobs), s)
            else from_profiles (load_profiles platform flags.runtime) s)
          p.no_list
      ∙ ap (λ c. from_profiles c s) p.known
      ∙ ap (λ c. from_gate c s) p.goes
