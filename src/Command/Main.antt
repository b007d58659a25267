-- ===== src/Command/Main.antt =====
-- cmd/yggsync/main.go: `main`, given how the flags were parsed.
use yggsync.Prelude.{
  ◌++◌, ℕ, Bool, not, ◌||◌, ◌&&◌, List, [], Text, codes, Option, none, some, ◌==◌, text_eq,
  if◌then◌else◌,
}
use yggsync.Prelude.Dict.{Dict, lookup}
use yggsync.Prelude.Results.{Error, Result, ok, err}
use yggsync.Config.{Config, Policy}
use yggsync.Config.Runtime.{
  DeviceProfile, Platform, no_policy, no_profile, profile_gate, load_config, load_runtime,
  load_profiles,
}
use yggsync.Gate.{Temperatures, Status, Verdict, go, check}
use yggsync.Jobs.{Handlers, ProcessLock, Summary, run_jobs}
use yggsync.Command.{
  is_empty, explicit_names, job_names, select_names, effective_label, notify_worthy, first_failed,
}

pub record Flags : Type 0 where
  pub config : Text
  pub job_list : Text
  pub list : Bool
  pub dry_run : Bool
  pub worktree_op : Text
  pub allow_mass_delete : Bool
  pub reason : Text
  pub runtime : Text
  pub profile : Text
  pub show_version : Bool

-- What an invocation comes to: with `skipped`, whether the phone is notified; with `ran`, the names,
-- their summary, and the title and the failure that the phone is notified of.
pub data Outcome : Type 0 where
  version : Outcome
  fatal : Error → Outcome
  listed : List Text → Outcome
  skipped : Verdict → Bool → Outcome
  ran : List Text → Summary → Option (Text × Error) → Outcome

unfoldable pub exit_code : Outcome → ℕ
exit_code (fatal _) = 1
exit_code (ran _ summary _) = if is_empty summary.failures then 0 else 1
exit_code _ = 0

module _ (T : Temperatures) {S : Type 0} (platform : Platform T.Temp)
    (battery : Option (Status T.Temp)) (handlers : Flags → Config T.Temp → Handlers S)
    (lock : Config T.Temp → ProcessLock S) (flags : Flags) (positional args : List Text) where
  abbrev pub profile_or : Option (DeviceProfile T.Temp) → DeviceProfile T.Temp
  profile_or none = no_profile T
  profile_or (some p) = p

  abbrev or_runtime : DeviceProfile T.Temp → Result (Policy T.Temp) → Result (Policy T.Temp)
  or_runtime device (err e) = err e
  or_runtime device (ok rt) =
      ok (if rt.enabled || not (flags.runtime == []) then rt else profile_gate T device)

  -- The policy of a run that is not manual.
  unfoldable pub gate_policy : Text → DeviceProfile T.Temp → Result (Policy T.Temp)
  unfolding profile_gate load_runtime
  gate_policy label device =
      if label == []
      then or_runtime device (load_runtime platform (no_policy T) flags.runtime)
      else ok (profile_gate T device)

  abbrev pub verdict_of : Result (Policy T.Temp) → Result Verdict
  verdict_of (err e) = err e
  verdict_of (ok policy) = ok (check T policy battery)

  -- A manual run is not gated.
  unfoldable pub gate : Text → DeviceProfile T.Temp → Result Verdict
  unfolding gate_policy check
  gate label device =
      if not (flags.reason == codes "manual") then verdict_of (gate_policy label device) else ok go

  -- The title of a notification, which has the failure's message.
  abbrev titled : Text → Option (Text × Error) → Option (Text × Error)
  titled label none = none
  titled label (some (name, e)) = some (codes "yggsync " ++ label ++ codes " stopped", e)

  abbrev pub notified : Text → DeviceProfile T.Temp → List Text → Summary → Option (Text × Error)
  notified label device names summary =
      if device.notify && notify_worthy summary.failures
      then titled label (first_failed names summary.failures)
      else none

  unfoldable pub run : Config T.Temp → Text → DeviceProfile T.Temp → S → Outcome × S
  unfolding explicit_names select_names run_jobs notify_worthy first_failed
  run config label device s =
      let names = select_names label config.jobs (explicit_names flags.job_list positional args) in
      let out = run_jobs (handlers flags config) config.jobs (lock config) names s in
      (ran names out.0 (notified label device names out.0), out.1)

  abbrev pub gated : Config T.Temp → Text → DeviceProfile T.Temp → Result Verdict → S → Outcome × S
  gated config label device (err e) s = (fatal e, s)
  gated config label device (ok go) s = run config label device s
  gated config label device (ok verdict) s =
      (skipped verdict (not (flags.reason == codes "scheduled")), s)

  abbrev pub profiled : Config T.Temp → Result (Dict Text (DeviceProfile T.Temp)) → S → Outcome × S
  profiled config (err e) s = (fatal e, s)
  profiled config (ok profiles) s =
      let label = effective_label flags.profile positional profiles in
      let device = profile_or (if label == [] then none else lookup label profiles) in
      gated config label device (gate label device) s

  abbrev pub configured : Result (Config T.Temp) → S → Outcome × S
  configured (err e) s = (fatal e, s)
  configured (ok config) s =
      if flags.list
      then (listed (job_names config.jobs), s)
      else profiled config (load_profiles platform flags.runtime) s

  -- `main` after `fs.Parse`.
  unfoldable pub main : S → Outcome × S
  unfolding load_config load_profiles effective_label gate run lookup job_names
  main s =
      if flags.show_version then (version, s) else configured (load_config platform flags.config) s
