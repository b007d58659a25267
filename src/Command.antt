-- ===== src/Command.antt =====
-- cmd/yggsync/main.go: the arguments, and which jobs a run is for.
pub mod Main
pub mod Exit
pub mod Succeeded
pub mod Program
pub mod Wrappers
pub mod Scripted
pub mod Chosen
pub mod Arguments
pub mod Invocation
use yggsync.Prelude.{
  ℕ, Bool, true, false, not, List, [], ◌∷◌, ◌++◌, Text, codes, Option, none, some, ◌==◌, text_eq,
  if◌then◌else◌,
}
use yggsync.Prelude.Strings.{trim_space, has_prefix, split_on}
use yggsync.Prelude.Dict.{Dict, lookup}
use yggsync.Prelude.Results.{Error}
use yggsync.Config.{Job}

abbrev pub is_empty : {A : Type 0} → List A → Bool
is_empty [] = true
is_empty (_ ∷ _) = false

-- The arguments before the first that is a flag, and the rest.
unfoldable pub split_args : List Text → List Text × List Text
unfolding has_prefix
split_args [] = ([], [])
split_args (a ∷ as') =
    let (before, rest) = split_args as' in
    if has_prefix (codes "-") a then ([], a ∷ as') else (a ∷ before, rest)

pub data Subcommand : Type 0 where
  jobs : List Text → Subcommand
  install_jobs : Subcommand
  unsupported : Subcommand

-- The switch on the first argument: `run` is a marker.
unfoldable pub subcommand : List Text → Subcommand
subcommand [] = jobs []
subcommand (a ∷ rest) =
    if a == codes "run"
    then jobs rest
    else if a == codes "android"
    then install_jobs
    else if a == codes "policy"
    then unsupported
    else jobs (a ∷ rest)

-- The trimmed strings that are not empty.
unfoldable pub trimmed : List Text → List Text
unfolding trim_space
trimmed [] = []
trimmed (a ∷ rest) =
    let others = trimmed rest in if trim_space a == [] then others else trim_space a ∷ others

-- The names that `-jobs` and the arguments give.
unfoldable pub explicit_names : Text → List Text → List Text → List Text
unfolding trimmed split_on
explicit_names job_list positional args =
    (if job_list == [] then [] else trimmed (split_on b',' job_list))
    ++ trimmed (positional ++ args)

unfoldable pub job_names : List Job → List Text
job_names [] = []
job_names (j ∷ js) = j.name ∷ job_names js

unfoldable pub bulk_names : List Job → List Text
bulk_names [] = []
bulk_names (j ∷ js) =
    let rest = bulk_names js in if not (j.type == codes "worktree") then j.name ∷ rest else rest

-- The names of a run, given the label of its profile.
unfoldable pub select_names : Text → List Job → List Text → List Text
unfolding job_names bulk_names
select_names label config_jobs explicit =
    let bulk =
      if is_empty explicit
      then if label == [] then explicit else bulk_names config_jobs
      else explicit in
    if is_empty bulk then job_names config_jobs else bulk

abbrev sole_label : {P : Type 0} → Dict Text P → List Text → Text
sole_label profiles [] = []
sole_label profiles (a ∷ []) = elim (lookup a profiles) [ none ↦ [] | some _ ↦ a ]
sole_label profiles (a ∷ b ∷ rest) = []

-- The profile that is named, or else the one of a single job's name.
unfoldable pub effective_label : {P : Type 0} → Text → List Text → Dict Text P → Text
unfolding lookup
effective_label profile positional profiles =
    if profile == [] then sole_label profiles positional else profile

-- A failure is worth a notification unless it is the bounce off the lock alone.
unfoldable pub notify_worthy : Dict Text Error → Bool
notify_worthy [] = false
notify_worthy ((name, _) ∷ rest) =
    let others = notify_worthy rest in if not (name == codes "_lock") then true else others

-- The first of the names that failed, which the notification is about.
unfoldable pub first_failed : List Text → Dict Text Error → Option (Text × Error)
unfolding lookup
first_failed [] failures = none
first_failed (name ∷ names) failures =
    let others = first_failed names failures in
    elim (lookup name failures) [ none ↦ others | some e ↦ some (name, e) ]
