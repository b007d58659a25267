-- ===== src/Command/Wrappers.antt =====
-- cmd/yggsync/main.go on the arguments that the scripts of internal/termuxjobs/jobs.go give it.
use yggsync.Prelude.{
  ◌≡◌, refl, ap, ◌∙◌, true, List, [], ◌∷◌, Text, Option, text_dec, text_eq, if◌then◌else◌,
}
use yggsync.Prelude.Results.{Error, ok}
use yggsync.Config.{Job, Config}
use yggsync.Config.Runtime.{Platform, load_config}
use yggsync.Gate.{Temperatures}
use yggsync.Gate.Phone.{Phone, read_battery}
use yggsync.Jobs.{Handlers, ProcessLock, Summary, run_jobs}
use yggsync.TermuxJobs.{Tools, arguments, obsidian_words}
use yggsync.Command.{effective_label, is_empty, explicit_names, job_names, bulk_names, select_names}
use yggsync.Command.Main.{Flags, Outcome, run, notified}
use yggsync.Command.Arguments.{default_flags}
use yggsync.Command.Scripted.{scripted, IsJobName, all_plain, trimmed-job, invoked, invoke-obsidian}
use yggsync.Command.Chosen.{Proceeds, device_of, main-Proceeds}
use yggsync.Command.Invocation.{Formats, noticed, Ended}

module _ (T : Temperatures) {S : Type 0} (platform : Platform T.Temp) (phone : Phone T.Temp S)
    (tools : Tools S) (formats : Formats) (handlers : Flags → Config T.Temp → Handlers S)
    (lock : Config T.Temp → ProcessLock S) where
  -- The process, given its arguments.
  abbrev process : List Text → S → Ended × S
  process = invoked T platform phone tools formats handlers lock

  -- The jobs that are no worktree jobs, or all of them where there is none.
  abbrev bulk_or_all : List Job → List Text
  bulk_or_all js = if is_empty (bulk_names js) then job_names js else bulk_names js

  -- The names are those of the configuration's bulk jobs.
  pub record IsBulk (config_path : Text) (names : List Text) : Type 0 where
    pub config : Config T.Temp
    pub loaded : load_config platform config_path ≡ ok config
    pub covers : names ≡ bulk_or_all config.jobs

  select_names-explicit :
      (label : Text) (js : List Job) (name : Text) → select_names label js (name ∷ []) ≡ name ∷ []
  unfolding select_names
  select_names-explicit label js name = refl

  explicit_names-job : (name : Text) → IsJobName name → explicit_names [] (name ∷ []) [] ≡ name ∷ []
  unfolding explicit_names text_dec
  explicit_names-job name is = trimmed-job name is

  abbrev pub obsidian_flags : Text → Text → Flags
  obsidian_flags config runtime = scripted config runtime [] (default_flags platform)

  -- What a run of one job comes to.
  abbrev pub one_job : Flags → Config T.Temp → Text → S → Summary × S
  one_job flags config name s =
      run_jobs (handlers flags config) config.jobs (lock config) (name ∷ []) s

  -- Where a shell takes each byte of the worktree job's name as it is, and the command line the name for a
  -- job, and the arguments of the job's script let a run proceed, the script runs the job of that name, and
  -- nothing else, with the settings of the script, and gives the notice of how it ended.
  pub obsidian_words-runs :
      (name config_path runtime : Text) (config : Config T.Temp) (s : S)
      → IsJobName name
      → all_plain name ≡ true
      → Proceeds T platform
          (read_battery phone)
          handlers
          lock
          (obsidian_flags config_path runtime)
          (name ∷ [])
          []
          config
      → (notice : Option (Text × Error)) × (process
            (arguments (obsidian_words name config_path runtime))
            s
          ≡ noticed T platform phone tools formats handlers lock (
            Outcome.ran
                (name ∷ [])
                (one_job (obsidian_flags config_path runtime) config name s).0
                notice,
            (one_job (obsidian_flags config_path runtime) config name s).1,
          ))
  unfolding run default_flags
  obsidian_words-runs name config_path runtime config s is plain p =
      let flags = obsidian_flags config_path runtime in
      let label = effective_label flags.profile (name ∷ []) p.profiles in
      let names : select_names label config.jobs (explicit_names [] (name ∷ []) []) ≡ name ∷ [] =
        ap (select_names label config.jobs) (explicit_names-job name is)
        ∙ select_names-explicit label config.jobs name in
      let device =
        device_of T platform (read_battery phone) handlers lock flags (name ∷ []) [] p.profiles in
      let told =
        notified T platform (read_battery phone) handlers lock flags (name ∷ []) [] label device in
      let ran_for : List Text → Outcome × S = λ names.
        let out = run_jobs (handlers flags config) config.jobs (lock config) names s in
        (Outcome.ran names out.0 (told names out.0), out.1) in
      (
        told (name ∷ []) (one_job flags config name s).0,
        invoke-obsidian T platform phone tools formats handlers lock name config_path runtime s is
              plain
            ∙ ap (noticed T platform phone tools formats handlers lock) (
                main-Proceeds T platform (read_battery phone) handlers lock flags (name ∷ []) []
                  config s p
                ∙ ap ran_for names),
      )
