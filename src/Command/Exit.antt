-- ===== src/Command/Exit.antt =====
-- cmd/yggsync/main.go: what the exit status says of the jobs.
use yggsync.Prelude.{
  ◌≡◌, ◌≢◌, refl, ap, sym, subst, ◌∙◌, true, false, codes, List, [], ◌∷◌, Text, Option, none, some,
  ◌==◌, text_eq, if◌then◌else◌, ==_of_eq, arith, Bool-cases, inl, inr,
}
use yggsync.Prelude.Dict.{Dict, lookup}
use yggsync.Prelude.Results.{Error, Result, ok, err, Done}
use yggsync.Config.{Job, Config}
use yggsync.Config.Runtime.{DeviceProfile, Platform, load_config, load_profiles}
use yggsync.Gate.{Temperatures, Status, Verdict, go, hot, not_charging, battery_low}
use yggsync.Jobs.{Handlers, ProcessLock, Summary, run_jobs}
use yggsync.Jobs.Accounts.{
  Runs, finished, ran, successes, last_error, Attempt, attempted, bounced, run_jobs-Attempt,
}
use yggsync.Command.{notify_worthy, is_empty, job_names, select_names, explicit_names}
use yggsync.Command.Main.{
  Flags, Outcome, exit_code, notified, run, gated, profiled, configured, main,
}

last_error-some :
    (name : Text) (e : Error) (log : List (Text × Done)) → last_error name (some e) log ≢ none
last_error-some name e [] h = cc
last_error-some name e ((other, ok _) ∷ log) h = last_error-some name e log h
last_error-some name e ((other, err f) ∷ log) h = elim (Bool-cases (name == other)) [
  | inl t ↦ last_error-some name f log (rw t at h)
  | inr t ↦ last_error-some name e log (rw t at h)
]

no_errors_step :
    (name : Text) (out : Done) (log : List (Text × Done)) (names : List Text)
    → ((other : Text) → last_error other none ((name, out) ∷ log) ≡ none)
    → (((other : Text) → last_error other none log ≡ none) → successes log ≡ names)
    → successes ((name, out) ∷ log) ≡ name ∷ names
no_errors_step name (ok _) log names h ih = ap (◌∷◌ name) (ih h)
no_errors_step name (err f) log names h ih =
    absurd (last_error-some name f log (rw (==_of_eq name name refl) at (h name)))

-- Where no name has an error, all runs ended well.
no_errors :
    {S : Type 0} {handlers : Handlers S} {jobs : List Job} {names : List Text} {s t : S}
    {log : List (Text × Done)}
    → Runs handlers jobs names s log t
    → ((name : Text) → last_error name none log ≡ none)
    → successes log ≡ names
no_errors finished h = refl
no_errors (ran {name = name} {names = names} {log = log} runs) h =
    no_errors_step name _ log names h (no_errors runs)

empty-nil : {A : Type 0} (xs : List A) → is_empty xs ≡ true → xs ≡ []
empty-nil [] h = refl
empty-nil (x ∷ xs) h = cc

-- The lock was taken, every name was run, in order, and ended well, and the lock was released.
pub record AllSucceeded {S : Type 0} (handlers : Handlers S) (jobs : List Job)
    (lock : ProcessLock S) (names : List Text) (s t : S) (summary : Summary) : Type 0 where
  pub held : lock.Held
  pub start : S
  pub end : S
  pub taken : lock.acquire s ≡ (ok held, start)
  pub log : List (Text × Done)
  pub runs : Runs handlers jobs names start log end
  pub well : successes log ≡ names
  pub told : summary.succeeded ≡ names
  pub released : t ≡ (lock.release held end).1

Attempt-AllSucceeded :
    {S : Type 0} (handlers : Handlers S) (jobs : List Job) (lock : ProcessLock S)
    (names : List Text) (s : S) (got : Result lock.Held × S) (out : Summary × S)
    → lock.acquire s ≡ got
    → Attempt handlers jobs lock names got out
    → is_empty out.0.failures ≡ true
    → AllSucceeded handlers jobs lock names s out.1 out.0
unfolding lookup
Attempt-AllSucceeded handlers jobs lock names s got out taken
      (attempted {held = held} {s = start} {t = end} {summary = summary} (log, runs, told)) h =
    let fine : (name : Text) → last_error name none log ≡ none =
      λ name. sym (told.badly name) ∙ ap (lookup name) (empty-nil summary.failures h) in
    let well = no_errors runs fine in
    record {
      held = held;
      start = start;
      end = end;
      taken = taken;
      log = log;
      runs = runs;
      well = well;
      told = told.well ∙ well;
      released = refl;
    }
Attempt-AllSucceeded handlers jobs lock names s got out taken
      (bounced {e = e} {summary = summary} none_well noted) h =
    absurd (cc (sym (ap (lookup (codes "_lock")) (empty-nil summary.failures h)) ∙ noted))

run_jobs-AllSucceeded :
    {S : Type 0} (handlers : Handlers S) (jobs : List Job) (lock : ProcessLock S)
    (names : List Text) (s : S)
    → is_empty (run_jobs handlers jobs lock names s).0.failures ≡ true
    → AllSucceeded handlers jobs lock names s
        (run_jobs handlers jobs lock names s).1
        (run_jobs handlers jobs lock names s).0
run_jobs-AllSucceeded handlers jobs lock names s h =
    Attempt-AllSucceeded handlers jobs lock names s (lock.acquire s) _ refl
      (run_jobs-Attempt handlers jobs lock names s) h

module _ (T : Temperatures) {S : Type 0} (platform : Platform T.Temp)
    (battery : Option (Status T.Temp)) (handlers : Flags → Config T.Temp → Handlers S)
    (lock : Config T.Temp → ProcessLock S) (flags : Flags) (positional args : List Text) where
  pub record Clean (names : List Text) (s t : S) (summary : Summary)
      (notice : Option (Text × Error)) : Type 0 where
    pub config : Config T.Temp
    pub loaded : load_config platform flags.config ≡ ok config
    pub silent : notice ≡ none
    pub all : AllSucceeded (handlers flags config) config.jobs (lock config) names s t summary

  -- If the outcome is a run and the exit status zero, then every job of the run succeeded, with the
  -- configuration that was loaded, and there is nothing to notify of.
  abbrev IsHonest : S → Outcome × S → Type 0
  IsHonest s out =
      (names : List Text) (summary : Summary) (notice : Option (Text × Error))
      → out.0 ≡ Outcome.ran names summary notice
      → exit_code out.0 ≡ 0
      → Clean names s out.1 summary notice

  quiet :
      (label : Text) (device : DeviceProfile T.Temp) (names : List Text) (summary : Summary)
      → is_empty summary.failures ≡ true
      → notified T platform battery handlers lock flags positional args label device names summary
        ≡ none
  unfolding notify_worthy
  quiet label device names summary clean = rw (empty-nil summary.failures clean) (ground arith)

  run-IsHonest :
      (config : Config T.Temp) (label : Text) (device : DeviceProfile T.Temp) (s : S)
      → load_config platform flags.config ≡ ok config
      → IsHonest s
          (run T platform battery handlers lock flags positional args config label device s)
  unfolding run exit_code
  run-IsHonest config label device s loaded names summary notice h zero_exit =
      let chosen = select_names label config.jobs (explicit_names flags.job_list positional args) in
      let out = run_jobs (handlers flags config) config.jobs (lock config) chosen s in
      let clean : is_empty out.0.failures ≡ true = elim (Bool-cases (is_empty out.0.failures)) [
        | inl e ↦ e
        | inr e ↦ absurd (omega (arith, sym (ap (λ b. if b then 0 else 1) e) ∙ zero_exit))
      ] in
      let same_names : chosen ≡ names = cc in
      let same_summary : out.0 ≡ summary = cc in
      let all =
        run_jobs-AllSucceeded (handlers flags config) config.jobs (lock config) chosen s clean in
      record {
        config = config;
        loaded = loaded;
        silent = cc (quiet label device chosen out.0 clean);
        all =
            subst
              (λ z. AllSucceeded (handlers flags config) config.jobs (lock config) names s out.1 z)
              same_summary
              (subst
                (λ z.
                  AllSucceeded (handlers flags config) config.jobs (lock config) z s out.1 out.0)
                same_names all);
      }

  gated-IsHonest :
      (config : Config T.Temp) (label : Text) (device : DeviceProfile T.Temp)
      (verdict : Result Verdict) (s : S)
      → load_config platform flags.config ≡ ok config
      → IsHonest s (
          gated T platform battery handlers lock flags positional args config label device verdict
            s)
  gated-IsHonest config label device (err e) s loaded = λ names summary notice h z. cc
  gated-IsHonest config label device (ok go) s loaded = run-IsHonest config label device s loaded
  gated-IsHonest config label device (ok hot) s loaded = λ names summary notice h z. cc
  gated-IsHonest config label device (ok not_charging) s loaded = λ names summary notice h z. cc
  gated-IsHonest config label device (ok battery_low) s loaded = λ names summary notice h z. cc

  profiled-IsHonest :
      (config : Config T.Temp) (profiles : Result (Dict Text (DeviceProfile T.Temp))) (s : S)
      → load_config platform flags.config ≡ ok config
      → IsHonest s
          (profiled T platform battery handlers lock flags positional args config profiles s)
  profiled-IsHonest config (err e) s loaded = λ names summary notice h z. cc
  profiled-IsHonest config (ok profiles) s loaded = gated-IsHonest config _ _ _ s loaded

  configured-IsHonest :
      (config : Result (Config T.Temp)) (s : S)
      → load_config platform flags.config ≡ config
      → IsHonest s (configured T platform battery handlers lock flags positional args config s)
  configured-IsHonest (err e) s loaded = λ names summary notice h z. cc
  configured-IsHonest (ok config) s loaded =
      elim (flags.list)
        as (λ b. IsHonest s (
          if b
          then (Outcome.listed (job_names config.jobs), s)
          else profiled T platform battery handlers lock flags positional args config
              (load_profiles platform flags.runtime) s)) [
                | true ↦ λ names summary notice h z. cc
                | false ↦ profiled-IsHonest config (load_profiles platform flags.runtime) s loaded
              ]

  main-IsHonest :
      (s : S) → IsHonest s (main T platform battery handlers lock flags positional args s)
  unfolding main
  main-IsHonest s =
      elim (flags.show_version)
        as (λ b. IsHonest s (
          if b
          then (Outcome.version, s)
          else configured T platform battery handlers lock flags positional args
              (load_config platform flags.config) s)) [
                | true ↦ λ names summary notice h z. cc
                | false ↦ configured-IsHonest (load_config platform flags.config) s refl
              ]

  -- Where `main` ends in a run of some names, and its exit status is 0, each of the names was run, in
  -- order, and succeeded, and the summary says so; and the phone is not notified.
  pub main-Clean :
      (s : S) (names : List Text) (summary : Summary) (notice : Option (Text × Error))
      → (main T platform battery handlers lock flags positional args s).0
        ≡ Outcome.ran names summary notice
      → exit_code (main T platform battery handlers lock flags positional args s).0 ≡ 0
      → Clean names s
          (main T platform battery handlers lock flags positional args s).1
          summary
          notice
  main-Clean s names summary notice h zero_exit = main-IsHonest s names summary notice h zero_exit
