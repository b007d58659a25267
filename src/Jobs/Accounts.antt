-- ===== src/Jobs/Accounts.antt =====
-- internal/runner/runner.go, `RunJobs`: every job is run, in order, and accounted for.
use yggsync.Prelude.{
  ◌≡◌, refl, ap, sym, ◌∙◌, List, [], ◌∷◌, ◌++◌, Text, codes, Option, some, append-nil, append_assoc,
  text_dec, ◌==◌, text_eq, if◌then◌else◌,
}
use yggsync.Prelude.Dict.{lookup, insert, lookup-insert}
use yggsync.Prelude.Results.{Error, Result, ok, err, Done}
use yggsync.Config.{Job}
use yggsync.Jobs.{
  Handlers, Summary, run_job, noted, run_names, nothing_run, ProcessLock, under_lock, run_jobs,
}

-- The runs of the jobs, each on what the last one left: the name, and how it ended.
pub data Runs {S : Type 0} (handlers : Handlers S) (jobs : List Job)
    : List Text → S → List (Text × Done) → S → Type 0 where
  finished : {s : S} → Runs handlers jobs [] s [] s
  ran :
      {name : Text} {names : List Text} {s t : S} {log : List (Text × Done)}
      → Runs handlers jobs names (run_job handlers jobs name s).1 log t
      → Runs handlers jobs (name ∷ names) s ((name, (run_job handlers jobs name s).0) ∷ log) t

-- The names whose runs ended well.
abbrev pub successes : List (Text × Done) → List Text
successes [] = []
successes ((name, ok _) ∷ log) = name ∷ successes log
successes ((name, err _) ∷ log) = successes log

-- The last error of a name.
abbrev pub last_error : Text → Option Error → List (Text × Done) → Option Error
last_error name e [] = e
last_error name e ((other, ok _) ∷ log) = last_error name e log
last_error name e ((other, err f) ∷ log) = last_error name (if name == other then some f else e) log

-- What the summary has to say after some runs, given what it said before.
pub record Accounts (before after : Summary) (log : List (Text × Done)) : Type 0 where
  pub well : after.succeeded ≡ before.succeeded ++ successes log
  pub badly :
      (name : Text) → lookup name after.failures ≡ last_error name (lookup name before.failures) log

module _ {S : Type 0} (handlers : Handlers S) (jobs : List Job) where
  abbrev pub Accounted : Summary → List Text → S → Summary × S → Type 0
  Accounted summary names s out =
      (log : List (Text × Done)) × Runs handlers jobs names s log out.1 × Accounts summary out.0 log

  noted-Accounts :
      (name : Text) (out : Done) (before after : Summary) (log : List (Text × Done))
      → Accounts (noted handlers jobs before name out) after log
      → Accounts before after ((name, out) ∷ log)
  noted-Accounts name (ok _) before after log told = record {
    well = told.well ∙ append_assoc before.succeeded (name ∷ []) (successes log);
    badly = told.badly;
  }
  noted-Accounts name (err f) before after log told = record {
    well = told.well;
    badly = λ other.
        told.badly other
        ∙ ap (λ z. last_error other z log) (lookup-insert other name f before.failures);
  }

  run_names-Accounts :
      (names : List Text) (summary : Summary) (s : S)
      → Accounted summary names s (run_names handlers jobs summary names s)
  unfolding run_names
  run_names-Accounts [] summary s =
      ([], finished, record { well = sym (append-nil _); badly = λ name. refl })
  run_names-Accounts (name ∷ names) summary s =
      let out = run_job handlers jobs name s in
      let (log, runs, told) =
        run_names-Accounts names (noted handlers jobs summary name out.0) out.1 in
      ((name, out.0) ∷ log, ran runs, noted-Accounts name out.0 summary _ log told)

  -- What a run comes to, by what the process got of its lock: with the lock, in a state `s`, the jobs
  -- are run from there and accounted for, and then the lock is released; without it nothing is run.
  pub data Attempt (lock : ProcessLock S) (names : List Text)
      : Result lock.Held × S → Summary × S → Type 0 where
    attempted :
        {held : lock.Held} {s t : S} {summary : Summary}
        → Accounted (nothing_run handlers jobs) names s (summary, t)
        → Attempt lock names (ok held, s) (summary, (lock.release held t).1)
    bounced :
        {e : Error} {s : S} {summary : Summary}
        → summary.succeeded ≡ []
        → lookup (codes "_lock") summary.failures ≡ some e
        → Attempt lock names (err e, s) (summary, s)

  under_lock-Attempt :
      (lock : ProcessLock S) (names : List Text) (got : Result lock.Held × S)
      → Attempt lock names got (under_lock handlers jobs lock names got)
  unfolding lookup text_dec insert
  under_lock-Attempt lock names (ok held, s) = attempted (run_names-Accounts names _ s)
  under_lock-Attempt lock names (err e, s) = bounced refl refl

  -- Where the process gets its lock, each job is run once in the order of the names, on what the last
  -- one left, whether or not others fail, and then the lock is released; the summary has the successes
  -- in order and each name's last error. Without the lock nothing is run, and the summary says so.
  pub run_jobs-Attempt :
      (lock : ProcessLock S) (names : List Text) (s : S)
      → Attempt lock names (lock.acquire s) (run_jobs handlers jobs lock names s)
  unfolding run_jobs
  run_jobs-Attempt lock names s = under_lock-Attempt lock names (lock.acquire s)
