-- ===== src/Jobs/Balance.antt =====
-- internal/runner/runner.go and worktree.go: what a run has opened, it has closed when it ends.
use yggsync.Prelude.{
  ℕ, ◌+◌, ◌≡◌, refl, subst, Bool-cases, inl, inr, ◌∙◌, Bool, List, [], ◌∷◌, Text, codes, ◌||◌, ◌==◌,
  text_eq, arith, none, some,
}
use yggsync.Prelude.Results.{Result, ok, err, Action, resume}
use yggsync.Config.{Job, Config, find_job}
use yggsync.Config.Runtime.{Platform, expand_path}
use yggsync.Backend.Paths.{Location, open_location}
use yggsync.Filter.{Matcher, new}
use yggsync.Jobs.{
  Handlers, ProcessLock, Summary, under_lock, dispatch, run_found, run_job, run_names, run_jobs,
}
use yggsync.Jobs.Opening.{
  Backends, Opened, open_fs, open_job_fs, with_job_fs, opened_with, closing, closing_failed,
}
use yggsync.Jobs.Runner.{Runner, Machine, copy_body, retained_body, worktree_body, runner_handlers}

-- What is open after an action that found `n` open, and opens some more if it succeeds.
abbrev pub Opens : {W A : Type 0} → (W → ℕ) → ℕ → ℕ → Result A × W → Type 0
Opens count n more (ok _, w) = count w ≡ n + more
Opens count n more (err _, w) = count w ≡ n

-- A count of the file systems that are open: connecting adds one if it succeeds, closing takes one off,
-- and their use keeps it.
pub record IsCounted {W : Type 0} (B : Backends W) (count : W → ℕ) : Type 0 where
  pub connected : (at : Location) (w : W) → Opens count (count w) 1 (B.connect at w)
  pub released : (h : B.Handle) (w : W) (n : ℕ) → count w ≡ n + 1 → count (B.close h w).1 ≡ n
  pub kept :
      (h : B.Handle) (w : W) (s : (B.mount h).F.State) → count ((B.mount h).put s w) ≡ count w

module _ {W : Type 0} (B : Backends W) (count : W → ℕ) (law : IsCounted B count) {Temp : Type 0}
    (platform : Platform Temp) (config : Config Temp)
    (compile_regexp : Text → Result (Text → Bool)) where
  abbrev JobOpened : Type 0
  JobOpened = Opened B platform config compile_regexp

  open_fs-Opens :
      (path : Text) (w : W)
      → Opens count (count w) 1 (open_fs B platform config compile_regexp path w)
  unfolding open_fs
  open_fs-Opens path w =
      elim (open_location platform config path)
        as (λ l. Opens count (count w) 1 (resume (l, w) B.connect)) [
          | err e ↦ refl
          | ok at ↦ law.connected at w
        ]

  closing_failed-Opens :
      {A : Type 0} (h : B.Handle) (n : ℕ) (out : Result A × W)
      → Opens count (n + 1) 1 out
      → Opens count n 2 (closing_failed B platform config compile_regexp h out)
  closing_failed-Opens h n (ok a, w) k = omega arith
  closing_failed-Opens h n (err e, w) k = law.released h w n k

  matched-Opens :
      (local remote : B.Handle) (n : ℕ) (w : W) (m : Result Matcher)
      → count w ≡ n + 2
      → Opens count (n + 1) 1 (
          closing_failed B platform config compile_regexp remote
            (opened_with B platform config compile_regexp local remote m, w))
  matched-Opens local remote n w (ok m) k = omega arith
  matched-Opens local remote n w (err e) k = law.released remote w (n + 1) (omega arith)

  -- The remote file system, after the local one.
  second-Opens :
      (local : B.Handle) (m : Result Matcher) (n : ℕ) (out : Result B.Handle × W)
      → Opens count (n + 1) 1 out
      → Opens count (n + 1) 1 (
          resume out (λ remote w2.
            closing_failed B platform config compile_regexp remote
              (opened_with B platform config compile_regexp local remote m, w2)))
  second-Opens local m n (ok remote, w) k = matched-Opens local remote n w m (omega arith)
  second-Opens local m n (err e, w) k = k

  first-Opens :
      (job : Job) (n : ℕ) (out : Result B.Handle × W)
      → Opens count n 1 out
      → Opens count n 2 (
          resume out (λ local v. closing_failed B platform config compile_regexp local (
            resume (open_fs B platform config compile_regexp job.remote v) (λ remote w2.
              closing_failed B platform config compile_regexp remote (
                opened_with B platform config compile_regexp local remote (new compile_regexp job),
                w2,
              )))))
  first-Opens job n (ok local, v) k = closing_failed-Opens local n _ (
      second-Opens local (new compile_regexp job) n _ (
        subst (λ c. Opens count c 1 (open_fs B platform config compile_regexp job.remote v)) k
          (open_fs-Opens job.remote v)))
  first-Opens job n (err e, v) k = k

  open_job_fs-Opens :
      (job : Job) (w : W)
      → Opens count (count w) 2 (open_job_fs B platform config compile_regexp job w)
  unfolding open_job_fs
  open_job_fs-Opens job w =
      first-Opens job (count w) _ (open_fs-Opens (expand_path platform job.local) w)

  closed-count :
      (body : JobOpened → Action W (Unit {0})) (n : ℕ) (out : Result JobOpened × W)
      → ((o : JobOpened) (v : W) → count (body o v).1 ≡ count v)
      → Opens count n 2 out
      → count
          (resume out (λ o v.
            closing B platform config compile_regexp o.local
              (closing B platform config compile_regexp o.remote (body o v)))).1
        ≡ n
  closed-count body n (err e, v) keeps k = k
  closed-count body n (ok o, v) keeps k =
      let after = (body o v).1 in
      law.released o.local (B.close o.remote after).1 n
        (law.released o.remote after (n + 1) (keeps o v ∙ omega (arith, k)))

  pub with_job_fs-count :
      (body : JobOpened → Action W (Unit {0})) (job : Job) (w : W)
      → ((o : JobOpened) (v : W) → count (body o v).1 ≡ count v)
      → count (with_job_fs B platform config compile_regexp body job w).1 ≡ count w
  unfolding with_job_fs
  with_job_fs-count body job w keeps = closed-count body (count w) _ keeps (open_job_fs-Opens job w)

module _ {W : Type 0} (B : Backends W) (count : W → ℕ) (law : IsCounted B count) (m : Machine W)
    {Temp : Type 0} (platform : Platform Temp) (r : Runner Temp) where
  abbrev handlers : Handlers W
  handlers = runner_handlers B m platform r

  copy-count : (job : Job) (w : W) → count (handlers.copy job w).1 ≡ count w
  unfolding runner_handlers copy_body
  copy-count job w =
      with_job_fs-count B count law platform r.config m.compile_regexp
        (copy_body B m platform r job) job w (λ o v. law.kept o.remote v _)

  retained_copy-count : (job : Job) (w : W) → count (handlers.retained_copy job w).1 ≡ count w
  unfolding runner_handlers retained_body
  retained_copy-count job w =
      with_job_fs-count B count law platform r.config m.compile_regexp
        (retained_body B m platform r job) job w
        (λ o v. law.kept o.remote _ _ ∙ law.kept o.local v _)

  worktree-count : (job : Job) (w : W) → count (handlers.worktree job w).1 ≡ count w
  unfolding runner_handlers worktree_body
  worktree-count job w =
      with_job_fs-count B count law platform r.config m.compile_regexp
        (worktree_body B m platform r job) job w
        (λ o v. law.kept o.remote _ _ ∙ law.kept o.local v _)

  dispatch-count : (job : Job) (w : W) → count (dispatch handlers r.config.jobs job w).1 ≡ count w
  unfolding dispatch
  dispatch-count job w = elim (Bool-cases (job.type == codes "worktree")) [
    | inl h ↦ rw h (worktree-count job w)
    | inr h ↦ elim (Bool-cases ((job.type == codes "copy") || (job.type == codes "sync"))) [
      | inl k ↦ rw (h, k) (copy-count job w)
      | inr k ↦ elim (Bool-cases (job.type == codes "retained_copy")) [
        | inl l ↦ rw (h, k, l) (retained_copy-count job w)
        | inr l ↦ rw (h, k, l) refl
      ]
    ]
  ]

  run_job-count : (name : Text) (w : W) → count (run_job handlers r.config.jobs name w).1 ≡ count w
  unfolding run_job
  run_job-count name w =
      elim (find_job name r.config.jobs)
        as (λ j. count (run_found handlers r.config.jobs j w).1 ≡ count w) [
          | none ↦ refl
          | some job ↦ dispatch-count job w
        ]

  run_names-count :
      (names : List Text) (summary : Summary) (w : W)
      → count (run_names handlers r.config.jobs summary names w).1 ≡ count w
  unfolding run_names
  run_names-count [] summary w = refl
  run_names-count (name ∷ names) summary w =
      run_names-count names _ (run_job handlers r.config.jobs name w).1 ∙ run_job-count name w

  -- A run of the runner, under a lock of the process that opens no file system.
  pub record KeepsCount (lock : ProcessLock W) : Type 0 where
    pub taking : (w : W) → count (lock.acquire w).1 ≡ count w
    pub giving : (held : lock.Held) (w : W) → count (lock.release held w).1 ≡ count w

  under_lock-count :
      (lock : ProcessLock W) (names : List Text) (got : Result lock.Held × W)
      → KeepsCount lock
      → count (under_lock handlers r.config.jobs lock names got).1 ≡ count got.1
  under_lock-count lock names (err e, w) keeps = refl
  under_lock-count lock names (ok held, w) keeps = keeps.giving held _ ∙ run_names-count names _ w

  -- However the jobs of a run of the runner end, whether or not their file systems can be opened, the
  -- run closes as many as it has opened, where the lock of the process opens and closes none.
  pub run_jobs-count :
      (lock : ProcessLock W) (names : List Text) (w : W)
      → KeepsCount lock
      → count (run_jobs handlers r.config.jobs lock names w).1 ≡ count w
  unfolding run_jobs
  run_jobs-count lock names w keeps =
      under_lock-count lock names (lock.acquire w) keeps ∙ keeps.taking w
