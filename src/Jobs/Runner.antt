-- ===== src/Jobs/Runner.antt =====
-- internal/runner/runner.go: `Runner`, and the jobs of it as they are run on their file systems, with the
-- name of the client from internal/runner/worktree.go.
use yggsync.Prelude.{
  ℕ, Bool, false, [], map, Text, codes, Option, none, some, ◌==◌, text_eq, if◌then◌else◌,
}
use yggsync.Prelude.Results.{Result, Action}
use yggsync.Config.{Job, Config}
use yggsync.Config.Defaults.{lower}
use yggsync.Config.Runtime.{Platform}
use yggsync.Backend.{Time}
use yggsync.Filter.{match_path}
use yggsync.Ledger.{Json}
use yggsync.Worktree.State.{Env}
use yggsync.Worktree.Run.{Options, run_worktree}
use yggsync.Copying.Scan.{run_copy}
use yggsync.Copying.Retained.{run_retained_copy}
use yggsync.Jobs.{Handlers}
use yggsync.Jobs.Opening.{Backends, Opened, with_job_fs}

pub record Runner (Temp : Type 0) : Type 0 where
  pub config : Config Temp
  pub dry_run : Bool
  pub worktree_op : Text
  pub version : Text
  pub allow_mass_delete : Bool

-- `New`
unfoldable pub new_runner : {Temp : Type 0} → Config Temp → Bool → Text → Text → Runner Temp
new_runner config dry_run worktree_op version = record {
  config = config;
  dry_run = dry_run;
  worktree_op = map lower (if worktree_op == [] then codes "sync" else worktree_op);
  version = version;
  allow_mass_delete = false;
}

-- `SetAllowMassDelete`
unfoldable pub set_allow_mass_delete : {Temp : Type 0} → Bool → Runner Temp → Runner Temp
set_allow_mass_delete b r = record r { allow_mass_delete = b }

-- What the jobs use of the system: hashes, formats, the clock, the name of the host, and the packages
-- regexp and path/filepath.
pub record Machine (W : Type 0) : Type 0 where
  pub sha256_hex : Text → Text
  pub format_stamp : Time → Text
  pub rfc3339 : Time → Text
  pub decimal : ℕ → Text
  pub json : Json
  pub now : W → Time
  pub wall : W → Time
  pub hostname : Option Text
  pub compile_regexp : Text → Result (Text → Bool)
  pub glob_match : Text → Text → Bool

abbrev host_or : Option Text → Text
host_or none = codes "client"
host_or (some h) = if h == [] then codes "client" else h

-- The job's client, or else the host.
unfoldable pub client_id : Option Text → Job → Text
client_id hostname job = if job.client_id == [] then host_or hostname else job.client_id

module _ {W : Type 0} (B : Backends W) (m : Machine W) {Temp : Type 0} (platform : Platform Temp)
    (r : Runner Temp) where
  abbrev pub JobFs : Type 0
  JobFs = Opened B platform r.config m.compile_regexp

  -- `runCopy` once the job is open.
  unfoldable pub copy_body : Job → JobFs → Action W (Unit {0})
  unfolding run_copy match_path
  copy_body job o w =
      let L = B.mount o.local in
      let R = B.mount o.remote in
      let out =
        run_copy L.F R.F (match_path o.matcher) (L.get w) (job.type == codes "sync") r.dry_run
          (R.get w) in
      (out.0, R.put out.1 w)

  -- `runRetainedCopy` once the job is open.
  unfoldable pub retained_body : Job → JobFs → Action W (Unit {0})
  unfolding run_retained_copy match_path
  retained_body job o w =
      let L = B.mount o.local in
      let R = B.mount o.remote in
      let out =
        run_retained_copy L.F R.F m.glob_match (match_path o.matcher) job (m.now w) r.dry_run
          (L.get w, R.get w) in
      (out.0, R.put out.1.1 (L.put out.1.0 w))

  abbrev env_of : JobFs → Env
  env_of o = record {
    local = (B.mount o.local).F;
    remote = (B.mount o.remote).F;
    sha256_hex = m.sha256_hex;
    format_stamp = m.format_stamp;
  }

  abbrev options_of : Job → W → Options
  options_of job w = record {
    job_name = job.name;
    client_id = client_id m.hostname job;
    now = m.now w;
    wall = m.wall w;
    dry_run = r.dry_run;
    no_merge = job.no_merge;
    allow_mass_delete = r.allow_mass_delete;
  }

  -- `runWorktree` once the job is open.
  unfoldable pub worktree_body : Job → JobFs → Action W (Unit {0})
  unfolding run_worktree match_path client_id
  worktree_body job o w =
      let L = B.mount o.local in
      let R = B.mount o.remote in
      let out =
        run_worktree (env_of o) m.json m.decimal m.rfc3339 (match_path o.matcher) (options_of job w)
          (record { local = L.get w; remote = R.get w }) in
      (out.0, R.put out.1.remote (L.put out.1.local w))

  -- The jobs of the runner.
  unfoldable pub runner_handlers : Handlers W
  unfolding with_job_fs worktree_body copy_body retained_body
  runner_handlers = record {
    worktree = λ job. with_job_fs B platform r.config m.compile_regexp (worktree_body job) job;
    copy = λ job. with_job_fs B platform r.config m.compile_regexp (copy_body job) job;
    retained_copy = λ job. with_job_fs B platform r.config m.compile_regexp (retained_body job) job;
  }
