-- ===== src/Config/Defaults.antt =====
-- internal/config/config.go: `fillDefaults`, for ASCII types of targets and jobs.
pub mod Validity
use Prim.Native.String.{String}
use yggsync.Prelude.{
  ℕ, ◌+◌, ◌-◌, Bool, true, false, not, ◌&&◌, ◌||◌, List, [], ◌∷◌, ◌++◌, Text, Option, none, some,
}
use yggsync.Prelude.{◌==◌, text_eq, nat_eq, if◌then◌else◌, ltb, leb, codes, map}
use yggsync.Prelude.Int.{ℤ, pos, negsuc, ltb_ℤ, int_eq}
use yggsync.Prelude.Strings.{trim_space}
use yggsync.Prelude.Sorting.{member}
use yggsync.Prelude.Results.{Error, failed, Result, ok, err, then_result}
use yggsync.Config.{Target, Job, Config}

abbrev pub lower : ℕ → ℕ
lower c = if leb 65 c && leb c 90 then c + 32 else c

-- `strings.ToLower(strings.TrimSpace(t))`
unfoldable pub tidy : Text → Text
unfolding trim_space
tidy t = map lower (trim_space t)

-- The default for an empty string.
abbrev pub text_or : Text → Text → Text
text_or t d = if t == [] then d else t

abbrev fault : {A : Type 0} → String → Text → Result A
fault message name = err (failed (codes message ++ name))

unfoldable pub tidy_target : Target → Target
unfolding tidy
tidy_target t = record t { type = text_or (tidy t.type) (codes "smb") }

unfoldable pub check_target : Target → Result Target
check_target t =
    if t.type == codes "smb"
    then if t.host == []
      then fault "missing host: " t.name
      else if t.share == []
      then fault "missing share: " t.name
      else ok (if t.port == pos 0 then record t { port = pos 445 } else t)
    else if t.type == codes "local"
    then if t.path == [] then fault "missing path: " t.name else ok t
    else fault "unsupported type: " t.name

-- The body of the loop over the targets, after the names that it has seen.
unfoldable pub target_step : List Text → Target → Result Target
unfolding check_target tidy_target member
target_step seen t =
    if t.name == []
    then fault "target missing name" []
    else if member t.name seen
    then fault "duplicate target name: " t.name
    else check_target (tidy_target t)

-- A bisync job is a worktree job.
abbrev job_type : Text → Text
job_type t = if t == codes "bisync" then codes "worktree" else t

unfoldable pub tidy_job : Job → Job
unfolding tidy
tidy_job j = record j {
  type = job_type (tidy j.type);
  direction = text_or j.direction (codes "push");
}

abbrev some_of : List Text → Bool
some_of [] = false
some_of (_ ∷ _) = true

abbrev pub mixes_filters : Job → Bool
mixes_filters j = some_of j.filter_rules && (some_of j.include || some_of j.exclude)

unfoldable pub is_supported : Text → Bool
is_supported t =
    t == codes "worktree"
    || (t == codes "copy" || (t == codes "sync" || t == codes "retained_copy"))

unfoldable pub check_job : Job → Result Job
unfolding is_supported
check_job j =
    if ltb_ℤ j.timeout_seconds (pos 0)
    then fault "invalid timeout_seconds: " j.name
    else if j.local == []
    then fault "missing local path: " j.name
    else if j.remote == []
    then fault "missing remote path: " j.name
    else if mixes_filters j
    then fault "mixes filter_rules with include/exclude: " j.name
    else if not (is_supported j.type)
    then fault "unsupported type: " j.name
    else ok j

unfoldable pub job_step : List Text → Job → Result Job
unfolding check_job tidy_job member
job_step seen j =
    if j.name == []
    then fault "job missing name" []
    else if member j.name seen
    then fault "duplicate job name: " j.name
    else check_job (tidy_job j)

unfoldable pub fill_targets : List Text → List Target → Result (List Target)
unfolding target_step
fill_targets seen [] = ok []
fill_targets seen (t ∷ ts) =
    then_result (target_step seen t)
      (λ u. then_result (fill_targets (t.name ∷ seen) ts) (λ us. ok (u ∷ us)))

unfoldable pub fill_jobs : List Text → List Job → Result (List Job)
unfolding job_step
fill_jobs seen [] = ok []
fill_jobs seen (j ∷ js) =
    then_result (job_step seen j)
      (λ k. then_result (fill_jobs (j.name ∷ seen) js) (λ ks. ok (k ∷ ks)))

-- `fillDefaults`; its caller drops a configuration that has an error.
unfoldable pub fill_defaults : {Temp : Type 0} → Config Temp → Result (Config Temp)
unfolding fill_targets fill_jobs
fill_defaults c = then_result (fill_targets [] c.targets) (λ ts.
    then_result (fill_jobs [] c.jobs) (λ js. ok (record c {
      lock_file = text_or c.lock_file (codes "~/.local/state/yggsync.lock");
      worktree_state_dir = text_or c.worktree_state_dir (codes "~/.local/state/yggsync/worktrees");
      targets = ts;
      jobs = js;
    })))
