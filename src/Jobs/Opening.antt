-- ===== src/Jobs/Opening.antt =====
-- internal/runner/runner.go: `openJobFS` and the deferred calls of `Close`. What opens and closes a file
-- system, internal/backend/backend.go, is a parameter here.
use yggsync.Prelude.{Bool, Text}
use yggsync.Prelude.Results.{Result, ok, err, Action, ◌>>=◌, resume}
use yggsync.Config.{Job, Config}
use yggsync.Config.Runtime.{Platform, expand_path}
use yggsync.Backend.{Fs}
use yggsync.Backend.Paths.{Location, open_location}
use yggsync.Filter.{Matcher, new}

-- A file system as a part of the world.
pub record Mount (W : Type 0) : Type 1 where
  pub F : Fs
  pub get : W → F.State
  pub put : F.State → W → W

-- `connect` is what `Open` does at a location, and `close` is `Close`.
pub record Backends (W : Type 0) : Type 1 where
  pub Handle : Type 0
  pub connect : Location → Action W Handle
  pub close : Handle → Action W (Unit {0})
  pub mount : Handle → Mount W

module _ {W : Type 0} (B : Backends W) {Temp : Type 0} (platform : Platform Temp)
    (config : Config Temp) (compile_regexp : Text → Result (Text → Bool)) where
  -- The file systems of a job and its filter.
  pub record Opened : Type 0 where
    pub local : B.Handle
    pub remote : B.Handle
    pub matcher : Matcher

  -- `backend.Open`
  unfoldable pub open_fs : Text → Action W B.Handle
  unfolding open_location
  open_fs path w = resume (open_location platform config path, w) B.connect

  -- `Close` after the rest, whatever either gives.
  abbrev pub closing : {A : Type 0} → B.Handle → Result A × W → Result A × W
  closing h (out, w) = (out, (B.close h w).1)

  -- A file system that is open is closed again where the rest fails.
  abbrev pub closing_failed : {A : Type 0} → B.Handle → Result A × W → Result A × W
  closing_failed h (ok a, w) = (ok a, w)
  closing_failed h (err e, w) = closing h (err e, w)

  abbrev pub opened_with : B.Handle → B.Handle → Result Matcher → Result Opened
  opened_with local remote (err e) = err e
  opened_with local remote (ok m) = ok (record { local = local; remote = remote; matcher = m })

  unfoldable pub open_job_fs : Job → Action W Opened
  unfolding open_fs expand_path new
  open_job_fs job = open_fs (expand_path platform job.local) >>= (λ local w. closing_failed local (
      resume (open_fs job.remote w) (λ remote w2.
        closing_failed remote (opened_with local remote (new compile_regexp job), w2))))

  -- A job on its file systems, which are closed however it ends.
  unfoldable pub with_job_fs : (Opened → Action W (Unit {0})) → Job → Action W (Unit {0})
  unfolding open_job_fs
  with_job_fs body job = open_job_fs job >>= (λ o w. closing o.local (closing o.remote (body o w)))
