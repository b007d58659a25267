-- ===== src/Jobs/Lock.antt =====
-- internal/runner/runner.go: `acquireLock`, the lock of the process. Packages os and syscall are a
-- parameter.
use yggsync.Prelude.{◌++◌, Text, codes}
use yggsync.Prelude.Results.{
  Error, locked, failed, Result, ok, err, Done, done, Action, ◌>>=◌, ◌>>◌, ignore,
}
use yggsync.Jobs.{ProcessLock}

-- The calls on a lock's file: `open` gives a descriptor, `flock` asks for an exclusive lock without
-- waiting, where `EWOULDBLOCK` is `locked`.
pub record LockCalls (S : Type 0) : Type 1 where
  pub Descriptor : Type 0
  pub dir : Text → Text
  pub mkdir_all : Text → Action S (Unit {0})
  pub open_file : Text → Action S Descriptor
  pub flock : Descriptor → Action S (Unit {0})
  pub truncate : Descriptor → Action S (Unit {0})
  pub write : Descriptor → Text → Action S (Unit {0})
  pub unlock : Descriptor → Action S (Unit {0})
  pub close : Descriptor → Action S (Unit {0})

-- `process_id` is `fmt.Sprintf("%d\n", os.Getpid())`.
module _ {S : Type 0} (calls : LockCalls S) (process_id path : Text) where
  abbrev refusal : Error → Error
  refusal locked = failed (codes "another yggsync run is already active (" ++ path ++ codes ")")
  refusal e = e

  -- The file has the process's number, where it can be written.
  unfoldable sign : calls.Descriptor → Action S (Unit {0})
  sign fd = ignore (calls.truncate fd >>= (λ _. calls.write fd process_id))

  abbrev after_flock : calls.Descriptor → Done × S → Result calls.Descriptor × S
  after_flock fd (err e, s) = (err (refusal e), (calls.close fd s).1)
  after_flock fd (ok _, s) = (ok fd, (sign fd s).1)

  unfoldable pub acquire_lock : Action S calls.Descriptor
  unfolding sign
  acquire_lock = do
    calls.mkdir_all (calls.dir path)
    fd ← calls.open_file path
    λ s. after_flock fd (calls.flock fd s)

  -- The function that `acquireLock` returns.
  unfoldable pub release_lock : calls.Descriptor → Action S (Unit {0})
  release_lock fd s = (done, (calls.close fd (calls.unlock fd s).1).1)

  unfoldable pub process_lock : ProcessLock S
  unfolding acquire_lock release_lock
  process_lock = record { Held = calls.Descriptor; acquire = acquire_lock; release = release_lock }
