-- ===== src/Ledger/Lock.antt =====
-- internal/ledger/ledger.go: the lock of the hub, `AcquireLock` and `readLock`.
pub mod Exclusion
use yggsync.Prelude.{
  ℕ, ◌+◌, ◌*◌, Bool, true, false, not, ◌&&◌, Text, codes, Option, none, some, ◌==◌, text_eq,
  if◌then◌else◌,
}
use yggsync.Prelude.Int.{ℤ, pos, pos_part, neg_part, sub_ℕ, ◌-ℤ◌, ltb_ℤ}
use yggsync.Prelude.Results.{
  Error, locked, failed, Result, ok, err, Done, done, Action, ◌>>=◌, ◌>>◌, ignore, then_result,
  fail,
}
use yggsync.Backend.{Time, Fs, unix}
use yggsync.Ledger.{Json, LockInfo}
use yggsync.Ledger.Paths.{join, lock_file}

-- `now.Sub(time.Unix(at, 0))`
unfoldable pub age : Time → ℤ → ℤ
age now at = pos now -ℤ sub_ℕ ((pos_part at + 62135596800) * 1000000000) (neg_part at * 1000000000)

abbrev pub lock_info : Text → Time → LockInfo
lock_info client now = record { client = client; at = unix now }

module _ (F : Fs) (json : Json) where
  abbrev pub parsed : Text → Result LockInfo
  parsed raw = elim (json.unmarshal_lock raw) [
    | none ↦ err (failed (codes "invalid JSON"))
    | some i ↦ ok i
  ]

  unfoldable pub read_lock : F.State → Text → Result LockInfo
  read_lock s rel = then_result (F.read s rel) parsed

  -- Another client holds the lock, and has not held it too long.
  abbrev pub is_held : Text → Time → ℕ → Result LockInfo → Bool
  is_held client now stale_after (err _) = false
  is_held client now stale_after (ok cur) =
      not (cur.client == client) && ltb_ℤ (age now cur.at) (pos stale_after)

  unfoldable pub acquire_lock : Text → Text → Time → ℕ → Action F.State (Unit {0})
  unfolding read_lock age unix
  acquire_lock dir client now stale_after = do
    F.mkdir_all dir 0o755
    λ s.
        (if is_held client now stale_after (read_lock s (join dir lock_file))
            then fail locked
            else F.write_file (join dir lock_file) (json.marshal_lock (lock_info client now)) 0o644
                now)
          s

  -- What `AcquireLock` returns.
  unfoldable pub release : Text → Action F.State (Unit {0})
  release dir = ignore (F.remove (join dir lock_file))
