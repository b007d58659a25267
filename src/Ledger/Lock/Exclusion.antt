-- ===== src/Ledger/Lock/Exclusion.antt =====
-- internal/ledger/ledger.go, `AcquireLock`: the lock excludes other clients until it is stale.
use yggsync.Prelude.{
  ℕ, ◌+◌, ◌≤◌, ◌≡◌, ◌≢◌, refl, sym, ap, ◌∙◌, true, Text, some, text_eq, ==_of_eq, ==_of_ne, arith,
  inl, inr,
}
use yggsync.Prelude.Int.{pos, ltb_ℤ}
use yggsync.Prelude.Results.{locked, ok, err, done, resume-ok, branch}
use yggsync.Backend.{Time, Fs, IsLawful, unix}
use yggsync.Ledger.{Json}
use yggsync.Ledger.Paths.{join, lock_file}
use yggsync.Ledger.Lock.{age, lock_info, parsed, read_lock, is_held, acquire_lock}

-- The age of a lock exceeds the time since it was taken by less than a second.
age-fresh :
    (now later : Time) (stale_after : ℕ)
    → later + 1000000000 ≤ now + stale_after
    → ltb_ℤ (age later (unix now)) (pos stale_after) ≡ true
unfolding age unix
age-fresh now later stale_after h = ground arith

module _ (F : Fs) (json : Json) (law : IsLawful F) (dir client : Text) (now : Time)
    (round_trips : json.unmarshal_lock (json.marshal_lock (lock_info client now))
      ≡ some (lock_info client now)) where
  read_lock-acquired :
      (stale_after : ℕ) (s s' : F.State)
      → acquire_lock F json dir client now stale_after s ≡ (done, s')
      → read_lock F json s' (join dir lock_file) ≡ ok (lock_info client now)
  unfolding acquire_lock read_lock
  read_lock-acquired stale_after s s' h =
      let (_, s1, h1, h2) = resume-ok (F.mkdir_all dir 0o755 s) _ h in
      elim (branch
        (is_held F json client now stale_after (read_lock F json s1 (join dir lock_file))) _ _ s1
        h2) [
          | inl (_, h3) ↦ cc
          | inr (_, h3) ↦ rw (
            law.read-write_file (join dir lock_file) _ _ now s1 s' h3 (join dir lock_file),
            ==_of_eq (join dir lock_file) (join dir lock_file) refl,
            parsed,
            round_trips,
          )
        ]

  -- Once a client has the lock, another that asks for it up to a second before it is stale, and can
  -- make the ledger's directory, is refused, and the lock is still the first one's, where the lock's
  -- JSON reads back.
  pub acquire_lock-excludes :
      (other : Text) (later : Time) (stale_after : ℕ) (s s' s'' : F.State)
      → acquire_lock F json dir client now stale_after s ≡ (done, s')
      → other ≢ client
      → later + 1000000000 ≤ now + stale_after
      → F.mkdir_all dir 0o755 s' ≡ (done, s'')
      → (acquire_lock F json dir other later stale_after s' ≡ (err locked, s''))
        × (read_lock F json s'' (join dir lock_file) ≡ ok (lock_info client now))
  unfolding acquire_lock read_lock
  acquire_lock-excludes other later stale_after s s' s'' h differs fresh made =
      let held = read_lock-acquired stale_after s s' h in
      let same : F.read s'' (join dir lock_file) ≡ F.read s' (join dir lock_file) =
        ap (λ z. F.read z.1 (join dir lock_file)) (sym made)
        ∙ law.read-mkdir_all dir 0o755 s' (join dir lock_file) in
      let held2 : read_lock F json s'' (join dir lock_file) ≡ ok (lock_info client now) =
        rw (same) held in
      (
        rw (
          made,
          held2,
          ==_of_ne client other (λ e. differs (sym e)),
          age-fresh now later stale_after fresh,
        ),
        held2,
      )
