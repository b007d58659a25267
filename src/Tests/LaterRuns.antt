-- ===== src/Tests/LaterRuns.antt =====
-- Later runs of internal/runner/worktree.go, and runs beside other files, and the theorems there.
use yggsync.Prelude.{
  ◌≡◌, ◌≢◌, refl, sym, subst, Bool, true, [], ◌∷◌, Text, codes, text_dec, text_eq, ◌==◌, inl, inr,
  arith, Bool-cases, eq_of_==, ℕ_discrete,
}
use yggsync.Prelude.Int.{ℤ_discrete}
use yggsync.Prelude.Dict.{lookup, insert, erase, keys}
use yggsync.Prelude.Strings.{has_prefix}
use yggsync.Prelude.Sorting.{member, sort, leb_text}
use yggsync.Prelude.Results.{ok, for_each}
use yggsync.Backend.Memory.{File, memory-IsLawful}
use yggsync.Backend.Paths.{slashed}
use yggsync.Ledger.{Ledger, empty}
use yggsync.Ledger.Blobs.{put_blob}
use yggsync.Ledger.Collection.{gc_blobs}
use yggsync.Ledger.Lock.{acquire_lock, read_lock, release}
use yggsync.Ledger.Paths.{blob_path, join, dir_name, lock_file}
use yggsync.Ledger.Storage.{save, load, read_ledger, stamped}
use yggsync.Worktree.State.{World, hash_of, entry_hash}
use yggsync.Worktree.Operations.{copy_to_remote}
use yggsync.Worktree.Decide.{decide, settle, sidecar}
use yggsync.Worktree.Decide.Readiness.{found, present}
use yggsync.Worktree.Decide.Rest.{IsScanned}
use yggsync.Worktree.Run.Rest.{run_paths-rests}
use yggsync.Worktree.Run.LedgerFiles.{IsClear}
use yggsync.Worktree.Run.Elsewhere.{IsUnlisted, run_worktree-spares}
use yggsync.Worktree.Run.Settled.{IsOutside}
use yggsync.Worktree.Run.Interrupted.{OldOrSaved, end_of_loop, run_worktree-OldOrSaved}
use yggsync.Worktree.Plan.{planned_remote_deletes, mass_delete}
use yggsync.Worktree.Reconcile.{reconcile}
use yggsync.Worktree.Run.{
  Replicas, setup, advanced, finish, conclude, run_paths, run_worktree, union_paths, distinct,
  gather, scan_worktree, scan_entries, scan_entry, is_internal, conflicts_report,
}
use yggsync.Worktree.Run.Settled.{Settled}
use yggsync.Tests.Samples.{env, note, state, no_files, one, one_file}
use yggsync.Tests.Runs.{opts, no_text, everything, json, after, reached, first, held, run}

-- The run after it, and the ledger that it loads.
abbrev saved : Ledger
saved = stamped (advanced env json no_text no_text everything opts empty reached)

abbrev next : World env
next = record {
  local = after.local;
  remote = after.remote;
  files = saved.files;
  tombs = saved.tombstones;
  conflicts = [];
}

it_loads : load env.remote json dir_name after.remote ≡ ok saved
unfolding run_worktree run_paths union_paths distinct sort leb_text member keys
    planned_remote_deletes mass_delete reconcile finish conclude save gc_blobs for_each decide
    lookup insert erase text_dec ℕ_discrete ℤ_discrete copy_to_remote settle hash_of entry_hash
    put_blob blob_path join stamped acquire_lock read_lock release gather load read_ledger
    scan_worktree scan_entries scan_entry is_internal has_prefix slashed
it_loads = refl

-- What the second run finds at a path.
abbrev Found : Text → Type 0
Found q =
    Settled env json memory-IsLawful q after
    × IsScanned env
        (setup env json no_text no_text everything opts saved (one_file (codes "x"))
          (one_file (codes "x")))
        q next

after_in_step : Found note
unfolding run_worktree run_paths union_paths distinct sort leb_text member keys
    planned_remote_deletes mass_delete reconcile finish conclude save gc_blobs for_each decide
    lookup insert erase text_dec ℕ_discrete ℤ_discrete copy_to_remote settle hash_of entry_hash
    put_blob blob_path join stamped acquire_lock read_lock release gather load read_ledger
    scan_worktree scan_entries scan_entry is_internal has_prefix slashed
after_in_step = (
  record { ledger = saved; loaded = it_loads; in_step = present (codes "x") refl refl refl },
  record {
    local = found (codes "x") (state (codes "x")) refl refl;
    remote = found (codes "x") (state (codes "x")) refl refl;
    hashes = λ c e. cc;
  },
)

listed-Found : (q : Text) → member q (note ∷ []) ≡ true → Found q
unfolding member
listed-Found q h = elim (Bool-cases (q == note)) [
  | inl e ↦ subst Found (sym (eq_of_== q note e)) after_in_step
  | inr e ↦ ground (arith, e)
]

same_paths :
    union_paths saved.files saved.tombstones
      (one_file (codes "x")).files
      (one_file (codes "x")).files
    ≡ note ∷ []
unfolding union_paths distinct sort leb_text member keys text_dec ℕ_discrete stamped insert
    ℤ_discrete decide put_blob join blob_path
same_paths = refl

run_paths-rests_example :
    run_paths env json no_text no_text everything opts saved
      (one_file (codes "x"))
      (one_file (codes "x"))
      after
    ≡ finish env json no_text no_text everything opts saved next after
run_paths-rests_example =
    run_paths-rests env json memory-IsLawful no_text no_text everything opts saved
      (one_file (codes "x")) (one_file (codes "x")) after it_loads
      (λ q m. listed-Found q (subst (λ z. member q z ≡ true) same_paths m))

listed-IsClear : (q : Text) → member q (note ∷ []) ≡ true → IsClear env run q
unfolding member join sidecar text_dec ℕ_discrete
listed-IsClear q h = elim (Bool-cases (q == note)) [
  | inl e ↦ subst (IsClear env run) (sym (eq_of_== q note e)) (
    record { not_ledger = λ e. cc; not_bak = λ e. cc; not_tmp = λ e. cc },
    record { not_ledger = λ e. cc; not_bak = λ e. cc; not_tmp = λ e. cc },
  )
  | inr e ↦ ground (arith, e)
]

run_worktree-OldOrSaved_example :
    OldOrSaved env json memory-IsLawful no_text no_text everything opts empty
      (end_of_loop env json memory-IsLawful no_text no_text everything opts empty
        (one_file (codes "x"))
        no_files
        held)
      first.remote
      after.remote
unfolding union_paths distinct sort leb_text member keys lookup text_dec ℕ_discrete ℤ_discrete
    has_prefix insert acquire_lock read_lock gather load read_ledger scan_worktree scan_entries
    scan_entry is_internal slashed join erase reconcile for_each decide copy_to_remote settle
    hash_of entry_hash put_blob blob_path stamped
run_worktree-OldOrSaved_example =
    run_worktree-OldOrSaved env json memory-IsLawful no_text no_text everything opts first held
      empty (one_file (codes "x")) no_files refl refl listed-IsClear refl (inl refl)

-- A hub with a file that the filter excludes, before the lock and after it.
abbrev aside : Text
aside = codes "skip.txt"

abbrev only_note : Text → Bool
only_note p = p == note

abbrev kept_file : File
kept_file = record { content = codes "k"; mode = 0o644; mod_time = 3 }

abbrev with_aside : Replicas env
with_aside = record { local = one (codes "x"); remote = (aside, kept_file) ∷ [] }

abbrev held_aside : Replicas env
held_aside = record {
  local = one (codes "x");
  remote =
      (aside, kept_file)
      ∷ (join dir_name lock_file, record { content = []; mode = 0o644; mod_time = 9 })
      ∷ [];
}

aside_apart : (aside ≢ note) × (aside ≢ sidecar env run note)
unfolding sidecar
aside_apart = (λ e. cc, λ e. cc)

aside-IsUnlisted :
    IsUnlisted env json memory-IsLawful no_text no_text only_note opts aside empty
      (one_file (codes "x"))
      no_files
unfolding union_paths distinct sort leb_text member keys lookup text_dec ℕ_discrete has_prefix
aside-IsUnlisted p h = elim (Bool-cases (p == note)) [
  | inl e ↦
      subst (λ z. (aside ≢ z) × (aside ≢ sidecar env run z)) (sym (eq_of_== p note e)) aside_apart
  | inr e ↦ ground (arith, e)
]

aside-IsOutside : IsOutside aside
unfolding has_prefix ℕ_discrete
aside-IsOutside = refl

aside_no_report : aside ≢ conflicts_report
aside_no_report e = cc

run_worktree-spares_example :
    env.remote.read (run_worktree env json no_text no_text only_note opts with_aside).1.remote aside
    ≡ env.remote.read with_aside.remote aside
unfolding lookup insert erase text_dec ℕ_discrete ℤ_discrete has_prefix acquire_lock read_lock
    gather load read_ledger scan_worktree scan_entries scan_entry is_internal slashed join
run_worktree-spares_example =
    run_worktree-spares env json memory-IsLawful no_text no_text only_note opts aside
      aside-IsOutside aside_no_report with_aside held_aside empty (one_file (codes "x")) no_files
      refl refl aside-IsUnlisted
