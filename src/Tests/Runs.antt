-- ===== src/Tests/Runs.antt =====
-- A whole run of internal/runner/worktree.go on replicas in memory, and the theorem there.
use yggsync.Prelude.{
  ℕ, ◌≡◌, ◌≢◌, refl, sym, subst, Bool, true, false, [], ◌∷◌, Text, codes, some, none, text_dec,
  text_eq, ◌==◌, inl, inr, arith, Bool-cases, eq_of_==, ℕ_discrete,
}
use yggsync.Prelude.Int.{ℤ_discrete}
use yggsync.Prelude.Dict.{lookup, insert, erase, keys}
use yggsync.Prelude.Strings.{has_prefix}
use yggsync.Prelude.Sorting.{member, sort, leb_text}
use yggsync.Prelude.Results.{done, for_each}
use yggsync.Backend.Memory.{memory-IsLawful}
use yggsync.Backend.Paths.{slashed}
use yggsync.Ledger.{Json, empty}
use yggsync.Ledger.Blobs.{put_blob}
use yggsync.Ledger.Collection.{gc_blobs}
use yggsync.Ledger.Lock.{acquire_lock, read_lock, release}
use yggsync.Ledger.Paths.{blob_path, join, dir_name, lock_file}
use yggsync.Ledger.Storage.{save, load, read_ledger, stamped}
use yggsync.Worktree.State.{Setup, World, hash_of, entry_hash}
use yggsync.Worktree.Operations.{copy_to_remote}
use yggsync.Worktree.Decide.{decide, settle, sidecar}
use yggsync.Worktree.Decide.Readiness.{Ready, missing, found}
use yggsync.Worktree.Plan.{planned_remote_deletes, mass_delete}
use yggsync.Worktree.Reconcile.{reconcile, apart, end}
use yggsync.Worktree.Run.{
  Options, Replicas, setup, advanced, finish, conclude, run_paths, run_worktree, union_paths,
  distinct, gather, scan_worktree, scan_entries, scan_entry, is_internal,
}
use yggsync.Worktree.Run.Settled.{Settled}
use yggsync.Worktree.Run.Whole.{run_worktree-Settled}
use yggsync.Tests.Samples.{env, note, note-IsVaultPath, state, no_files, one, one_file}
use yggsync.Tests.Worktrees.{hash_injective}

abbrev pub opts : Options
opts = record {
  job_name = codes "notes";
  client_id = codes "pc";
  now = 9;
  wall = 9;
  dry_run = false;
  no_merge = false;
  allow_mass_delete = false;
}

abbrev pub no_text : ℕ → Text
no_text n = []

abbrev pub everything : Text → Bool
everything p = true

abbrev pub blank : Json
blank = record {
  marshal = λ l. [];
  unmarshal = λ t. none;
  marshal_lock = λ i. [];
  unmarshal_lock = λ t. none;
}

abbrev pub run : Setup
run = setup env blank no_text no_text everything opts empty (one_file (codes "x")) no_files

-- A client with a note, and a hub that is empty, before the lock and after it.
abbrev pub first : Replicas env
first = record { local = one (codes "x"); remote = [] }

abbrev pub held : Replicas env
held = record {
  local = one (codes "x");
  remote = (join dir_name lock_file, record { content = []; mode = 0o644; mod_time = 9 }) ∷ [];
}

abbrev begun : World env
begun = record { local = held.local; remote = held.remote; files = []; tombs = []; conflicts = [] }

abbrev pub reached : World env
reached = (decide env run note begun).1

-- JSON that reads back the ledger of this run.
abbrev pub json : Json
json = record {
  marshal = λ l. codes "{}";
  unmarshal =
      λ t. some (stamped (advanced env blank no_text no_text everything opts empty reached));
  marshal_lock = λ i. [];
  unmarshal_lock = λ t. none;
}

abbrev pub after : Replicas env
after = (run_worktree env json no_text no_text everything opts first).1

ran : run_worktree env json no_text no_text everything opts first ≡ (done, after)
unfolding run_worktree run_paths union_paths distinct sort leb_text member keys
    planned_remote_deletes mass_delete reconcile finish conclude save gc_blobs for_each decide
    lookup insert erase text_dec ℕ_discrete ℤ_discrete copy_to_remote settle hash_of entry_hash
    put_blob blob_path join stamped acquire_lock read_lock release gather load read_ledger
    scan_worktree scan_entries scan_entry is_internal has_prefix slashed
ran = refl

begun-Ready : Ready env run note begun
unfolding lookup text_dec join
begun-Ready = record {
  vault = note-IsVaultPath;
  local_scanned = found (codes "x") (state (codes "x")) refl refl;
  remote_scanned = missing refl;
  no_collision = λ c d _ _ e. hash_injective c d e;
  hashes = λ c e. cc;
  entries = λ e h. cc;
}

listed-Ready : (q : Text) → member q (note ∷ []) ≡ true → Ready env run q begun
unfolding member
listed-Ready q h = elim (Bool-cases (q == note)) [
  | inl e ↦ subst (λ z. Ready env run z begun) (sym (eq_of_== q note e)) begun-Ready
  | inr e ↦ ground (arith, e)
]

alone :
    (q : Text)
    → member q [] ≡ true
    → (q ≢ note) × (q ≢ sidecar env run note) × (note ≢ sidecar env run q)
unfolding member
alone q h = cc

looped : reconcile env run (note ∷ []) begun ≡ (done, reached)
unfolding reconcile for_each decide lookup insert erase text_dec copy_to_remote settle hash_of
    entry_hash put_blob blob_path join
looped = refl

run_worktree-Settled_example : Settled env json memory-IsLawful note after
unfolding union_paths distinct sort leb_text member keys lookup text_dec ℕ_discrete has_prefix
    insert acquire_lock read_lock gather load read_ledger scan_worktree scan_entries scan_entry
    is_internal slashed join erase
run_worktree-Settled_example =
    run_worktree-Settled env json memory-IsLawful memory-IsLawful no_text no_text everything opts
      refl first held after empty (one_file (codes "x")) no_files reached refl refl
      (apart alone end) listed-Ready looped refl ran note refl refl
