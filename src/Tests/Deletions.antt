-- ===== src/Tests/Deletions.antt =====
-- Runs of `decide` on deletions, and their theorems there.
use yggsync.Prelude.{◌≡◌, refl, true, false, List, Text, [], ◌∷◌, codes, some, none}
use yggsync.Prelude.{text_eq, text_dec}
use yggsync.Prelude.Int.{pos, int_eq}
use yggsync.Prelude.Dict.{lookup, insert, erase}
use yggsync.Prelude.Results.{ok, err, not_exist, done}
use yggsync.Backend.Memory.{memory, memory-IsLawful}
use yggsync.Ledger.Blobs.{put_blob}
use yggsync.Ledger.Paths.{blob_path}
use yggsync.Worktree.State.{Setup, World, hash_of, entry_hash}
use yggsync.Worktree.Operations.{delete_local, copy_to_remote}
use yggsync.Worktree.Decide.{decide, settle}
use yggsync.Worktree.Decide.Readiness.{Scanned, found}
use yggsync.Worktree.Decide.Deletions.{dry_run_deletes, second_stale_copy}
use yggsync.Worktree.Plan.{planned}
use yggsync.Worktree.Plan.Survival.{OnHub, unplanned_survives}
use yggsync.Worktree.Plan.Uncounted.{counted, uncounted_delete}
use yggsync.Prelude.Sorting.{member}
use yggsync.Tests.Samples.{
  env, note, note-IsVaultPath, state, entry, no_files, one_file, run_of, one,
}

-- The hub has lost a note that the client has not changed.
abbrev lost : World env
lost = record {
  local = one (codes "x");
  remote = [];
  files = (note, entry (codes "x")) ∷ [];
  tombs = [];
  conflicts = [];
}

abbrev dry : Setup
dry = record (run_of (one_file (codes "x")) no_files) { dry_run = true }

lost_known :
    (lookup note dry.local_snap.files ≡ some (state (codes "x")))
    × (lookup note dry.remote_snap.files ≡ none)
    × (lookup note lost.files ≡ some (entry (codes "x")))
    × (lookup note lost.tombs ≡ none)
    × (memory.remove note lost.local ≡ (done, []))
unfolding lookup text_dec erase
lost_known = (refl, refl, refl, refl, refl)

dry_run_deletes_example :
    ((decide env dry note lost).0 ≡ done)
    × (memory.read (decide env dry note lost).1.local note ≡ err not_exist)
dry_run_deletes_example =
    dry_run_deletes env dry note lost (state (codes "x")) (entry (codes "x")) [] memory-IsLawful
      refl lost_known.0 lost_known.1 lost_known.2 lost_known.3 refl (λ e. cc) lost_known.4

-- A tombstone, and two clients that still have a copy.
abbrev buried : World env
buried = record {
  local = one (codes "x");
  remote = [];
  files = [];
  tombs =
      (
        note,
        record { gen = pos 2; last_hash = codes "hx"; deleted_by = codes "pc"; deleted_at = pos 7 },
      )
      ∷ [];
  conflicts = [];
}

abbrev stale_run : Setup
stale_run = run_of (one_file (codes "x")) no_files

abbrev second : World env
second = record {
  local = one (codes "x");
  remote = [];
  files = [];
  tombs = (decide env stale_run note buried).1.tombs;
  conflicts = [];
}

buried_known :
    (lookup note stale_run.local_snap.files ≡ some (state (codes "x")))
    × (lookup note no_files.files ≡ none)
    × (lookup note buried.files ≡ none)
    × (lookup note buried.tombs
        ≡ some (record {
          gen = pos 2;
          last_hash = codes "hx";
          deleted_by = codes "pc";
          deleted_at = pos 7;
        }))
    × (memory.remove note buried.local ≡ (done, []))
unfolding lookup text_dec erase
buried_known = (refl, refl, refl, refl, refl)

second_stale_copy_example :
    (decide env stale_run note buried ≡ delete_local env stale_run note buried)
    × (decide env stale_run note second
        ≡ copy_to_remote env stale_run note
            (state (codes "x"))
            (record second { tombs = erase note second.tombs }))
second_stale_copy_example =
    second_stale_copy env stale_run stale_run note buried second (state (codes "x"))
      (state (codes "x"))
      (record { gen = pos 2; last_hash = codes "hx"; deleted_by = codes "pc"; deleted_at = pos 7 })
      [] buried_known.0 buried_known.1 buried_known.2 buried_known.3 refl (λ e. cc) buried_known.4
      refl buried_known.2 buried_known.0 buried_known.1 refl

-- The hub has a deleted version, which the client's pre-pass does not count.
abbrev revived : World env
revived = record buried { local = []; remote = one (codes "x") }

abbrev hub_run : Setup
hub_run = run_of no_files (one_file (codes "x"))

revived_runs : decide env hub_run note revived ≡ (done, (decide env hub_run note revived).1)
unfolding decide lookup insert erase text_dec settle hash_of entry_hash
revived_runs = refl

uncounted_delete_example :
    (memory.read (decide env hub_run note revived).1.remote note ≡ err not_exist)
    × ((paths : List Text)
        → member note (counted env hub_run note revived (decide env hub_run note revived).1 paths)
          ≡ false)
uncounted_delete_example =
    uncounted_delete env hub_run note revived (decide env hub_run note revived).1 memory-IsLawful
      (state (codes "x"))
      (record { gen = pos 2; last_hash = codes "hx"; deleted_by = codes "pc"; deleted_at = pos 7 })
      buried_known.1 buried_known.0 buried_known.2 buried_known.3 refl (λ e. cc) revived_runs

-- A new file of the hub.
abbrev fetched : World env
fetched = record { local = []; remote = one (codes "x"); files = []; tombs = []; conflicts = [] }

fetched_known :
    (lookup note fetched.tombs ≡ none)
    × (memory.read fetched.remote note ≡ ok (codes "x"))
    × (planned
          (lookup note hub_run.local_snap.files)
          (lookup note hub_run.remote_snap.files)
          (lookup note fetched.files)
          hub_run.cursor
        ≡ false)
unfolding lookup text_dec planned
fetched_known = (refl, refl, refl)

fetched-Scanned :
    Scanned
      (λ c. b'h' ∷ c)
      (memory.read fetched.remote note)
      (lookup note hub_run.remote_snap.files)
unfolding lookup text_dec
fetched-Scanned = found (codes "x") (state (codes "x")) refl refl

fetched_runs : decide env hub_run note fetched ≡ (done, (decide env hub_run note fetched).1)
unfolding decide lookup insert erase text_dec settle hash_of entry_hash put_blob blob_path
fetched_runs = refl

unplanned_survives_example : OnHub env note (decide env hub_run note fetched).1
unplanned_survives_example =
    unplanned_survives env hub_run memory-IsLawful memory-IsLawful refl note note-IsVaultPath
      fetched (decide env hub_run note fetched).1 fetched_known.0 (codes "x", fetched_known.1)
      fetched-Scanned (λ c e. cc) fetched_known.2 fetched_runs
