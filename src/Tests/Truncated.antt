-- ===== src/Tests/Truncated.antt =====
-- A client with a link to nowhere before a note, and the theorem there.
use yggsync.Prelude.{◌≡◌, refl, [], ◌∷◌, ◌++◌, false, Text, codes, text_dec, text_eq, ℕ_discrete}
use yggsync.Prelude.Int.{int_eq}
use yggsync.Prelude.Strings.{has_prefix}
use yggsync.Prelude.Dict.{lookup, insert, erase}
use yggsync.Prelude.Results.{ok, not_exist, err, done}
use yggsync.Backend.{Entry, entry_of}
use yggsync.Backend.Memory.{memory, memory-IsLawful}
use yggsync.Backend.Paths.{slashed}
use yggsync.Backend.Roots.{walk, walk_visits, on_visit, local_fs}
use yggsync.Worktree.State.{World, hash_of, entry_hash}
use yggsync.Worktree.Decide.{decide, settle}
use yggsync.Worktree.Run.{is_internal, scan_entries, scan_worktree}
use yggsync.Worktree.Run.Truncated.{client, Vanished, vanished_cuts}
use yggsync.Tests.Samples.{note, state, entry, no_files, one_file, run_of, one}
use yggsync.Tests.Shares.{phone, info, everything}

abbrev sha : Text → Text
sha c = b'h' ∷ c

abbrev root : Text
root = codes "/vault"

abbrev link : Entry
link = entry_of (codes "a") (info (codes "a") false)

abbrev page : Entry
page = entry_of note (info note false)

walked : walk phone root tt ≡ ([] ++ link ∷ page ∷ [], done)
unfolding walk walk_visits on_visit text_dec ℕ_discrete
walked = refl

abbrev link-Vanished : Vanished phone root memory sha (λ t. []) everything tt link
unfolding is_internal slashed text_dec ℕ_discrete has_prefix
link-Vanished = record { vault = refl; wanted = refl; regular = refl; gone = refl }

abbrev synced : World (client phone root memory sha (λ t. []) everything)
synced = record {
  local = tt;
  remote = one (codes "x");
  files = (note, entry (codes "x")) ∷ [];
  tombs = [];
  conflicts = [];
}

synced_runs :
    decide
      (client phone root memory sha (λ t. []) everything)
      (run_of no_files (one_file (codes "x")))
      note
      synced
    ≡ (
      done,
      (decide
          (client phone root memory sha (λ t. []) everything)
          (run_of no_files (one_file (codes "x")))
          note
          synced).1,
    )
unfolding decide lookup insert erase text_dec settle hash_of entry_hash
synced_runs = refl

vanished_cuts_example :
    (scan_worktree sha everything (local_fs phone root) tt ≡ ok no_files)
    × (memory.read
          (decide
            (client phone root memory sha (λ t. []) everything)
            (run_of no_files (one_file (codes "x")))
            note
            synced).1.remote
          note
        ≡ err not_exist)
unfolding lookup text_dec scan_entries
vanished_cuts_example =
    vanished_cuts phone root memory sha (λ t. []) everything tt [] (page ∷ []) link done no_files
      (run_of no_files (one_file (codes "x"))) note synced
      (decide (client phone root memory sha (λ t. []) everything)
        (run_of no_files (one_file (codes "x"))) note synced).1
      (entry (codes "x")) (state (codes "x")) memory-IsLawful walked link-Vanished refl refl refl
      refl refl refl refl (λ e. cc) refl synced_runs
