-- ===== src/Tests/Worktrees.antt =====
-- Runs of internal/runner/worktree.go on file systems in memory, and its theorems there.
use yggsync.Prelude.{
  ◌≡◌, ◌≢◌, refl, sym, subst, inl, inr, Bool-cases, eq_of_==, true, [], ◌∷◌, Text, codes,
}
use yggsync.Prelude.{text_eq, text_dec, ◌==◌, arith}
use yggsync.Prelude.Int.{int_eq}
use yggsync.Prelude.Dict.{lookup, insert, erase}
use yggsync.Prelude.Sorting.{member}
use yggsync.Prelude.Results.{done, for_each}
use yggsync.Backend.Memory.{memory-IsLawful}
use yggsync.Ledger.Blobs.{put_blob}
use yggsync.Ledger.Paths.{blob_path}
use yggsync.Worktree.State.{hash_of, entry_hash}
use yggsync.Worktree.Operations.{copy_to_remote}
use yggsync.Worktree.Decide.{sidecar, decide, settle}
use yggsync.Worktree.Decide.Readiness.{InStep, missing, found, Ready}
use yggsync.Prelude.{◌||◌}
use yggsync.Ledger.{FileEntry, Tombstone}
use yggsync.Worktree.State.{FileState}
use yggsync.Prelude.Dict.{Dict, keys}
use yggsync.Tests.Samples.{entry, state}
use yggsync.Worktree.Run.{union_paths}
use yggsync.Worktree.Run.Paths.{NoRepeats, union_paths-NoRepeats}
use yggsync.Worktree.Reconcile.{apart, end, reconcile, reconcile-InStep}
use yggsync.Tests.Samples.{env, note, note-IsVaultPath, state, added, add_run}

pub hash_injective : (c d : Text) → (b'h' ∷ c) ≡ (b'h' ∷ d) → c ≡ d
hash_injective c d e = cc

added-Ready : Ready env add_run note added
unfolding lookup text_dec
added-Ready = record {
  vault = note-IsVaultPath;
  local_scanned = found (codes "x") (state (codes "x")) refl refl;
  remote_scanned = missing refl;
  no_collision = λ c d _ _ e. hash_injective c d e;
  hashes = λ c e. cc;
  entries = λ e h. cc;
}

pub note_apart :
    (q : Text)
    → member q [] ≡ true
    → (q ≢ note) × (q ≢ sidecar env add_run note) × (note ≢ sidecar env add_run q)
unfolding member
note_apart q h = cc

pub note-Ready : (q : Text) → member q (note ∷ []) ≡ true → Ready env add_run q added
unfolding member
note-Ready q h = elim (Bool-cases (q == note)) [
  | inl e ↦ subst (λ z. Ready env add_run z added) (sym (eq_of_== q note e)) added-Ready
  | inr e ↦ ground (arith, e)
]

note_listed : member note (note ∷ []) ≡ true
unfolding member text_dec
note_listed = refl

pub reconciled : reconcile env add_run (note ∷ []) added ≡ (done, (decide env add_run note added).1)
unfolding reconcile for_each decide lookup insert erase text_dec copy_to_remote settle hash_of
    entry_hash put_blob blob_path
reconciled = refl

reconcile-InStep_example : InStep env note (decide env add_run note added).1
reconcile-InStep_example =
    reconcile-InStep env add_run memory-IsLawful memory-IsLawful refl (note ∷ []) added
      (decide env add_run note added).1 (apart note_apart end) note-Ready reconciled note
      note_listed

-- Another file.
abbrev other : Text
other = codes "b.md"

-- Two files of the ledger, of which a scan finds one.
abbrev known : Dict Text FileEntry
known = (note, entry []) ∷ (other, entry []) ∷ []

abbrev no_tombs : Dict Text Tombstone
no_tombs = []

abbrev scanned : Dict Text FileState
scanned = (note, state []) ∷ []

abbrev not_scanned : Dict Text FileState
not_scanned = []

union_paths-NoRepeats_example :
    NoRepeats (union_paths known no_tombs scanned not_scanned)
    × ((p : Text)
        → member p (union_paths known no_tombs scanned not_scanned) ≡ (
            member p (keys known)
            || (member p (keys no_tombs)
                || (member p (keys scanned) || member p (keys not_scanned)))))
union_paths-NoRepeats_example = union_paths-NoRepeats known no_tombs scanned not_scanned
