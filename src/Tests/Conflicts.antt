-- ===== src/Tests/Conflicts.antt =====
-- Runs of `resolveDivergence` and of `decide` on conflicts and deletions, and their theorems there.
use yggsync.Prelude.{◌≡◌, refl, ap, ◌∙◌, [], ◌∷◌, codes, none}
use yggsync.Prelude.{text_eq, text_dec, arith}
use yggsync.Prelude.Int.{int_eq}
use yggsync.Prelude.Dict.{lookup, insert, erase}
use yggsync.Prelude.Results.{ok, done}
use yggsync.Backend.Memory.{memory, memory-IsLawful}
use yggsync.Ledger.Blobs.{put_blob}
use yggsync.Ledger.Paths.{blob_path}
use yggsync.Worktree.State.{Setup, World, hash_of, entry_hash}
use yggsync.Worktree.Operations.Effects.{IsVaultPath}
use yggsync.Worktree.Decide.{sidecar, decide, merge_attempt, settle, resolve_divergence}
use yggsync.Worktree.Decide.Conflicts.{Diverged, unmerged_keeps_both}
use yggsync.Tests.Samples.{
  differ, env, head, head-blob_path, note, note-IsVaultPath, state, entry, one_file, run_of, one,
}

-- A note that was edited on both sides, with no base on the hub.
abbrev edited : World env
edited = record {
  local = one (codes "x");
  remote = one (codes "y");
  files = (note, entry (codes "o")) ∷ [];
  tombs = [];
  conflicts = [];
}

abbrev edit_run : Setup
edit_run = run_of (one_file (codes "x")) (one_file (codes "y"))

edited-Diverged : Diverged env edit_run note edited
unfolding lookup text_dec entry_hash
edited-Diverged = record {
  ours = state (codes "x");
  theirs = state (codes "y");
  scanned_ours = refl;
  scanned_theirs = refl;
  no_tombstone = refl;
  present = (λ e. cc, λ e. cc);
  edited = (
    differ (codes "hx") (codes "hy") refl,
    differ (codes "hx") (codes "ho") refl,
    differ (codes "hy") (codes "ho") refl,
  );
}

sidecar-IsVaultPath : IsVaultPath (sidecar env edit_run note)
unfolding sidecar
sidecar-IsVaultPath hash e = absurd (omega (arith, ap head e ∙ head-blob_path hash))

edited_reads :
    (memory.read edited.local note ≡ ok (codes "x"))
    × (memory.read edited.remote note ≡ ok (codes "y"))
unfolding lookup text_dec
edited_reads = (refl, refl)

edited_unmerged :
    merge_attempt env edit_run edited.remote
      (entry_hash (lookup note edited.files))
      (codes "x")
      (codes "y")
    ≡ none
unfolding merge_attempt lookup text_dec entry_hash blob_path
edited_unmerged = refl

edited_runs : decide env edit_run note edited ≡ (done, (decide env edit_run note edited).1)
unfolding decide lookup insert erase text_dec settle hash_of entry_hash put_blob blob_path
    resolve_divergence
edited_runs = refl

unmerged_keeps_both_example :
    let w = (decide env edit_run note edited).1 in
    (memory.read w.local note ≡ ok (codes "y"))
    × (memory.read w.remote note ≡ ok (codes "y"))
    × (memory.read w.local (sidecar env edit_run note) ≡ ok (codes "x"))
    × (memory.read w.remote (sidecar env edit_run note) ≡ ok (codes "x"))
    × (w.conflicts ≡ note ∷ [])
unmerged_keeps_both_example =
    unmerged_keeps_both env edit_run note edited edited-Diverged memory-IsLawful memory-IsLawful
      refl (codes "x") (codes "y") (decide env edit_run note edited).1 note-IsVaultPath
      sidecar-IsVaultPath edited_reads.0 edited_reads.1 edited_unmerged edited_runs
