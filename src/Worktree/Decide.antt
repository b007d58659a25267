-- ===== src/Worktree/Decide.antt =====
-- internal/runner/worktree.go: `decide`, `decideConverged` and `resolveDivergence`.
pub mod Readiness
pub mod InStep
pub mod Rest
pub mod Hub
pub mod Deletions
pub mod Conflicts
pub mod Frame
use yggsync.Prelude.{ℕ, Bool, true, false, not, ◌&&◌, List, [], ◌∷◌, ◌++◌, Text, Option, none, some}
use yggsync.Prelude.{◌==◌, text_eq, nat_eq, if◌then◌else◌, codes, take}
use yggsync.Prelude.Int.{ltb_ℤ}
use yggsync.Prelude.Dict.{Dict, lookup, insert, erase}
use yggsync.Prelude.Results.{Result, ok, err, Done, done, Action, ◌>>=◌, ◌>>◌, pure, if_some}
use yggsync.Backend.{Time, Fs}
use yggsync.Merge
use yggsync.Ledger.{FileEntry, Tombstone}
use yggsync.Ledger.Paths.{dir_name}
use yggsync.Ledger.Blobs.{get_blob}
use yggsync.Worktree.State.{FileState, Env, Setup, World, hash_of, entry_hash, state_of}
use yggsync.Worktree.Operations.{
  read_local, read_remote, flag, record_file, copy_to_local, copy_to_remote, write_both,
  delete_local, delete_remote,
}

abbrev has_nul : Text → Bool
has_nul [] = false
has_nul (c ∷ t) = if c == 0 then true else has_nul t

-- `isText`
unfoldable pub is_text : Text → Bool
is_text b = not (has_nul (take 8000 b))

module _ (E : Env) (run : Setup) where
  abbrev Act : Type 0
  Act = Action (World E) (Unit {0})

  -- `fmt.Sprintf("%s.mergefail.%s", …)`
  unfoldable pub sidecar : Text → Text
  sidecar p = p ++ (codes ".mergefail." ++ E.format_stamp run.now)

  abbrev forget_file : Text → Act
  forget_file p w = (done, record w { files = erase p w.files })

  abbrev pub forget_tomb : Text → World E → World E
  forget_tomb p w = record w { tombs = erase p w.tombs }

  unfoldable pub decide_converged : Text → Text → Text → Option FileEntry → FileState → Act
  unfolding read_remote record_file
  decide_converged p a l le lb =
      if a == []
      then if_some le (λ _. forget_file p) (pure tt)
      else if a == l
      then pure tt
      else do content ← read_remote E run p; record_file E run p content lb (codes "both")

  -- The text of a clean merge over the base that the hub keeps. (`none` of `Merge`, a panic, does
  -- not occur.)
  unfoldable pub clean_merge : E.remote.State → Text → Text → Text → Option Text
  unfolding Merge.merge get_blob
  clean_merge s l a_content b_content = elim (get_blob E.remote s dir_name l) [
    | err _ ↦ none
    | ok base ↦ elim (Merge.merge base a_content b_content) [
      | none ↦ none
      | some r ↦ if r.clean then some r.merged else none
    ]
  ]

  unfoldable pub merge_attempt : E.remote.State → Text → Text → Text → Option Text
  unfolding clean_merge is_text
  merge_attempt s l a_content b_content =
      if not run.no_merge && (not (l == []) && (is_text a_content && is_text b_content))
      then clean_merge s l a_content b_content
      else none

  -- The hub's version stays, and the local one is kept beside it.
  unfoldable pub keep_both : Text → Text → FileState → FileState → Act
  unfolding flag write_both copy_to_local sidecar
  keep_both p a_content la lb = do
    flag E run p
    write_both E run (sidecar p) a_content la
    copy_to_local E run p lb

  unfoldable pub resolve_divergence : Text → Text → Text → Text → FileState → FileState → Act
  unfolding flag copy_to_local copy_to_remote read_local read_remote merge_attempt write_both
      keep_both
  resolve_divergence p a b l la lb =
      if a == []
      then (do flag E run p; copy_to_local E run p lb)
      else if b == []
      then (do flag E run p; copy_to_remote E run p la)
      else do
        a_content ← read_local E run p
        b_content ← read_remote E run p
        λ w.
            if_some (merge_attempt w.remote l a_content b_content)
              (λ merged. write_both E run p merged lb) (keep_both p a_content la lb) w

  -- `lok && le.Gen > w.cursor`
  unfoldable pub never_had : Option FileEntry → Bool
  never_had none = false
  never_had (some e) = ltb_ℤ run.cursor e.gen

  -- `decide` after the guard for tombstones.
  unfoldable pub settle : Text → Option FileState → Option FileState → Option FileEntry → Act
  unfolding hash_of entry_hash decide_converged delete_local delete_remote copy_to_local
      copy_to_remote never_had resolve_divergence
  settle p la lb le =
      let a = hash_of la in
      let b = hash_of lb in
      let l = entry_hash le in
      if a == b
      then decide_converged p a l le (state_of lb)
      else if a == l
      then if b == [] then delete_local E run p else copy_to_local E run p (state_of lb)
      else if b == l
      then if a == []
        then if never_had le then copy_to_local E run p (state_of lb) else delete_remote E run p l
        else copy_to_remote E run p (state_of la)
      else resolve_divergence p a b l (state_of la) (state_of lb)

  -- A recorded deletion, where the ledger has no version of the path.
  unfoldable pub guard_deletion :
      Text → Option FileState → Option FileState → Option FileEntry → Tombstone → Act
  unfolding settle
  guard_deletion p la lb le tomb =
      let a = hash_of la in
      let b = hash_of lb in
      if a == [] && b == []
      then pure tt
      else if a == tomb.last_hash && b == []
      then delete_local E run p
      else if b == tomb.last_hash && a == []
      then delete_remote E run p tomb.last_hash
      else λ w. settle p la lb le (forget_tomb p w)

  unfoldable pub decide : Text → Act
  unfolding settle guard_deletion lookup erase insert
  decide p w =
      let la = lookup p run.local_snap.files in
      let lb = lookup p run.remote_snap.files in
      let le = lookup p w.files in
      if_some (lookup p w.tombs)
        (λ tomb. if entry_hash le == [] then guard_deletion p la lb le tomb else settle p la lb le)
        (settle p la lb le) w
