-- ===== src/Worktree/Plan.antt =====
-- internal/runner/worktree.go: the safety pre-pass, `plannedRemoteDeletes` and `massDelete`.
pub mod Survival
pub mod Uncounted
use yggsync.Prelude.{ℕ, ◌*◌, Bool, true, false, not, ◌&&◌, List, [], ◌∷◌, Text, Option, none, some}
use yggsync.Prelude.{◌==◌, text_eq, if◌then◌else◌, ltb, text_dec}
use yggsync.Prelude.Int.{ℤ, ltb_ℤ}
use yggsync.Prelude.Dict.{Dict, lookup}
use yggsync.Ledger.{FileEntry}
use yggsync.Worktree.State.{FileState, hash_of, entry_hash}

-- `lok && le.Gen > cursor`
abbrev newer_than : ℤ → Option FileEntry → Bool
newer_than cursor none = false
newer_than cursor (some e) = ltb_ℤ cursor e.gen

-- The body of the loop of `plannedRemoteDeletes`: is the path appended?
unfoldable pub planned : Option FileState → Option FileState → Option FileEntry → ℤ → Bool
unfolding hash_of entry_hash text_dec
planned la lb le cursor =
    let a = hash_of la in
    let b = hash_of lb in
    let l = entry_hash le in
    if a == b
    then false
    else if a == l
    then false
    else b == l && (a == [] && not (newer_than cursor le))

module _ (files : Dict Text FileEntry) (local_files remote_files : Dict Text FileState)
    (cursor : ℤ) where
  unfoldable pub planned_remote_deletes : List Text → List Text
  unfolding planned lookup
  planned_remote_deletes [] = []
  planned_remote_deletes (p ∷ ps) =
      let rest = planned_remote_deletes ps in
      if planned (lookup p local_files) (lookup p remote_files) (lookup p files) cursor
      then p ∷ rest
      else rest

unfoldable pub mass_delete : ℕ → ℕ → Bool
mass_delete deletes tracked = ltb 10 deletes && (ltb 0 tracked && ltb tracked (deletes * 2))
