-- ===== src/Worktree/Decide/Readiness.antt =====
-- internal/runner/worktree.go: a path in step, and what `decide` relies on at a path.
use yggsync.Prelude.{◌≡◌, ◌≢◌, refl, sym, ◌∙◌, [], Text}
use yggsync.Prelude.{Option, none, some, text_eq, ==_of_eq}
use yggsync.Prelude.Dict.{lookup}
use yggsync.Prelude.Results.{Result, ok, err, not_exist}
use yggsync.Ledger.{FileEntry}
use yggsync.Worktree.State.{FileState, Env, Setup, World, hash_of, entry_hash}
use yggsync.Worktree.Operations.Effects.{IsVaultPath, Wrote, Erased}

-- Both replicas have the same content at the path, and the ledger its hash; or none has the path.
pub data InStep (E : Env) (p : Text) (w : World E) : Type 0 where
  present :
      (c : Text)
      → E.local.read w.local p ≡ ok c
      → E.remote.read w.remote p ≡ ok c
      → entry_hash (lookup p w.files) ≡ E.sha256_hex c
      → InStep E p w
  absent :
      E.local.read w.local p ≡ err not_exist
      → E.remote.read w.remote p ≡ err not_exist
      → lookup p w.files ≡ none
      → InStep E p w

-- A snapshot's word on a path, where the replica still is as it was when it was scanned.
pub data Scanned (sha : Text → Text) (r : Result Text) : Option FileState → Type 0 where
  missing : r ≡ err not_exist → Scanned sha r none
  found : (c : Text) (st : FileState) → r ≡ ok c → st.hash ≡ sha c → Scanned sha r (some st)

pub Wrote-InStep :
    (E : Env) (p c : Text) (w w' : World E) → IsVaultPath p → Wrote E p c w w' → InStep E p w'
unfolding entry_hash
Wrote-InStep E p c w w' v h =
    present c (rw (h.local_reads p v, ==_of_eq p p refl))
      (rw (h.remote_reads p v, ==_of_eq p p refl)) (rw (h.entries p, ==_of_eq p p refl) h.hashed)

pub Erased-InStep :
    (E : Env) (p : Text) (w w' : World E) → IsVaultPath p → Erased E p w w' → InStep E p w'
Erased-InStep E p w w' v h =
    absent (rw (h.local_reads p v, ==_of_eq p p refl)) (rw (h.remote_reads p v, ==_of_eq p p refl))
      (rw (h.entries p, ==_of_eq p p refl))

-- What `decide` relies on at a path: the snapshots are true of it, hashes are not empty and tell
-- the two contents apart, and the ledger's entries have hashes.
pub record Ready (E : Env) (run : Setup) (p : Text) (w : World E) : Type 0 where
  pub vault : IsVaultPath p
  pub local_scanned : Scanned E.sha256_hex (E.local.read w.local p) (lookup p run.local_snap.files)
  pub remote_scanned :
      Scanned E.sha256_hex (E.remote.read w.remote p) (lookup p run.remote_snap.files)
  pub no_collision :
      (c d : Text)
      → E.local.read w.local p ≡ ok c
      → E.remote.read w.remote p ≡ ok d
      → E.sha256_hex c ≡ E.sha256_hex d
      → c ≡ d
  pub hashes : (c : Text) → E.sha256_hex c ≢ []
  pub entries : (e : FileEntry) → lookup p w.files ≡ some e → e.hash ≢ []

-- A path with an empty hash in the snapshot is missing.
pub Scanned-missing :
    (sha : Text → Text) (r : Result Text) (st : Option FileState)
    → ((c : Text) → sha c ≢ [])
    → Scanned sha r st
    → hash_of st ≡ []
    → r ≡ err not_exist
unfolding hash_of
Scanned-missing sha r _ hs (missing e) h = e
Scanned-missing sha r _ hs (found c st e same) h = absurd (hs c (sym same ∙ h))

pub Scanned-found :
    (sha : Text → Text) (r : Result Text) (st : Option FileState)
    → Scanned sha r st
    → hash_of st ≢ []
    → (c : Text) × (r ≡ ok c) × (hash_of st ≡ sha c)
unfolding hash_of
Scanned-found sha r _ (missing e) h = absurd (h refl)
Scanned-found sha r _ (found c st e same) h = (c, e, same)

pub no_entry :
    (e : Option FileEntry)
    → ((x : FileEntry) → e ≡ some x → x.hash ≢ [])
    → entry_hash e ≡ []
    → e ≡ none
unfolding entry_hash
no_entry none h z = refl
no_entry (some x) h z = absurd (h x refl z)
