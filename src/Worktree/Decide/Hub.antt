-- ===== src/Worktree/Decide/Hub.antt =====
-- internal/runner/worktree.go, `decide`: the files of the hub that no decision touches, however it ends.
use yggsync.Prelude.{
  ◌≡◌, ◌≢◌, refl, ◌∙◌, Bool, true, false, ◌&&◌, [], Text, Option, none, some, ◌==◌, text_eq, nat_eq,
  if◌then◌else◌, codes,
}
use yggsync.Prelude.Dict.{lookup}
use yggsync.Prelude.Results.{Action, pure, resume-keeps, if_some, ◌>>=◌, ◌>>◌}
use yggsync.Backend.{IsLawful}
use yggsync.Ledger.{FileEntry, Tombstone}
use yggsync.Ledger.Paths.{dir_name}
use yggsync.Ledger.Blobs.{put_blob}
use yggsync.Ledger.Blobs.Laws.{put_blob_frame}
use yggsync.Worktree.State.{
  FileState, Env, Setup, World, hash_of, entry_hash, state_of, on_local, on_remote,
}
use yggsync.Worktree.Operations.{
  read_local, read_remote, flag, recorded, note_file, record_file, record_tombstone, copy_to_local,
  copy_to_remote, both_state, write_both, delete_local, delete_remote,
}
use yggsync.Worktree.Operations.Effects.{IsVaultPath}
use yggsync.Worktree.Decide.{
  sidecar, decide_converged, merge_attempt, keep_both, resolve_divergence, never_had, settle,
  guard_deletion, decide, forget_tomb,
}

module _ (E : Env) (run : Setup) (law : IsLawful E.remote) (q : Text) (free : IsVaultPath q) where
  -- Whatever it returns, an action leaves the hub's file as it was.
  abbrev Keeps : {A : Type 0} → Action (World E) A → Type 0
  Keeps m = (w : World E) → E.remote.read (m w).1.remote q ≡ E.remote.read w.remote q

  then-Keeps :
      {A B : Type 0} (m : Action (World E) A) (f : A → Action (World E) B)
      → Keeps m
      → ((a : A) → Keeps (f a))
      → Keeps (m >>= f)
  then-Keeps m f km kf w =
      resume-keeps (λ z. E.remote.read z.remote q ≡ E.remote.read w.remote q) (m w) f (km w)
        (λ a s same. kf a s ∙ same)

  seq-Keeps :
      {A B : Type 0} (m : Action (World E) A) (k : Action (World E) B)
      → Keeps m
      → Keeps k
      → Keeps (m >> k)
  seq-Keeps m k km kk = then-Keeps m (λ _. k) km (λ _. kk)

  if-Keeps :
      {A : Type 0} (b : Bool) (x y : Action (World E) A)
      → Keeps x
      → Keeps y
      → Keeps (if b then x else y)
  if-Keeps true x y kx ky = kx
  if-Keeps false x y kx ky = ky

  if_some-Keeps :
      {A X : Type 0} (o : Option X) (f : X → Action (World E) A) (y : Action (World E) A)
      → ((x : X) → Keeps (f x))
      → Keeps y
      → Keeps (if_some o f y)
  if_some-Keeps none f y kf ky = ky
  if_some-Keeps (some x) f y kf ky = kf x

  record_file-Keeps :
      (p content : Text) (st : FileState) (by : Text) → Keeps (record_file E run p content st by)
  unfolding record_file
  record_file-Keeps p content st by =
      let hash = E.sha256_hex content in
      let store = on_remote (put_blob E.remote dir_name hash content run.wall) in
      then-Keeps (if run.dry_run then pure tt else store)
        (λ _. note_file E run p (recorded E run content st by))
        (if-Keeps run.dry_run (pure tt) store (λ w. refl)
          (λ w. put_blob_frame E.remote law dir_name hash content run.wall w.remote q (free hash)))
        (λ _ w. refl)

  copy_to_local-Keeps : (p : Text) (st : FileState) → Keeps (copy_to_local E run p st)
  unfolding copy_to_local read_remote
  copy_to_local-Keeps p st =
      if-Keeps run.dry_run (pure tt) _ (λ w. refl)
        (then-Keeps (read_remote E run p) _ (λ w. refl)
          (λ c.
            then-Keeps (on_local (E.local.write_file p c st.mode st.mod_time)) _ (λ w. refl)
              (λ _. record_file-Keeps p c st (codes "hub"))))

  copy_to_remote-Keeps : (p : Text) (st : FileState) → q ≢ p → Keeps (copy_to_remote E run p st)
  unfolding copy_to_remote read_local
  copy_to_remote-Keeps p st ne =
      if-Keeps run.dry_run (pure tt) _ (λ w. refl)
        (then-Keeps (read_local E run p) _ (λ w. refl)
          (λ c.
            then-Keeps (on_remote (E.remote.write_file p c st.mode st.mod_time)) _
              (λ w. law.write_file_frame p c st.mode st.mod_time w.remote q ne)
              (λ _. record_file-Keeps p c st run.client_id)))

  write_both-Keeps :
      (p content : Text) (st : FileState) → q ≢ p → Keeps (write_both E run p content st)
  unfolding write_both
  write_both-Keeps p content st ne =
      let set = both_state E run st in
      if-Keeps run.dry_run (pure tt) _ (λ w. refl)
        (then-Keeps (on_local (E.local.write_file p content set.mode set.mod_time)) _ (λ w. refl)
          (λ _.
            then-Keeps (on_remote (E.remote.write_file p content set.mode set.mod_time)) _
              (λ w. law.write_file_frame p content set.mode set.mod_time w.remote q ne)
              (λ _. record_file-Keeps p content set run.client_id)))

  delete_local-Keeps : (p : Text) → Keeps (delete_local E run p)
  unfolding delete_local record_tombstone
  delete_local-Keeps p =
      then-Keeps (on_local (E.local.remove p)) (λ _. record_tombstone E run p (codes "hub"))
        (λ w. refl) (λ _ w. refl)

  delete_remote-Keeps : (p last : Text) → q ≢ p → Keeps (delete_remote E run p last)
  unfolding delete_remote record_tombstone
  delete_remote-Keeps p last ne =
      then-Keeps (on_remote (E.remote.remove p)) (λ _. record_tombstone E run p run.client_id)
        (λ w. law.remove_frame p w.remote q ne) (λ _ w. refl)

  flag-Keeps : (p : Text) → Keeps (flag E run p)
  unfolding flag
  flag-Keeps p w = refl

  keep_both-Keeps :
      (p content : Text) (la lb : FileState)
      → q ≢ sidecar E run p
      → Keeps (keep_both E run p content la lb)
  unfolding keep_both
  keep_both-Keeps p content la lb side =
      let write = write_both E run (sidecar E run p) content la in
      let last = copy_to_local E run p lb in
      seq-Keeps (flag E run p) (write >> last) (flag-Keeps p) (
        seq-Keeps write last (write_both-Keeps (sidecar E run p) content la side)
          (copy_to_local-Keeps p lb))

  module _ (p : Text) (ne : q ≢ p) (side : q ≢ sidecar E run p) where
    resolve_divergence-Keeps :
        (a b l : Text) (la lb : FileState) → Keeps (resolve_divergence E run p a b l la lb)
    unfolding resolve_divergence read_local read_remote
    resolve_divergence-Keeps a b l la lb =
        if-Keeps (a == []) _ _
          (seq-Keeps (flag E run p) (copy_to_local E run p lb) (flag-Keeps p)
            (copy_to_local-Keeps p lb))
          (if-Keeps (b == []) _ _
            (seq-Keeps (flag E run p) (copy_to_remote E run p la) (flag-Keeps p)
              (copy_to_remote-Keeps p la ne))
            (then-Keeps (read_local E run p) _ (λ w. refl)
              (λ a_content.
                then-Keeps (read_remote E run p) _ (λ w. refl)
                  (λ b_content w.
                    if_some-Keeps (merge_attempt E run w.remote l a_content b_content)
                      (λ merged. write_both E run p merged lb) (keep_both E run p a_content la lb)
                      (λ merged. write_both-Keeps p merged lb ne)
                      (keep_both-Keeps p a_content la lb side) w))))

    decide_converged-Keeps :
        (a l : Text) (le : Option FileEntry) (lb : FileState)
        → Keeps (decide_converged E run p a l le lb)
    unfolding decide_converged read_remote
    decide_converged-Keeps a l le lb =
        if-Keeps (a == []) _ _ (if_some-Keeps le _ (pure tt) (λ _ w. refl) (λ w. refl)) (
          if-Keeps (a == l) (pure tt) _ (λ w. refl)
            (then-Keeps (read_remote E run p) _ (λ w. refl)
              (λ c. record_file-Keeps p c lb (codes "both"))))

    settle-Keeps :
        (la lb : Option FileState) (le : Option FileEntry) → Keeps (settle E run p la lb le)
    unfolding settle
    settle-Keeps la lb le =
        let a = hash_of la in
        let b = hash_of lb in
        let l = entry_hash le in
        if-Keeps (a == b) _ _ (decide_converged-Keeps a l le (state_of lb)) (
          if-Keeps (a == l) _ _
            (if-Keeps (b == []) _ _ (delete_local-Keeps p) (copy_to_local-Keeps p (state_of lb)))
            (if-Keeps (b == l) _ _
              (if-Keeps (a == []) _ _
                (if-Keeps (never_had E run le) _ _ (copy_to_local-Keeps p (state_of lb))
                  (delete_remote-Keeps p l ne))
                (copy_to_remote-Keeps p (state_of la) ne))
              (resolve_divergence-Keeps a b l (state_of la) (state_of lb))))

    guard_deletion-Keeps :
        (la lb : Option FileState) (le : Option FileEntry) (tomb : Tombstone)
        → Keeps (guard_deletion E run p la lb le tomb)
    unfolding guard_deletion
    guard_deletion-Keeps la lb le tomb =
        let a = hash_of la in
        let b = hash_of lb in
        if-Keeps (a == [] && b == []) (pure tt) _ (λ w. refl)
          (if-Keeps (a == tomb.last_hash && b == []) _ _ (delete_local-Keeps p) (
            if-Keeps (b == tomb.last_hash && a == []) _ _ (delete_remote-Keeps p tomb.last_hash ne)
              (λ w. settle-Keeps la lb le (forget_tomb E run p w))))

    -- However the decision for another path ends, it leaves a file of the hub that is neither that path nor
    -- its sidecar nor a blob.
    pub decide-Keeps : Keeps (decide E run p)
    unfolding decide
    decide-Keeps w =
        let la = lookup p run.local_snap.files in
        let lb = lookup p run.remote_snap.files in
        let le = lookup p w.files in
        if_some-Keeps (lookup p w.tombs) _ (settle E run p la lb le)
          (λ tomb.
            if-Keeps (entry_hash le == []) _ _ (guard_deletion-Keeps la lb le tomb)
              (settle-Keeps la lb le))
          (settle-Keeps la lb le) w
