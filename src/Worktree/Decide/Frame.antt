-- ===== src/Worktree/Decide/Frame.antt =====
-- internal/runner/worktree.go, `decide`: it touches its own path, that path's sidecar, and blobs.
use yggsync.Prelude.{◌≡◌, ◌≢◌, refl, ap, sym, subst, ◌∙◌, false, [], Text}
use yggsync.Prelude.{Option, ◌==◌, text_eq, ==_of_ne, ◌&&◌, codes, inl, inr}
use yggsync.Prelude.Dict.{lookup, erase, lookup-insert, lookup-erase}
use yggsync.Prelude.Results.{done, resume-ok, resume-read, branch, if_some-cases}
use yggsync.Backend.{IsLawful}
use yggsync.Ledger.{FileEntry}
use yggsync.Worktree.State.{
  FileState, Env, Setup, World, hash_of, entry_hash, state_of, on_local, on_remote,
}
use yggsync.Worktree.Operations.{
  read_local, read_remote, flag, copy_to_local, copy_to_remote, write_both, delete_local,
  record_tombstone, recorded, delete_remote,
}
use yggsync.Worktree.Operations.Removals.{other_tombs}
use yggsync.Worktree.Operations.Effects.{
  IsVaultPath, Wrote, record_file-Recorded, copy_to_local-Wrote, copy_to_remote-Wrote,
  write_both-Wrote, on_local-ok, on_remote-ok,
}
use yggsync.Worktree.Decide.{
  sidecar, decide_converged, merge_attempt, keep_both, resolve_divergence, never_had, settle,
  guard_deletion, decide,
}

-- Neither the replicas nor the ledger have changed at the path `q`.
pub record Untouched (E : Env) (q : Text) (w w' : World E) : Type 0 where
  pub local_read : E.local.read w'.local q ≡ E.local.read w.local q
  pub remote_read : E.remote.read w'.remote q ≡ E.remote.read w.remote q
  pub entry : lookup q w'.files ≡ lookup q w.files
  pub tombstone : lookup q w'.tombs ≡ lookup q w.tombs

pub Untouched-trans :
    (E : Env) (q : Text) (u v w : World E)
    → Untouched E q u v
    → Untouched E q v w
    → Untouched E q u w
Untouched-trans E q u v w a b = record {
  local_read = b.local_read ∙ a.local_read;
  remote_read = b.remote_read ∙ a.remote_read;
  entry = b.entry ∙ a.entry;
  tombstone = b.tombstone ∙ a.tombstone;
}

Wrote-Untouched :
    (E : Env) (p q c : Text) (w w' : World E)
    → IsVaultPath q
    → q ≢ p
    → Wrote E p c w w'
    → Untouched E q w w'
Wrote-Untouched E p q c w w' v ne h = record {
  local_read = rw (h.local_reads q v, ==_of_ne q p ne);
  remote_read = rw (h.remote_reads q v, ==_of_ne q p ne);
  entry = rw (h.entries q, ==_of_ne q p ne);
  tombstone = rw (h.tombstones q, ==_of_ne q p ne);
}

module _ (E : Env) (run : Setup) (local_law : IsLawful E.local) (remote_law : IsLawful E.remote)
    (real : run.dry_run ≡ false) (p q : Text) (v : IsVaultPath q) (ne : q ≢ p) where
  keep : (w w' : World E) → w ≡ w' → Untouched E q w w'
  keep w w' e =
      subst (Untouched E q w) e
        (record { local_read = refl; remote_read = refl; entry = refl; tombstone = refl })

  copy_to_local-Untouched :
      (st : FileState) (w w' : World E)
      → copy_to_local E run p st w ≡ (done, w')
      → Untouched E q w w'
  copy_to_local-Untouched st w w' h =
      let (c, _, wrote) = copy_to_local-Wrote E run local_law remote_law real p st w w' h in
      Wrote-Untouched E p q c w w' v ne wrote

  copy_to_remote-Untouched :
      (st : FileState) (w w' : World E)
      → copy_to_remote E run p st w ≡ (done, w')
      → Untouched E q w w'
  copy_to_remote-Untouched st w w' h =
      let (c, _, wrote) = copy_to_remote-Wrote E run local_law remote_law real p st w w' h in
      Wrote-Untouched E p q c w w' v ne wrote

  record_tombstone-Untouched :
      (by : Text) (w w' : World E) → record_tombstone E run p by w ≡ (done, w') → Untouched E q w w'
  unfolding record_tombstone
  record_tombstone-Untouched by w w' h = record {
    local_read = ap (λ z. E.local.read z.1.local q) (sym h);
    remote_read = ap (λ z. E.remote.read z.1.remote q) (sym h);
    entry = ap (λ z. lookup q z.1.files) (sym h) ∙ rw (lookup-erase q p w.files, ==_of_ne q p ne);
    tombstone = other_tombs E run local_law remote_law real p q by w w' h ne;
  }

  delete_local-Untouched :
      (w w' : World E) → delete_local E run p w ≡ (done, w') → Untouched E q w w'
  unfolding delete_local
  delete_local-Untouched w w' h =
      let remove = on_local {E = E} (E.local.remove p) in
      let (_, w1, removed, h1) =
        resume-ok (remove w) (λ _. record_tombstone E run p (codes "hub")) h in
      let (s, e, e1) = on_local-ok {E = E} (E.local.remove p) w w1 removed in
      Untouched-trans E q w w1 w'
        (record {
          local_read =
              ap (λ z. E.local.read z.local q) e1
              ∙ rw (local_law.read-remove p w.local s e q, ==_of_ne q p ne);
          remote_read = ap (λ z. E.remote.read z.remote q) e1;
          entry = ap (λ z. lookup q z.files) e1;
          tombstone = ap (λ z. lookup q z.tombs) e1;
        })
        (record_tombstone-Untouched (codes "hub") w1 w' h1)

  delete_remote-Untouched :
      (last : Text) (w w' : World E)
      → delete_remote E run p last w ≡ (done, w')
      → Untouched E q w w'
  unfolding delete_remote
  delete_remote-Untouched last w w' h =
      let remove = on_remote {E = E} (E.remote.remove p) in
      let (_, w1, removed, h1) =
        resume-ok (remove w) (λ _. record_tombstone E run p run.client_id) h in
      let (s, e, e1) = on_remote-ok {E = E} (E.remote.remove p) w w1 removed in
      Untouched-trans E q w w1 w'
        (record {
          local_read = ap (λ z. E.local.read z.local q) e1;
          remote_read =
              ap (λ z. E.remote.read z.remote q) e1
              ∙ rw (remote_law.read-remove p w.remote s e q, ==_of_ne q p ne);
          entry = ap (λ z. lookup q z.files) e1;
          tombstone = ap (λ z. lookup q z.tombs) e1;
        })
        (record_tombstone-Untouched run.client_id w1 w' h1)

  flag-Untouched : (w w' : World E) → Untouched E q (flag E run p w).1 w' → Untouched E q w w'
  unfolding flag
  flag-Untouched w w' h = record {
    local_read = h.local_read;
    remote_read = h.remote_read;
    entry = h.entry;
    tombstone = h.tombstone;
  }

  keep_both-Untouched :
      (ca : Text) (la lb : FileState) (w w' : World E)
      → q ≢ sidecar E run p
      → keep_both E run p ca la lb w ≡ (done, w')
      → Untouched E q w w'
  unfolding keep_both flag
  keep_both-Untouched ca la lb w w' ns h =
      let side = sidecar E run p in
      let w0 = (flag E run p w).1 in
      let (_, w1, h1, h2) =
        resume-ok (write_both E run side ca la w0) (λ _. copy_to_local E run p lb) h in
      Untouched-trans E q w w1 w'
        (flag-Untouched w w1 (
          Wrote-Untouched E side q ca w0 w1 v ns
            (write_both-Wrote E run local_law remote_law real side ca la w0 w1 h1)))
        (copy_to_local-Untouched lb w1 w' h2)

  resolve_divergence-Untouched :
      (a b l : Text) (la lb : FileState) (w w' : World E)
      → q ≢ sidecar E run p
      → resolve_divergence E run p a b l la lb w ≡ (done, w')
      → Untouched E q w w'
  unfolding resolve_divergence read_local read_remote flag
  resolve_divergence-Untouched a b l la lb w w' ns h = elim (branch (a == []) _ _ w h) [
    | inl (_, h1) ↦ flag-Untouched w w' (copy_to_local-Untouched lb (flag E run p w).1 w' h1)
    | inr (_, h1) ↦ elim (branch (b == []) _ _ w h1) [
      | inl (_, h2) ↦ flag-Untouched w w' (copy_to_remote-Untouched la (flag E run p w).1 w' h2)
      | inr (_, h2) ↦
          let (ca, _, h3) = resume-read (E.local.read w.local p) w _ h2 in
          let (cb, _, h4) = resume-read (E.remote.read w.remote p) w _ h3 in
          elim (if_some-cases (merge_attempt E run w.remote l ca cb) _ _ w h4) [
            | inl (_, h5) ↦ keep_both-Untouched ca la lb w w' ns h5
            | inr (t, _, h5) ↦
                Wrote-Untouched E p q t w w' v ne
                  (write_both-Wrote E run local_law remote_law real p t lb w w' h5)
          ]
    ]
  ]

  -- A world that differs from `w` at the path `p` only, in what is noted of it.
  noted-Untouched :
      (w z w' : World E)
      → (z.local ≡ w.local) × (z.remote ≡ w.remote)
      → lookup q z.files ≡ lookup q w.files
      → lookup q z.tombs ≡ lookup q w.tombs
      → Untouched E q z w'
      → Untouched E q w w'
  noted-Untouched w z w' (l, r) f t h = record {
    local_read = h.local_read ∙ ap (λ s. E.local.read s q) l;
    remote_read = h.remote_read ∙ ap (λ s. E.remote.read s q) r;
    entry = h.entry ∙ f;
    tombstone = h.tombstone ∙ t;
  }

  decide_converged-Untouched :
      (a l : Text) (le : Option FileEntry) (lb : FileState) (w w' : World E)
      → decide_converged E run p a l le lb w ≡ (done, w')
      → Untouched E q w w'
  unfolding decide_converged read_remote
  decide_converged-Untouched a l le lb w w' h = elim (branch (a == []) _ _ w h) [
    | inl (_, h1) ↦ elim (if_some-cases le _ _ w h1) [
      | inl (_, h2) ↦ keep w w' (ap (λ z. z.1) h2)
      | inr (_, _, h2) ↦
          noted-Untouched w (record w { files = erase p w.files }) w' (refl, refl)
            (rw (lookup-erase q p w.files, ==_of_ne q p ne)) refl (keep _ w' (ap (λ z. z.1) h2))
    ]
    | inr (e, h1) ↦ elim (branch (a == l) _ _ w h1) [
      | inl (_, h2) ↦ keep w w' (ap (λ z. z.1) h2)
      | inr (_, h2) ↦
          let (d, _, h3) = resume-read (E.remote.read w.remote p) w _ h2 in
          let r =
            record_file-Recorded E run local_law remote_law real p d (codes "both") lb w w' h3 in
          record {
            local_read = ap (λ s. E.local.read s q) r.local_same;
            remote_read = r.remote_same q v;
            entry =
                ap (lookup q) r.files_lem
                ∙ rw (
                  lookup-insert q p (recorded E run d lb (codes "both")) w.files,
                  ==_of_ne q p ne,
                );
            tombstone = ap (lookup q) r.tombs_lem ∙ rw (lookup-erase q p w.tombs, ==_of_ne q p ne);
          }
    ]
  ]

  settle-Untouched :
      (la lb : Option FileState) (le : Option FileEntry) (w w' : World E)
      → q ≢ sidecar E run p
      → settle E run p la lb le w ≡ (done, w')
      → Untouched E q w w'
  unfolding settle
  settle-Untouched la lb le w w' ns h =
      let a = hash_of la in
      let b = hash_of lb in
      let l = entry_hash le in
      elim (branch (a == b) _ _ w h) [
        | inl (_, h1) ↦ decide_converged-Untouched a l le (state_of lb) w w' h1
        | inr (_, h1) ↦ elim (branch (a == l) _ _ w h1) [
          | inl (_, h2) ↦ elim (branch (b == []) _ _ w h2) [
            | inl (_, h3) ↦ delete_local-Untouched w w' h3
            | inr (_, h3) ↦ copy_to_local-Untouched (state_of lb) w w' h3
          ]
          | inr (_, h2) ↦ elim (branch (b == l) _ _ w h2) [
            | inl (_, h3) ↦ elim (branch (a == []) _ _ w h3) [
              | inl (_, h4) ↦ elim (branch (never_had E run le) _ _ w h4) [
                | inl (_, h5) ↦ copy_to_local-Untouched (state_of lb) w w' h5
                | inr (_, h5) ↦ delete_remote-Untouched l w w' h5
              ]
              | inr (_, h4) ↦ copy_to_remote-Untouched (state_of la) w w' h4
            ]
            | inr (_, h3) ↦
                resolve_divergence-Untouched a b l (state_of la) (state_of lb) w w' ns h3
          ]
        ]
      ]

  -- A successful `decide` leaves every other path of the vault as it was, but for the sidecar.
  pub decide-Untouched :
      (w w' : World E) → q ≢ sidecar E run p → decide E run p w ≡ (done, w') → Untouched E q w w'
  unfolding decide guard_deletion
  decide-Untouched w w' ns h =
      let la = lookup p run.local_snap.files in
      let lb = lookup p run.remote_snap.files in
      let le = lookup p w.files in
      elim (if_some-cases (lookup p w.tombs) _ _ w h) [
        | inl (_, h1) ↦ settle-Untouched la lb le w w' ns h1
        | inr (tomb, _, h1) ↦ elim (branch (entry_hash le == []) _ _ w h1) [
          | inr (_, h2) ↦ settle-Untouched la lb le w w' ns h2
          | inl (_, h2) ↦ elim (branch (hash_of la == [] && hash_of lb == []) _ _ w h2) [
            | inl (_, h3) ↦ keep w w' (ap (λ z. z.1) h3)
            | inr (_, h3) ↦
                elim (branch (hash_of la == tomb.last_hash && hash_of lb == []) _ _ w h3) [
                  | inl (_, h4) ↦ delete_local-Untouched w w' h4
                  | inr (_, h4) ↦
                      elim (branch (hash_of lb == tomb.last_hash && hash_of la == []) _ _ w h4) [
                        | inl (_, h5) ↦ delete_remote-Untouched tomb.last_hash w w' h5
                        | inr (_, h5) ↦
                            noted-Untouched w (record w { tombs = erase p w.tombs }) w' (refl, refl)
                              refl (rw (lookup-erase q p w.tombs, ==_of_ne q p ne))
                              (settle-Untouched la lb le (record w { tombs = erase p w.tombs }) w'
                                ns h5)
                      ]
                ]
          ]
        ]
      ]
