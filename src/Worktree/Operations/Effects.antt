-- ===== src/Worktree/Operations/Effects.antt =====
-- internal/runner/worktree.go: what a primitive operation that succeeds has done.
use yggsync.Prelude.{◌≡◌, ◌≢◌, refl, ap, sym, subst, ◌∙◌, false, Text, none, some}
use yggsync.Prelude.{◌==◌, text_eq, if◌then◌else◌, codes, text_dec, holds}
use yggsync.Prelude.Dict.{lookup, insert, erase, lookup-insert, lookup-erase}
use yggsync.Prelude.Results.{
  Result, ok, err, not_exist, done, Action, resume-ok, resume-read, ◌>>=◌, ◌>>◌, pure,
}
use yggsync.Backend.{IsLawful}
use yggsync.Ledger.{FileEntry}
use yggsync.Ledger.Paths.{dir_name, blob_path}
use yggsync.Ledger.Blobs.{put_blob}
use yggsync.Ledger.Blobs.Laws.{put_blob_frame}
use yggsync.Worktree.State.{FileState, Env, Setup, World, on_local, on_remote}
use yggsync.Worktree.Operations.{
  read_local, read_remote, recorded, note_file, record_file, copy_to_local, copy_to_remote,
  both_state, write_both,
}

pub on_local-ok :
    {E : Env} {A : Type 0} (m : Action E.local.State A) (w w' : World E) {a : A}
    → on_local m w ≡ (ok a, w')
    → (s : E.local.State) × (m w.local ≡ (ok a, s)) × (w' ≡ record w { local = s })
on_local-ok m w w' {a} h =
    let e : (m w.local).0 ≡ ok a = ap (λ z. z.0) h in
    ((m w.local).1, λ i. (e i, (m w.local).1), sym (ap (λ z. z.1) h))

pub on_remote-ok :
    {E : Env} {A : Type 0} (m : Action E.remote.State A) (w w' : World E) {a : A}
    → on_remote m w ≡ (ok a, w')
    → (s : E.remote.State) × (m w.remote ≡ (ok a, s)) × (w' ≡ record w { remote = s })
on_remote-ok m w w' {a} h =
    let e : (m w.remote).0 ≡ ok a = ap (λ z. z.0) h in
    ((m w.remote).1, λ i. (e i, (m w.remote).1), sym (ap (λ z. z.1) h))

-- The paths of the vault: the ledger keeps no blob there.
abbrev pub IsVaultPath : Text → Type 0
IsVaultPath p = (hash : Text) → p ≢ blob_path dir_name hash

-- The content `c` is at `p` on both replicas and in the ledger, and no tombstone is; every other
-- path is as it was.
pub record Wrote (E : Env) (p c : Text) (w w' : World E) : Type 0 where
  pub local_reads :
      (q : Text)
      → IsVaultPath q
      → E.local.read w'.local q ≡ (if q == p then ok c else E.local.read w.local q)
  pub remote_reads :
      (q : Text)
      → IsVaultPath q
      → E.remote.read w'.remote q ≡ (if q == p then ok c else E.remote.read w.remote q)
  pub entry : FileEntry
  pub hashed : entry.hash ≡ E.sha256_hex c
  pub entries : (q : Text) → lookup q w'.files ≡ (if q == p then some entry else lookup q w.files)
  pub tombstones : (q : Text) → lookup q w'.tombs ≡ (if q == p then none else lookup q w.tombs)
  pub flags : w'.conflicts ≡ w.conflicts

-- The path is gone from both replicas and from the ledger; every other path is as it was.
pub record Erased (E : Env) (p : Text) (w w' : World E) : Type 0 where
  pub local_reads :
      (q : Text)
      → IsVaultPath q
      → E.local.read w'.local q ≡ (if q == p then err not_exist else E.local.read w.local q)
  pub remote_reads :
      (q : Text)
      → IsVaultPath q
      → E.remote.read w'.remote q ≡ (if q == p then err not_exist else E.remote.read w.remote q)
  pub entries : (q : Text) → lookup q w'.files ≡ (if q == p then none else lookup q w.files)
  pub tombstones : (q : Text) → q ≢ p → lookup q w'.tombs ≡ lookup q w.tombs
  pub flags : w'.conflicts ≡ w.conflicts

module _ (E : Env) (run : Setup) (local_law : IsLawful E.local) (remote_law : IsLawful E.remote)
    (real : run.dry_run ≡ false) where
  -- After `record`: the ledger has the entry, and no tombstone; the replicas are as before, but for
  -- the blobs of the hub.
  pub record Recorded (p content by : Text) (st : FileState) (w w' : World E) : Type 0 where
    pub local_same : w'.local ≡ w.local
    pub remote_same :
        (q : Text) → IsVaultPath q → E.remote.read w'.remote q ≡ E.remote.read w.remote q
    pub files_lem : w'.files ≡ insert p (recorded E run content st by) w.files
    pub tombs_lem : w'.tombs ≡ erase p w.tombs
    pub flags_lem : w'.conflicts ≡ w.conflicts

  pub record_file-Recorded :
      (p content by : Text) (st : FileState) (w w' : World E)
      → record_file E run p content st by w ≡ (done, w')
      → Recorded p content by st w w'
  unfolding record_file
  record_file-Recorded p content by st w w' h =
      let blob = put_blob E.remote dir_name (E.sha256_hex content) content run.wall in
      let (_, w1, stored, noted) =
        resume-ok (on_remote {E = E} blob w) (λ _. note_file E run p (recorded E run content st by))
          (rw real at h) in
      let (s, put, e1) = on_remote-ok {E = E} blob w w1 stored in
      let e' : w' ≡ (note_file E run p (recorded E run content st by) w1).1 =
        sym (ap (λ z. z.1) noted) in
      record {
        local_same = ap (λ z. z.local) e' ∙ ap (λ z. z.local) e1;
        remote_same = λ q vault.
            ap (λ z. E.remote.read z.remote q) e'
            ∙ ap (λ z. E.remote.read z.remote q) e1
            ∙ subst (λ z. E.remote.read z.1 q ≡ E.remote.read w.remote q) put
                (put_blob_frame E.remote remote_law dir_name (E.sha256_hex content) content run.wall
                  w.remote q (vault (E.sha256_hex content)));
        files_lem =
            ap (λ z. z.files) e' ∙ ap (λ z. insert p (recorded E run content st by) z.files) e1;
        tombs_lem = ap (λ z. z.tombs) e' ∙ ap (λ z. erase p z.tombs) e1;
        flags_lem = ap (λ z. z.conflicts) e' ∙ ap (λ z. z.conflicts) e1;
      }

  -- A record after a write on one replica, or on both: `s` and `t` are the replicas then.
  Recorded-Wrote :
      (p content by : Text) (st : FileState) (w w1 w' : World E)
      → ((q : Text)
          → IsVaultPath q
          → E.local.read w1.local q ≡ (if q == p then ok content else E.local.read w.local q))
      → ((q : Text)
          → IsVaultPath q
          → E.remote.read w1.remote q ≡ (if q == p then ok content else E.remote.read w.remote q))
      → w1.files ≡ w.files
      → w1.tombs ≡ w.tombs
      → w1.conflicts ≡ w.conflicts
      → Recorded p content by st w1 w'
      → Wrote E p content w w'
  Recorded-Wrote p content by st w w1 w' on_l on_r fs ts cs r = record {
    local_reads = λ q v. ap (λ z. E.local.read z q) r.local_same ∙ on_l q v;
    remote_reads = λ q v. r.remote_same q v ∙ on_r q v;
    entry = recorded E run content st by;
    hashed = refl;
    entries = λ q.
        ap (lookup q) (r.files_lem ∙ ap (insert p (recorded E run content st by)) fs)
        ∙ lookup-insert q p (recorded E run content st by) w.files;
    tombstones = λ q. ap (lookup q) (r.tombs_lem ∙ ap (erase p) ts) ∙ lookup-erase q p w.tombs;
    flags = r.flags_lem ∙ cs;
  }

  -- The branch of a run that is no dry run.
  when_real :
      (x y : Action (World E) (Unit {0})) (w : World E) → (if run.dry_run then x else y) w ≡ y w
  when_real x y w = ap (λ b. (if b then x else y) w) real

  -- Writing what a path reads already changes nothing.
  if_same :
      (p q : Text) (r : Text → Result Text) (c : Text)
      → r p ≡ ok c
      → r q ≡ (if q == p then ok c else r q)
  if_same p q r c h = elim (text_dec q p) as (λ d. r q ≡ (if holds d then ok c else r q)) [
    | yes e ↦ ap r e ∙ h
    | no _ ↦ refl
  ]

  pub record_file-Wrote :
      (p c by : Text) (st : FileState) (w w' : World E)
      → E.local.read w.local p ≡ ok c
      → E.remote.read w.remote p ≡ ok c
      → record_file E run p c st by w ≡ (done, w')
      → Wrote E p c w w'
  record_file-Wrote p c by st w w' on_l on_r h =
      Recorded-Wrote p c by st w w w' (λ q _. if_same p q (E.local.read w.local) c on_l)
        (λ q _. if_same p q (E.remote.read w.remote) c on_r) refl refl refl
        (record_file-Recorded p c by st w w' h)

  pub copy_to_local-Wrote :
      (p : Text) (st : FileState) (w w' : World E)
      → copy_to_local E run p st w ≡ (done, w')
      → (c : Text) × (E.remote.read w.remote p ≡ ok c) × Wrote E p c w w'
  unfolding copy_to_local read_remote
  copy_to_local-Wrote p st w w' h =
      let write = λ (c : Text). on_local {E = E} (E.local.write_file p c st.mode st.mod_time) in
      let note = λ (c : Text). record_file E run p c st (codes "hub") in
      let (c, got, h1) =
        resume-read (E.remote.read w.remote p) w (λ c. write c >> note c)
          (sym (when_real (pure tt) (read_remote E run p >>= λ c. write c >> note c) w) ∙ h) in
      let (_, w1, wrote, h2) = resume-ok (write c w) (λ _. note c) h1 in
      let (s, e, e1) =
        on_local-ok {E = E} (E.local.write_file p c st.mode st.mod_time) w w1 wrote in
      (
        c,
        got,
        Recorded-Wrote p c (codes "hub") st w w1 w'
            (λ q _.
              ap (λ z. E.local.read z.local q) e1
              ∙ local_law.read-write_file p c st.mode st.mod_time w.local s e q)
            (λ q _.
              ap (λ z. E.remote.read z.remote q) e1 ∙ if_same p q (E.remote.read w.remote) c got)
            (ap (λ z. z.files) e1) (ap (λ z. z.tombs) e1) (ap (λ z. z.conflicts) e1)
            (record_file-Recorded p c (codes "hub") st w1 w' h2),
      )

  pub copy_to_remote-Wrote :
      (p : Text) (st : FileState) (w w' : World E)
      → copy_to_remote E run p st w ≡ (done, w')
      → (c : Text) × (E.local.read w.local p ≡ ok c) × Wrote E p c w w'
  unfolding copy_to_remote read_local
  copy_to_remote-Wrote p st w w' h =
      let write = λ (c : Text). on_remote {E = E} (E.remote.write_file p c st.mode st.mod_time) in
      let note = λ (c : Text). record_file E run p c st run.client_id in
      let (c, got, h1) =
        resume-read (E.local.read w.local p) w (λ c. write c >> note c)
          (sym (when_real (pure tt) (read_local E run p >>= λ c. write c >> note c) w) ∙ h) in
      let (_, w1, wrote, h2) = resume-ok (write c w) (λ _. note c) h1 in
      let (s, e, e1) =
        on_remote-ok {E = E} (E.remote.write_file p c st.mode st.mod_time) w w1 wrote in
      (
        c,
        got,
        Recorded-Wrote p c run.client_id st w w1 w'
            (λ q _. ap (λ z. E.local.read z.local q) e1 ∙ if_same p q (E.local.read w.local) c got)
            (λ q _.
              ap (λ z. E.remote.read z.remote q) e1
              ∙ remote_law.read-write_file p c st.mode st.mod_time w.remote s e q)
            (ap (λ z. z.files) e1) (ap (λ z. z.tombs) e1) (ap (λ z. z.conflicts) e1)
            (record_file-Recorded p c run.client_id st w1 w' h2),
      )

  pub write_both-Wrote :
      (p c : Text) (st : FileState) (w w' : World E)
      → write_both E run p c st w ≡ (done, w')
      → Wrote E p c w w'
  unfolding write_both
  write_both-Wrote p c st w w' h =
      let set = both_state E run st in
      let write_local = on_local {E = E} (E.local.write_file p c set.mode set.mod_time) in
      let write_remote = on_remote {E = E} (E.remote.write_file p c set.mode set.mod_time) in
      let note = record_file E run p c set run.client_id in
      let (_, w1, wrote_l, h1) =
        resume-ok (write_local w) (λ _. write_remote >> note)
          (sym (when_real (pure tt) (write_local >> (write_remote >> note)) w) ∙ h) in
      let (_, w2, wrote_r, h2) = resume-ok (write_remote w1) (λ _. note) h1 in
      let (s, e, e1) =
        on_local-ok {E = E} (E.local.write_file p c set.mode set.mod_time) w w1 wrote_l in
      let (t, e', e2) =
        on_remote-ok {E = E} (E.remote.write_file p c set.mode set.mod_time) w1 w2 wrote_r in
      Recorded-Wrote p c run.client_id set w w2 w'
        (λ q _.
          ap (λ z. E.local.read z.local q) e2
          ∙ ap (λ z. E.local.read z.local q) e1
          ∙ local_law.read-write_file p c set.mode set.mod_time w.local s e q)
        (λ q _.
          ap (λ z. E.remote.read z.remote q) e2
          ∙ remote_law.read-write_file p c set.mode set.mod_time w1.remote t e' q
          ∙ ap (λ z. if q == p then ok c else E.remote.read z.remote q) e1)
        (ap (λ z. z.files) e2 ∙ ap (λ z. z.files) e1) (ap (λ z. z.tombs) e2 ∙ ap (λ z. z.tombs) e1)
        (ap (λ z. z.conflicts) e2 ∙ ap (λ z. z.conflicts) e1)
        (record_file-Recorded p c run.client_id set w2 w' h2)
