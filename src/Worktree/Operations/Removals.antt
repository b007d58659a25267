-- ===== src/Worktree/Operations/Removals.antt =====
-- internal/runner/worktree.go: what `deleteLocal` and `deleteRemote` have done where they succeed.
use yggsync.Prelude.{◌≡◌, ◌≢◌, refl, ap, sym, ◌∙◌, false, Text}
use yggsync.Prelude.{◌==◌, text_eq, if◌then◌else◌, ==_of_ne, codes, text_dec, holds}
use yggsync.Prelude.Dict.{lookup, erase, lookup-insert, lookup-erase}
use yggsync.Prelude.Results.{Result, err, not_exist, done, resume-ok}
use yggsync.Backend.{IsLawful}
use yggsync.Worktree.State.{Env, Setup, World, on_local, on_remote}
use yggsync.Worktree.Operations.{record_tombstone, delete_local, delete_remote}
use yggsync.Worktree.Operations.Effects.{Erased, on_local-ok, on_remote-ok}

module _ (E : Env) (run : Setup) (local_law : IsLawful E.local) (remote_law : IsLawful E.remote)
    (real : run.dry_run ≡ false) where
  if_gone :
      (p q : Text) (r : Text → Result Text)
      → r p ≡ err not_exist
      → r q ≡ (if q == p then err not_exist else r q)
  if_gone p q r h = elim (text_dec q p) as (λ d. r q ≡ (if holds d then err not_exist else r q)) [
    | yes e ↦ ap r e ∙ h
    | no _ ↦ refl
  ]

  -- The tombstone of `p` leaves those of other paths alone.
  pub other_tombs :
      (p q by : Text) (w w' : World E)
      → record_tombstone E run p by w ≡ (done, w')
      → q ≢ p
      → lookup q w'.tombs ≡ lookup q w.tombs
  unfolding record_tombstone
  other_tombs p q by w w' h ne =
      ap (λ z. lookup q z.1.tombs) (sym h) ∙ rw (lookup-insert, ==_of_ne q p ne)

  record_tombstone-Erased :
      (p by : Text) (w w1 w' : World E)
      → ((q : Text)
          → E.local.read w1.local q ≡ (if q == p then err not_exist else E.local.read w.local q))
      → ((q : Text)
          → E.remote.read w1.remote q
            ≡ (if q == p then err not_exist else E.remote.read w.remote q))
      → w1.files ≡ w.files
      → w1.tombs ≡ w.tombs
      → w1.conflicts ≡ w.conflicts
      → record_tombstone E run p by w1 ≡ (done, w')
      → Erased E p w w'
  unfolding record_tombstone
  record_tombstone-Erased p by w w1 w' on_l on_r fs ts cs h = record {
    local_reads = λ q _. ap (λ z. E.local.read z.1.local q) (sym h) ∙ on_l q;
    remote_reads = λ q _. ap (λ z. E.remote.read z.1.remote q) (sym h) ∙ on_r q;
    entries = λ q.
        ap (λ z. lookup q z.1.files) (sym h)
        ∙ ap (λ d. lookup q (erase p d)) fs
        ∙ lookup-erase q p w.files;
    tombstones = λ q ne. other_tombs p q by w1 w' h ne ∙ ap (lookup q) ts;
    flags = ap (λ z. z.1.conflicts) (sym h) ∙ cs;
  }

  pub delete_local-Erased :
      (p : Text) (w w' : World E)
      → E.remote.read w.remote p ≡ err not_exist
      → delete_local E run p w ≡ (done, w')
      → Erased E p w w'
  unfolding delete_local
  delete_local-Erased p w w' gone h =
      let remove = on_local {E = E} (E.local.remove p) in
      let (_, w1, removed, h1) =
        resume-ok (remove w) (λ _. record_tombstone E run p (codes "hub")) h in
      let (s, e, e1) = on_local-ok {E = E} (E.local.remove p) w w1 removed in
      record_tombstone-Erased p (codes "hub") w w1 w'
        (λ q. ap (λ z. E.local.read z.local q) e1 ∙ local_law.read-remove p w.local s e q)
        (λ q. ap (λ z. E.remote.read z.remote q) e1 ∙ if_gone p q (E.remote.read w.remote) gone)
        (ap (λ z. z.files) e1) (ap (λ z. z.tombs) e1) (ap (λ z. z.conflicts) e1) h1

  pub delete_remote-Erased :
      (p last : Text) (w w' : World E)
      → E.local.read w.local p ≡ err not_exist
      → delete_remote E run p last w ≡ (done, w')
      → Erased E p w w'
  unfolding delete_remote
  delete_remote-Erased p last w w' gone h =
      let remove = on_remote {E = E} (E.remote.remove p) in
      let (_, w1, removed, h1) =
        resume-ok (remove w) (λ _. record_tombstone E run p run.client_id) h in
      let (s, e, e1) = on_remote-ok {E = E} (E.remote.remove p) w w1 removed in
      record_tombstone-Erased p run.client_id w w1 w'
        (λ q. ap (λ z. E.local.read z.local q) e1 ∙ if_gone p q (E.local.read w.local) gone)
        (λ q. ap (λ z. E.remote.read z.remote q) e1 ∙ remote_law.read-remove p w.remote s e q)
        (ap (λ z. z.files) e1) (ap (λ z. z.tombs) e1) (ap (λ z. z.conflicts) e1) h1
