-- ===== src/Ledger/Storage/Laws.antt =====
-- internal/ledger/ledger.go: what `Load` reads after a `Save`, complete or interrupted by an error.
use yggsync.Prelude.{◌≡◌, ◌≢◌, refl, ap, sym, subst, ◌∙◌, ◌⊎◌, inl, inr, Text, some}
use yggsync.Prelude.{text_eq, ==_of_eq, ==_of_ne, arith}
use yggsync.Prelude.Results.{
  not_exist, Result, ok, err, Done, done, resume, ◌>>◌, Result-cases, resume-ok,
}
use yggsync.Backend.{Time, Entry, Fs, IsLawful}
use yggsync.Prelude.Int.{pos, int_eq}
use yggsync.Ledger.{Ledger, Json, RoundTrips, ensure_maps}
use yggsync.Ledger.Paths.{join, ledger_file, bak_file, tmp_file, names_differ}
use yggsync.Ledger.Storage.{dir_mode, file_mode, stamped, read_ledger, choose, load, rotate, save}

module _ (F : Fs) (json : Json) (law : IsLawful F) (dir : Text) where
  abbrev primary : Text
  primary = join dir ledger_file

  abbrev bak : Text
  bak = join dir bak_file

  abbrev tmp : Text
  tmp = join dir tmp_file

  -- What a rotation may leave: all as it was, a ledger without a sure backup, or the ledger as backup.
  pub data Rotated (s t : F.State) : Type 0 where
    untouched : F.read t primary ≡ F.read s primary → F.read t bak ≡ F.read s bak → Rotated s t
    unbacked : F.read t primary ≡ F.read s primary → F.read s primary ≢ err not_exist → Rotated s t
    moved :
        F.read t primary ≡ err not_exist
        → F.read t bak ≡ F.read s primary
        → F.read s primary ≢ err not_exist
        → Rotated s t

  read-rename_self :
      (o n : Text) (s t : F.State)
      → o ≢ n
      → F.rename o n s ≡ (done, t)
      → (F.read t n ≡ F.read s o) × (F.read t o ≡ err not_exist)
  read-rename_self o n s t ne e = (
    law.read-rename o n s t ne e n ∙ rw (==_of_eq n n refl),
    law.read-rename o n s t ne e o ∙ rw (==_of_ne o n ne, ==_of_eq o o refl),
  )

  -- The last step of a rotation, whether it succeeds or not.
  rename-Rotated :
      (s s1 : F.State) (r : Done × F.State)
      → F.rename primary bak s1 ≡ r
      → F.read s primary ≢ err not_exist
      → F.read s1 primary ≡ F.read s primary
      → F.read s1 tmp ≡ F.read s tmp
      → Rotated s r.1 × (F.read r.1 tmp ≡ F.read s tmp)
  rename-Rotated s s1 (ok _, t) e there same_primary same_tmp =
      let (p≢b, t≢p, t≢b) = names_differ dir in
      (
        moved (read-rename_self primary bak s1 t p≢b e).1
            ((read-rename_self primary bak s1 t p≢b e).0 ∙ same_primary) there,
        law.read-rename primary bak s1 t p≢b e tmp
            ∙ rw (==_of_ne tmp bak t≢b, ==_of_ne tmp primary t≢p) same_tmp,
      )
  rename-Rotated s s1 (err x, t) e there same_primary same_tmp = (
    unbacked (law.rename_failed primary bak s1 t x e primary ∙ same_primary) there,
    law.rename_failed primary bak s1 t x e tmp ∙ same_tmp,
  )

  stat_found : (s : F.State) (p : Text) {e : Entry} → F.stat s p ≡ ok e → F.read s p ≢ err not_exist
  stat_found s p found absent = let (e, none_here) = law.stat_absent s p absent in cc

  rotate-Rotated :
      (s : F.State)
      → Rotated s (rotate F json dir s).1 × (F.read (rotate F json dir s).1 tmp ≡ F.read s tmp)
  unfolding rotate
  rotate-Rotated s = elim (Result-cases (F.stat s primary)) [
    | inr (e, gone) ↦ rw (gone, rotate) (untouched refl refl, refl)
    | inl (entry, found) ↦
        let (p≢b, t≢p, t≢b) = names_differ dir in
        rw (found, rotate)
          (rename-Rotated s (F.remove bak s).1 _ refl (stat_found s primary found)
            (law.remove_frame bak s primary p≢b) (law.remove_frame bak s tmp t≢b))
  ]

  -- `Load` finds a ledger or an empty hub, and no backup stands in for a damaged primary.
  abbrev pub IsSound : F.State → Type 0
  IsSound s =
      (F.read s primary ≡ err not_exist) ⊎ ((l : Ledger) × (read_ledger F json s primary ≡ ok l))

  read_ledger-same :
      (s t : F.State) (p q : Text)
      → F.read t q ≡ F.read s p
      → read_ledger F json t q ≡ read_ledger F json s p
  unfolding read_ledger
  read_ledger-same s t p q e = rw e

  -- `Load` from what it reads of its two files.
  load_lem :
      (s : F.State) {p b : Result Ledger}
      → read_ledger F json s primary ≡ p
      → read_ledger F json s bak ≡ b
      → load F json dir s ≡ choose F json p b
  unfolding load
  load_lem s hp hb = rw (hp, hb)

  read_ledger_absent :
      (s : F.State) (p : Text) → F.read s p ≡ err not_exist → read_ledger F json s p ≡ err not_exist
  unfolding read_ledger
  read_ledger_absent s p e = rw e

  read_ledger_found :
      (s : F.State) (p raw : Text) {l : Ledger}
      → F.read s p ≡ ok raw
      → json.unmarshal raw ≡ some l
      → read_ledger F json s p ≡ ok l
  unfolding read_ledger
  read_ledger_found s p raw e h = ground arith

  load-Rotated : (s t : F.State) → IsSound s → Rotated s t → load F json dir t ≡ load F json dir s
  load-Rotated s t sound (untouched p b) =
      load_lem t (read_ledger-same s t primary primary p) (read_ledger-same s t bak bak b)
      ∙ sym (load_lem s refl refl)
  load-Rotated s t (inl gone) (unbacked p there) = absurd (there gone)
  load-Rotated s t (inr (l, e)) (unbacked p there) =
      load_lem t (read_ledger-same s t primary primary p ∙ e) refl ∙ sym (load_lem s e refl)
  load-Rotated s t (inl gone) (moved p b there) = absurd (there gone)
  load-Rotated s t (inr (l, e)) (moved p b there) =
      load_lem t (read_ledger_absent t primary p) (read_ledger-same s t primary bak b ∙ e)
      ∙ sym (load_lem s e refl)

  ensure_maps-stamped : (l : Ledger) → ensure_maps (stamped l) ≡ stamped l
  unfolding ensure_maps stamped
  ensure_maps-stamped l = rw (==_of_ne (pos 3) (pos 0) (λ e. cc), ensure_maps)

  pub IsSound-reads : (s t : F.State) → F.read t primary ≡ F.read s primary → IsSound s → IsSound t
  IsSound-reads s t p (inl gone) = inl (p ∙ gone)
  IsSound-reads s t p (inr (l, e)) = inr (l, read_ledger-same s t primary primary p ∙ e)

  load-reads :
      (s t : F.State)
      → ((q : Text) → q ≢ tmp → F.read t q ≡ F.read s q)
      → load F json dir t ≡ load F json dir s
  load-reads s t h =
      let (p≢b, t≢p, t≢b) = names_differ dir in
      load_lem t (read_ledger-same s t primary primary (h primary (λ e. t≢p (sym e))))
        (read_ledger-same s t bak bak (h bak (λ e. t≢b (sym e))))
      ∙ sym (load_lem s refl refl)

  module _ (l : Ledger) (now : Time) (json_ok : RoundTrips json (stamped l)) where
    -- Between the ledger of before and the new one there is no third.
    abbrev pub OldOrNew : F.State → F.State → Type 0
    OldOrNew s t = (load F json dir t ≡ load F json dir s) ⊎ (load F json dir t ≡ ok (stamped l))

    abbrev raw : Text
    raw = json.marshal (stamped l)

    load_committed : (t : F.State) → F.read t primary ≡ ok raw → load F json dir t ≡ ok (stamped l)
    load_committed t e =
        load_lem t (read_ledger_found t primary raw e json_ok) refl ∙ ap ok (ensure_maps-stamped l)

    commit_lem :
        (s t : F.State) (r : Done × F.State)
        → F.rename tmp primary t ≡ r
        → load F json dir t ≡ load F json dir s
        → F.read t tmp ≡ ok raw
        → OldOrNew s r.1
    commit_lem s t (ok _, u) e same written =
        inr
          (load_committed u ((read-rename_self tmp primary t u (names_differ dir).1 e).0 ∙ written))
    commit_lem s t (err x, u) e same written =
        inl (load-reads t u (λ q _. law.rename_failed tmp primary t u x e q) ∙ same)

    rotated_lem :
        (s : F.State) (r : Done × F.State)
        → load F json dir r.1 ≡ load F json dir s
        → F.read r.1 tmp ≡ ok raw
        → OldOrNew s (resume r (λ _. F.rename tmp primary)).1
    rotated_lem s (ok _, t) same written = commit_lem s t (F.rename tmp primary t) refl same written
    rotated_lem s (err x, t) same written = inl same

    written_lem :
        (s : F.State) (r : Done × F.State)
        → F.write_file tmp raw file_mode now s ≡ r
        → IsSound s
        → OldOrNew s (resume r (λ _. rotate F json dir >> F.rename tmp primary)).1
    written_lem s (ok _, t) e sound =
        let (p≢b, t≢p, t≢b) = names_differ dir in
        let kept : (q : Text) → q ≢ tmp → F.read t q ≡ F.read s q =
          λ q ne. rw (law.read-write_file tmp raw file_mode now s t e q, ==_of_ne q tmp ne) in
        let (turned, same_tmp) = rotate-Rotated t in
        rotated_lem s (rotate F json dir t)
          (load-Rotated t (rotate F json dir t).1
              (IsSound-reads s t (kept primary (λ q. t≢p (sym q))) sound) turned
            ∙ load-reads s t kept)
          (same_tmp
            ∙ rw (law.read-write_file tmp raw file_mode now s t e tmp, ==_of_eq tmp tmp refl))
    written_lem s (err x, t) e sound = inl (
        load-reads s t λ q ne.
          subst (λ (z : Done × F.State). F.read z.1 q ≡ F.read s q) e
            (law.write_file_frame tmp raw file_mode now s q ne))

    made_lem :
        (s : F.State) (r : Done × F.State)
        → F.mkdir_all dir dir_mode s ≡ r
        → IsSound s
        → OldOrNew s
            (resume r (λ _.
              F.write_file tmp raw file_mode now >> (rotate F json dir >> F.rename tmp primary))).1
    made_lem s (ok _, t) e sound =
        let kept : (q : Text) → F.read t q ≡ F.read s q = λ q.
          subst (λ (z : Done × F.State). F.read z.1 q ≡ F.read s q) e
            (law.read-mkdir_all dir dir_mode s q) in
        rw (← load-reads s t (λ q _. kept q)) (
          written_lem t (F.write_file tmp raw file_mode now t) refl
            (IsSound-reads s t (kept primary) sound))
    made_lem s (err x, t) e sound = inl (
        load-reads s t λ q _.
          subst (λ (z : Done × F.State). F.read z.1 q ≡ F.read s q) e
            (law.read-mkdir_all dir dir_mode s q))

    -- Whichever step of a save fails, the next load finds the old ledger or the new one, whole, where
    -- the ledger on disk was sound before and the new one's JSON reads back.
    pub load-save_any : (s : F.State) → IsSound s → OldOrNew s (save F json dir now l s).1
    unfolding save
    load-save_any s sound = made_lem s (F.mkdir_all dir dir_mode s) refl sound

    committed_lem :
        (s : F.State) (r : Done × F.State) {t : F.State}
        → F.write_file tmp raw file_mode now s ≡ r
        → resume r (λ _. rotate F json dir >> F.rename tmp primary) ≡ (done, t)
        → load F json dir t ≡ ok (stamped l)
    committed_lem s r {t} e h =
        let (_, s2, wrote, h2) = resume-ok r (λ _. rotate F json dir >> F.rename tmp primary) h in
        let (_, s3, turned, h3) = resume-ok (rotate F json dir s2) (λ _. F.rename tmp primary) h2 in
        let same_tmp : F.read s3 tmp ≡ F.read s2 tmp =
          subst (λ (z : Done × F.State). F.read z.1 tmp ≡ F.read s2 tmp) turned
            (rotate-Rotated s2).1 in
        load_committed t (
          (read-rename_self tmp primary s3 t (names_differ dir).1 h3).0
          ∙ same_tmp
          ∙ rw (
            law.read-write_file tmp raw file_mode now s s2 (e ∙ wrote) tmp,
            ==_of_eq tmp tmp refl,
          ))

    -- After a save that succeeds a load finds what was saved, in the current format, where its JSON
    -- reads back.
    pub load-save :
        (s : F.State) {t : F.State}
        → save F json dir now l s ≡ (done, t)
        → load F json dir t ≡ ok (stamped l)
    unfolding save
    load-save s {t} h =
        let (_, s1, made, h1) =
          resume-ok (F.mkdir_all dir dir_mode s)
            (λ _. F.write_file tmp raw file_mode now >> (rotate F json dir >> F.rename tmp primary))
            h in
        committed_lem s1 (F.write_file tmp raw file_mode now s1) refl h1
