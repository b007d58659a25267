-- ===== src/Ledger/Storage/Frame.antt =====
-- internal/ledger/ledger.go, `Save` and `Load`: the files that they do not touch.
use yggsync.Prelude.{◌≡◌, ◌≢◌, refl, ◌∙◌, Text, text_eq, ==_of_ne, inl, inr}
use yggsync.Prelude.Results.{ok, err, Done, ◌>>◌, Result-cases, resume-keeps}
use yggsync.Backend.{Time, Fs, IsLawful}
use yggsync.Ledger.{Ledger, Json}
use yggsync.Ledger.Paths.{join, ledger_file, bak_file, tmp_file, names_differ}
use yggsync.Ledger.Storage.{dir_mode, file_mode, read_ledger, load, rotate, save, stamped}

-- A path that is none of the ledger's three files.
pub record IsOther (dir q : Text) : Type 0 where
  pub not_ledger : q ≢ join dir ledger_file
  pub not_bak : q ≢ join dir bak_file
  pub not_tmp : q ≢ join dir tmp_file

module _ (F : Fs) (law : IsLawful F) (json : Json) (dir : Text) where
  rename_other :
      (o n q : Text) (s : F.State) (r : Done × F.State)
      → F.rename o n s ≡ r
      → o ≢ n
      → q ≢ o
      → q ≢ n
      → F.read r.1 q ≡ F.read s q
  rename_other o n q s (ok _, t) e apart not_o not_n =
      law.read-rename o n s t apart e q ∙ rw (==_of_ne q n not_n, ==_of_ne q o not_o) refl
  rename_other o n q s (err x, t) e apart not_o not_n = law.rename_failed o n s t x e q

  rotate-read :
      (s : F.State) (q : Text) → IsOther dir q → F.read (rotate F json dir s).1 q ≡ F.read s q
  unfolding rotate
  rotate-read s q other = elim (Result-cases (F.stat s (join dir ledger_file))) [
    | inr (e, gone) ↦ rw (gone, rotate) refl
    | inl (entry, found) ↦
        rw (found, rotate)
          (rename_other (join dir ledger_file) (join dir bak_file) q
              (F.remove (join dir bak_file) s).1 _ refl (names_differ dir).0 other.not_ledger
              other.not_bak
            ∙ law.remove_frame (join dir bak_file) s q other.not_bak)
  ]

  -- A save, whether it succeeds or fails, leaves all other files.
  pub save-read :
      (now : Time) (l : Ledger) (s : F.State) (q : Text)
      → IsOther dir q
      → F.read (save F json dir now l s).1 q ≡ F.read s q
  unfolding save
  save-read now l s q other =
      let P = λ (z : F.State). F.read z q ≡ F.read s q in
      let tmp = join dir tmp_file in
      let last = F.rename tmp (join dir ledger_file) in
      resume-keeps P (F.mkdir_all dir dir_mode s)
        (λ _.
          F.write_file tmp (json.marshal (stamped l)) file_mode now >> (rotate F json dir >> last))
        (law.read-mkdir_all dir dir_mode s q)
        (λ _ s1 same1.
          resume-keeps P (F.write_file tmp (json.marshal (stamped l)) file_mode now s1)
            (λ _. rotate F json dir >> last)
            (law.write_file_frame tmp (json.marshal (stamped l)) file_mode now s1 q other.not_tmp
              ∙ same1)
            (λ _ s2 same2.
              resume-keeps P (rotate F json dir s2) (λ _. last) (rotate-read s2 q other ∙ same2)
                (λ _ s3 same3.
                  rename_other tmp (join dir ledger_file) q s3 _ refl (names_differ dir).1
                    other.not_tmp other.not_ledger
                  ∙ same3)))

  -- A load looks at two files only.
  pub load-same :
      (s t : F.State)
      → F.read t (join dir ledger_file) ≡ F.read s (join dir ledger_file)
      → F.read t (join dir bak_file) ≡ F.read s (join dir bak_file)
      → load F json dir t ≡ load F json dir s
  unfolding load read_ledger
  load-same s t h k = rw (h, k) refl
