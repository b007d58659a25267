-- ===== src/Ledger/Storage/Failures.antt =====
-- internal/ledger/ledger.go: a save over a damaged primary, interrupted before its last step.
use yggsync.Prelude.{◌≡◌, refl, ap, sym, subst, ◌∙◌, Text, codes, none}
use yggsync.Prelude.{text_eq, ==_of_eq, ==_of_ne, arith}
use yggsync.Prelude.Results.{Error, not_exist, failed, ok, err, Done, done}
use yggsync.Backend.{Time, Entry, Fs, IsLawful}
use yggsync.Ledger.{Ledger, Json, empty, ensure_maps}
use yggsync.Ledger.Paths.{join, ledger_file, bak_file, tmp_file, names_differ}
use yggsync.Ledger.Storage.{dir_mode, file_mode, stamped, read_ledger, load, rotate, save}

-- The hub's ledger is damaged and its backup is good.
pub record Damaged (F : Fs) (json : Json) (dir : Text) (s : F.State) (old : Ledger) : Type 0 where
  pub junk : Text
  pub primary_damaged : (F.read s (join dir ledger_file) ≡ ok junk) × (json.unmarshal junk ≡ none)
  pub backup_good : read_ledger F json s (join dir bak_file) ≡ ok old

-- A save that comes as far as its last step, which fails.
pub record Interrupted (F : Fs) (json : Json) (dir : Text) (now : Time) (l : Ledger) (s t : F.State)
    : Type 0 where
  pub s1 : F.State
  pub s2 : F.State
  pub s3 : F.State
  pub made : F.mkdir_all dir dir_mode s ≡ (done, s1)
  pub written :
      F.write_file (join dir tmp_file) (json.marshal (stamped l)) file_mode now s1 ≡ (done, s2)
  pub entry : Entry
  pub present : F.stat s2 (join dir ledger_file) ≡ ok entry
  pub rotated :
      F.rename (join dir ledger_file) (join dir bak_file) (F.remove (join dir bak_file) s2).1
      ≡ (done, s3)
  pub reason : Error
  pub stopped : F.rename (join dir tmp_file) (join dir ledger_file) s3 ≡ (err reason, t)

module _ (F : Fs) (json : Json) (law : IsLawful F) (dir : Text) (now : Time) (l old : Ledger) where
  save-Interrupted :
      (s t : F.State) (i : Interrupted F json dir now l s t)
      → save F json dir now l s ≡ (err i.reason, t)
  unfolding save rotate
  save-Interrupted s t i = rw (i.made, i.written, i.present, rotate, i.rotated, i.stopped)

  -- The damaged ledger has become the backup, and no ledger is there.
  reads-Interrupted :
      (s t : F.State)
      → Interrupted F json dir now l s t
      → (F.read t (join dir ledger_file) ≡ err not_exist)
        × (F.read t (join dir bak_file) ≡ F.read s (join dir ledger_file))
  reads-Interrupted s t i =
      let (p≢b, t≢p, t≢b) = names_differ dir in
      let primary = join dir ledger_file in
      let bak = join dir bak_file in
      let tmp = join dir tmp_file in
      let s2' : F.State = (F.remove bak i.s2).1 in
      let before : F.read s2' primary ≡ F.read s primary =
        law.remove_frame bak i.s2 primary p≢b
        ∙ rw
            (
              law.read-write_file tmp (json.marshal (stamped l)) file_mode now i.s1 i.s2 i.written
                  primary,
              ==_of_ne primary tmp (λ e. t≢p (sym e)),
            )
            (subst (λ (z : Done × F.State). F.read z.1 primary ≡ F.read s primary) i.made
              (law.read-mkdir_all dir dir_mode s primary)) in
      (
        law.rename_failed tmp primary i.s3 t i.reason i.stopped primary
            ∙ rw (
              law.read-rename primary bak s2' i.s3 p≢b i.rotated primary,
              ==_of_ne primary bak p≢b,
              ==_of_eq primary primary refl,
            ),
        law.rename_failed tmp primary i.s3 t i.reason i.stopped bak
            ∙ rw (law.read-rename primary bak s2' i.s3 p≢b i.rotated bak, ==_of_eq bak bak refl)
                before,
      )

  read_ledger_junk :
      (s : F.State) (p junk : Text)
      → F.read s p ≡ ok junk
      → json.unmarshal junk ≡ none
      → (m : Text) × (read_ledger F json s p ≡ err (failed m))
  unfolding read_ledger
  read_ledger_junk s p junk e h = (codes "invalid JSON", ground arith)

  read_ledger_gone :
      (s : F.State) (p : Text) → F.read s p ≡ err not_exist → read_ledger F json s p ≡ err not_exist
  unfolding read_ledger
  read_ledger_gone s p e = rw e

  -- A load before the save finds the backup; after it, an empty ledger and no error.
  pub load-save_stopped :
      (s t : F.State)
      → Damaged F json dir s old
      → Interrupted F json dir now l s t
      → (load F json dir s ≡ ok (ensure_maps old))
        × ((save F json dir now l s).1 ≡ t)
        × (load F json dir t ≡ ok empty)
  unfolding load
  load-save_stopped s t d i =
      let primary = join dir ledger_file in
      let bak = join dir bak_file in
      let (gone, moved) = reads-Interrupted s t i in
      let (_, bad) = read_ledger_junk s primary d.junk d.primary_damaged.0 d.primary_damaged.1 in
      let (_, bad_bak) =
        read_ledger_junk t bak d.junk (moved ∙ d.primary_damaged.0) d.primary_damaged.1 in
      (
        rw (bad, d.backup_good),
        ap (λ z. z.1) (save-Interrupted s t i),
        rw (read_ledger_gone t primary gone, bad_bak),
      )
