-- ===== src/Backend/Memory.antt =====
-- A file system in memory, files by path, which fails only where a rename is refused. It meets the
-- laws of the interface.
use yggsync.Prelude.{ℕ, ◌≡◌, refl, Bool, true, false, List, [], ◌∷◌, Text, text_eq}
use yggsync.Prelude.{◌==◌, if◌then◌else◌, length, Option, none, some, arith}
use yggsync.Prelude.Dict
use yggsync.Prelude.Dict.{Dict}
use yggsync.Prelude.Results.{Error, not_exist, failed, Result, ok, err, Done, done}
use yggsync.Backend.{Time, Entry, Fs, IsLawful}

pub record File : Type 0 where
  pub content : Text
  pub mode : ℕ
  pub mod_time : Time

abbrev pub Files : Type 0
Files = Dict Text File

abbrev entry : Text → File → Entry
entry p f = record {
  path = p;
  size = length f.content;
  mode = f.mode;
  mod_time = f.mod_time;
  is_dir = false;
}

abbrev entries : Files → List Entry
entries [] = []
entries ((p, f) ∷ d) = entry p f ∷ entries d

abbrev content_of : Option File → Result Text
content_of none = err not_exist
content_of (some f) = ok f.content

abbrev entry_of : Text → Option File → Result Entry
entry_of p none = err not_exist
entry_of p (some f) = ok (entry p f)

abbrev moved : Bool → Text → Text → Files → Option File → Done × Files
moved true o n s f = (err (failed []), s)
moved false o n s none = (err not_exist, s)
moved false o n s (some f) = (done, Dict.insert n f (Dict.erase o s))

-- `refused` says which files cannot be renamed.
abbrev pub memory_refusing : (Text → Bool) → Fs
memory_refusing refused = record {
  State = Files;
  read = λ s p. content_of (Dict.lookup p s);
  delivered = λ s p. none;
  stat = λ s p. entry_of p (Dict.lookup p s);
  walk = λ s. (entries s, done);
  stopped = λ e. err e;
  write_file =
      λ p c m t s. (done, Dict.insert p (record { content = c; mode = m; mod_time = t }) s);
  write_part =
      λ p c m e s. (err e, Dict.insert p (record { content = c; mode = m; mod_time = 0 }) s);
  mkdir_all = λ p m s. (done, s);
  remove = λ p s. (done, Dict.erase p s);
  rename = λ o n s. moved (refused o) o n s (Dict.lookup o s);
}

abbrev pub memory : Fs
memory = memory_refusing (λ _. false)

moved_read :
    (refused : Bool) (o n : Text) (s s' : Files) (f : Option File)
    → moved refused o n s f ≡ (done, s')
    → Dict.lookup o s ≡ f
    → (q : Text)
    → content_of (Dict.lookup q s') ≡ (
        if q == n
        then content_of f
        else if q == o
        then err not_exist
        else content_of (Dict.lookup q s))
moved_read true o n s s' f h e q = cc
moved_read false o n s s' none h e q = cc
moved_read false o n s s' (some f) h e q =
    ground (arith, Dict.lookup-insert q n f (Dict.erase o s), Dict.lookup-erase q o s)

moved_failed :
    (refused : Bool) (o n : Text) (s s' : Files) (e : Error) (f : Option File)
    → moved refused o n s f ≡ (err e, s')
    → s' ≡ s
moved_failed true o n s s' e f h = cc
moved_failed false o n s s' e none h = cc
moved_failed false o n s s' e (some f) h = cc

absent :
    (p : Text) (f : Option File)
    → content_of f ≡ err not_exist
    → (e : Error) × (entry_of p f ≡ err e)
absent p none h = (not_exist, refl)
absent p (some f) h = cc

pub memory_refusing-IsLawful : (refused : Text → Bool) → IsLawful (memory_refusing refused)
memory_refusing-IsLawful refused = record {
  read-write_file = λ p c m t s s' h q.
      ground (arith, Dict.lookup-insert q p (record { content = c; mode = m; mod_time = t }) s);
  write_file_frame = λ p c m t s q ne.
      ground (arith, Dict.lookup-insert q p (record { content = c; mode = m; mod_time = t }) s);
  read-remove = λ p s s' h q. ground (arith, Dict.lookup-erase q p s);
  remove_frame = λ p s q ne. ground (arith, Dict.lookup-erase q p s);
  read-rename = λ o n s s' ne h q. moved_read (refused o) o n s s' (Dict.lookup o s) h refl q;
  rename_failed =
      λ o n s s' e h q. ground (arith, moved_failed (refused o) o n s s' e (Dict.lookup o s) h);
  read-mkdir_all = λ p m s q. refl;
  stat_absent = λ s p h. absent p (Dict.lookup p s) h;
}

pub memory-IsLawful : IsLawful memory
memory-IsLawful = memory_refusing-IsLawful (λ _. false)
