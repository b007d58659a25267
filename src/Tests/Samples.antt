-- ===== src/Tests/Samples.antt =====
-- The replicas in memory and the files that the runs of internal/runner/worktree.go use.
use yggsync.Prelude.{
  ℕ, ◌≡◌, ◌≢◌, ap, ◌∙◌, inl, inr, Bool-cases, ==_of_eq, ltb, false, [], ◌∷◌, Text, codes,
}
use yggsync.Prelude.{text_eq, ◌==◌, length, arith}
use yggsync.Prelude.Int.{pos, int_eq}
use yggsync.Backend.Memory.{File, Files, memory}
use yggsync.Ledger.{FileEntry}
use yggsync.Ledger.Paths.{dir_name, join, blob_path}
use yggsync.Worktree.State.{FileState, Snapshot, Env, Setup, World}
use yggsync.Worktree.Operations.Effects.{IsVaultPath}

-- A content with a byte before it stands for its hash.
abbrev pub env : Env
env = record {
  local = memory;
  remote = memory;
  sha256_hex = λ c. b'h' ∷ c;
  format_stamp = λ t. codes "20260102-150405";
}

abbrev pub note : Text
note = codes "a.md"

abbrev pub head : Text → ℕ
head [] = 0
head (c ∷ t) = c

pub head-blob_path : (hash : Text) → head (blob_path dir_name hash) ≡ b'.'
unfolding blob_path join
head-blob_path hash = elim (Bool-cases (ltb (length hash) 2)) [
  | inl t ↦ rw (blob_path, t)
  | inr t ↦ rw (blob_path, t)
]

pub note-IsVaultPath : IsVaultPath note
note-IsVaultPath hash e = absurd (omega (arith, ap head e ∙ head-blob_path hash))

abbrev pub file : Text → File
file c = record { content = c; mode = 0o644; mod_time = 7 }

abbrev pub state : Text → FileState
state c = record { size = length c; mode = 0o644; mod_time = 7; hash = b'h' ∷ c }

abbrev pub entry : Text → FileEntry
entry c = record {
  hash = b'h' ∷ c;
  size = length c;
  mod_time = pos 7;
  gen = pos 1;
  updated_by = codes "hub";
}

abbrev pub no_files : Snapshot
no_files = record { files = []; dirs = [] }

abbrev pub one_file : Text → Snapshot
one_file c = record { files = (note, state c) ∷ []; dirs = [] }

abbrev pub run_of : Snapshot → Snapshot → Setup
run_of ls rs = record {
  local_snap = ls;
  remote_snap = rs;
  gen = pos 3;
  client_id = codes "pc";
  cursor = pos 2;
  now = 9;
  wall = 9;
  dry_run = false;
  no_merge = false;
}

abbrev pub one : Text → Files
one c = (note, file c) ∷ []

-- A new file of the client, which goes to the hub.
abbrev pub added : World env
added = record { local = one (codes "x"); remote = []; files = []; tombs = []; conflicts = [] }

abbrev pub add_run : Setup
add_run = run_of (one_file (codes "x")) no_files

-- Two strings that a run tells apart.
pub differ : (a b : Text) → (a == b) ≡ false → a ≢ b
differ a b h e = cc (h, ==_of_eq a b e)
