-- ===== src/Tests/Ledgers.antt =====
-- Runs of internal/ledger on a file system in memory, and its theorems there.
use yggsync.Prelude.{◌≡◌, ◌≢◌, refl, true, false, [], ◌∷◌, Text, codes, some, none}
use yggsync.Prelude.{◌+◌, ◌≤◌, arith, text_eq, ◌==◌, if◌then◌else◌, text_dec, Bool}
use yggsync.Prelude.Int.{pos, int_eq, ℤ_discrete}
use yggsync.Prelude.Dict.{lookup, insert, erase}
use yggsync.Prelude.Results.{ok, err, locked, failed, done}
use yggsync.Backend.{Fs, unix}
use yggsync.Backend.Memory.{
  File, Files, memory, memory_refusing, memory-IsLawful, memory_refusing-IsLawful,
}
use yggsync.Ledger.{Ledger, Json, empty, ensure_maps}
use yggsync.Ledger.Paths.{dir_name, join, ledger_file, bak_file, tmp_file, lock_file}
use yggsync.Ledger.Lock.{lock_info, read_lock, acquire_lock}
use yggsync.Ledger.Lock.Exclusion.{acquire_lock-excludes}
use yggsync.Ledger.Collection.{base_name, referenced, gc_blobs, gc_blobs-keeps}
use yggsync.Prelude.Sorting.{member}
use yggsync.Tests.Samples.{differ}
use yggsync.Ledger.Storage.{stamped, read_ledger, load, save}
use yggsync.Ledger.Storage.Failures.{Damaged, Interrupted, load-save_stopped}

abbrev pub first : Ledger
first = record empty { generation = pos 1 }

-- Two ledgers and their texts stand for all of JSON.
abbrev pub json : Json
json = record {
  marshal = λ l. if l.generation == pos 0 then codes "{}" else codes "{1}";
  unmarshal =
      λ t. if t == codes "{}" then some empty else if t == codes "{1}" then some first else none;
  marshal_lock = λ i. i.client;
  unmarshal_lock = λ t. some (record { client = t; at = pos 0 });
}

abbrev blank : Files
blank = []

abbrev file : Text → File
file c = record { content = c; mode = 0o644; mod_time = 7 }

abbrev after_first : Files
after_first = (join dir_name ledger_file, file (codes "{1}")) ∷ []

run_first : save memory json dir_name 7 first blank ≡ (done, after_first)
unfolding save join lookup insert erase text_dec ℤ_discrete stamped
run_first = refl

-- A disk that refuses to rename the temporary file.
abbrev stuck_name : Text → Bool
stuck_name p = p == join dir_name tmp_file

abbrev stuck : Fs
stuck = memory_refusing stuck_name

abbrev damaged : Files
damaged =
    (join dir_name ledger_file, file (codes "{"))
    ∷ (join dir_name bak_file, file (codes "{1}"))
    ∷ []

damaged-Damaged : Damaged stuck json dir_name damaged first
unfolding read_ledger join lookup text_dec
damaged-Damaged = record { junk = codes "{"; primary_damaged = (refl, refl); backup_good = refl }

abbrev left_behind : Files
left_behind =
    (join dir_name tmp_file, file (codes "{1}")) ∷ (join dir_name bak_file, file (codes "{")) ∷ []

abbrev with_tmp : Files
with_tmp =
    (join dir_name ledger_file, file (codes "{"))
    ∷ (join dir_name bak_file, file (codes "{1}"))
    ∷ (join dir_name tmp_file, file (codes "{1}"))
    ∷ []

damaged-Interrupted : Interrupted stuck json dir_name 7 first damaged left_behind
unfolding join lookup insert erase text_dec ℤ_discrete stamped
damaged-Interrupted = record {
  s1 = damaged;
  s2 = with_tmp;
  s3 = left_behind;
  made = refl;
  written = refl;
  entry = record {
    path = join dir_name ledger_file;
    size = 1;
    mode = 0o644;
    mod_time = 7;
    is_dir = false;
  };
  present = refl;
  rotated = refl;
  reason = failed [];
  stopped = refl;
}

load-save_stopped_example :
    (load stuck json dir_name damaged ≡ ok (ensure_maps first))
    × ((save stuck json dir_name 7 first damaged).1 ≡ left_behind)
    × (load stuck json dir_name left_behind ≡ ok empty)
load-save_stopped_example =
    load-save_stopped stuck json (memory_refusing-IsLawful stuck_name) dir_name 7 first first
      damaged left_behind damaged-Damaged damaged-Interrupted

abbrev locked_by_a : Files
locked_by_a =
    (join dir_name lock_file, record { content = codes "a"; mode = 0o644; mod_time = 7 }) ∷ []

abbrev lock_json : Json
lock_json = record json { unmarshal_lock = λ t. some (record { client = t; at = unix 7 }) }

taken :
    acquire_lock memory lock_json dir_name (codes "a") 7 1800000000000 blank ≡ (done, locked_by_a)
unfolding acquire_lock lookup insert text_dec
taken = refl

other_client : codes "b" ≢ codes "a"
unfolding text_dec
other_client e = absurd (differ (codes "b") (codes "a") refl e)

in_time : 600000000007 + 1000000000 ≤ 7 + 1800000000000
in_time = omega arith

-- Ten minutes later another client asks for the lock.
acquire_lock-excludes_example :
    (acquire_lock memory lock_json dir_name (codes "b") 600000000007 1800000000000 locked_by_a
      ≡ (err locked, locked_by_a))
    × (read_lock memory lock_json locked_by_a (join dir_name lock_file)
        ≡ ok (lock_info (codes "a") 7))
acquire_lock-excludes_example =
    acquire_lock-excludes memory lock_json memory-IsLawful dir_name (codes "a") 7 refl (codes "b")
      600000000007 1800000000000 blank locked_by_a locked_by_a taken other_client in_time refl

-- A ledger with one file, whose blob a collection keeps.
abbrev with_file : Ledger
with_file = record empty {
  files =
      (
        codes "a.md",
        record {
          hash = codes "hx";
          size = 1;
          mod_time = pos 7;
          gen = pos 1;
          updated_by = codes "a";
        },
      )
      ∷ [];
}

abbrev blobs : Files
blobs =
    (codes ".yggsync/blobs/hx/hx", file (codes "x"))
    ∷ (codes ".yggsync/blobs/hy/hy", file (codes "y"))
    ∷ []

collected :
    gc_blobs memory dir_name with_file blobs
    ≡ (done, (codes ".yggsync/blobs/hx/hx", file (codes "x")) ∷ [])
unfolding gc_blobs join erase text_dec
collected = refl

live_blob : member (base_name (codes ".yggsync/blobs/hx/hx")) (referenced with_file.files) ≡ true
unfolding member base_name referenced text_dec
live_blob = refl

gc_blobs-keeps_example :
    memory.read (gc_blobs memory dir_name with_file blobs).1 (codes ".yggsync/blobs/hx/hx")
    ≡ memory.read blobs (codes ".yggsync/blobs/hx/hx")
gc_blobs-keeps_example =
    gc_blobs-keeps memory memory-IsLawful dir_name with_file blobs (codes ".yggsync/blobs/hx/hx")
      live_blob
