-- ===== src/Worktree/Run.antt =====
-- internal/runner/worktree.go: `scanWorktree`, `unionPaths` and `runWorktree`, but for the notification
-- of the phone.
pub mod Paths
pub mod Report
pub mod Settled
pub mod Rest
pub mod Interrupted
pub mod LedgerFiles
pub mod Begun
pub mod Elsewhere
pub mod Spared
pub mod Whole
pub mod Truncated
use yggsync.Prelude.{ℕ, Bool, not, ◌||◌, List, [], ◌∷◌, ◌++◌, map, Text, codes, Option, none, some}
use yggsync.Prelude.{◌==◌, text_eq, nat_eq, if◌then◌else◌, length}
use yggsync.Prelude.Int.{ℤ, pos, ◌+ℤ◌}
use yggsync.Prelude.Dict.{Dict, lookup, insert, keys}
use yggsync.Prelude.Sorting.{sort, member}
use yggsync.Prelude.Results.{
  failed, Result, ok, err, Done, Action, resume, then_result, ignore, pure, fail, Done, ◌>>◌,
}
use yggsync.Backend.{Time, Entry, Fs, unix}
use yggsync.Backend.Paths.{slashed}
use yggsync.Ledger.{FileEntry, Tombstone, ClientCursor, Ledger, Json}
use yggsync.Ledger.Paths.{dir_name}
use yggsync.Ledger.Storage.{load, save}
use yggsync.Ledger.Lock.{acquire_lock, release}
use yggsync.Ledger.Collection.{gc_blobs}
use yggsync.Prelude.Strings.{has_prefix}
use yggsync.Worktree.State.{FileState, Snapshot, Env, Setup, World}
use yggsync.Worktree.Run.Report.{conflict_error, report_text}
use yggsync.Worktree.Plan.{planned_remote_deletes, mass_delete}
use yggsync.Worktree.Reconcile.{reconcile}

abbrev pub conflicts_report : Text
conflicts_report = codes "CONFLICTS.md"

-- The ledger's own files, and the report of conflicts.
unfoldable pub is_internal : Text → Bool
unfolding has_prefix
is_internal rel =
    (rel == conflicts_report) || ((rel == dir_name) || has_prefix (dir_name ++ b'/' ∷ []) rel)

-- `matches` is `Matcher.Match`.
module _ (sha256_hex : Text → Text) (matches : Text → Bool) (F : Fs) (s : F.State) where
  abbrev scan_file : Snapshot → Text → Entry → Result Snapshot
  scan_file snap rel e = then_result (F.read s rel) (λ c. ok (record snap {
    files =
        insert rel
          (record { size = e.size; mode = e.mode; mod_time = e.mod_time; hash = sha256_hex c })
          snap.files;
  }))

  -- The callback of the walk.
  unfoldable pub scan_entry : Snapshot → Entry → Result Snapshot
  unfolding is_internal insert slashed
  scan_entry snap e =
      let rel = slashed e.path in
      if is_internal rel
      then ok snap
      else if not (matches rel)
      then ok snap
      else if e.is_dir
      then ok (record snap { dirs = insert rel (record { mode = e.mode }) snap.dirs })
      else scan_file snap rel e

  abbrev pub go_on : Snapshot → Result Snapshot → (Snapshot → Snapshot × Done) → Snapshot × Done
  go_on snap (ok next) rest = rest next
  go_on snap (err e) rest = (snap, F.stopped e)

  -- The snapshot so far, and how the walk ends: at the first error of the callback, as the walk takes it,
  -- else as the walk itself ends.
  unfoldable pub scan_entries : Snapshot → List Entry → Done → Snapshot × Done
  unfolding scan_entry
  scan_entries snap [] end = (snap, end)
  scan_entries snap (e ∷ es) end = go_on snap (scan_entry snap e) (λ next. scan_entries next es end)

  abbrev pub scanned : Snapshot × Done → Result Snapshot
  scanned (snap, ok _) = ok snap
  scanned (snap, err e) = err e

  abbrev pub no_entries : Snapshot
  no_entries = record { files = []; dirs = [] }

  unfoldable pub scan_worktree : Result Snapshot
  unfolding scan_entries
  scan_worktree = let found = F.walk s in scanned (scan_entries no_entries found.0 found.1)

unfoldable pub distinct : List Text → List Text
unfolding member
distinct [] = []
distinct (p ∷ ps) = let rest = distinct ps in if member p rest then rest else p ∷ rest

unfoldable pub union_paths :
    Dict Text FileEntry
    → Dict Text Tombstone
    → Dict Text FileState
    → Dict Text FileState
    → List Text
unfolding distinct sort keys
union_paths files tombs local_files remote_files =
    sort (distinct (keys files ++ (keys tombs ++ (keys local_files ++ keys remote_files))))

-- The job, the runner's flags, and the clock.
pub record Options : Type 0 where
  pub job_name : Text
  pub client_id : Text
  pub now : Time
  pub wall : Time
  pub dry_run : Bool
  pub no_merge : Bool
  pub allow_mass_delete : Bool

pub record Replicas (E : Env) : Type 0 where
  pub local : E.local.State
  pub remote : E.remote.State

abbrev last_gen : Option ClientCursor → ℤ
last_gen none = pos 0
last_gen (some c) = c.last_gen

module _ (E : Env) (json : Json) (decimal : ℕ → Text) (rfc3339 : Time → Text)
    (matches : Text → Bool) (opts : Options) where
  abbrev pub on_hub : {A : Type 0} → Action E.remote.State A → Action (Replicas E) A
  on_hub m r = let out = m r.remote in (out.0, record r { remote = out.1 })

  abbrev on_client : {A : Type 0} → Action E.local.State A → Action (Replicas E) A
  on_client m r = let out = m r.local in (out.0, record r { local = out.1 })

  abbrev pub setup : Ledger → Snapshot → Snapshot → Setup
  setup l local_snap remote_snap = record {
    local_snap = local_snap;
    remote_snap = remote_snap;
    gen = l.generation +ℤ pos 1;
    client_id = opts.client_id;
    cursor = last_gen (lookup opts.client_id l.clients);
    now = opts.now;
    wall = opts.wall;
    dry_run = opts.dry_run;
    no_merge = opts.no_merge;
  }

  -- The ledger that the run saves.
  abbrev pub advanced : Ledger → World E → Ledger
  advanced l w =
      let gen = l.generation +ℤ pos 1 in
      record l {
        files = w.files;
        tombstones = w.tombs;
        generation = gen;
        clients =
            insert opts.client_id (record { last_gen = gen; last_seen = unix opts.now }) l.clients;
      }

  -- `writeConflictsReport`: best effort on both replicas.
  unfoldable pub write_conflicts_report : List Text → Action (Replicas E) (Unit {0})
  unfolding report_text
  write_conflicts_report conflicts =
      let text = report_text decimal rfc3339 opts.job_name conflicts opts.now in
      ignore (on_client (E.local.write_file conflicts_report text 0o644 opts.now))
      >> ignore (on_hub (E.remote.write_file conflicts_report text 0o644 opts.now))

  -- A run with conflicts fails. But for a dry run it leaves the report, which sorts the conflicts in
  -- place, before the error lists them.
  unfoldable pub conclude : List Text → Action (Replicas E) (Unit {0})
  unfolding write_conflicts_report conflict_error sort
  conclude [] = pure tt
  conclude (p ∷ ps) =
      let conflicts = if opts.dry_run then p ∷ ps else sort (p ∷ ps) in
      (if opts.dry_run then pure tt else write_conflicts_report conflicts)
      >> fail (conflict_error decimal rfc3339 opts.job_name conflicts)

  -- The writes of the ledger after the loop, and the conflicts.
  unfoldable pub finish : Ledger → World E → Action (Replicas E) (Unit {0})
  unfolding save gc_blobs insert conclude
  finish l w =
      (if opts.dry_run
        then pure tt
        else on_hub (do
          save E.remote json dir_name opts.now (advanced l w)
          ignore (gc_blobs E.remote dir_name (advanced l w))))
      >> conclude w.conflicts

  abbrev after_loop : Ledger → Done × World E → Done × Replicas E
  after_loop l (err e, w) = (err e, record { local = w.local; remote = w.remote })
  after_loop l (ok _, w) = finish l w (record { local = w.local; remote = w.remote })

  unfoldable pub run_paths : Ledger → Snapshot → Snapshot → Action (Replicas E) (Unit {0})
  unfolding union_paths planned_remote_deletes mass_delete reconcile finish lookup
  run_paths l local_snap remote_snap r =
      let run = setup l local_snap remote_snap in
      let paths = union_paths l.files l.tombstones local_snap.files remote_snap.files in
      let deletes =
        planned_remote_deletes l.files local_snap.files remote_snap.files run.cursor paths in
      let world : World E = record {
        local = r.local;
        remote = r.remote;
        files = l.files;
        tombs = l.tombstones;
        conflicts = [];
      } in
      if opts.allow_mass_delete
      then after_loop l (reconcile E run paths world)
      else if mass_delete (length deletes) (length l.files)
      then (err (failed (codes "refusing to delete")), r)
      else after_loop l (reconcile E run paths world)

  -- What the loop needs: the ledger and the two scans.
  unfoldable pub gather : Replicas E → Result (Ledger × Snapshot × Snapshot)
  unfolding load scan_worktree
  gather r = then_result (load E.remote json dir_name r.remote) (λ l.
      then_result (scan_worktree E.sha256_hex matches E.local r.local) (λ ls.
        then_result (scan_worktree E.sha256_hex matches E.remote r.remote) (λ rs. ok (l, ls, rs))))

  abbrev pub body : Action (Replicas E) (Unit {0})
  body r = resume (gather r, r) (λ (l, ls, rs). run_paths l ls rs)

  abbrev pub released : {A : Type 0} → Result A × Replicas E → Result A × Replicas E
  released (out, r) = (out, (on_hub (release E.remote json dir_name) r).1)

  -- The lock is stale after 30 minutes, and is released however the run ends.
  unfoldable pub run_worktree : Action (Replicas E) (Unit {0})
  unfolding acquire_lock release run_paths gather
  run_worktree r =
      resume (on_hub (acquire_lock E.remote json dir_name opts.client_id opts.now 1800000000000) r)
        (λ _ s. released (body s))
