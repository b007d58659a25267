-- ===== src/Worktree/Run/LedgerFiles.antt =====
-- internal/runner/worktree.go, `runWorktree`: the two files of the hub that a load reads.
use yggsync.Prelude.{◌≡◌, ◌≢◌, refl, ap, sym, true, false, Text, text_eq, ℕ_discrete, codes}
use yggsync.Prelude.Strings.{has_prefix}
use yggsync.Ledger.Paths.{dir_name, join, ledger_file, bak_file, lock_file, join-injective}
use yggsync.Ledger.Storage.Frame.{IsOther}
use yggsync.Worktree.State.{Env, Setup}
use yggsync.Worktree.Decide.{sidecar}
use yggsync.Worktree.Run.Spared.{IsSpared, unprefixed-IsVaultPath}

-- The hub's files that a load reads.
pub data IsLoaded : Text → Type 0 where
  primary : IsLoaded (join dir_name ledger_file)
  backup : IsLoaded (join dir_name bak_file)

-- Neither a path nor its sidecar is one of the ledger's files.
abbrev pub IsClear : (E : Env) → Setup → Text → Type 0
IsClear E run p = IsOther dir_name p × IsOther dir_name (sidecar E run p)

pub IsOther-loaded : (p q : Text) → IsOther dir_name p → IsLoaded q → q ≢ p
IsOther-loaded p _ other primary = λ e. other.not_ledger (sym e)
IsOther-loaded p _ other backup = λ e. other.not_bak (sym e)

pub loaded-IsSpared : (q : Text) → IsLoaded q → IsSpared q
unfolding join has_prefix ℕ_discrete
loaded-IsSpared _ primary = record {
  no_blob = unprefixed-IsVaultPath (join dir_name ledger_file) refl;
  not_collected = refl;
  not_report = λ e. let differ : true ≡ false = ap (has_prefix (codes ".")) e in cc differ;
  not_lock = λ e. cc (join-injective dir_name ledger_file lock_file e);
}
loaded-IsSpared _ backup = record {
  no_blob = unprefixed-IsVaultPath (join dir_name bak_file) refl;
  not_collected = refl;
  not_report = λ e. let differ : true ≡ false = ap (has_prefix (codes ".")) e in cc differ;
  not_lock = λ e. cc (join-injective dir_name bak_file lock_file e);
}

-- The two states of the hub have the same files of the ledger.
abbrev pub SameLedger : (E : Env) → E.remote.State → E.remote.State → Type 0
SameLedger E s t = (q : Text) → IsLoaded q → E.remote.read t q ≡ E.remote.read s q

pub spared-SameLedger :
    (E : Env) (s t : E.remote.State)
    → ((q : Text) → IsSpared q → E.remote.read t q ≡ E.remote.read s q)
    → SameLedger E s t
spared-SameLedger E s t same q loaded = same q (loaded-IsSpared q loaded)
