-- ===== src/Backend/Sessions.antt =====
-- internal/backend/backend.go: `openSMB` and `Close`. The network and package go-smb2 are a parameter.
pub mod Balance
use yggsync.Prelude.{◌≡◌, refl, sym, ap, subst, ◌∙◌, Text}
use yggsync.Prelude.Results.{Error, Result, ok, err, Done, done, Action, ignore, fail, ◌>>◌}
use yggsync.Config.{Target}
use yggsync.Backend.Paths.{clean_remote, join_path}

-- The steps of a connection: TCP, the log-on with the target's user and password, the share; and what
-- undoes them. A `Logoff` that succeeds also closes the connection of its session.
pub record Network : Type 1 where
  pub State : Type 0
  pub dial : Action State (Unit {0})
  pub log_on : Action State (Unit {0})
  pub mount : Action State (Unit {0})
  pub close : Action State (Unit {0})
  pub umount : Action State (Unit {0})
  pub log_off : Action State (Unit {0})

module _ (net : Network) where
  -- After a step that fails, what came before is undone, whatever that gives.
  abbrev undone : Done × net.State → Action net.State (Unit {0}) → Done × net.State
  undone (ok a, t) undo = (ok a, t)
  undone (err e, t) undo = (err e, (undo t).1)

  abbrev or_undo :
      Action net.State (Unit {0}) → Action net.State (Unit {0}) → Action net.State (Unit {0})
  or_undo step undo s = undone (step s) undo

  -- `openSMB`, which gives the base of the file system.
  unfoldable pub open_smb : Target → Text → Action net.State Text
  unfolding clean_remote join_path
  open_smb target rel = do
    net.dial
    or_undo net.log_on net.close
    or_undo net.mount net.log_off
    λ s. (ok (clean_remote (join_path target.base_path rel)), s)

  unfoldable pub close_smb : Action net.State (Unit {0})
  close_smb = ignore net.umount >> net.log_off
