-- ===== src/Backend/Sessions/Balance.antt =====
-- internal/backend/backend.go, `openSMB` and `Close`: what is opened is told to close.
use yggsync.Prelude.{◌≡◌, refl, ◌⊎◌, inl, Text}
use yggsync.Prelude.Results.{Error, Result, ok, err, Done, done, Action, resume, ◌>>◌}
use yggsync.Config.{Target}
use yggsync.Backend.Paths.{clean_remote, join_path}
use yggsync.Backend.Paths.Proper.{IsClean, clean_remote-IsClean}
use yggsync.Backend.Sessions.{Network, undone, or_undo, open_smb, close_smb}

-- How far a connection has come.
pub data Stage : Type 0 where
  idle : Stage
  connected : Stage
  logged_on : Stage
  mounted : Stage

-- There is a session, with or without its share.
abbrev pub IsSession : Stage → Type 0
IsSession x = (x ≡ logged_on) ⊎ (x ≡ mounted)

abbrev pub after : Done → Stage → Stage → Stage
after (ok _) there here = there
after (err _) there here = here

-- What the code relies on of package net and go-smb2: a step that fails leaves the connection where it was.
-- Of the steps that undo, a log-off or a close is known to have done so only where it reports success, and
-- of an unmount nothing is known but that the session is still there.
pub record IsNetwork (net : Network) : Type 0 where
  pub stage : net.State → Stage
  pub dial_stage :
      (s : net.State) → stage s ≡ idle → stage (net.dial s).1 ≡ after (net.dial s).0 connected idle
  pub log_on_stage :
      (s : net.State)
      → stage s ≡ connected
      → stage (net.log_on s).1 ≡ after (net.log_on s).0 logged_on connected
  pub mount_stage :
      (s : net.State)
      → stage s ≡ logged_on
      → stage (net.mount s).1 ≡ after (net.mount s).0 mounted logged_on
  pub close_stage :
      (s : net.State) → stage s ≡ connected → (net.close s).0 ≡ done → stage (net.close s).1 ≡ idle
  pub umount_stage : (s : net.State) → stage s ≡ mounted → IsSession (stage (net.umount s).1)
  pub log_off_stage :
      (s : net.State)
      → IsSession (stage s)
      → (net.log_off s).0 ≡ done
      → stage (net.log_off s).1 ≡ idle

module _ (net : Network) (law : IsNetwork net) where
  -- The connection was at a stage, and then its step back was taken, whose success leaves nothing open.
  pub record IsUndone (undo : Action net.State (Unit {0})) (at : Stage) (t : net.State)
      : Type 0 where
    pub before : net.State
    pub came_to : law.stage before ≡ at
    pub taken : t ≡ (undo before).1
    pub closes : (undo before).0 ≡ done → law.stage t ≡ idle

  -- How an attempt to open a share ends, and how `Close` does then.
  pub data Balanced : Result Text × net.State → Type 0 where
    opened :
        (base : Text) (t : net.State)
        → IsClean base
        → law.stage t ≡ mounted
        → ((close_smb net t).0 ≡ done → law.stage (close_smb net t).1 ≡ idle)
        → Balanced (ok base, t)
    not_dialled : (e : Error) (t : net.State) → law.stage t ≡ idle → Balanced (err e, t)
    not_logged_on :
        (e : Error) (t : net.State) → IsUndone net.close connected t → Balanced (err e, t)
    not_mounted :
        (e : Error) (t : net.State) → IsUndone net.log_off logged_on t → Balanced (err e, t)

  close_smb-stage :
      (t : net.State)
      → law.stage t ≡ mounted
      → (close_smb net t).0 ≡ done
      → law.stage (close_smb net t).1 ≡ idle
  unfolding close_smb
  close_smb-stage t h = law.log_off_stage (net.umount t).1 (law.umount_stage t h)

  abbrev based : Target → Text → Action net.State Text
  based target rel s = (ok (clean_remote (join_path target.base_path rel)), s)

  mount-Balanced :
      (target : Target) (rel : Text) (out : Done × net.State)
      → law.stage out.1 ≡ after out.0 mounted logged_on
      → Balanced (resume (undone net out net.log_off) (λ _. based target rel))
  mount-Balanced target rel (ok _, t) h =
      opened (clean_remote (join_path target.base_path rel)) t
        (clean_remote-IsClean (join_path target.base_path rel)) h (close_smb-stage t h)
  mount-Balanced target rel (err e, t) h =
      not_mounted e (net.log_off t).1
        (record { before = t; came_to = h; taken = refl; closes = law.log_off_stage t (inl h) })

  log_on-Balanced :
      (target : Target) (rel : Text) (out : Done × net.State)
      → law.stage out.1 ≡ after out.0 logged_on connected
      → Balanced (
          resume
            (undone net out net.close)
            (λ _. or_undo net net.mount net.log_off >> based target rel))
  log_on-Balanced target rel (ok _, t) h =
      mount-Balanced target rel (net.mount t) (law.mount_stage t h)
  log_on-Balanced target rel (err e, t) h =
      not_logged_on e (net.close t).1
        (record { before = t; came_to = h; taken = refl; closes = law.close_stage t h })

  dial-Balanced :
      (target : Target) (rel : Text) (out : Done × net.State)
      → law.stage out.1 ≡ after out.0 connected idle
      → Balanced (
          resume out (λ _.
            or_undo net net.log_on net.close
            >> (or_undo net net.mount net.log_off >> based target rel)))
  dial-Balanced target rel (ok _, t) h =
      log_on-Balanced target rel (net.log_on t) (law.log_on_stage t h)
  dial-Balanced target rel (err e, t) h = not_dialled e t h

  -- From a connection that is not open, opening a share gives one with a clean base, which a `Close` that
  -- succeeds closes; or it fails: nothing is open, or what was open, the connection or the session on it, has
  -- been told to close, and nothing is open where that has succeeded.
  pub open_smb-Balanced :
      (target : Target) (rel : Text) (s : net.State)
      → law.stage s ≡ idle
      → Balanced (open_smb net target rel s)
  unfolding open_smb
  open_smb-Balanced target rel s h = dial-Balanced target rel (net.dial s) (law.dial_stage s h)
