-- ===== src/Tests/Sessions.antt =====
-- A connection whose share cannot be mounted, and the theorem there.
use yggsync.Prelude.{refl, inl, [], codes}
use yggsync.Prelude.Int.{pos}
use yggsync.Prelude.Results.{failed, err, done}
use yggsync.Config.{Target}
use yggsync.Backend.Sessions.{Network, open_smb}
use yggsync.Backend.Sessions.Balance.{
  Stage, idle, connected, logged_on, IsNetwork, Balanced, open_smb-Balanced,
}

abbrev no_share : Network
no_share = record {
  State = Stage;
  dial = λ s. (done, connected);
  log_on = λ s. (done, logged_on);
  mount = λ s. (err (failed (codes "no such share")), s);
  close = λ s. (done, idle);
  umount = λ s. (done, logged_on);
  log_off = λ s. (done, idle);
}

abbrev no_share-IsNetwork : IsNetwork no_share
no_share-IsNetwork = record {
  stage = λ s. s;
  dial_stage = λ s h. refl;
  log_on_stage = λ s h. refl;
  mount_stage = λ s h. h;
  close_stage = λ s h d. refl;
  umount_stage = λ s h. inl refl;
  log_off_stage = λ s h d. refl;
}

abbrev hub : Target
hub = record {
  name = codes "hub";
  type = codes "smb";
  host = codes "nas";
  port = pos 445;
  share = codes "home";
  base_path = codes "vaults";
  path = [];
  username = codes "u";
  password = [];
  username_env = [];
  password_env = [];
  domain = [];
}

open_smb-Balanced_example :
    Balanced no_share no_share-IsNetwork (open_smb no_share hub (codes "notes") idle)
open_smb-Balanced_example =
    open_smb-Balanced no_share no_share-IsNetwork hub (codes "notes") idle refl
