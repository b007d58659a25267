-- ===== src/Tests/Paths.antt =====
-- Paths on a share, and the theorems there.
use yggsync.Prelude.{refl, [], codes, ℕ_discrete}
use yggsync.Prelude.Strings.{has_byte, join_on}
use yggsync.Backend.Paths.{full}
use yggsync.Backend.Paths.Proper.{IsProper, IsClean, below}
use yggsync.Backend.Paths.Within.{IsWithin, full-IsWithin}

vault-IsProper : IsProper (codes "vault")
unfolding has_byte ℕ_discrete
vault-IsProper = record {
  there = λ e. cc;
  not_dot = λ e. cc;
  not_up = λ e. cc;
  whole = refl;
  no_backslash = refl;
}

vault-IsClean : IsClean (codes "vault")
unfolding join_on
vault-IsClean = below (codes "vault") [] (vault-IsProper, tt)

full-IsWithin_example : IsWithin (codes "vault") (full (codes "vault") (codes "../../etc/passwd"))
full-IsWithin_example = full-IsWithin (codes "vault") (codes "../../etc/passwd") vault-IsClean
