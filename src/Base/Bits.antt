-- ===== src/Base/Bits.antt =====
-- A table of a Boolean test on all bytes decides the test on each of them.
use Prim.Native.Nat.{ℕ, zero, suc, ◌<◌}
use mathlib.Core.Path.{◌≡◌}
use mathlib.Core.Bool.{Bool, true, false}
use native.Mathlib.Omega.{arith}
use rustytorrent.Base.Tests.{if◌then◌else◌}

unfoldable pub every_under : ℕ → (ℕ → Bool) → Bool
every_under zero check = true
every_under (suc bound) check = if check bound then every_under bound check else false

pub every_under→holds :
    (bound : ℕ) (check : ℕ → Bool) (byte : ℕ)
    → every_under bound check ≡ true
    → byte < bound
    → check byte ≡ true
unfolding every_under
every_under→holds zero check byte table below = absurd (omega arith)
every_under→holds (suc bound) check byte table below =
    let smaller = every_under→holds bound check byte in ground (arith, smaller)
