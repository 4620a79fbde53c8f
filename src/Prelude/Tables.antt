-- ===== src/Prelude/Tables.antt =====
-- Facts over a small range, by evaluation.
use librle.Prelude.Tests.{if◌then◌else◌}
use Prim.Native.Nat.{ℕ, zero, suc, ◌<◌}
use mathlib.Core.Path.{◌≡◌}
use mathlib.Core.Bool.{Bool, true, false}
use native.Mathlib.Omega.{arith}

-- A test that is passed by each of the first numbers.
unfoldable pub passes : ℕ → (ℕ → Bool) → Bool
passes zero test = true
passes (suc last) test = if test last then passes last test else false

pub passes-at :
    (count : ℕ) (test : ℕ → Bool) (i : ℕ) → passes count test ≡ true → i < count → test i ≡ true
unfolding passes
passes-at zero test i ok small = absurd (omega arith)
passes-at (suc last) test i ok small = ground (arith, passes-at last test i)
