-- ===== src/Base/Uint.antt =====
-- Go's `uint64`.
use Prim.Native.Nat.{ℕ, ◌+◌, ◌<◌, ◌%◌}
use mathlib.Core.Path.{◌≡◌}
use native.Mathlib.Omega.{arith}

abbrev pub uint64_modulus : ℕ
uint64_modulus = 18446744073709551616

-- `n + 1`
unfoldable pub next_uint64 : ℕ → ℕ
next_uint64 n = (n + 1) % uint64_modulus

-- A counter that is not at its last value counts up.
pub next_uint64-lt : (n : ℕ) → n + 1 < uint64_modulus → next_uint64 n ≡ n + 1
unfolding next_uint64
next_uint64-lt n h = omega arith
