-- ===== src/Base/Bits.antt =====
-- Facts about bit operations on bytes, checked on every value.
use Prim.Native.Nat.{ℕ, zero, suc, ◌+◌, ◌%◌, ◌<◌, bit_xor}
use mathlib.Core.Path.{◌≡◌, refl}
use mathlib.Core.Bool.{Bool, true, ◌&&◌}
use native.Mathlib.Omega.{arith}
use hass_comelit_intercom_lo.Base.Tests.{◌==◌, ==_iff}

-- A test on each of the first numbers.
unfoldable pub each_of : (ℕ → Bool) → ℕ → Bool
each_of test zero = true
each_of test (suc k) = each_of test k && test k

pub each_of_lem :
    (test : ℕ → Bool) (bound : ℕ) → each_of test bound ≡ true → (i : ℕ) → i < bound → test i ≡ true
unfolding each_of
each_of_lem test (suc k) passed i below = grind (arith, each_of_lem test k)
each_of_lem test zero passed i below = absurd (omega arith)

-- The direction bit of a counter: `b ^ 0x80` on a byte.
direction_bits : each_of (λ b. bit_xor b 0x80 == (b + 128) % 256) 256 ≡ true
unfolding each_of
direction_bits = refl

pub bit_xor_direction : (b : ℕ) → b < 256 → bit_xor b 0x80 ≡ (b + 128) % 256
bit_xor_direction b below = (==_iff _ _).0 (each_of_lem _ 256 direction_bits b below)
