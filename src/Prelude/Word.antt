-- ===== src/Prelude/Word.antt =====
-- Machine integers. A `u32` or `u64` is a number below its modulus; an `i64` is an integer, and
-- its operations wrap as two's complement does in a release build.
use Prim.Native.Nat.{ℕ, ◌+◌, ◌-◌, ◌%◌, ◌≤◌, ◌<◌}
use mathlib.Core.Path.{◌≡◌}
use native.Mathlib.Omega.{arith}
use wickra_exchange.Prelude.Tests.{ltb, if◌then◌else◌}
use wickra_exchange.Prelude.Int.{ℤ, pos, negsuc, pos_part, neg_part, ◌+ℤ◌, ◌-ℤ◌}

abbrev pub u32_mod : ℕ
u32_mod = 0x1_0000_0000

abbrev pub u64_mod : ℕ
u64_mod = 0x1_0000_0000_0000_0000

abbrev pub i64_half : ℕ
i64_half = 0x8000_0000_0000_0000

unfoldable pub add_u32 : ℕ → ℕ → ℕ
add_u32 a b = (a + b) % u32_mod

unfoldable pub add_u64 : ℕ → ℕ → ℕ
add_u64 a b = (a + b) % u64_mod

-- The integer that a bit pattern below 2^64 stands for.
abbrev pub of_bits : ℕ → ℤ
of_bits n = if ltb n i64_half then pos n else negsuc (u64_mod - 1 - n)

-- The bit pattern of an integer, modulo 2^64.
abbrev pub to_bits : ℤ → ℕ
to_bits (pos n) = n % u64_mod
to_bits (negsuc n) = u64_mod - 1 - n % u64_mod

unfoldable pub wrap : ℤ → ℤ
wrap z = of_bits (to_bits z)

unfoldable pub add_i64 : ℤ → ℤ → ℤ
add_i64 a b = wrap (a +ℤ b)

unfoldable pub sub_i64 : ℤ → ℤ → ℤ
sub_i64 a b = wrap (a -ℤ b)

-- The range of an `i64`.
abbrev pub IsI64 : ℤ → Type 0
IsI64 z = (pos_part z < i64_half) × (neg_part z ≤ i64_half)

pub wrap_id : (z : ℤ) → IsI64 z → wrap z ≡ z
unfolding wrap
wrap_id (pos n) h = ground arith
wrap_id (negsuc n) h = ground arith

pub wrap-IsI64 : (z : ℤ) → IsI64 (wrap z)
unfolding wrap
wrap-IsI64 (pos n) = ground arith
wrap-IsI64 (negsuc n) = ground arith

pub add_i64_exact : (a b : ℤ) → IsI64 (a +ℤ b) → add_i64 a b ≡ a +ℤ b
unfolding add_i64
add_i64_exact a b h = wrap_id (a +ℤ b) h

pub sub_i64_exact : (a b : ℤ) → IsI64 (a -ℤ b) → sub_i64 a b ≡ a -ℤ b
unfolding sub_i64
sub_i64_exact a b h = wrap_id (a -ℤ b) h
