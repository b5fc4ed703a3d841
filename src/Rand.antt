-- ===== src/Rand.antt =====
-- tiny_libc/rand.c: the state is an `int`, which is never negative after a call of `rand`.
use ucas_os_kernel.Base.{ℕ, ◌+◌, ◌-◌, ◌*◌, ◌%◌, ◌^◌, ◌<◌, ◌≡◌, arith, bit_and}
use ucas_os_kernel.Base.Bits.{bit_and_mask}
use ucas_os_kernel.Mm.Pgtable.{word}

-- The new state, which is the result, for a state below 2^31.
unfoldable pub rand : ℕ → ℕ
rand x = bit_and ((0x5deece66d * x + 0xb) % word) (2 ^ 31 - 1)

rand_lem : (x : ℕ) → rand x ≡ (0x5deece66d * x + 0xb) % 2 ^ 31
unfolding rand
rand_lem x = omega (arith, bit_and_mask 31 ((0x5deece66d * x + 0xb) % word))

-- The generator never leaves the numbers below 2^31.
pub rand-lt : (x : ℕ) → rand x < 2 ^ 31
rand-lt x = omega (arith, rand_lem x)
