-- ===== src/Base/Bits.antt =====
-- Bit operations at variables: the step from the lowest digit, masks, and disjoint sums.
use Prim.Native.Nat.{
  ℕ, zero, suc, ◌+◌, ◌-◌, ◌*◌, ◌/◌, ◌%◌, ◌^◌, ◌≤◌, ◌<◌, min, max, bit_and, bit_or, digits,
  bit_and-bitwise, bit_or-bitwise,
}
use native.Mathlib.Nat.{pow-suc}
use mathlib.Core.Path.{◌≡◌, refl, ap, sym, ◌∙◌}
use native.Mathlib.Omega.{arith}

-- The digits of both operations: `op` joins two digits, `rest` is what follows the first number.
module _ (rest : ℕ → ℕ) (op : ℕ → ℕ → ℕ) where
  digits-zero : (fuel y : ℕ) → digits rest op fuel 0 y ≡ rest y
  digits-zero zero y = refl
  digits-zero (suc fuel) y = refl

  -- Fuel beyond the number's size makes no difference.
  digits-more :
      (fuel more x y : ℕ) → x ≤ fuel → digits rest op (fuel + more) x y ≡ digits rest op fuel x y
  digits-more fuel more zero y h = digits-zero (fuel + more) y ∙ sym (digits-zero fuel y)
  digits-more zero more (suc x) y h = absurd (omega arith)
  digits-more (suc fuel) more (suc x) y h =
      let shift : suc fuel + more ≡ suc (fuel + more) = omega arith in
      rw shift (
        ap (λ d. d * 2 + op (suc x % 2) (y % 2))
          (digits-more fuel more (suc x / 2) (y / 2) (omega arith)))

  -- The lowest digit apart.
  digits-step :
      ((y : ℕ) → rest y ≡ rest (y / 2) * 2 + op 0 (y % 2))
      → (x y : ℕ)
      → digits rest op x x y ≡ digits rest op (x / 2) (x / 2) (y / 2) * 2 + op (x % 2) (y % 2)
  digits-step law zero y = law y
  digits-step law (suc x) y =
      let split : x ≡ suc x / 2 + (x - suc x / 2) = omega arith in
      ap (λ d. d * 2 + op (suc x % 2) (y % 2))
        (ap (λ fuel. digits rest op fuel (suc x / 2) (y / 2)) split
          ∙ digits-more (suc x / 2) (x - suc x / 2) (suc x / 2) (y / 2) (omega arith))

pub bit_and_step : (x y : ℕ) → bit_and x y ≡ bit_and (x / 2) (y / 2) * 2 + min (x % 2) (y % 2)
bit_and_step x y = omega (
  arith,
  bit_and-bitwise x y,
  bit_and-bitwise (x / 2) (y / 2),
  digits-step (λ y. 0) min (λ y. omega arith) x y,
)

pub bit_or_step : (x y : ℕ) → bit_or x y ≡ bit_or (x / 2) (y / 2) * 2 + max (x % 2) (y % 2)
bit_or_step x y = omega (
  arith,
  bit_or-bitwise x y,
  bit_or-bitwise (x / 2) (y / 2),
  digits-step (λ y. y) max (λ y. omega arith) x y,
)

pub zero-bit_or : (y : ℕ) → bit_or 0 y ≡ y
zero-bit_or y = bit_or-bitwise 0 y

-- Zero on the right, by halving: a number below 2 ^ n takes n steps, so n steps are enough for n.
halving : (P : ℕ → Type 0) → P 0 → ((x : ℕ) → P (x / 2) → P x) → (n x : ℕ) → x ≤ n → P x
halving P base step n zero h = base
halving P base step zero (suc x) h = absurd (omega arith)
halving P base step (suc n) (suc x) h =
    step (suc x) (halving P base step n (suc x / 2) (omega arith))

pub bit_and-zero : (x : ℕ) → bit_and x 0 ≡ 0
bit_and-zero x =
    halving (λ z. bit_and z 0 ≡ 0) refl (λ z h. omega (arith, bit_and_step z 0, h)) x x
      (omega arith)

pub bit_or-zero : (x : ℕ) → bit_or x 0 ≡ x
bit_or-zero x =
    halving (λ z. bit_or z 0 ≡ z) refl (λ z h. omega (arith, bit_or_step z 0, h)) x x (omega arith)

pub pow_pos : (k : ℕ) → 0 < 2 ^ k
pow_pos zero = omega arith
pow_pos (suc k) = omega (arith, pow-suc 2 k, pow_pos k)

pub pow_double : (k : ℕ) → 2 ^ suc k ≡ 2 ^ k * 2
pow_double k = pow-suc 2 k

pub mod_double : (p a : ℕ) → 0 < p → a % (p * 2) ≡ ((a / 2) % p) * 2 + a % 2
mod_double p a h = grind arith

-- The mask of the k lowest bits takes the remainder by 2 ^ k.
pub bit_and_mask : (k a : ℕ) → bit_and a (2 ^ k - 1) ≡ a % 2 ^ k
bit_and_mask zero a = omega (arith, bit_and-zero a)
bit_and_mask (suc k) a = rw (pow_double k) (
    let half : (2 ^ k * 2 - 1) / 2 ≡ 2 ^ k - 1 = omega (arith, pow_pos k) in
    let odd : (2 ^ k * 2 - 1) % 2 ≡ 1 = omega (arith, pow_pos k) in
    rw (bit_and_step, half, odd, bit_and_mask k (a / 2))
      (omega (arith, mod_double (2 ^ k) a (pow_pos k))))

-- Bits below position k join a multiple of 2 ^ k as in a sum.
pub bit_or_disjoint : (k a b : ℕ) → b < 2 ^ k → bit_or (a * 2 ^ k) b ≡ a * 2 ^ k + b
bit_or_disjoint zero a b h =
    let e : b ≡ 0 = omega arith in rw e (omega (arith, bit_or-zero (a * 1)))
bit_or_disjoint (suc k) a b h =
    let e : (a * 2 ^ suc k) / 2 ≡ a * 2 ^ k =
      omega (arith, pow_double k, ap (λ (t : ℕ). a * t) (pow_double k)) in
    let z : (a * 2 ^ suc k) % 2 ≡ 0 = omega (arith, ap (λ (t : ℕ). a * t) (pow_double k)) in
    rw (bit_or_step, e, z, bit_or_disjoint k a (b / 2) (omega (arith, pow_double k)))
      (omega (arith, ap (λ (t : ℕ). a * t) (pow_double k)))

pub div_double : (p a : ℕ) → 0 < p → a / (p * 2) ≡ a / 2 / p
div_double p a h = grind arith

-- Bits from position k on are joined above the k lowest ones.
pub bit_or_shift : (k a c : ℕ) → bit_or a (c * 2 ^ k) ≡ bit_or (a / 2 ^ k) c * 2 ^ k + a % 2 ^ k
bit_or_shift zero a c =
    let e : c * 2 ^ 0 ≡ c = omega arith in
    let d : a / 2 ^ 0 ≡ a = omega arith in rw (e, d) (omega arith)
bit_or_shift (suc k) a c =
    let p = pow_double k in
    let half : c * (2 ^ k * 2) / 2 ≡ c * 2 ^ k = grind arith in
    let even : c * (2 ^ k * 2) % 2 ≡ 0 = grind arith in
    rw
      (
        p,
        bit_or_step,
        half,
        even,
        bit_or_shift k (a / 2) c,
        div_double (2 ^ k) a (pow_pos k),
        mod_double (2 ^ k) a (pow_pos k),
      )
      (grind arith)

-- All ones stay all ones.
pub bit_or_ones : (n a : ℕ) → a < 2 ^ n → bit_or a (2 ^ n - 1) ≡ 2 ^ n - 1
bit_or_ones zero a h = omega (arith, bit_or-zero a)
bit_or_ones (suc n) a h =
    let p = pow_double n in
    let half : (2 ^ n * 2 - 1) / 2 ≡ 2 ^ n - 1 = omega (arith, pow_pos n) in
    let odd : (2 ^ n * 2 - 1) % 2 ≡ 1 = omega (arith, pow_pos n) in
    rw (p, bit_or_step, half, odd)
      (omega (arith, bit_or_ones n (a / 2) (omega (arith, p)), pow_pos n))

-- A mask with all ones but that at position t takes that bit away.
pub bit_and_clear :
    (t n a : ℕ) → t < n → a < 2 ^ n → a / 2 ^ t % 2 ≡ 1 → bit_and a (2 ^ n - 1 - 2 ^ t) + 2 ^ t ≡ a
bit_and_clear t zero a h l b = absurd (omega arith)
bit_and_clear zero (suc n) a h l b =
    let half : (2 ^ n * 2 - 1 - 1) / 2 ≡ 2 ^ n - 1 = omega (arith, pow_pos n) in
    let even : (2 ^ n * 2 - 1 - 1) % 2 ≡ 0 = omega (arith, pow_pos n) in
    let mask = bit_and_mask n (a / 2) in
    let small : a / 2 < 2 ^ n = omega (arith, pow_double n) in
    let same : a / 2 % 2 ^ n ≡ a / 2 = grind arith in
    rw (pow_double n, bit_and_step, half, even) (omega (arith, mask, same, b))
bit_and_clear (suc t) (suc n) a h l b =
    let small : a / 2 < 2 ^ n = omega (arith, pow_double n) in
    let r =
      bit_and_clear t n (a / 2) (omega arith) small
        (rw (pow_double t, div_double (2 ^ t) a (pow_pos t)) at b) in
    let room : 2 ^ t + 1 ≤ 2 ^ n = omega (arith, r, small) in
    let half : (2 ^ n * 2 - 1 - 2 ^ t * 2) / 2 ≡ 2 ^ n - 1 - 2 ^ t = omega (arith, room) in
    let odd : (2 ^ n * 2 - 1 - 2 ^ t * 2) % 2 ≡ 1 = omega (arith, room) in
    rw (pow_double n, pow_double t, bit_and_step, half, odd) (omega (arith, r))

-- A bit that is not set can be added.
pub set_bit-lt : (t n a : ℕ) → t < n → a < 2 ^ n → a / 2 ^ t % 2 ≡ 0 → a + 2 ^ t < 2 ^ n
set_bit-lt t zero a h l b = absurd (omega arith)
set_bit-lt zero (suc n) a h l b = omega (arith, pow_double n, b)
set_bit-lt (suc t) (suc n) a h l b =
    let half : a / 2 / 2 ^ t % 2 ≡ 0 = rw (pow_double t, div_double (2 ^ t) a (pow_pos t)) at b in
    let small : a / 2 < 2 ^ n = omega (arith, pow_double n) in
    omega (arith, pow_double t, pow_double n, set_bit-lt t n (a / 2) (omega arith) small half)
