-- ===== src/Base/Bits.antt =====
-- `&` at a variable, as far as the code uses it: masks that are a power of two less one, their
-- complements, and the test that a number is a power of two.
use Prim.Native.Nat.{
  ℕ, zero, suc, ◌+◌, ◌-◌, ◌*◌, ◌/◌, ◌%◌, ◌^◌, ◌≤◌, ◌<◌, min, bit_and, digits, bit_and-bitwise,
}
use mathlib.Core.Path.{◌≡◌, refl, ap}
use native.Mathlib.Nat.{
  pow-suc, mul_comm, mul-one, div-one, div-div-eq-div-mul, mod-eq-sub-mul-div, mul-div-le, add-zero,
  add-suc, mod-eq_of_lt, div-lt_iff_lt-mul,
}
use native.Mathlib.Decide.{ℕ_discrete}
use native.Mathlib.Omega.{arith}

abbrev conj : (fuel a b : ℕ) → ℕ
conj = digits (λ _. zero) min

-- any fuel from the first operand on gives the same digits
conj_steady : (m n a b : ℕ) → a ≤ m → a ≤ n → conj m a b ≡ conj n a b
conj_steady zero zero zero b p q = refl
conj_steady zero (suc n) zero b p q = refl
conj_steady (suc m) zero zero b p q = refl
conj_steady (suc m) (suc n) zero b p q = refl
conj_steady (suc m) (suc n) (suc a) b p q =
    omega (arith, conj_steady m n (suc a / 2) (b / 2) (omega arith) (omega arith))
conj_steady m n a b p q = absurd (omega arith)

and_zero_left : (b : ℕ) → bit_and 0 b ≡ 0
and_zero_left b = bit_and-bitwise 0 b

-- the law of the lowest digit
pub and_digit : (a b : ℕ) → bit_and a b ≡ 2 * bit_and (a / 2) (b / 2) + min (a % 2) (b % 2)
and_digit zero b = omega (arith, and_zero_left b, and_zero_left (b / 2))
and_digit (suc a) b =
    let whole = bit_and-bitwise (suc a) b in
    let rest = bit_and-bitwise (suc a / 2) (b / 2) in
    omega (
      arith,
      whole,
      rest,
      conj_steady a (suc a / 2) (suc a / 2) (b / 2) (omega arith) (omega arith),
    )

and_zero_below : (n a : ℕ) → a ≤ n → bit_and a 0 ≡ 0
and_zero_below zero zero h = refl
and_zero_below (suc n) zero h = refl
and_zero_below (suc n) (suc a) h =
    omega (arith, and_digit (suc a) 0, and_zero_below n (suc a / 2) (omega arith))
and_zero_below n a h = absurd (omega arith)

pub and_zero_right : (a : ℕ) → bit_and a 0 ≡ 0
and_zero_right a = and_zero_below a a (omega arith)

and_self_below : (n a : ℕ) → a ≤ n → bit_and a a ≡ a
and_self_below zero zero h = refl
and_self_below (suc n) zero h = refl
and_self_below (suc n) (suc a) h =
    omega (arith, and_digit (suc a) (suc a), and_self_below n (suc a / 2) (omega arith))
and_self_below n a h = absurd (omega arith)

pub and_self : (a : ℕ) → bit_and a a ≡ a
and_self a = and_self_below a a (omega arith)

pub two_pow_pos : (k : ℕ) → 1 ≤ 2 ^ k
two_pow_pos zero = omega arith
two_pow_pos (suc k) = omega (arith, pow-suc 2 k, two_pow_pos k)

pub half_power : (k a : ℕ) → a / 2 ^ suc k ≡ a / 2 / 2 ^ k
half_power k a = rw (pow-suc, div-div-eq-div-mul, mul_comm (2 ^ k) 2)

-- a mask whose k lowest bits are clear
pub and_high : (k a b : ℕ) → bit_and a (b * 2 ^ k) ≡ bit_and (a / 2 ^ k) b * 2 ^ k
and_high zero a b = omega (arith, ap (bit_and a) (mul-one b), ap (λ x. bit_and x b) (div-one a))
and_high (suc k) a b =
    let twice : b * 2 ^ suc k ≡ 2 * (b * 2 ^ k) = omega (arith, ap (◌*◌ b) (pow-suc 2 k)) in
    let half : 2 * (b * 2 ^ k) / 2 ≡ b * 2 ^ k = omega arith in
    let rest = and_high k (a / 2) b in
    rw (twice, and_digit a (2 * (b * 2 ^ k)), half, rest, half_power k a)
      (omega (arith, ap (◌*◌ (bit_and (a / 2 / 2 ^ k) b)) (pow-suc 2 k)))

-- a mask of k ones
pub and_low : (k a : ℕ) → bit_and a (2 ^ k - 1) ≡ a % 2 ^ k
and_low zero a = omega (arith, and_zero_right a)
and_low (suc k) a =
    let half : (2 ^ suc k - 1) / 2 ≡ 2 ^ k - 1 = omega (arith, pow-suc 2 k, two_pow_pos k) in
    rw (and_digit a (2 ^ suc k - 1), half, and_low k (a / 2))
      (omega (
        arith,
        pow-suc 2 k,
        two_pow_pos k,
        half_power k a,
        mod-eq-sub-mul-div a (2 ^ suc k),
        mod-eq-sub-mul-div (a / 2) (2 ^ k),
        mul-div-le a (2 ^ suc k),
        mul-div-le (a / 2) (2 ^ k),
        ap (λ (t : ℕ). t * (a / 2 / 2 ^ k)) (pow-suc 2 k),
        ap (λ (t : ℕ). 2 ^ suc k * t) (half_power k a),
      ))

pub two_pow_add : (j k : ℕ) → 2 ^ (j + k) ≡ 2 ^ j * 2 ^ k
two_pow_add j zero = omega (arith, ap (◌^◌ 2) (add-zero j), mul-one (2 ^ j))
two_pow_add j (suc k) =
    rw (add-suc, pow-suc 2 (j + k), two_pow_add j k) (omega (arith, ap (◌*◌ (2 ^ j)) (pow-suc 2 k)))

-- a number with `a & (a - 1) == 0`
power_below : (n a : ℕ) → a ≤ n → 0 < a → bit_and a (a - 1) ≡ 0 → (k : ℕ) × (a ≡ 2 ^ k)
power_below zero a h pos e = absurd (omega arith)
power_below (suc n) a h pos e = elim (ℕ_discrete (a % 2) 0) [
  | yes even ↦
      let b = a / 2 in
      let half : (a - 1) / 2 ≡ b - 1 = omega arith in
      let rest : bit_and b (b - 1) ≡ 0 = omega (arith, and_digit a (a - 1), ap (bit_and b) half) in
      let (k, p) = power_below n b (omega arith) (omega arith) rest in
      (suc k, omega (arith, pow-suc 2 k))
  | no odd ↦
      let half : (a - 1) / 2 ≡ a / 2 = omega arith in
      (0, omega (arith, and_digit a (a - 1), ap (bit_and (a / 2)) half, and_self (a / 2)))
]

pub power_of_two : (a : ℕ) → 0 < a → bit_and a (a - 1) ≡ 0 → (k : ℕ) × (a ≡ 2 ^ k)
power_of_two a pos e = power_below a a (omega arith) pos e

less_one_times : (a b : ℕ) → 1 ≤ a → (a - 1) * b ≡ a * b - b
less_one_times zero b h = absurd (omega arith)
less_one_times (suc a) b h = let e : suc a - 1 ≡ a = omega arith in rw e (omega arith)

-- a 64-bit number with its k lowest bits cleared
pub clear_low : (j k y : ℕ) → y < 2 ^ (j + k) → bit_and y (2 ^ (j + k) - 2 ^ k) ≡ y / 2 ^ k * 2 ^ k
clear_low j k y h =
    let mask : 2 ^ (j + k) - 2 ^ k ≡ (2 ^ j - 1) * 2 ^ k =
      rw (two_pow_add j k, less_one_times (2 ^ j) (2 ^ k) (two_pow_pos j)) in
    let small : y / 2 ^ k < 2 ^ j =
      (div-lt_iff_lt-mul (two_pow_pos k)).1 (omega (arith, two_pow_add j k)) in
    rw (mask, and_high k y (2 ^ j - 1), and_low j (y / 2 ^ k), mod-eq_of_lt small)
