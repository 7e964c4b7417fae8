-- ===== src/Base/Fields.antt =====
-- `|` of numbers whose bits do not overlap, as a sum.
use Prim.Native.Nat.{
  ℕ, zero, suc, ◌+◌, ◌*◌, ◌/◌, ◌%◌, ◌^◌, ◌≤◌, ◌<◌, max, bit_or, digits, bit_or-bitwise,
}
use mathlib.Core.Path.{◌≡◌, refl, ap}
use native.Mathlib.Nat.{pow-suc}
use native.Mathlib.Omega.{arith}

abbrev disj : (fuel a b : ℕ) → ℕ
disj = digits (λ b. b) max

-- any fuel from the first operand on gives the same digits
disj_steady : (m n a b : ℕ) → a ≤ m → a ≤ n → disj m a b ≡ disj n a b
disj_steady zero zero zero b p q = refl
disj_steady zero (suc n) zero b p q = refl
disj_steady (suc m) zero zero b p q = refl
disj_steady (suc m) (suc n) zero b p q = refl
disj_steady (suc m) (suc n) (suc a) b p q =
    omega (arith, disj_steady m n (suc a / 2) (b / 2) (omega arith) (omega arith))
disj_steady m n a b p q = absurd (omega arith)

pub or_zero_left : (b : ℕ) → bit_or 0 b ≡ b
or_zero_left b = bit_or-bitwise 0 b

-- the law of the lowest digit
or_digit : (a b : ℕ) → bit_or a b ≡ 2 * bit_or (a / 2) (b / 2) + max (a % 2) (b % 2)
or_digit zero b = omega (arith, or_zero_left b, or_zero_left (b / 2))
or_digit (suc a) b =
    let whole = bit_or-bitwise (suc a) b in
    let rest = bit_or-bitwise (suc a / 2) (b / 2) in
    omega (
      arith,
      whole,
      rest,
      disj_steady a (suc a / 2) (suc a / 2) (b / 2) (omega arith) (omega arith),
    )

or_zero_below : (n a : ℕ) → a ≤ n → bit_or a 0 ≡ a
or_zero_below zero zero h = refl
or_zero_below (suc n) zero h = refl
or_zero_below (suc n) (suc a) h =
    omega (arith, or_digit (suc a) 0, or_zero_below n (suc a / 2) (omega arith))
or_zero_below n a h = absurd (omega arith)

twice_power : (q k : ℕ) → q * 2 ^ suc k ≡ 2 * (q * 2 ^ k)
twice_power q k = omega (arith, ap (◌*◌ q) (pow-suc 2 k))

-- the high field first
pub or_fields : (k q r : ℕ) → r < 2 ^ k → bit_or (q * 2 ^ k) r ≡ q * 2 ^ k + r
or_fields zero q r h =
    let none_low : r ≡ 0 = omega arith in
    rw (none_low) (omega (arith, or_zero_below (q * 2 ^ 0) (q * 2 ^ 0) (omega arith)))
or_fields (suc k) q r h =
    let half : q * 2 ^ suc k / 2 ≡ q * 2 ^ k = omega (arith, twice_power q k) in
    let rest = or_fields k q (r / 2) (omega (arith, pow-suc 2 k)) in
    rw (or_digit (q * 2 ^ suc k) r, half, rest) (omega (arith, twice_power q k))

-- the low field first
pub or_fields_low : (k q r : ℕ) → r < 2 ^ k → bit_or r (q * 2 ^ k) ≡ q * 2 ^ k + r
or_fields_low zero q r h =
    let none_low : r ≡ 0 = omega arith in rw (none_low) (omega (arith, or_zero_left (q * 2 ^ 0)))
or_fields_low (suc k) q r h =
    let half : q * 2 ^ suc k / 2 ≡ q * 2 ^ k = omega (arith, twice_power q k) in
    let rest = or_fields_low k q (r / 2) (omega (arith, pow-suc 2 k)) in
    rw (or_digit r (q * 2 ^ suc k), half, rest) (omega (arith, twice_power q k))
