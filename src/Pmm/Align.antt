-- ===== src/Pmm/Align.antt =====
-- MemoryControl.c, the rounding of a candidate frame to the requested alignment.
use fexox_os.Base.{
  ℕ, zero, suc, ◌+◌, ◌-◌, ◌*◌, ◌/◌, ◌^◌, ◌≤◌, ◌<◌, ◌≡◌, ap, ◌∙◌, false, bit_and, arith, sub64,
  add64, u64_mod, not64,
}
use fexox_os.Base.Bits.{power_of_two, clear_low, two_pow_pos}
use fexox_os.Pmm.{align_up, align_or_one, bad_request}
use native.Mathlib.Nat.{mul-div-le, lt-mul-div-succ, pow-le-pow_right}
use native.Mathlib.Decide.{dec_lt}

-- `r` is the least multiple of `align` from `x` on.
pub record RoundsUp (x align r : ℕ) : Type 0 where
  pub quotient : ℕ
  pub multiple : r ≡ quotient * align
  pub above : x ≤ r
  pub near : r < x + align

-- the alignments that pass the check of pmm_alloc_frames
pub record IsAlignment (align : ℕ) : Type 0 where
  pub log : ℕ
  pub power : align ≡ 2 ^ log

pub accepted :
    (count align : ℕ)
    → align < u64_mod
    → bad_request count align ≡ false
    → (0 < count) × IsAlignment (align_or_one align)
accepted count zero small h = (ground arith, record { log = 0; power = ground arith })
accepted count (suc a) small h =
    let e : sub64 (suc a) 1 ≡ suc a - 1 = omega arith in
    let mask : bit_and (suc a) (suc a - 1) ≡ 0 = ground (arith, ap (bit_and (suc a)) e) in
    let (k, p) = power_of_two (suc a) (omega arith) mask in
    let same : align_or_one (suc a) ≡ suc a = ground arith in
    (ground arith, record { log = k; power = same ∙ p })

log_fits : (k n : ℕ) → 2 ^ k < 2 ^ n → k < n
log_fits k n h = elim (dec_lt k n) [
  | yes p ↦ p
  | no p ↦
      absurd (omega (arith, pow-le-pow_right {n = 2} (omega arith) {i = n} {j = k} (omega arith)))
]

align_up_power :
    (j k x : ℕ) → j + k ≡ 64 → x + 2 ^ k ≤ u64_mod → RoundsUp x (2 ^ k) (align_up x (2 ^ k))
unfolding align_up
align_up_power j k x e room =
    let one = two_pow_pos k in
    let y : sub64 (add64 x (2 ^ k)) 1 ≡ x + 2 ^ k - 1 = omega arith in
    let m : not64 (sub64 (2 ^ k) 1) ≡ u64_mod - 2 ^ k = omega arith in
    let width : 2 ^ (j + k) ≡ u64_mod = ap (◌^◌ 2) e in
    let cleared = rw width at (clear_low j k (x + 2 ^ k - 1) (rw width (omega arith))) in
    let low = mul-div-le (x + 2 ^ k - 1) (2 ^ k) in
    let high = lt-mul-div-succ (x + 2 ^ k - 1) one in
    rw (y, m, cleared)
      (record {
        quotient = (x + 2 ^ k - 1) / 2 ^ k;
        multiple = omega arith;
        above = omega arith;
        near = omega arith;
      })

-- For a power of two below 2 ^ 64 the rounding gives the least multiple, if the sum does not wrap.
pub align_up-RoundsUp :
    (x align : ℕ)
    → IsAlignment align
    → align < u64_mod
    → x + align ≤ u64_mod
    → RoundsUp x align (align_up x align)
align_up-RoundsUp x align v small room =
    let fits : v.log < 64 = log_fits v.log 64 (rw (v.power) at small) in
    rw v.power (align_up_power (64 - v.log) v.log x (omega arith) (rw v.power at room))

pub align_le : (align : ℕ) → IsAlignment align → align < u64_mod → (1 ≤ align) × (align ≤ 2 ^ 63)
align_le align v small =
    let fits : v.log < 64 = log_fits v.log 64 (rw (v.power) at small) in
    let top = pow-le-pow_right {n = 2} (omega arith) {i = v.log} {j = 63} (omega arith) in
    rw v.power (two_pow_pos v.log, top)
