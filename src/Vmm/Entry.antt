-- ===== src/Vmm/Entry.antt =====
-- MemoryControl.c, pte_make: what an entry says of the frame it names.
use fexox_os.Base.{
  ℕ, Bool, zero, suc, ◌+◌, ◌/◌, ◌^◌, ◌<◌, ◌≡◌, refl, ◌∙◌, ap, true, false, arith, page_size,
}
use fexox_os.Vmm.{bit, value, frame_of, present, pte_make, pte_p, pte_w}
use native.Mathlib.Nat.{pow-suc}

value-bit : (k n : ℕ) → n < 2 ^ k → value k (bit n) ≡ n
value-bit zero n h = omega (arith, h)
value-bit (suc k) n h =
    let small : n / 2 < 2 ^ k = omega (arith, pow-suc 2 k) in
    ground (arith, value-bit k (n / 2) small)

value-ext : (k : ℕ) (f g : ℕ → Bool) → ((b : ℕ) → b < k → f b ≡ g b) → value k f ≡ value k g
value-ext zero f g e = refl
value-ext (suc k) f g e =
    let rest = value-ext k (λ b. f (suc b)) (λ b. g (suc b)) (λ b h. e (suc b) (omega arith)) in
    rw (e 0 (omega arith), rest) refl

bit_zero : (b : ℕ) → bit 0 b ≡ false
bit_zero zero = refl
bit_zero (suc b) = bit_zero b

bit_shift : (n b : ℕ) → bit n (b + 12) ≡ bit (n / page_size) b
bit_shift n b =
    let e : n / 2 / 2 / 2 / 2 / 2 / 2 / 2 / 2 / 2 / 2 / 2 / 2 ≡ n / page_size = omega arith in
    let twelve : b + 12 ≡ suc (suc (suc (suc (suc (suc (suc (suc (suc (suc (suc (suc b))))))))))) =
      omega arith in
    ap (bit n) twelve ∙ ap (λ m. bit m b) e

-- the frame that an entry made for a table names
pub frame_of-pte_make :
    (pa : ℕ) → pa / page_size < 2 ^ 40 → frame_of (pte_make pa (pte_p + pte_w)) ≡ pa / page_size
unfolding pte_make frame_of
frame_of-pte_make pa small =
    value-ext 40 (λ b. pte_make pa (pte_p + pte_w) (b + 12)) (bit (pa / page_size))
      (λ b h. ground (arith, bit_shift pa b, bit_shift 3 b, bit_zero b))
    ∙ value-bit 40 (pa / page_size) small

-- An entry is present if its flags say so.
pub present-pte_make : (pa flags : ℕ) → bit flags 0 ≡ true → present (pte_make pa flags) ≡ true
unfolding pte_make
present-pte_make pa flags e = ground (arith, e)
