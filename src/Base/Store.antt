-- ===== src/Base/Store.antt =====
-- C arrays and object stores as functions of the index, and counts over a prefix of them.
use Prim.Native.Nat.{ℕ, zero, suc, ◌+◌, ◌≤◌, ◌<◌}
use mathlib.Core.Path.{◌≡◌, refl, ap}
use mathlib.Core.Bool.{Bool, true, false}
use native.Mathlib.Decide.{dec_lt}
use native.Mathlib.Omega.{arith}
use mathlib.Core.Logic.{inl, inr}
use fexox_os.Base.Tests.{Bool-cases, ◌==◌, if◌then◌else◌}

-- `f[i] = a`
abbrev pub update {ℓ} : {A : Type ℓ} → (ℕ → A) → ℕ → A → ℕ → A
update f i a j = if j == i then a else f j

abbrev pub one_if : Bool → ℕ
one_if true = 1
one_if false = 0

-- How many of f[0..n) pass the test.
module _ {ℓ} {A : Type ℓ} (test : A → Bool) where
  unfoldable pub tally : ℕ → (ℕ → A) → ℕ
  tally zero f = 0
  tally (suc n) f = tally n f + one_if (test (f n))

  pub tally-ext :
      (n : ℕ) (f g : ℕ → A) → ((i : ℕ) → i < n → test (f i) ≡ test (g i)) → tally n f ≡ tally n g
  unfolding tally
  tally-ext zero f g h = refl
  tally-ext (suc n) f g h =
      ground (arith, tally-ext n f g (λ i p. h i (omega arith)), h n (omega arith))

  pub tally-update_out :
      (n : ℕ) (f : ℕ → A) (i : ℕ) (a : A) → n ≤ i → tally n (update f i a) ≡ tally n f
  tally-update_out n f i a h = tally-ext n (update f i a) f (λ j p. ground arith)

  pub tally-update :
      (n : ℕ) (f : ℕ → A) (i : ℕ) (a : A)
      → i < n
      → tally n (update f i a) + one_if (test (f i)) ≡ tally n f + one_if (test a)
  unfolding tally
  tally-update zero f i a h = absurd (omega arith)
  tally-update (suc n) f i a h = ground (arith, tally-update n f i a, tally-update_out n f i a)

  pub tally-le : (n : ℕ) (f : ℕ → A) → tally n f ≤ n
  unfolding tally
  tally-le zero f = omega arith
  tally-le (suc n) f = ground (arith, tally-le n f)

  pub tally-pos : (n : ℕ) (f : ℕ → A) (i : ℕ) → i < n → test (f i) ≡ true → 1 ≤ tally n f
  unfolding tally
  tally-pos zero f i h e = absurd (omega arith)
  tally-pos (suc n) f i h e = elim (dec_lt i n) [
    | yes below ↦ omega (arith, tally-pos n f i below e)
    | no last ↦ let here : i ≡ n = omega arith in ground (arith, ap (λ j. test (f j)) here)
  ]

  pub tally-zero : (n : ℕ) (f : ℕ → A) → ((i : ℕ) → i < n → test (f i) ≡ false) → tally n f ≡ 0
  unfolding tally
  tally-zero zero f h = refl
  tally-zero (suc n) f h =
      ground (arith, tally-zero n f (λ i p. h i (omega arith)), h n (omega arith))

  pub tally-witness : (n : ℕ) (f : ℕ → A) → 1 ≤ tally n f → (i : ℕ) × (i < n) × (test (f i) ≡ true)
  unfolding tally
  tally-witness zero f h = absurd (omega arith)
  tally-witness (suc n) f h = elim (Bool-cases (test (f n))) [
    | inl e ↦ (n, omega arith, e)
    | inr e ↦ let (i, p, q) = tally-witness n f (ground arith) in (i, omega arith, q)
  ]
