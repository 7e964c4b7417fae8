-- ===== src/Sched/Weight.antt =====
-- Scheduler.c, the table of weights and prio_to_w.

use fexox_os.Base.{
  ℕ, zero, suc, ◌+◌, ◌-◌, ◌≤◌, ◌<◌, ◌≡◌, refl, Bool, true, ◌&&◌, List, [], ◌∷◌, arith, ltb,
  if◌then◌else◌, get_or, subst, sym,
}
use native.Mathlib.Decide.{dec_lt}
use fexox_os.Base.Int.{ℤ, pos, negsuc, pos_part, ◌+ℤ◌, ◌≤ℤ◌, ltb_ℤ}

abbrev pub prio_min : ℤ
prio_min = negsuc 19

abbrev pub prio_max : ℤ
prio_max = pos 19

abbrev pub prio_to_weight : List ℕ
prio_to_weight =
    88761 ∷ 71755 ∷ 56483 ∷ 46273 ∷ 36291 ∷ 29154 ∷ 23254 ∷ 18705 ∷ 14949 ∷ 11916 ∷ 9548 ∷ 7620
    ∷ 6100 ∷ 4904 ∷ 3906 ∷ 3121 ∷ 2501 ∷ 1991 ∷ 1586 ∷ 1277 ∷ 1024 ∷ 820 ∷ 655 ∷ 526 ∷ 423 ∷ 335
    ∷ 272 ∷ 215 ∷ 172 ∷ 137 ∷ 110 ∷ 87 ∷ 70 ∷ 56 ∷ 45 ∷ 36 ∷ 29 ∷ 23 ∷ 18 ∷ 15 ∷ []

-- the two tests that clamp the priority
abbrev pub clamp_prio : ℤ → ℤ
clamp_prio prio =
    let low = if ltb_ℤ prio prio_min then prio_min else prio in
    if ltb_ℤ prio_max low then prio_max else low

-- After the clamping the index `prio + 20` lies in the table.
unfoldable pub prio_to_w : ℤ → ℕ
prio_to_w prio = get_or prio_to_weight (pos_part (clamp_prio prio +ℤ pos 20)) 0

index_of : ℤ → ℕ
index_of prio = pos_part (clamp_prio prio +ℤ pos 20)

index_bounds : (p : ℤ) → index_of p ≤ 39
unfolding index_of
index_bounds p = ground arith

index_mono : (p q : ℤ) → p ≤ℤ q → index_of p ≤ index_of q
unfolding index_of
index_mono p q h = ground arith

entry : ℕ → ℕ
entry i = get_or prio_to_weight i 0

falls_below : ℕ → Bool
falls_below zero = true
falls_below (suc n) = ltb (entry (suc n)) (entry n) && falls_below n

falls_below_sound : (n i : ℕ) → falls_below n ≡ true → i < n → entry (suc i) < entry i
unfolding falls_below
falls_below_sound zero i h p = absurd (omega arith)
falls_below_sound (suc n) i h p = elim (dec_lt i n) [
  | yes below ↦ falls_below_sound n i (ground arith) below
  | no last ↦
      let here : i ≡ n = omega arith in
      let falls : entry (suc n) < entry n = ground arith in
      subst (λ k. entry (suc k) < entry k) (sym here) falls
]

table_falls : falls_below 39 ≡ true
unfolding falls_below entry
table_falls = refl

entry_antitone : (d i : ℕ) → i + d ≤ 39 → entry (i + d) ≤ entry i
entry_antitone zero i h = let e : i + 0 ≡ i = omega arith in rw e (omega arith)
entry_antitone (suc d) i h =
    let e : i + suc d ≡ suc (i + d) = omega arith in
    let step = falls_below_sound 39 (i + d) table_falls (omega arith) in
    rw e (omega (arith, entry_antitone d i (omega arith)))

entry_le : (i j : ℕ) → i ≤ j → j ≤ 39 → entry j ≤ entry i
entry_le i j h k =
    let e : i + (j - i) ≡ j = omega arith in rw e at (entry_antitone (j - i) i (omega arith))

-- For every int, in the range of priorities or not, the weight is one of the table, between 15 and
-- 88761, so that no division by it is by zero; and a larger nice value never has a larger weight.
pub prio_to_w-antitone :
    (p q : ℤ) → (15 ≤ prio_to_w p) × (prio_to_w p ≤ 88761) × (p ≤ℤ q → prio_to_w q ≤ prio_to_w p)
unfolding prio_to_w entry index_of
prio_to_w-antitone p q = (
  entry_le (index_of p) 39 (index_bounds p) (omega arith),
  entry_le 0 (index_of p) (omega arith) (index_bounds p),
  λ h. entry_le (index_of p) (index_of q) (index_mono p q h) (index_bounds q),
)
