-- ===== src/Pmm/NextZero.antt =====
-- MemoryControl.c, the word-by-word search for a free frame.
use fexox_os.Base.{
  ℕ, zero, suc, ◌+◌, ◌-◌, ◌*◌, ◌/◌, ◌%◌, ◌^◌, ◌≤◌, ◌<◌, ◌≡◌, true, false, Option, none, some, arith,
  ltb, if◌then◌else◌, sub64, Bool-cases, inl, inr,
}
use fexox_os.Pmm.{
  Pmm, Word, pmm_test, ctz64, candidates, next_zero_loop, pmm_find_next_zero, word_idx,
}

-- The lowest set bit from `pos` on.
abbrev LowestBit : (k pos : ℕ) → Word → Option ℕ → Type 0
LowestBit k pos v none = (c : ℕ) → pos ≤ c → c < pos + k → v c ≡ false
LowestBit k pos v (some b) =
    (pos ≤ b) × (b < pos + k) × (v b ≡ true) × ((c : ℕ) → pos ≤ c → c < b → v c ≡ false)

extend :
    (k pos : ℕ) (v : Word) (o : Option ℕ)
    → v pos ≡ false
    → LowestBit k (pos + 1) v o
    → LowestBit (suc k) pos v o
extend k pos v none e h = λ c p q. ground (arith, h c)
extend k pos v (some b) e (lo, hi, s, h) =
    (omega arith, omega arith, s, λ c p q. ground (arith, h c))

pub ctz64-LowestBit : (k pos : ℕ) (v : Word) → LowestBit k pos v (ctz64 k pos v)
unfolding ctz64
ctz64-LowestBit zero pos v = λ c p q. absurd (omega arith)
ctz64-LowestBit (suc k) pos v = elim (Bool-cases (v pos)) [
  | inl e ↦ rw e (omega arith, omega arith, e, λ c p q. absurd (omega arith))
  | inr e ↦ rw e (extend k pos v (ctz64 k (pos + 1) v) e (ctz64-LowestBit k (pos + 1) v))
]

-- The first free frame of [start, limit), or that there is none.
abbrev pub FirstFree : Pmm → (start limit : ℕ) → Option ℕ → Type 0
FirstFree p start limit none = (j : ℕ) → start ≤ j → j < limit → pmm_test p j ≡ true
FirstFree p start limit (some i) =
    (start ≤ i)
    × (i < limit)
    × (pmm_test p i ≡ false)
    × ((j : ℕ) → start ≤ j → j < i → pmm_test p j ≡ true)

split_index : (w j : ℕ) → w * 64 ≤ j → j < w * 64 + 64 → (j / 64 ≡ w) × (j % 64 ≡ j - w * 64)
split_index w j p q = omega arith

-- what a word says of the frames that it stands for
candidate_clear :
    (p : Pmm) (w skip j : ℕ)
    → w * 64 + skip ≤ j
    → j < w * 64 + 64
    → candidates p w skip (j - w * 64) ≡ false
    → pmm_test p j ≡ true
unfolding pmm_test candidates
candidate_clear p w skip j lo hi h =
    let (e, r) = split_index w j (omega arith) hi in rw (pmm_test, e, r) (ground arith)

candidate_set :
    (p : Pmm) (w skip b : ℕ)
    → b < 64
    → candidates p w skip b ≡ true
    → (skip ≤ b) × (pmm_test p (w * 64 + b) ≡ false)
unfolding pmm_test candidates
candidate_set p w skip b hi h =
    let e : (w * 64 + b) / 64 ≡ w = omega arith in
    let r : (w * 64 + b) % 64 ≡ b = omega arith in
    (ground arith, rw (pmm_test, e, r) (ground arith))

prepend :
    (p : Pmm) (start middle limit : ℕ) (o : Option ℕ)
    → start ≤ middle
    → ((j : ℕ) → start ≤ j → j < middle → j < limit → pmm_test p j ≡ true)
    → FirstFree p middle limit o
    → FirstFree p start limit o
prepend p start middle limit none le used h = λ j lo hi. elim (Bool-cases (ltb j middle)) [
  | inl below ↦ used j lo (ground arith) hi
  | inr above ↦ h j (ground arith) hi
]
prepend p start middle limit (some i) le used (lo, hi, e, h) = (
  omega arith,
  hi,
  e,
  λ j p' q. elim (Bool-cases (ltb j middle)) [
    | inl below ↦ used j p' (ground arith) (omega arith)
    | inr above ↦ h j (ground arith) q
  ],
)

abbrev chosen : (w limit : ℕ) (rest o : Option ℕ) → Option ℕ
chosen w limit rest o = elim o [
  | none ↦ rest
  | some bit ↦ if ltb (w * 64 + bit) limit then some (w * 64 + bit) else rest
]

-- one round, for what the bit scan and the later rounds give
chosen-FirstFree :
    (p : Pmm) (w skip limit : ℕ) (rest o : Option ℕ)
    → skip ≤ 64
    → LowestBit 64 0 (candidates p w skip) o
    → FirstFree p ((w + 1) * 64 + 0) limit rest
    → FirstFree p (w * 64 + skip) limit (chosen w limit rest o)
chosen-FirstFree p w skip limit rest none s clear h =
    prepend p (w * 64 + skip) ((w + 1) * 64 + 0) limit rest (omega arith)
      (λ j lo hi _.
        candidate_clear p w skip j lo (omega arith)
          (clear (j - w * 64) (omega arith) (omega arith)))
      h
chosen-FirstFree p w skip limit rest (some b) s (_, hi, is_set, below) h =
    let (skipped, free) = candidate_set p w skip b hi is_set in
    let used : (j : ℕ) → w * 64 + skip ≤ j → j < w * 64 + b → pmm_test p j ≡ true = λ j lo q.
      candidate_clear p w skip j lo (omega arith)
        (below (j - w * 64) (omega arith) (omega arith)) in
    elim (Bool-cases (ltb (w * 64 + b) limit)) [
      | inl inside ↦ rw inside (omega arith, ground arith, free, used)
      | inr outside ↦ rw outside (
          prepend p (w * 64 + skip) ((w + 1) * 64 + 0) limit rest (omega arith)
            (λ j lo q r. used j lo (ground arith)) h)
    ]

next_zero_loop-FirstFree :
    (k : ℕ) (p : Pmm) (w skip limit : ℕ)
    → skip ≤ 64
    → limit ≤ (w + k) * 64
    → FirstFree p (w * 64 + skip) limit (next_zero_loop k p w skip limit)
unfolding next_zero_loop
next_zero_loop-FirstFree zero p w skip limit s h = λ j lo hi. absurd (omega arith)
next_zero_loop-FirstFree (suc k) p w skip limit s h =
    chosen-FirstFree p w skip limit (next_zero_loop k p (w + 1) 0 limit)
      (ctz64 64 0 (candidates p w skip)) s (ctz64-LowestBit 64 0 (candidates p w skip))
      (next_zero_loop-FirstFree k p (w + 1) 0 limit (omega arith) (omega arith))

-- The search returns the first free frame of [start, limit), and nothing only if all are used.
pub pmm_find_next_zero-FirstFree :
    (p : Pmm) (start limit : ℕ)
    → start < limit
    → limit < 2 ^ 63
    → FirstFree p start limit (pmm_find_next_zero p start limit)
unfolding pmm_find_next_zero
pmm_find_next_zero-FirstFree p start limit s h =
    let e : start / 64 * 64 + start % 64 ≡ start = omega arith in
    rw e at (
      next_zero_loop-FirstFree (word_idx (sub64 limit 1) + 1 - start / 64) p (start / 64)
        (start % 64) limit (omega arith) (omega arith))
