-- ===== src/Pmm/Runs.antt =====
-- MemoryControl.c, the bits of the bitmap and the loops over a run of frames.
use fexox_os.Base.{
  ℕ, zero, suc, ◌+◌, ◌≤◌, ◌<◌, ◌≡◌, refl, ◌⊎◌, inl, inr, Bool, true, false, ◌&&◌, not, ◌==◌, ltb,
  leb, arith, if◌then◌else◌, ap, tally, tally-ext, tally-update, update, Bool-cases,
}
use fexox_os.Pmm.{Pmm, pmm_test, pmm_set, pmm_clear, run_is_free, set_run}

pub pmm_test-pmm_set :
    (p : Pmm) (i j : ℕ) → pmm_test (pmm_set p i) j ≡ (if j == i then true else pmm_test p j)
unfolding pmm_test pmm_set
pmm_test-pmm_set p i j = ground arith

pub pmm_test-pmm_clear :
    (p : Pmm) (i j : ℕ) → pmm_test (pmm_clear p i) j ≡ (if j == i then false else pmm_test p j)
unfolding pmm_test pmm_clear
pmm_test-pmm_clear p i j = ground arith

-- The test of a run succeeds exactly when each of its frames is free.
pub run_is_free_sound :
    (n : ℕ) (p : Pmm) (i : ℕ)
    → run_is_free n p i ≡ true
    → (j : ℕ) → i ≤ j
    → j < i + n
    → pmm_test p j ≡ false
unfolding run_is_free
run_is_free_sound zero p i e = λ j lo hi. absurd (omega arith)
run_is_free_sound (suc n) p i e = λ j lo hi. elim (Bool-cases (j == i)) [
  | inl here ↦ ground arith
  | inr later ↦ run_is_free_sound n p (i + 1) (ground arith) j (ground arith) (omega arith)
]

pub run_is_free_complete :
    (n : ℕ) (p : Pmm) (i : ℕ)
    → ((j : ℕ) → i ≤ j → j < i + n → pmm_test p j ≡ false)
    → run_is_free n p i ≡ true
unfolding run_is_free
run_is_free_complete zero p i h = refl
run_is_free_complete (suc n) p i h = ground (
  arith,
  h i (omega arith) (omega arith),
  run_is_free_complete n p (i + 1) (λ j lo hi. h j (omega arith) (omega arith)),
)

abbrev pub inside : (i n j : ℕ) → Bool
inside i n j = leb i j && ltb j (i + n)

pub pmm_test-set_run :
    (n : ℕ) (p : Pmm) (i j : ℕ)
    → pmm_test (set_run n p i) j ≡ (if inside i n j then true else pmm_test p j)
unfolding set_run
pmm_test-set_run zero p i j = ground arith
pmm_test-set_run (suc n) p i j =
    ground (arith, pmm_test-set_run n (pmm_set p i) (i + 1) j, pmm_test-pmm_set p i j)

-- The loop writes the bitmap only.
pub set_run_words :
    (n : ℕ) (p : Pmm) (i : ℕ) → set_run n p i ≡ record p { words = (set_run n p i).words }
unfolding set_run pmm_set
set_run_words zero p i = refl
set_run_words (suc n) p i = set_run_words n (pmm_set p i) (i + 1)

pub run_inside : (i n j : ℕ) → i ≤ j → j < i + n → inside i n j ≡ true
run_inside i n j lo hi = ground arith

pub run_outside : (i n j : ℕ) → (j < i) ⊎ (i + n ≤ j) → inside i n j ≡ false
run_outside i n j h = ground arith

-- The free frames below `n`.
abbrev pub free_below : ℕ → Pmm → ℕ
free_below n p = tally not n (pmm_test p)

pub free_below-pmm_set :
    (n : ℕ) (p : Pmm) (i : ℕ)
    → i < n
    → pmm_test p i ≡ false
    → free_below n (pmm_set p i) + 1 ≡ free_below n p
free_below-pmm_set n p i h e =
    let same =
      tally-ext not n (pmm_test (pmm_set p i)) (update (pmm_test p) i true)
        (λ j _. ap not (pmm_test-pmm_set p i j)) in
    ground (arith, same, tally-update not n (pmm_test p) i true h)

pub free_below-pmm_clear :
    (n : ℕ) (p : Pmm) (i : ℕ)
    → i < n
    → pmm_test p i ≡ true
    → free_below n (pmm_clear p i) ≡ free_below n p + 1
free_below-pmm_clear n p i h e =
    let same =
      tally-ext not n (pmm_test (pmm_clear p i)) (update (pmm_test p) i false)
        (λ j _. ap not (pmm_test-pmm_clear p i j)) in
    ground (arith, same, tally-update not n (pmm_test p) i false h)

pub free_below-set_run :
    (m n : ℕ) (p : Pmm) (i : ℕ)
    → i + m ≤ n
    → ((j : ℕ) → i ≤ j → j < i + m → pmm_test p j ≡ false)
    → free_below n (set_run m p i) + m ≡ free_below n p
unfolding set_run
free_below-set_run zero n p i h free = omega arith
free_below-set_run (suc m) n p i h free = omega (
  arith,
  free_below-pmm_set n p i (omega arith) (free i (omega arith) (omega arith)),
  free_below-set_run m n (pmm_set p i) (i + 1) (omega arith)
      (λ j lo hi. ground (arith, pmm_test-pmm_set p i j, free j (omega arith) (omega arith))),
)
