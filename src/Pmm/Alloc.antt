-- ===== src/Pmm/Alloc.antt =====
-- MemoryControl.c, pmm_alloc_frames: what an allocation takes, and that its search ends.
use fexox_os.Base.{
  ℕ, zero, suc, ◌+◌, ◌*◌, ◌%◌, ◌^◌, ◌≤◌, ◌<◌, ◌≡◌, ◌∙◌, ◌⊎◌, inl, inr, true, false, not, arith, ltb,
  leb, sub64, add64, u64_mod, page_size, Bool-cases, Option-cases, tally-le, ap, if◌then◌else◌,
}
use fexox_os.Pmm.{
  Pmm, pmm_test, pmm_find_next_zero, align_up, align_or_one, bad_request, run_is_free, set_run,
  Search, found, absent, take_run, contiguous_loop, pmm_find_contiguous_zero, Allocation, address,
  failed, to_address, pmm_alloc_frames,
}
use fexox_os.Pmm.Align.{IsAlignment, accepted, align_up-RoundsUp, align_le}
use fexox_os.Pmm.Runs.{
  run_inside, run_outside, run_is_free_sound, set_run_words, pmm_test-set_run, free_below,
  free_below-set_run,
}
use native.Mathlib.Decide.{dec_lt}
use fexox_os.Pmm.NextZero.{pmm_find_next_zero-FirstFree}

-- The bitmap counts at most 2 ^ 52 frames, as many as a 64-bit address has pages, and the count
-- of free frames is right.
pub record IsValid (p : Pmm) : Type 0 where
  pub small : p.total_frames ≤ 2 ^ 52
  pub counted : p.free_frames ≡ free_below p.total_frames p

-- `q` is `p` with the `count` frames from `i` on taken, all of which were free.
pub record Taken (p : Pmm) (count align i : ℕ) (q : Pmm) : Type 0 where
  pub inside_bitmap : i + count ≤ p.total_frames
  pub quotient : ℕ
  pub aligned : i ≡ quotient * align
  pub were_free : (j : ℕ) → i ≤ j → j < i + count → pmm_test p j ≡ false
  pub are_used : (j : ℕ) → i ≤ j → j < i + count → pmm_test q j ≡ true
  pub others : (j : ℕ) → (j < i) ⊎ (i + count ≤ j) → pmm_test q j ≡ pmm_test p j
  pub total : q.total_frames ≡ p.total_frames
  pub place : (q.bitmap_phys ≡ p.bitmap_phys) × (q.bitmap_pages ≡ p.bitmap_pages)
  pub valid : IsValid p → IsValid q

-- every frame that is used in `p` is used in `q`
abbrev pub Keeps : (p q : Pmm) → Type 0
Keeps p q = (f : ℕ) → pmm_test p f ≡ true → pmm_test q f ≡ true

pub Taken-Keeps : {p : Pmm} {count align i : ℕ} {q : Pmm} → Taken p count align i q → Keeps p q
Taken-Keeps {p} {count} {align} {i} t f used = elim (dec_lt f i) [
  | yes before ↦ t.others f (inl before) ∙ used
  | no from ↦ elim (dec_lt f (i + count)) [
    | yes in_run ↦ t.are_used f (omega arith) in_run
    | no behind ↦ t.others f (inr (omega arith)) ∙ used
  ]
]

pub data Outcome (p : Pmm) (count align : ℕ) : Search → Type 0 where
  success : {i : ℕ} {q : Pmm} → Taken p count align i q → Outcome p count align (found i q)
  failure : Outcome p count align absent

module _ (p : Pmm) (count align : ℕ) where
  take_run-IsValid :
      (i : ℕ)
      → i + count ≤ p.total_frames
      → ((j : ℕ) → i ≤ j → j < i + count → pmm_test p j ≡ false)
      → IsValid p
      → IsValid (record (set_run count p i) { free_frames = sub64 p.free_frames count })
  unfolding pmm_test
  take_run-IsValid i le free v =
      let same : (set_run count p i).total_frames ≡ p.total_frames =
        ap (λ s. s.total_frames) (set_run_words count p i) in
      let moved = free_below-set_run count p.total_frames p i le free in
      let bounded = tally-le not p.total_frames (pmm_test p) in
      record { small = rw same v.small; counted = rw same (omega (arith, v.counted, v.small)) }

  pub take_run-Outcome :
      (i quotient : ℕ)
      → i ≡ quotient * align
      → i + count ≤ p.total_frames
      → run_is_free count p i ≡ true
      → Outcome p count align (take_run p count i)
  unfolding take_run pmm_test
  take_run-Outcome i quotient e le free =
      let clear = run_is_free_sound count p i free in
      success (record {
        inside_bitmap = le;
        quotient = quotient;
        aligned = e;
        were_free = clear;
        are_used = λ j lo hi.
            pmm_test-set_run count p i j
            ∙ ap (λ b. if b then true else pmm_test p j) (run_inside i count j lo hi);
        others = λ j out.
            pmm_test-set_run count p i j
            ∙ ap (λ b. if b then true else pmm_test p j) (run_outside i count j out);
        total = ap (λ s. s.total_frames) (set_run_words count p i);
        place = (
          ap (λ s. s.bitmap_phys) (set_run_words count p i),
          ap (λ s. s.bitmap_pages) (set_run_words count p i),
        );
        valid = take_run-IsValid i le clear;
      })

-- One search in a bitmap of at most 2 ^ 52 frames, for a run that is no longer than the bitmap.
module _ (p : Pmm) (count align : ℕ) (size : p.total_frames ≤ 2 ^ 52) (some_frames : 0 < count)
    (fits : count ≤ p.total_frames) (v : IsAlignment align) (small : align < u64_mod) where
  -- The fuel is enough: each round but the last two moves `idx` on by one frame at least.
  abbrev Enough : (fuel idx : ℕ) → Type 0
  Enough fuel idx =
      (1 ≤ fuel)
      × (idx ≤ 2 ^ 53 + 2 ^ 63)
      × ((p.total_frames < idx + count) ⊎ (p.total_frames + 2 ≤ idx + fuel))

  pub contiguous_loop-Outcome :
      (fuel idx : ℕ)
      → Enough fuel idx
      → Outcome p count align (contiguous_loop fuel p count align idx)
  unfolding contiguous_loop
  contiguous_loop-Outcome zero idx enough = absurd (omega arith)
  contiguous_loop-Outcome (suc k) idx enough =
      elim (Bool-cases (leb (add64 idx count) p.total_frames)) [
        | inr stop ↦ rw (stop, contiguous_loop) failure
        | inl go ↦
            let before : idx + count ≤ p.total_frames = ground arith in
            let first =
              pmm_find_next_zero-FirstFree p idx p.total_frames (omega arith) (omega arith) in
            elim (Option-cases (pmm_find_next_zero p idx p.total_frames)) [
              | inl e ↦ rw (go, e, contiguous_loop) failure
              | inr (cand, e) ↦
                  let (lo, hi, _, _) = rw e at first in
                  let bounds = align_le align v small in
                  let up = align_up-RoundsUp cand align v small (omega arith) in
                  let aligned = align_up cand align in
                  let sum : add64 aligned count ≡ aligned + count = omega (arith, up.near) in
                  rw (go, e, contiguous_loop)
                    (elim (Bool-cases (ltb p.total_frames (add64 aligned count))) [
                      | inl over ↦ rw over (
                          contiguous_loop-Outcome k aligned
                            (omega arith, omega (arith, up.near), inl (ground arith)))
                      | inr under ↦ rw under (elim (Bool-cases (run_is_free count p aligned)) [
                        | inl free ↦ rw free (
                            take_run-Outcome p count align aligned up.quotient up.multiple
                              (ground arith) free)
                        | inr taken ↦ rw taken (
                            contiguous_loop-Outcome k (add64 aligned count)
                              (omega arith, ground arith, inr (omega (arith, up.above))))
                      ])
                    ])
            ]
      ]

-- What pmm_alloc_frames promises: an aligned run of `count` frames that were free, is now used
-- and lies in the bitmap, no other frame touched and the count of free frames right; or nothing.
pub data Allocated (p : Pmm) (count align : ℕ) : Allocation → Type 0 where
  success :
      {i : ℕ} {q : Pmm}
      → Taken p count (align_or_one align) i q
      → Allocated p count align (address (i * page_size % u64_mod) q)
  failure : Allocated p count align failed

to_address-Allocated :
    {p : Pmm} {count align : ℕ} {s : Search}
    → Outcome p count (align_or_one align) s
    → Allocated p count align (to_address s)
to_address-Allocated (success t) = success t
to_address-Allocated failure = failure

too_long :
    (p : Pmm) (count align : ℕ)
    → p.total_frames < count
    → count < u64_mod
    → pmm_find_contiguous_zero p count align ≡ absent
unfolding pmm_find_contiguous_zero
too_long p count align h small =
    let stop : leb (add64 0 count) p.total_frames ≡ false = ground arith in
    rw (stop, contiguous_loop)

-- On a bitmap of at most 2 ^ 52 frames, and for any 64-bit count and alignment, pmm_alloc_frames
-- ends within the model's fuel, and either fails or returns the address of an aligned run of
-- `count` frames inside the bitmap: each was free and is now used, every other frame keeps its
-- state, and the count of free frames stays right if it was.
pub pmm_alloc_frames-Allocated :
    (p : Pmm) (count align : ℕ)
    → p.total_frames ≤ 2 ^ 52
    → count < u64_mod
    → align < u64_mod
    → Allocated p count align (pmm_alloc_frames p count align)
unfolding pmm_alloc_frames
pmm_alloc_frames-Allocated p count align size narrow small =
    elim (Bool-cases (bad_request count align)) [
      | inl bad ↦ rw bad failure
      | inr good ↦
          let (pos, v) = accepted count align small good in
          rw good (
            to_address-Allocated (elim (Bool-cases (leb count p.total_frames)) [
              | inr long ↦ rw (too_long p count (align_or_one align) (ground arith) narrow) failure
              | inl fits ↦
                  unfold pmm_find_contiguous_zero in
                  contiguous_loop-Outcome p count (align_or_one align) size pos (ground arith) v
                    (ground arith) (suc (suc p.total_frames)) 0
                    (omega arith, omega arith, inr (omega arith))
            ]))
    ]
