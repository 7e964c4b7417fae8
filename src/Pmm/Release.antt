-- ===== src/Pmm/Release.antt =====
-- MemoryControl.c, pmm_free_frames: which frames a release frees, and that it undoes an allocation.
use fexox_os.Base.{
  ℕ, zero, suc, ◌+◌, ◌-◌, ==_iff, ◌*◌, ◌/◌, ◌%◌, ◌^◌, ◌≤◌, ◌<◌, ◌≡◌, ◌≢◌, refl, ◌∙◌, sym, inl, inr,
  true, false, not, arith, ◌==◌, ◌||◌, add64, u64_mod, page_size, Bool-cases, if◌then◌else◌,
  tally-le, tally-ext, ap, subst,
}
use fexox_os.Pmm.{
  Pmm, pmm_test, pmm_clear, free_run, pmm_free_frames, align_or_one, pmm_alloc_frames, address,
  Allocation,
}
use fexox_os.Pmm.Runs.{inside, pmm_test-pmm_clear, free_below, free_below-pmm_clear}
use fexox_os.Pmm.Alloc.{IsValid, Taken, Allocated, success, failure, pmm_alloc_frames-Allocated}

-- one round of the loop
abbrev release_one : Pmm → ℕ → Pmm
release_one p i =
    if pmm_test p i then record (pmm_clear p i) { free_frames = add64 p.free_frames 1 } else p

pmm_test-release_one :
    (p : Pmm) (i j : ℕ) → pmm_test (release_one p i) j ≡ (if j == i then false else pmm_test p j)
unfolding pmm_test
pmm_test-release_one p i j = ground (arith, pmm_test-pmm_clear p i j, ==_iff j i)

release_one-total : (p : Pmm) (i : ℕ) → (release_one p i).total_frames ≡ p.total_frames
unfolding pmm_clear
release_one-total p i = ground arith

pub pmm_test-free_run :
    (n : ℕ) (p : Pmm) (i j : ℕ)
    → pmm_test (free_run n p i) j ≡ (if inside i n j then false else pmm_test p j)
unfolding free_run
pmm_test-free_run zero p i j = ground arith
pmm_test-free_run (suc n) p i j =
    ground (arith, pmm_test-free_run n (release_one p i) (i + 1) j, pmm_test-release_one p i j)

release_one-IsValid : (p : Pmm) (i : ℕ) → i < p.total_frames → IsValid p → IsValid (release_one p i)
unfolding pmm_clear pmm_test
release_one-IsValid p i h v = elim (Bool-cases (pmm_test p i)) [
  | inr e ↦ rw e v
  | inl e ↦
      let one_more = free_below-pmm_clear p.total_frames p i h e in
      let bounded = tally-le not p.total_frames (pmm_test p) in
      rw e (record { small = v.small; counted = omega (arith, v.counted, v.small, one_more) })
]

-- Inside the bitmap, on a valid state, the count stays right.
pub free_run-IsValid :
    (n : ℕ) (p : Pmm) (i : ℕ)
    → i + n ≤ p.total_frames
    → IsValid p
    → IsValid (free_run n p i) × ((free_run n p i).total_frames ≡ p.total_frames)
unfolding free_run
free_run-IsValid zero p i h v = (v, refl)
free_run-IsValid (suc n) p i h v =
    let same = release_one-total p i in
    let (w, t) =
      free_run-IsValid n (release_one p i) (i + 1) (rw same (omega arith))
        (release_one-IsValid p i (omega arith) v) in
    (w, t ∙ same)

-- pmm_free_frames of an address other than 0 and -1 frees exactly the `count` frames from that
-- address on: each of them is free afterwards and no other frame changes. If they lie in the bitmap
-- and the state is valid, the count of free frames stays right, and so does the size.
pub pmm_free_frames-frees :
    (p : Pmm) (pa count : ℕ)
    → pa ≢ 0
    → pa ≢ u64_mod - 1
    → ((j : ℕ)
        → pmm_test (pmm_free_frames p pa count) j
          ≡ (if inside (pa / page_size) count j then false else pmm_test p j))
      × (IsValid p
          → pa / page_size + count ≤ p.total_frames
          → IsValid (pmm_free_frames p pa count)
            × ((pmm_free_frames p pa count).total_frames ≡ p.total_frames))
unfolding pmm_free_frames
pmm_free_frames-frees p pa zero h h' =
    let nothing : (pa == 0 || pa == u64_mod - 1 || zero == 0) ≡ true = ground arith in
    (λ j. rw nothing (ground arith), λ v _. rw nothing (v, refl))
pmm_free_frames-frees p pa (suc n) h h' =
    let go : (pa == 0 || pa == u64_mod - 1 || suc n == 0) ≡ false = ground arith in
    (
      λ j. rw go (pmm_test-free_run (suc n) p (pa / page_size) j),
      λ v le. rw go (free_run-IsValid (suc n) p (pa / page_size) le v),
    )

module _ (p : Pmm) (count align : ℕ) where
  -- what an allocation that returned an address has done
  allocated :
      (r : Allocation) (pa : ℕ) (q : Pmm)
      → Allocated p count align r
      → r ≡ address pa q
      → (i : ℕ) × (pa ≡ i * page_size % u64_mod) × Taken p count (align_or_one align) i q
  allocated _ pa q (success {i} {q = q'} t) e =
      let same : q' ≡ q = cc in (i, cc, subst (Taken p count (align_or_one align) i) same t)
  allocated _ pa q failure e = cc

-- An allocation followed by the release of what it returned, unless that is address 0, which
-- pmm_free_frames ignores: every frame of the bitmap is as it was, and on a valid state so is the
-- count of free frames.
pub pmm_free_frames-pmm_alloc_frames :
    (p q : Pmm) (count align pa : ℕ)
    → p.total_frames ≤ 2 ^ 52
    → count < u64_mod
    → align < u64_mod
    → pmm_alloc_frames p count align ≡ address pa q
    → pa ≢ 0
    → ((j : ℕ) → pmm_test (pmm_free_frames q pa count) j ≡ pmm_test p j)
      × (IsValid p → (pmm_free_frames q pa count).free_frames ≡ p.free_frames)
pmm_free_frames-pmm_alloc_frames p q count align pa size narrow small e nz =
    let (i, at, t) =
      allocated p count align (pmm_alloc_frames p count align) pa q
        (pmm_alloc_frames-Allocated p count align size narrow small) e in
    let place : pa / page_size ≡ i = omega (arith, t.inside_bitmap) in
    let (frees, keeps) = pmm_free_frames-frees q pa count nz (omega (arith, t.inside_bitmap)) in
    let back : (j : ℕ) → pmm_test (pmm_free_frames q pa count) j ≡ pmm_test p j = λ j.
      elim (Bool-cases (inside i count j)) [
        | inl here ↦ frees j ∙ rw (place, here) (sym (t.were_free j (ground arith) (ground arith)))
        | inr off ↦ frees j ∙ rw (place, off) (t.others j (ground arith))
      ] in
    (
      back,
      λ v.
          let (w, kept) = keeps (t.valid v) (omega (arith, place, t.total, t.inside_bitmap)) in
          let after = pmm_free_frames q pa count in
          let same =
            tally-ext not p.total_frames (pmm_test after) (pmm_test p) (λ j _. ap not (back j)) in
          w.counted ∙ ap (λ n. free_below n after) (kept ∙ t.total) ∙ same ∙ sym v.counted,
    )
