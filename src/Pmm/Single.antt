-- ===== src/Pmm/Single.antt =====
-- MemoryControl.c, the request for one frame, the case that page tables and the heap live on, and
-- what the search does for longer runs.
use fexox_os.Base.{
  ℕ, ◌^◌, ◌≤◌, ◌<◌, ◌≡◌, ◌↔◌, inl, inr, true, false, none, some, arith, ltb, leb, add64,
  Option-cases, ap, sym, ◌∙◌,
}
use fexox_os.Pmm.{
  Pmm, align_or_one, pmm_test, pmm_find_next_zero, align_up, run_is_free, take_run, contiguous_loop,
  failed, to_address, pmm_alloc_frame,
}
use fexox_os.Pmm.Align.{IsAlignment, align_up-RoundsUp}
use fexox_os.Pmm.Runs.{run_is_free_complete}
use native.Mathlib.Decide.{ℕ_discrete}
use fexox_os.Pmm.NextZero.{FirstFree, pmm_find_next_zero-FirstFree}

pub align_up_one : (x : ℕ) → x ≤ 2 ^ 53 → align_up x 1 ≡ x
align_up_one x h =
    let v : IsAlignment 1 = record { log = 0; power = omega arith } in
    let up = align_up-RoundsUp x 1 v (omega arith) (omega arith) in omega (arith, up.above, up.near)

not_failed : (p : Pmm) (i : ℕ) → ¬ (to_address (take_run p 1 i) ≡ failed)
unfolding take_run
not_failed p i e = cc

module _ (p : Pmm) (size : p.total_frames ≤ 2 ^ 52) where
  no_bitmap : p.total_frames ≡ 0 → pmm_alloc_frame p ≡ failed
  unfolding pmm_alloc_frame
  no_bitmap e =
      let stop : leb (add64 0 1) p.total_frames ≡ false = rw e in rw (stop, contiguous_loop)

  none_found :
      0 < p.total_frames → pmm_find_next_zero p 0 p.total_frames ≡ none → pmm_alloc_frame p ≡ failed
  unfolding pmm_alloc_frame
  none_found pos e =
      let go : leb (add64 0 1) p.total_frames ≡ true = ground arith in rw (go, e, contiguous_loop)

  pub one_found :
      (i : ℕ)
      → i < p.total_frames
      → pmm_test p i ≡ false
      → pmm_find_next_zero p 0 p.total_frames ≡ some i
      → pmm_alloc_frame p ≡ to_address (take_run p 1 i)
  unfolding pmm_alloc_frame
  one_found i h free e =
      let go : leb (add64 0 1) p.total_frames ≡ true = ground arith in
      let fits : ltb p.total_frames (add64 i 1) ≡ false = ground arith in
      let clear =
        run_is_free_complete 1 p i (λ j lo hi. let here : j ≡ i = omega arith in rw here free) in
      let up : align_up i (align_or_one 1) ≡ i = align_up_one i (omega arith) in
      let fits' : ltb p.total_frames (add64 (align_up i (align_or_one 1)) 1) ≡ false = rw up fits in
      let clear' : run_is_free 1 p (align_up i (align_or_one 1)) ≡ true = rw up clear in
      rw (go, e, contiguous_loop) (rw fits' (rw clear' (rw up)))

-- the search names the first free frame
pub first_free :
    (p : Pmm) (i : ℕ)
    → p.total_frames ≤ 2 ^ 52
    → i < p.total_frames
    → pmm_test p i ≡ false
    → ((j : ℕ) → j < i → pmm_test p j ≡ true)
    → pmm_find_next_zero p 0 p.total_frames ≡ some i
first_free p i size h free below =
    let spec = pmm_find_next_zero-FirstFree p 0 p.total_frames (omega arith) (omega arith) in
    elim (Option-cases (pmm_find_next_zero p 0 p.total_frames)) [
      | inl e ↦ let all = rw e at spec in cc (all i (omega arith) h)
      | inr (c, e) ↦
          let (_, hi, clear, used) = rw e at spec in
          let up : ¬ (c < i) = λ q. cc (below c q) in
          let down : ¬ (i < c) = λ q. cc (used i (omega arith) q) in
          let same : c ≡ i = omega arith in rw e (ap some same)
    ]

-- On a bitmap of at most 2 ^ 52 frames, pmm_alloc_frame takes the lowest free frame, whichever
-- that is, and it fails exactly if every frame of the bitmap is used.
pub pmm_alloc_frame-lowest :
    (p : Pmm)
    → p.total_frames ≤ 2 ^ 52
    → ((i : ℕ)
        → i < p.total_frames
        → pmm_test p i ≡ false
        → ((j : ℕ) → j < i → pmm_test p j ≡ true)
        → pmm_alloc_frame p ≡ to_address (take_run p 1 i))
      × ((pmm_alloc_frame p ≡ failed) ↔ ((j : ℕ) → j < p.total_frames → pmm_test p j ≡ true))
pmm_alloc_frame-lowest p size = (
  λ i h free below. one_found p size i h free (first_free p i size h free below),
  (full, refused),
)
  where
    spec : 0 < p.total_frames → FirstFree p 0 p.total_frames (pmm_find_next_zero p 0 p.total_frames)
    spec pos = pmm_find_next_zero-FirstFree p 0 p.total_frames pos (omega arith)

    full : pmm_alloc_frame p ≡ failed → (j : ℕ) → j < p.total_frames → pmm_test p j ≡ true
    full e j h = elim (Option-cases (pmm_find_next_zero p 0 p.total_frames)) [
      | inl n ↦ let all = rw n at (spec (omega arith)) in all j (omega arith) h
      | inr (c, s) ↦
          let (_, hi, clear, used) = rw s at (spec (omega arith)) in
          absurd (not_failed p c (e' c hi clear s))
    ]
      where
        e' :
            (c : ℕ)
            → c < p.total_frames
            → pmm_test p c ≡ false
            → pmm_find_next_zero p 0 p.total_frames ≡ some c
            → to_address (take_run p 1 c) ≡ failed
        e' c hi clear s = sym (one_found p size c hi clear s) ∙ e

    refused : ((j : ℕ) → j < p.total_frames → pmm_test p j ≡ true) → pmm_alloc_frame p ≡ failed
    refused all = elim (ℕ_discrete p.total_frames 0) [
      | yes z ↦ no_bitmap p size z
      | no nz ↦ elim (Option-cases (pmm_find_next_zero p 0 p.total_frames)) [
        | inl n ↦ none_found p size (omega arith) n
        | inr (c, s) ↦ let (_, hi, clear, used) = rw s at (spec (omega arith)) in cc (all c hi)
      ]
    ]
