-- ===== src/Pmm/Skip.antt =====
-- MemoryControl.c, pmm_find_contiguous_zero steps over a whole run when one frame of it is used.
use fexox_os.Base.{
  ℕ, ◌+◌, ◌*◌, ◌^◌, ◌≤◌, ◌<◌, ◌≡◌, true, false, arith, ltb, leb, add64, Bool-cases, inl, inr,
}
use fexox_os.Pmm.{
  Pmm, bad_request, pmm_test, align_up, run_is_free, contiguous_loop, absent, failed,
  pmm_find_contiguous_zero, pmm_alloc_frames,
}
use fexox_os.Pmm.Runs.{run_is_free_sound}
use fexox_os.Pmm.Single.{align_up_one, first_free}
use fexox_os.Base.Bits.{and_zero_right}

module _ (p : Pmm) (n : ℕ) (size : p.total_frames ≤ 2 ^ 52) (long : 2 ≤ n)
    (room : n + 2 ≤ p.total_frames) (tight : p.total_frames < 2 * n) (first : pmm_test p 0 ≡ false)
    (second : pmm_test p 1 ≡ true) where
  skip_search : pmm_find_contiguous_zero p n 1 ≡ absent
  unfolding pmm_find_contiguous_zero
  skip_search =
      let go : leb (add64 0 n) p.total_frames ≡ true = ground arith in
      let at = first_free p 0 size (omega arith) first (λ j h. absurd (omega arith)) in
      let up : align_up 0 1 ≡ 0 = align_up_one 0 (omega arith) in
      let fits : ltb p.total_frames (add64 (align_up 0 1) n) ≡ false = rw up (ground arith) in
      let broken : run_is_free n p 0 ≡ false = elim (Bool-cases (run_is_free n p 0)) [
        | inl free ↦ cc (run_is_free_sound n p 0 free 1 (omega arith) (omega arith))
        | inr e ↦ e
      ] in
      let broken' : run_is_free n p (align_up 0 1) ≡ false = rw up broken in
      let over : leb (add64 (add64 (align_up 0 1) n) n) p.total_frames ≡ false =
        rw up (ground arith) in
      rw (go, at, contiguous_loop) (rw fits (rw broken' (rw over)))

  -- With at least n + 2 and fewer than 2 * n frames, at most 2 ^ 52, where n is at least 2, if frame
  -- 0 is free and frame 1 is used, a request for n frames fails, though the frames 2 to n + 1 are
  -- there, and whether or not they are free.
  pub pmm_alloc_frames-skips : pmm_alloc_frames p n 1 ≡ failed
  unfolding pmm_alloc_frames
  pmm_alloc_frames-skips =
      let good : bad_request n 1 ≡ false = ground (arith, and_zero_right 1) in
      rw (good, skip_search)
