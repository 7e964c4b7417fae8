-- ===== src/Pmm/Above.antt =====
-- MemoryControl.c, pmm_alloc_frames_above: the frames of a buffer for a device, which lie above a
-- lower limit.
use fexox_os.Base.{
  ℕ, zero, suc, ◌+◌, ◌-◌, ◌*◌, ◌/◌, ◌^◌, ◌≤◌, ◌<◌, ◌≡◌, inl, inr, false, arith, ltb, leb, sub64,
  add64, u64_mod, page_size, Bool-cases, Option-cases,
}
use fexox_os.Pmm.{
  Pmm, pmm_find_next_zero, align_up, align_or_one, bad_request, run_is_free, Search, found, absent,
  take_run, above_loop, Allocation, address, failed, to_address, pmm_alloc_frames_above,
}
use fexox_os.Pmm.Align.{IsAlignment, accepted, align_up-RoundsUp, align_le}
use fexox_os.Pmm.NextZero.{pmm_find_next_zero-FirstFree}
use fexox_os.Pmm.Alloc.{Taken, Outcome, success, take_run-Outcome}

-- What the search leads to: a run that was taken, from frame `min_frame` on, or nothing.
pub data Raised (p : Pmm) (count align min_frame : ℕ) : Search → Type 0 where
  above :
      {i : ℕ} {q : Pmm}
      → min_frame ≤ i
      → Taken p count align i q
      → Raised p count align min_frame (found i q)
  nowhere : Raised p count align min_frame absent

module _ (p : Pmm) (count align min_frame : ℕ) (size : p.total_frames ≤ 2 ^ 52)
    (some_frames : 0 < count) (narrow : count ≤ 2 ^ 63) (v : IsAlignment align)
    (small : align < u64_mod) where
  raise :
      (i : ℕ)
      → min_frame ≤ i
      → Outcome p count align (take_run p count i)
      → Raised p count align min_frame (take_run p count i)
  unfolding take_run
  raise i low (success t) = above low t

  -- Each round that goes on leaves at least one frame behind, so the fuel is enough.
  above_loop-Raised :
      (fuel idx : ℕ)
      → 1 ≤ fuel
      → min_frame ≤ idx
      → idx ≤ 2 ^ 53
      → p.total_frames + 2 ≤ idx + fuel
      → Raised p count align min_frame (above_loop fuel p count align min_frame idx)
  unfolding above_loop
  above_loop-Raised zero idx one low high enough = absurd (omega arith)
  above_loop-Raised (suc k) idx one low high enough =
      elim (Bool-cases (leb (add64 idx count) p.total_frames)) [
        | inr stop ↦ rw (stop, above_loop) nowhere
        | inl go ↦
            let before : idx + count ≤ p.total_frames = ground arith in
            let first =
              pmm_find_next_zero-FirstFree p idx p.total_frames (omega arith) (omega arith) in
            elim (Option-cases (pmm_find_next_zero p idx p.total_frames)) [
              | inl e ↦ rw (go, e, above_loop) nowhere
              | inr (cand, e) ↦
                  let (lo, hi, _, _) = rw e at first in
                  let bounds = align_le align v small in
                  let up = align_up-RoundsUp cand align v small (omega arith) in
                  let aligned = align_up cand align in
                  let raised : ltb aligned min_frame ≡ false = ground (arith, up.above) in
                  let sum : add64 aligned count ≡ aligned + count = omega (arith, up.near) in
                  rw (go, e, above_loop, raised)
                    (elim (Bool-cases (ltb p.total_frames (add64 aligned count))) [
                      | inl over ↦ rw over nowhere
                      | inr under ↦
                          rw (under, raised)
                            (elim (Bool-cases (run_is_free count p aligned)) [
                              | inl free ↦
                                  rw (free, raised)
                                    (raise aligned (omega (arith, up.above)) (
                                      take_run-Outcome p count align aligned up.quotient up.multiple
                                        (ground arith) free))
                              | inr taken ↦
                                  rw (taken, raised)
                                    (above_loop-Raised k (add64 aligned count)
                                      (ground (arith, up.above)) (omega (arith, up.above))
                                      (ground arith) (ground (arith, up.above)))
                            ])
                    ])
            ]
      ]

-- What pmm_alloc_frames_above promises: an aligned run of `count` frames that were free and are now
-- used, at an address from `min_phys` on; or nothing.
pub data AllocatedAbove (p : Pmm) (count align min_phys : ℕ) : Allocation → Type 0 where
  obtained :
      {i pa : ℕ} {q : Pmm}
      → Taken p count (align_or_one align) i q
      → pa ≡ i * page_size
      → min_phys ≤ pa
      → AllocatedAbove p count align min_phys (address pa q)
  refused : AllocatedAbove p count align min_phys failed

to_address-AllocatedAbove :
    {p : Pmm} {count align min_phys : ℕ} {s : Search}
    → p.total_frames ≤ 2 ^ 52
    → 0 < count
    → Raised p count (align_or_one align) ((min_phys + page_size - 1) / page_size) s
    → AllocatedAbove p count align min_phys (to_address s)
to_address-AllocatedAbove size pos (above low t) =
    obtained t (omega (arith, t.inside_bitmap)) (omega (arith, t.inside_bitmap))
to_address-AllocatedAbove size pos nowhere = refused

-- On a bitmap of at most 2 ^ 52 frames, for at most 2 ^ 63 frames, any 64-bit alignment and a lower
-- limit of at most 2 ^ 64 - 4096, pmm_alloc_frames_above ends within the model's fuel, and either
-- fails or returns an address that is not below the limit, of an aligned run of `count` frames
-- inside the bitmap: each was free and is now used, every other frame keeps its state, and the count
-- of free frames stays right if it was.
pub pmm_alloc_frames_above-AllocatedAbove :
    (p : Pmm) (count align min_phys : ℕ)
    → p.total_frames ≤ 2 ^ 52
    → count ≤ 2 ^ 63
    → align < u64_mod
    → min_phys + page_size ≤ u64_mod
    → AllocatedAbove p count align min_phys (pmm_alloc_frames_above p count align min_phys)
unfolding pmm_alloc_frames_above
pmm_alloc_frames_above-AllocatedAbove p count align min_phys size narrow small limit =
    elim (Bool-cases (bad_request count align)) [
      | inl bad ↦ rw bad refused
      | inr good ↦
          let (pos, v) = accepted count align small good in
          let sum : sub64 (add64 min_phys page_size) 1 ≡ min_phys + page_size - 1 = ground arith in
          let start = (min_phys + page_size - 1) / page_size in
          rw (good, sum)
            (to_address-AllocatedAbove size pos (
              above_loop-Raised p count (align_or_one align) start size pos narrow v (ground arith)
                (suc (suc p.total_frames)) start (omega arith) (omega arith) (omega arith)
                (omega arith)))
    ]
