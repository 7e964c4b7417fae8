-- ===== src/Pmm/Tests.antt =====
-- Runs of the frame allocator on a small bitmap, and the theorems at concrete inputs.
use fexox_os.Base.{
  ℕ, ◌+◌, ◌*◌, ◌≤◌, ◌<◌, ◌≡◌, ◌↔◌, refl, true, false, ◌||◌, ◌==◌, List, [], ◌∷◌, some, arith, ltb,
  u64_mod, page_size, tally,
}
use fexox_os.Pmm.{
  Pmm, pmm_test, set_run, run_is_free, pmm_find_next_zero, align_up, take_run, to_address, address,
  failed, pmm_alloc_frames, pmm_alloc_frame, pmm_free_frames, pmm_alloc_frames_above,
}
use fexox_os.Pmm.Alloc.{IsValid, Allocated, pmm_alloc_frames-Allocated}
use fexox_os.Pmm.Above.{AllocatedAbove, pmm_alloc_frames_above-AllocatedAbove}
use fexox_os.Pmm.Single.{pmm_alloc_frame-lowest}
use fexox_os.Pmm.Release.{pmm_free_frames-pmm_alloc_frames}
use fexox_os.Pmm.Boot.{
  Desc, page_of, frames_of, bitmap_pages_of, max_phys_loop, set_up, pmm_init_from_efi,
}
use fexox_os.Pmm.Boot.Reuse.{set_up_layout, Placed, Exposed, pmm_init_from_efi-Exposed}
use fexox_os.Pmm.Skip.{pmm_alloc_frames-skips}

-- eight frames, of which 0, 1 and 3 are used
abbrev sample : Pmm
sample = record {
  words = λ w b. ltb b 2 || b == 3;
  total_frames = 8;
  free_frames = 5;
  num_words = 1;
  bitmap_phys = 0;
  bitmap_pages = 0;
}

-- the same with frames 4 and 5 taken
abbrev taken : Pmm
taken = record (set_run 2 sample 4) { free_frames = 3 }

alloc_two : pmm_alloc_frames sample 2 2 ≡ address 0x4000 taken
unfolding pmm_alloc_frames pmm_find_next_zero align_up run_is_free take_run pmm_test
alloc_two = refl

alloc_too_many : pmm_alloc_frames sample 5 1 ≡ failed
unfolding pmm_alloc_frames pmm_find_next_zero align_up run_is_free take_run pmm_test
alloc_too_many = refl

sample-IsValid : IsValid sample
unfolding tally pmm_test
sample-IsValid = record { small = omega arith; counted = refl }

pmm_alloc_frames-Allocated_example : Allocated sample 2 2 (pmm_alloc_frames sample 2 2)
pmm_alloc_frames-Allocated_example =
    pmm_alloc_frames-Allocated sample 2 2 (omega arith) (omega arith) (omega arith)

-- frame 2 is free, but below the limit
alloc_above : pmm_alloc_frames_above sample 1 1 0x2001 ≡ to_address (take_run sample 1 4)
unfolding pmm_alloc_frames_above pmm_find_next_zero align_up run_is_free take_run pmm_test
alloc_above = refl

pmm_alloc_frames_above-AllocatedAbove_example :
    AllocatedAbove sample 2 2 0x2001 (pmm_alloc_frames_above sample 2 2 0x2001)
pmm_alloc_frames_above-AllocatedAbove_example =
    pmm_alloc_frames_above-AllocatedAbove sample 2 2 0x2001 (omega arith) (omega arith)
      (omega arith) (omega arith)

pmm_alloc_frame-lowest_example :
    ((i : ℕ)
      → i < 8
      → pmm_test sample i ≡ false
      → ((j : ℕ) → j < i → pmm_test sample j ≡ true)
      → pmm_alloc_frame sample ≡ to_address (take_run sample 1 i))
    × ((pmm_alloc_frame sample ≡ failed) ↔ ((j : ℕ) → j < 8 → pmm_test sample j ≡ true))
pmm_alloc_frame-lowest_example = pmm_alloc_frame-lowest sample (omega arith)

pmm_free_frames-pmm_alloc_frames_example :
    ((j : ℕ) → pmm_test (pmm_free_frames taken 0x4000 2) j ≡ pmm_test sample j)
    × (IsValid sample → (pmm_free_frames taken 0x4000 2).free_frames ≡ 5)
pmm_free_frames-pmm_alloc_frames_example =
    pmm_free_frames-pmm_alloc_frames sample taken 2 2 0x4000 (omega arith) (omega arith)
      (omega arith) alloc_two (omega arith)

-- one usable region of sixteen pages at 1 MiB
abbrev firmware_map : List Desc
firmware_map = record { type = 7; physical_start = 0x100000; num_pages = 16 } ∷ []

abbrev booted : Pmm
booted = set_up (λ w b. false) firmware_map 0x100000

boot_run : pmm_init_from_efi (λ w b. false) firmware_map ≡ some booted
unfolding pmm_init_from_efi align_up
boot_run = refl

map_pages_pos : 0 < bitmap_pages_of (frames_of firmware_map)
unfolding max_phys_loop
map_pages_pos = omega arith

map_fits : page_of 0x100000 + bitmap_pages_of (frames_of firmware_map) ≤ frames_of firmware_map
unfolding max_phys_loop
map_fits = omega arith

map_low : 0x100000 + bitmap_pages_of (frames_of firmware_map) * page_size < u64_mod
unfolding max_phys_loop
map_low = omega arith

booted-Placed : Placed booted
booted-Placed =
    let (total, phys, pages) = set_up_layout (λ w b. false) firmware_map 0x100000 in
    record {
      some_pages = rw pages map_pages_pos;
      in_range = rw (total, phys, pages) map_fits;
      no_wrap = rw (phys, pages) map_low;
    }

pmm_init_from_efi-Exposed_example : Exposed booted
pmm_init_from_efi-Exposed_example =
    pmm_init_from_efi-Exposed (λ w b. false) firmware_map booted boot_run booted-Placed

-- frame 1 alone is used
abbrev sparse : Pmm
sparse = record sample { words = λ w b. b == 1; total_frames = 5; free_frames = 4 }

pmm_alloc_frames-skips_example : pmm_alloc_frames sparse 3 1 ≡ failed
unfolding pmm_test
pmm_alloc_frames-skips_example =
    pmm_alloc_frames-skips sparse 3 (omega arith) (omega arith) (omega arith) (omega arith) refl
      refl
