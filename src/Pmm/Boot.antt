-- ===== src/Pmm/Boot.antt =====
-- MemoryControl.c, pmm_init_from_efi: the bitmap is placed and filled from the firmware's map.
-- The map is the list of the descriptors that the loops visit, `map_size / desc_size` of them.
pub mod Reuse
use fexox_os.Base.{
  ℕ, zero, suc, ◌+◌, ◌*◌, ◌/◌, ◌%◌, ◌≡◌, Bool, true, false, List, [], ◌∷◌, Option, none, some, ◌&&◌,
  ltb, leb, ◌==◌, if◌then◌else◌, add64, sub64, u64_mod, page_size,
}
use fexox_os.Pmm.{Pmm, Word, align_up, pmm_test, pmm_clear}

-- `efi_memory_desc_t`; the padding, virtual_start and attribute are not read.
pub record Desc : Type 0 where
  pub type : ℕ
  pub physical_start : ℕ
  pub num_pages : ℕ

abbrev pub efi_usable : ℕ
efi_usable = 7

-- `n << PAGE_SHIFT` and `n >> PAGE_SHIFT`
abbrev pub pages_to_bytes : ℕ → ℕ
pages_to_bytes n = n * page_size % u64_mod

abbrev pub page_of : ℕ → ℕ
page_of a = a / page_size

unfoldable pub max_phys_loop : List Desc → ℕ → ℕ
max_phys_loop [] max_phys = max_phys
max_phys_loop (d ∷ map) max_phys =
    let end_ = add64 d.physical_start (pages_to_bytes d.num_pages) in
    max_phys_loop map (if ltb max_phys end_ then end_ else max_phys)

-- `none` is (phys_addr_t)-1.
unfoldable pub efi_find_bitmap_region : List Desc → (needed_pages : ℕ) → Option ℕ
efi_find_bitmap_region [] needed_pages = none
efi_find_bitmap_region (d ∷ map) needed_pages =
    let rest = efi_find_bitmap_region map needed_pages in
    if d.type == efi_usable && leb needed_pages d.num_pages
    then some (align_up d.physical_start page_size)
    else rest

-- `for (i = 0; i < bm_pages; i++) pmm_clear(...)`
unfoldable pub clear_pages : (n : ℕ) → Pmm → ℕ → Pmm
clear_pages zero p idx = p
clear_pages (suc n) p idx = clear_pages n (pmm_clear p idx) (idx + 1)

-- One round of the loop over the frames of a usable region.
unfoldable pub release_frame : Pmm → (bm_end frame : ℕ) → Pmm
unfolding pmm_test pmm_clear
release_frame p bm_end frame =
    if leb bm_end frame && pmm_test p (page_of frame)
    then record (pmm_clear p (page_of frame)) { free_frames = add64 p.free_frames 1 }
    else p

-- That loop, `n` rounds from page `k` of the region on.
unfoldable pub region_loop : (n : ℕ) → Pmm → (bm_end start k : ℕ) → Pmm
region_loop zero p bm_end start k = p
region_loop (suc n) p bm_end start k =
    region_loop n (release_frame p bm_end (add64 start (pages_to_bytes k))) bm_end start (k + 1)

unfoldable pub map_loop : List Desc → Pmm → (bm_pa bm_pages : ℕ) → Pmm
unfolding region_loop release_frame
map_loop [] p bm_pa bm_pages = p
map_loop (d ∷ map) p bm_pa bm_pages =
    map_loop map
      (if d.type == efi_usable && leb (add64 (page_of d.physical_start) d.num_pages) p.total_frames
        then region_loop d.num_pages p (add64 bm_pa (pages_to_bytes bm_pages)) d.physical_start 0
        else p)
      bm_pa bm_pages

abbrev pub frames_of : List Desc → ℕ
frames_of map = page_of (sub64 (add64 (max_phys_loop map 0) page_size) 1)

abbrev pub bitmap_pages_of : ℕ → ℕ
bitmap_pages_of total_frames = page_of (sub64 (add64 (add64 total_frames 63 / 8) page_size) 1)

-- The state after the kmemset, with every bit of the bitmap set. `memory` is what the words at the
-- bitmap's address held before.
abbrev pub filled : (memory : ℕ → Word) → (total_frames bm_pa bm_pages : ℕ) → Pmm
filled memory total_frames bm_pa bm_pages = record {
  words = λ w b. if ltb w (add64 total_frames 63 / 64) then true else memory w b;
  total_frames = total_frames;
  free_frames = 0;
  num_words = add64 total_frames 63 / 64;
  bitmap_phys = bm_pa;
  bitmap_pages = bm_pages;
}

-- the part of pmm_init_from_efi that follows the choice of the bitmap's place
unfoldable pub set_up : (memory : ℕ → Word) → List Desc → (bm_pa : ℕ) → Pmm
unfolding map_loop clear_pages
set_up memory map bm_pa =
    let total_frames = frames_of map in
    let bm_pages = bitmap_pages_of total_frames in
    map_loop map (clear_pages bm_pages (filled memory total_frames bm_pa bm_pages) (page_of bm_pa))
      bm_pa bm_pages

-- `none` is the result -1, with g_pmm untouched.
unfoldable pub pmm_init_from_efi : (memory : ℕ → Word) → List Desc → Option Pmm
unfolding set_up efi_find_bitmap_region max_phys_loop
pmm_init_from_efi memory map = elim (efi_find_bitmap_region map (bitmap_pages_of (frames_of map))) [
  | none ↦ none
  | some bm_pa ↦ some (set_up memory map bm_pa)
]
