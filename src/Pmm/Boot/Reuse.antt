-- ===== src/Pmm/Boot/Reuse.antt =====
-- MemoryControl.c, what pmm_init_from_efi leaves of the bitmap's own frames.
use fexox_os.Base.{
  ℕ, zero, suc, ◌+◌, ◌*◌, ◌^◌, ◌≤◌, ◌<◌, ◌≡◌, ◌∙◌, inl, inr, ap, subst, refl, true, false, List, [],
  ◌∷◌, some, arith, leb, ◌==◌, ◌&&◌, if◌then◌else◌, add64, u64_mod, page_size, Bool-cases,
  Option-cases,
}
use fexox_os.Pmm.{Pmm, Word, pmm_test, pmm_clear, pmm_alloc_frame, to_address, take_run}
use mathlib.Core.Option.{some-injective, none-ne-some}
use fexox_os.Pmm.Runs.{inside, pmm_test-pmm_clear}
use fexox_os.Pmm.Single.{pmm_alloc_frame-lowest}
use fexox_os.Pmm.Boot.{
  Desc, pages_to_bytes, page_of, efi_usable, efi_find_bitmap_region, clear_pages, release_frame,
  region_loop, map_loop, frames_of, bitmap_pages_of, filled, set_up, pmm_init_from_efi,
}

-- The loops over the map free frames from `edge` on only: a frame below keeps its state, a free
-- frame stays free, and the layout of the bitmap is kept.
record Grows (edge : ℕ) (p q : Pmm) : Type 0 where
  below : (j : ℕ) → j < edge → pmm_test q j ≡ pmm_test p j
  stays : (j : ℕ) → pmm_test p j ≡ false → pmm_test q j ≡ false
  total : q.total_frames ≡ p.total_frames
  place : q.bitmap_phys ≡ p.bitmap_phys
  pages : q.bitmap_pages ≡ p.bitmap_pages

Grows-refl : (edge : ℕ) (p : Pmm) → Grows edge p p
Grows-refl edge p = record {
  below = λ j h. refl;
  stays = λ j h. h;
  total = refl;
  place = refl;
  pages = refl;
}

Grows-trans : (edge : ℕ) (p q r : Pmm) → Grows edge p q → Grows edge q r → Grows edge p r
Grows-trans edge p q r g h = record {
  below = λ j l. h.below j l ∙ g.below j l;
  stays = λ j e. h.stays j (g.stays j e);
  total = h.total ∙ g.total;
  place = h.place ∙ g.place;
  pages = h.pages ∙ g.pages;
}

cleared-Grows :
    (edge : ℕ) (p : Pmm) (i n : ℕ)
    → edge ≤ i
    → Grows edge p (record (pmm_clear p i) { free_frames = n })
unfolding pmm_clear pmm_test
cleared-Grows edge p i n h = record {
  below = λ j l. ground (arith, pmm_test-pmm_clear p i j);
  stays = λ j e. ground (arith, pmm_test-pmm_clear p i j);
  total = refl;
  place = refl;
  pages = refl;
}

release_frame-Grows :
    (p : Pmm) (bm_end frame : ℕ) → Grows (page_of bm_end) p (release_frame p bm_end frame)
unfolding release_frame
release_frame-Grows p bm_end frame =
    elim (Bool-cases (leb bm_end frame && pmm_test p (page_of frame))) [
      | inr e ↦ rw e (Grows-refl (page_of bm_end) p)
      | inl e ↦ rw e (cleared-Grows (page_of bm_end) p (page_of frame) _ (ground arith))
    ]

region_loop-Grows :
    (n : ℕ) (p : Pmm) (bm_end start k : ℕ)
    → Grows (page_of bm_end) p (region_loop n p bm_end start k)
unfolding region_loop
region_loop-Grows zero p bm_end start k = Grows-refl (page_of bm_end) p
region_loop-Grows (suc n) p bm_end start k =
    Grows-trans (page_of bm_end) p _ _
      (release_frame-Grows p bm_end (add64 start (pages_to_bytes k)))
      (region_loop-Grows n _ bm_end start (k + 1))

map_loop-Grows :
    (map : List Desc) (p : Pmm) (bm_pa bm_pages : ℕ)
    → Grows (page_of (add64 bm_pa (pages_to_bytes bm_pages))) p (map_loop map p bm_pa bm_pages)
unfolding map_loop
map_loop-Grows [] p bm_pa bm_pages = Grows-refl _ p
map_loop-Grows (d ∷ map) p bm_pa bm_pages =
    let edge = page_of (add64 bm_pa (pages_to_bytes bm_pages)) in
    elim (Bool-cases
      (d.type == efi_usable && leb (add64 (page_of d.physical_start) d.num_pages) p.total_frames)) [
        | inr e ↦ rw e (map_loop-Grows map p bm_pa bm_pages)
        | inl e ↦ rw e (
            Grows-trans edge p _ _
              (region_loop-Grows d.num_pages p (add64 bm_pa (pages_to_bytes bm_pages))
                d.physical_start 0)
              (map_loop-Grows map _ bm_pa bm_pages))
      ]

pmm_test-clear_pages :
    (n : ℕ) (p : Pmm) (i j : ℕ)
    → pmm_test (clear_pages n p i) j ≡ (if inside i n j then false else pmm_test p j)
unfolding clear_pages
pmm_test-clear_pages zero p i j = ground arith
pmm_test-clear_pages (suc n) p i j =
    ground (arith, pmm_test-clear_pages n (pmm_clear p i) (i + 1) j, pmm_test-pmm_clear p i j)

clear_pages_layout :
    (n : ℕ) (p : Pmm) (i : ℕ)
    → ((clear_pages n p i).total_frames ≡ p.total_frames)
      × ((clear_pages n p i).bitmap_phys ≡ p.bitmap_phys)
      × ((clear_pages n p i).bitmap_pages ≡ p.bitmap_pages)
unfolding clear_pages pmm_clear
clear_pages_layout zero p i = (refl, refl, refl)
clear_pages_layout (suc n) p i = clear_pages_layout n (pmm_clear p i) (i + 1)

-- What the allocator sees after the initialisation.
pub record Exposed (q : Pmm) : Type 0 where
  pub bitmap_free :
      (j : ℕ)
      → page_of q.bitmap_phys ≤ j
      → j < page_of q.bitmap_phys + q.bitmap_pages
      → pmm_test q j ≡ false
  pub handed_out : pmm_alloc_frame q ≡ to_address (take_run q 1 (page_of q.bitmap_phys))

-- the bitmap lies in the frames that it counts, and its end does not wrap
pub record Placed (q : Pmm) : Type 0 where
  pub some_pages : 0 < q.bitmap_pages
  pub in_range : page_of q.bitmap_phys + q.bitmap_pages ≤ q.total_frames
  pub no_wrap : q.bitmap_phys + q.bitmap_pages * page_size < u64_mod

module _ (q start : Pmm) (n frame : ℕ) (phys : page_of q.bitmap_phys ≡ frame)
    (pages : q.bitmap_pages ≡ n) (size : q.total_frames ≤ 2 ^ 52)
    (used : (j : ℕ) → j < q.total_frames → pmm_test start j ≡ true)
    (g : Grows (frame + n) (clear_pages n start frame) q) (v : Placed q) where
  exposed_free : (j : ℕ) → frame ≤ j → j < frame + n → pmm_test q j ≡ false
  exposed_free j lo hi = g.stays j (ground (arith, pmm_test-clear_pages n start frame j))

  exposed_used : (j : ℕ) → j < frame → pmm_test q j ≡ true
  exposed_used j h =
      let kept = used j (omega (arith, v.in_range)) in
      g.below j (omega arith) ∙ ground (arith, pmm_test-clear_pages n start frame j)

  exposed : Exposed q
  exposed =
      let pick = (pmm_alloc_frame-lowest q size).0 in
      record {
        bitmap_free = λ j lo hi. exposed_free j (omega arith) (omega arith);
        handed_out = rw phys (
            pick frame (omega (arith, v.in_range, v.some_pages))
              (exposed_free frame (omega arith) (omega (arith, v.some_pages))) exposed_used);
      }

filled_used :
    (memory : ℕ → Word) (total bm_pa n j : ℕ)
    → total ≤ 2 ^ 52
    → j < total
    → pmm_test (filled memory total bm_pa n) j ≡ true
unfolding pmm_test
filled_used memory total bm_pa n j size h = ground arith

frames_of-le : (map : List Desc) → frames_of map ≤ 2 ^ 52
frames_of-le map = omega arith

edge_page :
    (bm_pa n : ℕ)
    → bm_pa + n * page_size < u64_mod
    → page_of (add64 bm_pa (pages_to_bytes n)) ≡ page_of bm_pa + n
edge_page bm_pa n h = omega arith

pub set_up_layout :
    (memory : ℕ → Word) (map : List Desc) (bm_pa : ℕ)
    → ((set_up memory map bm_pa).total_frames ≡ frames_of map)
      × ((set_up memory map bm_pa).bitmap_phys ≡ bm_pa)
      × ((set_up memory map bm_pa).bitmap_pages ≡ bitmap_pages_of (frames_of map))
unfolding set_up
set_up_layout memory map bm_pa =
    let n = bitmap_pages_of (frames_of map) in
    let start = filled memory (frames_of map) bm_pa n in
    let (t, l, m) = clear_pages_layout n start (page_of bm_pa) in
    let g = map_loop-Grows map (clear_pages n start (page_of bm_pa)) bm_pa n in
    (g.total ∙ t, g.place ∙ l, g.pages ∙ m)

set_up-Exposed :
    (memory : ℕ → Word) (map : List Desc) (bm_pa : ℕ)
    → Placed (set_up memory map bm_pa)
    → Exposed (set_up memory map bm_pa)
unfolding set_up
set_up-Exposed memory map bm_pa v =
    let n = bitmap_pages_of (frames_of map) in
    let start = filled memory (frames_of map) bm_pa n in
    let g = map_loop-Grows map (clear_pages n start (page_of bm_pa)) bm_pa n in
    let q = set_up memory map bm_pa in
    let (total, phys, pages) = set_up_layout memory map bm_pa in
    let edge : page_of (add64 bm_pa (pages_to_bytes n)) ≡ page_of bm_pa + n =
      edge_page bm_pa n (rw (phys, pages) at v.no_wrap) in
    exposed q start n (page_of bm_pa) (ap page_of phys) pages (rw total (frames_of-le map))
      (λ j h. filled_used memory (frames_of map) bm_pa n j (frames_of-le map) (rw total at h))
      (rw edge at g) v

-- Whatever the map and the memory, if pmm_init_from_efi succeeds and the bitmap lies in the frames
-- that it counts, then every frame of the bitmap itself is marked free, and the first
-- pmm_alloc_frame returns the bitmap's own first frame.
pub pmm_init_from_efi-Exposed :
    (memory : ℕ → Word) (map : List Desc) (q : Pmm)
    → pmm_init_from_efi memory map ≡ some q
    → Placed q
    → Exposed q
unfolding pmm_init_from_efi
pmm_init_from_efi-Exposed memory map q e =
    elim (Option-cases (efi_find_bitmap_region map (bitmap_pages_of (frames_of map)))) [
      | inl n ↦ absurd (none-ne-some q (rw (n, pmm_init_from_efi) at e))
      | inr (bm_pa, s) ↦
          let same : set_up memory map bm_pa ≡ q =
            some-injective _ _ (rw (s, pmm_init_from_efi) at e) in
          subst (λ r. Placed r → Exposed r) same (set_up-Exposed memory map bm_pa)
    ]
