-- ===== src/Km/Pages.antt =====
-- MemoryControl.c, km_expand on the whole heap: it grows by as many pages as needed, or not at all.
use fexox_os.Base.{
  ℕ, suc, ◌+◌, ◌*◌, ◌/◌, ◌≤◌, ◌<◌, ◌≡◌, refl, Bool, true, false, Option, none, some, arith, u64_mod,
  page_size, add64,
}
use fexox_os.Base.Int.{ℤ, pos, negsuc}
use fexox_os.Pmm.{Allocation, address, failed, no_fuel, align_up, pmm_alloc_frames, pmm_free_frames}
use fexox_os.Pmm.Align.{IsAlignment, align_up-RoundsUp}
use fexox_os.Vmm.{Vmm}
use fexox_os.Km.{Ptr, header_size}
use fexox_os.Km.Expand.{KernelMemory, unmap_loop, expand_loop, expand_mapped, km_expand}
use fexox_os.Km.Whole.{IsHeap}
use fexox_os.Km.Grow.{Grown, add_block-Grown}

-- how km_expand ends: without memory it leaves the heap alone
pub data Expanded (m : KernelMemory) (held : Ptr → Bool) (base top bytes : ℕ)
    : Option (ℤ × KernelMemory) → Type 0 where
  endless : Expanded m held base top bytes none
  no_memory :
      {k : ℕ} {m' : KernelMemory}
      → m'.heap ≡ m.heap
      → Expanded m held base top bytes (some (negsuc k, m'))
  grew :
      {m' : KernelMemory} {size : ℕ}
      → bytes ≤ size
      → Grown (m.heap) held base top size (m'.heap)
      → Expanded m held base top bytes (some (pos 0, m'))

module _ (m : KernelMemory) (held : Ptr → Bool) (base : ℕ) (v : IsHeap (m.heap) held base)
    (bytes : ℕ) (small : m.heap.heap_end + bytes + 2 * page_size ≤ u64_mod) where
  abbrev pages : ℕ
  pages = align_up (add64 bytes header_size) page_size / page_size

  -- the pages hold the bytes and a header, and no page is too much
  pub enough_pages :
      (bytes + header_size ≤ pages * page_size)
      × (pages * page_size < bytes + header_size + page_size)
  enough_pages =
      let a : IsAlignment page_size = record { log = 12; power = refl } in
      let sum : add64 bytes header_size ≡ bytes + header_size = omega arith in
      let up =
        align_up-RoundsUp (add64 bytes header_size) page_size a (omega arith) (omega arith) in
      let r = align_up (add64 bytes header_size) page_size in
      let whole : pages * page_size ≡ r = omega (arith, up.multiple) in
      (omega (arith, whole, up.above, sum), omega (arith, whole, up.near, sum))

  unmapped :
      (pa : ℕ) (r : Option Vmm)
      → Expanded m held base (suc v.top) bytes (elim r [
        | none ↦ none
        | some u ↦
            let freed = record u { pmm = pmm_free_frames u.pmm pa pages } in
            some (negsuc 1, record m { vmm = freed })
      ])
  unmapped pa none = endless
  unmapped pa (some u) = no_memory refl

  mapped :
      (u0 : Vmm) (pa : ℕ) (r : ℕ × Bool × Vmm)
      → Expanded m held base (suc v.top) bytes (expand_mapped (record m { vmm = u0 }) pages pa r)
  mapped u0 pa (n, true, u) =
      let (lo, hi) = enough_pages in
      grew (omega (arith, lo))
        (add_block-Grown m.heap held base pages v (ground (arith, lo)) (omega (arith, hi)))
  mapped u0 pa (n, false, u) = unmapped pa (unmap_loop n u m.heap.heap_end 0)

  with_pages :
      (u0 : Vmm) (pa : ℕ) (r : Option (ℕ × Bool × Vmm))
      → Expanded m held base
          (suc v.top)
          bytes
          (elim r [ none ↦ none | some x ↦ expand_mapped (record m { vmm = u0 }) pages pa x ])
  with_pages u0 pa none = endless
  with_pages u0 pa (some x) = mapped u0 pa x

  with_frames :
      (a : Allocation)
      → Expanded m held base (suc v.top) bytes (elim a [
        | failed ↦ some (negsuc 0, m)
        | no_fuel ↦ none
        | address pa pmm ↦
            let u = record (m.vmm) { pmm = pmm } in
            elim (expand_loop pages u m.heap.heap_end pa 0) [
              | none ↦ none
              | some r ↦ expand_mapped (record m { vmm = u }) pages pa r
            ]
      ])
  with_frames failed = no_memory refl
  with_frames no_fuel = endless
  with_frames (address pa pmm) =
      let u = record (m.vmm) { pmm = pmm } in
      with_pages u pa (expand_loop pages u m.heap.heap_end pa 0)

  pub km_expand-Expanded : Expanded m held base (suc v.top) bytes (km_expand m bytes)
  unfolding km_expand
  km_expand-Expanded = with_frames (pmm_alloc_frames m.vmm.pmm pages 1)
