-- ===== src/Km/Expand.antt =====
-- MemoryControl.c, km_expand and kmalloc: where the heap gets pages, and what callers get.
use fexox_os.Base.{
  ℕ, zero, suc, ◌+◌, ◌*◌, ◌-◌, ◌/◌, Bool, true, false, ◌||◌, Option, none, some, ◌==◌,
  if◌then◌else◌, add64, page_size,
}
use fexox_os.Base.Int.{ℤ, pos, negsuc}
use fexox_os.Pmm.{align_up, address, failed, no_fuel, pmm_alloc_frames, pmm_free_frames}
use fexox_os.Vmm.{Vmm, vmm_map, vmm_unmap, pte_p, pte_w, pte_nx, is_zero}
use fexox_os.Km.{Ptr, Block, Heap, header_size, write, km_insert_free, km_find_best}

-- g_km with g_vmm and g_pmm
pub record KernelMemory : Type 0 where
  pub vmm : Vmm
  pub heap : Heap

-- the unmapping of the first `n` pages after a failure
unfoldable pub unmap_loop : (n : ℕ) → Vmm → (va j : ℕ) → Option Vmm
unfolding vmm_unmap
unmap_loop zero v va j = some v
unmap_loop (suc n) v va j = elim (vmm_unmap v (va + j * page_size)) [
  | none ↦ none
  | some (r, w) ↦ unmap_loop n w va (j + 1)
]

abbrev pub expand_flags : ℕ
expand_flags = pte_p + pte_w + pte_nx

-- the mapping of `n` pages from page `i` on: how many were mapped before it stopped
unfoldable pub expand_loop : (n : ℕ) → Vmm → (va pa i : ℕ) → Option (ℕ × Bool × Vmm)
unfolding vmm_map
expand_loop zero v va pa i = some (i, true, v)
expand_loop (suc n) v va pa i =
    elim (vmm_map v (va + i * page_size) (pa + i * page_size) expand_flags) [
      | none ↦ none
      | some (r, w) ↦ if is_zero r then expand_loop n w va pa (i + 1) else some (i, false, w)
    ]

-- the new block at the old end of the heap
unfoldable pub add_block : Heap → (pages : ℕ) → Heap
unfolding km_insert_free
add_block h pages =
    let blk = h.heap_end in
    let fields : Block = record {
      size = pages * page_size - header_size;
      free = true;
      next = 0;
      prev = 0;
      phys_prev = h.last_block;
    } in
    let h1 = km_insert_free (record (write h blk fields) { last_block = blk }) blk in
    record h1 { heap_end = blk + pages * page_size }

abbrev pub expand_mapped :
    KernelMemory → (pages pa : ℕ) → ℕ × Bool × Vmm → Option (ℤ × KernelMemory)
expand_mapped m pages pa (n, true, w) =
    some (pos 0, record { vmm = w; heap = add_block m.heap pages })
expand_mapped m pages pa (n, false, w) = elim (unmap_loop n w m.heap.heap_end 0) [
  | none ↦ none
  | some u ↦
      let freed = record u { pmm = pmm_free_frames u.pmm pa pages } in
      some (negsuc 1, record m { vmm = freed })
]

unfoldable pub km_expand : KernelMemory → (min_bytes : ℕ) → Option (ℤ × KernelMemory)
unfolding expand_loop unmap_loop add_block
km_expand m min_bytes =
    let pages = align_up (add64 min_bytes header_size) page_size / page_size in
    elim (pmm_alloc_frames m.vmm.pmm pages 1) [
      | failed ↦ some (negsuc 0, m)
      | no_fuel ↦ none
      | address pa pmm ↦
          let v = record (m.vmm) { pmm = pmm } in
          elim (expand_loop pages v m.heap.heap_end pa 0) [
            | none ↦ none
            | some r ↦ expand_mapped (record m { vmm = v }) pages pa r
          ]
    ]

-- the end of kmalloc: the address behind the header, or NULL
abbrev pub granted : KernelMemory → Ptr × Heap → Ptr × KernelMemory
granted m (b, h) = if b == 0 then (0, record m { heap = h }) else (
  b + header_size,
  record m {
    heap = record h { heap_used = add64 h.heap_used (add64 (h.blocks b).size header_size) };
  },
)

unfoldable pub retry : (fuel : ℕ) → (size : ℕ) → ℤ × KernelMemory → Option (Ptr × KernelMemory)
unfolding km_find_best
retry fuel size (r, m) = elim (km_find_best fuel m.heap size) [
  | none ↦ if is_zero r then none else some (0, m)
  | some found ↦ if is_zero r then some (granted m found) else some (0, m)
]

-- The fuel bounds the length of the free lists.
unfoldable pub kmalloc : (fuel : ℕ) → KernelMemory → (size : ℕ) → Option (Ptr × KernelMemory)
unfolding km_expand retry
kmalloc fuel m size =
    let rounded = align_up size 16 in
    if size == 0 || m.heap.heap_end == 0
    then some (0, m)
    else elim (km_find_best fuel m.heap rounded) [
      | none ↦ none
      | some (b, h) ↦
          if b == 0
          then elim (km_expand m rounded) [ none ↦ none | some x ↦ retry fuel rounded x ]
          else some (granted m (b, h))
    ]
