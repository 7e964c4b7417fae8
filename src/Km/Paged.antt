-- ===== src/Km/Paged.antt =====
-- MemoryControl.c, km_expand over the frame manager and the page tables: where its pages come from.
use fexox_os.Base.{
  ℕ, ◌+◌, ◌*◌, ◌/◌, ◌≤◌, ◌<◌, ◌≡◌, ◌⊎◌, Bool, Option, some, true, add64, u64_mod, page_size,
}
use fexox_os.Base.Int.{ℤ, pos, negsuc}
use fexox_os.Pmm.{Pmm, failed, align_up, pmm_alloc_frames, pmm_alloc_frame, pmm_test}
use fexox_os.Pmm.Alloc.{Keeps, Taken}
use fexox_os.Vmm.{Vmm, off_page}
use fexox_os.Vmm.Mmu.{page, lookup}
use fexox_os.Vmm.Down.{IsPaging}
use fexox_os.Km.{header_size}
use fexox_os.Km.Expand.{KernelMemory}
use fexox_os.Km.Mapping.{Absent, IsRun}
use fexox_os.Km.Whole.{IsHeap}
use fexox_os.Km.Grow.{Grown}

abbrev pub with_pmm : Vmm → Pmm → Vmm
with_pmm v q = record v { pmm = q }

-- the pages that km_expand asks for
abbrev pub page_count : (bytes : ℕ) → ℕ
page_count bytes = align_up (add64 bytes header_size) page_size / page_size

-- Why km_expand fails: there is no run of frames for its pages, the heap does not end at a page, or,
-- after calls that free no frame, none is left for a table.
abbrev pub Failing : KernelMemory → (bytes : ℕ) → Type 0
Failing m bytes =
    (pmm_alloc_frames m.vmm.pmm (page_count bytes) 1 ≡ failed)
    ⊎ (off_page m.heap.heap_end ≡ true)
    ⊎ ((u : Vmm) × Keeps m.vmm.pmm u.pmm × (pmm_alloc_frame u.pmm ≡ failed))

-- how km_expand ends
pub data Paged (m : KernelMemory) (held : ℕ → Bool) (base top bytes : ℕ)
    : Option (ℤ × KernelMemory) → Type 0 where
  mapped :
      {m' : KernelMemory} (size f : ℕ) (q : Pmm)
      → bytes ≤ size
      → Grown (m.heap) held base top size (m'.heap)
      → Taken (m.vmm.pmm) (page_count bytes) 1 f q
      → IsRun (with_pmm (m.vmm) q) (m'.vmm) (m.heap.heap_end) (f * page_size) 0 (page_count bytes)
      → ((j : ℕ) → f ≤ j → j < f + page_count bytes → pmm_test m'.vmm.pmm j ≡ true)
      → Keeps m.vmm.pmm m'.vmm.pmm
      → Paged m held base top bytes (some (pos 0, m'))
  unmapped :
      {k : ℕ} {m' : KernelMemory}
      → m'.heap ≡ m.heap
      → ((b : ℕ) → lookup (m'.vmm) (page b) ≡ lookup (m.vmm) (page b))
      → Failing m bytes
      → Paged m held base top bytes (some (negsuc k, m'))

module _ (m : KernelMemory) (held : ℕ → Bool) (base bytes : ℕ) (v : IsHeap (m.heap) held base)
    (small : m.heap.heap_end + bytes + 2 * page_size ≤ u64_mod) (paging : IsPaging (m.vmm))
    (gone : Absent (m.vmm) (m.heap.heap_end) 0 (page_count bytes)) where
  abbrev n : ℕ
  n = page_count bytes

  abbrev end : ℕ
  end = m.heap.heap_end
