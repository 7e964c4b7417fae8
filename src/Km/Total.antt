-- ===== src/Km/Total.antt =====
-- MemoryControl.c, kmalloc over the frame manager and the page tables: it returns.
use fexox_os.Base.{ℕ, ◌+◌, ◌<◌, ◌≡◌, ◌⊎◌, Bool, true, Option, some}
use fexox_os.Base.Int.{negsuc}
use fexox_os.Pmm.{align_up}
use fexox_os.Km.{Ptr, header_size}
use fexox_os.Km.Expand.{KernelMemory, km_expand}
use fexox_os.Km.Paged.{Failing, Paged}
use fexox_os.Km.Serve.{Served}

-- NULL with the heap as before, for no bytes or for want of a free block, or a new block
pub data Answered (m : KernelMemory) (held : Ptr → Bool) (base size : ℕ) (p : Ptr)
    (m' : KernelMemory) : Type 0 where
  null :
      p ≡ 0
      → m'.heap ≡ m.heap
      → (size ≡ 0)
        ⊎ (((x : Ptr)
              → held x ≡ true
              → (m.heap.blocks x).free ≡ true
              → (m.heap.blocks x).size < size + 16)
            × ((k : ℕ) × (km_expand m (align_up size 16) ≡ some (negsuc k, m')))
            × Failing m (align_up size 16))
      → Answered m held base size p m'
  block :
      (b : Ptr)
      → p ≡ b + header_size
      → Served (m.heap) held base b size (m'.heap)
      → Answered m held base size p m'
