-- ===== src/Km/Boot.antt =====
-- MemoryControl.c, mem_control_init: the frames, the page tables and the heap are set up in turn.
use fexox_os.Base.{ℕ, Option, none, some, List, if◌then◌else◌}
use fexox_os.Base.Int.{ℤ, pos, negsuc}
use fexox_os.Pmm.{Word}
use fexox_os.Pmm.Boot.{Desc, pmm_init_from_efi}
use fexox_os.Vmm.{vmm_init, vmm_activate, is_zero}
use fexox_os.Km.{kmalloc_init}
use fexox_os.Km.Expand.{KernelMemory}

-- `none` is the model's fuel running out; kmalloc_init returns 0 in each case.
unfoldable pub mem_control_init :
    (memory : ℕ → Word) → List Desc → KernelMemory → Option (ℤ × KernelMemory)
unfolding pmm_init_from_efi vmm_init vmm_activate kmalloc_init
mem_control_init memory map m = elim (pmm_init_from_efi memory map) [
  | none ↦ some (negsuc 0, m)
  | some pmm ↦ elim (vmm_init (record (m.vmm) { pmm = pmm })) [
    | none ↦ none
    | some (r, v) ↦
        if is_zero r
        then some (pos 0, record { vmm = vmm_activate v; heap = kmalloc_init m.heap })
        else some (negsuc 1, record m { vmm = v })
  ]
]
