-- ===== src/Vmm/User.antt =====
-- MemoryControl.c, vmm_map_user: the rights of a page that a program gets.
use fexox_os.Base.{
  ℕ, ◌+◌, ◌≤◌, ◌<◌, ◌≡◌, refl, Bool, true, false, not, some, arith, ltb, if◌then◌else◌,
}
use fexox_os.Base.Int.{negsuc}
use fexox_os.Vmm.{Vmm, pte_make, pte_p, pte_w, pte_u, pte_nx, user_virt_limit, vmm_map_user}
use fexox_os.Vmm.Mmu.{page}
use fexox_os.Vmm.Down.{IsPaging, NoHuge}
use fexox_os.Vmm.Map.{Mapped, vmm_map-Mapped}

abbrev pub user_flags : (writes exec : Bool) → ℕ
user_flags writes exec =
    pte_p + pte_u + (if writes then pte_w else 0) + (if exec then 0 else pte_nx)

-- the rights in the entry: present, for programs, to write, and not to execute
pub rights :
    (pa : ℕ) (writes exec : Bool)
    → (pte_make pa (user_flags writes exec) 0 ≡ true)
      × (pte_make pa (user_flags writes exec) 2 ≡ true)
      × (pte_make pa (user_flags writes exec) 1 ≡ writes)
      × (pte_make pa (user_flags writes exec) 63 ≡ not exec)
unfolding pte_make
rights pa true true = (refl, refl, refl, refl)
rights pa true false = (refl, refl, refl, refl)
rights pa false true = (refl, refl, refl, refl)
rights pa false false = (refl, refl, refl, refl)

kernel_half : (va : ℕ) → user_virt_limit < va → ltb user_virt_limit va ≡ true
kernel_half va h = ground arith

user_half : (va : ℕ) → va ≤ user_virt_limit → ltb user_virt_limit va ≡ false
user_half va h = ground arith

-- On tables that form a tree, with no huge page over the page of `va`: vmm_map_user refuses an
-- address above the user's half and changes nothing. Otherwise it ends as vmm_map does with an entry
-- that is present, has PTE_U, has PTE_W just if writing is asked for, and PTE_NX just if
-- executing is not: it maps the page of `va` to that entry and changes no other page's walk, or
-- changes no walk at all. The tables lie beside the frame bitmap, before and after.
pub vmm_map_user-Mapped :
    (v : Vmm) (va pa : ℕ) (writes exec : Bool)
    → IsPaging v
    → NoHuge v (page va)
    → (user_virt_limit < va → vmm_map_user v va pa writes exec ≡ some (negsuc 0, v))
      × (va ≤ user_virt_limit
          → Mapped v va pa (user_flags writes exec) (vmm_map_user v va pa writes exec))
      × (pte_make pa (user_flags writes exec) 0 ≡ true)
      × (pte_make pa (user_flags writes exec) 2 ≡ true)
      × (pte_make pa (user_flags writes exec) 1 ≡ writes)
      × (pte_make pa (user_flags writes exec) 63 ≡ not exec)
unfolding vmm_map_user
vmm_map_user-Mapped v va pa writes exec paging plain =
    let mapping = vmm_map-Mapped v va pa (user_flags writes exec) paging plain in
    let (p, u, w, x) = rights pa writes exec in
    (
      (λ above. rw (kernel_half va above) refl),
      (λ below. rw (user_half va below) mapping),
      p,
      u,
      w,
      x,
    )
