-- ===== src/Syscall/Memory.antt =====
-- Syscall.c: the pointer check, and brk with the frames and the mappings that it asks for.
pub mod Heap
use fexox_os.Base.{
  ℕ, zero, suc, ◌+◌, ◌-◌, ◌*◌, ◌/◌, ◌%◌, ◌^◌, ◌≤◌, ◌<◌, ◌≡◌, ◌↔◌, ◌⊎◌, refl, Bool, true, false,
  ◌&&◌, not, arith, ltb, leb, ◌==◌, if◌then◌else◌, Bool-cases, inl, inr, add64, sub64, u64_mod,
  page_size,
}
use fexox_os.Pmm.{
  Pmm, align_up, Allocation, address, failed, no_fuel, pmm_alloc_frames, pmm_free_frames,
}
use fexox_os.Pmm.Align.{RoundsUp, align_up-RoundsUp}
use fexox_os.Syscall.{Ret, returns, fails, enomem, user_virt_limit, syscall_validate_ptr}

abbrev pub user_heap_base : ℕ
user_heap_base = 0x10000000

abbrev pub user_heap_max : ℕ
user_heap_max = 0x80000000

-- For 64-bit values, a buffer passes the check exactly if its address is not 0 and not above the
-- limit of user space, and its last byte is not above the limit either or lies beyond the end of
-- the 64-bit addresses, where the sum wraps around; the size 0 asks for no last byte.
pub syscall_validate_ptr_lem :
    (va size : ℕ)
    → va < u64_mod
    → size < u64_mod
    → (syscall_validate_ptr va size ≡ true) ↔ (
        (0 < va)
        × (va ≤ user_virt_limit)
        × ((size ≡ 0) ⊎ ((va + size ≤ user_virt_limit + 1) ⊎ (u64_mod < va + size))))
unfolding syscall_validate_ptr
syscall_validate_ptr_lem va size p q = ground arith

-- g_brk_current and g_brk_mapped, the frame allocator, and the page tables M.
pub record Brk (M : Type 0) : Type 0 where
  pub current : ℕ
  pub mapped : ℕ
  pub pmm : Pmm
  pub tables : M

module _ {M : Type 0} (map_user : M → (va pa : ℕ) → Bool × M) where
  -- The loop over n pages from page i on; false if vmm_map_user fails. The calls before that have
  -- written their mappings.
  unfoldable pub map_pages : (n : ℕ) → M → (va pa i : ℕ) → Bool × M
  map_pages zero m va pa i = (true, m)
  map_pages (suc n) m va pa i =
      let (ok, next) = map_user m (add64 va (i * page_size)) (add64 pa (i * page_size)) in
      let rest = map_pages n next va pa (i + 1) in if ok then rest else (false, next)

  -- the part of sc_brk behind the test for more pages than are mapped
  unfoldable pub grow : Brk M → (new_brk : ℕ) → Ret × Brk M
  unfolding map_pages
  grow b new_brk =
      let map_start = align_up b.mapped page_size in
      let map_end = align_up new_brk page_size in
      let npages = sub64 map_end map_start / page_size in
      let moved = record b { current = new_brk } in
      if npages == 0 then (returns new_brk, moved) else elim (pmm_alloc_frames b.pmm npages 1) [
        | failed ↦ (fails enomem, b)
        | no_fuel ↦ (fails enomem, b)
        | address pa pmm ↦
            let (ok, m) = map_pages npages b.tables map_start pa 0 in
            if ok
            then (
              returns new_brk,
              record { current = new_brk; mapped = map_end; pmm = pmm; tables = m },
            )
            else (fails enomem, record b { pmm = pmm_free_frames pmm pa npages; tables = m })
      ]

  unfoldable pub sc_brk : Brk M → (new_brk : ℕ) → Ret × Brk M
  unfolding grow
  sc_brk b new_brk =
      if new_brk == 0
      then (returns b.current, b)
      else if ltb new_brk user_heap_base
      then (returns b.current, b)
      else if ltb user_heap_max new_brk
      then (fails enomem, b)
      else if ltb b.mapped new_brk
      then grow b new_brk
      else (returns new_brk, record b { current = new_brk })
