-- ===== src/Vmm/Mmu.antt =====
-- What the processor makes of the page tables, independent of the code that writes them.
use fexox_os.Base.{
  ℕ, zero, suc, ◌/◌, ◌%◌, ◌^◌, ◌≡◌, Bool, ◌&&◌, Option, none, some, arith, ltb, if◌then◌else◌,
  page_size,
}
use fexox_os.Vmm.{Pte, frame_of, present, Vmm, pml4_idx, pdpt_idx, pd_idx, pt_idx}

-- the number of a page among those of the 48 bits that are translated
abbrev pub page : (va : ℕ) → ℕ
page va = va / page_size % 2 ^ 36

-- the entries that lead to a page: `path m n % 512` indexes the table `m` levels above the last
abbrev pub path : (m n : ℕ) → ℕ
path zero n = n
path (suc m) n = path m n / 512

-- PTE_PS ends the walk one and two levels above the last table.
abbrev pub huge : (m : ℕ) → Pte → Bool
huge m e = e 7 && ltb m 3

-- The level and the entry that the walk from a table of level `m` ends at; `none` is a page fault.
unfoldable pub translate : (m : ℕ) → (ℕ → ℕ → Pte) → (frame n : ℕ) → Option (ℕ × Pte)
translate zero tables frame n =
    let e = tables frame (n % 512) in if present e then some (0, e) else none
translate (suc m) tables frame n =
    let e = tables frame (path (suc m) n % 512) in
    let next = translate m tables (frame_of e) n in
    if present e then (if huge (suc m) e then some (suc m, e) else next) else none

-- the walk from the root
abbrev pub lookup : Vmm → (n : ℕ) → Option (ℕ × Pte)
lookup v n = translate 3 v.tables v.pml4 n

pub idx_path :
    (va : ℕ)
    → (pml4_idx va ≡ path 3 (page va) % 512)
      × (pdpt_idx va ≡ path 2 (page va) % 512)
      × (pd_idx va ≡ path 1 (page va) % 512)
      × (pt_idx va ≡ page va % 512)
idx_path va = (omega arith, omega arith, omega arith, omega arith)

pub path_root : (va : ℕ) → path 4 (page va) ≡ 0
path_root va = omega arith
