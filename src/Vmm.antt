-- ===== src/Vmm.antt =====
-- MemoryControl.c, the virtual memory manager: four-level page tables in frames of physical memory.
-- A page-table entry is the function of its 64 bits, and `tables` reads physical memory as tables:
-- the frame and the index give the entry. phys_access reaches the same memory before and after
-- vmm_activate, so an address stands for its frame. invlpg and the spinlock have no counterpart.
pub mod Entry
pub mod Mmu
pub mod Tree
pub mod Leaf
pub mod Grow
pub mod Down
pub mod Map
pub mod User
mod Tests
use fexox_os.Base.{
  ℕ, zero, suc, ◌+◌, ◌*◌, ◌-◌, ◌/◌, ◌%◌, ◌^◌, Bool, true, false, ◌&&◌, ◌||◌, not, Option, none,
  some, ltb, leb, ◌==◌, if◌then◌else◌, one_if, add64, page_size,
}
use fexox_os.Base.Int.{ℤ, pos, negsuc}
use fexox_os.Pmm.{Pmm, Allocation, address, failed, no_fuel, pmm_alloc_frame}

-- `pte_t`
abbrev pub Pte : Type 0
Pte = ℕ → Bool

-- bit `b` of a number
abbrev pub bit : ℕ → ℕ → Bool
bit n zero = n % 2 == 1
bit n (suc b) = bit (n / 2) b

-- the number that the lowest `k` bits make
abbrev pub value : (k : ℕ) → (ℕ → Bool) → ℕ
value zero f = 0
value (suc k) f = one_if (f 0) + 2 * value k (λ b. f (suc b))

-- the frame at `e & PTE_ADDR_MASK`, whose bits 12 to 51 are set
unfoldable pub frame_of : Pte → ℕ
frame_of e = value 40 (λ b. e (b + 12))

abbrev pub pte_p : ℕ
pte_p = 1

abbrev pub pte_w : ℕ
pte_w = 2

abbrev pub pte_u : ℕ
pte_u = 4

abbrev pub pte_g : ℕ
pte_g = 2 ^ 8

abbrev pub pte_nx : ℕ
pte_nx = 2 ^ 63

-- `e & PTE_P`
abbrev pub present : Pte → Bool
present e = e 0

-- `pte_make`: bit 5 is PTE_A
unfoldable pub pte_make : (pa flags : ℕ) → Pte
pte_make pa flags b = leb 12 b && ltb b 52 && bit pa b || bit flags b || b == 5

abbrev pub pml4_idx : ℕ → ℕ
pml4_idx va = va / 2 ^ 39 % 512

abbrev pub pdpt_idx : ℕ → ℕ
pdpt_idx va = va / 2 ^ 30 % 512

abbrev pub pd_idx : ℕ → ℕ
pd_idx va = va / 2 ^ 21 % 512

abbrev pub pt_idx : ℕ → ℕ
pt_idx va = va / 2 ^ 12 % 512

-- `vmm_t` with the memory that its tables lie in and the frame manager that they come from. `pml4`
-- is the frame of the root table.
pub record Vmm : Type 0 where
  pub pmm : Pmm
  pub tables : ℕ → ℕ → Pte
  pub pml4 : ℕ
  pub active : Bool

abbrev pub write_entry : (ℕ → ℕ → Pte) → (frame idx : ℕ) → Pte → ℕ → ℕ → Pte
write_entry tables frame idx e f i = if f == frame && i == idx then e else tables f i

-- kmemset of the page that a frame holds
abbrev pub clear_frame : (ℕ → ℕ → Pte) → (frame : ℕ) → ℕ → ℕ → Pte
clear_frame tables frame f i = if f == frame then (λ b. false) else tables f i

-- Is the frame one of those that the frame bitmap lies in? Its words are then entries of the frame,
-- and the entries are words of the bitmap.
abbrev pub in_bitmap : Pmm → (frame : ℕ) → Bool
in_bitmap pmm f =
    let first = pmm.bitmap_phys / page_size in leb first f && ltb f (first + pmm.bitmap_pages)

-- the word of the bitmap at an entry of such a frame
abbrev pub word_at : Pmm → (frame idx : ℕ) → ℕ
word_at pmm f i = (f - pmm.bitmap_phys / page_size) * 512 + i

-- the bitmap when an entry is written
unfoldable pub put_entry : Pmm → (frame idx : ℕ) → Pte → Pmm
put_entry pmm f i e =
    if in_bitmap pmm f
    then record pmm { words = λ w. if w == word_at pmm f i then e else pmm.words w }
    else pmm

-- the bitmap when a frame is cleared
unfoldable pub clear_words : Pmm → (frame : ℕ) → Pmm
clear_words pmm f =
    if in_bitmap pmm f
    then record pmm {
      words = λ w.
          if leb (word_at pmm f 0) w && ltb w (word_at pmm f 512)
          then (λ b. false)
          else pmm.words w;
    }
    else pmm

-- the memory with the words that the bitmap holds now
unfoldable pub with_words : Pmm → (ℕ → ℕ → Pte) → ℕ → ℕ → Pte
with_words pmm tables f i = if in_bitmap pmm f then pmm.words (word_at pmm f i) else tables f i

abbrev pub write : Vmm → (frame idx : ℕ) → Pte → Vmm
write v frame idx e = record v {
  pmm = put_entry v.pmm frame idx e;
  tables = write_entry v.tables frame idx e;
}

-- Where a step down the tables leads: to the frame of the next table, to NULL, or, if the search
-- for a frame ran out of the model's fuel, nowhere.
pub data Walk : Type 0 where
  table : (frame : ℕ) → Vmm → Walk
  nowhere : Vmm → Walk
  no_end : Walk

abbrev pub and_then : Walk → (ℕ → Vmm → Walk) → Walk
and_then (table frame v) k = k frame v
and_then (nowhere v) k = nowhere v
and_then no_end k = no_end

-- the new table, cleared, under entry `idx` of the table in `frame`
unfoldable pub attach : Vmm → (frame idx : ℕ) → Allocation → Walk
unfolding put_entry clear_words with_words
attach v frame idx failed = nowhere v
attach v frame idx no_fuel = no_end
attach v frame idx (address pa pmm) =
    let new = pa / page_size in
    let cleared = record v {
      pmm = clear_words pmm new;
      tables = clear_frame (with_words pmm v.tables) new;
    } in
    let linked = write cleared frame idx (pte_make pa (pte_p + pte_w)) in
    table (frame_of (linked.tables frame idx)) linked

-- one of the like steps of vmm_walk_table and vmm_map_2mb
unfoldable pub descend : Vmm → (create : Bool) → (frame idx : ℕ) → Walk
unfolding attach
descend v create frame idx =
    if present (v.tables frame idx)
    then table (frame_of (v.tables frame idx)) v
    else if create
    then attach v frame idx (pmm_alloc_frame v.pmm)
    else nowhere v

-- The table that holds the last entry; `&p1t[idx_p1]` is entry `pt_idx va` of it.
unfoldable pub vmm_walk_table : Vmm → (va : ℕ) → (create : Bool) → Walk
unfolding descend
vmm_walk_table v va create = and_then (descend v create v.pml4 (pml4_idx va)) λ p3t v3.
    and_then (descend v3 create p3t (pdpt_idx va)) λ p2t v2. descend v2 create p2t (pd_idx va)

-- `none` is the model's fuel running out, which it does not.
abbrev pub Outcome : Type 0
Outcome = Option (ℤ × Vmm)

abbrev pub off_page : ℕ → Bool
off_page a = not (a % page_size == 0)

abbrev pub at_table : Walk → (on_null : ℤ) → (ℕ → Vmm → Outcome) → Outcome
at_table (table frame v) on_null k = k frame v
at_table (nowhere v) on_null k = some (on_null, v)
at_table no_end on_null k = none

unfoldable pub vmm_map : Vmm → (va pa flags : ℕ) → Outcome
unfolding vmm_walk_table pte_make put_entry
vmm_map v va pa flags =
    if off_page va || off_page pa || not (bit flags 0)
    then some (negsuc 0, v)
    else at_table (vmm_walk_table v va true) (negsuc 1)
        λ frame w. some (pos 0, write w frame (pt_idx va) (pte_make pa flags))

unfoldable pub vmm_unmap : Vmm → (va : ℕ) → Outcome
unfolding vmm_walk_table put_entry
vmm_unmap v va =
    if off_page va
    then some (negsuc 0, v)
    else at_table (vmm_walk_table v va false) (negsuc 0) λ frame w.
      if present (w.tables frame (pt_idx va))
      then some (pos 0, write w frame (pt_idx va) (λ b. false))
      else some (negsuc 0, w)

-- `(pa & 0x000FFFFFFFE00000) | flags | PTE_PS`
unfoldable pub huge_pte : (pa flags : ℕ) → Pte
huge_pte pa flags b = leb 21 b && ltb b 52 && bit pa b || bit flags b || b == 7

unfoldable pub vmm_map_2mb : Vmm → (va pa flags : ℕ) → Outcome
unfolding descend huge_pte put_entry
vmm_map_2mb v va pa flags =
    let walk =
      and_then (descend v true v.pml4 (pml4_idx va)) λ p3t w. descend w true p3t (pdpt_idx va) in
    at_table walk (negsuc 0) λ frame w. some (pos 0, write w frame (pd_idx va) (huge_pte pa flags))

abbrev pub huge_page_size : ℕ
huge_page_size = 2 ^ 21

abbrev pub direct_map_offset : ℕ
direct_map_offset = 0xFFFF880000000000

abbrev pub kernel_virt_base : ℕ
kernel_virt_base = 0xFFFFFFFF80000000

abbrev pub kernel_phys_base : ℕ
kernel_phys_base = 0x200000

abbrev pub is_zero : ℤ → Bool
is_zero (pos zero) = true
is_zero _ = false

-- the call that follows if the one before it returned 0
abbrev pub if_mapped : Outcome → (Vmm → Outcome) → Outcome
if_mapped none k = none
if_mapped (some (r, v)) k = if is_zero r then k v else some (r, v)

-- `n` huge pages from index `i` on, as in the loops of vmm_init
unfoldable pub huge_loop : (n : ℕ) → Vmm → (va_base pa_base flags i : ℕ) → Outcome
unfolding vmm_map_2mb
huge_loop zero v va_base pa_base flags i = some (pos 0, v)
huge_loop (suc n) v va_base pa_base flags i =
    let off = i * huge_page_size in
    if_mapped (vmm_map_2mb v (add64 va_base off) (pa_base + off) flags)
      λ w. huge_loop n w va_base pa_base flags (i + 1)

unfoldable pub vmm_init : Vmm → Outcome
unfolding huge_loop clear_words with_words
vmm_init v = elim (pmm_alloc_frame v.pmm) [
  | failed ↦ some (negsuc 0, record v { active = false })
  | no_fuel ↦ none
  | address pa pmm ↦
      let frame = pa / page_size in
      let root : Vmm = record {
        pmm = clear_words pmm frame;
        tables = clear_frame (with_words pmm v.tables) frame;
        pml4 = frame;
        active = false;
      } in
      if_mapped (huge_loop 2048 root direct_map_offset 0 (pte_p + pte_w + pte_g + pte_nx) 0)
        λ w. huge_loop 4 w kernel_virt_base kernel_phys_base (pte_p + pte_w + pte_g) 0
]

abbrev pub temp_map_vaddr : ℕ
temp_map_vaddr = 0xFFFFFFFFFFE00000

-- vmm_temp_map: false is NULL
unfoldable pub vmm_temp_map : Vmm → (pa : ℕ) → Option (Bool × Vmm)
unfolding vmm_walk_table pte_make put_entry
vmm_temp_map v pa = elim (vmm_walk_table v temp_map_vaddr false) [
  | no_end ↦ none
  | nowhere w ↦ some (false, w)
  | table frame w ↦ some (true, write w frame (pt_idx temp_map_vaddr) (pte_make pa (pte_p + pte_w)))
]

-- vmm_temp_unmap, which does not test that the tables are there
unfoldable pub vmm_temp_unmap : Vmm → Vmm
unfolding put_entry
vmm_temp_unmap v =
    let pdpt = frame_of (v.tables v.pml4 (pml4_idx temp_map_vaddr)) in
    let pd = frame_of (v.tables pdpt (pdpt_idx temp_map_vaddr)) in
    let pt = frame_of (v.tables pd (pd_idx temp_map_vaddr)) in
    write v pt (pt_idx temp_map_vaddr) (λ b. false)

-- The pointers to the root table and to the frame bitmap move into the direct map, where they name
-- the same memory.
unfoldable pub vmm_activate : Vmm → Vmm
vmm_activate v = record v { active = true }

abbrev pub user_virt_limit : ℕ
user_virt_limit = 0x00007FFFFFFFFFFF

unfoldable pub vmm_map_user : Vmm → (va pa : ℕ) → (rw exec : Bool) → Outcome
unfolding vmm_map
vmm_map_user v va pa rw exec =
    let flags = pte_p + pte_u + (if rw then pte_w else 0) + (if exec then 0 else pte_nx) in
    if ltb user_virt_limit va then some (negsuc 0, v) else vmm_map v va pa flags
