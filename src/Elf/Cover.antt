-- ===== src/Elf/Cover.antt =====
-- ELF64.c, elf64_load: the pages of a segment.
use fexox_os.Base.{ℕ, ◌+◌, ◌*◌, ◌/◌, ◌%◌, ◌≤◌, ◌<◌, ◌≡◌, arith, add64, sub64, u64_mod}
use fexox_os.Base.Bits.{clear_low}
use fexox_os.Elf.Image.{
  Phdr, elf_max_seg_bytes, round_down, round_up, seg_start, seg_vaddr, seg_pages,
}

round_down_lem : (n : ℕ) → n < u64_mod → round_down n ≡ n / 4096 * 4096
unfolding round_down
round_down_lem n h = clear_low 52 12 n h

round_up_lem : (n : ℕ) → n + 4096 < u64_mod → round_up n ≡ (n + 4095) / 4096 * 4096
unfolding round_up
round_up_lem n h =
    let sum : sub64 (add64 n 4096) 1 ≡ n + 4095 = omega arith in
    rw sum (clear_low 52 12 (n + 4095) (omega arith))

-- The pages of a segment that passes the loader's tests, and whose addresses do not wrap around: they
-- begin on a page, begin at most one page before the segment and end at most one after it, are
-- between 1 and 32769, and have room for the bytes of the file at the segment's place in them.
pub seg_pages-covers :
    (ph : Phdr) (base : ℕ)
    → 0 < ph.p_memsz
    → ph.p_memsz ≤ elf_max_seg_bytes
    → ph.p_filesz ≤ ph.p_memsz
    → ph.p_vaddr + base + ph.p_memsz + 4096 < u64_mod
    → let start = ph.p_vaddr + base in
      let first = seg_vaddr ph base in
      let pages = seg_pages ph base in
      (first % 4096 ≡ 0)
      × (first ≤ start)
      × (start < first + 4096)
      × (start + ph.p_memsz ≤ first + pages * 4096)
      × (first + pages * 4096 < start + ph.p_memsz + 4096)
      × (1 ≤ pages)
      × (pages ≤ 32769)
      × (sub64 (seg_start ph base) first + ph.p_filesz ≤ pages * 4096)
seg_pages-covers ph base pos limit less fits =
    let start = ph.p_vaddr + base in
    let at : add64 ph.p_vaddr base ≡ start = omega arith in
    let end : add64 start ph.p_memsz ≡ start + ph.p_memsz = omega arith in
    let down = round_down_lem start (omega arith) in
    let up = round_up_lem (start + ph.p_memsz) (omega arith) in
    rw (at, end, down, up)
      (
        omega arith,
        omega arith,
        omega arith,
        omega arith,
        omega arith,
        omega arith,
        omega arith,
        omega arith,
      )
