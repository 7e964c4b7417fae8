-- ===== src/Elf/Image.antt =====
-- ELF64.h and ELF64.c: the image, the headers as they stand in a file, and what the loader calls.
use fexox_os.Base.{ℕ, zero, suc, ◌+◌, ◌*◌, ◌/◌, Bool, false, List, bit_and, add64, sub64, not64}
use fexox_os.Base.Int.{ℤ}
use fexox_os.Klibc.{Memory}
use fexox_os.Pmm.{Pmm}
use fexox_os.Elf.{Ehdr, phdr_size}

-- `elf64_seg_t`
pub record Seg : Type 0 where
  pub vaddr : ℕ
  pub num_pages : ℕ
  pub phys_base : ℕ
  pub exec : Bool
  pub write : Bool

-- `elf64_image_t`
pub record Image : Type 0 where
  pub entry : ℕ
  pub load_base : ℕ
  pub stack_top : ℕ
  pub stack_pages : ℕ
  pub stack_phys : ℕ
  pub nseg : ℕ
  pub segs : ℕ → Seg

-- The kernel's services below the loader, a parameter: the files, the heap, the page tables and the
-- threads, on a state V. The heap and the page tables take frames; the files are taken to need none.
pub record Kernel (V : Type 0) : Type 0 where
  -- vfs_open: the path gives a descriptor, or a negative number
  pub open_path : V → List ℕ → ℤ × V
  -- vfs_read: how many of the `n` bytes were read, or a negative number, and the bytes
  pub read_bytes : V → (fd n : ℕ) → ℤ × (ℕ → ℕ) × V
  -- vfs_seek, vfs_close, kmalloc, kfree and vmm_map_user
  pub seek_file : V → (fd offset : ℕ) → ℤ × V
  pub close_file : V → (fd : ℕ) → V
  pub allocate : V → Pmm → (size : ℕ) → ℕ × V × Pmm
  pub release : V → (ptr : ℕ) → V
  pub map_user : V → Pmm → (va pa : ℕ) → (rw exec : Bool) → ℤ × V × Pmm
  -- sched_create_kthread: a thread that enters the program of the image: its number, or a negative number
  pub create_thread : V → Image → (prio : ℤ) → ℤ × V

-- `ram` is the memory by the kernel's addresses.
pub record World (V : Type 0) : Type 0 where
  pub services : V
  pub pmm : Pmm
  pub ram : Memory

abbrev pub no_seg : Seg
no_seg = record { vaddr = 0; num_pages = 0; phys_base = 0; exec = false; write = false }

-- `out` after memset
abbrev pub empty_image : Image
empty_image = record {
  entry = 0;
  load_base = 0;
  stack_top = 0;
  stack_pages = 0;
  stack_phys = 0;
  nseg = 0;
  segs = λ _. no_seg;
}

-- `Elf64_Phdr`, as far as the loader reads it
pub record Phdr : Type 0 where
  pub p_type : ℕ
  pub p_flags : ℕ
  pub p_offset : ℕ
  pub p_vaddr : ℕ
  pub p_filesz : ℕ
  pub p_memsz : ℕ

-- the `n` bytes from `at` on, the lowest first
unfoldable pub little_endian : (n : ℕ) → (ℕ → ℕ) → (at : ℕ) → ℕ
little_endian zero bytes at = 0
little_endian (suc n) bytes at = bytes at + 256 * little_endian n bytes (at + 1)

-- the structs that the bytes stand for
unfoldable pub ehdr_of : (ℕ → ℕ) → Ehdr
ehdr_of b = record {
  e_ident = b;
  e_type = little_endian 2 b 16;
  e_machine = little_endian 2 b 18;
  e_version = little_endian 4 b 20;
  e_entry = little_endian 8 b 24;
  e_phoff = little_endian 8 b 32;
  e_phentsize = little_endian 2 b 54;
  e_phnum = little_endian 2 b 56;
}

unfoldable pub phdr_of : (ℕ → ℕ) → (i : ℕ) → Phdr
phdr_of b i =
    let at = i * phdr_size in
    record {
      p_type = little_endian 4 b at;
      p_flags = little_endian 4 b (at + 4);
      p_offset = little_endian 8 b (at + 8);
      p_vaddr = little_endian 8 b (at + 16);
      p_filesz = little_endian 8 b (at + 32);
      p_memsz = little_endian 8 b (at + 40);
    }

abbrev pub ehdr_size : ℕ
ehdr_size = 64

abbrev pub pt_load : ℕ
pt_load = 1

abbrev pub pt_interp : ℕ
pt_interp = 3

abbrev pub et_dyn : ℕ
et_dyn = 3

abbrev pub elf64_max_segs : ℕ
elf64_max_segs = 16

abbrev pub elf_max_seg_bytes : ℕ
elf_max_seg_bytes = 128 * 1024 * 1024

abbrev pub pie_load_base : ℕ
pie_load_base = 0x400000

abbrev pub user_stack_top : ℕ
user_stack_top = 0x00007FFF00000000

abbrev pub user_stack_pages : ℕ
user_stack_pages = 8

abbrev pub elf_direct_map : ℕ
elf_direct_map = 0xFFFF880000000000

-- ROUND_DOWN and ROUND_UP to a page
unfoldable pub round_down : ℕ → ℕ
round_down n = bit_and n (not64 4095)

unfoldable pub round_up : ℕ → ℕ
round_up n = bit_and (sub64 (add64 n 4096) 1) (not64 4095)

-- `ph->p_vaddr + load_base`, seg_vaddr, seg_vend and seg_pages
abbrev pub seg_start : Phdr → (base : ℕ) → ℕ
seg_start ph base = add64 ph.p_vaddr base

abbrev pub seg_vaddr : Phdr → (base : ℕ) → ℕ
seg_vaddr ph base = round_down (seg_start ph base)

abbrev pub seg_vend : Phdr → (base : ℕ) → ℕ
seg_vend ph base = round_up (add64 (seg_start ph base) ph.p_memsz)

abbrev pub seg_pages : Phdr → (base : ℕ) → ℕ
seg_pages ph base = sub64 (seg_vend ph base) (seg_vaddr ph base) / 4096
