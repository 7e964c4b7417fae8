-- ===== src/Elf/Tests.antt =====
-- The check on two headers, and the loader on a small program.
use fexox_os.Base.{
  ℕ, ◌+◌, ◌*◌, ◌%◌, ◌≤◌, ◌<◌, ◌≡◌, ◌↔◌, refl, ◌==◌, if◌then◌else◌, true, Option, none, some, List,
  [], ◌∷◌, get_or, ltb, arith, sub64, false, ◌||◌, ◌⊎◌,
}
use fexox_os.Base.Int.{ℤ, pos, negsuc}
use fexox_os.Pmm.{
  pmm_test, pmm_alloc_frames, pmm_find_contiguous_zero, contiguous_loop, pmm_find_next_zero,
  next_zero_loop, ctz64, candidates, align_up, run_is_free, take_run,
}
use fexox_os.Elf.Image.{
  Kernel, World, Image, Phdr, ehdr_of, little_endian, phdr_of, round_up, round_down, seg_vaddr,
  seg_pages, seg_start,
}
use fexox_os.Elf.Segments.{
  load_segments, load_segment, fill_segment, read_data, read_rounds, map_run, elf64_free, free_segs,
}
use fexox_os.Elf.Load.{elf64_load, has_interp}
use fexox_os.Elf.Cover.{seg_pages-covers}
use fexox_os.Elf.Undo.{in_segs, frames_of_stack, elf64_free-frees}
use fexox_os.Elf.{
  Verdict, err_io, Ehdr, elf_ok, err_type, elf64_validate_header, IsLoadable,
  elf64_validate_header-IsLoadable,
}

abbrev program : Ehdr
program = record {
  e_ident = λ i.
      if i == 0
      then 0x7F
      else if i == 1
      then 69
      else if i == 2
      then 76
      else if i == 3
      then 70
      else if i == 4
      then 2
      else 1;
  e_type = 2;
  e_machine = 62;
  e_version = 1;
  e_entry = 0x1000;
  e_phoff = 64;
  e_phentsize = 56;
  e_phnum = 4;
}

accepted : elf64_validate_header program ≡ elf_ok
unfolding elf64_validate_header
accepted = refl

core_dump : elf64_validate_header (record program { e_type = 4 }) ≡ err_type
unfolding elf64_validate_header
core_dump = refl

elf64_validate_header-IsLoadable_example :
    ((elf64_validate_header program ≡ elf_ok) ↔ IsLoadable program)
    × (elf64_validate_header program ≡ elf_ok → program.e_phnum * program.e_phentsize ≤ 3584)
elf64_validate_header-IsLoadable_example = elf64_validate_header-IsLoadable program

-- a program of one segment that the file itself is the data of
abbrev file : List ℕ
file =
    0x7F ∷ 69 ∷ 76 ∷ 70 ∷ 2 ∷ 1 ∷ 1 ∷ 0 ∷ 0 ∷ 0 ∷ 0 ∷ 0 ∷ 0 ∷ 0 ∷ 0 ∷ 0 ∷ 2 ∷ 0 ∷ 62 ∷ 0 ∷ 1 ∷ 0 ∷ 0
    ∷ 0 ∷ 0x80 ∷ 0 ∷ 0x40 ∷ 0 ∷ 0 ∷ 0 ∷ 0 ∷ 0 ∷ 64 ∷ 0 ∷ 0 ∷ 0 ∷ 0 ∷ 0 ∷ 0 ∷ 0 ∷ 0 ∷ 0 ∷ 0 ∷ 0 ∷ 0
    ∷ 0 ∷ 0 ∷ 0 ∷ 0 ∷ 0 ∷ 0 ∷ 0 ∷ 64 ∷ 0 ∷ 56 ∷ 0 ∷ 1 ∷ 0 ∷ 0 ∷ 0 ∷ 0 ∷ 0 ∷ 0 ∷ 0 ∷ 1 ∷ 0 ∷ 0 ∷ 0
    ∷ 5 ∷ 0 ∷ 0 ∷ 0 ∷ 0 ∷ 0 ∷ 0 ∷ 0 ∷ 0 ∷ 0 ∷ 0 ∷ 0 ∷ 0 ∷ 0 ∷ 0x40 ∷ 0 ∷ 0 ∷ 0 ∷ 0 ∷ 0 ∷ 0 ∷ 0 ∷ 0
    ∷ 0 ∷ 0 ∷ 0 ∷ 0 ∷ 0 ∷ 120 ∷ 0 ∷ 0 ∷ 0 ∷ 0 ∷ 0 ∷ 0 ∷ 0 ∷ 200 ∷ 0 ∷ 0 ∷ 0 ∷ 0 ∷ 0 ∷ 0 ∷ 0 ∷ []

-- The state is the place in the file; `map_result` is what mapping a page returns.
abbrev services : ℤ → Kernel ℕ
services map_result = record {
  open_path = λ at path. (pos 3, 0);
  read_bytes = λ at fd n. (pos n, (λ i. get_or file (at + i) 0), at + n);
  seek_file = λ at fd offset. (pos offset, offset);
  close_file = λ at fd. at;
  allocate = λ at p size. (4096, at, p);
  release = λ at ptr. at;
  map_user = λ at p va pa writes exec. (map_result, at, p);
  create_thread = λ at img prio. (pos 1, at);
}

-- 64 frames, the first four of them used
abbrev machine_start : World ℕ
machine_start = record {
  services = 0;
  pmm = record {
    words = λ w b. ltb (64 * w + b) 4;
    total_frames = 64;
    free_frames = 60;
    num_words = 1;
    bitmap_phys = 0;
    bitmap_pages = 1;
  };
  ram = λ a. 0;
}

abbrev verdict_of : Option (Verdict × World ℕ × Image) → Option Verdict
verdict_of none = none
verdict_of (some (v, w, img)) = some v

-- an image with a segment in the frames 1 and 2, and with its stack in frame 3
abbrev small_image : Image
small_image = record {
  entry = 0x400000;
  load_base = 0;
  stack_top = 0;
  stack_pages = 1;
  stack_phys = 12288;
  nseg = 1;
  segs =
      λ i. record { vaddr = 0x400000; num_pages = 2; phys_base = 4096; exec = true; write = false };
}

elf64_free-frees_example :
    (pmm_test (elf64_free machine_start.pmm small_image).0 2 ≡ (
      if in_segs 1 0 small_image.segs 2 || frames_of_stack small_image 2
      then false
      else pmm_test machine_start.pmm 2))
    × ((elf64_free machine_start.pmm small_image).1.nseg ≡ 0)
    × (((elf64_free machine_start.pmm small_image).1.stack_phys ≡ 0)
        ⊎ ((elf64_free machine_start.pmm small_image).1.stack_pages ≡ 0))
elf64_free-frees_example =
    elf64_free-frees machine_start.pmm small_image 2 (λ i h. omega arith) (omega arith)

-- a page that cannot be mapped
unmapped : verdict_of (elf64_load (services (negsuc 0)) machine_start []) ≡ some err_io
unfolding elf64_load elf64_validate_header ehdr_of little_endian phdr_of has_interp load_segments
    load_segment pmm_alloc_frames pmm_find_contiguous_zero contiguous_loop pmm_find_next_zero
    next_zero_loop ctz64 candidates align_up run_is_free pmm_test fill_segment read_data read_rounds
    map_run round_up round_down elf64_free free_segs take_run
unmapped = refl

abbrev text_segment : Phdr
text_segment = record {
  p_type = 1;
  p_flags = 5;
  p_offset = 0;
  p_vaddr = 0x400F80;
  p_filesz = 120;
  p_memsz = 200;
}

seg_pages-covers_example :
    let first = seg_vaddr text_segment 0 in
    let pages = seg_pages text_segment 0 in
    (first % 4096 ≡ 0)
    × (first ≤ 0x400F80 + 0)
    × (0x400F80 + 0 < first + 4096)
    × (0x400F80 + 0 + 200 ≤ first + pages * 4096)
    × (first + pages * 4096 < 0x400F80 + 0 + 200 + 4096)
    × (1 ≤ pages)
    × (pages ≤ 32769)
    × (sub64 (seg_start text_segment 0) first + 120 ≤ pages * 4096)
seg_pages-covers_example =
    seg_pages-covers text_segment 0 (omega arith) (omega arith) (omega arith) (omega arith)
