-- ===== src/Elf/Load.antt =====
-- ELF64.c: elf64_load around the loop over the segments, and elf64_spawn.
use fexox_os.Base.{
  ℕ, zero, suc, ◌+◌, ◌-◌, ◌*◌, Bool, true, false, not, Option, none, some, List, ◌==◌,
  if◌then◌else◌, bit_and, add64, not64,
}
use fexox_os.Base.Int.{ℤ, pos, negsuc}
use fexox_os.Klibc.{memset}
use fexox_os.Pmm.{pmm_alloc_frames, pmm_free_frames, Allocation, address, failed, no_fuel}
use fexox_os.Elf.{
  Ehdr, Verdict, elf_ok, err_io, err_nomem, err_inval, err_interp, elf64_validate_header, phdr_size,
}
use fexox_os.Elf.Image.{
  Image, Kernel, World, empty_image, Phdr, ehdr_of, phdr_of, ehdr_size, pt_interp, et_dyn,
  pie_load_base, user_stack_top, user_stack_pages, elf_direct_map,
}
use fexox_os.Elf.Segments.{
  elf64_free, Stage, map_run, Loading, load_segments, goes_on, gives_up, stuck,
}

module _ {V : Type 0} (kernel : Kernel V) where
  -- What elf64_load returns, the world and `*out`.
  abbrev pub Loaded : Type 0
  Loaded = Verdict × World V × Image

  -- elf64_free of the image, and the error
  abbrev pub undo : Verdict → World V → Image → Loaded
  undo error w img = let (pmm, gone) = elf64_free w.pmm img in (error, record w { pmm = pmm }, gone)

  -- the image with its stack, or what is undone if the stack cannot be mapped
  abbrev pub with_stack : Image → (phys : ℕ) → Stage (World V) → Option Loaded
  with_stack img phys (goes_on w) = some (
    elf_ok,
    w,
    record img {
      stack_top = bit_and (user_stack_top - 8) (not64 15);
      stack_pages = user_stack_pages;
      stack_phys = phys;
    },
  )
  with_stack img phys (gives_up w) =
      some (undo err_nomem (record w { pmm = pmm_free_frames w.pmm phys user_stack_pages }) img)
  with_stack img phys stuck = none

  -- the block that allocates the user's stack
  abbrev pub take_stack : World V → Image → Allocation → Option Loaded
  take_stack w img failed = some (undo err_nomem w img)
  take_stack w img no_fuel = none
  take_stack w img (address phys pmm) =
      let size = user_stack_pages * 4096 in
      with_stack img phys (
        map_run kernel user_stack_pages 0
          (record w { pmm = pmm; ram = memset w.ram (add64 phys elf_direct_map) 0 size })
          (user_stack_top - size) phys true false)

  -- `kfree(phdrs); vfs_close(fd);`
  abbrev pub let_go : World V → (fd phdrs : ℕ) → World V
  let_go w fd phdrs = record w { services = kernel.close_file (kernel.release w.services phdrs) fd }

  -- what follows the loop over the program headers, and the label err_free_segs
  abbrev pub after_segments : Image → (fd phdrs : ℕ) → Stage (Loading kernel) → Option Loaded
  after_segments img fd phdrs stuck = none
  after_segments img fd phdrs (gives_up (w, nseg, segs)) =
      some (undo err_io (let_go w fd phdrs) (record img { nseg = nseg; segs = segs }))
  after_segments img fd phdrs (goes_on (w, nseg, segs)) =
      let w1 = let_go w fd phdrs in
      let out = record img { nseg = nseg; segs = segs } in
      if nseg == 0
      then some (err_inval, w1, out)
      else take_stack w1 out (pmm_alloc_frames w1.pmm user_stack_pages 1)

  -- whether one of `k` headers from `i` on asks for an interpreter
  unfoldable pub has_interp : (k i : ℕ) → (ℕ → Phdr) → Bool
  has_interp zero i phdrs = false
  has_interp (suc k) i phdrs =
      let rest = has_interp k (i + 1) phdrs in if (phdrs i).p_type == pt_interp then true else rest

  abbrev pub is_count : ℤ → ℕ → Bool
  is_count (pos n) want = n == want
  is_count (negsuc n) want = false

  -- from the program headers on, with their buffer at `phdrs`
  abbrev pub load_image : World V → (fd : ℕ) → Ehdr → (phdrs : ℕ) → (ℕ → Phdr) → Option Loaded
  load_image w fd ehdr phdrs table =
      let base = if ehdr.e_type == et_dyn then pie_load_base else 0 in
      let img = record empty_image { load_base = base; entry = add64 ehdr.e_entry base } in
      if has_interp ehdr.e_phnum 0 table
      then some (err_interp, let_go w fd phdrs, empty_image)
      else after_segments img fd phdrs
          (load_segments kernel ehdr.e_phnum 0 fd base table w 0 img.segs)

  -- the tests of the seek to the table and of the number of bytes read, after which the world is
  -- `w2` and `w3`
  abbrev pub from_table :
      (sought : ℤ)
      → (counted : Bool) → (w2 w3 : World V) → (fd : ℕ) → Ehdr
      → (phdrs : ℕ) → (ℕ → Phdr)
      → Option Loaded
  from_table (negsuc _) counted w2 w3 fd ehdr phdrs table =
      some (err_io, let_go w2 fd phdrs, empty_image)
  from_table (pos _) counted w2 w3 fd ehdr phdrs table =
      if counted
      then load_image w3 fd ehdr phdrs table
      else some (err_io, let_go w3 fd phdrs, empty_image)

  -- the program header table
  abbrev pub load_table : World V → (fd : ℕ) → Ehdr → Option Loaded
  load_table w fd ehdr =
      let bytes = ehdr.e_phnum * phdr_size in
      let (phdrs, s1, pmm) = kernel.allocate w.services w.pmm bytes in
      let w1 = record w { pmm = pmm } in
      let (sought, s2) = kernel.seek_file s1 fd ehdr.e_phoff in
      let (nr, content, s3) = kernel.read_bytes s2 fd bytes in
      if phdrs == 0
      then some (err_nomem, record w1 { services = kernel.close_file s1 fd }, empty_image)
      else from_table sought (is_count nr bytes) (record w1 { services = s2 })
          (record w1 { services = s3 }) fd ehdr phdrs (phdr_of content)

  abbrev pub is_ok : Verdict → Bool
  is_ok v = elim v [ elf_ok ↦ true | _ ↦ false ]

  -- the ELF header, with the descriptor open
  abbrev pub from_file : (opened : ℤ) → World V → Option Loaded
  from_file (negsuc _) w = some (err_io, w, empty_image)
  from_file (pos fd) w =
      let (nr, content, s2) = kernel.read_bytes w.services fd ehdr_size in
      let closed = record w { services = kernel.close_file s2 fd } in
      let verdict = elf64_validate_header (ehdr_of content) in
      if not (is_count nr ehdr_size)
      then some (err_io, closed, empty_image)
      else if not (is_ok verdict)
      then some (verdict, closed, empty_image)
      else load_table (record w { services = s2 }) fd (ehdr_of content)

  -- the path and the image are not NULL; `none` is the model's fuel running out
  unfoldable pub elf64_load : World V → (path : List ℕ) → Option Loaded
  elf64_load w path =
      let (opened, s1) = kernel.open_path w.services path in
      from_file opened (record w { services = s1 })

  -- What elf64_spawn returns: the thread's number or an error.
  pub data Spawned : Type 0 where
    started : ℕ → Spawned
    refused : Verdict → Spawned

  -- the test of the thread's number; `sa` is the block of the arguments
  abbrev pub enter : (tid : ℤ) → World V → (sa : ℕ) → Image → Spawned × World V
  enter (pos tid) w sa img = (started tid, w)
  enter (negsuc _) w sa img =
      let (pmm, gone) = elf64_free w.pmm img in
      (refused err_nomem, record w { pmm = pmm; services = kernel.release w.services sa })

  abbrev pub after_load : (sa : ℕ) → (prio : ℤ) → Option Loaded → Option (Spawned × World V)
  after_load sa prio none = none
  after_load sa prio (some (verdict, w, img)) =
      let (tid, services) = kernel.create_thread w.services img prio in
      if not (is_ok verdict)
      then some (refused verdict, record w { services = kernel.release w.services sa })
      else some (enter tid (record w { services = services }) sa img)

  abbrev pub spawn_arg_size : ℕ
  spawn_arg_size = 560

  -- the path and the name are not NULL
  unfoldable pub elf64_spawn : World V → (path : List ℕ) → (prio : ℤ) → Option (Spawned × World V)
  elf64_spawn w path prio =
      let (sa, services, pmm) = kernel.allocate w.services w.pmm spawn_arg_size in
      let w1 = record w { services = services; pmm = pmm } in
      if sa == 0 then some (refused err_nomem, w1) else after_load sa prio (elf64_load w1 path)
