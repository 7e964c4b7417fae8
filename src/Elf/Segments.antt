-- ===== src/Elf/Segments.antt =====
-- ELF64.c, elf64_load and elf64_free: the segments of an image.
use fexox_os.Base.{
  ℕ, zero, suc, ◌+◌, ◌-◌, ◌*◌, ◌%◌, Bool, true, false, ◌&&◌, ◌||◌, not, ltb, leb, ◌==◌,
  if◌then◌else◌, update, bit_and, add64, sub64, u64_mod,
}
use fexox_os.Base.Int.{ℤ, pos, negsuc, pos_part}
use fexox_os.Klibc.{Memory, memset}
use fexox_os.Pmm.{Pmm, pmm_alloc_frames, pmm_free_frames, Allocation, address, failed, no_fuel}
use fexox_os.Elf.Image.{
  Seg, Image, Kernel, World, Phdr, pt_load, elf64_max_segs, elf_max_seg_bytes, elf_direct_map,
  seg_start, seg_vaddr, seg_pages,
}

-- the loop of elf64_free, `k` rounds from `i` on
unfoldable pub free_segs : (k i : ℕ) → Pmm → (ℕ → Seg) → Pmm × (ℕ → Seg)
free_segs zero i p segs = (p, segs)
free_segs (suc k) i p segs =
    let seg = segs i in
    let held = not (seg.phys_base == 0) && not (seg.num_pages == 0) in
    free_segs k (i + 1) (if held then pmm_free_frames p seg.phys_base seg.num_pages else p)
      (if held then update segs i (record seg { phys_base = 0; num_pages = 0 }) else segs)

unfoldable pub elf64_free : Pmm → Image → Pmm × Image
elf64_free p img =
    let (q, segs) = free_segs img.nseg 0 p img.segs in
    if not (img.stack_phys == 0) && not (img.stack_pages == 0)
    then (
      pmm_free_frames q img.stack_phys img.stack_pages,
      record img { nseg = 0; segs = segs; stack_phys = 0; stack_pages = 0 },
    )
    else (q, record img { nseg = 0; segs = segs })

-- How a part of the loader ends: it goes on, it gives up, or the model's fuel runs out.
pub data Stage {ℓ} (A : Type ℓ) : Type ℓ where
  goes_on : A → Stage A
  gives_up : A → Stage A
  stuck : Stage A

-- `count` bytes that a read has put at `dst`
abbrev pub put_bytes : Memory → (dst count : ℕ) → (ℕ → ℕ) → Memory
put_bytes ram dst count bytes a =
    if leb dst a && ltb a (dst + count) then bytes (a - dst) else ram a

module _ {V : Type 0} (kernel : Kernel V) where
  -- The `while (remain > 0)`; each read gives at least one byte or ends the loop.
  unfoldable pub read_rounds : (fuel : ℕ) → World V → (fd dst remain : ℕ) → Stage (World V)
  read_rounds zero w fd dst remain = if remain == 0 then goes_on w else stuck
  read_rounds (suc k) w fd dst remain =
      let (chunk, bytes, services) = kernel.read_bytes w.services fd remain in
      let n = pos_part chunk in
      elim (remain == 0) [
        | true ↦ goes_on w
        | false ↦ elim (n == 0) [
          | true ↦ gives_up (record w { services = services })
          | false ↦
              read_rounds k (record w { services = services; ram = put_bytes w.ram dst n bytes }) fd
                (add64 dst n) (sub64 remain n)
        ]
      ]

  -- the test of the seek and the loop
  abbrev pub sought_data : ℤ → World V → (fd : ℕ) → Phdr → (dst : ℕ) → Stage (World V)
  sought_data (negsuc _) w fd ph dst = gives_up w
  sought_data (pos _) w fd ph dst = read_rounds ph.p_filesz w fd dst ph.p_filesz

  -- the copy of the segment's data from the file, where there is any
  unfoldable pub read_data : World V → (fd : ℕ) → Phdr → (dst : ℕ) → Stage (World V)
  read_data w fd ph dst =
      let (sought, services) = kernel.seek_file w.services fd ph.p_offset in
      if ltb 0 ph.p_filesz
      then sought_data sought (record w { services = services }) fd ph dst
      else goes_on w

  -- `if (mr != 0)` and the rest of the loop
  abbrev pub after_map : (mr : ℤ) → (rest : Stage (World V)) → World V → Stage (World V)
  after_map (pos zero) rest w = rest
  after_map (pos (suc n)) rest w = gives_up w
  after_map (negsuc n) rest w = gives_up w

  -- the loop over the pages, `n` rounds from page `p` on
  unfoldable pub map_run : (n p : ℕ) → World V → (va pa : ℕ) → (rw exec : Bool) → Stage (World V)
  map_run zero p w va pa rw exec = goes_on w
  map_run (suc n) p w va pa rw exec =
      let (mr, services, pmm) =
        kernel.map_user w.services w.pmm (add64 va (p * 4096 % u64_mod))
          (add64 pa (p * 4096 % u64_mod)) rw exec in
      let w1 = record w { services = services; pmm = pmm } in
      after_map mr (map_run n (p + 1) w1 va pa rw exec) w1

  -- the page tables, after the data
  abbrev pub map_segment : Phdr → (base phys : ℕ) → Stage (World V) → Stage (World V)
  map_segment ph base phys (goes_on w) =
      map_run (seg_pages ph base) 0 w (seg_vaddr ph base) phys (not (bit_and ph.p_flags 2 == 0))
        (not (bit_and ph.p_flags 1 == 0))
  map_segment ph base phys (gives_up w) = gives_up w
  map_segment ph base phys stuck = stuck

  -- the data and the page tables of a segment whose frames begin at `phys`
  unfoldable pub fill_segment : World V → (fd base : ℕ) → Phdr → (phys : ℕ) → Stage (World V)
  fill_segment w fd base ph phys =
      let kva = add64 phys elf_direct_map in
      let page_offset = sub64 (seg_start ph base) (seg_vaddr ph base) in
      let size = seg_pages ph base * 4096 % u64_mod in
      map_segment ph base phys
        (read_data (record w { ram = memset w.ram kva 0 size }) fd ph (add64 kva page_offset))

  -- the world, nseg and out->segs
  abbrev pub Loading : Type 0
  Loading = World V × ℕ × (ℕ → Seg)

  abbrev pub new_seg : Phdr → (base phys : ℕ) → Seg
  new_seg ph base phys = record {
    vaddr = seg_vaddr ph base;
    num_pages = seg_pages ph base;
    phys_base = phys;
    exec = not (bit_and ph.p_flags 1 == 0);
    write = not (bit_and ph.p_flags 2 == 0);
  }

  -- the end of a segment's round, once it is known how filling it went
  abbrev pub conclude : (nseg : ℕ) → (ℕ → Seg) → Seg → Stage (World V) → Stage Loading
  conclude nseg segs seg (goes_on w) = goes_on (w, suc nseg, update segs nseg seg)
  conclude nseg segs seg (gives_up w) =
      gives_up (record w { pmm = pmm_free_frames w.pmm seg.phys_base seg.num_pages }, nseg, segs)
  conclude nseg segs seg stuck = stuck

  -- the frames of a segment, once they are allocated
  abbrev pub take_frames :
      World V → (fd base : ℕ) → Phdr → (nseg : ℕ) → (ℕ → Seg) → Allocation → Stage Loading
  take_frames w fd base ph nseg segs failed = gives_up (w, nseg, segs)
  take_frames w fd base ph nseg segs no_fuel = stuck
  take_frames w fd base ph nseg segs (address phys pmm) =
      conclude nseg segs (new_seg ph base phys)
        (fill_segment (record w { pmm = pmm }) fd base ph phys)

  -- one round of the loop over the program headers
  unfoldable pub load_segment :
      World V → (fd base : ℕ) → Phdr → (nseg : ℕ) → (ℕ → Seg) → Stage Loading
  load_segment w fd base ph nseg segs =
      if not (ph.p_type == pt_load)
      then goes_on (w, nseg, segs)
      else if leb elf64_max_segs nseg
      then gives_up (w, nseg, segs)
      else if ph.p_memsz == 0
      then goes_on (w, nseg, segs)
      else if ltb elf_max_seg_bytes ph.p_memsz || ltb ph.p_memsz ph.p_filesz
      then gives_up (w, nseg, segs)
      else take_frames w fd base ph nseg segs (pmm_alloc_frames w.pmm (seg_pages ph base) 1)

  abbrev pub go_further : Stage Loading → (World V → ℕ → (ℕ → Seg) → Stage Loading) → Stage Loading
  go_further (goes_on (w, n, s)) next = next w n s
  go_further (gives_up e) next = gives_up e
  go_further stuck next = stuck

  -- the loop, `k` rounds from header `i` on
  unfoldable pub load_segments :
      (k i : ℕ) → (fd base : ℕ) → (ℕ → Phdr) → World V → (nseg : ℕ) → (ℕ → Seg) → Stage Loading
  load_segments zero i fd base phdrs w nseg segs = goes_on (w, nseg, segs)
  load_segments (suc k) i fd base phdrs w nseg segs =
      go_further (load_segment w fd base (phdrs i) nseg segs)
        (λ w1 n s. load_segments k (i + 1) fd base phdrs w1 n s)
