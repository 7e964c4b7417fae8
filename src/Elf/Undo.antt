-- ===== src/Elf/Undo.antt =====
-- ELF64.c, elf64_free and the error paths of elf64_load: which frames they give back.
use fexox_os.Base.{
  ℕ, zero, suc, ◌+◌, ◌-◌, ◌/◌, ◌≤◌, ◌<◌, ◌≡◌, ◌≢◌, ◌⊎◌, ◌∙◌, sym, ap, refl, inl, inr, Bool, true,
  false, ◌&&◌, ◌||◌, not, arith, ◌==◌, if◌then◌else◌, update, u64_mod, page_size, Bool-cases,
}
use fexox_os.Pmm.{Pmm, pmm_test, pmm_free_frames}
use fexox_os.Pmm.Runs.{inside}
use fexox_os.Pmm.Release.{pmm_free_frames-frees}
use fexox_os.Elf.Image.{Seg, Image}
use fexox_os.Elf.Segments.{free_segs, elf64_free}

-- the frames of a segment
abbrev frames_of_seg : Seg → (j : ℕ) → Bool
frames_of_seg seg j =
    not (seg.phys_base == 0)
    && not (seg.num_pages == 0)
    && inside (seg.phys_base / page_size) seg.num_pages j

-- those of the segments from `i` on, of `k`
abbrev pub in_segs : (k i : ℕ) → (ℕ → Seg) → (j : ℕ) → Bool
in_segs zero i segs j = false
in_segs (suc k) i segs j = frames_of_seg (segs i) j || in_segs k (i + 1) segs j

-- those of the stack
abbrev pub frames_of_stack : Image → (j : ℕ) → Bool
frames_of_stack img j =
    not (img.stack_phys == 0)
    && not (img.stack_pages == 0)
    && inside (img.stack_phys / page_size) img.stack_pages j

-- no segment's address is (phys_addr_t)-1
abbrev Real : (k : ℕ) → (ℕ → Seg) → Type 0
Real k segs = (i : ℕ) → i < k → (segs i).phys_base ≢ u64_mod - 1

-- the call that frees one run
free_one :
    (p : Pmm) (pa n j : ℕ)
    → pa ≢ u64_mod - 1
    → pmm_test (if not (pa == 0) && not (n == 0) then pmm_free_frames p pa n else p) j ≡ (
        if not (pa == 0) && not (n == 0) && inside (pa / page_size) n j
        then false
        else pmm_test p j)
free_one p pa n j real = elim (Bool-cases (not (pa == 0) && not (n == 0))) [
  | inl e ↦
      let ea : (pa == 0) ≡ false = ground arith in
      let en : (n == 0) ≡ false = ground arith in
      let frees = pmm_free_frames-frees p pa n (λ z. ground arith) real in rw (ea, en) (frees.0 j)
  | inr e ↦ ground arith
]

in_segs-ext :
    (k i : ℕ) (segs segs' : ℕ → Seg) (j : ℕ)
    → ((n : ℕ) → i ≤ n → segs n ≡ segs' n)
    → in_segs k i segs j ≡ in_segs k i segs' j
in_segs-ext zero i segs segs' j h = refl
in_segs-ext (suc k) i segs segs' j h =
    rw (h i (omega arith), in_segs-ext k (i + 1) segs segs' j (λ n q. h n (omega arith))) refl

cleared_elsewhere :
    (held : Bool) (segs : ℕ → Seg) (i n : ℕ)
    → i + 1 ≤ n
    → (if held then update segs i (record (segs i) { phys_base = 0; num_pages = 0 }) else segs) n
      ≡ segs n
cleared_elsewhere true segs i n h = ground arith
cleared_elsewhere false segs i n h = refl

both_freed :
    (rest one used : Bool)
    → (if rest then false else if one then false else used) ≡ (if one || rest then false else used)
both_freed true true used = refl
both_freed true false used = refl
both_freed false true used = refl
both_freed false false used = refl

pmm_test-free_segs :
    (k i : ℕ) (p : Pmm) (segs : ℕ → Seg) (j : ℕ)
    → ((n : ℕ) → i ≤ n → n < i + k → (segs n).phys_base ≢ u64_mod - 1)
    → pmm_test (free_segs k i p segs).0 j ≡ (if in_segs k i segs j then false else pmm_test p j)
unfolding free_segs
pmm_test-free_segs zero i p segs j real = refl
pmm_test-free_segs (suc k) i p segs j real =
    let seg = segs i in
    let held = not (seg.phys_base == 0) && not (seg.num_pages == 0) in
    let p1 = if held then pmm_free_frames p seg.phys_base seg.num_pages else p in
    let segs1 =
      if held then update segs i (record seg { phys_base = 0; num_pages = 0 }) else segs in
    let same : (n : ℕ) → i + 1 ≤ n → segs1 n ≡ segs n = λ n q. cleared_elsewhere held segs i n q in
    let rest = pmm_test-free_segs k (i + 1) p1 segs1 j (λ n q r e.
      real n (omega arith) (omega arith) (ap (λ x. x.phys_base) (sym (same n q)) ∙ e)) in
    let others = in_segs-ext k (i + 1) segs1 segs j same in
    let one = free_one p seg.phys_base seg.num_pages j (real i (omega arith) (omega arith)) in
    rest
    ∙ rw (others, one) (both_freed (in_segs k (i + 1) segs j) (frames_of_seg seg j) (pmm_test p j))

-- For an image whose runs have no address (phys_addr_t)-1: elf64_free makes the frames of the image's
-- segments and of its stack free and keeps every other frame as it was, and leaves an image without
-- segments and without a stack; a segment or a stack at address 0, or of no pages, is passed over.
pub elf64_free-frees :
    (p : Pmm) (img : Image) (j : ℕ)
    → Real img.nseg img.segs
    → img.stack_phys ≢ u64_mod - 1
    → (pmm_test (elf64_free p img).0 j
        ≡ (if in_segs img.nseg 0 img.segs j || frames_of_stack img j then false else pmm_test p j))
      × ((elf64_free p img).1.nseg ≡ 0)
      × (((elf64_free p img).1.stack_phys ≡ 0) ⊎ ((elf64_free p img).1.stack_pages ≡ 0))
unfolding elf64_free
elf64_free-frees p img j real stack =
    let (q, segs) = free_segs img.nseg 0 p img.segs in
    let after = pmm_test-free_segs img.nseg 0 p img.segs j (λ n h h'. real n (omega arith)) in
    elim (Bool-cases (not (img.stack_phys == 0) && not (img.stack_pages == 0))) [
      | inl e ↦
          let freed =
            (pmm_free_frames-frees q img.stack_phys img.stack_pages (λ z. ground arith) stack).0
              j in
          rw e (
            freed
                ∙ rw after (
                    both_freed (inside (img.stack_phys / page_size) img.stack_pages j)
                      (in_segs img.nseg 0 img.segs j) (pmm_test p j)),
            refl,
            inl refl,
          )
      | inr e ↦ rw e (
        after ∙ both_freed false (in_segs img.nseg 0 img.segs j) (pmm_test p j),
        refl,
        ground arith,
      )
    ]
