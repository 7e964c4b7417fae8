-- ===== src/Pmm.antt =====
-- MemoryControl.c, the physical memory manager: the frame bitmap, the searches over it, and the
-- allocation and release of frames. A set bit is a used frame.
-- A word of the bitmap is the function of its 64 bits. `words` is the memory from g_pmm.words on,
-- so an index past the bitmap reads and writes what lies behind it, as in the source.
-- The spinlock of this file does nothing, and has no counterpart here.
pub mod NextZero
pub mod Align
pub mod Runs
pub mod Alloc
pub mod Above
pub mod Single
pub mod Release
pub mod Boot
pub mod Skip
mod Tests
use fexox_os.Base.{
  ℕ, zero, suc, ◌+◌, ◌-◌, ◌*◌, ◌/◌, ◌%◌, Bool, true, false, Option, none, some, ◌&&◌, ◌||◌, not,
  bit_and, ltb, leb, ◌==◌, if◌then◌else◌, add64, sub64, not64, u64_mod, page_size,
}

abbrev pub Word : Type 0
Word = ℕ → Bool

-- `pmm_t`
pub record Pmm : Type 0 where
  pub words : ℕ → Word
  pub total_frames : ℕ
  pub free_frames : ℕ
  pub num_words : ℕ
  pub bitmap_phys : ℕ
  pub bitmap_pages : ℕ

-- WORD_IDX and BIT_IDX
abbrev pub word_idx : ℕ → ℕ
word_idx idx = idx / 64

abbrev pub bit_idx : ℕ → ℕ
bit_idx idx = idx % 64

unfoldable pub pmm_test : Pmm → ℕ → Bool
pmm_test p idx = p.words (word_idx idx) (bit_idx idx)

abbrev pub write_bit : (ℕ → Word) → ℕ → ℕ → Bool → ℕ → Word
write_bit words w b v w' b' = if w' == w && b' == b then v else words w' b'

unfoldable pub pmm_set : Pmm → ℕ → Pmm
pmm_set p idx = record p { words = write_bit p.words (word_idx idx) (bit_idx idx) true }

unfoldable pub pmm_clear : Pmm → ℕ → Pmm
pmm_clear p idx = record p { words = write_bit p.words (word_idx idx) (bit_idx idx) false }

-- `ctz64(v)`, over the `k` bits from `pos` on; `none` if no bit is set there, the case that the
-- caller's `val != ~0ULL` rules out.
unfoldable pub ctz64 : (k pos : ℕ) → Word → Option ℕ
ctz64 zero pos v = none
ctz64 (suc k) pos v = let rest = ctz64 k (pos + 1) v in if v pos then some pos else rest

-- ~(words[w] | skip_mask), where skip_mask has the lowest `skip` bits set
unfoldable pub candidates : Pmm → (w skip : ℕ) → Word
candidates p w skip b = not (p.words w b || ltb b skip)

-- The `for` over the words, `k` rounds from `w` on. The mask is dropped after the first round.
unfoldable pub next_zero_loop : (k : ℕ) → Pmm → (w skip limit : ℕ) → Option ℕ
next_zero_loop zero p w skip limit = none
next_zero_loop (suc k) p w skip limit =
    let rest = next_zero_loop k p (w + 1) 0 limit in
    elim (ctz64 64 0 (candidates p w skip)) [
      | none ↦ rest
      | some bit ↦ if ltb (w * 64 + bit) limit then some (w * 64 + bit) else rest
    ]

-- `none` is (size_t)-1.
unfoldable pub pmm_find_next_zero : Pmm → (start limit : ℕ) → Option ℕ
unfolding next_zero_loop ctz64 candidates
pmm_find_next_zero p start limit =
    let w_start = word_idx start in
    let w_limit = word_idx (sub64 limit 1) + 1 in
    next_zero_loop (w_limit - w_start) p w_start (start % 64) limit

-- `(x + align - 1) & ~(align - 1)`
unfoldable pub align_up : (x align : ℕ) → ℕ
align_up x align = bit_and (sub64 (add64 x align) 1) (not64 (sub64 align 1))

-- the inner `for` that tests `count` frames from `i` on
unfoldable pub run_is_free : (count : ℕ) → Pmm → (i : ℕ) → Bool
run_is_free zero p i = true
run_is_free (suc n) p i = let rest = run_is_free n p (i + 1) in if pmm_test p i then false else rest

-- the inner `for` that takes them
unfoldable pub set_run : (count : ℕ) → Pmm → (i : ℕ) → Pmm
set_run zero p i = p
set_run (suc n) p i = set_run n (pmm_set p i) (i + 1)

-- How a search over the bitmap ends: `absent` is (size_t)-1.
pub data Search : Type 0 where
  found : ℕ → Pmm → Search
  absent : Search
  out_of_fuel : Search

unfoldable pub take_run : Pmm → (count i : ℕ) → Search
unfolding set_run pmm_set
take_run p count i =
    found i (record (set_run count p i) { free_frames = sub64 p.free_frames count })

-- The `while` of pmm_find_contiguous_zero. `idx` grows in every round but the one before the last.
unfoldable pub contiguous_loop : (fuel : ℕ) → Pmm → (count align idx : ℕ) → Search
contiguous_loop zero p count align idx = out_of_fuel
contiguous_loop (suc k) p count align idx =
    let limit = p.total_frames in
    elim (leb (add64 idx count) limit) [
      | false ↦ absent
      | true ↦ elim (pmm_find_next_zero p idx limit) [
        | none ↦ absent
        | some cand ↦
            let aligned = align_up cand align in
            elim (ltb limit (add64 aligned count)) [
              | true ↦ contiguous_loop k p count align aligned
              | false ↦ elim (run_is_free count p aligned) [
                | true ↦ take_run p count aligned
                | false ↦ contiguous_loop k p count align (add64 aligned count)
              ]
            ]
      ]
    ]

unfoldable pub pmm_find_contiguous_zero : Pmm → (count align : ℕ) → Search
unfolding contiguous_loop
pmm_find_contiguous_zero p count align = contiguous_loop (suc (suc p.total_frames)) p count align 0

-- What pmm_alloc_frames returns: an address, (phys_addr_t)-1, or the model's fuel running out.
pub data Allocation : Type 0 where
  address : ℕ → Pmm → Allocation
  failed : Allocation
  no_fuel : Allocation

abbrev pub to_address : Search → Allocation
to_address (found idx p) = address (idx * page_size % u64_mod) p
to_address absent = failed
to_address out_of_fuel = no_fuel

-- `align ? align : 1`
abbrev pub align_or_one : ℕ → ℕ
align_or_one align = if align == 0 then 1 else align

abbrev pub bad_request : (count align : ℕ) → Bool
bad_request count align = count == 0 || not (bit_and align (sub64 align 1) == 0)

unfoldable pub pmm_alloc_frames : Pmm → (count align : ℕ) → Allocation
unfolding pmm_find_contiguous_zero
pmm_alloc_frames p count align =
    if bad_request count align
    then failed
    else to_address (pmm_find_contiguous_zero p count (align_or_one align))

unfoldable pub pmm_alloc_frame : Pmm → Allocation
unfolding pmm_alloc_frames
pmm_alloc_frame p = pmm_alloc_frames p 1 1

-- The `while` of pmm_alloc_frames_above, which stops at a candidate too near the end.
unfoldable pub above_loop : (fuel : ℕ) → Pmm → (count align min_frame idx : ℕ) → Search
above_loop zero p count align min_frame idx = out_of_fuel
above_loop (suc k) p count align min_frame idx =
    let limit = p.total_frames in
    elim (leb (add64 idx count) limit) [
      | false ↦ absent
      | true ↦ elim (pmm_find_next_zero p idx limit) [
        | none ↦ absent
        | some cand ↦
            let raised = align_up cand align in
            let aligned = if ltb raised min_frame then align_up min_frame align else raised in
            elim (ltb limit (add64 aligned count)) [
              | true ↦ absent
              | false ↦ elim (run_is_free count p aligned) [
                | true ↦ take_run p count aligned
                | false ↦ above_loop k p count align min_frame (add64 aligned count)
              ]
            ]
      ]
    ]

unfoldable pub pmm_alloc_frames_above : Pmm → (count align min_phys : ℕ) → Allocation
unfolding above_loop
pmm_alloc_frames_above p count align min_phys =
    let min_frame = sub64 (add64 min_phys page_size) 1 / page_size in
    if bad_request count align
    then failed
    else to_address
        (above_loop (suc (suc p.total_frames)) p count (align_or_one align) min_frame min_frame)

-- the `for` of pmm_free_frames: a frame that is free already is not counted again
unfoldable pub free_run : (count : ℕ) → Pmm → (i : ℕ) → Pmm
free_run zero p i = p
free_run (suc n) p i =
    free_run n
      (if pmm_test p i then record (pmm_clear p i) { free_frames = add64 p.free_frames 1 } else p)
      (i + 1)

unfoldable pub pmm_free_frames : Pmm → (pa count : ℕ) → Pmm
unfolding free_run pmm_clear
pmm_free_frames p pa count =
    if pa == 0 || pa == u64_mod - 1 || count == 0 then p else free_run count p (pa / page_size)

unfoldable pub pmm_free_frame : Pmm → ℕ → Pmm
unfolding pmm_free_frames
pmm_free_frame p pa = pmm_free_frames p pa 1
