-- ===== src/Km/Serve.antt =====
-- MemoryControl.c, kmalloc on the whole heap.
use fexox_os.Base.{
  ℕ, suc, ◌+◌, ◌*◌, ◌≤◌, ◌<◌, ◌≡◌, refl, ◌∙◌, sym, Bool, true, false, Option, none, some, ◌||◌,
  arith, ◌==◌, if◌then◌else◌, inl, inr, Bool-cases, u64_mod, page_size,
}
use fexox_os.Base.Int.{ℤ, negsuc}
use fexox_os.Pmm.{align_up}
use fexox_os.Pmm.Align.{IsAlignment, align_up-RoundsUp}
use fexox_os.Km.{Ptr, Heap, header_size, km_find_best}
use fexox_os.Km.Expand.{KernelMemory, km_expand, granted, retry, kmalloc}
use fexox_os.Km.Layout.{SameLayout-IsLayout}
use fexox_os.Km.Whole.{IsHeap, in_use, SameUse, SameLinks-IsLinked}
use fexox_os.Km.Allot.{Allotted}
use fexox_os.Km.Walk.{Searched, too_small, best, km_find_best-Searched}
use fexox_os.Km.Grow.{Grown}
use fexox_os.Km.Pages.{Expanded, endless, no_memory, grew, km_expand-Expanded}

-- `g` is a heap in which `b` is a new block in use, as large as the request; the others in use are
-- those of `h`, as large as before.
pub record Served (h : Heap) (held : Ptr → Bool) (base : ℕ) (b size : ℕ) (g : Heap) : Type 0 where
  pub kept : Ptr → Bool
  pub heap : IsHeap g kept base
  pub was_free : in_use h held b ≡ false
  pub uses : (x : Ptr) → in_use g kept x ≡ (in_use h held x || x == b)
  pub sizes : (x : Ptr) → in_use h held x ≡ true → (g.blocks x).size ≡ (h.blocks x).size
  pub fits : size ≤ (g.blocks b).size

-- how kmalloc ends
pub data Kmalloced (m : KernelMemory) (held : Ptr → Bool) (base size : ℕ)
    : Option (Ptr × KernelMemory) → Type 0 where
  nothing : size ≡ 0 → Kmalloced m held base size (some (0, m))
  exhausted :
      {k : ℕ} {m' : KernelMemory}
      → km_expand m (align_up size 16) ≡ some (negsuc k, m')
      → m'.heap ≡ m.heap
      → ((x : Ptr)
          → held x ≡ true
          → (m.heap.blocks x).free ≡ true
          → (m.heap.blocks x).size < size + 16)
      → Kmalloced m held base size (some (0, m'))
  serves :
      {b : Ptr} {m' : KernelMemory}
      → Served (m.heap) held base b size (m'.heap)
      → Kmalloced m held base size (some (b + header_size, m'))
  unfinished : km_expand m (align_up size 16) ≡ none → Kmalloced m held base size none

-- the number of bytes in use has no bearing on the heap
used-IsHeap :
    (h : Heap) (held : Ptr → Bool) (base used : ℕ)
    → IsHeap h held base
    → IsHeap (record h { heap_used = used }) held base
used-IsHeap h held base used v =
    let g = record h { heap_used = used } in
    record {
      layout =
          SameLayout-IsLayout h g held base
            (record { ends = refl; lasts = refl; sizes = λ a. refl; prevs = λ a. refl }) v.layout;
      high = v.high;
      starts = v.starts;
      empty = v.empty;
      on = v.on;
      rank = v.rank;
      top = v.top;
      links =
          SameLinks-IsLinked h g v.on v.rank v.top
            (record {
              lists = λ c. refl;
              nexts = λ x p. refl;
              prevs = λ x p. refl;
              sizes = λ x p. refl;
            })
            v.links;
      listed = v.listed;
    }

-- a block that was taken from a heap with the same blocks in use
granted-Served :
    (h g k : Heap) (held mid : Ptr → Bool) (base b size req used : ℕ)
    → SameUse h held g mid
    → size ≤ req
    → Allotted g mid base b req k
    → Served h held base b size (record k { heap_used = used })
granted-Served h g k held mid base b size req used s le a = record {
  kept = a.kept;
  heap = used-IsHeap k a.kept base used a.heap;
  was_free = sym (s.uses b) ∙ a.was_free;
  uses = λ x. ground (arith, a.uses x, s.uses x);
  sizes = λ x p. a.sizes x (s.uses x ∙ p) ∙ s.sizes x p;
  fits = omega (arith, a.fits, le);
}

module _ (fuel : ℕ) (m : KernelMemory) (held : Ptr → Bool) (base size : ℕ)
    (v : IsHeap (m.heap) held base) (enough : v.top + 3 ≤ fuel)
    (small : m.heap.heap_end + size + 3 * page_size ≤ u64_mod) (some_bytes : 0 < size) where
  abbrev req : ℕ
  req = align_up size 16

  rounded : (size ≤ req) × (req < size + 16)
  rounded =
      let a : IsAlignment 16 = record { log = 4; power = refl } in
      let up = align_up-RoundsUp size 16 a (omega arith) (omega arith) in (up.above, up.near)

  given :
      (w : KernelMemory) (mid : Ptr → Bool) (b : Ptr) (g : Heap) (used : ℕ)
      → SameUse (m.heap) held (w.heap) mid
      → Allotted (w.heap) mid base b req g
      → Kmalloced m held base size
          (some (b + header_size, record w { heap = record g { heap_used = used } }))
  given w mid b g used s a =
      serves (granted-Served m.heap w.heap g held mid base b size req used s rounded.0 a)

  no_retry :
      (w : KernelMemory) (r : Option (Ptr × Heap))
      → Kmalloced m held base size (some (0, w))
      → Kmalloced m held base size (elim r [ none ↦ some (0, w) | some found ↦ some (0, w) ])
  no_retry w none k = k
  no_retry w (some found) k = k

  -- what is found in the heap that has grown
  found_there :
      (w : KernelMemory) (r : Option (Ptr × Heap)) (top bytes : ℕ)
      (gr : Grown (m.heap) held base top bytes (w.heap))
      → req ≤ bytes
      → Searched (w.heap) (gr.kept) base req r
      → Kmalloced m held base size (elim r [ none ↦ none | some found ↦ some (granted w found) ])
  found_there w r top bytes gr le (too_small unfit) =
      let (there, free, big) = gr.fresh in
      absurd (unfit m.heap.heap_end there (free, omega (arith, le, big)))
  found_there w r top bytes gr le (best {b} {g} some_b p f least a) =
      let there : (b == 0) ≡ false = ground (arith, some_b) in
      rw there (given w gr.kept b g _ gr.same a)

  expanded :
      (r : Option (ℤ × KernelMemory))
      → ((x : Ptr)
          → held x ≡ true
          → (m.heap.blocks x).free ≡ true
          → (m.heap.blocks x).size < size + 16)
      → km_expand m req ≡ r
      → Expanded m held base (suc (v.top)) req r
      → Kmalloced m held base size (elim r [ none ↦ none | some x ↦ retry fuel req x ])
  unfolding retry
  expanded r unfit e endless = unfinished e
  expanded r unfit e (no_memory {m' = w} same) =
      no_retry w (km_find_best fuel w.heap req) (exhausted e same unfit)
  expanded r unfit e (grew {m' = w} {size = bytes} le gr) =
      found_there w (km_find_best fuel w.heap req) (suc v.top) bytes gr le (
        km_find_best-Searched fuel w.heap gr.kept base req gr.heap
          (omega (arith, enough, gr.longest)) (omega (arith, rounded)))

  searched :
      (r : Option (Ptr × Heap))
      → Searched (m.heap) held base req r
      → Kmalloced m held base size (elim r [
        | none ↦ none
        | some (b, h) ↦
            if b == 0
            then elim (km_expand m req) [ none ↦ none | some x ↦ retry fuel req x ]
            else some (granted m (b, h))
      ])
  searched r (too_small unfit) =
      expanded (km_expand m req) (λ x p f. ground (arith, unfit x p, f, rounded)) refl
        (km_expand-Expanded m held base v req (omega (arith, small, rounded)))
  searched r (best {b} {g} some_b p f least a) =
      let there : (b == 0) ≡ false = ground (arith, some_b) in
      rw there (given m held b g _ (record { uses = λ x. refl; sizes = λ x q. refl }) a)

-- On a heap whose blocks fill it and whose free blocks are those of the doubly linked free lists, each
-- on the list of its class, with room for the request and three pages between its end and that of the
-- address space, and with fuel for its longest list: kmalloc of 0 bytes returns NULL. Of any other
-- size, it returns the address behind the header of a block that was not in use, is as large as the
-- request, and is in use afterwards, with all other blocks in use as before and a heap of that kind; or
-- it returns NULL and leaves the heap alone, where km_expand has failed and every free block is
-- smaller than the request and 16 bytes. It returns in each case where km_expand does.
pub kmalloc-Kmalloced :
    (fuel : ℕ) (m : KernelMemory) (held : Ptr → Bool) (base size : ℕ)
    (v : IsHeap (m.heap) held base)
    → v.top + 3 ≤ fuel
    → m.heap.heap_end + size + 3 * page_size ≤ u64_mod
    → Kmalloced m held base size (kmalloc fuel m size)
unfolding kmalloc
kmalloc-Kmalloced fuel m held base size v enough small = elim (Bool-cases (size == 0)) [
  | inl e ↦ rw e (nothing (ground (arith, e)))
  | inr e ↦
      let some_heap : (m.heap.heap_end == 0) ≡ false = ground (arith, v.starts, v.high) in
      rw (e, some_heap)
        (searched fuel m held base size v enough small (ground (arith, e))
          (km_find_best fuel m.heap (align_up size 16))
          (km_find_best-Searched fuel m.heap held base (align_up size 16) v (omega arith) (
            omega
              (arith, rounded fuel m held base size v enough small (ground (arith, e)), small))))
]
