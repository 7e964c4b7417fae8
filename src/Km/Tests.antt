-- ===== src/Km/Tests.antt =====
-- Runs of the heap's code on one page, and the theorems at concrete inputs.
use fexox_os.Base.{
  ℕ, zero, suc, update, ◌+◌, ◌≤◌, ◌^◌, ◌<◌, ◌≡◌, refl, Bool, true, false, ◌&&◌, ◌||◌, Option, none,
  some, arith, ◌==◌, if◌then◌else◌,
}
use fexox_os.Pmm.{
  Pmm, align_up, pmm_alloc_frame, pmm_alloc_frames, pmm_find_next_zero, run_is_free, take_run,
  pmm_test,
}
use fexox_os.Vmm.{direct_map_offset, vmm_map, frame_of, put_entry, clear_words, with_words}
use fexox_os.Vmm.Tree.{Owner}
use fexox_os.Km.{
  Ptr, Heap, header_size, block_behind, km_size_class, km_find_best, kfree, kmalloc_init,
}
use fexox_os.Km.Expand.{KernelMemory, km_expand, kmalloc}
use fexox_os.Km.Lists.{IsLinked}
use fexox_os.Km.Whole.{IsHeap}
use fexox_os.Km.Release.{Released, kfree-Released}
use fexox_os.Km.Paged.{Paged}
use fexox_os.Km.Walk.{Searched, km_find_best-Searched}
use fexox_os.Km.Reach.{
  Clients, Steps, gives, frees, here, after, IsServing, started, heap_start, reachable-IsServing,
}
use fexox_os.Km.Layout.{IsLayout}

abbrev base : ℕ
base = direct_map_offset + 2 ^ 32

-- a block of 1000 bytes in use, and the rest of the page in a free one
abbrev page_heap : Heap
page_heap = record {
  blocks = λ p.
      if p == base
      then record { size = 1000; free = false; next = 0; prev = 0; phys_prev = 0 }
      else record { size = 3016; free = true; next = 0; prev = 0; phys_prev = base };
  free_lists = λ c. if c == 8 then base + 1040 else 0;
  heap_end = base + 4096;
  heap_used = 1040;
  last_block = base + 1040;
}

abbrev page_held : Ptr → Bool
page_held p = p == base || p == base + 1040

page_heap-IsLayout : IsLayout page_heap page_held base
page_heap-IsLayout = record {
  small = omega arith;
  inside = λ a p. ground (arith, p);
  next = λ a p q. ground (arith, p, q);
  prev = λ a p q. ground (arith, p, q);
  first = λ a p q. ground (arith, p, q);
  last = λ p. ground arith;
  apart = λ a b p q l. ground (arith, p, q, l);
}

class_3016 : km_size_class 3016 ≡ 8
unfolding km_size_class align_up
class_3016 = refl

page_next : (p : Ptr) → (page_heap.blocks p).next ≡ 0
page_next p = ground arith

abbrev found_at : Option (Ptr × Heap) → Ptr
found_at none = 0
found_at (some (b, h)) = b

found_rest : found_at (km_find_best 9 page_heap 96) ≡ base + 1040
unfolding km_find_best align_up
found_rest = refl

page_links : IsLinked page_heap (λ x. x == base + 1040) (λ x. 0) 0
page_links = record {
  null_off = ground arith;
  heads =
      λ c ne. let e : c ≡ 8 = ground (arith, ne) in rw e (ground arith, class_3016, ground arith);
  nexts = λ x p q. absurd (q (page_next x));
  prevs = λ x p q. absurd (ground (arith, q));
  firsts = λ x p q. let e : x ≡ base + 1040 = ground (arith, p) in rw (e, class_3016) refl;
  ranks = λ x p. omega arith;
}

page_heap-IsHeap : IsHeap page_heap page_held base
page_heap-IsHeap = record {
  layout = page_heap-IsLayout;
  high = omega arith;
  starts = omega arith;
  empty = λ e. absurd (omega (arith, e));
  on = λ x. x == base + 1040;
  rank = λ x. 0;
  top = 0;
  links = page_links;
  listed = λ x. ground arith;
}

kfree-Released_example :
    Released page_heap page_held base base (kfree page_heap (base + header_size))
kfree-Released_example = kfree-Released page_heap page_held base base page_heap-IsHeap refl

km_find_best-Searched_example : Searched page_heap page_held base 96 (km_find_best 9 page_heap 96)
unfolding page_heap-IsHeap
km_find_best-Searched_example =
    km_find_best-Searched 9 page_heap page_held base 96 page_heap-IsHeap (omega arith) (omega arith)

-- a machine with 64 frames, of which the root table takes the first and the bitmap the second
abbrev machine : Heap → KernelMemory
machine h = record {
  vmm = record {
    pmm = record {
      words = λ w b. w == 0 && (b == 0 || b == 1);
      total_frames = 64;
      free_frames = 62;
      num_words = 1;
      bitmap_phys = 4096;
      bitmap_pages = 1;
    };
    tables = λ f i b. false;
    pml4 = 0;
    active = true;
  };
  heap = h;
}

abbrev table_owner : Owner
table_owner f = if f == 0 then some (3, 0) else none

abbrev machine_pmm : Pmm
machine_pmm = (machine page_heap).vmm.pmm

abbrev pointer : Option (Ptr × KernelMemory) → Ptr
pointer none = 1
pointer (some (p, m)) = p

abbrev memory_of : Option (Ptr × KernelMemory) → KernelMemory
memory_of none = machine page_heap
memory_of (some (p, m)) = m

abbrev fresh : KernelMemory
fresh = (started (machine page_heap)).memory

-- the memory after a first kmalloc, which maps two pages
abbrev one_block : KernelMemory
one_block = memory_of (kmalloc 2 fresh 5000)

first_block :
    (k : ℕ) → kmalloc (suc (suc k)) fresh 5000 ≡ some (heap_start + header_size, one_block)
unfolding kmalloc km_expand vmm_map km_find_best align_up pmm_alloc_frames pmm_alloc_frame
    pmm_find_next_zero run_is_free take_run pmm_test frame_of kmalloc_init put_entry clear_words
    with_words
first_block k = refl

first_returns :
    (fuel : ℕ) → 2 ≤ fuel → kmalloc fuel fresh 5000 ≡ some (heap_start + header_size, one_block)
first_returns zero h = absurd (omega arith)
first_returns (suc zero) h = absurd (omega arith)
first_returns (suc (suc k)) h = first_block k

-- 5000 bytes are given, and the bytes are freed
abbrev after_gift : Clients
after_gift = record { memory = one_block; live = update (λ x. false) heap_start true }

abbrev after_free : Clients
after_free = record {
  memory = record one_block { heap = kfree one_block.heap (heap_start + header_size) };
  live = update after_gift.live heap_start false;
}

gift_and_free : Steps (started (machine page_heap)) after_free
unfolding kmalloc_init
gift_and_free =
    after (gives 5000 heap_start one_block (omega arith) (2, first_returns))
      (after (frees heap_start refl) here)

reachable-IsServing_example :
    IsServing heap_start after_free
    × ((x y : Ptr)
        → after_free.live x ≡ true
        → after_free.live y ≡ true
        → x < y
        → block_behind after_free.memory.heap x ≤ y)
reachable-IsServing_example = reachable-IsServing (machine page_heap) after_free gift_and_free
