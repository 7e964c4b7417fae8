-- ===== src/Km/Grow.antt =====
-- MemoryControl.c, km_expand: the heap grows by a free block at its end.
use fexox_os.Base.{ℕ, suc, ◌+◌, ◌*◌, ◌-◌, ◌≤◌, ◌<◌, ◌≡◌, ◌∙◌, Bool, true, arith, u64_mod, page_size}
use fexox_os.Km.{Ptr, Heap, header_size}
use fexox_os.Km.Expand.{add_block}
use fexox_os.Km.Links.{km_insert_free-Relinked, km_insert_free_flag}
use fexox_os.Km.Split.{with_block}
use fexox_os.Km.Whole.{IsHeap, SameUse, SameUse-trans, insert-IsHeap, insert-SameUse}
use fexox_os.Km.Extend.{extended, add_block-extended, extended-IsLoose, extended-SameUse}

-- The heap has grown by a free block of `size` bytes, and the blocks in use are those of before. The
-- free lists are as long as `top` says at most.
pub record Grown (h : Heap) (held : Ptr → Bool) (base top size : ℕ) (g : Heap) : Type 0 where
  pub kept : Ptr → Bool
  pub heap : IsHeap g kept base
  pub same : SameUse h held g kept
  pub longest : heap.top ≤ top
  pub fresh :
      (kept h.heap_end ≡ true)
      × ((g.blocks h.heap_end).free ≡ true)
      × ((g.blocks h.heap_end).size ≡ size)

-- As long as its end stays in the address space, a heap whose blocks fill it and whose free blocks are
-- those of the free lists is still one with new pages at its end, as one free block, and the blocks
-- in use are the same.
pub add_block-Grown :
    (h : Heap) (held : Ptr → Bool) (base pages : ℕ) (v : IsHeap h held base)
    → 0 < pages
    → h.heap_end + pages * page_size + 16 ≤ u64_mod
    → Grown h held base (suc v.top) (pages * page_size - header_size) (add_block h pages)
add_block-Grown h held base pages v pos small =
    let same = add_block-extended h pages in
    let (loose, top) = extended-IsLoose h held base v pages pos small in
    let kept = with_block held h.heap_end in
    let g = extended h pages in
    let (heap, higher) = insert-IsHeap g kept base h.heap_end loose in
    let links = km_insert_free-Relinked g h.heap_end in
    rw same (record {
      kept = kept;
      heap = heap;
      same =
          SameUse-trans (extended-SameUse h held base v pages pos small)
            (insert-SameUse g kept h.heap_end loose.free);
      longest = omega (arith, top, higher);
      fresh = (
        ground arith,
        km_insert_free_flag g h.heap_end,
        links.same.sizes h.heap_end ∙ ground arith,
      );
    })
