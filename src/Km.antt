-- ===== src/Km.antt =====
-- MemoryControl.c, the kernel heap: blocks with headers that lie one behind the other, and the free
-- ones in lists by size class. A block is known by the address of its header, and `blocks` reads
-- memory as headers. Pointers do not wrap; numbers of type size_t do. The locks and the debug
-- output have no counterpart.
pub mod Expand
pub mod Layout
pub mod Links
pub mod Lists
pub mod Insert
pub mod Whole
pub mod Release
pub mod Remainder
pub mod Allot
pub mod Free
pub mod Split
pub mod Take
pub mod Classes
pub mod Search
pub mod Find
pub mod Walk
pub mod Extend
pub mod Grow
pub mod Mapping
pub mod Pages
pub mod Paged
pub mod Serve
pub mod Total
pub mod Reach
pub mod Boot
mod Tests
use fexox_os.Base.{
  ℕ, zero, suc, ◌+◌, ◌*◌, ◌-◌, ◌/◌, ◌%◌, ◌^◌, Bool, true, false, ◌&&◌, ◌||◌, not, Option, none,
  some, ltb, leb, ◌==◌, if◌then◌else◌, update, add64, sub64, u64_mod, page_size,
}
use fexox_os.Pmm.{align_up}
use fexox_os.Vmm.{direct_map_offset}

abbrev pub Ptr : Type 0
Ptr = ℕ

-- `km_block_t`
pub record Block : Type 0 where
  pub size : ℕ
  pub free : Bool
  pub next : Ptr
  pub prev : Ptr
  pub phys_prev : Ptr

-- `km_ctx_t` with the memory that the headers lie in
pub record Heap : Type 0 where
  pub blocks : Ptr → Block
  pub free_lists : ℕ → Ptr
  pub heap_end : ℕ
  pub heap_used : ℕ
  pub last_block : Ptr

-- sizeof(km_block_t)
abbrev pub header_size : ℕ
header_size = 40

abbrev pub km_min_size : ℕ
km_min_size = 16

abbrev pub km_size_classes : ℕ
km_size_classes = 12

abbrev pub km_class_size : ℕ → ℕ
km_class_size c = km_min_size * 2 ^ c

-- the `while`, which has at most `k` rounds left before `c` is the last class
unfoldable pub class_loop : (k a c : ℕ) → ℕ
class_loop zero a c = c
class_loop (suc k) a c =
    let rest = class_loop k a (c + 1) in if ltb (km_class_size c) a then rest else c

unfoldable pub km_size_class : ℕ → ℕ
unfolding class_loop
km_size_class sz =
    if leb sz km_min_size then 0 else class_loop (km_size_classes - 1) (align_up sz km_min_size) 0

abbrev pub write : Heap → Ptr → Block → Heap
write h p b = record h { blocks = update h.blocks p b }

-- the block that follows in memory
abbrev pub block_behind : Heap → Ptr → Ptr
block_behind h p = p + header_size + (h.blocks p).size

unfoldable pub km_insert_free : Heap → Ptr → Heap
unfolding km_size_class
km_insert_free h b =
    let c = km_size_class (h.blocks b).size in
    let head = h.free_lists c in
    let h1 = write h b (record (h.blocks b) { free = true; next = head; prev = 0 }) in
    let h2 = if head == 0 then h1 else write h1 head (record (h1.blocks head) { prev = b }) in
    record h2 { free_lists = update h.free_lists c b }

-- the part of km_list_unlink that takes the way to `b` past it
unfoldable pub bypass : Heap → Ptr → Heap
unfolding km_size_class
bypass h b =
    let blk = h.blocks b in
    let c = km_size_class blk.size in
    if blk.prev == 0
    then (if h.free_lists c == b
        then record h { free_lists = update h.free_lists c blk.next }
        else h)
    else write h blk.prev (record (h.blocks blk.prev) { next = blk.next })

unfoldable pub km_list_unlink : Heap → Ptr → Heap
unfolding bypass
km_list_unlink h b =
    let h1 = bypass h b in
    let blk = h1.blocks b in
    let h2 =
      if blk.next == 0
      then h1
      else write h1 blk.next (record (h1.blocks blk.next) { prev = blk.prev }) in
    write h2 b (record (h2.blocks b) { next = 0; prev = 0 })

-- the best block so far, 0 if there is none, and what it has beyond the request
pub record Best : Type 0 where
  pub block : Ptr
  pub diff : ℕ

pub data BestScan : Type 0 where
  exact : Ptr → BestScan
  so_far : Best → BestScan
  endless : BestScan

-- the `while` over one list, on fuel
unfoldable pub scan_list : (fuel : ℕ) → Heap → (req : ℕ) → Ptr → Best → BestScan
scan_list zero h req b best = endless
scan_list (suc k) h req b best =
    let blk = h.blocks b in
    let diff = blk.size - req in
    let better : Best = if ltb diff best.diff then record { block = b; diff = diff } else best in
    let with_better = scan_list k h req blk.next better in
    let with_same = scan_list k h req blk.next best in
    if b == 0 || ltb b direct_map_offset
    then so_far best
    else if blk.free && leb req blk.size
    then (if diff == 0 then exact better.block else with_better)
    else with_same

-- the `for` over the classes from `i` on, `k` of them
unfoldable pub scan_classes : (k fuel : ℕ) → Heap → (req i : ℕ) → Best → BestScan
unfolding scan_list
scan_classes zero fuel h req i best = so_far best
scan_classes (suc k) fuel h req i best = elim (scan_list fuel h req (h.free_lists i) best) [
  | exact b ↦ exact b
  | endless ↦ endless
  | so_far b ↦ scan_classes k fuel h req (i + 1) b
]

-- the header of what remains of a block behind its first `req` bytes, and what knows of it
unfoldable pub lay_rest : Heap → Ptr → (req : ℕ) → Heap
lay_rest h best req =
    let orig_size = (h.blocks best).size in
    let rem = best + header_size + req in
    let rest : Block = record {
      size = orig_size - header_size - req;
      free = true;
      next = 0;
      prev = 0;
      phys_prev = best;
    } in
    let h1 = write h rem rest in
    let old_next = best + header_size + orig_size in
    if ltb old_next h.heap_end
    then write h1 old_next (record (h1.blocks old_next) { phys_prev = rem })
    else record h1 { last_block = rem }

-- the remainder enters its list, and the block shrinks
unfoldable pub split_block : Heap → Ptr → (req : ℕ) → Heap
unfolding km_size_class lay_rest
split_block h best req =
    let rem = best + header_size + req in
    let h2 = lay_rest h best req in
    let c = km_size_class (h2.blocks rem).size in
    let head = h2.free_lists c in
    let h3 = write h2 rem (record (h2.blocks rem) { next = head }) in
    let h4 = if head == 0 then h3 else write h3 head (record (h3.blocks head) { prev = rem }) in
    let h5 = record h4 { free_lists = update h4.free_lists c rem } in
    write h5 best (record (h5.blocks best) { size = req })

-- km_find_best from its label `found` on
unfoldable pub take_block : Heap → Ptr → (req : ℕ) → Heap
unfolding km_list_unlink split_block
take_block h best req =
    let h1 = km_list_unlink h best in
    let h2 =
      if leb (add64 (add64 req header_size) km_min_size) (h1.blocks best).size
      then split_block h1 best req
      else h1 in
    write h2 best (record (h2.blocks best) { free = false; next = 0; prev = 0 })

-- 0 is NULL; `none` is the fuel running out.
unfoldable pub km_find_best : (fuel : ℕ) → Heap → (req : ℕ) → Option (Ptr × Heap)
unfolding scan_classes take_block
km_find_best fuel h req =
    let c = km_size_class req in
    let start : Best = record { block = 0; diff = u64_mod - 1 } in
    elim (scan_classes (km_size_classes - c) fuel h req c start) [
      | endless ↦ none
      | exact b ↦ some (b, take_block h b req)
      | so_far b ↦ if b.block == 0 then some (0, h) else some (b.block, take_block h b.block req)
    ]

-- Both merges of kfree: the block `b` behind `a` becomes part of `a`.
unfoldable pub merge : Heap → (a b : Ptr) → Heap
merge h a b =
    let size = (h.blocks b).size in
    let blk = h.blocks a in
    let h1 = write h a (record blk { size = add64 blk.size (add64 header_size size) }) in
    let after = b + header_size + (h1.blocks b).size in
    if ltb after h1.heap_end
    then write h1 after (record (h1.blocks after) { phys_prev = a })
    else record h1 { last_block = a }

unfoldable pub merge_next : Heap → Ptr → Heap
unfolding merge km_list_unlink
merge_next h b =
    let next = block_behind h b in
    if ltb next h.heap_end && (h.blocks next).free then merge (km_list_unlink h next) b next else h

-- the block that the freed one is part of afterwards, with the heap
unfoldable pub merge_prev : Heap → Ptr → Ptr × Heap
unfolding merge km_list_unlink
merge_prev h b =
    let prev = (h.blocks b).phys_prev in
    if not (prev == 0) && (h.blocks prev).free
    then (prev, merge (km_list_unlink h prev) prev b)
    else (b, h)

-- kfree once it has the header
unfoldable pub free_block : Heap → Ptr → Heap
unfolding merge_next merge_prev km_insert_free
free_block h b =
    let blk = h.blocks b in
    let h1 = record (write h b (record blk { free = true })) {
      heap_used = sub64 h.heap_used (add64 blk.size header_size);
    } in
    let h2 = merge_next h1 b in
    let (merged, h3) = merge_prev h2 b in if blk.free then h else km_insert_free h3 merged

unfoldable pub kfree : Heap → Ptr → Heap
unfolding free_block
kfree h ptr = if ptr == 0 then h else free_block h (ptr - header_size)

-- after kmemset with the start of the heap behind the direct map
unfoldable pub kmalloc_init : Heap → Heap
kmalloc_init h = record {
  blocks = h.blocks;
  free_lists = λ c. 0;
  heap_end = direct_map_offset + 4 * 2 ^ 30;
  heap_used = 0;
  last_block = 0;
}
