-- ===== src/Km/Links.antt =====
-- MemoryControl.c, the kernel heap: the free lists' links have no bearing on how the blocks lie.
use fexox_os.Base.{
  ℕ, ◌+◌, ◌≤◌, ◌≡◌, ◌≢◌, refl, ◌∙◌, Bool, true, false, arith, ltb, ◌==◌, if◌then◌else◌, add64,
}
use fexox_os.Km.{
  Ptr, Heap, header_size, write, block_behind, merge, bypass, km_list_unlink, km_insert_free,
  km_size_class,
}
use fexox_os.Km.Layout.{IsLayout, SameLayout, Merged}

-- Only links and the free flag of `b` differ.
pub record Relinked (h g : Heap) (b : Ptr) : Type 0 where
  pub same : SameLayout h g
  pub frees : (x : Ptr) → x ≢ b → (g.blocks x).free ≡ (h.blocks x).free

pub Relinked-refl : (h : Heap) (b : Ptr) → Relinked h h b
Relinked-refl h b = record {
  same = record { ends = refl; lasts = refl; sizes = λ a. refl; prevs = λ a. refl };
  frees = λ x ne. refl;
}

pub Relinked-trans : (f g h : Heap) (b : Ptr) → Relinked f g b → Relinked g h b → Relinked f h b
Relinked-trans f g h b r s = record {
  same = record {
    ends = s.same.ends ∙ r.same.ends;
    lasts = s.same.lasts ∙ r.same.lasts;
    sizes = λ a. s.same.sizes a ∙ r.same.sizes a;
    prevs = λ a. s.same.prevs a ∙ r.same.prevs a;
  };
  frees = λ x ne. s.frees x ne ∙ r.frees x ne;
}

-- a write of links, and of lists
pub link-Relinked :
    (h : Heap) (p : Ptr) (next prev : Ptr) (lists : ℕ → Ptr) (b : Ptr)
    → Relinked h
        (record (write h p (record (h.blocks p) { next = next; prev = prev })) {
          free_lists = lists;
        })
        b
link-Relinked h p next prev lists b = record {
  same = record { ends = refl; lasts = refl; sizes = λ a. ground arith; prevs = λ a. ground arith };
  frees = λ x ne. ground arith;
}

pub choose-Relinked :
    (t : Bool) (f g h : Heap) (b : Ptr)
    → Relinked f g b
    → Relinked f h b
    → Relinked f (if t then g else h) b
choose-Relinked true f g h b r s = r
choose-Relinked false f g h b r s = s

pub lists-Relinked :
    (h : Heap) (lists : ℕ → Ptr) (b : Ptr) → Relinked h (record h { free_lists = lists }) b
lists-Relinked h lists b = record {
  same = record { ends = refl; lasts = refl; sizes = λ a. refl; prevs = λ a. refl };
  frees = λ x ne. refl;
}

bypass-Relinked : (h : Heap) (b : Ptr) → Relinked h (bypass h b) b
unfolding bypass
bypass-Relinked h b =
    choose-Relinked ((h.blocks b).prev == 0) h _ _ b
      (choose-Relinked (h.free_lists (km_size_class (h.blocks b).size) == b) h _ h b
        (lists-Relinked h _ b) (Relinked-refl h b))
      (link-Relinked h (h.blocks b).prev (h.blocks b).next (h.blocks (h.blocks b).prev).prev
        h.free_lists b)

pub km_list_unlink-Relinked : (h : Heap) (b : Ptr) → Relinked h (km_list_unlink h b) b
unfolding km_list_unlink
km_list_unlink-Relinked h b =
    let h1 = bypass h b in
    let blk = h1.blocks b in
    let h2 =
      if blk.next == 0
      then h1
      else write h1 blk.next (record (h1.blocks blk.next) { prev = blk.prev }) in
    let r2 : Relinked h1 h2 b =
      choose-Relinked (blk.next == 0) h1 h1 _ b (Relinked-refl h1 b)
        (link-Relinked h1 blk.next (h1.blocks blk.next).next blk.prev h1.free_lists b) in
    Relinked-trans h h1 _ b (bypass-Relinked h b)
      (Relinked-trans h1 h2 _ b r2 (link-Relinked h2 b 0 0 h2.free_lists b))

-- the links of a free block, and its flag
flag-Relinked :
    (h : Heap) (b next : Ptr)
    → Relinked h (write h b (record (h.blocks b) { free = true; next = next; prev = 0 })) b
flag-Relinked h b next = record {
  same = record { ends = refl; lasts = refl; sizes = λ a. ground arith; prevs = λ a. ground arith };
  frees = λ x ne. ground arith;
}

pub km_insert_free-Relinked : (h : Heap) (b : Ptr) → Relinked h (km_insert_free h b) b
unfolding km_insert_free
km_insert_free-Relinked h b =
    let c = km_size_class (h.blocks b).size in
    let head = h.free_lists c in
    let h1 = write h b (record (h.blocks b) { free = true; next = head; prev = 0 }) in
    let h2 = if head == 0 then h1 else write h1 head (record (h1.blocks head) { prev = b }) in
    let r2 : Relinked h1 h2 b =
      choose-Relinked (head == 0) h1 h1 _ b (Relinked-refl h1 b)
        (link-Relinked h1 head (h1.blocks head).next b h1.free_lists b) in
    Relinked-trans h h1 _ b (flag-Relinked h b head)
      (Relinked-trans h1 h2 _ b r2 (lists-Relinked h2 _ b))

pub km_insert_free_flag : (h : Heap) (b : Ptr) → ((km_insert_free h b).blocks b).free ≡ true
unfolding km_insert_free
km_insert_free_flag h b = ground arith

-- The two endings of a merge, for a block at `after`.
merge_ends :
    (t : Bool) (h : Heap) (a b after size : ℕ)
    → after ≡ block_behind h b
    → ltb after h.heap_end ≡ t
    → after ≤ h.heap_end
    → size ≡ (h.blocks a).size + header_size + (h.blocks b).size
    → (let h1 = write h a (record (h.blocks a) { size = size }) in
        Merged h
          (if t
            then write h1 after (record (h1.blocks after) { phys_prev = a })
            else record h1 { last_block = a })
          a
          b)
merge_ends true h a b after size e less most sum = record {
  ends = refl;
  size = ground (arith, sum);
  sizes = λ x ne. ground (arith, ne);
  prevs = λ x ne. ground (arith, ne, e);
  prev_after = λ l. ground (arith, e);
  last_kept = λ l. refl;
  last_new = λ l. absurd (ground (arith, e, less, l));
  frees = λ x. ground arith;
}
merge_ends false h a b after size e less most sum = record {
  ends = refl;
  size = ground (arith, sum);
  sizes = λ x ne. ground (arith, ne);
  prevs = λ x ne. ground (arith, ne);
  prev_after = λ l. absurd (ground (arith, e, less, l));
  last_kept = λ l. absurd (ground (arith, e, less, l));
  last_new = λ l. refl;
  frees = λ x. ground arith;
}

pub merge-Merged :
    (h : Heap) (held : Ptr → Bool) (base : ℕ) (a b : Ptr)
    → IsLayout h held base
    → held b ≡ true
    → block_behind h a ≡ b
    → Merged h (merge h a b) a b
unfolding merge
merge-Merged h held base a b v next_held adjacent =
    let sum = add64 (h.blocks a).size (add64 header_size (h.blocks b).size) in
    let h1 = write h a (record (h.blocks a) { size = sum }) in
    let (_, _, most) = v.inside b next_held in
    let apart : b ≢ a = omega (arith, adjacent) in
    let size_b : (h1.blocks b).size ≡ (h.blocks b).size = ground (arith, apart) in
    merge_ends (ltb (b + header_size + (h1.blocks b).size) h.heap_end) h a b
      (b + header_size + (h1.blocks b).size) sum (omega (arith, size_b)) refl
      (omega (arith, size_b, most)) (omega (arith, v.small, most, adjacent))

-- km_list_unlink writes no free flag
pub km_list_unlink_frees :
    (h : Heap) (b x : Ptr) → ((km_list_unlink h b).blocks x).free ≡ (h.blocks x).free
unfolding km_list_unlink bypass
km_list_unlink_frees h b x = ground arith
