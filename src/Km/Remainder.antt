-- ===== src/Km/Remainder.antt =====
-- MemoryControl.c, km_find_best: the remainder of a block that is split enters its list.
use fexox_os.Base.{
  ℕ, ◌+◌, ◌≡◌, ◌≢◌, ◌∙◌, ap, Bool, true, false, ◌&&◌, not, arith, ◌==◌, if◌then◌else◌, update,
}
use fexox_os.Km.{Ptr, Heap, header_size, write, km_size_class, lay_rest}
use fexox_os.Km.Lists.{class_of}
use fexox_os.Km.Insert.{Inserted}

-- split_block for the class `c` of the remainder at `r`
abbrev pub cut_up : Heap → (a req r c : ℕ) → Heap
cut_up h a req r c =
    let h2 = lay_rest h a req in
    let head = h2.free_lists c in
    let h3 = write h2 r (record (h2.blocks r) { next = head }) in
    let h4 = if head == 0 then h3 else write h3 head (record (h3.blocks head) { prev = r }) in
    let h5 = record h4 { free_lists = update h4.free_lists c r } in
    write h5 a (record (h5.blocks a) { size = req })

module _ (h : Heap) (on : Ptr → Bool) (a req r c : ℕ) (at_r : r ≡ a + header_size + req)
    (far : h.free_lists c ≢ r) (off : on r ≡ false) (off_a : on a ≡ false)
    (size_r : class_of (lay_rest h a req) r ≡ c) where
  cut_next :
      (x : Ptr)
      → ((cut_up h a req r c).blocks x).next
        ≡ (if x == r then h.free_lists c else (h.blocks x).next)
  unfolding lay_rest
  cut_next x = ground (arith, far, at_r)

  cut_prev :
      (x : Ptr)
      → ((cut_up h a req r c).blocks x).prev ≡ (
          if x == r
          then 0
          else if not (h.free_lists c == 0) && x == h.free_lists c
          then r
          else (h.blocks x).prev)
  unfolding lay_rest
  cut_prev x = ground (arith, far, at_r)

  cut_list : (k : ℕ) → (cut_up h a req r c).free_lists k ≡ (if k == c then r else h.free_lists k)
  unfolding lay_rest
  cut_list k = ground (arith)

  cut_size : ((cut_up h a req r c).blocks r).size ≡ ((lay_rest h a req).blocks r).size
  cut_size = ground (arith, at_r)

  cut_sizes : (x : Ptr) → on x ≡ true → ((cut_up h a req r c).blocks x).size ≡ (h.blocks x).size
  unfolding lay_rest
  cut_sizes x p = ground (arith, p, off, off_a, at_r)

  pub cut_up-Inserted : Inserted h (cut_up h a req r c) on r c
  cut_up-Inserted = record {
    class_b = ap km_size_class cut_size ∙ size_r;
    next_at = cut_next;
    prev_at = cut_prev;
    list_at = cut_list;
    sizes = cut_sizes;
  }

  pub cut_up_flag : ((cut_up h a req r c).blocks r).free ≡ true
  unfolding lay_rest
  cut_up_flag = ground (arith, at_r)
