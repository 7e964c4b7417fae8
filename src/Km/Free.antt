-- ===== src/Km/Free.antt =====
-- MemoryControl.c, kfree: the freed block and its free neighbours become one.
use fexox_os.Base.{
  ℕ, ◌+◌, ◌-◌, ◌≤◌, ◌≡◌, ◌≢◌, refl, ◌∙◌, ap, Bool, true, false, ◌&&◌, not, arith, ltb, ◌==◌,
  if◌then◌else◌, add64, sub64, inl, inr, Bool-cases,
}
use fexox_os.Km.{
  Ptr, Heap, header_size, write, block_behind, merge, km_list_unlink, km_insert_free, merge_next,
  merge_prev, free_block, kfree,
}
use fexox_os.Km.Layout.{IsLayout, SameLayout, SameLayout-IsLayout, Merged-IsLayout, without}
use fexox_os.Km.Links.{
  Relinked, km_list_unlink-Relinked, km_insert_free-Relinked, km_insert_free_flag, merge-Merged,
  km_list_unlink_frees,
}

-- `g` is laid out, the blocks of `h` in use but for `b` are in use in it and as large, and the bytes
-- of the block `b` lie in its block `c`.
pub record Kept (h : Heap) (held : Ptr → Bool) (base : ℕ) (b c : Ptr) (g : Heap) : Type 0 where
  pub kept_held : Ptr → Bool
  pub layout : IsLayout g kept_held base
  pub live :
      (x : Ptr)
      → held x ≡ true
      → (h.blocks x).free ≡ false
      → x ≢ b
      → (kept_held x ≡ true) × ((g.blocks x).free ≡ false) × ((g.blocks x).size ≡ (h.blocks x).size)
  pub within :
      (kept_held c ≡ true)
      × (c ≤ b)
      × (block_behind h b ≤ block_behind g c)
      × ((g.blocks c).free ≡ true)

module _ (h : Heap) (held : Ptr → Bool) (base : ℕ) (b : Ptr) (v : IsLayout h held base)
    (here : held b ≡ true) (freed : (h.blocks b).free ≡ true) where
  pub same_heap : Kept h held base b b h
  same_heap = record {
    kept_held = held;
    layout = v;
    live = λ x p q ne. (p, q, refl);
    within = (here, omega arith, omega arith, freed);
  }

  -- a free neighbour leaves its list, and is made part of `b` or the other way round
  module _ (f : Ptr) (free : (h.blocks f).free ≡ true) (free_held : held f ≡ true) where
    abbrev unlinked : Heap
    unlinked = km_list_unlink h f

    links : Relinked h unlinked f
    links = km_list_unlink-Relinked h f

    laid : IsLayout unlinked held base
    laid = SameLayout-IsLayout h unlinked held base links.same v

    same_end : (x : Ptr) → block_behind unlinked x ≡ block_behind h x
    same_end x = omega (arith, links.same.sizes x)

    not_free : (x : Ptr) → (h.blocks x).free ≡ false → x ≢ f
    not_free x q e = ground (arith, q, ap (λ y. (h.blocks y).free) e, free)

    next_Kept : block_behind h b ≡ f → Kept h held base b b (merge unlinked b f)
    next_Kept e =
        let joined = same_end b ∙ e in
        let m = merge-Merged unlinked held base b f laid free_held joined in
        record {
          kept_held = without held f;
          layout = Merged-IsLayout unlinked _ held base laid b f here free_held joined m;
          live = λ x p q ne.
              let other = not_free x q in
              (
                ground (arith, p, other),
                m.frees x ∙ links.frees x other ∙ q,
                m.sizes x ne ∙ links.same.sizes x,
              );
          within = (
            ground (arith, here, e),
            omega arith,
            omega (arith, m.size, links.same.sizes b),
            m.frees b ∙ km_list_unlink_frees h f b ∙ freed,
          );
        }

    prev_Kept : block_behind h f ≡ b → Kept h held base b f (merge unlinked f b)
    prev_Kept e =
        let joined = same_end f ∙ e in
        let m = merge-Merged unlinked held base f b laid here joined in
        record {
          kept_held = without held b;
          layout = Merged-IsLayout unlinked _ held base laid f b free_held here joined m;
          live = λ x p q ne.
              let other = not_free x q in
              (
                ground (arith, p, ne),
                m.frees x ∙ links.frees x other ∙ q,
                m.sizes x other ∙ links.same.sizes x,
              );
          within = (
            ground (arith, free_held, e),
            omega (arith, e),
            omega (arith, m.size, links.same.sizes b, links.same.sizes f, e),
            m.frees f ∙ km_list_unlink_frees h f f ∙ free,
          );
        }

  merge_next-Kept : Kept h held base b b (merge_next h b)
  unfolding merge_next
  merge_next-Kept =
      elim (Bool-cases (ltb (block_behind h b) h.heap_end && (h.blocks (block_behind h b)).free)) [
        | inr alone ↦ rw alone same_heap
        | inl joins ↦
            let (x, _) = v.next b here (ground (arith, joins)) in
            rw joins (next_Kept (block_behind h b) (ground (arith, joins)) x refl)
      ]

  merge_prev-Kept : Kept h held base b (merge_prev h b).0 (merge_prev h b).1
  unfolding merge_prev
  merge_prev-Kept =
      let f = (h.blocks b).phys_prev in
      elim (Bool-cases (not (f == 0) && (h.blocks f).free)) [
        | inr alone ↦ rw alone same_heap
        | inl joins ↦
            let (x, y) = v.prev b here (ground (arith, joins)) in
            rw joins (prev_Kept f (ground (arith, joins)) x y)
      ]

Kept-trans :
    (h g k : Heap) (held : Ptr → Bool) (base : ℕ) (b c : Ptr)
    → (r : Kept h held base b b g) → Kept g (r.kept_held) base b c k
    → Kept h held base b c k
Kept-trans h g k held base b c r s = record {
  kept_held = s.kept_held;
  layout = s.layout;
  live = λ x p q ne.
      let (p1, q1, z1) = r.live x p q ne in
      let (p2, q2, z2) = s.live x p1 q1 ne in (p2, q2, z2 ∙ z1);
  within =
      let (_, _, l1, _) = r.within in
      let (x, y, l2, f) = s.within in (x, y, omega (arith, l1, l2), f);
}

-- a block enters its list
insert_Kept :
    (h g : Heap) (held : Ptr → Bool) (base : ℕ) (b c : Ptr)
    → Kept h held base b c g
    → Kept h held base b c (km_insert_free g c)
insert_Kept h g held base b c r =
    let links = km_insert_free-Relinked g c in
    let (x, y, l, f) = r.within in
    record {
      kept_held = r.kept_held;
      layout = SameLayout-IsLayout g _ r.kept_held base links.same r.layout;
      live = λ a p q ne.
          let (p1, q1, z1) = r.live a p q ne in
          let other : a ≢ c = λ e. ground (arith, q1, ap (λ i. (g.blocks i).free) e, f) in
          (p1, links.frees a other ∙ q1, links.same.sizes a ∙ z1);
      within = (x, y, omega (arith, l, links.same.sizes c), km_insert_free_flag g c);
    }

module _ (h : Heap) (held : Ptr → Bool) (base : ℕ) (b : Ptr) (v : IsLayout h held base)
    (here : held b ≡ true) where
  abbrev marked : Heap
  marked = record (write h b (record (h.blocks b) { free = true })) {
    heap_used = sub64 h.heap_used (add64 (h.blocks b).size header_size);
  }

  marked_same : SameLayout h marked
  marked_same = record {
    ends = refl;
    lasts = refl;
    sizes = λ a. ground arith;
    prevs = λ a. ground arith;
  }

  marked-Kept : Kept h held base b b marked
  marked-Kept = record {
    kept_held = held;
    layout = SameLayout-IsLayout h marked held base marked_same v;
    live = λ x p q ne. (p, ground (arith, q, ne), ground arith);
    within = (here, omega arith, ground arith, ground arith);
  }

  both_merges :
      Kept h held base b
        (merge_prev (merge_next marked b) b).0
        (merge_prev (merge_next marked b) b).1
  both_merges =
      let r1 = marked-Kept in
      let (x1, _, _, f1) = r1.within in
      let r2 = merge_next-Kept marked r1.kept_held base b r1.layout x1 f1 in
      let (x2, _, _, f2) = r2.within in
      let r3 = merge_prev-Kept (merge_next marked b) r2.kept_held base b r2.layout x2 f2 in
      Kept-trans h marked _ held base b _ r1
        (Kept-trans marked (merge_next marked b) _ r1.kept_held base b _ r2 r3)

in_use :
    (t : Bool) (h g : Heap) (held : Ptr → Bool) (base : ℕ) (b c : Ptr)
    → t ≡ false
    → Kept h held base b c g
    → Kept h held base b c (if t then h else g)
in_use true h g held base b c e r = absurd (ground (arith, e))
in_use false h g held base b c e r = r

free_block-Kept :
    (h : Heap) (held : Ptr → Bool) (base : ℕ) (b : Ptr)
    → IsLayout h held base
    → held b ≡ true
    → (h.blocks b).free ≡ false
    → (c : Ptr) × Kept h held base b c (free_block h b)
unfolding free_block
free_block-Kept h held base b v here used =
    let r = both_merges h held base b v here in
    (_, in_use (h.blocks b).free h _ held base b _ used (insert_Kept h _ held base b _ r))

free_block_twice : (h : Heap) (b : Ptr) → (h.blocks b).free ≡ true → free_block h b ≡ h
unfolding free_block
free_block_twice h b free = rw free refl

-- Where the blocks of a heap fill it without gaps and overlaps, kfree of the address behind a header
-- in use leaves a heap of that kind, in which every other block in use is still there, in use and
-- of the same size, and in which the bytes of the freed block lie in a free block. A second kfree
-- of a block that is free, and kfree of NULL, change nothing.
pub kfree-Kept :
    (h : Heap) (held : Ptr → Bool) (base : ℕ) (b : Ptr)
    → IsLayout h held base
    → held b ≡ true
    → ((h.blocks b).free ≡ false → (c : Ptr) × Kept h held base b c (kfree h (b + header_size)))
      × ((h.blocks b).free ≡ true → kfree h (b + header_size) ≡ h)
      × (kfree h 0 ≡ h)
unfolding kfree
kfree-Kept h held base b v here =
    let back : b + header_size - header_size ≡ b = omega arith in
    let some_ptr : (b + header_size == 0) ≡ false = ground arith in
    (
      λ used. rw (some_ptr, back) (free_block-Kept h held base b v here used),
      λ free. rw (some_ptr, back) (free_block_twice h b free),
      refl,
    )
