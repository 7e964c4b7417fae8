-- ===== src/Km/Lists.antt =====
-- MemoryControl.c, the kernel heap: the free lists are doubly linked, one for each size class.
use fexox_os.Base.{
  ℕ, ◌≤◌, ◌<◌, ◌≡◌, ◌≢◌, ◌∙◌, sym, ap, Bool, true, false, ◌&&◌, not, arith, ◌==◌, if◌then◌else◌,
  update, inl, inr, Bool-cases,
}
use fexox_os.Km.{Ptr, Heap, bypass, km_list_unlink, km_size_class}

abbrev pub class_of : Heap → Ptr → ℕ
class_of h x = km_size_class (h.blocks x).size

-- The blocks that `on` picks are those of the free lists: each is on the list of its class, and the
-- links lead there and back. `rank` falls along each list, so that it ends, and is `top` at most.
pub record IsLinked (h : Heap) (on : Ptr → Bool) (rank : Ptr → ℕ) (top : ℕ) : Type 0 where
  pub null_off : on 0 ≡ false
  pub heads :
      (c : ℕ)
      → h.free_lists c ≢ 0
      → (on (h.free_lists c) ≡ true)
        × (class_of h (h.free_lists c) ≡ c)
        × ((h.blocks (h.free_lists c)).prev ≡ 0)
  pub nexts :
      (x : Ptr)
      → on x ≡ true
      → (h.blocks x).next ≢ 0
      → (on (h.blocks x).next ≡ true)
        × (class_of h (h.blocks x).next ≡ class_of h x)
        × ((h.blocks (h.blocks x).next).prev ≡ x)
        × (rank (h.blocks x).next < rank x)
  pub prevs :
      (x : Ptr)
      → on x ≡ true
      → (h.blocks x).prev ≢ 0
      → (on (h.blocks x).prev ≡ true) × ((h.blocks (h.blocks x).prev).next ≡ x)
  pub firsts : (x : Ptr) → on x ≡ true → (h.blocks x).prev ≡ 0 → h.free_lists (class_of h x) ≡ x
  pub ranks : (x : Ptr) → on x ≡ true → rank x ≤ top

-- the links of `g` are those of `h` without `b`
record Bypassed (h g : Heap) (b : Ptr) : Type 0 where
  next_at :
      (x : Ptr)
      → (g.blocks x).next ≡ (
          if x == b
          then 0
          else if not ((h.blocks b).prev == 0) && x == (h.blocks b).prev
          then (h.blocks b).next
          else (h.blocks x).next)
  prev_at :
      (x : Ptr)
      → (g.blocks x).prev ≡ (
          if x == b
          then 0
          else if not ((h.blocks b).next == 0) && x == (h.blocks b).next
          then (h.blocks b).prev
          else (h.blocks x).prev)
  list_at :
      (c : ℕ)
      → g.free_lists c ≡ (
          if (h.blocks b).prev == 0 && c == class_of h b then (h.blocks b).next else h.free_lists c)
  sizes : (x : Ptr) → (g.blocks x).size ≡ (h.blocks x).size

module _ (h : Heap) (on : Ptr → Bool) (rank : Ptr → ℕ) (top : ℕ) (v : IsLinked h on rank top)
    (b : Ptr) where
  module _ (here : on b ≡ true) where
    not_next : (h.blocks b).next ≢ b
    not_next e =
        let some_next : (h.blocks b).next ≢ 0 = λ z. ground (arith, e, z, here, v.null_off) in
        let (_, _, _, less) = v.nexts b here some_next in omega (arith, less, ap rank e)

    not_prev : (h.blocks b).prev ≢ b
    not_prev e =
        let some_prev : (h.blocks b).prev ≢ 0 = λ z. ground (arith, e, z, here, v.null_off) in
        let (_, back) = v.prevs b here some_prev in
        not_next (sym (ap (λ x. (h.blocks x).next) e) ∙ back)

    unlink-Bypassed : Bypassed h (km_list_unlink h b) b
    unfolding km_list_unlink bypass
    unlink-Bypassed = record {
      next_at = λ x. ground (arith, not_next, not_prev);
      prev_at = λ x. ground (arith, not_next, not_prev);
      list_at = λ c. ground (arith, not_next, not_prev, v.firsts b here);
      sizes = λ x. ground arith;
    }

    module _ (g : Heap) (m : Bypassed h g b) where
      same_class : (x : Ptr) → class_of g x ≡ class_of h x
      same_class x = ap km_size_class (m.sizes x)

      bypassed_head :
          (c : ℕ)
          → g.free_lists c ≢ 0
          → (update on b false (g.free_lists c) ≡ true)
            × (class_of g (g.free_lists c) ≡ c)
            × ((g.blocks (g.free_lists c)).prev ≡ 0)
      bypassed_head c ne = elim (Bool-cases ((h.blocks b).prev == 0 && c == class_of h b)) [
        | inl e ↦
            let now : g.free_lists c ≡ (h.blocks b).next = ground (arith, m.list_at c, e) in
            let (o, k, p, _) = v.nexts b here (ground (arith, ne, now)) in
            rw now (
              ground (arith, o, not_next),
              ground (arith, same_class (h.blocks b).next, k, e),
              ground (arith, m.prev_at (h.blocks b).next, e, not_next, ne, now),
            )
        | inr e ↦
            let now : g.free_lists c ≡ h.free_lists c = ground (arith, m.list_at c, e) in
            let (o, k, p) = v.heads c (ground (arith, ne, now)) in
            let other : h.free_lists c ≢ b = λ s.
              let first_b : (h.blocks b).prev ≡ 0 = sym (ap (λ i. (h.blocks i).prev) s) ∙ p in
              let class_b : class_of h b ≡ c = sym (ap (class_of h) s) ∙ k in
              ground (arith, e, first_b, class_b) in
            rw now (
              ground (arith, o, other),
              same_class (h.free_lists c) ∙ k,
              ground (arith, m.prev_at (h.free_lists c), p, v.nexts b here, here, v.null_off),
            )
      ]

      bypassed_next :
          (x : Ptr)
          → update on b false x ≡ true
          → (g.blocks x).next ≢ 0
          → (update on b false (g.blocks x).next ≡ true)
            × (class_of g (g.blocks x).next ≡ class_of g x)
            × ((g.blocks (g.blocks x).next).prev ≡ x)
            × (rank (g.blocks x).next < rank x)
      bypassed_next x p q =
          elim (Bool-cases (not ((h.blocks b).prev == 0) && x == (h.blocks b).prev)) [
            | inl e ↦
                let now : (g.blocks x).next ≡ (h.blocks b).next =
                  ground (arith, m.next_at x, e, p) in
                let (o, k, _, r) = v.nexts b here (ground (arith, q, now)) in
                let (x_on, back) = v.prevs b here (ground (arith, e)) in
                let to_b : (h.blocks x).next ≡ b = ground (arith, e, back) in
                let (_, k', _, r') =
                  v.nexts x (ground (arith, p)) (ground (arith, to_b, here, v.null_off)) in
                rw now (
                  ground (arith, o, not_next),
                  same_class (h.blocks b).next
                      ∙ k
                      ∙ sym (ap (class_of h) to_b)
                      ∙ k'
                      ∙ sym (same_class x),
                  ground (arith, m.prev_at (h.blocks b).next, not_next, q, now, e),
                  omega (arith, r, r', ap rank to_b),
                )
            | inr e ↦
                let now : (g.blocks x).next ≡ (h.blocks x).next =
                  ground (arith, m.next_at x, e, p) in
                let (o, k, back, r) = v.nexts x (ground (arith, p)) (ground (arith, q, now)) in
                let other : (h.blocks x).next ≢ b = λ s.
                  let before_b : (h.blocks b).prev ≡ x =
                    sym (ap (λ i. (h.blocks i).prev) s) ∙ back in
                  ground (arith, e, before_b, p, v.null_off) in
                rw now (
                  ground (arith, o, other),
                  same_class (h.blocks x).next ∙ k ∙ sym (same_class x),
                  ground (arith, m.prev_at (h.blocks x).next, back, other, v.nexts b here, p),
                  r,
                )
          ]

      -- a block is the second of one list at most, and the last but one
      bypassed_prev :
          (x : Ptr)
          → update on b false x ≡ true
          → (g.blocks x).prev ≢ 0
          → (update on b false (g.blocks x).prev ≡ true) × ((g.blocks (g.blocks x).prev).next ≡ x)
      bypassed_prev x p q =
          elim (Bool-cases (not ((h.blocks b).next == 0) && x == (h.blocks b).next)) [
            | inl e ↦
                let now : (g.blocks x).prev ≡ (h.blocks b).prev =
                  ground (arith, m.prev_at x, e, p) in
                let (o, back) = v.prevs b here (ground (arith, q, now)) in
                rw now (
                  ground (arith, o, not_prev),
                  ground (arith, m.next_at (h.blocks b).prev, not_prev, q, now, e),
                )
            | inr e ↦
                let now : (g.blocks x).prev ≡ (h.blocks x).prev =
                  ground (arith, m.prev_at x, e, p) in
                let (o, back) = v.prevs x (ground (arith, p)) (ground (arith, q, now)) in
                let other : (h.blocks x).prev ≢ b = λ s.
                  let behind_b : (h.blocks b).next ≡ x =
                    sym (ap (λ i. (h.blocks i).next) s) ∙ back in
                  ground (arith, e, behind_b, p, v.null_off) in
                rw now (
                  ground (arith, o, other),
                  ground (arith, m.next_at (h.blocks x).prev, back, other, v.prevs b here, p),
                )
          ]

      bypassed_first :
          (x : Ptr)
          → update on b false x ≡ true
          → (g.blocks x).prev ≡ 0
          → g.free_lists (class_of g x) ≡ x
      bypassed_first x p q =
          rw (same_class x)
            (elim (Bool-cases (not ((h.blocks b).next == 0) && x == (h.blocks b).next)) [
              | inl e ↦
                  let now : (g.blocks x).prev ≡ (h.blocks b).prev =
                    ground (arith, m.prev_at x, e, p) in
                  let (_, k, _, _) = v.nexts b here (ground (arith, e)) in
                  let is_next : x ≡ (h.blocks b).next = ground (arith, e) in
                  let same : class_of h x ≡ class_of h b = ap (class_of h) is_next ∙ k in
                  ground (arith, m.list_at (class_of h x), same, now, q, is_next)
              | inr e ↦
                  let now : (g.blocks x).prev ≡ (h.blocks x).prev =
                    ground (arith, m.prev_at x, e, p) in
                  let first = v.firsts x (ground (arith, p)) (sym now ∙ q) in
                  ground (arith, m.list_at (class_of h x), first, v.firsts b here, p)
            ])

      Bypassed-IsLinked : IsLinked g (update on b false) rank top
      Bypassed-IsLinked = record {
        null_off = ground (arith, v.null_off);
        heads = bypassed_head;
        nexts = bypassed_next;
        prevs = bypassed_prev;
        firsts = bypassed_first;
        ranks = λ x p. ground (arith, p, v.ranks x);
      }

    pub unlink-IsLinked : IsLinked (km_list_unlink h b) (update on b false) rank top
    unlink-IsLinked = Bypassed-IsLinked (km_list_unlink h b) unlink-Bypassed
