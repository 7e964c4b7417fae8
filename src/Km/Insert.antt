-- ===== src/Km/Insert.antt =====
-- MemoryControl.c, the kernel heap: a block enters its free list.
use fexox_os.Base.{
  ℕ, suc, ◌<◌, ◌≡◌, ◌≢◌, ◌∙◌, sym, ap, Bool, true, false, ◌&&◌, not, arith, ◌==◌, if◌then◌else◌,
  update, inl, inr, Bool-cases,
}
use native.Mathlib.Decide.{ℕ_discrete}
use fexox_os.Km.{Ptr, Heap, km_size_class}
use fexox_os.Km.Lists.{class_of, IsLinked}

-- the links of `g` are those of `h` with `b` before the first of its class
pub record Inserted (h g : Heap) (on : Ptr → Bool) (b : Ptr) (c : ℕ) : Type 0 where
  pub class_b : class_of g b ≡ c
  pub next_at :
      (x : Ptr) → (g.blocks x).next ≡ (if x == b then h.free_lists (c) else (h.blocks x).next)
  pub prev_at :
      (x : Ptr)
      → (g.blocks x).prev ≡ (
          if x == b
          then 0
          else if not (h.free_lists (c) == 0) && x == h.free_lists (c)
          then b
          else (h.blocks x).prev)
  pub list_at : (k : ℕ) → g.free_lists k ≡ (if k == c then b else h.free_lists k)
  pub sizes : (x : Ptr) → on x ≡ true → (g.blocks x).size ≡ (h.blocks x).size

module _ (h g : Heap) (on : Ptr → Bool) (rank : Ptr → ℕ) (top : ℕ) (v : IsLinked h on rank top)
    (b : Ptr) (c : ℕ) (off : on b ≡ false) (some_b : b ≢ 0) (m : Inserted h g on b c) where
  kept_class : (x : Ptr) → on x ≡ true → class_of g x ≡ class_of h x
  kept_class x p = ap km_size_class (m.sizes x p)

  abbrev head : Ptr
  head = h.free_lists c

  inserted_head :
      (i : ℕ)
      → g.free_lists i ≢ 0
      → (update on b true (g.free_lists i) ≡ true)
        × (class_of g (g.free_lists i) ≡ i)
        × ((g.blocks (g.free_lists i)).prev ≡ 0)
  inserted_head i ne = elim (Bool-cases (i == c)) [
    | inl e ↦
        let now : g.free_lists i ≡ b = ground (arith, m.list_at i, e) in
        rw now (ground arith, ground (arith, e, m.class_b), ground (arith, m.prev_at b))
    | inr e ↦
        let now : g.free_lists i ≡ h.free_lists i = ground (arith, m.list_at i, e) in
        let (o, k, p) = v.heads i (ground (arith, ne, now)) in
        let far : h.free_lists i ≢ head = λ s.
          let (_, k', _) = v.heads (c) (ground (arith, ne, now, s)) in
          let both : i ≡ c = sym k ∙ ap (class_of h) s ∙ k' in ground (arith, e, both) in
        rw now (
          ground (arith, o),
          kept_class (h.free_lists i) o ∙ k,
          ground (arith, m.prev_at (h.free_lists i), p, far, o, off),
        )
  ]

  inserted_next :
      (x : Ptr)
      → update on b true x ≡ true
      → (g.blocks x).next ≢ 0
      → (update on b true (g.blocks x).next ≡ true)
        × (class_of g (g.blocks x).next ≡ class_of g x)
        × ((g.blocks (g.blocks x).next).prev ≡ x)
        × (update rank b (suc top) (g.blocks x).next < update rank b (suc top) x)
  inserted_next x p q = elim (ℕ_discrete x b) [
    | yes e ↦
        let now : (g.blocks x).next ≡ head = ground (arith, m.next_at x, e) in
        let (o, k, _) = v.heads c (ground (arith, q, now)) in
        rw now (
          ground (arith, o),
          kept_class head o ∙ k ∙ sym m.class_b ∙ ap (class_of g) (sym e),
          ground (arith, m.prev_at head, o, off, q, now, e),
          ground (arith, v.ranks head o, o, off, e),
        )
    | no ne ↦
        let now : (g.blocks x).next ≡ (h.blocks x).next = ground (arith, m.next_at x, ne) in
        let x_on : on x ≡ true = ground (arith, p, ne) in
        let (o, k, back, r) = v.nexts x x_on (ground (arith, q, now)) in
        let far : (h.blocks x).next ≢ head = λ s.
          let (_, _, first) = v.heads c (ground (arith, q, now, s)) in
          let null : x ≡ 0 = sym back ∙ ap (λ i. (h.blocks i).prev) s ∙ first in
          ground (arith, x_on, null, v.null_off) in
        rw now (
          ground (arith, o),
          kept_class (h.blocks x).next o ∙ k ∙ sym (kept_class x x_on),
          ground (arith, m.prev_at (h.blocks x).next, back, far, o, off),
          ground (arith, r, o, off, ne),
        )
  ]

  inserted_prev :
      (x : Ptr)
      → update on b true x ≡ true
      → (g.blocks x).prev ≢ 0
      → (update on b true (g.blocks x).prev ≡ true) × ((g.blocks (g.blocks x).prev).next ≡ x)
  inserted_prev x p q = elim (Bool-cases (not (head == 0) && x == head)) [
    | inl e ↦
        let (o, _, _) = v.heads c (ground (arith, e)) in
        let now : (g.blocks x).prev ≡ b = ground (arith, m.prev_at x, e, q) in
        rw now (ground arith, ground (arith, m.next_at b, e))
    | inr e ↦
        let now : (g.blocks x).prev ≡ (h.blocks x).prev = ground (arith, m.prev_at x, e, q) in
        let x_on : on x ≡ true = ground (arith, p, q, m.prev_at x) in
        let (o, back) = v.prevs x x_on (ground (arith, q, now)) in
        rw now (ground (arith, o), ground (arith, m.next_at (h.blocks x).prev, back, o, off))
  ]

  inserted_first :
      (x : Ptr)
      → update on b true x ≡ true
      → (g.blocks x).prev ≡ 0
      → g.free_lists (class_of g x) ≡ x
  inserted_first x p q = elim (ℕ_discrete x b) [
    | yes e ↦ ground (arith, m.list_at (class_of g x), e, ap (class_of g) e, m.class_b)
    | no ne ↦
        let x_on : on x ≡ true = ground (arith, p, ne) in
        let far : (not (head == 0) && x == head) ≡ false =
          ground (arith, m.prev_at x, ne, q, some_b) in
        let first = v.firsts x x_on (ground (arith, m.prev_at x, ne, far, q)) in
        let same = kept_class x x_on in
        rw same (ground (arith, m.list_at (class_of h x), first, far, x_on, v.null_off))
  ]

  pub Inserted-IsLinked : IsLinked g (update on b true) (update rank b (suc top)) (suc top)
  Inserted-IsLinked = record {
    null_off = ground (arith, v.null_off, some_b);
    heads = inserted_head;
    nexts = inserted_next;
    prevs = inserted_prev;
    firsts = inserted_first;
    ranks = λ x p. ground (arith, p, v.ranks x);
  }
