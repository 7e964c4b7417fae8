-- ===== src/Km/Layout.antt =====
-- MemoryControl.c, the kernel heap: how its blocks fill it, and the joining of two of them.
use fexox_os.Base.{
  ℕ, ◌+◌, ◌≤◌, ◌<◌, ◌≡◌, ◌≢◌, refl, ◌∙◌, sym, ap, Bool, true, ◌&&◌, not, arith, ◌==◌, u64_mod,
}
use fexox_os.Km.{Ptr, Heap, header_size, block_behind}
use native.Mathlib.Decide.{ℕ_discrete}

-- The blocks that `held` picks fill the heap from `base` to its end, without gaps and overlaps, and
-- each but the first knows the one before it.
pub record IsLayout (h : Heap) (held : Ptr → Bool) (base : ℕ) : Type 0 where
  pub small : h.heap_end + 16 ≤ u64_mod
  pub inside : (a : Ptr) → held a ≡ true → (0 < base) × (base ≤ a) × (block_behind h a ≤ h.heap_end)
  pub next :
      (a : Ptr)
      → held a ≡ true
      → block_behind h a < h.heap_end
      → (held (block_behind h a) ≡ true) × ((h.blocks (block_behind h a)).phys_prev ≡ a)
  pub prev :
      (a : Ptr)
      → held a ≡ true
      → (h.blocks a).phys_prev ≢ 0
      → (held ((h.blocks a).phys_prev) ≡ true) × (block_behind h ((h.blocks a).phys_prev) ≡ a)
  pub first : (a : Ptr) → held a ≡ true → (h.blocks a).phys_prev ≡ 0 → a ≡ base
  pub last :
      base < h.heap_end → (held h.last_block ≡ true) × (block_behind h h.last_block ≡ h.heap_end)
  pub apart : (a b : Ptr) → held a ≡ true → held b ≡ true → a < b → block_behind h a ≤ b

-- `g` differs from `h` in what no layout depends on
pub record SameLayout (h g : Heap) : Type 0 where
  pub ends : g.heap_end ≡ h.heap_end
  pub lasts : g.last_block ≡ h.last_block
  pub sizes : (a : Ptr) → (g.blocks a).size ≡ (h.blocks a).size
  pub prevs : (a : Ptr) → (g.blocks a).phys_prev ≡ (h.blocks a).phys_prev

pub SameLayout-IsLayout :
    (h g : Heap) (held : Ptr → Bool) (base : ℕ)
    → SameLayout h g
    → IsLayout h held base
    → IsLayout g held base
SameLayout-IsLayout h g held base s v = record {
  small = omega (arith, s.ends, v.small);
  inside = λ a p. let (x, y, z) = v.inside a p in (x, y, omega (arith, z, s.sizes a, s.ends));
  next = λ a p q.
      let same = s.sizes a in
      let (x, y) = v.next a p (omega (arith, q, s.sizes a, s.ends)) in
      rw same (x, s.prevs (block_behind h a) ∙ y);
  prev = λ a p q.
      let same = s.prevs a in
      let (x, y) = v.prev a p (λ e. q (same ∙ e)) in
      rw same (x, omega (arith, y, s.sizes ((h.blocks a).phys_prev)));
  first = λ a p q. v.first a p (sym (s.prevs a) ∙ q);
  last = λ p.
      let same = s.lasts in
      let (x, y) = v.last (omega (arith, p, s.ends)) in
      rw same (x, omega (arith, y, s.sizes h.last_block, s.ends));
  apart = λ a b p q l. omega (arith, s.sizes a, v.apart a b p q l);
}

-- the blocks once `b` has become part of another
abbrev pub without : (Ptr → Bool) → Ptr → Ptr → Bool
without held b a = held a && not (a == b)

-- `g` is `h` with the block `b`, which lies behind `a`, made part of `a`.
pub record Merged (h g : Heap) (a b : Ptr) : Type 0 where
  pub ends : g.heap_end ≡ h.heap_end
  pub size : (g.blocks a).size ≡ (h.blocks a).size + header_size + (h.blocks b).size
  pub sizes : (x : Ptr) → x ≢ a → (g.blocks x).size ≡ (h.blocks x).size
  pub prevs : (x : Ptr) → x ≢ block_behind h b → (g.blocks x).phys_prev ≡ (h.blocks x).phys_prev
  pub prev_after : block_behind h b < h.heap_end → (g.blocks (block_behind h b)).phys_prev ≡ a
  pub last_kept : block_behind h b < h.heap_end → g.last_block ≡ h.last_block
  pub last_new : block_behind h b ≡ h.heap_end → g.last_block ≡ a
  pub frees : (x : Ptr) → (g.blocks x).free ≡ (h.blocks x).free

module _ (h g : Heap) (held : Ptr → Bool) (base : ℕ) (v : IsLayout h held base) (a b : Ptr)
    (here : held a ≡ true) (next_held : held b ≡ true) (adjacent : block_behind h a ≡ b)
    (m : Merged h g a b) where
  behind_a : block_behind g a ≡ block_behind h b
  behind_a = omega (arith, m.size, adjacent)

  below : b < block_behind h b
  below = omega arith

  prev_b : (h.blocks b).phys_prev ≡ a
  prev_b =
      let (_, _, z) = v.inside b next_held in
      let (_, p) = v.next a here (omega (arith, z, adjacent)) in rw (sym adjacent) p

  keep : (y : Ptr) → held y ≡ true → y ≢ b → without held b y ≡ true
  keep y p ne = ground (arith, p, ne)

  same_behind : (x : Ptr) → x ≢ a → block_behind g x ≡ block_behind h x
  same_behind x ne = omega (arith, m.sizes x ne)

  was_held : (x : Ptr) → without held b x ≡ true → held x ≡ true
  was_held x p = ground (arith, p)

  not_b : (x : Ptr) → without held b x ≡ true → x ≢ b
  not_b x p e = ground (arith, p, e)

  next_of_a :
      block_behind g a < g.heap_end
      → (without held b (block_behind g a) ≡ true) × ((g.blocks (block_behind g a)).phys_prev ≡ a)
  next_of_a q =
      let bound : block_behind h b < h.heap_end = omega (arith, behind_a, m.ends, q) in
      let (x, _) = v.next b next_held bound in
      rw behind_a (keep (block_behind h b) x (λ e. omega (arith, e, below)), m.prev_after bound)

  merged_next :
      (x : Ptr)
      → without held b x ≡ true
      → block_behind g x < g.heap_end
      → (without held b (block_behind g x) ≡ true) × ((g.blocks (block_behind g x)).phys_prev ≡ x)
  merged_next x p q = elim (ℕ_discrete x a) [
    | yes e ↦ rw e (next_of_a (rw e at q))
    | no ne ↦
        let same = same_behind x ne in
        let (y, z) = v.next x (was_held x p) (omega (arith, same, m.ends, q)) in
        let other : block_behind h x ≢ b = λ e. ne (sym z ∙ (rw e prev_b)) in
        let far : block_behind h x ≢ block_behind h b = λ e.
          let (_, z') = v.next b next_held (omega (arith, e, same, m.ends, q)) in
          not_b x p (sym z ∙ (rw e z')) in
        rw same (keep (block_behind h x) y other, m.prevs (block_behind h x) far ∙ z)
  ]

  merged_prev :
      (x : Ptr)
      → without held b x ≡ true
      → (g.blocks x).phys_prev ≢ 0
      → (without held b (g.blocks x).phys_prev ≡ true)
        × (block_behind g ((g.blocks x).phys_prev) ≡ x)
  merged_prev x p q = elim (ℕ_discrete x (block_behind h b)) [
    | yes e ↦
        let (_, _, z) = v.inside x (was_held x p) in
        let bound : block_behind h b < h.heap_end = omega (arith, e, z) in
        let prev_x : (g.blocks x).phys_prev ≡ a = rw e (m.prev_after bound) in
        rw prev_x (keep a here (λ s. omega (arith, s, adjacent)), behind_a ∙ sym e)
    | no ne ↦
        let same = m.prevs x ne in
        let (y, z) = v.prev x (was_held x p) (λ s. q (same ∙ s)) in
        let w = (h.blocks x).phys_prev in
        let not_a : w ≢ a = λ s. not_b x p (sym z ∙ (rw s adjacent)) in
        let other : w ≢ b = λ s. ne (sym z ∙ (rw s refl)) in
        rw same (keep w y other, same_behind w not_a ∙ z)
  ]

  merged_first : (x : Ptr) → without held b x ≡ true → (g.blocks x).phys_prev ≡ 0 → x ≡ base
  merged_first x p q = elim (ℕ_discrete x (block_behind h b)) [
    | yes e ↦
        let (_, _, z) = v.inside x (was_held x p) in
        let prev_x : (g.blocks x).phys_prev ≡ a = rw e (m.prev_after (omega (arith, e, z))) in
        absurd (omega (arith, prev_x, q, v.inside a here))
    | no ne ↦ v.first x (was_held x p) (sym (m.prevs x ne) ∙ q)
  ]

  merged_last :
      base < g.heap_end
      → (without held b g.last_block ≡ true) × (block_behind g g.last_block ≡ g.heap_end)
  merged_last l = elim (ℕ_discrete (block_behind h b) h.heap_end) [
    | yes e ↦
        let now = m.last_new e in
        rw now (keep a here (λ s. omega (arith, s, adjacent)), behind_a ∙ e ∙ sym m.ends)
    | no ne ↦
        let (_, _, z) = v.inside b next_held in
        let bound : block_behind h b < h.heap_end = omega (arith, z, ne) in
        let (x, y) = v.last (omega (arith, l, m.ends)) in
        let now = m.last_kept bound in
        let other : h.last_block ≢ b = λ s. ne (sym (ap (block_behind h) s) ∙ y) in
        let not_a : h.last_block ≢ a =
          λ s. omega (arith, below, bound, ap (block_behind h) s, adjacent, y) in
        rw now (keep h.last_block x other, same_behind h.last_block not_a ∙ y ∙ sym m.ends)
  ]

  merged_apart :
      (x y : Ptr) → without held b x ≡ true → without held b y ≡ true → x < y → block_behind g x ≤ y
  merged_apart x y p q l = elim (ℕ_discrete x a) [
    | yes e ↦
        let past = v.apart a y here (was_held y q) (omega (arith, e, l)) in
        let later : b < y = omega (arith, past, adjacent, not_b y q) in
        let end = v.apart b y next_held (was_held y q) later in rw e (omega (arith, end, behind_a))
    | no ne ↦ omega (arith, same_behind x ne, v.apart x y (was_held x p) (was_held y q) l)
  ]

  merged_inside :
      (x : Ptr)
      → without held b x ≡ true
      → (0 < base) × (base ≤ x) × (block_behind g x ≤ g.heap_end)
  merged_inside x p = elim (ℕ_discrete x a) [
    | yes e ↦
        let (s, t, _) = v.inside a here in
        let (_, _, z) = v.inside b next_held in rw e (s, t, omega (arith, z, behind_a, m.ends))
    | no ne ↦
        let (s, t, z) = v.inside x (was_held x p) in
        (s, t, omega (arith, z, same_behind x ne, m.ends))
  ]

  pub Merged-IsLayout : IsLayout g (without held b) base
  Merged-IsLayout = record {
    small = omega (arith, v.small, m.ends);
    inside = merged_inside;
    next = merged_next;
    prev = merged_prev;
    first = merged_first;
    last = merged_last;
    apart = merged_apart;
  }
