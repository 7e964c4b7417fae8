-- ===== src/Km/Split.antt =====
-- MemoryControl.c, the kernel heap: the cutting of a block in two.
use fexox_os.Base.{
  ℕ, ◌≤◌, ◌<◌, ◌≡◌, ◌≢◌, ◌⊎◌, ◌∙◌, sym, ap, Bool, true, false, ◌||◌, arith, ◌==◌, inl, inr,
  Bool-cases,
}
use fexox_os.Km.{Ptr, Heap, block_behind}
use fexox_os.Km.Layout.{IsLayout}
use native.Mathlib.Decide.{ℕ_discrete, dec_lt}

-- `g` is `h` with the end of the block `a`, from `r` on, made a block of its own.
pub record Cut (h g : Heap) (a r : Ptr) : Type 0 where
  pub ends : g.heap_end ≡ h.heap_end
  pub cut_at : block_behind g a ≡ r
  pub cut_end : block_behind g r ≡ block_behind h a
  pub sizes : (x : Ptr) → x ≢ a → x ≢ r → (g.blocks x).size ≡ (h.blocks x).size
  pub prev_new : (g.blocks r).phys_prev ≡ a
  pub prev_after : block_behind h a < h.heap_end → (g.blocks (block_behind h a)).phys_prev ≡ r
  pub prevs :
      (x : Ptr) → x ≢ r → x ≢ block_behind h a → (g.blocks x).phys_prev ≡ (h.blocks x).phys_prev
  pub last_kept : block_behind h a < h.heap_end → g.last_block ≡ h.last_block
  pub last_new : block_behind h a ≡ h.heap_end → g.last_block ≡ r
  pub frees : (x : Ptr) → x ≢ r → (g.blocks x).free ≡ (h.blocks x).free

-- the blocks with a new one
abbrev pub with_block : (Ptr → Bool) → Ptr → Ptr → Bool
with_block held r x = held x || x == r

module _ (h g : Heap) (held : Ptr → Bool) (base : ℕ) (v : IsLayout h held base) (a r : Ptr)
    (here : held a ≡ true) (m : Cut h g a r) where
  after_a : a < r
  after_a = omega (arith, m.cut_at)

  before_end : r < block_behind h a
  before_end = omega (arith, m.cut_end)

  pub new_block : held r ≡ false
  new_block = elim (Bool-cases (held r)) [
    | inr e ↦ e
    | inl e ↦ absurd (omega (arith, v.apart a r here e after_a, before_end))
  ]

  old : (x : Ptr) → held x ≡ true → x ≢ r
  old x p e = ground (arith, p, ap held e, new_block)

  keep : (x : Ptr) → held x ≡ true → with_block held r x ≡ true
  keep x p = ground (arith, p)

  keep_new : with_block held r r ≡ true
  keep_new = ground arith

  cases : (x : Ptr) → with_block held r x ≡ true → (x ≡ r) ⊎ (held x ≡ true)
  cases x p = elim (ℕ_discrete x r) [ yes e ↦ inl e | no ne ↦ inr (ground (arith, p, ne)) ]

  same_behind : (x : Ptr) → held x ≡ true → x ≢ a → block_behind g x ≡ block_behind h x
  same_behind x p ne = omega (arith, m.sizes x ne (old x p))

  cut_next :
      (x : Ptr)
      → with_block held r x ≡ true
      → block_behind g x < g.heap_end
      → (with_block held r (block_behind g x) ≡ true)
        × ((g.blocks (block_behind g x)).phys_prev ≡ x)
  cut_next x p q = elim (cases x p) [
    | inl e ↦ rw e (next_new (rw e at q))
    | inr o ↦ elim (ℕ_discrete x a) [
      | yes e ↦ let at_a = m.cut_at in rw (e, at_a) (keep_new, m.prev_new)
      | no ne ↦
          let same = same_behind x o ne in
          let (y, z) = v.next x o (omega (arith, same, m.ends, q)) in
          let far : block_behind h x ≢ block_behind h a = λ e.
            let (_, z') = v.next a here (omega (arith, e, same, m.ends, q)) in
            ne (sym z ∙ (rw e z')) in
          rw same (
            keep (block_behind h x) y,
            m.prevs (block_behind h x) (old (block_behind h x) y) far ∙ z,
          )
    ]
  ]
    where
      next_new :
          block_behind g r < g.heap_end
          → (with_block held r (block_behind g r) ≡ true)
            × ((g.blocks (block_behind g r)).phys_prev ≡ r)
      next_new q =
          let same = m.cut_end in
          let bound : block_behind h a < h.heap_end = omega (arith, same, m.ends, q) in
          let (y, _) = v.next a here bound in
          rw same (keep (block_behind h a) y, m.prev_after bound)

  cut_prev :
      (x : Ptr)
      → with_block held r x ≡ true
      → (g.blocks x).phys_prev ≢ 0
      → (with_block held r (g.blocks x).phys_prev ≡ true)
        × (block_behind g ((g.blocks x).phys_prev) ≡ x)
  cut_prev x p q = elim (cases x p) [
    | inl e ↦
        let new = ap (λ y. (g.blocks y).phys_prev) e ∙ m.prev_new in
        rw new (keep a here, m.cut_at ∙ sym e)
    | inr o ↦ elim (ℕ_discrete x (block_behind h a)) [
      | yes e ↦
          let (_, _, z) = v.inside x o in
          let bound : block_behind h a < h.heap_end = omega (arith, e, z) in
          let new : (g.blocks x).phys_prev ≡ r = rw e (m.prev_after bound) in
          rw new (keep_new, m.cut_end ∙ sym e)
      | no ne ↦
          let same = m.prevs x (old x o) ne in
          let (y, z) = v.prev x o (λ s. q (same ∙ s)) in
          let w = (h.blocks x).phys_prev in
          let other : w ≢ a = λ s. ne (sym z ∙ ap (block_behind h) s) in
          rw same (keep w y, same_behind w y other ∙ z)
    ]
  ]

  cut_first : (x : Ptr) → with_block held r x ≡ true → (g.blocks x).phys_prev ≡ 0 → x ≡ base
  cut_first x p q = elim (cases x p) [
    | inl e ↦
        let new = ap (λ y. (g.blocks y).phys_prev) e ∙ m.prev_new in
        absurd (omega (arith, new, q, v.inside a here))
    | inr o ↦ elim (ℕ_discrete x (block_behind h a)) [
      | yes e ↦
          let (_, _, z) = v.inside x o in
          let new : (g.blocks x).phys_prev ≡ r = rw e (m.prev_after (omega (arith, e, z))) in
          absurd (omega (arith, new, q, after_a))
      | no ne ↦ v.first x o (sym (m.prevs x (old x o) ne) ∙ q)
    ]
  ]

  cut_last :
      base < g.heap_end
      → (with_block held r g.last_block ≡ true) × (block_behind g g.last_block ≡ g.heap_end)
  cut_last l = elim (ℕ_discrete (block_behind h a) h.heap_end) [
    | yes e ↦ let now = m.last_new e in rw now (keep_new, m.cut_end ∙ e ∙ sym m.ends)
    | no ne ↦
        let (_, _, z) = v.inside a here in
        let (x, y) = v.last (omega (arith, l, m.ends)) in
        let now = m.last_kept (omega (arith, z, ne)) in
        let other : h.last_block ≢ a = λ s. ne (sym (ap (block_behind h) s) ∙ y) in
        rw now (keep h.last_block x, same_behind h.last_block x other ∙ y ∙ sym m.ends)
  ]

  cut_inside :
      (x : Ptr)
      → with_block held r x ≡ true
      → (0 < base) × (base ≤ x) × (block_behind g x ≤ g.heap_end)
  cut_inside x p =
      let (s, t, z) = v.inside a here in
      elim (cases x p) [
        | inl e ↦ rw e (s, omega (arith, t, after_a), omega (arith, m.cut_end, z, m.ends))
        | inr o ↦ elim (ℕ_discrete x a) [
          | yes e ↦ rw e (s, t, omega (arith, m.cut_at, before_end, z, m.ends))
          | no ne ↦
              let (s', t', z') = v.inside x o in
              (s', t', omega (arith, z', same_behind x o ne, m.ends))
        ]
      ]

  cut_apart :
      (x y : Ptr)
      → with_block held r x ≡ true
      → with_block held r y ≡ true
      → x < y
      → block_behind g x ≤ y
  cut_apart x y p q l = elim (cases x p) [
    | inl e ↦ rw e (elim (cases y q) [
      | inl e' ↦ absurd (omega (arith, e, e', l))
      | inr o' ↦ omega (arith, v.apart a y here o' (omega (arith, after_a, e, l)), m.cut_end)
    ])
    | inr o ↦ elim (ℕ_discrete x a) [
      | yes e ↦ rw e (elim (cases y q) [
        | inl e' ↦ omega (arith, m.cut_at, e')
        | inr o' ↦ omega (arith, v.apart a y here o' (omega (arith, e, l)), m.cut_at, before_end)
      ])
      | no ne ↦
          let same = same_behind x o ne in
          elim (cases y q) [
            | inr o' ↦ omega (arith, v.apart x y o o' l, same)
            | inl e' ↦ elim (dec_lt x a) [
              | yes lt ↦ omega (arith, v.apart x a o here lt, same, after_a, e')
              | no ge ↦
                  absurd
                    (omega (arith, v.apart a x here o (omega (arith, ge, ne)), before_end, l, e'))
            ]
          ]
    ]
  ]

  pub Cut-IsLayout : IsLayout g (with_block held r) base
  Cut-IsLayout = record {
    small = omega (arith, v.small, m.ends);
    inside = cut_inside;
    next = cut_next;
    prev = cut_prev;
    first = cut_first;
    last = cut_last;
    apart = cut_apart;
  }
