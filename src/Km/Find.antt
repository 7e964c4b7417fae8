-- ===== src/Km/Find.antt =====
-- MemoryControl.c, km_find_best as a whole: best fit, over all lists.
use fexox_os.Base.{
  ℕ, ◌+◌, ◌-◌, ◌≤◌, ◌<◌, ◌≡◌, ◌≢◌, refl, ap, inl, inr, Bool, true, false, Option, none, some, arith,
  ◌==◌, if◌then◌else◌, u64_mod,
}
use fexox_os.Km.{
  Ptr, Heap, km_size_class, km_size_classes, Best, BestScan, exact, so_far, endless, scan_classes,
  km_find_best, take_block,
}
use fexox_os.Km.Classes.{km_size_class-monotone}
use fexox_os.Km.Layout.{IsLayout}
use fexox_os.Km.Take.{Granted, take_block-Granted}
use fexox_os.Km.Search.{Chain, On, Fits, Scanned, exactly, best_of, InClasses, scan_classes-Scanned}

-- Each list ends at NULL within the fuel, and holds blocks of the heap of its own class.
pub record IsListed (h : Heap) (held : Ptr → Bool) (fuel : ℕ) : Type 0 where
  pub chains : (c : ℕ) → c < 12 → (n : ℕ) × (n < fuel) × Chain h n (h.free_lists c)
  pub listed :
      (c x : ℕ)
      → c < 12
      → On h x (h.free_lists c)
      → (held x ≡ true) × (km_size_class (h.blocks x).size ≡ c)

-- `x` is on a free list
abbrev pub Listed : Heap → Ptr → Type 0
Listed h x = (c : ℕ) × (c < 12) × On h x (h.free_lists c)

-- how km_find_best ends
pub data Found (h : Heap) (held : Ptr → Bool) (base req : ℕ) : Option (Ptr × Heap) → Type 0 where
  none_fits : ((x : Ptr) → Listed h x → ¬ Fits h req x) → Found h held base req (some (0, h))
  best_fit :
      {b : Ptr}
      → b ≢ 0
      → Listed h b
      → Fits h req b
      → ((x : Ptr) → Listed h x → Fits h req x → (h.blocks b).size ≤ (h.blocks x).size)
      → Granted h held base b req (take_block h b req)
      → Found h held base req (some (b, take_block h b req))

module _ (h : Heap) (held : Ptr → Bool) (base fuel req : ℕ) (v : IsLayout h held base)
    (l : IsListed h held fuel) (small : req + 16 ≤ u64_mod) where
  size_small : (x : Ptr) → Listed h x → (h.blocks x).size + 16 ≤ u64_mod
  size_small x (c, hi, o) = let (p, _) = l.listed c x hi o in omega (arith, v.inside x p, v.small)

  abbrev low : ℕ
  low = km_size_class req

  low_bounded : low ≤ 11
  low_bounded = let (x, _, _) = km_size_class-monotone req req (omega arith) small in x.bounded

  -- what fits is on a list that is searched
  searched : (x : Ptr) → Listed h x → Fits h req x → InClasses h (km_size_classes - low) low x
  searched x (c, hi, o) f =
      let (_, _, up) =
        km_size_class-monotone req (h.blocks x).size (f.1) (size_small x (c, hi, o)) in
      let (_, e) = l.listed c x hi o in (c, omega (arith, up, e), omega (arith, low_bounded, hi), o)

  on_a_list : (x : Ptr) → InClasses h (km_size_classes - low) low x → Listed h x
  on_a_list x (c, lo, hi, o) = (c, omega (arith, low_bounded, hi), o)

  some_block : (x : Ptr) → Listed h x → x ≢ 0
  some_block x (c, hi, o) e = let (p, _) = l.listed c x hi o in omega (arith, v.inside x p, e)

  abbrev start : Best
  start = record { block = 0; diff = u64_mod - 1 }

  grant : (b : Ptr) → Listed h b → Fits h req b → Granted h held base b req (take_block h b req)
  grant b (c, hi, o) f =
      let (p, _) = l.listed c b hi o in take_block-Granted h held base b req v p (f.0) (f.1)

  chosen :
      (s : BestScan)
      → Scanned h req (InClasses h (km_size_classes - low) low) start s
      → Found h held base req (elim s [
        | endless ↦ none
        | exact b ↦ some (b, take_block h b req)
        | so_far b ↦ if b.block == 0 then some (0, h) else some (b.block, take_block h b.block req)
      ])
  chosen s (exactly {b} o f e) =
      let fits : Fits h req b = (f, omega (arith, e)) in
      best_fit (some_block b (on_a_list b o)) (on_a_list b o) fits (λ x q g. omega (arith, e, g.1))
        (grant b (on_a_list b o) fits)
  chosen s (best_of {best' = b} src pos le all) = elim src [
    | inl e ↦
        let none_yet : (b.block == 0) ≡ true = rw e refl in
        rw none_yet (
          none_fits
            (λ x q f. omega (arith, all x (searched x q f) f, ap (λ i. i.diff) e, size_small x q)))
    | inr (o, f, d) ↦
        let q = on_a_list b.block o in
        let there : (b.block == 0) ≡ false = ground (arith, some_block b.block q) in
        rw there (
          best_fit (some_block b.block q) q f
            (λ x q' f'. omega (arith, all x (searched x q' f') f', d, f.1, f'.1))
            (grant b.block q f))
  ]

-- On a heap that its blocks fill, whose free lists end within the fuel and hold blocks of the heap
-- in their own classes, and for a request that rounds up in 64 bits: km_find_best ends; if no
-- listed free block is as large as the request, it returns NULL and changes nothing; otherwise it
-- returns a listed free block as large as the request, none of which is smaller, and takes it.
pub km_find_best-Found :
    (fuel : ℕ) (h : Heap) (held : Ptr → Bool) (base req : ℕ)
    → IsLayout h held base
    → IsListed h held fuel
    → req + 16 ≤ u64_mod
    → Found h held base req (km_find_best fuel h req)
unfolding km_find_best
km_find_best-Found fuel h held base req v l small =
    let c = km_size_class req in
    let start : Best = record { block = 0; diff = u64_mod - 1 } in
    chosen h held base fuel req v l small (scan_classes (km_size_classes - c) fuel h req c start) (
      scan_classes-Scanned (km_size_classes - c) fuel h req c start
        (λ k lo hi. l.chains k (omega (arith, low_bounded h held base fuel req v l small, hi)))
        (omega arith))
