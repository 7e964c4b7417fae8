-- ===== src/Km/Search.antt =====
-- MemoryControl.c, km_find_best: the search of the free lists finds the block that fits best.
use fexox_os.Base.{
  ℕ, zero, suc, ◌+◌, ◌-◌, ◌≤◌, ◌<◌, ◌≡◌, ◌≢◌, ◌⊎◌, refl, subst, inl, inr, true, false, ◌&&◌, ◌||◌,
  arith, ltb, leb, ◌==◌, if◌then◌else◌, Bool-cases,
}
use fexox_os.Vmm.{direct_map_offset}
use fexox_os.Km.{Ptr, Heap, Best, BestScan, exact, so_far, endless, scan_list, scan_classes}
use native.Mathlib.Decide.{ℕ_discrete}

-- from `p`, `n` blocks are linked up to NULL, none below the direct map
pub data Chain (h : Heap) : ℕ → Ptr → Type 0 where
  stop : Chain h 0 0
  link : {n p : ℕ} → p ≢ 0 → direct_map_offset ≤ p → Chain h n (h.blocks p).next → Chain h (suc n) p

-- `x` is on the list from `p`
pub data On (h : Heap) (x : Ptr) : Ptr → Type 0 where
  here : x ≢ 0 → On h x x
  there : {p : Ptr} → p ≢ 0 → On h x (h.blocks p).next → On h x p

-- `x` is a free block for `req` bytes
abbrev pub Fits : Heap → (req : ℕ) → Ptr → Type 0
Fits h req x = ((h.blocks x).free ≡ true) × (req ≤ (h.blocks x).size)

-- the best block so far is the one of before, or one that `seen` names
abbrev pub Source : Heap → (req : ℕ) → (Ptr → Type 0) → (best best' : Best) → Type 0
Source h req seen best best' =
    (best' ≡ best)
    ⊎ (seen best'.block × Fits h req best'.block × (best'.diff ≡ (h.blocks best'.block).size - req))

-- how a search ends that has seen the blocks `seen`
pub data Scanned (h : Heap) (req : ℕ) (seen : Ptr → Type 0) (best : Best) : BestScan → Type 0 where
  exactly :
      {b : Ptr}
      → seen b
      → (h.blocks b).free ≡ true
      → (h.blocks b).size ≡ req
      → Scanned h req seen best (exact b)
  best_of :
      {best' : Best}
      → Source h req seen best best'
      → 0 < best'.diff
      → best'.diff ≤ best.diff
      → ((x : Ptr) → seen x → Fits h req x → best'.diff ≤ (h.blocks x).size - req)
      → Scanned h req seen best (so_far best')

pub not_null : (h : Heap) (x p : Ptr) → On h x p → p ≢ 0
not_null h x p (here ne) = ne
not_null h x p (there ne rest) = ne

-- a search that goes on from `mid`, among the blocks that are left
widen :
    (h : Heap) (req : ℕ) (seen more : Ptr → Type 0) (best mid : Best) (s : BestScan)
    → ((x : Ptr) → seen x → more x)
    → Source h req more best mid
    → mid.diff ≤ best.diff
    → ((x : Ptr) → more x → Fits h req x → seen x ⊎ (mid.diff ≤ (h.blocks x).size - req))
    → Scanned h req seen mid s
    → Scanned h req more best s
widen h req seen more best mid s sub src le left (exactly o f e) = exactly (sub _ o) f e
widen h req seen more best mid s sub src le left (best_of {best' = b} src' pos le' all) =
    best_of (elim src' [ inl e ↦ rw e src | inr (o, f, d) ↦ inr (sub b.block o, f, d) ]) pos
      (omega (arith, le, le'))
      (λ x o f. elim (left x o f) [ inl o' ↦ all x o' f | inr d ↦ omega (arith, d, le') ])

abbrev better : Heap → (req : ℕ) → Ptr → Best → Best
better h req p best =
    let diff = (h.blocks p).size - req in
    if ltb diff best.diff then record { block = p; diff = diff } else best

-- a list's first block
module _ (h : Heap) (req p : ℕ) (best : Best) (some_p : p ≢ 0) where
  first_or_rest : (x : Ptr) → On h x p → (x ≡ p) ⊎ On h x (h.blocks p).next
  first_or_rest x (here ne) = inl refl
  first_or_rest x (there ne o) = inr o

  better-Source :
      Fits h req p
      → Source h req (λ x. On h x p) best (better h req p best)
        × ((better h req p best).diff ≤ best.diff)
        × ((better h req p best).diff ≤ (h.blocks p).size - req)
  better-Source f = elim (Bool-cases (ltb ((h.blocks p).size - req) best.diff)) [
    | inl e ↦ rw e (inr (here some_p, f, refl), ground (arith, e), omega arith)
    | inr e ↦ rw e (inl refl, omega arith, ground (arith, e))
  ]

  step_over :
      (s : BestScan)
      → (Fits h req p → ⊥)
      → Scanned h req (λ x. On h x (h.blocks p).next) best s
      → Scanned h req (λ x. On h x p) best s
  step_over s bad r =
      widen h req (λ x. On h x (h.blocks p).next) (λ x. On h x p) best best s
        (λ x o. there some_p o) (inl refl) (omega arith)
        (λ x o f. elim (first_or_rest x o) [
          | inl e ↦ absurd (bad (subst (Fits h req) e f))
          | inr o' ↦ inl o'
        ])
        r

  step_in :
      (s : BestScan)
      → Fits h req p
      → Scanned h req (λ x. On h x (h.blocks p).next) (better h req p best) s
      → Scanned h req (λ x. On h x p) best s
  step_in s fits r =
      let (src, le, le_p) = better-Source fits in
      widen h req (λ x. On h x (h.blocks p).next) (λ x. On h x p) best (better h req p best) s
        (λ x o. there some_p o) src le
        (λ x o f. elim (first_or_rest x o) [ inl e ↦ inr (rw e le_p) | inr o' ↦ inl o' ]) r

scan_list-Scanned :
    (fuel n : ℕ) (h : Heap) (req p : ℕ) (best : Best)
    → n < fuel
    → Chain h n p
    → 0 < best.diff
    → Scanned h req (λ x. On h x p) best (scan_list fuel h req p best)
unfolding scan_list
scan_list-Scanned zero n h req p best lt c pos = absurd (omega arith)
scan_list-Scanned (suc k) zero h req p best lt stop pos =
    best_of (inl refl) pos (omega arith) (λ x o f. absurd (not_null h x 0 o refl))
scan_list-Scanned (suc k) (suc n) h req p best lt (link some_p low c) pos =
    let valid : (p == 0 || ltb p direct_map_offset) ≡ false = ground (arith, some_p, low) in
    let next = (h.blocks p).next in
    elim (Bool-cases ((h.blocks p).free && leb req (h.blocks p).size)) [
      | inr bad ↦
          rw (valid, bad)
            (step_over h req p best some_p _ (λ f. ground (arith, bad, f))
              (scan_list-Scanned k n h req next best (omega arith) c pos))
      | inl fits ↦
          let f : Fits h req p = ground (arith, fits) in
          elim (Bool-cases ((h.blocks p).size - req == 0)) [
            | inl whole ↦
                let less : ltb ((h.blocks p).size - req) best.diff ≡ true =
                  ground (arith, whole, pos) in
                rw (valid, fits, whole, less)
                  (exactly (here some_p) (f.0) (ground (arith, whole, f.1)))
            | inr part ↦
                let pos' : 0 < (better h req p best).diff = ground (arith, part, pos) in
                rw (valid, fits, part)
                  (step_in h req p best some_p _ f
                    (scan_list-Scanned k n h req next (better h req p best) (omega arith) c pos'))
          ]
    ]

-- `x` is on the list of a class from `i` on, of `k` classes
abbrev pub InClasses : Heap → (k i : ℕ) → Ptr → Type 0
InClasses h k i x = (c : ℕ) × (i ≤ c) × (c < i + k) × On h x (h.free_lists c)

-- every list from class `i` on ends at NULL within the fuel
abbrev pub Chains : Heap → (fuel k i : ℕ) → Type 0
Chains h fuel k i = (c : ℕ) → i ≤ c → c < i + k → (n : ℕ) × (n < fuel) × Chain h n (h.free_lists c)

-- the search of one list, and of the classes after it
next_classes :
    (k fuel : ℕ) (h : Heap) (req i : ℕ) (best : Best)
    → ((b : Best)
        → 0 < b.diff
        → Scanned h req (InClasses h k (i + 1)) b (scan_classes k fuel h req (i + 1) b))
    → (s : BestScan) → Scanned h req (λ x. On h x (h.free_lists i)) best s
    → Scanned h req (InClasses h (suc k) i) best (elim s [
      | exact b ↦ exact b
      | endless ↦ endless
      | so_far b ↦ scan_classes k fuel h req (i + 1) b
    ])
next_classes k fuel h req i best later s (exactly o f e) =
    exactly (i, omega arith, omega arith, o) f e
next_classes k fuel h req i best later s (best_of {best' = b} src pos' le all) =
    widen h req (InClasses h k (i + 1)) (InClasses h (suc k) i) best b
      (scan_classes k fuel h req (i + 1) b) (λ x (c, lo, hi, o). (c, omega arith, omega arith, o))
      (elim src [ inl e ↦ inl e | inr (o, f, d) ↦ inr ((i, omega arith, omega arith, o), f, d) ]) le
      (λ x (c, lo, hi, o) f. elim (ℕ_discrete c i) [
        | yes e ↦ inr (all x (subst (λ j. On h x (h.free_lists j)) e o) f)
        | no ne ↦ inl (c, omega arith, omega arith, o)
      ])
      (later b pos')

pub scan_classes-Scanned :
    (k fuel : ℕ) (h : Heap) (req i : ℕ) (best : Best)
    → Chains h fuel k i
    → 0 < best.diff
    → Scanned h req (InClasses h k i) best (scan_classes k fuel h req i best)
unfolding scan_classes
scan_classes-Scanned zero fuel h req i best chains pos =
    best_of (inl refl) pos (omega arith) (λ x o f. absurd (omega (arith, o.1, o.2)))
scan_classes-Scanned (suc k) fuel h req i best chains pos =
    let (n, lt, c) = chains i (omega arith) (omega arith) in
    next_classes k fuel h req i best
      (λ b pos'.
        scan_classes-Scanned k fuel h req (i + 1) b
          (λ c lo hi. chains c (omega arith) (omega arith)) pos')
      (scan_list fuel h req (h.free_lists i) best)
      (scan_list-Scanned fuel n h req (h.free_lists i) best lt c pos)
