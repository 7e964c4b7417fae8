-- ===== src/Km/Walk.antt =====
-- MemoryControl.c, km_find_best on the whole heap: the search sees every free block, and ends.
use fexox_os.Base.{
  ℕ, zero, suc, ◌+◌, ◌≤◌, ◌<◌, ◌≡◌, ◌≢◌, ◌∙◌, sym, ap, Bool, true, Option, some, arith, u64_mod,
}
use native.Mathlib.Decide.{ℕ_discrete}
use fexox_os.Vmm.{direct_map_offset}
use fexox_os.Km.{Ptr, Heap, km_find_best}
use fexox_os.Km.Search.{Chain, stop, link, On, here, there, not_null, Fits}
use fexox_os.Km.Classes.{km_size_class-monotone}
use fexox_os.Km.Find.{IsListed, Listed, Found, none_fits, best_fit, km_find_best-Found}
use fexox_os.Km.Lists.{class_of}
use fexox_os.Km.Whole.{IsHeap}
use fexox_os.Km.Allot.{Allotted, take_block-Allotted}

module _ (h : Heap) (held : Ptr → Bool) (base : ℕ) (v : IsHeap h held base) where
  on_high : (p : Ptr) → v.on p ≡ true → direct_map_offset ≤ p
  on_high p o =
      let in_heap : held p ≡ true = ground (arith, o, v.listed p) in
      let (_, low, _) = v.layout.inside p in_heap in omega (arith, low, v.high)

  -- the rank bounds the length of what is left of a list
  walk_down : (k : ℕ) (p : Ptr) → v.on p ≡ true → v.rank p < k → (n : ℕ) × (n ≤ k) × Chain h n p
  walk_down zero p o less = absurd (omega arith)
  walk_down (suc k) p o less =
      let some_p : p ≢ 0 = λ e. ground (arith, o, ap v.on e, v.links.null_off) in
      elim (ℕ_discrete (h.blocks p).next 0) [
        | yes e ↦ (1, omega arith, link some_p (on_high p o) (rw e stop))
        | no ne ↦
            let (o', _, _, r) = v.links.nexts p o ne in
            let (n, le, c) = walk_down k (h.blocks p).next o' (omega (arith, r, less)) in
            (suc n, omega arith, link some_p (on_high p o) c)
      ]

  list_ends : (c : ℕ) → (n : ℕ) × (n < v.top + 2) × Chain h n (h.free_lists c)
  list_ends c = elim (ℕ_discrete (h.free_lists c) 0) [
    | yes e ↦ (0, omega arith, rw e stop)
    | no ne ↦
        let (o, _, _) = v.links.heads c ne in
        let bound = v.links.ranks (h.free_lists c) o in
        let (n, le, ch) = walk_down (suc v.top) (h.free_lists c) o (omega (arith, bound)) in
        (n, omega arith, ch)
  ]

  -- what is on a list is a free block of the list's class
  on_list :
      (c x : ℕ) (p : Ptr)
      → v.on p ≡ true
      → class_of h p ≡ c
      → On h x p
      → (v.on x ≡ true) × (class_of h x ≡ c)
  on_list c x p o k (here ne) = (o, k)
  on_list c x p o k (there ne rest) =
      let (o', k', _, _) = v.links.nexts p o (not_null h x (h.blocks p).next rest) in
      on_list c x (h.blocks p).next o' (k' ∙ k) rest

  listed_at : (c x : ℕ) → On h x (h.free_lists c) → (v.on x ≡ true) × (class_of h x ≡ c)
  listed_at c x o =
      let (p, k, _) = v.links.heads c (not_null h x (h.free_lists c) o) in
      on_list c x (h.free_lists c) p k o

  behind : (x p q : Ptr) → (h.blocks q).next ≡ p → q ≢ 0 → On h x p → On h x q
  behind x p q e ne o = there ne (rw e o)

  -- a walk back from a block on a list ends at the first one
  from_front :
      (k : ℕ) (x p : Ptr)
      → v.on p ≡ true
      → v.top < v.rank p + k
      → On h x p
      → On h x (h.free_lists (class_of h p))
  from_front zero x p o less on = absurd (omega (arith, v.links.ranks p o))
  from_front (suc k) x p o less on = elim (ℕ_discrete (h.blocks p).prev 0) [
    | yes e ↦ let first = v.links.firsts p o e in rw first on
    | no ne ↦
        let q = (h.blocks p).prev in
        let (o', back) = v.links.prevs p o ne in
        let some_p : (h.blocks q).next ≢ 0 = λ e. not_null h x p on (sym back ∙ e) in
        let (_, k', _, r) = v.links.nexts q o' some_p in
        let same : class_of h p ≡ class_of h q = sym (ap (class_of h) back) ∙ k' in
        let further =
          from_front k x q o' (omega (arith, less, r, ap v.rank back)) (behind x p q back ne on) in
        rw same further
  ]

  bounded : (x : Ptr) → held x ≡ true → class_of h x < 12
  bounded x p =
      let (_, _, most) = v.layout.inside x p in
      let (c, _, _) =
        km_size_class-monotone (h.blocks x).size (h.blocks x).size (omega arith)
          (omega (arith, most, v.layout.small)) in
      omega (arith, c.bounded)

  on-Listed : (x : Ptr) → v.on x ≡ true → Listed h x
  on-Listed x o =
      let some_x : x ≢ 0 = λ e. ground (arith, o, ap v.on e, v.links.null_off) in
      let in_heap : held x ≡ true = ground (arith, o, v.listed x) in
      (class_of h x, bounded x in_heap, from_front (suc v.top) x x o (omega arith) (here some_x))

  fitting_Listed : (req x : ℕ) → held x ≡ true → Fits h req x → Listed h x
  fitting_Listed req x p (free, enough) = on-Listed x (ground (arith, v.listed x, p, free))

  IsHeap-IsListed : (fuel : ℕ) → v.top + 2 ≤ fuel → IsListed h held fuel
  IsHeap-IsListed fuel enough = record {
    chains = λ c hi. let (n, le, ch) = list_ends c in (n, omega (arith, le), ch);
    listed = λ c x hi o. let (p, k) = listed_at c x o in (ground (arith, p, v.listed x), k);
  }

-- how km_find_best ends on a heap
pub data Searched (h : Heap) (held : Ptr → Bool) (base req : ℕ) : Option (Ptr × Heap) → Type 0 where
  too_small : ((x : Ptr) → held x ≡ true → ¬ Fits h req x) → Searched h held base req (some (0, h))
  best :
      {b : Ptr} {g : Heap}
      → b ≢ 0
      → held b ≡ true
      → Fits h req b
      → ((x : Ptr) → held x ≡ true → Fits h req x → (h.blocks b).size ≤ (h.blocks x).size)
      → Allotted h held base b req g
      → Searched h held base req (some (b, g))

Found-Searched :
    {h : Heap} {held : Ptr → Bool} {base req : ℕ} {r : Option (Ptr × Heap)}
    → IsHeap h held base
    → Found h held base req r
    → Searched h held base req r
Found-Searched {h} {held} {base} {req} v (none_fits unfit) =
    too_small (λ x p f. unfit x (fitting_Listed h held base v req x p f) f)
Found-Searched {h} {held} {base} {req} v (best_fit {b} some_b (c, hi, o) f least g) =
    let (b_on, _) = listed_at h held base v c b o in
    let in_heap : held b ≡ true = ground (arith, b_on, v.listed b) in
    best some_b in_heap f (λ x p f'. least x (fitting_Listed h held base v req x p f') f')
      (take_block-Allotted h held base b req v in_heap f.0 f.1)

-- On a heap whose blocks fill it and whose free blocks are those of the doubly linked free lists, each
-- on the list of its class, and for a request that rounds up in 64 bits, km_find_best ends: if no free
-- block is as large as the request, it returns NULL and changes nothing; otherwise it returns a
-- smallest free block that is, which becomes a block in use, and leaves a heap of that kind, in
-- which the blocks in use are that one and those of before.
pub km_find_best-Searched :
    (fuel : ℕ) (h : Heap) (held : Ptr → Bool) (base req : ℕ) (v : IsHeap h held base)
    → v.top + 2 ≤ fuel
    → req + 16 ≤ u64_mod
    → Searched h held base req (km_find_best fuel h req)
km_find_best-Searched fuel h held base req v enough small = Found-Searched v (
    km_find_best-Found fuel h held base req v.layout (IsHeap-IsListed h held base v fuel enough)
      small)
