-- ===== src/Km/Release.antt =====
-- MemoryControl.c, kfree on the whole heap: the lists and the layout together.
use fexox_os.Base.{
  ℕ, ◌+◌, ◌-◌, ◌≡◌, ◌≢◌, refl, ◌∙◌, sym, ap, Bool, true, false, ◌&&◌, not, arith, ltb, ◌==◌, update,
  add64, sub64, inl, inr, Bool-cases,
}
use native.Mathlib.Decide.{ℕ_discrete}
use fexox_os.Km.{
  Ptr, Heap, header_size, write, block_behind, merge, merge_next, merge_prev, free_block, kfree,
  km_list_unlink, km_insert_free,
}
use fexox_os.Km.Layout.{SameLayout, SameLayout-IsLayout, Merged, Merged-IsLayout, without}
use fexox_os.Km.Links.{km_list_unlink-Relinked, km_list_unlink_frees, merge-Merged}
use fexox_os.Km.Lists.{unlink-IsLinked}
use fexox_os.Km.Whole.{
  IsHeap, IsLoose, in_use, SameUse, SameUse-trans, SameLinks, SameLinks-IsLinked, insert-IsHeap,
  insert-SameUse,
}

-- `g` is a heap with the same blocks in use, and its free block `c` is on no list.
pub record Loosened (h : Heap) (held : Ptr → Bool) (base : ℕ) (g : Heap) (c : Ptr) : Type 0 where
  pub kept : Ptr → Bool
  pub loose : IsLoose g kept base c
  pub same : SameUse h held g kept

-- a merge leaves the lists as they are, but for the size of the block that grows
merge-SameLinks :
    (h : Heap) (a d : Ptr) (on : Ptr → Bool)
    → on a ≡ false
    → Merged h (merge h a d) a d
    → SameLinks h (merge h a d) on
unfolding merge
merge-SameLinks h a d on off m = record {
  lists = λ c. ground arith;
  nexts = λ x p. ground arith;
  prevs = λ x p. ground arith;
  sizes = λ x p. m.sizes x (λ e. ground (arith, p, ap on e, off));
}

-- The free block `f` next to the loose block `b` leaves its list, and the two become one: `a` is the
-- one in front, `d` the one behind.
module _ (h : Heap) (held : Ptr → Bool) (base : ℕ) (b : Ptr) (v : IsLoose h held base b) (f : Ptr)
    (f_held : held f ≡ true) (f_free : (h.blocks f).free ≡ true) (apart : f ≢ b) (a d : Ptr)
    (a_held : held a ≡ true) (d_held : held d ≡ true) (adjacent : block_behind h a ≡ d)
    (a_free : (h.blocks a).free ≡ true) (d_free : (h.blocks d).free ≡ true)
    (off_a : update (v.on) f false a ≡ false) (off_d : update (v.on) f false d ≡ false)
    (rest : (x : Ptr) → x ≢ a → x ≢ d → (x ≢ f) × (x ≢ b)) where
  joined : Loosened h held base (merge (km_list_unlink h f) a d) a
  joined =
      let u = km_list_unlink h f in
      let g = merge u a d in
      let links = km_list_unlink-Relinked h f in
      let laid = SameLayout-IsLayout h u held base links.same v.layout in
      let adjacent_u : block_behind u a ≡ d = omega (arith, adjacent, links.same.sizes a) in
      let m = merge-Merged u held base a d laid d_held adjacent_u in
      let f_on : v.on f ≡ true = ground (arith, v.listed f apart, f_held, f_free) in
      let linked = unlink-IsLinked h v.on v.rank v.top v.links f f_on in
      let behind : a ≢ d = omega (arith, adjacent) in
      let flags : (x : Ptr) → (g.blocks x).free ≡ (h.blocks x).free =
        λ x. m.frees x ∙ km_list_unlink_frees h f x in
      record {
        kept = without held d;
        loose = record {
          layout = Merged-IsLayout u g held base laid a d a_held d_held adjacent_u m;
          high = v.high;
          here = ground (arith, a_held, behind);
          free = flags a ∙ a_free;
          on = update v.on f false;
          rank = v.rank;
          top = v.top;
          links =
              SameLinks-IsLinked u g (update v.on f false) v.rank v.top
                (merge-SameLinks u a d (update v.on f false) off_a m) linked;
          off = off_a;
          listed = λ x ne. elim (ℕ_discrete x d) [
            | yes e ↦ rw e (off_d ∙ ground arith)
            | no far ↦ let (p, q) = rest x ne far in ground (arith, v.listed x q, p, far, flags x)
          ];
        };
        same = record {
          uses = λ x. elim (ℕ_discrete x d) [
            | yes e ↦ let fd = flags d in rw (e, fd, d_free) ground arith
            | no far ↦ ground (arith, far, flags x)
          ];
          sizes = λ x p.
              let other : x ≢ a = λ e. ground (arith, p, ap (λ i. (h.blocks i).free) e, a_free) in
              m.sizes x other ∙ links.same.sizes x;
        };
      }

module _ (h : Heap) (held : Ptr → Bool) (base : ℕ) (b : Ptr) (v : IsLoose h held base b) where
  unchanged : Loosened h held base h b
  unchanged = record {
    kept = held;
    loose = v;
    same = record { uses = λ x. refl; sizes = λ x p. refl };
  }

  merge_next-Loosened : Loosened h held base (merge_next h b) b
  unfolding merge_next
  merge_next-Loosened =
      let f = block_behind h b in
      elim (Bool-cases (ltb f h.heap_end && (h.blocks f).free)) [
        | inr alone ↦ rw alone unchanged
        | inl joins ↦
            let (f_held, _) = v.layout.next b v.here (ground (arith, joins)) in
            let f_free : (h.blocks f).free ≡ true = ground (arith, joins) in
            let apart : f ≢ b = omega arith in
            rw joins (
              joined h held base b v f f_held f_free apart b f v.here f_held refl v.free f_free
                (ground (arith, v.off)) (ground arith) (λ x p q. (q, p)))
      ]

  merge_prev-Loosened : Loosened h held base (merge_prev h b).1 (merge_prev h b).0
  unfolding merge_prev
  merge_prev-Loosened =
      let f = (h.blocks b).phys_prev in
      elim (Bool-cases (not (f == 0) && (h.blocks f).free)) [
        | inr alone ↦ rw alone unchanged
        | inl joins ↦
            let (f_held, next) = v.layout.prev b v.here (ground (arith, joins)) in
            let f_free : (h.blocks f).free ≡ true = ground (arith, joins) in
            let apart : f ≢ b = λ e. omega (arith, next, ap (block_behind h) e) in
            rw joins (
              joined h held base b v f f_held f_free apart f b f_held v.here next f_free v.free
                (ground arith) (ground (arith, v.off, apart)) (λ x p q. (p, q)))
      ]

-- A block is released: the blocks in use are the others, as large as before.
pub record Released (h : Heap) (held : Ptr → Bool) (base : ℕ) (b : Ptr) (g : Heap) : Type 0 where
  pub kept : Ptr → Bool
  pub heap : IsHeap g kept base
  pub uses : (x : Ptr) → in_use g kept x ≡ (in_use h held x && not (x == b))
  pub sizes : (x : Ptr) → in_use g kept x ≡ true → (g.blocks x).size ≡ (h.blocks x).size

module _ (h : Heap) (held : Ptr → Bool) (base : ℕ) (b : Ptr) (v : IsHeap h held base)
    (used : in_use h held b ≡ true) where
  abbrev marked : Heap
  marked = record (write h b (record (h.blocks b) { free = true })) {
    heap_used = sub64 h.heap_used (add64 (h.blocks b).size header_size);
  }

  b_off : v.on b ≡ false
  b_off = ground (arith, v.listed b, used)

  marked-SameLayout : SameLayout h marked
  marked-SameLayout = record {
    ends = refl;
    lasts = refl;
    sizes = λ a. ground arith;
    prevs = λ a. ground arith;
  }

  marked-IsLoose : IsLoose marked held base b
  marked-IsLoose = record {
    layout = SameLayout-IsLayout h marked held base marked-SameLayout v.layout;
    high = v.high;
    here = ground (arith, used);
    free = ground arith;
    on = v.on;
    rank = v.rank;
    top = v.top;
    links =
        SameLinks-IsLinked h marked v.on v.rank v.top
          (record {
            lists = λ c. refl;
            nexts = λ x p. ground arith;
            prevs = λ x p. ground arith;
            sizes = λ x p. ground arith;
          })
          v.links;
    off = b_off;
    listed = λ x ne. ground (arith, v.listed x, ne);
  }

  both :
      Loosened marked held base
        (merge_prev (merge_next marked b) b).1
        (merge_prev (merge_next marked b) b).0
  both =
      let l1 = merge_next-Loosened marked held base b marked-IsLoose in
      let l2 = merge_prev-Loosened (merge_next marked b) l1.kept base b l1.loose in
      record { kept = l2.kept; loose = l2.loose; same = SameUse-trans l1.same l2.same }

  free_block_runs :
      free_block h b
      ≡ km_insert_free (merge_prev (merge_next marked b) b).1 (merge_prev (merge_next marked b) b).0
  unfolding free_block
  free_block_runs = let f : (h.blocks b).free ≡ false = ground (arith, used) in rw f refl

  free_block-Released : Released h held base b (free_block h b)
  free_block-Released =
      let l = both in
      let g = (merge_prev (merge_next marked b) b).1 in
      let c = (merge_prev (merge_next marked b) b).0 in
      let same = SameUse-trans l.same (insert-SameUse g l.kept c l.loose.free) in
      let e = free_block_runs in
      rw e (record {
        kept = l.kept;
        heap = (insert-IsHeap g l.kept base c l.loose).0;
        uses = λ x. same.uses x ∙ ground (arith, used);
        sizes = λ x p. same.sizes x (sym (same.uses x) ∙ p) ∙ ground arith;
      })

-- In a heap whose blocks fill it and whose free blocks are those of the doubly linked free lists, each
-- on the list of its class, kfree of the address behind a header in use leaves a heap of that kind, in
-- which the blocks in use are the others, as large as before.
pub kfree-Released :
    (h : Heap) (held : Ptr → Bool) (base b : ℕ)
    → IsHeap h held base
    → in_use h held b ≡ true
    → Released h held base b (kfree h (b + header_size))
unfolding kfree
kfree-Released h held base b v used =
    let back : b + header_size - header_size ≡ b = omega arith in
    let some_ptr : (b + header_size == 0) ≡ false = ground arith in
    rw (some_ptr, back) (free_block-Released h held base b v used)
