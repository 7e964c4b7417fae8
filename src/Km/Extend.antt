-- ===== src/Km/Extend.antt =====
-- MemoryControl.c, km_expand: a new block at the end of the heap, before it enters its list.
use fexox_os.Base.{
  ℕ, ◌+◌, ◌*◌, ◌-◌, ◌≤◌, ◌<◌, ◌≡◌, ◌≢◌, refl, ◌∙◌, sym, ap, Bool, true, false, arith, ◌==◌,
  if◌then◌else◌, update, inl, inr, Bool-cases, u64_mod, page_size,
}
use native.Mathlib.Decide.{ℕ_discrete, dec_lt}
use fexox_os.Km.{Ptr, Heap, Block, header_size, block_behind, write, km_insert_free, km_size_class}
use fexox_os.Km.Expand.{add_block}
use fexox_os.Km.Split.{with_block}
use fexox_os.Km.Whole.{IsHeap, IsLoose, SameUse, SameLinks, SameLinks-IsLinked}

-- the heap with its new block, before that enters its list
abbrev pub extended : Heap → (pages : ℕ) → Heap
extended h pages =
    let fields : Block = record {
      size = pages * page_size - header_size;
      free = true;
      next = 0;
      prev = 0;
      phys_prev = h.last_block;
    } in
    record (write h h.heap_end fields) {
      last_block = h.heap_end;
      heap_end = h.heap_end + pages * page_size;
    }

-- km_insert_free, once it is known whether the list of the class `c` is empty
abbrev entered : (t : Bool) → Heap → (b c : ℕ) → Heap
entered t h b c =
    let head = h.free_lists c in
    let h1 = write h b (record (h.blocks b) { free = true; next = head; prev = 0 }) in
    let h2 = if t then h1 else write h1 head (record (h1.blocks head) { prev = b }) in
    record h2 { free_lists = update h.free_lists c b }

entered_end :
    (t : Bool) (h : Heap) (b c end : ℕ)
    → record (entered t h b c) { heap_end = end } ≡ entered t (record h { heap_end = end }) b c
entered_end true h b c end = refl
entered_end false h b c end = refl

inserted_end :
    (h : Heap) (b end : ℕ)
    → record (km_insert_free h b) { heap_end = end }
      ≡ km_insert_free (record h { heap_end = end }) b
unfolding km_insert_free
inserted_end h b end =
    let c = km_size_class (h.blocks b).size in entered_end (h.free_lists c == 0) h b c end

-- The end of the heap may be moved first.
pub add_block-extended :
    (h : Heap) (pages : ℕ) → add_block h pages ≡ km_insert_free (extended h pages) h.heap_end
unfolding add_block
add_block-extended h pages =
    let fields : Block = record {
      size = pages * page_size - header_size;
      free = true;
      next = 0;
      prev = 0;
      phys_prev = h.last_block;
    } in
    inserted_end (record (write h h.heap_end fields) { last_block = h.heap_end }) h.heap_end
      (h.heap_end + pages * page_size)

module _ (h : Heap) (held : Ptr → Bool) (base : ℕ) (v : IsHeap h held base) (pages : ℕ)
    (some_pages : 0 < pages) (small : h.heap_end + pages * page_size + 16 ≤ u64_mod) where
  abbrev g : Heap
  g = extended h pages

  abbrev end : Ptr
  end = h.heap_end

  new_behind : block_behind g end ≡ end + pages * page_size
  new_behind = ground arith

  new_held : held end ≡ false
  new_held = elim (Bool-cases (held end)) [
    | inr e ↦ e
    | inl e ↦ absurd (omega (arith, v.layout.inside end e))
  ]

  old : (x : Ptr) → held x ≡ true → x ≢ end
  old x p e = ground (arith, p, ap held e, new_held)

  was_held : (x : Ptr) → x ≢ end → with_block held end x ≡ true → held x ≡ true
  was_held x ne p = ground (arith, ne, p)

  keep : (x : Ptr) → held x ≡ true → with_block held end x ≡ true
  keep x p = ground (arith, p)

  same_behind : (x : Ptr) → x ≢ end → block_behind g x ≡ block_behind h x
  same_behind x ne = ground (arith, ne)

  -- only the last block reaches to the end
  last_is : (x : Ptr) → held x ≡ true → block_behind h x ≡ end → h.last_block ≡ x
  last_is x p e =
      let l = h.last_block in
      let (l_held, l_end) = v.layout.last (omega (arith, v.layout.inside x p)) in
      elim (dec_lt l x) [
        | yes less ↦ absurd (omega (arith, v.layout.apart l x l_held p less, l_end, e))
        | no le ↦ elim (dec_lt x l) [
          | yes less ↦ absurd (omega (arith, v.layout.apart x l p l_held less, l_end, e))
          | no ge ↦ omega (arith, le, ge)
        ]
      ]

  grown_next :
      (x : Ptr)
      → with_block held end x ≡ true
      → block_behind g x < g.heap_end
      → (with_block held end (block_behind g x) ≡ true)
        × ((g.blocks (block_behind g x)).phys_prev ≡ x)
  grown_next x p q = elim (ℕ_discrete x end) [
    | yes e ↦ absurd (omega (arith, q, new_behind, ap (block_behind g) e))
    | no ne ↦
        let same = same_behind x ne in
        let x_held = was_held x ne p in
        elim (ℕ_discrete (block_behind h x) end) [
          | yes at ↦
              let to_end = same ∙ at in
              rw to_end (ground arith, ground (arith, last_is x x_held at))
          | no far ↦
              let (_, _, most) = v.layout.inside x x_held in
              let (y, z) = v.layout.next x x_held (omega (arith, most, far)) in
              rw same (keep (block_behind h x) y, ground (arith, far, z))
        ]
  ]

  grown_prev :
      (x : Ptr)
      → with_block held end x ≡ true
      → (g.blocks x).phys_prev ≢ 0
      → (with_block held end (g.blocks x).phys_prev ≡ true)
        × (block_behind g ((g.blocks x).phys_prev) ≡ x)
  grown_prev x p q = elim (ℕ_discrete x end) [
    | yes e ↦
        let now : (g.blocks x).phys_prev ≡ h.last_block = ground (arith, e) in
        let there : base < end = elim (ℕ_discrete base end) [
          | yes s ↦ absurd (q (now ∙ v.empty s))
          | no s ↦ omega (arith, s, v.starts)
        ] in
        let (l_held, l_end) = v.layout.last there in
        rw now (
          keep h.last_block l_held,
          same_behind h.last_block (old h.last_block l_held) ∙ l_end ∙ sym e,
        )
    | no ne ↦
        let now : (g.blocks x).phys_prev ≡ (h.blocks x).phys_prev = ground (arith, ne) in
        let w = (h.blocks x).phys_prev in
        let (y, z) = v.layout.prev x (was_held x ne p) (λ s. q (now ∙ s)) in
        rw now (keep w y, same_behind w (old w y) ∙ z)
  ]

  grown_first : (x : Ptr) → with_block held end x ≡ true → (g.blocks x).phys_prev ≡ 0 → x ≡ base
  grown_first x p q = elim (ℕ_discrete x end) [
    | no ne ↦ v.layout.first x (was_held x ne p) (ground (arith, ne, q))
    | yes e ↦ elim (ℕ_discrete base end) [
      | yes s ↦ e ∙ sym s
      | no s ↦
          let none_last : h.last_block ≡ 0 = ground (arith, e, q) in
          let (l_held, _) = v.layout.last (omega (arith, s, v.starts)) in
          absurd (omega (arith, none_last, v.layout.inside h.last_block l_held))
    ]
  ]

  grown_apart :
      (x y : Ptr)
      → with_block held end x ≡ true
      → with_block held end y ≡ true
      → x < y
      → block_behind g x ≤ y
  grown_apart x y p q l = elim (ℕ_discrete y end) [
    | yes e ↦
        let ne : x ≢ end = omega (arith, l, e) in
        omega (arith, same_behind x ne, e, v.layout.inside x (was_held x ne p))
    | no far ↦
        let y_held = was_held y far q in
        let ne : x ≢ end = omega (arith, l, v.layout.inside y y_held) in
        omega (arith, same_behind x ne, v.layout.apart x y (was_held x ne p) y_held l)
  ]

  grown_inside :
      (x : Ptr)
      → with_block held end x ≡ true
      → (0 < base) × (base ≤ x) × (block_behind g x ≤ g.heap_end)
  grown_inside x p = elim (ℕ_discrete x end) [
    | yes e ↦ (
      omega (arith, v.high),
      omega (arith, e, v.starts),
      omega (arith, new_behind, ap (block_behind g) e),
    )
    | no ne ↦
        let (s, t, z) = v.layout.inside x (was_held x ne p) in
        (s, t, omega (arith, z, same_behind x ne))
  ]

  pub extended-IsLoose : (w : IsLoose g (with_block held end) base end) × (w.top ≡ v.top)
  extended-IsLoose = (
    record {
      layout = record {
        small = small;
        inside = grown_inside;
        next = grown_next;
        prev = grown_prev;
        first = grown_first;
        last = λ l. (ground arith, new_behind);
        apart = grown_apart;
      };
      high = v.high;
      here = ground arith;
      free = ground arith;
      on = v.on;
      rank = v.rank;
      top = v.top;
      links = SameLinks-IsLinked h g v.on v.rank v.top same_links v.links;
      off = off_end;
      listed = λ x ne. ground (arith, ne, v.listed x);
    },
    refl,
  )
    where
      off_end : v.on end ≡ false
      off_end = ground (arith, v.listed end, new_held)

      same_links : SameLinks h g (v.on)
      same_links = record {
        lists = λ c. refl;
        nexts = λ x p. ground (arith, p, off_end);
        prevs = λ x p. ground (arith, p, off_end);
        sizes = λ x p. ground (arith, p, off_end);
      }

  pub extended-SameUse : SameUse h held g (with_block held end)
  extended-SameUse = record {
    uses = λ x. ground (arith, new_held);
    sizes = λ x p. ground (arith, p, new_held);
  }
