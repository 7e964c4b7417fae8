-- ===== src/Km/Take.antt =====
-- MemoryControl.c, km_find_best from its label `found` on: a free block is taken for a request.
use fexox_os.Base.{
  ℕ, ◌+◌, ◌≤◌, ◌<◌, ◌≡◌, ◌≢◌, refl, ◌∙◌, sym, ap, Bool, true, false, arith, ltb, leb, ◌==◌,
  if◌then◌else◌, update, add64,
}
use fexox_os.Km.{
  Ptr, Block, Heap, header_size, km_min_size, write, block_behind, km_size_class, km_list_unlink,
  lay_rest, split_block, take_block,
}
use fexox_os.Km.Layout.{IsLayout, SameLayout, SameLayout-IsLayout}
use fexox_os.Km.Links.{
  Relinked, Relinked-refl, Relinked-trans, choose-Relinked, link-Relinked, lists-Relinked,
  km_list_unlink-Relinked,
}
use fexox_os.Km.Split.{Cut, Cut-IsLayout, with_block, new_block}

-- `g` is `h` with a header at `r` for the end of the block `a`, which has not shrunk yet.
record Laid (h g : Heap) (a r : Ptr) : Type 0 where
  ends : g.heap_end ≡ h.heap_end
  rest : block_behind g r ≡ block_behind h a
  sizes : (x : Ptr) → x ≢ r → (g.blocks x).size ≡ (h.blocks x).size
  prev_new : (g.blocks r).phys_prev ≡ a
  prev_after : block_behind h a < h.heap_end → (g.blocks (block_behind h a)).phys_prev ≡ r
  prevs : (x : Ptr) → x ≢ r → x ≢ block_behind h a → (g.blocks x).phys_prev ≡ (h.blocks x).phys_prev
  last_kept : block_behind h a < h.heap_end → g.last_block ≡ h.last_block
  last_new : block_behind h a ≡ h.heap_end → g.last_block ≡ r
  frees : (x : Ptr) → x ≢ r → (g.blocks x).free ≡ (h.blocks x).free

lay_ends :
    (t : Bool) (h : Heap) (a r : ℕ) (b : Block)
    → ltb (block_behind h a) h.heap_end ≡ t
    → block_behind h a ≤ h.heap_end
    → r < block_behind h a
    → b.phys_prev ≡ a
    → r + header_size + b.size ≡ block_behind h a
    → (let h1 = write h r b in
        Laid h
          (if t
            then write h1
                (block_behind h a)
                (record (h1.blocks (block_behind h a)) { phys_prev = r })
            else record h1 { last_block = r })
          a
          r)
lay_ends true h a r b less most before prev size = record {
  ends = refl;
  rest = ground (arith, size, before);
  sizes = λ x ne. ground (arith, ne);
  prev_new = ground (arith, prev, before);
  prev_after = λ l. ground arith;
  prevs = λ x ne far. ground (arith, ne, far);
  last_kept = λ l. refl;
  last_new = λ e. absurd (ground (arith, less, e));
  frees = λ x ne. ground (arith, ne);
}
lay_ends false h a r b less most before prev size = record {
  ends = refl;
  rest = ground (arith, size);
  sizes = λ x ne. ground (arith, ne);
  prev_new = ground (arith, prev);
  prev_after = λ l. absurd (ground (arith, less, l));
  prevs = λ x ne far. ground (arith, ne);
  last_kept = λ l. absurd (ground (arith, less, l));
  last_new = λ e. refl;
  frees = λ x ne. ground (arith, ne);
}

module _ (h : Heap) (held : Ptr → Bool) (base : ℕ) (v : IsLayout h held base) (a req : ℕ)
    (here : held a ≡ true) (room : req + header_size < (h.blocks a).size) where
  lay_rest-Laid : Laid h (lay_rest h a req) a (a + header_size + req)
  unfolding lay_rest
  lay_rest-Laid =
      let (_, _, most) = v.inside a here in
      lay_ends (ltb (block_behind h a) h.heap_end) h a (a + header_size + req) _ refl most
        (omega (arith, room)) refl (omega (arith, room))

  pub split_block-Cut : Cut h (split_block h a req) a (a + header_size + req)
  unfolding split_block
  split_block-Cut =
      let r = a + header_size + req in
      let h2 = lay_rest h a req in
      let c = km_size_class (h2.blocks r).size in
      let head = h2.free_lists c in
      let h3 = write h2 r (record (h2.blocks r) { next = head }) in
      let h4 = if head == 0 then h3 else write h3 head (record (h3.blocks head) { prev = r }) in
      let h5 = record h4 { free_lists = update h4.free_lists c r } in
      let r3 : Relinked h2 h3 r = link-Relinked h2 r head (h2.blocks r).prev h2.free_lists r in
      let r4 : Relinked h3 h4 r =
        choose-Relinked (head == 0) h3 h3 _ r (Relinked-refl h3 r)
          (link-Relinked h3 head (h3.blocks head).next r h3.free_lists r) in
      let links : Relinked h2 h5 r =
        Relinked-trans h2 h3 h5 r r3
          (Relinked-trans h3 h4 h5 r r4 (lists-Relinked h4 (update h4.free_lists c r) r)) in
      shrink h5 links
    where
      shrink :
          (h5 : Heap)
          → Relinked (lay_rest h a req) h5 (a + header_size + req)
          → Cut h (write h5 a (record (h5.blocks a) { size = req })) a (a + header_size + req)
      shrink h5 links =
          let r = a + header_size + req in
          let laid = lay_rest-Laid in
          record {
            ends = links.same.ends ∙ laid.ends;
            cut_at = ground arith;
            cut_end = ground (arith, links.same.sizes r, laid.rest);
            sizes = λ x ne far. ground (arith, ne, links.same.sizes x, laid.sizes x far);
            prev_new = ground (arith, links.same.prevs r, laid.prev_new);
            prev_after =
                λ l. ground (arith, links.same.prevs (block_behind h a), laid.prev_after l);
            prevs = λ x ne far. ground (arith, links.same.prevs x, laid.prevs x ne far);
            last_kept = λ l. links.same.lasts ∙ laid.last_kept l;
            last_new = λ e. links.same.lasts ∙ laid.last_new e;
            frees = λ x ne. ground (arith, links.frees x ne, laid.frees x ne);
          }

-- `g` is laid out, its block `b` is in use and large enough for the request, with less than a
-- header and a smallest block to spare, and the blocks of `h` in use are in use in it and as large.
pub record Granted (h : Heap) (held : Ptr → Bool) (base : ℕ) (b req : ℕ) (g : Heap) : Type 0 where
  pub kept_held : Ptr → Bool
  pub layout : IsLayout g kept_held base
  pub taken : (kept_held b ≡ true) × ((g.blocks b).free ≡ false)
  pub fits : (req ≤ (g.blocks b).size) × ((g.blocks b).size < req + header_size + km_min_size)
  pub live :
      (x : Ptr)
      → held x ≡ true
      → (h.blocks x).free ≡ false
      → (kept_held x ≡ true) × ((g.blocks x).free ≡ false) × ((g.blocks x).size ≡ (h.blocks x).size)

-- before the block is marked as in use
record Fitted (h : Heap) (held : Ptr → Bool) (base : ℕ) (b req : ℕ) (g : Heap) : Type 0 where
  kept_held : Ptr → Bool
  layout : IsLayout g kept_held base
  there : kept_held b ≡ true
  fits : (req ≤ (g.blocks b).size) × ((g.blocks b).size < req + header_size + km_min_size)
  live :
      (x : Ptr)
      → held x ≡ true
      → x ≢ b
      → (kept_held x ≡ true)
        × ((g.blocks x).free ≡ (h.blocks x).free)
        × ((g.blocks x).size ≡ (h.blocks x).size)

fit :
    (t : Bool) (h : Heap) (held : Ptr → Bool) (base b req : ℕ)
    → IsLayout h held base
    → held b ≡ true
    → req ≤ (h.blocks b).size
    → leb (req + header_size + km_min_size) (h.blocks b).size ≡ t
    → Fitted h held base b req (if t then split_block h b req else h)
fit false h held base b req v here enough less = record {
  kept_held = held;
  layout = v;
  there = here;
  fits = (enough, ground (arith, less));
  live = λ x p ne. (p, refl, refl);
}
fit true h held base b req v here enough less =
    let room : req + header_size < (h.blocks b).size = ground (arith, less) in
    let m = split_block-Cut h held base v b req here room in
    let r = b + header_size + req in
    let new = new_block h (split_block h b req) held base v b r here m in
    record {
      kept_held = with_block held r;
      layout = Cut-IsLayout h (split_block h b req) held base v b r here m;
      there = ground (arith, here);
      fits = (omega (arith, m.cut_at), omega (arith, m.cut_at));
      live = λ x p ne.
          let far : x ≢ r = λ e. ground (arith, p, ap held e, new) in
          (ground (arith, p), m.frees x far, m.sizes x ne far);
    }

mark-Granted :
    (h k g : Heap) (held : Ptr → Bool) (base b req : ℕ)
    → Relinked h k b
    → (h.blocks b).free ≡ true
    → Fitted k held base b req g
    → Granted h held base b req
        (write g b (record (g.blocks b) { free = false; next = 0; prev = 0 }))
mark-Granted h k g held base b req links free f =
    let same : SameLayout g (write g b (record (g.blocks b) { free = false; next = 0; prev = 0 })) =
      record { ends = refl; lasts = refl; sizes = λ a. ground arith; prevs = λ a. ground arith } in
    record {
      kept_held = f.kept_held;
      layout = SameLayout-IsLayout g _ f.kept_held base same f.layout;
      taken = (f.there, ground arith);
      fits = ground (arith, f.fits);
      live = λ x p q.
          let other : x ≢ b = λ e. ground (arith, q, ap (λ i. (h.blocks i).free) e, free) in
          let (p', q', z') = f.live x p other in
          (
            p',
            ground (arith, q', links.frees x other, q, other),
            ground (arith, z', links.same.sizes x),
          );
    }

-- Where the blocks of a heap fill it without gaps and overlaps, the taking of a free block that is
-- as large as the request leaves a heap of that kind, in which the block is in use, holds the
-- request and has less than a header and a smallest block to spare, and in which every block that
-- was in use is still there, in use and of the same size: what is over becomes a block of its own.
pub take_block-Granted :
    (h : Heap) (held : Ptr → Bool) (base b req : ℕ)
    → IsLayout h held base
    → held b ≡ true
    → (h.blocks b).free ≡ true
    → req ≤ (h.blocks b).size
    → Granted h held base b req (take_block h b req)
unfolding take_block
take_block-Granted h held base b req v here free enough =
    let h1 = km_list_unlink h b in
    let links = km_list_unlink-Relinked h b in
    let v1 = SameLayout-IsLayout h h1 held base links.same v in
    let (_, _, most) = v.inside b here in
    let no_wrap : add64 (add64 req header_size) km_min_size ≡ req + header_size + km_min_size =
      omega (arith, v.small, enough, most) in
    let t = leb (add64 (add64 req header_size) km_min_size) (h1.blocks b).size in
    mark-Granted h h1 (if t then split_block h1 b req else h1) held base b req links free (
      fit t h1 held base b req v1 here (omega (arith, links.same.sizes b, enough))
        (ap (λ n. leb n (h1.blocks b).size) (sym no_wrap)))
