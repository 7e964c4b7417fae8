-- ===== src/Km/Allot.antt =====
-- MemoryControl.c, km_find_best from its label `found` on, on the whole heap: the lists and the
-- layout together.
use fexox_os.Base.{
  ℕ, suc, ◌+◌, ◌≤◌, ◌<◌, ◌≡◌, ◌≢◌, refl, ◌∙◌, sym, ap, Bool, true, false, ◌||◌, arith, leb, ◌==◌,
  if◌then◌else◌, update, add64,
}
use native.Mathlib.Decide.{ℕ_discrete}
use fexox_os.Km.{
  Ptr, Heap, header_size, km_min_size, write, km_list_unlink, lay_rest, split_block, take_block,
}
use fexox_os.Km.Layout.{SameLayout, SameLayout-IsLayout}
use fexox_os.Km.Links.{km_list_unlink-Relinked}
use fexox_os.Km.Split.{Cut, Cut-IsLayout, with_block, new_block}
use fexox_os.Km.Take.{split_block-Cut}
use fexox_os.Km.Lists.{class_of}
use fexox_os.Km.Insert.{Inserted, Inserted-IsLinked}
use fexox_os.Km.Whole.{
  IsHeap, IsLoose, in_use, SameUse, SameUse-trans, SameLinks, SameLinks-IsLinked, unlink-IsLoose,
  unlink-SameUse,
}
use fexox_os.Km.Remainder.{cut_up, cut_up-Inserted, cut_up_flag}

-- A heap with the same blocks in use, in which the loose block `b` is as large as the request, with
-- less than a header and a smallest block to spare.
record Fitted (h : Heap) (held : Ptr → Bool) (base : ℕ) (b req : ℕ) (g : Heap) : Type 0 where
  kept : Ptr → Bool
  loose : IsLoose g kept base b
  same : SameUse h held g kept
  fits : (req ≤ (g.blocks b).size) × ((g.blocks b).size < req + header_size + km_min_size)

module _ (h : Heap) (held : Ptr → Bool) (base : ℕ) (b req : ℕ) (v : IsLoose h held base b) where
  split_up :
      split_block h b req
      ≡ cut_up h b req (b + header_size + req) (class_of (lay_rest h b req) (b + header_size + req))
  unfolding split_block
  split_up = refl

  module _ (room : req + header_size < (h.blocks b).size) where
    abbrev rem : Ptr
    rem = b + header_size + req

    cut : Cut h (split_block h b req) b rem
    cut = split_block-Cut h held base v.layout b req v.here room

    rem_new : held rem ≡ false
    rem_new = new_block h (split_block h b req) held base v.layout b rem v.here cut

    rem_off : v.on rem ≡ false
    rem_off = ground (arith, v.listed rem, rem_new)

    split-Inserted :
        Inserted h (split_block h b req) (v.on) rem (class_of (lay_rest h b req) rem)
        × (((split_block h b req).blocks rem).free ≡ true)
    split-Inserted =
        let c = class_of (lay_rest h b req) rem in
        let far : h.free_lists c ≢ rem = λ e.
          let (o, _, _) = v.links.heads c (λ z. omega (arith, e, z)) in
          ground (arith, o, ap v.on e, rem_off) in
        let e = split_up in
        rw e (
          cut_up-Inserted h v.on b req rem c refl far rem_off v.off refl,
          cut_up_flag h v.on b req rem c refl far rem_off v.off refl,
        )

    split-Fitted : Fitted h held base b req (split_block h b req)
    split-Fitted =
        let g = split_block h b req in
        let m = cut in
        let (links, flag) = split-Inserted in
        record {
          kept = with_block held rem;
          loose = record {
            layout = Cut-IsLayout h g held base v.layout b rem v.here m;
            high = v.high;
            here = ground (arith, v.here);
            free = m.frees b (omega arith) ∙ v.free;
            on = update v.on rem true;
            rank = update v.rank rem (suc v.top);
            top = suc v.top;
            links =
                Inserted-IsLinked h g v.on v.rank v.top v.links rem
                  (class_of (lay_rest h b req) rem) rem_off (omega arith) links;
            off = ground (arith, v.off);
            listed = λ x ne. elim (ℕ_discrete x rem) [
              | yes e ↦ rw (e, flag) ground arith
              | no far ↦ ground (arith, far, v.listed x ne, m.frees x far)
            ];
          };
          same = record {
            uses = λ x. elim (ℕ_discrete x rem) [
              | yes e ↦ let new = rem_new in rw (e, flag, new) ground arith
              | no far ↦ ground (arith, far, m.frees x far)
            ];
            sizes = λ x p.
                let far : x ≢ rem = λ e. ground (arith, p, ap held e, rem_new) in
                let other : x ≢ b = λ e. ground (arith, p, ap (λ i. (h.blocks i).free) e, v.free) in
                m.sizes x other far;
          };
          fits = (omega (arith, m.cut_at), omega (arith, m.cut_at));
        }

  fit :
      (t : Bool)
      → req ≤ (h.blocks b).size
      → leb (req + header_size + km_min_size) (h.blocks b).size ≡ t
      → Fitted h held base b req (if t then split_block h b req else h)
  fit true enough e = split-Fitted (ground (arith, e))
  fit false enough e = record {
    kept = held;
    loose = v;
    same = record { uses = λ x. refl; sizes = λ x p. refl };
    fits = (enough, ground (arith, e));
  }

-- A free block becomes one in use, which is as large as the request, with less than a header and a
-- smallest block to spare; the other blocks in use are those of before, as large as before.
pub record Allotted (h : Heap) (held : Ptr → Bool) (base : ℕ) (b req : ℕ) (g : Heap) : Type 0 where
  pub kept : Ptr → Bool
  pub heap : IsHeap g kept base
  pub was_free : in_use h held b ≡ false
  pub uses : (x : Ptr) → in_use g kept x ≡ (in_use h held x || x == b)
  pub sizes : (x : Ptr) → in_use h held x ≡ true → (g.blocks x).size ≡ (h.blocks x).size
  pub fits : (req ≤ (g.blocks b).size) × ((g.blocks b).size < req + header_size + km_min_size)

mark-Allotted :
    (h g : Heap) (held : Ptr → Bool) (base b req : ℕ)
    → (h.blocks b).free ≡ true
    → Fitted h held base b req g
    → Allotted h held base b req
        (write g b (record (g.blocks b) { free = false; next = 0; prev = 0 }))
mark-Allotted h g held base b req free f =
    let g' = write g b (record (g.blocks b) { free = false; next = 0; prev = 0 }) in
    let v = f.loose in
    let same : SameLayout g g' = record {
      ends = refl;
      lasts = refl;
      sizes = λ a. ground arith;
      prevs = λ a. ground arith;
    } in
    let links : SameLinks g g' v.on = record {
      lists = λ c. refl;
      nexts = λ x p. ground (arith, p, v.off);
      prevs = λ x p. ground (arith, p, v.off);
      sizes = λ x p. ground arith;
    } in
    record {
      kept = f.kept;
      heap = record {
        layout = SameLayout-IsLayout g g' f.kept base same v.layout;
        high = v.high;
        starts = omega (arith, v.layout.inside b v.here);
        empty = λ e. absurd (omega (arith, e, v.layout.inside b v.here));
        on = v.on;
        rank = v.rank;
        top = v.top;
        links = SameLinks-IsLinked g g' v.on v.rank v.top links v.links;
        listed = λ x. elim (ℕ_discrete x b) [
          | yes e ↦ ground (arith, e, v.off)
          | no ne ↦ ground (arith, ne, v.listed x ne)
        ];
      };
      was_free = ground (arith, free);
      uses = λ x. elim (ℕ_discrete x b) [
        | yes e ↦ ground (arith, e, v.here)
        | no ne ↦ ground (arith, ne, f.same.uses x)
      ];
      sizes = λ x p. ground (arith, f.same.sizes x p);
      fits = ground (arith, f.fits);
    }

pub take_block-Allotted :
    (h : Heap) (held : Ptr → Bool) (base b req : ℕ)
    → IsHeap h held base
    → held b ≡ true
    → (h.blocks b).free ≡ true
    → req ≤ (h.blocks b).size
    → Allotted h held base b req (take_block h b req)
unfolding take_block
take_block-Allotted h held base b req v here free enough =
    let h1 = km_list_unlink h b in
    let links = km_list_unlink-Relinked h b in
    let (_, _, most) = v.layout.inside b here in
    let no_wrap : add64 (add64 req header_size) km_min_size ≡ req + header_size + km_min_size =
      omega (arith, v.layout.small, enough, most) in
    let t = leb (add64 (add64 req header_size) km_min_size) (h1.blocks b).size in
    let f =
      fit h1 held base b req (unlink-IsLoose h held base b v here free) t
        (omega (arith, links.same.sizes b, enough))
        (ap (λ n. leb n (h1.blocks b).size) (sym no_wrap)) in
    mark-Allotted h (if t then split_block h1 b req else h1) held base b req free (record {
      kept = f.kept;
      loose = f.loose;
      same = SameUse-trans (unlink-SameUse h held b) f.same;
      fits = f.fits;
    })
