-- ===== src/Km/Whole.antt =====
-- MemoryControl.c, the kernel heap: the invariant of the whole heap, and of one of its blocks under work.
use fexox_os.Base.{
  ℕ, suc, ◌≤◌, ◌≡◌, ◌≢◌, refl, ◌∙◌, sym, ap, Bool, true, false, ◌&&◌, not, arith, ◌==◌,
  if◌then◌else◌, update,
}
use native.Mathlib.Decide.{ℕ_discrete}
use fexox_os.Vmm.{direct_map_offset}
use fexox_os.Km.{Ptr, Heap, km_list_unlink, km_insert_free, km_size_class, write}
use fexox_os.Km.Layout.{IsLayout, SameLayout-IsLayout}
use fexox_os.Km.Links.{
  km_list_unlink-Relinked, km_insert_free-Relinked, km_insert_free_flag, km_list_unlink_frees,
}
use fexox_os.Km.Lists.{class_of, IsLinked, unlink-IsLinked}
use fexox_os.Km.Insert.{Inserted, Inserted-IsLinked}

-- The blocks fill the heap, and the free ones are on the lists of their classes, all of them and no
-- others.
pub record IsHeap (h : Heap) (held : Ptr → Bool) (base : ℕ) : Type 0 where
  pub layout : IsLayout h held base
  pub high : direct_map_offset ≤ base
  pub starts : base ≤ h.heap_end
  pub empty : base ≡ h.heap_end → h.last_block ≡ 0
  pub on : Ptr → Bool
  pub rank : Ptr → ℕ
  pub top : ℕ
  pub links : IsLinked h on rank top
  pub listed : (x : Ptr) → on x ≡ (held x && (h.blocks x).free)

-- The same, but the free block `b` is on no list.
pub record IsLoose (h : Heap) (held : Ptr → Bool) (base : ℕ) (b : Ptr) : Type 0 where
  pub layout : IsLayout h held base
  pub high : direct_map_offset ≤ base
  pub here : held b ≡ true
  pub free : (h.blocks b).free ≡ true
  pub on : Ptr → Bool
  pub rank : Ptr → ℕ
  pub top : ℕ
  pub links : IsLinked h on rank top
  pub off : on b ≡ false
  pub listed : (x : Ptr) → x ≢ b → on x ≡ (held x && (h.blocks x).free)

abbrev pub in_use : Heap → (held : Ptr → Bool) → Ptr → Bool
in_use h held x = held x && not (h.blocks x).free

-- The blocks in use are the same in both heaps, and as large.
pub record SameUse (h : Heap) (held : Ptr → Bool) (g : Heap) (kept : Ptr → Bool) : Type 0 where
  pub uses : (x : Ptr) → in_use g kept x ≡ in_use h held x
  pub sizes : (x : Ptr) → in_use h held x ≡ true → (g.blocks x).size ≡ (h.blocks x).size

pub SameUse-trans :
    {f g h : Heap} {a b c : Ptr → Bool} → SameUse f a g b → SameUse g b h c → SameUse f a h c
SameUse-trans r s = record {
  uses = λ x. s.uses x ∙ r.uses x;
  sizes = λ x p. s.sizes x (r.uses x ∙ p) ∙ r.sizes x p;
}

-- `g` has the links of `h`, as far as `on` goes
pub record SameLinks (h g : Heap) (on : Ptr → Bool) : Type 0 where
  pub lists : (c : ℕ) → g.free_lists c ≡ h.free_lists c
  pub nexts : (x : Ptr) → on x ≡ true → (g.blocks x).next ≡ (h.blocks x).next
  pub prevs : (x : Ptr) → on x ≡ true → (g.blocks x).prev ≡ (h.blocks x).prev
  pub sizes : (x : Ptr) → on x ≡ true → (g.blocks x).size ≡ (h.blocks x).size

pub SameLinks-IsLinked :
    (h g : Heap) (on : Ptr → Bool) (rank : Ptr → ℕ) (top : ℕ)
    → SameLinks h g on
    → IsLinked h on rank top
    → IsLinked g on rank top
SameLinks-IsLinked h g on rank top s v = record {
  null_off = v.null_off;
  heads = λ c ne.
      let same = s.lists c in
      let (o, k, p) = v.heads c (λ e. ne (same ∙ e)) in
      rw same
        (o, ap km_size_class (s.sizes (h.free_lists c) o) ∙ k, s.prevs (h.free_lists c) o ∙ p);
  nexts = λ x p q.
      let same = s.nexts x p in
      let (o, k, back, r) = v.nexts x p (λ e. q (same ∙ e)) in
      rw same (
        o,
        ap km_size_class (s.sizes (h.blocks x).next o) ∙ k ∙ sym (ap km_size_class (s.sizes x p)),
        s.prevs (h.blocks x).next o ∙ back,
        r,
      );
  prevs = λ x p q.
      let same = s.prevs x p in
      let (o, back) = v.prevs x p (λ e. q (same ∙ e)) in
      rw same (o, s.nexts (h.blocks x).prev o ∙ back);
  firsts = λ x p q.
      let first = v.firsts x p (sym (s.prevs x p) ∙ q) in
      s.lists (class_of g x) ∙ ap h.free_lists (ap km_size_class (s.sizes x p)) ∙ first;
  ranks = v.ranks;
}

module _ (h : Heap) (held : Ptr → Bool) (base : ℕ) (b : Ptr) where
  -- a free block leaves its list
  pub unlink-IsLoose :
      (v : IsHeap h held base)
      → held b ≡ true
      → (h.blocks b).free ≡ true
      → IsLoose (km_list_unlink h b) held base b
  unlink-IsLoose v here free =
      let links = km_list_unlink-Relinked h b in
      let b_on : v.on b ≡ true = ground (arith, v.listed b, here, free) in
      record {
        layout = SameLayout-IsLayout h (km_list_unlink h b) held base links.same v.layout;
        high = v.high;
        here = here;
        free = km_list_unlink_frees h b b ∙ free;
        on = update v.on b false;
        rank = v.rank;
        top = v.top;
        links = unlink-IsLinked h v.on v.rank v.top v.links b b_on;
        off = ground arith;
        listed = λ x ne. ground (arith, v.listed x, ne, km_list_unlink_frees h b x);
      }

-- km_insert_free for the class `c`
abbrev put_first : Heap → Ptr → ℕ → Heap
put_first h b c =
    let head = h.free_lists c in
    let h1 = write h b (record (h.blocks b) { free = true; next = head; prev = 0 }) in
    let h2 = if head == 0 then h1 else write h1 head (record (h1.blocks head) { prev = b }) in
    record h2 { free_lists = update h.free_lists c b }

put_first-Inserted :
    (h : Heap) (on : Ptr → Bool) (b c : ℕ)
    → h.free_lists c ≢ b
    → on b ≡ false
    → class_of h b ≡ c
    → Inserted h (put_first h b c) on b c
put_first-Inserted h on b c far off k = record {
  class_b = ap km_size_class (same b) ∙ k;
  next_at = λ x. ground (arith, far);
  prev_at = λ x. ground (arith, far);
  list_at = λ i. ground arith;
  sizes = λ x p. same x;
}
  where
    same : (x : Ptr) → ((put_first h b c).blocks x).size ≡ (h.blocks x).size
    same x = ground arith

insert-Inserted :
    (h : Heap) (held : Ptr → Bool) (base : ℕ) (b : Ptr)
    → (v : IsLoose h held base b) → Inserted h (km_insert_free h b) (v.on) b (class_of h b)
unfolding km_insert_free
insert-Inserted h held base b v =
    let far : h.free_lists (class_of h b) ≢ b = λ e.
      let (o, _, _) =
        v.links.heads (class_of h b) (λ z. ground (arith, e, z, v.off, v.layout.inside b v.here)) in
      ground (arith, o, e, v.off, ap v.on e) in
    put_first-Inserted h v.on b (class_of h b) far v.off refl

-- A free block that is on no list enters that of its class, which gets longer by one at most.
pub insert-IsHeap :
    (h : Heap) (held : Ptr → Bool) (base : ℕ) (b : Ptr) (v : IsLoose h held base b)
    → (w : IsHeap (km_insert_free h b) held base) × (w.top ≡ suc v.top)
insert-IsHeap h held base b v =
    let links = km_insert_free-Relinked h b in
    let inside = v.layout.inside b v.here in
    let some_b : b ≢ 0 = omega (arith, inside) in
    let flag = km_insert_free_flag h b in
    (
      record {
        layout = SameLayout-IsLayout h (km_insert_free h b) held base links.same v.layout;
        high = v.high;
        starts = omega (arith, inside, links.same.ends);
        empty = λ e. absurd (omega (arith, inside, e, links.same.ends));
        on = update v.on b true;
        rank = update v.rank b (suc v.top);
        top = suc v.top;
        links =
            Inserted-IsLinked h (km_insert_free h b) v.on v.rank v.top v.links b (class_of h b)
              v.off some_b (insert-Inserted h held base b v);
        listed = λ x. elim (ℕ_discrete x b) [
          | yes e ↦ rw e (ground (arith, flag, v.here))
          | no ne ↦ ground (arith, v.listed x ne, links.frees x ne, ne)
        ];
      },
      refl,
    )

pub insert-SameUse :
    (h : Heap) (held : Ptr → Bool) (b : Ptr)
    → (h.blocks b).free ≡ true
    → SameUse h held (km_insert_free h b) held
insert-SameUse h held b free =
    let links = km_insert_free-Relinked h b in
    let flag = km_insert_free_flag h b in
    record {
      uses = λ x. elim (ℕ_discrete x b) [
        | yes e ↦ rw (e, flag, free) refl
        | no ne ↦ ground (arith, links.frees x ne)
      ];
      sizes = λ x p. links.same.sizes x;
    }

pub unlink-SameUse :
    (h : Heap) (held : Ptr → Bool) (b : Ptr) → SameUse h held (km_list_unlink h b) held
unlink-SameUse h held b =
    let links = km_list_unlink-Relinked h b in
    record {
      uses = λ x. ground (arith, km_list_unlink_frees h b x);
      sizes = λ x p. links.same.sizes x;
    }
