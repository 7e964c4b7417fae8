-- ===== src/Km/Reach.antt =====
-- MemoryControl.c, the states that the kernel heap can reach, by any sequence of kmalloc and kfree.
use fexox_os.Base.{
  ℕ, ◌+◌, ◌*◌, ◌^◌, ◌≤◌, ◌<◌, ◌≡◌, refl, ◌∙◌, sym, ap, Bool, true, false, Option, some, arith,
  update, u64_mod, page_size,
}
use mathlib.Core.Option.{some-injective, none-ne-some}
use fexox_os.Vmm.{Vmm, direct_map_offset}
use fexox_os.Km.{Ptr, header_size, block_behind, kmalloc_init, kfree}
use fexox_os.Km.Expand.{KernelMemory, kmalloc}
use fexox_os.Km.Whole.{IsHeap, in_use}
use fexox_os.Km.Release.{kfree-Released}
use fexox_os.Km.Serve.{Served, Kmalloced, nothing, exhausted, serves, unfinished, kmalloc-Kmalloced}

-- The memory, and the blocks that callers of kmalloc have and have not freed, by their headers.
pub record Clients : Type 0 where
  pub memory : KernelMemory
  pub live : Ptr → Bool

-- what kmalloc returns with enough fuel
abbrev pub Returns : KernelMemory → (size : ℕ) → Ptr → KernelMemory → Type 0
Returns m size p m' = (n : ℕ) × ((fuel : ℕ) → n ≤ fuel → kmalloc fuel m size ≡ some (p, m'))

-- `size` bytes and three pages more lie between the end of the heap and that of the address space
abbrev pub HasSpace : KernelMemory → (size : ℕ) → Type 0
HasSpace m size = m.heap.heap_end + size + 3 * page_size ≤ u64_mod

-- One call, or something elsewhere that changes the page tables.
pub data Step : Clients → Clients → Type 0 where
  gives :
      {s : Clients} (size b : ℕ) (m' : KernelMemory)
      → HasSpace (s.memory) size
      → Returns (s.memory) size (b + header_size) m'
      → Step s (record { memory = m'; live = update s.live b true })
  refuses :
      {s : Clients} (size : ℕ) (m' : KernelMemory)
      → HasSpace (s.memory) size
      → Returns (s.memory) size 0 m'
      → Step s (record s { memory = m' })
  frees :
      {s : Clients} (b : Ptr)
      → s.live b ≡ true
      → Step s (record {
        memory = record (s.memory) { heap = kfree s.memory.heap (b + header_size) };
        live = update s.live b false;
      })
  elsewhere : {s : Clients} (v : Vmm) → Step s (record s { memory = record (s.memory) { vmm = v } })

pub data Steps : Clients → Clients → Type 0 where
  here : {s : Clients} → Steps s s
  after : {s t u : Clients} → Step s t → Steps t u → Steps s u

-- The heap is well formed, and the blocks in use are those that callers have.
pub record IsServing (base : ℕ) (s : Clients) : Type 0 where
  pub held : Ptr → Bool
  pub heap : IsHeap (s.memory.heap) held base
  pub owned : (x : Ptr) → s.live x ≡ in_use (s.memory.heap) held x

same_parts :
    {p q : Ptr} {m m' : KernelMemory}
    → ◌≡◌ {A = Option (Ptr × KernelMemory)} (some (p, m)) (some (q, m'))
    → (p ≡ q) × (m ≡ m')
same_parts e = let pair = some-injective _ _ e in (ap (λ r. r.0) pair, ap (λ r. r.1) pair)

module _ (m m' : KernelMemory) (held : Ptr → Bool) (base size : ℕ) where
  block_given :
      (b : Ptr) (r : Option (Ptr × KernelMemory))
      → Kmalloced m held base size r
      → r ≡ some (b + header_size, m')
      → Served (m.heap) held base b size (m'.heap)
  block_given b r (nothing z) e = let (p, _) = same_parts e in absurd (omega (arith, p))
  block_given b r (exhausted x same f) e = let (p, _) = same_parts e in absurd (omega (arith, p))
  block_given b r (unfinished x) e = absurd (none-ne-some _ e)
  block_given b r (serves {b = b'} {m' = w} s) e =
      let (p, q) = same_parts e in let same : b' ≡ b = omega (arith, p) in rw (sym same, sym q) s

  heap_kept :
      (r : Option (Ptr × KernelMemory))
      → Kmalloced m held base size r
      → r ≡ some (0, m')
      → m'.heap ≡ m.heap
  heap_kept r (nothing z) e = let (_, q) = same_parts e in ap (λ w. w.heap) (sym q)
  heap_kept r (exhausted x same f) e = let (_, q) = same_parts e in ap (λ w. w.heap) (sym q) ∙ same
  heap_kept r (unfinished x) e = absurd (none-ne-some _ e)
  heap_kept r (serves s) e = let (p, _) = same_parts e in absurd (omega (arith, p))

Step-IsServing : {base : ℕ} (s t : Clients) → Step s t → IsServing base s → IsServing base t
Step-IsServing {base} s t (gives size b m' space (n, returns)) v =
    let fuel = n + v.heap.top + 3 in
    let k = kmalloc-Kmalloced fuel s.memory v.held base size v.heap (omega arith) space in
    let w = block_given s.memory m' v.held base size b _ k (returns fuel (omega arith)) in
    record { held = w.kept; heap = w.heap; owned = λ x. ground (arith, v.owned x, w.uses x) }
Step-IsServing {base} s t (refuses size m' space (n, returns)) v =
    let fuel = n + v.heap.top + 3 in
    let k = kmalloc-Kmalloced fuel s.memory v.held base size v.heap (omega arith) space in
    let same = heap_kept s.memory m' v.held base size _ k (returns fuel (omega arith)) in
    record { held = v.held; heap = rw same v.heap; owned = λ x. rw same (v.owned x) }
Step-IsServing {base} s t (frees b mine) v =
    let r = kfree-Released s.memory.heap v.held base b v.heap (sym (v.owned b) ∙ mine) in
    record { held = r.kept; heap = r.heap; owned = λ x. ground (arith, v.owned x, r.uses x) }
Step-IsServing {base} s t (elsewhere w) v = record { held = v.held; heap = v.heap; owned = v.owned }

Steps-IsServing : {base : ℕ} (s t : Clients) → Steps s t → IsServing base s → IsServing base t
Steps-IsServing s t here v = v
Steps-IsServing s u (after {t = t} step rest) v =
    Steps-IsServing t u rest (Step-IsServing s t step v)

-- the state behind kmalloc_init, when nothing has been asked for
abbrev pub started : KernelMemory → Clients
started m = record { memory = record m { heap = kmalloc_init m.heap }; live = λ x. false }

abbrev pub heap_start : ℕ
heap_start = direct_map_offset + 4 * 2 ^ 30

started-IsServing : (m : KernelMemory) → IsServing heap_start (started m)
unfolding kmalloc_init
started-IsServing m = record {
  held = λ x. false;
  heap = record {
    layout = record {
      small = omega arith;
      inside = λ a p. absurd (ground (arith, p));
      next = λ a p q. absurd (ground (arith, p));
      prev = λ a p q. absurd (ground (arith, p));
      first = λ a p q. absurd (ground (arith, p));
      last = λ l. absurd (omega (arith, l));
      apart = λ a b p q l. absurd (ground (arith, p));
    };
    high = omega arith;
    starts = omega arith;
    empty = λ e. refl;
    on = λ x. false;
    rank = λ x. 0;
    top = 0;
    links = record {
      null_off = refl;
      heads = λ c ne. absurd (ne refl);
      nexts = λ x p q. absurd (ground (arith, p));
      prevs = λ x p q. absurd (ground (arith, p));
      firsts = λ x p q. absurd (ground (arith, p));
      ranks = λ x p. absurd (ground (arith, p));
    };
    listed = λ x. refl;
  };
  owned = λ x. refl;
}

-- After kmalloc_init and any sequence of calls, of kmalloc with room in the address space and enough
-- fuel, of kfree of an address that kmalloc gave and that was not freed since, and of changes of
-- the page tables in between: the blocks fill the heap without gaps and overlaps, the free ones are
-- those of the doubly linked lists of their size classes, and those in use are exactly the ones that
-- were given and not freed; so no two of these overlap.
pub reachable-IsServing :
    (m : KernelMemory) (t : Clients)
    → Steps (started m) t
    → IsServing heap_start t
      × ((x y : Ptr)
          → t.live x ≡ true
          → t.live y ≡ true
          → x < y
          → block_behind (t.memory.heap) x ≤ y)
reachable-IsServing m t path =
    let v = Steps-IsServing (started m) t path (started-IsServing m) in
    let held_by : (x : Ptr) → t.live x ≡ true → v.held x ≡ true =
      λ x p. ground (arith, p, v.owned x) in
    (v, λ x y p q l. v.heap.layout.apart x y (held_by x p) (held_by y q) l)
