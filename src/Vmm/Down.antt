-- ===== src/Vmm/Down.antt =====
-- MemoryControl.c, vmm_walk_table: every step comes to the next table of the tree, which may be new.
use fexox_os.Base.{
  ℕ, suc, ◌+◌, ◌*◌, ◌/◌, ◌%◌, ◌<◌, ◌≡◌, ◌≢◌, refl, ◌∙◌, sym, ap, Bool, true, false, none, some,
  arith, Bool-cases, inl, inr, page_size,
}
use fexox_os.Pmm.{Allocation, address, failed, no_fuel, pmm_alloc_frame, pmm_alloc_frames}
use fexox_os.Pmm.Alloc.{Keeps, Taken-Keeps, Allocated, success, pmm_alloc_frames-Allocated}
use fexox_os.Vmm.{
  Pte, present, Vmm, Walk, table, nowhere, no_end, and_then, attach, descend, vmm_walk_table,
  pml4_idx, pdpt_idx,
}
use fexox_os.Vmm.Mmu.{path, page, huge, translate, lookup, idx_path, path_root}
use fexox_os.Vmm.Tree.{Owner, IsTree, arrives}
use fexox_os.Vmm.Grow.{linked_done, attached}

-- The tables are a tree.
pub record IsPaging (v : Vmm) : Type 0 where
  pub own : Owner
  pub tree : IsTree v own

-- no huge page covers the page `n`
abbrev pub NoHuge : Vmm → (n : ℕ) → Type 0
NoHuge v n = (m : ℕ) (e : Pte) → lookup v n ≢ some (suc m, e)

-- What a walk from `v` towards the table of level `m` for page `n` comes to: that table, in a tree
-- with the same walks of all pages, or, if the page faults, nowhere; with `create` that needs that
-- the frame manager has no frame. No frame that was used is free afterwards.
pub data Walked (v : Vmm) (create : Bool) (m n : ℕ) : Walk → Type 0 where
  arrived :
      {frame : ℕ} {w : Vmm} (own : Owner)
      → IsTree w own
      → own frame ≡ some (m, path (suc m) n)
      → ((k : ℕ) → lookup w k ≡ lookup v k)
      → Keeps v.pmm w.pmm
      → Walked v create m n (table frame w)
  stuck :
      {w : Vmm}
      → IsPaging w
      → ((k : ℕ) → lookup w k ≡ lookup v k)
      → lookup v n ≡ none
      → Keeps v.pmm w.pmm
      → (create ≡ true → pmm_alloc_frame w.pmm ≡ failed)
      → Walked v create m n (nowhere w)

from_w :
    (v w : Vmm) (create : Bool) (m n : ℕ) (x : Walk)
    → ((k : ℕ) → lookup w k ≡ lookup v k)
    → Keeps v.pmm w.pmm
    → Walked w create m n x
    → Walked v create m n x
from_w v w create m n (table f u) same kept (arrived own t o same' kept') =
    arrived own t o (λ k. same' k ∙ same k) (λ g e. kept' g (kept g e))
from_w v w create m n (nowhere u) same kept (stuck t same' gone kept' why) =
    stuck t (λ k. same' k ∙ same k) (sym (same n) ∙ gone) (λ g e. kept' g (kept g e)) why
from_w v w create m n no_end same kept x = elim x [ ]

module _ (v : Vmm) (own : Owner) (t : IsTree v own) (n f m : ℕ) (z : path 4 n ≡ 0) (low : m < 3)
    (o : own f ≡ some (suc m, path (suc (suc m)) n)) where
  abbrev idx : ℕ
  idx = path (suc m) n % 512

  onward : path (suc (suc m)) n * 512 + idx ≡ path (suc m) n
  onward = omega arith

  not_huge : NoHuge v n → present (v.tables f idx) ≡ true → huge (suc m) (v.tables f idx) ≡ false
  unfolding translate
  not_huge plain here = elim (Bool-cases (huge (suc m) (v.tables f idx))) [
    | inr e ↦ e
    | inl e ↦ absurd (
        plain m (v.tables f idx)
          (arrives v own t n (suc m) f (omega arith) z o ∙ (rw (here, e) refl)))
  ]

  faults : present (v.tables f idx) ≡ false → lookup v n ≡ none
  unfolding translate
  faults gone = arrives v own t n (suc m) f (omega arith) z o ∙ (rw gone refl)

  attach-Walked :
      (a : Allocation)
      → Allocated v.pmm 1 1 a
      → pmm_alloc_frame v.pmm ≡ a
      → present (v.tables f idx) ≡ false
      → Walked v true m n (attach v f idx a)
  unfolding attach
  attach-Walked failed x e gone =
      stuck (record { own = own; tree = t }) (λ k. refl) (faults gone) (λ g u. u) (λ c. e)
  attach-Walked no_fuel x e gone = elim x [ ]
  attach-Walked (address pa pmm) (success {i = i} taken) e gone =
      let there : pa / page_size ≡ i = omega (arith, taken.inside_bitmap, t.small) in
      let (own', tree, here, same) =
        linked_done v own t f m (path (suc (suc m)) n) idx o (omega arith) low gone pa i pmm there
          taken in
      rw
        (attached v own t f m (path (suc (suc m)) n) idx o (omega arith) low gone pa i pmm there
          taken)
        (arrived own' tree (here ∙ ap (λ x. some (m, x)) onward) same (Taken-Keeps taken))

  descend-Walked : (create : Bool) → NoHuge v n → Walked v create m n (descend v create f idx)
  unfolding descend pmm_alloc_frame
  descend-Walked create plain = elim (Bool-cases (present (v.tables f idx))) [
    | inl here ↦
        let next =
          t.down f m (path (suc (suc m)) n) idx o (omega arith) here (not_huge plain here) in
        rw here (arrived own t (next ∙ ap (λ x. some (m, x)) onward) (λ k. refl) (λ g u. u))
    | inr gone ↦ elim (Bool-cases create) [
      | inr e ↦
          rw (gone, e)
            (stuck (record { own = own; tree = t }) (λ k. refl) (faults gone) (λ g u. u)
              (λ c. absurd (ground (arith, e, c))))
      | inl e ↦
          rw (gone, e)
            (attach-Walked (pmm_alloc_frames v.pmm 1 1)
              (pmm_alloc_frames-Allocated v.pmm 1 1 (omega (arith, t.small)) (omega arith)
                (omega arith))
              refl gone)
    ]
  ]

-- a walk that goes on
bind-Walked :
    (v : Vmm) (create : Bool) (n m j : ℕ) (x : Walk) (k : ℕ → Vmm → Walk)
    → NoHuge v n
    → Walked v create m n x
    → ((f : ℕ) (w : Vmm) (own : Owner)
        → IsTree w own
        → own f ≡ some (m, path (suc m) n)
        → NoHuge w n
        → Walked w create j n (k f w))
    → Walked v create j n (and_then x k)
bind-Walked v create n m j (nowhere w) k plain (stuck t same gone kept why) next =
    stuck t same gone kept why
bind-Walked v create n m j no_end k plain x next = elim x [ ]
bind-Walked v create n m j (table f w) k plain (arrived own t o same kept) next =
    from_w v w create j n (k f w) same kept
      (next f w own t o (λ l e q. plain l e (sym (same n) ∙ q)))

pub vmm_walk_table-Walked :
    (v : Vmm) (va : ℕ) (create : Bool)
    → IsPaging v
    → NoHuge v (page va)
    → Walked v create 0 (page va) (vmm_walk_table v va create)
unfolding vmm_walk_table
vmm_walk_table-Walked v va create paging plain =
    let n = page va in
    let z = path_root va in
    let (e3, e2, e1, _) = idx_path va in
    let t = paging.tree in
    let o = t.root ∙ ap (λ x. some (3, x)) (sym z) in
    let first : Walked v create 2 n (descend v create v.pml4 (pml4_idx va)) =
      rw e3 (descend-Walked v paging.own t n v.pml4 2 z (omega arith) o create plain) in
    bind-Walked v create n 2 0 (descend v create v.pml4 (pml4_idx va)) _ plain first
      λ f3 w3 own3 t3 o3 plain3.
        let second : Walked w3 create 1 n (descend w3 create f3 (pdpt_idx va)) =
          rw e2 (descend-Walked w3 own3 t3 n f3 1 z (omega arith) o3 create plain3) in
        bind-Walked w3 create n 1 0 (descend w3 create f3 (pdpt_idx va)) _ plain3 second
          λ f2 w2 own2 t2 o2 plain2.
            rw e1 (descend-Walked w2 own2 t2 n f2 0 z (omega arith) o2 create plain2)
