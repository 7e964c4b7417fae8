-- ===== src/Vmm/Map.antt =====
-- MemoryControl.c, vmm_map and vmm_unmap: what they change of the processor's walks.
use fexox_os.Base.{
  ℕ, ◌≡◌, ◌≢◌, refl, ◌∙◌, sym, subst, Bool, true, false, ◌||◌, not, none, some, none, arith,
  if◌then◌else◌, Bool-cases, inl, inr,
}
use fexox_os.Base.Int.{pos, negsuc}
use fexox_os.Vmm.{
  Pte, present, bit, pte_make, Vmm, Walk, table, nowhere, no_end, Outcome, off_page, at_table,
  write, vmm_walk_table, vmm_map, vmm_unmap, pt_idx,
}
use fexox_os.Pmm.{failed, pmm_alloc_frame}
use fexox_os.Pmm.Alloc.{Keeps}
use fexox_os.Vmm.Entry.{present-pte_make}
use fexox_os.Vmm.Mmu.{path, page, translate, lookup, idx_path, path_root}
use fexox_os.Vmm.Tree.{Owner, IsTree, arrives}
use fexox_os.Vmm.Leaf.{same_pmm, write-IsTree, lookup-write}
use native.Mathlib.Decide.{ℕ_discrete}
use fexox_os.Vmm.Down.{IsPaging, NoHuge, Walked, arrived, stuck, vmm_walk_table-Walked}

-- the walk of no page but `n` has changed
abbrev pub SameBut : (v w : Vmm) (n : ℕ) → Type 0
SameBut v w n = (va : ℕ) → page va ≢ n → lookup w (page va) ≡ lookup v (page va)

abbrev pub bad_map : (va pa flags : ℕ) → Bool
bad_map va pa flags = off_page va || off_page pa || not (bit flags 0)

-- how vmm_map ends
pub data Mapped (v : Vmm) (va pa flags : ℕ) : Outcome → Type 0 where
  refused : bad_map va pa flags ≡ true → Mapped v va pa flags (some (negsuc 0, v))
  no_frame :
      {w : Vmm}
      → bad_map va pa flags ≡ false
      → IsPaging w
      → lookup v (page va) ≡ none
      → ((k : ℕ) → lookup w k ≡ lookup v k)
      → Keeps v.pmm w.pmm
      → pmm_alloc_frame w.pmm ≡ failed
      → Mapped v va pa flags (some (negsuc 1, w))
  done :
      {w : Vmm}
      → bad_map va pa flags ≡ false
      → IsPaging w
      → lookup w (page va) ≡ some (0, pte_make pa flags)
      → SameBut v w (page va)
      → Keeps v.pmm w.pmm
      → Mapped v va pa flags (some (pos 0, w))

-- how vmm_unmap ends
pub data Unmapped (v : Vmm) (va : ℕ) : Outcome → Type 0 where
  refused : off_page va ≡ true → Unmapped v va (some (negsuc 0, v))
  faulted :
      {w : Vmm}
      → off_page va ≡ false
      → IsPaging w
      → lookup v (page va) ≡ none
      → ((k : ℕ) → lookup w k ≡ lookup v k)
      → Unmapped v va (some (negsuc 0, w))
  done :
      {w : Vmm} (e : Pte)
      → off_page va ≡ false
      → IsPaging w
      → lookup v (page va) ≡ some (0, e)
      → lookup w (page va) ≡ none
      → SameBut v w (page va)
      → Unmapped v va (some (pos 0, w))

-- A write where the walk for `va` arrived, for both calls.
module _ (v : Vmm) (va : ℕ) (f : ℕ) (w : Vmm) (own : Owner) (t : IsTree w own)
    (o : own f ≡ some (0, path 1 (page va))) (same : (k : ℕ) → lookup w k ≡ lookup v k)
    (e : Pte) where
  abbrev written : Vmm
  written = write w f (pt_idx va) e

  written-IsPaging : IsPaging written
  written-IsPaging = record {
    own = own;
    tree = write-IsTree w own t f (path 1 (page va)) (pt_idx va) e o;
  }

  written-Keeps : Keeps v.pmm w.pmm → Keeps v.pmm written.pmm
  written-Keeps kept = rw (same_pmm w own t f (path 1 (page va)) (pt_idx va) e o) kept

  here_lookup : lookup written (page va) ≡ (if present e then some (0, e) else none)
  here_lookup = rw ((idx_path va).3) ((lookup-write w own t f (page va) e o (path_root va)).0)

  elsewhere : SameBut v written (page va)
  elsewhere b ne = rw ((idx_path va).3) (
      (lookup-write w own t f (page va) e o (path_root va)).1 (page b) (path_root b) ne
      ∙ same (page b))

at_map :
    (v : Vmm) (va pa flags : ℕ) (x : Walk)
    → bad_map va pa flags ≡ false
    → Walked v true 0 (page va) x
    → Mapped v va pa flags (
        at_table x
          (negsuc 1)
          λ frame w. some (pos 0, write w frame (pt_idx va) (pte_make pa flags)))
at_map v va pa flags no_end good x = elim x [ ]
at_map v va pa flags (nowhere w) good (stuck t same gone kept why) =
    no_frame good t gone same kept (why refl)
at_map v va pa flags (table f w) good (arrived own t o same kept) =
    let e = pte_make pa flags in
    let lit : present e ≡ true = present-pte_make pa flags (ground (arith, good)) in
    done good (written-IsPaging v va f w own t o same e)
      (here_lookup v va f w own t o same e ∙ (rw lit refl)) (elsewhere v va f w own t o same e)
      (written-Keeps v va f w own t o same e kept)

-- On tables that form a tree, with no huge page over the page of `va`: vmm_map refuses an address
-- off a page boundary and flags without PTE_P and changes nothing. Otherwise it returns -2, and then
-- the page faulted before, pmm_alloc_frame fails in the state that is left, and no page's walk
-- changes; or it returns 0, the processor's walk of the page ends at the entry that pte_make gives,
-- and the walk of every other page is as before. The tables still form a tree beside the frame
-- bitmap, no frame that was used is free, and the search for frames ends.
pub vmm_map-Mapped :
    (v : Vmm) (va pa flags : ℕ)
    → IsPaging v
    → NoHuge v (page va)
    → Mapped v va pa flags (vmm_map v va pa flags)
unfolding vmm_map
vmm_map-Mapped v va pa flags paging plain = elim (Bool-cases (bad_map va pa flags)) [
  | inl bad ↦ rw bad (Mapped.refused bad)
  | inr good ↦ rw good (
      at_map v va pa flags (vmm_walk_table v va true) good
        (vmm_walk_table-Walked v va true paging plain))
]

no_entry :
    (v : Vmm) (va f : ℕ) (w : Vmm) (own : Owner)
    → IsTree w own
    → own f ≡ some (0, path 1 (page va))
    → lookup w (page va)
      ≡ (if present (w.tables f (pt_idx va)) then some (0, w.tables f (pt_idx va)) else none)
unfolding translate
no_entry v va f w own t o =
    rw ((idx_path va).3) (arrives w own t (page va) 0 f (omega arith) (path_root va) o)

at_unmap :
    (v : Vmm) (va : ℕ) (x : Walk)
    → off_page va ≡ false
    → Walked v false 0 (page va) x
    → Unmapped v va (
        at_table x (negsuc 0) λ frame w.
          if present (w.tables frame (pt_idx va))
          then some (pos 0, write w frame (pt_idx va) (λ b. false))
          else some (negsuc 0, w))
at_unmap v va no_end good x = elim x [ ]
at_unmap v va (nowhere w) good (stuck t same gone kept why) = faulted good t gone same
at_unmap v va (table f w) good (arrived own t o same kept) =
    let before = sym (same (page va)) ∙ no_entry v va f w own t o in
    elim (Bool-cases (present (w.tables f (pt_idx va)))) [
      | inr gone ↦
          rw gone (faulted good (record { own = own; tree = t }) (before ∙ (rw gone refl)) same)
      | inl here ↦ rw here (
          Unmapped.done (w.tables f (pt_idx va)) good
            (written-IsPaging v va f w own t o same (λ b. false)) (before ∙ (rw here refl))
            (here_lookup v va f w own t o same (λ b. false))
            (elsewhere v va f w own t o same (λ b. false)))
    ]

-- On tables that form a tree, with no huge page over the page of `va`: vmm_unmap refuses an address
-- off a page boundary and changes nothing; if the page faults, it returns -1 and no page's walk
-- changes; otherwise it returns 0, the page faults, and the walk of every other page is as before.
-- The tables still form a tree.
pub vmm_unmap-Unmapped :
    (v : Vmm) (va : ℕ) → IsPaging v → NoHuge v (page va) → Unmapped v va (vmm_unmap v va)
unfolding vmm_unmap
vmm_unmap-Unmapped v va paging plain = elim (Bool-cases (off_page va)) [
  | inl bad ↦ rw bad (Unmapped.refused bad)
  | inr good ↦ rw good (
      at_unmap v va (vmm_walk_table v va false) good
        (vmm_walk_table-Walked v va false paging plain))
]

pub map_ok :
    (v w : Vmm) (va pa flags : ℕ) (o : Outcome)
    → o ≡ some (pos 0, w)
    → Mapped v va pa flags o
    → (off_page va ≡ false)
      × IsPaging w
      × (lookup w (page va) ≡ some (0, pte_make pa flags))
      × SameBut v w (page va)
map_ok v w va pa flags o e (refused bad) = absurd (ground (arith, e))
map_ok v w va pa flags o e (no_frame good t gone same kept lack) = absurd (ground (arith, e))
map_ok v w va pa flags o e (done {w = x} good t here same kept) =
    let x_w : x ≡ w = ground (arith, e) in
    (
      ground (arith, good),
      subst IsPaging x_w t,
      subst (λ y. lookup y (page va) ≡ some (0, pte_make pa flags)) x_w here,
      subst (λ y. SameBut v y (page va)) x_w same,
    )

unmap_ok :
    (w : Vmm) (va : ℕ) (e : Pte) (o : Outcome)
    → off_page va ≡ false
    → lookup w (page va) ≡ some (0, e)
    → Unmapped w va o
    → (u : Vmm) × (o ≡ some (pos 0, u)) × (lookup u (page va) ≡ none) × SameBut w u (page va)
unmap_ok w va e o good here (refused bad) = absurd (ground (arith, good, bad))
unmap_ok w va e o good here (faulted good' t gone same) = absurd (ground (arith, here, gone))
unmap_ok w va e o good here (done {w = u} e' good' t was gone same) = (u, refl, gone, same)

-- On tables that form a tree beside the frame bitmap, whose frames are used: if the page of `va`
-- faults and vmm_map maps it, then vmm_unmap returns 0, and all walks are as they were before the two
-- calls.
pub vmm_unmap-vmm_map :
    (v w : Vmm) (va pa flags : ℕ)
    → IsPaging v
    → lookup v (page va) ≡ none
    → vmm_map v va pa flags ≡ some (pos 0, w)
    → (u : Vmm) × (vmm_unmap w va ≡ some (pos 0, u))
      × ((b : ℕ) → lookup u (page b) ≡ lookup v (page b))
vmm_unmap-vmm_map v w va pa flags paging gone mapped =
    let plain : NoHuge v (page va) = λ m e q. ground (arith, gone, q) in
    let (good, tables, here, others) =
      map_ok v w va pa flags (vmm_map v va pa flags) mapped
        (vmm_map-Mapped v va pa flags paging plain) in
    let plain' : NoHuge w (page va) = λ m e q. ground (arith, here, q) in
    let (u, ends, none_here, back) =
      unmap_ok w va (pte_make pa flags) (vmm_unmap w va) good here
        (vmm_unmap-Unmapped w va tables plain') in
    (
      u,
      ends,
      λ b. elim (ℕ_discrete (page b) (page va)) [
        | yes e ↦ rw e (none_here ∙ sym gone)
        | no ne ↦ back b ne ∙ others b ne
      ],
    )
