-- ===== src/Km/Mapping.antt =====
-- MemoryControl.c, km_expand: the two loops over the pages, on page tables that form a tree.
use fexox_os.Base.{
  ℕ, zero, suc, ◌+◌, ◌*◌, ◌^◌, ◌≤◌, ◌<◌, ◌≡◌, ◌≢◌, ◌⊎◌, inl, inr, refl, ◌∙◌, sym, Bool, true, false,
  Option, none, some, arith, if◌then◌else◌, page_size,
}
use native.Mathlib.Decide.{ℕ_discrete}
use fexox_os.Pmm.{failed, pmm_alloc_frame}
use fexox_os.Pmm.Alloc.{Keeps}
use fexox_os.Vmm.{Pte, Vmm, Outcome, vmm_map, vmm_unmap, pte_make, is_zero, off_page}
use fexox_os.Vmm.Mmu.{page, lookup}
use fexox_os.Vmm.Down.{IsPaging, NoHuge}
use fexox_os.Vmm.Map.{
  bad_map, SameBut, Mapped, refused, no_frame, done, Unmapped, faulted, vmm_map-Mapped,
  vmm_unmap-Unmapped,
}
use fexox_os.Km.Expand.{expand_flags, expand_loop, unmap_loop}

-- the page `j` pages behind `va`
abbrev pub nth : (va j : ℕ) → ℕ
nth va j = page (va + j * page_size)

-- `b` is none of the pages from `i` on, before `k`
abbrev pub Beside : (va i k b : ℕ) → Type 0
Beside va i k b = (j : ℕ) → i ≤ j → j < k → page b ≢ nth va j

-- the pages from `i` on, before `k`, fault
abbrev pub Absent : (v : Vmm) (va i k : ℕ) → Type 0
Absent v va i k = (j : ℕ) → i ≤ j → j < k → lookup v (nth va j) ≡ none

-- The pages from `i` on, before `k`, are mapped one by one, and the walks of all others are as before.
pub record IsRun (v w : Vmm) (va pa i k : ℕ) : Type 0 where
  pub tables : IsPaging w
  pub entries :
      (j : ℕ)
      → i ≤ j
      → j < k
      → lookup w (nth va j) ≡ some (0, pte_make (pa + j * page_size) expand_flags)
  pub aligned : (j : ℕ) → i ≤ j → j < k → off_page (va + j * page_size) ≡ false
  pub others : (b : ℕ) → Beside va i k b → lookup w (page b) ≡ lookup v (page b)
  pub kept : Keeps v.pmm w.pmm

-- why page `k` is not mapped: it is no page, or the frame manager comes to have no frame
abbrev pub Hindered : (v : Vmm) (va pa k : ℕ) → Type 0
Hindered v va pa k =
    (bad_map (va + k * page_size) (pa + k * page_size) expand_flags ≡ true)
    ⊎ ((u : Vmm) × Keeps v.pmm u.pmm × (pmm_alloc_frame u.pmm ≡ failed))

later_Hindered :
    (v w : Vmm) (va pa k : ℕ) → Keeps v.pmm w.pmm → Hindered w va pa k → Hindered v va pa k
later_Hindered v w va pa k kept (inl bad) = inl bad
later_Hindered v w va pa k kept (inr (u, kept', lack)) = inr (u, (λ g e. kept' g (kept g e)), lack)

-- how the loop that maps `n` pages ends
pub data Run (v : Vmm) (va pa n i : ℕ) : Option (ℕ × Bool × Vmm) → Type 0 where
  full : {k : ℕ} {w : Vmm} → k ≡ i + n → IsRun v w va pa i k → Run v va pa n i (some (k, true, w))
  short :
      {k : ℕ} {w : Vmm}
      → i ≤ k
      → k < i + n
      → IsRun v w va pa i k
      → Hindered v va pa k
      → Run v va pa n i (some (k, false, w))

nth_apart : (va i j : ℕ) → i < j → j < i + 2 ^ 35 → nth va i ≢ nth va j
nth_apart va i j less near e = omega (arith, e)

module _ (va pa : ℕ) where
  none_mapped : (v : Vmm) (i : ℕ) → IsPaging v → IsRun v v va pa i i
  none_mapped v i t = record {
    tables = t;
    entries = λ j p q. absurd (omega (arith, p, q));
    aligned = λ j p q. absurd (omega (arith, p, q));
    others = λ b f. refl;
    kept = λ g u. u;
  }

  -- the first page of a run, and the others
  longer :
      (v w u : Vmm) (i k : ℕ)
      → i < k
      → k ≤ 2 ^ 35
      → off_page (va + i * page_size) ≡ false
      → lookup w (nth va i) ≡ some (0, pte_make (pa + i * page_size) expand_flags)
      → SameBut v w (nth va i)
      → Keeps v.pmm w.pmm
      → IsRun w u va pa (i + 1) k
      → IsRun v u va pa i k
  longer v w u i k less few here_ok here same kept r = record {
    tables = r.tables;
    entries = λ j p q. elim (ℕ_discrete j i) [
      | no ne ↦ r.entries j (omega arith) q
      | yes e ↦ rw e (
          r.others (va + i * page_size) (λ l x y. nth_apart va i l (omega arith) (omega arith))
          ∙ here)
    ];
    aligned = λ j p q. elim (ℕ_discrete j i) [
      | no ne ↦ r.aligned j (omega arith) q
      | yes e ↦ rw e here_ok
    ];
    others = λ b f. r.others b (λ j p q. f j (omega arith) q) ∙ same b (f i (omega arith) less);
    kept = λ g e. r.kept g (kept g e);
  }

  prolong :
      (v w : Vmm) (n i : ℕ) (o : Option (ℕ × Bool × Vmm))
      → i + suc n ≤ 2 ^ 35
      → off_page (va + i * page_size) ≡ false
      → lookup w (nth va i) ≡ some (0, pte_make (pa + i * page_size) expand_flags)
      → SameBut v w (nth va i)
      → Keeps v.pmm w.pmm
      → Run w va pa n (i + 1) o
      → Run v va pa (suc n) i o
  prolong v w n i o few here_ok here same kept (full {k} {w = u} e r) =
      full (omega (arith, e))
        (longer v w u i k (omega (arith, e)) (omega (arith, e)) here_ok here same kept r)
  prolong v w n i o few here_ok here same kept (short {k} {w = u} p q r why) =
      short (omega arith) (omega arith)
        (longer v w u i k (omega arith) (omega arith) here_ok here same kept r)
        (later_Hindered v w va pa k kept why)

  one_page :
      (n : ℕ) (v : Vmm) (i : ℕ) (o : Outcome)
      → i + suc n ≤ 2 ^ 35
      → IsPaging v
      → Absent v va i (i + suc n)
      → ((w : Vmm)
          → IsPaging w
          → Absent w va (i + 1) (i + suc n)
          → Run w va pa n (i + 1) (expand_loop n w va pa (i + 1)))
      → Mapped v (va + i * page_size) (pa + i * page_size) expand_flags o
      → Run v va pa (suc n) i (elim o [
        | none ↦ none
        | some (r, w) ↦ if is_zero r then expand_loop n w va pa (i + 1) else some (i, false, w)
      ])
  one_page n v i o few t gone rest (refused bad) =
      short (omega arith) (omega arith) (none_mapped v i t) (inl bad)
  one_page n v i o few t gone rest (no_frame {w} good t' here same kept lack) =
      short (omega arith) (omega arith)
        (record {
          tables = t';
          entries = λ j p q. absurd (omega (arith, p, q));
          aligned = λ j p q. absurd (omega (arith, p, q));
          others = λ b f. same (page b);
          kept = kept;
        })
        (inr (w, kept, lack))
  one_page n v i o few t gone rest (done {w} good t' here same kept) =
      prolong v w n i (expand_loop n w va pa (i + 1)) few (ground (arith, good)) here same kept (
        rest w t' (λ j p q.
          same (va + j * page_size) (λ e. nth_apart va i j (omega arith) (omega arith) (sym e))
          ∙ gone j (omega arith) q))

  pub expand_loop-Run :
      (n : ℕ) (v : Vmm) (i : ℕ)
      → i + n ≤ 2 ^ 35
      → IsPaging v
      → Absent v va i (i + n)
      → Run v va pa n i (expand_loop n v va pa i)
  unfolding expand_loop
  expand_loop-Run zero v i few t gone = full (omega arith) (none_mapped v i t)
  expand_loop-Run (suc n) v i few t gone =
      let plain : NoHuge v (nth va i) =
        λ m e q. ground (arith, gone i (omega arith) (omega arith), q) in
      one_page n v i (vmm_map v (va + i * page_size) (pa + i * page_size) expand_flags) few t gone
        (λ w t' gone'.
          expand_loop-Run n w (i + 1) (omega arith) t' (λ j p q. gone' j p (omega arith)))
        (vmm_map-Mapped v (va + i * page_size) (pa + i * page_size) expand_flags t plain)

-- The pages from `i` on, before `k`, are unmapped, and the walks of all others are as before.
pub record IsUndone (v u : Vmm) (va i k : ℕ) : Type 0 where
  pub tables : IsPaging u
  pub gone : (j : ℕ) → i ≤ j → j < k → lookup u (nth va j) ≡ none
  pub others : (b : ℕ) → Beside va i k b → lookup u (page b) ≡ lookup v (page b)

module _ (va : ℕ) where
  -- the pages from `i` on, before `k`, have entries
  abbrev pub Present : (v : Vmm) (i k : ℕ) → Type 0
  Present v i k =
      (j : ℕ)
      → i ≤ j
      → j < k
      → (off_page (va + j * page_size) ≡ false) × (e : Pte) × (lookup v (nth va j) ≡ some (0, e))

  undo_more :
      (v w u : Vmm) (i k : ℕ)
      → i < k
      → k ≤ 2 ^ 35
      → lookup w (nth va i) ≡ none
      → SameBut v w (nth va i)
      → IsUndone w u va (i + 1) k
      → IsUndone v u va i k
  undo_more v w u i k less few here same r = record {
    tables = r.tables;
    gone = λ j p q. elim (ℕ_discrete j i) [
      | no ne ↦ r.gone j (omega arith) q
      | yes e ↦ rw e (
          r.others (va + i * page_size) (λ l x y. nth_apart va i l (omega arith) (omega arith))
          ∙ here)
    ];
    others = λ b f. r.others b (λ j p q. f j (omega arith) q) ∙ same b (f i (omega arith) less);
  }

  undo_page :
      (n : ℕ) (v : Vmm) (i : ℕ) (o : Outcome)
      → i + suc n ≤ 2 ^ 35
      → Present v i (i + suc n)
      → ((w : Vmm)
          → IsPaging w
          → Present w (i + 1) (i + suc n)
          → (u : Vmm) × (unmap_loop n w va (i + 1) ≡ some u) × IsUndone w u va (i + 1) (i + suc n))
      → Unmapped v (va + i * page_size) o
      → (u : Vmm) × (elim o [ none ↦ none | some (r, w) ↦ unmap_loop n w va (i + 1) ] ≡ some u)
        × IsUndone v u va i (i + suc n)
  undo_page n v i o few here rest (refused bad) =
      let (ok, _, _) = here i (omega arith) (omega arith) in absurd (ground (arith, ok, bad))
  undo_page n v i o few here rest (faulted good t gone same) =
      let (_, _, there) = here i (omega arith) (omega arith) in absurd (ground (arith, there, gone))
  undo_page n v i o few here rest (done {w} e good t was gone same) =
      let (u, ends, r) = rest w t (λ j p q.
        let (ok, x, there) = here j (omega arith) q in
        let apart : nth va j ≢ nth va i =
          λ s. nth_apart va i j (omega arith) (omega arith) (sym s) in
        (ok, x, same (va + j * page_size) apart ∙ there)) in
      (u, ends, undo_more v w u i (i + suc n) (omega arith) few gone same r)

  pub unmap_loop-IsUndone :
      (n : ℕ) (v : Vmm) (i : ℕ)
      → i + n ≤ 2 ^ 35
      → IsPaging v
      → Present v i (i + n)
      → (u : Vmm) × (unmap_loop n v va i ≡ some u) × IsUndone v u va i (i + n)
  unfolding unmap_loop
  unmap_loop-IsUndone zero v i few t here = (
    v,
    refl,
    record { tables = t; gone = λ j p q. absurd (omega (arith, p, q)); others = λ b f. refl },
  )
  unmap_loop-IsUndone (suc n) v i few t here =
      let (_, _, there) = here i (omega arith) (omega arith) in
      let plain : NoHuge v (nth va i) = λ m e q. ground (arith, there, q) in
      undo_page n v i (vmm_unmap v (va + i * page_size)) few here
        (λ w t' here'.
          let few' : i + 1 + n ≤ 2 ^ 35 = omega arith in
          let same : i + 1 + n ≡ i + suc n = omega arith in
          rw same at (unmap_loop-IsUndone n w (i + 1) few' t' (λ j p q. here' j p (omega arith))))
        (vmm_unmap-Unmapped v (va + i * page_size) t plain)
