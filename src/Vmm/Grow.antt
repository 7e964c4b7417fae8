-- ===== src/Vmm/Grow.antt =====
-- MemoryControl.c, a new table under an entry that is not present: no page's walk changes.
use fexox_os.Base.{
  ℕ, zero, suc, ◌+◌, ◌*◌, ◌/◌, ◌%◌, ◌^◌, ◌≤◌, ◌<◌, ◌≡◌, ◌≢◌, ◌⊎◌, refl, ◌∙◌, sym, ap, true, false,
  none, some, arith, ◌==◌, if◌then◌else◌, Bool-cases, inl, inr, page_size,
}
use fexox_os.Pmm.{Pmm, address, pmm_test}
use fexox_os.Pmm.Alloc.{Taken, Taken-Keeps}
use fexox_os.Vmm.{
  Pte, frame_of, present, Vmm, table, write_entry, in_bitmap, put_entry, clear_words, with_words,
  clear_frame, attach, pte_make, pte_p, pte_w,
}
use fexox_os.Vmm.Entry.{frame_of-pte_make, present-pte_make}
use fexox_os.Vmm.Mmu.{path, huge, translate, lookup}
use fexox_os.Vmm.Tree.{Owner, Parent, IsTree}
use native.Mathlib.Decide.{ℕ_discrete, dec_lt}

plain-pte_make : (m pa : ℕ) → huge m (pte_make pa (pte_p + pte_w)) ≡ false
unfolding pte_make
plain-pte_make m pa = ground arith

-- a table of absent entries leads nowhere
empty_table :
    (m : ℕ) (tables : ℕ → ℕ → Pte) (f n : ℕ)
    → ((i : ℕ) → present (tables f i) ≡ false)
    → translate m tables f n ≡ none
unfolding translate
empty_table zero tables f n e = rw (e (n % 512)) refl
empty_table (suc m) tables f n e = rw (e (path (suc m) n % 512)) refl

apart : {i : ℕ} (j : ℕ) → j ≢ i → (j < i) ⊎ (i + 1 ≤ j)
apart {i} j ne = elim (dec_lt j i) [ yes h ↦ inl h | no h ↦ inr (omega arith) ]

either : (f i g j : ℕ) → ((g ≡ f) × (j ≡ i)) ⊎ ((g ≢ f) ⊎ (j ≢ i))
either f i g j = elim (ℕ_discrete g f) [
  | no d ↦ inr (inl d)
  | yes d ↦ elim (ℕ_discrete j i) [ yes e ↦ inl (d, e) | no e ↦ inr (inr e) ]
]

-- `f` holds a table at level `suc m` and with the path `p`, whose entry `i` is not present, and
-- `pmm` is the frame manager after it gave the frame at `pa`.
module _ (v : Vmm) (own : Owner) (t : IsTree v own) (f m p i : ℕ) (o : own f ≡ some (suc m, p))
    (hi : i < 512) (low : m < 3) (absent_entry : present (v.tables f i) ≡ false) (pa new : ℕ)
    (pmm : Pmm) (there : pa / page_size ≡ new) (taken : Taken v.pmm 1 1 new pmm) where
  abbrev pub linked : Vmm
  linked = record v {
    pmm = pmm;
    tables =
        write_entry (clear_frame (with_words pmm v.tables) (pa / page_size)) f i
          (pte_make pa (pte_p + pte_w));
  }

  abbrev grown : Owner
  grown g = if g == new then some (m, p * 512 + i) else own g

  unowned : (k q : ℕ) → own new ≡ some (k, q) → ⊥
  unowned k q e =
      ground (arith, (t.used new k q e).1, taken.were_free new (omega arith) (omega arith))

  -- the place of the bitmap is as before
  same_place : (g : ℕ) → in_bitmap pmm g ≡ in_bitmap v.pmm g
  same_place g = rw (taken.place.0, taken.place.1) refl

  new_beside : in_bitmap pmm new ≡ false
  new_beside = elim (Bool-cases (in_bitmap v.pmm new)) [
    | inr e ↦ same_place new ∙ e
    | inl e ↦
        absurd (ground (arith, t.reserved new e, taken.were_free new (omega arith) (omega arith)))
  ]

  owned_beside : (g k q : ℕ) → own g ≡ some (k, q) → in_bitmap pmm g ≡ false
  owned_beside g k q e = same_place g ∙ t.apart g k q e

  owned_old : (g k q : ℕ) → own g ≡ some (k, q) → g ≢ new
  owned_old g k q e s = unowned k q (ap own (sym s) ∙ e)

  in_reach : pa / page_size < 2 ^ 40
  in_reach = omega (arith, there, taken.inside_bitmap, t.small)

  leads_new : frame_of (linked.tables f i) ≡ new
  leads_new =
      let same : linked.tables f i ≡ pte_make pa (pte_p + pte_w) = ground arith in
      ap frame_of same ∙ frame_of-pte_make pa in_reach ∙ there

  -- entries of old tables but the written one
  old_entry :
      (g k q j : ℕ) → own g ≡ some (k, q) → (g ≢ f) ⊎ (j ≢ i) → linked.tables g j ≡ v.tables g j
  unfolding with_words
  old_entry g k q j og ne =
      let beside = owned_beside g k q og in
      let kept : with_words pmm v.tables g j ≡ v.tables g j = rw beside refl in
      ground (arith, owned_old g k q og, there, kept)

  level_differs : (g q : ℕ) → own g ≡ some (zero, q) → g ≢ f
  level_differs g q og e = ground (arith, ap own (sym e) ∙ og, o)

  written : linked.tables f i ≡ pte_make pa (pte_p + pte_w)
  written = ground arith

  entry_present : present (linked.tables f i) ≡ true
  entry_present = rw written (present-pte_make pa (pte_p + pte_w) refl)

  entry_plain : (k : ℕ) → huge k (linked.tables f i) ≡ false
  entry_plain k = rw written (plain-pte_make k pa)

  grown_old : (g k q : ℕ) → own g ≡ some (k, q) → grown g ≡ some (k, q)
  grown_old g k q og = ground (arith, owned_old g k q og, og)

  grown_cases :
      (g k q : ℕ)
      → grown g ≡ some (k, q)
      → ((g ≡ new) × (k ≡ m) × (q ≡ p * 512 + i)) ⊎ (own g ≡ some (k, q))
  grown_cases g k q e = elim (ℕ_discrete g new) [
    | yes s ↦ inl (s, ground (arith, e, s), ground (arith, e, s))
    | no s ↦ inr (ground (arith, e, s))
  ]

  -- no table has the place of the new one
  not_yet : (g : ℕ) → own g ≡ some (m, p * 512 + i) → ⊥
  not_yet g og =
      let (h, r) = t.up g m (p * 512 + i) og low in
      let up_p : (p * 512 + i) / 512 ≡ p = omega arith in
      let at_i : (p * 512 + i) % 512 ≡ i = omega arith in
      let same : h ≡ f = t.single h f (suc m) p (r.above ∙ ap (λ x. some (suc m, x)) up_p) o in
      let linked_i : present (v.tables f i) ≡ true = rw (sym same, sym at_i) r.linked in
      ground (arith, linked_i, absent_entry)

  same_entry : (g j : ℕ) → present (v.tables g j) ≡ true → (g ≢ f) ⊎ (j ≢ i)
  same_entry g j e = elim (ℕ_discrete g f) [
    | no d ↦ inl d
    | yes d ↦ inr (λ s. ground (arith, d, s, e, absent_entry))
  ]

  new_empty : (j : ℕ) → present (linked.tables new j) ≡ false
  new_empty j = ground (arith, owned_old f (suc m) p o, there)

  grown_used :
      (g k q : ℕ) → grown g ≡ some (k, q) → (g < pmm.total_frames) × (pmm_test pmm g ≡ true)
  grown_used g k q e = elim (grown_cases g k q e) [
    | inl (s, _, _) ↦ (
      omega (arith, taken.inside_bitmap, taken.total),
      taken.are_used g (omega arith) (omega arith),
    )
    | inr og ↦
        let (inside, used) = t.used g k q og in
        let kept = taken.others g (apart g (owned_old g k q og)) in
        (omega (arith, inside, taken.total), kept ∙ used)
  ]

  grown_single : (g h k q : ℕ) → grown g ≡ some (k, q) → grown h ≡ some (k, q) → g ≡ h
  grown_single g h k q e e' = elim (grown_cases g k q e) [
    | inl (s, x, y) ↦ elim (grown_cases h k q e') [
      | inl (s', _, _) ↦ s ∙ sym s'
      | inr oh ↦ absurd (not_yet h (rw (sym x, sym y) oh))
    ]
    | inr og ↦ elim (grown_cases h k q e') [
      | inl (s', x, y) ↦ absurd (not_yet g (rw (sym x, sym y) og))
      | inr oh ↦ t.single g h k q og oh
    ]
  ]

  grown_down :
      (g k q j : ℕ)
      → grown g ≡ some (suc k, q)
      → j < 512
      → present (linked.tables g j) ≡ true
      → huge (suc k) (linked.tables g j) ≡ false
      → grown (frame_of (linked.tables g j)) ≡ some (k, q * 512 + j)
  grown_down g k q j e hj here plain = elim (grown_cases g (suc k) q e) [
    | inl (s, _, _) ↦
        let gone : present (linked.tables g j) ≡ false = rw s (new_empty j) in
        absurd (ground (arith, gone, here))
    | inr og ↦ elim (either f i g j) [
      | inl (s, s') ↦
          let same : some (suc k, q) ≡ some (suc m, p) = sym og ∙ ap own s ∙ o in
          let k_m : k ≡ m = ground (arith, same) in
          let q_p : q ≡ p = ground (arith, same) in rw (s, s', leads_new, k_m, q_p) (ground arith)
      | inr ne ↦
          let old = old_entry g (suc k) q j og ne in
          rw old (
            grown_old (frame_of (v.tables g j)) k (q * 512 + j)
              (t.down g k q j og hj (rw old at here) (rw old at plain)))
    ]
  ]

  grown_up : (g k q : ℕ) → grown g ≡ some (k, q) → k < 3 → (h : ℕ) × Parent linked grown g k q h
  grown_up g k q e h = elim (grown_cases g k q e) [
    | inl (s, x, y) ↦
        let up_p : q / 512 ≡ p = omega arith in
        let at_i : q % 512 ≡ i = omega arith in
        (
          f,
          record {
            above = grown_old f (suc k) (q / 512) (
                o ∙ ap (λ z. some (suc m, z)) (sym up_p) ∙ ap (λ z. some (suc z, q / 512)) (sym x));
            linked = rw at_i entry_present;
            plain = rw at_i (entry_plain (suc k));
            leads = rw at_i (leads_new ∙ sym s);
          },
        )
    | inr og ↦
        let (g', r) = t.up g k q og h in
        let old =
          old_entry g' (suc k) (q / 512) (q % 512) r.above (same_entry g' (q % 512) r.linked) in
        (
          g',
          record {
            above = grown_old g' (suc k) (q / 512) r.above;
            linked = rw old r.linked;
            plain = rw old r.plain;
            leads = rw old r.leads;
          },
        )
  ]

  linked-IsTree : IsTree linked grown
  linked-IsTree = record {
    root = grown_old v.pml4 3 0 t.root;
    small = omega (arith, taken.total, t.small);
    used = grown_used;
    reserved = λ g e. Taken-Keeps taken g (t.reserved g (sym (same_place g) ∙ e));
    apart = λ g k q e. elim (grown_cases g k q e) [
      | inl (s, _, _) ↦ ap (in_bitmap pmm) s ∙ new_beside
      | inr og ↦ owned_beside g k q og
    ];
    single = grown_single;
    down = grown_down;
    up = grown_up;
  }

  -- a page whose walk comes to the new table faults, as it did before
  same_walk :
      (n k g q : ℕ) → own g ≡ some (k, q) → translate k linked.tables g n ≡ translate k v.tables g n
  unfolding translate
  same_walk n zero g q og =
      let old = old_entry g zero q (n % 512) og (inl (λ e. level_differs g q og e)) in rw old refl
  same_walk n (suc k) g q og =
      let j = path (suc k) n % 512 in
      elim (either f i g j) [
        | inl (s, s') ↦
            let below = empty_table k linked.tables new n new_empty in
            rw (s, s', entry_present, entry_plain (suc k), leads_new, below, absent_entry) refl
        | inr ne ↦
            let old = old_entry g (suc k) q j og ne in
            elim (Bool-cases (present (v.tables g j))) [
              | inr gone ↦ rw (old, gone) refl
              | inl here ↦ elim (Bool-cases (huge (suc k) (v.tables g j))) [
                | inl big ↦ rw (old, here, big) refl
                | inr plain ↦
                    rw (old, here, plain)
                      (same_walk n k (frame_of (v.tables g j)) (q * 512 + j)
                        (t.down g k q j og (omega arith) here plain))
              ]
            ]
      ]

  lookup_linked : (n : ℕ) → lookup linked n ≡ lookup v n
  lookup_linked n = same_walk n 3 v.pml4 0 t.root

  -- what the code makes of the new frame: the bitmap lies elsewhere
  pub attached : attach v f i (address pa pmm) ≡ table (frame_of (linked.tables f i)) linked
  unfolding attach clear_words put_entry
  attached =
      let beside : in_bitmap pmm (pa / page_size) ≡ false = rw there new_beside in
      rw beside (rw (owned_beside f (suc m) p o) refl)

  -- the tables with the new one are a tree, in which it has the place of the entry
  pub linked_done :
      (own' : Owner) × IsTree linked own'
      × (own' (frame_of (linked.tables f i)) ≡ some (m, p * 512 + i))
      × ((n : ℕ) → lookup linked n ≡ lookup v n)
  linked_done = (grown, linked-IsTree, ap grown leads_new ∙ ground arith, lookup_linked)
