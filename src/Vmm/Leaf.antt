-- ===== src/Vmm/Leaf.antt =====
-- MemoryControl.c, a write to an entry of a last table: what it does to the walks of all pages.
use fexox_os.Base.{
  ℕ, zero, suc, ◌/◌, ◌%◌, ◌≤◌, ◌≡◌, ◌≢◌, ◌⊎◌, refl, ◌∙◌, sym, ap, none, some, arith, if◌then◌else◌,
  Bool-cases, inl, inr,
}
use fexox_os.Vmm.{Pte, frame_of, present, Vmm, put_entry, write, write_entry}
use fexox_os.Vmm.Mmu.{path, huge, translate, lookup}
use fexox_os.Vmm.Tree.{Owner, Parent, IsTree, arrives}
use native.Mathlib.Decide.{ℕ_discrete}

module _ (v : Vmm) (own : Owner) (t : IsTree v own) (f p i : ℕ) (e : Pte)
    (o : own f ≡ some (0, p)) where
  -- a table above the last ones is not written
  untouched :
      (g m q j : ℕ) → own g ≡ some (suc m, q) → write_entry v.tables f i e g j ≡ v.tables g j
  untouched g m q j og = ground (arith, o, og)

  child_stays : (g m q h : ℕ) → Parent v own g m q h → Parent (write v f i e) own g m q h
  child_stays g m q h r =
      let same = untouched h m (q / 512) (q % 512) r.above in
      record {
        above = r.above;
        linked = rw same r.linked;
        plain = rw same r.plain;
        leads = rw same r.leads;
      }

  -- the table lies beside the bitmap
  pub same_pmm : put_entry v.pmm f i e ≡ v.pmm
  unfolding put_entry
  same_pmm = rw (t.apart f 0 p o) refl

  pub write-IsTree : IsTree (write v f i e) own
  write-IsTree = record {
    root = t.root;
    small = rw same_pmm t.small;
    used = rw same_pmm t.used;
    reserved = rw same_pmm t.reserved;
    apart = rw same_pmm t.apart;
    single = t.single;
    down = λ g m q j og hj here plain.
        let same = untouched g m q j og in
        rw same (t.down g m q j og hj (rw same at here) (rw same at plain));
    up = λ g m q og h. let (k, r) = t.up g m q og h in (k, child_stays g m q k r);
  }

  -- the walk of another page
  other_page :
      (n : ℕ)
      → (p ≢ n / 512) ⊎ (i ≢ n % 512)
      → (m g : ℕ) → m ≤ 3
      → own g ≡ some (m, path (suc m) n)
      → translate m (write_entry v.tables f i e) g n ≡ translate m v.tables g n
  unfolding translate
  other_page n ne zero g h og =
      let same : write_entry v.tables f i e g (n % 512) ≡ v.tables g (n % 512) =
        ground (arith, o, og, ne) in
      rw same refl
  other_page n ne (suc m) g h og =
      let j = path (suc m) n % 512 in
      let same = untouched g m (path (suc (suc m)) n) j og in
      elim (Bool-cases (present (v.tables g j))) [
        | inr gone ↦ rw (same, gone) refl
        | inl here ↦ elim (Bool-cases (huge (suc m) (v.tables g j))) [
          | inl big ↦ rw (same, here, big) refl
          | inr plain ↦
              let below = t.down g m (path (suc (suc m)) n) j og (omega arith) here plain in
              let deeper =
                other_page n ne m (frame_of (v.tables g j)) (omega arith)
                  (below ∙ ap (λ x. some (m, x)) (omega arith)) in
              rw (same, here, plain) deeper
        ]
      ]

split : (n k : ℕ) → k ≢ n → (n / 512 ≢ k / 512) ⊎ (n % 512 ≢ k % 512)
split n k ne = elim (ℕ_discrete (n / 512) (k / 512)) [
  | no d ↦ inl d
  | yes d ↦ inr (λ e. ne (omega arith))
]

-- After a write to the entry of page `n` in its last table, the walk of that page ends at what was
-- written, and the walk of any other page is as before.
pub lookup-write :
    (v : Vmm) (own : Owner) (t : IsTree v own) (f n : ℕ) (e : Pte)
    → own f ≡ some (0, path 1 n)
    → path 4 n ≡ 0
    → (lookup (write v f (n % 512) e) n ≡ (if present e then some (0, e) else none))
      × ((k : ℕ) → path 4 k ≡ 0 → k ≢ n → lookup (write v f (n % 512) e) k ≡ lookup v k)
unfolding translate
lookup-write v own t f n e o z = (
  arrives (write v f (n % 512) e) own (write-IsTree v own t f (path 1 n) (n % 512) e o) n 0 f
        (omega arith) z o
      ∙ (let same : write_entry v.tables f (n % 512) e f (n % 512) ≡ e = ground arith in
          rw same refl),
  λ k zk ne.
      other_page v own t f (path 1 n) (n % 512) e o k (split n k ne) 3 v.pml4 (omega arith)
        (t.root ∙ ap (λ x. some (3, x)) (sym zk)),
)
