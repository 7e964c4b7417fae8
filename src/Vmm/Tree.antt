-- ===== src/Vmm/Tree.antt =====
-- MemoryControl.c, the page tables as a tree: each table has its own frame and one parent.
use fexox_os.Base.{
  ℕ, zero, suc, ◌+◌, ◌-◌, ◌*◌, ◌/◌, ◌%◌, ◌^◌, ◌≤◌, ◌<◌, ◌≡◌, refl, ◌∙◌, ap, true, false, Option,
  some, arith,
}
use fexox_os.Pmm.{pmm_test}
use fexox_os.Vmm.{frame_of, present, in_bitmap, Vmm}
use fexox_os.Vmm.Mmu.{path, huge, translate, lookup}

-- Which table a frame holds: its level above the last tables, and the path that leads to it.
abbrev pub Owner : Type 0
Owner = ℕ → Option (ℕ × ℕ)

-- `g` holds the table whose entry leads to the one at `(m, p)`, in the frame `f`.
pub record Parent (v : Vmm) (own : Owner) (f m p g : ℕ) : Type 0 where
  pub above : own g ≡ some (suc m, p / 512)
  pub linked : present (v.tables g (p % 512)) ≡ true
  pub plain : huge (suc m) (v.tables g (p % 512)) ≡ false
  pub leads : frame_of (v.tables g (p % 512)) ≡ f

-- The tables have different frames, which the frame manager counts as used, and a present entry
-- that is no huge page leads to the table of its place. The frames of the frame bitmap are used too,
-- and no table lies in them.
pub record IsTree (v : Vmm) (own : Owner) : Type 0 where
  pub root : own v.pml4 ≡ some (3, 0)
  pub small : v.pmm.total_frames ≤ 2 ^ 40
  pub used :
      (f m p : ℕ) → own f ≡ some (m, p) → (f < v.pmm.total_frames) × (pmm_test v.pmm f ≡ true)
  pub reserved : (f : ℕ) → in_bitmap v.pmm f ≡ true → pmm_test v.pmm f ≡ true
  pub apart : (f m p : ℕ) → own f ≡ some (m, p) → in_bitmap v.pmm f ≡ false
  pub single : (f g m p : ℕ) → own f ≡ some (m, p) → own g ≡ some (m, p) → f ≡ g
  pub down :
      (f m p i : ℕ)
      → own f ≡ some (suc m, p)
      → i < 512
      → present (v.tables f i) ≡ true
      → huge (suc m) (v.tables f i) ≡ false
      → own (frame_of (v.tables f i)) ≡ some (m, p * 512 + i)
  pub up : (f m p : ℕ) → own f ≡ some (m, p) → m < 3 → (g : ℕ) × Parent v own f m p g

module _ (v : Vmm) (own : Owner) (t : IsTree v own) (n : ℕ) where
  -- the walk passes from a parent to its table
  passes :
      (f m g : ℕ)
      → Parent v own f m (path (suc m) n) g
      → translate (suc m) v.tables g n ≡ translate m v.tables f n
  unfolding translate
  passes f m g p = rw (p.linked, p.plain, p.leads) refl

  -- The walk from the root comes by the table that holds the page's path.
  arrives_from :
      (k m f : ℕ)
      → m + k ≡ 3
      → path 4 n ≡ 0
      → own f ≡ some (m, path (suc m) n)
      → lookup v n ≡ translate m v.tables f n
  arrives_from zero m f e z o =
      let top : m ≡ 3 = omega arith in
      let o3 : own f ≡ some (3, 0) = o ∙ (rw top (ap (λ x. some (3, x)) z)) in
      let same : f ≡ v.pml4 = t.single f v.pml4 3 0 o3 t.root in rw (top, same) refl
  arrives_from (suc k) m f e z o =
      let (g, p) = t.up f m (path (suc m) n) o (omega arith) in
      arrives_from k (suc m) g (omega arith) z p.above ∙ passes f m g p

  pub arrives :
      (m f : ℕ)
      → m ≤ 3
      → path 4 n ≡ 0
      → own f ≡ some (m, path (suc m) n)
      → lookup v n ≡ translate m v.tables f n
  arrives m f h z o = arrives_from (3 - m) m f (omega arith) z o
