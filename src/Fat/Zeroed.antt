-- ===== src/Fat/Zeroed.antt =====
-- FAT32.c, fat_set_entry of 0: one entry fewer is used.
use fexox_os.Base.{
  ℕ, ◌+◌, ◌≤◌, ◌<◌, ◌≡◌, ◌≢◌, refl, ap, Bool, some, not, arith, ◌==◌, inl, inr, tally, tally-ext,
  tally-update, one_if, update,
}
use fexox_os.Fat.{
  Fat, fat32_eoc, Disk, merge32, to_entry16, cache_entry, fat_get_entry, fat_set_entry,
}
use fexox_os.Fat.Entry.{IsCached}
use native.Mathlib.Decide.{ℕ_discrete}

-- `g` is `fat` with the entry of `c` set to 0
pub record Zeroed {D : Type 0} (disk : Disk D) (fat : Fat D) (c : ℕ) (g : Fat D) : Type 0 where
  pub cached : IsCached g
  pub total : g.total_clusters ≡ fat.total_clusters
  pub free : c < fat.total_clusters + 2 → fat_get_entry disk g c ≡ 0
  pub others : (j : ℕ) → j ≢ c → fat_get_entry disk g j ≡ fat_get_entry disk fat j

pub set_zero :
    {D : Type 0} (disk : Disk D) (fat : Fat D) (c : ℕ)
    → IsCached fat
    → 2 ≤ c
    → (g : Fat D) × (fat_set_entry disk fat c 0 ≡ some g) × Zeroed disk fat c g
unfolding fat_get_entry fat_set_entry
set_zero disk fat c v low =
    let small = v.small in
    elim v.wide [
      | inl e ↦ (
        cache_entry disk fat c (to_entry16 0),
        ground (arith, v.writable, e, v.held),
        record {
          cached = record { held = v.held; writable = v.writable; wide = v.wide; small = v.small };
          total = refl;
          free = λ high. ground (arith, e, v.held);
          others = λ j ne. ground (arith, e, v.held);
        },
      )
      | inr e ↦ (
        cache_entry disk fat c (merge32 (fat.table c) 0),
        ground (arith, v.writable, e, v.held),
        record {
          cached = record { held = v.held; writable = v.writable; wide = v.wide; small = v.small };
          total = refl;
          free = λ high. ground (arith, e, v.held);
          others = λ j ne. ground (arith, e, v.held);
        },
      )
    ]

pub beyond :
    {D : Type 0} (disk : Disk D) (fat : Fat D) (c : ℕ)
    → IsCached fat
    → fat.total_clusters + 2 ≤ c
    → fat_get_entry disk fat c ≡ fat32_eoc
unfolding fat_get_entry
beyond disk fat c v high = let small = v.small in ground arith

module _ {D : Type 0} (disk : Disk D) where
  -- how many entries of the volume are not free
  abbrev pub used_entries : Fat D → ℕ
  used_entries fat = tally (λ e. not (e == 0)) (fat.total_clusters + 2) (fat_get_entry disk fat)

  pub fewer :
      (fat g : Fat D) (c : ℕ)
      → Zeroed disk fat c g
      → c < fat.total_clusters + 2
      → fat_get_entry disk fat c ≢ 0
      → used_entries g + 1 ≡ used_entries fat
  fewer fat g c z high ne =
      let t : ℕ → Bool = λ e. not (e == 0) in
      let n = fat.total_clusters + 2 in
      let old = fat_get_entry disk fat in
      let same : tally t n (fat_get_entry disk g) ≡ tally t n (update old c 0) =
        tally-ext t n (fat_get_entry disk g) (update old c 0) (λ j p. elim (ℕ_discrete j c) [
          | yes e ↦ ground (arith, e, z.free high)
          | no d ↦ ground (arith, d, z.others j d)
        ]) in
      let counted = tally-update t n old c 0 high in
      let was : one_if (t (old c)) ≡ 1 = ground (arith, ne) in
      let size : used_entries g ≡ tally t n (fat_get_entry disk g) =
        ap (λ m. tally t (m + 2) (fat_get_entry disk g)) z.total in
      omega (arith, size, same, counted, was)
