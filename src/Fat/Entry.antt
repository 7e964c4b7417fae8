-- ===== src/Fat/Entry.antt =====
-- FAT32.c: what fat_get_entry finds after fat_set_entry, in a table held in memory.
use fexox_os.Base.{
  ℕ, ◌+◌, ◌%◌, ◌^◌, ◌≤◌, ◌<◌, ◌≡◌, ◌≢◌, ◌⊎◌, true, false, some, arith, ltb, leb, inl, inr, add32,
}
use fexox_os.Fat.{
  Fat, FatType, fat16, fat32, Disk, entry_range, entry16, to_entry16, merge32, cache_entry,
  fat_get_entry, fat_set_entry,
}

-- A FAT16 or FAT32 volume that may be written, with its table in memory.
pub record IsCached {D : Type 0} (fat : Fat D) : Type 0 where
  pub held : fat.cached ≡ true
  pub writable : fat.readonly ≡ false
  pub wide : (fat.fat_type ≡ fat16) ⊎ (fat.fat_type ≡ fat32)
  pub small : fat.total_clusters < 2 ^ 31

-- what an entry that was set to `value` reads as
abbrev pub stored : FatType → (value : ℕ) → ℕ
stored fat32 value = value % entry_range
stored _ value = entry16 (to_entry16 value)

-- Setting an entry of a cluster of the volume succeeds; the entry then reads as the value, cut to the
-- entry's width and with the end marks of FAT16 read as those of FAT32, and every other entry reads
-- as before. The volume has its table in memory, is a FAT16 or FAT32 one, and may be written.
pub fat_get_entry-fat_set_entry :
    {D : Type 0} (disk : Disk D) (fat : Fat D) (c value : ℕ)
    → IsCached fat
    → 2 ≤ c
    → c < fat.total_clusters + 2
    → (g : Fat D) × (fat_set_entry disk fat c value ≡ some g)
      × (fat_get_entry disk g c ≡ stored fat.fat_type value)
      × ((j : ℕ) → j ≢ c → fat_get_entry disk g j ≡ fat_get_entry disk fat j)
unfolding fat_get_entry fat_set_entry
fat_get_entry-fat_set_entry disk fat c value v low high =
    let small = v.small in
    let inside : leb (add32 fat.total_clusters 2) c ≡ false = ground arith in
    let above : ltb c 2 ≡ false = ground arith in
    elim v.wide [
      | inl e ↦ (
        cache_entry disk fat c (to_entry16 value),
        ground (arith, v.writable, e, v.held),
        ground (arith, above, inside, e, v.held),
        λ j ne. ground (arith, e, v.held),
      )
      | inr e ↦ (
        cache_entry disk fat c (merge32 (fat.table c) value),
        ground (arith, v.writable, e, v.held),
        ground (arith, above, inside, e, v.held),
        λ j ne. ground (arith, e, v.held),
      )
    ]
