-- ===== src/Fat.antt =====
-- FAT32.c: the entries of the file allocation table, and the chains of clusters.
-- `value & FAT32_MASK` is the remainder modulo 2 ^ 28, and the other masks are written out in the
-- same way. The block device is a parameter: its state D, with a read and a write that may fail.
pub mod Entry
pub mod Alloc
pub mod Names
pub mod Zeroed
pub mod Chain
mod Tests
use fexox_os.Base.{
  ℕ, zero, suc, ◌+◌, ◌-◌, ◌*◌, ◌/◌, ◌%◌, ◌^◌, Bool, true, false, ◌||◌, ◌&&◌, not, Option, none,
  some, ltb, leb, ◌==◌, if◌then◌else◌, update, add32, sub32, u32_mod,
}

pub data FatType : Type 0 where
  fat12 fat16 fat32 : FatType

-- what the FAT needs of a block device; none is an error
pub record Disk (D : Type 0) : Type 0 where
  pub read_sectors : D → (lba count : ℕ) → Option (ℕ → ℕ)
  pub write_sectors : D → (lba count : ℕ) → (ℕ → ℕ) → Option D

-- `fat32_priv_t`, as far as the table goes. `table` is fat_cache, which is not NULL if `cached`. The
-- buffer ends behind the entries of the clusters of the volume, and what a write past it does is not
-- modelled: the theorems with writes take clusters below total_clusters + 2.
pub record Fat (D : Type 0) : Type 0 where
  pub dev : D
  pub fat_type : FatType
  pub cached : Bool
  pub table : ℕ → ℕ
  pub dirty : Bool
  pub readonly : Bool
  pub total_clusters : ℕ
  pub first_fat_sector : ℕ
  pub bytes_per_sector : ℕ
  pub next_free_cluster : ℕ
  pub free_cluster_count : ℕ

abbrev pub fat32_eoc : ℕ
fat32_eoc = 0x0FFFFFF8

abbrev pub fat32_bad : ℕ
fat32_bad = 0x0FFFFFF7

abbrev pub entry_range : ℕ
entry_range = 2 ^ 28

abbrev pub word16 : (ℕ → ℕ) → ℕ → ℕ
word16 bytes i = bytes i + 256 * bytes (i + 1)

abbrev pub word32 : (ℕ → ℕ) → ℕ → ℕ
word32 bytes i = word16 bytes i + 65536 * word16 bytes (i + 2)

abbrev pub set_word16 : (ℕ → ℕ) → ℕ → ℕ → ℕ → ℕ
set_word16 bytes i v = update (update bytes i (v % 256)) (i + 1) (v / 256 % 256)

abbrev pub set_word32 : (ℕ → ℕ) → ℕ → ℕ → ℕ → ℕ
set_word32 bytes i v = set_word16 (set_word16 bytes i (v % 65536)) (i + 2) (v / 65536)

-- an entry of 16 and of 12 bits, as fat_get_entry returns it
abbrev pub entry16 : ℕ → ℕ
entry16 v = if leb 0xFFF8 v then fat32_eoc else v

abbrev pub entry12 : ℕ → ℕ
entry12 v = if leb 0xFF8 v then fat32_eoc else v

abbrev pub nibbles : (cluster v : ℕ) → ℕ
nibbles cluster v = if cluster % 2 == 1 then v / 16 else v % 4096

abbrev pub to_entry16 : ℕ → ℕ
to_entry16 value = if leb fat32_eoc value then 0xFFFF else value % 65536

abbrev pub to_entry12 : ℕ → ℕ
to_entry12 value = if leb fat32_eoc value then 0xFF8 else value % 4096

abbrev pub set_nibbles : (cluster existing v : ℕ) → ℕ
set_nibbles cluster existing v =
    if cluster % 2 == 1 then existing % 16 + v * 16 else existing / 4096 * 4096 + v

-- `(table[cluster] & ~FAT32_MASK) | (value & FAT32_MASK)`
abbrev pub merge32 : (existing value : ℕ) → ℕ
merge32 existing value = existing / entry_range * entry_range + value % entry_range

module _ {D : Type 0} (disk : Disk D) where
  -- where the entry stands on the disk, `offset` bytes into the table
  abbrev pub sector_of : Fat D → (offset : ℕ) → ℕ
  sector_of fat offset = add32 fat.first_fat_sector (offset / fat.bytes_per_sector)

  abbrev pub read_at : Fat D → (offset count : ℕ) → Option (ℕ → ℕ)
  read_at fat offset count = disk.read_sectors fat.dev (sector_of fat offset) count

  -- the entry on the disk, read by `word` at its place; an error gives FAT32_EOC
  abbrev pub entry_on_disk : Fat D → (offset count : ℕ) → ((ℕ → ℕ) → ℕ → ℕ) → ℕ
  entry_on_disk fat offset count word = elim (read_at fat offset count) [
    | none ↦ fat32_eoc
    | some tmp ↦ word tmp (offset % fat.bytes_per_sector)
  ]

  unfoldable pub fat_get_entry : Fat D → (cluster : ℕ) → ℕ
  fat_get_entry fat cluster =
      let offset12 = add32 cluster (cluster / 2) in
      if ltb cluster 2 || leb (add32 fat.total_clusters 2) cluster
      then fat32_eoc
      else elim fat.fat_type [
        | fat32 ↦
            if fat.cached
            then fat.table cluster % entry_range
            else entry_on_disk fat (cluster * 4 % u32_mod) 1 (λ tmp i. word32 tmp i % entry_range)
        | fat16 ↦
            if fat.cached
            then entry16 (fat.table cluster)
            else entry_on_disk fat (cluster * 2 % u32_mod) 1 (λ tmp i. entry16 (word16 tmp i))
        | fat12 ↦ entry_on_disk fat offset12 2 (λ tmp i. entry12 (nibbles cluster (word16 tmp i)))
      ]

  -- the read, the change and the write back of the sectors with an entry; none for VFS_ERR_IO
  abbrev pub rewrite : Fat D → (offset count : ℕ) → ((ℕ → ℕ) → ℕ → ℕ → ℕ) → Option (Fat D)
  rewrite fat offset count change = elim (read_at fat offset count) [
    | none ↦ none
    | some tmp ↦
        elim (disk.write_sectors fat.dev (sector_of fat offset) count
          (change tmp (offset % fat.bytes_per_sector))) [
            | none ↦ none
            | some dev ↦ some (record fat { dev = dev })
          ]
  ]

  abbrev pub cache_entry : Fat D → (cluster v : ℕ) → Fat D
  cache_entry fat cluster v = record fat { table = update fat.table cluster v; dirty = true }

  -- none for an error: a read-only file system, or one of the device. The cluster is not tested.
  unfoldable pub fat_set_entry : Fat D → (cluster value : ℕ) → Option (Fat D)
  fat_set_entry fat cluster value =
      let offset12 = add32 cluster (cluster / 2) in
      if fat.readonly then none else elim fat.fat_type [
        | fat32 ↦
            if fat.cached
            then some (cache_entry fat cluster (merge32 (fat.table cluster) value))
            else rewrite fat (cluster * 4 % u32_mod) 1
                (λ tmp i. set_word32 tmp i (merge32 (word32 tmp i) value))
        | fat16 ↦
            if fat.cached
            then some (cache_entry fat cluster (to_entry16 value))
            else rewrite fat (cluster * 2 % u32_mod) 1
                (λ tmp i. set_word16 tmp i (to_entry16 value))
        | fat12 ↦
            rewrite fat offset12 2
              (λ tmp i. set_word16 tmp i (set_nibbles cluster (word16 tmp i) (to_entry12 value)))
      ]

  -- a call of fat_set_entry whose result is not looked at
  abbrev pub set_or_keep : Fat D → (cluster value : ℕ) → Fat D
  set_or_keep fat cluster value = elim (fat_set_entry fat cluster value) [
    | none ↦ fat
    | some next ↦ next
  ]

  unfoldable pub fat_follow_chain : Fat D → (cur n : ℕ) → ℕ
  fat_follow_chain fat cur zero = cur
  fat_follow_chain fat cur (suc n) =
      let next = fat_get_entry fat cur in
      let rest = fat_follow_chain fat next n in
      if leb fat32_eoc next || next == 0 || next == fat32_bad then 0 else rest

  -- the cluster that round i of fat_alloc_cluster looks at
  abbrev pub candidate : Fat D → (i : ℕ) → ℕ
  candidate fat i =
      let start = if ltb fat.next_free_cluster 2 then 2 else fat.next_free_cluster in
      2 + add32 (start - 2) i % fat.total_clusters

  unfoldable pub take_cluster : Fat D → (c : ℕ) → Fat D
  unfolding fat_set_entry
  take_cluster fat c =
      let marked = set_or_keep fat c fat32_eoc in
      let count = marked.free_cluster_count in
      record marked {
        next_free_cluster = add32 c 1;
        free_cluster_count = if not (count == 0xFFFFFFFF) && ltb 0 count then count - 1 else count;
      }

  -- the loop from round i on, of k rounds
  unfoldable pub alloc_loop : (k : ℕ) → Fat D → (i : ℕ) → ℕ × Fat D
  unfolding fat_get_entry take_cluster
  alloc_loop zero fat i = (0, fat)
  alloc_loop (suc k) fat i =
      let rest = alloc_loop k fat (i + 1) in
      let c = candidate fat i in if fat_get_entry fat c == 0 then (c, take_cluster fat c) else rest

  -- 0 if no cluster is free
  unfoldable pub fat_alloc_cluster : Fat D → ℕ × Fat D
  unfolding alloc_loop
  fat_alloc_cluster fat = alloc_loop fat.total_clusters fat 0

  -- A walk over a chain, on fuel; the Boolean is false for an error, and none is out of fuel.
  unfoldable pub free_loop : (fuel : ℕ) → Fat D → (cur : ℕ) → Option (Bool × Fat D)
  unfolding fat_get_entry fat_set_entry
  free_loop zero fat cur = none
  free_loop (suc k) fat cur =
      let next = fat_get_entry fat cur in
      if leb 2 cur && ltb cur fat32_eoc
      then elim (fat_set_entry fat cur 0) [
        | none ↦ some (false, fat)
        | some freed ↦
            let count = freed.free_cluster_count in
            free_loop k
              (record freed {
                free_cluster_count = if count == 0xFFFFFFFF then count else add32 count 1;
                next_free_cluster =
                    if ltb cur freed.next_free_cluster then cur else freed.next_free_cluster;
              })
              next
      ]
      else some (true, fat)

  unfoldable pub fat_extend_chain : Fat D → (last_cluster : ℕ) → ℕ × Fat D
  unfolding fat_alloc_cluster fat_set_entry
  fat_extend_chain fat last_cluster =
      let (new_c, next) = fat_alloc_cluster fat in
      let linked = set_or_keep next last_cluster new_c in
      if new_c == 0
      then (0, next)
      else (new_c, if leb 2 last_cluster && ltb last_cluster fat32_eoc then linked else next)

  -- The count stops one above total_clusters, so `total_clusters + 2` rounds are enough.
  unfoldable pub length_loop : (fuel : ℕ) → Fat D → (cur n : ℕ) → ℕ
  unfolding fat_get_entry
  length_loop zero fat cur n = n
  length_loop (suc k) fat cur n =
      let rest = length_loop k fat (fat_get_entry fat cur) (n + 1) in
      if leb 2 cur && ltb cur fat32_eoc
      then (if ltb fat.total_clusters (n + 1) then n + 1 else rest)
      else n

  unfoldable pub fat_chain_length : Fat D → (start : ℕ) → ℕ
  unfolding length_loop
  fat_chain_length fat start = length_loop (fat.total_clusters + 2) fat start 0
