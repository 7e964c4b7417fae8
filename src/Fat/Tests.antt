-- ===== src/Fat/Tests.antt =====
-- The theorems on a small volume.
use fexox_os.Base.{
  ℕ, ◌≡◌, refl, true, false, none, some, [], ◌∷◌, arith, ◌==◌, if◌then◌else◌, inl, inr,
}
use fexox_os.Fat.{Fat, fat32, Disk, fat_get_entry, fat_alloc_cluster, fat_chain_length, free_loop}
use fexox_os.Fat.Names.{fat_parse_83name, fat_make_83name}
use fexox_os.Fat.Entry.{IsCached}
use fexox_os.Fat.Chain.{Freed, IsInside, free_loop_ends}
use fexox_os.Fat.Alloc.{Taking, fat_alloc_cluster-Taking}

-- a device that does not answer
abbrev silent : Disk ℕ
silent = record { read_sectors = λ d lba count. none; write_sectors = λ d lba count bytes. none }

-- four clusters, of which 2 and 3 form a chain, with the hint at the last one
abbrev volume : Fat ℕ
volume = record {
  dev = 0;
  fat_type = fat32;
  cached = true;
  table =
      λ c. if c == 2 then 3 else if c == 3 then 0x0FFFFFFF else if c == 5 then 0x0FFFFFF8 else 0;
  dirty = false;
  readonly = false;
  total_clusters = 4;
  first_fat_sector = 32;
  bytes_per_sector = 512;
  next_free_cluster = 5;
  free_cluster_count = 1;
}

chain_of_two : fat_chain_length silent volume 2 ≡ 2
unfolding fat_chain_length fat_get_entry
chain_of_two = refl

wraps_around : (fat_alloc_cluster silent volume).0 ≡ 4
unfolding fat_alloc_cluster
wraps_around = refl

volume-IsCached : IsCached volume
volume-IsCached = record { held = refl; writable = refl; wide = inr refl; small = omega arith }

fat_alloc_cluster-Taking_example : Taking silent volume (fat_alloc_cluster silent volume)
fat_alloc_cluster-Taking_example =
    fat_alloc_cluster-Taking silent volume volume-IsCached (omega arith)

-- "A.B"
short_name :
    fat_parse_83name (λ i. if i == 0 then 65 else if i == 8 then 66 else 32) ≡ 65 ∷ 46 ∷ 66 ∷ []
unfolding fat_parse_83name
short_name = refl

too_long : fat_make_83name (1 ∷ 46 ∷ 2 ∷ 3 ∷ 4 ∷ 5 ∷ []) ≡ none
unfolding fat_make_83name
too_long = refl

-- a chain that comes back to its first cluster
abbrev looped : Fat ℕ
looped = record volume { table = λ c. if c == 2 then 3 else if c == 3 then 2 else 0 }

looped-IsCached : IsCached looped
looped-IsCached = record { held = refl; writable = refl; wide = inr refl; small = omega arith }

looped-IsInside : IsInside silent looped
unfolding fat_get_entry
looped-IsInside j lo hi = inl (ground arith)

free_loop_ends_example :
    (g : Fat ℕ) × (free_loop silent 8 looped 2 ≡ some (true, g)) × Freed silent looped 2 g
free_loop_ends_example =
    free_loop_ends silent 8 looped 2 looped-IsCached looped-IsInside (inl (omega arith))
      (omega arith)
