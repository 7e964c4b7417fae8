-- ===== src/Fat/Alloc.antt =====
-- FAT32.c: fat_alloc_cluster.
use fexox_os.Base.{
  ℕ, zero, suc, ◌+◌, ◌-◌, ◌*◌, ◌/◌, ◌%◌, ◌^◌, ◌≤◌, ◌<◌, ◌≡◌, ◌≢◌, refl, ◌∙◌, ap, some, arith, ltb,
  ◌==◌, if◌then◌else◌, Bool-cases, inl, inr, add32,
}
use native.Mathlib.Nat.{mod-lt, add-mul-mod_self_left, mod-eq_of_lt, add-mod-mod, mod-add-div}
use fexox_os.Fat.{
  Fat, Disk, fat32_eoc, candidate, set_or_keep, take_cluster, alloc_loop, fat_alloc_cluster,
  fat_get_entry, fat_set_entry,
}
use fexox_os.Fat.Entry.{IsCached, stored, fat_get_entry-fat_set_entry}

-- `g` is `fat` with the free cluster `c` taken as the end of a chain.
pub record IsTaken {D : Type 0} (disk : Disk D) (fat : Fat D) (c : ℕ) (g : Fat D) : Type 0 where
  pub from : 2 ≤ c
  pub below : c < fat.total_clusters + 2
  pub free : fat_get_entry disk fat c ≡ 0
  pub ends : fat_get_entry disk g c ≡ fat32_eoc
  pub others : (j : ℕ) → j ≢ c → fat_get_entry disk g j ≡ fat_get_entry disk fat j

pub data Taking {D : Type 0} (disk : Disk D) (fat : Fat D) : ℕ × Fat D → Type 0 where
  taken : (c : ℕ) (g : Fat D) → IsTaken disk fat c g → Taking disk fat (c, g)
  full :
      ((c : ℕ) → 2 ≤ c → c < fat.total_clusters + 2 → fat_get_entry disk fat c ≢ 0)
      → Taking disk fat (0, fat)

module _ {D : Type 0} (disk : Disk D) (fat : Fat D) (v : IsCached fat)
    (start : fat.next_free_cluster < 2 ^ 31) where
  -- the hint and the counter do not bear on the entries
  get-hints :
      (g : Fat D) (next count j : ℕ)
      → fat_get_entry disk (record g { next_free_cluster = next; free_cluster_count = count }) j
        ≡ fat_get_entry disk g j
  unfolding fat_get_entry
  get-hints g next count j = refl

  stored_end : stored fat.fat_type fat32_eoc ≡ fat32_eoc
  stored_end = elim v.wide [ inl e ↦ rw e refl | inr e ↦ rw e refl ]

  set_kept :
      (c value : ℕ) (g : Fat D)
      → fat_set_entry disk fat c value ≡ some g
      → set_or_keep disk fat c value ≡ g
  set_kept c value g e = rw (e, set_or_keep) refl

  take_cluster-IsTaken :
      (c : ℕ)
      → 2 ≤ c
      → c < fat.total_clusters + 2
      → fat_get_entry disk fat c ≡ 0
      → IsTaken disk fat c (take_cluster disk fat c)
  unfolding take_cluster
  take_cluster-IsTaken c low high free =
      let (g, e, here, there) = fat_get_entry-fat_set_entry disk fat c fat32_eoc v low high in
      let marked : set_or_keep disk fat c fat32_eoc ≡ g = set_kept c fat32_eoc g e in
      let same = λ (j : ℕ).
        get-hints (set_or_keep disk fat c fat32_eoc) _ _ j
        ∙ ap (λ x. fat_get_entry disk x j) marked in
      record {
        from = low;
        below = high;
        free = free;
        ends = same c ∙ here ∙ stored_end;
        others = λ j ne. same j ∙ there j ne;
      }

  abbrev start_at : ℕ
  start_at = if ltb fat.next_free_cluster 2 then 2 else fat.next_free_cluster

  candidate_lem :
      (i : ℕ)
      → i < fat.total_clusters
      → candidate disk fat i ≡ 2 + (start_at - 2 + i) % fat.total_clusters
  candidate_lem i h =
      let small = v.small in
      let e : add32 (start_at - 2) i ≡ start_at - 2 + i = ground arith in
      ap (λ k. 2 + k % fat.total_clusters) e

  candidate_in : (i : ℕ) → i < fat.total_clusters → candidate disk fat i < fat.total_clusters + 2
  candidate_in i h =
      let r = mod-lt (start_at - 2 + i) {m = fat.total_clusters} (omega arith) in
      omega (arith, candidate_lem i h, r)

  -- the round that looks at cluster c
  abbrev round_of : ℕ → ℕ
  round_of c =
      (c - 2 + (fat.total_clusters - (start_at - 2) % fat.total_clusters)) % fat.total_clusters

  candidate-round_of :
      (c : ℕ)
      → 2 ≤ c
      → c < fat.total_clusters + 2
      → (round_of c < fat.total_clusters) × (candidate disk fat (round_of c) ≡ c)
  candidate-round_of c low high =
      let t = fat.total_clusters in
      let s = start_at - 2 in
      let pos : 0 < t = omega arith in
      let inside = mod-lt (c - 2 + (t - s % t)) {m = t} pos in
      let part = mod-lt s {m = t} pos in
      let split = mod-add-div s t in
      let turn : s + (c - 2 + (t - s % t)) ≡ c - 2 + t * (s / t + 1) = omega (arith, split, part) in
      let back : (s + round_of c) % t ≡ c - 2 =
        add-mod-mod s (c - 2 + (t - s % t)) t
        ∙ ap (λ x. x % t) turn
        ∙ add-mul-mod_self_left (c - 2) t (s / t + 1)
        ∙ mod-eq_of_lt {n = c - 2} {m = t} (omega arith) in
      (inside, candidate_lem (round_of c) inside ∙ ap (λ x. 2 + x) back ∙ omega arith)

  loop-Taking :
      (k i : ℕ)
      → i + k ≡ fat.total_clusters
      → ((j : ℕ) → j < i → fat_get_entry disk fat (candidate disk fat j) ≢ 0)
      → Taking disk fat (alloc_loop disk k fat i)
  unfolding alloc_loop
  loop-Taking zero i e before = full λ c low high free.
      let (inside, here) = candidate-round_of c low high in
      before (round_of c) (omega arith) (ap (fat_get_entry disk fat) here ∙ free)
  loop-Taking (suc k) i e before =
      elim (Bool-cases (fat_get_entry disk fat (candidate disk fat i) == 0)) [
        | inl free ↦ rw free (
            taken _ _
              (take_cluster-IsTaken _ (omega arith) (candidate_in i (omega arith)) (ground arith)))
        | inr busy ↦ rw busy (loop-Taking k (i + 1) (omega arith) λ j h. ground (arith, before j))
      ]

-- On a FAT16 or FAT32 volume that may be written, has its table in memory and less than 2 ^ 31
-- clusters, and with a hint below that too, fat_alloc_cluster either takes a cluster of the volume
-- that was free and marks it as the end of a chain, changing no other entry, or it returns 0 and
-- changes nothing, and then no cluster of the volume is free, wherever the search began.
pub fat_alloc_cluster-Taking :
    {D : Type 0} (disk : Disk D) (fat : Fat D)
    → IsCached fat
    → fat.next_free_cluster < 2 ^ 31
    → Taking disk fat (fat_alloc_cluster disk fat)
unfolding fat_alloc_cluster
fat_alloc_cluster-Taking disk fat v start =
    loop-Taking disk fat v start fat.total_clusters 0 (omega arith) λ j h. absurd (omega arith)
