-- ===== src/Fat/Chain.antt =====
-- FAT32.c, fat_free_chain: the walk ends, and stays inside the table.
use fexox_os.Base.{
  ℕ, zero, suc, ◌+◌, ◌≤◌, ◌<◌, ◌≡◌, ◌⊎◌, refl, ◌∙◌, ap, true, false, some, not, ◌&&◌, arith, ltb,
  leb, ◌==◌, inl, inr, add32, Bool-cases, if◌then◌else◌, tally-le,
}
use fexox_os.Fat.{Fat, fat32_eoc, Disk, fat_get_entry, fat_set_entry, free_loop}
use fexox_os.Fat.Entry.{IsCached}
use native.Mathlib.Decide.{ℕ_discrete}
use fexox_os.Fat.Zeroed.{Zeroed, set_zero, used_entries, fewer}

module _ {D : Type 0} (disk : Disk D) where
  -- the entries of `g` are those of `fat`, or free
  pub record Freed (fat : Fat D) (start : ℕ) (g : Fat D) : Type 0 where
    pub cached : IsCached g
    pub total : g.total_clusters ≡ fat.total_clusters
    pub entries :
        (j : ℕ) → (fat_get_entry disk g j ≡ fat_get_entry disk fat j) ⊎ (fat_get_entry disk g j ≡ 0)
    pub first :
        2 ≤ start
        → start < fat.total_clusters + 2
        → start < fat32_eoc
        → fat_get_entry disk g start ≡ 0

  -- the entry of each cluster is below the end of the table, or an end mark
  abbrev pub IsInside : Fat D → Type 0
  IsInside fat =
      (j : ℕ)
      → 2 ≤ j
      → j < fat.total_clusters + 2
      → (fat_get_entry disk fat j < fat.total_clusters + 2) ⊎ (fat32_eoc ≤ fat_get_entry disk fat j)

  next_inside :
      (fat g : Fat D) (next : ℕ)
      → g.total_clusters ≡ fat.total_clusters
      → (next < fat.total_clusters + 2) ⊎ (fat32_eoc ≤ next)
      → (next < g.total_clusters + 2) ⊎ (fat32_eoc ≤ next)
  next_inside fat g next e (inl h) = inl (omega (arith, e, h))
  next_inside fat g next e (inr h) = inr h

  ends_at :
      (k : ℕ) (fat : Fat D) (cur : ℕ)
      → (leb 2 cur && ltb cur fat32_eoc) ≡ false
      → free_loop disk (suc k) fat cur ≡ some (true, fat)
  unfolding free_loop
  ends_at k fat cur e = rw e refl

  ends_pos :
      (k : ℕ) (fat : Fat D) (cur : ℕ)
      → 1 ≤ k
      → (leb 2 cur && ltb cur fat32_eoc) ≡ false
      → free_loop disk k fat cur ≡ some (true, fat)
  ends_pos zero fat cur h e = absurd (omega arith)
  ends_pos (suc k) fat cur h e = ends_at k fat cur e

  entry_after :
      (fat g : Fat D) (c j : ℕ)
      → Zeroed disk fat c g
      → c < fat.total_clusters + 2
      → (fat_get_entry disk g j ≡ fat_get_entry disk fat j) ⊎ (fat_get_entry disk g j ≡ 0)
  entry_after fat g c j z high = elim (ℕ_discrete j c) [
    | yes e ↦ inr (ap (fat_get_entry disk g) e ∙ z.free high)
    | no ne ↦ inl (z.others j ne)
  ]

  -- the walk, when more rounds followed
  went_on :
      (fat g u : Fat D) (c next : ℕ)
      → Zeroed disk fat c g
      → c < fat.total_clusters + 2
      → Freed g next u
      → Freed fat c u
  went_on fat g u c next z high f = record {
    cached = f.cached;
    total = f.total ∙ z.total;
    entries = λ j. elim (f.entries j) [
      | inr e ↦ inr e
      | inl e ↦ elim (entry_after fat g c j z high) [ inr d ↦ inr (e ∙ d) | inl d ↦ inl (e ∙ d) ]
    ];
    first = λ lo hi cap. elim (f.entries c) [ inl e ↦ e ∙ z.free hi | inr e ↦ e ];
  }

  -- the counters that the walk keeps
  abbrev counted_free : Fat D → ℕ → Fat D
  counted_free freed cur =
      let count = freed.free_cluster_count in
      record freed {
        free_cluster_count = if count == 0xFFFFFFFF then count else add32 count 1;
        next_free_cluster =
            if ltb cur freed.next_free_cluster then cur else freed.next_free_cluster;
      }

  one_round :
      (k : ℕ) (fat g : Fat D) (cur : ℕ)
      → (leb 2 cur && ltb cur fat32_eoc) ≡ true
      → fat_set_entry disk fat cur 0 ≡ some g
      → free_loop disk (suc k) fat cur
        ≡ free_loop disk k (counted_free g cur) (fat_get_entry disk fat cur)
  unfolding free_loop
  one_round k fat g cur e s = rw (e, s) refl

  counted-Zeroed :
      (fat g : Fat D) (c cur : ℕ) → Zeroed disk fat c g → Zeroed disk fat c (counted_free g cur)
  unfolding fat_get_entry
  counted-Zeroed fat g c cur z = record {
    cached = record {
      held = z.cached.held;
      writable = z.cached.writable;
      wide = z.cached.wide;
      small = z.cached.small;
    };
    total = z.total;
    free = z.free;
    others = z.others;
  }

  went_on-IsInside :
      (fat g : Fat D) (c : ℕ)
      → Zeroed disk fat c g
      → c < fat.total_clusters + 2
      → IsInside fat
      → IsInside g
  went_on-IsInside fat g c z high inside j lo hi = elim (entry_after fat g c j z high) [
    | inr e ↦ inl (omega (arith, e))
    | inl e ↦ elim (inside j lo (omega (arith, hi, z.total))) [
      | inl small ↦ inl (omega (arith, e, small, z.total))
      | inr mark ↦ inr (omega (arith, e, mark))
    ]
  ]

  free_loop-Freed :
      (fuel : ℕ) (fat : Fat D) (start : ℕ)
      → IsCached fat
      → IsInside fat
      → (start < fat.total_clusters + 2) ⊎ (fat32_eoc ≤ start)
      → used_entries disk fat + 2 ≤ fuel
      → (g : Fat D) × (free_loop disk fuel fat start ≡ some (true, g)) × Freed fat start g
  free_loop-Freed zero fat start v inside from enough = absurd (omega arith)
  free_loop-Freed (suc k) fat start v inside from enough =
      elim (Bool-cases (leb 2 start && ltb start fat32_eoc)) [
        | inr e ↦ (
          fat,
          ends_at k fat start e,
          record {
            cached = v;
            total = refl;
            entries = λ j. inl refl;
            first = λ lo hi cap. absurd (ground (arith, e));
          },
        )
        | inl e ↦
            let high : start < fat.total_clusters + 2 = ground (arith, from, e) in
            let low : 2 ≤ start = ground (arith, e) in
            let (g, s, z') = set_zero disk fat start v low in
            let h = counted_free g start in
            let z = counted-Zeroed fat g start start z' in
            let round = one_round k fat g start e s in
            let next = fat_get_entry disk fat start in
            elim (ℕ_discrete next 0) [
              | yes zero_next ↦ (
                h,
                round ∙ ends_pos k h next (omega arith) (rw zero_next refl),
                record {
                  cached = z.cached;
                  total = z.total;
                  entries = λ j. entry_after fat h start j z high;
                  first = λ lo hi cap. z.free hi;
                },
              )
              | no more ↦
                  let less = fewer disk fat h start z high more in
                  let inside' = went_on-IsInside fat h start z high inside in
                  let from' = next_inside fat h next z.total (inside start low high) in
                  let (u, ends, freed) =
                    free_loop-Freed k h next z.cached inside' from' (omega (arith, less)) in
                  (u, round ∙ ends, went_on fat h u start next z high freed)
            ]
      ]

-- On a FAT16 or FAT32 volume that may be written and has its table in memory, in which the entry of
-- each cluster is below total_clusters + 2 or an end mark, the walk of fat_free_chain from a number
-- of that kind ends without an error after at most total_clusters + 4 rounds, a chain with a cycle
-- included. Every entry is then as before or free, and that of the first cluster is free if it is a
-- cluster of the volume below the end marks.
pub free_loop_ends :
    {D : Type 0} (disk : Disk D) (fuel : ℕ) (fat : Fat D) (start : ℕ)
    → IsCached fat
    → IsInside disk fat
    → (start < fat.total_clusters + 2) ⊎ (fat32_eoc ≤ start)
    → fat.total_clusters + 4 ≤ fuel
    → (g : Fat D) × (free_loop disk fuel fat start ≡ some (true, g)) × Freed disk fat start g
free_loop_ends disk fuel fat start v inside from enough =
    let most = tally-le (λ e. not (e == 0)) (fat.total_clusters + 2) (fat_get_entry disk fat) in
    free_loop-Freed disk fuel fat start v inside from (omega (arith, most, enough))
