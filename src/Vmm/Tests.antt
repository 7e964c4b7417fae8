-- ===== src/Vmm/Tests.antt =====
-- Runs of the page-table code on an empty root table, and the theorems at concrete inputs.
use fexox_os.Base.{
  not, ◌≤◌, ℕ, ◌<◌, ◌≡◌, refl, true, false, ◌&&◌, ◌||◌, none, some, arith, ◌==◌, if◌then◌else◌,
}
use fexox_os.Base.Int.{ℤ, pos, negsuc}
use fexox_os.Pmm.{
  Pmm, pmm_alloc_frame, pmm_find_next_zero, align_up, run_is_free, pmm_test, take_run,
}
use fexox_os.Vmm.{
  vmm_map_user, user_virt_limit, Vmm, Outcome, pte_make, vmm_map, vmm_unmap, frame_of, in_bitmap,
  put_entry, clear_words, with_words,
}
use fexox_os.Vmm.Mmu.{page, lookup, translate}
use fexox_os.Vmm.Tree.{Owner}
use fexox_os.Vmm.Down.{IsPaging}
use fexox_os.Vmm.User.{user_flags, vmm_map_user-Mapped}
use fexox_os.Vmm.Map.{Mapped, vmm_map-Mapped, vmm_unmap-vmm_map, map_ok}

abbrev frames : Pmm
frames = record {
  words = λ w b. w == 0 && (b == 0 || b == 1);
  total_frames = 64;
  free_frames = 62;
  num_words = 1;
  bitmap_phys = 4096;
  bitmap_pages = 1;
}

-- frame 0 holds an empty root table, and frame 1 the bitmap
abbrev root_only : Vmm
root_only = record { pmm = frames; tables = λ f i b. false; pml4 = 0; active = false }

abbrev code : Outcome → ℤ
code none = negsuc 99
code (some (r, v)) = r

abbrev state : Outcome → Vmm
state none = root_only
state (some (r, v)) = v

abbrev mapped : Outcome
mapped = vmm_map root_only 4194304 20480 3

mapped_ok : code mapped ≡ pos 0
unfolding vmm_map pmm_alloc_frame frame_of pmm_find_next_zero align_up run_is_free pmm_test take_run
    put_entry clear_words with_words
mapped_ok = refl

unaligned : code (vmm_map root_only 4194305 20480 3) ≡ negsuc 0
unfolding vmm_map
unaligned = refl

mapped_state : mapped ≡ some (pos 0, state mapped)
unfolding vmm_map pmm_alloc_frame frame_of pmm_find_next_zero align_up run_is_free pmm_test take_run
    put_entry clear_words with_words
mapped_state = refl

abbrev root_owner : Owner
root_owner f = if f == 0 then some (3, 0) else none

root_used : (f m p : ℕ) → root_owner f ≡ some (m, p) → (f < 64) × (pmm_test frames f ≡ true)
unfolding pmm_test
root_used f m p o = let z : f ≡ 0 = ground (arith, o) in rw z (omega arith, refl)

bitmap_at : (f : ℕ) → in_bitmap frames f ≡ true → f ≡ 1
bitmap_at f e = ground (arith, e)

bitmap_used : (f : ℕ) → in_bitmap frames f ≡ true → pmm_test frames f ≡ true
unfolding pmm_test
bitmap_used f e = rw (bitmap_at f e) refl

root_beside : (f m p : ℕ) → root_owner f ≡ some (m, p) → in_bitmap frames f ≡ false
root_beside f m p o = let z : f ≡ 0 = ground (arith, o) in rw z refl

root_only-IsPaging : IsPaging root_only
root_only-IsPaging = record {
  own = root_owner;
  tree = record {
    root = refl;
    small = omega arith;
    used = root_used;
    reserved = bitmap_used;
    apart = root_beside;
    single = λ f g m p o o'. ground (arith, o, o');
    down = λ f m p i o hi here plain. absurd (ground (arith, here));
    up = λ f m p o h. absurd (ground (arith, o, h));
  };
}

root_only_faults : (n : ℕ) → lookup root_only n ≡ none
unfolding translate
root_only_faults n = refl

mapped_how : Mapped root_only 4194304 20480 3 mapped
mapped_how =
    vmm_map-Mapped root_only 4194304 20480 3 root_only-IsPaging
      (λ m e q. ground (arith, q, root_only_faults 1024))

vmm_map-Mapped_example : Mapped root_only 4194304 20480 3 mapped
vmm_map-Mapped_example =
    vmm_map-Mapped root_only 4194304 20480 3 root_only-IsPaging
      (λ m e q. ground (arith, q, root_only_faults 1024))

mapped_tables : IsPaging (state mapped)
mapped_tables = (map_ok root_only (state mapped) 4194304 20480 3 mapped mapped_state mapped_how).1

mapped_here : lookup (state mapped) 1024 ≡ some (0, pte_make 20480 3)
mapped_here = (map_ok root_only (state mapped) 4194304 20480 3 mapped mapped_state mapped_how).2

vmm_unmap-vmm_map_example :
    (u : Vmm) × (vmm_unmap (state mapped) 4194304 ≡ some (pos 0, u))
    × ((b : ℕ) → lookup u (page b) ≡ lookup root_only (page b))
vmm_unmap-vmm_map_example =
    vmm_unmap-vmm_map root_only (state mapped) 4194304 20480 3 root_only-IsPaging
      (root_only_faults 1024) mapped_state

vmm_map_user-Mapped_example :
    (user_virt_limit < 4194304
      → vmm_map_user root_only 4194304 20480 true false ≡ some (negsuc 0, root_only))
    × (4194304 ≤ user_virt_limit
        → Mapped root_only 4194304 20480
            (user_flags true false)
            (vmm_map_user root_only 4194304 20480 true false))
    × (pte_make 20480 (user_flags true false) 0 ≡ true)
    × (pte_make 20480 (user_flags true false) 2 ≡ true)
    × (pte_make 20480 (user_flags true false) 1 ≡ true)
    × (pte_make 20480 (user_flags true false) 63 ≡ not false)
vmm_map_user-Mapped_example =
    vmm_map_user-Mapped root_only 4194304 20480 true false root_only-IsPaging
      (λ m e q. ground (arith, q, root_only_faults 1024))
