-- ===== src/Syscall/Memory/Heap.antt =====
-- Syscall.c, sc_brk: the bounds of a program's heap.
use fexox_os.Base.{
  ℕ, ◌*◌, ◌/◌, ◌≤◌, ◌<◌, ◌≡◌, refl, Bool, false, arith, ltb, ◌==◌, if◌then◌else◌, Bool-cases, inl,
  inr, sub64, page_size,
}
use fexox_os.Pmm.{Pmm, align_up, address, failed, no_fuel, pmm_alloc_frames, pmm_free_frames}
use fexox_os.Pmm.Align.{RoundsUp, IsAlignment, align_up-RoundsUp}
use fexox_os.Syscall.{Ret, returns, fails, enomem}
use fexox_os.Syscall.Memory.{Brk, map_pages, grow, sc_brk, user_heap_base, user_heap_max}

pub record IsBrk {M : Type 0} (b : Brk M) : Type 0 where
  pub from : user_heap_base ≤ b.current
  pub inside : b.current ≤ b.mapped
  pub until : b.mapped ≤ user_heap_max
  pub pages : ℕ
  pub whole : b.mapped ≡ pages * page_size

-- What sc_brk may lead to, in the answer and the state.
pub data Moved {M : Type 0} (b : Brk M) (new_brk : ℕ) : Ret × Brk M → Type 0 where
  moved :
      (n : ℕ) (c : Brk M)
      → IsBrk c
      → c.current ≡ n
      → (user_heap_base ≤ new_brk → n ≡ new_brk)
      → Moved b new_brk (returns n, c)
  kept :
      (errno : ℕ) (c : Brk M)
      → IsBrk c
      → c.current ≡ b.current
      → c.mapped ≡ b.mapped
      → Moved b new_brk (fails errno, c)

page-IsAlignment : IsAlignment page_size
page-IsAlignment = record { log = 12; power = refl }

rounded : (x : ℕ) → x ≤ user_heap_max → RoundsUp x page_size (align_up x page_size)
rounded x h = align_up-RoundsUp x page_size page-IsAlignment (omega arith) (omega arith)

module _ {M : Type 0} (map_user : M → (va pa : ℕ) → Bool × M) where
  kept_as :
      (b : Brk M) (new_brk : ℕ) (pmm : Pmm) (m : M)
      → IsBrk b
      → Moved b new_brk (fails enomem, record b { pmm = pmm; tables = m })
  kept_as b new_brk pmm m v =
      kept _ _
        (record {
          from = v.from;
          inside = v.inside;
          until = v.until;
          pages = v.pages;
          whole = v.whole;
        })
        refl refl

  grow-Moved :
      (b : Brk M) (new_brk : ℕ)
      → IsBrk b
      → b.mapped < new_brk
      → new_brk ≤ user_heap_max
      → Moved b new_brk (grow map_user b new_brk)
  unfolding grow
  grow-Moved b new_brk v more top =
      let r = rounded new_brk top in
      let o = rounded b.mapped v.until in
      let npages = sub64 (align_up new_brk page_size) (align_up b.mapped page_size) / page_size in
      let some_pages : (npages == 0) ≡ false =
        ground (arith, v.whole, r.multiple, o.multiple, r.above, o.near, r.near) in
      rw (some_pages, grow)
        (elim (pmm_alloc_frames b.pmm npages 1)
          as (λ a. Moved b new_brk (elim a [
            | failed ↦ (fails enomem, b)
            | no_fuel ↦ (fails enomem, b)
            | address pa pmm ↦
                let (ok, m) =
                  map_pages map_user npages b.tables (align_up b.mapped page_size) pa 0 in
                if ok
                then (
                  returns new_brk,
                  record {
                    current = new_brk;
                    mapped = align_up new_brk page_size;
                    pmm = pmm;
                    tables = m;
                  },
                )
                else (fails enomem, record b { pmm = pmm_free_frames pmm pa npages; tables = m })
          ])) [
            | failed ↦ kept_as b new_brk b.pmm b.tables v
            | no_fuel ↦ kept_as b new_brk b.pmm b.tables v
            | address pa pmm ↦
                elim (Bool-cases
                  (map_pages map_user npages b.tables (align_up b.mapped page_size) pa 0).0) [
                    | inl ok ↦ rw ok (
                        moved new_brk _
                          (record {
                            from = omega (arith, v.from, v.inside);
                            inside = r.above;
                            until = omega (arith, r.multiple, r.near);
                            pages = r.quotient;
                            whole = r.multiple;
                          })
                          refl (λ h. refl))
                    | inr bad ↦ rw bad (kept_as b new_brk _ _ v)
                  ]
          ])

  -- From bounds that fit together (a break in the heap's range, not above the mapped part, which
  -- ends at a page inside the range), sc_brk leaves bounds that fit together. It either returns the
  -- break that is then in force, which is the one asked for if that is not below the heap's base, or
  -- it fails and leaves both bounds as they were. This holds whatever the page tables answer.
  pub sc_brk-Moved :
      (b : Brk M) (new_brk : ℕ) → IsBrk b → Moved b new_brk (sc_brk map_user b new_brk)
  unfolding sc_brk
  sc_brk-Moved b new_brk v = elim (Bool-cases (new_brk == 0)) [
    | inl e ↦ rw e (moved _ b v refl (λ h. absurd (ground arith)))
    | inr e ↦ elim (Bool-cases (ltb new_brk user_heap_base)) [
      | inl low ↦ rw (e, low) (moved _ b v refl (λ h. absurd (ground arith)))
      | inr low ↦ elim (Bool-cases (ltb user_heap_max new_brk)) [
        | inl high ↦ rw (e, low, high) (kept _ b v refl refl)
        | inr high ↦ elim (Bool-cases (ltb b.mapped new_brk)) [
          | inl more ↦
              rw (e, low, high, more) (grow-Moved b new_brk v (ground arith) (ground arith))
          | inr less ↦
              rw (e, low, high, less)
                (moved new_brk _
                  (record {
                    from = ground arith;
                    inside = ground arith;
                    until = v.until;
                    pages = v.pages;
                    whole = v.whole;
                  })
                  refl (λ h. refl))
        ]
      ]
    ]
  ]
