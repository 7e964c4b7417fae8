-- ===== src/Syscall/Table.antt =====
-- Syscall.c: the descriptor that sc_alloc_fd gives, and sc_open and sc_close on the table.
use fexox_os.Base.{
  ℕ, zero, suc, ◌+◌, ◌%◌, ◌≤◌, ◌<◌, ◌≡◌, ◌≢◌, refl, true, false, Option, none, some, arith, update,
  Bool-cases, Option-cases, inl, inr, u32_mod, List,
}
use fexox_os.Base.Int.{pos, negsuc}
use fexox_os.Syscall.{
  Ret, returns, fails, File, no_file, Vfs, System, fd_max, ebadf, efault, emfile, max_path,
  free_from, fd_of, sc_get_file, sc_copy_string,
}
use fexox_os.Syscall.Calls.{opened, open_error, sc_close}

-- Descriptor `fd` is the first one from i to i + k - 1 whose entry is not open.
pub record IsFirst (files : ℕ → File) (k i fd : ℕ) : Type 0 where
  pub from : i ≤ fd
  pub below : fd < i + k
  pub free : (files fd).is_open ≡ false
  pub first : (j : ℕ) → i ≤ j → j < fd → (files j).is_open ≡ true

pub data Scan (files : ℕ → File) (k i : ℕ) : Option ℕ → Type 0 where
  hit : (fd : ℕ) → IsFirst files k i fd → Scan files k i (some fd)
  miss : ((j : ℕ) → i ≤ j → j < i + k → (files j).is_open ≡ true) → Scan files k i none

pub free_from-Scan : (k : ℕ) (files : ℕ → File) (i : ℕ) → Scan files k i (free_from k files i)
unfolding free_from
free_from-Scan zero files i = miss (λ j p q. absurd (omega arith))
free_from-Scan (suc k) files i = elim (Bool-cases (files i).is_open) [
  | inr e ↦ rw e (
      hit i (record {
        from = omega arith;
        below = omega arith;
        free = e;
        first = λ j p q. absurd (omega arith);
      }))
  | inl e ↦ rw e (elim (free_from-Scan k files (i + 1)) as (λ o s. Scan files (suc k) i o) [
    | hit fd v ↦ hit fd (record {
      from = omega (arith, v.from);
      below = omega (arith, v.below);
      free = v.free;
      first = λ j p q. ground (arith, v.first j);
    })
    | miss all ↦ miss (λ j p q. ground (arith, all j))
  ])
]

-- What sc_open may lead to, in the answer and the state: the copy of the path, the answer of the
-- file system's open and the table before the call decide.
pub data Opening {V : Type 0} (ops : Vfs V) (s : System V) (memory : ℕ → ℕ) (path_ptr flags : ℕ)
    : Ret × System V → Type 0 where
  gives :
      (path : List ℕ) (fd vfd : ℕ) (vfs : V)
      → sc_copy_string memory path_ptr max_path ≡ some path
      → ops.open_ s.vfs path (flags % u32_mod) ≡ (pos vfd, vfs)
      → IsFirst s.files 253 3 fd
      → Opening ops s memory path_ptr flags
          (returns fd, record s { vfs = vfs; files = update s.files fd (opened (pos vfd) flags) })
  bad_path :
      sc_copy_string memory path_ptr max_path ≡ none
      → Opening ops s memory path_ptr flags (fails efault, s)
  refused :
      (path : List ℕ) (n : ℕ) (vfs : V)
      → sc_copy_string memory path_ptr max_path ≡ some path
      → ops.open_ s.vfs path (flags % u32_mod) ≡ (negsuc n, vfs)
      → Opening ops s memory path_ptr flags (fails (open_error (negsuc n)), record s { vfs = vfs })
  full :
      (path : List ℕ) (vfd : ℕ) (vfs : V)
      → sc_copy_string memory path_ptr max_path ≡ some path
      → ops.open_ s.vfs path (flags % u32_mod) ≡ (pos vfd, vfs)
      → ((j : ℕ) → 3 ≤ j → j < fd_max → (s.files j).is_open ≡ true)
      → Opening ops s memory path_ptr flags
          (fails emfile, record s { vfs = ops.close_ vfs (pos vfd) })

module _ {V : Type 0} (ops : Vfs V) where
  close_absent :
      (s : System V) (fd_arg : ℕ)
      → sc_get_file s.files (fd_of fd_arg) ≡ none
      → sc_close ops s fd_arg ≡ (fails ebadf, s)
  unfolding sc_close
  close_absent s fd_arg e = rw (e, sc_close) refl

  files-sc_close :
      (s : System V) (fd_arg : ℕ) (f : File)
      → sc_get_file s.files (fd_of fd_arg) ≡ some f
      → (sc_close ops s fd_arg).1.files ≡ update s.files (fd_of fd_arg) no_file
  unfolding sc_close
  files-sc_close s fd_arg f e = rw (e, sc_close) refl

  closed_entry : (files : ℕ → File) (fd : ℕ) → sc_get_file (update files fd no_file) fd ≡ none
  unfolding sc_get_file
  closed_entry files fd = ground arith

  -- After a call of sc_close, whether it succeeds or not, the descriptor is closed: a second call
  -- fails with EBADF and changes nothing; every other entry is as it was before the first.
  pub sc_close-sc_close :
      (s : System V) (fd_arg : ℕ)
      → (sc_close ops (sc_close ops s fd_arg).1 fd_arg ≡ (fails ebadf, (sc_close ops s fd_arg).1))
        × ((j : ℕ) → j ≢ fd_of fd_arg → (sc_close ops s fd_arg).1.files j ≡ s.files j)
  sc_close-sc_close s fd_arg = elim (Option-cases (sc_get_file s.files (fd_of fd_arg))) [
    | inl e ↦ let same = close_absent s fd_arg e in rw same (same, λ j ne. refl)
    | inr (f, e) ↦
        let files = files-sc_close s fd_arg f e in
        let gone : sc_get_file (sc_close ops s fd_arg).1.files (fd_of fd_arg) ≡ none =
          rw files (closed_entry s.files (fd_of fd_arg)) in
        (close_absent (sc_close ops s fd_arg).1 fd_arg gone, λ j ne. rw files (ground arith))
  ]
