-- ===== src/Syscall/Ends.antt =====
-- Syscall.c, sc_pipe: which descriptors it gives.
use fexox_os.Base.{
  ℕ, ◌<◌, ◌≡◌, refl, true, false, Option, none, some, arith, leb, ◌==◌, Bool-cases, Option-cases,
  inl, inr, subst,
}
use mathlib.Core.Option.{some-injective, none-ne-some}
use fexox_os.Syscall.{
  Ret, returns, fails, File, Vfs, System, fd_max, ebadf, sc_alloc_fd, fd_of, sc_get_file,
  pipe_alloc, syscall_validate_ptr,
}
use fexox_os.Syscall.Calls.{answers, sc_read}
use fexox_os.Syscall.Descriptors.{sc_pipe}
use fexox_os.Syscall.Table.{hit, miss, free_from-Scan, IsFirst}

-- What a call of sc_pipe that succeeds with twice the number `fd` leaves; `files` is the table
-- before it.
pub record IsWriteEnd {V : Type 0} (files : ℕ → File) (fd : ℕ) (t : System V) : Type 0 where
  pub first : IsFirst files 253 3 fd
  pub is_open : (t.files fd).is_open ≡ true
  pub writes : (t.files fd).is_pipe_write ≡ true
  pub unreadable :
      (ops : Vfs V) (buf_ptr count waited : ℕ)
      → 0 < count
      → syscall_validate_ptr buf_ptr count ≡ true
      → sc_read ops t fd buf_ptr count waited ≡ answers (fails ebadf) t

pub data PipeEnds {V : Type 0} (s : System V) : Ret × Option (ℕ × ℕ) × System V → Type 0 where
  made :
      (fd : ℕ) (t : System V) → IsWriteEnd s.files fd t → PipeEnds s (returns 0, some (fd, fd), t)
  not_made : (errno : ℕ) (t : System V) → PipeEnds s (fails errno, none, t)

alloc-IsFirst : (files : ℕ → File) (fd : ℕ) → sc_alloc_fd files ≡ some fd → IsFirst files 253 3 fd
unfolding sc_alloc_fd
alloc-IsFirst files fd =
    elim (free_from-Scan 253 files 3) as (λ o c. o ≡ some fd → IsFirst files 253 3 fd) [
      | hit g v ↦ λ e. subst (IsFirst files 253 3) (some-injective g fd e) v
      | miss all ↦ λ e. absurd (none-ne-some _ e)
    ]

write_only :
    {V : Type 0} (t : System V) (fd : ℕ)
    → fd < fd_max
    → (t.files fd).is_open ≡ true
    → (t.files fd).is_pipe_read ≡ false
    → (t.files fd).flags ≡ 1
    → (ops : Vfs V) (buf_ptr count waited : ℕ) → 0 < count
    → syscall_validate_ptr buf_ptr count ≡ true
    → sc_read ops t fd buf_ptr count waited ≡ answers (fails ebadf) t
unfolding sc_read sc_get_file
write_only t fd small opened no_pipe flags ops buf_ptr count waited some_bytes good =
    let here : fd_of fd ≡ fd = omega arith in
    let asked : (count == 0) ≡ false = ground arith in
    let inside : leb fd_max fd ≡ false = ground arith in
    rw (asked, good, sc_read) (rw here (rw (inside, opened, no_pipe) (rw (flags, sc_read) refl)))

-- sc_pipe either fails and stores no numbers, or it succeeds and stores the same number twice, for
-- both ends got the least descriptor from 3 to 255 whose entry was not open: it is the writing end, and every
-- read of at least one byte from it into a valid buffer fails with EBADF.
pub sc_pipe-PipeEnds :
    {V : Type 0} (s : System V) (pipefd_ptr : ℕ) → PipeEnds s (sc_pipe s pipefd_ptr)
unfolding sc_pipe
sc_pipe-PipeEnds s p = elim (Bool-cases (syscall_validate_ptr p 8)) [
  | inr bad ↦ rw (bad, sc_pipe) (not_made _ s)
  | inl good ↦ elim (Option-cases (pipe_alloc s.pipes)) [
    | inl e ↦ rw (good, e, sc_pipe) (not_made _ s)
    | inr ((i, pipes), e) ↦ elim (Option-cases (sc_alloc_fd s.files)) [
      | inl f ↦ rw (good, sc_pipe) (rw e (rw f (not_made _ _)))
      | inr (fd, f) ↦
          let first = alloc-IsFirst s.files fd f in
          let below : fd < fd_max = omega (arith, first.below) in
          rw (good, sc_pipe)
            (rw e (
              rw f (
                rw f (
                  made fd _ (record {
                    first = first;
                    is_open = ground arith;
                    writes = ground arith;
                    unreadable = write_only _ fd below (ground arith) (ground arith) (ground arith);
                  })))))
    ]
  ]
]
