-- ===== src/Vfs/Offsets.antt =====
-- VFS.c, vfs_read and vfs_seek: the offset of a descriptor.
use fexox_os.Base.{ℕ, ◌<◌, ◌≡◌, none, some, arith, update, Option-cases, inl, inr}
use fexox_os.Base.Int.{ℤ, pos, negsuc}
use fexox_os.Vfs.{
  Fd, Files, Nodes, Answer, gives, error, fd_get, slot, new_offset, err_badf, err_inval, vfs_seek,
}

-- What vfs_seek may lead to: an offset that is not negative, in this descriptor alone, or an error.
pub data Sought {N : Type 0} (ops : Nodes N) (s : Files N) (fd offset : ℤ) (whence : ℕ)
    : Answer × Files N → Type 0 where
  sought :
      (f : Fd) (n : ℕ)
      → fd_get s.fds fd ≡ some f
      → new_offset whence f.offset (ops.size_of s.nodes f.node) offset ≡ some (pos n)
      → Sought ops s fd offset whence
          (gives (pos n), record s { fds = update s.fds (slot fd) (record f { offset = n }) })
  closed : fd_get s.fds fd ≡ none → Sought ops s fd offset whence (error err_badf, s)
  negative :
      (f : Fd) (n : ℕ)
      → new_offset whence f.offset (ops.size_of s.nodes f.node) offset ≡ some (negsuc n)
      → Sought ops s fd offset whence (error err_inval, s)
  unknown : 2 < whence → Sought ops s fd offset whence (error err_inval, s)

no_such_whence :
    (whence current size : ℕ) (offset : ℤ)
    → new_offset whence current size offset ≡ none
    → 2 < whence
no_such_whence whence current size offset e = ground (arith, e)

-- vfs_seek either sets the offset of an open descriptor to the sum that `whence` asks for, changes
-- nothing else and returns it; or it fails and changes nothing: with BADF when the descriptor is not
-- open, with INVAL when the sum is negative or `whence` is above 2.
pub vfs_seek-Sought :
    {N : Type 0} (ops : Nodes N) (s : Files N) (fd offset : ℤ) (whence : ℕ)
    → Sought ops s fd offset whence (vfs_seek ops s fd offset whence)
unfolding vfs_seek
vfs_seek-Sought ops s fd offset whence = elim (Option-cases (fd_get s.fds fd)) [
  | inl e ↦ rw (e, vfs_seek) (closed e)
  | inr (f, e) ↦
      elim (Option-cases (new_offset whence f.offset (ops.size_of s.nodes f.node) offset)) [
        | inl g ↦ rw (e, vfs_seek) (rw g (unknown (no_such_whence whence _ _ offset g)))
        | inr (pos n, g) ↦ rw (e, vfs_seek) (rw g (sought f n e g))
        | inr (negsuc n, g) ↦ rw (e, vfs_seek) (rw g (negative f n g))
      ]
]
