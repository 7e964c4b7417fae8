-- ===== src/Vfs.antt =====
-- VFS.c: the table of mounts and the table of descriptors.
-- A string is the list of its bytes, without the zero byte. Objects behind pointers are numbers, 0 for
-- NULL. What the file systems and their nodes do is a parameter. The locks have no counterpart.
pub mod Prefix
pub mod Longest
pub mod Offsets
pub mod Block
mod Tests
use fexox_os.Base.{
  ℕ, zero, suc, ◌+◌, ◌-◌, ◌%◌, Bool, true, false, ◌&&◌, ◌||◌, not, Option, none, some, List, [],
  ◌∷◌, ◌++◌, length, ltb, leb, ◌==◌, if◌then◌else◌, update, bit_and, add64,
}
use fexox_os.Base.Int.{ℤ, pos, negsuc, ◌+ℤ◌, ltb_ℤ}

-- `vfs_mount_t`
pub record Mount : Type 0 where
  pub path : List ℕ
  pub root : ℕ
  pub dev : ℕ
  pub fs : ℕ
  pub mount_flags : ℕ

abbrev pub slash : ℕ
slash = 47

abbrev pub max_mounts : ℕ
max_mounts = 16

-- What is left of the path after the prefix, none if it does not start with it: kstr_ncmp with the
-- length of the prefix.
unfoldable pub after_prefix : (prefix path : List ℕ) → Option (List ℕ)
after_prefix [] path = some path
after_prefix (x ∷ xs) [] = none
after_prefix (x ∷ xs) (y ∷ path) = let rest = after_prefix xs path in if x == y then rest else none

-- `path[mlen - 1] == '/'`; a mount has a path that is not empty.
unfoldable pub ends_with_slash : List ℕ → Bool
ends_with_slash [] = false
ends_with_slash (x ∷ []) = x == slash
ends_with_slash (x ∷ y ∷ xs) = ends_with_slash (y ∷ xs)

-- The prefix ends where a component of the path ends.
abbrev pub at_boundary : (prefix rest : List ℕ) → Bool
at_boundary prefix [] = true
at_boundary prefix (c ∷ rest) = c == slash || ends_with_slash prefix

unfoldable pub is_above : Mount → (path : List ℕ) → Bool
unfolding after_prefix ends_with_slash
is_above m path = elim (after_prefix m.path path) [
  | none ↦ false
  | some rest ↦ not (m.root == 0) && at_boundary m.path rest
]

-- `mlen > best_len`
abbrev pub is_longer : Mount → (best : Option Mount) → Bool
is_longer m none = true
is_longer m (some b) = ltb (length b.path) (length m.path)

-- The loop of vfs_find_mount over the mounts that are left; the best so far comes with best_len, and
-- best_len is -1 for none.
unfoldable pub find_loop : List Mount → (path : List ℕ) → (best : Option Mount) → Option Mount
unfolding is_above
find_loop [] path best = best
find_loop (m ∷ mounts) path best =
    find_loop mounts path (if is_above m path && is_longer m best then some m else best)

unfoldable pub vfs_find_mount : List Mount → (path : List ℕ) → Option Mount
unfolding find_loop
vfs_find_mount mounts path = find_loop mounts path none

-- The errors of VFS.h, n for -n.
abbrev pub err_noent : ℕ
err_noent = 2

abbrev pub err_io : ℕ
err_io = 5

abbrev pub err_inval : ℕ
err_inval = 6

abbrev pub err_nxdev : ℕ
err_nxdev = 9

abbrev pub err_busy : ℕ
err_busy = 10

abbrev pub err_nfile : ℕ
err_nfile = 12

abbrev pub err_badf : ℕ
err_badf = 13

abbrev pub err_unsup : ℕ
err_unsup = 16

-- vfs_mount behind the two searches: `dev` and `fs` are what they found, and `root` is what the
-- file system's mount returned. none stands for VFS_OK.
unfoldable pub vfs_mount :
    List Mount → (dev fs root : ℕ) → (path : List ℕ) → (flags : ℕ) → Option ℕ × List Mount
vfs_mount mounts dev fs root path flags =
    if dev == 0
    then (some err_nxdev, mounts)
    else if fs == 0
    then (some err_unsup, mounts)
    else if leb max_mounts (length mounts)
    then (some err_busy, mounts)
    else if root == 0
    then (some err_io, mounts)
    else (
      none,
      mounts ++ (record { path = path; root = root; dev = dev; fs = fs; mount_flags = flags } ∷ []),
    )

unfoldable pub same_path : (a b : List ℕ) → Bool
same_path [] [] = true
same_path (x ∷ xs) (y ∷ ys) = let rest = same_path xs ys in if x == y then rest else false
same_path _ _ = false

-- The table without its first mount at the path, none if there is none.
unfoldable pub vfs_umount : List Mount → (path : List ℕ) → Option (List Mount)
unfolding same_path
vfs_umount [] path = none
vfs_umount (m ∷ mounts) path =
    let rest = vfs_umount mounts path in
    if same_path m.path path
    then some mounts
    else elim rest [ none ↦ none | some left ↦ some (m ∷ left) ]

-- `vfs_fd_t`
pub record Fd : Type 0 where
  pub node : ℕ
  pub offset : ℕ
  pub flags : ℕ
  pub used : Bool

abbrev pub no_fd : Fd
no_fd = record { node = 0; offset = 0; flags = 0; used = false }

-- the operations of nodes on a state N; a read or write that is none is a NULL operation
pub record Nodes (N : Type 0) : Type 0 where
  pub size_of : N → (node : ℕ) → ℕ
  pub read_node : N → (node offset size : ℕ) → Option (ℤ × List ℕ × N)
  pub write_node : N → (node offset : ℕ) → (bytes : List ℕ) → Option (ℤ × N)
  pub release : N → (node : ℕ) → N

pub record Files (N : Type 0) : Type 0 where
  pub fds : ℕ → Fd
  pub nodes : N

abbrev pub max_fd : ℕ
max_fd = 256

unfoldable pub unused_from : (k : ℕ) → (ℕ → Fd) → (i : ℕ) → Option ℕ
unused_from zero fds i = none
unused_from (suc k) fds i =
    let rest = unused_from k fds (i + 1) in if (fds i).used then rest else some i

-- none for VFS_ERR_NFILE
unfoldable pub fd_alloc : (ℕ → Fd) → (node flags : ℕ) → Option (ℕ × (ℕ → Fd))
unfolding unused_from
fd_alloc fds node flags = elim (unused_from 253 fds 3) [
  | none ↦ none
  | some i ↦ some (i, update fds i (record { node = node; offset = 0; flags = flags; used = true }))
]

unfoldable pub fd_get : (ℕ → Fd) → (fd : ℤ) → Option Fd
fd_get fds (negsuc n) = none
fd_get fds (pos fd) = if leb max_fd fd then none else if (fds fd).used then some (fds fd) else none

abbrev pub slot : ℤ → ℕ
slot (pos n) = n
slot (negsuc n) = 0

-- an answer of a call, a number or minus an error
pub data Answer : Type 0 where
  gives : ℤ → Answer
  error : ℕ → Answer

abbrev pub advance : Fd → ℤ → Fd
advance f (pos n) = record f { offset = add64 f.offset n }
advance f (negsuc n) = f

-- `f->offset` for 64-bit offsets read as int64_t, which they fit
abbrev pub new_offset : (whence : ℕ) → (current size : ℕ) → (offset : ℤ) → Option ℤ
new_offset whence current size offset =
    if whence == 0
    then some offset
    else if whence == 1
    then some (pos current +ℤ offset)
    else if whence == 2
    then some (pos size +ℤ offset)
    else none

abbrev pub o_append : ℕ
o_append = 1024

module _ {N : Type 0} (ops : Nodes N) where
  unfoldable pub vfs_close : Files N → (fd : ℤ) → Answer × Files N
  unfolding fd_get
  vfs_close s fd = elim (fd_get s.fds fd) [
    | none ↦ (error err_badf, s)
    | some f ↦ (
      gives (pos 0),
      record {
        fds = update s.fds (slot fd) no_fd;
        nodes = if f.node == 0 then s.nodes else ops.release s.nodes f.node;
      },
    )
  ]

  unfoldable pub vfs_read : Files N → (fd : ℤ) → (size : ℕ) → Answer × List ℕ × Files N
  unfolding fd_get
  vfs_read s fd size = elim (fd_get s.fds fd) [
    | none ↦ (error err_badf, [], s)
    | some f ↦ elim (ops.read_node s.nodes f.node f.offset size) [
      | none ↦ (error err_unsup, [], s)
      | some (r, bytes, nodes) ↦
          (gives r, bytes, record { fds = update s.fds (slot fd) (advance f r); nodes = nodes })
    ]
  ]

  -- the descriptor of a write, after O_APPEND has moved it to the end
  abbrev pub at_end : N → Fd → Fd
  at_end nodes f =
      if bit_and f.flags o_append == 0 then f else record f { offset = ops.size_of nodes f.node }

  unfoldable pub vfs_write : Files N → (fd : ℤ) → (bytes : List ℕ) → Answer × Files N
  unfolding fd_get
  vfs_write s fd bytes = elim (fd_get s.fds fd) [
    | none ↦ (error err_badf, s)
    | some g ↦
        let f = at_end s.nodes g in
        elim (ops.write_node s.nodes f.node f.offset bytes) [
          | none ↦ (error err_unsup, record s { fds = update s.fds (slot fd) f })
          | some (r, nodes) ↦
              (gives r, record { fds = update s.fds (slot fd) (advance f r); nodes = nodes })
        ]
  ]

  unfoldable pub vfs_seek : Files N → (fd offset : ℤ) → (whence : ℕ) → Answer × Files N
  unfolding fd_get
  vfs_seek s fd offset whence = elim (fd_get s.fds fd) [
    | none ↦ (error err_badf, s)
    | some f ↦ elim (new_offset whence f.offset (ops.size_of s.nodes f.node) offset) [
      | none ↦ (error err_inval, s)
      | some (negsuc n) ↦ (error err_inval, s)
      | some (pos n) ↦
          (gives (pos n), record s { fds = update s.fds (slot fd) (record f { offset = n }) })
    ]
  ]
