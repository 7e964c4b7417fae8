-- ===== src/Vfs/Tests.antt =====
-- Runs on two mounts and one open descriptor, and the theorems at concrete inputs.
use fexox_os.Base.{ℕ, ◌≡◌, refl, true, [], ◌∷◌, none, some, ◌==◌, if◌then◌else◌}
use fexox_os.Base.Int.{pos, negsuc}
use fexox_os.Vfs.{Mount, no_fd, Files, Nodes, gives, vfs_find_mount, vfs_seek}
use fexox_os.Vfs.Longest.{Nearest, vfs_find_mount-Nearest}

abbrev at_root : Mount
at_root = record { path = 47 ∷ []; root = 1; dev = 1; fs = 1; mount_flags = 0 }

-- "/d"
abbrev at_d : Mount
at_d = record { path = 47 ∷ 100 ∷ []; root = 2; dev = 2; fs = 1; mount_flags = 0 }

-- "/d/f" belongs to the second, "/df" to the first
below_d : vfs_find_mount (at_root ∷ at_d ∷ []) (47 ∷ 100 ∷ 47 ∷ 102 ∷ []) ≡ some at_d
unfolding vfs_find_mount
below_d = refl

beside_d : vfs_find_mount (at_root ∷ at_d ∷ []) (47 ∷ 100 ∷ 102 ∷ []) ≡ some at_root
unfolding vfs_find_mount
beside_d = refl

vfs_find_mount-Nearest_example :
    Nearest
      (at_root ∷ at_d ∷ [])
      (47 ∷ 100 ∷ 102 ∷ [])
      (vfs_find_mount (at_root ∷ at_d ∷ []) (47 ∷ 100 ∷ 102 ∷ []))
vfs_find_mount-Nearest_example = vfs_find_mount-Nearest (at_root ∷ at_d ∷ []) (47 ∷ 100 ∷ 102 ∷ [])

-- nodes of ten bytes that cannot be read or written
abbrev ten_bytes : Nodes ℕ
ten_bytes = record {
  size_of = λ s node. 10;
  read_node = λ s node offset size. none;
  write_node = λ s node offset bytes. none;
  release = λ s node. s;
}

abbrev one_open : Files ℕ
one_open = record {
  fds = λ i. if i == 3 then record { node = 5; offset = 4; flags = 0; used = true } else no_fd;
  nodes = 0;
}

from_end : (vfs_seek ten_bytes one_open (pos 3) (negsuc 1) 2).0 ≡ gives (pos 8)
unfolding vfs_seek
from_end = refl
