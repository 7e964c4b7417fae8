-- ===== src/Vfs/Block.antt =====
-- VFS.c: the registry of block devices and the calls on them.
use fexox_os.Base.{ℕ, Bool, Option, none, some, List, [], ◌∷◌, ◌++◌, length, leb, if◌then◌else◌}
use fexox_os.Vfs.{same_path, err_inval}

-- `blkdev_t`, with what its two operations do on the state D of the devices, none for NULL. An
-- operation returns its code, 0 for VFS_OK and n for -n.
pub record BlkDev (D : Type 0) : Type 0 where
  pub name : List ℕ
  pub readonly : Bool
  pub read_op : Option (D → (lba count : ℕ) → ℕ × (ℕ → ℕ) × D)
  pub write_op : Option (D → (lba count : ℕ) → (ℕ → ℕ) → ℕ × D)

abbrev pub max_blkdevs : ℕ
max_blkdevs = 8

abbrev pub err_rofs : ℕ
err_rofs = 11

-- The index of the new device, or none for VFS_ERR_BUSY.
unfoldable pub blkdev_register :
    {D : Type 0} → List (BlkDev D) → BlkDev D → Option ℕ × List (BlkDev D)
blkdev_register devs dev =
    if leb max_blkdevs (length devs) then (none, devs) else (some (length devs), devs ++ (dev ∷ []))

unfoldable pub blkdev_find : {D : Type 0} → List (BlkDev D) → (name : List ℕ) → Option (BlkDev D)
unfolding same_path
blkdev_find [] name = none
blkdev_find (dev ∷ devs) name =
    let rest = blkdev_find devs name in if same_path dev.name name then some dev else rest

-- The device stands for a pointer that is not NULL; without data for an error of this function.
unfoldable pub blkdev_read : {D : Type 0} → BlkDev D → D → (lba count : ℕ) → ℕ × Option (ℕ → ℕ) × D
blkdev_read dev d lba count = elim dev.read_op [
  | none ↦ (err_inval, none, d)
  | some op ↦ let (rc, bytes, next) = op d lba count in (rc, some bytes, next)
]

unfoldable pub blkdev_write : {D : Type 0} → BlkDev D → D → (lba count : ℕ) → (ℕ → ℕ) → ℕ × D
blkdev_write dev d lba count bytes = elim dev.write_op [
  | none ↦ (err_inval, d)
  | some op ↦ if dev.readonly then (err_rofs, d) else op d lba count bytes
]
