-- ===== src/Syscalls/Files/Mount.antt =====
-- The adapters to the SD card and the mount of libs/filesystem.c. The card driver and the FAT library
-- are parameters, with the state `Disk`.
use demos_os.Base.{ℕ, Bool, not, ◌==◌, if◌then◌else◌, List, [], ◌∷◌}
use demos_os.Base.Int.{ℤ, pos, ◌==ℤ◌}

-- `SD_OK`
abbrev pub sd_ok : ℤ
sd_ok = pos 0

-- `SD_FILESYSTEM_INIT_OK` and `SD_FILESYSTEM_INIT_ERROR`
abbrev pub sd_filesystem_init_ok : ℤ
sd_filesystem_init_ok = pos 0

abbrev pub sd_filesystem_init_error : ℤ
sd_filesystem_init_error = pos 1

-- `DiskOps`: whether the access to the sector was done, and for a read the bytes.
pub record DiskOps (Disk : Type 0) : Type 0 where
  pub read : (sector : ℕ) → Disk → Bool × List ℕ × Disk
  pub write : List ℕ → (sector : ℕ) → Disk → Bool × Disk

-- The driver: the number of bytes that were read or written, 0 on an error.
pub record SdDriver (Disk : Type 0) : Type 0 where
  pub sd_init : Disk → ℤ × Disk
  pub sd_readblock : (lba num : ℕ) → Disk → ℕ × List ℕ × Disk
  pub sd_writeblock : List ℕ → (lba num : ℕ) → Disk → ℕ × Disk

module _ {Disk : Type 0} (driver : SdDriver Disk) where
  abbrev pub sd_read_adapter : (sector : ℕ) → Disk → Bool × List ℕ × Disk
  sd_read_adapter sector disk =
      let (res, buffer, disk') = driver.sd_readblock sector 1 disk in
      (not (res == 0), buffer, disk')

  abbrev pub sd_write_adapter : List ℕ → (sector : ℕ) → Disk → Bool × Disk
  sd_write_adapter buffer sector disk =
      let (res, disk') = driver.sd_writeblock buffer sector 1 disk in (not (res == 0), disk')

  -- The mount path is `mount_point` without its slashes.
  unfoldable pub sd_filesystem_init :
      (fat_probe : DiskOps Disk → (partition : ℕ) → Disk → ℤ × Disk)
      (fat_mount : DiskOps Disk → (partition : ℕ) (path : List ℕ) → Disk → ℤ × Disk)
      → Disk
      → ℤ × Disk
  sd_filesystem_init fat_probe fat_mount disk =
      let ops : DiskOps Disk = record { read = sd_read_adapter; write = sd_write_adapter } in
      let (sd_result, disk₁) = driver.sd_init disk in
      let (probe_error, disk₂) = fat_probe ops 0 disk₁ in
      let (mount_error, disk₃) = fat_mount ops 0 (b'm' ∷ b'n' ∷ b't' ∷ []) disk₂ in
      if not (sd_result ==ℤ sd_ok)
      then (sd_filesystem_init_error, disk₁)
      else if not (probe_error ==ℤ pos 0)
      then (sd_filesystem_init_error, disk₂)
      else if not (mount_error ==ℤ pos 0)
      then (sd_filesystem_init_error, disk₃)
      else (sd_filesystem_init_ok, disk₃)
