-- ===== src/Vfs/Tests.antt =====
-- Paths, tables and disks on which the theorems of the virtual file system are run.
use nans_os.Base.{◌≤◌, ◌≡◌, refl, arith, some, [], ◌∷◌, length, replicate}
use nans_os.Base.Int.{pos}
use nans_os.Ramdisk.{
  RamDisk, Name, name_eq, cleared, new_file, find_file_by_name, grow, put_data, ramdisk_write,
}
use nans_os.Vfs.{
  PathName, Driver, FileDescriptor, Vfs, closed, open_entry, vfs_normalize_path, vfs_read,
  vfs_write, vfs_seek, operation, skip_slashes, ends_here, second_dot, back_up, drop_component,
  copy_component, normalize_step, normalize_loop, reversed, terminate,
}
use nans_os.Vfs.Paths.{normalize-fits}
use nans_os.Vfs.OnRamdisk.{on_ramdisk, write-seek-read}

-- "/a/../b", of which the code makes "//b": a slash is kept in front of the component that goes.
abbrev dotted : PathName
dotted = b'/' ∷ b'a' ∷ b'/' ∷ b'.' ∷ b'.' ∷ b'/' ∷ b'b' ∷ []

dotted_result : vfs_normalize_path 8 dotted ≡ some (b'/' ∷ b'/' ∷ b'b' ∷ [])
unfolding vfs_normalize_path normalize_loop normalize_step skip_slashes ends_here second_dot back_up
    drop_component copy_component reversed terminate
dotted_result = refl

normalize-fits_example :
    (res : PathName) × (vfs_normalize_path 8 dotted ≡ some res)
    × (1 ≤ length res)
    × (length res ≤ 7)
normalize-fits_example = normalize-fits 8 dotted (omega arith)

-- The file "a", of one block.
abbrev name_a : Name
name_a = b'a' ∷ []

abbrev disk : RamDisk
disk = record {
  bytes = λ _. 0;
  files =
      (record (new_file name_a 0) { size = 3; block_start = 0; block_count = 1 }) ∷ cleared ∷ [];
  free_block_start = 1;
  total_blocks = 16;
  free_blocks = 15;
}

abbrev driver : Driver RamDisk
driver = on_ramdisk (λ _. name_a) (λ _. 3) (λ _. 1)

-- Descriptor 0 is open at offset 1.
abbrev file : FileDescriptor
file = record { node = 64; offset = 1; flags = 2; refcount = 1 }

abbrev vfs : Vfs RamDisk
vfs = record {
  fd_table = file ∷ replicate 255 closed;
  mount_points = [];
  root_node = 0;
  device = disk;
}

entry_0 : open_entry (pos 0) vfs.fd_table ≡ some (0, file)
unfolding open_entry
entry_0 = refl

written : (vfs_write driver (pos 0) (7 ∷ 8 ∷ []) vfs).0 ≡ pos 2
unfolding vfs_write open_entry operation ramdisk_write find_file_by_name grow put_data name_eq
written = refl

write-seek-read_example :
    let t = (vfs_seek driver (pos 0) (pos 1) 0 (vfs_write driver (pos 0) (7 ∷ 8 ∷ []) vfs).1).1 in
    let (r, buf, _) = vfs_read driver (pos 0) 2 t in (r ≡ pos 2) × (buf ≡ 7 ∷ 8 ∷ [])
write-seek-read_example =
    write-seek-read (λ _. name_a) (λ _. 3) (λ _. 1) (pos 0) 0 file (7 ∷ 8 ∷ []) vfs entry_0
      (omega arith) (omega arith) written
