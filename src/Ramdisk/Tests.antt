-- ===== src/Ramdisk/Tests.antt =====
-- Disks on which the theorems of the RAM disk are run.
use nans_os.Base.{◌≡◌, inr, refl, arith, true, false, none, some, [], ◌∷◌}
use nans_os.Base.Int.{pos, error}
use nans_os.Cstring.{copy_up}
use nans_os.Ramdisk.{
  RamDiskFile, RamDisk, Name, name_eq, cleared, new_file, find_file_by_name, allocate_blocks, grow,
  ramdisk_create_file, ramdisk_delete_file, ramdisk_read, ramdisk_write, put_data,
}
use nans_os.Ramdisk.Names.{lookup, Unique}
use nans_os.Ramdisk.Dictionary.{creatable, Created, create-dictionary, Deleted, delete-dictionary}
use nans_os.Ramdisk.Space.{write-in-disk}
use nans_os.Ramdisk.Contents.{read-write}

-- "a" and "b".
abbrev name_a : Name
name_a = b'a' ∷ []

abbrev name_b : Name
name_b = b'b' ∷ []

-- A file of one block, 3 bytes long.
abbrev file_a : RamDiskFile
file_a = record (new_file name_a 0) { size = 3; block_start = 0; block_count = 1 }

-- The file, a free entry, and 15 of 16 blocks free.
abbrev disk : RamDisk
disk = record {
  bytes = λ _. 0;
  files = file_a ∷ cleared ∷ [];
  free_block_start = 1;
  total_blocks = 16;
  free_blocks = 15;
}

a_found : lookup name_a (disk.files) ≡ some file_a
unfolding lookup name_eq
a_found = refl

disk_files-Unique : Unique disk.files
unfolding lookup
disk_files-Unique = (λ e. refl, (λ e. refl, tt))

write_succeeds : (ramdisk_write name_a 1 (7 ∷ 8 ∷ []) disk).0 ≡ pos 2
unfolding ramdisk_write find_file_by_name grow put_data name_eq
write_succeeds = refl

read-write_example :
    ((ramdisk_read name_a 1 2 (ramdisk_write name_a 1 (7 ∷ 8 ∷ []) disk).1).0 ≡ pos 2)
    × ((ramdisk_read name_a 1 2 (ramdisk_write name_a 1 (7 ∷ 8 ∷ []) disk).1).1 ≡ 7 ∷ 8 ∷ [])
read-write_example = read-write name_a 1 (7 ∷ 8 ∷ []) disk (omega arith) write_succeeds

write-in-disk_example : (ramdisk_write name_a 1 (7 ∷ 8 ∷ []) disk).1.bytes 9000 ≡ 0
write-in-disk_example =
    write-in-disk name_a 1 (7 ∷ 8 ∷ []) disk file_a 9000 refl (omega arith) (omega arith) a_found
      (inr (omega arith), omega arith) (omega arith)

-- The file grown to three blocks.
abbrev file_grown : RamDiskFile
file_grown = record file_a { block_start = 1; block_count = 3 }

abbrev disk_grown : RamDisk
disk_grown = record disk {
  bytes = copy_up 3 0 512 0 (disk.bytes);
  free_block_start = 3;
  free_blocks = 13;
}

a_grows : grow file_a 3 disk ≡ some (file_grown, disk_grown)
unfolding grow allocate_blocks
a_grows = refl

create-dictionary_example :
    (creatable name_b disk ≡ true → Created name_b 5 disk (ramdisk_create_file name_b 5 disk))
    × (creatable name_b disk ≡ false → ramdisk_create_file name_b 5 disk ≡ (error, disk))
create-dictionary_example = create-dictionary name_b 5 disk disk_files-Unique

delete-dictionary_example :
    ((f : RamDiskFile)
      → lookup name_a disk.files ≡ some f
      → Deleted name_a f disk (ramdisk_delete_file name_a disk))
    × (lookup name_a disk.files ≡ none → ramdisk_delete_file name_a disk ≡ (error, disk))
delete-dictionary_example = delete-dictionary name_a disk disk_files-Unique
