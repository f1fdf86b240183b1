-- ===== src/Ramdisk/Dictionary.antt =====
-- Creation and deletion of the RAM disk's files, as operations of a dictionary.
use nans_os.Base.{
  ℕ, ◌+◌, ◌%◌, ◌^◌, ◌≡◌, refl, inl, inr, Bool, true, false, not, ◌&&◌, ◌||◌, [], ◌∷◌, none, some,
  List, arith, ltb, if◌then◌else◌, Option-cases, is_some, length, get_or, set, eq_of_some,
}
use nans_os.Base.Int.{ℤ, pos, error}
use nans_os.Ramdisk.{
  Name, name_eq, RamDiskFile, RamDisk, cleared, new_file, find_free_file, find_file_by_name,
  ramdisk_create_file, ramdisk_delete_file, max_name_len,
}
use nans_os.Ramdisk.Names.{
  lookup, find-lookup, Unique, lookup-insert, Unique-insert, lookup-replace, Unique-replace,
}

-- Whether some entry of the table is not in use.
abbrev pub some_free : List RamDiskFile → Bool
some_free [] = false
some_free (f ∷ fs) = not f.in_use || some_free fs

free_found : (fs : List RamDiskFile) → is_some (find_free_file fs) ≡ some_free fs
unfolding find_free_file
free_found [] = refl
free_found (f ∷ fs) = ground (arith, free_found fs)

-- The name fits, no file has it, and an entry is free.
abbrev pub creatable : Name → RamDisk → Bool
creatable name d =
    ltb (length name) max_name_len && not (is_some (lookup name d.files)) && some_free d.files

abbrev pub created : Name → ℕ → ℕ → RamDisk → RamDisk
created name flags i d = record d { files = set d.files i (new_file name flags) }

pub record Created (name : Name) (flags : ℕ) (d : RamDisk) (out : ℤ × RamDisk) : Type 0 where
  pub result : out.0 ≡ pos 0
  pub found :
      (name' : Name)
      → lookup name' out.1.files
        ≡ (if name_eq name name' then some (new_file name flags) else lookup name' d.files)
  pub unique : Unique out.1.files
  pub space : (out.1.free_blocks ≡ d.free_blocks) × (out.1.free_block_start ≡ d.free_block_start)

not_found :
    (name : Name) (fs : List RamDiskFile) → lookup name fs ≡ none → find_file_by_name name fs ≡ none
not_found name fs h = ground (arith, find-lookup name fs)

create-created :
    (name : Name) (flags i : ℕ) (d : RamDisk)
    → creatable name d ≡ true
    → find_free_file d.files ≡ some i
    → ramdisk_create_file name flags d ≡ (pos 0, created name flags i d)
unfolding ramdisk_create_file
create-created name flags i d c e = ground (arith, not_found name d.files)

create-refused :
    (name : Name) (flags : ℕ) (d : RamDisk)
    → creatable name d ≡ false
    → ramdisk_create_file name flags d ≡ (error, d)
unfolding ramdisk_create_file
create-refused name flags d c = ground (arith, find-lookup name d.files, free_found d.files)

creatable-Created :
    (name : Name) (flags : ℕ) (d : RamDisk)
    → Unique d.files
    → creatable name d ≡ true
    → Created name flags d (ramdisk_create_file name flags d)
creatable-Created name flags d u c = elim (Option-cases (find_free_file d.files)) [
  | inl e ↦ absurd (ground (arith, free_found d.files))
  | inr (i, e) ↦
      let absent : lookup name d.files ≡ none = ground arith in
      rw (create-created name flags i d c e) (record {
        result = refl;
        found = λ name'. lookup-insert name name' flags i d.files e absent;
        unique = Unique-insert name flags i d.files e absent u;
        space = (refl, refl);
      })
]

-- With unique names, `ramdisk_create_file` succeeds exactly if the name has fewer than 32 bytes, no
-- file has it and some entry of the table is not in use. Then the name leads to an empty file with the flags, every other
-- name leads where it led, the names stay unique and no space is taken; otherwise it returns -1 and
-- changes nothing.
pub create-dictionary :
    (name : Name) (flags : ℕ) (d : RamDisk)
    → Unique d.files
    → (creatable name d ≡ true → Created name flags d (ramdisk_create_file name flags d))
      × (creatable name d ≡ false → ramdisk_create_file name flags d ≡ (error, d))
create-dictionary name flags d u = (creatable-Created name flags d u, create-refused name flags d)

pub find-some :
    (name : Name) (fs : List RamDiskFile) (f : RamDiskFile)
    → lookup name fs ≡ some f
    → (i : ℕ) × (find_file_by_name name fs ≡ some i) × (get_or fs i cleared ≡ f)
find-some name fs f h = elim (Option-cases (find_file_by_name name fs)) [
  | inl e ↦ absurd (ground (arith, find-lookup name fs))
  | inr (i, e) ↦ (i, e, eq_of_some (ground (arith, find-lookup name fs)))
]

pub record Deleted (name : Name) (f : RamDiskFile) (d : RamDisk) (out : ℤ × RamDisk) : Type 0 where
  pub result : out.0 ≡ pos 0
  pub found :
      (name' : Name)
      → lookup name' out.1.files ≡ (if name_eq name name' then none else lookup name' d.files)
  pub unique : Unique out.1.files
  pub free_blocks : out.1.free_blocks ≡ (d.free_blocks + f.block_count) % 2 ^ 32
  pub start : out.1.free_block_start ≡ d.free_block_start

abbrev pub deleted : ℕ → RamDisk → RamDisk
deleted i d = record d {
  files = set d.files i cleared;
  free_blocks = (d.free_blocks + (get_or d.files i cleared).block_count) % 2 ^ 32;
}

pub delete-deleted :
    (name : Name) (i : ℕ) (d : RamDisk)
    → find_file_by_name name d.files ≡ some i
    → ramdisk_delete_file name d ≡ (pos 0, deleted i d)
unfolding ramdisk_delete_file
delete-deleted name i d e = rw (e, ramdisk_delete_file)

found-Deleted :
    (name : Name) (f : RamDiskFile) (d : RamDisk)
    → Unique d.files
    → lookup name d.files ≡ some f
    → Deleted name f d (ramdisk_delete_file name d)
found-Deleted name f d u h =
    let (i, e, g) = find-some name d.files f h in
    rw (delete-deleted name i d e) (record {
      result = refl;
      found = λ name'. lookup-replace name name' i cleared d.files e (λ x. cc) u;
      unique = Unique-replace name i cleared d.files e (λ x. cc) u;
      free_blocks = rw g;
      start = refl;
    })

delete-missing :
    (name : Name) (d : RamDisk)
    → lookup name d.files ≡ none
    → ramdisk_delete_file name d ≡ (error, d)
unfolding ramdisk_delete_file
delete-missing name d h = rw (not_found name d.files h, ramdisk_delete_file)

-- With unique names, `ramdisk_delete_file` of a name in use returns 0; the name leads nowhere after
-- it, every other name leads where it led, the names stay unique, and the number of free blocks (but
-- not the start of the free blocks) grows by those of the file. For any other name it returns -1 and
-- changes nothing.
pub delete-dictionary :
    (name : Name) (d : RamDisk)
    → Unique d.files
    → ((f : RamDiskFile)
        → lookup name d.files ≡ some f
        → Deleted name f d (ramdisk_delete_file name d))
      × (lookup name d.files ≡ none → ramdisk_delete_file name d ≡ (error, d))
delete-dictionary name d u = (λ f h. found-Deleted name f d u h, delete-missing name d)
