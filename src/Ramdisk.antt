-- ===== src/Ramdisk.antt =====
-- The RAM disk of src/impl/kernel/ramdisk.c and ramdisk.h.
pub mod Names
pub mod Dictionary
pub mod Space
pub mod Contents
mod Tests
use nans_os.Base.{
  ℕ, zero, suc, ◌+◌, ◌-◌, ◌*◌, ◌/◌, ◌%◌, ◌^◌, ◌≤◌, ◌<◌, min, ◌≡◌, refl, sym, ap, ◌∙◌, ◌≢◌, ◌↔◌, ◌⊎◌,
  inl, inr, Bool, true, false, not, ◌&&◌, ◌||◌, Option, none, some, List, [], ◌∷◌, ◌++◌, map,
  append_assoc, append-nil, arith, ltb, leb, ◌==◌, if◌then◌else◌, ==_iff, Bool-cases, Option-cases,
  is_some, length, get_elem?, get_or, set, replicate, length-append, length-set, length-replicate,
  get_or-set_self, get_or-set_ne, passes, passes-at, bit_and, bit_or,
}
use nans_os.Base.Int.{ℤ, pos, to_int, error}
use nans_os.Cstring.{Mem, copy_up}

abbrev pub ramdisk_size : ℕ
ramdisk_size = 1024 * 1024

abbrev pub block_size : ℕ
block_size = 512

abbrev pub max_files : ℕ
max_files = 64

abbrev pub max_name_len : ℕ
max_name_len = 32

-- A name is the bytes before its terminator.
abbrev pub Name : Type 0
Name = List ℕ

-- `strcmp` of two names is 0.
unfoldable pub name_eq : Name → Name → Bool
name_eq [] [] = true
name_eq [] (d ∷ ds) = false
name_eq (c ∷ cs) [] = false
name_eq (c ∷ cs) (d ∷ ds) = c == d && name_eq cs ds

pub record RamDiskFile : Type 0 where
  pub name : Name
  pub flags : ℕ
  pub size : ℕ
  pub block_start : ℕ
  pub block_count : ℕ
  pub create_time : ℕ
  pub modify_time : ℕ
  pub access_time : ℕ
  pub in_use : Bool

-- `bytes` are those from the pointer `data` on; the pointer leads to `ramdisk_size` of them, and
-- those behind belong to something else.
pub record RamDisk : Type 0 where
  pub bytes : Mem
  pub files : List RamDiskFile
  pub free_block_start : ℕ
  pub total_blocks : ℕ
  pub free_blocks : ℕ

-- An entry after `memset(file, 0, sizeof(struct RamDiskFile))`.
abbrev pub cleared : RamDiskFile
cleared = record {
  name = [];
  flags = 0;
  size = 0;
  block_start = 0;
  block_count = 0;
  create_time = 0;
  modify_time = 0;
  access_time = 0;
  in_use = false;
}

-- The disk that `ramdisk_create` sets up, once its three allocations have succeeded.
unfoldable pub format : RamDisk
format = record {
  bytes = λ _. 0;
  files = replicate max_files cleared;
  free_block_start = 0;
  total_blocks = ramdisk_size / block_size;
  free_blocks = ramdisk_size / block_size;
}

-- The index of the first entry that passes, as the loops of the two searches return a pointer to it.
unfoldable pub find_free_file : List RamDiskFile → Option ℕ
find_free_file [] = none
find_free_file (f ∷ fs) =
    if not f.in_use
    then some 0
    else elim (find_free_file fs) [ none ↦ none | some i ↦ some (suc i) ]

unfoldable pub find_file_by_name : Name → List RamDiskFile → Option ℕ
find_file_by_name name [] = none
find_file_by_name name (f ∷ fs) =
    if f.in_use && name_eq f.name name
    then some 0
    else elim (find_file_by_name name fs) [ none ↦ none | some i ↦ some (suc i) ]

-- The start of the blocks, and the disk with them taken; `none` for -1.
unfoldable pub allocate_blocks : ℕ → RamDisk → Option (ℕ × RamDisk)
allocate_blocks count d =
    if ltb d.free_blocks count
    then none
    else some (
      d.free_block_start,
      record d {
        free_block_start = (d.free_block_start + count) % 2 ^ 32;
        free_blocks = d.free_blocks - count;
      },
    )

abbrev pub new_file : Name → ℕ → RamDiskFile
new_file name flags = record cleared { name = name; flags = flags; in_use = true }

unfoldable pub ramdisk_create_file : Name → ℕ → RamDisk → ℤ × RamDisk
ramdisk_create_file name flags d =
    if leb max_name_len (length name) then (error, d) else elim (find_file_by_name name d.files) [
      | some _ ↦ (error, d)
      | none ↦ elim (find_free_file d.files) [
        | none ↦ (error, d)
        | some i ↦ (pos 0, record d { files = set d.files i (new_file name flags) })
      ]
    ]

unfoldable pub ramdisk_delete_file : Name → RamDisk → ℤ × RamDisk
ramdisk_delete_file name d = elim (find_file_by_name name d.files) [
  | none ↦ (error, d)
  | some i ↦ (
    pos 0,
    record d {
      files = set d.files i cleared;
      free_blocks = (d.free_blocks + (get_or d.files i cleared).block_count) % 2 ^ 32;
    },
  )
]

-- `n` bytes from `p` on.
unfoldable pub read_bytes : ℕ → ℕ → Mem → List ℕ
read_bytes zero p m = []
read_bytes (suc n) p m = m p ∷ read_bytes n (p + 1) m

unfoldable pub write_bytes : List ℕ → ℕ → Mem → Mem
write_bytes [] p m = m
write_bytes (b ∷ bs) p m = write_bytes bs (p + 1) (λ a. if a == p then b else m a)

-- The byte of the disk at which a file's blocks begin, in 32-bit arithmetic.
abbrev pub data_start : RamDiskFile → ℕ
data_start f = f.block_start * block_size % 2 ^ 32

abbrev pub read_size : ℕ → ℕ → RamDiskFile → ℕ
read_size offset size f = if ltb f.size ((offset + size) % 2 ^ 64) then f.size - offset else size

-- The result, the bytes copied to the buffer, and the disk.
unfoldable pub ramdisk_read : Name → ℕ → ℕ → RamDisk → ℤ × List ℕ × RamDisk
ramdisk_read name offset size d = elim (find_file_by_name name d.files) [
  | none ↦ (error, [], d)
  | some i ↦
      let f = get_or d.files i cleared in
      if leb f.size offset
      then (pos 0, [], d)
      else let n = read_size offset size f in
        (
          to_int n,
          read_bytes n (data_start f + offset) d.bytes,
          record d { files = set d.files i (record f { access_time = 0 }) },
        )
]

abbrev pub required_blocks : ℕ → ℕ → ℕ
required_blocks offset size = (offset + size + block_size - 1) % 2 ^ 64 / block_size % 2 ^ 32

-- The blocks of the file grown to `required`: its data is copied to the blocks that were taken.
unfoldable pub grow : RamDiskFile → ℕ → RamDisk → Option (RamDiskFile × RamDisk)
grow f required d =
    if leb required f.block_count
    then some (f, d)
    else elim (allocate_blocks (required - f.block_count) d) [
      | none ↦ none
      | some (start, d') ↦ some (
        record f { block_start = start; block_count = required },
        (if f.block_count == 0 then d' else record d' {
          bytes = copy_up f.size 0 (start * block_size % 2 ^ 32) (data_start f) d'.bytes;
        }),
      )
    ]

-- The end of `ramdisk_write`: the copy into the file's blocks, and the entry written back.
unfoldable pub put_data : ℕ → ℕ → List ℕ → RamDiskFile → RamDisk → ℤ × RamDisk
put_data i offset src f d =
    let reach = (offset + length src) % 2 ^ 64 in
    (
      to_int (length src),
      record d {
        bytes = write_bytes src (data_start f + offset) d.bytes;
        files = set d.files i (record f {
          size = if ltb f.size reach then reach % 2 ^ 32 else f.size;
          modify_time = 0;
          access_time = 0;
        });
      },
    )

-- `src` is the buffer, and its length the parameter `size`.
unfoldable pub ramdisk_write : Name → ℕ → List ℕ → RamDisk → ℤ × RamDisk
ramdisk_write name offset src d = elim (find_file_by_name name d.files) [
  | none ↦ (error, d)
  | some i ↦ elim (grow (get_or d.files i cleared) (required_blocks offset (length src)) d) [
    | none ↦ (error, d)
    | some (f, d') ↦ put_data i offset src f d'
  ]
]
