-- ===== src/Ramdisk/Space.antt =====
-- The blocks of the RAM disk: what is counted, and where writes land.
use nans_os.Base.{
  ℕ, zero, suc, ◌+◌, ◌-◌, ◌*◌, ◌%◌, ◌^◌, ◌≤◌, ◌<◌, ◌≡◌, refl, sym, ap, ◌∙◌, ◌⊎◌, inl, inr, Option,
  none, some, List, [], ◌∷◌, arith, ◌==◌, if◌then◌else◌, Option-cases, length, get_or, eq_of_some,
  get_or-cons,
}
use nans_os.Base.Int.{ℤ, error}
use nans_os.Cstring.{Mem, store, copy_up}
use nans_os.Cstring.Copy.{in_range}
use nans_os.Ramdisk.{
  Name, RamDiskFile, RamDisk, block_size, cleared, find_file_by_name, allocate_blocks, data_start,
  required_blocks, grow, put_data, write_bytes, ramdisk_write, ramdisk_delete_file,
}
use nans_os.Ramdisk.Names.{lookup}
use nans_os.Ramdisk.Dictionary.{find-some, deleted, delete-deleted}

-- Every block is behind the start of the free ones, or counted as free.
abbrev pub Accounted : RamDisk → Type 0
Accounted d = d.free_block_start + d.free_blocks ≡ d.total_blocks

pub write_bytes_lem :
    (src : List ℕ) (p : ℕ) (m : Mem) (a : ℕ)
    → write_bytes src p m a ≡ (if in_range p (length src) a then get_or src (a - p) 0 else m a)
unfolding write_bytes
write_bytes_lem [] p m a = ground arith
write_bytes_lem (b ∷ bs) p m a = ground (
  arith,
  write_bytes_lem bs (p + 1) (λ a'. if a' == p then b else m a') a,
  get_or-cons b bs (a - p) 0,
)

copy_up-outside :
    (k i d s : ℕ) (m : Mem) (a : ℕ) → (a < d + i) ⊎ (d + i + k ≤ a) → copy_up k i d s m a ≡ m a
unfolding copy_up
copy_up-outside zero i d s m a h = refl
copy_up-outside (suc k) i d s m a h =
    ground (arith, copy_up-outside k (i + 1) d s (store m (d + i) (m (s + i))) a)

grow-Accounted :
    (f : RamDiskFile) (required : ℕ) (d : RamDisk) {f' : RamDiskFile} {d' : RamDisk}
    → Accounted d
    → d.total_blocks < 2 ^ 32
    → grow f required d ≡ some (f', d')
    → Accounted d' × (d'.total_blocks ≡ d.total_blocks)
unfolding grow allocate_blocks
grow-Accounted f required d acc small e = ground arith

-- The parts of a write that succeeds: the file grown, and the disk after the copy.
pub record Wrote (name : Name) (offset : ℕ) (src : List ℕ) (d : RamDisk) (out : ℤ × RamDisk)
    : Type 0 where
  pub index : ℕ
  pub found : find_file_by_name name d.files ≡ some index
  pub file : RamDiskFile
  pub disk : RamDisk
  pub grown :
      grow (get_or d.files index cleared) (required_blocks offset (length src)) d
      ≡ some (file, disk)
  pub result : out ≡ put_data index offset src file disk

abbrev after_grow : ℕ → ℕ → List ℕ → RamDisk → Option (RamDiskFile × RamDisk) → ℤ × RamDisk
after_grow i offset src d o = elim o [
  | none ↦ (error, d)
  | some (f, d') ↦ put_data i offset src f d'
]

-- `ramdisk_write` fails with -1 and the disk unchanged, or is the growth and the copy.
pub write-cases :
    (name : Name) (offset : ℕ) (src : List ℕ) (d : RamDisk)
    → (ramdisk_write name offset src d ≡ (error, d))
      ⊎ Wrote name offset src d (ramdisk_write name offset src d)
unfolding ramdisk_write
write-cases name offset src d = elim (Option-cases (find_file_by_name name d.files)) [
  | inl e ↦ inl (rw (e, ramdisk_write))
  | inr (i, e) ↦
      elim (Option-cases
        (grow (get_or d.files i cleared) (required_blocks offset (length src)) d)) [
          | inl g ↦ inl (rw (e, ramdisk_write) (rw (g, ramdisk_write)))
          | inr ((f, d'), g) ↦ inr (record {
            index = i;
            found = e;
            file = f;
            disk = d';
            grown = g;
            result = rw (e, ramdisk_write) (rw (g, ramdisk_write));
          })
        ]
]

abbrev PutSpace : ℕ → ℕ → List ℕ → RamDiskFile → RamDisk → Type 0
PutSpace i offset src f d =
    let d' = (put_data i offset src f d).1 in
    (d'.free_blocks ≡ d.free_blocks)
    × (d'.free_block_start ≡ d.free_block_start)
    × (d'.total_blocks ≡ d.total_blocks)

put_data-space :
    (i offset : ℕ) (src : List ℕ) (f : RamDiskFile) (d : RamDisk) → PutSpace i offset src f d
unfolding put_data
put_data-space i offset src f d = (refl, refl, refl)

-- On a disk of fewer than 2^32 blocks every write keeps the account: the start of the free blocks
-- and their number still make up the disk.
pub write-Accounted :
    (name : Name) (offset : ℕ) (src : List ℕ) (d : RamDisk)
    → Accounted d
    → d.total_blocks < 2 ^ 32
    → Accounted (ramdisk_write name offset src d).1
write-Accounted name offset src d acc small = elim (write-cases name offset src d) [
  | inl e ↦ rw e acc
  | inr w ↦
      let g : Accounted w.disk × (w.disk.total_blocks ≡ d.total_blocks) =
        grow-Accounted (get_or d.files w.index cleared) (required_blocks offset (length src)) d acc
          small w.grown in
      rw (w.result) (ground (arith, g, put_data-space w.index offset src w.file w.disk))
]

allocate-all :
    (d : RamDisk)
    → (d' : RamDisk) × (allocate_blocks d.free_blocks d ≡ some (d.free_block_start, d'))
unfolding allocate_blocks
allocate-all d = (
  record d {
    free_block_start = (d.free_block_start + d.free_blocks) % 2 ^ 32;
    free_blocks = d.free_blocks - d.free_blocks;
  },
  ground arith,
)

-- On a disk whose account is right, after the deletion of a file that has blocks (and whose return
-- does not wrap the count), a request for all the blocks counted as free is granted, and reaches
-- beyond the end of the disk.
pub delete-overcommits :
    (name : Name) (f : RamDiskFile) (d : RamDisk)
    → Accounted d
    → d.free_blocks + f.block_count < 2 ^ 32
    → lookup name d.files ≡ some f
    → 0 < f.block_count
    → let d' = (ramdisk_delete_file name d).1 in
      (start : ℕ) × (d'' : RamDisk) × (allocate_blocks d'.free_blocks d' ≡ some (start, d''))
      × (d.total_blocks < start + d'.free_blocks)
delete-overcommits name f d acc small h pos_count =
    let (i, e, g) = find-some name d.files f h in
    let (d'', granted) = allocate-all (deleted i d) in
    rw (delete-deleted name i d e) (d.free_block_start, d'', granted, rw g (omega arith))

-- A file that has blocks and outgrows them, where that succeeds and the blocks do not wrap, is
-- moved to where the free blocks begin, but only the missing blocks are taken: the free blocks then
-- begin inside the file.
pub grow-overlap :
    (f f' : RamDiskFile) (required : ℕ) (d d' : RamDisk)
    → 0 < f.block_count
    → f.block_count < required
    → d.free_block_start + required < 2 ^ 32
    → grow f required d ≡ some (f', d')
    → (f'.block_start ≤ d'.free_block_start)
      × (d'.free_block_start < f'.block_start + f'.block_count)
unfolding grow allocate_blocks
grow-overlap f f' required d d' p q small e = ground arith

-- A file that has no blocks yet, or that a write does not outgrow.
abbrev pub Contained : ℕ → RamDiskFile → RamDisk → Type 0
Contained required f d =
    ((f.block_count ≡ 0) ⊎ (required ≤ f.block_count))
    × (f.block_start + f.block_count ≤ d.total_blocks)

grow-Contained :
    (f f' : RamDiskFile) (required : ℕ) (d d' : RamDisk)
    → Accounted d
    → d.total_blocks < 2 ^ 23
    → Contained required f d
    → grow f required d ≡ some (f', d')
    → (f'.block_start + f'.block_count ≤ d.total_blocks)
      × (required ≤ f'.block_count)
      × (d'.bytes ≡ d.bytes)
unfolding grow allocate_blocks
grow-Contained f f' required d d' acc small c e = ground arith

put_data-outside :
    (i offset : ℕ) (src : List ℕ) (f : RamDiskFile) (d : RamDisk) (a : ℕ)
    → data_start f + offset + length src ≤ a
    → (put_data i offset src f d).1.bytes a ≡ d.bytes a
unfolding put_data
put_data-outside i offset src f d a h =
    ground (arith, write_bytes_lem src (data_start f + offset) d.bytes a)

-- On a disk of fewer than 2^23 blocks whose account is right, a write to a file that lies on the
-- disk, and that has no blocks yet or does not outgrow them, changes no byte beyond the end of the
-- disk (offset and length together below 2^40).
pub write-in-disk :
    (name : Name) (offset : ℕ) (src : List ℕ) (d : RamDisk) (f : RamDiskFile) (a : ℕ)
    → Accounted d
    → d.total_blocks < 2 ^ 23
    → offset + length src < 2 ^ 40
    → lookup name d.files ≡ some f
    → Contained (required_blocks offset (length src)) f d
    → d.total_blocks * block_size ≤ a
    → (ramdisk_write name offset src d).1.bytes a ≡ d.bytes a
write-in-disk name offset src d f a acc small range h c beyond =
    elim (write-cases name offset src d) [
      | inl e ↦ rw e
      | inr w ↦
          let (i, e, g) = find-some name d.files f h in
          let same : w.index ≡ i = eq_of_some (sym w.found ∙ e) in
          let file : get_or d.files w.index cleared ≡ f =
            ap (λ k. get_or d.files k cleared) same ∙ g in
          let k =
            grow-Contained f w.file (required_blocks offset (length src)) d w.disk acc small c
              (ap (λ x. grow x (required_blocks offset (length src)) d) (sym file) ∙ w.grown) in
          rw (w.result) (
            put_data-outside w.index offset src w.file w.disk a (omega (arith, k.0, k.1))
            ∙ ap (λ (m : Mem). m a) k.2)
    ]
