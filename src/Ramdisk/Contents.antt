-- ===== src/Ramdisk/Contents.antt =====
-- What a read of the RAM disk returns after a write.
use nans_os.Base.{
  ℕ, zero, suc, ◌+◌, ◌%◌, ◌^◌, ◌≤◌, ◌<◌, ◌≡◌, refl, ap, ◌∙◌, inl, inr, Bool, true, ◌&&◌, some, List,
  [], ◌∷◌, arith, ltb, if◌then◌else◌, length, get_or, set,
}
use nans_os.Base.Int.{pos}
use nans_os.Cstring.{Mem}
use mathlib.Core.Path.{ap₂}
use nans_os.Ramdisk.{
  Name, name_eq, RamDiskFile, RamDisk, cleared, find_file_by_name, data_start, required_blocks,
  grow, allocate_blocks, put_data, read_bytes, write_bytes, ramdisk_write, ramdisk_read,
}
use nans_os.Ramdisk.Space.{write_bytes_lem, Wrote, write-cases}

-- An entry of the name, in use.
abbrev is_named : Name → RamDiskFile → Bool
is_named name f = f.in_use && name_eq f.name name

find-entry :
    (name : Name) (fs : List RamDiskFile) (i : ℕ)
    → find_file_by_name name fs ≡ some i
    → is_named name (get_or fs i cleared) ≡ true
unfolding find_file_by_name
find-entry name [] i h = absurd (ground arith)
find-entry name (f ∷ fs) zero h = ground arith
find-entry name (f ∷ fs) (suc i) h = find-entry name fs i (ground arith)

find-set :
    (name : Name) (fs : List RamDiskFile) (i : ℕ) (f' : RamDiskFile)
    → find_file_by_name name fs ≡ some i
    → is_named name f' ≡ true
    → (find_file_by_name name (set fs i f') ≡ some i) × (get_or (set fs i f') i cleared ≡ f')
unfolding find_file_by_name
find-set name [] i f' h n = absurd (ground arith)
find-set name (f ∷ fs) zero f' h n = (ground arith, refl)
find-set name (f ∷ fs) (suc i) f' h n =
    let k = find-set name fs i f' (ground arith) n in (ground (arith, k.0), k.1)

grow-is_named :
    (name : Name) (f f' : RamDiskFile) (required : ℕ) (d d' : RamDisk)
    → grow f required d ≡ some (f', d')
    → is_named name f ≡ true
    → (is_named name f' ≡ true) × (d'.files ≡ d.files) × (f'.size ≡ f.size)
unfolding grow allocate_blocks
grow-is_named name f f' required d d' e n = ground arith

read_bytes_lem :
    (src : List ℕ) (p : ℕ) (m : Mem)
    → ((j : ℕ) → j < length src → m (p + j) ≡ get_or src j 0)
    → read_bytes (length src) p m ≡ src
unfolding read_bytes
read_bytes_lem [] p m h = refl
read_bytes_lem (b ∷ bs) p m h =
    ap₂ ◌∷◌ (ap m (omega arith) ∙ h 0 (omega arith))
      (read_bytes_lem bs (p + 1) m λ j lt. ap m (omega arith) ∙ h (suc j) (omega arith))

-- The bytes that `write_bytes` has put.
read_bytes-write_bytes :
    (src : List ℕ) (p : ℕ) (m : Mem) → read_bytes (length src) p (write_bytes src p m) ≡ src
read_bytes-write_bytes src p m =
    read_bytes_lem src p (write_bytes src p m)
      λ j lt. ground (arith, write_bytes_lem src p m (p + j))

read_bytes_none : (p : ℕ) (m : Mem) → read_bytes 0 p m ≡ []
unfolding read_bytes
read_bytes_none p m = refl

-- The entry and the bytes that the end of a write leaves.
record Stored (i offset : ℕ) (src : List ℕ) (f : RamDiskFile) (d : RamDisk) (file : RamDiskFile)
    : Type 0 where
  files : (put_data i offset src f d).1.files ≡ set d.files i file
  bytes : (put_data i offset src f d).1.bytes ≡ write_bytes src (data_start f + offset) d.bytes
  start : data_start file ≡ data_start f
  size : offset + length src ≤ file.size
  same : (file.name ≡ f.name) × (file.in_use ≡ f.in_use)

put_data-Stored :
    (i offset : ℕ) (src : List ℕ) (f : RamDiskFile) (d : RamDisk)
    → offset + length src < 2 ^ 31
    → (file : RamDiskFile) × Stored i offset src f d file
unfolding put_data
put_data-Stored i offset src f d small = (
  record f {
    size =
        (if ltb f.size ((offset + length src) % 2 ^ 64)
          then (offset + length src) % 2 ^ 64 % 2 ^ 32
          else f.size);
    modify_time = 0;
    access_time = 0;
  },
  record { files = refl; bytes = refl; start = refl; size = ground arith; same = (refl, refl) },
)

-- A read within the size of the entry that the name leads to.
read-entry :
    (name : Name) (offset n i : ℕ) (f : RamDiskFile) (d : RamDisk)
    → find_file_by_name name d.files ≡ some i
    → get_or d.files i cleared ≡ f
    → offset + n ≤ f.size
    → offset + n < 2 ^ 31
    → let (r, buf, _) = ramdisk_read name offset n d in
      (r ≡ pos n) × (buf ≡ read_bytes n (data_start f + offset) d.bytes)
unfolding ramdisk_read
read-entry name offset zero i f d e g h small =
    ground (arith, read_bytes_none (data_start f + offset) d.bytes)
read-entry name offset (suc n) i f d e g h small = ground arith

read-Stored :
    (name : Name) (offset : ℕ) (src : List ℕ) (i : ℕ) (f file : RamDiskFile) (d : RamDisk)
    → offset + length src < 2 ^ 31
    → Stored i offset src f d file
    → is_named name f ≡ true
    → find_file_by_name name d.files ≡ some i
    → let (r, buf, _) = ramdisk_read name offset (length src) (put_data i offset src f d).1 in
      (r ≡ pos (length src)) × (buf ≡ src)
read-Stored name offset src i f file d small p n e =
    let k = find-set name d.files i file e (ground (arith, p.same)) in
    let d' : RamDisk = (put_data i offset src f d).1 in
    let r =
      read-entry name offset (length src) i file d' (ap (find_file_by_name name) p.files ∙ k.0)
        (ap (λ (l : List RamDiskFile). get_or l i cleared) p.files ∙ k.1) p.size small in
    (
      r.0,
      r.1
          ∙ ap₂ (λ (a : ℕ) (m : Mem). read_bytes (length src) (a + offset) m) p.start p.bytes
          ∙ read_bytes-write_bytes src (data_start f + offset) d.bytes,
    )

module _ (name : Name) (offset : ℕ) (src : List ℕ) (d : RamDisk)
    (w : Wrote name offset src d (ramdisk_write name offset src d)) where
  grown-is_named :
      (is_named name w.file ≡ true)
      × (w.disk.files ≡ d.files)
      × (w.file.size ≡ (get_or d.files w.index cleared).size)
  grown-is_named =
      grow-is_named name (get_or d.files w.index cleared) w.file
        (required_blocks offset (length src)) d w.disk w.grown
        (find-entry name d.files w.index w.found)

  kept : is_named name w.file ≡ true
  kept = grown-is_named.0

  unchanged : w.disk.files ≡ d.files
  unchanged = grown-is_named.1

-- After a write that succeeds, a read of as many bytes at the same offset returns their number and
-- the bytes that were written (offset and length together below 2^31).
pub read-write :
    (name : Name) (offset : ℕ) (src : List ℕ) (d : RamDisk)
    → offset + length src < 2 ^ 31
    → (ramdisk_write name offset src d).0 ≡ pos (length src)
    → let (r, buf, _) = ramdisk_read name offset (length src) (ramdisk_write name offset src d).1 in
      (r ≡ pos (length src)) × (buf ≡ src)
read-write name offset src d small ok = elim (write-cases name offset src d) [
  | inl e ↦ absurd (cc (rw e at ok))
  | inr w ↦
      let (file, p) = put_data-Stored w.index offset src w.file w.disk small in
      rw (w.result) (
        read-Stored name offset src w.index w.file file w.disk small p (kept name offset src d w)
          (ap (find_file_by_name name) (unchanged name offset src d w) ∙ w.found))
]
