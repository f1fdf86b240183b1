-- ===== src/Vfs/OnRamdisk.antt =====
-- The RAM disk behind the file descriptors: what is written through one is read back.
use nans_os.Base.{
  ℕ, ◌+◌, ◌^◌, ◌≤◌, ◌<◌, ◌≡◌, refl, ap, sym, ◌∙◌, arith, none, some, List, length, set,
}
use nans_os.Base.Int.{ℤ, pos}
use nans_os.Ramdisk.{RamDisk, Name, ramdisk_read, ramdisk_write}
use nans_os.Ramdisk.Contents.{read-write}
use nans_os.Vfs.{
  Ptr, FsOperations, Driver, FileDescriptor, Vfs, open_entry, operation, set_fd, advance, vfs_read,
  vfs_write, vfs_seek, within, seek_target,
}
use nans_os.Vfs.Descriptors.{entry-set, seek-moved}

-- `ramdisk_ops`, over nodes that have names: its reading and writing.
abbrev pub ramdisk_ops : (Ptr → Name) → FsOperations RamDisk
ramdisk_ops name = record {
  read = some (λ node offset size d. ramdisk_read (name node) offset size d);
  write = some (λ node offset buffer d. ramdisk_write (name node) offset buffer d);
  open_node = none;
  close = none;
  mkdir = none;
  finddir = none;
}

-- The sizes and flags of the nodes are those of `struct FSNode`, which the RAM disk does not keep.
abbrev pub on_ramdisk : (Ptr → Name) → (Ptr → ℕ) → (Ptr → ℕ) → Driver RamDisk
on_ramdisk name size flags = record {
  ops = λ _. some (ramdisk_ops name);
  size = λ node _. size node;
  flags = λ node _. flags node;
}

module _ (name : Ptr → Name) (size flags : Ptr → ℕ) where
  disk : Driver RamDisk
  disk = on_ramdisk name size flags

  wrote : ℕ → FileDescriptor → List ℕ → Vfs RamDisk → ℤ × Vfs RamDisk
  wrote n f src s =
      let (bytes, d) = ramdisk_write (name f.node) f.offset src s.device in
      (bytes, record (set_fd n (advance bytes f) s) { device = d })

  write-wrote :
      (fd : ℤ) (n : ℕ) (f : FileDescriptor) (src : List ℕ) (s : Vfs RamDisk)
      → open_entry fd s.fd_table ≡ some (n, f)
      → vfs_write disk fd src s ≡ wrote n f src s
  unfolding vfs_write operation disk wrote
  write-wrote fd n f src s e = rw (e, vfs_write) refl

  read-ramdisk :
      (fd : ℤ) (n k : ℕ) (f : FileDescriptor) (s : Vfs RamDisk)
      → open_entry fd s.fd_table ≡ some (n, f)
      → let (r, buf, _) = vfs_read disk fd k s in
        let (r', buf', _) = ramdisk_read (name f.node) f.offset k s.device in
        (r ≡ r') × (buf ≡ buf')
  unfolding vfs_read operation disk
  read-ramdisk fd n k f s e = rw (e, vfs_read) (refl, refl)

  abbrev after_seek : ℕ → ℕ → FileDescriptor → List ℕ → Vfs RamDisk → Vfs RamDisk
  after_seek p n f src s = set_fd n (record f { offset = p }) (wrote n f src s).1

  seek_back :
      (fd : ℤ) (n : ℕ) (f : FileDescriptor) (src : List ℕ) (s : Vfs RamDisk)
      → open_entry fd s.fd_table ≡ some (n, f)
      → f.offset ≤ size f.node
      → (vfs_seek disk fd (pos f.offset) 0 (wrote n f src s).1).1
        ≡ set_fd n (record f { offset = f.offset }) (wrote n f src s).1
  unfolding disk wrote seek_target within
  seek_back fd n f src s e le =
      let (bytes, d) = ramdisk_write (name f.node) f.offset src s.device in
      let f' : FileDescriptor = advance bytes f in
      let t : Vfs RamDisk = record (set_fd n f' s) { device = d } in
      ap (λ (p : ℤ × Vfs RamDisk). p.1)
        (seek-moved disk fd (pos f.offset) (pos f.offset) 0 n f' t
          (entry-set fd s.fd_table n f f' e refl) refl (ground arith))

-- What is written through a descriptor to a file of the RAM disk is read back through it: after a
-- write that succeeds and a seek back to the offset of the write (which must not lie beyond the size
-- in the node), a read of as many bytes returns their number and the bytes. (Offset and length
-- together are below 2^31.)
pub write-seek-read :
    (name : Ptr → Name) (size flags : Ptr → ℕ) (fd : ℤ) (n : ℕ) (f : FileDescriptor) (src : List ℕ)
    (s : Vfs RamDisk)
    → open_entry fd s.fd_table ≡ some (n, f)
    → f.offset ≤ size f.node
    → f.offset + length src < 2 ^ 31
    → (vfs_write (on_ramdisk name size flags) fd src s).0 ≡ pos (length src)
    → let v = on_ramdisk name size flags in
      let t = (vfs_seek v fd (pos f.offset) 0 (vfs_write v fd src s).1).1 in
      let (r, buf, _) = vfs_read v fd (length src) t in (r ≡ pos (length src)) × (buf ≡ src)
unfolding disk wrote
write-seek-read name size flags fd n f src s e le small ok =
    let w = write-wrote name size flags fd n f src s e in
    let (bytes, d) = ramdisk_write (name f.node) f.offset src s.device in
    let f1 : FileDescriptor = advance bytes f in
    let f2 : FileDescriptor = record f { offset = f.offset } in
    let t : Vfs RamDisk = set_fd n f2 (record (set_fd n f1 s) { device = d }) in
    let e2 : open_entry fd t.fd_table ≡ some (n, f2) =
      entry-set fd (set s.fd_table n f1) n f1 f2 (entry-set fd s.fd_table n f f1 e refl) refl in
    let (r, b) = read-ramdisk name size flags fd n (length src) f2 t e2 in
    let (r', b') =
      read-write (name f.node) f.offset src s.device small
        (ap (λ (p : ℤ × Vfs RamDisk). p.0) (sym w) ∙ ok) in
    rw w (rw (seek_back name size flags fd n f src s e le) (r ∙ r', b ∙ b'))
