-- ===== src/Vfs.antt =====
-- The virtual file system of src/impl/kernel/fs.c and fs.h: paths, mounts and file descriptors.
pub mod Paths
pub mod Descriptors
pub mod Opening
pub mod OnRamdisk
mod Tests
use nans_os.Base.{
  ℕ, zero, suc, ◌+◌, ◌-◌, ◌%◌, ◌^◌, Bool, true, false, ◌&&◌, ◌||◌, not, Option, none, some, List,
  [], ◌∷◌, ◌++◌, bit_and, ltb, leb, ◌==◌, if◌then◌else◌, length, get_elem?, set, replicate,
}
use nans_os.Base.Int.{ℤ, pos, negsuc, pos_part, ◌+ℤ◌, error}

abbrev pub max_fd : ℕ
max_fd = 256

-- The bytes of a path before its terminator.
abbrev pub PathName : Type 0
PathName = List ℕ

-- An address of a node; 0 is NULL.
abbrev pub Ptr : Type 0
Ptr = ℕ

unfoldable pub skip_slashes : PathName → PathName
skip_slashes [] = []
skip_slashes (c ∷ cs) = let rest = skip_slashes cs in if c == b'/' then rest else c ∷ cs

-- The end of a component: a slash or the terminator.
unfoldable pub ends_here : PathName → Bool
ends_here [] = true
ends_here (c ∷ cs) = c == b'/'

-- The path behind a second dot, if it and the end of the component are there.
unfoldable pub second_dot : PathName → Option PathName
second_dot [] = none
second_dot (c ∷ cs) = if c == b'.' && ends_here cs then some cs else none

-- `normalized` is kept with its last byte, `np[-1]`, in front.
unfoldable pub drop_component : PathName → PathName
drop_component [] = []
drop_component (c ∷ out) = let rest = drop_component out in if c == b'/' then c ∷ out else rest

unfoldable pub back_up : PathName → PathName
back_up [] = []
back_up (c ∷ []) = c ∷ []
back_up (c ∷ d ∷ out) = drop_component (d ∷ out)

unfoldable pub copy_component : PathName → PathName → PathName × PathName
copy_component [] out = ([], out)
copy_component (c ∷ cs) out =
    let rest = copy_component cs (c ∷ out) in if c == b'/' then (c ∷ cs, out) else rest

-- One round of the loop, at the byte `c`: the rest of the path and the output.
unfoldable pub normalize_step : ℕ → PathName → PathName → PathName × PathName
normalize_step c cs out =
    if c == b'/'
    then (skip_slashes cs, if length (skip_slashes cs) == 0 then out else b'/' ∷ out)
    else if c == b'.' && ends_here cs
    then (cs, out)
    else elim (if c == b'.' then second_dot cs else none) [
      | some rest ↦ (rest, back_up out)
      | none ↦ copy_component (c ∷ cs) out
    ]

-- `none` means that the fuel ran out.
unfoldable pub normalize_loop : ℕ → PathName → PathName → Option PathName
normalize_loop zero path out = none
normalize_loop (suc f) [] out = some out
normalize_loop (suc f) (c ∷ cs) out =
    let (path', out') = normalize_step c cs out in normalize_loop f path' out'

unfoldable pub reversed : PathName → PathName
reversed [] = []
reversed (c ∷ cs) = reversed cs ++ (c ∷ [])

abbrev pub first_slash : PathName → PathName × PathName
first_slash [] = ([], [])
first_slash (c ∷ cs) = if c == b'/' then (cs, b'/' ∷ []) else (c ∷ cs, [])

-- The end of the function: an empty result becomes the root.
unfoldable pub terminate : PathName → PathName
terminate [] = b'/' ∷ []
terminate (c ∷ out) = reversed (c ∷ out)

unfoldable pub vfs_normalize_path : ℕ → PathName → Option PathName
vfs_normalize_path fuel path =
    let (rest, out) = first_slash path in
    elim (normalize_loop fuel rest out) [ none ↦ none | some res ↦ some (terminate res) ]

-- `struct FSOperations`, the operations that this file calls: `none` is a null pointer. `D` is the
-- state behind the file systems. An `int` result is an integer; `read` also gives the bytes that it
-- leaves in the buffer. (`open_node` is the field `open`.)
pub record FsOperations (D : Type 0) : Type 0 where
  pub read : Option (Ptr → ℕ → ℕ → D → ℤ × List ℕ × D)
  pub write : Option (Ptr → ℕ → List ℕ → D → ℤ × D)
  pub open_node : Option (Ptr → ℕ → D → ℤ × D)
  pub close : Option (Ptr → D → ℤ × D)
  pub mkdir : Option (Ptr → PathName → ℕ → D → ℤ × D)
  pub finddir : Option (Ptr → PathName → D → Ptr × D)

-- What the nodes of the file systems offer: `ops` is `none` where `node->fs` or `node->fs->ops` is
-- null. `size` and `flags` are fields of the node.
pub record Driver (D : Type 0) : Type 0 where
  pub ops : Ptr → Option (FsOperations D)
  pub size : Ptr → D → ℕ
  pub flags : Ptr → D → ℕ

-- `struct FileDescriptor`.
pub record FileDescriptor : Type 0 where
  pub node : Ptr
  pub offset : ℕ
  pub flags : ℕ
  pub refcount : ℕ

-- `mount_points` lists the paths of the entries below `num_mounts`.
pub record Vfs (D : Type 0) : Type 0 where
  pub fd_table : List FileDescriptor
  pub mount_points : List PathName
  pub root_node : Ptr
  pub device : D

abbrev pub closed : FileDescriptor
closed = record { node = 0; offset = 0; flags = 0; refcount = 0 }

module _ {D : Type 0} where
  -- The two `memset`s; `num_mounts` and `root_node` are not reset.
  unfoldable pub vfs_init : Vfs D → Vfs D
  vfs_init s = record s { fd_table = replicate max_fd closed }

  -- No driver is ever found for a type, so no mount succeeds.
  unfoldable pub vfs_mount : PathName → Vfs D → ℤ × Vfs D
  vfs_mount path s = if leb 16 (length s.mount_points) then (error, s) else (error, s)

-- What is behind a prefix.
unfoldable pub behind : PathName → PathName → Option PathName
behind [] path = some path
behind (c ∷ cs) [] = none
behind (c ∷ cs) (d ∷ path) = let rest = behind cs path in if c == d then rest else none

-- The path within the first mount point that contains it.
unfoldable pub find_mount : PathName → List PathName → Option PathName
find_mount path [] = none
find_mount path (m ∷ ms) =
    let later = find_mount path ms in
    elim (behind m path) [
      | none ↦ later
      | some rest ↦ if ends_here rest then some (skip_slashes rest) else later
    ]

-- The components of a relative path, split at runs of slashes.
unfoldable pub components : PathName → List PathName
components [] = []
components (c ∷ cs) =
    let rest = components cs in
    if c == b'/'
    then rest
    else if ends_here cs
    then (c ∷ []) ∷ rest
    else elim rest [ [] ↦ (c ∷ []) ∷ [] | w ∷ ws ↦ (c ∷ w) ∷ ws ]

module _ {D : Type 0} (v : Driver D) where
  -- The outer `none` is a null pointer that is followed: `node->fs->ops->finddir` is read untested.
  unfoldable pub walk : List PathName → Ptr → D → Option (Ptr × D)
  walk [] node d = some (node, d)
  walk (w ∷ ws) node d = if node == 0 then none else elim (v.ops node) [
    | none ↦ none
    | some o ↦ elim o.finddir [
      | none ↦ some (0, d)
      | some find ↦
          let (next, d') = find node w d in
          let rest = walk ws next d' in if next == 0 then some (0, d') else rest
    ]
  ]

  -- The fuel is that of the normalisation.
  unfoldable pub vfs_lookup : ℕ → PathName → Vfs D → Option (Ptr × Vfs D)
  vfs_lookup fuel path s = elim (vfs_normalize_path fuel path) [
    | none ↦ none
    | some norm ↦
        if length norm == 1 && ends_here norm
        then some (s.root_node, s)
        else elim (find_mount norm s.mount_points) [
          | none ↦ some (0, s)
          | some rel ↦ elim (walk (components rel) s.root_node s.device) [
            | none ↦ none
            | some (node, d) ↦ some (node, record s { device = d })
          ]
        ]
  ]

-- The index of the first entry whose node is NULL.
unfoldable pub find_free_fd : List FileDescriptor → Option ℕ
find_free_fd [] = none
find_free_fd (f ∷ fs) =
    if f.node == 0 then some 0 else elim (find_free_fd fs) [ none ↦ none | some i ↦ some (suc i) ]

-- The entry of an open descriptor: `fd < 0 || fd >= MAX_FD || !fd_table[fd].node` is false.
unfoldable pub open_entry : ℤ → List FileDescriptor → Option (ℕ × FileDescriptor)
open_entry (negsuc n) fds = none
open_entry (pos n) fds =
    if leb max_fd n
    then none
    else elim (get_elem? fds n) [ none ↦ none | some f ↦ if f.node == 0 then none else some (n, f) ]

-- An operation of a node, if it is there.
unfoldable pub operation :
    {D : Type 0} {F : Type 0} → Driver D → (FsOperations D → Option F) → Ptr → Option F
operation v select node = elim (v.ops node) [ none ↦ none | some o ↦ select o ]

abbrev pub set_fd : {D : Type 0} → ℕ → FileDescriptor → Vfs D → Vfs D
set_fd n f s = record s { fd_table = set s.fd_table n f }

-- `fd_table[fd].offset += bytes` if that is positive.
abbrev pub advance : ℤ → FileDescriptor → FileDescriptor
advance bytes f = record f { offset = (f.offset + pos_part bytes) % 2 ^ 64 }

-- The sum of two offsets is exact: where it leaves `int64_t` the code's is undefined.
unfoldable pub seek_target : ℕ → ℤ → ℕ → ℕ → Option ℤ
seek_target whence offset current size =
    if whence == 0
    then some offset
    else if whence == 1
    then some (pos current +ℤ offset)
    else if whence == 2
    then some (pos size +ℤ offset)
    else none

-- `new_offset < 0 || new_offset > node->size` is false.
unfoldable pub within : ℕ → ℤ → Bool
within size (pos n) = leb n size
within size (negsuc n) = false

module _ {D : Type 0} (v : Driver D) where
  -- `vfs_open` once the node is found; the result is the operation's where there is one.
  unfoldable pub open_at : Ptr → ℕ → Vfs D → ℤ × Vfs D
  open_at node flags s = elim (find_free_fd s.fd_table) [
    | none ↦ (error, s)
    | some fd ↦
        let t = set_fd fd (record { node = node; offset = 0; flags = flags; refcount = 1 }) s in
        elim (operation v (λ o. o.open_node) node) [
          | none ↦ (pos fd, t)
          | some f ↦ let (r, d) = f node flags s.device in (r, record t { device = d })
        ]
  ]

  unfoldable pub vfs_open : ℕ → PathName → ℕ → Vfs D → Option (ℤ × Vfs D)
  vfs_open fuel path flags s = elim (vfs_lookup v fuel path s) [
    | none ↦ none
    | some (node, t) ↦ some (if node == 0 then (error, t) else open_at node flags t)
  ]

  unfoldable pub vfs_close : ℤ → Vfs D → ℤ × Vfs D
  vfs_close fd s = elim (open_entry fd s.fd_table) [
    | none ↦ (error, s)
    | some (n, f) ↦ elim (operation v (λ o. o.close) f.node) [
      | none ↦ (pos 0, set_fd n closed s)
      | some g ↦ (pos 0, record (set_fd n closed s) { device = (g f.node s.device).1 })
    ]
  ]

  -- The result, the bytes left in the buffer, and the state.
  unfoldable pub vfs_read : ℤ → ℕ → Vfs D → ℤ × List ℕ × Vfs D
  vfs_read fd size s = elim (open_entry fd s.fd_table) [
    | none ↦ (error, [], s)
    | some (n, f) ↦ elim (operation v (λ o. o.read) f.node) [
      | none ↦ (error, [], s)
      | some g ↦
          let (bytes, buffer, d) = g f.node f.offset size s.device in
          (bytes, buffer, record (set_fd n (advance bytes f) s) { device = d })
    ]
  ]

  unfoldable pub vfs_write : ℤ → List ℕ → Vfs D → ℤ × Vfs D
  vfs_write fd buffer s = elim (open_entry fd s.fd_table) [
    | none ↦ (error, s)
    | some (n, f) ↦ elim (operation v (λ o. o.write) f.node) [
      | none ↦ (error, s)
      | some g ↦
          let (bytes, d) = g f.node f.offset buffer s.device in
          (bytes, record (set_fd n (advance bytes f) s) { device = d })
    ]
  ]

  unfoldable pub vfs_seek : ℤ → ℤ → ℕ → Vfs D → ℤ × Vfs D
  vfs_seek fd offset whence s = elim (open_entry fd s.fd_table) [
    | none ↦ (error, s)
    | some (n, f) ↦
        let size = v.size f.node s.device in
        elim (seek_target whence offset f.offset size) [
          | none ↦ (error, s)
          | some target ↦
              if within size target
              then (target, set_fd n (record f { offset = pos_part target }) s)
              else (error, s)
        ]
  ]

  unfoldable pub vfs_exists : ℕ → PathName → Vfs D → Option (Bool × Vfs D)
  vfs_exists fuel path s = elim (vfs_lookup v fuel path s) [
    | none ↦ none
    | some (node, t) ↦ some (not (node == 0), t)
  ]

  -- `node && (node->flags & bit)`
  unfoldable pub has_flag : ℕ → ℕ → PathName → Vfs D → Option (Bool × Vfs D)
  has_flag bit fuel path s = elim (vfs_lookup v fuel path s) [
    | none ↦ none
    | some (node, t) ↦ some (not (node == 0) && not (bit_and (v.flags node t.device) bit == 0), t)
  ]

  unfoldable pub vfs_is_directory : ℕ → PathName → Vfs D → Option (Bool × Vfs D)
  vfs_is_directory fuel path s = has_flag 0x02 fuel path s

  unfoldable pub vfs_is_file : ℕ → PathName → Vfs D → Option (Bool × Vfs D)
  vfs_is_file fuel path s = has_flag 0x01 fuel path s
