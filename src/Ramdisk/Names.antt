-- ===== src/Ramdisk/Names.antt =====
-- The table of the RAM disk's files as a dictionary: creation and deletion.
use nans_os.Base.{
  ℕ, zero, suc, ◌≡◌, refl, ◌↔◌, true, ◌&&◌, Option, none, some, List, [], ◌∷◌, arith, if◌then◌else◌,
  get_or, set,
}
use nans_os.Ramdisk.{
  Name, name_eq, RamDiskFile, cleared, new_file, find_free_file, find_file_by_name,
}

pub name_eq_iff : (a b : Name) → (name_eq a b ≡ true) ↔ (a ≡ b)
unfolding name_eq
name_eq_iff [] [] = (λ _. refl, λ _. refl)
name_eq_iff [] (d ∷ ds) = (λ h. cc, λ h. cc)
name_eq_iff (c ∷ cs) [] = (λ h. cc, λ h. cc)
name_eq_iff (c ∷ cs) (d ∷ ds) = ground (arith, name_eq_iff cs ds)

-- The entry that a name leads to.
unfoldable pub lookup : Name → List RamDiskFile → Option RamDiskFile
lookup name [] = none
lookup name (f ∷ fs) = if f.in_use && name_eq f.name name then some f else lookup name fs

-- The index that the search returns is that of the entry.
pub find-lookup :
    (name : Name) (fs : List RamDiskFile)
    → elim (find_file_by_name name fs) [ none ↦ none | some i ↦ some (get_or fs i cleared) ]
      ≡ lookup name fs
unfolding find_file_by_name lookup
find-lookup name [] = refl
find-lookup name (f ∷ fs) = ground (arith, find-lookup name fs)

-- No two files in use have one name.
abbrev pub Unique : List RamDiskFile → Type 0
Unique [] = Unit
Unique (f ∷ fs) = (f.in_use ≡ true → lookup f.name fs ≡ none) × Unique fs

pub lookup-insert :
    (name name' : Name) (flags i : ℕ) (fs : List RamDiskFile)
    → find_free_file fs ≡ some i
    → lookup name fs ≡ none
    → lookup name' (set fs i (new_file name flags))
      ≡ (if name_eq name name' then some (new_file name flags) else lookup name' fs)
unfolding find_free_file lookup
lookup-insert name name' flags i [] h n = absurd (ground arith)
lookup-insert name name' flags zero (f ∷ fs) h n = ground arith
lookup-insert name name' flags (suc i) (f ∷ fs) h n = ground (
  arith,
  lookup-insert name name' flags i fs,
  name_eq_iff name name',
  name_eq_iff f.name name',
  name_eq_iff f.name name,
)

pub Unique-insert :
    (name : Name) (flags i : ℕ) (fs : List RamDiskFile)
    → find_free_file fs ≡ some i
    → lookup name fs ≡ none
    → Unique fs
    → Unique (set fs i (new_file name flags))
unfolding find_free_file lookup
Unique-insert name flags i [] h n u = absurd (ground arith)
Unique-insert name flags zero (f ∷ fs) h n u = (λ _. ground arith, u.1)
Unique-insert name flags (suc i) (f ∷ fs) h n u = (
  λ used. ground (
    arith,
    u.0 used,
    lookup-insert name f.name flags i fs,
    name_eq_iff name f.name,
    name_eq_iff f.name name,
  ),
  Unique-insert name flags i fs (ground arith) (ground arith) u.1,
)

-- What a lookup finds once the entry of `name` is replaced by `f'`: an entry of that name, or one
-- out of use.
abbrev pub replaced : Name → RamDiskFile → Name → List RamDiskFile → Option RamDiskFile
replaced name f' name' fs =
    if name_eq name name' then (if f'.in_use then some f' else none) else lookup name' fs

pub lookup-replace :
    (name name' : Name) (i : ℕ) (f' : RamDiskFile) (fs : List RamDiskFile)
    → find_file_by_name name fs ≡ some i
    → (f'.in_use ≡ true → f'.name ≡ name)
    → Unique fs
    → lookup name' (set fs i f') ≡ replaced name f' name' fs
unfolding find_file_by_name lookup
lookup-replace name name' i f' [] h k u = absurd (ground arith)
lookup-replace name name' zero f' (f ∷ fs) h k u = ground (
  arith,
  u.0,
  name_eq_iff name name',
  name_eq_iff f.name name',
  name_eq_iff f.name name,
  name_eq_iff f'.name name',
)
lookup-replace name name' (suc i) f' (f ∷ fs) h k u = ground (
  arith,
  lookup-replace name name' i f' fs,
  name_eq_iff name name',
  name_eq_iff f.name name',
  name_eq_iff f.name name,
)

pub Unique-replace :
    (name : Name) (i : ℕ) (f' : RamDiskFile) (fs : List RamDiskFile)
    → find_file_by_name name fs ≡ some i
    → (f'.in_use ≡ true → f'.name ≡ name)
    → Unique fs
    → Unique (set fs i f')
unfolding find_file_by_name lookup
Unique-replace name i f' [] h k u = absurd (ground arith)
Unique-replace name zero f' (f ∷ fs) h k u =
    (λ used. ground (arith, u.0, k used, name_eq_iff f.name name), u.1)
Unique-replace name (suc i) f' (f ∷ fs) h k u = (
  λ used. ground (
    arith,
    u.0 used,
    lookup-replace name f.name i f' fs,
    name_eq_iff name f.name,
    name_eq_iff f.name name,
  ),
  Unique-replace name i f' fs (ground arith) k u.1,
)
