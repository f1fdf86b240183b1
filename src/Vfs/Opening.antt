-- ===== src/Vfs/Opening.antt =====
-- Opening and closing a file: the descriptor that is chosen, and the table after both.
use nans_os.Base.{
  ℕ, zero, suc, ◌<◌, ◌≡◌, ◌≢◌, refl, Option, none, some, List, [], ◌∷◌, length, get_elem?,
  replicate,
}
use nans_os.Vfs.{Ptr, FileDescriptor, Vfs, closed}

-- Every entry that is not in use is cleared, as `vfs_init` and `vfs_close` leave it.
abbrev pub Cleared : List FileDescriptor → Type 0
Cleared [] = Unit
Cleared (f ∷ fs) = (f.node ≡ 0 → f ≡ closed) × Cleared fs

-- The table after `vfs_init` is.
pub replicate-Cleared : (n : ℕ) → Cleared (replicate n closed)
replicate-Cleared zero = tt
replicate-Cleared (suc n) = (λ e. refl, replicate-Cleared n)

-- The descriptors below `n` are all in use.
abbrev pub AllUsed : ℕ → List FileDescriptor → Type 0
AllUsed zero fds = Unit
AllUsed (suc n) [] = Unit
AllUsed (suc n) (f ∷ fs) = (f.node ≢ 0) × AllUsed n fs

pub record IsFree (fds : List FileDescriptor) (n : ℕ) : Type 0 where
  pub entry : get_elem? fds n ≡ some closed
  pub lowest : AllUsed n fds
  pub small : n < length fds

abbrev Outcome : List FileDescriptor → Option ℕ → Type 0
Outcome fds none = AllUsed (length fds) fds
Outcome fds (some n) = IsFree fds n

abbrev pub opened : Ptr → ℕ → FileDescriptor
opened node flags = record { node = node; offset = 0; flags = flags; refcount = 1 }
