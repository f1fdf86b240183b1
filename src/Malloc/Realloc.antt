-- ===== src/Malloc/Realloc.antt =====
-- What `realloc` of stdlib.c keeps.
use nans_os.Base.{ℕ, ◌+◌, ◌<◌, ◌≡◌, ◌≢◌, false, Option, some, min}
use nans_os.Cstring.{Mem, memcpy}
use nans_os.Malloc.{MemBlock, Heap, malloc, find_block}
use nans_os.Malloc.Chain.{Chain, IsValid}
use nans_os.Malloc.Alloc.{Ready}

-- A heap whose bytes are replaced.
abbrev with_mem : Mem → Heap → Heap
with_mem m h = record h { mem = m }

-- What a call of `realloc` does with the block at `ptr`: it returns a pointer at which the bytes that
-- fit in both sizes are those that stood at `ptr`, in a heap that is in order.
abbrev pub Kept : ℕ → MemBlock → ℕ → Heap → Option (ℕ × Heap) → Type 0
Kept ptr b size h out =
    (p : ℕ) × (h' : Heap) × (out ≡ some (p, h'))
    × IsValid h'
    × (p ≢ 0)
    × ((i : ℕ) → i < min b.size size → h'.mem (p + i) ≡ h.mem (ptr + i))

module _ (ptr size : ℕ) (h : Heap) (b : MemBlock) (r : Ready h)
    (found : find_block ptr h.chain ≡ some b) (in_use : b.is_free ≡ false) where
  -- The heap after `malloc`, and the bytes after the copy.
  h1 : Heap
  h1 = (malloc size h).1

  new_ptr : ℕ
  new_ptr = (malloc size h).0

  copy : Mem
  copy = memcpy new_ptr ptr b.size h1.mem
