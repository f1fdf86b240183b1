-- ===== src/Cstring/Copy.antt =====
-- What the copying functions of string.c leave in memory.
use nans_os.Base.{
  ℕ, zero, suc, ◌+◌, ◌-◌, ◌%◌, ◌≤◌, ◌≡◌, ◌⊎◌, arith, Bool, ◌&&◌, ltb, leb, if◌then◌else◌,
}
use nans_os.Cstring.{Mem, store, copy_up, copy_down, fill_up, memcpy, memset, memmove}

abbrev pub in_range : ℕ → ℕ → ℕ → Bool
in_range p n a = leb p a && ltb a (p + n)

-- The bytes of `[s, s + n)` at `[d, d + n)`, and `m` elsewhere.
abbrev pub copied : ℕ → ℕ → ℕ → Mem → Mem
copied d s n m a = if in_range d n a then m (s + (a - d)) else m a

copy_up_lem :
    (k i d s : ℕ) (m : Mem) (a : ℕ)
    → (d ≤ s) ⊎ (s + (i + k) ≤ d)
    → copy_up k i d s m a ≡ (if in_range (d + i) k a then m (s + (a - d)) else m a)
unfolding copy_up
copy_up_lem zero i d s m a h = ground arith
copy_up_lem (suc k) i d s m a h =
    ground (arith, copy_up_lem k (i + 1) d s (store m (d + i) (m (s + i))) a)

copy_down_lem : (n d s : ℕ) (m : Mem) (a : ℕ) → s ≤ d → copy_down n d s m a ≡ copied d s n m a
unfolding copy_down
copy_down_lem zero d s m a h = ground arith
copy_down_lem (suc n) d s m a h =
    ground (arith, copy_down_lem n d s (store m (d + n) (m (s + n))) a)

pub fill_up_lem :
    (k i p v : ℕ) (m : Mem) (a : ℕ)
    → fill_up k i p v m a ≡ (if in_range (p + i) k a then v else m a)
unfolding fill_up
fill_up_lem zero i p v m a = ground arith
fill_up_lem (suc k) i p v m a = ground (arith, fill_up_lem k (i + 1) p v (store m (p + i) v) a)

-- `memmove` copies the range as it was before the call, however the two ranges overlap, and changes
-- no other byte.
pub memmove-copied :
    (dest src n : ℕ) (m : Mem) (a : ℕ) → memmove dest src n m a ≡ copied dest src n m a
unfolding memmove
memmove-copied dest src n m a =
    ground (arith, copy_up_lem n 0 dest src m a, copy_down_lem n dest src m a)

-- `memcpy` does the same if the destination is not above the start of an overlapping source.
pub memcpy-copied :
    (dest src n : ℕ) (m : Mem) (a : ℕ)
    → (dest ≤ src) ⊎ (src + n ≤ dest)
    → memcpy dest src n m a ≡ copied dest src n m a
unfolding memcpy
memcpy-copied dest src n m a h = ground (arith, copy_up_lem n 0 dest src m a)

-- `memset` writes the low byte of its argument to the range and changes no other byte.
pub memset-filled :
    (s c n : ℕ) (m : Mem) (a : ℕ) → memset s c n m a ≡ (if in_range s n a then c % 256 else m a)
unfolding memset
memset-filled s c n m a = ground (arith, fill_up_lem n 0 s (c % 256) m a)
