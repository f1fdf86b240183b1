-- ===== src/Cstring.antt =====
-- The functions of src/impl/kernel/string.c over a byte-addressed memory.
pub mod Copy
pub mod Measure
pub mod Build
mod Tests
use nans_os.Base.{
  ℕ, zero, suc, ◌+◌, ◌-◌, ◌%◌, Bool, true, false, ◌&&◌, ◌||◌, not, Option, none, some, ltb, ◌==◌,
  if◌then◌else◌,
}
use nans_os.Base.Int.{ℤ, pos, sub_ℕ}

-- A byte for every address; a byte is a number below 256.
abbrev pub Mem : Type 0
Mem = ℕ → ℕ

abbrev pub store : Mem → ℕ → ℕ → Mem
store m a v b = if b == a then v else m b

-- `for (i = 0; i < n; i++) d[i] = s[i]`, with `k` rounds left at index `i`.
unfoldable pub copy_up : ℕ → ℕ → ℕ → ℕ → Mem → Mem
copy_up zero i d s m = m
copy_up (suc k) i d s m = copy_up k (i + 1) d s (store m (d + i) (m (s + i)))

-- `for (i = n; i > 0; i--) d[i-1] = s[i-1]`
unfoldable pub copy_down : ℕ → ℕ → ℕ → Mem → Mem
copy_down zero d s m = m
copy_down (suc i) d s m = copy_down i d s (store m (d + i) (m (s + i)))

unfoldable pub fill_up : ℕ → ℕ → ℕ → ℕ → Mem → Mem
fill_up zero i p v m = m
fill_up (suc k) i p v m = fill_up k (i + 1) p v (store m (p + i) v)

unfoldable pub memcpy : ℕ → ℕ → ℕ → Mem → Mem
memcpy dest src n m = copy_up n 0 dest src m

unfoldable pub memset : ℕ → ℕ → ℕ → Mem → Mem
memset s c n m = fill_up n 0 s (c % 256) m

unfoldable pub memmove : ℕ → ℕ → ℕ → Mem → Mem
memmove dest src n m = if ltb dest src then copy_up n 0 dest src m else copy_down n dest src m

-- The difference of the first bytes that differ, 0 if none does.
unfoldable pub memcmp_loop : ℕ → ℕ → ℕ → ℕ → Mem → ℤ
memcmp_loop zero i p q m = pos 0
memcmp_loop (suc k) i p q m =
    let rest = memcmp_loop k (i + 1) p q m in
    if m (p + i) == m (q + i) then rest else sub_ℕ (m (p + i)) (m (q + i))

unfoldable pub memcmp : ℕ → ℕ → ℕ → Mem → ℤ
memcmp s1 s2 n m = memcmp_loop n 0 s1 s2 m

-- The loops that end at a terminator take fuel; `none` means that it ran out.
unfoldable pub strlen_loop : ℕ → ℕ → ℕ → Mem → Option ℕ
strlen_loop zero len s m = none
strlen_loop (suc f) len s m =
    let rest = strlen_loop f (len + 1) s m in if m (s + len) == 0 then some len else rest

unfoldable pub strlen : ℕ → ℕ → Mem → Option ℕ
strlen fuel s m = strlen_loop fuel 0 s m

unfoldable pub strcpy_loop : ℕ → ℕ → ℕ → ℕ → Mem → Option Mem
strcpy_loop zero i dest src m = none
strcpy_loop (suc f) i dest src m =
    let m' = store m (dest + i) (m (src + i)) in
    let rest = strcpy_loop f (i + 1) dest src m' in if m (src + i) == 0 then some m' else rest

unfoldable pub strcpy : ℕ → ℕ → ℕ → Mem → Option Mem
strcpy fuel dest src m = strcpy_loop fuel 0 dest src m

-- The first loop of `strncpy`, with `k` rounds left; at the terminator the second loop pads.
unfoldable pub strncpy_loop : ℕ → ℕ → ℕ → ℕ → Mem → Mem
strncpy_loop zero i dest src m = m
strncpy_loop (suc k) i dest src m =
    let rest = strncpy_loop k (i + 1) dest src (store m (dest + i) (m (src + i))) in
    if m (src + i) == 0 then fill_up (suc k) i dest 0 m else rest

unfoldable pub strncpy : ℕ → ℕ → ℕ → Mem → Mem
strncpy dest src n m = strncpy_loop n 0 dest src m

-- `strcat` walks two pointers, from the terminator of `dest` and from `src`.
unfoldable pub strcat_loop : ℕ → ℕ → ℕ → Mem → Option Mem
strcat_loop zero ptr src m = none
strcat_loop (suc f) ptr src m =
    let rest = strcat_loop f (ptr + 1) (src + 1) (store m ptr (m src)) in
    if m src == 0 then some (store m ptr 0) else rest

unfoldable pub strcat : ℕ → ℕ → ℕ → Mem → Option Mem
strcat fuel dest src m = elim (strlen fuel dest m) [
  | none ↦ none
  | some n ↦ strcat_loop fuel (dest + n) src m
]

unfoldable pub strncat_loop : ℕ → ℕ → ℕ → ℕ → Mem → Mem
strncat_loop zero i end src m = store m (end + i) 0
strncat_loop (suc k) i end src m =
    let rest = strncat_loop k (i + 1) end src (store m (end + i) (m (src + i))) in
    if m (src + i) == 0 then store m (end + i) 0 else rest

unfoldable pub strncat : ℕ → ℕ → ℕ → ℕ → Mem → Option Mem
strncat fuel dest src n m = elim (strlen fuel dest m) [
  | none ↦ none
  | some len ↦ some (strncat_loop n 0 (dest + len) src m)
]

unfoldable pub strcmp : ℕ → ℕ → ℕ → Mem → Option ℤ
strcmp zero s1 s2 m = none
strcmp (suc f) s1 s2 m =
    let rest = strcmp f (s1 + 1) (s2 + 1) m in
    if not (m s1 == 0) && m s1 == m s2 then rest else some (sub_ℕ (m s1) (m s2))

-- `n` counts down, so it is the fuel.
unfoldable pub strncmp : ℕ → ℕ → ℕ → Mem → ℤ
strncmp zero s1 s2 m = pos 0
strncmp (suc n) s1 s2 m =
    let rest = strncmp n (s1 + 1) (s2 + 1) m in
    if not (m s1 == 0) && m s1 == m s2 then rest else sub_ℕ (m s1) (m s2)

-- The outer option is the fuel, the inner one a null result.
unfoldable pub strchr : ℕ → ℕ → ℕ → Mem → Option (Option ℕ)
strchr zero s c m = none
strchr (suc f) s c m =
    let rest = strchr f (s + 1) c m in
    if m s == c % 256 then some (some s) else if m s == 0 then some none else rest

unfoldable pub strrchr_loop : ℕ → ℕ → ℕ → Option ℕ → Mem → Option (Option ℕ)
strrchr_loop zero s c found m = none
strrchr_loop (suc f) s c found m =
    let rest = strrchr_loop f (s + 1) c (if m s == c % 256 then some s else found) m in
    if m s == 0 then some (if c == 0 then some s else found) else rest

unfoldable pub strrchr : ℕ → ℕ → ℕ → Mem → Option (Option ℕ)
strrchr fuel s c m = strrchr_loop fuel s c none m
