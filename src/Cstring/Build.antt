-- ===== src/Cstring/Build.antt =====
-- The functions of string.c that write strings: `strcpy`, `strncpy`, `strcat` and `strncat`.
use nans_os.Base.{
  ℕ, zero, suc, ◌+◌, ◌-◌, ◌≤◌, ◌<◌, ◌≡◌, ◌⊎◌, arith, some, ltb, ◌==◌, if◌then◌else◌, Bool-cases,
  inl, inr, true, false, min,
}
use nans_os.Cstring.{
  Mem, store, strcpy_loop, strcpy, strncpy_loop, strncpy, strcat_loop, strcat, strncat_loop,
  strncat,
}
use nans_os.Cstring.Copy.{in_range, copied, fill_up_lem}
use nans_os.Cstring.Measure.{IsString, strlen-IsString, IsString-head, IsString-tail, IsString-end}

-- Two ranges of bytes that do not overlap.
abbrev pub Apart : ℕ → ℕ → ℕ → ℕ → Type 0
Apart p a q b = (p + a ≤ q) ⊎ (q + b ≤ p)

-- A write outside a string leaves it a string.
pub IsString-store :
    (m : Mem) (s n a v : ℕ) → IsString m s n → (a < s) ⊎ (s + n < a) → IsString (store m a v) s n
IsString-store m s n a v is h = record {
  body = λ i lt. ground (arith, is.body i lt);
  ends = ground (arith, is.ends);
}

at_end : (m : Mem) (s n i : ℕ) → IsString m s n → i ≤ n → (m (s + i) == 0) ≡ true → i ≡ n
at_end m s n i is le e = ground (arith, is.body i)

before_end : (m : Mem) (s n i : ℕ) → IsString m s n → i ≤ n → (m (s + i) == 0) ≡ false → i < n
before_end m s n i is le e = ground (arith, is.ends)

strcpy_loop_lem :
    (f i d s n : ℕ) (m : Mem)
    → IsString m s n
    → Apart d (n + 1) s (n + 1)
    → i ≤ n
    → n < f + i
    → (m' : Mem) × (strcpy_loop f i d s m ≡ some m')
      × ((a : ℕ) → m' a ≡ (if in_range (d + i) (n + 1 - i) a then m (s + (a - d)) else m a))
unfolding strcpy_loop
strcpy_loop_lem zero i d s n m is apart le h = absurd (omega arith)
strcpy_loop_lem (suc f) i d s n m is apart le h = elim (Bool-cases (m (s + i) == 0)) [
  | inl e ↦ (store m (d + i) (m (s + i)), rw e, λ a. ground (arith, at_end m s n i is le e))
  | inr e ↦
      let m1 : Mem = store m (d + i) (m (s + i)) in
      let lt : i < n = before_end m s n i is le e in
      let (m', q, at) =
        strcpy_loop_lem f (i + 1) d s n m1
          (IsString-store m s n (d + i) (m (s + i)) is (omega arith)) apart (omega arith)
          (omega arith) in
      (m', rw e q, λ a. ground (arith, at a))
]

-- `strcpy` of a string to a place apart returns, having copied it with its terminator and nothing else.
pub strcpy-copied :
    (fuel dest src n : ℕ) (m : Mem)
    → IsString m src n
    → Apart dest (n + 1) src (n + 1)
    → n < fuel
    → (m' : Mem) × (strcpy fuel dest src m ≡ some m')
      × ((a : ℕ) → m' a ≡ copied dest src (n + 1) m a)
unfolding strcpy
strcpy-copied fuel dest src n m is apart h =
    let (m', e, q) = strcpy_loop_lem fuel 0 dest src n m is apart (omega arith) (omega arith) in
    (m', e, λ a. ground (arith, q a))

strncpy_loop_lem :
    (k i d s n : ℕ) (m : Mem) (a : ℕ)
    → IsString m s n
    → Apart d (k + i) s (n + 1)
    → i ≤ n
    → strncpy_loop k i d s m a
      ≡ (if in_range (d + i) k a then (if ltb (a - d) n then m (s + (a - d)) else 0) else m a)
unfolding strncpy_loop
strncpy_loop_lem zero i d s n m a is apart le = ground arith
strncpy_loop_lem (suc k) i d s n m a is apart le = elim (Bool-cases (m (s + i) == 0)) [
  | inl e ↦ rw e (ground (arith, at_end m s n i is le e, fill_up_lem (suc k) i d 0 m a))
  | inr e ↦
      let lt : i < n = before_end m s n i is le e in
      rw e (
        ground (
          arith,
          strncpy_loop_lem k (i + 1) d s n (store m (d + i) (m (s + i))) a
              (IsString-store m s n (d + i) (m (s + i)) is (omega arith)) (omega arith)
              (omega arith),
        ))
]

-- `strncpy` of a string to a place apart writes exactly `n` bytes: the bytes of the source before
-- its terminator, as many as fit, and zeros after them.
pub strncpy-padded :
    (dest src len n : ℕ) (m : Mem) (a : ℕ)
    → IsString m src len
    → Apart dest n src (len + 1)
    → strncpy dest src n m a ≡ (
        if in_range dest n a then (if ltb (a - dest) len then m (src + (a - dest)) else 0) else m a)
unfolding strncpy
strncpy-padded dest src len n m a is apart =
    ground (arith, strncpy_loop_lem n 0 dest src len m a is)

strcat_loop_lem :
    (f p s n : ℕ) (m : Mem)
    → IsString m s n
    → Apart p (n + 1) s (n + 1)
    → n < f
    → (m' : Mem) × (strcat_loop f p s m ≡ some m') × ((a : ℕ) → m' a ≡ copied p s (n + 1) m a)
unfolding strcat_loop
strcat_loop_lem zero p s n m is apart h = absurd (omega arith)
strcat_loop_lem (suc f) p s zero m is apart h =
    (store m p 0, ground (arith, IsString-end m s is), λ a. ground (arith, IsString-end m s is))
strcat_loop_lem (suc f) p s (suc n) m is apart h =
    let m1 : Mem = store m p (m s) in
    let tail : IsString m1 (s + 1) n =
      IsString-store m (s + 1) n p (m s) (IsString-tail m s n is) (omega arith) in
    let (m', q, at) = strcat_loop_lem f (p + 1) (s + 1) n m1 tail (omega arith) (omega arith) in
    (m', ground (arith, IsString-head m s n is), λ a. ground (arith, at a))

-- With fuel beyond their lengths, `strcat` of two strings, with room for the result apart from the
-- source, returns, having copied the source with its terminator over the terminator of `dest` and
-- changed no other byte.
pub strcat-copied :
    (fuel dest src len n : ℕ) (m : Mem)
    → IsString m dest len
    → IsString m src n
    → Apart dest (len + (n + 1)) src (n + 1)
    → len < fuel
    → n < fuel
    → (m' : Mem) × (strcat fuel dest src m ≡ some m')
      × ((a : ℕ) → m' a ≡ copied (dest + len) src (n + 1) m a)
unfolding strcat
strcat-copied fuel dest src len n m id is apart h k =
    rw (strlen-IsString fuel dest len m id h, strcat)
      (strcat_loop_lem fuel (dest + len) src n m is (omega arith) k)

-- What the loop of `strncat` leaves: `c` bytes of the source from index `i` on, then a zero.
abbrev pub joined : ℕ → ℕ → ℕ → ℕ → Mem → Mem
joined i c end src m a =
    if in_range (end + i) c a then m (src + (a - end)) else if a == end + i + c then 0 else m a

strncat_loop_lem :
    (k i e s n : ℕ) (m : Mem) (a : ℕ)
    → IsString m s n
    → Apart e (n + 1) s (n + 1)
    → i ≤ n
    → strncat_loop k i e s m a ≡ joined i (min k (n - i)) e s m a
unfolding strncat_loop
strncat_loop_lem zero i e s n m a is apart le = ground arith
strncat_loop_lem (suc k) i e s n m a is apart le = elim (Bool-cases (m (s + i) == 0)) [
  | inl z ↦ rw z (ground (arith, at_end m s n i is le z))
  | inr z ↦
      let lt : i < n = before_end m s n i is le z in
      rw z (
        ground (
          arith,
          strncat_loop_lem k (i + 1) e s n (store m (e + i) (m (s + i))) a
              (IsString-store m s n (e + i) (m (s + i)) is (omega arith)) apart (omega arith),
        ))
]

-- With fuel beyond the length of `dest`, `strncat` of two strings, with room for the whole source
-- apart from it, appends the first `n` bytes of the source, or all of them if there are fewer, and
-- a terminator, and changes no other byte.
pub strncat-joined :
    (fuel dest src len k n : ℕ) (m : Mem)
    → IsString m dest len
    → IsString m src k
    → Apart dest (len + (k + 1)) src (k + 1)
    → len < fuel
    → (m' : Mem) × (strncat fuel dest src n m ≡ some m')
      × ((a : ℕ) → m' a ≡ joined 0 (min n k) (dest + len) src m a)
unfolding strncat
strncat-joined fuel dest src len k n m id is apart h = (
  strncat_loop n 0 (dest + len) src m,
  rw (strlen-IsString fuel dest len m id h, strncat),
  λ a. ground (arith, strncat_loop_lem n 0 (dest + len) src k m a is),
)
