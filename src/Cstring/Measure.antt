-- ===== src/Cstring/Measure.antt =====
-- Strings in memory: `strlen`, `strcmp` and `strncmp` of string.c.
use nans_os.Base.{
  ℕ, zero, suc, ◌+◌, ◌≤◌, ◌<◌, ◌≡◌, ◌≢◌, ◌↔◌, inl, inr, ap, ◌∙◌, arith, true, false, some, ◌==◌,
  Bool-cases,
}
use nans_os.Base.Int.{ℤ, pos, sub_ℕ, sub_ℕ-zero_iff}
use nans_os.Cstring.{Mem, strlen_loop, strlen, strcmp}

-- A string of length `n` at `s`: the first zero byte is at `s + n`.
pub record IsString (m : Mem) (s n : ℕ) : Type 0 where
  pub body : (i : ℕ) → i < n → m (s + i) ≢ 0
  pub ends : m (s + n) ≡ 0

strlen_loop_lem :
    (f len s n : ℕ) (m : Mem)
    → IsString m s n
    → len ≤ n
    → n < f + len
    → strlen_loop f len s m ≡ some n
unfolding strlen_loop
strlen_loop_lem zero len s n m is le h = absurd (omega arith)
strlen_loop_lem (suc f) len s n m is le h =
    ground (arith, is.body len, is.ends, strlen_loop_lem f (len + 1) s n m is)

-- With fuel beyond its length, `strlen` of a terminated string ends at the terminator and returns
-- the number of bytes before it.
pub strlen-IsString :
    (fuel s n : ℕ) (m : Mem) → IsString m s n → n < fuel → strlen fuel s m ≡ some n
unfolding strlen
strlen-IsString fuel s n m is h = strlen_loop_lem fuel 0 s n m is (omega arith) (omega arith)

pub IsString-head : (m : Mem) (s n : ℕ) → IsString m s (suc n) → m s ≢ 0
IsString-head m s n is e = is.body 0 (omega arith) (ap m (omega arith) ∙ e)

pub IsString-tail : (m : Mem) (s n : ℕ) → IsString m s (suc n) → IsString m (s + 1) n
IsString-tail m s n is = record {
  body = λ i h e. is.body (suc i) (omega arith) (ap m (omega arith) ∙ e);
  ends = ap m (omega arith) ∙ is.ends;
}

pub IsString-end : (m : Mem) (s : ℕ) → IsString m s 0 → m s ≡ 0
IsString-end m s is = ap m (omega arith) ∙ is.ends

-- The first `n` bytes agree.
pub Agree : Mem → ℕ → ℕ → ℕ → Type 0
Agree m p q n = (i : ℕ) → i < n → m (p + i) ≡ m (q + i)

Agree-cons : (m : Mem) (p q n : ℕ) → m p ≡ m q → Agree m (p + 1) (q + 1) n → Agree m p q (suc n)
unfolding Agree
Agree-cons m p q n e h zero lt = ap m (omega arith) ∙ e ∙ ap m (omega arith)
Agree-cons m p q n e h (suc i) lt = ap m (omega arith) ∙ h i (omega arith) ∙ ap m (omega arith)

Agree-head : (m : Mem) (p q n : ℕ) → Agree m p q (suc n) → m p ≡ m q
unfolding Agree
Agree-head m p q n h = ap m (omega arith) ∙ h 0 (omega arith) ∙ ap m (omega arith)

Agree-tail : (m : Mem) (p q n : ℕ) → Agree m p q (suc n) → Agree m (p + 1) (q + 1) n
unfolding Agree
Agree-tail m p q n h i lt = ap m (omega arith) ∙ h (suc i) (omega arith) ∙ ap m (omega arith)

abbrev Decides : ℕ → ℕ → ℕ → ℕ → Mem → Type 0
Decides f s1 s2 k m = (r : ℤ) × (strcmp f s1 s2 m ≡ some r) × ((r ≡ pos 0) ↔ Agree m s1 s2 k)

strcmp-end : (f s1 s2 : ℕ) (m : Mem) → m s1 ≡ 0 → Decides (suc f) s1 s2 1 m
unfolding strcmp
strcmp-end f s1 s2 m e = (
  sub_ℕ (m s1) (m s2),
  ground arith,
  (
    λ z.
        Agree-cons m s1 s2 0 ((sub_ℕ-zero_iff (m s1) (m s2)).0 z)
          (unfold Agree in λ i lt. absurd (omega arith)),
    λ a. (sub_ℕ-zero_iff (m s1) (m s2)).1 (Agree-head m s1 s2 0 a),
  ),
)

strcmp-differ : (f s1 s2 k : ℕ) (m : Mem) → (m s1 == m s2) ≡ false → Decides (suc f) s1 s2 (suc k) m
unfolding strcmp
strcmp-differ f s1 s2 k m e = (
  sub_ℕ (m s1) (m s2),
  ground arith,
  (
    λ z. absurd (ground (arith, (sub_ℕ-zero_iff (m s1) (m s2)).0 z)),
    λ a. absurd (ground (arith, Agree-head m s1 s2 k a)),
  ),
)

strcmp-next :
    (f s1 s2 k : ℕ) (m : Mem)
    → m s1 ≢ 0
    → (m s1 == m s2) ≡ true
    → Decides f (s1 + 1) (s2 + 1) k m
    → Decides (suc f) s1 s2 (suc k) m
unfolding strcmp
strcmp-next f s1 s2 k m ne e (r, q, d) = (
  r,
  ground arith,
  (λ z. Agree-cons m s1 s2 k (ground arith) (d.0 z), λ a. d.1 (Agree-tail m s1 s2 k a)),
)

-- On a terminated first string and with fuel beyond its length, `strcmp` returns, and it returns 0
-- exactly if the second has the same bytes up to and including the terminator.
pub strcmp-Agree :
    (fuel s1 s2 n : ℕ) (m : Mem)
    → IsString m s1 n
    → n < fuel
    → (r : ℤ) × (strcmp fuel s1 s2 m ≡ some r) × ((r ≡ pos 0) ↔ Agree m s1 s2 (suc n))
strcmp-Agree zero s1 s2 n m is h = absurd (omega arith)
strcmp-Agree (suc f) s1 s2 zero m is h = strcmp-end f s1 s2 m (IsString-end m s1 is)
strcmp-Agree (suc f) s1 s2 (suc n) m is h =
    let rest = strcmp-Agree f (s1 + 1) (s2 + 1) n m (IsString-tail m s1 n is) (omega arith) in
    elim (Bool-cases (m s1 == m s2)) [
      | inl e ↦ strcmp-next f s1 s2 (suc n) m (IsString-head m s1 n is) e rest
      | inr e ↦ strcmp-differ f s1 s2 (suc n) m e
    ]
