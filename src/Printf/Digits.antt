-- ===== src/Printf/Digits.antt =====
-- The digits of a printed number stand for the number, and fit the buffer.
use nans_os.Base.{
  ℕ, zero, suc, ◌+◌, ◌-◌, ◌*◌, ◌/◌, ◌%◌, ◌^◌, ◌≤◌, ◌<◌, ◌≡◌, ◌⊎◌, refl, sym, ap, ◌∙◌, arith, Bool,
  true, false, ◌&&◌, ◌||◌, ◌++◌, append_assoc, append-nil, Option, some, List, [], ◌∷◌, leb, ◌==◌,
  if◌then◌else◌, length, get_or, replicate, passes, passes-at, length-append, Bool-cases, inl, inr,
}
use native.Mathlib.Nat.{pow-suc}
use mathlib.Core.Path.{subst}
use nans_os.Printf.{digit_chars, digit_loop, padded, backwards, print_num}

-- The number that a digit stands for, and a list of them with the last digit first.
abbrev pub digit_value : ℕ → ℕ
digit_value c = if leb b'A' c then c - b'A' + 10 else c - b'0'

abbrev pub value : ℕ → List ℕ → ℕ
value base [] = 0
value base (c ∷ cs) = digit_value c + base * value base cs

value_in_table : ℕ → Bool
value_in_table d = digit_value (get_or digit_chars d 0) == d

value_table : passes 16 value_in_table ≡ true
unfolding passes value_in_table
value_table = refl

digit_value-char : (d : ℕ) → d < 16 → digit_value (get_or digit_chars d 0) ≡ d
unfolding value_in_table
digit_value-char d h = ground (arith, passes-at 16 value_in_table d value_table h)

-- Digits alone, of those that the table has.
abbrev is_digit : ℕ → Bool
is_digit c = (leb b'0' c && leb c b'9') || (leb b'A' c && leb c b'F')

abbrev pub all_digits : List ℕ → Bool
all_digits [] = true
all_digits (c ∷ cs) = is_digit c && all_digits cs

digit_in_table : ℕ → Bool
digit_in_table d = is_digit (get_or digit_chars d 0)

digit_table : passes 16 digit_in_table ≡ true
unfolding passes digit_in_table
digit_table = refl

is_digit-char : (d : ℕ) → d < 16 → is_digit (get_or digit_chars d 0) ≡ true
unfolding digit_in_table
is_digit-char d h = passes-at 16 digit_in_table d digit_table h

-- The digits of a number below a power of two.
abbrev Digits : ℕ → ℕ → ℕ → Option (List ℕ) → Type 0
Digits base num f out =
    (cs : List ℕ) × (out ≡ some cs)
    × (value base cs ≡ num)
    × (length cs ≤ suc f)
    × (all_digits cs ≡ true)

last-Digits :
    (base f num : ℕ)
    → (num / base == 0) ≡ true
    → num % base < 16
    → num % base ≡ num
    → Digits base num f (digit_loop (suc f) base num)
unfolding digit_loop
last-Digits base f num e small same =
    let c : ℕ = get_or digit_chars (num % base) 0 in
    rw (e, digit_loop)
      (
        c ∷ [],
        refl,
        value_one c base ∙ digit_value-char (num % base) small ∙ same,
        omega arith,
        rw (is_digit-char (num % base) small) refl,
      )
  where
    value_one : (c b : ℕ) → value b (c ∷ []) ≡ digit_value c
    value_one c b = ground arith

next-Digits :
    (base f num : ℕ)
    → (num / base == 0) ≡ false
    → num % base < 16
    → num % base + base * (num / base) ≡ num
    → Digits base (num / base) f (digit_loop (suc f) base (num / base))
    → Digits base num (suc f) (digit_loop (suc (suc f)) base num)
unfolding digit_loop
next-Digits base f num e small whole (cs, q, v, l, a) =
    let c : ℕ = get_or digit_chars (num % base) 0 in
    (
      c ∷ cs,
      rw (e, digit_loop) (rw (q, digit_loop) refl),
      ap (λ (n : ℕ). digit_value c + base * n) v
          ∙ ap (λ (n : ℕ). n + base * (num / base)) (digit_value-char (num % base) small)
          ∙ whole,
      omega (arith, l),
      rw (is_digit-char (num % base) small) a,
    )

ten-Digits : (f num : ℕ) → num < 2 ^ suc f → Digits 10 num f (digit_loop (suc f) 10 num)
unfolding digit_loop
ten-Digits zero num h = last-Digits 10 zero num (ground arith) (omega arith) (omega arith)
ten-Digits (suc f) num h = elim (Bool-cases (num / 10 == 0)) [
  | inl e ↦ last-Digits 10 (suc f) num e (omega arith) (ground arith)
  | inr e ↦
      next-Digits 10 f num e (omega arith) (omega arith)
        (ten-Digits f (num / 10) (omega (arith, pow-suc 2 (suc f))))
]

sixteen-Digits : (f num : ℕ) → num < 2 ^ suc f → Digits 16 num f (digit_loop (suc f) 16 num)
unfolding digit_loop
sixteen-Digits zero num h = last-Digits 16 zero num (ground arith) (omega arith) (omega arith)
sixteen-Digits (suc f) num h = elim (Bool-cases (num / 16 == 0)) [
  | inl e ↦ last-Digits 16 (suc f) num e (omega arith) (ground arith)
  | inr e ↦
      next-Digits 16 f num e (omega arith) (omega arith)
        (sixteen-Digits f (num / 16) (omega (arith, pow-suc 2 (suc f))))
]

-- A base of the conversions.
abbrev pub IsBase : ℕ → Type 0
IsBase base = (base ≡ 10) ⊎ (base ≡ 16)

base-Digits :
    (base num : ℕ) → IsBase base → num < 2 ^ 64 → Digits base num 64 (digit_loop 65 base num)
base-Digits base num (inl e) h =
    subst (λ (b : ℕ). Digits b num 64 (digit_loop 65 b num)) (sym e)
      (ten-Digits 64 num (omega arith))
base-Digits base num (inr e) h =
    subst (λ (b : ℕ). Digits b num 64 (digit_loop 65 b num)) (sym e)
      (sixteen-Digits 64 num (omega arith))

pub length-backwards : (cs : List ℕ) → length (backwards cs) ≡ length cs
unfolding backwards
length-backwards [] = refl
length-backwards (c ∷ cs) =
    omega (arith, length-append (backwards cs) (c ∷ []), length-backwards cs)

-- The number that digits stand for as they are read, from the left, behind the number `n`.
abbrev pub reading : ℕ → ℕ → List ℕ → ℕ
reading base n [] = n
reading base n (c ∷ cs) = reading base (digit_value c + base * n) cs

reading-last :
    (base n c : ℕ) (cs : List ℕ)
    → reading base n (cs ++ (c ∷ [])) ≡ digit_value c + base * reading base n cs
reading-last base n c [] = refl
reading-last base n c (d ∷ cs) = reading-last base (digit_value d + base * n) c cs

reading-backwards : (base : ℕ) (cs : List ℕ) → reading base 0 (backwards cs) ≡ value base cs
unfolding backwards
reading-backwards base [] = refl
reading-backwards base (c ∷ cs) =
    reading-last base 0 c (backwards cs)
    ∙ ap (λ (n : ℕ). digit_value c + base * n) (reading-backwards base cs)

all_digits-last :
    (c : ℕ) (cs : List ℕ) → all_digits (cs ++ (c ∷ [])) ≡ (all_digits cs && is_digit c)
all_digits-last c [] = ground arith
all_digits-last c (d ∷ cs) = ground (arith, all_digits-last c cs)

all_digits-backwards : (cs : List ℕ) → all_digits (backwards cs) ≡ all_digits cs
unfolding backwards
all_digits-backwards [] = refl
all_digits-backwards (c ∷ cs) =
    ground (arith, all_digits-last c (backwards cs), all_digits-backwards cs)

replicate-last : (n c : ℕ) → replicate n c ++ (c ∷ []) ≡ c ∷ replicate n c
replicate-last zero c = refl
replicate-last (suc n) c = ap (λ (r : List ℕ). c ∷ r) (replicate-last n c)

backwards-replicate : (n c : ℕ) → backwards (replicate n c) ≡ replicate n c
unfolding backwards
backwards-replicate zero c = refl
backwards-replicate (suc n) c =
    ap (λ (r : List ℕ). r ++ (c ∷ [])) (backwards-replicate n c) ∙ replicate-last n c

backwards-append : (xs ys : List ℕ) → backwards (xs ++ ys) ≡ backwards ys ++ backwards xs
unfolding backwards
backwards-append [] ys = sym (append-nil (backwards ys))
backwards-append (x ∷ xs) ys =
    ap (λ (r : List ℕ). r ++ (x ∷ [])) (backwards-append xs ys)
    ∙ append_assoc (backwards ys) (backwards xs) (x ∷ [])

pub print_num-value :
    (num base width pad : ℕ)
    → IsBase base
    → num < 2 ^ 64
    → width < 10
    → (ds : List ℕ) × (print_num num base width pad
        ≡ some (replicate (width - length ds) pad ++ ds))
      × (reading base 0 ds ≡ num)
      × (all_digits ds ≡ true)
      × (length ds + (width - length ds) ≤ 65)
unfolding print_num
print_num-value num base width pad b h w =
    let (cs, e, v, l, a) = base-Digits base num b h in
    let n : length (backwards cs) ≡ length cs = length-backwards cs in
    let shown : backwards (padded width pad cs)
        ≡ replicate (width - length (backwards cs)) pad ++ backwards cs =
      backwards-append cs (replicate (width - length cs) pad)
      ∙ ap (λ (r : List ℕ). r ++ backwards cs) (backwards-replicate (width - length cs) pad)
      ∙ ap (λ (k : ℕ). replicate (width - k) pad ++ backwards cs) (sym n) in
    (
      backwards cs,
      rw (e, print_num) (ap some shown),
      reading-backwards base cs ∙ v,
      all_digits-backwards cs ∙ a,
      omega (arith, n, l),
    )
