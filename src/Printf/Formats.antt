-- ===== src/Printf/Formats.antt =====
-- Formats of texts and numbers.
use nans_os.Base.{
  ℕ, suc, ◌+◌, ◌-◌, ◌≤◌, ◌<◌, ◌≡◌, ◌^◌, refl, ap, ◌∙◌, arith, Bool, false, ◌||◌, some, List, [],
  ◌∷◌, ◌++◌, append-nil, length, length-append, replicate, ◌==◌, inl,
}
use nans_os.Printf.{
  print_num, Arg, word, int_to_u64, print_word, specifier, conversion, vsprintf_loop, vsprintf,
}
use nans_os.Printf.Digits.{reading, print_num-value}

abbrev pub has_percent : List ℕ → Bool
has_percent [] = false
has_percent (c ∷ cs) = c == b'%' || has_percent cs

-- Fuel for each byte of a text, and then some.
abbrev more : List ℕ → ℕ → ℕ
more [] f = f
more (c ∷ cs) f = suc (more cs f)

more-length : (cs : List ℕ) (f : ℕ) → more cs f ≡ length cs + f
more-length [] f = omega arith
more-length (c ∷ cs) f = omega (arith, more-length cs f)

vsprintf_loop-text :
    (text format out : List ℕ) (args : List Arg) (f : ℕ)
    → has_percent text ≡ false
    → vsprintf_loop f format args ≡ some out
    → vsprintf_loop (more text f) (text ++ format) args ≡ some (text ++ out)
unfolding vsprintf_loop
vsprintf_loop-text [] format out args f h e = e
vsprintf_loop-text (c ∷ cs) format out args f h e =
    let rest : vsprintf_loop (more cs f) (cs ++ format) args ≡ some (cs ++ out) =
      vsprintf_loop-text cs format out args f (ground arith) e in
    let p : (c == b'%') ≡ false = ground arith in
    rw (p, vsprintf_loop) (rw (rest, vsprintf_loop) refl)

decimal_end : List ℕ
decimal_end = b'%' ∷ b'd' ∷ []

loop-decimal :
    (w : ℕ) (cs : List ℕ)
    → print_num (int_to_u64 w) 10 0 b' ' ≡ some cs
    → vsprintf_loop 3 decimal_end (word w ∷ []) ≡ some cs
unfolding vsprintf_loop conversion specifier print_word decimal_end
loop-decimal w cs e = rw (e, vsprintf_loop) (ap some (append-nil cs))

no_padding : (ds : List ℕ) → replicate (0 - length ds) b' ' ++ ds ≡ ds
no_padding ds = let e : 0 - length ds ≡ 0 = omega arith in ap (λ (n : ℕ). replicate n b' ' ++ ds) e

extended_small : (w : ℕ) → w < 2 ^ 31 → int_to_u64 w ≡ w
extended_small w h = ground arith

-- A text without percent signs, followed by %d, is written as the text and at most 65 decimal
-- digits of the argument, for every `int` that is not negative.
pub text-decimal :
    (text : List ℕ) (w : ℕ)
    → has_percent text ≡ false
    → w < 2 ^ 31
    → (cs : List ℕ) × (vsprintf (text ++ (b'%' ∷ b'd' ∷ [])) (word w ∷ []) ≡ some (text ++ cs))
      × (reading 10 0 cs ≡ w)
      × (length cs ≤ 65)
unfolding vsprintf decimal_end
text-decimal text w h small =
    let (cs, e, v, a, l) = print_num-value w 10 0 b' ' (inl refl) (omega arith) (omega arith) in
    let printed : print_num (int_to_u64 w) 10 0 b' ' ≡ some cs =
      ap (λ (n : ℕ). print_num n 10 0 b' ') (extended_small w small)
      ∙ e
      ∙ ap some (no_padding cs) in
    let fuel : suc (length (text ++ decimal_end)) ≡ more text 3 =
      omega (arith, more-length text 3, length-append text decimal_end) in
    (
      cs,
      ap (λ (f : ℕ). vsprintf_loop f (text ++ decimal_end) (word w ∷ [])) fuel
          ∙ vsprintf_loop-text text decimal_end cs (word w ∷ []) 3 h (loop-decimal w cs printed),
      v,
      omega (arith, l),
    )
