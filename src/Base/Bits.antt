-- ===== src/Base/Bits.antt =====
-- Facts about bits: a test that passes at every number below a bound is checked by running it, and
-- the laws of `|` that follow from its digits.
use Prim.Native.Nat.{
  ℕ, zero, suc, ◌+◌, ◌*◌, ◌/◌, ◌%◌, ◌^◌, ◌≤◌, ◌<◌, max, digits, bit_or, bit_or-bitwise,
}
use mathlib.Core.Path.{◌≡◌, refl, ap}
use native.Mathlib.Nat.{pow-suc}
use mathlib.Core.Bool.{Bool, true, false}
use native.Mathlib.Omega.{arith}
use nans_os.Base.Tests.{if◌then◌else◌}

unfoldable pub passes : ℕ → (ℕ → Bool) → Bool
passes zero test = true
passes (suc bound) test = let smaller = passes bound test in if test bound then smaller else false

pub passes-at :
    (bound : ℕ) (test : ℕ → Bool) (byte : ℕ)
    → passes bound test ≡ true
    → byte < bound
    → test byte ≡ true
unfolding passes
passes-at zero test byte run below = absurd (omega arith)
passes-at (suc bound) test byte run below = ground (arith, passes-at bound test byte)

-- The digits of `a | b`, with enough rounds for those of `a`, do not depend on their number.
or_rounds :
    (rounds rounds' a b : ℕ)
    → a ≤ rounds
    → a ≤ rounds'
    → digits (λ d. d) max rounds a b ≡ digits (λ d. d) max rounds' a b
or_rounds zero zero a b h h' = refl
or_rounds zero (suc r) zero b h h' = refl
or_rounds zero (suc r) (suc a) b h h' = absurd (omega arith)
or_rounds (suc r) zero zero b h h' = refl
or_rounds (suc r) zero (suc a) b h h' = absurd (omega arith)
or_rounds (suc r) (suc r') zero b h h' = refl
or_rounds (suc r) (suc r') (suc a) b h h' =
    omega (arith, or_rounds r r' (suc a / 2) (b / 2) (omega arith) (omega arith))

pub or-halves : (a b : ℕ) → bit_or a b ≡ 2 * bit_or (a / 2) (b / 2) + max (a % 2) (b % 2)
or-halves zero b = omega (arith, bit_or-bitwise 0 b, bit_or-bitwise 0 (b / 2))
or-halves (suc a) b = omega (
  arith,
  or_rounds a (suc a / 2) (suc a / 2) (b / 2) (omega arith) (omega arith),
  bit_or-bitwise (suc a / 2) (b / 2),
  bit_or-bitwise (suc a) b,
)

pub or-none : (rounds a : ℕ) → a ≤ rounds → bit_or a 0 ≡ a
or-none rounds zero h = refl
or-none zero (suc a) h = absurd (omega arith)
or-none (suc rounds) (suc a) h =
    omega (arith, or-none rounds (suc a / 2) (omega arith), or-halves (suc a) 0)

-- `|` adds what lies in the low bits to a number that has none of them.
pub or_low :
    (bits high low : ℕ) → low < 2 ^ bits → bit_or (high * 2 ^ bits) low ≡ high * 2 ^ bits + low
or_low zero high low h =
    let z : low ≡ 0 = omega arith in
    let o : high * 2 ^ 0 ≡ high = omega arith in
    rw (z, o, or-none high high (omega arith)) (omega arith)
or_low (suc bits) high low h =
    let twice : 2 ^ suc bits ≡ 2 * 2 ^ bits = omega (arith, pow-suc 2 bits) in
    let scaled : high * 2 ^ suc bits ≡ 2 * (high * 2 ^ bits) =
      omega (arith, ap (λ (n : ℕ). high * n) twice) in
    ground
      (arith, or-halves (high * 2 ^ suc bits) low, or_low bits high (low / 2) (omega arith), scaled)
