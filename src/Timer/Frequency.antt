-- ===== src/Timer/Frequency.antt =====
-- The frequency that `pit_set_frequency` of src/impl/drivers/pit/pit.c programs.
use native.Mathlib.Nat.{div-mul-le_self}
use nans_os.Base.{
  ℕ, ◌+◌, ◌*◌, ◌/◌, ◌%◌, ◌≤◌, ◌<◌, ◌≡◌, refl, ◌∙◌, arith, false, some, ◌==◌, leb, ltb, leb→le,
  ltb→lt, Bool-cases, inl, inr, if◌then◌else◌,
}
use nans_os.Pic.{Ports, port_byte_out}
use nans_os.Timer.{pit_frequency, pit_set_frequency}

-- A timer whose channel 0 takes the low and the high byte of its divisor after the command 0x36.
pub record IsChannel {M : Type 0} (p : Ports M) (divisor : M → ℕ) : Type 0 where
  pub loads :
      (low high : ℕ) (m : M)
      → divisor (p.outb 0x40 high (p.outb 0x40 low (p.outb 0x43 0x36 m))) ≡ low + high * 256

quotient-lt : (hz : ℕ) → 19 ≤ hz → pit_frequency / hz < 65536
quotient-lt hz h = elim (Bool-cases (ltb (pit_frequency / hz) 65536)) [
  | inl small ↦ ltb→lt (pit_frequency / hz) 65536 small
  | inr large ↦
      let d : ℕ = pit_frequency / hz in
      let big : 65536 ≤ d = ground arith in
      absurd (grind (arith, div-mul-le_self pit_frequency hz, times d hz big h))
]
  where
    times : (d k : ℕ) → 65536 ≤ d → 19 ≤ k → 65536 * 19 ≤ d * k
    times d k a b = grind arith

-- `pit_set_frequency` of a frequency other than 0 returns, and the timer divides its base frequency
-- by the rounded-down quotient of it and the frequency asked for, if that is at least 19 Hz; below
-- that the quotient has 17 bits or more, and the timer gets its low 16 bits only.
pub set_frequency-divides :
    {M : Type 0} (p : Ports M) (divisor : M → ℕ) (hz : ℕ) (m : M)
    → IsChannel p divisor
    → 1 ≤ hz
    → (m' : M) × (pit_set_frequency p hz m ≡ some m')
      × (divisor m' ≡ (if leb 19 hz then pit_frequency / hz else pit_frequency / hz % 65536))
unfolding pit_set_frequency port_byte_out
set_frequency-divides p divisor hz m c h =
    let d : ℕ = pit_frequency / hz in
    let low_bytes : d % 256 + d / 256 % 256 * 256 ≡ (if leb 19 hz then d else d % 65536) =
      elim (Bool-cases (leb 19 hz)) [
        | inl e ↦ rw e (omega (arith, quotient-lt hz (leb→le 19 hz e)))
        | inr e ↦ rw e (omega arith)
      ] in
    let nz : (hz == 0) ≡ false = ground arith in
    (
      p.outb 0x40 (d / 256 % 256) (p.outb 0x40 (d % 256) (p.outb 0x43 0x36 m)),
      rw nz refl,
      c.loads (d % 256) (d / 256 % 256) m ∙ low_bytes,
    )
