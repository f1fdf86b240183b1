-- ===== src/Timer/Beats.antt =====
-- A run of timer interrupts of src/impl/drivers/pit/pit.c.
use nans_os.Base.{
  ℕ, zero, suc, ◌+◌, ◌-◌, ◌/◌, ◌%◌, ◌^◌, ◌<◌, ◌≡◌, refl, sym, ap, ◌∙◌, arith, true, false, some,
  List, [], ◌∷◌, ◌++◌, append_assoc, append-nil, replicate, ◌==◌, if◌then◌else◌, Bool-cases, inl,
  inr,
}
use nans_os.Pic.{Ports, port_byte_out, pic_send_eoi}
use nans_os.Serial.Sent.{IsUart, IsApart, string-sent}
use nans_os.Timer.{Timer, pit_handler, run_ticks}

-- A callback that is counted and sends nothing, and an acknowledgement that does neither.
pub record IsCounted {M : Type 0} (p : Ports M) (sent : M → List ℕ) (calls : M → ℕ) (f : M → M)
    : Type 0 where
  pub called : (m : M) → calls (f m) ≡ calls m + 1
  pub silent : (m : M) → sent (f m) ≡ sent m
  pub ended : (m : M) → calls (p.outb 0x20 0x20 m) ≡ calls m
  pub ended_silent : (m : M) → sent (p.outb 0x20 0x20 m) ≡ sent m

abbrev pub dots : ℕ → List ℕ
dots n = replicate n b'.'

dots-append : (a b : ℕ) → dots a ++ dots b ≡ dots (a + b)
dots-append zero b = ap dots (omega arith)
dots-append (suc a) b =
    let e : suc a + b ≡ suc (a + b) = omega arith in
    ap (λ (xs : List ℕ). b'.' ∷ xs) (dots-append a b) ∙ sym (ap dots e)

dots-behind : (a b : ℕ) (xs : List ℕ) → (xs ++ dots a) ++ dots b ≡ xs ++ dots (a + b)
dots-behind a b xs =
    append_assoc xs (dots a) (dots b) ∙ ap (λ (ys : List ℕ). xs ++ ys) (dots-append a b)

module _ {M : Type 0} (p : Ports M) (sent : M → List ℕ) (busy calls : M → ℕ) (limit : ℕ) (f : M → M)
    (u : IsUart p sent busy limit) (a : IsApart p calls) (c : IsCounted p sent calls f) where
  -- One interrupt.
  tick :
      (fuel : ℕ) (t : Timer M) (m : M)
      → limit < fuel
      → t.callback ≡ some f
      → t.tick_count + 1 < 2 ^ 64
      → (m' : M) × (pit_handler p fuel t m ≡ some (record t { tick_count = t.tick_count + 1 }, m'))
        × (calls m' ≡ calls m + 1)
        × (sent m' ≡ sent m ++ dots (if (t.tick_count + 1) % 100 == 0 then 1 else 0))
  unfolding pit_handler pic_send_eoi port_byte_out
  tick fuel t m h cb small =
      let n : (t.tick_count + 1) % 2 ^ 64 ≡ t.tick_count + 1 = omega arith in
      elim (Bool-cases ((t.tick_count + 1) % 100 == 0)) [
        | inl beat ↦
            let due : ((t.tick_count + 1) % 2 ^ 64 % 100 == 0) ≡ true = rw n beat in
            let (m1, run, out, kept) =
              string-sent p sent busy limit u calls a fuel (b'.' ∷ []) m h in
            (
              p.outb 0x20 0x20 (f m1),
              rw (due, run, cb, pit_handler) (rw n refl),
              c.ended (f m1) ∙ c.called m1 ∙ ap (λ (k : ℕ). k + 1) kept,
              c.ended_silent (f m1) ∙ c.silent m1 ∙ out ∙ rw beat refl,
            )
        | inr quiet ↦
            let not_due : ((t.tick_count + 1) % 2 ^ 64 % 100 == 0) ≡ false = rw n quiet in
            (
              p.outb 0x20 0x20 (f m),
              rw (not_due, cb, pit_handler) (rw n refl),
              c.ended (f m) ∙ c.called m,
              c.ended_silent (f m) ∙ c.silent m ∙ rw quiet (sym (append-nil (sent m))),
            )
      ]

  ticks-run :
      (n fuel : ℕ) (t : Timer M) (m : M)
      → limit < fuel
      → t.callback ≡ some f
      → t.tick_count + n < 2 ^ 64
      → (t' : Timer M) × (m' : M) × (run_ticks p fuel n t m ≡ some (t', m'))
        × (t'.tick_count ≡ t.tick_count + n)
        × (calls m' ≡ calls m + n)
        × (sent m' ≡ sent m ++ dots ((t.tick_count + n) / 100 - t.tick_count / 100))
  unfolding run_ticks
  ticks-run zero fuel t m h cb small =
      let z : (t.tick_count + 0) / 100 - t.tick_count / 100 ≡ 0 = omega arith in
      (t, m, refl, omega arith, omega arith, rw z (sym (append-nil (sent m))))
  ticks-run (suc n) fuel t m h cb small =
      let (m1, one, more, out) = tick fuel t m h cb (omega arith) in
      let t1 : Timer M = record t { tick_count = t.tick_count + 1 } in
      let (t', m', rest, count, all, beats) = ticks-run n fuel t1 m1 h cb (omega arith) in
      let k : ℕ = (t.tick_count + 1 + n) / 100 - (t.tick_count + 1) / 100 in
      let first : ℕ = if (t.tick_count + 1) % 100 == 0 then 1 else 0 in
      let sum : first + k ≡ (t.tick_count + suc n) / 100 - t.tick_count / 100 = ground arith in
      (
        t',
        m',
        rw (one, run_ticks) rest,
        omega (arith, count),
        omega (arith, all, more),
        beats
            ∙ ap (λ (xs : List ℕ). xs ++ dots k) out
            ∙ dots-behind first k (sent m)
            ∙ ap (λ (b : ℕ). sent m ++ dots b) sum,
      )

-- With a callback that sends nothing, on a serial port that is busy for at most `limit` polls, `n`
-- timer interrupts come to an end (while the count of ticks fits 64 bits): the count has grown by
-- `n`, the callback was called `n` times, and a heartbeat was sent for each hundredth tick among
-- them and for no other.
pub ticks-beat :
    {M : Type 0} (p : Ports M) (sent : M → List ℕ) (busy calls : M → ℕ) (limit : ℕ) (f : M → M)
    (n fuel : ℕ) (t : Timer M) (m : M)
    → IsUart p sent busy limit
    → IsApart p calls
    → IsCounted p sent calls f
    → limit < fuel
    → t.callback ≡ some f
    → t.tick_count + n < 2 ^ 64
    → (t' : Timer M) × (m' : M) × (run_ticks p fuel n t m ≡ some (t', m'))
      × (t'.tick_count ≡ t.tick_count + n)
      × (calls m' ≡ calls m + n)
      × (sent m' ≡ sent m ++ dots ((t.tick_count + n) / 100 - t.tick_count / 100))
ticks-beat p sent busy calls limit f n fuel t m u a c h cb small =
    ticks-run p sent busy calls limit f u a c n fuel t m h cb small
