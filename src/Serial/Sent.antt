-- ===== src/Serial/Sent.antt =====
-- What src/impl/drivers/serial/serial.c sends, to a port that is busy for a while after each byte.
use nans_os.Base.{
  ℕ, zero, suc, ◌-◌, ◌≤◌, ◌<◌, ◌≡◌, refl, sym, ap, ◌∙◌, arith, true, false, some, List, [], ◌∷◌,
  ◌++◌, append_assoc, append-nil, bit_and, ltb, ◌==◌, Bool-cases, inl, inr,
}
use nans_os.Pic.{Ports, port_byte_in, port_byte_out}
use nans_os.Serial.{com1_port, serial_transmit_empty, serial_write, serial_write_string}

-- The first serial port: `busy` counts the polls of the line status that find the transmitter busy,
-- at most `limit`, and `sent` is what has been written to the data register.
pub record IsUart {M : Type 0} (p : Ports M) (sent : M → List ℕ) (busy : M → ℕ) (limit : ℕ)
    : Type 0 where
  pub status : (m : M) → (bit_and (p.inb 0x3FD m).0 0x20 == 0) ≡ ltb 0 (busy m)
  pub polled : (m : M) → busy (p.inb 0x3FD m).1 ≡ busy m - 1
  pub bounded : (m : M) → busy m ≤ limit
  pub quiet : (m : M) → sent (p.inb 0x3FD m).1 ≡ sent m
  pub sends : (c : ℕ) (m : M) → sent (p.outb 0x3F8 c m) ≡ sent m ++ (c ∷ [])

-- What neither a poll of the line status nor a byte to the port changes.
pub record IsApart {ℓ} {M : Type 0} (p : Ports M) {X : Type ℓ} (view : M → X) : Type ℓ where
  pub poll : (m : M) → view (p.inb 0x3FD m).1 ≡ view m
  pub byte : (c : ℕ) (m : M) → view (p.outb 0x3F8 c m) ≡ view m

module _ {M : Type 0} (p : Ports M) (sent : M → List ℕ) (busy : M → ℕ) (limit : ℕ)
    (u : IsUart p sent busy limit) {X : Type 0} (view : M → X) (a : IsApart p view) where
  byte-sent :
      (fuel c : ℕ) (m : M)
      → busy m < fuel
      → (m' : M) × (serial_write p fuel com1_port c m ≡ some m')
        × (sent m' ≡ sent m ++ (c ∷ []))
        × (view m' ≡ view m)
  unfolding serial_write serial_transmit_empty port_byte_in port_byte_out
  byte-sent zero c m h = absurd (omega arith)
  byte-sent (suc fuel) c m h = elim (Bool-cases (ltb 0 (busy m))) [
    | inl waiting ↦
        let polls : (bit_and (p.inb 0x3FD m).0 0x20 == 0) ≡ true = u.status m ∙ waiting in
        let less : busy (p.inb 0x3FD m).1 < fuel = ground (arith, u.polled m) in
        let (m', run, out, kept) = byte-sent fuel c (p.inb 0x3FD m).1 less in
        (m', rw polls run, out ∙ ap (λ (s : List ℕ). s ++ (c ∷ [])) (u.quiet m), kept ∙ a.poll m)
    | inr ready ↦
        let polls : (bit_and (p.inb 0x3FD m).0 0x20 == 0) ≡ false = u.status m ∙ ready in
        (
          p.outb 0x3F8 c (p.inb 0x3FD m).1,
          rw polls refl,
          u.sends c (p.inb 0x3FD m).1 ∙ ap (λ (s : List ℕ). s ++ (c ∷ [])) (u.quiet m),
          a.byte c (p.inb 0x3FD m).1 ∙ a.poll m,
        )
  ]

  pub string-sent :
      (fuel : ℕ) (text : List ℕ) (m : M)
      → limit < fuel
      → (m' : M) × (serial_write_string p fuel com1_port text m ≡ some m')
        × (sent m' ≡ sent m ++ text)
        × (view m' ≡ view m)
  unfolding serial_write_string
  string-sent fuel [] m h = (m, refl, sym (append-nil (sent m)), refl)
  string-sent fuel (c ∷ text) m h =
      let b : busy m < fuel = omega (arith, u.bounded m) in
      let (m1, run1, out1, kept1) = byte-sent fuel c m b in
      let (m', run, out, kept) = string-sent fuel text m1 h in
      (
        m',
        rw (run1, serial_write_string) run,
        out ∙ ap (λ (s : List ℕ). s ++ text) out1 ∙ append_assoc (sent m) (c ∷ []) text,
        kept ∙ kept1,
      )

-- To a port that is never busy for more than `limit` polls, `serial_write_string` comes to an end,
-- with fuel for more polls than that for each byte, and has sent the bytes of the string in order,
-- each once.
pub write_string-sent :
    {M : Type 0} (p : Ports M) (sent : M → List ℕ) (busy : M → ℕ) (limit fuel : ℕ) (text : List ℕ)
    (m : M)
    → IsUart p sent busy limit
    → limit < fuel
    → (m' : M) × (serial_write_string p fuel com1_port text m ≡ some m')
      × (sent m' ≡ sent m ++ text)
write_string-sent {M} p sent busy limit fuel text m u h =
    let apart : IsApart p {X = ℕ} (λ m. 0) = record { poll = λ m. refl; byte = λ c m. refl } in
    let (m', run, out, kept) =
      string-sent p sent busy limit u {X = ℕ} (λ m. 0) apart fuel text m h in
    (m', run, out)
