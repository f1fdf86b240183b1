-- ===== src/Timer.antt =====
-- The timer of src/impl/drivers/pit/pit.c and pit.h.
pub mod Frequency
pub mod Beats
mod Tests
use nans_os.Base.{
  ℕ, zero, suc, ◌+◌, ◌/◌, ◌%◌, ◌^◌, Bool, Option, none, some, List, [], ◌∷◌, ◌==◌, if◌then◌else◌,
}
use nans_os.Pic.{Ports, port_byte_out, pic_clear_mask, pic_send_eoi}
use nans_os.Serial.{com1_port, serial_write_string}

abbrev pub pit_frequency : ℕ
pit_frequency = 1193180

abbrev pub pit_default_hz : ℕ
pit_default_hz = 100

-- `tick_count`, and the callback, which acts on the devices and the rest of the system.
pub record Timer (M : Type 0) : Type 0 where
  pub tick_count : ℕ
  pub callback : Option (M → M)

-- `if (timer_callback) timer_callback();`
abbrev pub call_back : {M : Type 0} → Option (M → M) → M → M
call_back none m = m
call_back (some f) m = f m

module _ {M : Type 0} (p : Ports M) where
  -- `none` for a frequency of 0, by which the code divides. The command byte is 0x36.
  unfoldable pub pit_set_frequency : ℕ → M → Option M
  pit_set_frequency hz m =
      if hz == 0
      then none
      else let divisor = pit_frequency / hz in
        let m1 = port_byte_out p 0x40 (divisor % 256) (port_byte_out p 0x43 0x36 m) in
        some (port_byte_out p 0x40 (divisor / 256 % 256) m1)

  unfoldable pub pit_init : ℕ → M → Option M
  pit_init hz m = elim (pit_set_frequency hz m) [
    | none ↦ none
    | some m' ↦ some (pic_clear_mask p 0 m')
  ]

  -- Once a second the heartbeat "." goes to the serial port, which is waited for with fuel.
  unfoldable pub pit_handler : ℕ → Timer M → M → Option (Timer M × M)
  pit_handler fuel t m =
      let count = (t.tick_count + 1) % 2 ^ 64 in
      let beat = serial_write_string p fuel com1_port (b'.' ∷ []) m in
      elim (if count % pit_default_hz == 0 then beat else some m) [
        | none ↦ none
        | some m' ↦
            some (record t { tick_count = count }, pic_send_eoi p 0 (call_back t.callback m'))
      ]

  -- `n` timer interrupts in a row.
  unfoldable pub run_ticks : ℕ → ℕ → Timer M → M → Option (Timer M × M)
  run_ticks fuel zero t m = some (t, m)
  run_ticks fuel (suc n) t m = elim (pit_handler fuel t m) [
    | none ↦ none
    | some (t', m') ↦ run_ticks fuel n t' m'
  ]

unfoldable pub pit_get_ticks : {M : Type 0} → Timer M → ℕ
pit_get_ticks t = t.tick_count

unfoldable pub pit_set_callback : {M : Type 0} → Option (M → M) → Timer M → Timer M
pit_set_callback f t = record t { callback = f }
