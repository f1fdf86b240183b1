-- ===== src/Serial.antt =====
-- The serial port of src/impl/drivers/serial/serial.c and serial.h.
pub mod Sent
mod Tests
use nans_os.Base.{
  ℕ, zero, suc, ◌+◌, ◌/◌, ◌%◌, Bool, Option, none, some, List, [], ◌∷◌, bit_and, ◌==◌,
  if◌then◌else◌,
}
use nans_os.Pic.{Ports, port_byte_in, port_byte_out}

abbrev pub com1_port : ℕ
com1_port = 0x3F8

module _ {M : Type 0} (p : Ports M) where
  unfoldable pub serial_init : ℕ → ℕ → M → M
  serial_init port baud m =
      let m1 = port_byte_out p (port + 3) 0x80 (port_byte_out p (port + 1) 0x00 m) in
      let m2 = port_byte_out p port (baud % 256) m1 in
      let m3 = port_byte_out p (port + 1) (baud / 256 % 256) m2 in
      let m4 = port_byte_out p (port + 2) 0xC7 (port_byte_out p (port + 3) 0x03 m3) in
      port_byte_out p (port + 4) 0x0B m4

  unfoldable pub serial_received : ℕ → M → ℕ × M
  serial_received port m = let (status, m') = port_byte_in p (port + 5) m in (bit_and status 1, m')

  -- A wait on the line status, with fuel: `none` where it runs out.
  unfoldable pub serial_read : ℕ → ℕ → M → Option (ℕ × M)
  serial_read zero port m = none
  serial_read (suc fuel) port m =
      let (received, m') = serial_received port m in
      let rest = serial_read fuel port m' in
      if received == 0 then rest else some (port_byte_in p port m')

  unfoldable pub serial_transmit_empty : ℕ → M → ℕ × M
  serial_transmit_empty port m =
      let (status, m') = port_byte_in p (port + 5) m in (bit_and status 0x20, m')

  unfoldable pub serial_write : ℕ → ℕ → ℕ → M → Option M
  serial_write zero port c m = none
  serial_write (suc fuel) port c m =
      let (empty, m') = serial_transmit_empty port m in
      let rest = serial_write fuel port c m' in
      if empty == 0 then rest else some (port_byte_out p port c m')

  -- The string is the list of its bytes, and `fuel` is for each of them.
  unfoldable pub serial_write_string : ℕ → ℕ → List ℕ → M → Option M
  serial_write_string fuel port [] m = some m
  serial_write_string fuel port (c ∷ text) m = elim (serial_write fuel port c m) [
    | none ↦ none
    | some m' ↦ serial_write_string fuel port text m'
  ]
