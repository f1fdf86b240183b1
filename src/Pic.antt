-- ===== src/Pic.antt =====
-- Port access and the interrupt controllers: src/impl/drivers/port_io/port.c and
-- src/impl/drivers/pic/pic.c, pic.h.
pub mod Masks
mod Tests
use nans_os.Base.{ℕ, ◌+◌, ◌-◌, ◌*◌, ◌/◌, ◌%◌, ◌^◌, bit_and, bit_or, ltb, leb, ◌==◌, if◌then◌else◌}

-- The instructions `outb` and `inb` on the state `M` of the devices.
pub record Ports (M : Type 0) : Type 0 where
  pub outb : ℕ → ℕ → M → M
  pub inb : ℕ → M → ℕ × M

abbrev pub pic1_command : ℕ
pic1_command = 0x20

abbrev pub pic1_data : ℕ
pic1_data = 0x21

abbrev pub pic2_command : ℕ
pic2_command = 0xA0

abbrev pub pic2_data : ℕ
pic2_data = 0xA1

-- The data port of the controller of an interrupt, and its line there.
abbrev pub data_port : ℕ → ℕ
data_port irq = if ltb irq 8 then pic1_data else pic2_data

abbrev pub line_of : ℕ → ℕ
line_of irq = if ltb irq 8 then irq else irq - 8

-- `value | (1 << line)` and `value & ~(1 << line)` in a byte.
abbrev pub with_bit : ℕ → ℕ → ℕ
with_bit value line = bit_or value (2 ^ line) % 256

abbrev pub without_bit : ℕ → ℕ → ℕ
without_bit value line = bit_and value (255 - 2 ^ line % 256)

module _ {M : Type 0} (p : Ports M) where
  unfoldable pub port_byte_out : ℕ → ℕ → M → M
  port_byte_out port v m = p.outb port v m

  unfoldable pub port_byte_in : ℕ → M → ℕ × M
  port_byte_in port m = p.inb port m

  unfoldable pub port_io_wait : M → M
  port_io_wait m = port_byte_out 0x80 0 m

  -- Words and double words go through byte ports, the low byte first.
  unfoldable pub port_word_out : ℕ → ℕ → M → M
  port_word_out port v m = port_byte_out (port + 1) (v / 256 % 256) (port_byte_out port (v % 256) m)

  unfoldable pub port_word_in : ℕ → M → ℕ × M
  port_word_in port m =
      let (low, m1) = port_byte_in port m in
      let (high, m2) = port_byte_in (port + 1) m1 in (bit_or low (high * 256), m2)

  unfoldable pub port_dword_out : ℕ → ℕ → M → M
  port_dword_out port v m =
      let m1 = port_byte_out (port + 1) (v / 256 % 256) (port_byte_out port (v % 256) m) in
      port_byte_out (port + 3) (v / 2 ^ 24 % 256) (port_byte_out (port + 2) (v / 2 ^ 16 % 256) m1)

  unfoldable pub port_dword_in : ℕ → M → ℕ × M
  port_dword_in port m =
      let (b0, m1) = port_byte_in port m in
      let (b1, m2) = port_byte_in (port + 1) m1 in
      let (b2, m3) = port_byte_in (port + 2) m2 in
      let (b3, m4) = port_byte_in (port + 3) m3 in
      (bit_or (bit_or (bit_or b0 (b1 * 256)) (b2 * 2 ^ 16)) (b3 * 2 ^ 24), m4)

  -- A byte to a port, and the delay behind it.
  abbrev pub out_wait : ℕ → ℕ → M → M
  out_wait port v m = port_io_wait (port_byte_out port v m)

  -- The two masks that are read first are overwritten before they are used.
  unfoldable pub pic_init : M → M
  pic_init m =
      let m0 = (port_byte_in pic2_data (port_byte_in pic1_data m).1).1 in
      let m1 = out_wait pic2_command 0x11 (out_wait pic1_command 0x11 m0) in
      let m2 = out_wait pic2_data 0x28 (out_wait pic1_data 0x20 m1) in
      let m3 = out_wait pic2_data 2 (out_wait pic1_data 4 m2) in
      let m4 = out_wait pic2_data 1 (out_wait pic1_data 1 m3) in
      out_wait pic2_data 0xFF (out_wait pic1_data 0xF8 m4)

  unfoldable pub pic_send_eoi : ℕ → M → M
  pic_send_eoi irq m =
      let m' = if leb 8 irq then port_byte_out pic2_command 0x20 m else m in
      port_byte_out pic1_command 0x20 m'

  unfoldable pub pic_set_mask : ℕ → M → M
  pic_set_mask irq m =
      let (v, m') = port_byte_in (data_port irq) m in
      port_byte_out (data_port irq) (with_bit v (line_of irq)) m'

  unfoldable pub pic_clear_mask : ℕ → M → M
  pic_clear_mask irq m =
      let (v, m') = port_byte_in (data_port irq) m in
      port_byte_out (data_port irq) (without_bit v (line_of irq)) m'

  unfoldable pub pic_disable : M → M
  pic_disable m = port_byte_out pic2_data 0xFF (port_byte_out pic1_data 0xFF m)
