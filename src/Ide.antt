-- ===== src/Ide.antt =====
-- The disk driver of src/impl/drivers/storage/ide.c and ide.h, over the port instructions.
pub mod Waiting
pub mod Landed
pub mod Reading
pub mod Identify
pub mod Made
mod Tests
use nans_os.Base.{
  ℕ, zero, suc, ◌+◌, ◌-◌, ◌*◌, ◌/◌, ◌%◌, ◌^◌, Bool, true, false, not, ◌&&◌, Option, none, some,
  List, [], ◌∷◌, bit_and, bit_or, ltb, leb, ◌==◌, if◌then◌else◌, get_or,
}
use nans_os.Base.Int.{ℤ, pos, negsuc, error}
use nans_os.Pic.{Ports, port_byte_in, port_byte_out, port_io_wait, port_word_in, port_word_out}

-- `struct IDEDevice`, less the ports `ctrl` and `bmide`, which nothing uses.
pub record IdeDevice : Type 0 where
  pub base : ℕ
  pub slave : ℕ
  pub use_lba48 : ℕ
  pub signature : ℕ
  pub capabilities : ℕ
  pub commandsets : ℕ
  pub size : ℕ

-- A buffer, by its 16-bit words.
abbrev pub Words : Type 0
Words = ℕ → ℕ

abbrev pub write_word : Words → ℕ → ℕ → Words
write_word b i w j = if j == i then w else b j

-- `!(status & IDE_SR_BSY)` and `status & IDE_SR_DRDY`.
abbrev pub not_busy : ℕ → Bool
not_busy status = bit_and status 0x80 == 0

abbrev pub drive_ready : ℕ → Bool
drive_ready status = not (bit_and status 0x40 == 0)

-- The rounds of `while (--timeout > 0)` from 100000.
abbrev pub wait_rounds : ℕ
wait_rounds = 99999

-- `(uint8_t)(lba >> (8 * k))`.
abbrev pub lba_byte : ℕ → ℕ → ℕ
lba_byte lba k = lba / 2 ^ (8 * k) % 256

-- `0xE0 | (dev->slave << 4) | ((lba >> 24) & 0x0F)`.
abbrev pub drive_byte : IdeDevice → ℕ → ℕ
drive_byte dev lba = bit_or (bit_or 0xE0 (dev.slave * 16)) (bit_and (lba / 2 ^ 24) 0x0F)

module _ {M : Type 0} (p : Ports M) where
  -- A wait for a status that passes a test, with `k` rounds left: whether it came.
  unfoldable pub wait_status : (ℕ → Bool) → ℕ → ℕ → M → Bool × M
  wait_status test zero base m = (false, m)
  wait_status test (suc k) base m =
      let (status, m') = port_byte_in p (base + 7) m in
      let rest = wait_status test k base (port_io_wait p m') in
      if test status then (true, m') else rest

  unfoldable pub ide_wait_ready : ℕ → M → Bool × M
  ide_wait_ready base m = wait_status (λ s. not_busy s && drive_ready s) wait_rounds base m

  unfoldable pub ide_wait_busy : ℕ → M → Bool × M
  ide_wait_busy base m = wait_status (λ s. not_busy s) wait_rounds base m

  unfoldable pub ide_select_drive : IdeDevice → M → M
  ide_select_drive dev m =
      port_io_wait p (port_byte_out p (dev.base + 6) (bit_or 0xA0 (dev.slave * 16)) m)

  -- A byte to the register `r` of the device.
  abbrev pub to_reg : IdeDevice → ℕ → ℕ → M → M
  to_reg dev r v m = port_byte_out p (dev.base + r) v m

  unfoldable pub send_lba48 : IdeDevice → ℕ → ℕ → ℕ → M → M
  send_lba48 dev lba sectors command m =
      let m1 = to_reg dev 3 (lba_byte lba 0) (to_reg dev 2 sectors m) in
      let m2 = to_reg dev 5 (lba_byte lba 2) (to_reg dev 4 (lba_byte lba 1) m1) in
      let m3 = to_reg dev 3 (lba_byte lba 4) (to_reg dev 2 (lba_byte lba 3) m2) in
      to_reg dev 7 command (to_reg dev 4 (lba_byte lba 5) m3)

  unfoldable pub send_lba28 : IdeDevice → ℕ → ℕ → ℕ → M → M
  send_lba28 dev lba sectors command m =
      let m1 = to_reg dev 3 (lba_byte lba 0) (to_reg dev 2 sectors m) in
      let m2 = to_reg dev 5 (lba_byte lba 2) (to_reg dev 4 (lba_byte lba 1) m1) in
      to_reg dev 7 command (to_reg dev 6 (drive_byte dev lba) m2)

  abbrev pub send_command : IdeDevice → ℕ → ℕ → ℕ → ℕ → M → M
  send_command dev lba sectors command28 command48 m =
      if dev.use_lba48 == 0
      then send_lba28 dev lba sectors command28 m
      else send_lba48 dev lba sectors command48 m

  -- The words of a sector, with `k` left and the next at the place `at`.
  unfoldable pub read_words : ℕ → ℕ → ℕ → Words → M → Words × M
  read_words zero base at b m = (b, m)
  read_words (suc k) base at b m =
      let (w, m') = port_word_in p base m in read_words k base (at + 1) (write_word b at w) m'

  unfoldable pub write_words : ℕ → ℕ → ℕ → Words → M → M
  write_words zero base at b m = m
  write_words (suc k) base at b m = write_words k base (at + 1) b (port_word_out p base (b at) m)

  -- The loop over the sectors, with `k` left.
  unfoldable pub read_loop : ℕ → ℕ → ℕ → Words → M → ℤ × Words × M
  read_loop zero base at b m = (pos 0, b, m)
  read_loop (suc k) base at b m =
      let (ready, m') = ide_wait_ready base m in
      let (b', m'') = read_words 256 base at b m' in
      let rest = read_loop k base (at + 256) b' m'' in if ready then rest else (error, b, m')

  -- The last sector is followed by a flush of the drive's cache.
  unfoldable pub write_loop : ℕ → ℕ → ℕ → Words → M → ℤ × M
  write_loop zero base at b m = (pos 0, m)
  write_loop (suc k) base at b m =
      let (ready, m') = ide_wait_ready base m in
      let m1 = write_words 256 base at b m' in
      let m2 =
        if k == 0 then (ide_wait_ready base (port_byte_out p (base + 7) 0xE7 m1)).1 else m1 in
      let rest = write_loop k base (at + 256) b m2 in if ready then rest else (error, m')

  -- Behind the checks of the arguments.
  unfoldable pub start_read : IdeDevice → ℕ → ℕ → Words → M → ℤ × Words × M
  start_read dev lba sectors b m =
      let (ready, m') = ide_wait_ready dev.base (ide_select_drive dev m) in
      if ready
      then read_loop sectors dev.base 0 b (send_command dev lba sectors 0x20 0x24 m')
      else (error, b, m')

  unfoldable pub start_write : IdeDevice → ℕ → ℕ → Words → M → ℤ × M
  start_write dev lba sectors b m =
      let (ready, m') = ide_wait_ready dev.base (ide_select_drive dev m) in
      if ready
      then write_loop sectors dev.base 0 b (send_command dev lba sectors 0x30 0x34 m')
      else (error, m')

  -- A device or a buffer that is `none` is NULL; `b` is the memory of the buffer otherwise.
  unfoldable pub ide_read_sectors :
      Option IdeDevice → ℕ → ℕ → Option Words → M → ℤ × Option Words × M
  unfolding start_read
  ide_read_sectors none lba sectors b m = (error, b, m)
  ide_read_sectors (some dev) lba sectors none m = (error, none, m)
  ide_read_sectors (some dev) lba sectors (some b) m =
      if sectors == 0
      then (error, some b, m)
      else let (r, b', m') = start_read dev lba sectors b m in (r, some b', m')

  unfoldable pub ide_write_sectors : Option IdeDevice → ℕ → ℕ → Option Words → M → ℤ × M
  ide_write_sectors none lba sectors b m = (error, m)
  ide_write_sectors (some dev) lba sectors none m = (error, m)
  ide_write_sectors (some dev) lba sectors (some b) m =
      if sectors == 0 then (error, m) else start_write dev lba sectors b m
