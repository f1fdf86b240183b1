-- ===== src/Rtc.antt =====
-- The clock of src/impl/drivers/rtc/rtc.c and rtc.h.
pub mod Time
mod Tests
use nans_os.Base.{
  ℕ, zero, suc, ◌+◌, ◌*◌, ◌/◌, ◌%◌, Option, none, some, bit_and, bit_or, ◌==◌, if◌then◌else◌, not,
  Bool,
}
use nans_os.Pic.{Ports, port_byte_in, port_byte_out, pic_clear_mask, pic_send_eoi}

-- `struct RTCTime`.
pub record RtcTime : Type 0 where
  pub second : ℕ
  pub minute : ℕ
  pub hour : ℕ
  pub day : ℕ
  pub month : ℕ
  pub year : ℕ
  pub weekday : ℕ

-- `((bcd & 0xF0) >> 4) * 10 + (bcd & 0x0F)` in a byte.
unfoldable pub rtc_bcd_to_bin : ℕ → ℕ
rtc_bcd_to_bin bcd = (bit_and bcd 0xF0 / 16 * 10 + bit_and bcd 0x0F) % 256

unfoldable pub rtc_bin_to_bcd : ℕ → ℕ
rtc_bin_to_bcd bin = bit_or (bin / 10 * 16) (bin % 10) % 256

module _ {M : Type 0} (p : Ports M) where
  unfoldable pub rtc_read_register : ℕ → M → ℕ × M
  rtc_read_register reg m = port_byte_in p 0x71 (port_byte_out p 0x70 reg m)

  unfoldable pub rtc_write_register : ℕ → ℕ → M → M
  rtc_write_register reg value m = port_byte_out p 0x71 value (port_byte_out p 0x70 reg m)

  unfoldable pub rtc_update_in_progress : M → Bool × M
  rtc_update_in_progress m =
      let (a, m') = rtc_read_register 0x0A m in (not (bit_and a 0x80 == 0), m')

  -- The wait, with fuel: `none` where the clock is still updating when it runs out.
  unfoldable pub rtc_wait : ℕ → M → Option M
  rtc_wait zero m = none
  rtc_wait (suc f) m =
      let (busy, m') = rtc_update_in_progress m in
      let rest = rtc_wait f m' in if busy then rest else some m'

  -- A register in BCD.
  abbrev pub read_bcd : ℕ → M → ℕ × M
  read_bcd reg m = let (b, m') = rtc_read_register reg m in (rtc_bcd_to_bin b, m')

  -- The readings once the clock does not update.
  unfoldable pub read_all : M → RtcTime × M
  read_all m =
      let (second, m1) = read_bcd 0x00 m in
      let (minute, m2) = read_bcd 0x02 m1 in
      let (hour, m3) = read_bcd 0x04 m2 in
      let (day, m4) = read_bcd 0x07 m3 in
      let (month, m5) = read_bcd 0x08 m4 in
      let (year, m6) = read_bcd 0x09 m5 in
      let (weekday, m7) = read_bcd 0x06 m6 in
      (
        record {
          second = second;
          minute = minute;
          hour = hour;
          day = day;
          month = month;
          year = year + 2000;
          weekday = weekday;
        },
        m7,
      )

  unfoldable pub rtc_read_time : ℕ → M → Option (RtcTime × M)
  rtc_read_time fuel m = elim (rtc_wait fuel m) [ none ↦ none | some m' ↦ some (read_all m') ]

  -- The time that `rtc_init` leaves in `current_time`, and the devices.
  unfoldable pub rtc_init : ℕ → M → Option (RtcTime × M)
  rtc_init fuel m =
      let (status, m1) = rtc_read_register 0x0B m in
      let m2 = rtc_write_register 0x0B (bit_or (bit_or status 0x02) 0x04) m1 in
      rtc_read_time fuel (pic_clear_mask p 8 m2)

  unfoldable pub rtc_enable_interrupt : M → M
  rtc_enable_interrupt m =
      let (status, m1) = rtc_read_register 0x0B m in
      (rtc_read_register 0x0C (rtc_write_register 0x0B (bit_or status 0x40) m1)).1

  unfoldable pub rtc_disable_interrupt : M → M
  rtc_disable_interrupt m =
      let (status, m1) = rtc_read_register 0x0B m in
      rtc_write_register 0x0B (bit_and status 0xBF) m1

  -- The time that the callback is given, if one is set.
  unfoldable pub rtc_handler : ℕ → M → Option (RtcTime × M)
  rtc_handler fuel m = elim (rtc_read_time fuel (rtc_read_register 0x0C m).1) [
    | none ↦ none
    | some (time, m') ↦ some (time, pic_send_eoi p 8 m')
  ]
