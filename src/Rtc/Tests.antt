-- ===== src/Rtc/Tests.antt =====
-- A clock on which the theorem of the time is run.
use nans_os.Base.{ℕ, ◌≡◌, refl, arith, some, ◌==◌, if◌then◌else◌}
use nans_os.Pic.{Ports}
use nans_os.Rtc.{RtcTime, rtc_bin_to_bcd, rtc_read_time}
use nans_os.Rtc.Time.{Clock, Holds, read_time-Holds}

-- The state is the register that is selected; the registers hold 31 December 2025, 23:59:58.
abbrev register : ℕ → ℕ → ℕ
register reg m =
    if reg == 0x00
    then 0x58
    else if reg == 0x02
    then 0x59
    else if reg == 0x04
    then 0x23
    else if reg == 0x06
    then 0x04
    else if reg == 0x07
    then 0x31
    else if reg == 0x08
    then 0x12
    else if reg == 0x09
    then 0x25
    else 0

abbrev ports : Ports ℕ
ports = record {
  outb = λ port v m. if port == 0x70 then v else m;
  inb = λ port m. (register m m, m);
}

ports-Clock : Clock ports register
ports-Clock = record { reads = λ reg m. refl; keeps = λ reg reg' m. refl }

abbrev time : RtcTime
time = record {
  second = 58;
  minute = 59;
  hour = 23;
  day = 31;
  month = 12;
  year = 2025;
  weekday = 4;
}

registers-Holds : Holds register 0 time 25
unfolding rtc_bin_to_bcd
registers-Holds = record {
  idle = refl;
  second = (omega arith, refl);
  minute = (omega arith, refl);
  hour = (omega arith, refl);
  day = (omega arith, refl);
  month = (omega arith, refl);
  year = (omega arith, refl, refl);
  weekday = (omega arith, refl);
}

read_time-Holds_example :
    (t' : RtcTime) × (m' : ℕ) × (rtc_read_time ports 1 0 ≡ some (t', m'))
    × (t'.second ≡ 58)
    × (t'.minute ≡ 59)
    × (t'.hour ≡ 23)
    × (t'.day ≡ 31)
    × (t'.month ≡ 12)
    × (t'.year ≡ 2025)
    × (t'.weekday ≡ 4)
read_time-Holds_example = read_time-Holds ports register 0 25 0 time ports-Clock registers-Holds
