-- ===== src/Rtc/Time.antt =====
-- Reading the time from a clock whose registers hold binary-coded decimals.
use nans_os.Base.{
  ℕ, suc, ◌+◌, ◌<◌, ◌≡◌, refl, ap, sym, ◌∙◌, arith, Bool, true, not, some, List, [], ◌∷◌, bit_and,
  ◌==◌, passes, passes-at, if◌then◌else◌,
}
use nans_os.Pic.{Ports, port_byte_in, port_byte_out}
use nans_os.Rtc.{
  RtcTime, rtc_bcd_to_bin, rtc_bin_to_bcd, rtc_read_register, rtc_update_in_progress, rtc_wait,
  read_all, rtc_read_time,
}

decimal_in_table : ℕ → Bool
decimal_in_table n = rtc_bcd_to_bin (rtc_bin_to_bcd n) == n

decimal_table : passes 100 decimal_in_table ≡ true
unfolding passes decimal_in_table rtc_bcd_to_bin rtc_bin_to_bcd
decimal_table = refl

-- The two conversions are inverse below 100.
pub bcd_to_bin-bin_to_bcd : (n : ℕ) → n < 100 → rtc_bcd_to_bin (rtc_bin_to_bcd n) ≡ n
unfolding decimal_in_table
bcd_to_bin-bin_to_bcd n h = ground (arith, passes-at 100 decimal_in_table n decimal_table h)

-- What the code relies on of the clock: the data port reads as the register that was selected last,
-- and selecting and reading leave the registers as they are.
pub record Clock {M : Type 0} (p : Ports M) (register : ℕ → M → ℕ) : Type 0 where
  pub reads : (reg : ℕ) (m : M) → (p.inb 0x71 (p.outb 0x70 reg m)).0 ≡ register reg m
  pub keeps :
      (reg reg' : ℕ) (m : M) → register reg' (p.inb 0x71 (p.outb 0x70 reg m)).1 ≡ register reg' m

-- The registers hold a time: the clock does not update, and each part is below 100 and stands in its
-- register as a binary-coded decimal, the year as the years from 2000 on.
pub record Holds {M : Type 0} (register : ℕ → M → ℕ) (m : M) (t : RtcTime) (years : ℕ)
    : Type 0 where
  pub idle : bit_and (register 0x0A m) 0x80 ≡ 0
  pub second : (t.second < 100) × (register 0x00 m ≡ rtc_bin_to_bcd t.second)
  pub minute : (t.minute < 100) × (register 0x02 m ≡ rtc_bin_to_bcd t.minute)
  pub hour : (t.hour < 100) × (register 0x04 m ≡ rtc_bin_to_bcd t.hour)
  pub day : (t.day < 100) × (register 0x07 m ≡ rtc_bin_to_bcd t.day)
  pub month : (t.month < 100) × (register 0x08 m ≡ rtc_bin_to_bcd t.month)
  pub year : (years < 100) × (register 0x09 m ≡ rtc_bin_to_bcd years) × (t.year ≡ years + 2000)
  pub weekday : (t.weekday < 100) × (register 0x06 m ≡ rtc_bin_to_bcd t.weekday)

module _ {M : Type 0} (p : Ports M) (register : ℕ → M → ℕ) (c : Clock p register) where
  -- The devices after a register is read.
  after : ℕ → M → M
  after reg m = (rtc_read_register p reg m).1

  after-register : (reg reg' : ℕ) (m : M) → register reg' (after reg m) ≡ register reg' m
  unfolding after rtc_read_register port_byte_in port_byte_out
  after-register reg reg' m = c.keeps reg reg' m

  read-bcd :
      (reg n : ℕ) (m0 m : M)
      → ((r : ℕ) → register r m ≡ register r m0)
      → (n < 100) × (register reg m0 ≡ rtc_bin_to_bcd n)
      → rtc_bcd_to_bin (rtc_read_register p reg m).0 ≡ n
  unfolding rtc_read_register port_byte_in port_byte_out
  read-bcd reg n m0 m same h =
      ap rtc_bcd_to_bin (c.reads reg m ∙ same reg ∙ h.1) ∙ bcd_to_bin-bin_to_bcd n h.0

  wait-idle :
      (f : ℕ) (m : M)
      → bit_and (register 0x0A m) 0x80 ≡ 0
      → rtc_wait p (suc f) m ≡ some (after 0x0A m)
  unfolding rtc_wait rtc_update_in_progress after rtc_read_register port_byte_in port_byte_out
  wait-idle f m h =
      let z : (bit_and (p.inb 0x71 (p.outb 0x70 0x0A m)).0 0x80 == 0) ≡ true =
        ap (λ (n : ℕ). bit_and n 0x80 == 0) (c.reads 0x0A m) ∙ ap (λ (n : ℕ). n == 0) h in
      ap
        (λ (b : Bool).
          if not b
          then rtc_wait p f (rtc_read_register p 0x0A m).1
          else some (rtc_read_register p 0x0A m).1)
        z

  -- The devices after some registers are read, the last one first.
  abbrev after_all : List ℕ → M → M
  after_all [] m = m
  after_all (reg ∷ regs) m = after reg (after_all regs m)

  after_all-register :
      (regs : List ℕ) (reg : ℕ) (m : M) → register reg (after_all regs m) ≡ register reg m
  after_all-register [] reg m = refl
  after_all-register (r ∷ regs) reg m =
      after-register r reg (after_all regs m) ∙ after_all-register regs reg m

  -- A decimal read after some registers.
  read-later :
      (regs : List ℕ) (reg n : ℕ) (m : M)
      → (n < 100) × (register reg m ≡ rtc_bin_to_bcd n)
      → rtc_bcd_to_bin (rtc_read_register p reg (after_all regs m)).0 ≡ n
  read-later regs reg n m h =
      read-bcd reg n m (after_all regs m) (λ r. after_all-register regs r m) h

-- A clock that reads as its selected register, holds a time in binary-coded decimals and does not
-- update is read in one round: every part is the one that it holds, the year with 2000 added.
pub read_time-Holds :
    {M : Type 0} (p : Ports M) (register : ℕ → M → ℕ) (f years : ℕ) (m : M) (t : RtcTime)
    → Clock p register
    → Holds register m t years
    → (t' : RtcTime) × (m' : M) × (rtc_read_time p (suc f) m ≡ some (t', m'))
      × (t'.second ≡ t.second)
      × (t'.minute ≡ t.minute)
      × (t'.hour ≡ t.hour)
      × (t'.day ≡ t.day)
      × (t'.month ≡ t.month)
      × (t'.year ≡ t.year)
      × (t'.weekday ≡ t.weekday)
unfolding rtc_read_time read_all after
read_time-Holds p register f years m t c h =
    let at : (regs : List ℕ) (reg n : ℕ)
        → (n < 100) × (register reg m ≡ rtc_bin_to_bcd n)
        → rtc_bcd_to_bin (rtc_read_register p reg (after_all p register c regs m)).0 ≡ n =
      λ regs reg n k. read-later p register c regs reg n m k in
    (
      (read_all p (after p register c 0x0A m)).0,
      (read_all p (after p register c 0x0A m)).1,
      rw (wait-idle p register c f m h.idle, rtc_read_time) refl,
      at (0x0A ∷ []) 0x00 t.second h.second,
      at (0x00 ∷ 0x0A ∷ []) 0x02 t.minute h.minute,
      at (0x02 ∷ 0x00 ∷ 0x0A ∷ []) 0x04 t.hour h.hour,
      at (0x04 ∷ 0x02 ∷ 0x00 ∷ 0x0A ∷ []) 0x07 t.day h.day,
      at (0x07 ∷ 0x04 ∷ 0x02 ∷ 0x00 ∷ 0x0A ∷ []) 0x08 t.month h.month,
      ap (λ (n : ℕ). n + 2000)
            (at (0x08 ∷ 0x07 ∷ 0x04 ∷ 0x02 ∷ 0x00 ∷ 0x0A ∷ []) 0x09 years (h.year.0, h.year.1))
          ∙ sym h.year.2,
      at (0x09 ∷ 0x08 ∷ 0x07 ∷ 0x04 ∷ 0x02 ∷ 0x00 ∷ 0x0A ∷ []) 0x06 t.weekday h.weekday,
    )
