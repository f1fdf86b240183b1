-- ===== src/Ide/Reading.antt =====
-- What `ide_read_sectors` of src/impl/drivers/storage/ide.c reads from a drive that answers.
use nans_os.Base.{
  ℕ, ◌+◌, ◌-◌, ◌*◌, ◌/◌, ◌%◌, ◌^◌, ◌≤◌, ◌<◌, ◌≡◌, Bool, true, false, ◌&&◌, List, ◌∷◌, bit_and,
  bit_or, length, ◌==◌, if◌then◌else◌,
}
use nans_os.Pic.{Ports}
use nans_os.Ide.{not_busy, drive_ready, wait_rounds}

-- A drive with 28-bit addresses behind byte ports. Its registers 2 to 6 keep what is written to them,
-- and a read command makes it prepare the bytes that `stream` says for the drive, the address and
-- the count in the registers. `busy` counts the polls for which the status still shows BSY; it may
-- be busy at any time but within a sector that it hands over, and for fewer polls than the code
-- makes. When it is not busy it is ready (DRDY), asks for the transfer (DRQ) exactly if bytes are
-- pending, and gives one of them at each read of a byte from the data port. The error register
-- shows no error.
pub record IsDrive {M : Type 0} (p : Ports M) (base : ℕ) (reg : ℕ → M → ℕ) (pending : M → List ℕ)
    (busy : M → ℕ) (stream : ℕ → ℕ → ℕ → List ℕ) : Type 0 where
  pub bsy : (m : M) → not_busy (p.inb (base + 7) m).0 ≡ (busy m == 0)
  pub drdy : (m : M) → busy m ≡ 0 → drive_ready (p.inb (base + 7) m).0 ≡ true
  pub drq :
      (m : M) → busy m ≡ 0 → (bit_and (p.inb (base + 7) m).0 0x08 == 0) ≡ (length (pending m) == 0)
  pub polled : (m : M) → busy (p.inb (base + 7) m).1 ≡ busy m - 1
  pub poll_keeps : (m : M) → pending (p.inb (base + 7) m).1 ≡ pending m
  pub delay : (m : M) → busy (p.outb 0x80 0 m) ≤ busy m
  pub delay_keeps : (m : M) → pending (p.outb 0x80 0 m) ≡ pending m
  pub bounded : (m : M) → busy m < wait_rounds
  pub latches :
      (r r' v : ℕ) (m : M)
      → 2 ≤ r
      → r ≤ 6
      → reg r' (p.outb (base + r) v m) ≡ (if r' == r then v else reg r' m)
  pub starts :
      (m : M)
      → pending (p.outb (base + 7) 0x20 m)
        ≡ stream
            (reg 6 m / 16 % 2)
            (reg 3 m + reg 4 m * 256 + reg 5 m * 65536 + reg 6 m % 16 * 2 ^ 24)
            (reg 2 m)
  pub gives :
      (c : ℕ) (cs : List ℕ) (m : M)
      → pending m ≡ c ∷ cs
      → busy m ≡ 0
      → (pair : (p.inb base m).0 ≡ c) × (pending (p.inb base m).1 ≡ cs)
  pub within :
      (c : ℕ) (cs : List ℕ) (m : M)
      → pending m ≡ c ∷ cs
      → busy m ≡ 0
      → (length cs % 256 == 0) ≡ false
      → busy (p.inb base m).1 ≡ 0
  pub no_error : (m : M) → p.inb (base + 1) m ≡ (0, m)

-- The drive byte holds the number of the drive and the high bits of the address.
drive_test : ℕ → ℕ → Bool
drive_test slave high =
    let b = bit_or (bit_or 0xE0 (slave * 16)) (bit_and high 0x0F) in
    b / 16 % 2 == slave && b % 16 == high
