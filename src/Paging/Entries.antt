-- ===== src/Paging/Entries.antt =====
-- What `|` makes of an aligned address and the flags of an entry.
use nans_os.Base.{
  ℕ, ◌+◌, ◌*◌, ◌/◌, ◌%◌, ◌^◌, ◌<◌, ◌≡◌, refl, arith, true, false, bit_or, or-halves, or_low,
}
use nans_os.Paging.{is_present, is_huge, frame_of}

pub entry-sum : (page flags : ℕ) → page % 4096 ≡ 0 → flags < 4096 → bit_or page flags ≡ page + flags
entry-sum page flags al h =
    let q : page ≡ page / 4096 * 2 ^ 12 = omega arith in rw q (or_low 12 (page / 4096) flags h)

-- Flags that mark an entry as present and not as a huge page.
pub record IsFlags (flags : ℕ) : Type 0 where
  pub below : flags < 4096
  pub present : flags % 2 ≡ 1
  pub small : flags / 128 % 2 ≡ 0

pub table-entry :
    (page flags : ℕ)
    → page % 4096 ≡ 0
    → IsFlags flags
    → (is_present (bit_or page flags) ≡ true)
      × (is_huge (bit_or page flags) ≡ false)
      × (frame_of (bit_or page flags) ≡ page)
table-entry page flags al f =
    let q = entry-sum page flags al f.below in
    let p1 : (page + flags) % 2 ≡ 1 = omega (arith, f.present) in
    let p2 : (page + flags) / 128 % 2 ≡ 0 = omega (arith, f.small) in
    rw q (rw p1 refl, rw p2 refl, omega (arith, f.below))

pub present-or : (phys flags : ℕ) → IsFlags flags → is_present (bit_or phys flags) ≡ true
present-or phys flags f =
    let p : bit_or phys flags % 2 ≡ 1 = omega (arith, or-halves phys flags, f.present) in rw p refl
