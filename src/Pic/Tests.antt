-- ===== src/Pic/Tests.antt =====
-- Controllers on which the theorem of the masks is run.
use nans_os.Base.{ℕ, ◌%◌, ◌≡◌, refl, arith, false, ◌==◌, if◌then◌else◌}
use nans_os.Pic.{Ports, pic1_data, pic2_data, pic_set_mask, pic_clear_mask}
use nans_os.Pic.Masks.{Latched, is_masked, mask-one}

-- The masks of the two controllers.
abbrev Masks : Type 0
Masks = ℕ × ℕ

abbrev mask : ℕ → Masks → ℕ
mask port (a, b) = if port == pic1_data then a % 256 else b % 256

abbrev ports : Ports Masks
ports = record {
  outb =
      λ port v m. if port == pic1_data then (v, m.1) else if port == pic2_data then (m.0, v) else m;
  inb = λ port m. (mask port m, m);
}

ports-Latched : Latched ports mask
ports-Latched = record {
  reads = λ port m d. refl;
  byte = λ port m. ground arith;
  keeps = λ port v m d h. ground arith;
  other = λ port port' v m d d' ne. ground arith;
}

mask-one_example :
    (is_masked mask 14 (pic_set_mask ports 12 (0xF8, 0x0F)) ≡ false)
    × (is_masked mask 14 (pic_clear_mask ports 12 (0xF8, 0x0F)) ≡ false)
mask-one_example = mask-one ports mask 12 14 (0xF8, 0x0F) ports-Latched (omega arith) (omega arith)
