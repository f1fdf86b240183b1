-- ===== src/Ide/Made.antt =====
-- How `ide_init_device` of src/impl/drivers/storage/ide.c ends.
use nans_os.Base.{
  ℕ, zero, suc, ◌+◌, ◌%◌, ◌^◌, ◌≡◌, refl, arith, true, false, bit_and, ◌==◌, inl, inr, Bool-cases,
}
use nans_os.Pic.{Ports, port_byte_in, port_byte_out}
use nans_os.Storage.{StorageDeviceInfo}
use nans_os.Base.Int.{error}
use nans_os.Ide.{IdeDevice, wait_rounds, ide_select_drive}
use nans_os.Ide.Identify.{sum_port, await_data, ide_identify, ide_init_device, ide_cleanup_device}

module _ {M : Type 0} (p : Ports M) (base status : ℕ) where
  -- A wait on a port that always shows the same status without data and without an error.
  await_data-quiet :
      (k : ℕ) (m : M)
      → ((m' : M) → p.inb ((base + 0x1F7) % 2 ^ 16) m' ≡ (status, m'))
      → (bit_and status 0x01 == 0) ≡ true
      → (bit_and status 0x08 == 0) ≡ true
      → await_data p k base m ≡ (false, m)
  unfolding await_data port_byte_in
  await_data-quiet zero m q e d = refl
  await_data-quiet (suc k) m q e d = rw (await_data, q m, e, d) (await_data-quiet k m q e d)

identify-fails :
    {M : Type 0} (p : Ports M) (status : ℕ) (dev : IdeDevice) (m : M)
    → ((m' : M) → p.inb ((dev.base + 0x1F7) % 2 ^ 16) m' ≡ (status, m'))
    → (bit_and status 0x01 == 0) ≡ true
    → (bit_and status 0x08 == 0) ≡ true
    → (m' : M) × (ide_identify p dev m ≡ (error, dev, m'))
unfolding ide_identify
identify-fails {M} p status dev m q e d =
    let put = λ (r v : ℕ) (m : M). port_byte_out p (sum_port dev.base r) v m in
    let m1 = put 0x1F2 0 (ide_select_drive p dev m) in
    let m2 = put 0x1F4 0 (put 0x1F3 0 m1) in
    let m3 = put 0x1F7 0xEC (put 0x1F5 0 m2) in
    (m3, rw (await_data-quiet p dev.base status wait_rounds m3 q e d) refl)

-- A port that is the base plus 0x1F7 (in 16 bits) and always shows the same status, with neither an error nor
-- data (`ide_identify` polls that port, though the status of the drive is at the base plus 7): then
-- `ide_init_device` returns NULL, and it has freed exactly what it allocated, as
-- `ide_cleanup_device` does for a whole device.
pub init_device-fails :
    {M : Type 0} (p : Ports M) (dev ide_dev : ℕ) (info : StorageDeviceInfo) (ide : IdeDevice)
    (base slave status : ℕ) (m : M)
    → ((m' : M) → p.inb ((base + 0x1F7) % 2 ^ 16) m' ≡ (status, m'))
    → bit_and status 0x01 ≡ 0
    → bit_and status 0x08 ≡ 0
    → let made = (ide_init_device p dev ide_dev info ide base slave m).0 in
      (made.device ≡ 0) × (made.freed ≡ ide_cleanup_device dev ide_dev)
unfolding ide_init_device ide_identify ide_cleanup_device
init_device-fails p dev ide_dev info ide base slave status m q e d =
    let start : IdeDevice = record ide { base = base; slave = slave; use_lba48 = 0 } in
    let (m', failed) = identify-fails p status start m q (ground arith) (ground arith) in
    elim (Bool-cases (dev == 0)) [
      | inl z ↦ rw z (refl, refl)
      | inr nz ↦ elim (Bool-cases (ide_dev == 0)) [
        | inl z ↦ rw (nz, z) (refl, refl)
        | inr nz' ↦ rw (nz, nz', failed) (refl, refl)
      ]
    ]
