-- ===== src/Ide/Identify.antt =====
-- The identification of a disk in src/impl/drivers/storage/ide.c, and how its device is made and
-- released.
use nans_os.Base.{
  ℕ, zero, suc, ◌+◌, ◌*◌, ◌/◌, ◌%◌, ◌^◌, Bool, true, false, not, List, [], ◌∷◌, ◌++◌, bit_and, ◌==◌,
  if◌then◌else◌, get_or, set,
}
use nans_os.Base.Int.{ℤ, pos, error}
use nans_os.Pic.{Ports, port_byte_in, port_byte_out}
use nans_os.Storage.{StorageDeviceInfo, is_zero}
use nans_os.Ide.{IdeDevice, Words, ide_select_drive, read_words, wait_rounds}

-- The first loop of `ide_read_identify_space`, with `k` rounds left at the word `at`.
unfoldable pub swapped : ℕ → Words → ℕ → List ℕ
swapped zero buf at = []
swapped (suc k) buf at = buf at / 2 ^ 8 % 256 ∷ buf at % 256 ∷ swapped k buf (at + 1)

-- The second loop, with the index `i - 1` next.
unfoldable pub trimmed : ℕ → List ℕ → List ℕ
trimmed zero dest = dest
trimmed (suc i) dest =
    let rest = trimmed i (set dest i 0) in if get_or dest i 0 == b' ' then rest else dest

-- The `length + 1` bytes at `dest`, for an even `length`.
unfoldable pub ide_read_identify_space : Words → ℕ → ℕ → List ℕ
ide_read_identify_space buf offset length =
    trimmed length (swapped (length / 2) buf offset ++ (0 ∷ []))

-- Two words of the buffer, read as a `uint32_t`.
abbrev pub long_at : Words → ℕ → ℕ
long_at buf i = buf i + buf (i + 1) * 2 ^ 16

-- What the buffer of the identification says of the device.
unfoldable pub identified : Words → IdeDevice → IdeDevice
identified buf dev =
    let large = not (bit_and (long_at buf 164) (2 ^ 26) == 0) in
    record dev {
      signature = buf 0;
      capabilities = buf 98;
      commandsets = long_at buf 164;
      size = if large then long_at buf 200 else long_at buf 120;
      use_lba48 = if large then 1 else 0;
    }

-- What `ide_init_device` returns, what it frees, and what it leaves in the two structures.
pub record Made : Type 0 where
  pub device : ℕ
  pub freed : List ℕ
  pub info : StorageDeviceInfo
  pub ide : IdeDevice

abbrev pub disk_info : ℕ → StorageDeviceInfo → StorageDeviceInfo
disk_info slave info = record info {
  name = b'i' ∷ b'd' ∷ b'e' ∷ (if slave == 0 then b'0' else b'1') ∷ [];
  type = 1;
  flags = 0;
  sector_size = 512;
  max_transfer = 256;
}

-- The sum of the base and a constant, as the `uint16_t` of a port.
abbrev pub sum_port : ℕ → ℕ → ℕ
sum_port base r = (base + r) % 2 ^ 16

module _ {M : Type 0} (p : Ports M) where
  -- The wait for data, with `k` rounds left: whether data are ready. The port is the sum of the
  -- base and of `IDE_PRIMARY_STATUS`, 0x1F7.
  unfoldable pub await_data : ℕ → ℕ → M → Bool × M
  await_data zero base m = (false, m)
  await_data (suc k) base m =
      let (status, m') = port_byte_in p (sum_port base 0x1F7) m in
      let rest = await_data k base m' in
      if not (bit_and status 0x01 == 0)
      then (false, m')
      else if not (bit_and status 0x08 == 0)
      then (true, m')
      else rest

  -- The registers are `IDE_PRIMARY_SECCOUNT`, 0x1F2, and those behind it, each added to the base.
  unfoldable pub ide_identify : IdeDevice → M → ℤ × IdeDevice × M
  ide_identify dev m =
      let put = λ (r v : ℕ) (m : M). port_byte_out p (sum_port dev.base r) v m in
      let m1 = put 0x1F2 0 (ide_select_drive p dev m) in
      let m2 = put 0x1F4 0 (put 0x1F3 0 m1) in
      let m3 = put 0x1F7 0xEC (put 0x1F5 0 m2) in
      let (ready, m4) = await_data wait_rounds dev.base m3 in
      let (buf, m5) = read_words p 256 dev.base 0 (λ i. 0) m4 in
      if ready then (pos 0, identified buf dev, m5) else (error, dev, m4)

  -- `dev` and `ide_dev` are what `malloc` returns; `info` and `ide` are what lies there.
  unfoldable pub ide_init_device :
      (dev ide_dev : ℕ) → StorageDeviceInfo → IdeDevice → ℕ → ℕ → M → Made × M
  ide_init_device dev ide_dev info ide base slave m =
      if dev == 0
      then (record { device = 0; freed = []; info = info; ide = ide }, m)
      else if ide_dev == 0
      then (record { device = 0; freed = dev ∷ []; info = info; ide = ide }, m)
      else let start = record ide { base = base; slave = slave; use_lba48 = 0 } in
        let (r, ide', m') = ide_identify start m in
        let failed = not (is_zero r) in
        (
          record {
            device = if failed then 0 else dev;
            freed = if failed then ide_dev ∷ dev ∷ [] else [];
            info = disk_info slave info;
            ide = ide';
          },
          m',
        )

-- What `ide_cleanup_device` frees of a device with the `private_data`.
unfoldable pub ide_cleanup_device : ℕ → ℕ → List ℕ
ide_cleanup_device dev private_data =
    if dev == 0 then [] else if private_data == 0 then dev ∷ [] else private_data ∷ dev ∷ []
