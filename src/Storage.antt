-- ===== src/Storage.antt =====
-- The registry of storage devices: src/impl/drivers/storage/storage.c and storage.h.
pub mod Registry
mod Tests
use Prim.Native.String.{String}
use nans_os.Base.{
  ℕ, zero, suc, ◌≤◌, Bool, true, false, ◌&&◌, not, Option, none, some, List, [], ◌∷◌, ◌++◌, leb,
  ltb, ◌==◌, if◌then◌else◌, length,
}
use nans_os.Base.Int.{ℤ, pos, error}
use nans_os.Ramdisk.{Name, name_eq}

abbrev pub max_storage_devices : ℕ
max_storage_devices = 16

-- An address of a device; 0 is NULL.
abbrev pub Ptr : Type 0
Ptr = ℕ

-- `struct StorageDeviceInfo`, less the texts that only the messages show.
pub record StorageDeviceInfo : Type 0 where
  pub name : Name
  pub type : ℕ
  pub flags : ℕ
  pub total_sectors : ℕ
  pub sector_size : ℕ
  pub max_transfer : ℕ

-- The two operations of `struct StorageDeviceOps` that the registry calls, over the state `D` of the
-- devices, in which their information lies; `none` is a null pointer (`ops` or the operation).
pub record StorageDeviceOps (D : Type 0) : Type 0 where
  pub init : Ptr → Option (D → ℤ × D)
  pub cleanup : Ptr → Option (D → D)
  pub info : Ptr → D → StorageDeviceInfo

-- `devices` lists the entries below `num_devices`.
pub record Storage (D : Type 0) : Type 0 where
  pub devices : List Ptr
  pub state : D

-- The loop of the removal, at the first entry that is the device.
unfoldable pub remove_device : Ptr → List Ptr → Option (List Ptr)
remove_device dev [] = none
remove_device dev (d ∷ ds) =
    if d == dev
    then some ds
    else elim (remove_device dev ds) [ none ↦ none | some ds' ↦ some (d ∷ ds') ]

unfoldable pub storage_type_to_string : ℕ → String
storage_type_to_string type =
    if type == 1
    then "IDE"
    else if type == 2
    then "AHCI"
    else if type == 3
    then "NVMe"
    else if type == 4
    then "RAM Disk"
    else "Unknown"

abbrev pub is_zero : ℤ → Bool
is_zero (pos n) = n == 0
is_zero _ = false

module _ {D : Type 0} (o : StorageDeviceOps D) where
  unfoldable pub storage_init : Storage D → Storage D
  storage_init s = record s { devices = [] }

  abbrev pub run_init : Ptr → D → ℤ × D
  run_init dev d = elim (o.init dev) [ none ↦ (pos 0, d) | some f ↦ f d ]

  unfoldable pub storage_register_device : Ptr → Storage D → ℤ × Storage D
  storage_register_device dev s =
      if dev == 0
      then (error, s)
      else if leb max_storage_devices (length s.devices)
      then (error, s)
      else let (result, d) = run_init dev s.state in
        if not (is_zero result)
        then (result, record s { state = d })
        else (pos 0, record { devices = s.devices ++ (dev ∷ []); state = d })

  abbrev pub run_cleanup : Ptr → D → D
  run_cleanup dev d = elim (o.cleanup dev) [ none ↦ d | some f ↦ f d ]

  unfoldable pub storage_unregister_device : Ptr → Storage D → Storage D
  storage_unregister_device dev s = if dev == 0 then s else elim (remove_device dev s.devices) [
    | none ↦ s
    | some ds ↦ record { devices = ds; state = run_cleanup dev s.state }
  ]

  -- NULL where no device has the name.
  unfoldable pub find_device : Name → List Ptr → D → Ptr
  find_device name [] d = 0
  find_device name (p ∷ ps) d =
      let rest = find_device name ps d in
      if not (p == 0) && name_eq (o.info p d).name name then p else rest

  unfoldable pub storage_get_device : Name → Storage D → Ptr
  storage_get_device name s = find_device name s.devices s.state

  -- The entries that are written to the list, at most `max_devices` of them (a negative maximum is 0).
  unfoldable pub first_infos : ℕ → List Ptr → D → List StorageDeviceInfo
  first_infos zero ps d = []
  first_infos (suc n) [] d = []
  first_infos (suc n) (p ∷ ps) d = o.info p d ∷ first_infos n ps d

  unfoldable pub storage_get_device_list : ℕ → Storage D → ℕ × List StorageDeviceInfo
  storage_get_device_list max_devices s = (
    (if ltb (length s.devices) max_devices then length s.devices else max_devices),
    first_infos max_devices s.devices s.state,
  )

  unfoldable pub storage_probe_devices : Storage D → Ptr
  storage_probe_devices s = elim s.devices [ [] ↦ 0 | d ∷ ds ↦ d ]
