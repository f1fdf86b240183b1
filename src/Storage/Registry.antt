-- ===== src/Storage/Registry.antt =====
-- What registering a device changes, and what unregistering it restores.
use nans_os.Base.{
  ◌≤◌, ◌<◌, ◌≡◌, ◌≢◌, refl, arith, Bool, false, ◌||◌, some, List, [], ◌∷◌, ◌++◌, leb, ◌==◌,
  if◌then◌else◌, length, length-append,
}
use nans_os.Base.Int.{pos}
use nans_os.Ramdisk.{Name, name_eq}
use nans_os.Storage.{
  Ptr, max_storage_devices, StorageDeviceOps, Storage, remove_device, run_init, run_cleanup,
  storage_register_device, storage_unregister_device, find_device, storage_get_device,
}

abbrev pub listed : Ptr → List Ptr → Bool
listed dev [] = false
listed dev (d ∷ ds) = d == dev || listed dev ds

remove-last :
    (dev : Ptr) (ds : List Ptr)
    → listed dev ds ≡ false
    → remove_device dev (ds ++ (dev ∷ [])) ≡ some ds
unfolding remove_device
remove-last dev [] h = ground arith
remove-last dev (d ∷ ds) h =
    let e : remove_device dev (ds ++ (dev ∷ [])) ≡ some ds = remove-last dev ds (ground arith) in
    let q : (d == dev) ≡ false = ground arith in rw (q, remove_device) (rw (e, remove_device) refl)

find_device-append :
    {D : Type 0} (o : StorageDeviceOps D) (name : Name) (ps : List Ptr) (dev : Ptr) (d : D)
    → dev ≢ 0
    → find_device o name (ps ++ (dev ∷ [])) d ≡ (
        if find_device o name ps d == 0
        then (if name_eq (o.info dev d).name name then dev else 0)
        else find_device o name ps d)
unfolding find_device
find_device-append o name [] dev d ne = ground arith
find_device-append o name (p ∷ ps) dev d ne = ground (arith, find_device-append o name ps dev d ne)

-- The registry after a device is registered: every name leads where it led, and one that led nowhere
-- leads to the device if it is the device's.
abbrev pub found_with : {D : Type 0} → StorageDeviceOps D → Ptr → Name → Storage D → D → Ptr
found_with o dev name s d =
    let before = find_device o name s.devices d in
    if before == 0 then (if name_eq (o.info dev d).name name then dev else 0) else before

register-added :
    {D : Type 0} (o : StorageDeviceOps D) (dev : Ptr) (s : Storage D) (d : D)
    → (dev == 0) ≡ false
    → length s.devices < max_storage_devices
    → run_init o dev s.state ≡ (pos 0, d)
    → storage_register_device o dev s
      ≡ (pos 0, record { devices = s.devices ++ (dev ∷ []); state = d })
unfolding storage_register_device
register-added o dev s d z few ok =
    let f : leb max_storage_devices (length s.devices) ≡ false = ground arith in
    rw (z, storage_register_device)
      (rw (f, storage_register_device) (rw (ok, storage_register_device) refl))

unregister-last :
    {D : Type 0} (o : StorageDeviceOps D) (dev : Ptr) (ds : List Ptr) (d : D)
    → (dev == 0) ≡ false
    → listed dev ds ≡ false
    → storage_unregister_device o dev (record { devices = ds ++ (dev ∷ []); state = d })
      ≡ record { devices = ds; state = run_cleanup o dev d }
unfolding storage_unregister_device
unregister-last o dev ds d z fresh =
    rw (z, storage_unregister_device)
      (rw (remove-last dev ds fresh, storage_unregister_device) refl)

-- A device that is not registered yet, and whose initialisation succeeds, is registered while there
-- are fewer than 16: a name that leads nowhere and is the device's then leads to it, every other name
-- leads where it led, and unregistering the device restores the list and cleans the device up.
pub register-unregister :
    {D : Type 0} (o : StorageDeviceOps D) (dev : Ptr) (s : Storage D) (d : D)
    → dev ≢ 0
    → length s.devices < max_storage_devices
    → listed dev s.devices ≡ false
    → run_init o dev s.state ≡ (pos 0, d)
    → let (r, t) = storage_register_device o dev s in
      (r ≡ pos 0)
      × (length t.devices ≤ max_storage_devices)
      × ((name : Name) → storage_get_device o name t ≡ found_with o dev name s d)
      × (storage_unregister_device o dev t
          ≡ record { devices = s.devices; state = run_cleanup o dev d })
unfolding storage_get_device
register-unregister o dev s d ne few fresh ok =
    let z : (dev == 0) ≡ false = ground arith in
    rw (register-added o dev s d z few ok) (
      refl,
      omega (arith, length-append s.devices (dev ∷ [])),
      (λ name. find_device-append o name s.devices dev d ne),
      unregister-last o dev s.devices d z fresh,
    )
