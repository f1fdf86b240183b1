-- ===== src/Storage/Tests.antt =====
-- Registries on which the theorem of the storage devices is run.
use nans_os.Base.{ℕ, suc, ◌≤◌, ◌≡◌, refl, arith, none, some, [], ◌∷◌, length}
use nans_os.Base.Int.{pos}
use nans_os.Ramdisk.{Name}
use nans_os.Storage.{
  StorageDeviceOps, Storage, run_cleanup, storage_register_device, storage_unregister_device,
  storage_get_device, max_storage_devices,
}
use nans_os.Storage.Registry.{found_with, register-unregister}

-- A disk named by a number, whose initialisation counts up the state.
abbrev ops : StorageDeviceOps ℕ
ops = record {
  init = λ _. some (λ d. (pos 0, suc d));
  cleanup = λ _. none;
  info = λ p d. record {
    name = p ∷ [];
    type = 1;
    flags = 0;
    total_sectors = 2048;
    sector_size = 512;
    max_transfer = 256;
  };
}

abbrev registry : Storage ℕ
registry = record { devices = 64 ∷ []; state = 1 }

register-unregister_example :
    let (r, t) = storage_register_device ops 128 registry in
    (r ≡ pos 0)
    × (length t.devices ≤ max_storage_devices)
    × ((name : Name) → storage_get_device ops name t ≡ found_with ops 128 name registry 2)
    × (storage_unregister_device ops 128 t
        ≡ record { devices = 64 ∷ []; state = run_cleanup ops 128 2 })
register-unregister_example =
    register-unregister ops 128 registry 2 (λ e. ground arith) (omega arith) refl refl
