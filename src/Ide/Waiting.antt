-- ===== src/Ide/Waiting.antt =====
-- The waits of src/impl/drivers/storage/ide.c, and what becomes of a request that is not served.
use nans_os.Base.{ℕ, Bool, ◌&&◌, Option, none, some}
use nans_os.Ide.{IdeDevice, not_busy, drive_ready}

abbrev pub is_ready : ℕ → Bool
is_ready status = not_busy status && drive_ready status

-- The base port of a device.
abbrev pub base_of : Option IdeDevice → ℕ
base_of none = 0
base_of (some dev) = dev.base
