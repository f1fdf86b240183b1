-- ===== src/Ide/Tests.antt =====
-- A drive on which the theorems are run, and one that stays busy.
use nans_os.Base.{
  ℕ, length, ◌+◌, ◌-◌, ◌*◌, ◌/◌, ◌%◌, ◌^◌, ◌≡◌, refl, arith, ◌&&◌, List, [], ◌∷◌, replicate, leb,
  ◌==◌, if◌then◌else◌,
}
use nans_os.Pic.{Ports}
use nans_os.Ide.{IdeDevice, Words}
use nans_os.Storage.{StorageDeviceInfo}
use nans_os.Ide.Identify.{ide_init_device, ide_cleanup_device}
use nans_os.Ide.Made.{init_device-fails}

record Disk : Type 0 where
  regs : ℕ → ℕ
  pending : List ℕ
  delay : ℕ

abbrev stream : ℕ → ℕ → ℕ → List ℕ
stream slave lba count = replicate (256 * count) (lba % 256)

abbrev reg : ℕ → Disk → ℕ
reg r m = m.regs r

abbrev bytes : Disk → List ℕ
bytes m = m.pending

-- It is busy for five polls after a command, and for three before each further sector.
abbrev waits : Disk → ℕ
waits m = m.delay % 8

abbrev asks : List ℕ → ℕ
asks [] = 0x50
asks (c ∷ cs) = 0x58

abbrev poll : Disk → ℕ × Disk
poll m = (if m.delay % 8 == 0 then asks m.pending else 0xD0, record m { delay = m.delay % 8 - 1 })

abbrev started : Disk → Disk
started m = record m {
  pending =
      stream (m.regs 6 / 16 % 2)
        (m.regs 3 + m.regs 4 * 256 + m.regs 5 * 65536 + m.regs 6 % 16 * 2 ^ 24) (m.regs 2);
  delay = 5;
}

abbrev latched : ℕ → ℕ → Disk → Disk
latched r v m = record m { regs = λ r'. if r' == r then v else m.regs r' }

abbrev next_byte : List ℕ → Disk → ℕ × Disk
next_byte [] m = (0, m)
next_byte (c ∷ cs) m = (c, record m { pending = cs; delay = if length cs % 256 == 0 then 3 else 0 })

abbrev primary : Ports Disk
primary = record {
  outb = λ port v m.
      if port == 0x1F7
      then started m
      else if leb 0x1F2 port && leb port 0x1F6
      then latched (port - 0x1F0) v m
      else m;
  inb = λ port m.
      if port == 0x1F7 then poll m else if port == 0x1F0 then next_byte m.pending m else (0, m);
}

abbrev ide0 : IdeDevice
ide0 = record {
  base = 0x1F0;
  slave = 0;
  use_lba48 = 0;
  signature = 0;
  capabilities = 0;
  commandsets = 0;
  size = 1000;
}

abbrev idle : Disk
idle = record { regs = λ r. 0; pending = []; delay = 2 }

abbrev blank : Words
blank = λ i. 0

-- A status that stays 0x80.
abbrev busy : Ports Disk
busy = record { outb = λ port v m. m; inb = λ port m. (0x80, m) }

abbrev raw_info : StorageDeviceInfo
raw_info = record {
  name = [];
  type = 0;
  flags = 0;
  total_sectors = 0;
  sector_size = 0;
  max_transfer = 0;
}

init_device-fails_example :
    ((ide_init_device primary 64 128 raw_info ide0 0x1F0 0 idle).0.device ≡ 0)
    × ((ide_init_device primary 64 128 raw_info ide0 0x1F0 0 idle).0.freed
        ≡ ide_cleanup_device 64 128)
init_device-fails_example =
    init_device-fails primary 64 128 raw_info ide0 0x1F0 0 0 idle (λ m. refl) (omega arith)
      (omega arith)
