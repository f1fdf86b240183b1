-- ===== src/Keyboard/Starting.antt =====
-- How `keyboard_init` of src/impl/drivers/keyboard/keyboard.c ends, answers or no answers.
use nans_os.Base.{ℕ, ◌≤◌, ◌<◌, ◌≡◌, Bool, true, false, Option, some, ◌==◌, if◌then◌else◌}
use nans_os.Pic.{Ports, without_bit}
use nans_os.Keyboard.Silence.{Silence}
use nans_os.Keyboard.{Cpu, has_data}

-- What is relied on: port 0x21 holds the mask of the first controller, which nothing else changes;
-- `left` bounds the bytes that the controller and its devices may still hand over before they get
-- another command, those that are yet to arrive included: a byte that is read while the status shows
-- one is one less, and there are never more than `limit`. When they arrive is open. `sti` sets the
-- interrupt flag.
pub record IsHardware {M : Type 0} (p : Ports M) (cpu : Cpu M) (mask left : M → ℕ)
    (enabled : M → Bool) (limit : ℕ) : Type 0 where
  pub written : (port v : ℕ) (m : M) → mask (p.outb port v m) ≡ (if port == 0x21 then v else mask m)
  pub read_keeps : (port : ℕ) (m : M) → mask (p.inb port m).1 ≡ mask m
  pub reads : (m : M) → (p.inb 0x21 m).0 ≡ mask m
  pub cli_keeps : (m : M) → mask (cpu.cli m) ≡ mask m
  pub sti_keeps : (m : M) → mask (cpu.sti m) ≡ mask m
  pub sti_enables : (m : M) → enabled (cpu.sti m) ≡ true
  pub taken :
      (m : M) → has_data (p.inb 0x64 m).0 ≡ true → left (p.inb 0x60 (p.inb 0x64 m).1).1 < left m
  pub bounded : (m : M) → left m ≤ limit

module _ {M : Type 0} (p : Ports M) (cpu : Cpu M) (mask left : M → ℕ) (enabled : M → Bool)
    (limit : ℕ) (d : IsHardware p cpu mask left enabled limit) where
  -- The outcome of the start: with `true` the keyboard's line is unmasked, with `false` no line is,
  -- and something was silent; the interrupts are on in either case.
  abbrev Started : M → ℕ → Option (Bool × M) → Type 0
  Started from before run =
      (done : Bool) × (m' : M) × (run ≡ some (done, m'))
      × (mask m' ≡ (if done then without_bit before 1 else before))
      × (enabled m' ≡ true)
      × (done ≡ false → Silence p cpu from)
