-- ===== src/Keyboard.antt =====
-- The keyboard driver of src/impl/drivers/keyboard/keyboard.c and keyboard.h, less its messages to
-- the serial port, and the parts of src/impl/drivers/mouse/mouse.c that talk to the controller: the
-- initialisation, enabling and disabling.
pub mod Typing
pub mod Silence
pub mod Starting
mod Tests
use nans_os.Base.{
  ℕ, zero, suc, ◌+◌, ◌-◌, Bool, true, false, not, ◌&&◌, Option, none, some, List, [], ◌∷◌, bit_and,
  bit_or, ◌==◌, if◌then◌else◌,
}
use nans_os.Pic.{Ports, port_byte_in, port_byte_out, pic_send_eoi, pic_clear_mask}
use nans_os.Keymap.{
  KeyboardState, SpecialKeyEvent, update_keyboard_state, is_special_key, handle_special_key,
  scancode_to_ascii,
}

-- The instructions `cli` and `sti`.
pub record Cpu (M : Type 0) : Type 0 where
  pub cli : M → M
  pub sti : M → M

-- The registered callbacks, which act on the devices and the rest of the system.
pub record Callbacks (M : Type 0) : Type 0 where
  pub scancode_callback : Option (ℕ → M → M)
  pub char_callback : Option (ℕ → M → M)
  pub special_callback : Option (SpecialKeyEvent → M → M)

pub record Keyboard : Type 0 where
  pub keyboard_state : KeyboardState
  pub special_event : SpecialKeyEvent

-- A call of a callback, if there is one.
abbrev pub call : {M A : Type 0} → Option (A → M → M) → A → M → M
call none a m = m
call (some f) a m = f a m

-- `status & 1` (a byte is there) and `status & 2` (the controller is not ready for one).
abbrev pub has_data : ℕ → Bool
has_data status = not (bit_and status 1 == 0)

abbrev pub input_full : ℕ → Bool
input_full status = not (bit_and status 2 == 0)

-- `config |= 1`, `config &= ~(1 << 4)`, `config &= ~(1 << 6)`, and what `mouse_init` makes of it.
abbrev pub keyboard_config : ℕ → ℕ
keyboard_config config = bit_and (bit_and (bit_or config 1) 0xEF) 0xBF

abbrev pub mouse_config : ℕ → ℕ
mouse_config config = bit_and (bit_or (bit_and (bit_or config 0x02) 0xDF) 0x01) 0xEF

module _ {M : Type 0} (p : Ports M) (cpu : Cpu M) where
  -- `while (test(status) && timeout > 0) timeout--`: what is left of the timeout.
  unfoldable pub wait_while : (ℕ → Bool) → ℕ → M → ℕ × M
  wait_while test zero m = (zero, (port_byte_in p 0x64 m).1)
  wait_while test (suc timeout) m =
      let (status, m') = port_byte_in p 0x64 m in
      let rest = wait_while test timeout m' in if test status then rest else (suc timeout, m')

  unfoldable pub keyboard_read_scan_code : M → ℕ × M
  keyboard_read_scan_code m =
      let (timeout, m') = wait_while (λ s. not (has_data s)) 10000 m in
      if timeout == 0 then (0, m') else port_byte_in p 0x60 m'

  -- `while (--timeout > 0)` around a test of the status, with `k` rounds left: the first byte that
  -- is wanted.
  unfoldable pub await : (ℕ → Bool) → ℕ → M → Option ℕ × M
  await wanted zero m = (none, m)
  await wanted (suc k) m =
      let (status, m1) = port_byte_in p 0x64 m in
      let (byte, m2) = port_byte_in p 0x60 m1 in
      let later = await wanted k m1 in
      let after = await wanted k m2 in
      if has_data status then (if wanted byte then (some byte, m2) else after) else later

  -- A byte to the data port, behind the command that sends it to the mouse or the configuration.
  abbrev pub after_command : ℕ → ℕ → M → M
  after_command command byte m = port_byte_out p 0x60 byte (port_byte_out p 0x64 command m)

  -- `keyboard_enable` and the three functions like it, by what they send once the controller is
  -- ready: the wait for the acknowledgement goes on for 10000 rounds.
  unfoldable pub send_acknowledged : (M → M) → M → M
  send_acknowledged send m =
      let (timeout, m') = wait_while input_full 10000 m in
      let sent = await (λ b. b == 0xFA) 10000 (send m') in if timeout == 0 then m' else sent.1

  unfoldable pub keyboard_enable : M → M
  keyboard_enable m = send_acknowledged (port_byte_out p 0x60 0xF4) m

  unfoldable pub keyboard_disable : M → M
  keyboard_disable m = send_acknowledged (port_byte_out p 0x60 0xF5) m

  unfoldable pub mouse_enable : M → M
  mouse_enable m = send_acknowledged (after_command 0xD4 0xF4) m

  unfoldable pub mouse_disable : M → M
  mouse_disable m = send_acknowledged (after_command 0xD4 0xF5) m

  -- What follows the reading of the scancode in `keyboard_handler`.
  unfoldable pub deliver : Callbacks M → ℕ → Keyboard → M → Keyboard × M
  deliver callbacks scancode k m =
      let state = update_keyboard_state scancode k.keyboard_state in
      let event = handle_special_key scancode state in
      let c = scancode_to_ascii scancode state in
      let m1 = call callbacks.scancode_callback scancode m in
      if is_special_key scancode
      then (
        record { keyboard_state = state; special_event = event },
        call callbacks.special_callback event m1,
      )
      else (
        record k { keyboard_state = state },
        if c == 0 then m1 else call callbacks.char_callback c m1,
      )

  unfoldable pub keyboard_handler : Callbacks M → Keyboard → M → Keyboard × M
  unfolding deliver
  keyboard_handler callbacks k m =
      let (status, m1) = port_byte_in p 0x64 (cpu.cli m) in
      if not (has_data status)
      then (k, cpu.sti (pic_send_eoi p 1 m1))
      else let (scancode, m2) = keyboard_read_scan_code m1 in
        let (k', m3) = deliver callbacks scancode k m2 in (k', cpu.sti (pic_send_eoi p 1 m3))

  -- An interrupt for each of `n` bytes.
  unfoldable pub handle_bytes : Callbacks M → ℕ → Keyboard → M → Keyboard × M
  handle_bytes callbacks zero k m = (k, m)
  handle_bytes callbacks (suc n) k m =
      let (k', m') = keyboard_handler callbacks k m in handle_bytes callbacks n k' m'

  -- The flush of the output buffer, with fuel: `none` where it runs out.
  unfoldable pub flush : ℕ → M → Option M
  flush zero m = none
  flush (suc fuel) m =
      let (status, m1) = port_byte_in p 0x64 m in
      let rest = flush fuel (port_byte_in p 0x60 m1).1 in if has_data status then rest else some m1

  -- The parts of `mouse_init` behind the configuration: the parameters, and the end.
  unfoldable pub mouse_parameters : M → M
  mouse_parameters m =
      let m1 = after_command 0xD4 0xF3 (port_byte_out p 0x64 0xA8 m) in
      let m2 = after_command 0xD4 0xE8 (port_byte_out p 0x60 100 m1) in
      let m3 = after_command 0xD4 0xE6 (port_byte_out p 0x60 0x03 m2) in
      let m4 = (await (λ b. b == 0xFA) 99999 (after_command 0xD4 0xF4 m3)).1 in
      pic_clear_mask p 12 (port_byte_out p 0x64 0xAE m4)

  -- Whether the mouse was configured, and the state; the mouse's own variables are those of
  -- `initial` in the model of its packets.
  unfoldable pub mouse_init : ℕ → M → Option (Bool × M)
  mouse_init fuel m =
      elim (flush fuel (port_byte_out p 0x64 0xA7 (port_byte_out p 0x64 0xAD (cpu.cli m)))) [
        | none ↦ none
        | some m1 ↦
            let (config, m2) = await (λ b. true) 99999 (port_byte_out p 0x64 0x20 m1) in
            elim config [
              | none ↦ some (false, cpu.sti m2)
              | some c ↦
                  some (true, cpu.sti (mouse_parameters (after_command 0x60 (mouse_config c) m2)))
            ]
      ]

  -- The steps of `keyboard_init` that wait for one answer: whether it came.
  abbrev pub answered : ℕ → ℕ → M → Bool × M
  answered command answer m =
      let (byte, m') = await (λ b. b == answer) 99999 (port_byte_out p 0x60 command m) in
      (elim byte [ none ↦ false | some b ↦ true ], m')

  -- The end of `keyboard_init`, once the keyboard is enabled: whether it got there.
  unfoldable pub finish_init : ℕ → M → Option (Bool × M)
  finish_init fuel m = elim (mouse_init fuel (pic_clear_mask p 1 m)) [
    | none ↦ none
    | some (mouse, m') ↦ some (true, cpu.sti m')
  ]

  -- The reset, its self-test and the enabling.
  unfoldable pub reset_keyboard : ℕ → M → Option (Bool × M)
  reset_keyboard fuel m =
      let (reset, m1) = answered 0xFF 0xFA (port_byte_out p 0x64 0xAE m) in
      let (passed, m2) = await (λ b. b == 0xAA) 99999 m1 in
      let (enabled, m3) = answered 0xF4 0xFA m2 in
      if not reset then some (false, cpu.sti m1) else elim passed [
        | none ↦ some (false, cpu.sti m2)
        | some b ↦ if enabled then finish_init fuel m3 else some (false, cpu.sti m3)
      ]

  unfoldable pub keyboard_init : ℕ → M → Option (Bool × M)
  unfolding reset_keyboard finish_init
  keyboard_init fuel m =
      let (timeout, m0) = wait_while input_full 100000 (cpu.cli m) in
      if timeout == 0
      then some (false, cpu.sti m0)
      else elim (flush fuel (port_byte_out p 0x64 0xA7 (port_byte_out p 0x64 0xAD m0))) [
        | none ↦ none
        | some m1 ↦
            let (config, m2) = await (λ b. true) 99999 (port_byte_out p 0x64 0x20 m1) in
            elim config [
              | none ↦ some (false, cpu.sti m2)
              | some c ↦ reset_keyboard fuel (after_command 0x60 (keyboard_config c) m2)
            ]
      ]
