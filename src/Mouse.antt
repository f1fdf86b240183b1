-- ===== src/Mouse.antt =====
-- The packets of the mouse: the interrupt handler of src/impl/drivers/mouse/mouse.c and mouse.h.
pub mod Bounds
pub mod Packets
mod Tests
use nans_os.Base.{
  ℕ, zero, suc, ◌+◌, ◌-◌, ◌%◌, Bool, true, false, Option, none, some, List, [], ◌∷◌, bit_and, ltb,
  ◌==◌, if◌then◌else◌,
}
use nans_os.Pic.{Ports, port_byte_in, pic_send_eoi}
use nans_os.Base.Int.{ℤ, pos, negsuc, pos_part, neg_part, sub_ℕ}

-- `struct MousePacket`, less the scroll wheel's field, which nothing uses.
pub record MousePacket : Type 0 where
  pub buttons : ℕ
  pub x_movement : ℤ
  pub y_movement : ℤ

-- `struct MouseState`, less the field `scroll`, which stays 0.
pub record MouseState : Type 0 where
  pub x_pos : ℕ
  pub y_pos : ℕ
  pub buttons : ℕ

-- `cycle` and `packet` are the handler's own variables.
pub record Mouse : Type 0 where
  pub state : MouseState
  pub cycle : ℕ
  pub packet : MousePacket

-- The state that `mouse_init` sets, with the handler's variables as they are at the start.
abbrev pub initial : Mouse
initial = record {
  state = record { x_pos = 512; y_pos = 384; buttons = 0 };
  cycle = 0;
  packet = record { buttons = 0; x_movement = pos 0; y_movement = pos 0 };
}

-- `(int8_t)data`.
abbrev pub int8 : ℕ → ℤ
int8 byte = if ltb byte 128 then pos byte else negsuc (255 - byte)

-- `(v < 0) ? 0 : (v > top) ? top : v`
unfoldable pub clamp : ℕ → ℤ → ℕ
clamp top (pos n) = if ltb top n then top else n
clamp top (negsuc n) = 0

-- A position and a movement to the right, or up (the screen's y grows downwards).
abbrev pub plus : ℕ → ℤ → ℤ
plus p m = sub_ℕ (p + pos_part m) (neg_part m)

abbrev pub minus : ℕ → ℤ → ℤ
minus p m = sub_ℕ (p + neg_part m) (pos_part m)

-- The end of a packet: the new state of the mouse.
unfoldable pub finish : MousePacket → MouseState → MouseState
finish p s = record {
  x_pos = clamp 1023 (plus s.x_pos p.x_movement);
  y_pos = clamp 767 (minus s.y_pos p.y_movement);
  buttons = bit_and p.buttons 0x07;
}

-- The switch over `cycle`: the new variables, and whether the callback is called.
unfoldable pub receive : ℕ → Mouse → Mouse × Bool
receive byte m =
    if m.cycle == 0
    then (if bit_and byte 0x08 == 0
        then (m, false)
        else (record m { packet = record (m.packet) { buttons = byte }; cycle = 1 }, false))
    else if m.cycle == 1
    then (record m { packet = record (m.packet) { x_movement = int8 byte }; cycle = 2 }, false)
    else if m.cycle == 2
    then (
      record m {
        packet = record (m.packet) { y_movement = int8 byte };
        state = finish (record (m.packet) { y_movement = int8 byte }) m.state;
        cycle = 0;
      },
      true,
    )
    else (m, false)

-- The handler's variables after an interrupt at which the two ports give `status` and `byte`, and
-- whether the callback is called.
unfoldable pub mouse_step : ℕ → ℕ → Mouse → Mouse × Bool
mouse_step status byte m = if bit_and status 0x20 == 0 then (m, false) else receive byte m

-- `if (mouse_callback) mouse_callback(&mouse_state);`, with `none` for NULL.
abbrev pub call_mouse_callback : {M : Type 0} → Option (MouseState → M → M) → MouseState → M → M
call_mouse_callback none s w = w
call_mouse_callback (some f) s w = f s w

-- The interrupt handler on the devices `w`, less its debug messages.
unfoldable pub mouse_handler :
    {M : Type 0} → Ports M → Option (MouseState → M → M) → Mouse → M → Mouse × M
unfolding mouse_step
mouse_handler p callback m w =
    let (status, w1) = port_byte_in p 0x64 w in
    let (byte, w2) = port_byte_in p 0x60 w1 in
    let (m', called) = mouse_step status byte m in
    let w3 = if called then call_mouse_callback callback m'.state w2 else w2 in
    if bit_and status 0x20 == 0 then (m, pic_send_eoi p 12 w1) else (m', pic_send_eoi p 12 w3)
