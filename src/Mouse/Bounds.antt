-- ===== src/Mouse/Bounds.antt =====
-- Where the mouse can be.
use nans_os.Base.{
  ℕ, zero, suc, Option, Bool-cases, inl, inr, ◌%◌, ◌≤◌, ◌<◌, ◌≡◌, arith, Bool, true, ◌==◌, refl,
  bit_and, passes, passes-at,
}
use nans_os.Base.Int.{ℤ, pos, negsuc}
use nans_os.Pic.{Ports, port_byte_in}
use nans_os.Mouse.{MouseState, Mouse, clamp, finish, receive, mouse_handler, plus, minus, int8}

-- On the screen, and within a packet of bytes.
pub record IsValid (m : Mouse) : Type 0 where
  pub x_pos : m.state.x_pos ≤ 1023
  pub y_pos : m.state.y_pos ≤ 767
  pub buttons : m.state.buttons < 8
  pub cycle : m.cycle ≤ 2
  pub packet : m.packet.buttons < 256

pub clamp-le : (top : ℕ) (v : ℤ) → clamp top v ≤ top
unfolding clamp
clamp-le top (pos n) = ground arith
clamp-le top (negsuc n) = omega arith

-- `n` interrupts, one after the other.
abbrev pub handle_all :
    {M : Type 0} → Ports M → Option (MouseState → M → M) → ℕ → Mouse → M → Mouse × M
handle_all p callback zero m w = (m, w)
handle_all p callback (suc n) m w =
    let (m', w') = mouse_handler p callback m w in handle_all p callback n m' w'

-- What is read from the data port is a byte.
abbrev pub GivesBytes : {M : Type 0} → Ports M → Type 0
GivesBytes {M} p = (w : M) → (p.inb 0x60 w).0 < 256

low_bits_agree : ℕ → Bool
low_bits_agree b = bit_and b 0x07 == b % 8

low_bits_table : passes 256 low_bits_agree ≡ true
unfolding passes low_bits_agree
low_bits_table = refl

pub low_bits : (b : ℕ) → b < 256 → bit_and b 0x07 ≡ b % 8
unfolding low_bits_agree
low_bits b h = ground (arith, passes-at 256 low_bits_agree b low_bits_table h)

receive-IsValid : (byte : ℕ) (m : Mouse) → byte < 256 → IsValid m → IsValid (receive byte m).0
unfolding receive finish
receive-IsValid byte m h v = record {
  x_pos = ground (arith, v.x_pos, clamp-le 1023 (plus m.state.x_pos m.packet.x_movement));
  y_pos = ground (arith, v.y_pos, clamp-le 767 (minus m.state.y_pos (int8 byte)));
  buttons = ground (arith, v.buttons, low_bits m.packet.buttons v.packet);
  cycle = ground (arith, v.cycle);
  packet = ground (arith, v.packet);
}

handler-IsValid :
    {M : Type 0} (p : Ports M) (callback : Option (MouseState → M → M)) (m : Mouse) (w : M)
    → GivesBytes p
    → IsValid m
    → IsValid (mouse_handler p callback m w).0
unfolding mouse_handler port_byte_in
handler-IsValid p callback m w h v = elim (Bool-cases (bit_and (p.inb 0x64 w).0 0x20 == 0)) [
  | inl e ↦ rw e v
  | inr e ↦ let w1 = (p.inb 0x64 w).1 in rw e (receive-IsValid (p.inb 0x60 w1).0 m (h w1) v)
]

-- From a valid state, whatever bytes arrive, at whatever status, and whatever the callback does,
-- after any number of interrupts the pointer is within 1024 by 768, the buttons are three bits, and
-- the handler waits for one of the three bytes of a packet.
pub handle_all-IsValid :
    {M : Type 0} (p : Ports M) (callback : Option (MouseState → M → M)) (n : ℕ) (m : Mouse) (w : M)
    → GivesBytes p
    → IsValid m
    → IsValid (handle_all p callback n m w).0
handle_all-IsValid p callback zero m w b v = v
handle_all-IsValid p callback (suc n) m w b v =
    let (m', w') = mouse_handler p callback m w in
    handle_all-IsValid p callback n m' w' b (handler-IsValid p callback m w b v)
