-- ===== src/Mouse/Tests.antt =====
-- Packets on which the theorems of the mouse are run.
use nans_os.Base.{ℕ, ◌%◌, ◌<◌, arith, some, List, [], ◌∷◌, ◌==◌, if◌then◌else◌}
use nans_os.Pic.{Ports}
use nans_os.Mouse.{MouseState, initial}
use nans_os.Mouse.Bounds.{IsValid, GivesBytes, handle_all, handle_all-IsValid}
use nans_os.Mouse.Packets.{packet}

initial-IsValid : IsValid initial
initial-IsValid = record {
  x_pos = omega arith;
  y_pos = omega arith;
  buttons = omega arith;
  cycle = omega arith;
  packet = omega arith;
}

-- The readings of the two ports at each interrupt to come, and the states that the callback is told.
record Wire : Type 0 where
  readings : List (ℕ × ℕ)
  told : List MouseState

abbrev status_of : List (ℕ × ℕ) → ℕ
status_of [] = 0
status_of ((status, byte) ∷ rest) = status

abbrev take_byte : List (ℕ × ℕ) → Wire → ℕ × Wire
take_byte [] w = (0, w)
take_byte ((status, byte) ∷ rest) w = (byte % 256, record w { readings = rest })

abbrev wire : Ports Wire
wire = record {
  outb = λ port v w. w;
  inb = λ port w. if port == 0x64 then (status_of w.readings, w) else take_byte w.readings w;
}

wire-GivesBytes : GivesBytes wire
wire-GivesBytes w = is_byte w.readings w
  where
    is_byte : (rs : List (ℕ × ℕ)) (v : Wire) → (take_byte rs v).0 < 256
    is_byte [] v = omega arith
    is_byte ((status, byte) ∷ rest) v = omega arith

abbrev tell : MouseState → Wire → Wire
tell s w = record w { told = s ∷ w.told }

abbrev packet_comes : Wire
packet_comes = record { readings = (0x20, 9) ∷ (0x20, 100) ∷ (0x21, 250) ∷ []; told = [] }

handle_all-IsValid_example : IsValid (handle_all wire (some tell) 4 initial packet_comes).0
handle_all-IsValid_example =
    handle_all-IsValid wire (some tell) 4 initial packet_comes wire-GivesBytes initial-IsValid
