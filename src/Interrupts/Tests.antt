-- ===== src/Interrupts/Tests.antt =====
-- Interrupts on which the theorems are run.
use nans_os.Base.{
  ℕ, ◌-◌, ◌%◌, ◌≡◌, refl, sym, arith, false, none, some, ◌&&◌, ◌||◌, List, [], ◌∷◌, ◌++◌,
  append-nil, bit_and, ltb, ◌==◌, if◌then◌else◌, Bool-cases, inl, inr,
}
use nans_os.Interrupts.{
  Handler, Idt, InterruptFrame, entry_for, idt_init, isr, gates, default_handler,
}
use nans_os.Interrupts.Gates.{handler_at, handler_of, target, idt_init-dispatches}
use nans_os.Interrupts.System.{System, Context, interrupt}
use nans_os.Interrupts.Drivers.{IsLogged}
use nans_os.Interrupts.Acknowledged.{named, halts, interrupt-acknowledged}
use nans_os.Pic.{Ports}
use nans_os.Serial.Sent.{IsUart}
use nans_os.Keymap.{KeyboardState}
use nans_os.Mouse.{initial}

-- All handlers at one address.
abbrev address : Handler → ℕ
address h = 0xFFFFFFFF80101234

abbrev no_gates : Idt
no_gates = λ v. entry_for 0 0

idt_init-dispatches_example :
    (target (idt_init address no_gates 44) ≡ address (handler_of 44))
    × ((idt_init address no_gates 44).attributes ≡ 0x8E)
    × ((idt_init address no_gates 44).kernel_cs ≡ 0x08)
idt_init-dispatches_example =
    idt_init-dispatches address no_gates 44 (λ h. omega arith) (omega arith)

abbrev frame : InterruptFrame
frame = record { error_code = 2; rip = 0x1000; cs = 8; rflags = 2; rsp = 0x7000; ss = 16 }

-- The log of the acknowledgements, what was sent to the serial port, and the polls for which it is
-- busy. The keyboard controller has a byte of the mouse.
record Board : Type 0 where
  log : List ℕ
  out : List ℕ
  slow : ℕ

abbrev board : Ports Board
board = record {
  outb = λ port v m.
      if port == 0x3F8
      then record m { out = m.out ++ (v ∷ []); slow = 3 }
      else if v == 0x20 && (port == 0x20 || port == 0xA0)
      then record m { log = m.log ++ (port ∷ []) }
      else m;
  inb = λ port m.
      if port == 0x3FD
      then (if m.slow % 8 == 0 then 0x60 else 0, record m { slow = m.slow % 8 - 1 })
      else if port == 0x64
      then (0x21, m)
      else (8, m);
}

-- A callback that counts on the serial side only.
abbrev at_board : Context Board
at_board = record {
  ports = board;
  cpu = record { cli = λ m. m; sti = λ m. m };
  callbacks = record {
    scancode_callback = none;
    char_callback = some (λ c m. record m { out = m.out ++ (c ∷ []) });
    special_callback = none;
  };
  mouse_callback = some (λ s m. record m { slow = 1 });
  fuel = 9;
  output = λ a m. record m { out = m.out ++ (0 ∷ []) };
}

abbrev log_of : Board → List ℕ
log_of m = m.log

abbrev sent_of : Board → List ℕ
sent_of m = m.out

abbrev slow_of : Board → ℕ
slow_of m = m.slow % 8

board-IsLogged : IsLogged at_board log_of
board-IsLogged = record {
  written = λ port v m. logged port v m;
  read = λ port m. ground arith;
  cli = λ m. refl;
  sti = λ m. refl;
  message = λ a m. refl;
  on_scancode = λ c m. refl;
  on_char = λ c m. refl;
  on_special = λ e m. refl;
  on_mouse = λ s m. refl;
}
  where
    logged :
        (port v : ℕ) (m : Board)
        → log_of (board.outb port v m)
          ≡ log_of m ++ (if v == 0x20 && (port == 0x20 || port == 0xA0) then port ∷ [] else [])
    logged port v m = elim (Bool-cases (port == 0x3F8)) [
      | inl e ↦
          let other : (v == 0x20 && (port == 0x20 || port == 0xA0)) ≡ false = ground arith in
          rw (e, other) (sym (append-nil m.log))
      | inr e ↦ rw e (elim (Bool-cases (v == 0x20 && (port == 0x20 || port == 0xA0))) [
        | inl c ↦ rw c refl
        | inr c ↦ rw c (sym (append-nil m.log))
      ])
    ]

board-IsUart : IsUart board sent_of slow_of 7
board-IsUart = record {
  status = λ m. shows m.slow;
  polled = λ m. omega arith;
  bounded = λ m. omega arith;
  quiet = λ m. refl;
  sends = λ c m. refl;
}
  where
    shows : (n : ℕ) → (bit_and (if n % 8 == 0 then 0x60 else 0) 0x20 == 0) ≡ ltb 0 (n % 8)
    shows n = ground arith

abbrev no_modifiers : KeyboardState
no_modifiers = record {
  shift_pressed = false;
  ctrl_pressed = false;
  alt_pressed = false;
  caps_lock = false;
  num_lock = false;
  scroll_lock = false;
  extended = false;
}

abbrev system : System Board
system = record {
  timer = record { tick_count = 99; callback = some (λ m. record m { slow = 2 }) };
  keyboard = record {
    keyboard_state = no_modifiers;
    special_event = record { key_code = 0; is_pressed = false; state = no_modifiers };
  };
  mouse = initial;
  machine = record { log = []; out = []; slow = 0 };
}

interrupt-acknowledged_example :
    let acts = isr (handler_at gates 44 default_handler) frame 0 in
    (s' : System Board) × (interrupt at_board 44 frame 0 system ≡ some s')
    × (log_of s'.machine ≡ [] ++ (0xA0 ∷ 0x20 ∷ []))
    × (named acts ≡ [])
    × (halts acts ≡ false)
interrupt-acknowledged_example =
    interrupt-acknowledged at_board log_of sent_of slow_of 7 frame 0 44 system board-IsLogged
      board-IsUart (omega arith) (λ m. refl) (omega arith)
