-- ===== src/Keyboard/Tests.antt =====
-- A controller, a processor and callbacks on which the theorems are run.
use nans_os.Base.{
  Option, ℕ, ◌+◌, ◌-◌, ◌&&◌, ◌≡◌, refl, arith, Bool, true, false, not, none, some, List, [], ◌∷◌,
  ◌++◌, bit_and, ◌==◌, if◌then◌else◌,
}
use nans_os.Pic.{Ports, port_byte_in, port_byte_out, pic_clear_mask}
use nans_os.Keymap.{
  KeyboardState, update_keyboard_state, is_special_key, scancode_to_ascii, key_char, use_uppercase,
  ascii_uppercase, ascii_lowercase,
}
use nans_os.Keyboard.{
  Cpu, Callbacks, Keyboard, handle_bytes, keyboard_init, reset_keyboard, finish_init, mouse_init,
  mouse_parameters, wait_while, await, flush,
}
use nans_os.Keyboard.Typing.{
  View, IsController, IsTyping, state_after, typed_by, is_full, keyboard-types,
}
use nans_os.Keyboard.Silence.{Silence}

-- The bytes that the controller holds, and what has been typed.
record Desk : Type 0 where
  bytes : List ℕ
  typed : List ℕ

abbrev view : Desk → View
view m = (m.bytes, m.typed)

abbrev take_byte : List ℕ → Desk → ℕ × Desk
take_byte [] m = (0, m)
take_byte (c ∷ cs) m = (c, record m { bytes = cs })

abbrev desk : Ports Desk
desk = record {
  outb = λ port v m. m;
  inb = λ port m.
      if port == 0x64
      then (if is_full m.bytes then 1 else 0, m)
      else if port == 0x60
      then take_byte m.bytes m
      else (0, m);
}

abbrev plain : {M : Type 0} → Cpu M
plain = record { cli = λ m. m; sti = λ m. m }

full_status : (b : Bool) → not (bit_and (if b then 1 else 0) 1 == 0) ≡ b
full_status true = refl
full_status false = refl

desk-IsController : IsController desk plain view
desk-IsController = record {
  status = λ m. full_status (is_full m.bytes);
  status_keeps = λ m. refl;
  gives = λ c cs ts m e. taken c cs ts m e;
  ends = λ m. refl;
  clears = λ m. refl;
  sets = λ m. refl;
}
  where
    taken :
        (c : ℕ) (cs ts : List ℕ) (m : Desk)
        → view m ≡ (c ∷ cs, ts)
        → ((desk.inb 0x60 m).0 ≡ c) × (view (desk.inb 0x60 m).1 ≡ (cs, ts))
    taken c cs ts m e = ground arith

abbrev typist : Callbacks Desk
typist = record {
  scancode_callback = none;
  char_callback = some (λ c m. record m { typed = m.typed ++ (c ∷ []) });
  special_callback = none;
}

typist-IsTyping : IsTyping typist view
typist-IsTyping = record {
  types = λ c m. refl;
  scancode_keeps = λ c m. refl;
  special_keeps = λ s m. refl;
}

abbrev no_modifiers : KeyboardState
no_modifiers = record {
  shift_pressed = false;
  ctrl_pressed = false;
  alt_pressed = false;
  caps_lock = false;
  num_lock = false;
  scroll_lock = false;
  extended = false;
}

abbrev fresh : Keyboard
fresh = record {
  keyboard_state = no_modifiers;
  special_event = record { key_code = 0; is_pressed = false; state = no_modifiers };
}

-- Shift down, the key of `a`, Shift up, the key of `s`, and F1.
abbrev keys : List ℕ
keys = 0x2A ∷ 0x1E ∷ 0x9E ∷ 0xAA ∷ 0x1F ∷ 0x3B ∷ []

abbrev waiting : Desk
waiting = record { bytes = keys; typed = [] }

keys_typed : typed_by no_modifiers keys ≡ b'A' ∷ b's' ∷ []
unfolding update_keyboard_state is_special_key scancode_to_ascii key_char use_uppercase
    ascii_uppercase ascii_lowercase
keys_typed = refl

keyboard-types_example :
    ((handle_bytes desk plain typist 6 fresh waiting).0.keyboard_state
      ≡ state_after no_modifiers keys)
    × (view (handle_bytes desk plain typist 6 fresh waiting).1
        ≡ ([], [] ++ typed_by no_modifiers keys))
keyboard-types_example =
    keyboard-types desk plain typist view keys [] fresh waiting desk-IsController typist-IsTyping
      refl

-- A controller with a keyboard that takes its time: the mask, the interrupt flag, the next two bytes
-- that it will hand over (0 for none), and the polls before the next one is there.
record Board : Type 0 where
  line_mask : ℕ
  flag : Bool
  first : ℕ
  second : ℕ
  delay : ℕ

abbrev poll : Board → ℕ × Board
poll m =
    if m.delay == 0
    then (if m.first == 0 then 0 else 1, m)
    else (0, record m { delay = m.delay - 1 })

abbrev answer : ℕ → ℕ → Board → Board
answer a b m = record m { first = a; second = b; delay = 5 }

-- The configuration is 0x47; a reset is acknowledged and then passed.
abbrev board : Ports Board
board = record {
  outb = λ port v m.
      if port == 0x21
      then record m { line_mask = v }
      else if port == 0x64 && v == 0x20
      then answer 0x47 0 m
      else if port == 0x60 && v == 0xFF
      then answer 0xFA 0xAA m
      else if port == 0x60 && v == 0xF4
      then answer 0xFA 0 m
      else m;
  inb = λ port m.
      if port == 0x21
      then (m.line_mask, m)
      else if port == 0x64
      then poll m
      else if port == 0x60
      then (m.first, record m { first = m.second; second = 0; delay = 300 })
      else (0, m);
}

abbrev processor : Cpu Board
processor = record { cli = λ m. record m { flag = false }; sti = λ m. record m { flag = true } }

abbrev mask : Board → ℕ
mask m = m.line_mask

abbrev left : Board → ℕ
left m = (if m.first == 0 then 0 else 2) + (if m.second == 0 then 0 else 1)

abbrev enabled : Board → Bool
enabled m = m.flag

abbrev started : Board
started = record { line_mask = 0xFF; flag = true; first = 0; second = 0; delay = 0 }

-- On this board the start gets to its end.
abbrev reached : Option (Bool × Board) → Bool
reached none = false
reached (some (done, m)) = done

board-reached : reached (keyboard_init board processor 4 started) ≡ true
unfolding keyboard_init reset_keyboard finish_init mouse_init mouse_parameters wait_while await
    flush port_byte_in port_byte_out pic_clear_mask
board-reached = refl
