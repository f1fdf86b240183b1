-- ===== src/Keymap.antt =====
-- The scancode tables and the modifier state of src/impl/drivers/keyboard/keymap.c and keymap.h.
pub mod Chars
pub mod Modifiers
mod Tests
use nans_os.Base.{
  ℕ, ◌+◌, ◌-◌, Bool, true, false, not, ◌&&◌, ◌||◌, List, [], ◌∷◌, bit_and, leb, ◌==◌, if◌then◌else◌,
  get_or,
}

-- The bit field `struct KeyboardState`; its unused bit `reserved` is left out.
pub record KeyboardState : Type 0 where
  pub shift_pressed : Bool
  pub ctrl_pressed : Bool
  pub alt_pressed : Bool
  pub caps_lock : Bool
  pub num_lock : Bool
  pub scroll_lock : Bool
  pub extended : Bool

pub record SpecialKeyEvent : Type 0 where
  pub key_code : ℕ
  pub is_pressed : Bool
  pub state : KeyboardState

-- 0x00 to 0x39; 8 is backspace, 9 tab, 10 enter.
unfoldable pub ascii_lowercase : List ℕ
ascii_lowercase =
    0 ∷ 0 ∷ b'1' ∷ b'2' ∷ b'3' ∷ b'4' ∷ b'5' ∷ b'6' ∷ b'7' ∷ b'8' ∷ b'9' ∷ b'0' ∷ b'-' ∷ b'=' ∷ 8
    ∷ 9 ∷ b'q' ∷ b'w' ∷ b'e' ∷ b'r' ∷ b't' ∷ b'y' ∷ b'u' ∷ b'i' ∷ b'o' ∷ b'p' ∷ b'[' ∷ b']' ∷ 10 ∷ 0
    ∷ b'a' ∷ b's' ∷ b'd' ∷ b'f' ∷ b'g' ∷ b'h' ∷ b'j' ∷ b'k' ∷ b'l' ∷ b';' ∷ 39 ∷ b'`' ∷ 0 ∷ 92
    ∷ b'z' ∷ b'x' ∷ b'c' ∷ b'v' ∷ b'b' ∷ b'n' ∷ b'm' ∷ b',' ∷ b'.' ∷ b'/' ∷ 0 ∷ b'*' ∷ 0 ∷ b' ' ∷ []

unfoldable pub ascii_uppercase : List ℕ
ascii_uppercase =
    0 ∷ 0 ∷ b'!' ∷ b'@' ∷ b'#' ∷ b'$' ∷ b'%' ∷ b'^' ∷ b'&' ∷ b'*' ∷ b'(' ∷ b')' ∷ b'_' ∷ b'+' ∷ 8
    ∷ 9 ∷ b'Q' ∷ b'W' ∷ b'E' ∷ b'R' ∷ b'T' ∷ b'Y' ∷ b'U' ∷ b'I' ∷ b'O' ∷ b'P' ∷ b'{' ∷ b'}' ∷ 10 ∷ 0
    ∷ b'A' ∷ b'S' ∷ b'D' ∷ b'F' ∷ b'G' ∷ b'H' ∷ b'J' ∷ b'K' ∷ b'L' ∷ b':' ∷ 34 ∷ b'~' ∷ 0 ∷ b'|'
    ∷ b'Z' ∷ b'X' ∷ b'C' ∷ b'V' ∷ b'B' ∷ b'N' ∷ b'M' ∷ b'<' ∷ b'>' ∷ b'?' ∷ 0 ∷ b'*' ∷ 0 ∷ b' ' ∷ []

-- `scancode & ~KEY_RELEASED` and `scancode & KEY_RELEASED` of a byte.
abbrev pub key_of : ℕ → ℕ
key_of scancode = bit_and scancode 0x7F

abbrev pub is_release : ℕ → Bool
is_release scancode = not (bit_and scancode 0x80 == 0)

unfoldable pub is_special_key : ℕ → Bool
is_special_key scancode =
    let key = key_of scancode in
    (leb 0x3B key && leb key 0x58) || (leb 0x47 key && leb key 0x53) || key == 0x01

-- The callback of keymap.c is never set (the setter writes the one of keyboard.c), so the event is
-- all that is written.
unfoldable pub handle_special_key : ℕ → KeyboardState → SpecialKeyEvent
handle_special_key scancode state = record {
  key_code = key_of scancode;
  is_pressed = not (is_release scancode);
  state = state;
}

-- The two switches over the key, by its value and whether it is released.
unfoldable pub extended_key : ℕ → Bool → KeyboardState → KeyboardState
extended_key key released s =
    if key == 0x1D
    then record s { ctrl_pressed = not released; extended = false }
    else if key == 0x38
    then record s { alt_pressed = not released; extended = false }
    else record s { extended = false }

unfoldable pub plain_key : ℕ → Bool → KeyboardState → KeyboardState
plain_key key released s =
    if key == 0x2A || key == 0x36
    then record s { shift_pressed = not released }
    else if key == 0x1D
    then record s { ctrl_pressed = not released }
    else if key == 0x38
    then record s { alt_pressed = not released }
    else if key == 0x3A
    then (if released then s else record s { caps_lock = not s.caps_lock })
    else if key == 0x45
    then (if released then s else record s { num_lock = not s.num_lock })
    else if key == 0x46
    then (if released then s else record s { scroll_lock = not s.scroll_lock })
    else s

unfoldable pub update_keyboard_state : ℕ → KeyboardState → KeyboardState
unfolding extended_key plain_key
update_keyboard_state scancode s =
    if scancode == 0xE0
    then record s { extended = true }
    else if s.extended
    then extended_key (key_of scancode) (is_release scancode) s
    else plain_key (key_of scancode) (is_release scancode) s

unfoldable pub use_uppercase : KeyboardState → Bool
use_uppercase s = (s.shift_pressed || s.caps_lock) && not (s.shift_pressed && s.caps_lock)

-- The code of a Ctrl combination, and the plain character: the tail of `scancode_to_ascii`.
unfoldable pub key_char : ℕ → KeyboardState → ℕ
key_char key s =
    if use_uppercase s then get_or ascii_uppercase key 0 else get_or ascii_lowercase key 0

unfoldable pub ctrl_char : ℕ → KeyboardState → ℕ
ctrl_char key s =
    let base = get_or ascii_lowercase key 0 in
    if leb b'a' base && leb base b'z' then base - b'a' + 1 else key_char key s

unfoldable pub scancode_to_ascii : ℕ → KeyboardState → ℕ
scancode_to_ascii scancode s =
    let key = key_of scancode in
    if is_release scancode || s.extended
    then 0
    else if leb 58 key
    then 0
    else if s.ctrl_pressed && leb 0x1E key && leb key 0x39
    then ctrl_char key s
    else key_char key s
