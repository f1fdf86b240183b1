-- ===== src/Keymap/Tests.antt =====
-- Keys on which the theorems of the keymap are run.
use nans_os.Base.{◌≡◌, refl, arith, true, false}
use nans_os.Keymap.{KeyboardState, is_special_key, ascii_lowercase}
use nans_os.Keymap.Chars.{is_letter}
use nans_os.Keymap.Modifiers.{update_all, tap, tap-restores, is_lock}

abbrev idle : KeyboardState
idle = record {
  shift_pressed = false;
  ctrl_pressed = false;
  alt_pressed = false;
  caps_lock = false;
  num_lock = false;
  scroll_lock = false;
  extended = false;
}

abbrev with_ctrl : KeyboardState
with_ctrl = record idle { ctrl_pressed = true }

f1_is_special : is_special_key 0x3B ≡ true
unfolding is_special_key
f1_is_special = refl

q_is_letter : is_letter 0x10 ≡ true
unfolding ascii_lowercase
q_is_letter = refl

-- Caps Lock.
tap-restores_example :
    (update_all (tap 0x3A) idle ≡ record idle { caps_lock = true })
    × (is_lock 0x3A ≡ false → update_all (tap 0x3A) idle ≡ idle)
    × (update_all (tap 0x3A) (update_all (tap 0x3A) idle) ≡ idle)
tap-restores_example =
    tap-restores 0x3A idle (omega arith) (λ e. ground arith) (refl, refl, refl, refl)
