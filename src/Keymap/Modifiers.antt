-- ===== src/Keymap/Modifiers.antt =====
-- How the modifier state of keymap.c follows a stream of scancodes.
use nans_os.Base.{
  ℕ, ◌+◌, ◌<◌, ◌≡◌, ◌≢◌, refl, ap, ◌∙◌, Bool, true, false, not, ◌&&◌, ◌||◌, List, [], ◌∷◌, arith,
  if◌then◌else◌, ◌==◌, passes, passes-at,
}
use nans_os.Keymap.{KeyboardState, key_of, is_release, plain_key, update_keyboard_state}

-- The handler's calls of `update_keyboard_state`, one for each byte that arrives.
abbrev pub update_all : List ℕ → KeyboardState → KeyboardState
update_all [] s = s
update_all (c ∷ cs) s = update_all cs (update_keyboard_state c s)

-- A press followed by the release of the same key.
abbrev pub tap : ℕ → List ℕ
tap key = key ∷ (key + 0x80) ∷ []

abbrev pub NothingHeld : KeyboardState → Type 0
NothingHeld s =
    (s.shift_pressed ≡ false)
    × (s.ctrl_pressed ≡ false)
    × (s.alt_pressed ≡ false)
    × (s.extended ≡ false)

pub is_lock : ℕ → Bool
is_lock key = key == 0x3A || key == 0x45 || key == 0x46

tap_in_table : ℕ → Bool
tap_in_table c =
    not (is_release c) && key_of c == c && is_release (c + 0x80) && key_of (c + 0x80) == c

tap_table : passes 128 tap_in_table ≡ true
unfolding passes tap_in_table
tap_table = refl

module _ (key : ℕ) (s : KeyboardState) (h : key < 128) (ne : key ≢ 0x60) where
  in_table : tap_in_table key ≡ true
  in_table = passes-at 128 tap_in_table key tap_table h

  press-plain : s.extended ≡ false → update_keyboard_state key s ≡ plain_key key false s
  unfolding update_keyboard_state tap_in_table
  press-plain x = ground (arith, in_table)

  release-plain : s.extended ≡ false → update_keyboard_state (key + 0x80) s ≡ plain_key key true s
  unfolding update_keyboard_state tap_in_table
  release-plain x = ground (arith, in_table)

plain_key-extended :
    (key : ℕ) (r : Bool) (s : KeyboardState) → (plain_key key r s).extended ≡ s.extended
unfolding plain_key
plain_key-extended key r s = ground arith

tap-plain :
    (key : ℕ) (s : KeyboardState)
    → key < 128
    → key ≢ 0x60
    → s.extended ≡ false
    → update_all (tap key) s ≡ plain_key key true (plain_key key false s)
tap-plain key s h ne x =
    rw (press-plain key s h ne x)
      (release-plain key (plain_key key false s) h ne (plain_key-extended key false s ∙ x))

abbrev plain_tap : ℕ → KeyboardState → KeyboardState
plain_tap key s = plain_key key true (plain_key key false s)

-- A state with the lock of a key turned over: 0x3A is Caps Lock, 0x45 Num Lock, 0x46 Scroll Lock.
abbrev pub turned : ℕ → KeyboardState → KeyboardState
turned key s = record s {
  caps_lock = if key == 0x3A then not s.caps_lock else s.caps_lock;
  num_lock = if key == 0x45 then not s.num_lock else s.num_lock;
  scroll_lock = if key == 0x46 then not s.scroll_lock else s.scroll_lock;
}

plain_tap-turned : (key : ℕ) (s : KeyboardState) → NothingHeld s → plain_tap key s ≡ turned key s
unfolding plain_key
plain_tap-turned key s n = ground arith

plain_tap-twice :
    (key : ℕ) (s : KeyboardState) → NothingHeld s → plain_tap key (plain_tap key s) ≡ s
unfolding plain_key
plain_tap-twice key s n = ground arith

turned-same : (key : ℕ) (s : KeyboardState) → is_lock key ≡ false → turned key s ≡ s
unfolding is_lock
turned-same key s l = ground arith

-- With no modifier held and no prefix pending, pressing and releasing a key turns over its lock, if
-- it is one of the three lock keys, and changes nothing else, so that no modifier is left hanging
-- and any other key leaves the state as it was; two taps of any key do. (0x60 is left out: its
-- release byte is the prefix 0xE0.)
pub tap-restores :
    (key : ℕ) (s : KeyboardState)
    → key < 128
    → key ≢ 0x60
    → NothingHeld s
    → (update_all (tap key) s ≡ turned key s)
      × (is_lock key ≡ false → update_all (tap key) s ≡ s)
      × (update_all (tap key) (update_all (tap key) s) ≡ s)
tap-restores key s h ne n = (
  once ∙ plain_tap-turned key s n,
  λ l. once ∙ plain_tap-turned key s n ∙ turned-same key s l,
  ap (update_all (tap key)) once
      ∙ tap-plain key (plain_tap key s) h ne kept
      ∙ plain_tap-twice key s n,
)
  where
    once : update_all (tap key) s ≡ plain_tap key s
    once = tap-plain key s h ne n.3

    kept : (plain_tap key s).extended ≡ false
    kept =
        plain_key-extended key true (plain_key key false s) ∙ plain_key-extended key false s ∙ n.3
