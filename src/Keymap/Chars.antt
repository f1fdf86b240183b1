-- ===== src/Keymap/Chars.antt =====
-- What `scancode_to_ascii` can return.
use nans_os.Base.{
  ℕ, suc, zero, ◌≤◌, ◌<◌, ◌≡◌, refl, Bool, true, false, not, ◌&&◌, ◌||◌, List, [], ◌∷◌, arith, ltb,
  leb, ◌==◌, get_or, passes, passes-at, Bool-cases, inl, inr,
}
use nans_os.Keymap.{
  KeyboardState, ascii_lowercase, ascii_uppercase, key_of, is_release, is_special_key, key_char,
  ctrl_char, use_uppercase, scancode_to_ascii,
}

abbrev all_lt : ℕ → List ℕ → Bool
all_lt n [] = true
all_lt n (x ∷ xs) = ltb x n && all_lt n xs

get_or-lt : (xs : List ℕ) (i n : ℕ) → 0 < n → all_lt n xs ≡ true → get_or xs i 0 < n
get_or-lt [] i n p h = p
get_or-lt (x ∷ xs) zero n p h = ground arith
get_or-lt (x ∷ xs) (suc i) n p h = get_or-lt xs i n p (ground arith)

lower-lt : (key : ℕ) → get_or ascii_lowercase key 0 < 128
unfolding ascii_lowercase
lower-lt key = get_or-lt ascii_lowercase key 128 (omega arith) refl

upper-lt : (key : ℕ) → get_or ascii_uppercase key 0 < 128
unfolding ascii_uppercase
upper-lt key = get_or-lt ascii_uppercase key 128 (omega arith) refl

key_char-lt : (key : ℕ) (s : KeyboardState) → key_char key s < 128
unfolding key_char
key_char-lt key s = elim (Bool-cases (use_uppercase s)) [
  | inl e ↦ rw e (upper-lt key)
  | inr e ↦ rw e (lower-lt key)
]

ctrl_char-lt : (key : ℕ) (s : KeyboardState) → ctrl_char key s < 128
unfolding ctrl_char
ctrl_char-lt key s = ground (arith, key_char-lt key s)

-- Whatever byte arrives and whatever the modifiers are, the character is 7-bit ASCII.
pub scancode_to_ascii-lt : (scancode : ℕ) (s : KeyboardState) → scancode_to_ascii scancode s < 128
unfolding scancode_to_ascii
scancode_to_ascii-lt scancode s =
    ground (arith, key_char-lt (key_of scancode) s, ctrl_char-lt (key_of scancode) s)

-- Every special key is a release, lies beyond the tables, or is Escape.
special_in_table : ℕ → Bool
special_in_table c = not (is_special_key c) || is_release c || leb 58 (key_of c) || key_of c == 1

special_table : passes 256 special_in_table ≡ true
unfolding passes is_special_key special_in_table
special_table = refl

escape-none : (s : KeyboardState) → key_char 1 s ≡ 0
unfolding key_char ascii_lowercase ascii_uppercase
escape-none s = ground arith

-- The byte of a special key, press or release, has no character, whatever the modifiers are.
pub special-no-char :
    (scancode : ℕ) (s : KeyboardState)
    → scancode < 256
    → is_special_key scancode ≡ true
    → scancode_to_ascii scancode s ≡ 0
unfolding scancode_to_ascii special_in_table
special-no-char scancode s h e =
    ground (arith, passes-at 256 special_in_table scancode special_table h, escape-none s)

-- The letter keys: their unshifted character is one of a to z.
abbrev pub is_letter : ℕ → Bool
is_letter key = leb b'a' (get_or ascii_lowercase key 0) && leb (get_or ascii_lowercase key 0) b'z'

-- A press byte is its own key code.
press_in_table : ℕ → Bool
press_in_table c = not (is_release c) && key_of c == c

press_table : passes 128 press_in_table ≡ true
unfolding passes press_in_table
press_table = refl

letter_in_table : ℕ → Bool
letter_in_table c =
    not (is_letter c) || leb 32 (get_or ascii_lowercase c 0) && leb 32 (get_or ascii_uppercase c 0)

letter_table : passes 58 letter_in_table ≡ true
unfolding passes letter_in_table ascii_lowercase ascii_uppercase
letter_table = refl

letter-printable :
    (key : ℕ) (s : KeyboardState) → key < 58 → is_letter key ≡ true → 32 ≤ key_char key s
unfolding letter_in_table key_char
letter-printable key s h e = ground (arith, passes-at 58 letter_in_table key letter_table h)

ctrl_char-range :
    (key : ℕ) (s : KeyboardState)
    → is_letter key ≡ true
    → (1 ≤ ctrl_char key s) × (ctrl_char key s ≤ 26)
unfolding ctrl_char
ctrl_char-range key s e = ground arith

-- With Ctrl held (and no extended prefix pending), pressing the key of a letter yields one of the
-- control codes 1 to 26 exactly if its scancode is at least 0x1E; the letters of the top row
-- (q to p, 0x10 to 0x19) yield a printable character.
pub ctrl-letters :
    (key : ℕ) (s : KeyboardState)
    → key < 58
    → is_letter key ≡ true
    → s.ctrl_pressed ≡ true
    → s.extended ≡ false
    → (0x1E ≤ key → (1 ≤ scancode_to_ascii key s) × (scancode_to_ascii key s ≤ 26))
      × (key < 0x1E → 32 ≤ scancode_to_ascii key s)
unfolding scancode_to_ascii press_in_table
ctrl-letters key s h e c x = (
  λ m. ground (arith, press, ctrl_char-range key s e),
  λ m. ground (arith, press, letter-printable key s h e),
)
  where
    press : press_in_table key ≡ true
    press = passes-at 128 press_in_table key press_table (omega arith)
