-- ===== src/Setup.antt =====
-- The setup wizard of src/impl/kernel/main.c and the dispatch of typed characters.
pub mod Run
mod Tests
use Prim.Native.String.{String}
use nans_os.Base.{
  ℕ, ◌-◌, Bool, true, false, ◌&&◌, ◌||◌, not, Option, none, some, List, [], ◌∷◌, ◌++◌, leb, ◌==◌,
  if◌then◌else◌,
}

-- `enum SetupState`.
pub data SetupState : Type 0 where
  setup_welcome setup_language setup_display setup_keyboard : SetupState
  setup_storage setup_timezone setup_confirm setup_complete : SetupState

-- `struct SystemConfig`, less `color_depth`, which nothing sets.
pub record SystemConfig : Type 0 where
  pub language : String
  pub screen_width : ℕ
  pub screen_height : ℕ
  pub keyboard_layout : ℕ
  pub timezone : ℕ
  pub storage_mode : ℕ

-- The calls of the console: `dimensions` is the text of `sprintf(res, "%dx%d", ...)`.
pub data Output : Type 0 where
  clear : Output
  set_color : ℕ → ℕ → Output
  text : String → Output
  dimensions : ℕ → ℕ → Output

-- `done` is the variable `setup_complete`; `printed` is what has been sent to the console.
pub record Setup : Type 0 where
  pub system_config : SystemConfig
  pub done : Bool
  pub current_setup_state : SetupState
  pub printed : List Output

-- The static variables before the first key, zeroed by the loader.
abbrev pub initial : Setup
initial = record {
  system_config = record {
    language = "";
    screen_width = 0;
    screen_height = 0;
    keyboard_layout = 0;
    timezone = 0;
    storage_mode = 0;
  };
  done = false;
  current_setup_state = setup_welcome;
  printed = [];
}

abbrev pub menu : String → String → String → String → String → List Output
menu title a b c d =
    text title ∷ text a ∷ text b ∷ text c ∷ text d ∷ text "Enter selection (1-4): " ∷ []

unfoldable pub page : SetupState → SystemConfig → List Output
page setup_welcome c =
    text "Welcome to NansOS!\n"
    ∷ text "This wizard will help you configure your system.\n"
    ∷ text "Press ENTER to continue...\n"
    ∷ []
page setup_language c =
    menu "Select your language:\n" "1. English\n" "2. Spanish\n" "3. French\n" "4. German\n"
page setup_display c =
    menu "Select display resolution:\n" "1. 800x600\n" "2. 1024x768\n" "3. 1280x720\n"
      "4. 1920x1080\n"
page setup_keyboard c =
    menu "Select keyboard layout:\n" "1. US (QWERTY)\n" "2. UK (QWERTY)\n" "3. German (QWERTZ)\n"
      "4. French (AZERTY)\n"
page setup_storage c =
    menu "Configure storage:\n" "1. Auto-detect (Recommended)\n" "2. AHCI Mode\n" "3. IDE Mode\n"
      "4. NVMe Mode\n"
page setup_timezone c =
    menu "Select timezone:\n" "1. UTC-8 (Pacific Time)\n" "2. UTC-5 (Eastern Time)\n"
      "3. UTC+0 (GMT)\n" "4. UTC+1 (Central European Time)\n"
page setup_confirm c =
    text "Configuration Summary:\n"
    ∷ text "Language: "
    ∷ text (c.language)
    ∷ text "\n"
    ∷ text "Display: "
    ∷ dimensions (c.screen_width) (c.screen_height)
    ∷ text "\n"
    ∷ text "\nPress ENTER to confirm and start NansOS...\n"
    ∷ []
page setup_complete c = text "Setup complete! Starting NansOS...\n" ∷ []

abbrev pub heading : List Output
heading = clear ∷ set_color 3 0 ∷ text "\n=== NansOS Setup Wizard ===\n\n" ∷ set_color 15 0 ∷ []

abbrev pub is_complete : SetupState → Bool
is_complete setup_complete = true
is_complete _ = false

unfoldable pub run_setup_wizard : Setup → Setup
run_setup_wizard s = record s {
  done = s.done || is_complete s.current_setup_state;
  printed = s.printed ++ (heading ++ page s.current_setup_state s.system_config);
}

-- The first part of `handle_setup_input`, for a line end: `none` where it goes on.
unfoldable pub enter : Setup → Option Setup
enter s = elim s.current_setup_state [
  | setup_welcome ↦ some (run_setup_wizard (record s { current_setup_state = setup_language }))
  | setup_confirm ↦ some (run_setup_wizard (record s { current_setup_state = setup_complete }))
  | _ ↦ none
]

abbrev pub language_of : ℕ → String
language_of c =
    if c == b'1'
    then "English"
    else if c == b'2'
    then "Spanish"
    else if c == b'3'
    then "French"
    else "German"

abbrev pub with_display : ℕ → SystemConfig → SystemConfig
with_display c g =
    if c == b'1'
    then record g { screen_width = 800; screen_height = 600 }
    else if c == b'2'
    then record g { screen_width = 1024; screen_height = 768 }
    else if c == b'3'
    then record g { screen_width = 1280; screen_height = 720 }
    else if c == b'4'
    then record g { screen_width = 1920; screen_height = 1080 }
    else g

-- The switch for a digit from 1 to 4.
unfoldable pub choose : ℕ → Setup → Setup
choose c s =
    let g = s.system_config in
    elim s.current_setup_state [
      | setup_language ↦ record s {
        system_config = record g { language = language_of c };
        current_setup_state = setup_display;
      }
      | setup_display ↦ record s {
        system_config = with_display c g;
        current_setup_state = setup_keyboard;
      }
      | setup_keyboard ↦ record s {
        system_config = record g { keyboard_layout = c - b'1' };
        current_setup_state = setup_storage;
      }
      | setup_storage ↦ record s {
        system_config = record g { storage_mode = c - b'1' };
        current_setup_state = setup_timezone;
      }
      | setup_timezone ↦ record s {
        system_config = record g { timezone = c - b'1' };
        current_setup_state = setup_confirm;
      }
      | _ ↦ s
    ]

unfoldable pub handle_setup_input : ℕ → Setup → Setup
handle_setup_input c s = elim (if c == 10 || c == 13 then enter s else none) [
  | some t ↦ t
  | none ↦ if leb b'1' c && leb c b'4' then run_setup_wizard (choose c s) else s
]

-- What `keyboard_char` does behind the wizard: nothing, the start of the desktop (`window_init` and
-- `window_init_gui`), or a call of `window_handle_key`.
pub data Dispatch : Type 0 where
  stay start_desktop window_key : Dispatch

unfoldable pub keyboard_char : ℕ → Setup → Setup × Dispatch
keyboard_char c s =
    if s.done
    then (s, window_key)
    else let t = handle_setup_input c s in (t, if t.done then start_desktop else stay)
