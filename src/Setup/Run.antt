-- ===== src/Setup/Run.antt =====
-- Runs of the setup wizard.
use nans_os.Base.{
  sym, ap, ◌∙◌, get_or, ℕ, zero, suc, ◌+◌, ◌-◌, ◌<◌, ◌≡◌, refl, arith, Bool, true, false, ◌&&◌,
  ◌||◌, List, [], ◌∷◌, leb, ◌==◌, if◌then◌else◌,
}
use mathlib.Core.Path.{subst}
use Prim.Native.String.{String}
use nans_os.Setup.{
  SetupState, setup_welcome, setup_language, setup_display, setup_keyboard, setup_storage,
  setup_timezone, setup_confirm, setup_complete, SystemConfig, Setup, initial, is_complete,
  run_setup_wizard, enter, language_of, with_display, choose, handle_setup_input, keyboard_char,
}

-- The number of the page, as the enumeration counts.
abbrev pub rank : SetupState → ℕ
rank setup_welcome = 0
rank setup_language = 1
rank setup_display = 2
rank setup_keyboard = 3
rank setup_storage = 4
rank setup_timezone = 5
rank setup_confirm = 6
rank setup_complete = 7

abbrev pub is_choice : ℕ → Bool
is_choice c = leb b'1' c && leb c b'4'

-- The keys that a page waits for: a line end on the first and the summary, a digit between.
abbrev pub accepted : ℕ → ℕ → Bool
accepted page c =
    if page == 0 || page == 6 then c == 10 || c == 13 else if leb page 5 then is_choice c else false

-- The page that a text of keys leads to, by the rule above alone.
abbrev pub page_after : List ℕ → ℕ → ℕ
page_after [] page = page
page_after (c ∷ cs) page = page_after cs (if accepted page c then page + 1 else page)

abbrev pub type_all : List ℕ → Setup → Setup
type_all [] s = s
type_all (c ∷ cs) s = type_all cs (keyboard_char c s).0

abbrev pub Consistent : Setup → Type 0
Consistent s = s.done ≡ is_complete s.current_setup_state

abbrev at_page : SetupState → Setup → Setup
at_page p s = record s { done = is_complete p; current_setup_state = p }

abbrev Steps : ℕ → SetupState → Setup → Type 0
Steps c p s =
    let t = (keyboard_char c (at_page p s)).0 in
    Consistent t
    × (rank t.current_setup_state ≡ (if accepted (rank p) c then rank p + 1 else rank p))

page-Steps : (c : ℕ) (p : SetupState) (s : Setup) → Steps c p s
unfolding keyboard_char handle_setup_input enter choose run_setup_wizard
page-Steps c setup_welcome s = (ground arith, ground arith)
page-Steps c setup_language s = (ground arith, ground arith)
page-Steps c setup_display s = (ground arith, ground arith)
page-Steps c setup_keyboard s = (ground arith, ground arith)
page-Steps c setup_storage s = (ground arith, ground arith)
page-Steps c setup_timezone s = (ground arith, ground arith)
page-Steps c setup_confirm s = (ground arith, ground arith)
page-Steps c setup_complete s = (ground arith, ground arith)

char-step :
    (c : ℕ) (s : Setup)
    → Consistent s
    → let t = (keyboard_char c s).0 in
      let p = s.current_setup_state in
      Consistent t
      × (rank t.current_setup_state ≡ (if accepted (rank p) c then rank p + 1 else rank p))
char-step c s h =
    subst
      (λ (u : Setup).
        let t = (keyboard_char c u).0 in
        let p = u.current_setup_state in
        Consistent t
        × (rank t.current_setup_state ≡ (if accepted (rank p) c then rank p + 1 else rank p)))
      (ap (λ (b : Bool). record s { done = b }) (sym h)) (page-Steps c s.current_setup_state s)

done_iff_last : (s : Setup) → Consistent s → s.done ≡ (rank s.current_setup_state == 7)
done_iff_last s h = h ∙ by_page s.current_setup_state
  where
    by_page : (p : SetupState) → is_complete p ≡ (rank p == 7)
    by_page setup_welcome = refl
    by_page setup_language = refl
    by_page setup_display = refl
    by_page setup_keyboard = refl
    by_page setup_storage = refl
    by_page setup_timezone = refl
    by_page setup_confirm = refl
    by_page setup_complete = refl

-- From any state in which the setup is complete exactly on the last page, whatever is typed, the
-- wizard stands at the page that the rule of accepted keys leads to: a line end on the first page
-- and on the summary and a digit from 1 to 4 on the pages between move one page on, and no other
-- key moves. The setup is then complete exactly on the last page.
pub typed-page :
    (keys : List ℕ) (s : Setup)
    → Consistent s
    → let t = type_all keys s in
      (rank t.current_setup_state ≡ page_after keys (rank s.current_setup_state))
      × (t.done ≡ (page_after keys (rank s.current_setup_state) == 7))
typed-page [] s h = (refl, done_iff_last s h)
typed-page (c ∷ cs) s h =
    let (k, e) = char-step c s h in
    let (r, d) = typed-page cs (keyboard_char c s).0 k in
    (r ∙ ap (page_after cs) e, d ∙ ap (λ (p : ℕ). page_after cs p == 7) e)

abbrev pub languages : List String
languages = "English" ∷ "Spanish" ∷ "French" ∷ "German" ∷ []

abbrev pub sizes : List (ℕ × ℕ)
sizes = (800, 600) ∷ (1024, 768) ∷ (1280, 720) ∷ (1920, 1080) ∷ []

-- The keys of a whole run: Enter, five digits, Enter.
abbrev pub answers : ℕ → ℕ → ℕ → ℕ → ℕ → List ℕ
answers language display layout storage zone =
    10
    ∷ (b'1' + language)
    ∷ (b'1' + display)
    ∷ (b'1' + layout)
    ∷ (b'1' + storage)
    ∷ (b'1' + zone)
    ∷ 10
    ∷ []

-- What the answers configure.
abbrev pub configured : ℕ → ℕ → ℕ → ℕ → ℕ → SystemConfig
configured language display layout storage zone = record {
  language = get_or languages language "";
  screen_width = (get_or sizes display (0, 0)).0;
  screen_height = (get_or sizes display (0, 0)).1;
  keyboard_layout = layout;
  timezone = zone;
  storage_mode = storage;
}

digit-handled :
    (i : ℕ) (s : Setup)
    → i < 4
    → s.done ≡ false
    → (keyboard_char (b'1' + i) s).0 ≡ run_setup_wizard (choose (b'1' + i) s)
unfolding keyboard_char handle_setup_input
digit-handled i s h d = ground arith

type-digit :
    (i : ℕ) (keys : List ℕ) (s : Setup)
    → i < 4
    → s.done ≡ false
    → type_all ((b'1' + i) ∷ keys) s ≡ type_all keys (run_setup_wizard (choose (b'1' + i) s))
type-digit i keys s h d = ap (type_all keys) (digit-handled i s h d)

language_of-get_or : (i : ℕ) → i < 4 → language_of (b'1' + i) ≡ get_or languages i ""
language_of-get_or zero h = refl
language_of-get_or (suc zero) h = refl
language_of-get_or (suc (suc zero)) h = refl
language_of-get_or (suc (suc (suc zero))) h = refl
language_of-get_or (suc (suc (suc (suc i)))) h = absurd (omega arith)

with_display-get_or :
    (i : ℕ) (g : SystemConfig)
    → i < 4
    → with_display (b'1' + i) g ≡ record g {
      screen_width = (get_or sizes i (0, 0)).0;
      screen_height = (get_or sizes i (0, 0)).1;
    }
with_display-get_or zero g h = refl
with_display-get_or (suc zero) g h = refl
with_display-get_or (suc (suc zero)) g h = refl
with_display-get_or (suc (suc (suc zero))) g h = refl
with_display-get_or (suc (suc (suc (suc i)))) g h = absurd (omega arith)

abbrev chosen : ℕ → ℕ → ℕ → ℕ → ℕ → Setup
chosen language display layout storage zone = run_setup_wizard (
    choose (b'1' + zone) (
      run_setup_wizard (
        choose (b'1' + storage) (
          run_setup_wizard (
            choose (b'1' + layout) (
              run_setup_wizard (
                choose (b'1' + display)
                  (run_setup_wizard (choose (b'1' + language) (keyboard_char 10 initial).0)))))))))

answers-chosen :
    (language display layout storage zone : ℕ)
    → language < 4
    → display < 4
    → layout < 4
    → storage < 4
    → zone < 4
    → type_all (answers language display layout storage zone) initial
      ≡ (keyboard_char 10 (chosen language display layout storage zone)).0
unfolding keyboard_char handle_setup_input enter choose run_setup_wizard
answers-chosen a b c d e ha hb hc hd he =
    let s1 : Setup = (keyboard_char 10 initial).0 in
    let s2 : Setup = run_setup_wizard (choose (b'1' + a) s1) in
    let s3 : Setup = run_setup_wizard (choose (b'1' + b) s2) in
    let s4 : Setup = run_setup_wizard (choose (b'1' + c) s3) in
    let s5 : Setup = run_setup_wizard (choose (b'1' + d) s4) in
    type-digit a ((b'1' + b) ∷ (b'1' + c) ∷ (b'1' + d) ∷ (b'1' + e) ∷ 10 ∷ []) s1 ha refl
    ∙ type-digit b ((b'1' + c) ∷ (b'1' + d) ∷ (b'1' + e) ∷ 10 ∷ []) s2 hb refl
    ∙ type-digit c ((b'1' + d) ∷ (b'1' + e) ∷ 10 ∷ []) s3 hc refl
    ∙ type-digit d ((b'1' + e) ∷ 10 ∷ []) s4 hd refl
    ∙ type-digit e (10 ∷ []) s5 he refl

-- The configuration built from its parts, as the pages fill them in.
abbrev filled : SystemConfig → ℕ → ℕ → ℕ → SystemConfig
filled g layout storage zone = record g {
  keyboard_layout = layout;
  storage_mode = storage;
  timezone = zone;
}

abbrev with_language : String → SystemConfig
with_language l = record (initial.system_config) { language = l }

digit_value : (i : ℕ) → b'1' + i - b'1' ≡ i
digit_value i = omega arith

filled-configured :
    (a b c d e : ℕ)
    → a < 4
    → b < 4
    → filled
        (with_display (b'1' + b) (with_language (language_of (b'1' + a))))
        (b'1' + c - b'1')
        (b'1' + d - b'1')
        (b'1' + e - b'1')
      ≡ configured a b c d e
filled-configured a b c d e ha hb =
    ap (λ (g : SystemConfig). filled g (b'1' + c - b'1') (b'1' + d - b'1') (b'1' + e - b'1'))
      (with_display-get_or b (with_language (language_of (b'1' + a))) hb)
    ∙ ap
        (λ (l : String).
          filled
            (record (with_language l) {
              screen_width = (get_or sizes b (0, 0)).0;
              screen_height = (get_or sizes b (0, 0)).1;
            })
            (b'1' + c - b'1') (b'1' + d - b'1') (b'1' + e - b'1'))
        (language_of-get_or a ha)
    ∙ rw (digit_value c, digit_value d, digit_value e) refl

-- Typing Enter, the five answers and Enter completes the setup, with what was answered as the
-- configuration.
pub answers-configured :
    (language display layout storage zone : ℕ)
    → language < 4
    → display < 4
    → layout < 4
    → storage < 4
    → zone < 4
    → let t = type_all (answers language display layout storage zone) initial in
      (t.done ≡ true) × (t.system_config ≡ configured language display layout storage zone)
unfolding keyboard_char handle_setup_input enter choose run_setup_wizard
answers-configured language display layout storage zone ha hb hc hd he =
    let start : type_all (answers language display layout storage zone) initial
        ≡ (keyboard_char 10 (chosen language display layout storage zone)).0 =
      answers-chosen language display layout storage zone ha hb hc hd he in
    (
      ap (λ (t : Setup). t.done) start,
      ap (λ (t : Setup). t.system_config) start
          ∙ filled-configured language display layout storage zone ha hb,
    )
