-- ===== src/Window.antt =====
-- The window manager of src/impl/drivers/video/window.c and window.h; its drawing is in
-- Window/Desktop.antt.
pub mod Stack
pub mod Valid
pub mod Mouse
pub mod Close
pub mod Hide
pub mod Steps
pub mod Desktop
mod Tests
use nans_os.Base.{
  ℕ, zero, suc, ◌+◌, ◌-◌, ◌*◌, ◌/◌, ◌%◌, ◌^◌, ◌≤◌, ◌<◌, min, ◌≡◌, refl, sym, ap, ◌∙◌, ◌≢◌, ◌↔◌, ◌⊎◌,
  inl, inr, Bool, true, false, not, ◌&&◌, ◌||◌, Option, none, some, List, [], ◌∷◌, ◌++◌, map,
  append_assoc, append-nil, arith, ltb, leb, ◌==◌, if◌then◌else◌, ==_iff, Bool-cases, Option-cases,
  is_some, length, get_elem?, get_or, set, replicate, length-append, length-set, length-replicate,
  get_or-set_self, get_or-set_ne, passes, passes-at, bit_and, bit_or, eq_of_some, get_or-cons,
}

-- An address of a window; 0 is NULL.
abbrev pub Ptr : Type 0
Ptr = ℕ

abbrev pub max_windows : ℕ
max_windows = 16

-- The bits of `flags`.
pub record WindowFlags : Type 0 where
  pub visible : Bool
  pub movable : Bool
  pub resizable : Bool
  pub minimized : Bool
  pub maximized : Bool

-- The callbacks are named by numbers, and 0 is NULL, as for `content`.
pub record Window : Type 0 where
  pub title : List ℕ
  pub x : ℕ
  pub y : ℕ
  pub width : ℕ
  pub height : ℕ
  pub flags : WindowFlags
  pub content : Ptr
  pub on_paint : ℕ
  pub on_click : ℕ
  pub on_key : ℕ

-- `windows` lists the entries below `num_windows`, the front window last; `store` is the memory of
-- the windows, with `none` at an address that holds none (never allocated, or freed). The memory of their
-- contents is in Window/Desktop.antt.
pub record Wm : Type 0 where
  pub windows : List Ptr
  pub active_window : Ptr
  pub dragging_window : Ptr
  pub drag_offset_x : ℕ
  pub drag_offset_y : ℕ
  pub store : Ptr → Option Window

abbrev pub write : (Ptr → Option Window) → Ptr → Option Window → Ptr → Option Window
write m p c q = if q == p then c else m q

-- The list state after `window_init`; the store is as it was.
unfoldable pub window_init : Wm → Wm
window_init s = record s { windows = []; active_window = 0; dragging_window = 0 }

-- `for (j = i; ...) windows[j] = windows[j + 1]` at the first entry that is `p`; `none` if there is
-- no such entry.
unfoldable pub remove_entry : Ptr → List Ptr → Option (List Ptr)
remove_entry p [] = none
remove_entry p (w ∷ ws) =
    if w == p then some ws else elim (remove_entry p ws) [ none ↦ none | some ws' ↦ some (w ∷ ws') ]

-- `windows[num_windows - 1]`, or NULL.
unfoldable pub last_window : List Ptr → Ptr
last_window [] = 0
last_window (w ∷ []) = w
last_window (w ∷ v ∷ ws) = last_window (v ∷ ws)

unfoldable pub window_bring_to_front : Ptr → Wm → Wm
window_bring_to_front p s = if p == 0 then s else elim (remove_entry p s.windows) [
  | none ↦ s
  | some ws ↦ record s { windows = ws ++ (p ∷ []); active_window = p }
]

unfoldable pub take : ℕ → List ℕ → List ℕ
take zero xs = []
take (suc n) [] = []
take (suc n) (x ∷ xs) = x ∷ take n xs

abbrev pub new_window : List ℕ → ℕ → ℕ → ℕ → ℕ → Window
new_window title x y width height = record {
  title = take 31 title;
  x = x;
  y = y;
  width = width;
  height = height;
  flags = record {
    visible = true;
    movable = true;
    resizable = false;
    minimized = false;
    maximized = false;
  };
  content = 0;
  on_paint = 0;
  on_click = 0;
  on_key = 0;
}

-- `fresh` is what `malloc` returns.
unfoldable pub window_create : Ptr → List ℕ → ℕ → ℕ → ℕ → ℕ → Wm → Ptr × Wm
window_create fresh title x y width height s =
    if leb max_windows (length s.windows) then (0, s) else if fresh == 0 then (0, s) else (
      fresh,
      window_bring_to_front fresh (record s {
        windows = s.windows ++ (fresh ∷ []);
        store = write s.store fresh (some (new_window title x y width height));
      }),
    )

unfoldable pub window_destroy : Ptr → Wm → Wm
window_destroy p s = if p == 0 then s else elim (remove_entry p s.windows) [
  | none ↦ s
  | some ws ↦ record s {
    windows = ws;
    active_window = if s.active_window == p then last_window ws else s.active_window;
    store = write s.store p none;
  }
]

-- A change of the window at `p`: `none` where `p` holds no window (a use after free).
unfoldable pub update_window : Ptr → (Window → Window) → Wm → Option Wm
update_window p f s = elim (s.store p) [
  | none ↦ none
  | some w ↦ some (record s { store = write s.store p (some (f w)) })
]

abbrev pub set_visible : Bool → Window → Window
set_visible b w = record w { flags = record (w.flags) { visible = b } }

unfoldable pub window_show : Ptr → Wm → Option Wm
window_show p s = if p == 0 then some s else elim (update_window p (set_visible true) s) [
  | none ↦ none
  | some s' ↦ some (window_bring_to_front p s')
]

unfoldable pub window_hide : Ptr → Wm → Option Wm
window_hide p s = if p == 0 then some s else elim (update_window p (set_visible false) s) [
  | none ↦ none
  | some s' ↦ some (record s' {
    active_window = if s'.active_window == p then last_window s'.windows else s'.active_window;
  })
]

unfoldable pub window_move : Ptr → ℕ → ℕ → Wm → Option Wm
window_move p x y s = if p == 0 then some s else update_window p (λ w. record w { x = x; y = y }) s

unfoldable pub window_resize : Ptr → ℕ → ℕ → Wm → Option Wm
window_resize p width height s =
    if p == 0
    then some s
    else update_window p
        (λ w. if w.flags.resizable then record w { width = width; height = height } else w) s

unfoldable pub window_minimize : Ptr → Wm → Option Wm
window_minimize p s =
    if p == 0
    then some s
    else update_window p
        (λ w. record w { flags = record (w.flags) { minimized = true; maximized = false } }) s

unfoldable pub window_maximize : Ptr → Wm → Option Wm
window_maximize p s =
    if p == 0
    then some s
    else update_window p
        (λ w. record w { flags = record (w.flags) { minimized = false; maximized = true } }) s

unfoldable pub window_restore : Ptr → Wm → Option Wm
window_restore p s =
    if p == 0
    then some s
    else update_window p
        (λ w. record w { flags = record (w.flags) { minimized = false; maximized = false } }) s

-- The tests of `window_handle_mouse`, made in `int`, where nothing wraps.
abbrev pub inside : ℕ → ℕ → Window → Bool
inside x y w = leb w.x x && ltb x (w.x + w.width) && leb w.y y && ltb y (w.y + w.height)

abbrev pub on_close : ℕ → ℕ → Window → Bool
on_close x y w =
    leb (w.x + w.width) (x + 18)
    && ltb (x + 4) (w.x + w.width)
    && leb (w.y + 4) y
    && ltb y (w.y + 18)

-- A call of a window's click handler: the handler, the window, and the place within it.
pub record Click : Type 0 where
  pub handler : ℕ
  pub window : Ptr
  pub at_x : ℕ
  pub at_y : ℕ

-- The title bar: a drag begins if the left button is down; then the close button is tested.
unfoldable pub title_bar : ℕ → ℕ → Bool → Ptr → Window → Wm → Wm
title_bar x y left p w s =
    let s' =
      if left
      then window_bring_to_front p
          (record s { dragging_window = p; drag_offset_x = x - w.x; drag_offset_y = y - w.y })
      else s in
    if on_close x y w then window_destroy p s' else s'

-- The window that the mouse is over.
unfoldable pub press : ℕ → ℕ → Bool → Ptr → Window → Wm → Wm × Option Click
press x y left p w s =
    if ltb y (w.y + 20)
    then (title_bar x y left p w s, none)
    else if w.on_click == 0
    then (s, none)
    else (s, some (record { handler = w.on_click; window = p; at_x = x - w.x; at_y = y - w.y }))

-- The loop from the front window down, over the entries in that order.
unfoldable pub pick : ℕ → ℕ → Bool → List Ptr → Wm → Option (Wm × Option Click)
pick x y left [] s = some (s, none)
pick x y left (p ∷ ps) s = elim (s.store p) [
  | none ↦ none
  | some w ↦
      let rest = pick x y left ps s in
      if w.flags.visible && inside x y w then some (press x y left p w s) else rest
]

unfoldable pub reversed : List Ptr → List Ptr
reversed [] = []
reversed (p ∷ ps) = reversed ps ++ (p ∷ [])

unfoldable pub drag : ℕ → ℕ → Wm → Option Wm
drag x y s =
    window_move s.dragging_window ((x + 2 ^ 16 - s.drag_offset_x) % 2 ^ 16)
      ((y + 2 ^ 16 - s.drag_offset_y) % 2 ^ 16) s

-- What follows the drawing of the cursor, which is in Window/Desktop.antt. `left` is
-- `buttons & 0x01`, and `none` is a use after free.
unfoldable pub window_handle_mouse : ℕ → ℕ → Bool → Wm → Option (Wm × Option Click)
window_handle_mouse x y left s =
    if s.dragging_window == 0
    then pick x y left (reversed s.windows) s
    else if left
    then elim (drag x y s) [ none ↦ none | some s' ↦ some (s', none) ]
    else some (record s { dragging_window = 0 }, none)

-- The handler that a key goes to and its window, if the active window has a handler.
unfoldable pub window_handle_key : Wm → Option (Option (ℕ × Ptr))
window_handle_key s = if s.active_window == 0 then some none else elim (s.store s.active_window) [
  | none ↦ none
  | some w ↦ some (if w.on_key == 0 then none else some (w.on_key, s.active_window))
]
