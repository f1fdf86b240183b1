-- ===== src/Window/Tests.antt =====
-- Window lists on which the theorems of the window manager are run.
use nans_os.Base.{◌≡◌, inr, refl, arith, true, none, some, [], ◌∷◌, if◌then◌else◌, ◌==◌}
use nans_os.Window.{Ptr, Window, Wm, new_window, window_init, window_create, window_handle_mouse}
use nans_os.Window.Valid.{IsValid}
use nans_os.Window.Close.{OverClose, press-close-dangles}
use nans_os.Window.Steps.{create, Reach, here, next, Reach-IsValid}

-- A window of 100 by 80 at (10, 20).
abbrev small : Window
small = new_window [] 10 20 100 80

-- Two windows, at 64 and at 128, the second in front.
abbrev two : Wm
two = record {
  windows = 64 ∷ 128 ∷ [];
  active_window = 128;
  dragging_window = 0;
  drag_offset_x = 0;
  drag_offset_y = 0;
  store = λ p. if p == 64 then some small else if p == 128 then some small else none;
}

two-IsValid : IsValid two
two-IsValid = record {
  distinct = (refl, (refl, tt));
  nonzero = refl;
  stored = λ p h. ground arith;
  few = omega arith;
  active = inr refl;
}

over_close : OverClose 95 25 128 small two
over_close = record {
  in_memory = refl;
  shown = refl;
  over = refl;
  bar = omega arith;
  close = refl;
  idle = refl;
}

-- The window at the back.
abbrev back : Ptr
back = 64

press-close-dangles_example :
    (t : Wm) × (window_handle_mouse 95 25 true two ≡ some (t, none))
    × (window_handle_mouse 96 25 true t ≡ none)
press-close-dangles_example =
    press-close-dangles 95 25 96 25 128 small (64 ∷ []) two two-IsValid refl over_close

-- A window is created after `window_init`.
one_created : Reach (window_init two) (window_create 64 [] 10 20 100 80 (window_init two)).1
unfolding window_init
one_created = next here (create 64 [] 10 20 100 80 refl)

Reach-IsValid_example : IsValid (window_create 64 [] 10 20 100 80 (window_init two)).1
Reach-IsValid_example = Reach-IsValid two one_created
