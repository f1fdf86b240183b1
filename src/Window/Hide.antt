-- ===== src/Window/Hide.antt =====
-- What `window_hide` leaves active.
use nans_os.Base.{◌≡◌, ◌≢◌, arith, false, some, ◌==◌, if◌then◌else◌}
use nans_os.Window.{Ptr, Window, Wm, last_window, update_window, window_hide, set_visible}

-- Hiding the active window while it is in front leaves it active, though it is not visible: the keys
-- still go to it.
pub hide-stays-active :
    (p : Ptr) (w : Window) (s : Wm)
    → p ≢ 0
    → s.store p ≡ some w
    → s.active_window ≡ p
    → last_window s.windows ≡ p
    → (t : Wm) × (window_hide p s ≡ some t)
      × (t.active_window ≡ p)
      × (t.store p ≡ some (set_visible false w))
unfolding window_hide update_window
hide-stays-active p w s ne m a l = (
  record s {
    store = λ q. if q == p then some (set_visible false w) else s.store q;
    active_window = if s.active_window == p then last_window s.windows else s.active_window;
  },
  ground arith,
  ground arith,
  ground arith,
)
