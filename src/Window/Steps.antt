-- ===== src/Window/Steps.antt =====
-- Runs of the window manager: every operation as a step, and the invariant along them.
use nans_os.Base.{
  ℕ, ◌≡◌, sym, ap, ◌∙◌, inl, inr, Bool, true, false, Option, some, List, arith, ◌==◌, if◌then◌else◌,
  Bool-cases, Option-cases, is_some, eq_of_some,
}
use mathlib.Core.Path.{subst}
use nans_os.Window.{
  Ptr, Window, Wm, Click, last_window, window_bring_to_front, window_init, window_create,
  window_destroy, update_window, window_show, window_hide, window_move, window_resize,
  window_minimize, window_maximize, window_restore, window_handle_mouse, set_visible, drag,
}
use nans_os.Window.Stack.{has}
use nans_os.Window.Valid.{
  IsValid, init-IsValid, create-IsValid, bring_to_front-IsValid, destroy-IsValid, update-IsValid,
  last-cases,
}
use nans_os.Window.Mouse.{DragIsLive, mouse-IsValid}

-- An operation on the window at a pointer that changes nothing at NULL.
abbrev change : Ptr → (Window → Window) → Wm → Option Wm
change p f s = if p == 0 then some s else update_window p f s

-- The calls that client code and the interrupt handlers make, where they do not use a freed window.
pub data Step (s : Wm) : Wm → Type 0 where
  create :
      (fresh : Ptr) (title : List ℕ) (x y width height : ℕ)
      → has fresh s.windows ≡ false
      → Step s (window_create fresh title x y width height s).1
  destroy : (p : Ptr) → Step s (window_destroy p s)
  front : (p : Ptr) → Step s (window_bring_to_front p s)
  show : (p : Ptr) {t : Wm} → window_show p s ≡ some t → Step s t
  hide : (p : Ptr) {t : Wm} → window_hide p s ≡ some t → Step s t
  move : (p : Ptr) (x y : ℕ) {t : Wm} → window_move p x y s ≡ some t → Step s t
  resize : (p : Ptr) (w h : ℕ) {t : Wm} → window_resize p w h s ≡ some t → Step s t
  minimize : (p : Ptr) {t : Wm} → window_minimize p s ≡ some t → Step s t
  maximize : (p : Ptr) {t : Wm} → window_maximize p s ≡ some t → Step s t
  restore : (p : Ptr) {t : Wm} → window_restore p s ≡ some t → Step s t
  mouse :
      (x y : ℕ) (left : Bool) {t : Wm} {c : Option Click}
      → window_handle_mouse x y left s ≡ some (t, c)
      → Step s t

pub data Reach (s : Wm) : Wm → Type 0 where
  here : Reach s s
  next : {t u : Wm} → Reach s t → Step t u → Reach s u

change-IsValid :
    (p : Ptr) (f : Window → Window) (s t : Wm) → IsValid s → change p f s ≡ some t → IsValid t
change-IsValid p f s t v e = elim (Bool-cases (p == 0)) [
  | inl z ↦ subst IsValid (eq_of_some (rw z at e)) v
  | inr nz ↦ (update-IsValid p f s v t (rw nz at e)).0
]

show-IsValid : (p : Ptr) (s t : Wm) → IsValid s → window_show p s ≡ some t → IsValid t
unfolding window_show
show-IsValid p s t v e = elim (Bool-cases (p == 0)) [
  | inl z ↦ subst IsValid (eq_of_some (ground arith)) v
  | inr nz ↦ elim (Option-cases (update_window p (set_visible true) s)) [
    | inl n ↦ absurd (ground arith)
    | inr (u, n) ↦
        let eq : window_bring_to_front p u ≡ t = eq_of_some (ground arith) in
        subst IsValid eq
          (bring_to_front-IsValid p u (update-IsValid p (set_visible true) s v u n).0)
  ]
]

abbrev hidden : Ptr → Wm → Wm
hidden p s = record s {
  active_window = if s.active_window == p then last_window s.windows else s.active_window;
}

hidden-IsValid : (p : Ptr) (s : Wm) → IsValid s → IsValid (hidden p s)
hidden-IsValid p s v = record {
  distinct = v.distinct;
  nonzero = v.nonzero;
  stored = v.stored;
  few = v.few;
  active = ground (arith, last-cases s.windows, v.active);
}

released :
    (x y : ℕ) (left : Bool) (s t : Wm) (c : Option Click)
    → IsValid s
    → (s.dragging_window == 0) ≡ false
    → is_some (s.store s.dragging_window) ≡ false
    → window_handle_mouse x y left s ≡ some (t, c)
    → IsValid t
unfolding window_handle_mouse drag window_move update_window
released x y true s t c v nz dead e = absurd (ground arith)
released x y false s t c v nz dead e =
    let eq : record s { dragging_window = 0 } ≡ t = ground arith in
    subst IsValid eq (record {
      distinct = v.distinct;
      nonzero = v.nonzero;
      stored = v.stored;
      few = v.few;
      active = v.active;
    })

hide-IsValid : (p : Ptr) (s t : Wm) → IsValid s → window_hide p s ≡ some t → IsValid t
unfolding window_hide
hide-IsValid p s t v e = elim (Bool-cases (p == 0)) [
  | inl z ↦ subst IsValid (eq_of_some (ground arith)) v
  | inr nz ↦ elim (Option-cases (update_window p (set_visible false) s)) [
    | inl n ↦ absurd (ground arith)
    | inr (u, n) ↦
        let eq : hidden p u ≡ t = eq_of_some (ground arith) in
        subst IsValid eq (hidden-IsValid p u (update-IsValid p (set_visible false) s v u n).0)
  ]
]

mouse_step-IsValid :
    (x y : ℕ) (left : Bool) (s t : Wm) (c : Option Click)
    → IsValid s
    → window_handle_mouse x y left s ≡ some (t, c)
    → IsValid t
mouse_step-IsValid x y left s t c v e = elim (Bool-cases (s.dragging_window == 0)) [
  | inl z ↦ by_outcome (inl (ground arith))
  | inr nz ↦ elim (Bool-cases (is_some (s.store s.dragging_window))) [
    | inl live ↦ by_outcome (inr live)
    | inr dead ↦ released x y left s t c v nz dead e
  ]
]
  where
    by_outcome : DragIsLive s → IsValid t
    by_outcome live =
        let (u, d, q, k) = mouse-IsValid x y left s v live in
        subst IsValid (ap (λ (o : Wm × Option Click). o.0) (eq_of_some (sym q ∙ e))) k

-- Every operation that uses no freed window keeps the invariant.
pub Step-IsValid : {s t : Wm} → Step s t → IsValid s → IsValid t
unfolding window_move window_resize window_minimize window_maximize window_restore
Step-IsValid {s} (create fresh title x y w h k) v = create-IsValid fresh title x y w h s v k
Step-IsValid {s} (destroy p) v = destroy-IsValid p s v
Step-IsValid {s} (front p) v = bring_to_front-IsValid p s v
Step-IsValid {s} (show p {t} e) v = show-IsValid p s t v e
Step-IsValid {s} (hide p {t} e) v = hide-IsValid p s t v e
Step-IsValid {s} (move p x y {t} e) v = change-IsValid p _ s t v e
Step-IsValid {s} (resize p w h {t} e) v = change-IsValid p _ s t v e
Step-IsValid {s} (minimize p {t} e) v = change-IsValid p _ s t v e
Step-IsValid {s} (maximize p {t} e) v = change-IsValid p _ s t v e
Step-IsValid {s} (restore p {t} e) v = change-IsValid p _ s t v e
Step-IsValid {s} (mouse x y left {t} {c} e) v = mouse_step-IsValid x y left s t c v e

Reach-IsValid_from : {s t : Wm} → IsValid s → Reach s t → IsValid t
Reach-IsValid_from v here = v
Reach-IsValid_from v (next r st) = Step-IsValid st (Reach-IsValid_from v r)

-- After `window_init`, along every run of operations that use no freed window, the listed windows
-- are distinct, in memory and at most 16, and the active window is NULL or listed.
pub Reach-IsValid : (s : Wm) {t : Wm} → Reach (window_init s) t → IsValid t
Reach-IsValid s r = Reach-IsValid_from (init-IsValid s) r
