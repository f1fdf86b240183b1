-- ===== src/Window/Mouse.antt =====
-- What the mouse does to the windows.
use nans_os.Base.{
  ℕ, ◌+◌, ◌-◌, ◌%◌, ◌^◌, ◌≡◌, refl, sym, ◌∙◌, ◌≢◌, ◌⊎◌, inl, inr, Bool, true, false, ◌&&◌, Option,
  none, some, List, [], ◌∷◌, arith, ◌==◌, if◌then◌else◌, Bool-cases, Option-cases, is_some,
}
use nans_os.Window.{
  Ptr, Window, Wm, Click, window_bring_to_front, write, window_destroy, update_window, window_move,
  inside, on_close, title_bar, press, pick, reversed, drag, window_handle_mouse,
}
use nans_os.Window.Stack.{has, has-append}
use nans_os.Window.Valid.{IsValid, bring_to_front-IsValid, destroy-IsValid, update-IsValid}

pub has-reversed : (p : Ptr) (ws : List Ptr) → has p (reversed ws) ≡ has p ws
unfolding reversed
has-reversed p [] = refl
has-reversed p (w ∷ ws) = ground (arith, has-append p (reversed ws) (w ∷ []), has-reversed p ws)

drag_start-IsValid :
    (p : Ptr) (dx dy : ℕ) (s : Wm)
    → IsValid s
    → IsValid (record s { dragging_window = p; drag_offset_x = dx; drag_offset_y = dy })
drag_start-IsValid p dx dy s v = record {
  distinct = v.distinct;
  nonzero = v.nonzero;
  stored = v.stored;
  few = v.few;
  active = v.active;
}

close-IsValid :
    (b : Bool) (p : Ptr) (s : Wm) → IsValid s → IsValid (if b then window_destroy p s else s)
close-IsValid true p s v = destroy-IsValid p s v
close-IsValid false p s v = v

title_bar-IsValid :
    (x y : ℕ) (left : Bool) (p : Ptr) (w : Window) (s : Wm)
    → IsValid s
    → IsValid (title_bar x y left p w s)
unfolding title_bar
title_bar-IsValid x y true p w s v =
    close-IsValid (on_close x y w) p
      (window_bring_to_front p
        (record s { dragging_window = p; drag_offset_x = x - w.x; drag_offset_y = y - w.y }))
      (bring_to_front-IsValid p
        (record s { dragging_window = p; drag_offset_x = x - w.x; drag_offset_y = y - w.y })
        (drag_start-IsValid p (x - w.x) (y - w.y) s v))
title_bar-IsValid x y false p w s v = close-IsValid (on_close x y w) p s v

press-IsValid :
    (x y : ℕ) (left : Bool) (p : Ptr) (w : Window) (s : Wm)
    → IsValid s
    → IsValid (press x y left p w s).0
unfolding press
press-IsValid x y left p w s v = ground (arith, title_bar-IsValid x y left p w s v)

-- Where the loop ends with a state, it is valid; it ends with one if all its windows are in memory.
pick-IsValid :
    (x y : ℕ) (left : Bool) (ps : List Ptr) (s : Wm)
    → IsValid s
    → ((p : Ptr) → has p ps ≡ true → is_some (s.store p) ≡ true)
    → (t : Wm) × (c : Option Click) × (pick x y left ps s ≡ some (t, c)) × IsValid t
unfolding pick
pick-IsValid x y left [] s v live = (s, none, refl, v)
pick-IsValid x y left (p ∷ ps) s v live = elim (Option-cases (s.store p)) [
  | inl n ↦ absurd (ground (arith, live p))
  | inr (w, n) ↦ elim (Bool-cases (w.flags.visible && inside x y w)) [
    | inl h ↦ (
      (press x y left p w s).0,
      (press x y left p w s).1,
      rw (n, pick) (rw (h, pick)),
      press-IsValid x y left p w s v,
    )
    | inr h ↦
        let (t, c, e, k) = pick-IsValid x y left ps s v (λ q m. live q (ground arith)) in
        (t, c, rw (n, pick) (rw (h, pick) e), k)
  ]
]

-- A drag under way is of a window in memory.
abbrev pub DragIsLive : Wm → Type 0
DragIsLive s = (s.dragging_window ≡ 0) ⊎ (is_some (s.store s.dragging_window) ≡ true)

pub update-some :
    (p : Ptr) (f : Window → Window) (s : Wm)
    → is_some (s.store p) ≡ true
    → (t : Wm) × (update_window p f s ≡ some t)
unfolding update_window
update-some p f s live = elim (Option-cases (s.store p)) [
  | inl n ↦ absurd (ground arith)
  | inr (w, n) ↦ (record s { store = write s.store p (some (f w)) }, rw (n, update_window))
]

drag-IsValid :
    (x y : ℕ) (s : Wm)
    → IsValid s
    → s.dragging_window ≢ 0
    → is_some (s.store s.dragging_window) ≡ true
    → (t : Wm) × (drag x y s ≡ some t) × IsValid t
unfolding drag window_move
drag-IsValid x y s v ne live =
    let f : Window → Window = λ w. record w {
      x = (x + 2 ^ 16 - s.drag_offset_x) % 2 ^ 16;
      y = (y + 2 ^ 16 - s.drag_offset_y) % 2 ^ 16;
    } in
    let (t, e) = update-some s.dragging_window f s live in
    let nz : (s.dragging_window == 0) ≡ false = ground arith in
    (t, rw (nz, drag, window_move) e, (update-IsValid s.dragging_window f s v t e).0)

MouseOutcome : ℕ → ℕ → Bool → Wm → Type 0
MouseOutcome x y left s =
    (t : Wm) × (c : Option Click) × (window_handle_mouse x y left s ≡ some (t, c)) × IsValid t

mouse-pick :
    (x y : ℕ) (left : Bool) (s : Wm)
    → IsValid s
    → (s.dragging_window == 0) ≡ true
    → MouseOutcome x y left s
unfolding window_handle_mouse MouseOutcome
mouse-pick x y left s v z =
    let (t, c, e, k) =
      pick-IsValid x y left (reversed s.windows) s v
        (λ p h. v.stored p (sym (has-reversed p s.windows) ∙ h)) in
    (t, c, rw (z, window_handle_mouse) e, k)

mouse-drag :
    (x y : ℕ) (left : Bool) (s : Wm)
    → IsValid s
    → (s.dragging_window == 0) ≡ false
    → is_some (s.store s.dragging_window) ≡ true
    → MouseOutcome x y left s
unfolding window_handle_mouse MouseOutcome
mouse-drag x y true s v nz live =
    let (t, e, k) = drag-IsValid x y s v (ground arith) live in
    (t, none, rw (nz, window_handle_mouse) (rw (e, window_handle_mouse)), k)
mouse-drag x y false s v nz live = (
  record s { dragging_window = 0 },
  none,
  rw (nz, window_handle_mouse),
  record {
    distinct = v.distinct;
    nonzero = v.nonzero;
    stored = v.stored;
    few = v.few;
    active = v.active;
  },
)

-- From a valid state, a mouse event uses no freed window, if the drag under way is of a window in
-- memory; the state after it is valid.
pub mouse-IsValid :
    (x y : ℕ) (left : Bool) (s : Wm)
    → IsValid s
    → DragIsLive s
    → (t : Wm) × (c : Option Click) × (window_handle_mouse x y left s ≡ some (t, c)) × IsValid t
unfolding MouseOutcome
mouse-IsValid x y left s v live = elim (Bool-cases (s.dragging_window == 0)) [
  | inl z ↦ mouse-pick x y left s v z
  | inr nz ↦ mouse-drag x y left s v nz (ground arith)
]
