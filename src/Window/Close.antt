-- ===== src/Window/Close.antt =====
-- The close button: which events destroy a window, and the drag that is left behind.
use nans_os.Base.{
  ℕ, ◌+◌, ◌-◌, ◌<◌, ◌≡◌, refl, sym, ap, ◌∙◌, ◌≢◌, inl, inr, Bool, true, false, none, some, List, [],
  ◌∷◌, ◌++◌, arith, ◌==◌, if◌then◌else◌,
}
use nans_os.Window.{
  Ptr, Window, Wm, window_bring_to_front, window_destroy, update_window, window_move, inside,
  on_close, title_bar, press, pick, reversed, drag, window_handle_mouse,
}
use nans_os.Window.Stack.{
  has, Distinct, has-append, remove_entry-cases, Fronted, bring_to_front-Fronted,
}
use nans_os.Window.Valid.{IsValid}

record Destroyed (p : Ptr) (s t : Wm) : Type 0 where
  gone : has p t.windows ≡ false
  freed : t.store p ≡ none
  dragging : t.dragging_window ≡ s.dragging_window

listed_ne_zero : (p : Ptr) (s : Wm) → IsValid s → has p s.windows ≡ true → p ≢ 0
listed_ne_zero p s v h z = cc (sym h ∙ ap (λ q. has q s.windows) z ∙ v.nonzero)

reversed-append : (p : Ptr) (ws : List Ptr) → reversed (ws ++ (p ∷ [])) ≡ p ∷ reversed ws
unfolding reversed
reversed-append p [] = refl
reversed-append p (w ∷ ws) = ap (λ l. l ++ (w ∷ [])) (reversed-append p ws)

destroy-Destroyed :
    (p : Ptr) (s : Wm)
    → Distinct s.windows
    → p ≢ 0
    → has p s.windows ≡ true
    → Destroyed p s (window_destroy p s)
unfolding window_destroy
destroy-Destroyed p s d ne h = elim (remove_entry-cases p s.windows) [
  | inl (e, k) ↦ absurd (ground arith)
  | inr (ws, e, r) ↦
      let nz : (p == 0) ≡ false = ground arith in
      rw (nz, window_destroy)
        (rw (e, window_destroy)
          (record { gone = (r.distinct d).1; freed = ground arith; dragging = refl }))
]

-- The window in front, shown and under the mouse at its close button in the title bar.
pub record OverClose (x y : ℕ) (p : Ptr) (w : Window) (s : Wm) : Type 0 where
  pub in_memory : s.store p ≡ some w
  pub shown : w.flags.visible ≡ true
  pub over : inside x y w ≡ true
  pub bar : y < w.y + 20
  pub close : on_close x y w ≡ true
  pub idle : s.dragging_window ≡ 0

abbrev before_close : ℕ → ℕ → Bool → Ptr → Window → Wm → Wm
before_close x y left p w s =
    if left
    then window_bring_to_front p
        (record s { dragging_window = p; drag_offset_x = x - w.x; drag_offset_y = y - w.y })
    else s

pick-close :
    (x y : ℕ) (left : Bool) (p : Ptr) (w : Window) (ps : List Ptr) (s : Wm)
    → OverClose x y p w s
    → pick x y left (p ∷ ps) s ≡ some (window_destroy p (before_close x y left p w s), none)
unfolding pick press title_bar
pick-close x y left p w ps s o = ground arith

mouse-close :
    (x y : ℕ) (left : Bool) (p : Ptr) (w : Window) (ws : List Ptr) (s : Wm)
    → s.windows ≡ ws ++ (p ∷ [])
    → OverClose x y p w s
    → window_handle_mouse x y left s ≡ some (window_destroy p (before_close x y left p w s), none)
unfolding window_handle_mouse
mouse-close x y left p w ws s front o =
    rw (z, window_handle_mouse)
      (ap (λ l. pick x y left l s) (ap reversed front ∙ reversed-append p ws)
        ∙ pick-close x y left p w (reversed ws) s o)
  where
    z : (s.dragging_window == 0) ≡ true
    z = ground (arith, o.idle)

listed_front :
    (p : Ptr) (ws : List Ptr) (s : Wm) → s.windows ≡ ws ++ (p ∷ []) → has p s.windows ≡ true
listed_front p ws s e = ap (has p) e ∙ has-append p ws (p ∷ []) ∙ ground arith

close-Destroyed :
    (x y : ℕ) (left : Bool) (p : Ptr) (w : Window) (s : Wm)
    → IsValid s
    → has p s.windows ≡ true
    → Destroyed p (before_close x y left p w s) (window_destroy p (before_close x y left p w s))
      × (left ≡ true → (before_close x y left p w s).dragging_window ≡ p)
close-Destroyed x y false p w s v h =
    (destroy-Destroyed p s v.distinct (listed_ne_zero p s v h) h, λ e. cc)
close-Destroyed x y true p w s v h =
    let s1 : Wm = record s {
      dragging_window = p;
      drag_offset_x = x - w.x;
      drag_offset_y = y - w.y;
    } in
    let f : Fronted p s1 (window_bring_to_front p s1) =
      (bring_to_front-Fronted p s1).0 (listed_ne_zero p s v h) h in
    (
      destroy-Destroyed p (window_bring_to_front p s1) (f.distinct v.distinct)
          (listed_ne_zero p s v h) (f.same p ∙ h),
      λ _. f.dragging,
    )

-- In a valid state without a drag, over the close button of the front window, which is visible,
-- every mouse event destroys the window, with the button down or up: it is listed no more and its
-- memory is freed.
pub hover-destroys :
    (x y : ℕ) (left : Bool) (p : Ptr) (w : Window) (ws : List Ptr) (s : Wm)
    → IsValid s
    → s.windows ≡ ws ++ (p ∷ [])
    → OverClose x y p w s
    → (t : Wm) × (window_handle_mouse x y left s ≡ some (t, none))
      × (has p t.windows ≡ false)
      × (t.store p ≡ none)
hover-destroys x y left p w ws s v front o =
    let (d, _) = close-Destroyed x y left p w s v (listed_front p ws s front) in
    (
      window_destroy p (before_close x y left p w s),
      mouse-close x y left p w ws s front o,
      d.gone,
      d.freed,
    )

drag-freed :
    (x y : ℕ) (p : Ptr) (t : Wm)
    → p ≢ 0
    → t.dragging_window ≡ p
    → t.store p ≡ none
    → window_handle_mouse x y true t ≡ none
unfolding window_handle_mouse drag window_move update_window
drag-freed x y p t ne e f = ground arith

-- In a valid state without a drag, at the close button (within the title bar) of a visible window
-- that is the last of the list: an event with the left button down succeeds and calls no handler,
-- but leaves the drag of the window that it destroyed, so that the next event, if the button is
-- still down, uses the freed window.
pub press-close-dangles :
    (x y x' y' : ℕ) (p : Ptr) (w : Window) (ws : List Ptr) (s : Wm)
    → IsValid s
    → s.windows ≡ ws ++ (p ∷ [])
    → OverClose x y p w s
    → (t : Wm) × (window_handle_mouse x y true s ≡ some (t, none))
      × (window_handle_mouse x' y' true t ≡ none)
press-close-dangles x y x' y' p w ws s v front o =
    let h : has p s.windows ≡ true = listed_front p ws s front in
    let (d, e) = close-Destroyed x y true p w s v h in
    let t : Wm = window_destroy p (before_close x y true p w s) in
    (
      t,
      mouse-close x y true p w ws s front o,
      drag-freed x' y' p t (listed_ne_zero p s v h) (d.dragging ∙ e refl) d.freed,
    )
