-- ===== src/Window/Valid.antt =====
-- The invariant of the window list, and the operations that keep it.
use nans_os.Base.{
  ℕ, ◌≤◌, ◌<◌, ◌≡◌, refl, sym, ap, ◌∙◌, ◌≢◌, ◌⊎◌, inl, inr, true, false, Option, none, some, List,
  [], ◌∷◌, ◌++◌, arith, leb, ◌==◌, if◌then◌else◌, Bool-cases, Option-cases, is_some, length,
  length-append, eq_of_some,
}
use mathlib.Core.Path.{subst}
use nans_os.Window.{
  Ptr, Window, Wm, max_windows, new_window, last_window, window_bring_to_front, write, window_init,
  window_create, window_destroy, update_window,
}
use nans_os.Window.Stack.{
  has, Distinct, has-append, has-last, Removed, remove_entry-cases, Fronted, bring_to_front-Fronted,
}

-- Listed windows are distinct, at most 16, and in memory; the active window is NULL or listed.
pub record IsValid (s : Wm) : Type 0 where
  pub distinct : Distinct s.windows
  pub nonzero : has 0 s.windows ≡ false
  pub stored : (p : Ptr) → has p s.windows ≡ true → is_some (s.store p) ≡ true
  pub few : length s.windows ≤ max_windows
  pub active : (s.active_window ≡ 0) ⊎ (has s.active_window s.windows ≡ true)

pub init-IsValid : (s : Wm) → IsValid (window_init s)
unfolding window_init
init-IsValid s = record {
  distinct = tt;
  nonzero = refl;
  stored = λ p h. cc;
  few = omega arith;
  active = inl refl;
}

Fronted-IsValid :
    (p : Ptr) (s s' : Wm) → Fronted p s s' → has p s.windows ≡ true → IsValid s → IsValid s'
Fronted-IsValid p s s' f h v = record {
  distinct = f.distinct v.distinct;
  nonzero = f.same 0 ∙ v.nonzero;
  stored = λ q k.
      ap (λ (m : Ptr → Option Window). is_some (m q)) f.store ∙ v.stored q (sym (f.same q) ∙ k);
  few = omega (arith, f.size, v.few);
  active = inr (ap (λ q. has q s'.windows) f.active ∙ f.same p ∙ h);
}

pub bring_to_front-IsValid : (p : Ptr) (s : Wm) → IsValid s → IsValid (window_bring_to_front p s)
bring_to_front-IsValid p s v = elim (Bool-cases (p == 0)) [
  | inl z ↦ rw ((bring_to_front-Fronted p s).1 (inl (ground arith))) v
  | inr nz ↦ elim (Bool-cases (has p s.windows)) [
    | inl h ↦
        Fronted-IsValid p s (window_bring_to_front p s)
          ((bring_to_front-Fronted p s).0 (ground arith) h) h v
    | inr h ↦ rw ((bring_to_front-Fronted p s).1 (inr h)) v
  ]
]

Distinct-snoc :
    (p : Ptr) (ws : List Ptr) → Distinct ws → has p ws ≡ false → Distinct (ws ++ (p ∷ []))
Distinct-snoc p [] d h = ground arith
Distinct-snoc p (w ∷ ws) d h = ground (arith, has-append w ws (p ∷ []), Distinct-snoc p ws d.1)

abbrev listed : Ptr → Window → Wm → Wm
listed p w s = record s { windows = s.windows ++ (p ∷ []); store = write s.store p (some w) }

listed-IsValid :
    (p : Ptr) (w : Window) (s : Wm)
    → IsValid s
    → p ≢ 0
    → has p s.windows ≡ false
    → length s.windows < max_windows
    → IsValid (listed p w s)
listed-IsValid p w s v ne fresh room = record {
  distinct = Distinct-snoc p s.windows v.distinct fresh;
  nonzero = ground (arith, has-append 0 s.windows (p ∷ []), v.nonzero);
  stored = λ q k. ground (arith, has-append q s.windows (p ∷ []), v.stored q);
  few = omega (arith, length-append s.windows (p ∷ []));
  active = ground (arith, has-append s.active_window s.windows (p ∷ []), v.active);
}

-- `window_create` keeps the invariant, if `malloc` returns NULL or an address that no listed window
-- has. It makes no window beyond the sixteenth.
pub create-IsValid :
    (fresh : Ptr) (title : List ℕ) (x y width height : ℕ) (s : Wm)
    → IsValid s
    → has fresh s.windows ≡ false
    → IsValid (window_create fresh title x y width height s).1
unfolding window_create
create-IsValid fresh title x y width height s v h =
    elim (Bool-cases (leb max_windows (length s.windows))) [
      | inl full ↦ rw (full, window_create) v
      | inr room ↦ elim (Bool-cases (fresh == 0)) [
        | inl z ↦ rw (room, window_create) (rw (z, window_create) v)
        | inr nz ↦
            rw (room, window_create)
              (rw (nz, window_create)
                (bring_to_front-IsValid fresh (listed fresh (new_window title x y width height) s) (
                  listed-IsValid fresh (new_window title x y width height) s v (ground arith) h
                    (ground arith))))
      ]
    ]

abbrev without : Ptr → List Ptr → Wm → Wm
without p ws s = record s {
  windows = ws;
  active_window = if s.active_window == p then last_window ws else s.active_window;
  store = write s.store p none;
}

pub last-cases : (ws : List Ptr) → (last_window ws ≡ 0) ⊎ (has (last_window ws) ws ≡ true)
unfolding last_window
last-cases [] = inl refl
last-cases (w ∷ ws) = inr (has-last w ws)

without-IsValid :
    (p : Ptr) (ws : List Ptr) (s : Wm)
    → IsValid s
    → Removed p s.windows ws
    → IsValid (without p ws s)
without-IsValid p ws s v r =
    let d : Distinct ws × (has p ws ≡ false) = r.distinct v.distinct in
    record {
      distinct = d.0;
      nonzero = ground (arith, r.rest 0, v.nonzero, d.1);
      stored = λ q k. ground (arith, r.rest q, v.stored q, d.1);
      few = omega (arith, r.size, v.few);
      active = ground (arith, last-cases ws, v.active, r.rest s.active_window);
    }

-- `window_destroy` keeps the invariant.
pub destroy-IsValid : (p : Ptr) (s : Wm) → IsValid s → IsValid (window_destroy p s)
unfolding window_destroy
destroy-IsValid p s v = elim (Bool-cases (p == 0)) [
  | inl z ↦ rw (z, window_destroy) v
  | inr nz ↦ elim (remove_entry-cases p s.windows) [
    | inl (e, h) ↦ rw (nz, window_destroy) (rw (e, window_destroy) v)
    | inr (ws, e, r) ↦ rw (nz, window_destroy) (rw (e, window_destroy) (without-IsValid p ws s v r))
  ]
]

-- A change of one window, where it succeeds.
pub update-IsValid :
    (p : Ptr) (f : Window → Window) (s : Wm)
    → IsValid s
    → (s' : Wm) → update_window p f s ≡ some s'
    → IsValid s' × (s'.windows ≡ s.windows)
unfolding update_window
update-IsValid p f s v s' e = elim (Option-cases (s.store p)) [
  | inl n ↦ absurd (ground arith)
  | inr (w, n) ↦
      let eq : record s { store = write s.store p (some (f w)) } ≡ s' = eq_of_some (ground arith) in
      subst (λ t. IsValid t × (t.windows ≡ s.windows)) eq
        (
          record {
            distinct = v.distinct;
            nonzero = v.nonzero;
            stored = λ q k. ground (arith, v.stored q);
            few = v.few;
            active = v.active;
          },
          refl,
        )
]
