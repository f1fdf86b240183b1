-- ===== src/Window/Stack.antt =====
-- The order of the windows: removal, the front window, `window_bring_to_front`.
use nans_os.Base.{
  suc, ◌≡◌, refl, ap, ◌∙◌, ◌≢◌, ◌⊎◌, inl, inr, Bool, true, false, ◌||◌, Option, none, some, List,
  [], ◌∷◌, ◌++◌, append-nil, arith, ◌==◌, if◌then◌else◌, Bool-cases, Option-cases, length,
  length-append,
}
use mathlib.Core.Path.{subst}
use nans_os.Window.{Ptr, Wm, remove_entry, last_window, window_bring_to_front}

abbrev pub has : Ptr → List Ptr → Bool
has p [] = false
has p (w ∷ ws) = w == p || has p ws

abbrev pub Distinct : List Ptr → Type 0
Distinct [] = Unit
Distinct (w ∷ ws) = (has w ws ≡ false) × Distinct ws

-- The entries other than `p`, in order.
unfoldable pub others : Ptr → List Ptr → List Ptr
others p [] = []
others p (w ∷ ws) = let rest = others p ws in if w == p then rest else w ∷ rest

pub has-append : (p : Ptr) (ws vs : List Ptr) → has p (ws ++ vs) ≡ (has p ws || has p vs)
has-append p [] vs = refl
has-append p (w ∷ ws) vs = ground (arith, has-append p ws vs)

others-append : (p : Ptr) (ws vs : List Ptr) → others p (ws ++ vs) ≡ others p ws ++ others p vs
unfolding others
others-append p [] vs = refl
others-append p (w ∷ ws) vs = ground (arith, others-append p ws vs)

others_self : (p : Ptr) → others p (p ∷ []) ≡ []
unfolding others
others_self p = ground arith

pub last-append : (p : Ptr) (ws : List Ptr) → last_window (ws ++ (p ∷ [])) ≡ p
unfolding last_window
last-append p [] = refl
last-append p (w ∷ []) = refl
last-append p (w ∷ v ∷ ws) = last-append p (v ∷ ws)

pub has-last : (w : Ptr) (ws : List Ptr) → has (last_window (w ∷ ws)) (w ∷ ws) ≡ true
unfolding last_window
has-last w [] = ground arith
has-last w (v ∷ ws) = ground (arith, has-last v ws)

-- What the removal of an entry leaves.
pub record Removed (p : Ptr) (ws ws' : List Ptr) : Type 0 where
  pub size : length ws ≡ suc (length ws')
  pub was : has p ws ≡ true
  pub rest : (q : Ptr) → q ≢ p → has q ws' ≡ has q ws
  pub order : others p ws' ≡ others p ws
  pub distinct : Distinct ws → Distinct ws' × (has p ws' ≡ false)

abbrev Outcome : Ptr → List Ptr → Option (List Ptr) → Type 0
Outcome p ws none = has p ws ≡ false
Outcome p ws (some ws') = Removed p ws ws'

Removed-here : (p w : Ptr) (ws : List Ptr) → (w == p) ≡ true → Removed p (w ∷ ws) ws
unfolding others
Removed-here p w ws e = record {
  size = refl;
  was = rw e;
  rest = λ q ne. ground arith;
  order = rw e;
  distinct = λ d. ground arith;
}

Outcome-cons :
    (p w : Ptr) (ws : List Ptr) (o : Option (List Ptr))
    → (w == p) ≡ false
    → Outcome p ws o
    → Outcome p (w ∷ ws) (elim o [ none ↦ none | some ws' ↦ some (w ∷ ws') ])
unfolding others
Outcome-cons p w ws none e h = rw e h
Outcome-cons p w ws (some ws') e r = record {
  size = ap suc r.size;
  was = rw e r.was;
  rest = λ q ne. ground (arith, r.rest q ne);
  order = rw e (ap (λ l. w ∷ l) r.order);
  distinct = λ d. ground (arith, r.distinct d.1, r.rest w);
}

pub remove_entry-Outcome : (p : Ptr) (ws : List Ptr) → Outcome p ws (remove_entry p ws)
unfolding remove_entry
remove_entry-Outcome p [] = refl
remove_entry-Outcome p (w ∷ ws) = elim (Bool-cases (w == p)) [
  | inl e ↦ rw (e, remove_entry) (Removed-here p w ws e)
  | inr e ↦
      rw (e, remove_entry) (Outcome-cons p w ws (remove_entry p ws) e (remove_entry-Outcome p ws))
]

pub remove_entry-cases :
    (p : Ptr) (ws : List Ptr)
    → ((remove_entry p ws ≡ none) × (has p ws ≡ false))
      ⊎ ((ws' : List Ptr) × (remove_entry p ws ≡ some ws') × Removed p ws ws')
remove_entry-cases p ws = elim (Option-cases (remove_entry p ws)) [
  | inl e ↦ inl (e, subst (Outcome p ws) e (remove_entry-Outcome p ws))
  | inr (ws', e) ↦ inr (ws', e, subst (Outcome p ws) e (remove_entry-Outcome p ws))
]

zero_test : (p : Ptr) → p ≢ 0 → (p == 0) ≡ false
zero_test p ne = ground arith

-- `p` in front and active, the others behind it as they were, and nothing else changed.
pub record Fronted (p : Ptr) (s s' : Wm) : Type 0 where
  pub front : last_window s'.windows ≡ p
  pub active : s'.active_window ≡ p
  pub order : others p s'.windows ≡ others p s.windows
  pub size : length s'.windows ≡ length s.windows
  pub same : (q : Ptr) → has q s'.windows ≡ has q s.windows
  pub distinct : Distinct s.windows → Distinct s'.windows
  pub store : s'.store ≡ s.store
  pub dragging : s'.dragging_window ≡ s.dragging_window

Distinct-append :
    (p : Ptr) (ws : List Ptr) → Distinct ws → has p ws ≡ false → Distinct (ws ++ (p ∷ []))
Distinct-append p [] d h = ground arith
Distinct-append p (w ∷ ws) d h = ground (arith, has-append w ws (p ∷ []), Distinct-append p ws d.1)

Fronted-front :
    (p : Ptr) (s : Wm) (ws' : List Ptr)
    → Removed p s.windows ws'
    → Fronted p s (record s { windows = ws' ++ (p ∷ []); active_window = p })
Fronted-front p s ws' r = record {
  front = last-append p ws';
  active = refl;
  order =
      others-append p ws' (p ∷ [])
      ∙ ap (λ l. others p ws' ++ l) (others_self p)
      ∙ append-nil (others p ws')
      ∙ r.order;
  size = ground (arith, length-append ws' (p ∷ []), r.size);
  same = λ q. ground (arith, has-append q ws' (p ∷ []), r.rest q, r.was);
  distinct = λ d. Distinct-append p ws' (r.distinct d).0 (r.distinct d).1;
  store = refl;
  dragging = refl;
}

-- `window_bring_to_front` of a listed window puts it in front and makes it active; the other windows
-- keep their order, and no window is lost or added. Any other pointer changes nothing.
pub bring_to_front-Fronted :
    (p : Ptr) (s : Wm)
    → (p ≢ 0 → has p s.windows ≡ true → Fronted p s (window_bring_to_front p s))
      × ((p ≡ 0) ⊎ (has p s.windows ≡ false) → window_bring_to_front p s ≡ s)
unfolding window_bring_to_front
bring_to_front-Fronted p s = elim (remove_entry-cases p s.windows) [
  | inl (e, h) ↦ (λ ne k. absurd (ground arith), λ k. ground arith)
  | inr (ws', e, r) ↦ (
    λ ne k.
        rw (zero_test p ne, window_bring_to_front)
          (rw (e, window_bring_to_front) (Fronted-front p s ws' r)),
    λ k. ground (arith, r.was),
  )
]
