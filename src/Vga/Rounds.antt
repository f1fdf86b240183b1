-- ===== src/Vga/Rounds.antt =====
-- One round of the line of src/impl/drivers/video/vga.c: the coordinates and the error.
use nans_os.Base.{
  ℕ, zero, suc, ◌+◌, ◌-◌, ◌*◌, ◌/◌, ◌≤◌, ◌<◌, ◌≡◌, ◌⊎◌, inl, inr, refl, arith, Bool, true, false,
  ◌&&◌, ◌||◌, ltb, leb, ◌==◌, if◌then◌else◌,
}
use nans_os.Base.Int.{pos, sub_ℕ}
use nans_os.Vga.{Slope, steps_x, steps_y, next_err, toward, distance}

-- A coordinate reaches its goal after `r` steps in its direction.
abbrev pub Towards : Bool → ℕ → ℕ → ℕ → Type 0
Towards up a b r = ((up ≡ true) × (a + r ≡ b)) ⊎ ((up ≡ false) × (b + r ≡ a))

-- Between two coordinates, both included.
abbrev pub between : ℕ → ℕ → ℕ → Bool
between a b n = (leb a n && leb n b) || (leb b n && leb n a)

pub toward-Towards :
    (up : Bool) (a b r : ℕ)
    → Towards up a b (suc r)
    → a < 65536
    → b < 65536
    → Towards up (toward up a) b r × (toward up a < 65536) × (between a b (toward up a) ≡ true)
toward-Towards true a b r t ha hb = ground arith
toward-Towards false a b r t ha hb = ground arith

-- One round of the longer distance `a`, with `e` for the error: the shorter one, `b`, takes a step
-- exactly if `e < b`, and never one too many.
pub short_step :
    (a b e long short : ℕ)
    → b ≤ a
    → e < a
    → e + a * short ≡ a / 2 + b * suc long
    → e < b
    → (short' : ℕ) × (short ≡ suc short') × (e + a - b + a * short' ≡ a / 2 + b * long)
short_step a b e long zero le lt q h = absurd (grind arith)
short_step a b e long (suc short) le lt q h = (short, refl, grind arith)

pub short_stays :
    (a b e long short : ℕ)
    → e + a * short ≡ a / 2 + b * suc long
    → b ≤ e
    → e - b + a * short ≡ a / 2 + b * long
short_stays a b e long short q h = grind arith

pub short_done : (a b e short : ℕ) → 0 < a → e + a * short ≡ a / 2 + b * 0 → short ≡ 0
short_done a b e zero ha q = refl
short_done a b e (suc short) ha q = absurd (grind arith)

pub flat_next :
    (s : Slope) (e : ℕ)
    → s.dy < s.dx
    → e < s.dx
    → (steps_x s (pos e) ≡ true)
      × (steps_y s (pos e) ≡ ltb e s.dy)
      × (next_err s (pos e) ≡ pos (if ltb e s.dy then e + s.dx - s.dy else e - s.dy))
flat_next s e h he = (ground arith, ground arith, ground arith)

pub steep_next :
    (s : Slope) (e : ℕ)
    → s.dx ≤ s.dy
    → e < s.dy
    → (steps_y s (sub_ℕ 0 e) ≡ true)
      × (steps_x s (sub_ℕ 0 e) ≡ ltb e s.dx)
      × (next_err s (sub_ℕ 0 e) ≡ sub_ℕ 0 (if ltb e s.dx then e + s.dy - s.dx else e - s.dx))
steep_next s e h he = (ground arith, ground arith, ground arith)

pub between-nearer :
    (a a' b n : ℕ) → between a b a' ≡ true → between a b n ≡ false → between a' b n ≡ false
between-nearer a a' b n h out = ground arith

pub ne_of_outside : (a b n : ℕ) → between a b n ≡ false → (n == a) ≡ false
ne_of_outside a b n out = ground arith

pub and_cases : (a b : Bool) → (a && b) ≡ false → (a ≡ false) ⊎ (b ≡ false)
and_cases true b h = inr h
and_cases false b h = inl refl

pub and_of_left : (a b : Bool) → a ≡ false → (a && b) ≡ false
and_of_left a b h = rw h refl

pub and_of_right : (a b : Bool) → b ≡ false → (a && b) ≡ false
and_of_right true b h = h
and_of_right false b h = refl

-- A pixel outside the rectangle of a line is outside that of a nearer point, and not the first.
pub out_of_nearer :
    (x x' x2 y y' y2 px py : ℕ)
    → between x x2 x' ≡ true
    → between y y2 y' ≡ true
    → (between x x2 px && between y y2 py) ≡ false
    → ((between x' x2 px && between y' y2 py) ≡ false) × ((px == x && py == y) ≡ false)
out_of_nearer x x' x2 y y' y2 px py bx by out = elim (and_cases _ _ out) [
  | inl e ↦
      (and_of_left _ _ (between-nearer x x' x2 px bx e), and_of_left _ _ (ne_of_outside x x2 px e))
  | inr e ↦ (
    and_of_right _ _ (between-nearer y y' y2 py by e),
    and_of_right _ _ (ne_of_outside y y2 py e),
  )
]

pub distance-Towards : (a b : ℕ) → Towards (ltb a b) a b (distance a b)
distance-Towards a b = ground arith
