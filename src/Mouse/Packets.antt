-- ===== src/Mouse/Packets.antt =====
-- What a packet of three bytes does.
use nans_os.Base.{ℕ, ◌+◌, ◌-◌, ◌≡◌, arith, Bool, List, [], ◌∷◌, ltb, min, if◌then◌else◌}
use nans_os.Base.Int.{sub_ℕ}
use nans_os.Mouse.{Mouse, clamp, mouse_step}

-- A coordinate moved by a signed byte, towards its top or towards 0, and kept between them.
abbrev pub forward : ℕ → ℕ → ℕ → ℕ
forward top p byte = if ltb byte 128 then min top (p + byte) else p - (256 - byte)

abbrev pub backward : ℕ → ℕ → ℕ → ℕ
backward top p byte = if ltb byte 128 then p - byte else min top (p + (256 - byte))

clamp-sub : (top a b : ℕ) → clamp top (sub_ℕ a b) ≡ min top (a - b)
unfolding clamp
clamp-sub top a b = ground arith

-- The three interrupts of a packet: the state after them and the three calls of the callback.
abbrev pub packet : ℕ → ℕ → ℕ → ℕ → Mouse → Mouse × List Bool
packet status b dx dy m =
    let (m1, c1) = mouse_step status b m in
    let (m2, c2) = mouse_step status dx m1 in
    let (m3, c3) = mouse_step status dy m2 in (m3, c1 ∷ c2 ∷ c3 ∷ [])
