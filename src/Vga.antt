-- ===== src/Vga.antt =====
-- The drawing of src/impl/drivers/video/vga.c and vga.h: the modes, the back buffer, rectangles,
-- lines and what is made of them.
pub mod Pixels
pub mod Rect
pub mod Rounds
pub mod Line
pub mod Scene
mod Tests
use nans_os.Base.{
  ℕ, zero, suc, ◌+◌, ◌-◌, ◌*◌, ◌/◌, ◌%◌, ◌^◌, Bool, true, false, ◌&&◌, ◌||◌, Option, none, some,
  List, [], ◌∷◌, bit_and, leb, ltb, ◌==◌, if◌then◌else◌, length,
}
use nans_os.Base.Int.{ℤ, pos, pos_part, neg_part, sub_ℕ, error}
use nans_os.Pic.{Ports, port_byte_in, port_byte_out}

-- `struct VGAMode`.
pub record VgaMode : Type 0 where
  pub width : ℕ
  pub height : ℕ
  pub bpp : ℕ
  pub mode : ℕ
  pub framebuffer : ℕ
  pub pitch : ℕ

-- `back_buffer` is the memory from the array of that name on; its first 65536 bytes are the array.
pub record Vga : Type 0 where
  pub current_mode : VgaMode
  pub back_buffer : ℕ → ℕ
  pub front_buffer : ℕ → ℕ

abbrev pub memory_base : ℕ
memory_base = 0xA0000

abbrev pub memory_size : ℕ
memory_size = 0x10000

-- A coordinate as a `uint16_t`, and the sum of one and a constant less.
abbrev pub u16 : ℕ → ℕ
u16 n = n % 65536

abbrev pub less : ℕ → ℕ → ℕ
less n k = (n + 65536 - k) % 65536

abbrev pub poke : (ℕ → ℕ) → ℕ → ℕ → ℕ → ℕ
poke b i v j = if j == i then v else b j

-- `memset(buffer, value, VGA_MEMORY_SIZE)` and `memcpy(to, from, VGA_MEMORY_SIZE)`.
abbrev pub filled : ℕ → (ℕ → ℕ) → ℕ → ℕ
filled value b j = if ltb j memory_size then value else b j

abbrev pub copied : (ℕ → ℕ) → (ℕ → ℕ) → ℕ → ℕ
copied from to j = if ltb j memory_size then from j else to j

-- The register writes at the start of `vga_set_mode`, which `vga_init` makes too.
unfoldable pub set_registers : {M : Type 0} → Ports M → M → M
set_registers p m =
    let m1 = port_byte_out p 0x3C2 0x63 m in
    let m2 = port_byte_out p 0x3C5 0x03 (port_byte_out p 0x3C4 0x00 m1) in
    let m3 = port_byte_out p 0x3C5 0x01 (port_byte_out p 0x3C4 0x01 m2) in
    let (v, m4) = port_byte_in p 0x3D5 (port_byte_out p 0x3D4 0x11 m3) in
    port_byte_out p 0x3D5 (bit_and v 0x7F) m4

abbrev pub sized : ℕ → ℕ → ℕ → ℕ → ℕ → VgaMode
sized width height bpp pitch mode = record {
  width = width;
  height = height;
  bpp = bpp;
  mode = mode;
  framebuffer = memory_base;
  pitch = pitch;
}

-- The switch over the mode.
unfoldable pub mode_info : ℕ → Option VgaMode
mode_info mode =
    if mode == 0x03
    then some (sized 80 25 4 160 mode)
    else if mode == 0x13
    then some (sized 320 200 8 320 mode)
    else if mode == 0x12
    then some (sized 640 480 4 320 mode)
    else none

-- The tail of `vga_set_mode`: the mode is taken and both buffers are cleared.
unfoldable pub enter_mode : VgaMode → Vga → Vga
enter_mode info v = record {
  current_mode = info;
  back_buffer = filled 0 v.back_buffer;
  front_buffer = filled 0 v.front_buffer;
}

unfoldable pub vga_set_mode : {M : Type 0} → Ports M → ℕ → M → Vga → ℤ × M × Vga
unfolding enter_mode mode_info
vga_set_mode p mode m v = elim (mode_info mode) [
  | none ↦ (error, set_registers p m, v)
  | some info ↦ (pos 0, set_registers p m, enter_mode info v)
]

unfoldable pub vga_init : {M : Type 0} → Ports M → M → Vga → M × Vga
vga_init p m v =
    let (r, m', v') = vga_set_mode p 0x03 (set_registers p m) v in
    (
      m',
      record v' { back_buffer = filled 0 v'.back_buffer; front_buffer = filled 0 v'.front_buffer },
    )

abbrev pub offset_of : VgaMode → ℕ → ℕ → ℕ
offset_of info x y = (y * info.pitch + x) % 2 ^ 32

-- `x >= current_mode.width || y >= current_mode.height`, negated.
abbrev pub on_screen : VgaMode → ℕ → ℕ → Bool
on_screen info x y = ltb x info.width && ltb y info.height

unfoldable pub vga_set_pixel : ℕ → ℕ → ℕ → Vga → Vga
vga_set_pixel x y color v =
    if on_screen v.current_mode x y
    then record v { back_buffer = poke v.back_buffer (offset_of v.current_mode x y) color }
    else v

-- The inner loop of `vga_draw_rect` in the row `y`, with `k` rounds left at the counter `j`, and the
-- outer loop.
unfoldable pub draw_row : ℕ → ℕ → ℕ → ℕ → ℕ → Vga → Vga
draw_row zero j x y color v = v
draw_row (suc k) j x y color v =
    draw_row k (j + 1) x y color (vga_set_pixel (u16 (x + j)) y color v)

unfoldable pub draw_rows : ℕ → ℕ → ℕ → ℕ → ℕ → ℕ → Vga → Vga
draw_rows zero i x y width color v = v
draw_rows (suc k) i x y width color v =
    draw_rows k (i + 1) x y width color (draw_row width 0 x (u16 (y + i)) color v)

unfoldable pub vga_draw_rect : ℕ → ℕ → ℕ → ℕ → ℕ → Vga → Vga
vga_draw_rect x y width height color v = draw_rows height 0 x y width color v

-- `abs(b - a)`.
abbrev pub distance : ℕ → ℕ → ℕ
distance a b = if ltb b a then a - b else b - a

-- One step of a coordinate towards its goal, which lies above it if `up`.
abbrev pub toward : Bool → ℕ → ℕ
toward up x = if up then u16 (x + 1) else less x 1

-- What a line keeps during its loop: `dx`, `dy` and the signs `sx` and `sy`.
pub record Slope : Type 0 where
  pub dx : ℕ
  pub dy : ℕ
  pub sx : Bool
  pub sy : Bool

-- `e2 > -dx` and `e2 < dy`.
abbrev pub steps_x : Slope → ℤ → Bool
steps_x s e2 = ltb (neg_part e2) (pos_part e2 + s.dx)

abbrev pub steps_y : Slope → ℤ → Bool
steps_y s e2 = ltb (pos_part e2) (neg_part e2 + s.dy)

-- `err -= dy` and `err += dx`.
abbrev pub err_x : Slope → ℤ → ℤ
err_x s err = sub_ℕ (pos_part err) (neg_part err + s.dy)

abbrev pub err_y : Slope → ℤ → ℤ
err_y s err = sub_ℕ (pos_part err + s.dx) (neg_part err)

-- The error after one round, and the loop: `none` where the fuel runs out.
abbrev pub next_err : Slope → ℤ → ℤ
next_err s err =
    let e1 : ℤ = if steps_x s err then err_x s err else err in
    if steps_y s err then err_y s e1 else e1

unfoldable pub line_loop : ℕ → Slope → ℕ → ℕ → ℕ → ℕ → ℤ → ℕ → Vga → Option Vga
line_loop zero s x1 y1 x2 y2 err color v = none
line_loop (suc fuel) s x1 y1 x2 y2 err color v =
    let x = if steps_x s err then toward s.sx x1 else x1 in
    let y = if steps_y s err then toward s.sy y1 else y1 in
    let rest = line_loop fuel s x y x2 y2 (next_err s err) color (vga_set_pixel x1 y1 color v) in
    if x1 == x2 && y1 == y2 then some (vga_set_pixel x1 y1 color v) else rest

abbrev pub slope : ℕ → ℕ → ℕ → ℕ → Slope
slope x1 y1 x2 y2 = record {
  dx = distance x1 x2;
  dy = distance y1 y2;
  sx = ltb x1 x2;
  sy = ltb y1 y2;
}

-- `(dx > dy ? dx : -dy) / 2`, which rounds towards 0.
abbrev pub first_err : Slope → ℤ
first_err s = if ltb s.dy s.dx then pos (s.dx / 2) else sub_ℕ 0 (s.dy / 2)

-- A line has at most 65536 pixels.
abbrev pub line_fuel : ℕ
line_fuel = 65536

unfoldable pub vga_draw_line : ℕ → ℕ → ℕ → ℕ → ℕ → Vga → Option Vga
vga_draw_line x1 y1 x2 y2 color v =
    let s = slope x1 y1 x2 y2 in line_loop line_fuel s x1 y1 x2 y2 (first_err s) color v

unfoldable pub vga_clear_screen : ℕ → Vga → Vga
vga_clear_screen color v = record v { back_buffer = filled color v.back_buffer }

unfoldable pub vga_swap_buffers : Vga → Vga
vga_swap_buffers v = record v { front_buffer = copied v.back_buffer v.front_buffer }
