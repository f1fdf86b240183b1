-- ===== src/Window/Desktop/Typed.antt =====
-- What is typed into the terminal window of src/impl/drivers/video/window.c.
use nans_os.Base.{
  ℕ, zero, suc, ◌+◌, ◌≡◌, ◌≢◌, refl, sym, ap, ◌∙◌, arith, true, false, Option, some, List, [], ◌∷◌,
  ◌++◌, append_assoc, append-nil, length, length-append, set, replicate, ltb, if◌then◌else◌, ◌==◌,
}
use mathlib.Core.Path.{subst}
use nans_os.Window.{Ptr, Window, take, window_handle_key}
use nans_os.Window.Desktop.{
  TerminalBuffer, Desktop, text_of, type_byte, terminal_key, desktop_key, desktop_keys,
  empty_buffer,
}

-- No byte of a list is 0.
abbrev pub Nonzero : List ℕ → Type 0
Nonzero [] = Unit
Nonzero (c ∷ cs) = ((c == 0) ≡ false) × Nonzero cs

text_of-zeros : (s : List ℕ) (k : ℕ) → Nonzero s → text_of (s ++ replicate (suc k) 0) ≡ s
unfolding text_of
text_of-zeros [] k n = refl
text_of-zeros (c ∷ s) k (nz, n) = rw (text_of, nz) (ap (λ r. c ∷ r) (text_of-zeros s k n))

set-append : (s : List ℕ) (a v : ℕ) (xs : List ℕ) → set (s ++ (a ∷ xs)) (length s) v ≡ s ++ (v ∷ xs)
set-append [] a v xs = refl
set-append (c ∷ s) a v xs = ap (λ r. c ∷ r) (set-append s a v xs)

set-append_next :
    (s : List ℕ) (a b v : ℕ) (xs : List ℕ)
    → set (s ++ (a ∷ b ∷ xs)) (suc (length s)) v ≡ s ++ (a ∷ v ∷ xs)
set-append_next [] a b v xs = refl
set-append_next (c ∷ s) a b v xs = ap (λ r. c ∷ r) (set-append_next s a b v xs)

-- A buffer with the string `s` and `k` zeros behind its end.
abbrev buffer_of : List ℕ → ℕ → TerminalBuffer
buffer_of s k = record { data_bytes = s ++ replicate (suc k) 0; cursor = length s }

type_byte-room :
    (s : List ℕ) (k key : ℕ)
    → length s + suc k ≡ 1023
    → type_byte key (buffer_of s (suc k)) ≡ buffer_of (s ++ (key ∷ [])) k
unfolding type_byte
type_byte-room s k key h =
    let room : ltb (length s) 1023 ≡ true = ground arith in
    let next : length s + 1 ≡ suc (length s) = omega arith in
    let size : length s + 1 ≡ length (s ++ (key ∷ [])) =
      omega (arith, length-append s (key ∷ [])) in
    let bytes : set (set (s ++ (0 ∷ 0 ∷ replicate k 0)) (length s) key) (length s + 1) 0
        ≡ (s ++ (key ∷ [])) ++ (0 ∷ replicate k 0) =
      ap (λ b. set b (length s + 1) 0) (set-append s 0 key (0 ∷ replicate k 0))
      ∙ ap (λ n. set (s ++ (key ∷ 0 ∷ replicate k 0)) n 0) next
      ∙ set-append_next s key 0 0 (replicate k 0)
      ∙ sym (append_assoc s (key ∷ []) (0 ∷ replicate k 0)) in
    rw room (
      ap (λ b. record { data_bytes = b; cursor = length s + 1 }) bytes
      ∙ ap (λ n. record { data_bytes = (s ++ (key ∷ [])) ++ (0 ∷ replicate k 0); cursor = n }) size)

type_byte-full :
    (s : List ℕ) (key : ℕ) → length s ≡ 1023 → type_byte key (buffer_of s zero) ≡ buffer_of s zero
unfolding type_byte
type_byte-full s key h = let full : ltb (length s) 1023 ≡ false = ground arith in rw full refl

-- The active window `w` is a terminal with the buffer `b`.
pub record Active (w : Window) (b : TerminalBuffer) (d : Desktop) : Type 0 where
  pub nonzero : d.wm.active_window ≢ 0
  pub stored : d.wm.store d.wm.active_window ≡ some w
  pub handler : w.on_key ≡ 1
  pub allocated : w.content ≢ 0
  pub buffer : d.contents w.content ≡ some b

handled-terminal :
    (w : Window) (b : TerminalBuffer) (d : Desktop)
    → Active w b d
    → window_handle_key d.wm ≡ some (some (1, d.wm.active_window))
unfolding window_handle_key
handled-terminal w b d a =
    let nz : (d.wm.active_window == 0) ≡ false = ground (arith, a.nonzero) in
    rw (window_handle_key, nz, a.stored, a.handler) refl

abbrev after_key : ℕ → Window → TerminalBuffer → Desktop → Desktop
after_key key w b d = record d {
  contents = λ q. if q == w.content then some (type_byte key b) else d.contents q;
}

key-typed :
    (key : ℕ) (w : Window) (b : TerminalBuffer) (d : Desktop)
    → Active w b d
    → (desktop_key key d ≡ some (after_key key w b d))
      × Active w (type_byte key b) (after_key key w b d)
unfolding desktop_key terminal_key
key-typed key w b d a =
    let nz : (w.content == 0) ≡ false = ground (arith, a.allocated) in
    let self : (w.content == w.content) ≡ true = ground arith in
    (
      rw (desktop_key, handled-terminal w b d a) (rw (terminal_key, a.stored, nz, a.buffer) refl),
      record {
        nonzero = a.nonzero;
        stored = a.stored;
        handler = a.handler;
        allocated = a.allocated;
        buffer = rw self refl;
      },
    )

take-nil : (k : ℕ) → take k [] ≡ []
unfolding take
take-nil zero = refl
take-nil (suc k) = refl

take-Nonzero : (k : ℕ) (s : List ℕ) → Nonzero s → Nonzero (take k s)
unfolding take
take-Nonzero zero s n = tt
take-Nonzero (suc k) [] n = tt
take-Nonzero (suc k) (c ∷ s) (nz, n) = (nz, take-Nonzero k s n)

-- The same for more keys, on a buffer that holds the string `s`.
keys-typed :
    (keys s : List ℕ) (k : ℕ) (w : Window) (d : Desktop)
    → Active w (buffer_of s k) d
    → length s + k ≡ 1023
    → (contents : Ptr → Option TerminalBuffer) × (k' : ℕ) × (desktop_keys keys d
        ≡ some (record d { contents = contents }))
      × (contents w.content ≡ some (buffer_of (s ++ take k keys) k'))
unfolding desktop_keys take
keys-typed [] s k w d a h = (
  d.contents,
  k,
  refl,
  a.buffer
      ∙ ap (λ r. some (buffer_of r k)) (sym (append-nil s) ∙ ap (λ r. s ++ r) (sym (take-nil k))),
)
keys-typed (key ∷ keys) s zero w d a h =
    let (e, a') = key-typed key w (buffer_of s zero) d a in
    let full = type_byte-full s key (omega arith) in
    let (contents, k', e', b) =
      keys-typed keys s zero w (after_key key w (buffer_of s zero) d)
        (subst (λ x. Active w x (after_key key w (buffer_of s zero) d)) full a') h in
    (contents, k', rw (desktop_keys, e) e', b)
keys-typed (key ∷ keys) s (suc k) w d a h =
    let (e, a') = key-typed key w (buffer_of s (suc k)) d a in
    let room = type_byte-room s k key h in
    let (contents, k', e', b) =
      keys-typed keys (s ++ (key ∷ [])) k w (after_key key w (buffer_of s (suc k)) d)
        (subst (λ x. Active w x (after_key key w (buffer_of s (suc k)) d)) room a')
        (omega (arith, length-append s (key ∷ []))) in
    (
      contents,
      k',
      rw (desktop_keys, e) e',
      b ∙ ap (λ r. some (buffer_of r k')) (append_assoc s (key ∷ []) (take k keys)),
    )

-- Keys other than 0 that are typed while a terminal with an empty buffer is active: every call of
-- the key handler ends, nothing but the buffers changes, and the terminal's buffer then holds the
-- first 1023 of them as its string, with the rest dropped.
pub desktop_keys-typed :
    (keys : List ℕ) (w : Window) (d : Desktop)
    → Active w empty_buffer d
    → Nonzero keys
    → (contents : Ptr → Option TerminalBuffer) × (b : TerminalBuffer) × (desktop_keys keys d
        ≡ some (record d { contents = contents }))
      × (contents w.content ≡ some b)
      × (text_of b.data_bytes ≡ take 1023 keys)
desktop_keys-typed keys w d a n =
    let (contents, k, e, b) = keys-typed keys [] 1023 w d a refl in
    (
      contents,
      buffer_of (take 1023 keys) k,
      e,
      b,
      text_of-zeros (take 1023 keys) k (take-Nonzero 1023 keys n),
    )
