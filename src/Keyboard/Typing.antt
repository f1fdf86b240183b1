-- ===== src/Keyboard/Typing.antt =====
-- From the bytes of the keyboard to the typed characters: the interrupt handler of
-- src/impl/drivers/keyboard/keyboard.c against the keymap alone.
use nans_os.Base.{
  ℕ, suc, ◌≡◌, refl, sym, ap, ◌∙◌, Bool, true, false, not, List, [], ◌∷◌, ◌++◌, append_assoc,
  append-nil, length, ◌==◌, if◌then◌else◌, Bool-cases, inl, inr,
}
use nans_os.Pic.{Ports, port_byte_in, port_byte_out, pic_send_eoi}
use nans_os.Keymap.{
  KeyboardState, SpecialKeyEvent, update_keyboard_state, is_special_key, handle_special_key,
  scancode_to_ascii,
}
use nans_os.Keyboard.{
  Cpu, Callbacks, Keyboard, call, has_data, wait_while, keyboard_read_scan_code, deliver,
  keyboard_handler, handle_bytes,
}

-- What a byte types, and what a list of bytes does, from a state of the modifiers.
abbrev pub typed_by_key : ℕ → KeyboardState → List ℕ
typed_by_key byte state =
    if is_special_key byte
    then []
    else if scancode_to_ascii byte state == 0
    then []
    else scancode_to_ascii byte state ∷ []

abbrev pub typed_by : KeyboardState → List ℕ → List ℕ
typed_by state [] = []
typed_by state (byte ∷ bytes) =
    typed_by_key byte (update_keyboard_state byte state)
    ++ typed_by (update_keyboard_state byte state) bytes

abbrev pub state_after : KeyboardState → List ℕ → KeyboardState
state_after state [] = state
state_after state (byte ∷ bytes) = state_after (update_keyboard_state byte state) bytes

abbrev pub is_full : List ℕ → Bool
is_full [] = false
is_full (c ∷ cs) = true

-- What is seen of the devices: the bytes that the controller holds, and what has been typed.
abbrev pub View : Type 0
View = List ℕ × List ℕ

-- A controller that gives its bytes in order, one for each read of its data port, and says in its
-- status whether it holds one; the acknowledgement and the interrupt flag do not matter to it.
pub record IsController {M : Type 0} (p : Ports M) (cpu : Cpu M) (view : M → View) : Type 0 where
  pub status : (m : M) → has_data (p.inb 0x64 m).0 ≡ is_full (view m).0
  pub status_keeps : (m : M) → view (p.inb 0x64 m).1 ≡ view m
  pub gives :
      (c : ℕ) (cs ts : List ℕ) (m : M)
      → view m ≡ (c ∷ cs, ts)
      → ((p.inb 0x60 m).0 ≡ c) × (view (p.inb 0x60 m).1 ≡ (cs, ts))
  pub ends : (m : M) → view (p.outb 0x20 0x20 m) ≡ view m
  pub clears : (m : M) → view (cpu.cli m) ≡ view m
  pub sets : (m : M) → view (cpu.sti m) ≡ view m

-- Callbacks of which the one for characters types them and the others do nothing that is seen.
pub record IsTyping {M : Type 0} (callbacks : Callbacks M) (view : M → View) : Type 0 where
  pub types :
      (c : ℕ) (m : M)
      → view (call callbacks.char_callback c m) ≡ ((view m).0, (view m).1 ++ (c ∷ []))
  pub scancode_keeps : (c : ℕ) (m : M) → view (call callbacks.scancode_callback c m) ≡ view m
  pub special_keeps :
      (s : SpecialKeyEvent) (m : M) → view (call callbacks.special_callback s m) ≡ view m

module _ {M : Type 0} (p : Ports M) (cpu : Cpu M) (callbacks : Callbacks M) (view : M → View)
    (d : IsController p cpu view) (t : IsTyping callbacks view) where
  wait-over :
      (test : ℕ → Bool) (k : ℕ) (m : M)
      → test (p.inb 0x64 m).0 ≡ false
      → wait_while p cpu test (suc k) m ≡ (suc k, (p.inb 0x64 m).1)
  unfolding wait_while port_byte_in
  wait-over test k m h = rw h refl

  scan_code-read :
      (c : ℕ) (cs ts : List ℕ) (m : M)
      → view m ≡ (c ∷ cs, ts)
      → ((keyboard_read_scan_code p cpu m).0 ≡ c)
        × (view (keyboard_read_scan_code p cpu m).1 ≡ (cs, ts))
  unfolding keyboard_read_scan_code port_byte_in
  scan_code-read c cs ts m e =
      let test : ℕ → Bool = λ s. not (has_data s) in
      let full : has_data (p.inb 0x64 m).0 ≡ true = d.status m ∙ rw e refl in
      let (byte, rest) = d.gives c cs ts (p.inb 0x64 m).1 (d.status_keeps m ∙ e) in
      let over : wait_while p cpu test 10000 m ≡ (10000, (p.inb 0x64 m).1) =
        wait-over test 9999 m (rw full refl) in
      rw over (byte, rest)

  delivered :
      (c : ℕ) (cs ts : List ℕ) (k : Keyboard) (m : M)
      → view m ≡ (cs, ts)
      → ((deliver p cpu callbacks c k m).0.keyboard_state
          ≡ update_keyboard_state c k.keyboard_state)
        × (view (deliver p cpu callbacks c k m).1
            ≡ (cs, ts ++ typed_by_key c (update_keyboard_state c k.keyboard_state)))
  unfolding deliver
  delivered c cs ts k m e =
      let state : KeyboardState = update_keyboard_state c k.keyboard_state in
      let m1 : M = call callbacks.scancode_callback c m in
      let e1 : view m1 ≡ (cs, ts) = t.scancode_keeps c m ∙ e in
      let same : view m1 ≡ (cs, ts ++ []) =
        e1 ∙ ap (λ (xs : List ℕ). (cs, xs)) (sym (append-nil ts)) in
      elim (Bool-cases (is_special_key c)) [
        | inl special ↦ rw special (refl, t.special_keeps (handle_special_key c state) m1 ∙ same)
        | inr plain ↦ rw plain (elim (Bool-cases (scancode_to_ascii c state == 0)) [
          | inl silent ↦ rw silent (refl, same)
          | inr char ↦ rw char (refl, t.types (scancode_to_ascii c state) m1 ∙ rw e1 refl)
        ])
      ]

  handled :
      (c : ℕ) (cs ts : List ℕ) (k : Keyboard) (m : M)
      → view m ≡ (c ∷ cs, ts)
      → ((keyboard_handler p cpu callbacks k m).0.keyboard_state
          ≡ update_keyboard_state c k.keyboard_state)
        × (view (keyboard_handler p cpu callbacks k m).1
            ≡ (cs, ts ++ typed_by_key c (update_keyboard_state c k.keyboard_state)))
  unfolding keyboard_handler port_byte_in pic_send_eoi port_byte_out
  handled c cs ts k m e =
      let m0 : M = cpu.cli m in
      let e0 : view m0 ≡ (c ∷ cs, ts) = d.clears m ∙ e in
      let full : has_data (p.inb 0x64 m0).0 ≡ true = d.status m0 ∙ rw e0 refl in
      let m1 : M = (p.inb 0x64 m0).1 in
      let (byte, rest) = scan_code-read c cs ts m1 (d.status_keeps m0 ∙ e0) in
      let m2 : M = (keyboard_read_scan_code p cpu m1).1 in
      let (state, seen) = delivered c cs ts k m2 rest in
      let m3 : M = (deliver p cpu callbacks c k m2).1 in
      rw full (rw byte (state, d.sets (p.outb 0x20 0x20 m3) ∙ d.ends m3 ∙ seen))

  bytes-handled :
      (bytes ts : List ℕ) (k : Keyboard) (m : M)
      → view m ≡ (bytes, ts)
      → ((handle_bytes p cpu callbacks (length bytes) k m).0.keyboard_state
          ≡ state_after k.keyboard_state bytes)
        × (view (handle_bytes p cpu callbacks (length bytes) k m).1
            ≡ ([], ts ++ typed_by k.keyboard_state bytes))
  unfolding handle_bytes
  bytes-handled [] ts k m e = (refl, e ∙ ap (λ (xs : List ℕ). ([], xs)) (sym (append-nil ts)))
  bytes-handled (c ∷ bytes) ts k m e =
      let (state, seen) = handled c bytes ts k m e in
      let (k', m') = keyboard_handler p cpu callbacks k m in
      let ts' : List ℕ = ts ++ typed_by_key c (update_keyboard_state c k.keyboard_state) in
      let (after, all) = bytes-handled bytes ts' k' m' seen in
      (
        after ∙ ap (λ (s : KeyboardState). state_after s bytes) state,
        all
            ∙ ap (λ (s : KeyboardState). ([], ts' ++ typed_by s bytes)) state
            ∙ ap (λ (xs : List ℕ). ([], xs)) (append_assoc ts _ _),
      )

-- With a controller that holds some bytes, and a callback that types the characters it is given, an
-- interrupt for each byte empties the controller: the modifiers end as the keymap alone makes them
-- from the bytes, and what is typed is what the keymap makes of them, in order. Special keys and
-- keys without a character type nothing.
pub keyboard-types :
    {M : Type 0} (p : Ports M) (cpu : Cpu M) (callbacks : Callbacks M) (view : M → View)
    (bytes ts : List ℕ) (k : Keyboard) (m : M)
    → IsController p cpu view
    → IsTyping callbacks view
    → view m ≡ (bytes, ts)
    → ((handle_bytes p cpu callbacks (length bytes) k m).0.keyboard_state
        ≡ state_after k.keyboard_state bytes)
      × (view (handle_bytes p cpu callbacks (length bytes) k m).1
          ≡ ([], ts ++ typed_by k.keyboard_state bytes))
keyboard-types p cpu callbacks view bytes ts k m d t e =
    bytes-handled p cpu callbacks view d t bytes ts k m e
