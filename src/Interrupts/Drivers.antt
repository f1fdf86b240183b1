-- ===== src/Interrupts/Drivers.antt =====
-- What the drivers of the timer, the keyboard and the mouse acknowledge, when the handlers of
-- src/impl/kernel/isr.c call them: pit.c, keyboard.c and mouse.c under src/impl/drivers.
use nans_os.Base.{
  ℕ, zero, suc, ◌<◌, ◌≡◌, refl, sym, ap, ◌∙◌, arith, Bool, true, false, not, ◌&&◌, ◌||◌, Option,
  some, List, [], ◌∷◌, ◌++◌, append_assoc, append-nil, ltb, leb, ◌==◌, if◌then◌else◌, Bool-cases,
  inl, inr, bit_and, ◌+◌, ◌%◌, ◌^◌,
}
use mathlib.Core.Path.{subst}
use nans_os.Pic.{port_byte_in, port_byte_out, pic_send_eoi}
use nans_os.Serial.{serial_write_string, com1_port}
use nans_os.Serial.Sent.{IsUart, IsApart, string-sent}
use nans_os.Timer.{pit_handler, call_back}
use nans_os.Keyboard.{
  Keyboard, call, has_data, wait_while, keyboard_read_scan_code, deliver, keyboard_handler,
}
use nans_os.Keymap.{
  SpecialKeyEvent, update_keyboard_state, is_special_key, handle_special_key, scancode_to_ascii,
}
use nans_os.Mouse.{MouseState, Mouse, call_mouse_callback, receive, mouse_handler}
use nans_os.Interrupts.{
  Action, message, print_text, formatted, print_hex, eoi, call_pit, call_keyboard, call_mouse, stop,
}
use nans_os.Interrupts.System.{System, Context, perform, perform_all}

-- The ports of the controllers that get the command 0x20 for a line: the second one, for its own
-- lines, and the first.
abbrev pub eoi_ports : ℕ → List ℕ
eoi_ports line = if ltb line 8 then 0x20 ∷ [] else 0xA0 ∷ 0x20 ∷ []

-- What is relied on: `acks` is the log of the ports of the controllers that got the command 0x20,
-- which no read, no `cli` or `sti`, no message and no callback adds to.
pub record IsLogged {M : Type 0} (x : Context M) (acks : M → List ℕ) : Type 0 where
  pub written :
      (port v : ℕ) (m : M)
      → acks (x.ports.outb port v m)
        ≡ acks m ++ (if v == 0x20 && (port == 0x20 || port == 0xA0) then port ∷ [] else [])
  pub read : (port : ℕ) (m : M) → acks (x.ports.inb port m).1 ≡ acks m
  pub cli : (m : M) → acks (x.cpu.cli m) ≡ acks m
  pub sti : (m : M) → acks (x.cpu.sti m) ≡ acks m
  pub message : (a : Action) (m : M) → acks (x.output a m) ≡ acks m
  pub on_scancode : (c : ℕ) (m : M) → acks (call x.callbacks.scancode_callback c m) ≡ acks m
  pub on_char : (c : ℕ) (m : M) → acks (call x.callbacks.char_callback c m) ≡ acks m
  pub on_special :
      (e : SpecialKeyEvent) (m : M) → acks (call x.callbacks.special_callback e m) ≡ acks m
  pub on_mouse : (s : MouseState) (m : M) → acks (call_mouse_callback x.mouse_callback s m) ≡ acks m

-- The same of the callback of the timer.
abbrev pub Ticks : {M : Type 0} → (M → List ℕ) → System M → Type 0
Ticks {M} acks s = (m : M) → acks (call_back s.timer.callback m) ≡ acks m

-- What the drivers acknowledge when they are called.
abbrev pub ports_of : Action → List ℕ
ports_of (eoi n) = eoi_ports n
ports_of call_pit = eoi_ports 0
ports_of call_keyboard = eoi_ports 1
ports_of call_mouse = eoi_ports 12
ports_of (message s) = []
ports_of (print_text s) = []
ports_of (formatted s n) = []
ports_of (print_hex n) = []
ports_of stop = []

abbrev pub all_ports : List Action → List ℕ
all_ports [] = []
all_ports (a ∷ acts) = ports_of a ++ all_ports acts

module _ {M : Type 0} (x : Context M) (acks : M → List ℕ) (sent : M → List ℕ) (busy : M → ℕ)
    (limit : ℕ) (d : IsLogged x acks) (u : IsUart x.ports sent busy limit)
    (h : limit < x.fuel) where
  eoi-acks : (irq : ℕ) (m : M) → acks (pic_send_eoi x.ports irq m) ≡ acks m ++ eoi_ports irq
  unfolding pic_send_eoi port_byte_out
  eoi-acks irq m = elim (Bool-cases (leb 8 irq)) [
    | inl e ↦
        let low : ltb irq 8 ≡ false = ground arith in
        rw (e, low)
          (d.written 0x20 0x20 (x.ports.outb 0xA0 0x20 m)
            ∙ ap (λ (l : List ℕ). l ++ (0x20 ∷ [])) (d.written 0xA0 0x20 m)
            ∙ append_assoc (acks m) (0xA0 ∷ []) (0x20 ∷ []))
    | inr e ↦ let low : ltb irq 8 ≡ true = ground arith in rw (e, low) (d.written 0x20 0x20 m)
  ]

  -- What an action comes to.
  abbrev pub Acked : System M → List ℕ → Option (System M) → Type 0
  Acked s ports run =
      (s' : System M) × (run ≡ some s')
      × (acks s'.machine ≡ acks s.machine ++ ports)
      × (s'.timer.callback ≡ s.timer.callback)

  apart : IsApart x.ports acks
  apart = record { poll = λ m. d.read 0x3FD m; byte = λ c m. d.written 0x3F8 c m ∙ nothing c m }
    where
      nothing :
          (c : ℕ) (m : M)
          → acks m ++ (if c == 0x20 && (0x3F8 == 0x20 || 0x3F8 == 0xA0) then 0x3F8 ∷ [] else [])
            ≡ acks m
      nothing c m = elim (Bool-cases (c == 0x20)) [
        | inl e ↦ rw e (append-nil (acks m))
        | inr e ↦ rw e (append-nil (acks m))
      ]

  beat-kept :
      (due : Bool) (m : M)
      → (m' : M) × ((if due
            then serial_write_string x.ports x.fuel com1_port (b'.' ∷ []) m
            else some m)
          ≡ some m')
        × (acks m' ≡ acks m)
  beat-kept true m =
      let (m', run, out, kept) =
        string-sent x.ports sent busy limit u acks apart x.fuel (b'.' ∷ []) m h in
      (m', run, kept)
  beat-kept false m = (m, refl, refl)

  pit-Acked : (s : System M) → Ticks acks s → Acked s (eoi_ports 0) (perform x call_pit s)
  unfolding perform pit_handler
  pit-Acked s q =
      let count : ℕ = (s.timer.tick_count + 1) % 2 ^ 64 in
      let (m1, run, kept) = beat-kept (count % 100 == 0) s.machine in
      let m2 : M = call_back s.timer.callback m1 in
      (
        record s {
          timer = record (s.timer) { tick_count = count };
          machine = pic_send_eoi x.ports 0 m2;
        },
        rw (perform, pit_handler, run) refl,
        eoi-acks 0 m2 ∙ ap (λ (l : List ℕ). l ++ eoi_ports 0) (q m1 ∙ kept),
        refl,
      )

  wait-acks :
      (test : ℕ → Bool) (k : ℕ) (m : M) → acks (wait_while x.ports x.cpu test k m).1 ≡ acks m
  unfolding wait_while port_byte_in
  wait-acks test zero m = d.read 0x64 m
  wait-acks test (suc k) m = elim (Bool-cases (test (x.ports.inb 0x64 m).0)) [
    | inl e ↦ rw e (wait-acks test k (x.ports.inb 0x64 m).1 ∙ d.read 0x64 m)
    | inr e ↦ rw e (d.read 0x64 m)
  ]

  scan-acks : (m : M) → acks (keyboard_read_scan_code x.ports x.cpu m).1 ≡ acks m
  unfolding keyboard_read_scan_code port_byte_in
  scan-acks m =
      let wait = wait_while x.ports x.cpu (λ s. not (has_data s)) 10000 m in
      let kept = wait-acks (λ s. not (has_data s)) 10000 m in
      elim (Bool-cases (wait.0 == 0)) [
        | inl e ↦ rw e kept
        | inr e ↦ rw e (d.read 0x60 wait.1 ∙ kept)
      ]

  deliver-acks :
      (scancode : ℕ) (k : Keyboard) (m : M)
      → acks (deliver x.ports x.cpu x.callbacks scancode k m).1 ≡ acks m
  unfolding deliver
  deliver-acks scancode k m =
      let state = update_keyboard_state scancode k.keyboard_state in
      let m1 : M = call x.callbacks.scancode_callback scancode m in
      elim (Bool-cases (is_special_key scancode)) [
        | inl e ↦
            rw e (d.on_special (handle_special_key scancode state) m1 ∙ d.on_scancode scancode m)
        | inr e ↦ rw e (elim (Bool-cases (scancode_to_ascii scancode state == 0)) [
          | inl z ↦ rw z (d.on_scancode scancode m)
          | inr z ↦
              rw z (d.on_char (scancode_to_ascii scancode state) m1 ∙ d.on_scancode scancode m)
        ])
      ]

  -- The acknowledgement at the end of a handler.
  ended :
      (irq : ℕ) (m m' : M)
      → acks m' ≡ acks m
      → acks (pic_send_eoi x.ports irq m') ≡ acks m ++ eoi_ports irq
  ended irq m m' e = eoi-acks irq m' ∙ ap (λ (l : List ℕ). l ++ eoi_ports irq) e

  keyboard-acks :
      (k : Keyboard) (m : M)
      → acks (keyboard_handler x.ports x.cpu x.callbacks k m).1 ≡ acks m ++ eoi_ports 1
  unfolding keyboard_handler port_byte_in
  keyboard-acks k m =
      let m0 : M = x.cpu.cli m in
      let m1 : M = (x.ports.inb 0x64 m0).1 in
      let scan = keyboard_read_scan_code x.ports x.cpu m1 in
      let m3 : M = (deliver x.ports x.cpu x.callbacks scan.0 k scan.1).1 in
      let e1 : acks m1 ≡ acks m = d.read 0x64 m0 ∙ d.cli m in
      let e3 : acks m3 ≡ acks m = deliver-acks scan.0 k scan.1 ∙ scan-acks m1 ∙ e1 in
      elim (Bool-cases (has_data (x.ports.inb 0x64 m0).0)) [
        | inl e ↦ rw e (d.sti (pic_send_eoi x.ports 1 m3) ∙ ended 1 m m3 e3)
        | inr e ↦ rw e (d.sti (pic_send_eoi x.ports 1 m1) ∙ ended 1 m m1 e1)
      ]

  mouse-acks :
      (k : Mouse) (m : M)
      → acks (mouse_handler x.ports x.mouse_callback k m).1 ≡ acks m ++ eoi_ports 12
  unfolding mouse_handler port_byte_in
  mouse-acks k m =
      let m1 : M = (x.ports.inb 0x64 m).1 in
      let m2 : M = (x.ports.inb 0x60 m1).1 in
      let status : ℕ = (x.ports.inb 0x64 m).0 in
      let step = receive (x.ports.inb 0x60 m1).0 k in
      let m3 : M = call_mouse_callback x.mouse_callback (step.0).state m2 in
      let e1 : acks m1 ≡ acks m = d.read 0x64 m in
      let e2 : acks m2 ≡ acks m = d.read 0x60 m1 ∙ e1 in
      let e3 : acks m3 ≡ acks m = d.on_mouse (step.0).state m2 ∙ e2 in
      elim (Bool-cases (bit_and status 0x20 == 0)) [
        | inl e ↦ rw e (ended 12 m m1 e1)
        | inr e ↦ rw e (elim (Bool-cases step.1) [
          | inl c ↦ rw c (ended 12 m m3 e3)
          | inr c ↦ rw c (ended 12 m m2 e2)
        ])
      ]

  written_out :
      (a : Action) (s : System M) → Acked s [] (some (record s { machine = x.output a s.machine }))
  written_out a s = (
    record s { machine = x.output a s.machine },
    refl,
    d.message a s.machine ∙ sym (append-nil (acks s.machine)),
    refl,
  )

  performed : (a : Action) (s : System M) → Ticks acks s → Acked s (ports_of a) (perform x a s)
  unfolding perform
  performed (eoi irq) s q = (
    record s { machine = pic_send_eoi x.ports irq s.machine },
    refl,
    eoi-acks irq s.machine,
    refl,
  )
  performed call_pit s q = pit-Acked s q
  performed call_keyboard s q =
      let run = keyboard_handler x.ports x.cpu x.callbacks s.keyboard s.machine in
      (
        record s { keyboard = run.0; machine = run.1 },
        refl,
        keyboard-acks s.keyboard s.machine,
        refl,
      )
  performed call_mouse s q =
      let run = mouse_handler x.ports x.mouse_callback s.mouse s.machine in
      (record s { mouse = run.0; machine = run.1 }, refl, mouse-acks s.mouse s.machine, refl)
  performed stop s q = (s, refl, sym (append-nil (acks s.machine)), refl)
  performed (message text) s q = written_out (message text) s
  performed (print_text text) s q = written_out (print_text text) s
  performed (formatted text n) s q = written_out (formatted text n) s
  performed (print_hex n) s q = written_out (print_hex n) s

  pub all-performed :
      (acts : List Action) (s : System M)
      → Ticks acks s
      → Acked s (all_ports acts) (perform_all x acts s)
  unfolding perform_all
  all-performed [] s q = (s, refl, sym (append-nil (acks s.machine)), refl)
  all-performed (a ∷ acts) s q =
      let (s1, run1, log1, same1) = performed a s q in
      let q1 : Ticks acks s1 = λ m. subst (λ c. acks (call_back c m) ≡ acks m) (sym same1) (q m) in
      let (s2, run2, log2, same2) = all-performed acts s1 q1 in
      (
        s2,
        rw (perform_all, run1) run2,
        log2
            ∙ ap (λ (l : List ℕ). l ++ all_ports acts) log1
            ∙ append_assoc (acks s.machine) (ports_of a) (all_ports acts),
        same2 ∙ same1,
      )
