-- ===== src/Interrupts/System.antt =====
-- The handlers of src/impl/kernel/isr.c carried out, with the drivers that they call: the timer, the
-- keyboard, the mouse and the interrupt controllers.
use nans_os.Base.{ℕ, Option, none, some, List, [], ◌∷◌}
use nans_os.Pic.{Ports, pic_send_eoi}
use nans_os.Timer.{Timer, pit_handler}
use nans_os.Keyboard.{Cpu, Callbacks, Keyboard, keyboard_handler}
use nans_os.Mouse.{MouseState, Mouse, mouse_handler}
use nans_os.Interrupts.{
  InterruptFrame, Action, gates, isr, message, print_text, formatted, print_hex, eoi, call_pit,
  call_keyboard, call_mouse, stop, default_handler,
}
use nans_os.Interrupts.Gates.{handler_at}

-- The state of the drivers, and the devices with the rest of the system.
pub record System (M : Type 0) : Type 0 where
  pub timer : Timer M
  pub keyboard : Keyboard
  pub mouse : Mouse
  pub machine : M

-- What the handlers work with: the instructions, the registered callbacks of the keyboard and the
-- mouse, the fuel of the waits for the serial port, and the output of the messages, which is left
-- open.
pub record Context (M : Type 0) : Type 0 where
  pub ports : Ports M
  pub cpu : Cpu M
  pub callbacks : Callbacks M
  pub mouse_callback : Option (MouseState → M → M)
  pub fuel : ℕ
  pub output : Action → M → M

module _ {M : Type 0} (x : Context M) where
  abbrev after_pit : System M → Option (Timer M × M) → Option (System M)
  after_pit s none = none
  after_pit s (some (t, m)) = some (record s { timer = t; machine = m })

  -- One action. A halt is the last action of a handler, and leaves the state as it is.
  unfoldable pub perform : Action → System M → Option (System M)
  perform (eoi irq) s = some (record s { machine = pic_send_eoi x.ports irq s.machine })
  perform call_pit s = after_pit s (pit_handler x.ports x.fuel s.timer s.machine)
  perform call_keyboard s =
      let (k, m) = keyboard_handler x.ports x.cpu x.callbacks s.keyboard s.machine in
      some (record s { keyboard = k; machine = m })
  perform call_mouse s =
      let (k, m) = mouse_handler x.ports x.mouse_callback s.mouse s.machine in
      some (record s { mouse = k; machine = m })
  perform stop s = some s
  perform (message text) s = some (record s { machine = x.output (message text) s.machine })
  perform (print_text text) s = some (record s { machine = x.output (print_text text) s.machine })
  perform (formatted text n) s = some (record s { machine = x.output (formatted text n) s.machine })
  perform (print_hex n) s = some (record s { machine = x.output (print_hex n) s.machine })

  unfoldable pub perform_all : List Action → System M → Option (System M)
  perform_all [] s = some s
  perform_all (a ∷ acts) s = elim (perform a s) [ none ↦ none | some s' ↦ perform_all acts s' ]

  -- An interrupt: the handler whose gate `idt_init` sets last for the vector.
  unfoldable pub interrupt : ℕ → InterruptFrame → ℕ → System M → Option (System M)
  interrupt v frame cr2 s = perform_all (isr (handler_at gates v default_handler) frame cr2) s
