-- ===== src/Interrupts/Gates.antt =====
-- Which handler each vector leads to after `idt_init` of src/impl/kernel/idt.c.
use nans_os.Base.{
  ℕ, zero, suc, ◌+◌, ◌*◌, ◌^◌, ◌≤◌, ◌<◌, ◌≡◌, refl, sym, ap, ◌∙◌, arith, Bool, true, false, List,
  [], ◌∷◌, get_or, ◌==◌, if◌then◌else◌, passes, passes-at, ==_iff, Bool-cases, inl, inr,
}
use nans_os.Interrupts.{
  Handler, IdtEntry, Idt, entry_for, idt_set_entry, gates, set_defaults, set_gates, idt_init,
}
use nans_os.Interrupts.{
  default_handler, timer_handler, keyboard_handler, page_fault_handler, divide_by_zero, debug, nmi,
  breakpoint, overflow, bound_range, invalid_opcode, device_not_available, double_fault,
  invalid_tss, segment_not_present, stack_segment, general_protection, fpu_fault, alignment_check,
  machine_check, simd_exception, virtualization_exception, timer, keyboard, cascade, com2, com1,
  lpt2, floppy, lpt1, rtc, irq9, irq10, irq11, mouse, coproc, primary_ata, secondary_ata,
}

-- The handlers by vector: exceptions up to 31, the lines of the controllers from 32 on. A vector
-- with none has the default handler.
abbrev pub vectors : List Handler
vectors =
    divide_by_zero ∷ debug ∷ nmi ∷ breakpoint ∷ overflow ∷ bound_range ∷ invalid_opcode
    ∷ device_not_available ∷ double_fault ∷ default_handler ∷ invalid_tss ∷ segment_not_present
    ∷ stack_segment ∷ general_protection ∷ page_fault_handler ∷ default_handler ∷ fpu_fault
    ∷ alignment_check ∷ machine_check ∷ simd_exception ∷ virtualization_exception ∷ default_handler
    ∷ default_handler ∷ default_handler ∷ default_handler ∷ default_handler ∷ default_handler
    ∷ default_handler ∷ default_handler ∷ default_handler ∷ default_handler ∷ default_handler
    ∷ timer ∷ keyboard ∷ cascade ∷ com2 ∷ com1 ∷ lpt2 ∷ floppy ∷ lpt1 ∷ rtc ∷ irq9 ∷ irq10 ∷ irq11
    ∷ mouse ∷ coproc ∷ primary_ata ∷ secondary_ata ∷ []

abbrev pub handler_of : ℕ → Handler
handler_of v = get_or vectors v default_handler

-- The address that a gate leads to.
abbrev pub target : IdtEntry → ℕ
target e = e.isr_low + e.isr_mid * 2 ^ 16 + e.isr_high * 2 ^ 32

-- The last gate of a list for a vector, or `d`.
abbrev pub handler_at : List (ℕ × Handler) → ℕ → Handler → Handler
handler_at [] v d = d
handler_at ((g, h) ∷ rest) v d = handler_at rest v (if v == g then h else d)

all_handlers : List Handler
all_handlers =
    default_handler ∷ timer_handler ∷ keyboard_handler ∷ page_fault_handler ∷ divide_by_zero ∷ debug
    ∷ nmi ∷ breakpoint ∷ overflow ∷ bound_range ∷ invalid_opcode ∷ device_not_available
    ∷ double_fault ∷ invalid_tss ∷ segment_not_present ∷ stack_segment ∷ general_protection
    ∷ fpu_fault ∷ alignment_check ∷ machine_check ∷ simd_exception ∷ virtualization_exception
    ∷ timer ∷ keyboard ∷ cascade ∷ com2 ∷ com1 ∷ lpt2 ∷ floppy ∷ lpt1 ∷ rtc ∷ irq9 ∷ irq10 ∷ irq11
    ∷ mouse ∷ coproc ∷ primary_ata ∷ secondary_ata ∷ []

number : Handler → ℕ
number default_handler = 0
number timer_handler = 1
number keyboard_handler = 2
number page_fault_handler = 3
number divide_by_zero = 4
number debug = 5
number nmi = 6
number breakpoint = 7
number overflow = 8
number bound_range = 9
number invalid_opcode = 10
number device_not_available = 11
number double_fault = 12
number invalid_tss = 13
number segment_not_present = 14
number stack_segment = 15
number general_protection = 16
number fpu_fault = 17
number alignment_check = 18
number machine_check = 19
number simd_exception = 20
number virtualization_exception = 21
number timer = 22
number keyboard = 23
number cascade = 24
number com2 = 25
number com1 = 26
number lpt2 = 27
number floppy = 28
number lpt1 = 29
number rtc = 30
number irq9 = 31
number irq10 = 32
number irq11 = 33
number mouse = 34
number coproc = 35
number primary_ata = 36
number secondary_ata = 37

handler_number : (h : Handler) → get_or all_handlers (number h) default_handler ≡ h
unfolding all_handlers number
handler_number default_handler = refl
handler_number timer_handler = refl
handler_number keyboard_handler = refl
handler_number page_fault_handler = refl
handler_number divide_by_zero = refl
handler_number debug = refl
handler_number nmi = refl
handler_number breakpoint = refl
handler_number overflow = refl
handler_number bound_range = refl
handler_number invalid_opcode = refl
handler_number device_not_available = refl
handler_number double_fault = refl
handler_number invalid_tss = refl
handler_number segment_not_present = refl
handler_number stack_segment = refl
handler_number general_protection = refl
handler_number fpu_fault = refl
handler_number alignment_check = refl
handler_number machine_check = refl
handler_number simd_exception = refl
handler_number virtualization_exception = refl
handler_number timer = refl
handler_number keyboard = refl
handler_number cascade = refl
handler_number com2 = refl
handler_number com1 = refl
handler_number lpt2 = refl
handler_number floppy = refl
handler_number lpt1 = refl
handler_number rtc = refl
handler_number irq9 = refl
handler_number irq10 = refl
handler_number irq11 = refl
handler_number mouse = refl
handler_number coproc = refl
handler_number primary_ata = refl
handler_number secondary_ata = refl

number-injective : (h h' : Handler) → number h ≡ number h' → h ≡ h'
number-injective h h' e =
    sym (handler_number h)
    ∙ ap (λ (n : ℕ). get_or all_handlers n default_handler) e
    ∙ handler_number h'

vector_test : ℕ → Bool
vector_test v = number (handler_at gates v default_handler) == number (handler_of v)

vector_table : passes 256 vector_test ≡ true
unfolding passes vector_test number gates
vector_table = refl

handler_at-gates : (v : ℕ) → v < 256 → handler_at gates v default_handler ≡ handler_of v
unfolding vector_test
handler_at-gates v h = number-injective (handler_at gates v default_handler) (handler_of v) (
    (==_iff (number (handler_at gates v default_handler)) (number (handler_of v))).0
      (passes-at 256 vector_test v vector_table h))

module _ (address : Handler → ℕ) where
  set_gates-entry :
      (gs : List (ℕ × Handler)) (idt : Idt) (v : ℕ) (d : Handler)
      → idt v ≡ entry_for (address d) 0x8E
      → set_gates address gs idt v ≡ entry_for (address (handler_at gs v d)) 0x8E
  unfolding set_gates idt_set_entry
  set_gates-entry [] idt v d e = e
  set_gates-entry ((g, h) ∷ rest) idt v d e =
      set_gates-entry rest (idt_set_entry g (address h) 0x8E idt) v (if v == g then h else d)
        (placed (v == g))
    where
      placed :
          (b : Bool)
          → (if b then entry_for (address h) 0x8E else idt v)
            ≡ entry_for (address (if b then h else d)) 0x8E
      placed true = refl
      placed false = e

  set_defaults-kept : (k i : ℕ) (idt : Idt) (v : ℕ) → v < i → set_defaults address k i idt v ≡ idt v
  unfolding set_defaults idt_set_entry
  set_defaults-kept zero i idt v h = refl
  set_defaults-kept (suc k) i idt v h =
      set_defaults-kept k (i + 1) (idt_set_entry i (address default_handler) 0x8E idt) v
        (omega arith)
      ∙ rw ne refl
    where
      ne : (v == i) ≡ false
      ne = ground arith

  set_defaults-entry :
      (k i : ℕ) (idt : Idt) (v : ℕ)
      → i ≤ v
      → v < i + k
      → set_defaults address k i idt v ≡ entry_for (address default_handler) 0x8E
  unfolding set_defaults idt_set_entry
  set_defaults-entry zero i idt v h h' = absurd (omega arith)
  set_defaults-entry (suc k) i idt v h h' =
      let idt' : Idt = idt_set_entry i (address default_handler) 0x8E idt in
      elim (Bool-cases (v == i)) [
        | inl e ↦ set_defaults-kept k (i + 1) idt' v (ground arith) ∙ rw e refl
        | inr ne ↦ set_defaults-entry k (i + 1) idt' v (ground arith) (omega arith)
      ]

-- After `idt_init`, with handlers at addresses of 64 bits, the gate of each of the 256 vectors is an
-- interrupt gate (0x8E) of the kernel's code segment, and the address that its three parts make up
-- is that of the vector's handler, whatever the table held before.
pub idt_init-dispatches :
    (address : Handler → ℕ) (idt : Idt) (v : ℕ)
    → ((h : Handler) → address h < 2 ^ 64)
    → v < 256
    → (target (idt_init address idt v) ≡ address (handler_of v))
      × ((idt_init address idt v).attributes ≡ 0x8E)
      × ((idt_init address idt v).kernel_cs ≡ 0x08)
unfolding idt_init
idt_init-dispatches address idt v bound h =
    let e =
      set_gates-entry address gates (set_defaults address 256 0 idt) v default_handler
        (set_defaults-entry address 256 0 idt v (omega arith) (omega arith))
      ∙ ap (λ (d : Handler). entry_for (address d) 0x8E) (handler_at-gates v h) in
    let b = bound (handler_of v) in rw e (omega (arith, b), refl, refl)
