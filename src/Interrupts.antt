-- ===== src/Interrupts.antt =====
-- The interrupt table and the interrupt handlers of src/impl/kernel/idt.c, idt.h and isr.c.
pub mod Gates
pub mod System
pub mod Drivers
pub mod Acknowledged
mod Tests
use Prim.Native.String.{String}
use nans_os.Base.{
  ℕ, zero, suc, ◌+◌, ◌*◌, ◌/◌, ◌%◌, ◌^◌, Bool, true, false, List, [], ◌∷◌, ◌++◌, ◌==◌,
  if◌then◌else◌,
}

-- `struct IDTEntry`, and the fields of `struct InterruptFrame`.
pub record IdtEntry : Type 0 where
  pub isr_low : ℕ
  pub kernel_cs : ℕ
  pub ist : ℕ
  pub attributes : ℕ
  pub isr_mid : ℕ
  pub isr_high : ℕ
  pub reserved : ℕ

pub record InterruptFrame : Type 0 where
  pub error_code : ℕ
  pub rip : ℕ
  pub cs : ℕ
  pub rflags : ℕ
  pub rsp : ℕ
  pub ss : ℕ

-- The functions of isr.c, `isr_` left off.
pub data Handler : Type 0 where
  default_handler timer_handler keyboard_handler page_fault_handler divide_by_zero : Handler
  debug nmi breakpoint overflow bound_range invalid_opcode device_not_available : Handler
  double_fault invalid_tss segment_not_present stack_segment general_protection : Handler
  fpu_fault alignment_check machine_check simd_exception virtualization_exception : Handler
  timer keyboard cascade com2 com1 lpt2 floppy lpt1 rtc irq9 irq10 irq11 mouse coproc : Handler
  primary_ata secondary_ata : Handler

-- What a handler does: a message to the serial port, one that `sprintf` makes, output on the
-- console, the end of an interrupt (`pic_send_eoi`), a call of a driver, or `asm_cli` and the halt
-- for ever.
pub data Action : Type 0 where
  message print_text : String → Action
  formatted : String → ℕ → Action
  print_hex eoi : ℕ → Action
  call_pit call_keyboard call_mouse stop : Action

abbrev pub details : InterruptFrame → List Action
details frame =
    formatted "Error code: 0x%llx\n" frame.error_code
    ∷ formatted "RIP: 0x%llx\n" frame.rip
    ∷ formatted "CS: 0x%llx\n" frame.cs
    ∷ formatted "RFLAGS: 0x%llx\n" frame.rflags
    ∷ formatted "RSP: 0x%llx\n" frame.rsp
    ∷ formatted "SS: 0x%llx\n" frame.ss
    ∷ []

-- `cr2` is what `asm_read_cr2` reads.
unfoldable pub isr : Handler → InterruptFrame → ℕ → List Action
isr default_handler frame cr2 = message "Unhandled interrupt\n" ∷ eoi 0 ∷ eoi 8 ∷ []
isr timer_handler frame cr2 = call_pit ∷ []
isr keyboard_handler frame cr2 = call_keyboard ∷ []
isr page_fault_handler frame cr2 =
    print_text "Page Fault! Address: "
    ∷ print_hex cr2
    ∷ print_text "\n"
    ∷ formatted "Page Fault at address 0x%llx! System halted.\n" cr2
    ∷ stop
    ∷ []
isr divide_by_zero frame cr2 = message "Divide by zero exception\n" ∷ stop ∷ []
isr debug frame cr2 = message "Debug exception\n" ∷ eoi 0 ∷ []
isr nmi frame cr2 = message "NMI interrupt\n" ∷ eoi 0 ∷ []
isr breakpoint frame cr2 = message "Breakpoint exception\n" ∷ eoi 0 ∷ []
isr overflow frame cr2 = message "Overflow exception\n" ∷ eoi 0 ∷ []
isr bound_range frame cr2 = message "Bound range exceeded\n" ∷ eoi 0 ∷ []
isr invalid_opcode frame cr2 = message "Invalid opcode\n" ∷ stop ∷ []
isr device_not_available frame cr2 = message "Device not available\n" ∷ eoi 0 ∷ []
isr double_fault frame cr2 = message "Double fault\n" ∷ stop ∷ []
isr invalid_tss frame cr2 = message "Invalid TSS\n" ∷ eoi 0 ∷ []
isr segment_not_present frame cr2 = message "Segment not present\n" ∷ eoi 0 ∷ []
isr stack_segment frame cr2 = message "Stack segment fault\n" ∷ eoi 0 ∷ []
isr general_protection frame cr2 =
    message "General protection fault\n" ∷ (if frame.error_code == 0 then [] else details frame)
    ++ stop ∷ []
isr fpu_fault frame cr2 = message "FPU fault\n" ∷ eoi 0 ∷ []
isr alignment_check frame cr2 = message "Alignment check fault\n" ∷ eoi 0 ∷ []
isr machine_check frame cr2 = message "Machine check fault\n" ∷ stop ∷ []
isr simd_exception frame cr2 = message "SIMD exception\n" ∷ eoi 0 ∷ []
isr virtualization_exception frame cr2 = message "Virtualization exception\n" ∷ eoi 0 ∷ []
isr timer frame cr2 = call_pit ∷ []
isr keyboard frame cr2 = call_keyboard ∷ []
isr cascade frame cr2 = eoi 2 ∷ []
isr com2 frame cr2 = message "COM2 interrupt\n" ∷ eoi 3 ∷ []
isr com1 frame cr2 = message "COM1 interrupt\n" ∷ eoi 4 ∷ []
isr lpt2 frame cr2 = message "LPT2 interrupt\n" ∷ eoi 5 ∷ []
isr floppy frame cr2 = message "Floppy interrupt\n" ∷ eoi 6 ∷ []
isr lpt1 frame cr2 = message "LPT1 interrupt\n" ∷ eoi 7 ∷ []
isr rtc frame cr2 = message "RTC interrupt\n" ∷ eoi 8 ∷ []
isr irq9 frame cr2 = message "IRQ9 interrupt\n" ∷ eoi 9 ∷ []
isr irq10 frame cr2 = message "IRQ10 interrupt\n" ∷ eoi 10 ∷ []
isr irq11 frame cr2 = message "IRQ11 interrupt\n" ∷ eoi 11 ∷ []
isr mouse frame cr2 = call_mouse ∷ message "[ISR] Mouse interrupt handled\n" ∷ []
isr coproc frame cr2 = message "Coprocessor interrupt\n" ∷ eoi 13 ∷ []
isr primary_ata frame cr2 = message "Primary ATA interrupt\n" ∷ eoi 14 ∷ []
isr secondary_ata frame cr2 = message "Secondary ATA interrupt\n" ∷ eoi 15 ∷ []

-- The table, by vector.
abbrev pub Idt : Type 0
Idt = ℕ → IdtEntry

abbrev pub entry_for : ℕ → ℕ → IdtEntry
entry_for address flags = record {
  isr_low = address % 2 ^ 16;
  kernel_cs = 0x08;
  ist = 0;
  attributes = flags;
  isr_mid = address / 2 ^ 16 % 2 ^ 16;
  isr_high = address / 2 ^ 32 % 2 ^ 32;
  reserved = 0;
}

unfoldable pub idt_set_entry : ℕ → ℕ → ℕ → Idt → Idt
idt_set_entry vector address flags idt v = if v == vector then entry_for address flags else idt v

-- The calls of `idt_set_entry` in `idt_init` behind the loop, in their order.
unfoldable pub gates : List (ℕ × Handler)
gates =
    (0, divide_by_zero)
    ∷ (1, debug)
    ∷ (2, nmi)
    ∷ (3, breakpoint)
    ∷ (4, overflow)
    ∷ (5, bound_range)
    ∷ (6, invalid_opcode)
    ∷ (7, device_not_available)
    ∷ (8, double_fault)
    ∷ (10, invalid_tss)
    ∷ (11, segment_not_present)
    ∷ (12, stack_segment)
    ∷ (13, general_protection)
    ∷ (14, page_fault_handler)
    ∷ (16, fpu_fault)
    ∷ (17, alignment_check)
    ∷ (18, machine_check)
    ∷ (19, simd_exception)
    ∷ (20, virtualization_exception)
    ∷ (32, timer)
    ∷ (33, keyboard)
    ∷ (34, cascade)
    ∷ (35, com2)
    ∷ (36, com1)
    ∷ (37, lpt2)
    ∷ (38, floppy)
    ∷ (39, lpt1)
    ∷ (40, rtc)
    ∷ (41, irq9)
    ∷ (42, irq10)
    ∷ (43, irq11)
    ∷ (44, mouse)
    ∷ (45, coproc)
    ∷ (46, primary_ata)
    ∷ (47, secondary_ata)
    ∷ []

-- `address` gives the address of a handler. The loop of `idt_init`, with `k` rounds left.
unfoldable pub set_defaults : (Handler → ℕ) → ℕ → ℕ → Idt → Idt
set_defaults address zero i idt = idt
set_defaults address (suc k) i idt =
    set_defaults address k (i + 1) (idt_set_entry i (address default_handler) 0x8E idt)

unfoldable pub set_gates : (Handler → ℕ) → List (ℕ × Handler) → Idt → Idt
set_gates address [] idt = idt
set_gates address ((vector, handler) ∷ rest) idt =
    set_gates address rest (idt_set_entry vector (address handler) 0x8E idt)

unfoldable pub idt_init : (Handler → ℕ) → Idt → Idt
idt_init address idt = set_gates address gates (set_defaults address 256 0 idt)
