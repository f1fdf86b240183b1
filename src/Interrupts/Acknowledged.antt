-- ===== src/Interrupts/Acknowledged.antt =====
-- Which interrupts the handlers of src/impl/kernel/isr.c acknowledge, with the drivers they call.
use nans_os.Base.{
  ℕ, ◌-◌, ◌<◌, ◌≡◌, refl, ap, ◌∙◌, arith, Bool, true, false, not, ◌&&◌, ◌||◌, some, List, [], ◌∷◌,
  ◌++◌, ltb, leb, ◌==◌, if◌then◌else◌, passes, passes-at, Bool-cases, inl, inr,
}
use nans_os.Serial.Sent.{IsUart}
use nans_os.Interrupts.{InterruptFrame, Action, gates, isr, eoi, stop, default_handler}
use nans_os.Interrupts.Gates.{handler_at}
use nans_os.Interrupts.Drivers.{eoi_ports, IsLogged, Ticks, all_ports, all-performed}
use nans_os.Interrupts.System.{System, Context, interrupt}

abbrev pub all_eoi_ports : List ℕ → List ℕ
all_eoi_ports [] = []
all_eoi_ports (line ∷ lines) = eoi_ports line ++ all_eoi_ports lines

-- The lines that a handler of isr.c names itself.
abbrev pub named : List Action → List ℕ
named [] = []
named (eoi n ∷ acts) = n ∷ named acts
named (a ∷ acts) = named acts

-- Whether the processor is halted at the end.
abbrev pub halts : List Action → Bool
halts [] = false
halts (stop ∷ []) = true
halts (a ∷ acts) = halts acts

-- The exceptions that stop the system: division, invalid opcode, double fault, protection, page
-- fault and machine check.
abbrev pub is_fatal : ℕ → Bool
is_fatal v = v == 0 || v == 6 || v == 8 || v == 13 || v == 14 || v == 18

-- The vectors below 32 that have no handler of their own.
abbrev pub is_unused : ℕ → Bool
is_unused v = v == 9 || v == 15 || (leb 21 v && ltb v 32)

same_list : List ℕ → List ℕ → Bool
same_list [] [] = true
same_list (a ∷ acts) (b ∷ bs) = a == b && same_list acts bs
same_list [] (b ∷ bs) = false
same_list (a ∷ acts) [] = false

same_list-eq : (acts bs : List ℕ) → same_list acts bs ≡ true → acts ≡ bs
unfolding same_list
same_list-eq [] [] h = refl
same_list-eq (a ∷ acts) (b ∷ bs) h = ground (arith, same_list-eq acts bs)
same_list-eq [] (b ∷ bs) h = absurd (ground arith)
same_list-eq (a ∷ acts) [] h = absurd (ground arith)

-- What a vector is to do: to halt without an acknowledgement, or to go on after acknowledging.
abbrev pub expected : ℕ → List ℕ
expected v =
    if leb 32 v
    then (v - 32) ∷ []
    else if is_fatal v
    then []
    else if is_unused v
    then 0 ∷ 8 ∷ []
    else 0 ∷ []

-- The vectors whose line the driver of the timer, the keyboard or the mouse acknowledges.
abbrev pub is_driven : ℕ → Bool
is_driven v = v == 32 || v == 33 || v == 44

outcome_test : InterruptFrame → ℕ → ℕ → Bool
outcome_test frame cr2 v =
    let acts = isr (handler_at gates v default_handler) frame cr2 in
    v == 13
    || (same_list (all_ports acts) (all_eoi_ports (expected v))
        && same_list (named acts) (if is_driven v then [] else expected v)
        && (if halts acts then is_fatal v else not (is_fatal v)))

outcome_table : (frame : InterruptFrame) (cr2 : ℕ) → passes 48 (outcome_test frame cr2) ≡ true
unfolding passes outcome_test same_list isr gates
outcome_table frame cr2 = refl

-- The details of a protection fault acknowledge nothing.
protection :
    (frame : InterruptFrame) (cr2 : ℕ)
    → let acts = isr (handler_at gates 13 default_handler) frame cr2 in
      (all_ports acts ≡ []) × (named acts ≡ []) × (halts acts ≡ true)
unfolding isr gates
protection frame cr2 = elim (Bool-cases (frame.error_code == 0)) [
  | inl e ↦ rw e (refl, refl, refl)
  | inr e ↦ rw e (refl, refl, refl)
]

outcome :
    (frame : InterruptFrame) (cr2 v : ℕ)
    → v < 48
    → let acts = isr (handler_at gates v default_handler) frame cr2 in
      (all_ports acts ≡ all_eoi_ports (expected v))
      × (named acts ≡ (if is_driven v then [] else expected v))
      × (halts acts ≡ is_fatal v)
unfolding outcome_test
outcome frame cr2 v h = elim (Bool-cases (v == 13)) [
  | inl e ↦ let q : v ≡ 13 = ground arith in let (a, b, c) = protection frame cr2 in rw q (a, b, c)
  | inr e ↦
      let at = passes-at 48 (outcome_test frame cr2) v (outcome_table frame cr2) h in
      let acts = isr (handler_at gates v default_handler) frame cr2 in
      let named_lines : List ℕ = if is_driven v then [] else expected v in
      (
        same_list-eq (all_ports acts) (all_eoi_ports (expected v)) (ground arith),
        same_list-eq (named acts) named_lines (ground arith),
        ground arith,
      )
]

-- With messages and callbacks that acknowledge nothing, and a serial port that is busy for at most
-- `limit` polls, the interrupt of each of the vectors below 48 is carried out to its end by the
-- handler of its gate, with the drivers of the timer, the keyboard and the mouse. Each of the 16
-- lines (vectors 32 to 47) is acknowledged once: the first controller gets the command, after the
-- second for the lines 8 to 15. The handler names its own line, except for those of the three
-- drivers (0, 1 and 12), where the driver does it. The six fatal exceptions (division, invalid
-- opcode, double fault, protection, page fault, machine check) acknowledge nothing and end with a
-- halt; no other vector halts. Every other exception acknowledges line 0, and an unused vector lines
-- 0 and 8.
pub interrupt-acknowledged :
    {M : Type 0} (x : Context M) (acks sent : M → List ℕ) (busy : M → ℕ) (limit : ℕ)
    (frame : InterruptFrame) (cr2 v : ℕ) (s : System M)
    → IsLogged x acks
    → IsUart x.ports sent busy limit
    → limit < x.fuel
    → Ticks acks s
    → v < 48
    → let acts = isr (handler_at gates v default_handler) frame cr2 in
      (s' : System M) × (interrupt x v frame cr2 s ≡ some s')
      × (acks s'.machine ≡ acks s.machine ++ all_eoi_ports (expected v))
      × (named acts ≡ (if is_driven v then [] else expected v))
      × (halts acts ≡ is_fatal v)
unfolding interrupt
interrupt-acknowledged x acks sent busy limit frame cr2 v s d u h q small =
    let (ports, lines, halt) = outcome frame cr2 v small in
    let acts = isr (handler_at gates v default_handler) frame cr2 in
    let (s', run, log, same) = all-performed x acks sent busy limit d u h acts s q in
    (s', run, log ∙ ap (λ (l : List ℕ). acks s.machine ++ l) ports, lines, halt)
