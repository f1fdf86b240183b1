-- ===== src/Serial/Tests.antt =====
-- A serial port that is busy for three polls after each byte.
use nans_os.Base.{ℕ, ◌-◌, ◌%◌, ◌≡◌, refl, arith, some, List, [], ◌∷◌, ◌++◌, ◌==◌, if◌then◌else◌}
use nans_os.Pic.{Ports}
use nans_os.Serial.{com1_port, serial_write_string}
use nans_os.Serial.Sent.{IsUart, write_string-sent}

record Line : Type 0 where
  polls : ℕ
  out : List ℕ

abbrev sent : Line → List ℕ
sent m = m.out

abbrev busy : Line → ℕ
busy m = m.polls % 4

abbrev uart : Ports Line
uart = record {
  outb = λ port v m. if port == 0x3F8 then record { polls = 3; out = m.out ++ (v ∷ []) } else m;
  inb = λ port m.
      if m.polls % 4 == 0 then (0x20, m) else (0x00, record m { polls = m.polls % 4 - 1 });
}

uart-IsUart : IsUart uart sent busy 3
uart-IsUart = record {
  status = λ m. ground arith;
  polled = λ m. ground arith;
  bounded = λ m. ground arith;
  quiet = λ m. ground arith;
  sends = λ c m. refl;
}

abbrev idle_line : Line
idle_line = record { polls = 2; out = b'>' ∷ [] }

write_string-sent_example :
    (m' : Line) × (serial_write_string uart 4 com1_port (b'h' ∷ b'i' ∷ []) idle_line ≡ some m')
    × (sent m' ≡ b'>' ∷ b'h' ∷ b'i' ∷ [])
write_string-sent_example =
    write_string-sent uart sent busy 3 4 (b'h' ∷ b'i' ∷ []) idle_line uart-IsUart (omega arith)
