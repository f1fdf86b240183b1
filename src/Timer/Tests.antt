-- ===== src/Timer/Tests.antt =====
-- Timers on which the theorems are run.
use nans_os.Base.{ℕ, ◌+◌, ◌*◌, ◌≡◌, refl, arith, some, List, [], ◌∷◌, ◌++◌, ◌==◌, if◌then◌else◌}
use nans_os.Pic.{Ports}
use nans_os.Serial.Sent.{IsUart, IsApart}
use nans_os.Timer.{Timer, run_ticks}
use nans_os.Timer.Frequency.{IsChannel}
use nans_os.Timer.Beats.{IsCounted, dots, ticks-beat}

-- The two bytes that channel 0 got last.
abbrev channel : Ports (ℕ × ℕ)
channel = record { outb = λ port v m. if port == 0x40 then (m.1, v) else m; inb = λ port m. (0, m) }

abbrev divisor : ℕ × ℕ → ℕ
divisor (low, high) = low + high * 256

channel-IsChannel : IsChannel channel divisor
channel-IsChannel = record { loads = λ low high m. refl }

-- A serial port that is never busy, and the calls of the callback.
record World : Type 0 where
  out : List ℕ
  count : ℕ

abbrev sent : World → List ℕ
sent m = m.out

abbrev calls : World → ℕ
calls m = m.count

abbrev busy : World → ℕ
busy m = 0

abbrev on_tick : World → World
on_tick m = record m { count = m.count + 1 }

abbrev world : Ports World
world = record {
  outb = λ port v m. if port == 0x3F8 then record m { out = m.out ++ (v ∷ []) } else m;
  inb = λ port m. (0x20, m);
}

world-IsUart : IsUart world sent busy 0
world-IsUart = record {
  status = λ m. refl;
  polled = λ m. refl;
  bounded = λ m. omega arith;
  quiet = λ m. refl;
  sends = λ c m. refl;
}

world-IsApart : IsApart world calls
world-IsApart = record { poll = λ m. refl; byte = λ c m. refl }

on_tick-IsCounted : IsCounted world sent calls on_tick
on_tick-IsCounted = record {
  called = λ m. refl;
  silent = λ m. refl;
  ended = λ m. refl;
  ended_silent = λ m. refl;
}

abbrev running : Timer World
running = record { tick_count = 150; callback = some on_tick }

abbrev quiet : World
quiet = record { out = []; count = 0 }

ticks-beat_example :
    (t' : Timer World) × (m' : World) × (run_ticks world 1 250 running quiet ≡ some (t', m'))
    × (t'.tick_count ≡ 150 + 250)
    × (calls m' ≡ 0 + 250)
    × (sent m' ≡ [] ++ dots 3)
ticks-beat_example =
    ticks-beat world sent busy calls 0 on_tick 250 1 running quiet world-IsUart world-IsApart
      on_tick-IsCounted (omega arith) refl (omega arith)
