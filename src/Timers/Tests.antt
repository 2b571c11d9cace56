-- ===== src/Timers/Tests.antt =====
-- Two timers, and the theorems at them.
use pma.Base.{ℕ, ◌<◌, ◌^◌, ◌≡◌, refl, none, some, List, [], ◌∷◌, All, arith}
use pma.Base.Outcome.{ok, crash}
use pma.Timers.{PmaTimer, Slot, Call, exe_timer_callback, clear, clear_timer, TimerTable}
use pma.Timers.Ticks.{ticks, ticks-due, IsRunning, count, due_all}

abbrev each_seconds : ℕ → ℕ → PmaTimer
each_seconds n c = record { timer_id = c; time_val = n; timeout = n; callback = c; args = none }

abbrev slot : PmaTimer → Slot
slot p = record { t_id = p.timer_id; timer = some p }

abbrev heart_beats : List Slot
heart_beats = slot (each_seconds 5 1) ∷ slot (each_seconds 2 7) ∷ []

running : (n c : ℕ) → 0 < n → n < 2 ^ 32 → IsRunning (slot (each_seconds n c))
running n c pos fits = record {
  timer = each_seconds n c;
  here = refl;
  left = pos;
  period = pos;
  left_fits = fits;
  period_fits = fits;
}

ticks-due_example :
    (slots' : List Slot) × (calls : List Call) × (ticks 11 heart_beats ≡ ok (slots', calls))
    × All IsRunning slots'
    × ((c : ℕ) → count c calls ≡ due_all c 11 heart_beats)
ticks-due_example =
    ticks-due 11 heart_beats
      (running 5 1 (omega arith) (omega arith), (running 2 7 (omega arith) (omega arith), tt))

due_five : due_all 7 11 heart_beats ≡ 5
due_five = refl

abbrev beating : TimerTable
beating = record { timer_arr = heart_beats; max_timer_id = 8 }

abbrev no_timer : ℕ → Slot
no_timer n = record { t_id = n; timer = none }

abbrev silenced : TimerTable
silenced = record beating { timer_arr = no_timer 1 ∷ no_timer 7 ∷ [] }

cleared : clear_timer beating ≡ ok silenced
unfolding clear_timer clear
cleared = refl

silenced_crash : exe_timer_callback silenced.timer_arr ≡ crash
unfolding exe_timer_callback
silenced_crash = refl
