-- ===== src/Lsd/Hello/Invariant.antt =====
-- A dead timer is armed exactly while its priority is connected, so that its assert holds when it
-- fires (lsd/lsd_hello.c).
use pma.Base.{ℕ, ◌≡◌, refl, ◌≢◌, none, some, List, [], ◌∷◌, arith}
use pma.Base.Outcome.{Outcome, ok, ◌>>=◌}
use pma.Lsd.{HelloMaster, EthState, LsdStatus, connected, disconnected, Timer}
use pma.Lsd.Hello.{
  new_hello_master, set_timers, take_high, take_low, dead_timer_high, dead_timer_low, ticks,
}

-- What can happen to a hello master. A timer that is not armed does not fire.
pub data Event : Type 0 where
  changes : EthState → Event
  high_sent low_sent high_dead low_dead : Event
  high_received low_received : ℕ → ℕ → Event

unfoldable pub step : Event → HelloMaster → Outcome HelloMaster
unfolding set_timers take_high take_low dead_timer_high dead_timer_low
step (changes s) m = ok (set_timers s m)
step high_sent m = ok (record m { hello_timer_high = some (ticks m.h_hello_val) })
step low_sent m = ok (record m { hello_timer_low = some (ticks m.l_hello_val) })
step high_dead m = elim m.dead_timer_high [ none ↦ ok m | some t ↦ dead_timer_high m ]
step low_dead m = elim m.dead_timer_low [ none ↦ ok m | some t ↦ dead_timer_low m ]
step (high_received r i) m = ok (take_high r i m).0
step (low_received r i) m = ok (take_low r i m).0

unfoldable pub run : List Event → HelloMaster → Outcome HelloMaster
unfolding step
run [] m = ok m
run (e ∷ es) m = step e m >>= run es

abbrev Armed : LsdStatus → Timer → Type 0
Armed connected t = t ≢ none
Armed disconnected t = t ≡ none

pub record IsValid (m : HelloMaster) : Type 0 where
  pub high : Armed m.high_status m.dead_timer_high
  pub low : Armed m.low_status m.dead_timer_low

step-IsValid :
    (e : Event) (m : HelloMaster) → IsValid m → (m' : HelloMaster) × (step e m ≡ ok m') × IsValid m'
unfolding step set_timers
step-IsValid (changes EthState.down) m v = (set_timers EthState.down m, refl, ground arith)
step-IsValid (changes EthState.up) m v = (set_timers EthState.up m, refl, ground arith)
step-IsValid high_sent m v = (_, refl, ground arith)
step-IsValid low_sent m v = (_, refl, ground arith)
step-IsValid high_dead m v =
    (record m { dead_timer_high = none; high_status = disconnected }, ground arith, ground arith)
step-IsValid low_dead m v =
    (record m { dead_timer_low = none; low_status = disconnected }, ground arith, ground arith)
step-IsValid (high_received r i) m v = ((take_high r i m).0, refl, ground arith)
step-IsValid (low_received r i) m v = ((take_low r i m).0, refl, ground arith)

run-IsValid :
    (es : List Event) (m : HelloMaster)
    → IsValid m
    → (m' : HelloMaster) × (run es m ≡ ok m') × IsValid m'
unfolding run
run-IsValid [] m v = (m, refl, v)
run-IsValid (e ∷ es) m v =
    let (m1, r1, v1) = step-IsValid e m v in
    let (m2, r2, v2) = run-IsValid es m1 v1 in (m2, rw r1 r2, v2)

-- From its allocation on, whatever packets arrive and whatever timers fire, a hello master never
-- fails the assert of a dead timer, and each dead timer is armed exactly while its priority is
-- connected.
pub hello_run-IsValid :
    (es : List Event) → (m : HelloMaster) × (run es new_hello_master ≡ ok m) × IsValid m
hello_run-IsValid es = run-IsValid es new_hello_master (record { high = refl; low = refl })
