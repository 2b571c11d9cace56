-- ===== src/Ddc/Protect.antt =====
-- What is left of a dead timer, ddc/fah.c.
use pma.Base.{
  ℕ, ◌+◌, ◌-◌, ◌^◌, ◌≤◌, ◌<◌, ◌≡◌, refl, false, ◌&&◌, some, if◌then◌else◌, ◌==◌, ltb, leb, arith,
}
use pma.Base.Outcome.{ok}
use pma.Ddc.Fah.{recompute_dead_timer, micro, usec_passed, diff_time}

usec_passed_lem :
    (last now : ℕ × ℕ)
    → micro last ≤ micro now
    → micro now - micro last < 2 ^ 32
    → usec_passed last now ≡ micro now - micro last
usec_passed_lem last now le fits = omega arith

diff_time_lem :
    (dead passed : ℕ)
    → dead < 2 ^ 32
    → passed < 2 ^ 32
    → diff_time dead passed ≡ (if leb passed dead then dead - passed else (dead + 2 ^ 32) - passed)
diff_time_lem dead passed d p = ground arith

-- When a timer was set for the interface before, at a time not in the future and less than 2^32
-- microseconds ago, the timer is what is left of its value after that time; but when less than that time was left, it
-- is 2^32 microseconds more than that, and never zero. The time that is kept stays.
pub recompute_dead_timer-left :
    (ifid dead : ℕ) (now : ℕ × ℕ) (timers : ℕ → ℕ × ℕ)
    → ifid < 100
    → 0 < micro (timers ifid)
    → micro (timers ifid) ≤ micro now
    → micro now - micro (timers ifid) < 2 ^ 32
    → dead < 2 ^ 32
    → let passed = micro now - micro (timers ifid) in
      recompute_dead_timer (some now) ifid dead timers
      ≡ ok (if leb passed dead then dead - passed else (dead + 2 ^ 32) - passed, timers)
unfolding recompute_dead_timer
recompute_dead_timer-left ifid dead now timers l p le fits d =
    let last = timers ifid in
    let passed = micro now - micro last in
    let inside : ltb 100 ifid ≡ false = ground arith in
    let present : (ifid == 100) ≡ false = ground arith in
    let before : ((last.0 == 0) && (last.1 == 0)) ≡ false = ground arith in
    rw (inside, present, before, usec_passed_lem last now le fits, diff_time_lem dead passed d fits)
      refl
