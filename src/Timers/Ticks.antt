-- ===== src/Timers/Ticks.antt =====
-- How often each callback is started (timer/timer.c).
use native.Mathlib.Nat.{div-eq-sub-div, div-eq_of_lt}
use pma.Base.{
  ℕ, zero, suc, ◌+◌, ◌-◌, ◌/◌, ◌^◌, ◌<◌, ◌≤◌, ◌≡◌, refl, sym, ◌∙◌, ◌≢◌, Option, none, some, List,
  [], ◌∷◌, ◌++◌, if◌then◌else◌, ◌==◌, ltb, arith, All, Bool-cases, eqb_refl, length, subst, inl,
  inr,
}
use pma.Base.Outcome.{Outcome, ok, crash, ◌>>=◌, Outcome-cases}
use pma.Timers.{
  PmaTimer, Slot, Call, count_down, exe_timer_callback, clear, clear_timer, TimerTable, set_timer,
  unset_timer, remove, timer_max_count,
}

-- Calls of `exe_timer_callback`, one a second, and the callbacks that they start.
unfoldable pub ticks : ℕ → List Slot → Outcome (List Slot × List Call)
ticks zero slots = ok (slots, [])
ticks (suc n) slots = exe_timer_callback slots >>= λ (slots', calls).
    ticks n slots' >>= λ (slots'', calls'). ok (slots'', calls ++ calls')

-- How often a callback is among some calls.
abbrev pub count : ℕ → List Call → ℕ
count c [] = 0
count c (x ∷ xs) = if x.callback == c then suc (count c xs) else count c xs

-- The timer is there, and its times are positive and fit a `u32`.
pub record IsRunning (s : Slot) : Type 0 where
  pub timer : PmaTimer
  pub here : s.timer ≡ some timer
  pub left : 0 < timer.timeout
  pub period : 0 < timer.time_val
  pub left_fits : timer.timeout < 2 ^ 32
  pub period_fits : timer.time_val < 2 ^ 32

-- How often a timer is due in `n` seconds: first when its time is over, then after each period.
abbrev pub due : ℕ → PmaTimer → ℕ
due n p = if ltb n p.timeout then 0 else suc ((n - p.timeout) / p.time_val)

abbrev pub due_slot : ℕ → ℕ → Slot → ℕ
due_slot c n s = elim s.timer [ none ↦ 0 | some p ↦ if p.callback == c then due n p else 0 ]

-- Over all timers with that callback.
abbrev pub due_all : ℕ → ℕ → List Slot → ℕ
due_all c n [] = 0
due_all c n (s ∷ slots) = due_slot c n s + due_all c n slots

count-append : (c : ℕ) (xs ys : List Call) → count c (xs ++ ys) ≡ count c xs + count c ys
count-append c [] ys = omega arith
count-append c (x ∷ xs) ys = ground (arith, count-append c xs ys)

period_step : (n v : ℕ) → 0 < v → n / v ≡ (if ltb n v then 0 else suc ((n - v) / v))
period_step n v h = elim (Bool-cases (ltb n v)) [
  | inl small ↦ rw small (div-eq_of_lt (ground arith))
  | inr big ↦ let le : v ≤ n = ground arith in rw big (div-eq-sub-div h le ∙ omega arith)
]

abbrev next : PmaTimer → PmaTimer
next p = (count_down p).0

due-count_down :
    (c n : ℕ) (p : PmaTimer)
    → 0 < p.timeout
    → 0 < p.time_val
    → p.timeout < 2 ^ 32
    → (if p.callback == c then due (suc n) p else 0)
      ≡ count c (count_down p).1 + (if (next p).callback == c then due n (next p) else 0)
unfolding count_down
due-count_down c n p l v f = ground (arith, period_step n p.time_val v)

IsRunning-next : (s : Slot) (r : IsRunning s) → IsRunning (record s { timer = some (next r.timer) })
unfolding count_down
IsRunning-next s r = record {
  timer = next r.timer;
  here = refl;
  left = ground (arith, r.left, r.period, r.left_fits);
  period = ground (arith, r.period);
  left_fits = ground (arith, r.left_fits, r.period_fits);
  period_fits = ground (arith, r.period_fits);
}

due_slot-next :
    (c n : ℕ) (s : Slot) (r : IsRunning s)
    → due_slot c (suc n) s
      ≡ count c (count_down r.timer).1 + due_slot c n (record s { timer = some (next r.timer) })
due_slot-next c n s r = rw (r.here) (due-count_down c n r.timer r.left r.period r.left_fits)

one_tick :
    (slots : List Slot)
    → All IsRunning slots
    → (slots' : List Slot) × (calls : List Call) × (exe_timer_callback slots ≡ ok (slots', calls))
      × All IsRunning slots'
      × ((c n : ℕ) → due_all c (suc n) slots ≡ count c calls + due_all c n slots')
unfolding exe_timer_callback
one_tick [] h = ([], [], refl, tt, λ c n. refl)
one_tick (s ∷ slots) h =
    let r = h.0 in
    let (slots', calls, run, h', d) = one_tick slots h.1 in
    (
      record s { timer = some (next r.timer) } ∷ slots',
      (count_down r.timer).1 ++ calls,
      rw (r.here, exe_timer_callback, run) refl,
      (IsRunning-next s r, h'),
      λ c n.
          omega (arith, due_slot-next c n s r, d c n, count-append c (count_down r.timer).1 calls),
    )

due_all_zero : (c : ℕ) (slots : List Slot) → All IsRunning slots → due_all c 0 slots ≡ 0
due_all_zero c [] h = refl
due_all_zero c (s ∷ slots) h = ground (arith, h.0.here, h.0.left, due_all_zero c slots h.1)

-- While all timers are there, with positive times that fit a `u32`, `n` seconds of the timer thread
-- never crash it, and start each callback as often as the timers with that callback are due: a timer
-- is due once when the time that it had left is over, and once more after each period from then on.
pub ticks-due :
    (n : ℕ) (slots : List Slot)
    → All IsRunning slots
    → (slots' : List Slot) × (calls : List Call) × (ticks n slots ≡ ok (slots', calls))
      × All IsRunning slots'
      × ((c : ℕ) → count c calls ≡ due_all c n slots)
unfolding ticks
ticks-due zero slots h = (slots, [], refl, h, λ c. sym (due_all_zero c slots h))
ticks-due (suc n) slots h =
    let (slots1, calls1, run1, h1, d1) = one_tick slots h in
    let (slots2, calls2, run2, h2, d2) = ticks-due n slots1 h1 in
    (
      slots2,
      calls1 ++ calls2,
      rw (run1, run2) refl,
      h2,
      λ c. omega (arith, count-append c calls1 calls2, d1 c n, d2 c),
    )

first_cleared :
    (s : Slot) (slots slots' : List Slot)
    → clear (s ∷ slots) ≡ ok slots'
    → exe_timer_callback slots' ≡ crash
unfolding clear exe_timer_callback
first_cleared s slots slots' e = ground arith

-- After a `clear_timer` of at least one timer that did not crash itself, the next second of the timer
-- thread reads through a NULL pointer.
pub clear_timer-crash :
    (t t' : TimerTable)
    → t.timer_arr ≢ []
    → clear_timer t ≡ ok t'
    → exe_timer_callback t'.timer_arr ≡ crash
unfolding clear_timer
clear_timer-crash t t' some_set e = elim (Outcome-cases (clear t.timer_arr)) [
  | inl crashed ↦ ground arith
  | inr (slots, cleared) ↦
      let same : slots ≡ t'.timer_arr = ground arith in
      subst (λ l. exe_timer_callback l ≡ crash) same (go t.timer_arr slots some_set cleared)
]
  where
    go :
        (arr slots : List Slot) → arr ≢ [] → clear arr ≡ ok slots → exe_timer_callback slots ≡ crash
    go [] slots h c = absurd (h refl)
    go (s ∷ arr) slots h c = first_cleared s arr slots c

remove_last :
    (slots : List Slot) (s : Slot)
    → s.timer ≢ none
    → All (λ q. q.t_id ≢ s.t_id) slots
    → remove s.t_id (slots ++ s ∷ []) ≡ ok slots
unfolding remove
remove_last [] s there h = ground (arith, eqb_refl s.t_id)
remove_last (q ∷ slots) s there h = ground (arith, remove_last slots s there h.1)

-- Where a table is not full and holds no timer of the next number, `set_timer` returns that number,
-- and `unset_timer` of it gives the timers back as they were.
pub set-unset :
    (time_val callback : ℕ) (args : Option (List ℕ)) (t : TimerTable)
    → length t.timer_arr ≢ timer_max_count
    → All (λ q. q.t_id ≢ t.max_timer_id) t.timer_arr
    → let (id, t') = set_timer time_val callback args t in
      (id ≡ t.max_timer_id) × (unset_timer id t' ≡ ok (record t' { timer_arr = t.timer_arr }))
unfolding set_timer unset_timer
set-unset time_val callback args t room h = (
  ground arith,
  ground (
    arith,
    remove_last t.timer_arr
        (record {
          t_id = t.max_timer_id;
          timer = some (record {
            timer_id = t.max_timer_id;
            time_val = time_val;
            timeout = time_val;
            callback = callback;
            args = args;
          });
        })
        (λ e. cc) h,
  ),
)
