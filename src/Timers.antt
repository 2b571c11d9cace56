-- ===== src/Timers.antt =====
-- Timers: timer/timer.c. The functions run one at a time; a callback is started in a thread of its
-- own, and appears as a call with its arguments. The list `timer_head`, which nothing walks, and
-- failures of `malloc` and `pthread_create` are not modelled.
pub mod Ticks
mod Tests
use pma.Base.{
  ℕ, ◌+◌, ◌-◌, ◌%◌, ◌^◌, Bool, true, false, Option, none, some, List, [], ◌∷◌, ◌++◌, length,
  if◌then◌else◌, ◌==◌, ltb, zero, suc,
}
use pma.Base.Outcome.{Outcome, ok, crash, ◌>>=◌}

-- `struct pma_timer`; the callback is a number, and the arguments are the bytes that are copied.
pub record PmaTimer : Type 0 where
  pub timer_id : ℕ
  pub time_val : ℕ
  pub timeout : ℕ
  pub callback : ℕ
  pub args : Option (List ℕ)

-- `struct timer`; the pointer is `none` after `clear_timer`.
pub record Slot : Type 0 where
  pub t_id : ℕ
  pub timer : Option PmaTimer

-- `timer_arr` up to `timer_num`, and `max_timer_id`.
pub record TimerTable : Type 0 where
  pub timer_arr : List Slot
  pub max_timer_id : ℕ

abbrev pub timer_max_count : ℕ
timer_max_count = 100

-- -1 as a `u32`.
abbrev pub failed : ℕ
failed = 2 ^ 32 - 1

-- The result, and the table afterwards. `time_val` is the `int` as a `u32`.
unfoldable pub set_timer : ℕ → ℕ → Option (List ℕ) → TimerTable → ℕ × TimerTable
set_timer time_val callback args t =
    if length t.timer_arr == timer_max_count then (failed, t) else (
      t.max_timer_id,
      record {
        timer_arr =
            t.timer_arr
            ++ record {
              t_id = t.max_timer_id;
              timer = some (record {
                timer_id = t.max_timer_id;
                time_val = time_val;
                timeout = time_val;
                callback = callback;
                args = args;
              });
            }
              ∷ [];
        max_timer_id = (t.max_timer_id + 1) % 2 ^ 32;
      },
    )

-- The loop of `update_timer` and `modify_timer`: a change to the first timer with that number.
unfoldable pub change : ℕ → (PmaTimer → PmaTimer) → List Slot → Outcome (ℕ × List Slot)
change t_id f [] = ok (1, [])
change t_id f (s ∷ slots) =
    let rest = change t_id f slots in
    if s.t_id == t_id
    then elim s.timer [ none ↦ crash | some p ↦ ok (0, record s { timer = some (f p) } ∷ slots) ]
    else rest >>= λ (r, slots'). ok (r, s ∷ slots')

abbrev pub changed : ℕ → (PmaTimer → PmaTimer) → TimerTable → Outcome (ℕ × TimerTable)
changed t_id f t =
    if length t.timer_arr == 0
    then ok (failed, t)
    else change t_id f t.timer_arr >>= λ (r, slots). ok (r, record t { timer_arr = slots })

unfoldable pub update_timer : ℕ → TimerTable → Outcome (ℕ × TimerTable)
unfolding change
update_timer t_id = changed t_id (λ p. record p { timeout = p.time_val })

unfoldable pub modify_timer : ℕ → ℕ → TimerTable → Outcome (ℕ × TimerTable)
unfolding change
modify_timer t_id timeout = changed t_id (λ p. record p {
  time_val = timeout;
  timeout = if ltb timeout p.timeout then timeout else p.timeout;
})

-- The first timer with that number goes, and those behind it move forward.
unfoldable pub remove : ℕ → List Slot → Outcome (List Slot)
remove t_id [] = ok []
remove t_id (s ∷ slots) =
    let rest = remove t_id slots in
    if s.t_id == t_id
    then elim s.timer [ none ↦ crash | some p ↦ ok slots ]
    else rest >>= λ slots'. ok (s ∷ slots')

-- It returns 0 always.
unfoldable pub unset_timer : ℕ → TimerTable → Outcome TimerTable
unfolding remove
unset_timer t_id t = remove t_id t.timer_arr >>= λ slots. ok (record t { timer_arr = slots })

-- Every timer is freed, but `timer_num` stays.
unfoldable pub clear : List Slot → Outcome (List Slot)
clear [] = ok []
clear (s ∷ slots) =
    let rest = clear slots in
    elim s.timer [
      | none ↦ crash
      | some p ↦ rest >>= λ slots'. ok (record s { timer = none } ∷ slots')
    ]

unfoldable pub clear_timer : TimerTable → Outcome TimerTable
unfolding clear
clear_timer t = clear t.timer_arr >>= λ slots. ok (record t { timer_arr = slots })

pub record Call : Type 0 where
  pub callback : ℕ
  pub args : Option (List ℕ)

-- `--timeout <= 0` on a `u32`, and the reset.
unfoldable pub count_down : PmaTimer → PmaTimer × List Call
count_down p =
    let left = (p.timeout + (2 ^ 32 - 1)) % 2 ^ 32 in
    if left == 0
    then (record p { timeout = p.time_val }, record { callback = p.callback; args = p.args } ∷ [])
    else (record p { timeout = left }, [])

unfoldable pub exe_timer_callback : List Slot → Outcome (List Slot × List Call)
unfolding count_down
exe_timer_callback [] = ok ([], [])
exe_timer_callback (s ∷ slots) =
    let rest = exe_timer_callback slots in
    elim s.timer [
      | none ↦ crash
      | some p ↦
          let (p', calls) = count_down p in
          rest >>= λ (slots', calls'). ok (record s { timer = some p' } ∷ slots', calls ++ calls')
    ]
