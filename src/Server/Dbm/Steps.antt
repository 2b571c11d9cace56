-- ===== src/Server/Dbm/Steps.antt =====
-- What each event of the database module does to its timers.
use pma.Base.{
  ℕ, suc, ◌+◌, ◌%◌, ◌^◌, ◌≤◌, ◌<◌, ◌≡◌, refl, inl, inr, true, false, Option, none, some, List, [],
  ◌∷◌, ◌++◌, length, ◌==◌, arith, Bool-cases, length-append,
}
use pma.Base.Outcome.{ok}
use pma.Timers.{Slot, failed, set_timer, update_timer, unset_timer, timer_max_count}
use pma.Server.Dbm.{
  Dbm, spf_signal_handler, snapshoot_sender, spf_cpt_timer_cancel, end_of_computation, second,
  DbmEvent, spf_signal, add_lsa, second_passed, path_computed, send_all_snapshoot,
}
use pma.Server.Dbm.Slots.{
  spf_slot, Without, With, With-new, With-append, change-With, remove-With, exe-Without, exe-With,
  length-With, reload, starts,
}

-- The seconds to the next computation: a change sets them to two, they start anew when they are
-- over, and the end of a computation clears them.
abbrev pub countdown : DbmEvent → Option ℕ → List ℕ × Option ℕ
countdown spf_signal a = ([], some 2)
countdown add_lsa a = ([], some 2)
countdown second_passed none = (0 ∷ [], none)
countdown second_passed (some k) = (starts k ∷ [], some (reload k))
countdown path_computed a = ([], none)

abbrev pub run_countdown : List DbmEvent → Option ℕ → List ℕ
run_countdown [] a = []
run_countdown (e ∷ es) a = let (now, a') = countdown e a in now ++ run_countdown es a'

-- `o` bounds the number of other timers.
abbrev pub IsAt : ℕ → Option ℕ → Dbm → Type 0
IsAt o none d =
    (d.spf_cpt_timer ≡ failed)
    × Without d.timers.max_timer_id d.timers.timer_arr
    × (length d.timers.timer_arr ≤ o)
IsAt o (some k) d =
    (d.spf_cpt_timer < d.timers.max_timer_id)
    × With d.timers.max_timer_id d.spf_cpt_timer k d.timers.timer_arr
    × (length d.timers.timer_arr ≤ suc o)
    × (0 < k)
    × (k ≤ 2)

abbrev pub IsSnapshot : ℕ → Dbm → Type 0
IsSnapshot o d = (o ≤ 1) × ((d.snapshoot_timer == failed) ≡ true → o ≡ 0)

pub spf_signal_handler-IsAt :
    (o : ℕ) (a : Option ℕ) (d : Dbm)
    → o ≤ 1
    → d.timers.max_timer_id + 1 < failed
    → IsAt o a d
    → (d' : Dbm) × (spf_signal_handler d ≡ ok d')
      × IsAt o (some 2) d'
      × (d'.timers.max_timer_id ≤ d.timers.max_timer_id + 1)
      × (d'.snapshoot_timer ≡ d.snapshoot_timer)
unfolding spf_signal_handler set_timer update_timer
spf_signal_handler-IsAt o none d few fits (unset, w, l) =
    let b = d.timers.max_timer_id in
    let room : (length d.timers.timer_arr == timer_max_count) ≡ false = ground arith in
    let next : (b + 1) % 2 ^ 32 ≡ suc b = omega arith in
    (
      record d {
        timers = record {
          timer_arr = d.timers.timer_arr ++ spf_slot b 2 ∷ [];
          max_timer_id = suc b;
        };
        spf_cpt_timer = b;
      },
      rw (unset, room, next) refl,
      (
        omega arith,
        With-new b d.timers.timer_arr w,
        omega (arith, length-append d.timers.timer_arr (spf_slot b 2 ∷ [])),
        omega arith,
        omega arith,
      ),
      omega arith,
      refl,
    )
spf_signal_handler-IsAt o (some k) d few fits (set, w, l, p, q) =
    let b = d.timers.max_timer_id in
    let is_set : (d.spf_cpt_timer == failed) ≡ false = ground arith in
    let (slots', e, w', l') = change-With b d.spf_cpt_timer k d.timers.timer_arr w in
    let some_timer = length-With b d.spf_cpt_timer k d.timers.timer_arr w in
    (
      record d { timers = record d.timers { timer_arr = slots' } },
      rw (is_set, some_timer, e) refl,
      (set, w', omega arith, omega arith, omega arith),
      omega arith,
      refl,
    )

-- The snapshot timer goes behind the others.
pub snapshoot_sender-IsAt :
    (tv o k : ℕ) (d : Dbm)
    → IsSnapshot o d
    → d.timers.max_timer_id + 1 < failed
    → IsAt o (some k) d
    → (o' : ℕ) × IsAt o' (some k) (snapshoot_sender tv d)
      × IsSnapshot o' (snapshoot_sender tv d)
      × ((snapshoot_sender tv d).timers.max_timer_id ≤ d.timers.max_timer_id + 1)
unfolding snapshoot_sender set_timer
snapshoot_sender-IsAt tv o k d (few, first) fits (set, w, l, p, q) =
    elim (Bool-cases (d.snapshoot_timer == failed)) [
      | inr e ↦ (o, rw e (set, w, l, p, q), rw e (few, first), rw e (omega arith))
      | inl e ↦
          let b = d.timers.max_timer_id in
          let none_yet = first e in
          let room : (length d.timers.timer_arr == timer_max_count) ≡ false = ground arith in
          let next : (b + 1) % 2 ^ 32 ≡ suc b = omega arith in
          let is_set : (b == failed) ≡ false = ground arith in
          let other : Slot = record {
            t_id = b;
            timer = some (record {
              timer_id = b;
              time_val = tv;
              timeout = tv;
              callback = send_all_snapshoot;
              args = none;
            });
          } in
          (
            1,
            rw (e, room, next)
                (
                  omega arith,
                  With-append b d.spf_cpt_timer k d.timers.timer_arr other w set refl (
                    record {
                      timer_id = b;
                      time_val = tv;
                      timeout = tv;
                      callback = send_all_snapshoot;
                      args = none;
                    },
                    refl,
                    refl,
                    omega arith,
                  ),
                  omega (arith, length-append d.timers.timer_arr (other ∷ [])),
                  p,
                  q,
                ),
            rw (e, room) (omega arith, λ no. let no' : (b == failed) ≡ true = no in cc),
            rw (e, room, next) (omega arith),
          )
    ]

pub end_of_computation-IsAt :
    (o : ℕ) (a : Option ℕ) (d : Dbm)
    → d.timers.max_timer_id < failed
    → IsAt o a d
    → (d' : Dbm) × (end_of_computation d ≡ ok d')
      × IsAt o none d'
      × (d'.timers.max_timer_id ≡ d.timers.max_timer_id)
      × (d'.snapshoot_timer ≡ d.snapshoot_timer)
unfolding end_of_computation spf_cpt_timer_cancel unset_timer
end_of_computation-IsAt o none d fits (unset, w, l) =
    (record d { already_computed = true }, rw unset refl, (unset, w, l), refl, refl)
end_of_computation-IsAt o (some k) d fits (set, w, l, p, q) =
    let is_set : (d.spf_cpt_timer == failed) ≡ false = ground arith in
    let (slots', e, w', l') =
      remove-With d.timers.max_timer_id d.spf_cpt_timer k d.timers.timer_arr w in
    (
      record d {
        timers = record d.timers { timer_arr = slots' };
        spf_cpt_timer = failed;
        already_computed = true;
      },
      rw (is_set, e) refl,
      (refl, w', omega arith),
      refl,
      refl,
    )

reload-bounds : (k : ℕ) → 0 < k → k ≤ 2 → (0 < reload k) × (reload k ≤ 2)
reload-bounds k p q = (ground arith, ground arith)

pub second-IsAt :
    (o : ℕ) (a : Option ℕ) (d : Dbm)
    → IsAt o a d
    → (n : ℕ) × (d' : Dbm) × (second d ≡ ok (n, d'))
      × ((n ∷ []) ≡ (countdown second_passed a).0)
      × IsAt o (countdown second_passed a).1 d'
      × (d'.timers.max_timer_id ≡ d.timers.max_timer_id)
      × (d'.snapshoot_timer ≡ d.snapshoot_timer)
unfolding second
second-IsAt o none d (unset, w, l) =
    let (slots', calls, e, w', l', c) = exe-Without d.timers.max_timer_id d.timers.timer_arr w in
    (
      0,
      record d { timers = record d.timers { timer_arr = slots' } },
      rw (e, c) refl,
      refl,
      (unset, w', omega arith),
      refl,
      refl,
    )
second-IsAt o (some k) d (set, w, l, p, q) =
    let (slots', calls, e, w', l', c) =
      exe-With d.timers.max_timer_id d.spf_cpt_timer k d.timers.timer_arr p q w in
    let (p', q') = reload-bounds k p q in
    (
      starts k,
      record d { timers = record d.timers { timer_arr = slots' } },
      rw (e, c) refl,
      refl,
      (set, w', omega arith, p', q'),
      refl,
      refl,
    )
