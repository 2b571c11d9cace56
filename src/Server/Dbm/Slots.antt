-- ===== src/Server/Dbm/Slots.antt =====
-- The timer of the path computation among the other timers, and what the operations on the timers
-- make of it.
use pma.Base.{
  ℕ, suc, ◌+◌, ◌-◌, ◌%◌, ◌^◌, ◌≤◌, ◌<◌, ◌≡◌, refl, ◌⊎◌, inl, inr, false, none, some, List, [], ◌∷◌,
  ◌++◌, length, All, ◌==◌, eqb_refl, ap, ◌∙◌, if◌then◌else◌, arith, Bool-cases,
}
use pma.Base.Outcome.{ok}
use pma.Timers.{PmaTimer, Slot, Call, change, remove, count_down, exe_timer_callback}
use pma.Timers.Ticks.{count}
use pma.Server.Dbm.{path_compute_start}

pub zero_add : (m : ℕ) → 0 + m ≡ m
zero_add m = omega arith

pub add_zero : (m : ℕ) → m + 0 ≡ m
add_zero m = omega arith

abbrev pub spf_slot : ℕ → ℕ → Slot
spf_slot id k = record {
  t_id = id;
  timer = some (record {
    timer_id = id;
    time_val = 2;
    timeout = k;
    callback = path_compute_start;
    args = none;
  });
}

-- A timer with another callback, and a number below `b`.
abbrev pub IsOther : ℕ → Slot → Type 0
IsOther b s =
    (p : PmaTimer) × (s.timer ≡ some p)
    × ((p.callback == path_compute_start) ≡ false)
    × (s.t_id < b)

-- Without a timer for the path computation, and with one of that number and with that time left.
abbrev pub Without : ℕ → List Slot → Type 0
Without b slots = All (IsOther b) slots

abbrev pub With : ℕ → ℕ → ℕ → List Slot → Type 0
With b id k [] = ⊥
With b id k (s ∷ slots) =
    ((s ≡ spf_slot id k) × Without b slots)
    ⊎ (IsOther b s × ((s.t_id == id) ≡ false) × With b id k slots)

IsOther-suc : (b : ℕ) (s : Slot) → IsOther b s → IsOther (suc b) s
IsOther-suc b s (p, e, c, l) = (p, e, c, omega arith)

Without-suc : (b : ℕ) (slots : List Slot) → Without b slots → Without (suc b) slots
Without-suc b [] w = tt
Without-suc b (s ∷ slots) (o, w) = (IsOther-suc b s o, Without-suc b slots w)

pub Without-append :
    (b : ℕ) (slots : List Slot) (o : Slot)
    → Without b slots
    → IsOther (suc b) o
    → Without (suc b) (slots ++ o ∷ [])
Without-append b [] o w i = (i, tt)
Without-append b (s ∷ slots) o (h, w) i = (IsOther-suc b s h, Without-append b slots o w i)

pub With-new :
    (b : ℕ) (slots : List Slot) → Without b slots → With (suc b) b 2 (slots ++ spf_slot b 2 ∷ [])
With-new b [] w = inl (refl, tt)
With-new b (s ∷ slots) ((p, e, c, l), w) =
    inr ((p, e, c, omega arith), ground arith, With-new b slots w)

pub With-append :
    (b id k : ℕ) (slots : List Slot) (o : Slot)
    → With b id k slots
    → id < b
    → o.t_id ≡ b
    → IsOther (suc b) o
    → With (suc b) id k (slots ++ o ∷ [])
With-append b id k [] o w l n i = elim w [ ]
With-append b id k (s ∷ slots) o (inl (e, w)) l n i = inl (e, Without-append b slots o w i)
With-append b id k (s ∷ slots) o (inr (h, ne, w)) l n i =
    inr (IsOther-suc b s h, ne, With-append b id k slots o w l n i)

pub change-With :
    (b id k : ℕ) (slots : List Slot)
    → With b id k slots
    → (slots' : List Slot) × (change id (λ p. record p { timeout = p.time_val }) slots
        ≡ ok (0, slots'))
      × With b id 2 slots'
      × (length slots' ≡ length slots)
unfolding change
change-With b id k [] w = elim w [ ]
change-With b id k (s ∷ slots) (inl (e, w)) =
    let ids : s.t_id ≡ id = ap (λ (s : Slot). s.t_id) e in
    (spf_slot id 2 ∷ slots, rw (e, eqb_refl id, ids) refl, inl (refl, w), refl)
change-With b id k (s ∷ slots) (inr (h, ne, w)) =
    let (slots', e, w', l) = change-With b id k slots w in
    (s ∷ slots', rw (ne, e) refl, inr (h, ne, w'), ap suc l)

pub remove-With :
    (b id k : ℕ) (slots : List Slot)
    → With b id k slots
    → (slots' : List Slot) × (remove id slots ≡ ok slots')
      × Without b slots'
      × (suc (length slots') ≡ length slots)
unfolding remove
remove-With b id k [] w = elim w [ ]
remove-With b id k (s ∷ slots) (inl (e, w)) = (slots, rw (e, eqb_refl id) refl, w, refl)
remove-With b id k (s ∷ slots) (inr (h, ne, w)) =
    let (slots', e, w', l) = remove-With b id k slots w in
    (s ∷ slots', rw (ne, e) refl, (h, w'), ap suc l)

-- The time that is left after a second, of two in which the timer starts anew.
abbrev pub reload : ℕ → ℕ
reload k = if k == 1 then 2 else k - 1

abbrev pub starts : ℕ → ℕ
starts k = if k == 1 then 1 else 0

count_down-spf :
    (id k : ℕ)
    → 0 < k
    → k ≤ 2
    → let p : PmaTimer = record {
      timer_id = id;
      time_val = 2;
      timeout = k;
      callback = path_compute_start;
      args = none;
    } in
      ((count_down p).0 ≡ record p { timeout = reload k })
      × (count path_compute_start (count_down p).1 ≡ starts k)
unfolding count_down
count_down-spf id k l m = elim (Bool-cases (k == 1)) [
  | inl e ↦ let one : k ≡ 1 = ground arith in rw one (refl, refl)
  | inr e ↦ let two : k ≡ 2 = ground arith in rw two (refl, refl)
]

count_down-other :
    (p : PmaTimer)
    → (p.callback == path_compute_start) ≡ false
    → ((count_down p).0.callback ≡ p.callback) × (count path_compute_start (count_down p).1 ≡ 0)
unfolding count_down
count_down-other p h = elim (Bool-cases ((p.timeout + (2 ^ 32 - 1)) % 2 ^ 32 == 0)) [
  | inl e ↦ rw e (refl, rw h refl)
  | inr e ↦ rw e (refl, refl)
]

count-append : (c : ℕ) (xs ys : List Call) → count c (xs ++ ys) ≡ count c xs + count c ys
count-append c [] ys = omega arith
count-append c (x ∷ xs) ys = ground (arith, count-append c xs ys)

exe-IsOther :
    (b : ℕ) (s : Slot) (slots : List Slot)
    → IsOther b s
    → (s' : Slot) × (now : List Call) × ((slots' : List Slot) (calls : List Call)
        → exe_timer_callback slots ≡ ok (slots', calls)
        → exe_timer_callback (s ∷ slots) ≡ ok (s' ∷ slots', now ++ calls))
      × IsOther b s'
      × (s'.t_id ≡ s.t_id)
      × (count path_compute_start now ≡ 0)
unfolding exe_timer_callback
exe-IsOther b s slots (p, e, c, l) =
    let (same, none_started) = count_down-other p c in
    (
      record s { timer = some (count_down p).0 },
      (count_down p).1,
      λ slots' calls f. rw (e, f) refl,
      ((count_down p).0, refl, rw same c, l),
      refl,
      none_started,
    )

pub exe-Without :
    (b : ℕ) (slots : List Slot)
    → Without b slots
    → (slots' : List Slot) × (calls : List Call) × (exe_timer_callback slots ≡ ok (slots', calls))
      × Without b slots'
      × (length slots' ≡ length slots)
      × (count path_compute_start calls ≡ 0)
unfolding exe_timer_callback
exe-Without b [] w = ([], [], refl, tt, refl, refl)
exe-Without b (s ∷ slots) (o, w) =
    let (slots', calls, e, w', l, c) = exe-Without b slots w in
    let (s', now, step, o', same, z) = exe-IsOther b s slots o in
    (
      s' ∷ slots',
      now ++ calls,
      step slots' calls e,
      (o', w'),
      ap suc l,
      ground (arith, count-append path_compute_start now calls),
    )

pub exe-With :
    (b id k : ℕ) (slots : List Slot)
    → 0 < k
    → k ≤ 2
    → With b id k slots
    → (slots' : List Slot) × (calls : List Call) × (exe_timer_callback slots ≡ ok (slots', calls))
      × With b id (reload k) slots'
      × (length slots' ≡ length slots)
      × (count path_compute_start calls ≡ starts k)
unfolding exe_timer_callback
exe-With b id k [] p q w = elim w [ ]
exe-With b id k (s ∷ slots) p q (inl (e, w)) =
    let (slots', calls, f, w', l, c) = exe-Without b slots w in
    let (left, now) = count_down-spf id k p q in
    let ids : s.t_id ≡ id = ap (λ (s : Slot). s.t_id) e in
    (
      spf_slot id (reload k) ∷ slots',
      (count_down (record {
        timer_id = id;
        time_val = 2;
        timeout = k;
        callback = path_compute_start;
        args = none;
      })).1
          ++ calls,
      rw (e, f, left, ids) refl,
      inl (refl, w'),
      ap suc l,
      count-append path_compute_start
            (count_down (record {
              timer_id = id;
              time_val = 2;
              timeout = k;
              callback = path_compute_start;
              args = none;
            })).1
            calls
          ∙ rw (now, c) (add_zero (starts k)),
    )
exe-With b id k (s ∷ slots) p q (inr (h, ne, w)) =
    let (slots', calls, e, w', l, c) = exe-With b id k slots p q w in
    let (s', now, step, o', same, z) = exe-IsOther b s slots h in
    (
      s' ∷ slots',
      now ++ calls,
      step slots' calls e,
      inr (o', rw same ne, w'),
      ap suc l,
      count-append path_compute_start now calls ∙ rw (z, c) (zero_add (starts k)),
    )

pub length-With : (b id k : ℕ) (slots : List Slot) → With b id k slots → (length slots == 0) ≡ false
length-With b id k [] w = elim w [ ]
length-With b id k (s ∷ slots) w = ground arith
