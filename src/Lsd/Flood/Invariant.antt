-- ===== src/Lsd/Flood/Invariant.antt =====
-- The states of a flood master, and what every event keeps (lsd/lsd_flood.c).
use pma.Base.{
  ℕ, zero, suc, ◌+◌, ◌%◌, ◌^◌, ◌≤◌, ◌<◌, ◌≡◌, refl, ◌≢◌, none, some, List, [], ◌∷◌, ◌++◌, arith,
  length, take, drop,
}
use pma.Lsd.{
  Lsa, FloodMaster, FloodState, ready, busy, ack_waiting, terminated, sizeof_flood, sizeof_lsa,
}
use pma.Lsd.Flood.{
  pack, make_packet, take_ack, enqueue, terminate_master, ack_over_time, lsa_ct_per_pak,
  new_flood_master,
}

-- What can happen to a master: an advertisement to flood, one of its timers, an acknowledgement,
-- and the start and end of the neighbourship. A timer that is not armed does not fire.
pub data Event : Type 0 where
  enqueues : Lsa → Event
  sends times_out starts terminates : Event
  acks : ℕ → Event

unfoldable pub step : Event → FloodMaster → FloodMaster
unfolding enqueue make_packet take_ack
step (enqueues l) m = enqueue l m
step sends m = elim m.snd_ctrl [ none ↦ m | some t ↦ (make_packet m).0 ]
step times_out m = elim m.ack_ctrl [
  | none ↦ m
  | some t ↦ record m { ack_ctrl = some ack_over_time }
]
step starts m = record (terminate_master m) { state = ready }
step terminates m = terminate_master m
step (acks seq) m = take_ack seq m

unfoldable pub run : List Event → FloodMaster → FloodMaster
unfolding step
run [] m = m
run (e ∷ es) m = run es (step e m)

-- Which timers are armed, and whether the queue may hold something, in each state.
abbrev pub StateOk : FloodState → FloodMaster → Type 0
StateOk ready m = (m.queue ≡ []) × (m.snd_ctrl ≡ none) × (m.ack_ctrl ≡ none)
StateOk busy m = (m.queue ≢ []) × (m.snd_ctrl ≢ none) × (m.ack_ctrl ≡ none)
StateOk ack_waiting m = (m.snd_ctrl ≡ none) × (m.ack_ctrl ≢ none) × (m.sendbuf.seq ≡ m.pkg_no)
StateOk terminated m = (m.queue ≡ []) × (m.snd_ctrl ≡ none) × (m.ack_ctrl ≡ none)

pub record IsValid (m : FloodMaster) : Type 0 where
  pub state_ok : StateOk m.state m
  pub room : length m.sendbuf.lsas ≤ lsa_ct_per_pak
  pub number : m.pkg_no < 2 ^ 32

pub pack_lem :
    (n : ℕ) (q : List Lsa) (len : ℕ)
    → ((pack n q len).lsas ≡ take n q) × ((pack n q len).rest ≡ drop n q)
unfolding pack
pack_lem zero q len = (refl, refl)
pack_lem (suc n) [] len = (refl, refl)
pack_lem (suc n) (l ∷ q) len = ground (arith, pack_lem n q ((len + sizeof_lsa) % 2 ^ 16))

length-pack-le : (n : ℕ) (q : List Lsa) (len : ℕ) → length (pack n q len).lsas ≤ n
unfolding pack
length-pack-le zero q len = omega arith
length-pack-le (suc n) [] len = omega arith
length-pack-le (suc n) (l ∷ q) len = omega (arith, length-pack-le n q ((len + sizeof_lsa) % 2 ^ 16))

new-IsValid : IsValid new_flood_master
new-IsValid = record { state_ok = (refl, refl, refl); room = omega arith; number = omega arith }

append-ne-nil : (q : List Lsa) (l : Lsa) → q ++ l ∷ [] ≢ []
append-ne-nil [] l e = cc
append-ne-nil (x ∷ q) l e = cc

enqueue-IsValid : (l : Lsa) (m : FloodMaster) → IsValid m → IsValid (enqueue l m)
unfolding enqueue
enqueue-IsValid l m v = ground (arith, append-ne-nil m.queue l)

make_packet-IsValid : (m : FloodMaster) → IsValid m → IsValid (make_packet m).0
unfolding make_packet
make_packet-IsValid m v = record {
  state_ok = (refl, λ e. cc, refl);
  room = length-pack-le lsa_ct_per_pak m.queue sizeof_flood;
  number = omega arith;
}

take_ack-IsValid : (seq : ℕ) (m : FloodMaster) → IsValid m → IsValid (take_ack seq m)
unfolding take_ack
take_ack-IsValid seq m v = ground arith

pub step-IsValid : (e : Event) (m : FloodMaster) → IsValid m → IsValid (step e m)
unfolding step
step-IsValid (enqueues l) m v = enqueue-IsValid l m v
step-IsValid sends m v = ground (arith, make_packet-IsValid m v)
step-IsValid times_out m v = ground arith
step-IsValid starts m v = ground arith
step-IsValid terminates m v = ground arith
step-IsValid (acks seq) m v = take_ack-IsValid seq m v

pub run-IsValid : (es : List Event) (m : FloodMaster) → IsValid m → IsValid (run es m)
unfolding run
run-IsValid [] m v = v
run-IsValid (e ∷ es) m v = run-IsValid es (step e m) (step-IsValid e m v)

-- From its allocation on, whatever happens, a flood master is in one of its four states with just
-- the timers of that state armed, its queue is empty unless it is sending or waiting, its last
-- packet has at most five advertisements, and while it waits the number of that packet is the one
-- that it waits for.
pub run-new-IsValid : (es : List Event) → IsValid (run es new_flood_master)
run-new-IsValid es = run-IsValid es new_flood_master new-IsValid
