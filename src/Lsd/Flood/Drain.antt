-- ===== src/Lsd/Flood/Drain.antt =====
-- Where every advertisement that is flooded goes, and that an acknowledged sender empties its queue
-- (lsd/lsd_flood.c).
use pma.Base.{
  ℕ, zero, suc, ◌+◌, ◌*◌, ◌≤◌, ◌≡◌, refl, sym, ◌∙◌, ap, ◌≢◌, none, List, [], ◌∷◌, ◌++◌, arith,
  length, drop, if◌then◌else◌, ◌==◌, take-append-drop, eqb_refl, ◌⊎◌, inl, inr,
}
use mathlib.Core.Path.{◌≡⟨◌⟩◌, ◌∎}
use mathlib.Core.List.{append_assoc, append-nil}
use pma.Lsd.{Lsa, FloodMaster, FloodState, ready, busy, ack_waiting, sizeof_flood}
use pma.Lsd.Flood.{make_packet, take_ack, enqueue, lsa_ct_per_pak}
use pma.Lsd.Flood.Invariant.{
  Event, enqueues, sends, times_out, starts, terminates, acks, step, run, IsValid, pack_lem,
  step-IsValid, run-IsValid,
}

-- What is still to be acknowledged: the packet that waits, then the queue.
abbrev in_flight : FloodState → FloodMaster → List Lsa
in_flight ack_waiting m = m.sendbuf.lsas
in_flight _ m = []

abbrev pub pending : FloodMaster → List Lsa
pending m = in_flight m.state m ++ m.queue

-- What an event floods, and what it takes away: the acknowledged packet, everything at the start and
-- end of the neighbourship, and an advertisement that is flooded while there is none.
abbrev pub flooded : Event → List Lsa
flooded (enqueues l) = l ∷ []
flooded _ = []

abbrev pub released : Event → FloodMaster → List Lsa
released (enqueues l) m = elim m.state [ FloodState.terminated ↦ l ∷ [] | _ ↦ [] ]
released (acks seq) m = if seq == m.pkg_no then in_flight m.state m else []
released starts m = pending m
released terminates m = pending m
released _ m = []

make_packet-pending : (m : FloodMaster) → m.state ≡ busy → pending (make_packet m).0 ≡ pending m
unfolding make_packet
make_packet-pending m b =
    rw
      (
        b,
        (pack_lem lsa_ct_per_pak m.queue sizeof_flood).0,
        (pack_lem lsa_ct_per_pak m.queue sizeof_flood).1,
      )
      (take-append-drop lsa_ct_per_pak m.queue)

sends-pending : (m : FloodMaster) → IsValid m → pending (step sends m) ≡ pending m
unfolding step
sends-pending m v = ground (arith, make_packet-pending m)

-- Each event accounts for every advertisement, in order: what leaves comes from the front, and
-- what is new joins at the end.
pub step-pending :
    (e : Event) (m : FloodMaster)
    → IsValid m
    → released e m ++ pending (step e m) ≡ pending m ++ flooded e
unfolding step enqueue take_ack
step-pending (enqueues l) m v =
    ground (arith, append-nil m.queue, append_assoc m.sendbuf.lsas m.queue (l ∷ []))
step-pending sends m v = sends-pending m v ∙ sym (append-nil _)
step-pending times_out m v = ground (arith, append-nil (pending m))
step-pending starts m v = ground (arith, append-nil (pending m))
step-pending terminates m v = ground (arith, append-nil (pending m))
step-pending (acks seq) m v =
    ground (arith, append-nil m.queue, append-nil (pending m), append-nil m.sendbuf.lsas)

abbrev pub all_flooded : List Event → List Lsa
all_flooded [] = []
all_flooded (e ∷ es) = flooded e ++ all_flooded es

abbrev pub all_released : List Event → FloodMaster → List Lsa
all_released [] m = []
all_released (e ∷ es) m = released e m ++ all_released es (step e m)

-- From a state in which the invariant of a master holds, over any sequence of events: what left it,
-- acknowledged, dropped with the start or end of the neighbourship, or refused because it was flooded
-- while there was none, followed by what is still pending, is what was pending at first, followed by
-- everything that was flooded, each advertisement once and in order.
pub run-pending :
    (es : List Event) (m : FloodMaster)
    → IsValid m
    → all_released es m ++ pending (run es m) ≡ pending m ++ all_flooded es
unfolding run
run-pending [] m v = sym (append-nil _)
run-pending (e ∷ es) m v =
    (released e m ++ all_released es (step e m)) ++ pending (run es (step e m))
    ≡⟨ append_assoc (released e m) _ _ ⟩
      released e m ++ (all_released es (step e m) ++ pending (run es (step e m)))
    ≡⟨ ap (λ l. released e m ++ l) (run-pending es (step e m) (step-IsValid e m v)) ⟩
      released e m ++ (pending (step e m) ++ all_flooded es)
    ≡⟨ sym (append_assoc (released e m) _ _) ⟩
      (released e m ++ pending (step e m)) ++ all_flooded es
    ≡⟨ ap (λ l. l ++ all_flooded es) (step-pending e m v) ⟩
      (pending m ++ flooded e) ++ all_flooded es
    ≡⟨ append_assoc (pending m) _ _ ⟩ pending m ++ (flooded e ++ all_flooded es) ∎

-- One packet, sent and acknowledged.
abbrev pub packet_acked : FloodMaster → List Event
packet_acked m = sends ∷ acks (step sends m).pkg_no ∷ []

abbrev next_state : List Lsa → FloodState
next_state [] = ready
next_state (l ∷ q) = busy

round :
    (m : FloodMaster)
    → m.state ≡ busy
    → m.snd_ctrl ≢ none
    → ((run (packet_acked m) m).queue ≡ drop lsa_ct_per_pak m.queue)
      × ((run (packet_acked m) m).state ≡ next_state (drop lsa_ct_per_pak m.queue))
unfolding run step make_packet take_ack
round m b h =
    ground (arith, pack_lem lsa_ct_per_pak m.queue sizeof_flood, eqb_refl (make_packet m).0.pkg_no)

-- A neighbour that acknowledges each packet, for `n` packets or until the queue is empty.
unfoldable pub acked : ℕ → FloodMaster → List Event
acked zero m = []
acked (suc n) m = elim m.state [
  | FloodState.busy ↦ packet_acked m ++ acked n (run (packet_acked m) m)
  | _ ↦ []
]

run-append : (es fs : List Event) (m : FloodMaster) → run (es ++ fs) m ≡ run fs (run es m)
unfolding run
run-append [] fs m = refl
run-append (e ∷ es) fs m = run-append es fs (step e m)

acked-ready : (n : ℕ) (m : FloodMaster) → m.state ≡ ready → acked n m ≡ []
unfolding acked
acked-ready zero m e = refl
acked-ready (suc n) m e = ground arith

ready-settled : (n : ℕ) (m : FloodMaster) → m.state ≡ ready → (run (acked n m) m).state ≡ ready
unfolding run
ready-settled n m e = rw (acked-ready n m e) e

acked-busy :
    (n : ℕ) (m : FloodMaster)
    → m.state ≡ busy
    → acked (suc n) m ≡ packet_acked m ++ acked n (run (packet_acked m) m)
unfolding acked
acked-busy n m e = ground arith

length-drop-le : (n k : ℕ) (q : List Lsa) → length q ≤ k + n → length (drop n q) ≤ k
length-drop-le zero k q h = omega arith
length-drop-le (suc n) k [] h = omega arith
length-drop-le (suc n) k (l ∷ q) h = length-drop-le n k q (omega arith)

packet-IsValid : (m : FloodMaster) → IsValid m → IsValid (run (packet_acked m) m)
packet-IsValid m v = run-IsValid (packet_acked m) m v

idle : (m : FloodMaster) → IsValid m → m.state ≡ busy → length m.queue ≡ 0 → ⊥
idle m v b e = grind arith

sends_armed : (m : FloodMaster) → IsValid m → m.state ≡ busy → m.snd_ctrl ≢ none
sends_armed m v b = ground arith

rest_cases : (q : List Lsa) → (q ≡ []) ⊎ ((l : Lsa) × (r : List Lsa) × (q ≡ l ∷ r))
rest_cases [] = inl refl
rest_cases (l ∷ r) = inr (l, r, refl)

-- One round, by whether it leaves something in the queue.
after_round :
    (n : ℕ) (m : FloodMaster)
    → IsValid m
    → m.state ≡ busy
    → length m.queue ≤ lsa_ct_per_pak * suc n
    → ((run (packet_acked m) m).state ≡ ready)
      ⊎ (((run (packet_acked m) m).state ≡ busy)
          × (length (run (packet_acked m) m).queue ≤ lsa_ct_per_pak * n))
after_round n m v b h =
    let facts = round m b (sends_armed m v b) in
    elim (rest_cases (drop lsa_ct_per_pak m.queue)) [
      | inl e ↦ inl (facts.1 ∙ ap next_state e)
      | inr (l, r, e) ↦ inr (
        facts.1 ∙ ap next_state e,
        omega (
          arith,
          length-drop-le lsa_ct_per_pak (lsa_ct_per_pak * n) m.queue (omega arith),
          ap length facts.0,
        ),
      )
    ]

settles :
    (n : ℕ) (m : FloodMaster)
    → IsValid m
    → m.state ≡ busy
    → length m.queue ≤ lsa_ct_per_pak * n
    → (run (acked n m) m).state ≡ ready
settles zero m v b h = absurd (idle m v b (omega arith))
settles (suc n) m v b h =
    rw (acked-busy n m b, run-append (packet_acked m))
      (elim (after_round n m v b h) [
        | inl r ↦ ready-settled n (run (packet_acked m) m) r
        | inr (b', h') ↦ settles n (run (packet_acked m) m) (packet-IsValid m v) b' h'
      ])

-- An acknowledging neighbour adds nothing to the queue.
all_flooded-acked : (n : ℕ) (m : FloodMaster) → all_flooded (acked n m) ≡ []
unfolding acked run
all_flooded-acked zero m = refl
all_flooded-acked (suc n) m = ground (arith, all_flooded-acked n (run (packet_acked m) m))

pending-ready : (m : FloodMaster) → IsValid m → m.state ≡ ready → (m.queue ≡ []) × (pending m ≡ [])
pending-ready m v r = ground arith

pending-busy : (m : FloodMaster) → m.state ≡ busy → pending m ≡ m.queue
pending-busy m b = ground arith

-- A sender that is BUSY with at most `5 * n` advertisements queued, and whose neighbour acknowledges
-- every packet, is READY with an empty queue after at most `n` packets, and has had exactly its
-- queue acknowledged, in order.
pub drain_lem :
    (n : ℕ) (m : FloodMaster)
    → IsValid m
    → m.state ≡ busy
    → length m.queue ≤ lsa_ct_per_pak * n
    → ((run (acked n m) m).state ≡ ready)
      × ((run (acked n m) m).queue ≡ [])
      × (all_released (acked n m) m ≡ m.queue)
drain_lem n m v b h =
    let r = settles n m v b h in
    let (emptied, none_left) = pending-ready (run (acked n m) m) (run-IsValid (acked n m) m v) r in
    (
      r,
      emptied,
      sym (append-nil _)
          ∙ ap (λ l. all_released (acked n m) m ++ l) (sym none_left)
          ∙ run-pending (acked n m) m v
          ∙ ap (λ l. pending m ++ l) (all_flooded-acked n m)
          ∙ append-nil _
          ∙ pending-busy m b,
    )
