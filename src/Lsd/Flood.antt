-- ===== src/Lsd/Flood.antt =====
-- Flooding: lsd/lsd_flood.c. Each interface has a queue of advertisements and sends up to five of
-- them at a time, waiting for the acknowledgement of each packet.
pub mod Invariant
pub mod Drain
use pma.Base.{
  ℕ, zero, suc, ◌+◌, ◌%◌, ◌^◌, ◌*◌, Option, none, some, List, [], ◌∷◌, ◌++◌, map, if◌then◌else◌,
  ◌==◌,
}
use pma.Base.Outcome.{Outcome, ok, crash}
use pma.Lsdb.{next_u32}
use pma.Lsd.{
  Lsa, FloodPkt, FloodType, FloodState, FloodMaster, Body, BackboneEth, Zone, Timer, lsd_send,
  sizeof_flood, sizeof_lsa, flood, ready, busy, ack_waiting,
}

-- LSA_CT_PER_PAK.
abbrev pub lsa_ct_per_pak : ℕ
lsa_ct_per_pak = 5

-- FLOOD_BUFFER_TIME.
abbrev pub flood_buffer_time : ℕ
flood_buffer_time = 100000

-- ACK_OVER_TIME of lsd/lsd_flood.h.
abbrev pub ack_over_time : ℕ
ack_over_time = 20 * 1000000

abbrev pub blank_flood : FloodPkt
blank_flood = record { type = FloodType.lsa; seq = 0; lsas = [] }

-- `malloc_z` of a flood master, put in its first state.
abbrev pub new_flood_master : FloodMaster
new_flood_master = record {
  queue = [];
  sendbuf = blank_flood;
  pkg_no = 0;
  state = FloodState.terminated;
  ack_ctrl = none;
  snd_ctrl = none;
}

-- The interface's own part; the first call also starts the periodic flood (Lsd/Periodic).
unfoldable pub flood_on_eth_state_changed : BackboneEth → BackboneEth
flood_on_eth_state_changed eth = elim eth.flood_master [
  | none ↦ record eth { flood_master = some new_flood_master }
  | some m ↦ eth
]

-- Through a NULL master the C code crashes.
abbrev pub with_flood : BackboneEth → (FloodMaster → Outcome BackboneEth) → Outcome BackboneEth
with_flood eth f = elim eth.flood_master [ none ↦ crash | some m ↦ f m ]

unfoldable pub flood_send_ack : Zone → ℕ → BackboneEth → BackboneEth
unfolding lsd_send
flood_send_ack z seq =
    lsd_send z sizeof_flood (flood (record { type = FloodType.ack; seq = seq; lsas = [] }))

-- The loop that moves advertisements from the queue into the packet, with the rounds that are left
-- of LSA_CT_PER_PAK: what goes into the packet, what stays, and the packet's length.
pub record Packed : Type 0 where
  pub lsas : List Lsa
  pub rest : List Lsa
  pub pklen : ℕ

unfoldable pub pack : ℕ → List Lsa → ℕ → Packed
pack zero queue len = record { lsas = []; rest = queue; pklen = len }
pack (suc n) [] len = record { lsas = []; rest = []; pklen = len }
pack (suc n) (l ∷ queue) len =
    let p = pack n queue ((len + sizeof_lsa) % 2 ^ 16) in
    record { lsas = l ∷ p.lsas; rest = p.rest; pklen = p.pklen }

-- The state of the master after a packet was made, and that packet.
unfoldable pub make_packet : FloodMaster → FloodMaster × ℕ
unfolding pack
make_packet m =
    let p = pack lsa_ct_per_pak m.queue sizeof_flood in
    let seq = next_u32 m.pkg_no in
    (
      record m {
        queue = p.rest;
        sendbuf = record { type = FloodType.lsa; seq = seq; lsas = p.lsas };
        pkg_no = seq;
        state = ack_waiting;
        ack_ctrl = some ack_over_time;
        snd_ctrl = none;
      },
      p.pklen,
    )

-- The timer `snd_ctrl` has fired.
unfoldable pub flood_send_lsa : Zone → BackboneEth → Outcome BackboneEth
unfolding make_packet lsd_send
flood_send_lsa z eth = with_flood eth λ m.
    let (m', len) = make_packet m in
    ok (lsd_send z len (flood m'.sendbuf) (record eth { flood_master = some m' }))

-- The length of the packet in a send buffer.
abbrev pub buffer_len : List Lsa → ℕ
buffer_len [] = sizeof_flood
buffer_len (l ∷ ls) = buffer_len ls + sizeof_lsa

-- The timer `ack_ctrl` has fired: the packet goes out again.
unfoldable pub flood_ack_timeout : Zone → BackboneEth → Outcome BackboneEth
unfolding lsd_send
flood_ack_timeout z eth = with_flood eth λ m. ok (
    lsd_send z (buffer_len m.sendbuf.lsas) (flood m.sendbuf)
      (record eth { flood_master = some (record m { ack_ctrl = some ack_over_time }) }))

-- What an acknowledgement with number `seq` does to the master.
unfoldable pub take_ack : ℕ → FloodMaster → FloodMaster
take_ack seq m = elim m.state [
  | FloodState.ack_waiting ↦
      if seq == m.pkg_no
      then elim m.queue [
        | [] ↦ record m { ack_ctrl = none; state = ready }
        | l ∷ rest ↦ record m { ack_ctrl = none; state = busy; snd_ctrl = some 0 }
      ]
      else m
  | _ ↦ m
]

unfoldable pub flood_ack_received : ℕ → BackboneEth → Outcome BackboneEth
unfolding take_ack
flood_ack_received seq eth =
    with_flood eth λ m. ok (record eth { flood_master = some (take_ack seq m) })

-- An advertisement joins the queue, and starts the sender if it is idle.
unfoldable pub enqueue : Lsa → FloodMaster → FloodMaster
enqueue l m = elim m.state [
  | FloodState.terminated ↦ m
  | FloodState.ready ↦ record m {
    queue = m.queue ++ l ∷ [];
    state = busy;
    snd_ctrl = some flood_buffer_time;
  }
  | _ ↦ record m { queue = m.queue ++ l ∷ [] }
]

unfoldable pub flood_add_flood_lsa : Lsa → BackboneEth → BackboneEth
unfolding enqueue
flood_add_flood_lsa l eth = elim eth.flood_master [
  | none ↦ eth
  | some m ↦ record eth { flood_master = some (enqueue l m) }
]

abbrev pub terminate_master : FloodMaster → FloodMaster
terminate_master m = record m {
  ack_ctrl = none;
  snd_ctrl = none;
  state = FloodState.terminated;
  queue = [];
}

unfoldable pub flood_terminate : BackboneEth → Outcome BackboneEth
flood_terminate eth =
    with_flood eth λ m. ok (record eth { flood_master = some (terminate_master m) })

-- `flood_terminate`, then READY.
unfoldable pub flood_start : BackboneEth → Outcome BackboneEth
flood_start eth =
    with_flood eth
      λ m. ok (record eth { flood_master = some (record (terminate_master m) { state = ready }) })

-- To every interface of the zone.
unfoldable pub flood_lsa_spread : Lsa → Zone → Zone
unfolding flood_add_flood_lsa
flood_lsa_spread l z = record z { backbones = map (flood_add_flood_lsa l) z.backbones }

-- To every interface but number `i`.
unfoldable pub forward : Lsa → ℕ → List BackboneEth → List BackboneEth
unfolding flood_add_flood_lsa
forward l i [] = []
forward l zero (e ∷ es) = e ∷ map (flood_add_flood_lsa l) es
forward l (suc i) (e ∷ es) = flood_add_flood_lsa l e ∷ forward l i es

unfoldable pub flood_lsa_forward : Lsa → ℕ → Zone → Zone
unfolding forward
flood_lsa_forward l i z = record z { backbones = forward l i z.backbones }
