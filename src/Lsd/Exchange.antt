-- ===== src/Lsd/Exchange.antt =====
-- The exchange of databases with a new neighbour: lsd/lsd_exchange.c. One entry goes into each
-- packet, and the next packet waits for the acknowledgement of the last. No handler is ever
-- registered for the end of an exchange (lsd/lsdsrv.c), so there is none here.
pub mod Transfer
pub mod Stuck
use pma.Base.{
  ℕ, zero, suc, ◌+◌, ◌%◌, ◌^◌, Bool, true, false, Option, none, some, List, [], ◌∷◌, map,
  if◌then◌else◌, ◌==◌,
}
use pma.Base.Outcome.{Outcome, ok, crash, ◌>>=◌}
use pma.Lsdb.{LinkState, Timeval, next_u32}
use pma.Lsdb.Traverse.{cr_lsdb_get_links_state}
use pma.Lsd.{
  Lsa, ExchangePkt, ExchangeType, ExchangeMaster, SendState, RcvState, BackboneEth, Zone, Body,
  lsd_send, sizeof_exchange, sizeof_lsa, exchange,
}
use pma.Lsd.Accept.{lsdb_to_lsa_info, accept_lsa_into_lsdb}

-- LINK_LSA_CT_PER_PAK and ACK_OVER_TIME of lsd/lsd_exchange.h.
abbrev pub link_lsa_ct_per_pak : ℕ
link_lsa_ct_per_pak = 1

abbrev pub ack_over_time : ℕ
ack_over_time = 20000

-- `malloc_z` of an exchange master, put in its first state.
abbrev pub new_exchange_master : ExchangeMaster
new_exchange_master = record {
  send_state = SendState.terminated;
  rcv_state = RcvState.waiting;
  links_state = [];
  pkg_no = 0;
  sendbuf = record { type = ExchangeType.links_state; more = false; seq = 0; lsas = [] };
  ack_ctrl = none;
  rcv_ctrl = none;
  retry_times = 0;
}

unfoldable pub exchange_on_eth_state_changed : BackboneEth → BackboneEth
exchange_on_eth_state_changed eth = elim eth.exchange_master [
  | none ↦ record eth { exchange_master = some new_exchange_master }
  | some m ↦ eth
]

-- Every function asserts that the master is there.
abbrev pub with_exchange :
    BackboneEth → (ExchangeMaster → Outcome BackboneEth) → Outcome BackboneEth
with_exchange eth f = elim eth.exchange_master [ none ↦ crash | some m ↦ f m ]

-- The loop that moves entries into the packet, with the rounds left of LINK_LSA_CT_PER_PAK.
pub record Packed : Type 0 where
  pub lsas : List Lsa
  pub rest : List LinkState
  pub pklen : ℕ

unfoldable pub pack : ℕ → List LinkState → ℕ → Packed
unfolding lsdb_to_lsa_info
pack zero ls len = record { lsas = []; rest = ls; pklen = len }
pack (suc n) [] len = record { lsas = []; rest = []; pklen = len }
pack (suc n) (s ∷ ls) len =
    let p = pack n ls ((len + sizeof_lsa) % 2 ^ 16) in
    record { lsas = lsdb_to_lsa_info s ∷ p.lsas; rest = p.rest; pklen = p.pklen }

abbrev pub type_of : List Lsa → ExchangeType
type_of [] = ExchangeType.no_data
type_of (l ∷ ls) = ExchangeType.links_state

abbrev pub has_more : List LinkState → Bool
has_more [] = false
has_more (s ∷ ls) = true

-- `exchange_send`: the master with the next packet in its buffer, and the packet's length.
unfoldable pub make_packet : ExchangeMaster → ExchangeMaster × ℕ
unfolding pack
make_packet m =
    let p = pack link_lsa_ct_per_pak m.links_state sizeof_exchange in
    (
      record m {
        links_state = p.rest;
        sendbuf = record {
          type = type_of p.lsas;
          more = has_more p.rest;
          seq = m.pkg_no;
          lsas = p.lsas;
        };
        send_state = SendState.waiting;
        ack_ctrl = some ack_over_time;
      },
      p.pklen,
    )

unfoldable pub exchange_send : Zone → BackboneEth → ExchangeMaster → BackboneEth
unfolding make_packet lsd_send
exchange_send z eth m =
    let (m', len) = make_packet m in
    lsd_send z len (exchange m'.sendbuf) (record eth { exchange_master = some m' })

-- It asserts that no exchange is going on, and takes a copy of the whole database.
unfoldable pub exchange_send_start : Zone → BackboneEth → Outcome BackboneEth
unfolding exchange_send cr_lsdb_get_links_state
exchange_send_start z eth = with_exchange eth λ m. elim m.send_state [
  | SendState.terminated ↦ ok (
      exchange_send z eth (record m {
        send_state = SendState.waiting;
        links_state = (cr_lsdb_get_links_state z.lsdb).1;
      }))
  | _ ↦ crash
]

unfoldable pub exchange_terminate : BackboneEth → Outcome BackboneEth
exchange_terminate eth = with_exchange eth λ m. ok (record eth {
  exchange_master = some (record m {
    links_state = [];
    ack_ctrl = none;
    rcv_ctrl = none;
    retry_times = 0;
    pkg_no = 0;
    send_state = SendState.terminated;
    rcv_state = RcvState.terminated;
  });
})

abbrev pub buffer_len : List Lsa → ℕ
buffer_len [] = sizeof_exchange
buffer_len (l ∷ ls) = buffer_len ls + sizeof_lsa

-- The timer `ack_ctrl` has fired: the packet goes out again.
unfoldable pub ack_time_excceed : Zone → BackboneEth → Outcome BackboneEth
unfolding lsd_send
ack_time_excceed z eth = with_exchange eth λ m. elim m.send_state [
  | SendState.waiting ↦ ok (
      lsd_send z (buffer_len m.sendbuf.lsas) (exchange m.sendbuf)
        (record eth { exchange_master = some (record m { ack_ctrl = some ack_over_time }) }))
  | _ ↦ crash
]

-- `ex_ack_received`: the master, and whether the next packet goes out.
unfoldable pub take_ack : ℕ → ExchangeMaster → ExchangeMaster × Bool
unfolding make_packet
take_ack seq m =
    if seq == m.pkg_no
    then elim m.links_state [
      | [] ↦ (record m { ack_ctrl = none; retry_times = 0; send_state = SendState.end }, false)
      | s ∷ ls ↦ (
        (make_packet (record m { ack_ctrl = none; retry_times = 0; pkg_no = next_u32 m.pkg_no })).0,
        true,
      )
    ]
    else (m, false)

-- An acknowledgement counts only while one is waited for.
unfoldable pub exchange_ack_received : Zone → ℕ → BackboneEth → Outcome BackboneEth
unfolding take_ack lsd_send
exchange_ack_received z seq eth = with_exchange eth λ m. elim m.send_state [
  | SendState.waiting ↦
      let (m', again) = take_ack seq m in
      let eth' = record eth { exchange_master = some m' } in
      ok
        (if again then lsd_send z (buffer_len m'.sendbuf.lsas) (exchange m'.sendbuf) eth' else eth')
  | _ ↦ ok eth
]

-- A packet that is no acknowledgement: the receiver's state, and whether its advertisements are
-- taken and the packet is acknowledged.
abbrev revived : RcvState → RcvState
revived RcvState.terminated = RcvState.waiting
revived r = r

unfoldable pub take_links : ExchangePkt → ExchangeMaster → ExchangeMaster × Bool
take_links p m = elim (revived m.rcv_state) [
  | RcvState.waiting ↦ elim p.type [
    | ExchangeType.links_state ↦ (
      record m { rcv_ctrl = none; rcv_state = if p.more then RcvState.waiting else RcvState.end },
      true,
    )
    | _ ↦ (record m { rcv_state = RcvState.waiting }, false)
  ]
  | r ↦ (record m { rcv_state = r }, false)
]

unfoldable pub exchange_send_ack : Zone → ℕ → BackboneEth → BackboneEth
unfolding lsd_send
exchange_send_ack z seq =
    lsd_send z sizeof_exchange
      (exchange (record { type = ExchangeType.ack; more = false; seq = seq; lsas = [] }))

-- The loop of `link_lsa_received`, and of `flood_pkt_received`.
unfoldable pub accept_lsas : Timeval → ℕ → List Lsa → Zone → Outcome Zone
unfolding accept_lsa_into_lsdb
accept_lsas now i [] z = ok z
accept_lsas now i (l ∷ ls) z = accept_lsa_into_lsdb now i l z >>= accept_lsas now i ls
