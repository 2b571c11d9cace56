-- ===== src/Lsd/Receive.antt =====
-- What a received packet does: `lsd_receive` of lsd/lsd_socket.c, and the packet handlers of
-- lsd/lsd_flood.c, lsd/lsd_exchange.c and lsd/lsd_hello.c. Each handler looks at its own type of
-- packet only, so that the order in which they are called does not matter.
pub mod Checks
use pma.Base.{
  ℕ, zero, suc, ◌+◌, Bool, true, false, ◌&&◌, Option, none, some, List, [], ◌∷◌, if◌then◌else◌,
  ◌==◌, get_elem?, set,
}
use pma.Base.Outcome.{Outcome, ok, crash, ◌>>=◌}
use pma.Lsdb.{Timeval}
use pma.Lsd.{
  Packet, FloodPkt, FloodType, ExchangePkt, ExchangeType, EthState, BackboneEth, Zone, Body,
  connected, disconnected, lsd_version, lsd_checksum, hello_high, hello_low, exchange, flood,
}
use pma.Lsd.Flood.{flood_send_ack, flood_ack_received}
use pma.Lsd.Exchange.{take_links, accept_lsas, exchange_send_ack, exchange_ack_received}
use pma.Lsd.Hello.{take_high, take_low, dead_timer_high, dead_timer_low, with_hello}
use pma.Lsd.Handler.{on_eth, with_eth, hello_changed_handler, high_priority, low_priority, Priority}

-- The acknowledgement goes out before the advertisements are taken.
unfoldable pub flood_pkt_received : Timeval → ℕ → FloodPkt → Zone → Outcome Zone
unfolding flood_send_ack flood_ack_received accept_lsas
flood_pkt_received now i p z = elim p.type [
  | FloodType.ack ↦ on_eth i (λ _. flood_ack_received p.seq) z
  | FloodType.lsa ↦ on_eth i (λ z' e. ok (flood_send_ack z' p.seq e)) z >>= accept_lsas now i p.lsas
  | FloodType.other n ↦ ok z
]

unfoldable pub exchange_links_received : Timeval → ℕ → ExchangePkt → Zone → Outcome Zone
unfolding take_links accept_lsas exchange_send_ack
exchange_links_received now i p z = with_eth i z λ e. elim e.exchange_master [
  | none ↦ crash
  | some m ↦
      let (m', taken) = take_links p m in
      let keep = λ (z' : Zone) (e' : BackboneEth). ok (record e' { exchange_master = some m' }) in
      if taken
      then accept_lsas now i p.lsas z
        >>= on_eth i (λ z' e'. ok (exchange_send_ack z' p.seq e'))
        >>= on_eth i keep
      else on_eth i keep z
]

unfoldable pub exchange_pkt_received : Timeval → ℕ → ExchangePkt → Zone → Outcome Zone
unfolding exchange_links_received exchange_ack_received
exchange_pkt_received now i p z = elim p.type [
  | ExchangeType.ack ↦ on_eth i (λ z' e. exchange_ack_received z' p.seq e) z
  | _ ↦ exchange_links_received now i p z
]

abbrev pub report : Timeval → Timeval → ℕ → Priority → Bool → Zone → Outcome Zone
report now junk i p true z = hello_changed_handler now junk i p connected z
report now junk i p false z = ok z

-- A hello: a new connection is reported to `hello_changed_handler`.
unfoldable pub hello_on_high_packet_received : Timeval → Timeval → ℕ → Packet → Zone → Outcome Zone
unfolding take_high hello_changed_handler
hello_on_high_packet_received now junk i p z = with_eth i z λ e. with_hello e λ m.
    let (m', new) = take_high p.r_id p.if_id m in
    report now junk i high_priority new
      (record z { backbones = set z.backbones i (record e { hello_master = some m' }) })

unfoldable pub hello_on_low_packet_received : Timeval → Timeval → ℕ → Packet → Zone → Outcome Zone
unfolding take_low hello_changed_handler
hello_on_low_packet_received now junk i p z = with_eth i z λ e. with_hello e λ m.
    let (m', new) = take_low p.r_id p.if_id m in
    report now junk i low_priority new
      (record z { backbones = set z.backbones i (record e { hello_master = some m' }) })

-- A dead timer has fired: the lost connection is reported to `hello_changed_handler`.
unfoldable pub hello_high_lost : Timeval → Timeval → ℕ → Zone → Outcome Zone
unfolding dead_timer_high hello_changed_handler
hello_high_lost now junk i z = with_eth i z λ e. with_hello e λ m. dead_timer_high m >>= λ m'.
    hello_changed_handler now junk i high_priority disconnected
      (record z { backbones = set z.backbones i (record e { hello_master = some m' }) })

unfoldable pub hello_low_lost : Timeval → Timeval → ℕ → Zone → Outcome Zone
unfolding dead_timer_low hello_changed_handler
hello_low_lost now junk i z = with_eth i z λ e. with_hello e λ m. dead_timer_low m >>= λ m'.
    hello_changed_handler now junk i low_priority disconnected
      (record z { backbones = set z.backbones i (record e { hello_master = some m' }) })

-- The handlers that `lsd_init` registers, each for its type of packet.
unfoldable pub dispatch : Timeval → Timeval → ℕ → Packet → Zone → Outcome Zone
unfolding flood_pkt_received exchange_pkt_received hello_on_high_packet_received
    hello_on_low_packet_received
dispatch now junk i p z = elim p.body [
  | hello_high h ↦ hello_on_high_packet_received now junk i p z
  | hello_low h ↦ hello_on_low_packet_received now junk i p z
  | exchange x ↦ exchange_pkt_received now i x z
  | flood f ↦ flood_pkt_received now i f z
  | _ ↦ ok z
]

abbrev one_further : Option ℕ → Option ℕ
one_further none = none
one_further (some i) = some (suc i)

-- `get_backbone_by_neighbor_id`, by the interface's place.
unfoldable pub get_backbone_by_neighbor_id : ℕ → List BackboneEth → Option ℕ
get_backbone_by_neighbor_id id [] = none
get_backbone_by_neighbor_id id (e ∷ es) =
    if e.neighbor_device_id == id then some 0 else one_further (get_backbone_by_neighbor_id id es)

abbrev pub is_up : Option BackboneEth → Bool
is_up none = false
is_up (some e) = elim e.state [ EthState.up ↦ true | EthState.down ↦ false ]

-- The tests of `lsd_receive` within a zone: the interface that the packet is for, unless it is
-- refused with WR_FROMAT_ERR.
unfoldable pub admitted : Packet → Zone → Option ℕ
unfolding get_backbone_by_neighbor_id
admitted p z = elim (get_backbone_by_neighbor_id p.r_id z.backbones) [
  | none ↦ none
  | some i ↦
      if is_up (get_elem? z.backbones i) && (p.version == lsd_version && p.icsum == lsd_checksum)
      then some i
      else none
]

-- The first zone of the packet's area is the only one that is looked at.
unfoldable pub lsd_receive : Timeval → Timeval → Packet → List Zone → Outcome (List Zone)
unfolding admitted dispatch
lsd_receive now junk p [] = ok []
lsd_receive now junk p (z ∷ zs) =
    if z.az_id == p.area_id
    then elim (admitted p z) [
      | none ↦ ok (z ∷ zs)
      | some i ↦ dispatch now junk i p z >>= λ z'. ok (z' ∷ zs)
    ]
    else lsd_receive now junk p zs >>= λ zs'. ok (z ∷ zs')
