-- ===== src/Lsd/Handler/Steps.antt =====
-- The steps of the handler when a neighbour is met (lsd/lsd_exchange.c, lsd/lsd_flood.c).
use pma.Base.{
  ◌+◌, ◌≢◌, ◌==◌, false, ℕ, zero, suc, ◌≡◌, refl, some, List, [], ◌∷◌, map, get_elem?, set, arith,
}
use pma.Base.Outcome.{Outcome, ok}
use pma.Lsdb.{LinkState}
use pma.Lsdb.Traverse.{cr_lsdb_get_links_state}
use pma.Lsd.{
  BackboneEth, Zone, ExchangeMaster, ExchangePkt, ExchangeType, FloodMaster, SendState, ready,
  lsd_send, stamp, exchange, sizeof_exchange, sizeof_lsa,
}
use pma.Lsd.Accept.{lsdb_to_lsa_info}
use pma.Lsd.Flood.{flood_start, terminate_master}
use pma.Lsd.Exchange.{
  exchange_send_start, exchange_send, make_packet, pack, has_more, ack_over_time,
}
use pma.Lsd.Handler.{on_eth}

pub get_set :
    (xs : List BackboneEth) (i : ℕ) (x v : BackboneEth)
    → get_elem? xs i ≡ some x
    → get_elem? (set xs i v) i ≡ some v
get_set [] i x v h = cc
get_set (y ∷ ys) zero x v h = refl
get_set (y ∷ ys) (suc i) x v h = get_set ys i x v h

pub get_map :
    (f : BackboneEth → BackboneEth) (xs : List BackboneEth) (i : ℕ) (x : BackboneEth)
    → get_elem? xs i ≡ some x
    → get_elem? (map f xs) i ≡ some (f x)
get_map f [] i x h = cc
get_map f (y ∷ ys) zero x h = cc
get_map f (y ∷ ys) (suc i) x h = get_map f ys i x h

-- The first packet of an exchange, with the first entry, and the master when it has gone out.
abbrev pub first_packet : LinkState → List LinkState → ExchangeMaster → ExchangePkt
first_packet first rest x = record {
  type = ExchangeType.links_state;
  more = has_more rest;
  seq = x.pkg_no;
  lsas = lsdb_to_lsa_info first ∷ [];
}

abbrev pub sent_first : LinkState → List LinkState → ExchangeMaster → ExchangeMaster
sent_first first rest x = record x {
  send_state = SendState.waiting;
  links_state = rest;
  sendbuf = first_packet first rest x;
  ack_ctrl = some ack_over_time;
}

-- The start of the exchange, to a neighbour whose agent is known.
pub started :
    (z : Zone) (e : BackboneEth) (x : ExchangeMaster) (first : LinkState) (rest : List LinkState)
    → e.exchange_master ≡ some x
    → x.send_state ≡ SendState.terminated
    → e.neighbor_device_id ≢ 0
    → e.neighbor_ctl_addr ≢ 0
    → (cr_lsdb_get_links_state z.lsdb).1 ≡ first ∷ rest
    → exchange_send_start z e
      ≡ ok (record e {
        exchange_master = some (sent_first first rest x);
        sent =
            stamp z e (sizeof_exchange + sizeof_lsa) (exchange (first_packet first rest x))
            ∷ e.sent;
      })
unfolding exchange_send_start exchange_send make_packet lsd_send pack
started z e x first rest h t known addr all =
    let k : (e.neighbor_device_id == 0) ≡ false = ground arith in
    let a : (e.neighbor_ctl_addr == 0) ≡ false = ground arith in rw (h, t, all, k, a) refl

pub flooding :
    (e : BackboneEth) (f : FloodMaster)
    → e.flood_master ≡ some f
    → flood_start e
      ≡ ok (record e { flood_master = some (record (terminate_master f) { state = ready }) })
unfolding flood_start
flooding e f h = ground arith

pub on_eth_lem :
    (i : ℕ) (g : Zone → BackboneEth → Outcome BackboneEth) (z : Zone) (e e' : BackboneEth)
    → get_elem? z.backbones i ≡ some e
    → g z e ≡ ok e'
    → on_eth i g z ≡ ok (record z { backbones = set z.backbones i e' })
on_eth_lem i g z e e' h r = ground arith
