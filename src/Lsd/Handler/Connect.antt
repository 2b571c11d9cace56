-- ===== src/Lsd/Handler/Connect.antt =====
-- A neighbour that is met on an idle interface (lsd/lsd_handler.c).
use pma.Base.{List, if◌then◌else◌, ◌+◌, ℕ, ◌≡◌, ◌≢◌, Option, none, some, [], ◌∷◌, get_elem?}
use pma.Lsdb.{
  Lsdb, Timeval, LinkStateKey, LinkState, next_u32, cr_lsdb_link_state_find, is_keys_equals,
}
use pma.Lsdb.Traverse.{cr_lsdb_get_links_state}
use pma.Lsdb.Invariant.{IsValid}
use pma.Lsd.{
  BackboneEth, Zone, HelloMaster, ExchangeMaster, FloodMaster, SendState, connected, busy, stamp,
  sizeof_exchange, sizeof_lsa, exchange,
}
use pma.Lsd.Accept.{lsdb_to_lsa_info}
use pma.Lsd.Handler.{set_hello_high, made}
use pma.Lsd.Handler.Steps.{first_packet, sent_first}

-- An idle interface whose neighbour has just been met.
pub record IsIdle (i : ℕ) (e : BackboneEth) (m : HelloMaster) (x : ExchangeMaster) (f : FloodMaster)
    (z : Zone) : Type 0 where
  pub eth : get_elem? z.backbones i ≡ some e
  pub hello : e.hello_master ≡ some m
  pub exchange : e.exchange_master ≡ some x
  pub flood : e.flood_master ≡ some f
  pub neighbor : m.neighbor.rt_id ≢ 0
  pub known : e.neighbor_device_id ≢ 0
  pub addr : e.neighbor_ctl_addr ≢ 0
  pub agent : z.device_id ≢ 0
  pub idle : x.send_state ≡ SendState.terminated
  pub valid : IsValid z.lsdb

-- The entry that is advertised, after one that the database holds or not.
abbrev pub next_entry : Timeval → BackboneEth → LinkStateKey → Option LinkState → LinkState
next_entry now e k none = made now e k 2 1
next_entry now e k (some old) = made now e k (set_hello_high connected old.state) (next_u32 old.seq)

-- The entry as it is written first, with the number of before.
abbrev pub written_entry : Timeval → BackboneEth → LinkStateKey → Option LinkState → LinkState
written_entry now e k none = made now e k 2 0
written_entry now e k (some old) = made now e k (set_hello_high connected old.state) old.seq

-- What the handler leaves behind: the database `before` the advertisement, the packet with the first
-- entry of that database, which went out in front of what was sent, and the rest that is still to go;
-- the entry with its next number, and the flooding that is busy with it.
pub record IsConnected (i : ℕ) (k : LinkStateKey) (e : BackboneEth) (x : ExchangeMaster)
    (w s : LinkState) (z z' : Zone) : Type 0 where
  pub before : Lsdb
  pub written :
      (j : LinkStateKey)
      → cr_lsdb_link_state_find j before
        ≡ (if is_keys_equals w.key j then some w else cr_lsdb_link_state_find j z.lsdb)
  pub first : LinkState
  pub rest : List LinkState
  pub copied : (cr_lsdb_get_links_state before).1 ≡ first ∷ rest
  pub valid : IsValid z'.lsdb
  pub entry : cr_lsdb_link_state_find k z'.lsdb ≡ some s
  pub eth : BackboneEth
  pub eth_there : get_elem? z'.backbones i ≡ some eth
  pub exchange_there : eth.exchange_master ≡ some (sent_first first rest x)
  pub sent :
      eth.sent
      ≡ stamp z e (sizeof_exchange + sizeof_lsa) (exchange (first_packet first rest x)) ∷ e.sent
  pub flood : FloodMaster
  pub flood_there : eth.flood_master ≡ some flood
  pub sends : flood.state ≡ busy
  pub queued : flood.queue ≡ lsdb_to_lsa_info s ∷ []
