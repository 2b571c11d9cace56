-- ===== src/Lsd/Handler.antt =====
-- What a change of a neighbour's detection does to the database and the other protocols:
-- lsd/lsd_handler.c, and `flood_spread_backbone_link_state` of lsd/lsd_flood.c.
pub mod Sequence
pub mod Steps
pub mod Connect
use pma.Base.{
  ℕ, zero, suc, ◌+◌, ◌*◌, ◌/◌, ◌%◌, ◌^◌, Bool, true, false, Option, none, some, List, [], ◌∷◌,
  if◌then◌else◌, ◌==◌, get_elem?, set,
}
use pma.Base.Outcome.{Outcome, ok, crash, ◌>>=◌}
use pma.Lsdb.{
  Lsdb, Timeval, LinkStateKey, LinkState, next_u32, cr_lsdb_link_state_find, cr_lsdb_link_state_add,
  cr_lsdb_link_state_update,
}
use pma.Lsd.{BackboneEth, Zone, NeighborInfo, LsdStatus, connected, disconnected}
use pma.Lsd.Accept.{with_lsdb, lsdb_to_lsa_info}
use pma.Lsd.Flood.{flood_lsa_spread, flood_start, flood_terminate}
use pma.Lsd.Exchange.{exchange_send_start, exchange_terminate}
use pma.Lsd.Hello.{hello_get_neighbor_info}

pub data Priority : Type 0 where
  high_priority low_priority : Priority

-- The bits of `union state_changer`: `hello_low` is bit 0 and `hello_high` is bit 1.
abbrev pub bit : LsdStatus → ℕ
bit connected = 1
bit disconnected = 0

unfoldable pub set_hello_low : LsdStatus → ℕ → ℕ
set_hello_low s d = d / 2 * 2 + bit s

unfoldable pub set_hello_high : LsdStatus → ℕ → ℕ
set_hello_high s d = d / 4 * 4 + bit s * 2 + d % 2

-- An interface that the zone does not have is no place that a handler is called for.
abbrev pub with_eth : ℕ → Zone → (BackboneEth → Outcome Zone) → Outcome Zone
with_eth i z f = elim (get_elem? z.backbones i) [ none ↦ crash | some e ↦ f e ]

-- A function on interface number `i`.
abbrev pub on_eth : ℕ → (Zone → BackboneEth → Outcome BackboneEth) → Zone → Outcome Zone
on_eth i f z = with_eth i z λ e. f z e >>= λ e'. ok (record z { backbones = set z.backbones i e' })

abbrev pub link_key : Zone → BackboneEth → NeighborInfo → LinkStateKey
link_key z e n = record {
  rt_id = z.device_id;
  if_id = e.ifid;
  n_rt_id = n.rt_id;
  n_if_id = n.if_id;
}

-- The entry is written with the new state and the next number, and goes to every interface. The
-- age of an entry that is added is memory that was never set, `junk`.
unfoldable pub spread_link : Timeval → BackboneEth → LinkStateKey → ℕ → Zone → Outcome Zone
unfolding flood_lsa_spread lsdb_to_lsa_info
spread_link junk e key state z = elim (cr_lsdb_link_state_find key z.lsdb) [
  | some old ↦
      let s : LinkState = record old { state = state; seq = next_u32 old.seq } in
      with_lsdb z (cr_lsdb_link_state_update s z.lsdb)
      >>= (λ z'. ok (flood_lsa_spread (lsdb_to_lsa_info s) z'))
  | none ↦
      let s : LinkState = record {
        key = key;
        addr = e.addr;
        metric = e.cost;
        state = state;
        seq = 1;
        age = junk;
      } in
      with_lsdb z (cr_lsdb_link_state_add s z.lsdb)
      >>= (λ z'. ok (flood_lsa_spread (lsdb_to_lsa_info s) z'))
]

-- A neighbour with number 0 fails an assert.
unfoldable pub flood_spread_backbone_link_state : Timeval → ℕ → ℕ → Zone → Outcome Zone
unfolding spread_link hello_get_neighbor_info
flood_spread_backbone_link_state junk i state z = with_eth i z λ e.
    hello_get_neighbor_info e >>= λ n.
    if n.rt_id == 0 then crash else spread_link junk e (link_key z e n) state z

-- What a change of the high priority does after the entry is written.
unfoldable pub high_changed : Timeval → ℕ → LsdStatus → ℕ → Zone → Outcome Zone
unfolding exchange_send_start flood_start flood_spread_backbone_link_state exchange_terminate
    flood_terminate
high_changed junk i connected state z =
    on_eth i exchange_send_start z
    >>= on_eth i (λ _. flood_start)
    >>= flood_spread_backbone_link_state junk i state
high_changed junk i disconnected state z =
    on_eth i (λ _. exchange_terminate) z
    >>= flood_spread_backbone_link_state junk i state
    >>= on_eth i (λ _. flood_terminate)

-- The entry that the handler makes of the interface.
abbrev pub made : Timeval → BackboneEth → LinkStateKey → ℕ → ℕ → LinkState
made now e key state seq = record {
  key = key;
  addr = e.addr;
  metric = e.cost;
  state = state;
  seq = seq;
  age = now;
}

unfoldable pub hello_changed_high : Timeval → Timeval → ℕ → LsdStatus → Zone → Outcome Zone
unfolding high_changed set_hello_high hello_get_neighbor_info
hello_changed_high now junk i status z = with_eth i z λ e. hello_get_neighbor_info e >>= λ n.
    let key = link_key z e n in
    elim (cr_lsdb_link_state_find key z.lsdb) [
      | none ↦
          let state = 2 * bit status in
          with_lsdb z (cr_lsdb_link_state_add (made now e key state 0) z.lsdb)
          >>= high_changed junk i status state
      | some old ↦
          let state = set_hello_high status old.state in
          with_lsdb z (cr_lsdb_link_state_update (made now e key state old.seq) z.lsdb)
          >>= high_changed junk i status state
    ]

-- Here the entry is spread before it is written, except where it is new.
unfoldable pub hello_changed_low : Timeval → Timeval → ℕ → LsdStatus → Zone → Outcome Zone
unfolding flood_spread_backbone_link_state set_hello_low hello_get_neighbor_info
hello_changed_low now junk i status z = with_eth i z λ e. hello_get_neighbor_info e >>= λ n.
    let key = link_key z e n in
    elim (cr_lsdb_link_state_find key z.lsdb) [
      | none ↦
          let state = bit status in
          with_lsdb z (cr_lsdb_link_state_add (made now e key state 0) z.lsdb)
          >>= flood_spread_backbone_link_state junk i state
      | some old ↦
          let state = set_hello_low status old.state in
          flood_spread_backbone_link_state junk i state z >>= λ z'.
          with_lsdb z' (cr_lsdb_link_state_update (made now e key state old.seq) z'.lsdb)
    ]

-- At time `now`, for interface number `i`.
unfoldable pub hello_changed_handler :
    Timeval → Timeval → ℕ → Priority → LsdStatus → Zone → Outcome Zone
unfolding hello_changed_high hello_changed_low
hello_changed_handler now junk i high_priority = hello_changed_high now junk i
hello_changed_handler now junk i low_priority = hello_changed_low now junk i
