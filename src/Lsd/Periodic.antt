-- ===== src/Lsd/Periodic.antt =====
-- The links of this router: `ace_up_handler` of lsd/lsd_handler.c, which enters an access link in
-- every zone, and the periodic flood of lsd/lsd_flood.c.
pub mod Entries
pub mod Access
mod Tests
use pma.Base.{ℕ, Bool, Option, none, some, List, [], ◌∷◌, if◌then◌else◌, ◌==◌}
use pma.Base.Outcome.{Outcome, ok, ◌>>=◌}
use pma.Lsdb.{
  Timeval, LinkStateKey, LinkState, next_u32, cr_lsdb_link_state_find, cr_lsdb_link_state_add,
  cr_lsdb_link_state_update,
}
use pma.Lsd.{BackboneEth, Zone, Timer}
use pma.Lsd.Accept.{with_lsdb, lsdb_to_lsa_info}
use pma.Lsd.Flood.{flood_lsa_spread}
use pma.Lsd.Hello.{hello_get_neighbor_info}
use pma.Lsd.Handler.{link_key}

-- `struct access_eth`. `addr` and `cost` are what `get_address_of_access` and
-- `get_metric_of_access` read off the interface.
pub record AccessEth : Type 0 where
  pub ifid : ℕ
  pub addr : ℕ
  pub cost : ℕ

-- `struct lsd_router`, with the timer of the periodic flood.
pub record LsdRouter : Type 0 where
  pub azs : List Zone
  pub accesses : List AccessEth
  pub periodctrl : Timer

-- A loop over the zones.
abbrev pub each_zone : (Zone → Outcome Zone) → List Zone → Outcome (List Zone)
each_zone f [] = ok []
each_zone f (z ∷ zs) = f z >>= λ z'. each_zone f zs >>= λ zs'. ok (z' ∷ zs')

abbrev pub access_key : Zone → AccessEth → LinkStateKey
access_key z e = record { rt_id = z.device_id; if_id = e.ifid; n_rt_id = 0; n_if_id = 0 }

-- The entry of an access link whose interface changed; one time of day serves for all zones.
abbrev pub access_link : Timeval → Zone → AccessEth → LinkState
access_link now z e = record {
  key = access_key z e;
  addr = e.addr;
  metric = e.cost;
  state = 0;
  seq = 0;
  age = now;
}

unfoldable pub access_up : Timeval → AccessEth → Zone → Outcome Zone
access_up now e z =
    let s = access_link now z e in
    elim (cr_lsdb_link_state_find s.key z.lsdb) [
      | none ↦ with_lsdb z (cr_lsdb_link_state_add s z.lsdb)
      | some old ↦ with_lsdb z (cr_lsdb_link_state_update s z.lsdb)
    ]

unfoldable pub ace_up_handler : Timeval → AccessEth → LsdRouter → Outcome LsdRouter
unfolding access_up
ace_up_handler now e r = each_zone (access_up now e) r.azs >>= λ zs. ok (record r { azs = zs })

-- The entry of a key, if there is one, is spread with the next number, and then written.
unfoldable pub spread_again : LinkStateKey → Zone → Outcome Zone
unfolding flood_lsa_spread lsdb_to_lsa_info
spread_again k z = elim (cr_lsdb_link_state_find k z.lsdb) [
  | none ↦ ok z
  | some old ↦
      let s : LinkState = record old { seq = next_u32 old.seq } in
      with_lsdb (flood_lsa_spread (lsdb_to_lsa_info s) z) (cr_lsdb_link_state_update s z.lsdb)
]

-- The loop over the access interfaces, each in every zone.
unfoldable pub spread_accesses : List AccessEth → List Zone → Outcome (List Zone)
unfolding spread_again
spread_accesses [] zs = ok zs
spread_accesses (e ∷ es) zs =
    each_zone (λ z. spread_again (access_key z e) z) zs >>= spread_accesses es

-- The loop over the backbone interfaces of a zone; a neighbour that was never met is passed over.
unfoldable pub spread_backbones : List BackboneEth → Zone → Outcome Zone
unfolding spread_again hello_get_neighbor_info
spread_backbones [] z = ok z
spread_backbones (e ∷ es) z =
    hello_get_neighbor_info e
    >>= (λ n. if n.rt_id == 0 then ok z else spread_again (link_key z e n) z)
    >>= spread_backbones es

abbrev pub flood_period : ℕ
flood_period = 30000000

unfoldable pub spread_local_link_state : LsdRouter → Outcome LsdRouter
unfolding spread_accesses spread_backbones
spread_local_link_state r =
    spread_accesses r.accesses r.azs >>= each_zone (λ z. spread_backbones z.backbones z) >>= λ zs.
    ok (record r { azs = zs; periodctrl = some flood_period })

unfoldable pub flood_periodically_flood_terminate : LsdRouter → LsdRouter
flood_periodically_flood_terminate r = record r { periodctrl = none }

unfoldable pub flood_periodically_flood_start : LsdRouter → LsdRouter
unfolding flood_periodically_flood_terminate
flood_periodically_flood_start r = record (flood_periodically_flood_terminate r) {
  periodctrl = some flood_period;
}
