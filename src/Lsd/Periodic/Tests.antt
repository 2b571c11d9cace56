-- ===== src/Lsd/Periodic/Tests.antt =====
-- A router with one zone, and the theorems at it.
use pma.Base.{◌≡◌, none, some, List, [], ◌∷◌, arith}
use pma.Base.Outcome.{ok}
use pma.Lsdb.{Timeval, cr_lsdb_init}
use pma.Lsdb.Valid.{init-IsValid}
use pma.Lsd.{BackboneEth, Zone, up}
use pma.Lsd.Hello.{new_hello_master}
use pma.Lsd.Periodic.{AccessEth, LsdRouter, ace_up_handler, spread_local_link_state, flood_period}
use pma.Lsd.Periodic.Entries.{spread_local-Renumbered, AllRenumbered}
use pma.Lsd.Periodic.Access.{ace_up-AllEntered, AllEntered}

abbrev midnight : Timeval
midnight = record { tv_sec = 86400; tv_usec = 0 }

abbrev lonely : BackboneEth
lonely = record {
  ifid = 1;
  state = up;
  neighbor_device_id = 8;
  neighbor_ctl_addr = 5;
  addr = 6;
  cost = 10;
  exchange_master = none;
  flood_master = none;
  hello_master = some new_hello_master;
  sent = [];
}

abbrev office : AccessEth
office = record { ifid = 4; addr = 11; cost = 1 }

abbrev small : LsdRouter
small = record {
  azs =
      record { device_id = 7; r_id = 7; az_id = 1; lsdb = cr_lsdb_init 1; backbones = lonely ∷ [] }
      ∷ [];
  accesses = office ∷ [];
  periodctrl = none;
}

spread_local-Renumbered_example :
    (r' : LsdRouter) × (spread_local_link_state small ≡ ok r')
    × AllRenumbered small.azs r'.azs
    × (r'.accesses ≡ small.accesses)
    × (r'.periodctrl ≡ some flood_period)
spread_local-Renumbered_example =
    spread_local-Renumbered small (record { valid = init-IsValid 1; hellos = ((λ e. cc), tt) }, tt)

ace_up-AllEntered_example :
    (zs : List Zone) × (ace_up_handler midnight office small ≡ ok (record small { azs = zs }))
    × AllEntered midnight office small.azs zs
ace_up-AllEntered_example =
    ace_up-AllEntered midnight office small
      (record { valid = init-IsValid 1; number = omega arith }, tt)
