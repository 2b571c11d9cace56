-- ===== src/Lsd/Tests.antt =====
-- A zone with two interfaces, and the theorems at it.
use pma.Base.{
  ℕ, ◌≡◌, refl, if◌then◌else◌, ◌∙◌, none, some, List, [], ◌∷◌, ◌++◌, arith, map, inl, inr,
}
use pma.Base.Outcome.{ok, ◌>>=◌}
use pma.Lsdb.{
  is_keys_equals, cr_lsdb_link_state_add, LinkStateKey, LinkState, Lsdb, Timeval, cr_lsdb_init,
  cr_lsdb_link_state_find, lsdb_link_state_find, lsdb_router_find, find_router,
}
use pma.Lsdb.Invariant
use pma.Lsdb.Valid.{init-IsValid}
use pma.Lsd.{
  lsd_send, Lsa, FloodMaster, BackboneEth, Zone, Packet, Body, ExchangeMaster, SendState, RcvState,
  HelloMaster, connected, up, ready, busy,
}
use pma.Lsd.Flood.{new_flood_master, flood_buffer_time, flood_add_flood_lsa}
use pma.Lsd.Flood.Invariant as FloodInvariant
use pma.Lsd.Flood.Drain.{pending, all_released, all_flooded, acked, run-pending, drain_lem}
use pma.Lsd.Accept.{accept_lsa_into_lsdb, lsa_to_lsdb_info, lsdb_to_lsa_info}
use pma.Lsdb.Find.{add-total}
use pma.Lsd.Accept.Total.{keys_refl, Accepted, accept-total}
use pma.Lsd.Accept.Order.{accept_all, accept_all-newest, accept_twice, seq_of, greatest}
use pma.Lsd.Exchange.{new_exchange_master, make_packet}
use pma.Lsd.Exchange.Transfer.{rounds, transfer-total}
use pma.Lsd.Exchange.Stuck.{Net, here, next, resends, Reach-IsStuck}
use pma.Lsd.Hello.{new_hello_master}
use pma.Lsd.Hello.Invariant as HelloInvariant
use pma.Lsd.Handler.{hello_changed_low, made, set_hello_low}
use pma.Lsd.Handler.Sequence.{low_changed-known, IsLink, spread_entry}
use pma.Lsd.Receive.{dispatch, lsd_receive, get_backbone_by_neighbor_id}
use pma.Lsd.Receive.Checks.{receive-refused, receive-send}

abbrev noon : Timeval
noon = record { tv_sec = 43200; tv_usec = 0 }

abbrev advert : ℕ → ℕ → Lsa
advert r n = record {
  key = record { rt_id = r; if_id = 1; n_rt_id = 7; n_if_id = 2 };
  addr = 9;
  metric = 10;
  state = 3;
  seq = n;
}

abbrev idle : FloodMaster
idle = record new_flood_master { state = ready }

abbrev met : HelloMaster
met = record new_hello_master {
  high_status = connected;
  dead_timer_high = some 400000;
  neighbor = record { rt_id = 8; if_id = 3 };
}

abbrev to_neighbor : ℕ → BackboneEth
to_neighbor n = record {
  ifid = 1;
  state = up;
  neighbor_device_id = n;
  neighbor_ctl_addr = 5;
  addr = 6;
  cost = 10;
  exchange_master = some new_exchange_master;
  flood_master = some idle;
  hello_master = some met;
  sent = [];
}

abbrev zone : Zone
zone = record {
  device_id = 7;
  r_id = 7;
  az_id = 1;
  lsdb = cr_lsdb_init 1;
  backbones = to_neighbor 8 ∷ to_neighbor 9 ∷ [];
}

accept-total_example :
    (z' : Zone) × (accept_lsa_into_lsdb noon 0 (advert 8 4) zone ≡ ok z')
    × Accepted noon 0 (advert 8 4) zone z'
accept-total_example = accept-total noon 0 (advert 8 4) zone (init-IsValid 1) (omega arith)

nothing_yet : (k : LinkStateKey) → cr_lsdb_link_state_find k zone.lsdb ≡ none
unfolding cr_lsdb_link_state_find lsdb_link_state_find lsdb_router_find find_router cr_lsdb_init
nothing_yet k = ground arith

-- A flood master that is about to send two advertisements.
abbrev working : FloodMaster
working = record new_flood_master {
  state = busy;
  queue = advert 8 1 ∷ advert 8 2 ∷ [];
  snd_ctrl = some flood_buffer_time;
}

working-IsValid : FloodInvariant.IsValid working
working-IsValid = ground arith

abbrev two_more : List FloodInvariant.Event
two_more = FloodInvariant.sends ∷ FloodInvariant.enqueues (advert 9 1) ∷ FloodInvariant.acks 1 ∷ []

run-pending_example :
    all_released two_more working ++ pending (FloodInvariant.run two_more working)
    ≡ pending working ++ all_flooded two_more
run-pending_example = run-pending two_more working working-IsValid

drain_lem_example :
    ((FloodInvariant.run (acked 1 working) working).state ≡ ready)
    × ((FloodInvariant.run (acked 1 working) working).queue ≡ [])
    × (all_released (acked 1 working) working ≡ working.queue)
drain_lem_example = drain_lem 1 working working-IsValid refl (omega arith)

run-new-IsValid_example :
    FloodInvariant.IsValid (FloodInvariant.run (FloodInvariant.starts ∷ two_more) new_flood_master)
run-new-IsValid_example = FloodInvariant.run-new-IsValid (FloodInvariant.starts ∷ two_more)

abbrev offered : List LinkState
offered = lsa_to_lsdb_info noon (advert 9 4) ∷ lsa_to_lsdb_info noon (advert 8 4) ∷ []

-- An idle exchange master with two entries to send.
abbrev offers : ExchangeMaster
offers = record new_exchange_master { links_state = offered }

transfer-total_example :
    let s' =
      rounds 2
        (record { sender = (make_packet offers).0; receiver = new_exchange_master; taken = [] }) in
    (s'.sender.send_state ≡ SendState.end)
    × (s'.receiver.rcv_state ≡ RcvState.end)
    × (s'.taken ≡ map lsdb_to_lsa_info offered)
transfer-total_example =
    transfer-total (lsa_to_lsdb_info noon (advert 9 4)) (lsa_to_lsdb_info noon (advert 8 4) ∷ [])
      offers new_exchange_master refl (λ e. cc)

-- The last acknowledgement was lost.
abbrev half_done : Net
half_done = record {
  sender = record new_exchange_master { send_state = SendState.waiting };
  receiver = record new_exchange_master { rcv_state = RcvState.end };
  packets = [];
  acks = [];
}

abbrev sent_again : Net
sent_again = record half_done { packets = half_done.sender.sendbuf ∷ [] }

Reach-IsStuck_example : sent_again.sender.send_state ≡ SendState.waiting
Reach-IsStuck_example =
    Reach-IsStuck {n = half_done} (record { done = refl; unheard = refl; waits = refl })
      (next here (resends half_done refl))

abbrev link_8 : LinkStateKey
link_8 = (advert 8 0).key

accept_all-newest_example :
    (z' : Zone) × (accept_all noon ((0, advert 8 5) ∷ (1, advert 8 4) ∷ []) zone ≡ ok z')
    × Invariant.IsValid z'.lsdb
    × (seq_of (cr_lsdb_link_state_find link_8 z'.lsdb)
        ≡ greatest (seq_of (cr_lsdb_link_state_find link_8 zone.lsdb)) (5 ∷ 4 ∷ []))
accept_all-newest_example =
    accept_all-newest noon link_8 ((0, advert 8 5) ∷ (1, advert 8 4) ∷ []) zone (init-IsValid 1)
      (refl, (refl, tt)) (omega arith) (omega arith) (rw (nothing_yet link_8) tt)

once :
    (z' : Zone) × (accept_lsa_into_lsdb noon 0 (advert 8 4) zone ≡ ok z')
    × Accepted noon 0 (advert 8 4) zone z'
once = accept-total noon 0 (advert 8 4) zone (init-IsValid 1) (omega arith)

accept_twice_example : accept_lsa_into_lsdb noon 1 (advert 8 4) once.0 ≡ ok once.0
accept_twice_example =
    accept_twice noon 0 1 (advert 8 4) zone once.0 (init-IsValid 1) (omega arith)
      (rw (nothing_yet link_8) refl) once.1

abbrev hello_events : List HelloInvariant.Event
hello_events =
    HelloInvariant.changes up ∷ HelloInvariant.high_received 8 3 ∷ HelloInvariant.high_dead ∷ []

hello_run-IsValid_example :
    (m : HelloMaster) × (HelloInvariant.run hello_events new_hello_master ≡ ok m)
    × HelloInvariant.IsValid m
hello_run-IsValid_example = HelloInvariant.hello_run-IsValid hello_events

-- The entry of the zone's own link to router 8.
abbrev own : LinkState
own = record {
  key = record { rt_id = 7; if_id = 1; n_rt_id = 8; n_if_id = 3 };
  addr = 9;
  metric = 10;
  state = 2;
  seq = 4;
  age = noon;
}

with_own :
    (db : Lsdb) × (cr_lsdb_link_state_add own (cr_lsdb_init 1) ≡ ok db)
    × Invariant.IsValid db
    × ((k : LinkStateKey)
        → cr_lsdb_link_state_find k db ≡ (
            if is_keys_equals own.key k
            then some own
            else cr_lsdb_link_state_find k (cr_lsdb_init 1)))
with_own = add-total own (cr_lsdb_init 1) (init-IsValid 1) (omega arith) (nothing_yet own.key)

abbrev linked : Zone
linked = record zone { lsdb = with_own.0 }

linked-IsLink : IsLink 0 (to_neighbor 8) met own linked
linked-IsLink = record {
  eth = refl;
  master = refl;
  neighbor = omega arith;
  valid = with_own.2;
  entry = with_own.3 own.key ∙ rw (keys_refl own.key own.key refl);
}

low_changed-known_example :
    (z' : Zone) × (hello_changed_low noon noon 0 connected linked ≡ ok z')
    × Invariant.IsValid z'.lsdb
    × (cr_lsdb_link_state_find own.key z'.lsdb ≡ some (made noon (to_neighbor 8) own.key 3 4))
    × (z'.backbones
        ≡ map (flood_add_flood_lsa (lsdb_to_lsa_info (spread_entry own 3))) linked.backbones)
unfolding set_hello_low
low_changed-known_example =
    low_changed-known noon noon 0 connected (to_neighbor 8) met own linked linked-IsLink

-- The zone of router 8, which the router of `zone` is a neighbour of.
abbrev other_end : Zone
other_end = record zone { device_id = 8; r_id = 8; backbones = to_neighbor 7 ∷ [] }

abbrev keep_alive : Body
keep_alive = Body.hello_high (record { hello_interval = 100000; dead_interval = 400000 })

abbrev other_area : Zone
other_area = record zone { az_id = 5 }

receive-send_example :
    (p : Packet) × ((lsd_send zone 60 keep_alive (to_neighbor 8)).sent ≡ p ∷ [])
    × (p.body ≡ keep_alive)
    × (lsd_receive noon noon p (other_area ∷ other_end ∷ [])
        ≡ (dispatch noon noon 0 p other_end >>= λ z. ok (other_area ∷ z ∷ [])))
unfolding get_backbone_by_neighbor_id
receive-send_example =
    receive-send noon noon zone other_end (other_area ∷ []) [] (to_neighbor 8) 60 0 keep_alive
      (omega arith) (omega arith) refl ((omega arith), tt) refl refl refl

-- A packet of another version.
abbrev old_packet : Packet
old_packet = record {
  version = 1;
  pklen = 32;
  r_id = 8;
  area_id = 1;
  if_id = 3;
  icsum = 0x12345;
  body = keep_alive;
}

receive-refused_example : lsd_receive noon noon old_packet (zone ∷ []) ≡ ok (zone ∷ [])
receive-refused_example =
    receive-refused noon noon old_packet (zone ∷ []) (inr (inl (omega arith)), tt)

-- An interface that has flooded before, and has just met its neighbour.
abbrev woken : BackboneEth
woken = record (to_neighbor 8) { flood_master = some working }

abbrev waking : Zone
waking = record zone { backbones = woken ∷ [] }
