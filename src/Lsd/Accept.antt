-- ===== src/Lsd/Accept.antt =====
-- What becomes of a received advertisement: lsd/lsd_utils.c.
pub mod Total
pub mod Order
use pma.Base.{
  ℕ, zero, suc, ◌+◌, ◌-◌, ◌*◌, ◌%◌, ◌^◌, Bool, true, false, ◌||◌, Option, none, some, List, [], ◌∷◌,
  if◌then◌else◌, ◌==◌, ltb,
}
use pma.Base.Outcome.{Outcome, ok, crash, ◌>>=◌}
use pma.Lsdb.{
  Lsdb, Timeval, LinkState, is_keys_equals, cr_lsdb_link_state_find, cr_lsdb_link_state_add,
  cr_lsdb_link_state_update,
}
use pma.Lsd.{Lsa, BackboneEth, Zone}
use pma.Lsd.Flood.{flood_add_flood_lsa, flood_lsa_forward}

unfoldable pub lsdb_to_lsa_info : LinkState → Lsa
lsdb_to_lsa_info s = record {
  key = s.key;
  addr = s.addr;
  metric = s.metric;
  state = s.state;
  seq = s.seq;
}

-- With the time of day for the age.
unfoldable pub lsa_to_lsdb_info : Timeval → Lsa → LinkState
lsa_to_lsdb_info now l = record {
  key = l.key;
  addr = l.addr;
  metric = l.metric;
  state = l.state;
  seq = l.seq;
  age = now;
}

abbrev pub usecs : Timeval → ℕ
usecs t = t.tv_sec * 1000000 + t.tv_usec

-- LSDB_LINK_FRESH_TIME * 15 / 10.
abbrev pub fresh_time : ℕ
fresh_time = 15000000

-- The difference is an `unsigned long`, so an age in the future counts as very old.
unfoldable pub is_out_of_date : Timeval → LinkState → Bool
is_out_of_date now old = ltb fresh_time ((usecs now + (2 ^ 64 - usecs old.age % 2 ^ 64)) % 2 ^ 64)

pub data Comparison : Type 0 where
  greater equal less : Comparison

-- Of two states with the same key; the asserts crash on different ones.
unfoldable pub link_state_compare : LinkState → LinkState → Outcome Comparison
unfolding is_keys_equals
link_state_compare a b =
    if is_keys_equals a.key b.key
    then if ltb b.seq a.seq then ok greater else if a.seq == b.seq then ok equal else ok less
    else crash

-- `f` at interface number `i`.
unfoldable pub at_eth : ℕ → (BackboneEth → BackboneEth) → List BackboneEth → List BackboneEth
at_eth i f [] = []
at_eth zero f (e ∷ es) = f e ∷ es
at_eth (suc i) f (e ∷ es) = e ∷ at_eth i f es

-- The database's entry goes back to where the advertisement came from.
unfoldable pub flood_back : LinkState → ℕ → Zone → Zone
unfolding at_eth flood_add_flood_lsa lsdb_to_lsa_info
flood_back s i z = record z {
  backbones = at_eth i (flood_add_flood_lsa (lsdb_to_lsa_info s)) z.backbones;
}

-- Whether the advertisement is of a link of this router, which is then dealt with.
unfoldable pub check_local_lsdb : ℕ → LinkState → Zone → Outcome (Bool × Zone)
unfolding flood_back link_state_compare
check_local_lsdb i s z =
    if s.key.rt_id == z.r_id
    then elim (cr_lsdb_link_state_find s.key z.lsdb) [
      | none ↦ ok (true, z)
      | some local ↦
          link_state_compare local s
          >>= elim [ equal ↦ ok (true, z) | _ ↦ ok (true, flood_back local i z) ]
    ]
    else ok (false, z)

abbrev pub with_lsdb : Zone → Outcome Lsdb → Outcome Zone
with_lsdb z r = r >>= λ db. ok (record z { lsdb = db })

-- The entry is compared with what the database holds.
unfoldable pub accept_known : Timeval → ℕ → Lsa → LinkState → LinkState → Zone → Outcome Zone
unfolding link_state_compare flood_back flood_lsa_forward is_out_of_date
accept_known now i l s link z =
    if is_out_of_date now link
    then with_lsdb z (cr_lsdb_link_state_update s z.lsdb) >>= (λ z'. ok (flood_lsa_forward l i z'))
    else link_state_compare link s >>= elim [
      | less ↦
          with_lsdb z (cr_lsdb_link_state_update s z.lsdb) >>= (λ z'. ok (flood_lsa_forward l i z'))
      | greater ↦ ok (flood_back link i z)
      | equal ↦ ok z
    ]

-- An advertisement that interface number `i` received at time `now`.
unfoldable pub accept_lsa_into_lsdb : Timeval → ℕ → Lsa → Zone → Outcome Zone
unfolding lsa_to_lsdb_info check_local_lsdb accept_known flood_lsa_forward
accept_lsa_into_lsdb now i l z =
    let s = lsa_to_lsdb_info now l in
    check_local_lsdb i s z >>= λ (local, z').
    if local then ok z' else elim (cr_lsdb_link_state_find s.key z'.lsdb) [
      | none ↦
          with_lsdb z' (cr_lsdb_link_state_add s z'.lsdb)
          >>= (λ z''. ok (flood_lsa_forward l i z''))
      | some link ↦ accept_known now i l s link z'
    ]
