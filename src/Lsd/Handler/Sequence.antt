-- ===== src/Lsd/Handler/Sequence.antt =====
-- The sequence number of a link after its neighbour's detection changed (lsd/lsd_handler.c).
use pma.Base.{ℕ, ◌≡◌, refl, ◌∙◌, ap, ◌≢◌, some, map, if◌then◌else◌, get_elem?, arith}
use pma.Base.Outcome.{ok, ◌>>=◌}
use pma.Lsdb.{
  Lsdb, Timeval, LinkStateKey, LinkState, next_u32, is_keys_equals, cr_lsdb_link_state_find,
  cr_lsdb_link_state_update,
}
use pma.Lsdb.Invariant.{IsValid}
use pma.Lsdb.Find.{find-key}
use pma.Lsdb.Update.{update-total}
use pma.Lsd.{BackboneEth, Zone, HelloMaster, LsdStatus}
use pma.Lsd.Accept.{with_lsdb, lsdb_to_lsa_info}
use pma.Lsd.Accept.Total.{keys_refl}
use pma.Lsd.Flood.{flood_lsa_spread, flood_add_flood_lsa}
use pma.Lsd.Hello.{hello_get_neighbor_info}
use pma.Lsd.Handler.{
  set_hello_low, spread_link, flood_spread_backbone_link_state, hello_changed_low, made, link_key,
}

-- An interface of the zone whose neighbour is known, and the entry of its link.
pub record IsLink (i : ℕ) (e : BackboneEth) (m : HelloMaster) (old : LinkState) (z : Zone)
    : Type 0 where
  pub eth : get_elem? z.backbones i ≡ some e
  pub master : e.hello_master ≡ some m
  pub neighbor : m.neighbor.rt_id ≢ 0
  pub valid : IsValid z.lsdb
  pub entry : cr_lsdb_link_state_find (link_key z e m.neighbor) z.lsdb ≡ some old

-- The entry as it is spread.
abbrev pub spread_entry : LinkState → ℕ → LinkState
spread_entry old state = record old { state = state; seq = next_u32 old.seq }

pub spread_link-known :
    (junk : Timeval) (e : BackboneEth) (k : LinkStateKey) (state : ℕ) (old : LinkState) (z : Zone)
    → IsValid z.lsdb
    → cr_lsdb_link_state_find k z.lsdb ≡ some old
    → (db : Lsdb) × (spread_link junk e k state z
        ≡ ok
            (flood_lsa_spread (lsdb_to_lsa_info (spread_entry old state)) (record z { lsdb = db })))
      × IsValid db
      × ((j : LinkStateKey)
          → cr_lsdb_link_state_find j db ≡ (
              if is_keys_equals k j
              then some (spread_entry old state)
              else cr_lsdb_link_state_find j z.lsdb))
unfolding spread_link
spread_link-known junk e k state old z v here =
    let same = find-key k z.lsdb old v here in
    let s = spread_entry old state in
    let (db, run, v', f) =
      update-total s old z.lsdb v (ap (λ q. cr_lsdb_link_state_find q z.lsdb) same ∙ here) in
    (
      db,
      ground arith,
      v',
      λ j.
          f j
          ∙ ap (λ q. if is_keys_equals q j then some s else cr_lsdb_link_state_find j z.lsdb) same,
    )

pub spread-known :
    (junk : Timeval) (i state : ℕ) (e : BackboneEth) (m : HelloMaster) (old : LinkState) (z : Zone)
    → IsLink i e m old z
    → flood_spread_backbone_link_state junk i state z
      ≡ spread_link junk e (link_key z e m.neighbor) state z
unfolding flood_spread_backbone_link_state hello_get_neighbor_info
spread-known junk i state e m old z h = ground arith

low_lem :
    (now junk : Timeval) (i : ℕ) (status : LsdStatus) (e : BackboneEth) (m : HelloMaster)
    (old : LinkState) (z : Zone)
    → IsLink i e m old z
    → let key = link_key z e m.neighbor in
      let state = set_hello_low status old.state in
      hello_changed_low now junk i status z ≡ (
        spread_link junk e key state z >>= λ z'.
        with_lsdb z' (cr_lsdb_link_state_update (made now e key state old.seq) z'.lsdb))
unfolding hello_changed_low hello_get_neighbor_info
low_lem now junk i status e m old z h =
    ground (arith, spread-known junk i (set_hello_low status old.state) e m old z h)

-- A change of the low priority on a link that the database holds: the advertisement that goes to
-- every interface has the number after the entry's, but the entry ends with its old number, at the
-- new state.
pub low_changed-known :
    (now junk : Timeval) (i : ℕ) (status : LsdStatus) (e : BackboneEth) (m : HelloMaster)
    (old : LinkState) (z : Zone)
    → IsLink i e m old z
    → let key = link_key z e m.neighbor in
      let state = set_hello_low status old.state in
      (z' : Zone) × (hello_changed_low now junk i status z ≡ ok z')
      × IsValid z'.lsdb
      × (cr_lsdb_link_state_find key z'.lsdb ≡ some (made now e key state old.seq))
      × (z'.backbones
          ≡ map (flood_add_flood_lsa (lsdb_to_lsa_info (spread_entry old state))) z.backbones)
unfolding flood_lsa_spread
low_changed-known now junk i status e m old z h =
    let key = link_key z e m.neighbor in
    let state = set_hello_low status old.state in
    let (db, run, v1, f1) = spread_link-known junk e key state old z h.valid h.entry in
    let written = f1 key ∙ rw (keys_refl key key refl) in
    let (db', run', v2, f2) =
      update-total (made now e key state old.seq) (spread_entry old state) db v1 written in
    (
      record z {
        lsdb = db';
        backbones =
            map (flood_add_flood_lsa (lsdb_to_lsa_info (spread_entry old state))) z.backbones;
      },
      rw (low_lem now junk i status e m old z h, run, run'),
      v2,
      f2 key ∙ rw (keys_refl key key refl),
      refl,
    )
