-- ===== src/Ddc/Fah.antt =====
-- Protection when a link breaks: ddc/fah.c. The clock is read once for all that one call does, and is
-- `none` when `gettimeofday` fails. The parameter `key_of` is the float arithmetic that makes a key
-- of `broken_value` and `net_value`. `send_policy` appears as what is sent, the last one first.
use pma.Base.{
  ℕ, ◌+◌, ◌-◌, ◌*◌, ◌%◌, ◌^◌, Bool, true, ◌&&◌, ◌||◌, not, Option, none, some, List, [], ◌∷◌,
  if◌then◌else◌, ◌==◌, ltb, leb, get_elem?,
}
use pma.Base.Outcome.{Outcome, ok, crash, ◌>>=◌}
use pma.Policy.{PolicyTable, find_policy_table}
use pma.Base.Arrays.{put}
use pma.Ddc.{LinkInfo}
use pma.Ddc.Matrix.{AreaInfo, Netpath}
use pma.Ddc.Paths.{record_broken_path_down, get_net_destory_degree}

abbrev pub default_hello : ℕ
default_hello = 10000000

abbrev pub default_dead : ℕ
default_dead = 40000000

abbrev pub max_interface_num : ℕ
max_interface_num = 100

-- The arguments of `send_policy`.
pub record Sent : Type 0 where
  pub ifid : ℕ
  pub hello_timer : ℕ
  pub dead_timer : ℕ

-- The globals of fah.c, and what is sent. A time is its seconds and microseconds.
pub record Fah : Type 0 where
  pub is_router_need_protect : Bool
  pub dead_timer : ℕ → ℕ × ℕ
  pub sent : List Sent

abbrev pub micro : ℕ × ℕ → ℕ
micro t = 1000000 * t.0 + t.1

-- `usec_passed` and `diff_time` are `u32`.
abbrev pub usec_passed : ℕ × ℕ → ℕ × ℕ → ℕ
usec_passed last now = (micro now % 2 ^ 32 + (2 ^ 32 - micro last % 2 ^ 32)) % 2 ^ 32

abbrev pub diff_time : ℕ → ℕ → ℕ
diff_time dead_value passed = (dead_value + (2 ^ 32 - passed)) % 2 ^ 32

-- The interface 100 is one behind the array's end, and goes on.
unfoldable pub recompute_dead_timer :
    Option (ℕ × ℕ) → ℕ → ℕ → (ℕ → ℕ × ℕ) → Outcome (ℕ × (ℕ → ℕ × ℕ))
recompute_dead_timer now ifid dead_value dead_timer =
    let last = dead_timer ifid in
    if ltb max_interface_num ifid
    then ok (dead_value, dead_timer)
    else if ifid == max_interface_num
    then crash
    else elim now [
      | none ↦ ok (dead_value, dead_timer)
      | some t ↦
          if (last.0 == 0) && (last.1 == 0)
          then ok (dead_value, put dead_timer ifid t)
          else ok (diff_time dead_value (usec_passed last t), dead_timer)
    ]

-- The timers of the policy that fits; `none` is a return of -1.
abbrev pub policy_values : Option PolicyTable → ℕ → Option (Outcome (ℕ × ℕ))
policy_values g_pt key = elim (find_policy_table g_pt key) [
  | none ↦ none
  | some ret ↦ if ret == 0 then some (ok (default_hello, default_dead)) else elim g_pt [
    | none ↦ none
    | some p ↦ elim (get_elem? p.p_element ret) [ none ↦ some crash | some e ↦ some (ok e.value) ]
  ]
]

module _ (key_of : ℕ × ℕ → ℕ) (g_pt : Option PolicyTable) (now : Option (ℕ × ℕ)) where
  unfoldable pub protect_local_link : LinkInfo → ℕ × ℕ → Fah → Outcome Fah
  unfolding recompute_dead_timer
  protect_local_link link destorydegree st = elim (policy_values g_pt (key_of destorydegree)) [
    | none ↦ ok st
    | some values ↦ values >>= λ (hello, dead).
        recompute_dead_timer now link.ifid dead st.dead_timer >>= λ (dead', timers). ok (record st {
          dead_timer = timers;
          sent = record { ifid = link.ifid; hello_timer = hello; dead_timer = dead' } ∷ st.sent;
        })
  ]

  -- A link of the router itself to another, unless its status is 3.
  abbrev pub is_local : ℕ → LinkInfo → Bool
  is_local routerid info =
      (not (info.status == 3) && (info.rid == routerid))
      && (not (info.nrid == 0) && not (info.nifid == 0))

  unfoldable pub reprotect_local_link : ℕ → ℕ × ℕ → List LinkInfo → Fah → Outcome Fah
  unfolding protect_local_link
  reprotect_local_link routerid destorydegree [] st = ok st
  reprotect_local_link routerid destorydegree (info ∷ lslist) st =
      (if is_local routerid info then protect_local_link info destorydegree st else ok st)
      >>= reprotect_local_link routerid destorydegree lslist

  -- What is done for the area of the link, whose paths are marked already.
  abbrev pub protect_area : ℕ → LinkInfo → AreaInfo → ℕ × ℕ → Fah → Outcome Fah
  protect_area self_id link az destorydegree st =
      if (link.rid == self_id) || (link.nrid == self_id)
      then protect_local_link link destorydegree (record st { is_router_need_protect = true })
      else if st.is_router_need_protect
      then reprotect_local_link self_id destorydegree az.lslist st
      else ok st

-- The first area with that id.
unfoldable pub get_area_by_areaid : ℕ → List AreaInfo → Option AreaInfo
get_area_by_areaid areaid [] = none
get_area_by_areaid areaid (az ∷ areas) =
    let rest = get_area_by_areaid areaid areas in if az.azid == areaid then some az else rest

-- The areas once it has changed.
abbrev pub put_area : AreaInfo → List AreaInfo → List AreaInfo
put_area az' [] = []
put_area az' (az ∷ areas) =
    let rest = put_area az' areas in if az.azid == az'.azid then az' ∷ areas else az ∷ rest

-- `none` is a return of -1, before anything is done.
unfoldable pub fah_set_default_timer : Bool → List AreaInfo → LinkInfo → Fah → Option (Outcome Fah)
unfolding get_area_by_areaid
fah_set_default_timer is_computed areas link st =
    if not is_computed then none else elim (get_area_by_areaid link.areaid areas) [
      | none ↦ none
      | some az ↦ some (
          if leb max_interface_num link.ifid
          then crash
          else ok (record st {
            dead_timer = put st.dead_timer link.ifid (0, 0);
            sent =
                record { ifid = link.ifid; hello_timer = default_hello; dead_timer = default_dead }
                ∷ st.sent;
          }))
    ]

-- The paths of the area once the link is down; `crash` when nothing ever set the list.
abbrev pub broken_paths : LinkInfo → AreaInfo → Outcome (List Netpath)
broken_paths link az = elim (record_broken_path_down link az).shortpaths [
  | none ↦ crash
  | some paths ↦ ok paths
]

unfoldable pub fah_protect_link :
    (ℕ × ℕ → ℕ)
    → Option PolicyTable
    → Option (ℕ × ℕ)
    → Bool
    → ℕ
    → LinkInfo
    → List AreaInfo
    → Fah
    → Option (Outcome (List AreaInfo × Fah))
unfolding get_area_by_areaid protect_local_link reprotect_local_link record_broken_path_down
fah_protect_link key_of g_pt now is_computed routerid link areas st =
    if not is_computed then none else elim (get_area_by_areaid link.areaid areas) [
      | none ↦ none
      | some az ↦ some (
          broken_paths link az >>= λ paths.
          protect_area key_of g_pt now routerid link az (get_net_destory_degree paths) st >>= λ st'.
          ok (put_area (record_broken_path_down link az) areas, st'))
    ]
