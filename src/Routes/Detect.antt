-- ===== src/Routes/Detect.antt =====
-- What a run of `route_table_detect` leaves in the table.
use pma.Base.{
  ◌≡◌, refl, ◌∙◌, inl, inr, Bool, true, ◌||◌, List, [], ◌∷◌, if◌then◌else◌, ◌==◌, arith, Bool-cases,
}
use pma.Routes.{
  Route, store_route, netlink_routing_table, get_route_table, get_route_table_by_snmp, route_of_row,
  RouteRow, RouteMessage, is_taken, route_of, watch_route_change, refresh_route_status, Source,
  netlink_route, snmp_route, route_table_get, route_table_detect, new_status, fresh_status,
}
use pma.Routes.Table.{
  has, has_reported, is_last, IsRefreshed, is_reported, store_route-has_reported,
  has-watch_route_change, has-refresh_route_status, has_reported-eq-is_last,
}

-- The routes that a source reports.
abbrev pub routes_of_messages : List RouteMessage → List Route
routes_of_messages [] = []
routes_of_messages (m ∷ ms) =
    let rest = routes_of_messages ms in if is_taken m then route_of m ∷ rest else rest

abbrev pub routes_of_rows : List RouteRow → List Route
routes_of_rows [] = []
routes_of_rows (r ∷ rs) = route_of_row r ∷ routes_of_rows rs

abbrev pub reported : Source → List Route
reported (netlink_route ms) = routes_of_messages ms
reported (snmp_route rs) = routes_of_rows rs

abbrev pub store_all : List Route → List Route → List Route
store_all [] xs = xs
store_all (r ∷ rs) xs = store_all rs (store_route xs r)

get_route_table-eq-store_all :
    (ms : List RouteMessage) (xs : List Route)
    → get_route_table ms xs ≡ store_all (routes_of_messages ms) xs
unfolding get_route_table netlink_routing_table
get_route_table-eq-store_all [] xs = refl
get_route_table-eq-store_all (m ∷ ms) xs = elim (Bool-cases (is_taken m)) [
  | inl t ↦ rw t (get_route_table-eq-store_all ms (store_route xs (route_of m)))
  | inr t ↦ rw t (get_route_table-eq-store_all ms xs)
]

get_by_snmp-eq-store_all :
    (rs : List RouteRow) (xs : List Route)
    → get_route_table_by_snmp rs xs ≡ store_all (routes_of_rows rs) xs
unfolding get_route_table_by_snmp
get_by_snmp-eq-store_all [] xs = refl
get_by_snmp-eq-store_all (r ∷ rs) xs = get_by_snmp-eq-store_all rs (store_route xs (route_of_row r))

pub route_table_get-eq-store_all :
    (s : Source) (xs : List Route) → route_table_get s xs ≡ store_all (reported s) xs
route_table_get-eq-store_all (netlink_route ms) xs = get_route_table-eq-store_all ms xs
route_table_get-eq-store_all (snmp_route rs) xs = get_by_snmp-eq-store_all rs xs

store_all-has_reported :
    (k : Route) (rs xs : List Route)
    → has_reported k (store_all rs xs) ≡ (has_reported k xs || has k rs)
store_all-has_reported k [] xs = ground arith
store_all-has_reported k (r ∷ rs) xs =
    store_all-has_reported k rs (store_route xs r)
    ∙ rw (store_route-has_reported k r xs) (ground arith)

-- The table after the run, with the source reduced to its routes.
pub detect-eq :
    (full : Bool) (s : Source) (xs : List Route)
    → (route_table_detect full s xs).1
      ≡ refresh_route_status (watch_route_change (store_all (reported s) xs)).1
unfolding route_table_detect
detect-eq full s xs = rw (route_table_get-eq-store_all s xs) refl

-- After a run the table holds just the routes that were reported, and the oldest one of before.
pub has-route_table_detect :
    (k : Route) (full : Bool) (s : Source) (xs : List Route)
    → IsRefreshed xs
    → has k (route_table_detect full s xs).1 ≡ (has k (reported s) || is_last k xs)
has-route_table_detect k full s xs h =
    rw
      (
        detect-eq full s xs,
        has-refresh_route_status k (watch_route_change (store_all (reported s) xs)).1,
        has-watch_route_change k (store_all (reported s) xs),
        store_all-has_reported k (reported s) xs,
        has_reported-eq-is_last k xs h,
      )
      (ground arith)

-- All that the watch keeps was reported.
abbrev AllReported : List Route → Type 0
AllReported [] = Unit
AllReported (x ∷ xs) = (is_reported x ≡ true) × AllReported xs

watch-AllReported : (xs : List Route) → AllReported (watch_route_change xs).1
unfolding watch_route_change
watch-AllReported [] = tt
watch-AllReported (x ∷ xs) =
    let ih = watch-AllReported xs in
    elim (Bool-cases (x.dirty == new_status)) [
      | inl n ↦ rw n (ground arith, ih)
      | inr n ↦ elim (Bool-cases (x.dirty == fresh_status)) [
        | inl f ↦ rw (n, f) (ground arith, ih)
        | inr f ↦ rw (n, f) ih
      ]
    ]

refresh-IsRefreshed : (xs : List Route) → AllReported xs → IsRefreshed (refresh_route_status xs)
unfolding refresh_route_status
refresh-IsRefreshed [] h = tt
refresh-IsRefreshed (x ∷ []) h = h.0
refresh-IsRefreshed (x ∷ y ∷ []) h = (refl, h.1.0)
refresh-IsRefreshed (x ∷ y ∷ z ∷ xs) h = (refl, refresh-IsRefreshed (y ∷ z ∷ xs) h.1)

pub route_table_detect-IsRefreshed :
    (full : Bool) (s : Source) (xs : List Route) → IsRefreshed (route_table_detect full s xs).1
route_table_detect-IsRefreshed full s xs = rw (detect-eq full s xs) (
    refresh-IsRefreshed (watch_route_change (store_all (reported s) xs)).1
      (watch-AllReported (store_all (reported s) xs)))
