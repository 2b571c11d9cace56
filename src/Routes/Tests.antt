-- ===== src/Routes/Tests.antt =====
-- A table of two routes, and the theorems at it.
use pma.Base.{ℕ, ◌≡◌, refl, ◌||◌, true, false, none, some, List, [], ◌∷◌, arith}
use pma.Routes.{
  Route, RouteMessage, Source, netlink_route, route_table_detect, getmask, get_prefix_length,
  same_route,
}
use pma.Routes.Table.{has, is_last}
use pma.Routes.Detect.{reported, has-route_table_detect}
use pma.Routes.Oldest.{detect_all, detect_all-has}
use pma.Routes.Steady.{detect-unchanged}
use pma.Routes.Masks.{get_prefix_length-getmask}

abbrev route : ℕ → ℕ → Route
route gate status = record {
  prefix = 10;
  prefixlen = 8;
  gateway = gate;
  interface_id = 2;
  metric = 0;
  remote = 4;
  dirty = status;
}

abbrev message : ℕ → RouteMessage
message gate = record {
  nlmsg_type = 24;
  rtm_type = 1;
  long_enough = true;
  cloned = false;
  rtm_protocol = 4;
  rtm_family = 2;
  rtm_src_len = 0;
  rtm_dst_len = 8;
  rta_oif = some 2;
  rta_dst = some 10;
  rta_prefsrc = none;
  rta_gateway = some gate;
  rta_priority = none;
  rta_multipath = false;
}

-- Two routes at first; then a third one is reported in place of both.
abbrev before : List Route
before = route 1 2 ∷ route 7 1 ∷ []

abbrev third : Source
third = netlink_route (message 3 ∷ [])

has-route_table_detect_example :
    has (route 1 0) (route_table_detect false third before).1
    ≡ (has (route 1 0) (reported third) || is_last (route 1 0) before)
has-route_table_detect_example = has-route_table_detect (route 1 0) false third before (refl, refl)

detect_all-has_example :
    has (route 7 0) (detect_all ((false, third) ∷ (true, third) ∷ []) before) ≡ true
unfolding same_route
detect_all-has_example =
    detect_all-has ((false, third) ∷ (true, third) ∷ []) (route 1 2) (route 7 1 ∷ []) (refl, refl)
      (route 7 0) refl

first_gone : has (route 1 0) (route_table_detect false third before).1 ≡ false
unfolding route_table_detect same_route
first_gone = refl

get_prefix_length-getmask_example : get_prefix_length (some (getmask 20)) ≡ 20
get_prefix_length-getmask_example = get_prefix_length-getmask 20 (omega arith)

-- Both routes are reported, in the other order.
abbrev both : Source
both = netlink_route (message 7 ∷ message 1 ∷ [])

both_known : (k : Route) → has k (reported both) ≡ has k before
unfolding same_route
both_known k = ground arith

before-distinct : same_route (route 7 1) (route 1 2) ≡ false
unfolding same_route
before-distinct = refl

detect-unchanged_example : (route_table_detect false both before).0 ≡ false
detect-unchanged_example =
    detect-unchanged false both before (rw before-distinct refl, (refl, tt)) both_known
