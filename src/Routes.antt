-- ===== src/Routes.antt =====
-- The table of routes: netlink/route.c, router/routertable.c and `route_table_detect` of
-- server/icm.c. The list is without its head node, whose fields nothing reads. A message of the
-- kernel and a row of the SNMP table are given with their fields decoded, an address as the number
-- `s_addr` on a little-endian machine.
mod Table
mod Detect
mod Oldest
mod Steady
mod Masks
mod Tests
use mathlib.Core.Option
use pma.Base.{
  ℕ, zero, suc, ◌+◌, ◌-◌, ◌*◌, ◌/◌, ◌%◌, ◌^◌, Bool, true, false, ◌&&◌, ◌||◌, not, Option, none,
  some, List, [], ◌∷◌, if◌then◌else◌, ◌==◌, length, set,
}

-- `struct route`, with the prefix of its `struct prefix_ipv4`.
pub record Route : Type 0 where
  pub prefix : ℕ
  pub prefixlen : ℕ
  pub gateway : ℕ
  pub interface_id : ℕ
  pub metric : ℕ
  pub remote : ℕ
  pub dirty : ℕ

abbrev pub new_status : ℕ
new_status = 1

abbrev pub old_status : ℕ
old_status = 2

abbrev pub fresh_status : ℕ
fresh_status = 3

abbrev pub prefixv4_cmp : Route → Route → Bool
prefixv4_cmp a b = (a.prefix == b.prefix) && (a.prefixlen == b.prefixlen)

abbrev pub is_route_same_exactly : Route → Route → Bool
is_route_same_exactly a b =
    (a.gateway == b.gateway) && ((a.interface_id == b.interface_id) && (a.metric == b.metric))

-- What `find_before_route` compares.
unfoldable pub same_route : Route → Route → Bool
same_route a b = prefixv4_cmp a b && is_route_same_exactly a b

abbrev pub add_route : List Route → Route → List Route
add_route rlist r = record r { dirty = fresh_status } ∷ rlist

-- The node before the route that is found is how many routes are before it.
unfoldable pub find_before_route : List Route → Route → Option ℕ
unfolding same_route
find_before_route [] rt = none
find_before_route (p ∷ rlist) rt =
    if same_route p rt then some 0 else Option.map suc (find_before_route rlist rt)

-- The route behind the node `before` gives way to `r`.
abbrev pub update_route : List Route → ℕ → Route → List Route
update_route rlist before r = set rlist before (record r { dirty = new_status })

-- The end of `route_add_ipv4`, which is also the body of the loop of `get_route_table_by_snmp`.
unfoldable pub store_route : List Route → Route → List Route
unfolding find_before_route
store_route rlist r = elim (find_before_route rlist r) [
  | none ↦ add_route rlist r
  | some before ↦ update_route rlist before r
]

-- A message of the kernel: its types, and the attributes that `netlink_parse_rtattr` finds.
pub record RouteMessage : Type 0 where
  pub nlmsg_type : ℕ
  pub rtm_type : ℕ
  pub long_enough : Bool
  pub cloned : Bool
  pub rtm_protocol : ℕ
  pub rtm_family : ℕ
  pub rtm_src_len : ℕ
  pub rtm_dst_len : ℕ
  pub rta_oif : Option ℕ
  pub rta_dst : Option ℕ
  pub rta_prefsrc : Option ℕ
  pub rta_gateway : Option ℕ
  pub rta_priority : Option ℕ
  pub rta_multipath : Bool

abbrev pub data_or_zero : Option ℕ → ℕ
data_or_zero none = 0
data_or_zero (some n) = n

-- `gateway` and `interface_id` by `nexthop_ipv4_ifindex_add`, `nexthop_ipv4_add` and
-- `nexthop_ifindex_add`: with a source address, the interface is not set.
abbrev pub next_hop_of : Option ℕ → Option ℕ → ℕ → ℕ × ℕ
next_hop_of (some gate) (some src) ifindex = (gate, 0)
next_hop_of (some gate) none ifindex = (gate, ifindex)
next_hop_of none src ifindex = (0, ifindex)

-- The route that `route_add_ipv4` makes of a message.
abbrev pub route_of : RouteMessage → Route
route_of m =
    let (gate, ifid) = next_hop_of m.rta_gateway m.rta_prefsrc (data_or_zero m.rta_oif) in
    record {
      prefix = data_or_zero m.rta_dst;
      prefixlen = m.rtm_dst_len;
      gateway = gate;
      interface_id = ifid;
      metric = data_or_zero m.rta_priority;
      remote = m.rtm_protocol;
      dirty = 0;
    }

abbrev pub route_add_ipv4 : List Route → RouteMessage → List Route
route_add_ipv4 rlist m = store_route rlist (route_of m)

-- RTM_NEWROUTE, RTN_UNICAST, RTPROT_REDIRECT and AF_INET are 24, 1, 1 and 2. What is returned only
-- ends up in a line on the terminal.
abbrev pub is_taken : RouteMessage → Bool
is_taken m =
    (((m.nlmsg_type == 24) && (m.rtm_type == 1)) && (m.long_enough && not m.cloned))
    && ((not (m.rtm_protocol == 1) && (m.rtm_src_len == 0))
        && ((m.rtm_family == 2) && not m.rta_multipath))

unfoldable pub netlink_routing_table : List Route → RouteMessage → List Route
netlink_routing_table rlist m = if is_taken m then route_add_ipv4 rlist m else rlist

-- The messages that `netlink_parse_info` hands on.
unfoldable pub get_route_table : List RouteMessage → List Route → List Route
unfolding netlink_routing_table
get_route_table [] rlist = rlist
get_route_table (m ∷ ms) rlist = get_route_table ms (netlink_routing_table rlist m)

-- A row of the SNMP table.
pub record RouteRow : Type 0 where
  pub ip_route_dest : ℕ
  pub ip_route_mask : Option ℕ
  pub ip_route_next_hop : ℕ
  pub ip_route_if_index : ℕ
  pub ip_route_metric : ℕ
  pub local_type : Bool

-- `ntohl`.
abbrev pub ntohl : ℕ → ℕ
ntohl a = (a % 256) * 2 ^ 24 + (a / 256 % 256) * 2 ^ 16 + (a / 2 ^ 16 % 256) * 2 ^ 8 + a / 2 ^ 24

-- The `while` loop of `get_prefix_length`, for at most so many turns.
unfoldable pub shifts_to_zero : ℕ → ℕ → ℕ
shifts_to_zero zero b_mask = 0
shifts_to_zero (suc turns) b_mask =
    let rest = shifts_to_zero turns (b_mask * 2 % 2 ^ 32) in if b_mask == 0 then 0 else rest + 1

-- `none` is the empty text. The text of an address begins with "0" when its first byte is 0.
unfoldable pub get_prefix_length : Option ℕ → ℕ
unfolding shifts_to_zero
get_prefix_length none = 0
get_prefix_length (some mask) =
    let b_mask = if mask % 256 == 0 then ntohl mask else mask in
    32 - shifts_to_zero 32 (2 ^ 32 - 1 - b_mask)

-- The address that `getmask` prints; its loop doubles and adds one.
unfoldable pub getmask : ℕ → ℕ
getmask zero = 0
getmask (suc len) = (getmask len * 2 + 1) % 2 ^ 32

abbrev pub route_of_row : RouteRow → Route
route_of_row r = record {
  prefix = r.ip_route_dest;
  prefixlen = get_prefix_length r.ip_route_mask;
  gateway = r.ip_route_next_hop;
  interface_id = r.ip_route_if_index;
  metric = r.ip_route_metric;
  remote = if r.local_type then 0 else 1;
  dirty = fresh_status;
}

-- `get_route_table_by_snmp`.
unfoldable pub get_route_table_by_snmp : List RouteRow → List Route → List Route
unfolding store_route
get_route_table_by_snmp [] rlist = rlist
get_route_table_by_snmp (r ∷ rs) rlist =
    get_route_table_by_snmp rs (store_route rlist (route_of_row r))

-- Whether something changed, and the list without the routes that were not reported again.
unfoldable pub watch_route_change : List Route → Bool × List Route
watch_route_change [] = (false, [])
watch_route_change (h ∷ rlist) =
    let (ischanged, rest) = watch_route_change rlist in
    if h.dirty == new_status
    then (ischanged, h ∷ rest)
    else if h.dirty == fresh_status
    then (true, h ∷ rest)
    else (true, rest)

-- The loop ends before the last node.
unfoldable pub refresh_route_status : List Route → List Route
refresh_route_status [] = []
refresh_route_status (r ∷ []) = r ∷ []
refresh_route_status (r ∷ s ∷ rlist) =
    record r { dirty = old_status } ∷ refresh_route_status (s ∷ rlist)

-- What `route_table_get` reads.
pub data Source : Type 0 where
  netlink_route : List RouteMessage → Source
  snmp_route : List RouteRow → Source

abbrev pub route_table_get : Source → List Route → List Route
route_table_get (netlink_route ms) rlist = get_route_table ms rlist
route_table_get (snmp_route rs) rlist = get_route_table_by_snmp rs rlist

-- Whether the table is sent, and the table afterwards; `full` is the type 2 of a call.
unfoldable pub route_table_detect : Bool → Source → List Route → Bool × List Route
unfolding get_route_table get_route_table_by_snmp watch_route_change refresh_route_status
route_table_detect full s rlist =
    let (ret, rest) = watch_route_change (route_table_get s rlist) in
    (ret || full, refresh_route_status rest)
