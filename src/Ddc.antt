-- ===== src/Ddc.antt =====
-- Path computation: ddc/ddc.c and ddc/ddc.h. The matrix of an area, Dijkstra's algorithm on one row of
-- it with equal-cost next hops, and the paths that the result is recorded as.
pub mod Dijkstra
pub mod Walk
mod MinCost
mod Relax
mod Rounds
mod Hops
mod Ecmp
mod Shortest
pub mod Routes
pub mod Metric
pub mod Matrix
pub mod Area
mod Build
mod Links
pub mod Paths
pub mod Trace
pub mod Fah
mod Record
mod Protect
mod Tests
mod Solution
use pma.Base.{ℕ, ◌-◌, ◌^◌, Bool, true, false, List, []}

abbrev pub max_metric : ℕ
max_metric = 2000

abbrev pub max_interface : ℕ
max_interface = 999

abbrev pub max_ecmp_limit : ℕ
max_ecmp_limit = 4

-- -1 as a `u32`.
abbrev pub no_link : ℕ
no_link = 2 ^ 32 - 1

-- `struct Netnode`. `link` is the link at `link_index`, and is left out. `overflow` is not the
-- code's: it says that something was written behind the end of `nexthop`, where the behaviour of C is
-- undefined.
pub record Netnode : Type 0 where
  pub next_hop : ℕ
  pub nexthop : ℕ → ℕ
  pub nexthop_count : ℕ
  pub metric : ℕ
  pub path_cost : ℕ
  pub link_index : ℕ
  pub overflow : Bool

-- `struct link_info` of db/dbm_lsdb.h, less `seq` and `age`.
pub record LinkInfo : Type 0 where
  pub areaid : ℕ
  pub rid : ℕ
  pub nrid : ℕ
  pub ifid : ℕ
  pub nifid : ℕ
  pub metric : ℕ
  pub status : ℕ

-- `struct ridinfo`.
pub record Ridinfo : Type 0 where
  pub num : ℕ
  pub rid : ℕ
