-- ===== src/Lib.antt =====
-- The link-state daemon of the PMA agent and its database, and the agent's policy table and
-- timers.
--
-- The agent keeps, for each autonomous zone (area), a database of link states (lsdb/). The daemon
-- (lsd/) detects neighbours with hello packets of two priorities on each backbone interface,
-- exchanges whole databases with a new neighbour, and floods changes. A received packet passes the
-- checks of lsd_receive and goes to the handler of its type; hello packets and dead timers report to
-- hello_changed_handler, which writes the link's entry, starts or ends the exchange and the flooding
-- on its interface, and spreads the entry; advertisements from exchange and flood packets go through
-- accept_lsa_into_lsdb, which compares them with the database, stores what is newer and forwards it.
-- The policy table (policy/) is a bounded array of intervals that the policy module searches. The
-- timers (timer/) are an array that a thread counts down once a second, starting callbacks.
--
-- The path computation (ddc/) builds, for each area, a matrix of the links between its routers, runs
-- Dijkstra's algorithm for every row of it with up to four equal-cost next hops, and records the
-- paths with the links that they use. When a link breaks, its paths are marked, and the share of the
-- broken paths is the key with which the policy table gives new hello and dead timers (ddc/fah.c).
-- The utilities (utils/) are doubly linked rings, which the database and the daemon keep their objects
-- in, and a reader of configuration files that calls back for each section and directive.
-- The information module (server/icm.c) keeps a table of routes (netlink/, router/), in which it marks
-- what the kernel or SNMP reports, and sends it on when something changed.
-- The other processes of an agent register at the base module (comm/, mmanager/), which keeps the
-- socket of each and counts those that have come. It cuts what they send into packets, and hands each
-- to the handler of its type, which sends it on to a module or to the server; and it keeps the list
-- of the other agents' routers, which the information module enters at its interfaces. A module
-- (server/) connects, registers, waits for the answer and then for its configuration, and gives the
-- packets that follow to the handlers in its table; a lost connection starts it again.
-- The database module starts the path computation two seconds after the last change.
--
-- Files:
--   Base.antt, Base/: library names, tests and lemmas on numbers and lists, and Outcome, the result
--     of code that may crash (a failed assert, a NULL pointer that is read or written, a place outside an array).
--   Lsdb.antt: lsdb/lsdb_impl.c, lsdb/lsdb_interface.c, lsdb/private/lsdb_inner.h. `Lsdb` is struct
--     lsdb with its heap of link nodes; each function has the name of the C function. Lsdb/Traverse:
--     lsdb/lsdb_traverse.c. Lsdb/Lookup, Invariant, Valid, Find, Update, Copies and
--     Refinement are its proofs.
--   Lsd.antt: the data of lsd/lsd_if.h, lsd_socket.h, lsd_hello.h, lsd_exchange.h and lsd_flood.h, and
--     lsd_send. A zone is struct autonomous_zone with its database and interfaces, and an interface
--     has its three masters and the packets that it sent.
--   Lsd/Accept: lsd/lsd_utils.c. Lsd/Flood: lsd/lsd_flood.c. Lsd/Exchange: lsd/lsd_exchange.c.
--     Lsd/Hello: lsd/lsd_hello.c. Lsd/Handler: lsd/lsd_handler.c and the spread of a backbone link.
--     Lsd/Periodic: ace_up_handler of lsd/lsd_handler.c and the periodic flood of lsd/lsd_flood.c, on
--     struct lsd_router.
--     Lsd/Receive: lsd_receive of lsd/lsd_socket.c, the packet handlers and the dead timers.
--     The modules below each of them are named for what they prove.
--   Policy.antt: policy/policy_table.c; Policy/Search is its proofs.
--   Timers.antt: timer/timer.c; Timers/Ticks is its proofs.
--   Ddc.antt: the data of ddc/ddc.h. Ddc/Dijkstra, Ddc/Matrix and Ddc/Paths: ddc/ddc.c. Ddc/Fah:
--     ddc/fah.c. Ddc/Walk and Ddc/Links are what paths are compared with. MinCost, Relax, Rounds,
--     Hops, Ecmp, Shortest, Metric, Routes, Area, Build, Trace, Record, Solution and Protect are
--     proofs.
--   Utils.antt: utils/list.c; Utils/Ring, Unlink, Ordered and Refinement are its proofs.
--   Utils/Ini.antt: utils/ini.c and strtrim of utils/utils.c; Utils/Ini/Trim and Print are its proofs.
--   Modules.antt: mmanager/module_manager.c, handle_local_module_register of comm/handler.c and what it
--     calls of comm/interior_daemon.c; Modules/Register is its proofs.
--   Routes.antt: netlink/route.c, router/routertable.c and route_table_detect of server/icm.c;
--     Routes/Table, Detect, Oldest, Steady and Masks are its proofs.
--   Comm.antt: child_process of comm/interior_daemon.c; Comm/Control: control/control.c; Comm/Dispatch:
--     the handlers of comm/handler.c for packets of the other modules; Comm/Routers: the list of
--     routers, with pma_list_handle of server/icm.c and set_neighbor_agent_address of
--     router/interface.c; Comm/Pms: the packets to and from the server, comm/comm.c. Pieces, Framing,
--     Steps, Quiet, Known and Transfer are proofs.
--   Server.antt: server/server.c, server/socket.c and lib/event.c; Server/Keeps, Guard,
--     Receipt and Login are its proofs. Server/Dbm: the timers of server/dbm.c; Server/Dbm/Slots, Steps
--     and Debounce are its proofs.
--   Lsdb/Tests, Lsd/Tests, Lsd/Periodic/Tests, Policy/Tests, Timers/Tests, Ddc/Tests, Utils/Tests,
--     Utils/Ini/Tests, Modules/Tests, Routes/Tests, Comm/Tests, Server/Tests: concrete databases, zones,
--     tables and packets, and each theorem at one of them.
--
-- A function of the C code that changes a shared object takes its state and returns the new one. A
-- timer is `some` of its delay while it is armed; that it fires is an event or a function. The time of
-- day is an argument. Numbers are natural numbers; counters, lengths and time differences wrap as the
-- C types do. Memory that the code does not set is a parameter, `junk`. A packet's count of
-- advertisements is the length of their list, so that a count that is larger than the packet is not
-- modelled. Three loops
-- need fuel: that of record_short_path, where 4000 turns are enough, for each two turns follow a link
-- of a path that costs less than 2000; that of cr_list_add_in_order, for which one turn more than
-- there are nodes is enough; and the functions of server/server.c, which call each other for as long
-- as the module runs, where eight turns more than there are packets after the configuration are
-- enough. Every other loop walks over a list or counts, and the runs of `Drain` and `Transfer` have the
-- number of packets as their bound.
--
-- Not modelled: allocation failure (malloc_z asserts that there is none); sockets, their options and
-- the loops that wait on them; the loop in flood_pkt_received that only reads and prints entries;
-- reading the configuration and the list of kernel interfaces; XML texts, which libxml parses; lib/ but
-- for event.c (a copy of the GNU Zebra library, whose timers and lists are used as their documentation
-- says), db/ (SQLite, whose answers are parameters of the path computation), snmp/ (calls of net-snmp),
-- the terminal (vty/, command/, tcl/), the log, the handlers of server/pem.c and of the server's own
-- packets, and test/ (googletest).
pub mod Base
pub mod Lsdb
pub mod Lsd
pub mod Policy
pub mod Timers
pub mod Ddc
pub mod Utils
pub mod Modules
pub mod Routes
pub mod Server
pub mod Comm
