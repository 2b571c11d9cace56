-- ===== src/Server.antt =====
-- A module of the agent as a client of the base module: server/server.c, server/socket.c and
-- lib/event.c. The functions call each other without an end, so a run has fuel, and stops as well
-- where it waits for a connection or for a packet. The daemon's wait with `select` before it reads is
-- left out: it waits on the socket that it found at its start, and reads from that of the latest
-- connection. When a loop goes on after another one inside it has lost the connection and made a new
-- one, these are the same number, since the system gives out the number closed last as the lowest that
-- is free, if no attempt to connect failed in between; after one that did, `srv_connect` has kept that
-- number and the wait fails for good, which is not modelled.
pub mod Dbm
mod Keeps
pub mod Guard
mod Receipt
pub mod Login
mod Tests
use pma.Base.{
  ℕ, zero, suc, ◌+◌, ◌-◌, Bool, true, false, ◌&&◌, ◌||◌, not, Option, none, some, List, [], ◌∷◌,
  ◌++◌, if◌then◌else◌, ◌==◌, ltb, length, take, drop,
}
use pma.Base.Outcome.{Outcome, ok, crash}
use pma.Base.Arrays.{put}
use pma.Comm.{Packet, Read, bytes, again, failed, closed, header_of, header_size, byte_at}
use pma.Comm.Control.{Ctl, run_ctl}
use pma.Comm.Routers.{int_of_bytes}

-- What the table `packet_handler` of a module holds: `ack_handle`, or a handler of its own.
pub data Callback : Type 0 where
  ack_handle : Callback
  own_handler : Callback

abbrev pub pma_version : ℕ
pma_version = 3

abbrev pub ack_type : ℕ
ack_type = 4

-- The values of `module_status` that the code sets.
abbrev pub m_status_inited : ℕ
m_status_inited = 1

abbrev pub m_status_logging : ℕ
m_status_logging = 2

abbrev pub m_status_logged : ℕ
m_status_logged = 3

abbrev pub m_status_waiting : ℕ
m_status_waiting = 4

abbrev pub m_status_working : ℕ
m_status_working = 6

abbrev pub m_status_offline : ℕ
m_status_offline = 7

-- The global state, with what is to come: for each registration, whether `connect` works and the
-- error of `send`, if there is one, and what `recv` gives. `called` are the types of the packets that
-- were given to the table, the last one first; `own` is the state of the module's own handlers.
pub record Client (H : Type 0) : Type 0 where
  pub module_status : ℕ
  pub con_status : ℕ
  pub attempts : List (Bool × Option ℕ)
  pub recvs : List Read
  pub called : List ℕ
  pub own : H

-- A function returns, stops where nothing more comes, or crashes.
pub data Run (H : Type 0) (A : Type 0) : Type 0 where
  returned : A → Client H → Run H A
  stopped : Client H → Run H A
  crashed : Run H A

abbrev pub and_then : {H A B : Type 0} → Run H A → (A → Client H → Run H B) → Run H B
and_then (returned a s) f = f a s
and_then (stopped s) f = stopped s
and_then crashed f = crashed

-- The functions that call each other; `daemon_loop` is the loop of `module_daemon`.
pub data Call : Type 0 where
  module_start : Call
  module_set_status : ℕ → Call
  module_register : Call
  module_daemon : Call
  daemon_loop : Call
  module_get_data : Call

abbrev pub add_event_handler : ℕ → Call → (ℕ → List Call) → ℕ → List Call
add_event_handler status handler queues = put queues status (handler ∷ queues status)

-- `status_transfer` after `module_init`.
abbrev pub status_transfer : ℕ → List Call
status_transfer = add_event_handler m_status_offline module_start (
    add_event_handler m_status_logged module_daemon
      (add_event_handler m_status_inited module_register (λ status. [])))

module _ {H : Type 0} (self_module conf_type : ℕ) (packet_handler : Ctl Callback)
    (handle : Packet → H → H × List (Option ℕ)) (junk : List ℕ) where
  abbrev pub disconnected : Client H → Client H
  disconnected s = record s { con_status = 0 }

  -- `errno` is compared with SIGPIPE, 13.
  abbrev pub send_packet : Option ℕ → Client H → Client H
  send_packet none s = s
  send_packet (some errno) s =
      if errno == 13 then record (disconnected s) { module_status = m_status_offline } else s

  abbrev pub send_packets : List (Option ℕ) → Client H → Client H
  send_packets [] s = s
  send_packets (e ∷ es) s = send_packets es (send_packet e s)

  abbrev pub recv_from : List Read → Client H → Run H Read
  recv_from [] s = stopped s
  recv_from (r ∷ rs) s = returned r (record s { recvs = rs })

  -- What `recv_packet` makes of the second `recv`. What it does not fill keeps what it held.
  abbrev pub received_body : Packet → Read → Client H → Run H (Option Packet)
  received_body p (bytes b) s =
      if length b == 0
      then returned none (disconnected s)
      else returned (some (record p { body = b ++ take (p.pkt_len - header_size - length b) junk }))
          s
  received_body p again s = returned none s
  received_body p failed s = returned none s
  received_body p closed s = returned none (disconnected s)

  -- `crashed` is a header that is copied behind a memory area of less than four bytes.
  abbrev pub received_header : Read → Client H → Run H (Option Packet)
  received_header (bytes b) s =
      let p = header_of junk b in
      if length b == 0
      then returned none (disconnected s)
      else if ltb p.pkt_len 4
      then crashed
      else if ltb p.pkt_len header_size
      then returned none s
      else if p.pkt_len == header_size
      then returned (some p) s
      else and_then (recv_from s.recvs s) (received_body p)
  received_header again s = returned none s
  received_header failed s = returned none s
  received_header closed s = returned none (disconnected s)

  abbrev pub recv_packet : Client H → Run H (Option Packet)
  recv_packet s = and_then (recv_from s.recvs s) received_header

  -- `ctl_flag` of `module_get_data`.
  abbrev pub ctl_flag : ℕ → ℕ → Bool
  ctl_flag status pkt_type =
      (status == m_status_working)
      || ((status == m_status_logging) && (pkt_type == ack_type))
      || (pkt_type == conf_type)

  module _ (recur : Call → Client H → Run H (Unit {0})) where
    abbrev pub traverse_event : List Call → Client H → Run H (Unit {0})
    traverse_event [] s = returned tt s
    traverse_event (c ∷ cs) s = and_then (recur c s) (λ r s'. traverse_event cs s')

    -- `ack_handle`; `crashed` is an answer that is read behind its packet.
    abbrev pub acknowledged : Packet → Client H → Run H (Unit {0})
    acknowledged p s =
        let des_mod =
          int_of_bytes (byte_at 0 p.body) (byte_at 1 p.body) (byte_at 2 p.body)
            (byte_at 3 p.body) in
        let ret =
          int_of_bytes (byte_at 4 p.body) (byte_at 5 p.body) (byte_at 6 p.body)
            (byte_at 7 p.body) in
        if ltb (length p.body) 8 then crashed else elim ((des_mod == self_module) && (ret == 0)) [
          | true ↦ recur (module_set_status m_status_logged) s
          | false ↦ returned tt s
        ]

    -- What `run_ctl` calls.
    abbrev pub run_callback : Outcome (Option Callback) → Packet → Client H → Run H (Unit {0})
    run_callback crash p s = crashed
    run_callback (ok none) p s = returned tt s
    run_callback (ok (some ack_handle)) p s = acknowledged p s
    run_callback (ok (some own_handler)) p s =
        let (h, es) = handle p s.own in returned tt (send_packets es (record s { own = h }))

    abbrev pub configured : Packet → Client H → Client H
    configured p s =
        if p.pkt_type == conf_type then record s { module_status = m_status_working } else s

    -- `module_get_data` with the packet that was received.
    abbrev pub get_packet : Option Packet → Client H → Run H (Unit {0})
    get_packet none s = returned tt s
    get_packet (some pkt) s =
        let p = record pkt { pkt_len = pkt.pkt_len - header_size } in
        if not (p.pkt_version == pma_version)
        then returned tt s
        else elim (ctl_flag s.module_status p.pkt_type) [
          | true ↦
              and_then
                (run_callback (run_ctl packet_handler p.pkt_type) p
                  (record s { called = p.pkt_type ∷ s.called }))
                (λ r s'. returned tt (configured p s'))
          | false ↦ returned tt (configured p s)
        ]

    -- `module_register` with what comes for it. After a failed connection it starts again, and goes
    -- on when that returns.
    abbrev pub registered : List (Bool × Option ℕ) → Client H → Run H (Unit {0})
    registered [] s = stopped s
    registered ((connects, e) ∷ more) s =
        let s' = record s { module_status = m_status_logging; attempts = more } in
        and_then
          (elim connects [
            | true ↦ returned tt (record s' { con_status = 1 })
            | false ↦ recur (module_set_status m_status_inited) s'
          ])
          (λ r t. recur module_get_data (send_packet e t))

    -- A turn of the loop of `module_daemon`, and what follows when the connection is lost.
    abbrev pub daemon_turn : Bool → Client H → Run H (Unit {0})
    daemon_turn true s = recur (module_set_status m_status_offline) s
    daemon_turn false s = and_then (recur module_get_data s) (λ r s'. recur daemon_loop s')

    abbrev pub step : Call → Client H → Run H (Unit {0})
    step module_start s = recur (module_set_status m_status_inited) s
    step (module_set_status status) s =
        traverse_event (status_transfer status) (record s { module_status = status })
    step module_register s = registered s.attempts s
    step module_daemon s = recur daemon_loop (record s { module_status = m_status_waiting })
    step daemon_loop s = daemon_turn (s.con_status == 0) s
    step module_get_data s = and_then (recv_packet s) get_packet

  unfoldable pub run : ℕ → Call → Client H → Run H (Unit {0})
  run zero c s = stopped s
  run (suc fuel) c s = step (run fuel) c s
