-- ===== src/Server/Login.antt =====
-- A module whose registration is answered and which gets its configuration handles every packet
-- that follows.
use pma.Base.{
  ℕ, zero, suc, ◌+◌, Bool, true, false, ◌≡◌, refl, Option, none, some, List, [], ◌∷◌, ◌++◌, ◌==◌,
  ltb, length, All, arith, eqb_refl,
}
use pma.Base.Outcome.{ok}
use pma.Comm.{Packet, Read}
use pma.Comm.Control.{Ctl, run_ctl}
use pma.Comm.Routers.{int_of_bytes}
use pma.Server.{
  Callback, ack_handle, Client, stopped, module_start, module_set_status, daemon_loop,
  module_get_data, ctl_flag, run,
}
use pma.Server.Receipt.{
  Message, reads_of, all_reads, packet_of, types_of, handle_all, connected, IsWelcome,
  recv_packet-reads_of, get_data-own, configured-working, zero_add, suc_add,
}

module _ {H : Type 0} (self_module conf_type : ℕ) (packet_handler : Ctl Callback)
    (handle : Packet → H → H × List (Option ℕ)) (junk : List ℕ) where
  module _ (sends : (p : Packet) (h : H) → All (λ e. e ≡ none) (handle p h).1) where
    waits :
        (m : ℕ) (more : List (Bool × Option ℕ)) (called : List ℕ) (own : H)
        → run self_module conf_type packet_handler handle junk
            (suc m)
            daemon_loop
            (connected 6 more [] called own)
          ≡ stopped (connected 6 more [] called own)
    unfolding run
    waits zero more called own = refl
    waits (suc m) more called own = refl

    daemon_loop-all :
        (qs : List Message) (m : ℕ) (more : List (Bool × Option ℕ)) (called : List ℕ) (own : H)
        → All (IsWelcome packet_handler) qs
        → run self_module conf_type packet_handler handle junk
            (suc (length qs + m))
            daemon_loop
            (connected 6 more (all_reads qs) called own)
          ≡ stopped (connected 6 more [] (types_of qs called) (handle_all handle qs own))
    unfolding run
    daemon_loop-all [] m more called own h = rw (zero_add m) (waits m more called own)
    daemon_loop-all (q ∷ qs) m more called own (h, hs) =
        let got =
          get_data-own self_module conf_type packet_handler handle junk sends
            (run self_module conf_type packet_handler handle junk (length qs + m)) q 6 more
            (all_reads qs) called own refl h in
        let same =
          configured-working self_module conf_type packet_handler handle junk sends
            (run self_module conf_type packet_handler handle junk (length qs + m)) (packet_of q)
            more (all_reads qs) (q.pkt_type ∷ called) (handle (packet_of q) own).0 in
        rw (suc_add (length qs) m, got, same)
          (daemon_loop-all qs m more (q.pkt_type ∷ called) (handle (packet_of q) own).0 hs)

    -- The loop from the configuration on.
    daemon_loop-configured :
        (conf : Message) (qs : List Message) (m : ℕ) (more : List (Bool × Option ℕ))
        (called : List ℕ) (own : H)
        → conf.pkt_type ≡ conf_type
        → IsWelcome packet_handler conf
        → All (IsWelcome packet_handler) qs
        → run self_module conf_type packet_handler handle junk
            (suc (suc (length qs + m)))
            daemon_loop
            (connected 4 more (all_reads (conf ∷ qs)) called own)
          ≡ stopped (
              connected 6 more [] (types_of (conf ∷ qs) called) (handle_all handle (conf ∷ qs) own))
    unfolding run
    daemon_loop-configured conf qs m more called own same h hs =
        let eq : (conf.pkt_type == conf_type) ≡ true = rw same (eqb_refl conf_type) in
        let flag : ctl_flag self_module conf_type packet_handler handle junk 4 conf.pkt_type
            ≡ true =
          eq in
        let got =
          get_data-own self_module conf_type packet_handler handle junk sends
            (run self_module conf_type packet_handler handle junk (length qs + m)) conf 4 more
            (all_reads qs) called own flag h in
        rw (got, eq)
          (daemon_loop-all qs m more (conf.pkt_type ∷ called) (handle (packet_of conf) own).0 hs)

    -- The answer to the registration, which names the module and has `ret` 0.
    abbrev pub IsAnswer : Message → Type 0
    IsAnswer ack =
        (a : ℕ) × (b : ℕ) × (c : ℕ) × (d : ℕ) × (info : List ℕ) × (ack
          ≡ record { pkt_type = 4; body = a ∷ b ∷ c ∷ d ∷ 0 ∷ 0 ∷ 0 ∷ 0 ∷ info })
        × (int_of_bytes a b c d ≡ self_module)

    get_data-ack :
        (n : ℕ) (ack : Message) (more : List (Bool × Option ℕ)) (rs : List Read) (called : List ℕ)
        (own : H) (t : Client H)
        → IsAnswer ack
        → run_ctl packet_handler 4 ≡ ok (some ack_handle)
        → run self_module conf_type packet_handler handle junk n
            (module_set_status 3)
            (connected 2 more rs (4 ∷ called) own)
          ≡ stopped t
        → run self_module conf_type packet_handler handle junk
            (suc n)
            module_get_data
            (connected 2 more (reads_of ack ++ rs) called own)
          ≡ stopped t
    unfolding run
    get_data-ack n ack more rs called own t (a, b, c, d, info, e, me) table next =
        let body = a ∷ b ∷ c ∷ d ∷ 0 ∷ 0 ∷ 0 ∷ 0 ∷ info in
        let mine : (int_of_bytes a b c d == self_module) ≡ true = rw me (eqb_refl self_module) in
        let long : ltb (length body) 8 ≡ false = ground arith in
        rw
          (
            e,
            recv_packet-reads_of self_module conf_type packet_handler handle junk 4 body 2 more rs
                called own,
            table,
            long,
            mine,
            next,
          )
          refl

    logged :
        (conf : Message) (qs : List Message) (m : ℕ) (more : List (Bool × Option ℕ))
        (called : List ℕ) (own : H)
        → conf.pkt_type ≡ conf_type
        → IsWelcome packet_handler conf
        → All (IsWelcome packet_handler) qs
        → run self_module conf_type packet_handler handle junk
            (suc (suc (suc (suc (length qs + m)))))
            (module_set_status 3)
            (connected 2 more (all_reads (conf ∷ qs)) called own)
          ≡ stopped (
              connected 6 more [] (types_of (conf ∷ qs) called) (handle_all handle (conf ∷ qs) own))
    unfolding run
    logged conf qs m more called own same h hs =
        rw (daemon_loop-configured conf qs m more called own same h hs) refl

    -- When the base module takes the connection and the registration, answers it with success, and
    -- then sends the configuration and any packets of at most 65527 bytes behind the header whose types
    -- have handlers of the module's own (an answer to the registration, which has another one, is not
    -- among them), every header comes in one `recv` and every body that is not empty in the next, and
    -- nothing that a handler sends fails: then the handlers get them all, in their order, and the
    -- module is working and waits for more. Eight turns more than there are packets after the
    -- configuration are enough, and more than that change nothing.
    pub module_start-login :
        (ack conf : Message) (qs : List Message) (m : ℕ) (more : List (Bool × Option ℕ)) (own : H)
        → IsAnswer ack
        → run_ctl packet_handler 4 ≡ ok (some ack_handle)
        → conf.pkt_type ≡ conf_type
        → IsWelcome packet_handler conf
        → All (IsWelcome packet_handler) qs
        → run self_module conf_type packet_handler handle junk
            (suc (suc (suc (suc (suc (suc (suc (suc (length qs + m)))))))))
            module_start
            (record {
              module_status = 0;
              con_status = 0;
              attempts = (true, none) ∷ more;
              recvs = all_reads (ack ∷ conf ∷ qs);
              called = [];
              own = own;
            })
          ≡ stopped (
              connected 6 more []
                (types_of (ack ∷ conf ∷ qs) [])
                (handle_all handle (conf ∷ qs) own))
    unfolding run
    module_start-login ack conf qs m more own answer table same h hs =
        let (a, b, c, d, info, e, me) = answer in
        let answered =
          get_data-ack (suc (suc (suc (suc (length qs + m))))) ack more (all_reads (conf ∷ qs)) []
            own
            (connected 6 more [] (types_of (conf ∷ qs) (4 ∷ []))
              (handle_all handle (conf ∷ qs) own))
            answer table (logged conf qs m more (4 ∷ []) own same h hs) in
        rw answered (rw e refl)
