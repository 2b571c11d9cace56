-- ===== src/Server/Guard.antt =====
-- A module gives packets to its own handlers only after its configuration has come.
use pma.Base.{
  ℕ, zero, suc, Bool, true, false, ◌&&◌, ◌||◌, ◌≡◌, refl, inl, inr, Option, none, some, List, [],
  ◌∷◌, ◌==◌, ltb, length, Bool-cases, All, ◌-◌, not,
}
use pma.Base.Outcome.{Outcome, ok, crash}
use pma.Comm.{Packet, header_size, byte_at}
use pma.Comm.Control.{Ctl, run_ctl}
use pma.Comm.Routers.{int_of_bytes}
use pma.Server.{
  Callback, ack_handle, own_handler, Client, Run, returned, stopped, crashed, and_then, Call,
  module_start, module_set_status, module_register, module_daemon, daemon_loop, module_get_data,
  status_transfer, send_packet, recv_packet, ctl_flag, traverse_event, acknowledged, run_callback,
  configured, get_packet, registered, daemon_turn, step, run,
}
use pma.Server.Keeps.{
  elem, is_guarded, Holds, Holds-and_then, Holds-map, flag-or, flag-conf, or_true, or-cases,
  elem-cons, IsGood, send_packet-IsGood, send_packets-IsGood, recv_packet-IsGood,
}

module _ {H : Type 0} (self_module conf_type : ℕ) (packet_handler : Ctl Callback)
    (handle : Packet → H → H × List (Option ℕ)) (junk : List ℕ) where
  -- The code never sets the status of a working module by `module_set_status`.
  abbrev IsAllowed : Call → Type 0
  IsAllowed (module_set_status status) = (status == 6) ≡ false
  IsAllowed module_start = Unit
  IsAllowed module_register = Unit
  IsAllowed module_daemon = Unit
  IsAllowed daemon_loop = Unit
  IsAllowed module_get_data = Unit

  status_transfer-IsAllowed : (status : ℕ) → All IsAllowed (status_transfer status)
  status_transfer-IsAllowed status = elim (Bool-cases (status == 7)) [
    | inl e ↦ rw e (tt, tt)
    | inr e ↦ elim (Bool-cases (status == 3)) [
      | inl f ↦ rw (e, f) (tt, tt)
      | inr f ↦ elim (Bool-cases (status == 1)) [
        | inl g ↦ rw (e, f, g) (tt, tt)
        | inr g ↦ rw (e, f, g) tt
      ]
    ]
  ]

  module _ (recur : Call → Client H → Run H (Unit {0}))
      (recur-IsGood : (c : Call)
        → IsAllowed c
        → (seen : Bool) (s : Client H) → IsGood conf_type seen s
        → Holds (IsGood conf_type seen) (recur c s)) where
    traverse_event-IsGood :
        (cs : List Call)
        → All IsAllowed cs
        → (seen : Bool) (s : Client H) → IsGood conf_type seen s
        → Holds
            (IsGood conf_type seen)
            (traverse_event self_module conf_type packet_handler handle junk recur cs s)
    traverse_event-IsGood [] h seen s g = g
    traverse_event-IsGood (c ∷ cs) h seen s g =
        Holds-and_then (IsGood conf_type seen) (recur c s)
          (λ r s'. traverse_event self_module conf_type packet_handler handle junk recur cs s')
          (recur-IsGood c h.0 seen s g) (λ r s' g'. traverse_event-IsGood cs h.1 seen s' g')

    acknowledged-IsGood :
        (seen : Bool) (p : Packet) (s : Client H)
        → IsGood conf_type seen s
        → Holds
            (IsGood conf_type seen)
            (acknowledged self_module conf_type packet_handler handle junk recur p s)
    acknowledged-IsGood seen p s g = elim (Bool-cases (ltb (length p.body) 8)) [
      | inl e ↦ rw e tt
      | inr e ↦
          let des_mod =
            int_of_bytes (byte_at 0 p.body) (byte_at 1 p.body) (byte_at 2 p.body)
              (byte_at 3 p.body) in
          let ret =
            int_of_bytes (byte_at 4 p.body) (byte_at 5 p.body) (byte_at 6 p.body)
              (byte_at 7 p.body) in
          elim (Bool-cases ((des_mod == self_module) && (ret == 0))) [
            | inl f ↦ rw (e, f) (recur-IsGood (module_set_status 3) refl seen s g)
            | inr f ↦ rw (e, f) g
          ]
    ]

    run_callback-IsGood :
        (seen : Bool) (o : Outcome (Option Callback)) (p : Packet) (s : Client H)
        → IsGood conf_type seen s
        → Holds
            (IsGood conf_type seen)
            (run_callback self_module conf_type packet_handler handle junk recur o p s)
    run_callback-IsGood seen crash p s g = tt
    run_callback-IsGood seen (ok none) p s g = g
    run_callback-IsGood seen (ok (some ack_handle)) p s g = acknowledged-IsGood seen p s g
    run_callback-IsGood seen (ok (some own_handler)) p s g =
        send_packets-IsGood self_module conf_type packet_handler handle junk seen (handle p s.own).1
          (record s { own = (handle p s.own).0 }) g

    -- With the packet that is given to the table, the configuration has come if it is one.
    pushed-IsGood :
        (seen : Bool) (ty : ℕ) (s : Client H)
        → ctl_flag self_module conf_type packet_handler handle junk s.module_status ty ≡ true
        → IsGood conf_type seen s
        → IsGood conf_type (seen || (ty == conf_type)) (record s { called = ty ∷ s.called })
    pushed-IsGood seen ty s flag (working, guarded, h) =
        let first : ((ty == 4) || ((ty == conf_type) || elem conf_type s.called)) ≡ true =
          flag-or (s.module_status == 6) (s.module_status == 2) (ty == 4) (ty == conf_type)
            (elem conf_type s.called) flag working in
        (
          λ e. elem-cons conf_type ty s.called (working e),
          rw (first, guarded) refl,
          λ e. elim (Bool-cases (ty == conf_type)) [
            | inl q ↦ rw q refl
            | inr q ↦ elem-cons conf_type ty s.called (h (or-cases seen (ty == conf_type) e q))
          ],
        )

    weaken : (a b : Bool) (s : Client H) → IsGood conf_type (a || b) s → IsGood conf_type a s
    weaken a b s (w, g, h) = (w, g, λ e. let e' : (a || b) ≡ true = rw e refl in h e')

    configured-IsGood :
        (seen : Bool) (p : Packet) (s : Client H)
        → IsGood conf_type (seen || (p.pkt_type == conf_type)) s
        → IsGood conf_type seen
            (configured self_module conf_type packet_handler handle junk recur p s)
    configured-IsGood seen p s (w, g, h) = elim (Bool-cases (p.pkt_type == conf_type)) [
      | inl e ↦
          let came : elem conf_type s.called ≡ true = h (rw e (or_true seen)) in
          rw e ((λ q. came), g, (λ q. came))
      | inr e ↦ rw e (weaken seen (p.pkt_type == conf_type) s (w, g, h))
    ]

    not_configured :
        (p : Packet) (s : Client H)
        → ctl_flag self_module conf_type packet_handler handle junk s.module_status p.pkt_type
          ≡ false
        → configured self_module conf_type packet_handler handle junk recur p s ≡ s
    not_configured p s flag =
        let no : (p.pkt_type == conf_type) ≡ false =
          flag-conf ((s.module_status == 6) || ((s.module_status == 2) && (p.pkt_type == 4)))
            (p.pkt_type == conf_type) flag in
        rw no refl

    get_packet-IsGood :
        (o : Option Packet) (seen : Bool) (s : Client H)
        → IsGood conf_type seen s
        → Holds
            (IsGood conf_type seen)
            (get_packet self_module conf_type packet_handler handle junk recur o s)
    get_packet-IsGood none seen s g = g
    get_packet-IsGood (some pkt) seen s g =
        let p = record pkt { pkt_len = pkt.pkt_len - header_size } in
        elim (Bool-cases (not (p.pkt_version == 3))) [
          | inl v ↦ rw v g
          | inr v ↦
              elim (Bool-cases (
                ctl_flag self_module conf_type packet_handler handle junk s.module_status
                  p.pkt_type)) [
                    | inl f ↦
                        let s' = record s { called = p.pkt_type ∷ s.called } in
                        let r =
                          run_callback self_module conf_type packet_handler handle junk recur
                            (run_ctl packet_handler p.pkt_type) p s' in
                        rw (v, f)
                          (and_then-configured seen p r (
                            run_callback-IsGood (seen || (p.pkt_type == conf_type))
                              (run_ctl packet_handler p.pkt_type) p s'
                              (pushed-IsGood seen p.pkt_type s f g)))
                    | inr f ↦ rw (v, f, not_configured p s f) g
                  ]
        ]
      where
        and_then-configured :
            (seen : Bool) (p : Packet) (r : Run H (Unit {0}))
            → Holds (IsGood conf_type (seen || (p.pkt_type == conf_type))) r
            → Holds (IsGood conf_type seen) (
                and_then r (λ a s'.
                  returned tt
                    (configured self_module conf_type packet_handler handle junk recur p s')))
        and_then-configured seen p (returned a s) h = configured-IsGood seen p s h
        and_then-configured seen p (stopped s) h = weaken seen (p.pkt_type == conf_type) s h
        and_then-configured seen p crashed h = tt

    registered-IsGood :
        (attempts : List (Bool × Option ℕ)) (seen : Bool) (s : Client H)
        → IsGood conf_type seen s
        → Holds
            (IsGood conf_type seen)
            (registered self_module conf_type packet_handler handle junk recur attempts s)
    registered-IsGood [] seen s g = g
    registered-IsGood ((true, e) ∷ more) seen s (w, g, h) =
        recur-IsGood module_get_data tt seen
          (send_packet self_module conf_type packet_handler handle junk e
            (record s { module_status = 2; attempts = more; con_status = 1 }))
          (send_packet-IsGood self_module conf_type packet_handler handle junk seen e
            (record s { module_status = 2; attempts = more; con_status = 1 }) ((λ no. cc), g, h))
    registered-IsGood ((false, e) ∷ more) seen s (w, g, h) =
        let s' = record s { module_status = 2; attempts = more } in
        Holds-and_then (IsGood conf_type seen) (recur (module_set_status 1) s')
          (λ r t.
            recur module_get_data
              (send_packet self_module conf_type packet_handler handle junk e t))
          (recur-IsGood (module_set_status 1) refl seen s' ((λ no. cc), g, h))
          (λ r t g'.
            recur-IsGood module_get_data tt seen
              (send_packet self_module conf_type packet_handler handle junk e t)
              (send_packet-IsGood self_module conf_type packet_handler handle junk seen e t g'))

    daemon_turn-IsGood :
        (lost seen : Bool) (s : Client H)
        → IsGood conf_type seen s
        → Holds
            (IsGood conf_type seen)
            (daemon_turn self_module conf_type packet_handler handle junk recur lost s)
    daemon_turn-IsGood true seen s g = recur-IsGood (module_set_status 7) refl seen s g
    daemon_turn-IsGood false seen s g =
        Holds-and_then (IsGood conf_type seen) (recur module_get_data s)
          (λ r s'. recur daemon_loop s') (recur-IsGood module_get_data tt seen s g)
          (λ r s' g'. recur-IsGood daemon_loop tt seen s' g')

    step-IsGood :
        (c : Call)
        → IsAllowed c
        → (seen : Bool) (s : Client H) → IsGood conf_type seen s
        → Holds
            (IsGood conf_type seen)
            (step self_module conf_type packet_handler handle junk recur c s)
    step-IsGood module_start allowed seen s g = recur-IsGood (module_set_status 1) refl seen s g
    step-IsGood (module_set_status status) allowed seen s (w, g, h) =
        traverse_event-IsGood (status_transfer status) (status_transfer-IsAllowed status) seen
          (record s { module_status = status }) ((λ e. cc), g, h)
    step-IsGood module_register allowed seen s g = registered-IsGood s.attempts seen s g
    step-IsGood module_daemon allowed seen s (w, g, h) =
        recur-IsGood daemon_loop tt seen (record s { module_status = 4 }) ((λ no. cc), g, h)
    step-IsGood daemon_loop allowed seen s g = daemon_turn-IsGood (s.con_status == 0) seen s g
    step-IsGood module_get_data allowed seen s g =
        Holds-and_then (IsGood conf_type seen)
          (recv_packet self_module conf_type packet_handler handle junk s)
          (get_packet self_module conf_type packet_handler handle junk recur)
          (recv_packet-IsGood self_module conf_type packet_handler handle junk seen s g)
          (λ o s' g'. get_packet-IsGood o seen s' g')

  run-IsGood :
      (fuel : ℕ) (c : Call)
      → IsAllowed c
      → (seen : Bool) (s : Client H) → IsGood conf_type seen s
      → Holds
          (IsGood conf_type seen)
          (run self_module conf_type packet_handler handle junk fuel c s)
  unfolding run
  run-IsGood zero c allowed seen s g = g
  run-IsGood (suc n) c allowed seen s g =
      step-IsGood (run self_module conf_type packet_handler handle junk n) (run-IsGood n) c allowed
        seen s g

  -- From its start on, whatever connections fail, whatever packets come, be they cut, refused or of
  -- another version, and whatever its handlers do: a module gives a packet to its table only if it
  -- is an answer or the configuration, or a configuration was given to the table before; and it
  -- counts as working only when one was.
  pub run-IsGuarded :
      (fuel : ℕ) (s : Client H)
      → s.module_status ≡ 0
      → s.called ≡ []
      → Holds
          (λ t.
            (is_guarded conf_type t.called ≡ true)
            × ((t.module_status == 6) ≡ true → elem conf_type t.called ≡ true))
          (run self_module conf_type packet_handler handle junk fuel module_start s)
  run-IsGuarded fuel s new none_called =
      Holds-map (IsGood conf_type false)
        (λ t.
          (is_guarded conf_type t.called ≡ true)
          × ((t.module_status == 6) ≡ true → elem conf_type t.called ≡ true))
        (λ t g. (g.1, g.0))
        (run self_module conf_type packet_handler handle junk fuel module_start s)
        (run-IsGood fuel module_start tt false s
          ((λ e. let no : (0 == 6) ≡ true = rw new at e in cc), rw none_called refl, (λ no. cc)))
