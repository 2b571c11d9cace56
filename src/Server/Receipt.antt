-- ===== src/Server/Receipt.antt =====
-- The packets that the base module sends to a module, and what one of them does.
use mathlib.Core.List.{append-nil}
use pma.Base.{
  ℕ, suc, ◌+◌, ◌-◌, ◌*◌, ◌/◌, ◌%◌, ◌≤◌, Bool, true, false, ◌≡◌, refl, inl, inr, Option, none, some,
  List, [], ◌∷◌, ◌++◌, ◌==◌, ltb, length, Bool-cases, All, arith,
}
use pma.Base.Outcome.{ok}
use pma.Comm.{Packet, Read, bytes, header_size}
use pma.Comm.Control.{Ctl, run_ctl}
use pma.Server.{
  Callback, own_handler, Client, Run, returned, Call, module_get_data, send_packets, recv_packet,
  get_packet, ctl_flag, configured, step,
}

-- A packet of the base module, whose `checksum` is 0x123456, and the `recv`s that give it.
pub record Message : Type 0 where
  pub pkt_type : ℕ
  pub body : List ℕ

abbrev header : ℕ → ℕ → List ℕ
header pkt_type n = pkt_type ∷ 3 ∷ n % 256 ∷ n / 256 ∷ 86 ∷ 52 ∷ 18 ∷ 0 ∷ []

abbrev body_reads : List ℕ → List Read
body_reads [] = []
body_reads (b ∷ bs) = bytes (b ∷ bs) ∷ []

abbrev pub reads_of : Message → List Read
reads_of q = bytes (header q.pkt_type (header_size + length q.body)) ∷ body_reads q.body

abbrev pub all_reads : List Message → List Read
all_reads [] = []
all_reads (q ∷ qs) = reads_of q ++ all_reads qs

-- The packet as the handlers get it, with the length of its body.
abbrev pub packet_of : Message → Packet
packet_of q = record {
  pkt_type = q.pkt_type;
  pkt_version = 3;
  pkt_len = length q.body;
  body = q.body;
}

-- Newest first.
abbrev pub types_of : List Message → List ℕ → List ℕ
types_of [] ts = ts
types_of (q ∷ qs) ts = types_of qs (q.pkt_type ∷ ts)

abbrev pub handle_all : {H : Type 0} → (Packet → H → H × List (Option ℕ)) → List Message → H → H
handle_all handle [] h = h
handle_all handle (q ∷ qs) h = handle_all handle qs (handle (packet_of q) h).0

pub zero_add : (m : ℕ) → 0 + m ≡ m
zero_add m = omega arith

pub suc_add : (n m : ℕ) → suc n + m ≡ suc (n + m)
suc_add n m = omega arith

-- A module that is connected.
abbrev pub connected : {H : Type 0} → ℕ → List (Bool × Option ℕ) → List Read → List ℕ → H → Client H
connected status attempts recvs called own = record {
  module_status = status;
  con_status = 1;
  attempts = attempts;
  recvs = recvs;
  called = called;
  own = own;
}

-- The packet fits into 16 bits, and the table has a handler of the module's own for it, so that it is
-- no answer to the registration.
abbrev pub IsWelcome : Ctl Callback → Message → Type 0
IsWelcome packet_handler q =
    (length q.body ≤ 65527) × (run_ctl packet_handler q.pkt_type ≡ ok (some own_handler))

module _ {H : Type 0} (self_module conf_type : ℕ) (packet_handler : Ctl Callback)
    (handle : Packet → H → H × List (Option ℕ)) (junk : List ℕ) where
  pub recv_packet-reads_of :
      (t : ℕ) (b : List ℕ) (st : ℕ) (more : List (Bool × Option ℕ)) (rs : List Read)
      (called : List ℕ) (own : H)
      → recv_packet self_module conf_type packet_handler handle junk
          (connected st more (reads_of (record { pkt_type = t; body = b }) ++ rs) called own)
        ≡ returned
            (some (record {
              pkt_type = t;
              pkt_version = 3;
              pkt_len = header_size + length b;
              body = b;
            }))
            (connected st more rs called own)
  recv_packet-reads_of t [] st more rs called own = refl
  recv_packet-reads_of t (x ∷ b) st more rs called own =
      let n = header_size + length (x ∷ b) in
      let e : n % 256 + 256 * (n / 256) ≡ n = omega arith in
      let long : ltb n 4 ≡ false = ground arith in
      let whole : ltb n header_size ≡ false = ground arith in
      let some_body : (n == header_size) ≡ false = ground arith in
      let filled : n - header_size - length (x ∷ b) ≡ 0 = omega arith in
      let not_empty : (length (x ∷ b) == 0) ≡ false = ground arith in
      rw (e, long, whole, some_body, not_empty, filled, append-nil (x ∷ b)) refl

  send_packets-none :
      (es : List (Option ℕ)) (s : Client H)
      → All (λ e. e ≡ none) es
      → send_packets self_module conf_type packet_handler handle junk es s ≡ s
  send_packets-none [] s h = refl
  send_packets-none (e ∷ es) s (h, hs) = rw h (send_packets-none es s hs)

  module _ (sends : (p : Packet) (h : H) → All (λ e. e ≡ none) (handle p h).1) where
    get_packet-own :
        (recur : Call → Client H → Run H (Unit {0})) (t n k : ℕ) (b : List ℕ) (st : ℕ)
        (more : List (Bool × Option ℕ)) (rs : List Read) (called : List ℕ) (own : H)
        → n - header_size ≡ k
        → ctl_flag self_module conf_type packet_handler handle junk st t ≡ true
        → run_ctl packet_handler t ≡ ok (some own_handler)
        → let p : Packet = record { pkt_type = t; pkt_version = 3; pkt_len = k; body = b } in
          get_packet self_module conf_type packet_handler handle junk recur
            (some (record { pkt_type = t; pkt_version = 3; pkt_len = n; body = b }))
            (connected st more rs called own)
          ≡ returned tt (
              configured self_module conf_type packet_handler handle junk recur p
                (connected st more rs (t ∷ called) (handle p own).0))
    get_packet-own recur t n k b st more rs called own e flag mine =
        let p : Packet = record {
          pkt_type = t;
          pkt_version = 3;
          pkt_len = n - header_size;
          body = b;
        } in
        let sent =
          send_packets-none (handle p own).1 (connected st more rs (t ∷ called) (handle p own).0)
            (sends p own) in
        rw (← e, flag, mine, sent) refl

    pub get_data-own :
        (recur : Call → Client H → Run H (Unit {0})) (q : Message) (st : ℕ)
        (more : List (Bool × Option ℕ)) (rs : List Read) (called : List ℕ) (own : H)
        → ctl_flag self_module conf_type packet_handler handle junk st q.pkt_type ≡ true
        → IsWelcome packet_handler q
        → step self_module conf_type packet_handler handle junk recur module_get_data
            (connected st more (reads_of q ++ rs) called own)
          ≡ returned tt (
              configured self_module conf_type packet_handler handle junk recur
                (packet_of q)
                (connected st more rs (q.pkt_type ∷ called) (handle (packet_of q) own).0))
    get_data-own recur q st more rs called own flag (fits, mine) =
        rw (recv_packet-reads_of q.pkt_type q.body st more rs called own) (
          get_packet-own recur q.pkt_type (header_size + length q.body) (length q.body) q.body st
            more rs called own (omega arith) flag mine)

    pub configured-working :
        (recur : Call → Client H → Run H (Unit {0})) (p : Packet) (more : List (Bool × Option ℕ))
        (rs : List Read) (called : List ℕ) (own : H)
        → configured self_module conf_type packet_handler handle junk recur p
            (connected 6 more rs called own)
          ≡ connected 6 more rs called own
    configured-working recur p more rs called own = elim (Bool-cases (p.pkt_type == conf_type)) [
      | inl e ↦ rw e refl
      | inr e ↦ rw e refl
    ]
