-- ===== src/Lsd/Exchange/Transfer.antt =====
-- A whole exchange over a link that loses nothing (lsd/lsd_exchange.c).
use pma.Base.{
  ℕ, zero, suc, ◌≡◌, ◌≢◌, ap, ◌∙◌, List, [], ◌∷◌, ◌++◌, map, if◌then◌else◌, arith, length, eqb_refl,
}
use mathlib.Core.List.{append_assoc}
use pma.Lsdb.{LinkState}
use pma.Lsd.{Lsa, ExchangeType, ExchangeMaster, SendState, RcvState}
use pma.Lsd.Accept.{lsdb_to_lsa_info}
use pma.Lsd.Exchange.{make_packet, take_ack, take_links, pack, has_more}

-- The two ends of an exchange, and the advertisements that the receiver took.
pub record Session : Type 0 where
  pub sender : ExchangeMaster
  pub receiver : ExchangeMaster
  pub taken : List Lsa

-- The packet in the sender's buffer arrives, and its acknowledgement, if there is one, too.
unfoldable pub round : Session → Session
unfolding take_links take_ack
round s =
    let p = s.sender.sendbuf in
    let (r, acked) = take_links p s.receiver in
    if acked
    then record { sender = (take_ack p.seq s.sender).0; receiver = r; taken = s.taken ++ p.lsas }
    else record s { receiver = r }

-- Rounds, while the sender waits for an acknowledgement.
unfoldable pub rounds : ℕ → Session → Session
unfolding round
rounds zero s = s
rounds (suc n) s =
    let rest = rounds n (round s) in elim s.sender.send_state [ SendState.waiting ↦ rest | _ ↦ s ]

-- A sender with the entry `x` in its buffer.
pub record Sends (x : LinkState) (m : ExchangeMaster) : Type 0 where
  pub waits : m.send_state ≡ SendState.waiting
  pub type : m.sendbuf.type ≡ ExchangeType.links_state
  pub more : m.sendbuf.more ≡ has_more m.links_state
  pub number : m.sendbuf.seq ≡ m.pkg_no
  pub load : m.sendbuf.lsas ≡ lsdb_to_lsa_info x ∷ []

make_packet-Sends :
    (x : LinkState) (rest : List LinkState) (m : ExchangeMaster)
    → m.links_state ≡ x ∷ rest
    → Sends x (make_packet m).0 × ((make_packet m).0.links_state ≡ rest)
unfolding make_packet pack
make_packet-Sends x rest m e = ground arith

-- The last entry: both ends are done.
round-last :
    (x : LinkState) (s : Session)
    → Sends x s.sender
    → s.sender.links_state ≡ []
    → s.receiver.rcv_state ≢ RcvState.end
    → ((round s).sender.send_state ≡ SendState.end)
      × ((round s).receiver.rcv_state ≡ RcvState.end)
      × ((round s).taken ≡ s.taken ++ lsdb_to_lsa_info x ∷ [])
unfolding round take_ack take_links
round-last x s h e r = ground (arith, eqb_refl s.sender.pkg_no)

-- Any other: the next one is on its way.
round-next :
    (x y : LinkState) (rest : List LinkState) (s : Session)
    → Sends x s.sender
    → s.sender.links_state ≡ y ∷ rest
    → s.receiver.rcv_state ≢ RcvState.end
    → Sends y (round s).sender
      × ((round s).sender.links_state ≡ rest)
      × ((round s).receiver.rcv_state ≢ RcvState.end)
      × ((round s).taken ≡ s.taken ++ lsdb_to_lsa_info x ∷ [])
unfolding round take_ack take_links make_packet pack
round-next x y rest s h e r = ground (arith, eqb_refl s.sender.pkg_no)

rounds-step :
    (n : ℕ) (s : Session)
    → s.sender.send_state ≡ SendState.waiting
    → rounds (suc n) s ≡ rounds n (round s)
unfolding rounds
rounds-step n s e = ground arith

transfer :
    (x : LinkState) (rest : List LinkState) (s : Session)
    → Sends x s.sender
    → s.sender.links_state ≡ rest
    → s.receiver.rcv_state ≢ RcvState.end
    → let s' = rounds (suc (length rest)) s in
      (s'.sender.send_state ≡ SendState.end)
      × (s'.receiver.rcv_state ≡ RcvState.end)
      × (s'.taken ≡ s.taken ++ map lsdb_to_lsa_info (x ∷ rest))
unfolding rounds
transfer x [] s h e r = rw (rounds-step 0 s h.waits) (round-last x s h e r)
transfer x (y ∷ rest) s h e r =
    let (h', e', r', t') = round-next x y rest s h e r in
    let (a, b, c) = transfer y rest (round s) h' e' r' in
    rw (rounds-step (suc (length rest)) s h.waits)
      (a, b, c ∙ ap (λ l. l ++ map lsdb_to_lsa_info (y ∷ rest)) t' ∙ append_assoc s.taken _ _)

-- When a sender has at least one entry to send, the link delivers each packet and each
-- acknowledgement, and the receiver is not yet at the end of an exchange: after one round for each
-- entry both sides are at the end, and the receiver has taken exactly these entries, in order.
pub transfer-total :
    (x : LinkState) (rest : List LinkState) (sender receiver : ExchangeMaster)
    → sender.links_state ≡ x ∷ rest
    → receiver.rcv_state ≢ RcvState.end
    → let s' =
        rounds
          (length (x ∷ rest))
          (record { sender = (make_packet sender).0; receiver = receiver; taken = [] }) in
      (s'.sender.send_state ≡ SendState.end)
      × (s'.receiver.rcv_state ≡ RcvState.end)
      × (s'.taken ≡ map lsdb_to_lsa_info (x ∷ rest))
transfer-total x rest sender receiver e r =
    let (h, left) = make_packet-Sends x rest sender e in transfer x rest _ h left r
