-- ===== src/Lsd/Exchange/Stuck.antt =====
-- An exchange whose last acknowledgement is lost (lsd/lsd_exchange.c): packets and
-- acknowledgements may now be delayed, lost and doubled.
use pma.Base.{ℕ, ◌≡◌, ◌⊎◌, subst, false, List, [], ◌∷◌, if◌then◌else◌, arith}
use pma.Lsd.{ExchangePkt, ExchangeMaster, SendState, RcvState}
use pma.Lsd.Exchange.{take_ack, take_links}

-- Both ends of the link and what is on its way.
pub record Net : Type 0 where
  pub sender : ExchangeMaster
  pub receiver : ExchangeMaster
  pub packets : List ExchangePkt
  pub acks : List ℕ

abbrev pub received : ExchangePkt → Net → Net
received p n =
    let (r, acked) = take_links p n.receiver in
    if acked then record n { receiver = r; acks = p.seq ∷ n.acks } else record n { receiver = r }

abbrev pub HasPacket : ExchangePkt → List ExchangePkt → Type 0
HasPacket p [] = ⊥
HasPacket p (q ∷ qs) = (p ≡ q) ⊎ HasPacket p qs

abbrev pub HasAck : ℕ → List ℕ → Type 0
HasAck a [] = ⊥
HasAck a (b ∷ bs) = (a ≡ b) ⊎ HasAck a bs

-- The sender's timer fires, a packet arrives and may arrive again, an acknowledgement arrives while
-- one is waited for, and anything on its way may be lost.
pub data Step : Net → Net → Type 0 where
  resends :
      (n : Net)
      → n.sender.send_state ≡ SendState.waiting
      → Step n (record n { packets = n.sender.sendbuf ∷ n.packets })
  arrives : (n : Net) (p : ExchangePkt) → HasPacket p n.packets → Step n (received p n)
  acknowledged :
      (n : Net) (a : ℕ)
      → HasAck a n.acks
      → n.sender.send_state ≡ SendState.waiting
      → Step n (record n {
        sender = (take_ack a n.sender).0;
        packets =
            if (take_ack a n.sender).1
            then (take_ack a n.sender).0.sendbuf ∷ n.packets
            else n.packets;
      })
  loses_packet :
      (n : Net) (p : ExchangePkt) (ps : List ExchangePkt)
      → n.packets ≡ p ∷ ps
      → Step n (record n { packets = ps })
  loses_ack :
      (n : Net) (a : ℕ) (rest : List ℕ) → n.acks ≡ a ∷ rest → Step n (record n { acks = rest })

pub data Reach (s : Net) : Net → Type 0 where
  here : Reach s s
  next : {t u : Net} → Reach s t → Step t u → Reach s u

-- The receiver is done, and no acknowledgement is on its way.
pub record IsStuck (n : Net) : Type 0 where
  pub done : n.receiver.rcv_state ≡ RcvState.end
  pub unheard : n.acks ≡ []
  pub waits : n.sender.send_state ≡ SendState.waiting

take_links-end :
    (p : ExchangePkt) (r : ExchangeMaster)
    → r.rcv_state ≡ RcvState.end
    → ((take_links p r).0.rcv_state ≡ RcvState.end) × ((take_links p r).1 ≡ false)
unfolding take_links
take_links-end p r e = ground arith

Step-IsStuck : {n n' : Net} → Step n n' → IsStuck n → IsStuck n'
Step-IsStuck (resends n w) s = record { done = s.done; unheard = s.unheard; waits = s.waits }
Step-IsStuck (arrives n p h) s = ground (arith, take_links-end p n.receiver s.done)
Step-IsStuck (acknowledged n a h w) s = absurd (subst (HasAck a) s.unheard h)
Step-IsStuck (loses_packet n p ps e) s = record {
  done = s.done;
  unheard = s.unheard;
  waits = s.waits;
}
Step-IsStuck (loses_ack n a rest e) s = cc (s.unheard)

-- When the sender waits for an acknowledgement while the receiver has reached the end of the exchange
-- and no acknowledgement is on its way, the sender still waits in every state that follows, whatever
-- packets are delayed, lost, doubled or sent again within the exchange: the receiver acknowledges
-- nothing any more.
pub Reach-IsStuck : {n n' : Net} → IsStuck n → Reach n n' → n'.sender.send_state ≡ SendState.waiting
Reach-IsStuck s r = (go s r).waits
  where
    go : {n n' : Net} → IsStuck n → Reach n n' → IsStuck n'
    go s here = s
    go s (next r st) = Step-IsStuck st (go s r)
