-- ===== src/Lsd/Receive/Checks.antt =====
-- Which packets are let through (lsd/lsd_socket.c), and that what one daemon sends reaches the
-- handlers of the other.
use pma.Base.{
  ℕ, ◌≡◌, refl, ◌≢◌, ◌⊎◌, inl, inr, true, false, none, some, List, [], ◌∷◌, ◌++◌, All, ◌==◌, false,
  get_elem?, arith,
}
use pma.Base.Outcome.{Outcome-cases, ok, ◌>>=◌}
use pma.Lsdb.{Timeval}
use pma.Lsd.{
  Packet, Body, BackboneEth, Zone, lsd_version, lsd_checksum, lsd_send, stamp, is_sendable,
}
use pma.Lsd.Receive.{dispatch, lsd_receive, admitted, get_backbone_by_neighbor_id, is_up}

-- A packet that is not for this zone, or is refused in it: another area, version or checksum, no
-- interface to its sender, or one that is down.
abbrev pub Refused : Packet → Zone → Type 0
Refused p z =
    (z.az_id ≢ p.area_id)
    ⊎ ((p.version ≢ lsd_version)
        ⊎ ((p.icsum ≢ lsd_checksum)
            ⊎ ((get_backbone_by_neighbor_id p.r_id z.backbones ≡ none)
                ⊎ ((i : ℕ) × (get_backbone_by_neighbor_id p.r_id z.backbones ≡ some i)
                    × (is_up (get_elem? z.backbones i) ≡ false)))))

Refused-none : (p : Packet) (z : Zone) → Refused p z → z.az_id ≡ p.area_id → admitted p z ≡ none
unfolding admitted
Refused-none p z (inl h) e = absurd (h e)
Refused-none p z (inr (inl h)) e = ground arith
Refused-none p z (inr (inr (inl h))) e = ground arith
Refused-none p z (inr (inr (inr (inl h)))) e = ground arith
Refused-none p z (inr (inr (inr (inr (i, f, d))))) e = ground arith

abbrev pub AllRefused : Packet → List Zone → Type 0
AllRefused p [] = Unit
AllRefused p (z ∷ zs) = Refused p z × AllRefused p zs

-- A packet changes nothing and sends nothing if in every zone its area is another, or its version
-- or checksum is wrong, or no interface leads to its sender, or the first that does is down.
pub receive-refused :
    (now junk : Timeval) (p : Packet) (zs : List Zone)
    → AllRefused p zs
    → lsd_receive now junk p zs ≡ ok zs
unfolding lsd_receive
receive-refused now junk p [] h = refl
receive-refused now junk p (z ∷ zs) h =
    ground (arith, Refused-none p z h.0, receive-refused now junk p zs h.1)

-- The first zone of a packet's area, where the packet is let through to an interface.
receive-admitted :
    (now junk : Timeval) (p : Packet) (i : ℕ) (z : Zone) (before after : List Zone)
    → All (λ y. y.az_id ≢ p.area_id) before
    → z.az_id ≡ p.area_id
    → admitted p z ≡ some i
    → lsd_receive now junk p (before ++ z ∷ after)
      ≡ (dispatch now junk i p z >>= λ z'. ok (before ++ z' ∷ after))
unfolding lsd_receive
receive-admitted now junk p i z [] after h a through =
    let here : (z.az_id == p.area_id) ≡ true = ground arith in rw (here, through) refl
receive-admitted now junk p i z (y ∷ before) after (n, h) a through =
    let other : (y.az_id == p.area_id) ≡ false = ground arith in
    rw (other, receive-admitted now junk p i z before after h a through)
      (elim (Outcome-cases (dispatch now junk i p z)) [
        | inl e ↦ rw e refl
        | inr (z', e) ↦ rw e refl
      ])

-- What is sent to a neighbour whose agent is known, in a body that can be sent, is a packet with that
-- body, and `lsd_receive` of the neighbour's daemon passes it to the handlers of the zone that is its
-- first one of the sender's area, for the first interface there that leads to the sender, if there is
-- one and it is up.
pub receive-send :
    (now junk : Timeval) (z z' : Zone) (before after : List Zone) (e : BackboneEth) (len i : ℕ)
    (body : Body)
    → e.neighbor_device_id ≢ 0
    → e.neighbor_ctl_addr ≢ 0
    → is_sendable body ≡ true
    → All (λ y. y.az_id ≢ z.az_id) before
    → z'.az_id ≡ z.az_id
    → get_backbone_by_neighbor_id z.device_id z'.backbones ≡ some i
    → is_up (get_elem? z'.backbones i) ≡ true
    → (p : Packet) × ((lsd_send z len body e).sent ≡ p ∷ e.sent)
      × (p.body ≡ body)
      × (lsd_receive now junk p (before ++ z' ∷ after)
          ≡ (dispatch now junk i p z' >>= λ z''. ok (before ++ z'' ∷ after)))
unfolding lsd_send admitted
receive-send now junk z z' before after e len i body known addr fits others area from up_there =
    let p = stamp z e len body in
    let through : admitted p z' ≡ some i = ground arith in
    (p, ground arith, refl, receive-admitted now junk p i z' before after others area through)
