-- ===== src/Server/Keeps.antt =====
-- What a module keeps, and that sending and receiving keep it.
use pma.Base.{
  ℕ, Bool, true, false, ◌&&◌, ◌||◌, ◌≡◌, refl, inl, inr, Option, none, some, List, [], ◌∷◌, ◌==◌,
  ltb, length, Bool-cases,
}
use pma.Comm.{Packet, Read, bytes, again, failed, closed, header_of, header_size}
use pma.Comm.Control.{Ctl}
use pma.Server.{
  Callback, Client, Run, returned, stopped, crashed, and_then, send_packet, send_packets, recv_from,
  received_body, received_header, recv_packet,
}

abbrev pub elem : ℕ → List ℕ → Bool
elem x [] = false
elem x (y ∷ ys) = (y == x) || elem x ys

-- In a list with the last one first, each type is that of an answer or of the configuration, or
-- comes after a configuration.
abbrev pub is_guarded : ℕ → List ℕ → Bool
is_guarded conf_type [] = true
is_guarded conf_type (t ∷ ts) =
    ((t == 4) || ((t == conf_type) || elem conf_type ts)) && is_guarded conf_type ts

-- `P` holds in the state in which a run returns or stops.
abbrev pub Holds : {H A : Type 0} → (Client H → Type 0) → Run H A → Type 0
Holds P (returned a s) = P s
Holds P (stopped s) = P s
Holds P crashed = Unit

pub Holds-and_then :
    {H A B : Type 0} (P : Client H → Type 0) (r : Run H A) (f : A → Client H → Run H B)
    → Holds P r
    → ((a : A) (s : Client H) → P s → Holds P (f a s))
    → Holds P (and_then r f)
Holds-and_then P (returned a s) f h k = k a s h
Holds-and_then P (stopped s) f h k = h
Holds-and_then P crashed f h k = tt

pub Holds-map :
    {H A : Type 0} (P Q : Client H → Type 0)
    → ((s : Client H) → P s → Q s)
    → (r : Run H A) → Holds P r
    → Holds Q r
Holds-map P Q f (returned a s) h = f s h
Holds-map P Q f (stopped s) h = f s h
Holds-map P Q f crashed h = tt

pub flag-or :
    (a b c d e : Bool)
    → ((a || (b && c)) || d) ≡ true
    → (a ≡ true → e ≡ true)
    → (c || (d || e)) ≡ true
flag-or a b true d e h k = refl
flag-or a b false true e h k = refl
flag-or a b false false true h k = refl
flag-or true b false false false h k = k refl
flag-or false true false false false h k = h
flag-or false false false false false h k = h

pub flag-conf : (x d : Bool) → (x || d) ≡ false → d ≡ false
flag-conf true d h = cc
flag-conf false d h = h

pub or_true : (a : Bool) → (a || true) ≡ true
or_true true = refl
or_true false = refl

pub or-cases : (a b : Bool) → (a || b) ≡ true → b ≡ false → a ≡ true
or-cases true b h k = refl
or-cases false b h k = cc

pub elem-cons : (x y : ℕ) (ys : List ℕ) → elem x ys ≡ true → elem x (y ∷ ys) ≡ true
elem-cons x y ys h = elim (Bool-cases (y == x)) [ inl e ↦ rw e refl | inr e ↦ rw e h ]

-- What a module keeps; `seen` says that the configuration must have come.
abbrev pub IsGood : {H : Type 0} → ℕ → Bool → Client H → Type 0
IsGood conf_type seen s =
    ((s.module_status == 6) ≡ true → elem conf_type s.called ≡ true)
    × (is_guarded conf_type s.called ≡ true)
    × (seen ≡ true → elem conf_type s.called ≡ true)

module _ {H : Type 0} (self_module conf_type : ℕ) (packet_handler : Ctl Callback)
    (handle : Packet → H → H × List (Option ℕ)) (junk : List ℕ) where
  pub send_packet-IsGood :
      (seen : Bool) (e : Option ℕ) (s : Client H)
      → IsGood conf_type seen s
      → IsGood conf_type seen (send_packet self_module conf_type packet_handler handle junk e s)
  send_packet-IsGood seen none s g = g
  send_packet-IsGood seen (some e) s g = elim (Bool-cases (e == 13)) [
    | inl q ↦ rw q ((λ no. cc), g.1, g.2)
    | inr q ↦ rw q g
  ]

  pub send_packets-IsGood :
      (seen : Bool) (es : List (Option ℕ)) (s : Client H)
      → IsGood conf_type seen s
      → IsGood conf_type seen (send_packets self_module conf_type packet_handler handle junk es s)
  send_packets-IsGood seen [] s g = g
  send_packets-IsGood seen (e ∷ es) s g =
      send_packets-IsGood seen es (send_packet self_module conf_type packet_handler handle junk e s)
        (send_packet-IsGood seen e s g)

  received_body-IsGood :
      (seen : Bool) (p : Packet) (r : Read) (s : Client H)
      → IsGood conf_type seen s
      → Holds
          (IsGood conf_type seen)
          (received_body self_module conf_type packet_handler handle junk p r s)
  received_body-IsGood seen p (bytes b) s g = elim (Bool-cases (length b == 0)) [
    | inl e ↦ rw e g
    | inr e ↦ rw e g
  ]
  received_body-IsGood seen p again s g = g
  received_body-IsGood seen p failed s g = g
  received_body-IsGood seen p closed s g = g

  recv_from-IsGood :
      (seen : Bool) (rs : List Read) (s : Client H)
      → IsGood conf_type seen s
      → Holds
          (IsGood conf_type seen)
          (recv_from self_module conf_type packet_handler handle junk rs s)
  recv_from-IsGood seen [] s g = g
  recv_from-IsGood seen (r ∷ rs) s g = g

  received_header-IsGood :
      (seen : Bool) (r : Read) (s : Client H)
      → IsGood conf_type seen s
      → Holds
          (IsGood conf_type seen)
          (received_header self_module conf_type packet_handler handle junk r s)
  received_header-IsGood seen (bytes b) s g =
      let p = header_of junk b in
      elim (Bool-cases (length b == 0)) [
        | inl e ↦ rw e g
        | inr e ↦ elim (Bool-cases (ltb p.pkt_len 4)) [
          | inl c ↦ rw (e, c) tt
          | inr c ↦ elim (Bool-cases (ltb p.pkt_len header_size)) [
            | inl d ↦ rw (e, c, d) g
            | inr d ↦ elim (Bool-cases (p.pkt_len == header_size)) [
              | inl f ↦ rw (e, c, d, f) g
              | inr f ↦
                  rw (e, c, d, f)
                    (Holds-and_then (IsGood conf_type seen)
                      (recv_from self_module conf_type packet_handler handle junk s.recvs s)
                      (received_body self_module conf_type packet_handler handle junk p)
                      (recv_from-IsGood seen s.recvs s g) (received_body-IsGood seen p))
            ]
          ]
        ]
      ]
  received_header-IsGood seen again s g = g
  received_header-IsGood seen failed s g = g
  received_header-IsGood seen closed s g = g

  pub recv_packet-IsGood :
      (seen : Bool) (s : Client H)
      → IsGood conf_type seen s
      → Holds
          (IsGood conf_type seen)
          (recv_packet self_module conf_type packet_handler handle junk s)
  recv_packet-IsGood seen s g =
      Holds-and_then (IsGood conf_type seen)
        (recv_from self_module conf_type packet_handler handle junk s.recvs s)
        (received_header self_module conf_type packet_handler handle junk)
        (recv_from-IsGood seen s.recvs s g) (received_header-IsGood seen)
