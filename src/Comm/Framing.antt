-- ===== src/Comm/Framing.antt =====
-- Packets that are sent one after the other are read one after the other, however the bodies are
-- cut into pieces.
use mathlib.Core.List.{append-nil, append_assoc}
use pma.Base.{
  if◌then◌else◌, ltb, true, false, sym, ◌∙◌, inl, inr, none, some, Option, ◌==◌, leb, ℕ, ◌+◌, ◌-◌,
  ◌*◌, ◌/◌, ◌%◌, ◌≤◌, ◌<◌, ◌≡◌, refl, List, [], ◌∷◌, ◌++◌, map, length, All, arith, length-append,
}
use pma.Base.Outcome.{>>=-congr, >>=_assoc, Outcome-cases, Outcome, ok, ◌>>=◌}
use pma.Comm.{
  after_header, handled, after_read, whole, Packet, Read, bytes, Reading, before_header, in_body,
  child_process, Ended, header_size, max_buf,
}

-- A packet as it is sent, with the pieces in which its body comes.
pub record Message : Type 0 where
  pub pkt_type : ℕ
  pub pkt_version : ℕ
  pub checksum : ℕ × ℕ × ℕ × ℕ
  pub pieces : List (List ℕ)

abbrev pub concat : List (List ℕ) → List ℕ
concat [] = []
concat (x ∷ xs) = x ++ concat xs

abbrev pub size : Message → ℕ
size m = header_size + length (concat m.pieces)

abbrev header : Message → List ℕ
header m =
    m.pkt_type
    ∷ m.pkt_version
    ∷ size m % 256
    ∷ size m / 256
    ∷ m.checksum.0
    ∷ m.checksum.1
    ∷ m.checksum.2
    ∷ m.checksum.3
    ∷ []

-- `send_pkt` of a header and a body.
abbrev pub reads_of : Message → List Read
reads_of m = bytes (header m) ∷ map bytes m.pieces

abbrev pub all_reads : List Message → List Read
all_reads [] = []
all_reads (m ∷ ms) = reads_of m ++ all_reads ms

abbrev pub packet_of : Message → Packet
packet_of m = record {
  pkt_type = m.pkt_type;
  pkt_version = m.pkt_version;
  pkt_len = size m;
  body = concat m.pieces;
}

-- The body fits into the buffer, and no piece is empty.
abbrev pub IsSendable : Message → Type 0
IsSendable m = (length (concat m.pieces) ≤ max_buf) × All (λ b. 0 < length b) m.pieces

module _ {ℓ} {S : Type ℓ} (handle : Packet → S → Outcome S) (junk : List ℕ) where
  abbrev pub handle_each : List Packet → S → Outcome S
  handle_each [] s = ok s
  handle_each (p ∷ ps) s = handle p s >>= handle_each ps

  -- What comes after a packet that is handled.
  abbrev next_turn : Option Ended × Reading × S → List Read → Outcome (Ended × S)
  next_turn t rs = elim t.0 [ none ↦ child_process handle junk t.1 rs t.2 | some e ↦ ok (e, t.2) ]

  child_process-cons :
      (at : Reading) (r : Read) (rs : List Read) (s : S)
      → child_process handle junk at (r ∷ rs) s
        ≡ (after_read handle junk at r s >>= λ t. next_turn t rs)
  unfolding child_process
  child_process-cons at r rs s = refl

  handled-next_turn :
      (p : Packet) (s : S) (rs : List Read)
      → (handled handle junk p s >>= λ t. next_turn t rs)
        ≡ (handle p s >>= λ s'. child_process handle junk before_header rs s')
  handled-next_turn p s rs = elim (Outcome-cases (handle p s)) [
    | inl e ↦ rw e refl
    | inr (s', e) ↦ rw e refl
  ]

  body-pieces :
      (p : Packet) (n : ℕ) (b : List ℕ) (pieces : List (List ℕ)) (rs : List Read) (s : S)
      → n ≡ length (concat (b ∷ pieces))
      → All (λ b. 0 < length b) (b ∷ pieces)
      → child_process handle junk (in_body p 0 n) (map bytes (b ∷ pieces) ++ rs) s ≡ (
          handle (record p { body = p.body ++ concat (b ∷ pieces) }) s >>= λ s'.
          child_process handle junk before_header rs s')
  body-pieces p n b [] rs s e (h, hs) =
      let some_bytes : (length b == 0) ≡ false = ground arith in
      let last : leb n (length b) ≡ true = ground (arith, length-append b []) in
      child_process-cons (in_body p 0 n) (bytes b) rs s
      ∙ rw (some_bytes, last)
          (handled-next_turn (whole junk 0 (record p { body = p.body ++ b })) s rs
            ∙ rw (append-nil (p.body ++ b), append-nil b) refl)
  body-pieces p n b (c ∷ pieces) rs s e (h, hs) =
      let some_bytes : (length b == 0) ≡ false = ground arith in
      let more : leb n (length b) ≡ false =
        ground (arith, length-append b (concat (c ∷ pieces)), length-append c (concat pieces)) in
      child_process-cons (in_body p 0 n) (bytes b) (map bytes (c ∷ pieces) ++ rs) s
      ∙ rw (some_bytes, more)
          (body-pieces (record p { body = p.body ++ b }) (n - length b) c pieces rs s
              (ground (arith, length-append b (concat (c ∷ pieces)))) hs
            ∙ rw (append_assoc p.body b (c ++ concat pieces)) refl)

  after_header-header :
      (m : Message) (s : S)
      → length (concat m.pieces) ≤ max_buf
      → after_header handle junk (header m) s ≡ (
          if leb (size m) header_size
          then handled handle junk (record (packet_of m) { body = [] }) s
          else ok (none, in_body (record (packet_of m) { body = [] }) 0 (size m - header_size), s))
  after_header-header m s fits =
      let e : size m % 256 + 256 * (size m / 256) ≡ size m = omega arith in
      let long : ltb (size m) 4 ≡ false = ground arith in
      let short : ltb (max_buf + header_size) (size m) ≡ false = ground arith in
      rw (e, long, short) refl

  start-pieces :
      (t v : ℕ) (pieces : List (List ℕ)) (rs : List Read) (s : S)
      → All (λ b. 0 < length b) pieces
      → let n = header_size + length (concat pieces) in
        let p : Packet = record { pkt_type = t; pkt_version = v; pkt_len = n; body = [] } in
        ((if leb n header_size
            then handled handle junk p s
            else ok (none, in_body p 0 (n - header_size), s))
          >>= λ t. next_turn t (map bytes pieces ++ rs))
        ≡ (handle (record p { body = concat pieces }) s >>= λ s'.
            child_process handle junk before_header rs s')
  start-pieces t v [] rs s h =
      handled-next_turn (record { pkt_type = t; pkt_version = v; pkt_len = 8; body = [] }) s rs
  start-pieces t v (b ∷ pieces) rs s h =
      let n = header_size + length (concat (b ∷ pieces)) in
      let more : leb n header_size ≡ false = ground (arith, length-append b (concat pieces)) in
      rw more (
        body-pieces (record { pkt_type = t; pkt_version = v; pkt_len = n; body = [] })
          (n - header_size) b pieces rs s (omega arith) h)

  child_process-reads_of :
      (m : Message) (rs : List Read) (s : S)
      → IsSendable m
      → child_process handle junk before_header (reads_of m ++ rs) s
        ≡ (handle (packet_of m) s >>= λ s'. child_process handle junk before_header rs s')
  child_process-reads_of m rs s (fits, h) =
      child_process-cons before_header (bytes (header m)) (map bytes m.pieces ++ rs) s
      ∙ rw (after_header-header m s fits) (start-pieces m.pkt_type m.pkt_version m.pieces rs s h)

  -- Packets with bodies of at most 50000 bytes that are sent one after the other, each header in one
  -- piece and the bodies in any pieces that are not empty, are handled one after the other, as they
  -- were sent; then the module goes on with what comes behind them.
  pub child_process-all_reads :
      (ms : List Message) (rs : List Read) (s : S)
      → All IsSendable ms
      → child_process handle junk before_header (all_reads ms ++ rs) s
        ≡ (handle_each (map packet_of ms) s >>= λ s'. child_process handle junk before_header rs s')
  child_process-all_reads [] rs s h = refl
  child_process-all_reads (m ∷ ms) rs s (h, hs) = rw (append_assoc (reads_of m) (all_reads ms) rs) (
      child_process-reads_of m (all_reads ms ++ rs) s h
      ∙ >>=-congr (handle (packet_of m) s)
          (λ s'. child_process handle junk before_header (all_reads ms ++ rs) s')
          (λ s'.
            handle_each (map packet_of ms) s' >>= λ t. child_process handle junk before_header rs t)
          (λ s'. child_process-all_reads ms rs s' hs)
      ∙ sym (
          >>=_assoc (handle (packet_of m) s) (handle_each (map packet_of ms))
            (λ t. child_process handle junk before_header rs t)))
