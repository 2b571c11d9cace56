-- ===== src/Comm/Pms/Pieces.antt =====
-- A packet of the agent's own format is read whole, however it is cut.
use mathlib.Core.List.{append_assoc, append-nil}
use pma.Base.{
  ℕ, zero, suc, ◌+◌, ◌-◌, ◌*◌, ◌/◌, ◌%◌, ◌^◌, ◌≤◌, ◌<◌, ◌≡◌, refl, sym, ◌∙◌, ap, List, [], ◌∷◌,
  ◌++◌, length, get_elem?, arith, ◌==◌, ltb, length-append, true, false, All, inl, inr, Bool-cases,
}
use pma.Comm.{Read, bytes, again, failed, closed, byte_at}
use pma.Comm.Pms.{
  Agent, ntohl_at, pms_header_size, encapsulate_normal_packet, Wait, interrupted, ready, got,
  recv_rest, recv_first, recv_packet,
}

-- Pieces that are not empty, with any number of EAGAIN between them, and their bytes.
abbrev pub IsPiece : Read → Type 0
IsPiece (bytes b) = 0 < length b
IsPiece again = Unit
IsPiece failed = ⊥
IsPiece closed = ⊥

abbrev pub bytes_of : List Read → List ℕ
bytes_of [] = []
bytes_of (bytes b ∷ rs) = b ++ bytes_of rs
bytes_of (again ∷ rs) = bytes_of rs
bytes_of (failed ∷ rs) = bytes_of rs
bytes_of (closed ∷ rs) = bytes_of rs

length_zero : (xs : List ℕ) → length xs ≡ 0 → xs ≡ []
length_zero [] e = refl
length_zero (x ∷ xs) e = let no : ⊥ = omega arith in elim no [ ]

recv_rest-bytes_of :
    (t n len : ℕ) (content : List ℕ) (rs : List Read)
    → All IsPiece rs
    → length (bytes_of rs) ≡ len
    → recv_rest t n len content rs ≡ got t n (content ++ bytes_of rs)
unfolding recv_rest
recv_rest-bytes_of t n len content [] h e =
    let done : (len == 0) ≡ true = ground arith in rw (done, append-nil content) refl
recv_rest-bytes_of t n len content (bytes b ∷ rs) (h, hs) e =
    let more : (len == 0) ≡ false = ground (arith, length-append b (bytes_of rs)) in
    let some_bytes : (length b == 0) ≡ false = ground arith in
    rw (more, some_bytes)
      (recv_rest-bytes_of t n (len - length b) (content ++ b) rs hs
          (omega (arith, length-append b (bytes_of rs)))
        ∙ rw (append_assoc content b (bytes_of rs)) refl)
recv_rest-bytes_of t n len content (again ∷ rs) (h, hs) e = elim (Bool-cases (len == 0)) [
  | inl z ↦
      let none_left : length (bytes_of rs) ≡ 0 = ground arith in
      rw (z, length_zero (bytes_of rs) none_left, append-nil content) refl
  | inr m ↦ rw m (recv_rest-bytes_of t n len content rs hs e)
]
recv_rest-bytes_of t n len content (failed ∷ rs) (h, hs) e = elim h [ ]
recv_rest-bytes_of t n len content (closed ∷ rs) (h, hs) e = elim h [ ]

htonl-value :
    (n : ℕ)
    → n < 2 ^ 32
    → 2 ^ 24 * (n / 2 ^ 24 % 256) + 2 ^ 16 * (n / 2 ^ 16 % 256) + 256 * (n / 256 % 256) + n % 256
      ≡ n
htonl-value n l = omega arith

get_elem?-append : (i : ℕ) (b c : List ℕ) → i < length b → get_elem? (b ++ c) i ≡ get_elem? b i
get_elem?-append i [] c l = let no : ⊥ = omega arith in elim no [ ]
get_elem?-append zero (x ∷ b) c l = refl
get_elem?-append (suc i) (x ∷ b) c l = get_elem?-append i b c (omega arith)

byte_at-append : (i : ℕ) (b c : List ℕ) → i < length b → byte_at i (b ++ c) ≡ byte_at i b
byte_at-append i b c l = rw (get_elem?-append i b c l, byte_at) refl

-- The packet with a header of its own length, when it fits.
length-encapsulate :
    (a : Agent) (t : ℕ) (content : List ℕ)
    → length a.src_addr ≡ 4
    → length a.dst_addr ≡ 4
    → length (encapsulate_normal_packet a t content) ≡ length content + 20
unfolding encapsulate_normal_packet
length-encapsulate a t content s d =
    omega
      (arith, length-append a.src_addr (a.dst_addr ++ content), length-append a.dst_addr content)

header-encapsulate :
    (a : Agent) (t : ℕ) (content : List ℕ)
    → length content + 20 < 2 ^ 32
    → (byte_at 0 (encapsulate_normal_packet a t content) ≡ t % 256)
      × (ntohl_at 4 (encapsulate_normal_packet a t content) ≡ length content + 20)
unfolding encapsulate_normal_packet
header-encapsulate a t content fits =
    let n = length content + pms_header_size in
    let small : n % 2 ^ 32 ≡ n = omega arith in (refl, rw small (htonl-value n fits))

recv_first-pieces :
    (p b : List ℕ) (rs : List Read)
    → b ++ bytes_of rs ≡ p
    → 8 ≤ length b
    → All IsPiece rs
    → ntohl_at 4 p ≡ length p
    → length p < 2 ^ 32 - 1
    → recv_first (bytes b ∷ rs) ≡ got (byte_at 0 p) (length p) p
unfolding recv_first
recv_first-pieces p b rs e long h own fits =
    let total : length b + length (bytes_of rs) ≡ length p =
      sym (length-append b (bytes_of rs)) ∙ ap length e in
    let ty : byte_at 0 b ≡ byte_at 0 p =
      sym (byte_at-append 0 b (bytes_of rs) (omega arith)) ∙ ap (byte_at 0) e in
    let b4 : byte_at 4 b ≡ byte_at 4 p =
      sym (byte_at-append 4 b (bytes_of rs) (omega arith)) ∙ ap (byte_at 4) e in
    let b5 : byte_at 5 b ≡ byte_at 5 p =
      sym (byte_at-append 5 b (bytes_of rs) (omega arith)) ∙ ap (byte_at 5) e in
    let b6 : byte_at 6 b ≡ byte_at 6 p =
      sym (byte_at-append 6 b (bytes_of rs) (omega arith)) ∙ ap (byte_at 6) e in
    let b7 : byte_at 7 b ≡ byte_at 7 p =
      sym (byte_at-append 7 b (bytes_of rs) (omega arith)) ∙ ap (byte_at 7) e in
    let len : ntohl_at 4 b ≡ length p = rw (b4, b5, b6, b7) own in
    let some_bytes : (length b == 0) ≡ false = ground arith in
    let in_bounds : (length p == 2 ^ 32 - 1) ≡ false = ground arith in
    elim (Bool-cases (ltb (length b) (length p))) [
      | inl more ↦
          rw (some_bytes, len, ty, more, in_bounds)
            (recv_rest-bytes_of (byte_at 0 p) (length p) (length p - length b) b rs h (omega arith)
              ∙ rw e refl)
      | inr all ↦
          let none_left : length (bytes_of rs) ≡ 0 = ground arith in
          let same : b ≡ p =
            sym (append-nil b)
            ∙ ap (λ xs. b ++ xs) (sym (length_zero (bytes_of rs) none_left))
            ∙ e in
          rw (some_bytes, len, ty, all, same) refl
    ]

abbrev pub interrupts : ℕ → List Wait
interrupts zero = ready ∷ []
interrupts (suc n) = interrupted ∷ interrupts n

-- A packet in the agent's format, of less than 2^32 - 1 bytes, is read whole with its type and
-- length, however it is cut into pieces that are not empty, with any number of EAGAIN between them,
-- if the first piece has at least eight bytes, and however often a signal comes before.
pub recv_packet-encapsulate :
    (a : Agent) (t : ℕ) (content b : List ℕ) (rs : List Read) (signals : ℕ)
    → length a.src_addr ≡ 4
    → length a.dst_addr ≡ 4
    → length content + 20 < 2 ^ 32 - 1
    → b ++ bytes_of rs ≡ encapsulate_normal_packet a t content
    → 8 ≤ length b
    → All IsPiece rs
    → recv_packet (interrupts signals) (bytes b ∷ rs)
      ≡ got (t % 256) (length content + 20) (encapsulate_normal_packet a t content)
unfolding recv_packet
recv_packet-encapsulate a t content b rs zero s d fits e long h =
    let p = encapsulate_normal_packet a t content in
    let l = length-encapsulate a t content s d in
    let (ty, len) = header-encapsulate a t content (omega arith) in
    recv_first-pieces p b rs e long h (len ∙ sym l) (omega arith) ∙ rw (ty, l) refl
recv_packet-encapsulate a t content b rs (suc n) s d fits e long h =
    recv_packet-encapsulate a t content b rs n s d fits e long h
