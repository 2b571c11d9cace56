-- ===== src/Comm/Pms.antt =====
-- The exchange with the server: the packets that comm/comm.c makes and reads, with the byte order of
-- a little-endian machine. `malloc` does not fail, and the connection is not modelled.
pub mod Pieces
use pma.Base.{
  ℕ, ◌+◌, ◌-◌, ◌*◌, ◌/◌, ◌%◌, ◌^◌, Bool, true, false, Option, none, some, List, [], ◌∷◌, ◌++◌,
  if◌then◌else◌, ◌==◌, ltb, length,
}
use pma.Comm.{Read, bytes, again, failed, closed, byte_at}

-- `sizeof(struct pma_pms_header)`, and `MAX_PACKET_HEADER_SIZE`.
abbrev pub pms_header_size : ℕ
pms_header_size = 20

abbrev pub max_packet_header_size : ℕ
max_packet_header_size = 30

-- The bytes of an `int` of the network, the highest first.
abbrev pub htonl : ℕ → List ℕ
htonl n = n / 2 ^ 24 % 256 ∷ n / 2 ^ 16 % 256 ∷ n / 256 % 256 ∷ n % 256 ∷ []

abbrev pub ntohl_at : ℕ → List ℕ → ℕ
ntohl_at i b =
    2 ^ 24 * byte_at i b + 2 ^ 16 * byte_at (i + 1) b + 256 * byte_at (i + 2) b + byte_at (i + 3) b

-- What a packet is made with: the version and the number of the agent, and the addresses as they lie
-- in memory.
pub record Agent : Type 0 where
  pub version : ℕ
  pub pma_id : ℕ
  pub src_addr : List ℕ
  pub dst_addr : List ℕ

-- The header in front of the data. The length wraps as an `unsigned int`.
unfoldable pub encapsulate_normal_packet : Agent → ℕ → List ℕ → List ℕ
encapsulate_normal_packet a ops_type content =
    (ops_type % 256 ∷ a.version % 256 ∷ 0 ∷ 100 ∷ [])
    ++ (htonl ((length content + pms_header_size) % 2 ^ 32)
        ++ (htonl a.pma_id ++ (a.src_addr ++ (a.dst_addr ++ content))))

-- What is sent, and `end - head` of its memory, in which the answer is then received.
unfoldable pub encapsulate_packet : Agent → ℕ → Option (List ℕ) → List ℕ × ℕ
unfolding encapsulate_normal_packet
encapsulate_packet a ops_type none =
    (encapsulate_normal_packet a ops_type [], max_packet_header_size - 1)
encapsulate_packet a ops_type (some buf) =
    (encapsulate_normal_packet a ops_type buf, max_packet_header_size + length buf - 1)

-- What `pselect` gives.
pub data Wait : Type 0 where
  interrupted : Wait
  select_failed : Wait
  timed_out : Wait
  ready : Wait

-- The packet with its type and length, -1, no end yet, or a write outside of the memory.
pub data Reply : Type 0 where
  got : ℕ → ℕ → List ℕ → Reply
  refused : Reply
  waiting_for_more : Reply
  overrun : Reply

-- The loop that reads the rest, with so many bytes to come.
unfoldable pub recv_rest : ℕ → ℕ → ℕ → List ℕ → List Read → Reply
recv_rest ops_type pkt_len len content [] =
    if len == 0 then got ops_type pkt_len content else waiting_for_more
recv_rest ops_type pkt_len len content (bytes b ∷ rs) =
    let rest = recv_rest ops_type pkt_len (len - length b) (content ++ b) rs in
    if len == 0 then got ops_type pkt_len content else if length b == 0 then refused else rest
recv_rest ops_type pkt_len len content (again ∷ rs) =
    let rest = recv_rest ops_type pkt_len len content rs in
    if len == 0 then got ops_type pkt_len content else rest
recv_rest ops_type pkt_len len content (failed ∷ rs) =
    if len == 0 then got ops_type pkt_len content else refused
recv_rest ops_type pkt_len len content (closed ∷ rs) =
    if len == 0 then got ops_type pkt_len content else refused

-- The first `recv`, into memory that is 0. `malloc(len+1)` gives no memory for the greatest length.
unfoldable pub recv_first : List Read → Reply
unfolding recv_rest
recv_first [] = waiting_for_more
recv_first (bytes b ∷ rs) =
    let ops_type = byte_at 0 b in
    let len = ntohl_at 4 b in
    if length b == 0
    then refused
    else if ltb (length b) len
    then (if len == 2 ^ 32 - 1 then overrun else recv_rest ops_type len (len - length b) b rs)
    else got ops_type len b
recv_first (again ∷ rs) = refused
recv_first (failed ∷ rs) = refused
recv_first (closed ∷ rs) = refused

unfoldable pub recv_packet : List Wait → List Read → Reply
unfolding recv_first
recv_packet [] rs = waiting_for_more
recv_packet (interrupted ∷ ws) rs = recv_packet ws rs
recv_packet (select_failed ∷ ws) rs = refused
recv_packet (timed_out ∷ ws) rs = refused
recv_packet (ready ∷ ws) rs = recv_first rs
