-- ===== src/Comm.antt =====
-- The base module: what it reads from the sockets of the other modules, `child_process` of
-- comm/interior_daemon.c, with the byte order of a little-endian machine. Comm/Dispatch is what it
-- does with the packets, and Comm/Routers its list of routers.
pub mod Control
mod Framing
mod Steps
pub mod Dispatch
pub mod Routers
pub mod Pms
mod Tests
use pma.Base.{
  ℕ, zero, suc, ◌+◌, ◌-◌, ◌*◌, ◌^◌, Bool, ◌||◌, Option, none, some, List, [], ◌∷◌, ◌++◌,
  if◌then◌else◌, ◌==◌, ltb, leb, length, get_elem?, take, drop,
}
use pma.Base.Outcome.{Outcome, ok, crash, ◌>>=◌}

-- `MAXBUF`, and `sizeof(local_module_header)`.
abbrev pub max_buf : ℕ
max_buf = 50000

abbrev pub header_size : ℕ
header_size = 8

-- What `read` on a socket gives: bytes, EAGAIN, another error, or the end.
pub data Read : Type 0 where
  bytes : List ℕ → Read
  again : Read
  failed : Read
  closed : Read

-- `local_module_header`, whose check sum is not copied, with the bytes behind it.
pub record Packet : Type 0 where
  pub pkt_type : ℕ
  pub pkt_version : ℕ
  pub pkt_len : ℕ
  pub body : List ℕ

-- Where `child_process` stands: before a header, or behind one with so many bytes to come. After a
-- short header, what follows is written so many bytes in front of its place.
pub data Reading : Type 0 where
  before_header : Reading
  in_body : Packet → ℕ → ℕ → Reading

pub data Ended : Type 0 where
  waiting : Ended
  closed_fd : Ended
  too_long : Ended

abbrev pub byte_at : ℕ → List ℕ → ℕ
byte_at i xs = elim (get_elem? xs i) [ none ↦ 0 | some b ↦ b ]

-- The fields of a header; `junk` is what the variable held before.
abbrev pub header_of : List ℕ → List ℕ → Packet
header_of junk b =
    let h = b ++ drop (length b) junk in
    record {
      pkt_type = byte_at 0 h;
      pkt_version = byte_at 1 h;
      pkt_len = byte_at 2 h + 256 * byte_at 3 h;
      body = [];
    }

-- The packet when its last byte has come.
abbrev pub whole : List ℕ → ℕ → Packet → Packet
whole junk shift p = record p { body = drop shift p.body ++ take shift junk }

module _ {ℓ} {S : Type ℓ} (handle : Packet → S → Outcome S) (junk : List ℕ) where
  -- A packet is handled, and the next header is read.
  abbrev pub handled : Packet → S → Outcome (Option Ended × Reading × S)
  handled p s = handle p s >>= λ s'. ok (none, before_header, s')

  -- One turn of a loop: `none` goes on with the next read. `crash` is a header that is written
  -- behind a memory area of less than four bytes.
  abbrev pub after_header : List ℕ → S → Outcome (Option Ended × Reading × S)
  after_header b s =
      let p = header_of junk b in
      if length b == 0
      then ok (some waiting, before_header, s)
      else if ltb p.pkt_len 4
      then crash
      else if ltb (max_buf + header_size) p.pkt_len
      then ok (some too_long, before_header, s)
      else if leb p.pkt_len header_size
      then handled p s
      else ok (none, in_body p (header_size - length b) (p.pkt_len - header_size), s)

  abbrev pub after_body : Packet → ℕ → ℕ → List ℕ → S → Outcome (Option Ended × Reading × S)
  after_body p shift pkt_len b s =
      let p' = record p { body = p.body ++ b } in
      if length b == 0
      then ok (some closed_fd, before_header, s)
      else if leb pkt_len (length b)
      then handled (whole junk shift p') s
      else ok (none, in_body p' shift (pkt_len - length b), s)

  -- A packet that is cut by EAGAIN is lost. A socket that ends between two packets is left open.
  abbrev pub after_read : Reading → Read → S → Outcome (Option Ended × Reading × S)
  after_read before_header (bytes b) s = after_header b s
  after_read before_header again s = ok (some waiting, before_header, s)
  after_read before_header failed s = ok (some waiting, before_header, s)
  after_read before_header closed s = ok (some waiting, before_header, s)
  after_read (in_body p shift n) (bytes b) s = after_body p shift n b s
  after_read (in_body p shift n) again s = ok (some waiting, before_header, s)
  after_read (in_body p shift n) failed s = ok (some closed_fd, before_header, s)
  after_read (in_body p shift n) closed s = ok (some closed_fd, before_header, s)

  -- The loops of `child_process` over what the socket has to give; then it waits.
  unfoldable pub child_process : Reading → List Read → S → Outcome (Ended × S)
  child_process at [] s = ok (waiting, s)
  child_process at (r ∷ rs) s = after_read at r s >>= λ (ended, next, s'). elim ended [
    | none ↦ child_process next rs s'
    | some e ↦ ok (e, s')
  ]
