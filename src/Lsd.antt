-- ===== src/Lsd.antt =====
-- The data of the link-state daemon (lsd/lsd_if.h, lsd/lsd_socket.h, lsd/lsd_hello.h,
-- lsd/lsd_exchange.h, lsd/lsd_flood.h, lsdb/lsdb.h) and `lsd_send` of lsd/lsd_socket.c.
-- A timer is `some` of its delay in microseconds while it is armed, and `none` for a NULL thread.
pub mod Flood
pub mod Accept
pub mod Exchange
pub mod Hello
pub mod Handler
pub mod Receive
pub mod Periodic
mod Tests
use pma.Base.{
  ℕ, ◌+◌, ◌%◌, ◌^◌, Bool, false, Option, none, some, List, [], ◌∷◌, if◌then◌else◌, ◌==◌, ◌||◌,
}
use pma.Lsdb.{LinkStateKey, LinkState, Lsdb}

-- `struct link_state_adv`.
pub record Lsa : Type 0 where
  pub key : LinkStateKey
  pub addr : ℕ
  pub metric : ℕ
  pub state : ℕ
  pub seq : ℕ

pub data FloodType : Type 0 where
  lsa ack : FloodType
  other : ℕ → FloodType

-- `struct flood` and the advertisements behind it; `size` is their number.
pub record FloodPkt : Type 0 where
  pub type : FloodType
  pub seq : ℕ
  pub lsas : List Lsa

pub data ExchangeType : Type 0 where
  links_state no_data ack : ExchangeType
  other : ℕ → ExchangeType

-- `struct exchange` and the advertisements behind it; `length` is their number.
pub record ExchangePkt : Type 0 where
  pub type : ExchangeType
  pub more : Bool
  pub seq : ℕ
  pub lsas : List Lsa

-- `struct hello_high` and `struct hello_low`, less their heads.
pub record HelloPkt : Type 0 where
  pub hello_interval : ℕ
  pub dead_interval : ℕ

-- What follows the common head, by the head's `pktype`.
pub data Body : Type 0 where
  hello_high hello_low : HelloPkt → Body
  exchange : ExchangePkt → Body
  flood : FloodPkt → Body
  lfa_change lfa_advertise : Body
  unknown : ℕ → Body

-- `struct lsd_head`; its `pktype` is the constructor of the body.
pub record Packet : Type 0 where
  pub version : ℕ
  pub pklen : ℕ
  pub r_id : ℕ
  pub area_id : ℕ
  pub if_id : ℕ
  pub icsum : ℕ
  pub body : Body

pub data FloodState : Type 0 where
  ready busy ack_waiting terminated : FloodState

abbrev pub Timer : Type 0
Timer = Option ℕ

-- `struct flood_master`.
pub record FloodMaster : Type 0 where
  pub queue : List Lsa
  pub sendbuf : FloodPkt
  pub pkg_no : ℕ
  pub state : FloodState
  pub ack_ctrl : Timer
  pub snd_ctrl : Timer

pub data SendState : Type 0 where
  terminated waiting end : SendState

pub data RcvState : Type 0 where
  terminated waiting end : RcvState

-- `struct exchange_master`, less `has_more`, which nothing uses.
pub record ExchangeMaster : Type 0 where
  pub send_state : SendState
  pub rcv_state : RcvState
  pub links_state : List LinkState
  pub pkg_no : ℕ
  pub sendbuf : ExchangePkt
  pub ack_ctrl : Timer
  pub rcv_ctrl : Timer
  pub retry_times : ℕ

pub data LsdStatus : Type 0 where
  disconnected connected : LsdStatus

-- `struct lsd_neighbor_info`.
pub record NeighborInfo : Type 0 where
  pub rt_id : ℕ
  pub if_id : ℕ

-- `struct hello_master`.
pub record HelloMaster : Type 0 where
  pub dead_timer_high : Timer
  pub dead_timer_low : Timer
  pub hello_timer_high : Timer
  pub hello_timer_low : Timer
  pub high_status : LsdStatus
  pub low_status : LsdStatus
  pub neighbor : NeighborInfo
  pub h_hello_val : ℕ
  pub h_dead_val : ℕ
  pub l_hello_val : ℕ
  pub l_dead_val : ℕ

pub data EthState : Type 0 where
  down up : EthState

-- `struct backbone_eth`. `addr` and `cost` are what `get_address_of_backbone` and
-- `get_metric_of_backbone` read off the interface, a master is `none` before it is allocated, and
-- `sent` holds the packets handed to `sendto`, newest first.
pub record BackboneEth : Type 0 where
  pub ifid : ℕ
  pub state : EthState
  pub neighbor_device_id : ℕ
  pub neighbor_ctl_addr : ℕ
  pub addr : ℕ
  pub cost : ℕ
  pub exchange_master : Option ExchangeMaster
  pub flood_master : Option FloodMaster
  pub hello_master : Option HelloMaster
  pub sent : List Packet

-- `struct autonomous_zone`. An interface is named by its place in `backbones`.
pub record Zone : Type 0 where
  pub device_id : ℕ
  pub r_id : ℕ
  pub az_id : ℕ
  pub lsdb : Lsdb
  pub backbones : List BackboneEth

-- LSD_VERSION and LSD_CHECKSUM.
abbrev pub lsd_version : ℕ
lsd_version = 2

abbrev pub lsd_checksum : ℕ
lsd_checksum = 0x12345

-- The head that `lsd_send` stamps: who sends, from where, and the constants that are checked.
abbrev pub stamp : Zone → BackboneEth → ℕ → Body → Packet
stamp z eth len body = record {
  version = lsd_version;
  pklen = len;
  r_id = z.device_id;
  area_id = z.az_id;
  if_id = eth.ifid;
  icsum = lsd_checksum;
  body = body;
}

-- The `switch` on the packet's type: the other types are refused with IO_ERR.
abbrev pub is_sendable : Body → Bool
is_sendable (lfa_change) = false
is_sendable (unknown n) = false
is_sendable b = Bool.true

-- Nothing is sent while the neighbour's agent is not known. Socket options are not modelled.
unfoldable pub lsd_send : Zone → ℕ → Body → BackboneEth → BackboneEth
lsd_send z len body eth =
    if eth.neighbor_device_id == 0 || eth.neighbor_ctl_addr == 0
    then eth
    else if is_sendable body
    then record eth { sent = stamp z eth len body ∷ eth.sent }
    else eth

-- sizeof of the wire structures.
abbrev pub sizeof_flood : ℕ
sizeof_flood = 32

abbrev pub sizeof_lsa : ℕ
sizeof_lsa = 32

abbrev pub sizeof_exchange : ℕ
sizeof_exchange = 28

abbrev pub sizeof_hello : ℕ
sizeof_hello = 28

-- MAX_MESSAGE_LEN, the length of each send buffer.
abbrev pub max_message_len : ℕ
max_message_len = 2048
