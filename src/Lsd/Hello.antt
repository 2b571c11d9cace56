-- ===== src/Lsd/Hello.antt =====
-- Detection of the neighbour: lsd/lsd_hello.c. Hello packets of two priorities keep a dead timer
-- alive each; a first packet and an expired dead timer are reported to the handler of
-- lsd/lsd_handler.c, here by the value that a function returns.
pub mod Invariant
use pma.Base.{ℕ, ◌*◌, ◌%◌, ◌^◌, Bool, true, false, Option, none, some, if◌then◌else◌}
use pma.Base.Outcome.{Outcome, ok, crash}
use pma.Lsd.{
  HelloMaster, HelloPkt, NeighborInfo, LsdStatus, EthState, BackboneEth, Zone, Timer, Body,
  lsd_send, sizeof_hello, connected, disconnected, hello_high, hello_low,
}

-- TMP_VAR: the unit of the intervals, in microseconds.
abbrev pub ticks : ℕ → ℕ
ticks n = 100000 * n % 2 ^ 32

-- `malloc_z` of a hello master.
abbrev pub new_hello_master : HelloMaster
new_hello_master = record {
  dead_timer_high = none;
  dead_timer_low = none;
  hello_timer_high = none;
  hello_timer_low = none;
  high_status = disconnected;
  low_status = disconnected;
  neighbor = record { rt_id = 0; if_id = 0 };
  h_hello_val = 0;
  h_dead_val = 0;
  l_hello_val = 0;
  l_dead_val = 0;
}

-- The timers of an interface that goes down or up; H_HELLO_VAL and the other defaults.
unfoldable pub set_timers : EthState → HelloMaster → HelloMaster
set_timers EthState.down m = record m { hello_timer_high = none; hello_timer_low = none }
set_timers EthState.up m = record m {
  h_hello_val = 1;
  l_hello_val = 20;
  h_dead_val = 4;
  l_dead_val = 80;
  hello_timer_high = some 0;
  hello_timer_low = some 0;
}

unfoldable pub hello_on_eth_state_changed : BackboneEth → BackboneEth
unfolding set_timers
hello_on_eth_state_changed eth = elim eth.hello_master [
  | none ↦ record eth { hello_master = some (set_timers eth.state new_hello_master) }
  | some m ↦ record eth { hello_master = some (set_timers eth.state m) }
]

abbrev pub with_hello {ℓ} : {A : Type ℓ} → BackboneEth → (HelloMaster → Outcome A) → Outcome A
with_hello eth f = elim eth.hello_master [ none ↦ crash | some m ↦ f m ]

-- The timer `hello_timer_high` has fired.
unfoldable pub hello_high_send : Zone → BackboneEth → Outcome BackboneEth
unfolding lsd_send
hello_high_send z eth = with_hello eth λ m. ok (
    lsd_send z sizeof_hello
      (hello_high
        (record { hello_interval = ticks m.h_hello_val; dead_interval = ticks m.h_dead_val }))
      (record eth {
        hello_master = some (record m { hello_timer_high = some (ticks m.h_hello_val) });
      }))

-- The timer `hello_timer_low` has fired.
unfoldable pub hello_low_send : Zone → BackboneEth → Outcome BackboneEth
unfolding lsd_send
hello_low_send z eth = with_hello eth λ m. ok (
    lsd_send z sizeof_hello
      (hello_low
        (record { hello_interval = ticks m.l_hello_val; dead_interval = ticks m.l_dead_val }))
      (record eth {
        hello_master = some (record m { hello_timer_low = some (ticks m.l_hello_val) });
      }))

-- A hello of high priority from router `r_id`, interface `if_id`; `true` for a new connection.
unfoldable pub take_high : ℕ → ℕ → HelloMaster → HelloMaster × Bool
take_high r_id if_id m = elim m.high_status [
  | disconnected ↦ (
    record m {
      dead_timer_high = some (ticks m.h_dead_val);
      high_status = connected;
      neighbor = record { rt_id = r_id; if_id = if_id };
    },
    true,
  )
  | connected ↦ (record m { dead_timer_high = some (ticks m.h_dead_val) }, false)
]

unfoldable pub take_low : ℕ → ℕ → HelloMaster → HelloMaster × Bool
take_low r_id if_id m = elim m.low_status [
  | disconnected ↦ (
    record m {
      dead_timer_low = some (ticks m.l_dead_val);
      low_status = connected;
      neighbor = record { rt_id = r_id; if_id = if_id };
    },
    true,
  )
  | connected ↦ (record m { dead_timer_low = some (ticks m.l_dead_val) }, false)
]

-- The dead timers have fired: it is an error if the neighbour was not connected.
unfoldable pub dead_timer_high : HelloMaster → Outcome HelloMaster
dead_timer_high m = elim m.high_status [
  | connected ↦ ok (record m { dead_timer_high = none; high_status = disconnected })
  | disconnected ↦ crash
]

unfoldable pub dead_timer_low : HelloMaster → Outcome HelloMaster
dead_timer_low m = elim m.low_status [
  | connected ↦ ok (record m { dead_timer_low = none; low_status = disconnected })
  | disconnected ↦ crash
]

unfoldable pub hello_get_neighbor_info : BackboneEth → Outcome NeighborInfo
hello_get_neighbor_info eth = with_hello eth λ m. ok m.neighbor
