-- ===== src/Comm/Control.antt =====
-- Tables of handlers by packet type: control/control.c. A handler is named by a value of `H`; the
-- list of tables, which nothing reads, and a failure of `calloc` are not modelled.
use pma.Base.{ℕ, Bool, false, Option, none, some, if◌then◌else◌, ◌==◌, ltb}
use pma.Base.Outcome.{Outcome, ok, crash}
use pma.Base.Arrays.{put}

-- `struct ctl`.
pub record Ctl (H : Type 0) : Type 0 where
  pub trigger : ℕ → Option H
  pub flag : ℕ → Bool
  pub size : ℕ

module _ {H : Type 0} where
  abbrev pub create_ctl : ℕ → Ctl H
  create_ctl size = record { trigger = λ i. none; flag = λ i. false; size = size }

  -- The test lets the index `size` pass, one behind the arrays: `crash`. `none` is -1.
  abbrev pub add_ctl : Ctl H → ℕ → H → Bool → Outcome (Option (Ctl H))
  add_ctl c i func enabled =
      if ltb c.size i
      then ok none
      else if i == c.size
      then crash
      else ok
          (some (record c { trigger = put c.trigger i (some func); flag = put c.flag i enabled }))

  -- The handler that is called, `none` for -1; `crash` as well for a call of NULL.
  abbrev pub run_ctl : Ctl H → ℕ → Outcome (Option H)
  run_ctl c i =
      if ltb c.size i
      then ok none
      else if i == c.size
      then crash
      else if c.flag i
      then elim (c.trigger i) [ none ↦ crash | some f ↦ ok (some f) ]
      else ok none
