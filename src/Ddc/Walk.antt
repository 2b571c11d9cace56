-- ===== src/Ddc/Walk.antt =====
-- What the shortest paths of ddc/ddc.c are compared with: every way through the matrix of an area.
use pma.Base.{ℕ, ◌+◌, ◌<◌}

-- A way of this cost from a node to another, along links between nodes below `total`.
pub data Walk (cost : ℕ → ℕ → ℕ) (total s : ℕ) : ℕ → ℕ → Type 0 where
  here : Walk cost total s s 0
  step : (u v c : ℕ) → Walk cost total s u c → v < total → Walk cost total s v (c + cost u v)
