-- ===== src/Concept/Health.antt =====
-- systemHealth of concept/service.go: what the feedback and done channels make of it.
pub mod Channel
use aggregate_concept_transf.Common.{List, [], ◌∷◌, Bool, true, false, not, if◌then◌else◌}

pub record SystemHealth : Type 0 where
  pub healthy : Bool
  pub shutdown : Bool

-- A receive of processChannel's select.
pub data Signal : Type 0 where
  feedback : Bool → Signal
  done : Signal

-- (*systemHealth).isGood and isShuttingDown
abbrev pub is_good : SystemHealth → Bool
is_good r = r.healthy

abbrev pub is_shutting_down : SystemHealth → Bool
is_shutting_down r = r.shutdown

-- The health that NewService starts with.
unfoldable pub initial_health : SystemHealth
initial_health = record { healthy = false; shutdown = false }

abbrev same : Bool → Bool → Bool
same true b = b
same false b = not b

-- one round of processChannel
unfoldable pub receive : SystemHealth → Signal → SystemHealth
receive r (feedback st) = if not (same st r.healthy) then record r { healthy = st } else r
receive r done = record r { shutdown = true }

-- processChannel over the signals received so far
unfoldable pub process_channel : SystemHealth → List Signal → SystemHealth
unfolding receive
process_channel r [] = r
process_channel r (signal ∷ signals) = process_channel (receive r signal) signals
