-- ===== src/Topology/Settings.antt =====
-- topology_validation.go: the settings of TopologyValidator.
use go_rabbitmq.Base.{ℕ, suc, Bool, true, false, if◌then◌else◌}
use go_rabbitmq.Base.Eq.{String_eq}

-- The settings. `loops` counts the background goroutines: each stop channel is closed once, by
-- `Disable`, and the loop that reads it ends.
pub record TopologyValidator : Type 0 where
  pub enabled : Bool
  pub auto_recreate : Bool
  pub validation_timeout : ℕ
  pub background_enabled : Bool
  pub validation_interval : ℕ
  pub loops : ℕ

-- 5 and 30 seconds.
unfoldable pub new_topology_validator : TopologyValidator
new_topology_validator = record {
  enabled = false;
  auto_recreate = false;
  validation_timeout = 5000000000;
  background_enabled = false;
  validation_interval = 30000000000;
  loops = 0;
}

unfoldable pub enable : TopologyValidator → TopologyValidator
enable v = record v { enabled = true }

unfoldable pub enable_auto_recreate : TopologyValidator → TopologyValidator
enable_auto_recreate v = record v { auto_recreate = true }

unfoldable pub enable_background_validation : ℕ → TopologyValidator → TopologyValidator
enable_background_validation interval v =
    if v.background_enabled
    then v
    else record v { background_enabled = true; validation_interval = interval; loops = suc v.loops }

unfoldable pub disable : TopologyValidator → TopologyValidator
disable v =
    let off = record v { enabled = false; auto_recreate = false } in
    if v.background_enabled then record off { background_enabled = false; loops = 0 } else off
