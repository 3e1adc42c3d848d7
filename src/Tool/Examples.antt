-- ===== src/Tool/Examples.antt =====
-- A tool that takes a callback back.
use hpx_mp.Base.{◌≡◌, refl, true, none, some, [], ◌∷◌}
use hpx_mp.Tool.Callbacks.{parallel_end, Build, event_id, called}
use hpx_mp.Tool.Start.{Tool, codes, tool_setting, tool_enabled}
use hpx_mp.Tool.Start.Fires.{expected}

abbrev build : Build
build = record { optional = true; omp_40_enabled = true }

abbrev tool : Tool
tool = record {
  registers = (1, some 70) ∷ (4, some 71) ∷ (99, some 72) ∷ (4, none) ∷ (4, some 73) ∷ [];
  accepts = true;
}

enabled : tool_setting (some (codes "Enabled")) ≡ tool_enabled
unfolding tool_setting
enabled = refl

expected_parallel_end : expected (some (codes "Enabled")) (some tool) parallel_end ≡ called 73
unfolding tool_setting event_id
expected_parallel_end = refl
