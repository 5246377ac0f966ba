-- ===== src/Healing/Window.antt =====
-- apps/runner/src/deployers/sliding-window.ts. The timestamps are left out: no function reads them.
-- A threshold is a fraction of natural numbers, and the pass rate is compared by cross-multiplication:
-- for the ten entries of the health monitor and its thresholds 0.8 and 0.5 this decides as the
-- floating-point comparison does.
use dev_ops_deployment_tool.Common.{
  ℕ, zero, suc, ◌*◌, ◌-◌, ◌+◌, Bool, List, [], ◌∷◌, ◌++◌, ltb, leb, if◌then◌else◌, length,
}

pub data AggregateHealth : Type 0 where
  healthy degraded unhealthy : AggregateHealth

-- `SlidingWindowState`: the entries' `passed`, the oldest first.
pub record SlidingWindowState : Type 0 where
  pub entries : List Bool
  pub window_size : ℕ

pub record Threshold : Type 0 where
  pub num : ℕ
  pub den : ℕ

-- `createWindow`
abbrev pub create_window : ℕ → SlidingWindowState
create_window size = record { entries = []; window_size = size }

-- `entries.slice(n)`
unfoldable pub drop : ℕ → List Bool → List Bool
drop zero xs = xs
drop (suc n) [] = []
drop (suc n) (x ∷ xs) = drop n xs

-- The end of at most `size` entries.
unfoldable pub trim : ℕ → List Bool → List Bool
unfolding drop
trim size updated =
    if ltb size (length updated) then drop (length updated - size) updated else updated

-- `pushEntry`
unfoldable pub push_entry : SlidingWindowState → Bool → SlidingWindowState
unfolding trim
push_entry state passed = record {
  entries = trim state.window_size (state.entries ++ passed ∷ []);
  window_size = state.window_size;
}

-- `entries.filter((e) => e.passed).length`
unfoldable pub pass_count : List Bool → ℕ
pass_count [] = 0
pass_count (x ∷ xs) = (if x then 1 else 0) + pass_count xs

-- `passRate >= threshold`, where an empty window has the pass rate 1.
abbrev pub reaches : Threshold → List Bool → Bool
reaches t [] = leb t.num t.den
reaches t xs = leb (t.num * length xs) (pass_count xs * t.den)

-- `computeHealth`
unfoldable pub compute_health : SlidingWindowState → Threshold → Threshold → AggregateHealth
unfolding pass_count
compute_health state healthy_threshold degraded_threshold = elim state.entries [
  | [] ↦ healthy
  | x ∷ xs ↦
      if reaches healthy_threshold (x ∷ xs)
      then healthy
      else (if reaches degraded_threshold (x ∷ xs) then degraded else unhealthy)
]
