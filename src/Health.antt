-- ===== src/Health.antt =====
-- srv6_fabric/health.py: the monitor that keeps the set of planes that are down. A set of planes is
-- a list; the probe is a parameter, and its answers in one round are a function of the plane.
pub mod Machine
use srv6_ai_fabric.Prelude.{
  ◌>>◌, ℕ, List, Bool, Result, String, [], get_elem?, guard, if◌then◌else◌, leb, ltb, none, not, ok,
  replicate, set, some, suc, value_error, zero, ◌&&◌, ◌+◌, ◌==◌, ◌∷◌,
}
use srv6_ai_fabric.Prelude.Dict.{Dict}
use srv6_ai_fabric.Policy.{mem}

pub record HealthMonitor : Type 0 where
  pub down : List ℕ
  pub num_planes : ℕ
  pub threshold : ℕ
  pub recovery : ℕ
  pub fail_streak : List ℕ
  pub pass_streak : List ℕ

-- `HealthMonitor(down, probe, ...)`
unfoldable pub make_monitor : List ℕ → ℕ → ℕ → ℕ → Result HealthMonitor
make_monitor down num_planes threshold recovery =
    guard (not (ltb threshold 1)) value_error
    >> guard (not (ltb recovery 1)) value_error
    >> guard (not (ltb num_planes 1)) value_error
    >> ok (record {
      down = down;
      num_planes = num_planes;
      threshold = threshold;
      recovery = recovery;
      fail_streak = replicate num_planes 0;
      pass_streak = replicate num_planes 0;
    })

-- `down.discard(plane)`, and `down.add(plane)` for a plane that is not in the set
unfoldable pub clear : ℕ → List ℕ → List ℕ
clear plane [] = []
clear plane (p ∷ ps) = let rest = clear plane ps in if p == plane then rest else p ∷ rest

-- `streak[plane]`
abbrev pub streak : ℕ → List ℕ → ℕ
streak plane l = elim (get_elem? l plane) [ none ↦ 0 | some n ↦ n ]

-- `_record` for a plane below `num_planes`
unfoldable pub record_success : HealthMonitor → ℕ → HealthMonitor
record_success m plane =
    let passes = streak plane m.pass_streak + 1 in
    record m {
      fail_streak = set m.fail_streak plane 0;
      pass_streak = set m.pass_streak plane passes;
      down = if mem plane m.down && leb m.recovery passes then clear plane m.down else m.down;
    }

unfoldable pub record_failure : HealthMonitor → ℕ → HealthMonitor
record_failure m plane =
    let fails = streak plane m.fail_streak + 1 in
    record m {
      pass_streak = set m.pass_streak plane 0;
      fail_streak = set m.fail_streak plane fails;
      down = if not (mem plane m.down) && leb m.threshold fails then plane ∷ m.down else m.down;
    }

unfoldable pub record_answer : HealthMonitor → ℕ → Bool → HealthMonitor
record_answer m plane answer = if answer then record_success m plane else record_failure m plane

-- The planes `plane`, `plane + 1`, … of a round, `count` of them.
unfoldable pub tick_from : (ℕ → Bool) → ℕ → ℕ → HealthMonitor → HealthMonitor
tick_from probe plane zero m = m
tick_from probe plane (suc count) m =
    tick_from probe (suc plane) count (record_answer m plane (probe plane))

unfoldable pub tick : (ℕ → Bool) → HealthMonitor → HealthMonitor
tick probe m = tick_from probe 0 m.num_planes m

-- Rounds, each with its own answers.
unfoldable pub ticks : List (ℕ → Bool) → HealthMonitor → HealthMonitor
ticks [] m = m
ticks (probe ∷ probes) m = ticks probes (tick probe m)

abbrev pub status_of : HealthMonitor → ℕ → String
status_of m plane = if mem plane m.down then "down" else "up"

unfoldable pub status_from : HealthMonitor → ℕ → ℕ → Dict ℕ String
status_from m plane zero = []
status_from m plane (suc count) = (plane, status_of m plane) ∷ status_from m (suc plane) count

abbrev pub last_status : HealthMonitor → Dict ℕ String
last_status m = status_from m 0 m.num_planes
