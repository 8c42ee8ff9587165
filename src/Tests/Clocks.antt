-- ===== src/Tests/Clocks.antt =====
-- The probe clock at concrete calls.
use srv6_ai_fabric.Prelude.{
  ◌↔◌, ◌+◌, ◌<◌, length, get_elem?, some, ℕ, ℕ_eq, List, [], ok, refl, ◌∷◌, ◌≡◌,
}
use srv6_ai_fabric.ProbeClock.{
  OutstandingProbe, init, ProbeClock, PlaneClock, new_plane_clock, emit, emit_plane, evict,
  match_plane, match_reply, matching, plane_clock, sweep_plane, sweep_planes, sweep_timeouts,
}
use mathlib.Core.List.{Memᴰ}
use srv6_ai_fabric.ProbeClock.Runs.{
  run, after, IsValid, init-IsValid, run-IsValid, Call, emit_at, reply_at, sweep_at, run-IsTracked,
}
use srv6_ai_fabric.ProbeClock.Sweep.{IsLate, sweep_timeouts_lem, timeouts}
use srv6_ai_fabric.ProbeClock.Planes.{IsTracked}
use srv6_ai_fabric.Prelude.Dict.{delete, insert, lookup}

program : Unit {0}
unfolding init plane_clock evict emit_plane emit matching match_plane match_reply sweep_plane
    sweep_planes sweep_timeouts after run insert lookup delete
program = tt

abbrev clock : ProbeClock
clock = record {
  num_planes = 2;
  probe_timeout_ns = 50;
  max_outstanding = 2;
  planes = new_plane_clock ∷ new_plane_clock ∷ [];
  stale_replies = 0;
}

init-clock : init 2 50 2 ≡ ok clock
unfolding program
init-clock = refl

abbrev calls : List Call
calls =
    emit_at 0 100
    ∷ emit_at 0 110
    ∷ emit_at 1 110
    ∷ emit_at 0 120
    ∷ reply_at 1 0 110 130
    ∷ sweep_at 160
    ∷ reply_at 0 1 110 161
    ∷ []

abbrev plane₀ : PlaneClock
plane₀ = record {
  next_req_id = 3;
  outstanding = (2, record { req_id = 2; plane = 0; tx_ns = 120 }) ∷ [];
  emit_count = 3;
  reply_count = 1;
  timeout_count = 0;
}

run-IsTracked_example : IsTracked 2 plane₀
unfolding program
run-IsTracked_example = run-IsTracked 2 50 2 calls clock 0 plane₀ refl refl

late_reply_is_stale : (run clock calls).stale_replies ≡ 1
unfolding program
late_reply_is_stale = refl

abbrev busy : ProbeClock
unfolding program
busy = run clock (emit_at 0 100 ∷ emit_at 1 110 ∷ [])

abbrev busy₁ : PlaneClock
busy₁ = record {
  next_req_id = 1;
  outstanding = (0, record { req_id = 0; plane = 1; tx_ns = 110 }) ∷ [];
  emit_count = 1;
  reply_count = 0;
  timeout_count = 0;
}

abbrev on_0 : PlaneClock
on_0 = record {
  next_req_id = 1;
  outstanding = (0, record { req_id = 0; plane = 0; tx_ns = 100 }) ∷ [];
  emit_count = 1;
  reply_count = 0;
  timeout_count = 0;
}

abbrev probe_0 : OutstandingProbe
probe_0 = record { req_id = 0; plane = 0; tx_ns = 100 }

sweep_timeouts_lem_example :
    (c' : ProbeClock) × (out : List (ℕ × ℕ)) × (p' : PlaneClock) × (sweep_timeouts busy 155
      ≡ (c', out))
    × (get_elem? c'.planes 0 ≡ some p')
    × (Memᴰ (0, probe_0) p'.outstanding
        ↔ (Memᴰ (0, probe_0) on_0.outstanding × (155 < probe_0.tx_ns + 50)))
    × (Memᴰ (0, 0) out ↔ IsLate 50 155 0 on_0.outstanding)
    × (p'.timeout_count + length p'.outstanding ≡ 1)
    × (timeouts c'.planes ≡ timeouts busy.planes + length out)
    × (p'.next_req_id ≡ 1)
    × (p'.emit_count ≡ 1)
    × (p'.reply_count ≡ 0)
unfolding program
sweep_timeouts_lem_example = sweep_timeouts_lem busy 155 0 0 on_0 probe_0 refl

busy-IsValid : IsValid busy
unfolding program
busy-IsValid =
    run-IsValid clock (emit_at 0 100 ∷ emit_at 1 110 ∷ []) (init-IsValid 2 50 2 init-clock)
