-- ===== src/Tests/Picks.antt =====
-- Spray policies and spines at concrete packets.
use srv6_ai_fabric.Prelude.{
  String_eq, List, [], ok, refl, some, ◌∷◌, ◌≡◌, arith, get_elem?, false, true, raise,
  runtime_error, ◌≢◌, ◌≤◌, ◌<◌, ◌⊎◌, ℕ, suc, ◌%◌,
}
use srv6_ai_fabric.EvState.{
  EvStateTable, PlaneRecord, assumed_bad, init, check_plane, loss_window, new_plane, new_tenant,
  new_tenants, probe_outcome, probe_timeout, rebuild_weights, record_loss_window,
  record_probe_result, resolve_min_active, transition_locked, try_demote_locked, usable_after,
}
use srv6_ai_fabric.EvState.Table.{handle, run}
use srv6_ai_fabric.Prelude.Dict.{insert, lookup}
use srv6_ai_fabric.Tests.Fractions.{Fraction, frac, fraction_laws, fractions}
use srv6_ai_fabric.Tests.EvStates.{config, green, lossy, names, table}
use srv6_ai_fabric.Topo.{FlowKey, spine_for, spine_of_pair, reference_spine}
use srv6_ai_fabric.Policy.{
  set_size, mem, avoid_down, walk_forward, pick, health_aware_mrc, health_aware_spec, named, Spec,
  policy_from_spec, health_aware, round_robin,
}
use srv6_ai_fabric.Policy.Walks.{avoid_down_lem}
use srv6_ai_fabric.Policy.Avoids.{pick-avoids_demoted}
use srv6_ai_fabric.Policy.Specs.{IsDeferred, policy_from_spec-pick}

abbrev flow : FlowKey
flow = record {
  src_addr = "2001:db8:bbbb:0::2";
  dst_addr = "2001:db8:bbbb:f::2";
  src_port = 40000;
  dst_port = 9999;
}

-- A stand-in for the formatting of the canonical string.
abbrev key_bytes : FlowKey → List ℕ
key_bytes f = f.src_port % 256 ∷ f.dst_port % 256 ∷ 17 ∷ []

program : Unit {0}
unfolding init resolve_min_active new_tenants new_tenant new_plane insert lookup run handle
    record_probe_result record_loss_window check_plane probe_outcome probe_timeout loss_window
    try_demote_locked transition_locked usable_after rebuild_weights set_size mem avoid_down
    walk_forward policy_from_spec spine_for spine_of_pair reference_spine
program = tt

abbrev after : EvStateTable Fraction
unfolding program
after = run fractions table lossy

other_direction : spine_for 16 8 14 1 ≡ 2
unfolding program
other_direction = refl

abbrev down : List ℕ
down = 3 ∷ 0 ∷ []

walks_on : avoid_down 4 down 3 ≡ 1
unfolding program
walks_on = refl

avoid_down_lem_example :
    (avoid_down 4 down 3 < 4)
    × ((mem (avoid_down 4 down 3) down ≡ false)
        ⊎ ((avoid_down 4 down 3 ≡ 3)
            × ((4 ≤ set_size down) ⊎ ((q : ℕ) → q < 4 → mem q down ≡ true))))
avoid_down_lem_example = avoid_down_lem 4 down 3 (omega arith)

abbrev weights : List Fraction
weights = frac 1 1 ∷ frac 0 0 ∷ frac 1 1 ∷ frac 1 0 ∷ []

pick-avoids_demoted_example :
    (q : ℕ) × (r : PlaneRecord Fraction) × (pick fractions 4 key_bytes after
        (health_aware_mrc "green")
        5
        flow
      ≡ ok q)
    × (get_elem? (green after).planes q ≡ some r)
    × ((r.state ≢ assumed_bad) ⊎ (suc q ≡ 4))
unfolding program
pick-avoids_demoted_example =
    pick-avoids_demoted fractions fraction_laws names 4 config lossy table "green" (green after)
      key_bytes 5 flow refl refl

abbrev spec : Spec fractions
spec = health_aware_spec (named "round_robin")

policy_from_spec-pick_example :
    (IsDeferred fractions spec
      × (pick fractions 4 key_bytes table (health_aware round_robin []) 6 flow
          ≡ raise runtime_error))
    ⊎ ((q : ℕ) × (pick fractions 4 key_bytes table (health_aware round_robin []) 6 flow ≡ ok q)
        × (q < 4))
unfolding program
policy_from_spec-pick_example =
    policy_from_spec-pick fractions 4 spec (health_aware round_robin []) key_bytes table 6 flow
      (omega arith) refl
