-- ===== src/Tests/Faults.antt =====
-- Faults at concrete targets and processes.
use srv6_ai_fabric.Prelude.{
  String_eq, ℕ_eq, List, String, [], ok, raise, refl, true, value_error, ◌∷◌, ◌≡◌,
}
use srv6_ai_fabric.Topo.Addresses.{Fabric, hex_char}
use srv6_ai_fabric.Netem.{
  Command, Completed, Fault, NetemState, NicTarget, all_hosts, apply, apply_nic, apply_nics,
  apply_pid, behind, call, card_target, decimal_on, digits, docker_inspect, good_token, good_tokens,
  host_index, host_name, host_nics, host_target, hosts_from, int_10, normalize_spec, one_of,
  parse_target, pid_of, plane_nics, plane_target, preview, resolve, resolve_container_pid, revert,
  revert_entries, tc_add, tc_del, two_digits, validate_host,
}
use srv6_ai_fabric.Netem.Undo.{apply-revert, drop_last_made, standing}
use srv6_ai_fabric.Netem.Previews.{adds, apply-preview, shown_adds}

abbrev fabric : Fabric
fabric = record {
  num_planes = 2;
  num_spines = 2;
  num_leaves = 2;
  tenants = "green" ∷ "yellow" ∷ [];
}

program : Unit {0}
unfolding hex_char decimal_on host_name hosts_from all_hosts int_10 digits behind two_digits
    host_index validate_host host_nics plane_nics plane_target card_target host_target parse_target
    good_token good_tokens one_of normalize_spec resolve pid_of call resolve_container_pid
    revert_entries revert apply_pid apply_nic apply_nics apply preview drop_last_made standing adds
    shown_adds
program = tt

abbrev card : String → String → NicTarget
card container ifname = record { container = container; ifname = ifname }

plane_1 :
    parse_target fabric ("plane" ∷ "1" ∷ [])
    ≡ ok (
        card "green-host00" "eth2"
        ∷ card "green-host01" "eth2"
        ∷ card "yellow-host00" "eth2"
        ∷ card "yellow-host01" "eth2"
        ∷ [])
unfolding program
plane_1 = refl

no_host : parse_target fabric ("host" ∷ "green-host07" ∷ []) ≡ raise value_error
unfolding program
no_host = refl

blackhole : normalize_spec ("blackhole" ∷ []) ≡ ok ("loss" ∷ "100%" ∷ [])
unfolding program
blackhole = refl

not_a_token : normalize_spec ("loss" ∷ "5%;" ∷ []) ≡ raise value_error
unfolding program
not_a_token = refl

-- Each host has the process 7, but there is no process for the host of the second fault.
abbrev processes : Command → Unit {0} → Completed × Unit {0}
processes (docker_inspect name) w =
    (record { zero_code = String_eq.beq name "green-host00"; stdout = "7" }, w)
processes (tc_add pid ifname tokens) w = (record { zero_code = true; stdout = "" }, w)
processes (tc_del pid ifname) w = (record { zero_code = true; stdout = "" }, w)

abbrev lossy_plane : Fault
lossy_plane = record { target = "host" ∷ "green-host00" ∷ []; spec = "loss" ∷ "5%" ∷ [] }

abbrev no_process : Fault
no_process = record { target = "host" ∷ "green-host01" ∷ []; spec = "blackhole" ∷ [] }

abbrev idle : NetemState (Unit {0})
idle = record { world = tt; applied = []; commands = [] }

-- The second fault has no process: `apply` raises, and the faults of the first stay in place.
left_in_place :
    ((apply processes fabric "4p-8x16" (lossy_plane ∷ no_process ∷ []) idle).1).applied
    ≡ (7, "eth2") ∷ (7, "eth1") ∷ []
unfolding program
left_in_place = refl

abbrev after_apply : NetemState (Unit {0})
after_apply = (apply processes fabric "4p-8x16" (lossy_plane ∷ no_process ∷ []) idle).1

abbrev after_revert : NetemState (Unit {0})
after_revert = (revert processes true after_apply).1

apply-revert_example :
    ((revert processes true after_apply).0 ≡ ok tt)
    × (after_revert.applied ≡ [])
    × (standing after_revert.commands ≡ [])
    × (revert processes true after_revert ≡ (ok tt, after_revert))
unfolding standing
apply-revert_example =
    apply-revert processes fabric "4p-8x16" (lossy_plane ∷ no_process ∷ []) idle refl

apply-preview_example :
    (cs : List Command) × (preview fabric (lossy_plane ∷ []) ≡ ok cs)
    × (adds ((apply processes fabric "4p-8x16" (lossy_plane ∷ []) idle).1).commands ≡ shown_adds cs)
unfolding program
apply-preview_example = apply-preview processes fabric "4p-8x16" (lossy_plane ∷ []) tt refl
