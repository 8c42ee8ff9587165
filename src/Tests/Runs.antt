-- ===== src/Tests/Runs.antt =====
-- Addresses and data packets at concrete hosts.
use mathlib.Core.List.{Memᴰ}
use srv6_ai_fabric.Wire.Probes.{Probe}
use srv6_ai_fabric.Wire.Reports.{LossReport, PlaneLossRecord, decode_loss_report}
use srv6_ai_fabric.LossWindow.{LossWindowTable, init}
use srv6_ai_fabric.LossWindow.Closed.{init-IsTable}
use srv6_ai_fabric.Receiver.{ReceiverAgent, learn_sender, SenderKey_eq}
use srv6_ai_fabric.Receiver.Rounds.{Datagram, emit_one_round}
use srv6_ai_fabric.Spray.{AgentFlowKey, AgentFlowKey_eq, on_packet, route}
use srv6_ai_fabric.Spray.Reports.{on_packet-emit_one_round}
use native.Mathlib.Nat.{mod-lt}
use srv6_ai_fabric.Topo.{FlowKey}
use srv6_ai_fabric.Prelude.{
  ◌++◌, inr, ℕ, String_eq, ℕ_eq, List, Option, String, [], arith, false, none, ok, refl, some, true,
  ◌%◌, ◌∷◌, ◌≡◌,
}
use srv6_ai_fabric.Prelude.Dict.{insert, lookup}
use srv6_ai_fabric.Policy.{known_tenant}
use srv6_ai_fabric.Runner.{
  count_data_packet, handle, DataReceiver, SendLoop, SendSetup, SentFrame, Sniffed, build_packet,
  frame_of, handle_all, new_receiver, send_all, send_start,
}
use srv6_ai_fabric.Runner.Receives.{
  IsConsistent, arrived, handle-build_packet, handle_all-IsConsistent,
}
use srv6_ai_fabric.Runner.Sends.{IsReady, IsSent, send_all-IsSent}
use srv6_ai_fabric.Topo.Addresses.{
  Fabric, carrier, green_anycast_addr, hex_02, hex_char, hex_on, host_id_from_inner_addr,
  host_underlay_addr, inner_addr, invert, leaf_gateway_addr, tenant_ids_from, tenant_name,
  usid_outer_dst, yellow_anycast_addr,
}
use srv6_ai_fabric.Topo.AddressTrips.{Explodes, host_id_from_inner_addr-inner_addr}

abbrev fabric : Fabric
fabric = record {
  num_planes = 4;
  num_spines = 8;
  num_leaves = 32;
  tenants = "green" ∷ "yellow" ∷ [];
}

addresses : Unit {0}
unfolding known_tenant inner_addr green_anycast_addr yellow_anycast_addr hex_02 hex_on hex_char
    usid_outer_dst carrier leaf_gateway_addr tenant_ids_from invert insert lookup
addresses = tt

green_7 : inner_addr fabric "green" 7 ≡ ok "2001:db8:bbbb:07::2"
unfolding addresses
green_7 = refl

yellow_26 : host_underlay_addr fabric "yellow" 3 26 ≡ ok "2001:db8:cccc:1a::2"
unfolding addresses
yellow_26 = refl

carrier_of_7 : usid_outer_dst fabric "yellow" 2 5 7 ≡ ok "fc00:0002:f005:e007:e009:d001::"
unfolding addresses
carrier_of_7 = refl

-- A leaf past the fifteenth makes a group of five digits.
wide_group : usid_outer_dst fabric "green" 0 0 16 ≡ ok "fc00:0000:f000:e0010:d000::"
unfolding addresses
wide_group = refl

tenant_2 : tenant_name fabric 2 ≡ ok "yellow"
unfolding addresses
tenant_2 = refl

-- A stand-in for `ipaddress` on addresses whose fourth group has two digits.
abbrev written_out : String → Option (List String)
written_out
      (String.◌∷◌ _ (
        String.◌∷◌ _ (
          String.◌∷◌ _ (
            String.◌∷◌ _ (
              String.◌∷◌ _ (
                String.◌∷◌ _ (
                  String.◌∷◌ _ (
                    String.◌∷◌ _ (
                      String.◌∷◌ _ (
                        String.◌∷◌ p (
                          String.◌∷◌ q (
                            String.◌∷◌ r (
                              String.◌∷◌ s
                                (String.◌∷◌ _ (String.◌∷◌ a (String.◌∷◌ b _)))))))))))))))) =
    some (
      "2001"
      ∷ "0db8"
      ∷ String.◌∷◌ p (String.◌∷◌ q (String.◌∷◌ r (String.◌∷◌ s "")))
      ∷ String.◌∷◌ "0" (String.◌∷◌ "0" (String.◌∷◌ a (String.◌∷◌ b "")))
      ∷ "0000"
      ∷ "0000"
      ∷ "0000"
      ∷ "0002"
      ∷ [])
written_out _ = none

written_out-Explodes : Explodes written_out
written_out-Explodes true a b ha hb = refl
written_out-Explodes false a b ha hb = refl

host_id_from_inner_addr-inner_addr_example :
    (addr : String) × (inner_addr fabric "yellow" 11 ≡ ok addr)
    × (host_id_from_inner_addr written_out addr ≡ some ("yellow", 11))
unfolding known_tenant
host_id_from_inner_addr-inner_addr_example =
    host_id_from_inner_addr-inner_addr fabric written_out "yellow" 11 written_out-Explodes refl
      (omega arith) (omega arith)

abbrev setup : SendSetup
setup = record {
  num_planes = 2;
  choose = λ seq. ok (seq % 2);
  plane_meta = ("s", "c0") ∷ ("s", "c1") ∷ [];
  src_inner = "a";
  dst_inner = "b";
}

setup-IsReady : IsReady setup
setup-IsReady = (λ seq. (seq % 2, refl, mod-lt seq (omega arith)), refl, omega arith)

-- The second of three frames is not taken.
send_all-IsSent_example :
    (final : SendLoop) × (send_all setup send_start (true ∷ false ∷ true ∷ []) ≡ ok final)
    × IsSent final 3
send_all-IsSent_example =
    send_all-IsSent setup (true ∷ false ∷ true ∷ []) setup-IsReady (omega arith)

abbrev key : FlowKey
key = record { src_addr = "a"; dst_addr = "b"; src_port = 9999; dst_port = 9999 }

handle-build_packet_example :
    (frame : SentFrame) × (build_packet ("s", "c1") "a" "b" 5 1 ≡ ok frame)
    × (handle new_receiver (arrived true "eth2" frame)
        ≡ ok (count_data_packet new_receiver "eth2" key 5 1, some (key, 1, 5)))
handle-build_packet_example =
    handle-build_packet new_receiver true "eth2" "a" "b" ("s", "c1") 5 1 (omega arith) (omega arith)

-- A data packet and one of another port.
abbrev sniffed : List Sniffed
sniffed =
    arrived false "eth1" (frame_of ("s", "c0") "a" "b" (0 ∷ 0 ∷ 0 ∷ 0 ∷ 0 ∷ 0 ∷ 0 ∷ 9 ∷ 1 ∷ []))
    ∷ record {
      sniffed_on = none;
      outer = some (record { src = "a"; dst = "b" });
      nh = 17;
      inner = none;
      inner_udp = none;
      udp = some (record { sport = 53; dport = 53; payload = [] });
    }
    ∷ []

handle_all-IsConsistent_example :
    (final : DataReceiver) × (handle_all new_receiver sniffed ≡ ok final) × IsConsistent final
handle_all-IsConsistent_example = handle_all-IsConsistent sniffed

abbrev windows : LossWindowTable AgentFlowKey
windows = record { num_planes = 4; flows = [] }

abbrev from_11 : FlowKey
from_11 = record {
  src_addr = "2001:db8:cccc:0b::2";
  dst_addr = "2001:db8:cccc:02::2";
  src_port = 9999;
  dst_port = 9999;
}

abbrev probe : Probe
probe = record {
  req_id = 0;
  plane_id = 2;
  tx_ns = 7;
  tenant_id = 2;
  src_id = 11;
  reply_port = 9997;
}

abbrev unheard : ReceiverAgent
unheard = record { senders = [] }

on_packet-emit_one_round_example :
    (t₁ t₂ : LossWindowTable AgentFlowKey) × (sent : List Datagram) × (bs : List ℕ)
    × (report : LossReport) × (rec : PlaneLossRecord) × (on_packet fabric written_out "yellow" 2
          windows from_11 3 70
        ≡ ok t₁)
    × (emit_one_round route (learn_sender unheard probe "fc00::b") t₁ ≡ ok (t₂, sent))
    × Memᴰ
        (record { payload = bs; dest = record { underlay_addr = "fc00::b"; report_port = 9997 } })
        sent
    × (decode_loss_report (bs ++ []) ≡ ok report)
    × Memᴰ rec report.planes
    × (rec.plane_id ≡ 3)
unfolding addresses init
on_packet-emit_one_round_example =
    on_packet-emit_one_round fabric written_out "yellow" 2 unheard windows from_11 3 70 probe
      "fc00::b" [] written_out-Explodes (inr refl) refl (omega arith) (omega arith) (omega arith)
      refl refl (init-IsTable 4 (omega arith) refl) (omega arith) (omega arith)
