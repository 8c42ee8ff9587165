-- ===== src/Tests/Rounds.antt =====
-- A round of loss reports over two flows, one of an unknown sender.
use srv6_ai_fabric.Prelude.{List, [], arith, ok, raise, refl, some, ◌∷◌, ◌≡◌}
use srv6_ai_fabric.Prelude.Dict.{insert, lookup}
use srv6_ai_fabric.Wire.Reports.{make_record, make_report}
use srv6_ai_fabric.LossWindow.{
  LossWindowTable, count_packet, flow_window, higher, init, lower, record_packet,
  snapshot_and_reset, span, wider_gap, window_records,
}
use srv6_ai_fabric.LossWindow.Closed.{IsTable, init-IsTable, record_packet-IsTable}
use srv6_ai_fabric.Receiver.{ReceiverAgent, SenderAddr, SenderKey, SenderKey_eq}
use srv6_ai_fabric.Receiver.Rounds.{Datagram, emit_one_round, sender_of}
use srv6_ai_fabric.Receiver.Rounds.Quiet.{emit_one_round-again}

program : Unit {0}
unfolding flow_window record_packet snapshot_and_reset window_records count_packet lower higher
    wider_gap span make_record make_report lookup insert init sender_of
program = tt

-- The key of a flow, as the receive command makes it.
abbrev known_flow : SenderKey
known_flow = record { tenant_id = 1; src_id = 3 }

abbrev unknown_flow : SenderKey
unknown_flow = record { tenant_id = 1; src_id = 9 }

abbrev three_planes : LossWindowTable SenderKey
three_planes = record { num_planes = 3; flows = [] }

abbrev one_packet : LossWindowTable SenderKey
unfolding program
one_packet = elim (record_packet three_planes unknown_flow 0 5) [
  | ok t ↦ t
  | raise _ ↦ three_planes
]

abbrev two_packets : LossWindowTable SenderKey
unfolding program
two_packets = elim (record_packet one_packet known_flow 2 8) [ ok t ↦ t | raise _ ↦ one_packet ]

two_packets-IsTable : IsTable two_packets
unfolding program
two_packets-IsTable =
    record_packet-IsTable one_packet known_flow 2 8
      (record_packet-IsTable three_planes unknown_flow 0 5 (init-IsTable 3 (omega arith) refl) refl)
      refl

abbrev home : SenderAddr
home = record { underlay_addr = "fc00::3"; report_port = 9997 }

abbrev receiver : ReceiverAgent
receiver = record { senders = (known_flow, home) ∷ [] }

emit_one_round-again_example :
    (t' : LossWindowTable SenderKey) × (sent : List Datagram) × (t'' : LossWindowTable SenderKey)
    × (emit_one_round some receiver two_packets ≡ ok (t', sent))
    × (emit_one_round some receiver t' ≡ ok (t'', []))
emit_one_round-again_example =
    emit_one_round-again some receiver receiver two_packets two_packets-IsTable
