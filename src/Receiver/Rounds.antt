-- ===== src/Receiver/Rounds.antt =====
-- srv6_fabric/mrc/agent.py, `_emit_one_round` of the receiver: a report for each flow that it knows.
-- A flow's key is any type with a Boolean equality; `route` reads the sender off the key, `none` for a
-- key that is no tuple of two or more. A datagram is a result; an OSError of `sendto` is only logged.
pub mod Quiet
pub mod Delivery
use srv6_ai_fabric.Prelude.{
  Eq, List, Option, Result, [], none, ok, some, ℕ, ◌++◌, ◌>>=◌, ◌∷◌, length, ◌==◌, if◌then◌else◌,
  ◌>>◌,
}
use srv6_ai_fabric.Prelude.Dict.{lookup}
use srv6_ai_fabric.Wire.Reports.{LossReport, encode_loss_report}
use srv6_ai_fabric.LossWindow.{LossWindowTable, snapshot_and_reset, known_flows}
use srv6_ai_fabric.Agent.{catch_value_error}
use srv6_ai_fabric.Receiver.{ReceiverAgent, SenderAddr, SenderKey, SenderKey_eq}

pub record Datagram : Type 0 where
  pub payload : List ℕ
  pub dest : SenderAddr

unfoldable pub datagram : SenderAddr → Option (List ℕ) → List Datagram
datagram dest none = []
datagram dest (some payload) = record { payload = payload; dest = dest } ∷ []

-- What the loop's body does with the report, once the sender is looked up.
unfoldable pub send_report : Option SenderAddr → LossReport → Result (List Datagram)
send_report none report = ok []
send_report (some dest) report = do
  payload ← catch_value_error (encode_loss_report report.window_id report.planes)
  ok (datagram dest payload)

module _ {K : Type 0} ⦃e : Eq K⦄ (route : K → Option SenderKey) where
  unfoldable pub sender_of : ReceiverAgent → K → Option SenderAddr
  sender_of r key = elim (route key) [ none ↦ none | some k ↦ lookup k r.senders ]

  unfoldable pub report_flow : ReceiverAgent → K → LossReport → Result (List Datagram)
  report_flow r key report =
      if length report.planes == 0 then ok [] else send_report (sender_of r key) report

  -- The loop, over the keys in order.
  unfoldable pub emit_flows :
      ReceiverAgent → LossWindowTable K → List K → Result (LossWindowTable K × List Datagram)
  emit_flows r t [] = ok (t, [])
  emit_flows r t (key ∷ ks) = do
    (t', report) ← snapshot_and_reset t key
    sent ← report_flow r key report
    (t'', rest) ← emit_flows r t' ks
    ok (t'', sent ++ rest)

  unfoldable pub emit_one_round :
      ReceiverAgent → LossWindowTable K → Result (LossWindowTable K × List Datagram)
  emit_one_round r t = emit_flows r t (known_flows t)
