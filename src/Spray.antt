-- ===== src/Spray.antt =====
-- srv6_fabric/cli/spray.py, the hook of the receive command: each data packet is counted in the
-- agent's loss windows under its sender's id.
pub mod Reports
use srv6_ai_fabric.Prelude.{
  ◌&&◌, ◌==◌, ◌>>=◌, Eq, List, Option, Result, String, String_eq, arith, if◌then◌else◌, none, ok,
  some, ℕ, ℕ_eq,
}
use srv6_ai_fabric.LossWindow.{LossWindowTable, record_packet}
use srv6_ai_fabric.Topo.{FlowKey}
use srv6_ai_fabric.Topo.Addresses.{Fabric, host_id_from_inner_addr, tenant_id}
use srv6_ai_fabric.Receiver.{SenderKey}

-- `agent_flow_key`
pub record AgentFlowKey : Type 0 where
  pub tid : ℕ
  pub src_id : ℕ
  pub my_id : ℕ

instance abbrev pub AgentFlowKey_eq : Eq AgentFlowKey
AgentFlowKey_eq = record {
  beq = λ a b. (a.tid == b.tid) && (a.src_id == b.src_id) && (a.my_id == b.my_id);
  beq_iff = λ a b. ground arith;
}

-- The first two parts of the key.
abbrev pub route : AgentFlowKey → Option SenderKey
route key = some (record { tenant_id = key.tid; src_id = key.src_id })

-- The receive command's own tenant and host.
module _ (f : Fabric) (exploded : String → Option (List String)) (tenant : String) (my_id : ℕ) where
  unfoldable pub count_from :
      LossWindowTable AgentFlowKey
      → Option (String × ℕ)
      → ℕ
      → ℕ
      → Result (LossWindowTable AgentFlowKey)
  count_from t none plane seq = ok t
  count_from t (some (sender_tenant, src_id)) plane seq =
      if String_eq.beq sender_tenant tenant
      then (do
        tid ← tenant_id f sender_tenant
        record_packet t (record { tid = tid; src_id = src_id; my_id = my_id }) plane seq)
      else ok t

  unfoldable pub on_packet :
      LossWindowTable AgentFlowKey → FlowKey → ℕ → ℕ → Result (LossWindowTable AgentFlowKey)
  on_packet t flow_key plane seq =
      count_from t (host_id_from_inner_addr exploded flow_key.src_addr) plane seq
