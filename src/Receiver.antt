-- ===== src/Receiver.antt =====
-- srv6_fabric/mrc/agent.py, the receiver's answer to a probe: a turn of `_probe_rx_loop` on a
-- datagram. The address that it came from is an argument, the reply a result. Children: Rounds (the
-- round of loss reports).
pub mod Rounds
use srv6_ai_fabric.Prelude.{
  le→leb, inl, inr, [], ◌&&◌, ◌==◌, ◌>>=◌, ◌≡◌, Eq, List, Option, Result, String, arith, none, ok,
  some, ℕ, ℕ_eq, refl, ◌++◌, ◌∷◌,
}
use srv6_ai_fabric.Prelude.Dict.{lookup, lookup-insert_self, Dict, insert}
use srv6_ai_fabric.Wire.Words.{pack_total}
use srv6_ai_fabric.Wire.Probes.{
  decode_probe_reply, encode_probe, magic_probe_reply, probe_fmt, probe_version, Probe, ProbeReply,
  decode_probe, encode_probe_reply,
}
use srv6_ai_fabric.Wire.ProbeTrips.{
  decode_probe-encode_probe, decode_probe_reply-encode_probe_reply, encode_probe_total, IsWireProbe,
}
use srv6_ai_fabric.Agent.{catch_decode_error, catch_value_error}

pub record SenderAddr : Type 0 where
  pub underlay_addr : String
  pub report_port : ℕ

-- The key of a sender.
pub record SenderKey : Type 0 where
  pub tenant_id : ℕ
  pub src_id : ℕ

pub record ReceiverAgent : Type 0 where
  pub senders : Dict SenderKey SenderAddr

instance abbrev pub SenderKey_eq : Eq SenderKey
SenderKey_eq = record {
  beq = λ a b. (a.tenant_id == b.tenant_id) && (a.src_id == b.src_id);
  beq_iff = λ a b. ground arith;
}

unfoldable pub learn_sender : ReceiverAgent → Probe → String → ReceiverAgent
learn_sender r p underlay_addr = record r {
  senders =
      insert (record { tenant_id = p.tenant_id; src_id = p.src_id })
        (record { underlay_addr = underlay_addr; report_port = p.reply_port }) r.senders;
}

-- The reply that echoes the probe; the service time is not measured.
abbrev pub echo : Probe → ProbeReply
echo p = record {
  req_id = p.req_id;
  plane_id = p.plane_id;
  tx_ns = p.tx_ns;
  svc_time_ns = 0;
  tenant_id = p.tenant_id;
  src_id = p.src_id;
  reply_port = p.reply_port;
}

unfoldable pub answer :
    ReceiverAgent → Option Probe → String → Result (ReceiverAgent × Option (List ℕ))
answer r none peer = ok (r, none)
answer r (some p) peer = do
  payload ← catch_value_error (encode_probe_reply (echo p))
  ok (learn_sender r p peer, payload)

unfoldable pub on_probe : ReceiverAgent → List ℕ → String → Result (ReceiverAgent × Option (List ℕ))
on_probe r payload peer = do probe ← catch_decode_error (decode_probe payload); answer r probe peer

encode_probe_reply-echo :
    (p : Probe) → IsWireProbe p → (bs : List ℕ) × (encode_probe_reply (echo p) ≡ ok bs)
unfolding encode_probe_reply
encode_probe_reply-echo p w =
    let fields =
      magic_probe_reply ∷ probe_version ∷ p.req_id ∷ p.plane_id ∷ 0 ∷ p.tx_ns ∷ 0 ∷ p.tenant_id
      ∷ p.src_id ∷ p.reply_port ∷ [] in
    let (bs, e) = pack_total probe_fmt fields (
      omega (
        arith, w.req_id_u16, w.plane_id_u8, w.tx_ns_u64, w.tenant_id_u16, w.src_id_u16,
        w.reply_port_u16,
      )) in
    (
      bs,
      rw
          (
            le→leb p.req_id _ w.req_id_u16,
            le→leb p.plane_id _ w.plane_id_u8,
            le→leb p.tx_ns _ w.tx_ns_u64,
            le→leb p.tenant_id _ w.tenant_id_u16,
            le→leb p.src_id _ w.src_id_u16,
            le→leb p.reply_port _ w.reply_port_u16,
          )
          e,
    )

-- The receiver answers a probe, whatever follows it in the datagram, with a reply that decodes to
-- the probe's id, plane, send time, tenant, sender and port and to no service time, and it knows the
-- sender from then on, at the address that the probe came from and the port that the probe names.
pub on_probe-echo :
    (r : ReceiverAgent) (p : Probe) (bs extra : List ℕ) (peer : String)
    → encode_probe p ≡ ok bs
    → (r' : ReceiverAgent) × (reply : List ℕ) × (on_probe r (bs ++ extra) peer
        ≡ ok (r', some reply))
      × (decode_probe_reply (reply ++ [])
          ≡ ok (record {
            req_id = p.req_id;
            plane_id = p.plane_id;
            tx_ns = p.tx_ns;
            svc_time_ns = 0;
            tenant_id = p.tenant_id;
            src_id = p.src_id;
            reply_port = p.reply_port;
          }))
      × (lookup (record { tenant_id = p.tenant_id; src_id = p.src_id }) r'.senders
          ≡ some (record { underlay_addr = peer; report_port = p.reply_port }))
unfolding on_probe answer learn_sender
on_probe-echo r p bs extra peer h =
    let decoded = decode_probe-encode_probe p bs extra h in
    let wire : IsWireProbe p = elim (encode_probe_total p) [
      | inl (w, _, _, _) ↦ w
      | inr (_, refused) ↦ absurd (ground arith)
    ] in
    let (reply, e) = encode_probe_reply-echo p wire in
    (
      learn_sender r p peer,
      reply,
      rw (decoded, e) refl,
      decode_probe_reply-encode_probe_reply (echo p) reply [] e,
      lookup-insert_self _ _ r.senders,
    )
