-- ===== src/Spray/Reports.antt =====
-- From a host's probe and its data packet to the loss report that it gets (spray.py and agent.py).
use srv6_ai_fabric.Receiver.Rounds.{Datagram, emit_one_round, sender_of}
use srv6_ai_fabric.Receiver.Rounds.Delivery.{emit_one_round-delivers}
use srv6_ai_fabric.Receiver.{ReceiverAgent, learn_sender, SenderKey_eq}
use srv6_ai_fabric.LossWindow.Closed.{record_packet-IsTable, snapshot_and_reset_total}
use srv6_ai_fabric.Wire.Reports.{LossReport, decode_loss_report}
use srv6_ai_fabric.Prelude.{
  ◌++◌, Bool-cases, ◌∙◌, subst, sym, ok-injective, ◌⊎◌, if◌then◌else◌, true, String, String_eq, Eq,
  false, min, lt→ltb, List, Option, [], arith, get_elem?, get_elem?_of_lt-length, inl, inr, le→leb,
  ok, set, some, suc, zero, ℕ, ◌+◌, ◌<◌, ◌==◌, ◌∷◌, ◌≡◌, ◌≤◌, length, refl,
}
use mathlib.Core.List.{Memᴰ}
use mathlib.Core.List.Memᴰ
use srv6_ai_fabric.Prelude.Dict.{Dict, insert, key_cases, keys, lookup, lookup-insert_self}
use srv6_ai_fabric.Wire.Probes.{Probe}
use srv6_ai_fabric.Wire.Reports.{PlaneLossRecord}
use srv6_ai_fabric.LossWindow.{
  LossWindowTable, PlaneCounters, count_packet, span, lower, higher, wider_gap, u32_max,
  flow_window, known_flows, record_packet,
}
use srv6_ai_fabric.LossWindow.Windows.{records_of, record_packet-ok, flow_window-insert}
use srv6_ai_fabric.LossWindow.Closed.{IsTable}
use srv6_ai_fabric.Topo.{FlowKey}
use srv6_ai_fabric.Topo.Addresses.{Fabric, host_id_from_inner_addr, inner_addr, tenant_id}
use srv6_ai_fabric.Topo.AddressTrips.{Explodes, host_id_from_inner_addr-inner_addr}
use srv6_ai_fabric.Policy.{known_tenant}
use srv6_ai_fabric.Spray.{AgentFlowKey, AgentFlowKey_eq, count_from, on_packet, route}

-- A plane that has counted a packet has a record.
records_of-count_packet :
    (i k seq : ℕ) (cs : List PlaneCounters) {c : PlaneCounters}
    → get_elem? cs k ≡ some c
    → (r : PlaneLossRecord) × Memᴰ r (records_of i (set cs k (count_packet c seq)))
      × (r.plane_id ≡ i + k)
unfolding records_of count_packet
records_of-count_packet i k seq [] h = cc
records_of-count_packet i zero seq (d ∷ cs) {c} h =
    let counted : c.seen + 1 == 0 ≡ false = ground arith in
    (
      record {
        plane_id = i;
        seen = min (c.seen + 1) u32_max;
        expected = min (span (lower c.min_seq seq) (higher c.max_seq seq)) u32_max;
        max_gap = min (wider_gap c.last_seq seq c.max_gap) u32_max;
      },
      rw counted (Memᴰ.head refl),
      omega arith,
    )
records_of-count_packet i (suc k) seq (d ∷ cs) {c} h =
    let (r, there, id) = records_of-count_packet (suc i) k seq cs h in
    elim (Bool-cases (d.seen == 0)) [
      | inl silent ↦ (r, rw silent there, omega arith)
      | inr heard ↦ (r, rw heard (Memᴰ.tail there), omega arith)
    ]

lookup-Memᴰ :
    {K V : Type 0} ⦃e : Eq K⦄ (key : K) (m : Dict K V) {v : V}
    → lookup key m ≡ some v
    → Memᴰ key (keys m)
lookup-Memᴰ key m h = elim (key_cases key m) [ inl there ↦ there | inr absent ↦ absurd cc ]

module _ {K : Type 0} ⦃e : Eq K⦄ where
  record_packet_total :
      (t : LossWindowTable K) (key : K) (plane seq : ℕ)
      → IsTable t
      → plane < t.num_planes
      → seq ≤ u32_max
      → (t' : LossWindowTable K) × (record_packet t key plane seq ≡ ok t')
  unfolding record_packet
  record_packet_total t key plane seq s inside u32 =
      let (c, e₁) =
        get_elem?_of_lt-length (flow_window t key).planes plane
          (omega (arith, (s.windows key).sized)) in
      (
        record t {
          flows =
              insert key
                (record (flow_window t key) {
                  planes = set (flow_window t key).planes plane (count_packet c seq);
                })
                t.flows;
        },
        rw (lt→ltb plane t.num_planes inside, le→leb seq u32_max u32, e₁) refl,
      )

  -- A counted packet shows in the report that closes the window.
  record_packet-reported :
      (t : LossWindowTable K) (key : K) (plane seq : ℕ) {t' : LossWindowTable K}
      → record_packet t key plane seq ≡ ok t'
      → (r : PlaneLossRecord) × Memᴰ r (records_of 0 (flow_window t' key).planes)
        × (r.plane_id ≡ plane)
  record_packet-reported t key plane seq h =
      let (c, read, e') = record_packet-ok t key plane seq h in
      subst
        (λ u.
          (r : PlaneLossRecord) × Memᴰ r (records_of 0 (flow_window u key).planes)
          × (r.plane_id ≡ plane))
        (sym e')
        (let (r, there, id) = records_of-count_packet 0 plane seq (flow_window t key).planes read in
          rw
            (flow_window-insert t key (record (flow_window t key) {
              planes = set (flow_window t key).planes plane (count_packet c seq);
            }))
            (r, there, id ∙ omega arith))

  record_packet-known :
      (t : LossWindowTable K) (key : K) (plane seq : ℕ) {t' : LossWindowTable K}
      → record_packet t key plane seq ≡ ok t'
      → Memᴰ key (known_flows t')
  record_packet-known t key plane seq h =
      let (c, read, e') = record_packet-ok t key plane seq h in
      subst (λ u. Memᴰ key (known_flows u)) (sym e')
        (lookup-Memᴰ key _ (lookup-insert_self key _ _))

length-Memᴰ : {A : Type 0} {a : A} (xs : List A) → Memᴰ a xs → 0 < length xs
length-Memᴰ [] m = absurd (Memᴰ.not-nil m)
length-Memᴰ (x ∷ xs) m = omega arith

-- The key under which the receive command of host `my_id` counts a sender's packets.
abbrev flow_of_sender : ℕ → Probe → AgentFlowKey
flow_of_sender my_id p = record { tid = p.tenant_id; src_id = p.src_id; my_id = my_id }

-- A packet of one of the first 16 hosts is counted under the ids that the host's probes carry.
on_packet-sender :
    (f : Fabric) (exploded : String → Option (List String)) (tenant : String) (my_id : ℕ)
    (t : LossWindowTable AgentFlowKey) (flow_key : FlowKey) (plane seq : ℕ) (p : Probe)
    → Explodes exploded
    → (tenant ≡ "green") ⊎ (tenant ≡ "yellow")
    → known_tenant tenant f.tenants ≡ true
    → p.src_id < f.num_leaves
    → f.num_leaves ≤ 256
    → p.src_id ≤ 15
    → tenant_id f tenant ≡ ok p.tenant_id
    → inner_addr f tenant p.src_id ≡ ok flow_key.src_addr
    → on_packet f exploded tenant my_id t flow_key plane seq
      ≡ record_packet t (flow_of_sender my_id p) plane seq
unfolding on_packet count_from
on_packet-sender f exploded tenant my_id t flow_key plane seq p law two known inside small low tid
      src =
    let (addr, e₁, read) =
      host_id_from_inner_addr-inner_addr f exploded tenant p.src_id law known inside small in
    let same : addr ≡ flow_key.src_addr = ok-injective _ _ (sym e₁ ∙ src) in
    let spelled : (if String_eq.beq tenant "green" then "green" else "yellow") ≡ tenant = elim two [
      | inl green ↦ rw green refl
      | inr yellow ↦ rw yellow refl
    ] in
    let parsed : host_id_from_inner_addr exploded flow_key.src_addr ≡ some (tenant, p.src_id) =
      subst (λ a. host_id_from_inner_addr exploded a ≡ some (tenant, p.src_id)) same
        (read ∙ rw (le→leb p.src_id 15 low, spelled) refl) in
    let own : String_eq.beq tenant tenant ≡ true = (String_eq.beq_iff tenant tenant).1 refl in
    rw (parsed, own, tid) refl

-- When one of the first 16 hosts of a tenant has probed the receiver from an address, and a data packet
-- from the host's inner address is counted, with its plane and sequence number in range, then the
-- next round of reports raises nothing and sends to that address and the port of the probe a
-- datagram that decodes, whatever follows it, to a report with a record for the packet's plane.
pub on_packet-emit_one_round :
    (f : Fabric) (exploded : String → Option (List String)) (tenant : String) (my_id : ℕ)
    (r : ReceiverAgent) (t : LossWindowTable AgentFlowKey) (flow_key : FlowKey) (plane seq : ℕ)
    (p : Probe) (peer : String) (extra : List ℕ)
    → Explodes exploded
    → (tenant ≡ "green") ⊎ (tenant ≡ "yellow")
    → known_tenant tenant f.tenants ≡ true
    → p.src_id < f.num_leaves
    → f.num_leaves ≤ 256
    → p.src_id ≤ 15
    → tenant_id f tenant ≡ ok p.tenant_id
    → inner_addr f tenant p.src_id ≡ ok flow_key.src_addr
    → IsTable t
    → plane < t.num_planes
    → seq ≤ u32_max
    → (t₁ t₂ : LossWindowTable AgentFlowKey) × (sent : List Datagram) × (bs : List ℕ)
      × (report : LossReport) × (rec : PlaneLossRecord) × (on_packet f exploded tenant my_id t
            flow_key plane seq
          ≡ ok t₁)
      × (emit_one_round route (learn_sender r p peer) t₁ ≡ ok (t₂, sent))
      × Memᴰ
          (record {
            payload = bs;
            dest = record { underlay_addr = peer; report_port = p.reply_port };
          })
          sent
      × (decode_loss_report (bs ++ extra) ≡ ok report)
      × Memᴰ rec report.planes
      × (rec.plane_id ≡ plane)
unfolding sender_of learn_sender
on_packet-emit_one_round f exploded tenant my_id r t flow_key plane seq p peer extra law two known
      inside small low tid src s in_range u32 =
    let key = flow_of_sender my_id p in
    let (t₁, counted) = record_packet_total t key plane seq s in_range u32 in
    let table = record_packet-IsTable t key plane seq s counted in
    let (rec, there, at) = record_packet-reported t key plane seq counted in
    let (t₂, sent, bs, e, dest, back) =
      emit_one_round-delivers route (learn_sender r p peer) t₁ _ key _
        (record { underlay_addr = peer; report_port = p.reply_port }) extra table
        (record_packet-known t key plane seq counted) (snapshot_and_reset_total t₁ key table)
        (length-Memᴰ _ there) (lookup-insert_self _ _ r.senders) in
    (
      t₁,
      t₂,
      sent,
      bs,
      _,
      rec,
      on_packet-sender f exploded tenant my_id t flow_key plane seq p law two known inside small low
            tid src
          ∙ counted,
      e,
      dest,
      back,
      there,
      at,
    )
