-- ===== src/Runner/Receives.antt =====
-- What the handler of the receiver counts (runner.py, `run_receiver`).
use srv6_ai_fabric.Prelude.{
  ℕ, ℕ_eq, String_eq, Bool, Option, String, [], arith, false, none, ok, refl, some, true, ◌+◌, ◌<◌,
  ◌^◌, ◌∷◌, ◌≡◌, inl, inr, Bool-cases, List, length, ltb, Option-cases, length-take_of_le, take,
  ◌==◌,
}
use srv6_ai_fabric.Prelude.Dict.{insert, lookup}
use srv6_ai_fabric.Wire.Words.{unpack_total, length-unpack, calcsize}
use srv6_ai_fabric.Reorder.Counts.{total-bump}
use srv6_ai_fabric.Topo.{FlowKey, FlowKey_eq}
use srv6_ai_fabric.Reorder.{
  FlowStats, observe, observe_new, ReorderTracker, stats_or_new, track, total,
}
use srv6_ai_fabric.Runner.Sends.{parse_payload-encode_payload}
use srv6_ai_fabric.Runner.{
  DataReceiver, SentFrame, Sniffed, both, build_packet, count_data_packet, handle, handle_udp,
  on_parsed, peel, spray_port, frame_of, parse_payload, Ipv6Layer, UdpLayer, flow_of, handle_all,
  new_receiver, nic_of, pair_of, payload_hdr,
}

-- A frame as the receiver's network card shows it, with its carrier or, where the leaf has taken the
-- carrier off, without; scapy fills in the inner next header, 17 for UDP.
abbrev pub arrived : Bool → String → SentFrame → Sniffed
arrived true nic frame = record {
  sniffed_on = some nic;
  outer = some (record { src = frame.outer_src; dst = frame.outer_dst });
  nh = frame.outer_nh;
  inner = some (record { src = frame.inner_src; dst = frame.inner_dst });
  inner_udp =
      some
        (record { sport = frame.udp_sport; dport = frame.udp_dport; payload = frame.udp_payload });
  udp =
      some
        (record { sport = frame.udp_sport; dport = frame.udp_dport; payload = frame.udp_payload });
}
arrived false nic frame = record {
  sniffed_on = some nic;
  outer = some (record { src = frame.inner_src; dst = frame.inner_dst });
  nh = 17;
  inner = none;
  inner_udp = none;
  udp =
      some
        (record { sport = frame.udp_sport; dport = frame.udp_dport; payload = frame.udp_payload });
}

-- A frame that the sender builds is counted by the receiver with its own sequence number and plane, under
-- the inner addresses, on the card it came by; with its carrier or without makes no difference.
pub handle-build_packet :
    (r : DataReceiver) (carried : Bool) (nic src_inner dst_inner : String) (meta : String × String)
    (seq plane : ℕ)
    → seq < 2 ^ 64
    → plane < 256
    → let key : FlowKey = record {
      src_addr = src_inner;
      dst_addr = dst_inner;
      src_port = spray_port;
      dst_port = spray_port;
    } in
      (frame : SentFrame) × (build_packet meta src_inner dst_inner seq plane ≡ ok frame)
      × (handle r (arrived carried nic frame)
          ≡ ok (count_data_packet r nic key seq plane, some (key, plane, seq)))
unfolding handle handle_udp build_packet on_parsed peel both
handle-build_packet r true nic src dst meta seq plane h k =
    let (raw, encoded, parsed) = parse_payload-encode_payload seq plane h k in
    (frame_of meta src dst raw, rw encoded refl, rw parsed refl)
handle-build_packet r false nic src dst meta seq plane h k =
    let (raw, encoded, parsed) = parse_payload-encode_payload seq plane h k in
    (frame_of meta src dst raw, rw encoded refl, rw parsed refl)

-- The packets that the flows of a tracker have seen.
unfoldable pub packets_seen : ReorderTracker → ℕ
packets_seen [] = 0
packets_seen ((key, st) ∷ flows) = st.received + st.duplicates + packets_seen flows

abbrev seen_by : Option FlowStats → ℕ
seen_by none = 0
seen_by (some st) = st.received + st.duplicates

packets_seen-insert :
    (key : FlowKey) (st : FlowStats) (flows : ReorderTracker)
    → packets_seen (insert key st flows) + seen_by (lookup key flows)
      ≡ packets_seen flows + (st.received + st.duplicates)
unfolding packets_seen insert lookup
packets_seen-insert key st [] = omega arith
packets_seen-insert key st ((k, v) ∷ flows) = ground (arith, packets_seen-insert key st flows)

observe-counts :
    (s : FlowStats) (seq plane : ℕ)
    → (observe s seq (some plane)).received + (observe s seq (some plane)).duplicates
      ≡ s.received + s.duplicates + 1
unfolding observe observe_new
observe-counts s seq plane = ground arith

stats_or_new-counts :
    (key : FlowKey) (o : Option FlowStats)
    → (stats_or_new key o).received + (stats_or_new key o).duplicates ≡ seen_by o
stats_or_new-counts key none = refl
stats_or_new-counts key (some st) = refl

packets_seen-track :
    (flows : ReorderTracker) (key : FlowKey) (seq plane : ℕ)
    → packets_seen (track flows key seq (some plane)) ≡ packets_seen flows + 1
unfolding track
packets_seen-track flows key seq plane =
    let st = stats_or_new key (lookup key flows) in
    omega (
      arith,
      packets_seen-insert key (observe st seq (some plane)) flows,
      observe-counts st seq plane,
      stats_or_new-counts key (lookup key flows),
    )

-- The three counts of the receiver agree.
abbrev pub IsConsistent : DataReceiver → Type 0
IsConsistent r =
    (total r.per_nic ≡ packets_seen r.tracker) × (total r.per_plane ≡ packets_seen r.tracker)

on_parsed-IsConsistent :
    (r : DataReceiver) (nic : String) (flow : FlowKey) (parsed : Option (ℕ × ℕ))
    → IsConsistent r
    → IsConsistent ((on_parsed r nic flow parsed).0)
unfolding on_parsed count_data_packet
on_parsed-IsConsistent r nic flow none h = h
on_parsed-IsConsistent r nic flow (some (seq, plane)) h = (
  omega (arith, h.0, total-bump nic r.per_nic, packets_seen-track r.tracker flow seq plane),
  omega (arith, h.1, total-bump plane r.per_plane, packets_seen-track r.tracker flow seq plane),
)

pair_of_total : (vs : List ℕ) → length vs ≡ 2 → (parsed : Option (ℕ × ℕ)) × (pair_of vs ≡ ok parsed)
pair_of_total [] h = absurd (omega arith)
pair_of_total (a ∷ []) h = absurd (omega arith)
pair_of_total (a ∷ b ∷ []) h = (some (a, b), refl)
pair_of_total (a ∷ b ∷ c ∷ vs) h = absurd (omega arith)

-- No datagram makes the handler raise.
parse_payload_total : (raw : List ℕ) → (parsed : Option (ℕ × ℕ)) × (parse_payload raw ≡ ok parsed)
unfolding parse_payload calcsize
parse_payload_total raw = elim (Bool-cases (ltb (length raw) 9)) [
  | inl short ↦ (none, rw short refl)
  | inr long ↦
      let nine : length (take 9 raw) ≡ 9 = length-take_of_le 9 raw (ground arith) in
      let (vs, e) = unpack_total payload_hdr (take 9 raw) nine in
      let (parsed, e') = pair_of_total vs (length-unpack payload_hdr vs (take 9 raw) e) in
      (parsed, rw (long, e) e')
]

handle_udp-IsConsistent :
    (r : DataReceiver) (nic : String) (header : Ipv6Layer) (u : UdpLayer)
    → IsConsistent r
    → (after : DataReceiver × Option (FlowKey × ℕ × ℕ)) × (handle_udp r nic header u ≡ ok after)
      × IsConsistent (after.0)
unfolding handle_udp
handle_udp-IsConsistent r nic header u h = elim (Bool-cases (u.dport == spray_port)) [
  | inl ours ↦
      let (parsed, e) = parse_payload_total u.payload in
      (
        on_parsed r nic (flow_of header u) parsed,
        rw (ours, e) refl,
        on_parsed-IsConsistent r nic (flow_of header u) parsed h,
      )
  | inr other ↦ ((r, none), rw other refl, h)
]

handle-IsConsistent :
    (r : DataReceiver) (pkt : Sniffed)
    → IsConsistent r
    → (after : DataReceiver × Option (FlowKey × ℕ × ℕ)) × (handle r pkt ≡ ok after)
      × IsConsistent (after.0)
unfolding handle
handle-IsConsistent r pkt h = elim (Option-cases (peel pkt)) [
  | inl dropped ↦ ((r, none), rw (handle, dropped) refl, h)
  | inr (layers, e) ↦
      let (after, e', h') =
        handle_udp-IsConsistent r (nic_of pkt.sniffed_on) (layers.0) (layers.1) h in
      (after, rw (handle, e) e', h')
]

handle_all-from :
    (pkts : List Sniffed) (r : DataReceiver)
    → IsConsistent r
    → (after : DataReceiver) × (handle_all r pkts ≡ ok after) × IsConsistent after
unfolding handle_all
handle_all-from [] r h = (r, refl, h)
handle_all-from (pkt ∷ pkts) r h =
    let (next, e, h') = handle-IsConsistent r pkt h in
    let (after, e', h'') = handle_all-from pkts (next.0) h' in (after, rw e e', h'')

-- Whatever packets are sniffed, the handler never raises, and its counts agree: the counts of the cards,
-- those of the planes and the packets of all the flows, received or duplicate, have the same sum.
pub handle_all-IsConsistent :
    (pkts : List Sniffed)
    → (after : DataReceiver) × (handle_all new_receiver pkts ≡ ok after) × IsConsistent after
unfolding total packets_seen
handle_all-IsConsistent pkts = handle_all-from pkts new_receiver (refl, refl)
