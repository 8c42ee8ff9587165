-- ===== src/Runner.antt =====
-- srv6_fabric/runner.py: the data packets, the send loop and the receiver's handler. Sockets, sleeping
-- and the dissection of a packet by scapy are arguments.
pub mod Sends
pub mod Receives
use srv6_ai_fabric.Prelude.{
  ◌>>◌, ℕ_eq, String_eq, ℕ, List, Bool, Option, Result, String, [], get_elem?, guard, if◌then◌else◌,
  key_error, length, ltb, map, none, not, ok, raise, replicate, require, runtime_error, some, suc,
  take, value_error, zero, ◌++◌, ◌+◌, ◌==◌, ◌>>=◌, ◌∷◌, false, true,
}
use srv6_ai_fabric.Prelude.Dict.{Dict}
use srv6_ai_fabric.Wire.Words.{pack, unpack}
use srv6_ai_fabric.Topo.{FlowKey, spine_for}
use srv6_ai_fabric.Topo.Addresses.{Fabric, inner_addr, host_underlay_addr, usid_outer_dst}
use srv6_ai_fabric.Reorder.{ReorderTracker, track, bump, count_at}

abbrev pub spray_port : ℕ
spray_port = 9999

abbrev pub payload_hdr : List ℕ
payload_hdr = 8 ∷ 1 ∷ []

abbrev pub pad : List ℕ
pad = replicate 32 b'X'

unfoldable pub encode_payload : ℕ → ℕ → Result (List ℕ)
encode_payload seq plane = do header ← pack payload_hdr (seq ∷ plane ∷ []); ok (header ++ pad)

abbrev pub pair_of : List ℕ → Result (Option (ℕ × ℕ))
pair_of (seq ∷ plane ∷ []) = ok (some (seq, plane))
pair_of _ = raise value_error

unfoldable pub parse_payload : List ℕ → Result (Option (ℕ × ℕ))
parse_payload raw =
    if ltb (length raw) 9 then ok none else unpack payload_hdr (take 9 raw) >>= pair_of

pub record FlowEndpoint : Type 0 where
  pub tenant : String
  pub src_id : ℕ
  pub dst_id : ℕ
  pub src_port : ℕ
  pub dst_port : ℕ

unfoldable pub to_flow_key : Fabric → FlowEndpoint → Result FlowKey
to_flow_key f flow = do
  src ← inner_addr f flow.tenant flow.src_id
  dst ← inner_addr f flow.tenant flow.dst_id
  ok (record { src_addr = src; dst_addr = dst; src_port = flow.src_port; dst_port = flow.dst_port })

-- What `_build_packet_bytes` puts together: an IPv6 packet in an IPv6 packet, with a UDP datagram.
pub record SentFrame : Type 0 where
  pub outer_src : String
  pub outer_dst : String
  pub inner_src : String
  pub inner_dst : String
  pub outer_nh : ℕ
  pub udp_sport : ℕ
  pub udp_dport : ℕ
  pub udp_payload : List ℕ

abbrev pub frame_of : String × String → String → String → List ℕ → SentFrame
frame_of meta src_inner dst_inner payload = record {
  outer_src = meta.0;
  outer_dst = meta.1;
  inner_src = src_inner;
  inner_dst = dst_inner;
  outer_nh = 41;
  udp_sport = spray_port;
  udp_dport = spray_port;
  udp_payload = payload;
}

unfoldable pub build_packet : String × String → String → String → ℕ → ℕ → Result SentFrame
build_packet meta src_inner dst_inner seq plane = do
  payload ← encode_payload seq plane
  ok (frame_of meta src_inner dst_inner payload)

-- The state of the send loop; `wire` has the frames that `sendto` took.
pub record SendLoop : Type 0 where
  pub seq : ℕ
  pub sent : ℕ
  pub errors : ℕ
  pub per_plane_sent : Dict ℕ ℕ
  pub wire : List SentFrame

abbrev pub send_start : SendLoop
send_start = record { seq = 0; sent = 0; errors = 0; per_plane_sent = []; wire = [] }

-- What a run of the loop is given: the policy on the flow's key, and the addresses.
pub record SendSetup : Type 0 where
  pub num_planes : ℕ
  pub choose : ℕ → Result ℕ
  pub plane_meta : List (String × String)
  pub src_inner : String
  pub dst_inner : String

-- The counters after `sendto`; the flag says whether it took the frame.
unfoldable pub after_send : SendLoop → ℕ → SentFrame → Bool → SendLoop
after_send s plane frame true = record s {
  seq = s.seq + 1;
  sent = s.sent + 1;
  per_plane_sent = bump plane s.per_plane_sent;
  wire = s.wire ++ (frame ∷ []);
}
after_send s plane frame false = record s { seq = s.seq + 1; errors = s.errors + 1 }

-- A turn of the `while`.
unfoldable pub send_one : SendSetup → SendLoop → Bool → Result SendLoop
send_one setup s taken = do
  plane ← setup.choose s.seq
  guard (ltb plane setup.num_planes) runtime_error
  meta ← require (get_elem? setup.plane_meta plane) key_error
  frame ← build_packet meta setup.src_inner setup.dst_inner s.seq plane
  ok (after_send s plane frame taken)

unfoldable pub send_all : SendSetup → SendLoop → List Bool → Result SendLoop
send_all setup s [] = ok s
send_all setup s (taken ∷ rest) = do next ← send_one setup s taken; send_all setup next rest

-- The addresses of the planes from `plane` on, `count` of them.
unfoldable pub plane_metas : Fabric → FlowEndpoint → ℕ → ℕ → ℕ → Result (List (String × String))
plane_metas f flow spine plane zero = ok []
plane_metas f flow spine plane (suc count) = do
  src ← host_underlay_addr f flow.tenant plane flow.src_id
  outer ← usid_outer_dst f flow.tenant plane spine flow.dst_id
  rest ← plane_metas f flow spine (suc plane) count
  ok ((src, outer) ∷ rest)

pub record SenderResult : Type 0 where
  pub flow : FlowEndpoint
  pub spine : ℕ
  pub loop : SendLoop

-- `run_sender` with the turns that the clock and the stop event allow.
unfoldable pub run_sender :
    Fabric → FlowEndpoint → (ℕ → FlowKey → Result ℕ) → List Bool → Result SenderResult
run_sender f flow policy turns = do
  guard (not (flow.src_id == flow.dst_id)) value_error
  src ← inner_addr f flow.tenant flow.src_id
  dst ← inner_addr f flow.tenant flow.dst_id
  key ← to_flow_key f flow
  metas ←
      plane_metas f flow (spine_for f.num_leaves f.num_spines flow.src_id flow.dst_id) 0
        f.num_planes
  final ←
      send_all
        (record {
          num_planes = f.num_planes;
          choose = λ seq. policy seq key;
          plane_meta = metas;
          src_inner = src;
          dst_inner = dst;
        })
        send_start turns
  ok (record {
    flow = flow;
    spine = spine_for f.num_leaves f.num_spines flow.src_id flow.dst_id;
    loop = final;
  })

-- A packet as scapy dissects it: the outer header, the header in its payload if that is IPv6, the first
-- UDP layer below each.
pub record UdpLayer : Type 0 where
  pub sport : ℕ
  pub dport : ℕ
  pub payload : List ℕ

pub record Ipv6Layer : Type 0 where
  pub src : String
  pub dst : String

pub record Sniffed : Type 0 where
  pub sniffed_on : Option String
  pub outer : Option Ipv6Layer
  pub nh : ℕ
  pub inner : Option Ipv6Layer
  pub inner_udp : Option UdpLayer
  pub udp : Option UdpLayer

-- The peeled header and its UDP layer, if `handle` goes on.
unfoldable pub both : Option Ipv6Layer → Option UdpLayer → Option (Ipv6Layer × UdpLayer)
both none u = none
both (some h) none = none
both (some h) (some u) = some (h, u)

unfoldable pub peel : Sniffed → Option (Ipv6Layer × UdpLayer)
peel pkt = elim pkt.outer [
  | none ↦ none
  | some outer ↦ if pkt.nh == 41 then both pkt.inner pkt.inner_udp else both (some outer) pkt.udp
]

pub record DataReceiver : Type 0 where
  pub tracker : ReorderTracker
  pub per_nic : Dict String ℕ
  pub per_plane : Dict ℕ ℕ

abbrev pub new_receiver : DataReceiver
new_receiver = record { tracker = []; per_nic = []; per_plane = [] }

abbrev pub nic_of : Option String → String
nic_of none = "?"
nic_of (some nic) = nic

unfoldable pub count_data_packet : DataReceiver → String → FlowKey → ℕ → ℕ → DataReceiver
count_data_packet r nic flow seq plane = record r {
  tracker = track r.tracker flow seq (some plane);
  per_nic = bump nic r.per_nic;
  per_plane = bump plane r.per_plane;
}

abbrev pub flow_of : Ipv6Layer → UdpLayer → FlowKey
flow_of header u = record {
  src_addr = header.src;
  dst_addr = header.dst;
  src_port = u.sport;
  dst_port = u.dport;
}

-- `handle` behind `parse_payload`: the counters, and the call of `on_packet` if there is one.
unfoldable pub on_parsed :
    DataReceiver → String → FlowKey → Option (ℕ × ℕ) → DataReceiver × Option (FlowKey × ℕ × ℕ)
on_parsed r nic flow none = (r, none)
on_parsed r nic flow (some (seq, plane)) =
    (count_data_packet r nic flow seq plane, some (flow, plane, seq))

unfoldable pub handle_udp :
    DataReceiver → String → Ipv6Layer → UdpLayer → Result (DataReceiver × Option (FlowKey × ℕ × ℕ))
handle_udp r nic header u =
    if u.dport == spray_port
    then parse_payload u.payload >>= (λ parsed. ok (on_parsed r nic (flow_of header u) parsed))
    else ok (r, none)

unfoldable pub handle : DataReceiver → Sniffed → Result (DataReceiver × Option (FlowKey × ℕ × ℕ))
handle r pkt = elim (peel pkt) [
  | none ↦ ok (r, none)
  | some (header, u) ↦ handle_udp r (nic_of pkt.sniffed_on) header u
]

-- `handle` on packets in order; the calls of `on_packet` are left out.
unfoldable pub handle_all : DataReceiver → List Sniffed → Result DataReceiver
handle_all r [] = ok r
handle_all r (pkt ∷ pkts) = do (next, _) ← handle r pkt; handle_all next pkts

-- The counters of the report.
unfoldable pub plane_counts : DataReceiver → ℕ → ℕ → Dict ℕ ℕ
plane_counts r plane zero = []
plane_counts r plane (suc count) =
    (plane, count_at plane r.per_plane) ∷ plane_counts r (suc plane) count

abbrev pub nic_counts : DataReceiver → List String → Dict String ℕ
nic_counts r nics = map (λ nic. (nic, count_at nic r.per_nic)) nics
