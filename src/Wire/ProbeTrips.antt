-- ===== src/Wire/ProbeTrips.antt =====
-- What the codecs of PROBE and PROBE_REPLY guarantee (srv6_fabric/mrc/probe.py).
use srv6_ai_fabric.Prelude.{
  List, [], arith, length, length-append, le→leb, ok, subst, take, take-append, ℕ, ◌++◌, ◌∷◌, ◌≡◌,
  ◌≤◌, inl, inr, probe_decode_error, raise, value_error, ◌∙◌, ◌⊎◌, Bool, Bool-cases, leb, ◌&&◌,
  ◌==◌, All, All-take, leb→le, length-take_of_le, ◌<◌,
}
use srv6_ai_fabric.Wire.Words.{
  calcsize, length-pack, pack, unpack-pack, Fits, pack_total, unpack-Fits, unpack_total,
}
use srv6_ai_fabric.Wire.Probes.{
  Probe, ProbeReply, check_fields, decode_probe, decode_probe_packet, encode_probe,
  encode_probe_reply, magic_probe, magic_probe_reply, make_probe, probe_fmt, probe_version,
  decode_probe_reply, make_probe_reply, probe_size,
}

-- The fields have their widths.
pub record IsWireReply (p : ProbeReply) : Type 0 where
  pub req_id_u16 : p.req_id ≤ 0xffff
  pub plane_id_u8 : p.plane_id ≤ 0xff
  pub tx_ns_u64 : p.tx_ns ≤ 0xffff_ffff_ffff_ffff
  pub svc_time_ns_u64 : p.svc_time_ns ≤ 0xffff_ffff_ffff_ffff
  pub tenant_id_u16 : p.tenant_id ≤ 0xffff
  pub src_id_u16 : p.src_id ≤ 0xffff
  pub reply_port_u16 : p.reply_port ≤ 0xffff

pub record IsWireProbe (p : Probe) : Type 0 where
  pub req_id_u16 : p.req_id ≤ 0xffff
  pub plane_id_u8 : p.plane_id ≤ 0xff
  pub tx_ns_u64 : p.tx_ns ≤ 0xffff_ffff_ffff_ffff
  pub tenant_id_u16 : p.tenant_id ≤ 0xffff
  pub src_id_u16 : p.src_id ≤ 0xffff
  pub reply_port_u16 : p.reply_port ≤ 0xffff

-- A packed packet, with anything behind it, is decoded by the tests on its fields.
decode_probe_packet-pack :
    (vs bs extra : List ℕ) (magic : ℕ)
    → pack probe_fmt vs ≡ ok bs
    → decode_probe_packet (bs ++ extra) magic ≡ check_fields magic vs
unfolding decode_probe_packet calcsize
decode_probe_packet-pack vs bs extra magic h =
    let len = length-pack probe_fmt vs bs h in
    let cut : take 28 (bs ++ extra) ≡ bs =
      subst (λ n. take n (bs ++ extra) ≡ bs) len (take-append bs extra) in
    rw (
      le→leb 28 (length (bs ++ extra)) (omega (arith, length-append bs extra)),
      cut,
      unpack-pack probe_fmt vs bs h,
    )

encode_probe-pack :
    (p : Probe) (bs : List ℕ)
    → encode_probe p ≡ ok bs
    → IsWireProbe p
      × (pack probe_fmt (
            magic_probe ∷ probe_version ∷ p.req_id ∷ p.plane_id ∷ 0 ∷ p.tx_ns ∷ 0 ∷ p.tenant_id
            ∷ p.src_id ∷ p.reply_port ∷ [])
          ≡ ok bs)
unfolding encode_probe
encode_probe-pack p bs h = ground arith

encode_probe_reply-pack :
    (p : ProbeReply) (bs : List ℕ)
    → encode_probe_reply p ≡ ok bs
    → IsWireReply p
      × (pack probe_fmt (
            magic_probe_reply ∷ probe_version ∷ p.req_id ∷ p.plane_id ∷ 0 ∷ p.tx_ns ∷ p.svc_time_ns
            ∷ p.tenant_id ∷ p.src_id ∷ p.reply_port ∷ [])
          ≡ ok bs)
unfolding encode_probe_reply
encode_probe_reply-pack p bs h = ground arith

-- An encoded PROBE, with any bytes behind it, decodes to the probe.
pub decode_probe-encode_probe :
    (p : Probe) (bs extra : List ℕ) → encode_probe p ≡ ok bs → decode_probe (bs ++ extra) ≡ ok p
unfolding decode_probe check_fields make_probe
decode_probe-encode_probe p bs extra h =
    let (wire, e) = encode_probe-pack p bs h in
    rw (decode_probe_packet-pack _ bs extra magic_probe e) (ground arith)

-- An encoded PROBE_REPLY, with any bytes behind it, decodes to the reply.
pub decode_probe_reply-encode_probe_reply :
    (p : ProbeReply) (bs extra : List ℕ)
    → encode_probe_reply p ≡ ok bs
    → decode_probe_reply (bs ++ extra) ≡ ok p
unfolding decode_probe_reply check_fields make_probe_reply
decode_probe_reply-encode_probe_reply p bs extra h =
    let (wire, e) = encode_probe_reply-pack p bs h in
    rw (decode_probe_packet-pack _ bs extra magic_probe_reply e) (ground arith)

-- The two kinds are told apart: an encoded PROBE is refused as a PROBE_REPLY, and the other way
-- round, each with ProbeDecodeError.
pub decode_wrong_magic :
    (p : Probe) (r : ProbeReply) (bs cs extra : List ℕ)
    → encode_probe p ≡ ok bs
    → encode_probe_reply r ≡ ok cs
    → (decode_probe_reply (bs ++ extra) ≡ raise probe_decode_error)
      × (decode_probe (cs ++ extra) ≡ raise probe_decode_error)
unfolding decode_probe decode_probe_reply check_fields
decode_wrong_magic p r bs cs extra h k =
    let (wire, e) = encode_probe-pack p bs h in
    let (wire', e') = encode_probe_reply-pack r cs k in
    (
      rw (decode_probe_packet-pack _ bs extra magic_probe_reply e),
      rw (decode_probe_packet-pack _ cs extra magic_probe e'),
    )

abbrev probe_fields : Probe → List ℕ
probe_fields p =
    magic_probe ∷ probe_version ∷ p.req_id ∷ p.plane_id ∷ 0 ∷ p.tx_ns ∷ 0 ∷ p.tenant_id ∷ p.src_id
    ∷ p.reply_port ∷ []

probe_fields-Fits : (p : Probe) → IsWireProbe p → Fits probe_fmt (probe_fields p)
probe_fields-Fits p w = omega arith

abbrev probe_in_range : Probe → Bool
probe_in_range p =
    leb p.req_id 0xffff
    && (leb p.plane_id 0xff
        && (leb p.tx_ns 0xffff_ffff_ffff_ffff
            && (leb p.tenant_id 0xffff && (leb p.src_id 0xffff && leb p.reply_port 0xffff))))

encode_probe-checks :
    (p : Probe)
    → (IsWireProbe p × (encode_probe p ≡ pack probe_fmt (probe_fields p)))
      ⊎ ((¬ IsWireProbe p) × (encode_probe p ≡ raise value_error))
unfolding encode_probe
encode_probe-checks p = elim (Bool-cases (probe_in_range p)) [
  | inl inside ↦ inl (ground arith, ground arith)
  | inr outside ↦ inr (λ w. ground arith, ground arith)
]

-- Encoding a PROBE either gives 28 bytes, or refuses a field that is too wide with ValueError;
-- struct.error never comes up.
pub encode_probe_total :
    (p : Probe)
    → (IsWireProbe p × (bs : List ℕ) × (encode_probe p ≡ ok bs) × (length bs ≡ probe_size))
      ⊎ ((¬ IsWireProbe p) × (encode_probe p ≡ raise value_error))
unfolding calcsize
encode_probe_total p = elim (encode_probe-checks p) [
  | inl (wire, e) ↦
      let (bs, packed) = pack_total probe_fmt (probe_fields p) (probe_fields-Fits p wire) in
      inl (wire, bs, e ∙ packed, length-pack probe_fmt (probe_fields p) bs packed)
  | inr refused ↦ inr refused
]

-- The ten fields that are unpacked.
ten_fields :
    (vs : List ℕ) (magic : ℕ)
    → Fits probe_fmt vs
    → ((r : ProbeReply) × (check_fields magic vs ≡ ok r) × IsWireReply r)
      ⊎ (check_fields magic vs ≡ raise probe_decode_error)
unfolding check_fields
ten_fields (m ∷ v ∷ a ∷ b ∷ c ∷ d ∷ e ∷ f ∷ g ∷ h ∷ []) magic fits =
    elim (Bool-cases (m == magic)) [
      | inl right ↦ elim (Bool-cases (v == probe_version)) [
        | inl current ↦ inl (
          record {
            req_id = a;
            plane_id = b;
            tx_ns = d;
            svc_time_ns = e;
            tenant_id = f;
            src_id = g;
            reply_port = h;
          },
          rw (right, current),
          omega arith,
        )
        | inr other ↦ inr (rw (right, other))
      ]
      | inr wrong ↦ inr (rw wrong)
    ]
ten_fields _ magic fits = absurd (ground arith)

-- A decoder of received bytes gives a packet whose fields have their widths, or ProbeDecodeError.
decode_probe_packet_total :
    (payload : List ℕ) (magic : ℕ)
    → All (λ b. b < 256) payload
    → ((r : ProbeReply) × (decode_probe_packet payload magic ≡ ok r) × IsWireReply r)
      ⊎ (decode_probe_packet payload magic ≡ raise probe_decode_error)
unfolding decode_probe_packet calcsize
decode_probe_packet_total payload magic bytes =
    elim (Bool-cases (leb probe_size (length payload))) [
      | inl enough ↦
          let head = take probe_size payload in
          let sized : length head ≡ 28 =
            length-take_of_le 28 payload (leb→le 28 (length payload) enough) in
          let (vs, e) = unpack_total probe_fmt head sized in
          let fits = unpack-Fits probe_fmt vs head (All-take _ 28 payload bytes) e in
          rw (enough, e) (ten_fields vs magic fits)
      | inr short ↦ inr (rw short)
    ]

-- Decoding any received bytes as a PROBE gives a probe whose fields have their widths, or
-- ProbeDecodeError, and no other exception.
pub decode_probe_total :
    (payload : List ℕ)
    → All (λ b. b < 256) payload
    → ((p : Probe) × (decode_probe payload ≡ ok p) × IsWireProbe p)
      ⊎ (decode_probe payload ≡ raise probe_decode_error)
unfolding decode_probe make_probe
decode_probe_total payload bytes = elim (decode_probe_packet_total payload magic_probe bytes) [
  | inl (r, e, wire) ↦ inl (
    record {
      req_id = r.req_id;
      plane_id = r.plane_id;
      tx_ns = r.tx_ns;
      tenant_id = r.tenant_id;
      src_id = r.src_id;
      reply_port = r.reply_port;
    },
    rw e (ground arith),
    ground arith,
  )
  | inr e ↦ inr (rw e)
]
