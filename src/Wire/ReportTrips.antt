-- ===== src/Wire/ReportTrips.antt =====
-- What the codec of LOSS_REPORT guarantees (srv6_fabric/mrc/probe.py).
use srv6_ai_fabric.Prelude.{
  >>=-eq-ok, List, [], arith, drop, drop-append, length, length-append, ok, ok-injective, refl,
  subst, suc, take, take-append, ℕ, ◌*◌, ◌++◌, ◌∷◌, ◌≡◌, ◌≤◌, All, guard, guard-ok, leb, le→leb,
  value_error, ◌+◌, All-drop, All-take, Bool-cases, ap, inl, inr, leb→le, length-drop,
  length-take_of_le, probe_decode_error, raise, zero, ◌<◌, ◌==◌, ◌⊎◌,
}
use srv6_ai_fabric.Wire.Reports.{
  PlaneLossRecord, decode_records, encode_records, loss_rec_fmt, loss_rec_size, make_record,
  record_of_fields, decode_body, decode_loss_report, encode_loss_report, loss_hdr_fmt,
  loss_report_version, magic_loss_report, make_report, LossReport, loss_hdr_size,
}
use srv6_ai_fabric.Wire.Words.{
  calcsize, length-pack, pack, unpack-pack, pack_total, Fits, unpack-Fits, unpack_total,
}
use mathlib.Core.List.{append_assoc}
use srv6_ai_fabric.Wire.Probes.{check_u16}

pub record IsWireRecord (r : PlaneLossRecord) : Type 0 where
  pub plane_id_u8 : r.plane_id ≤ 0xff
  pub seen_u32 : r.seen ≤ 0xffff_ffff
  pub expected_u32 : r.expected ≤ 0xffff_ffff
  pub max_gap_u32 : r.max_gap ≤ 0xffff_ffff

abbrev record_fields : PlaneLossRecord → List ℕ
record_fields r = r.plane_id ∷ 0 ∷ 0 ∷ r.seen ∷ r.expected ∷ r.max_gap ∷ []

pack-IsWireRecord :
    (r : PlaneLossRecord) (bs : List ℕ)
    → pack loss_rec_fmt (record_fields r) ≡ ok bs
    → IsWireRecord r
unfolding pack
pack-IsWireRecord r bs h = ground arith

length-encode_records :
    (rs : List PlaneLossRecord) (bs : List ℕ)
    → encode_records rs ≡ ok bs
    → length bs ≡ length rs * loss_rec_size
unfolding encode_records calcsize
length-encode_records [] bs h = ground arith
length-encode_records (r ∷ rs) bs h =
    let (head, e, rest) = >>=-eq-ok (pack loss_rec_fmt (record_fields r)) _ h in
    let (more, e', q) = >>=-eq-ok (encode_records rs) _ rest in
    subst (λ bs. length bs ≡ length (r ∷ rs) * loss_rec_size) (ok-injective _ _ q)
      (omega (
        arith,
        length-append head more,
        length-pack loss_rec_fmt _ head e,
        length-encode_records rs more e',
      ))

decode_records-encode_records :
    (rs : List PlaneLossRecord) (bs extra : List ℕ)
    → encode_records rs ≡ ok bs
    → decode_records (length rs) (bs ++ extra) ≡ ok rs
unfolding decode_records encode_records record_of_fields make_record calcsize
decode_records-encode_records [] bs extra h = refl
decode_records-encode_records (r ∷ rs) bs extra h =
    let (head, e, rest) = >>=-eq-ok (pack loss_rec_fmt (record_fields r)) _ h in
    let (more, e', q) = >>=-eq-ok (encode_records rs) _ rest in
    let len = length-pack loss_rec_fmt _ head e in
    let front : take 16 (head ++ (more ++ extra)) ≡ head =
      subst (λ n. take n (head ++ (more ++ extra)) ≡ head) len (take-append head (more ++ extra)) in
    let back : drop 16 (head ++ (more ++ extra)) ≡ more ++ extra =
      subst (λ n. drop n (head ++ (more ++ extra)) ≡ more ++ extra) len
        (drop-append head (more ++ extra)) in
    let wire = pack-IsWireRecord r head e in
    subst (λ bs. decode_records (suc (length rs)) (bs ++ extra) ≡ ok (r ∷ rs)) (ok-injective _ _ q)
      (rw
        (
          append_assoc,
          front,
          unpack-pack loss_rec_fmt _ head e,
          back,
          decode_records-encode_records rs more extra e',
        )
        (ground arith))

encode_records_total :
    (rs : List PlaneLossRecord) → All IsWireRecord rs → (bs : List ℕ) × (encode_records rs ≡ ok bs)
unfolding encode_records
encode_records_total [] h = ([], refl)
encode_records_total (r ∷ rs) (wire, h) =
    let (head, e) = pack_total loss_rec_fmt (record_fields r) (omega arith) in
    let (rest, e') = encode_records_total rs h in (head ++ rest, rw (e, e'))

-- An encoded LOSS_REPORT, with any bytes behind it, decodes to its window id and its records, in
-- order and whatever their number.
pub decode_loss_report-encode_loss_report :
    (window_id : ℕ) (planes : List PlaneLossRecord) (bs extra : List ℕ)
    → encode_loss_report window_id planes ≡ ok bs
    → decode_loss_report (bs ++ extra) ≡ ok (record { window_id = window_id; planes = planes })
unfolding decode_loss_report encode_loss_report decode_body make_report calcsize
decode_loss_report-encode_loss_report window_id planes bs extra h =
    let (_, u16, rest₁) = >>=-eq-ok (check_u16 window_id) _ h in
    let (_, few, rest₂) = >>=-eq-ok (guard (leb (length planes) 0xffff) value_error) _ rest₁ in
    let (head, e, rest₃) =
      >>=-eq-ok
        (pack loss_hdr_fmt
          (magic_loss_report ∷ loss_report_version ∷ window_id ∷ length planes ∷ 0 ∷ []))
        _ rest₂ in
    let (records, e', q) = >>=-eq-ok (encode_records planes) _ rest₃ in
    let len = length-pack loss_hdr_fmt _ head e in
    let tail = records ++ extra in
    let front : take 8 (head ++ tail) ≡ head =
      subst (λ n. take n (head ++ tail) ≡ head) len (take-append head tail) in
    let back : drop 8 (head ++ tail) ≡ tail =
      subst (λ n. drop n (head ++ tail) ≡ tail) len (drop-append head tail) in
    let sized : 8 + length planes * 16 ≤ length (head ++ tail) = omega (
      arith,
      length-append head tail,
      length-append records extra,
      length-encode_records planes records e',
    ) in
    subst
      (λ bs.
        decode_loss_report (bs ++ extra) ≡ ok (record { window_id = window_id; planes = planes }))
      (ok-injective _ _ q)
      (rw
        (
          append_assoc,
          le→leb 8 (length (head ++ tail)) (omega arith),
          front,
          unpack-pack loss_hdr_fmt _ head e,
          back,
          le→leb _ (length (head ++ tail)) sized,
          decode_records-encode_records planes records extra e',
          guard-ok _ _ u16,
        )
        refl)

-- Encoding succeeds for a 16-bit window id and at most 65535 records whose fields have their
-- widths, and gives 8 bytes and 16 for each record.
pub encode_loss_report_total :
    (window_id : ℕ) (planes : List PlaneLossRecord)
    → window_id ≤ 0xffff
    → length planes ≤ 0xffff
    → All IsWireRecord planes
    → (bs : List ℕ) × (encode_loss_report window_id planes ≡ ok bs)
      × (length bs ≡ 8 + 16 * length planes)
unfolding encode_loss_report calcsize
encode_loss_report_total window_id planes u16 few wire =
    let (head, e) =
      pack_total loss_hdr_fmt
        (magic_loss_report ∷ loss_report_version ∷ window_id ∷ length planes ∷ 0 ∷ [])
        (omega arith) in
    let (records, e') = encode_records_total planes wire in
    (
      head ++ records,
      rw (le→leb window_id 0xffff u16, le→leb (length planes) 0xffff few, e, e'),
      omega (
        arith,
        length-append head records,
        length-pack loss_hdr_fmt _ head e,
        length-encode_records planes records e',
      ),
    )

record_of_fields_total :
    (vs : List ℕ)
    → Fits loss_rec_fmt vs
    → (r : PlaneLossRecord) × (record_of_fields vs ≡ ok r) × IsWireRecord r
unfolding record_of_fields make_record
record_of_fields_total (a ∷ b ∷ c ∷ d ∷ e ∷ f ∷ []) fits =
    (record { plane_id = a; seen = d; expected = e; max_gap = f }, ground arith, omega arith)
record_of_fields_total _ fits = absurd (ground arith)

decode_records_total :
    (n : ℕ) (payload : List ℕ)
    → All (λ b. b < 256) payload
    → n * loss_rec_size ≤ length payload
    → (rs : List PlaneLossRecord) × (decode_records n payload ≡ ok rs)
      × All IsWireRecord rs
      × (length rs ≡ n)
unfolding decode_records calcsize
decode_records_total zero payload bytes h = ([], refl, tt, refl)
decode_records_total (suc n) payload bytes h =
    let (vs, e) =
      unpack_total loss_rec_fmt (take 16 payload) (length-take_of_le 16 payload (omega arith)) in
    let fits = unpack-Fits loss_rec_fmt vs (take 16 payload) (All-take _ 16 payload bytes) e in
    let (r, e', wire) = record_of_fields_total vs fits in
    let (rs, e'', wires, n_records) =
      decode_records_total n (drop 16 payload) (All-drop _ 16 payload bytes)
        (omega (arith, length-drop 16 payload)) in
    (r ∷ rs, rw (e, e', e''), (wire, wires), ap suc n_records)

decode_body_total :
    (payload vs : List ℕ)
    → All (λ b. b < 256) payload
    → Fits loss_hdr_fmt vs
    → ((r : LossReport) × (decode_body payload vs ≡ ok r)
        × (r.window_id ≤ 0xffff)
        × All IsWireRecord r.planes
        × (loss_hdr_size + length r.planes * loss_rec_size ≤ length payload))
      ⊎ (decode_body payload vs ≡ raise probe_decode_error)
unfolding decode_body make_report
decode_body_total payload (m ∷ v ∷ w ∷ n ∷ z ∷ []) bytes fits =
    elim (Bool-cases (m == magic_loss_report)) [
      | inl right ↦ elim (Bool-cases (v == loss_report_version)) [
        | inl current ↦
            elim (Bool-cases (leb (loss_hdr_size + n * loss_rec_size) (length payload))) [
              | inl enough ↦
                  let room = leb→le _ (length payload) enough in
                  let (rs, e, wires, n_records) =
                    decode_records_total n (drop 8 payload) (All-drop _ 8 payload bytes)
                      (omega (arith, length-drop 8 payload)) in
                  inl (
                    record { window_id = w; planes = rs },
                    rw (right, current, enough, e, le→leb w 0xffff (omega arith)) refl,
                    omega arith,
                    wires,
                    omega arith,
                  )
              | inr short ↦ inr (rw (right, current, short) refl)
            ]
        | inr other ↦ inr (rw (right, other) refl)
      ]
      | inr wrong ↦ inr (rw wrong refl)
    ]
decode_body_total payload _ bytes fits = absurd (ground arith)

-- Decoding any received bytes as a LOSS_REPORT gives a report whose fields have their widths and
-- whose records all lie inside the received bytes, or ProbeDecodeError, and no other exception.
pub decode_loss_report_total :
    (payload : List ℕ)
    → All (λ b. b < 256) payload
    → ((r : LossReport) × (decode_loss_report payload ≡ ok r)
        × (r.window_id ≤ 0xffff)
        × All IsWireRecord r.planes
        × (loss_hdr_size + length r.planes * loss_rec_size ≤ length payload))
      ⊎ (decode_loss_report payload ≡ raise probe_decode_error)
unfolding decode_loss_report calcsize
decode_loss_report_total payload bytes = elim (Bool-cases (leb loss_hdr_size (length payload))) [
  | inl enough ↦
      let sized = length-take_of_le 8 payload (leb→le 8 (length payload) enough) in
      let (vs, e) = unpack_total loss_hdr_fmt (take 8 payload) sized in
      let fits = unpack-Fits loss_hdr_fmt vs (take 8 payload) (All-take _ 8 payload bytes) e in
      rw (enough, e) (decode_body_total payload vs bytes fits)
  | inr short ↦ inr (rw short refl)
]
