-- ===== src/Receiver/Rounds/Quiet.antt =====
-- What a round of loss reports leaves behind (agent.py, `_emit_one_round`).
use srv6_ai_fabric.Prelude.{
  All, Bool-cases, Eq, ◌==◌, List, Option, [], arith, inl, inr, length, none, ok, refl, some, ℕ,
  ◌++◌, ◌∷◌, ◌≡◌, ◌≤◌, sym, ◌⊎◌, ap, ◌==◌, ◌∙◌,
}
use mathlib.Core.List.{Memᴰ}
use mathlib.Core.List.Memᴰ
use srv6_ai_fabric.Prelude.Dict.{insert, key_cases}
use srv6_ai_fabric.Wire.Reports.{LossReport, decode_loss_report}
use srv6_ai_fabric.Wire.ReportTrips.{
  IsWireRecord, decode_loss_report-encode_loss_report, encode_loss_report_total,
}
use srv6_ai_fabric.LossWindow.{LossWindowTable, flow_window, known_flows}
use srv6_ai_fabric.LossWindow.Windows.{records_of}
use srv6_ai_fabric.LossWindow.Closed.{
  IsQuiet, IsTable, closed, closed-IsTable, flow_window-insert_at, records_of-wire,
  snapshot_and_reset_total, records_of-quiet,
}
use srv6_ai_fabric.Receiver.{ReceiverAgent, SenderAddr, SenderKey}
use srv6_ai_fabric.Receiver.Rounds.{
  Datagram, datagram, emit_flows, report_flow, send_report, emit_one_round, sender_of,
}

pub record IsSendable (report : LossReport) : Type 0 where
  pub id_u16 : report.window_id ≤ 0xffff
  pub few : length report.planes ≤ 0xffff
  pub wire : All IsWireRecord report.planes

-- A report that fits is sent, and what is sent decodes to it.
pub send_report-some :
    (dest : SenderAddr) (report : LossReport) (extra : List ℕ)
    → IsSendable report
    → (bs : List ℕ) × (send_report (some dest) report
        ≡ ok (record { payload = bs; dest = dest } ∷ []))
      × (decode_loss_report (bs ++ extra) ≡ ok report)
unfolding send_report datagram
send_report-some dest report extra s =
    let (bs, e, _) =
      encode_loss_report_total report.window_id report.planes s.id_u16 s.few s.wire in
    (bs, rw e refl, decode_loss_report-encode_loss_report report.window_id report.planes bs extra e)

send_report_total :
    (dest : Option SenderAddr) (report : LossReport)
    → IsSendable report
    → (sent : List Datagram) × (send_report dest report ≡ ok sent)
unfolding send_report
send_report_total none report s = ([], refl)
send_report_total (some dest) report s =
    let (bs, e, _) = send_report-some dest report [] s in
    (record { payload = bs; dest = dest } ∷ [], e)

module _ {K : Type 0} ⦃e : Eq K⦄ where
  abbrev pub report_of : LossWindowTable K → K → LossReport
  report_of t key = record {
    window_id = (flow_window t key).next_window_id;
    planes = records_of 0 (flow_window t key).planes;
  }

  abbrev pub after : LossWindowTable K → K → LossWindowTable K
  after t key = record t { flows = insert key (closed t key) t.flows }

  pub report_of-IsSendable :
      (t : LossWindowTable K) (key : K) → IsTable t → IsSendable (report_of t key)
  report_of-IsSendable t key s =
      let w = s.windows key in
      let (wire, few) =
        records_of-wire 0 (flow_window t key).planes (omega (arith, w.sized, s.few_planes)) in
      record {
        id_u16 = omega (arith, w.id_u16);
        few = omega (arith, few, w.sized, s.few_planes);
        wire = wire;
      }

  -- Closing a window empties it and no other.
  after-IsQuiet :
      (t : LossWindowTable K) (key j : K) → ((key ≡ j) ⊎ IsQuiet t j) → IsQuiet (after t key) j
  after-IsQuiet t key j h =
      rw (flow_window-insert_at t key j (closed t key)) (elim (Bool-cases (e.beq key j)) [
        | inl here ↦ rw here refl
        | inr away ↦
            rw away
              (elim h [ inl same ↦ absurd (ground (arith, e.beq_iff key j)) | inr quiet ↦ quiet ])
      ])

module _ {K : Type 0} ⦃e : Eq K⦄ (route : K → Option SenderKey) where
  pub report_flow_total :
      (r : ReceiverAgent) (key : K) (report : LossReport)
      → IsSendable report
      → (sent : List Datagram) × (report_flow route r key report ≡ ok sent)
  unfolding report_flow
  report_flow_total r key report s = elim (Bool-cases (length report.planes == 0)) [
    | inl silent ↦ ([], rw silent refl)
    | inr heard ↦ rw heard (send_report_total (sender_of route r key) report s)
  ]

  pub record Emitted (t t' : LossWindowTable K) (ks : List K) : Type 0 where
    pub still : IsTable t'
    pub kept : (j : K) → IsQuiet t j → IsQuiet t' j
    pub quieted : (j : K) → Memᴰ j ks → IsQuiet t' j

  pub emit_flows_total :
      (r : ReceiverAgent) (t : LossWindowTable K) (ks : List K)
      → IsTable t
      → (t' : LossWindowTable K) × (sent : List Datagram) × (emit_flows route r t ks
          ≡ ok (t', sent))
        × Emitted t t' ks
  unfolding emit_flows
  emit_flows_total r t [] s =
      (t, [], refl, record { still = s; kept = λ j q. q; quieted = λ j m. absurd (Memᴰ.not-nil m) })
  emit_flows_total r t (key ∷ ks) s =
      let (sent, e₁) = report_flow_total r key (report_of t key) (report_of-IsSendable t key s) in
      let (t', rest, e₂, em) = emit_flows_total r (after t key) ks (closed-IsTable t key s) in
      (
        t',
        sent ++ rest,
        rw (snapshot_and_reset_total t key s, e₁, e₂) refl,
        record {
          still = em.still;
          kept = λ j q. em.kept j (after-IsQuiet t key j (inr q));
          quieted = λ j m. elim (Memᴰ.cases_cons m) [
            | inl same ↦ em.kept j (after-IsQuiet t key j (inl (sym same)))
            | inr later ↦ em.quieted j later
          ];
        },
      )

  known_or_IsQuiet : (t : LossWindowTable K) (key : K) → Memᴰ key (known_flows t) ⊎ IsQuiet t key
  unfolding flow_window
  known_or_IsQuiet t key = elim (key_cases key t.flows) [
    | inl known ↦ inl known
    | inr new ↦ inr (rw (flow_window, new) refl)
  ]

  emit_flows-quiet :
      (r : ReceiverAgent) (t : LossWindowTable K) (ks : List K)
      → IsTable t
      → ((j : K) → IsQuiet t j)
      → (t' : LossWindowTable K) × (emit_flows route r t ks ≡ ok (t', []))
  unfolding emit_flows report_flow
  emit_flows-quiet r t [] s q = (t, refl)
  emit_flows-quiet r t (key ∷ ks) s q =
      let (t', e₁) =
        emit_flows-quiet r (after t key) ks (closed-IsTable t key s)
          (λ j. after-IsQuiet t key j (inr (q j))) in
      let none_counted : records_of 0 (flow_window t key).planes ≡ [] =
        ap (records_of 0) (q key) ∙ records_of-quiet t.num_planes 0 in
      (t', rw (snapshot_and_reset_total t key s, none_counted, e₁) refl)

  -- A round raises nothing and empties the window of every flow, also of one whose sender it does not
  -- know: a second round, whatever the receiver has learned in between, sends nothing.
  pub emit_one_round-again :
      (r r' : ReceiverAgent) (t : LossWindowTable K)
      → IsTable t
      → (t' : LossWindowTable K) × (sent : List Datagram) × (t'' : LossWindowTable K)
        × (emit_one_round route r t ≡ ok (t', sent))
        × (emit_one_round route r' t' ≡ ok (t'', []))
  unfolding emit_one_round
  emit_one_round-again r r' t s =
      let (t', sent, e₁, em) = emit_flows_total r t (known_flows t) s in
      let (t'', e₂) = emit_flows-quiet r' t' (known_flows t') em.still (λ j.
        elim (known_or_IsQuiet t j) [
          | inl known ↦ em.quieted j known
          | inr quiet ↦ em.kept j quiet
        ]) in
      (t', sent, t'', e₁, e₂)
