-- ===== src/Receiver/Rounds/Delivery.antt =====
-- What a round of loss reports sends (agent.py, `_emit_one_round`).
use srv6_ai_fabric.Prelude.{
  Bool-cases, Eq, false, ◌==◌, List, Option, [], arith, inl, inr, length, ok, refl, some, ℕ, ◌++◌,
  ◌∷◌, ◌≡◌, sym, ap, ◌<◌, ◌==◌, ◌∙◌, ok-injective, subst,
}
use mathlib.Core.List.{Memᴰ}
use mathlib.Core.List.Memᴰ
use srv6_ai_fabric.Wire.Reports.{LossReport, decode_loss_report}
use srv6_ai_fabric.LossWindow.{LossWindowTable, flow_window, known_flows, snapshot_and_reset}
use srv6_ai_fabric.LossWindow.Closed.{
  IsTable, closed, closed-IsTable, flow_window-insert_at, snapshot_and_reset_total,
}
use srv6_ai_fabric.Receiver.{ReceiverAgent, SenderAddr, SenderKey}
use srv6_ai_fabric.Receiver.Rounds.{Datagram, emit_flows, report_flow, emit_one_round, sender_of}
use srv6_ai_fabric.Receiver.Rounds.Quiet.{
  after, emit_flows_total, report_flow_total, report_of, report_of-IsSendable, send_report-some,
}

module _ {K : Type 0} ⦃e : Eq K⦄ (route : K → Option SenderKey) where
  -- A datagram of the run over the keys `ks` carries the report of the flow to its sender.
  abbrev Delivers :
      ReceiverAgent → LossWindowTable K → List K → SenderAddr → List ℕ → LossReport → Type 0
  Delivers r t ks dest extra report =
      (t' : LossWindowTable K) × (sent : List Datagram) × (bs : List ℕ) × (emit_flows route r t ks
        ≡ ok (t', sent))
      × Memᴰ (record { payload = bs; dest = dest }) sent
      × (decode_loss_report (bs ++ extra) ≡ ok report)

  report_flow-Delivers :
      (r : ReceiverAgent) (t : LossWindowTable K) (ks : List K) (key : K) (dest : SenderAddr)
      (extra : List ℕ)
      → IsTable t
      → sender_of route r key ≡ some dest
      → 0 < length (report_of t key).planes
      → Delivers r t (key ∷ ks) dest extra (report_of t key)
  unfolding emit_flows report_flow
  report_flow-Delivers r t ks key dest extra s known heard =
      let (bs, e₁, back) =
        send_report-some dest (report_of t key) extra (report_of-IsSendable t key s) in
      let (t', rest, e₂, _) = emit_flows_total route r (after t key) ks (closed-IsTable t key s) in
      let some_planes : length (report_of t key).planes == 0 ≡ false = ground arith in
      (
        t',
        record { payload = bs; dest = dest } ∷ rest,
        bs,
        rw (snapshot_and_reset_total t key s, some_planes, known, e₁, e₂) refl,
        Memᴰ.head refl,
        back,
      )

  emit_flows-Delivers :
      (r : ReceiverAgent) (t : LossWindowTable K) (ks : List K) (key : K) (dest : SenderAddr)
      (extra : List ℕ)
      → IsTable t
      → Memᴰ key ks
      → sender_of route r key ≡ some dest
      → 0 < length (report_of t key).planes
      → Delivers r t ks dest extra (report_of t key)
  unfolding emit_flows
  emit_flows-Delivers r t [] key dest extra s m known heard = absurd (Memᴰ.not-nil m)
  emit_flows-Delivers r t (k ∷ ks) key dest extra s m known heard =
      let (now, e₁) = report_flow_total route r k (report_of t k) (report_of-IsSendable t k s) in
      elim (Bool-cases (e.beq k key)) [
        | inl here ↦
            subst (λ k. Delivers r t (k ∷ ks) dest extra (report_of t key))
              (sym ((e.beq_iff k key).0 here))
              (report_flow-Delivers r t ks key dest extra s known heard)
        | inr away ↦
            let later : Memᴰ key ks = elim (Memᴰ.cases_cons m) [
              | inl same ↦ absurd (ground (arith, e.beq_iff k key))
              | inr later ↦ later
            ] in
            let same : flow_window (after t k) key ≡ flow_window t key =
              rw (flow_window-insert_at t k key (closed t k), away) refl in
            let (t', rest, bs, e₂, there, back) =
              emit_flows-Delivers r (after t k) ks key dest extra (closed-IsTable t k s) later known
                (rw same heard) in
            (
              t',
              now ++ rest,
              bs,
              rw (snapshot_and_reset_total t k s, e₁, e₂) refl,
              Memᴰ.append_right now there,
              rw back (rw same refl),
            )
      ]

  -- When closing the window of a flow that the receiver knows gives a report with records, and the
  -- receiver knows its sender, the round raises nothing and one of its datagrams goes to that sender
  -- and decodes, whatever follows it, to that report.
  pub emit_one_round-delivers :
      (r : ReceiverAgent) (t t₁ : LossWindowTable K) (key : K) (report : LossReport)
      (dest : SenderAddr) (extra : List ℕ)
      → IsTable t
      → Memᴰ key (known_flows t)
      → snapshot_and_reset t key ≡ ok (t₁, report)
      → 0 < length report.planes
      → sender_of route r key ≡ some dest
      → (t' : LossWindowTable K) × (sent : List Datagram) × (bs : List ℕ) × (emit_one_round route r
            t
          ≡ ok (t', sent))
        × Memᴰ (record { payload = bs; dest = dest }) sent
        × (decode_loss_report (bs ++ extra) ≡ ok report)
  unfolding emit_one_round
  emit_one_round-delivers r t t₁ key report dest extra s m h heard known =
      let same : report_of t key ≡ report =
        ap (λ p. p.1) (ok-injective _ _ (sym (snapshot_and_reset_total t key s) ∙ h)) in
      subst (λ report. Delivers r t (known_flows t) dest extra report) same
        (emit_flows-Delivers r t (known_flows t) key dest extra s m known
          (subst (λ report. 0 < length report.planes) (sym same) heard))
