-- ===== src/Reorder/Flows.antt =====
-- Each flow is counted for itself (reorder.py, `ReorderTracker`).
use srv6_ai_fabric.Prelude.{
  ℕ, List, Bool-cases, Option, [], if◌then◌else◌, inl, inr, none, refl, some, ◌∷◌, ◌≡◌, ap, subst,
  sym, ◌∙◌,
}
use srv6_ai_fabric.Prelude.Dict.{lookup, lookup-insert}
use srv6_ai_fabric.Topo.{FlowKey, FlowKey_eq}
use srv6_ai_fabric.Reorder.{FlowStats, ReorderTracker, flow_stats, observe, track, stats_or_new}
use srv6_ai_fabric.Reorder.Counts.{observe_all}

-- A packet: the key of its flow, its sequence number and its plane.
abbrev pub Packet : Type 0
Packet = FlowKey × ℕ × ℕ

unfoldable pub track_all : ReorderTracker → List Packet → ReorderTracker
track_all flows [] = flows
track_all flows ((key, seq, plane) ∷ ps) = track_all (track flows key seq (some plane)) ps

-- The packets of one flow, in order.
unfoldable pub packets_of : FlowKey → List Packet → List (ℕ × ℕ)
packets_of flow [] = []
packets_of flow ((key, seq, plane) ∷ ps) =
    if FlowKey_eq.beq key flow then (seq, plane) ∷ packets_of flow ps else packets_of flow ps

-- What a flow's own packets make of its entry.
unfoldable pub entry_after : FlowKey → Option FlowStats → List (ℕ × ℕ) → Option FlowStats
entry_after flow none [] = none
entry_after flow none (p ∷ ps) = some (observe_all (flow_stats flow) (p ∷ ps))
entry_after flow (some st) ps = some (observe_all st ps)

entry_after-nil : (flow : FlowKey) (o : Option FlowStats) → o ≡ entry_after flow o []
unfolding entry_after observe_all
entry_after-nil flow none = refl
entry_after-nil flow (some st) = refl

lookup-track :
    (flows : ReorderTracker) (flow key : FlowKey) (seq plane : ℕ)
    → lookup flow (track flows key seq (some plane)) ≡ (
        if FlowKey_eq.beq key flow
        then some (observe (stats_or_new key (lookup key flows)) seq (some plane))
        else lookup flow flows)
unfolding track
lookup-track flows flow key seq plane = lookup-insert key flow _ flows

entry_after-cons :
    (flow : FlowKey) (o : Option FlowStats) (seq plane : ℕ) (ps : List (ℕ × ℕ))
    → entry_after flow (some (observe (stats_or_new flow o) seq (some plane))) ps
      ≡ entry_after flow o ((seq, plane) ∷ ps)
unfolding entry_after observe_all
entry_after-cons flow none seq plane ps = refl
entry_after-cons flow (some st) seq plane ps = refl

track_all-entry :
    (ps : List Packet) (flows : ReorderTracker) (flow : FlowKey)
    → lookup flow (track_all flows ps) ≡ entry_after flow (lookup flow flows) (packets_of flow ps)
unfolding track_all packets_of
track_all-entry [] flows flow = entry_after-nil flow (lookup flow flows)
track_all-entry ((key, seq, plane) ∷ ps) flows flow =
    track_all-entry ps (track flows key seq (some plane)) flow
    ∙ ap (λ o. entry_after flow o (packets_of flow ps)) (lookup-track flows flow key seq plane)
    ∙ elim (Bool-cases (FlowKey_eq.beq key flow)) [
      | inl same ↦ rw same (
          subst
            (λ k.
              entry_after flow (some (observe (stats_or_new k (lookup k flows)) seq (some plane)))
                (packets_of flow ps)
              ≡ entry_after flow (lookup flow flows) ((seq, plane) ∷ packets_of flow ps))
            (sym ((FlowKey_eq.beq_iff key flow).0 same))
            (entry_after-cons flow (lookup flow flows) seq plane (packets_of flow ps)))
      | inr other ↦ rw other refl
    ]

-- The tracker keeps each flow as if it were alone: after any packets of any flows, the entry of a flow
-- is what its own packets make of a new entry, in their order, and a flow without packets has none.
pub track_all-lookup :
    (ps : List Packet) (flow : FlowKey)
    → lookup flow (track_all [] ps) ≡ entry_after flow none (packets_of flow ps)
unfolding lookup
track_all-lookup ps flow = track_all-entry ps [] flow
