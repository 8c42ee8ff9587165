-- ===== src/Reorder/Percentiles.antt =====
-- The percentile of the distances (reorder.py, `FlowStats.reorder_percentile`).
use srv6_ai_fabric.Prelude.{
  ℕ_eq, ℕ, [], ap, arith, if◌then◌else◌, refl, ◌+◌, ◌∙◌, ◌∷◌, ◌≡◌, ◌⊎◌, Bool, Bool-cases, false,
  inl, inr, true, ◌<◌, length, ok, sym, ◌&&◌, subst, List, some, ◌≤◌,
}
use srv6_ai_fabric.Prelude.Dict.{Dict, Distinct, Distinct-insert}
use srv6_ai_fabric.Topo.{FlowKey}
use srv6_ai_fabric.Policy.{mem}
use srv6_ai_fabric.Reorder.Counts.{observe_all, observe_all-IsCounted}
use srv6_ai_fabric.Reorder.{
  reorder_max, sorted_items, first_reaching, greatest_key, percentile_of, total, FlowStats, above,
  bump, distance, flow_stats, observe, observe_new, reorder_percentile,
}
use srv6_ai_fabric.Prelude.Floats.{Floats}
use srv6_ai_fabric.Reorder.Bins.{
  IsAscending, at_most, at_most-sorted_items, at_most_head, at_most_tail, is_bin, is_bin-cases,
  is_bin-sorted_items, is_bin_head, is_bin_nil, is_bin_tail, sorted_items-IsAscending,
}

observe-Distinct :
    (s : FlowStats) (seq plane : ℕ)
    → Distinct s.reorder_hist
    → Distinct (observe s seq (some plane)).reorder_hist
unfolding observe observe_new bump
observe-Distinct s seq plane h = elim (Bool-cases (mem seq s.window)) [
  | inl seen ↦ rw seen h
  | inr new ↦ elim (Bool-cases (above seq s.last_seq_seen)) [
    | inl higher ↦ rw (new, higher) (Distinct-insert 0 _ s.reorder_hist h)
    | inr late ↦ rw (new, late) (Distinct-insert (distance s.last_seq_seen seq) _ s.reorder_hist h)
  ]
]

observe_all-Distinct :
    (ps : List (ℕ × ℕ)) (s : FlowStats)
    → Distinct s.reorder_hist
    → Distinct (observe_all s ps).reorder_hist
unfolding observe_all
observe_all-Distinct [] s h = h
observe_all-Distinct (p ∷ ps) s h = observe_all-Distinct ps _ (observe-Distinct s (p.0) (p.1) h)

received-observe-le :
    (s : FlowStats) (seq plane : ℕ) → s.received ≤ (observe s seq (some plane)).received
unfolding observe observe_new
received-observe-le s seq plane = elim (Bool-cases (mem seq s.window)) [
  | inl seen ↦ rw seen (omega arith)
  | inr new ↦ elim (Bool-cases (above seq s.last_seq_seen)) [
    | inl higher ↦ rw (new, higher) (omega arith)
    | inr late ↦ rw (new, late) (omega arith)
  ]
]

received-observe_all-le :
    (ps : List (ℕ × ℕ)) (s : FlowStats) → s.received ≤ (observe_all s ps).received
unfolding observe_all
received-observe_all-le [] s = omega arith
received-observe_all-le (p ∷ ps) s = omega (
  arith,
  received-observe-le s (p.0) (p.1),
  received-observe_all-le ps (observe s (p.0) (some (p.1))),
)

not_empty : (hist : Dict ℕ ℕ) → 0 < total hist → 0 < length hist
unfolding total
not_empty [] h = omega arith
not_empty (e ∷ hist) h = omega arith

received_first :
    (flow : FlowKey) (p : ℕ × ℕ) (ps : List (ℕ × ℕ))
    → 0 < (observe_all (flow_stats flow) (p ∷ ps)).received
unfolding observe_all observe observe_new mem
received_first flow p ps =
    omega (arith, received-observe_all-le ps (observe (flow_stats flow) (p.0) (some (p.1))))

module _ (fl : Floats) where
  -- Are the packets up to bin `d`, `cum` of them before the bins, enough?
  abbrev pub enough : fl.Float → ℕ → ℕ → Dict ℕ ℕ → Bool
  enough target d cum bins = fl.le target (fl.of_ℕ (cum + at_most d bins))

  -- The least bin with enough packets up to it, or the last resort if no bin has.
  abbrev pub IsFirst : fl.Float → ℕ → ℕ → ℕ → Dict ℕ ℕ → Type 0
  IsFirst target top r cum bins =
      ((is_bin r bins ≡ true)
        × (enough target r cum bins ≡ true)
        × ((d : ℕ) → is_bin d bins ≡ true → d < r → enough target d cum bins ≡ false))
      ⊎ ((r ≡ top) × ((d : ℕ) → is_bin d bins ≡ true → enough target d cum bins ≡ false))

  enough_head :
      (target : fl.Float) (cum k n : ℕ) (bins : Dict ℕ ℕ)
      → IsAscending ((k, n) ∷ bins)
      → enough target k cum ((k, n) ∷ bins) ≡ fl.le target (fl.of_ℕ (cum + n))
  enough_head target cum k n bins h =
      ap (λ m. fl.le target (fl.of_ℕ (cum + m))) (at_most_head k n bins h)

  enough_tail :
      (target : fl.Float) (d cum k n : ℕ) (bins : Dict ℕ ℕ)
      → k < d
      → enough target d cum ((k, n) ∷ bins) ≡ enough target d (cum + n) bins
  enough_tail target d cum k n bins h =
      ap (λ m. fl.le target (fl.of_ℕ m)) (omega (arith, at_most_tail d k n bins h))

  -- A bin that is not enough leaves the answer to the bins above it.
  IsFirst-tail :
      (target : fl.Float) (top r cum k n : ℕ) (bins : Dict ℕ ℕ)
      → IsAscending ((k, n) ∷ bins)
      → fl.le target (fl.of_ℕ (cum + n)) ≡ false
      → IsFirst target top r (cum + n) bins
      → IsFirst target top r cum ((k, n) ∷ bins)
  IsFirst-tail target top r cum k n bins h short (inl (bin, reached, least)) = inl (
    is_bin_tail r k n bins bin,
    enough_tail target r cum k n bins (h.0 r bin) ∙ reached,
    λ d b less. elim (is_bin-cases d k n bins b) [
      | inl e ↦ rw e (enough_head target cum k n bins h ∙ short)
      | inr b' ↦ enough_tail target d cum k n bins (h.0 d b') ∙ least d b' less
    ],
  )
  IsFirst-tail target top r cum k n bins h short (inr (last, none_enough)) = inr (
    last,
    λ d b. elim (is_bin-cases d k n bins b) [
      | inl e ↦ rw e (enough_head target cum k n bins h ∙ short)
      | inr b' ↦ enough_tail target d cum k n bins (h.0 d b') ∙ none_enough d b'
    ],
  )

  first_reaching_step :
      (target : fl.Float) (top cum k n : ℕ) (bins : Dict ℕ ℕ)
      → first_reaching fl target top cum ((k, n) ∷ bins) ≡ (
          if fl.le target (fl.of_ℕ (cum + n))
          then k
          else first_reaching fl target top (cum + n) bins)
  unfolding first_reaching
  first_reaching_step target top cum k n bins = refl

  first_reaching_nil : (target : fl.Float) (top cum : ℕ) → first_reaching fl target top cum [] ≡ top
  unfolding first_reaching
  first_reaching_nil target top cum = refl

  first_reaching-IsFirst :
      (bins : Dict ℕ ℕ) (target : fl.Float) (top cum : ℕ)
      → IsAscending bins
      → IsFirst target top (first_reaching fl target top cum bins) cum bins
  first_reaching-IsFirst [] target top cum h =
      inr (first_reaching_nil target top cum, λ d b. absurd (is_bin_nil d b))
  first_reaching-IsFirst ((k, n) ∷ bins) target top cum h =
      subst (λ r. IsFirst target top r cum ((k, n) ∷ bins))
        (sym (first_reaching_step target top cum k n bins))
        (elim (Bool-cases (fl.le target (fl.of_ℕ (cum + n)))) [
          | inl reached ↦ rw reached (
              inl (
                is_bin_head k n bins,
                enough_head target cum k n bins h ∙ reached,
                λ d b less. absurd (elim (is_bin-cases d k n bins b) [
                  | inl e ↦ omega arith
                  | inr b' ↦ let above_head = h.0 d b' in omega arith
                ]),
              ))
          | inr short ↦ rw short (
              IsFirst-tail target top _ cum k n bins h short
                (first_reaching-IsFirst bins target top (cum + n) h.1))
        ])

  -- Sorting keeps what the answer is about.
  IsFirst-sorted_items :
      (target : fl.Float) (top r : ℕ) (hist : Dict ℕ ℕ)
      → IsFirst target top r 0 (sorted_items hist)
      → IsFirst target top r 0 hist
  IsFirst-sorted_items target top r hist (inl (bin, reached, least)) = inl (
    sym (is_bin-sorted_items r hist) ∙ bin,
    sym (same_count r) ∙ reached,
    λ d b less. sym (same_count d) ∙ least d (is_bin-sorted_items d hist ∙ b) less,
  )
    where
      same_count : (d : ℕ) → enough target d 0 (sorted_items hist) ≡ enough target d 0 hist
      same_count d = ap (λ m. fl.le target (fl.of_ℕ (0 + m))) (at_most-sorted_items d hist)
  IsFirst-sorted_items target top r hist (inr (last, none_enough)) = inr (
    last,
    λ d b.
        sym (ap (λ m. fl.le target (fl.of_ℕ (0 + m))) (at_most-sorted_items d hist))
        ∙ none_enough d (is_bin-sorted_items d hist ∙ b),
  )

  -- `total * pct / 100.0`
  abbrev pub target_of : ℕ → fl.Float → fl.Float
  target_of packets pct = fl.div (fl.mul (fl.of_ℕ packets) pct) (fl.of_ℕ 100)

  percentile_of_lem :
      (hist : Dict ℕ ℕ) (pct : fl.Float)
      → Distinct hist
      → 0 < length hist
      → (fl.lt fl.float_zero pct && fl.le pct (fl.of_ℕ 100)) ≡ true
      → (r : ℕ) × (percentile_of fl hist pct ≡ ok r)
        × IsFirst (target_of (total hist) pct) (greatest_key hist) r 0 hist
  unfolding percentile_of
  percentile_of_lem [] pct h one valid = absurd (omega arith)
  percentile_of_lem (e ∷ d) pct h one valid = (
    _,
    rw valid refl,
    IsFirst-sorted_items _ _ _ (e ∷ d)
        (first_reaching-IsFirst (sorted_items (e ∷ d)) _ _ 0 (sorted_items-IsAscending (e ∷ d) h)),
  )

  -- Once a packet of a flow came, a percentile in (0, 100] is the least distance of the histogram such
  -- that the packets up to it reach the target share, and the greatest distance if none does.
  pub reorder_percentile-IsFirst :
      (flow : FlowKey) (p : ℕ × ℕ) (ps : List (ℕ × ℕ)) (pct : fl.Float)
      → (fl.lt fl.float_zero pct && fl.le pct (fl.of_ℕ 100)) ≡ true
      → let s = observe_all (flow_stats flow) (p ∷ ps) in
        (r : ℕ) × (reorder_percentile fl s pct ≡ ok r)
        × IsFirst (target_of s.received pct) (reorder_max s) r 0 s.reorder_hist
  reorder_percentile-IsFirst flow p ps pct valid =
      let s = observe_all (flow_stats flow) (p ∷ ps) in
      let counted = observe_all-IsCounted flow (p ∷ ps) in
      subst
        (λ n.
          (r : ℕ) × (reorder_percentile fl s pct ≡ ok r)
          × IsFirst (target_of n pct) (reorder_max s) r 0 s.reorder_hist)
        counted.1
        (percentile_of_lem s.reorder_hist pct (observe_all-Distinct (p ∷ ps) (flow_stats flow) tt)
          (not_empty s.reorder_hist (omega (arith, counted.1, received_first flow p ps))) valid)
