-- ===== src/Policy/Draws.antt =====
-- Drawing a plane from weights (policy.py, `_build_cdf` and `_weighted_pick`).
use srv6_ai_fabric.Prelude.{
  ◌≡◌, ◌≢◌, ◌≤◌, ◌<◌, ◌∷◌, ◌+◌, ◌-◌, List, [], arith, false, true, inl, inr, length, refl, some,
  suc, zero, ℕ, Bool-cases, get_elem?, ap, ◌∙◌, ◌^◌,
}
use mathlib.Core.Option.{some-injective}
use srv6_ai_fabric.Prelude.Floats.{Floats, FloatLaws}
use srv6_ai_fabric.Policy.{cumulate, force_last, first_above, weighted_pick, build_cdf, sum, draw}

module _ (fl : Floats) where
  open fl use {Float, float_zero, float_one, of_ℕ, add, div, lt}

  pub length-cumulate :
      (total cum : Float) (ws : List Float) → length (cumulate fl total cum ws) ≡ length ws
  unfolding cumulate
  length-cumulate total cum [] = refl
  length-cumulate total cum (w ∷ ws) = ap suc (length-cumulate total (add cum (div w total)) ws)

  length-force_last : (cs : List Float) → length (force_last fl cs) ≡ length cs
  unfolding force_last
  length-force_last [] = refl
  length-force_last (c ∷ []) = refl
  length-force_last (c ∷ (d ∷ cs)) = ap suc (length-force_last (d ∷ cs))

  pub length-build_cdf : (ws : List Float) → length (build_cdf fl ws) ≡ length ws
  unfolding build_cdf
  length-build_cdf ws =
      length-force_last (cumulate fl (sum fl ws) float_zero ws)
      ∙ length-cumulate (sum fl ws) float_zero ws

  first_above-between :
      (u : Float) (last p : ℕ) (cs : List Float)
      → p + length cs ≤ last + 1
      → p ≤ last
      → (p ≤ first_above fl u last p cs) × (first_above fl u last p cs ≤ last)
  unfolding first_above
  first_above-between u last p [] h k = (k, omega arith)
  first_above-between u last p (c ∷ []) h k = ground arith
  first_above-between u last p (c ∷ (d ∷ cs)) h k =
      let (low, high) = first_above-between u last (suc p) (d ∷ cs) (omega arith) (omega arith) in
      elim (Bool-cases (lt u c)) [
        | inl above ↦ rw above (omega arith, k)
        | inr below ↦ rw below (omega arith, high)
      ]

  -- A draw is an index of the thresholds.
  pub weighted_pick-lt :
      (seq hash : ℕ) (cdf : List Float)
      → 1 ≤ length cdf
      → weighted_pick fl seq hash cdf < length cdf
  unfolding weighted_pick
  weighted_pick-lt seq hash cdf one =
      omega (arith, (first_above-between _ (length cdf - 1) 0 cdf (omega arith) (omega arith)).1)

module _ (fl : Floats) (laws : FloatLaws fl) where
  open fl use {Float, float_zero, float_one, of_ℕ, add, div, lt}

  -- A plane with weight 0.0 adds nothing to the sums before it.
  first_above-ne :
      (u total : Float) (last off p : ℕ) (cum : Float) (ws : List Float)
      → lt float_zero total ≡ true
      → lt u cum ≡ false
      → off + length ws ≡ last + 1
      → get_elem? ws p ≡ some float_zero
      → suc p < length ws
      → first_above fl u last off (force_last fl (cumulate fl total cum ws)) ≢ off + p
  unfolding first_above force_last cumulate
  first_above-ne u total last off p cum [] some_weight low size at more = cc
  first_above-ne u total last off p cum (w ∷ []) some_weight low size at more = absurd (omega arith)
  first_above-ne u total last off zero cum (w ∷ (v ∷ ws)) some_weight low size at more =
      let none_added : add cum (div w total) ≡ cum =
        rw (some-injective w float_zero at, laws.zero-div total some_weight) (laws.add-zero cum) in
      let below : lt u (add cum (div w total)) ≡ false = rw none_added low in
      let rest = force_last fl (cumulate fl total (add cum (div w total)) (v ∷ ws)) in
      let size' =
        length-force_last fl (cumulate fl total (add cum (div w total)) (v ∷ ws))
        ∙ length-cumulate fl total (add cum (div w total)) (v ∷ ws) in
      let (after, _) = first_above-between fl u last (suc off) rest (omega arith) (omega arith) in
      rw below (λ e. absurd (omega arith))
  first_above-ne u total last off (suc p) cum (w ∷ (v ∷ ws)) some_weight low size at more =
      elim (Bool-cases (lt u (add cum (div w total)))) [
        | inl above ↦ rw above (λ e. absurd (omega arith))
        | inr below ↦
            let ih =
              first_above-ne u total last (suc off) p (add cum (div w total)) (v ∷ ws) some_weight
                below (omega arith) at (omega arith) in
            rw below (λ e. ih (omega arith))
      ]

  -- A draw from weights with a positive sum never gives a plane of weight 0.0, but for the last one,
  -- whose threshold is set to 1.0.
  pub weighted_pick-skips_zero :
      (seq hash p : ℕ) (ws : List Float)
      → lt float_zero (sum fl ws) ≡ true
      → get_elem? ws p ≡ some float_zero
      → suc p < length ws
      → weighted_pick fl seq hash (build_cdf fl ws) ≢ p
  unfolding weighted_pick build_cdf
  weighted_pick-skips_zero seq hash p ws some_weight at more =
      let size = length-build_cdf fl ws in
      λ e.
        first_above-ne (div (of_ℕ (draw seq hash)) (of_ℕ (2 ^ 64))) (sum fl ws)
          (length (build_cdf fl ws) - 1) 0 p float_zero ws some_weight
          (laws.quotient-nonneg (draw seq hash) (2 ^ 64) (omega arith)) (omega arith) at more
          (omega arith)
