-- ===== src/Policy/Specs.antt =====
-- Policies from a scenario's `policy:` value, and what they pick (policy.py, `policy_from_spec`).
use srv6_ai_fabric.Prelude.{
  ==_iff, guard, [], ◌∙◌, ◌≡◌, ◌<◌, ◌⊎◌, ◌%◌, List, String_eq, arith, inl, inr, ok, raise, refl,
  length, runtime_error, ℕ, Bool-cases, subst, sym, ok-injective, >>=-eq-ok, ◌==◌, guard-ok, not,
  value_error,
}
use native.Mathlib.Nat.{mod-lt}
use srv6_ai_fabric.Prelude.Floats.{Floats}
use srv6_ai_fabric.EvState.{EvStateTable}
use srv6_ai_fabric.Topo.{FlowKey, hash5}
use srv6_ai_fabric.Policy.{
  any_negative, sum, weighted_pick, SprayPolicy, round_robin, hash5tuple, weighted, health_aware,
  health_aware_mrc_factory, Spec, named, weighted_spec, health_aware_spec, other, policy_from_spec,
  pick, make_weighted, avoid_down,
}
use srv6_ai_fabric.Policy.Draws.{weighted_pick-lt, length-build_cdf}
use srv6_ai_fabric.Policy.Walks.{avoid_down_lem}

module _ (fl : Floats) where
  open fl use {Float, float_zero, le}

  -- The spec asks, at some depth, for the policy that needs a table.
  abbrev pub IsDeferred : Spec fl → Type 0
  IsDeferred (named name) = name ≡ "health_aware_mrc"
  IsDeferred (weighted_spec weights) = ⊥
  IsDeferred (health_aware_spec inner) = IsDeferred inner
  IsDeferred other = ⊥

  make_weighted-length :
      (n : ℕ) (weights cdf : List Float) → make_weighted fl n weights ≡ ok cdf → length cdf ≡ n
  unfolding make_weighted
  make_weighted-length n weights cdf h =
      let (_, sized, rest) = >>=-eq-ok (guard (length weights == n) value_error) _ h in
      let (_, _, rest') = >>=-eq-ok (guard (not (any_negative fl weights)) value_error) _ rest in
      let (_, _, last) =
        >>=-eq-ok (guard (not (le (sum fl weights) float_zero)) value_error) _ rest' in
      let size : length weights ≡ n = (==_iff _ _).0 (guard-ok _ _ sized) in
      subst (λ c. length c ≡ n) (ok-injective _ _ last) (length-build_cdf fl weights ∙ size)

  -- A policy that is read from a scenario picks a plane of the fabric for every packet, or it is
  -- built on the factory of `health_aware_mrc`, whose pick raises RuntimeError.
  pub policy_from_spec-pick :
      (n : ℕ) (spec : Spec fl) (p : SprayPolicy fl) (key_bytes : FlowKey → List ℕ)
      (table : EvStateTable Float) (seq : ℕ) (flow : FlowKey)
      → 0 < n
      → policy_from_spec fl n spec ≡ ok p
      → (IsDeferred spec × (pick fl n key_bytes table p seq flow ≡ raise runtime_error))
        ⊎ ((q : ℕ) × (pick fl n key_bytes table p seq flow ≡ ok q) × (q < n))
  unfolding policy_from_spec pick
  policy_from_spec-pick n (named name) p kb table seq flow one h =
      elim (Bool-cases (String_eq.beq name "round_robin")) [
        | inl rr ↦
            let e : round_robin ≡ p = ground arith in inr (seq % n, rw (sym e) refl, mod-lt seq one)
        | inr no_rr ↦ elim (Bool-cases (String_eq.beq name "hash5tuple")) [
          | inl hashed ↦
              let e : hash5tuple ≡ p = ground arith in
              inr (hash5 kb flow % n, rw (sym e) refl, mod-lt (hash5 kb flow) one)
          | inr no_hash ↦ elim (Bool-cases (String_eq.beq name "health_aware_mrc")) [
            | inl deferred ↦
                let e : health_aware_mrc_factory ≡ p = ground arith in
                inl ((String_eq.beq_iff name "health_aware_mrc").0 deferred, rw (sym e) refl)
            | inr unknown_name ↦ absurd (ground arith)
          ]
        ]
      ]
  policy_from_spec-pick n (weighted_spec weights) p kb table seq flow one h =
      let (cdf, made, done) = >>=-eq-ok (make_weighted fl n weights) _ h in
      let e : weighted cdf ≡ p = ok-injective _ _ done in
      let size = make_weighted-length n weights cdf made in
      inr (
        weighted_pick fl seq (hash5 kb flow) cdf,
        rw (sym e) refl,
        omega (arith, size, weighted_pick-lt fl seq (hash5 kb flow) cdf (omega arith)),
      )
  policy_from_spec-pick n (health_aware_spec inner) p kb table seq flow one h =
      let (policy, made, done) = >>=-eq-ok (policy_from_spec fl n inner) _ h in
      let e : health_aware policy [] ≡ p = ok-injective _ _ done in
      elim (policy_from_spec-pick n inner policy kb table seq flow one made) [
        | inl (deferred, raised) ↦ inl (deferred, rw (sym e, raised) refl)
        | inr (q, picked, inside) ↦
            inr (avoid_down n [] q, rw (sym e, picked) refl, (avoid_down_lem n [] q inside).0)
      ]
  policy_from_spec-pick n other p kb table seq flow one h = cc
