-- ===== src/EvState/Invariant.antt =====
-- What holds of a tenant between two calls: the floor, and the agreement of the weights and the
-- callback's calls with the states (ev_state.py, `EVStateTable`).
use srv6_ai_fabric.Prelude.{
  ℕ, suc, zero, ◌+◌, ◌∙◌, ◌≤◌, ◌≡◌, ◌≢◌, refl, Option, none, some, List, [], ◌∷◌, ◌++◌, arith, ap,
  subst, sym, length, get_elem?, set, map, map-set, map-set_same, All, All-append, length-append,
  length-replicate, replicate,
}
use srv6_ai_fabric.Prelude.Floats.{Floats}
use srv6_ai_fabric.EvState.{
  EvState, unknown, PlaneRecord, Transition, Tenant, EvStateTable, store, rebuild_weights,
  new_plane, new_tenant, resolve_min_active, state_weight,
}
use srv6_ai_fabric.EvState.Machine.{Step, keep, promote, demote, moved}
use srv6_ai_fabric.EvState.Count.{usable, usable-replicate}
use srv6_ai_fabric.EvState.Floor.{IsFloored, Step-IsFloored}
use mathlib.Core.List.{foldl}

abbrev pub apply_call : List EvState → Transition → List EvState
apply_call states c = set states c.plane c.new

-- The states that a listener to `on_transition` computes from its calls.
unfoldable pub replay : ℕ → List Transition → List EvState
replay num_planes calls = foldl apply_call (replicate num_planes unknown) calls

foldl-append {ℓ} :
    {A : Type ℓ} {B : Type ℓ} (f : A → B → A) (a : A) (xs : List B) (y : B)
    → foldl f a (xs ++ (y ∷ [])) ≡ f (foldl f a xs) y
foldl-append f a [] y = refl
foldl-append f a (x ∷ xs) y = foldl-append f (f a x) xs y

module _ {F : Type 0} where
  abbrev pub states : List (PlaneRecord F) → List EvState
  states = map (λ (r : PlaneRecord F). r.state)

  unfoldable pub total_transitions : List (PlaneRecord F) → ℕ
  total_transitions [] = 0
  total_transitions (r ∷ rs) = r.transitions + total_transitions rs

  total_transitions-set :
      (rs : List (PlaneRecord F)) (k : ℕ) (v : PlaneRecord F) {r : PlaneRecord F}
      → get_elem? rs k ≡ some r
      → total_transitions (set rs k v) + r.transitions ≡ total_transitions rs + v.transitions
  unfolding total_transitions
  total_transitions-set [] k v h = cc
  total_transitions-set (q ∷ rs) zero v h = ground arith
  total_transitions-set (q ∷ rs) (suc k) v {r = r} h =
      ground (arith, total_transitions-set rs k v {r = r} h)

  total_transitions-replicate :
      (n : ℕ) (r : PlaneRecord F) → r.transitions ≡ 0 → total_transitions (replicate n r) ≡ 0
  unfolding total_transitions
  total_transitions-replicate zero r h = refl
  total_transitions-replicate (suc n) r h = omega (arith, total_transitions-replicate n r h)

pub resolve_min_active-le :
    (m : Option ℕ) (n : ℕ) → 1 ≤ n → (1 ≤ resolve_min_active m n) × (resolve_min_active m n ≤ n)
unfolding resolve_min_active
resolve_min_active-le none n h = omega arith
resolve_min_active-le (some m) n h = omega arith

module _ (fl : Floats) where
  open fl use {Float}

  raw-states :
      (rs : List (PlaneRecord Float))
      → map (λ (r : PlaneRecord Float). state_weight fl r.state) rs
        ≡ map (state_weight fl) (states rs)
  raw-states [] = refl
  raw-states (r ∷ rs) = ap (◌∷◌ (state_weight fl r.state)) (raw-states rs)

  -- The weights depend on the states alone.
  pub rebuild_weights-states :
      (np : ℕ) (rs qs : List (PlaneRecord Float))
      → states rs ≡ states qs
      → rebuild_weights fl np rs ≡ rebuild_weights fl np qs
  unfolding rebuild_weights
  rebuild_weights-states np rs qs h = rw (raw-states rs, raw-states qs, h)

  pub record IsSound (num_planes min_active : ℕ) (s : Tenant Float) : Type 0 where
    pub sized : length s.planes ≡ num_planes
    pub floored : min_active ≤ usable s.planes
    pub weighed : s.weights ≡ rebuild_weights fl num_planes s.planes
    pub told : states s.planes ≡ replay num_planes s.calls
    pub real_changes : All (λ (c : Transition). c.old ≢ c.new) s.calls
    pub counted : total_transitions s.planes ≡ length s.calls

  keep-IsSound :
      (np ma plane : ℕ) (rec v : PlaneRecord Float) (s : Tenant Float)
      → get_elem? s.planes plane ≡ some rec
      → v.state ≡ rec.state
      → v.transitions ≡ rec.transitions
      → IsFloored fl np ma (store plane v s)
      → IsSound np ma s
      → IsSound np ma (store plane v s)
  keep-IsSound np ma plane rec v s h e tr f i =
      let same : states (set s.planes plane v) ≡ states s.planes =
        map-set_same (λ (r : PlaneRecord Float). r.state) s.planes plane rec v h e in
      record {
        sized = f.sized;
        floored = f.floored;
        weighed = i.weighed ∙ sym (rebuild_weights-states np _ _ same);
        told = same ∙ i.told;
        real_changes = i.real_changes;
        counted = omega (arith, total_transitions-set s.planes plane v {r = rec} h, i.counted);
      }

  moved-IsSound :
      (np ma plane : ℕ) (rec v : PlaneRecord Float) (s : Tenant Float)
      → get_elem? s.planes plane ≡ some rec
      → rec.state ≢ v.state
      → v.transitions ≡ rec.transitions + 1
      → IsFloored fl np ma (moved fl np plane rec.state v s)
      → IsSound np ma s
      → IsSound np ma (moved fl np plane rec.state v s)
  unfolding replay
  moved-IsSound np ma plane rec v s h e tr f i = record {
    sized = f.sized;
    floored = f.floored;
    weighed = refl;
    told =
        map-set (λ (r : PlaneRecord Float). r.state) s.planes plane v
        ∙ ap (λ sts. set sts plane v.state) i.told
        ∙ sym (foldl-append apply_call _ s.calls _);
    real_changes = All-append (λ (c : Transition). c.old ≢ c.new) s.calls _ i.real_changes (e, tt);
    counted = omega (
      arith,
      total_transitions-set s.planes plane v {r = rec} h,
      i.counted,
      length-append s.calls (record { plane = plane; old = rec.state; new = v.state } ∷ []),
    );
  }

  -- Every step of the state machine keeps the invariant.
  pub Step-IsSound :
      (t : EvStateTable Float) (plane : ℕ) (rec : PlaneRecord Float) (s : Tenant Float)
      {s' : Tenant Float}
      → get_elem? s.planes plane ≡ some rec
      → Step fl t plane rec s s'
      → IsSound t.num_planes t.min_active s
      → IsSound t.num_planes t.min_active s'
  Step-IsSound t plane rec s h (keep v e tr w) i =
      let f =
        Step-IsFloored fl t plane rec s h (keep v e tr refl)
          (record { sized = i.sized; floored = i.floored }) in
      subst (IsSound t.num_planes t.min_active) (sym w) (keep-IsSound _ _ plane rec v s h e tr f i)
  Step-IsSound t plane rec s h (promote v n e tr up quiet w) i =
      let f =
        Step-IsFloored fl t plane rec s h (promote v n e tr up quiet refl)
          (record { sized = i.sized; floored = i.floored }) in
      subst (IsSound t.num_planes t.min_active) (sym w)
        (moved-IsSound _ _ plane rec v s h (λ p. n (p ∙ e)) tr f i)
  Step-IsSound t plane rec s h (demote v n e tr room w) i =
      let f =
        Step-IsFloored fl t plane rec s h (demote v n e tr room refl)
          (record { sized = i.sized; floored = i.floored }) in
      subst (IsSound t.num_planes t.min_active) (sym w)
        (moved-IsSound _ _ plane rec v s h (λ p. n (p ∙ e)) tr f i)

  states-replicate : (n : ℕ) (r : PlaneRecord Float) → states (replicate n r) ≡ replicate n r.state
  states-replicate zero r = refl
  states-replicate (suc n) r = ap (◌∷◌ r.state) (states-replicate n r)

  -- A new tenant satisfies it, for every floor up to the number of planes.
  pub new_tenant-IsSound : (np ma : ℕ) → ma ≤ np → IsSound np ma (new_tenant fl np)
  unfolding new_tenant replay
  new_tenant-IsSound np ma h = record {
    sized = length-replicate np _;
    floored = omega (arith, usable-replicate np (new_plane fl) refl);
    weighed = refl;
    told = states-replicate np (new_plane fl);
    real_changes = tt;
    counted = total_transitions-replicate np (new_plane fl) refl;
  }
