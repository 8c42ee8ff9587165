-- ===== src/EvState/Count.antt =====
-- Counting the planes of a tenant that are not demoted (ev_state.py, `_try_demote_locked`).
use srv6_ai_fabric.Prelude.{
  ℕ, suc, zero, ◌+◌, ◌≤◌, ◌<◌, ◌≡◌, refl, not, some, List, [], ◌∷◌, arith, if◌then◌else◌, get_elem?,
  set, replicate,
}
use srv6_ai_fabric.EvState.{EvState, assumed_bad, same_state, PlaneRecord, usable_after}

abbrev pub live : EvState → ℕ
live st = if not (same_state st assumed_bad) then 1 else 0

pub live-le : (st : EvState) → live st ≤ 1
live-le st = ground arith

module _ {F : Type 0} where
  unfoldable pub usable : List (PlaneRecord F) → ℕ
  usable [] = 0
  usable (r ∷ rs) = live r.state + usable rs

  usable_after_past :
      (plane i : ℕ) (rs : List (PlaneRecord F)) → plane < i → usable_after plane i rs ≡ usable rs
  unfolding usable_after usable
  usable_after_past plane i [] h = refl
  usable_after_past plane i (r ∷ rs) h =
      ground (arith, usable_after_past plane (suc i) rs (omega arith))

  usable_after_from :
      (plane i k : ℕ) (rs : List (PlaneRecord F)) {r : PlaneRecord F}
      → plane ≡ i + k
      → get_elem? rs k ≡ some r
      → usable_after plane i rs + live r.state ≡ usable rs
  unfolding usable_after usable
  usable_after_from plane i k [] p h = cc
  usable_after_from plane i zero (r ∷ rs) p h =
      ground (arith, usable_after_past plane (suc i) rs (omega arith))
  usable_after_from plane i (suc k) (r ∷ rs) {r = q} p h =
      ground (arith, usable_after_from plane (suc i) k rs {r = q} (omega arith) h)

  -- All usable planes but this one.
  pub usable_after_lem :
      (plane : ℕ) (rs : List (PlaneRecord F)) {r : PlaneRecord F}
      → get_elem? rs plane ≡ some r
      → usable_after plane 0 rs + live r.state ≡ usable rs
  usable_after_lem plane rs h = usable_after_from plane 0 plane rs (omega arith) h

  pub usable-set :
      (rs : List (PlaneRecord F)) (k : ℕ) (v : PlaneRecord F) {r : PlaneRecord F}
      → get_elem? rs k ≡ some r
      → usable (set rs k v) + live r.state ≡ usable rs + live v.state
  unfolding usable
  usable-set [] k v h = cc
  usable-set (q ∷ rs) zero v h = ground arith
  usable-set (q ∷ rs) (suc k) v {r = r} h = ground (arith, usable-set rs k v {r = r} h)

  pub usable-replicate : (n : ℕ) (r : PlaneRecord F) → live r.state ≡ 1 → usable (replicate n r) ≡ n
  unfolding usable
  usable-replicate zero r h = refl
  usable-replicate (suc n) r h = omega (arith, usable-replicate n r h)
