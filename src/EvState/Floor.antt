-- ===== src/EvState/Floor.antt =====
-- The floor of usable planes (ev_state.py, `mrc_min_active_planes`).
use srv6_ai_fabric.Prelude.{
  ℕ, ◌∙◌, subst, ◌≤◌, ◌≡◌, String_eq, some, arith, ap, length, get_elem?, length-set, sym,
}
use srv6_ai_fabric.Prelude.Floats.{Floats}
use srv6_ai_fabric.EvState.{PlaneRecord, Tenant, EvStateTable}
use srv6_ai_fabric.EvState.Machine.{Step, keep, promote, demote}
use srv6_ai_fabric.EvState.Count.{live, live-le, usable, usable_after_lem, usable-set}

module _ (fl : Floats) where
  open fl use {Float}

  -- A tenant has a record for each plane, and the floor's number of usable ones.
  pub record IsFloored (num_planes min_active : ℕ) (s : Tenant Float) : Type 0 where
    pub sized : length s.planes ≡ num_planes
    pub floored : min_active ≤ usable s.planes

  pub Step-IsFloored :
      (t : EvStateTable Float) (plane : ℕ) (rec : PlaneRecord Float) (s : Tenant Float)
      {s' : Tenant Float}
      → get_elem? s.planes plane ≡ some rec
      → Step fl t plane rec s s'
      → IsFloored t.num_planes t.min_active s
      → IsFloored t.num_planes t.min_active s'
  Step-IsFloored t plane rec s h (keep v e _ w) f =
      let c = usable-set s.planes plane v {r = rec} h in
      let e' : live v.state ≡ live rec.state = ap live e in
      subst (IsFloored t.num_planes t.min_active) (sym w)
        (record { sized = length-set s.planes plane v ∙ f.sized; floored = omega arith })
  Step-IsFloored t plane rec s h (promote v _ e _ _ _ w) f =
      let c = usable-set s.planes plane v {r = rec} h in
      let e' : live v.state ≡ 1 = ap live e in
      subst (IsFloored t.num_planes t.min_active) (sym w) (record {
        sized = length-set s.planes plane v ∙ f.sized;
        floored = omega (arith, live-le rec.state);
      })
  Step-IsFloored t plane rec s h (demote v _ e _ room w) f =
      let c = usable-set s.planes plane v {r = rec} h in
      let d = usable_after_lem plane s.planes {r = rec} h in
      subst (IsFloored t.num_planes t.min_active) (sym w)
        (record { sized = length-set s.planes plane v ∙ f.sized; floored = omega arith })
