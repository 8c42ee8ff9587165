-- ===== src/EvState/Progress.antt =====
-- Demotion and recovery happen: enough consecutive probe outcomes move a plane (ev_state.py,
-- `record_probe_result`).
use srv6_ai_fabric.Prelude.{
  String_eq, List, String, [], arith, get_elem?-set_self, lt-length_of_get_elem?, refl, set, some,
  suc, zero, ℕ, ◌+◌, ◌<◌, ◌∷◌, ◌≡◌, ◌≤◌, ◌⊎◌, ok, Bool-cases, inl, inr, leb, not, replicate, ◌&&◌,
  ◌==◌, length, map, subst, sym,
}
use srv6_ai_fabric.EvState.{
  EvStateTable, PlaneRecord, Tenant, probe_outcome, probe_success, probe_timeout, put_tenant,
  record_probe_result, success, timeout, transition_locked, try_demote_locked, usable_after,
  assumed_bad, EvState, good, ring_append, same_state,
}
use srv6_ai_fabric.EvState.Table.{IsFound, check_plane-IsFound, handle, probe, run, run-step}
use srv6_ai_fabric.Prelude.Dict.{lookup-insert_self}
use srv6_ai_fabric.Prelude.Int.{pos}
use srv6_ai_fabric.Prelude.Floats.{Floats}

module _ {F : Type 0} where
  usable_after-set_past :
      (plane i k : ℕ) (rs : List (PlaneRecord F)) (v : PlaneRecord F)
      → plane ≡ i + k
      → usable_after plane i (set rs k v) ≡ usable_after plane i rs
  unfolding usable_after
  usable_after-set_past plane i k [] v p = refl
  usable_after-set_past plane i zero (r ∷ rs) v p = ground arith
  usable_after-set_past plane i (suc k) (r ∷ rs) v p =
      ground (arith, usable_after-set_past plane (suc i) k rs v (omega arith))

  -- The plane's own record does not count.
  usable_after-set :
      (plane : ℕ) (rs : List (PlaneRecord F)) (v : PlaneRecord F)
      → usable_after plane 0 (set rs plane v) ≡ usable_after plane 0 rs
  usable_after-set plane rs v = usable_after-set_past plane 0 plane rs v (omega arith)

module _ (fl : Floats) where
  open fl use {Float}

  module _ (tenant : String) (plane : ℕ) where
    -- Storing the tenant is read back.
    IsFound-put :
        (t : EvStateTable Float) {s : Tenant Float} {rec : PlaneRecord Float} (s' : Tenant Float)
        (v : PlaneRecord Float)
        → IsFound fl t tenant plane s rec
        → s'.planes ≡ set s.planes plane v
        → IsFound fl (put_tenant fl t tenant s') tenant plane s' v
    IsFound-put t {s} {rec} s' v f e = record {
      known = lookup-insert_self tenant s' t.by_tenant;
      in_range = f.in_range;
      read =
          rw e (get_elem?-set_self s.planes plane v (lt-length_of_get_elem? s.planes plane f.read));
    }

    handle-timeout :
        (t : EvStateTable Float) {s : Tenant Float} {rec : PlaneRecord Float}
        → IsFound fl t tenant plane s rec
        → handle fl t (probe tenant plane timeout)
          ≡ ok (put_tenant fl t tenant (probe_timeout fl t plane rec s))
    unfolding handle record_probe_result probe_outcome
    handle-timeout t f = rw (check_plane-IsFound fl t tenant plane f)

    handle-success :
        (t : EvStateTable Float) {s : Tenant Float} {rec : PlaneRecord Float} (rtt : ℕ)
        → IsFound fl t tenant plane s rec
        → handle fl t (probe tenant plane (success (some (pos rtt))))
          ≡ ok (put_tenant fl t tenant (probe_success fl t plane rtt rec s))
    unfolding handle record_probe_result probe_outcome
    handle-success t rtt f = rw (check_plane-IsFound fl t tenant plane f)

    -- One timeout, as the plane's record sees it.
    probe_timeout-effect :
        (t : EvStateTable Float) (s : Tenant Float) (rec : PlaneRecord Float)
        → t.min_active ≤ usable_after plane 0 s.planes
        → (v : PlaneRecord Float) × ((probe_timeout fl t plane rec s).planes ≡ set s.planes plane v)
          × ((v.state ≡ assumed_bad)
              ⊎ ((v.state ≡ rec.state)
                  × (v.consecutive_probe_timeouts ≡ rec.consecutive_probe_timeouts + 1)
                  × (rec.consecutive_probe_timeouts + 1 < t.cfg.probe_fail_threshold)))
    unfolding probe_timeout try_demote_locked transition_locked
    probe_timeout-effect t s rec room =
        elim (Bool-cases (
          not (same_state rec.state assumed_bad)
          && leb t.cfg.probe_fail_threshold (rec.consecutive_probe_timeouts + 1))) [
            | inl hit ↦ (
              record rec {
                state = assumed_bad;
                transitions = rec.transitions + 1;
                consecutive_probe_timeouts = rec.consecutive_probe_timeouts + 1;
                consecutive_probe_successes = 0;
              },
              ground arith,
              inl refl,
            )
            | inr miss ↦ (
              record rec {
                consecutive_probe_timeouts = rec.consecutive_probe_timeouts + 1;
                consecutive_probe_successes = 0;
              },
              rw miss,
              ground arith,
            )
          ]

    -- One success, as the plane's record sees it.
    probe_success-effect :
        (t : EvStateTable Float) (s : Tenant Float) (rtt : ℕ) (rec : PlaneRecord Float)
        → rec.consecutive_loss_demote_windows ≡ 0
        → (v : PlaneRecord Float) × ((probe_success fl t plane rtt rec s).planes
            ≡ set s.planes plane v)
          × (v.consecutive_loss_demote_windows ≡ 0)
          × ((v.state ≡ good)
              ⊎ ((v.state ≡ rec.state)
                  × (v.consecutive_probe_successes ≡ rec.consecutive_probe_successes + 1)
                  × (rec.consecutive_probe_successes + 1 < t.cfg.probe_recover_threshold)))
    unfolding probe_success transition_locked
    probe_success-effect t s rtt rec quiet =
        elim (Bool-cases (
          not (same_state rec.state good)
          && (leb t.cfg.probe_recover_threshold (rec.consecutive_probe_successes + 1)
              && (rec.consecutive_loss_demote_windows == 0)))) [
                | inl hit ↦ (
                  record rec {
                    state = good;
                    transitions = rec.transitions + 1;
                    consecutive_probe_timeouts = 0;
                    consecutive_probe_successes = rec.consecutive_probe_successes + 1;
                    rtt_ring_ns = ring_append t.cfg.rtt_ring_size rec.rtt_ring_ns rtt;
                  },
                  ground arith,
                  quiet,
                  inl refl,
                )
                | inr miss ↦ (
                  record rec {
                    consecutive_probe_timeouts = 0;
                    consecutive_probe_successes = rec.consecutive_probe_successes + 1;
                    rtt_ring_ns = ring_append t.cfg.rtt_ring_size rec.rtt_ring_ns rtt;
                  },
                  rw miss,
                  quiet,
                  ground arith,
                )
              ]

    -- The plane is there, in this state.
    abbrev pub IsIn : EvStateTable Float → EvState → Type 0
    IsIn t st =
        (s : Tenant Float) × (rec : PlaneRecord Float) × IsFound fl t tenant plane s rec
        × (rec.state ≡ st)

    timeouts-demote :
        (k : ℕ) (t : EvStateTable Float) (s : Tenant Float) (rec : PlaneRecord Float)
        → IsFound fl t tenant plane s rec
        → t.min_active ≤ usable_after plane 0 s.planes
        → (rec.state ≡ assumed_bad)
          ⊎ (t.cfg.probe_fail_threshold ≤ rec.consecutive_probe_timeouts + k) × (1 ≤ k)
        → IsIn (run fl t (replicate k (probe tenant plane timeout))) assumed_bad
    unfolding run
    timeouts-demote zero t s rec f room (inl bad) = (s, rec, f, bad)
    timeouts-demote zero t s rec f room (inr (enough, some_left)) = absurd (omega arith)
    timeouts-demote (suc k) t s rec f room why =
        let s' = probe_timeout fl t plane rec s in
        let (v, e, outcome) = probe_timeout-effect t s rec room in
        let room' : t.min_active ≤ usable_after plane 0 s'.planes =
          rw (e, usable_after-set plane s.planes v) room in
        let why' : (v.state ≡ assumed_bad)
            ⊎ (t.cfg.probe_fail_threshold ≤ v.consecutive_probe_timeouts + k) × (1 ≤ k) =
          ground arith in
        subst (λ u. IsIn u assumed_bad)
          (sym (run-step fl t _ (replicate k (probe tenant plane timeout)) (handle-timeout t f)))
          (timeouts-demote k (put_tenant fl t tenant s') s' v (IsFound-put t s' v f e) room' why')

    successes-promote :
        (rtts : List ℕ) (t : EvStateTable Float) (s : Tenant Float) (rec : PlaneRecord Float)
        → IsFound fl t tenant plane s rec
        → rec.consecutive_loss_demote_windows ≡ 0
        → (rec.state ≡ good)
          ⊎ (t.cfg.probe_recover_threshold ≤ rec.consecutive_probe_successes + length rtts)
            × (1 ≤ length rtts)
        → IsIn (run fl t (map (λ rtt. probe tenant plane (success (some (pos rtt)))) rtts)) good
    unfolding run
    successes-promote [] t s rec f quiet (inl up) = (s, rec, f, up)
    successes-promote [] t s rec f quiet (inr (enough, some_left)) = absurd (omega arith)
    successes-promote (rtt ∷ rtts) t s rec f quiet why =
        let s' = probe_success fl t plane rtt rec s in
        let (v, e, quiet', outcome) = probe_success-effect t s rtt rec quiet in
        let why' : (v.state ≡ good)
            ⊎ (t.cfg.probe_recover_threshold ≤ v.consecutive_probe_successes + length rtts)
              × (1 ≤ length rtts) =
          ground arith in
        subst (λ u. IsIn u good)
          (sym (
            run-step fl t _ (map (λ r. probe tenant plane (success (some (pos r)))) rtts)
              (handle-success t rtt f)))
          (successes-promote rtts (put_tenant fl t tenant s') s' v (IsFound-put t s' v f e) quiet'
            why')

    -- Detection: when at least `probe_fail_threshold` consecutive probes of a plane time out, and
    -- the floor leaves room, the plane ends demoted, whatever its state was.
    pub enough_timeouts_demote :
        (k : ℕ) (t : EvStateTable Float) (s : Tenant Float) (rec : PlaneRecord Float)
        → IsFound fl t tenant plane s rec
        → t.min_active ≤ usable_after plane 0 s.planes
        → t.cfg.probe_fail_threshold ≤ k
        → 1 ≤ k
        → IsIn (run fl t (replicate k (probe tenant plane timeout))) assumed_bad
    enough_timeouts_demote k t s rec f room enough one =
        timeouts-demote k t s rec f room (inr (omega arith, one))

    -- Recovery: when at least `probe_recover_threshold` consecutive probes of a plane succeed, and
    -- no lossy window is counted against it, the plane ends GOOD, whatever its state was.
    pub enough_successes_promote :
        (rtts : List ℕ) (t : EvStateTable Float) (s : Tenant Float) (rec : PlaneRecord Float)
        → IsFound fl t tenant plane s rec
        → rec.consecutive_loss_demote_windows ≡ 0
        → t.cfg.probe_recover_threshold ≤ length rtts
        → 1 ≤ length rtts
        → IsIn (run fl t (map (λ rtt. probe tenant plane (success (some (pos rtt)))) rtts)) good
    enough_successes_promote rtts t s rec f quiet enough one =
        successes-promote rtts t s rec f quiet (inr (omega arith, one))
