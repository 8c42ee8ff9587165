-- ===== src/EvState/Machine.antt =====
-- The state machine of ev_state.py as a step relation on a tenant: a plane is kept in its state,
-- promoted on enough probes while the loss signal is quiet, or demoted above the floor.
use srv6_ai_fabric.Prelude.{
  ℕ, ◌+◌, ◌≤◌, ◌≡◌, ◌≢◌, inl, inr, refl, true, not, [], ◌∷◌, ◌++◌, arith, ◌==◌, ap, set, Bool-cases,
  ltb, leb, ◌&&◌,
}
use srv6_ai_fabric.Prelude.Floats.{Floats}
use srv6_ai_fabric.EvState.{
  EvState, good, assumed_bad, same_state, PlaneRecord, Tenant, EvStateTable, store,
  transition_locked, try_demote_locked, probe_success, probe_timeout, loss_window, rebuild_weights,
  usable_after, ring_append,
}

module _ (fl : Floats) where
  open fl use {Float, lt, le, div, of_ℕ}

  -- The tenant after a change of state: the record, the weights and the callback.
  abbrev pub moved : ℕ → ℕ → EvState → PlaneRecord Float → Tenant Float → Tenant Float
  moved num_planes plane old v s = record s {
    planes = set s.planes plane v;
    weights = rebuild_weights fl num_planes (set s.planes plane v);
    calls = s.calls ++ (record { plane = plane; old = old; new = v.state } ∷ []);
  }

  pub data Step (t : EvStateTable Float) (plane : ℕ) (rec : PlaneRecord Float) (s : Tenant Float)
      : Tenant Float → Type 0 where
    keep :
        {s' : Tenant Float} (v : PlaneRecord Float)
        → v.state ≡ rec.state
        → v.transitions ≡ rec.transitions
        → s' ≡ store plane v s
        → Step t plane rec s s'
    promote :
        {s' : Tenant Float} (v : PlaneRecord Float)
        → rec.state ≢ good
        → v.state ≡ good
        → v.transitions ≡ rec.transitions + 1
        → t.cfg.probe_recover_threshold ≤ rec.consecutive_probe_successes + 1
        → rec.consecutive_loss_demote_windows ≡ 0
        → s' ≡ moved t.num_planes plane rec.state v s
        → Step t plane rec s s'
    demote :
        {s' : Tenant Float} (v : PlaneRecord Float)
        → rec.state ≢ assumed_bad
        → v.state ≡ assumed_bad
        → v.transitions ≡ rec.transitions + 1
        → t.min_active ≤ usable_after plane 0 s.planes
        → s' ≡ moved t.num_planes plane rec.state v s
        → Step t plane rec s s'

  module _ (t : EvStateTable Float) (plane : ℕ) (rec : PlaneRecord Float) (s : Tenant Float) where
    same_state-ne : (a b : EvState) → not (same_state a b) ≡ true → a ≢ b
    same_state-ne a b h e = ground arith

    try_demote-Step :
        (rec' : PlaneRecord Float)
        → rec'.state ≡ rec.state
        → rec'.transitions ≡ rec.transitions
        → not (same_state rec.state assumed_bad) ≡ true
        → Step t plane rec s (try_demote_locked fl t.num_planes t.min_active plane rec' s)
    unfolding try_demote_locked transition_locked
    try_demote-Step rec' e tr h =
        elim (Bool-cases (ltb (usable_after plane 0 s.planes) t.min_active)) [
          | inl low ↦ rw low (
              keep
                (record rec' { demotes_suppressed_by_floor = rec'.demotes_suppressed_by_floor + 1 })
                e tr refl)
          | inr high ↦ rw high (
              demote
                (record rec' {
                  state = assumed_bad;
                  transitions = rec'.transitions + 1;
                  consecutive_probe_timeouts = rec'.consecutive_probe_timeouts;
                  consecutive_probe_successes = 0;
                })
                (same_state-ne rec.state assumed_bad h) refl (ap (λ (n : ℕ). n + 1) tr)
                (ground arith) (ground arith))
        ]

    pub probe_success-Step : (rtt : ℕ) → Step t plane rec s (probe_success fl t plane rtt rec s)
    unfolding probe_success transition_locked
    probe_success-Step rtt =
        elim (Bool-cases (
          not (same_state rec.state good)
          && (leb t.cfg.probe_recover_threshold (rec.consecutive_probe_successes + 1)
              && (rec.consecutive_loss_demote_windows == 0)))) [
                | inl hit ↦ rw hit (
                    promote
                      (record rec {
                        state = good;
                        transitions = rec.transitions + 1;
                        consecutive_probe_timeouts = 0;
                        consecutive_probe_successes = rec.consecutive_probe_successes + 1;
                        rtt_ring_ns = ring_append t.cfg.rtt_ring_size rec.rtt_ring_ns rtt;
                      })
                      (same_state-ne rec.state good (ground arith)) refl refl (ground arith)
                      (ground arith) (ground arith))
                | inr miss ↦ rw miss (keep _ refl refl refl)
              ]

    pub probe_timeout-Step : Step t plane rec s (probe_timeout fl t plane rec s)
    unfolding probe_timeout
    probe_timeout-Step =
        elim (Bool-cases (
          not (same_state rec.state assumed_bad)
          && leb t.cfg.probe_fail_threshold (rec.consecutive_probe_timeouts + 1))) [
            | inl hit ↦ rw hit (try_demote-Step _ refl refl (ground arith))
            | inr miss ↦ rw miss (keep _ refl refl refl)
          ]

    pub loss_window-Step : (loss : Float) → Step t plane rec s (loss_window fl t plane loss rec s)
    unfolding loss_window
    loss_window-Step loss = elim (Bool-cases (lt t.cfg.loss_threshold loss)) [
      | inl lossy ↦
          rw lossy
            (elim (Bool-cases (
              not (same_state rec.state assumed_bad)
              && leb t.cfg.loss_demote_consecutive (rec.consecutive_loss_demote_windows + 1))) [
                | inl hit ↦ rw hit (try_demote-Step _ refl refl (ground arith))
                | inr miss ↦ rw miss (keep _ refl refl refl)
              ])
      | inr fine ↦ rw fine (elim (Bool-cases (le loss (div t.cfg.loss_threshold (of_ℕ 2)))) [
        | inl quiet ↦ rw quiet (keep _ refl refl refl)
        | inr mild ↦ rw mild (keep _ refl refl refl)
      ])
    ]
