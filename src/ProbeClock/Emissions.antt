-- ===== src/ProbeClock/Emissions.antt =====
-- From the emission of a probe to its reply (probe_clock.py, `emit` and `match_reply`).
use srv6_ai_fabric.Prelude.{
  arith, some, ℕ, ℕ_eq, ◌≡◌, ◌<◌, List, get_elem?, get_elem?-set_self, lt-length_of_get_elem?,
  subst, sym, ◌∙◌, refl, none, ok,
}
use srv6_ai_fabric.ProbeClock.{
  evict, PlaneClock, ProbeClock, emit, emit_plane, plane_clock, put_plane, match_reply,
}
use srv6_ai_fabric.ProbeClock.Runs.{Call, emit_at, run}
use srv6_ai_fabric.ProbeClock.Places.{place_of-insert_new, lookup-place_of, lookup-evict}
use srv6_ai_fabric.Prelude.{ok-injective, lt→ltb, All-get_elem?}
use srv6_ai_fabric.Prelude.Int.{sub_ℕ}
use srv6_ai_fabric.ProbeClock.Planes.{IsTracked}
use srv6_ai_fabric.ProbeClock.Runs.{after, IsValid, after-IsValid, run-IsValid}
use srv6_ai_fabric.ProbeClock.Matches.{match_reply-hit, answered}
use srv6_ai_fabric.Prelude.{All}
use srv6_ai_fabric.Prelude.Dict.{lookup}
use srv6_ai_fabric.ProbeClock.Flights.{IsInFlight, Spares, emits, run-IsInFlight}

-- The id that the plane gives next is not in flight.
abbrev pub IsFreshId : ProbeClock → ℕ → Type 0
IsFreshId c plane =
    (p : PlaneClock) × (get_elem? c.planes plane ≡ some p)
    × (lookup p.next_req_id p.outstanding ≡ none)

after-emit :
    (c c' : ProbeClock) (plane now req_id tx : ℕ)
    → emit c plane now ≡ ok (c', req_id, tx)
    → after c (emit_at plane now) ≡ c'
unfolding after
after-emit c c' plane now req_id tx h = rw (h, after) refl

emit-new :
    (c c' : ProbeClock) (plane now req_id tx : ℕ)
    → IsValid c
    → IsFreshId c plane
    → emit c plane now ≡ ok (c', req_id, tx)
    → IsInFlight c' plane req_id tx 0
      × (req_id < 0x10000)
      × IsValid c'
      × (c'.max_outstanding ≡ c.max_outstanding)
      × (c'.probe_timeout_ns ≡ c.probe_timeout_ns)
unfolding emit emit_plane plane_clock
emit-new c c' plane now req_id tx v (p, read, fresh) sent =
    let inside : plane < c.num_planes =
      omega (arith, v.sized, lt-length_of_get_elem? c.planes plane read) in
    let p' = emit_plane c.max_outstanding plane now p in
    let known : emit c plane now ≡ ok (put_plane c plane p', p.next_req_id, now) =
      rw (lt→ltb plane c.num_planes inside, read) refl in
    let u16 = (All-get_elem? (IsTracked c.max_outstanding) c.planes plane v.tracked read).id_u16 in
    subst
      (λ (x : ProbeClock × ℕ × ℕ).
        IsInFlight x.0 plane x.1 x.2 0
        × (x.1 < 0x10000)
        × IsValid x.0
        × (x.0.max_outstanding ≡ c.max_outstanding)
        × (x.0.probe_timeout_ns ≡ c.probe_timeout_ns))
      (ok-injective _ _ (sym known ∙ sent))
      (
        (
          p',
          get_elem?-set_self c.planes plane p' (lt-length_of_get_elem? c.planes plane read),
          (
            0,
            omega arith,
            omega arith,
            (
              0,
              place_of-insert_new p.next_req_id
                  (record { req_id = p.next_req_id; plane = plane; tx_ns = now })
                  (evict c.max_outstanding p.outstanding)
                  (lookup-evict p.next_req_id c.max_outstanding p.outstanding fresh),
              omega arith,
            ),
          ),
        ),
        u16,
        subst IsValid (after-emit c (put_plane c plane p') plane now p.next_req_id now known)
            (after-IsValid c (emit_at plane now) v),
        refl,
        refl,
      )

-- A probe that is emitted under an id that is not in flight is answered after any calls of which none is
-- a reply to it or a sweep past its timeout and which emit fewer probes of its plane than fit.
pub emit-run-match_reply :
    (c c' : ProbeClock) (plane now later req_id tx : ℕ) (es : List Call)
    → IsValid c
    → IsFreshId c plane
    → emit c plane now ≡ ok (c', req_id, tx)
    → All (Spares req_id plane tx c.probe_timeout_ns) es
    → emits plane es < c.max_outstanding
    → emits plane es < 0x10000
    → (c'' : ProbeClock) × (match_reply (run c' es) req_id plane tx later
        ≡ ok (c'', some (sub_ℕ later tx)))
emit-run-match_reply c c' plane now later req_id tx es v fresh sent spared room few =
    let (flying, u16, v', cap, timeout) = emit-new c c' plane now req_id tx v fresh sent in
    let (p, at, (k, _, _, (b, place, _))) =
      run-IsInFlight c' es plane req_id tx 0 u16
        (subst (λ t. All (Spares req_id plane tx t) es) (sym timeout) spared) (omega (arith, cap))
        (omega arith) flying in
    let (q, there, same) = lookup-place_of req_id tx b p.outstanding place in
    let sized = (run-IsValid c' es v').sized in
    let d = answered (run c' es) plane req_id p in
    (
      d,
      subst (λ t. match_reply (run c' es) req_id plane t later ≡ ok (d, some (sub_ℕ later t))) same
          (match_reply-hit (run c' es) plane req_id later p q
            (omega (arith, sized, lt-length_of_get_elem? (run c' es).planes plane at)) at there),
    )
