-- ===== src/ProbeClock/Matches.antt =====
-- What `match_reply` answers (probe_clock.py).
use srv6_ai_fabric.Prelude.{
  ℕ_eq, get_elem?, some, ==_iff, All-get_elem?, arith, get_elem?, get_elem?-set_self,
  lt-length_of_get_elem?, lt→ltb, none, ok, refl, some, ℕ, ◌+◌, ◌<◌, ◌≡◌,
}
use srv6_ai_fabric.ProbeClock.{
  OutstandingProbe, PlaneClock, ProbeClock, match_plane, match_reply, matching, plane_clock,
  put_plane,
}
use srv6_ai_fabric.ProbeClock.Runs.{IsValid}
use srv6_ai_fabric.ProbeClock.Planes.{IsTracked}
use srv6_ai_fabric.Prelude.Dict.{delete, lookup, lookup-delete_self}
use srv6_ai_fabric.Prelude.Int.{sub_ℕ}

-- The clock after a reply to the probe `req_id`.
abbrev pub answered : ProbeClock → ℕ → ℕ → PlaneClock → ProbeClock
answered c plane req_id p =
    put_plane c plane
      (record p { outstanding = delete req_id p.outstanding; reply_count = p.reply_count + 1 })

pub match_reply-hit :
    (c : ProbeClock) (plane req_id now : ℕ) (p : PlaneClock) (q : OutstandingProbe)
    → plane < c.num_planes
    → get_elem? c.planes plane ≡ some p
    → lookup req_id p.outstanding ≡ some q
    → match_reply c req_id plane q.tx_ns now
      ≡ ok (answered c plane req_id p, some (sub_ℕ now q.tx_ns))
unfolding match_reply match_plane matching plane_clock
match_reply-hit c plane req_id now p q inside read there =
    rw (lt→ltb plane c.num_planes inside, read, there, matching, (==_iff q.tx_ns q.tx_ns).1 refl)
      refl

-- The reply to a probe that is in flight on the plane, sent at the time that the reply echoes,
-- gives the round trip; the same reply once more is stale.
pub match_reply_once :
    (c : ProbeClock) (plane req_id now later : ℕ) (p : PlaneClock) (q : OutstandingProbe)
    → IsValid c
    → get_elem? c.planes plane ≡ some p
    → lookup req_id p.outstanding ≡ some q
    → (c' : ProbeClock) × (match_reply c req_id plane q.tx_ns now
        ≡ ok (c', some (sub_ℕ now q.tx_ns)))
      × (match_reply c' req_id plane q.tx_ns later
          ≡ ok (record c' { stale_replies = c'.stale_replies + 1 }, none))
unfolding match_reply match_plane matching plane_clock
match_reply_once c plane req_id now later p q v read there =
    let p' : PlaneClock = record p {
      outstanding = delete req_id p.outstanding;
      reply_count = p.reply_count + 1;
    } in
    let inside = lt-length_of_get_elem? c.planes plane read in
    let t = All-get_elem? (IsTracked c.max_outstanding) c.planes plane v.tracked read in
    let range : plane < c.num_planes = omega (arith, v.sized) in
    (
      answered c plane req_id p,
      match_reply-hit c plane req_id now p q range read there,
      rw
          (
            lt→ltb plane c.num_planes range,
            get_elem?-set_self c.planes plane p' inside,
            lookup-delete_self req_id p.outstanding t.distinct,
            matching,
          )
          refl,
    )
