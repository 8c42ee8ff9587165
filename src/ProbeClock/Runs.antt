-- ===== src/ProbeClock/Runs.antt =====
-- The probe clock under any sequence of calls (probe_clock.py, `ProbeClock`).
use srv6_ai_fabric.Prelude.{
  ℕ_eq, All, All-get_elem?, All-replicate, All-set, Bool-cases, List, Option-cases, Result-cases,
  [], ap, arith, get_elem?, inl, inr, length, length-replicate, length-set, ltb, ltb→lt, ok, raise,
  refl, replicate, some, subst, suc, sym, true, ℕ, ◌+◌, ◌<◌, ◌==◌, ◌∙◌, ◌∷◌, ◌≡◌, ◌≤◌,
}
use srv6_ai_fabric.ProbeClock.Planes.{
  reply-IsTracked, IsTracked, emit_plane-IsTracked, new_plane_clock-IsTracked, sweep-IsTracked,
}
use srv6_ai_fabric.ProbeClock.{
  PlaneClock, ProbeClock, emit, match_plane, match_reply, matching, new_plane_clock, plane_clock,
  put_plane, sweep_planes, sweep_timeouts, init,
}
use srv6_ai_fabric.Prelude.Dict.{lookup}

-- A call of one of the methods that change the clock.
pub data Call : Type 0 where
  emit_at : ℕ → ℕ → Call
  reply_at : ℕ → ℕ → ℕ → ℕ → Call
  sweep_at : ℕ → Call

pub record IsValid (c : ProbeClock) : Type 0 where
  pub sized : length c.planes ≡ c.num_planes
  pub roomy : 1 ≤ c.max_outstanding
  pub tracked : All (IsTracked c.max_outstanding) c.planes

-- The clock after a call; one that raises changes nothing.
unfoldable pub after : ProbeClock → Call → ProbeClock
after c (emit_at plane now) = elim (emit c plane now) [ ok (c', _, _) ↦ c' | raise _ ↦ c ]
after c (reply_at req_id plane tx now) = elim (match_reply c req_id plane tx now) [
  | ok (c', _) ↦ c'
  | raise _ ↦ c
]
after c (sweep_at now) = (sweep_timeouts c now).0

unfoldable pub run : ProbeClock → List Call → ProbeClock
run c [] = c
run c (e ∷ es) = run (after c e) es

pub plane_clock-ok :
    (c : ProbeClock) (plane : ℕ) {p : PlaneClock}
    → plane_clock c plane ≡ ok p
    → (plane < c.num_planes) × (get_elem? c.planes plane ≡ some p)
unfolding plane_clock
plane_clock-ok c plane h = ground arith

put-IsValid :
    (c : ProbeClock) (plane : ℕ) (p : PlaneClock)
    → IsTracked c.max_outstanding p
    → IsValid c
    → IsValid (put_plane c plane p)
put-IsValid c plane p t v = record {
  sized = length-set c.planes plane p ∙ v.sized;
  roomy = v.roomy;
  tracked = All-set (IsTracked c.max_outstanding) c.planes plane p v.tracked t;
}

emit-IsValid : (c : ProbeClock) (plane now : ℕ) → IsValid c → IsValid (after c (emit_at plane now))
unfolding after emit
emit-IsValid c plane now v = elim (Result-cases (plane_clock c plane)) [
  | inl (p, e) ↦
      let (_, read) = plane_clock-ok c plane e in
      rw (e, after)
        (put-IsValid c plane _
          (emit_plane-IsTracked c.max_outstanding plane now p v.roomy
            (All-get_elem? (IsTracked c.max_outstanding) c.planes plane v.tracked read))
          v)
  | inr (x, e) ↦ rw (e, after) v
]

match_plane-IsValid :
    (c : ProbeClock) (plane req_id tx now : ℕ) (p : PlaneClock)
    → get_elem? c.planes plane ≡ some p
    → IsValid c
    → IsValid (match_plane c plane req_id now p (matching p req_id tx)).0
unfolding match_plane matching
match_plane-IsValid c plane req_id tx now p read v =
    elim (Option-cases (lookup req_id p.outstanding)) [
      | inl missing ↦ rw (missing, matching) (stale v)
      | inr (q, there) ↦ elim (Bool-cases (q.tx_ns == tx)) [
        | inl same ↦
            rw (there, matching, same)
              (put-IsValid c plane _
                (reply-IsTracked c.max_outstanding req_id p q there
                  (All-get_elem? (IsTracked c.max_outstanding) c.planes plane v.tracked read))
                v)
        | inr other ↦ rw (there, matching, other) (stale v)
      ]
    ]
  where
    stale : IsValid c → IsValid (record c { stale_replies = c.stale_replies + 1 })
    stale v = record { sized = v.sized; roomy = v.roomy; tracked = v.tracked }

reply-IsValid :
    (c : ProbeClock) (req_id plane tx now : ℕ)
    → IsValid c
    → IsValid (after c (reply_at req_id plane tx now))
unfolding after match_reply
reply-IsValid c req_id plane tx now v = elim (Result-cases (plane_clock c plane)) [
  | inl (p, e) ↦
      let (_, read) = plane_clock-ok c plane e in
      rw (e, after) (match_plane-IsValid c plane req_id tx now p read v)
  | inr (x, e) ↦ rw (e, after) v
]

sweep_planes-parts :
    (n timeout_ns now i : ℕ) (ps : List PlaneClock)
    → All (IsTracked n) ps
    → (length (sweep_planes timeout_ns now i ps).0 ≡ length ps)
      × All (IsTracked n) (sweep_planes timeout_ns now i ps).0
unfolding sweep_planes
sweep_planes-parts n timeout_ns now i [] t = (refl, tt)
sweep_planes-parts n timeout_ns now i (p ∷ ps) (t, ts) =
    let (len, rest) = sweep_planes-parts n timeout_ns now (suc i) ps ts in
    (ap suc len, (sweep-IsTracked n timeout_ns now i p t, rest))

sweep-IsValid : (c : ProbeClock) (now : ℕ) → IsValid c → IsValid (after c (sweep_at now))
unfolding after sweep_timeouts
sweep-IsValid c now v =
    let (len, ts) =
      sweep_planes-parts c.max_outstanding c.probe_timeout_ns now 0 c.planes v.tracked in
    record { sized = len ∙ v.sized; roomy = v.roomy; tracked = ts }

pub after-IsValid : (c : ProbeClock) (e : Call) → IsValid c → IsValid (after c e)
after-IsValid c (emit_at plane now) v = emit-IsValid c plane now v
after-IsValid c (reply_at req_id plane tx now) v = reply-IsValid c req_id plane tx now v
after-IsValid c (sweep_at now) v = sweep-IsValid c now v

pub run-IsValid : (c : ProbeClock) (es : List Call) → IsValid c → IsValid (run c es)
unfolding run
run-IsValid c [] v = v
run-IsValid c (e ∷ es) v = run-IsValid (after c e) es (after-IsValid c e v)

pub init-IsValid :
    (num_planes timeout_ns max_outstanding : ℕ) {c : ProbeClock}
    → init num_planes timeout_ns max_outstanding ≡ ok c
    → IsValid c
unfolding init
init-IsValid n timeout_ns m {c} h =
    let known : (ltb 0 m ≡ true)
        × (c ≡ record {
          num_planes = n;
          probe_timeout_ns = timeout_ns;
          max_outstanding = m;
          planes = replicate n new_plane_clock;
          stale_replies = 0;
        }) =
      ground arith in
    subst IsValid (sym known.1) (record {
      sized = length-replicate n new_plane_clock;
      roomy = ltb→lt 0 m known.0;
      tracked = All-replicate (IsTracked m) n new_plane_clock (new_plane_clock-IsTracked m);
    })

after-cap : (c : ProbeClock) (e : Call) → (after c e).max_outstanding ≡ c.max_outstanding
unfolding after emit match_reply match_plane sweep_timeouts
after-cap c (emit_at plane now) = ground arith
after-cap c (reply_at req_id plane tx now) = ground arith
after-cap c (sweep_at now) = refl

run-cap : (c : ProbeClock) (es : List Call) → (run c es).max_outstanding ≡ c.max_outstanding
unfolding run
run-cap c [] = refl
run-cap c (e ∷ es) = run-cap (after c e) es ∙ after-cap c e

-- From a new clock, after any calls, raising or not, a plane never has more probes in flight than
-- the cap, each under its own id and no id twice, the next id is a u16, and the replies, the
-- timeouts and the probes in flight together are at most the probes emitted.
pub run-IsTracked :
    (num_planes timeout_ns max_outstanding : ℕ) (es : List Call) (c : ProbeClock) (plane : ℕ)
    (p : PlaneClock)
    → init num_planes timeout_ns max_outstanding ≡ ok c
    → get_elem? (run c es).planes plane ≡ some p
    → IsTracked max_outstanding p
unfolding init
run-IsTracked n timeout_ns m es c plane p h e =
    let v = run-IsValid c es (init-IsValid n timeout_ns m h) in
    let cap : c.max_outstanding ≡ m = ground arith in
    subst (λ k. IsTracked k p) (run-cap c es ∙ cap)
      (All-get_elem? (IsTracked (run c es).max_outstanding) (run c es).planes plane v.tracked e)
