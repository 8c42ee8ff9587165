-- ===== src/Health/Machine.antt =====
-- The monitor as one machine for each plane (health.py, `_record` and `tick`).
use srv6_ai_fabric.Prelude.{
  ℕ, List, Bool, [], arith, false, get_elem?-set_ne, get_elem?-set_self, leb, length, length-set,
  not, refl, set, true, ◌&&◌, ◌+◌, ◌<◌, ◌==◌, ◌||◌, ◌∷◌, ◌≡◌, ◌≢◌, ==_iff, Bool-cases, inl, inr,
  map, replicate, subst, suc, sym, zero, ◌∙◌, ◌≤◌, ap, if◌then◌else◌, ◌++◌,
}
use srv6_ai_fabric.Policy.{mem}
use srv6_ai_fabric.Health.{
  HealthMonitor, clear, record_answer, record_failure, record_success, streak, tick, tick_from,
  ticks,
}
use mathlib.Core.List.{foldl}

-- What the monitor knows of one plane.
pub record PlaneHealth : Type 0 where
  pub is_down : Bool
  pub fails : ℕ
  pub passes : ℕ

-- The rule of `_record`: enough failures in a row put a plane down, enough successes take it out. The
-- counters run on through a change of the mark: each goes back to 0 at an answer of the other kind only.
unfoldable pub step : ℕ → ℕ → PlaneHealth → Bool → PlaneHealth
step threshold recovery h true = record {
  is_down = h.is_down && not (leb recovery (h.passes + 1));
  fails = 0;
  passes = h.passes + 1;
}
step threshold recovery h false = record {
  is_down = h.is_down || leb threshold (h.fails + 1);
  fails = h.fails + 1;
  passes = 0;
}

abbrev pub view : HealthMonitor → ℕ → PlaneHealth
view m p = record {
  is_down = mem p m.down;
  fails = streak p m.fail_streak;
  passes = streak p m.pass_streak;
}

-- Each plane has its counters.
abbrev pub IsSized : HealthMonitor → Type 0
IsSized m = (length m.fail_streak ≡ m.num_planes) × (length m.pass_streak ≡ m.num_planes)

mem-clear : (p q : ℕ) (l : List ℕ) → mem p (clear q l) ≡ (not (q == p) && mem p l)
unfolding mem clear
mem-clear p q [] = ground arith
mem-clear p q (x ∷ l) = ground (arith, mem-clear p q l)

streak-set_self : (p n : ℕ) (l : List ℕ) → p < length l → streak p (set l p n) ≡ n
streak-set_self p n l h = rw (streak, get_elem?-set_self l p n h) refl

streak-set_ne : (p q n : ℕ) (l : List ℕ) → q ≢ p → streak p (set l q n) ≡ streak p l
streak-set_ne p q n l h = rw (streak, get_elem?-set_ne l q p n h) refl

record_answer-IsSized :
    (m : HealthMonitor) (q : ℕ) (b : Bool)
    → IsSized m
    → IsSized (record_answer m q b) × ((record_answer m q b).num_planes ≡ m.num_planes)
unfolding record_answer record_success record_failure
record_answer-IsSized m q true s = ((rw length-set s.0, rw length-set s.1), refl)
record_answer-IsSized m q false s = ((rw length-set s.0, rw length-set s.1), refl)

record_answer-rules :
    (m : HealthMonitor) (q : ℕ) (b : Bool)
    → ((record_answer m q b).threshold ≡ m.threshold)
      × ((record_answer m q b).recovery ≡ m.recovery)
unfolding record_answer record_success record_failure
record_answer-rules m q true = (refl, refl)
record_answer-rules m q false = (refl, refl)

same_health :
    {a b : PlaneHealth} → a.is_down ≡ b.is_down → a.fails ≡ b.fails → a.passes ≡ b.passes → a ≡ b
same_health d f p = λ i. record { is_down = d i; fails = f i; passes = p i }

-- Each plane's counters and mark move by `step` on its own answers.
view-record_answer_self :
    (m : HealthMonitor) (p : ℕ) (b : Bool)
    → IsSized m
    → p < m.num_planes
    → view (record_answer m p b) p ≡ step m.threshold m.recovery (view m p) b
unfolding record_answer record_success record_failure step mem
view-record_answer_self m p true s h =
    same_health (ground (arith, mem-clear p p m.down))
      (streak-set_self p 0 m.fail_streak (omega (arith, s.0)))
      (streak-set_self p _ m.pass_streak (omega (arith, s.1)))
view-record_answer_self m p false s h =
    same_health (ground arith) (streak-set_self p _ m.fail_streak (omega (arith, s.0)))
      (streak-set_self p 0 m.pass_streak (omega (arith, s.1)))

view-record_answer_ne :
    (m : HealthMonitor) (p q : ℕ) (b : Bool) → q ≢ p → view (record_answer m q b) p ≡ view m p
unfolding record_answer record_success record_failure mem
view-record_answer_ne m p q true n =
    same_health (ground (arith, mem-clear p q m.down)) (streak-set_ne p q 0 m.fail_streak n)
      (streak-set_ne p q _ m.pass_streak n)
view-record_answer_ne m p q false n =
    same_health (ground arith) (streak-set_ne p q _ m.fail_streak n)
      (streak-set_ne p q 0 m.pass_streak n)

-- The rest of a round leaves the planes that are behind it.
view-tick_from_behind :
    (probe : ℕ → Bool) (q n p : ℕ) (m : HealthMonitor)
    → p < q
    → view (tick_from probe q n m) p ≡ view m p
unfolding tick_from
view-tick_from_behind probe q zero p m h = refl
view-tick_from_behind probe q (suc n) p m h =
    view-tick_from_behind probe (suc q) n p _ (omega arith)
    ∙ view-record_answer_ne m p q (probe q) (λ e. omega arith)

view-tick_from :
    (probe : ℕ → Bool) (q n p : ℕ) (m : HealthMonitor)
    → IsSized m
    → q + n ≤ m.num_planes
    → q ≤ p
    → p < q + n
    → view (tick_from probe q n m) p ≡ step m.threshold m.recovery (view m p) (probe p)
unfolding tick_from
view-tick_from probe q zero p m s le low high = absurd (omega arith)
view-tick_from probe q (suc n) p m s le low high = elim (Bool-cases (q == p)) [
  | inl here ↦
      let e : q ≡ p = (==_iff q p).0 here in
      subst
        (λ x.
          view (tick_from probe (suc x) n (record_answer m x (probe x))) p
          ≡ step m.threshold m.recovery (view m p) (probe p))
        (sym e)
        (view-tick_from_behind probe (suc p) n p _ (omega arith)
          ∙ view-record_answer_self m p (probe p) s (omega arith))
  | inr away ↦
      let n' : q ≢ p = (λ e. ground arith) in
      let sized = record_answer-IsSized m q (probe q) s in
      let rules = record_answer-rules m q (probe q) in
      view-tick_from probe (suc q) n p _ sized.0 (omega (arith, sized.1)) (ground arith)
        (omega arith)
      ∙ (λ i. step (rules.0 i) (rules.1 i) (view-record_answer_ne m p q (probe q) n' i) (probe p))
]

tick_from-frame :
    (probe : ℕ → Bool) (q n : ℕ) (m : HealthMonitor)
    → IsSized m
    → IsSized (tick_from probe q n m)
      × ((tick_from probe q n m).num_planes ≡ m.num_planes)
      × ((tick_from probe q n m).threshold ≡ m.threshold)
      × ((tick_from probe q n m).recovery ≡ m.recovery)
unfolding tick_from
tick_from-frame probe q zero m s = (s, refl, refl, refl)
tick_from-frame probe q (suc n) m s =
    let sized = record_answer-IsSized m q (probe q) s in
    let rules = record_answer-rules m q (probe q) in
    let rest = tick_from-frame probe (suc q) n _ sized.0 in
    (rest.0, rest.1 ∙ sized.1, rest.2 ∙ rules.0, rest.3 ∙ rules.1)

tick-frame :
    (probe : ℕ → Bool) (m : HealthMonitor)
    → IsSized m
    → IsSized (tick probe m)
      × ((tick probe m).num_planes ≡ m.num_planes)
      × ((tick probe m).threshold ≡ m.threshold)
      × ((tick probe m).recovery ≡ m.recovery)
unfolding tick
tick-frame probe m s = tick_from-frame probe 0 m.num_planes m s

-- Rounds of probes are, for each plane, a run of the plane's own machine: whatever the probes of the
-- other planes answer, the mark and the counters of a plane move by `step` on its answers in order.
pub ticks-view :
    (probes : List (ℕ → Bool)) (m : HealthMonitor) (p : ℕ)
    → IsSized m
    → p < m.num_planes
    → view (ticks probes m) p
      ≡ foldl (step m.threshold m.recovery) (view m p) (map (λ probe. probe p) probes)
unfolding ticks tick
ticks-view [] m p s h = refl
ticks-view (probe ∷ probes) m p s h =
    let frame = tick_from-frame probe 0 m.num_planes m s in
    ticks-view probes (tick probe m) p frame.0 (omega (arith, frame.1)) ∙ (λ i.
      foldl (step (frame.2 i) (frame.3 i))
        (view-tick_from probe 0 m.num_planes p m s (omega arith) (omega arith) (omega arith) i)
        (map (λ f. f p) probes))

-- Failures in a row count up to the mark.
fails_reach :
    (threshold recovery : ℕ) (h : PlaneHealth) (n : ℕ)
    → 0 < n
    → threshold ≤ h.fails + n
    → (foldl (step threshold recovery) h (replicate n false)).is_down ≡ true
unfolding step
fails_reach threshold recovery h zero one enough = absurd (omega arith)
fails_reach threshold recovery h (suc zero) one enough = ground arith
fails_reach threshold recovery h (suc (suc n)) one enough =
    fails_reach threshold recovery (step threshold recovery h false) (suc n) (omega arith)
      (omega arith)

passes_reach :
    (threshold recovery : ℕ) (h : PlaneHealth) (n : ℕ)
    → 0 < n
    → recovery ≤ h.passes + n
    → (foldl (step threshold recovery) h (replicate n true)).is_down ≡ false
unfolding step
passes_reach threshold recovery h zero one enough = absurd (omega arith)
passes_reach threshold recovery h (suc zero) one enough = ground arith
passes_reach threshold recovery h (suc (suc n)) one enough =
    passes_reach threshold recovery (step threshold recovery h true) (suc n) (omega arith)
      (omega arith)

-- After `n` rounds in which its probe fails a plane is down if n is the threshold or more, and after
-- `n` rounds in which its probe is answered it is not down if n is the recovery count or more,
-- whatever came before and whatever the other planes answer.
pub ticks-threshold :
    (before after : List (ℕ → Bool)) (m : HealthMonitor) (p n : ℕ) (answer : Bool)
    → IsSized m
    → p < m.num_planes
    → 0 < n
    → (if answer then m.recovery else m.threshold) ≤ n
    → map (λ probe. probe p) after ≡ replicate n answer
    → mem p (ticks (before ++ after) m).down ≡ not answer
unfolding ticks
ticks-threshold [] after m p n true s h one enough e =
    ap (λ x. x.is_down) (ticks-view after m p s h)
    ∙ subst (λ l. (foldl (step m.threshold m.recovery) (view m p) l).is_down ≡ false) (sym e)
        (passes_reach m.threshold m.recovery (view m p) n one (omega arith))
ticks-threshold [] after m p n false s h one enough e =
    ap (λ x. x.is_down) (ticks-view after m p s h)
    ∙ subst (λ l. (foldl (step m.threshold m.recovery) (view m p) l).is_down ≡ true) (sym e)
        (fails_reach m.threshold m.recovery (view m p) n one (omega arith))
ticks-threshold (probe ∷ before) after m p n answer s h one enough e =
    let frame = tick-frame probe m s in
    ticks-threshold before after (tick probe m) p n answer frame.0 (omega (arith, frame.1)) one
      (subst (λ k. (if answer then k else (tick probe m).threshold) ≤ n) (sym frame.3)
        (subst (λ k. (if answer then m.recovery else k) ≤ n) (sym frame.2) enough))
      e
