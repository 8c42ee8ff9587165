-- ===== src/Reorder/Gaps.antt =====
-- What `loss` counts (reorder.py, `FlowStats.expected` and `FlowStats.loss`).
use srv6_ai_fabric.Prelude.{
  ℕ, List, ==_iff, Bool-cases, [], arith, false, if◌then◌else◌, inl, inr, length, refl, suc, zero,
  ◌+◌, ◌<◌, ◌==◌, ◌∷◌, ◌≡◌, ◌≤◌, some, ◌-◌, max, true, ap, ltb, ◌||◌, ◌∙◌, All, map,
}
use srv6_ai_fabric.Policy.{mem}
use srv6_ai_fabric.Topo.{FlowKey}
use srv6_ai_fabric.Reorder.{
  loss, expected, FlowStats, add_to_window, observe, observe_new, flow_stats,
}
use srv6_ai_fabric.Prelude.Int.{pos}
use srv6_ai_fabric.Reorder.Counts.{observe_all}

-- How many of the `n` numbers from `low` on are not in the list.
unfoldable pub missing : ℕ → ℕ → List ℕ → ℕ
missing low zero seen = 0
missing low (suc n) seen = (if mem low seen then 0 else 1) + missing (suc low) n seen

-- No number stands twice, and each is one of the `n` from `low` on.
abbrev pub IsWithin : ℕ → ℕ → List ℕ → Type 0
IsWithin low n [] = Unit
IsWithin low n (x ∷ xs) = (mem x xs ≡ false) × (low ≤ x) × (x < low + n) × IsWithin low n xs

missing-cons_out : (n low x : ℕ) (xs : List ℕ) → x < low → missing low n (x ∷ xs) ≡ missing low n xs
unfolding missing mem
missing-cons_out zero low x xs h = refl
missing-cons_out (suc n) low x xs h =
    ground (arith, missing-cons_out n (suc low) x xs (omega arith))

missing-cons :
    (n low x : ℕ) (xs : List ℕ)
    → mem x xs ≡ false
    → low ≤ x
    → x < low + n
    → missing low n (x ∷ xs) + 1 ≡ missing low n xs
unfolding missing mem
missing-cons zero low x xs new h h' = absurd (omega arith)
missing-cons (suc n) low x xs new h h' = elim (Bool-cases (low == x)) [
  | inl here ↦ ground (arith, (==_iff low x).0 here, missing-cons_out n (suc low) x xs)
  | inr away ↦ ground (arith, missing-cons n (suc low) x xs new (ground arith) (omega arith))
]

missing-nil : (n low : ℕ) → missing low n [] ≡ n
unfolding missing mem
missing-nil zero low = refl
missing-nil (suc n) low = omega (arith, missing-nil n (suc low))

-- Numbers of a range are in a list without repetition, or missing.
missing-add_length :
    (low n : ℕ) (xs : List ℕ) → IsWithin low n xs → missing low n xs + length xs ≡ n
missing-add_length low n [] h = omega (arith, missing-nil n low)
missing-add_length low n (x ∷ xs) h =
    omega (arith, missing-cons n low x xs h.0 h.1 h.2, missing-add_length low n xs h.3)

IsWithin-grow : (low n k : ℕ) (xs : List ℕ) → IsWithin low n xs → n ≤ k → IsWithin low k xs
IsWithin-grow low n k [] h le = tt
IsWithin-grow low n k (x ∷ xs) h le =
    (h.0, h.1, omega (arith, h.2), IsWithin-grow low n k xs h.3 le)

add_to_window_room :
    (cap seq : ℕ) (window : List ℕ)
    → length window < cap
    → add_to_window cap seq window ≡ seq ∷ window
unfolding add_to_window
add_to_window_room cap seq window h = ground arith

IsWithin-bound : (x low n : ℕ) (xs : List ℕ) → IsWithin low n xs → mem x xs ≡ true → x < low + n
unfolding mem
IsWithin-bound x low n [] h m = cc
IsWithin-bound x low n (y ∷ xs) h m =
    let bound = h.2 in ground (arith, IsWithin-bound x low n xs h.3)

-- What holds of a flow that has seen `seen`, the numbers from `first` to `last`.
record IsExact (s : FlowStats) (first last : ℕ) (seen : List ℕ) : Type 0 where
  starts : s.first_seq ≡ some first
  ends : s.last_seq_seen ≡ pos last
  ordered : first ≤ last
  within : IsWithin first (last + 1 - first) s.window
  same : (x : ℕ) → mem x s.window ≡ mem x seen
  counted : s.received ≡ length s.window
  short : length s.window ≤ length seen
  capped : s.window_cap ≡ 4096

observe_seen :
    (s : FlowStats) (first last seq plane : ℕ) (seen : List ℕ)
    → IsExact s first last seen
    → mem seq s.window ≡ true
    → IsExact (observe s seq (some plane)) first (max last seq) (seq ∷ seen)
unfolding observe mem
observe_seen s first last seq plane seen h old =
    let bound = IsWithin-bound seq first (last + 1 - first) s.window h.within old in
    let ordered = h.ordered in
    let same_last : max last seq ≡ last = omega arith in
    rw (old, same_last)
      (record {
        starts = rw h.starts refl;
        ends = h.ends;
        ordered = h.ordered;
        within = h.within;
        same = λ x. ground (arith, h.same x, h.same seq, (==_iff seq x).0);
        counted = h.counted;
        short = omega (arith, h.short);
        capped = h.capped;
      })

observe_unseen :
    (s : FlowStats) (first last seq plane : ℕ) (seen : List ℕ)
    → IsExact s first last seen
    → first ≤ seq
    → length seen < 4096
    → mem seq s.window ≡ false
    → IsExact (observe s seq (some plane)) first (max last seq) (seq ∷ seen)
unfolding observe observe_new mem
observe_unseen s first last seq plane seen h low room new =
    let short = h.short in
    let capped = h.capped in
    let grown = add_to_window_room s.window_cap seq s.window (omega arith) in
    let ordered = h.ordered in
    let within : IsWithin first (max last seq + 1 - first) (seq ∷ s.window) = (
      new,
      low,
      omega arith,
      IsWithin-grow first (last + 1 - first) (max last seq + 1 - first) s.window h.within
          (omega arith),
    ) in
    elim (Bool-cases (ltb last seq)) [
      | inl higher ↦
          let top : max last seq ≡ seq = ground arith in
          rw (new, grown, h.ends, higher)
            (record {
              starts = rw h.starts refl;
              ends = rw top refl;
              ordered = omega arith;
              within = within;
              same = λ x. ap (λ b. (seq == x) || b) (h.same x);
              counted = omega (arith, h.counted);
              short = omega arith;
              capped = capped;
            })
      | inr lower ↦
          let top : max last seq ≡ last = ground arith in
          rw (new, grown, h.ends, lower)
            (record {
              starts = rw h.starts refl;
              ends = rw top refl;
              ordered = omega arith;
              within = within;
              same = λ x. ap (λ b. (seq == x) || b) (h.same x);
              counted = omega (arith, h.counted);
              short = omega arith;
              capped = capped;
            })
    ]

-- The numbers of the packets behind those seen.
abbrev seen_after : List ℕ → List (ℕ × ℕ) → List ℕ
seen_after seen [] = seen
seen_after seen (p ∷ ps) = seen_after (p.0 ∷ seen) ps

-- The greatest number of the packets.
abbrev pub latest : ℕ → List (ℕ × ℕ) → ℕ
latest last [] = last
latest last (p ∷ ps) = latest (max last (p.0)) ps

observe_all-IsExact :
    (ps : List (ℕ × ℕ)) (s : FlowStats) (first last : ℕ) (seen : List ℕ)
    → IsExact s first last seen
    → All (λ p. first ≤ p.0) ps
    → length seen + length ps ≤ 4096
    → IsExact (observe_all s ps) first (latest last ps) (seen_after seen ps)
unfolding observe_all
observe_all-IsExact [] s first last seen h low room = h
observe_all-IsExact (p ∷ ps) s first last seen h low room =
    observe_all-IsExact ps (observe s (p.0) (some (p.1))) first (max last (p.0)) (p.0 ∷ seen)
      (elim (Bool-cases (mem (p.0) s.window)) [
        | inl old ↦ observe_seen s first last (p.0) (p.1) seen h old
        | inr new ↦ observe_unseen s first last (p.0) (p.1) seen h low.0 (omega arith) new
      ])
      low.1 (omega arith)

mem-seen_after :
    (x : ℕ) (seen : List ℕ) (ps : List (ℕ × ℕ))
    → mem x (seen_after seen ps) ≡ (mem x (map (λ p. p.0) ps) || mem x seen)
unfolding mem
mem-seen_after x seen [] = refl
mem-seen_after x seen (p ∷ ps) = mem-seen_after x (p.0 ∷ seen) ps ∙ ground arith

missing-same :
    (n low : ℕ) (xs ys : List ℕ)
    → ((x : ℕ) → mem x xs ≡ mem x ys)
    → missing low n xs ≡ missing low n ys
unfolding missing
missing-same zero low xs ys h = refl
missing-same (suc n) low xs ys h =
    λ i. (if h low i then 0 else 1) + missing-same n (suc low) xs ys h i

IsExact-loss :
    (s : FlowStats) (first last : ℕ) (seen : List ℕ)
    → IsExact s first last seen
    → loss s ≡ missing first (last + 1 - first) s.window
IsExact-loss s first last seen h =
    let ordered = h.ordered in
    rw (loss, expected, h.starts, h.ends)
      (ground (arith, missing-add_length first (last + 1 - first) s.window h.within, h.counted))

-- If the first packet of a flow has the least sequence number, and at most 4,096 packets came, `loss`
-- is the number of sequence numbers from the first to the greatest that did not come.
pub loss-missing :
    (flow : FlowKey) (first plane : ℕ) (ps : List (ℕ × ℕ))
    → All (λ p. first ≤ p.0) ps
    → suc (length ps) ≤ 4096
    → loss (observe_all (flow_stats flow) ((first, plane) ∷ ps))
      ≡ missing first (latest first ps + 1 - first) (first ∷ map (λ p. p.0) ps)
unfolding observe_all observe observe_new mem add_to_window
loss-missing flow first plane ps low room =
    let start : IsExact (observe (flow_stats flow) first (some plane)) first first (first ∷ []) =
      record {
        starts = refl;
        ends = refl;
        ordered = omega arith;
        within = (refl, omega arith, omega arith, tt);
        same = λ x. refl;
        counted = refl;
        short = omega arith;
        capped = refl;
      } in
    let run = observe_all-IsExact ps _ first first (first ∷ []) start low (omega arith) in
    IsExact-loss _ first (latest first ps) _ run
    ∙ missing-same (latest first ps + 1 - first) first _ (first ∷ map (λ p. p.0) ps)
        (λ x. run.same x ∙ mem-seen_after x (first ∷ []) ps ∙ ground arith)
