-- ===== src/Reorder/Counts.antt =====
-- The counts of a flow add up (reorder.py, `FlowStats.observe`).
use srv6_ai_fabric.Prelude.{
  Eq, ℕ_eq, ℕ, List, [], arith, inl, length, refl, some, suc, true, ◌+◌, ◌∷◌, ◌≡◌, ◌⊎◌, Bool-cases,
  inr, ◌≤◌, min,
}
use srv6_ai_fabric.Prelude.Dict.{Dict, insert, lookup}
use srv6_ai_fabric.Topo.{FlowKey}
use srv6_ai_fabric.Policy.{mem}
use srv6_ai_fabric.Reorder.{
  FlowStats, bump, count_at, discard, observe, smallest, total, above, add_to_window, bump_plane,
  distance, flow_stats, observe_new,
}

-- A list of packets, each with its sequence number and its plane.
unfoldable pub observe_all : FlowStats → List (ℕ × ℕ) → FlowStats
observe_all s [] = s
observe_all s (p ∷ ps) = observe_all (observe s (p.0) (some (p.1))) ps

module _ {K : Type 0} ⦃e : Eq K⦄ where
  total-insert : (k : K) (n : ℕ) (d : Dict K ℕ) → total (insert k n d) + count_at k d ≡ total d + n
  unfolding total insert lookup
  total-insert k n [] = omega arith
  total-insert k n ((j, m) ∷ d) = ground (arith, total-insert k n d)

  pub total-bump : (k : K) (d : Dict K ℕ) → total (bump k d) ≡ total d + 1
  unfolding bump
  total-bump k d = omega (arith, total-insert k (count_at k d + 1) d)

smallest-cases : (x : ℕ) (l : List ℕ) → (smallest x l ≡ x) ⊎ (mem (smallest x l) l ≡ true)
unfolding smallest mem
smallest-cases x [] = inl refl
smallest-cases x (y ∷ l) = elim (smallest-cases (min x y) l) [
  | inl e ↦ ground arith
  | inr e ↦ inr (ground arith)
]

pub mem-smallest : (x : ℕ) (l : List ℕ) → mem (smallest x l) (x ∷ l) ≡ true
unfolding mem
mem-smallest x l = elim (smallest-cases x l) [ inl e ↦ rw e (ground arith) | inr e ↦ ground arith ]

length-discard-mem : (x : ℕ) (l : List ℕ) → mem x l ≡ true → suc (length (discard x l)) ≡ length l
unfolding discard mem
length-discard-mem x [] h = cc
length-discard-mem x (y ∷ l) h = ground (arith, length-discard-mem x l)

length-add_to_window :
    (cap seq : ℕ) (window : List ℕ)
    → length window ≤ cap
    → length (add_to_window cap seq window) ≤ cap
unfolding add_to_window
length-add_to_window cap seq window h =
    ground
      (arith, length-discard-mem (smallest seq window) (seq ∷ window) (mem-smallest seq window))

-- What the counters of a flow say of the `n` packets that it has seen.
abbrev pub IsCounted : FlowStats → ℕ → Type 0
IsCounted s n =
    (s.received + s.duplicates ≡ n)
    × (total s.reorder_hist ≡ s.received)
    × (total s.per_plane ≡ s.received)
    × (length s.window ≤ s.window_cap)

observe-IsCounted :
    (s : FlowStats) (n seq plane : ℕ)
    → IsCounted s n
    → IsCounted (observe s seq (some plane)) (n + 1)
unfolding observe observe_new bump_plane
observe-IsCounted s n seq plane h = elim (Bool-cases (mem seq s.window)) [
  | inl seen ↦ rw seen (omega (arith, h.0), h.1, h.2, h.3)
  | inr new ↦
      let width = length-add_to_window s.window_cap seq s.window h.3 in
      let planes : total (bump plane s.per_plane) ≡ s.received + 1 =
        omega (arith, h.2, total-bump plane s.per_plane) in
      elim (Bool-cases (above seq s.last_seq_seen)) [
        | inl higher ↦
            rw (new, higher)
              (omega (arith, h.0), omega (arith, h.1, total-bump 0 s.reorder_hist), planes, width)
        | inr late ↦
            rw (new, late)
              (
                omega (arith, h.0),
                omega (arith, h.1, total-bump (distance s.last_seq_seen seq) s.reorder_hist),
                planes,
                width,
              )
      ]
]

observe_all_from :
    (ps : List (ℕ × ℕ)) (s : FlowStats) (n : ℕ)
    → IsCounted s n
    → IsCounted (observe_all s ps) (n + length ps)
unfolding observe_all
observe_all_from [] s n h = (omega (arith, h.0), h.1, h.2, h.3)
observe_all_from (p ∷ ps) s n h =
    let rest =
      observe_all_from ps (observe s (p.0) (some (p.1))) (n + 1)
        (observe-IsCounted s n (p.0) (p.1) h) in
    (omega (arith, rest.0), rest.1, rest.2, rest.3)

-- After any packets of a flow the received and the duplicate ones add up to the packets, the
-- histogram of distances and the counts of the planes each add up to the received ones, and the
-- window of sequence numbers is within its cap.
pub observe_all-IsCounted :
    (flow : FlowKey) (ps : List (ℕ × ℕ)) → IsCounted (observe_all (flow_stats flow) ps) (length ps)
unfolding total
observe_all-IsCounted flow ps =
    let all = observe_all_from ps (flow_stats flow) 0 (refl, refl, refl, omega arith) in
    (omega (arith, all.0), all.1, all.2, all.3)
