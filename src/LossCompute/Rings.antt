-- ===== src/LossCompute/Rings.antt =====
-- The window that a report is paired with (loss_compute.py, `SentWindowRing`).
use srv6_ai_fabric.Prelude.{
  ◌≡◌, ◌≤◌, ◌<◌, ◌⊎◌, ◌∷◌, All, List, Option, [], arith, get_elem?, inl, inr, refl, some, ℕ,
  Bool-cases, ltb, suc, ap, drop, length, none, ok, ◌++◌, ◌+◌, ◌-◌, length-append, length-drop,
  zero, subst, sym, ◌∙◌,
}
use srv6_ai_fabric.LossCompute.{SentWindow, closer, skew, SentWindowRing, find_closest, push}
use mathlib.Core.List.{foldl}

-- What the loop has found in the windows `ws`, starting from a pair with the skew `s`.
abbrev Found : ℕ → Option SentWindow × ℕ → List SentWindow → Option SentWindow × ℕ → Type 0
Found target start ws (best, s) =
    (((best, s) ≡ start) × All (λ w. start.1 ≤ skew target w) ws)
    ⊎ ((w : SentWindow) × (i : ℕ) × (best ≡ some w)
        × (get_elem? ws i ≡ some w)
        × (s ≡ skew target w)
        × (s < start.1)
        × All (λ v. s ≤ skew target v) ws)

All-le :
    (target a b : ℕ) (ws : List SentWindow)
    → a ≤ b
    → All (λ w. b ≤ skew target w) ws
    → All (λ w. a ≤ skew target w) ws
All-le target a b [] h all = tt
All-le target a b (w ∷ ws) h all = (omega (arith, all.0), All-le target a b ws h all.1)

All-lt :
    (target a : ℕ) (ws : List SentWindow)
    → All (λ w. a + 1 ≤ skew target w) ws
    → All (λ w. a < skew target w) ws
All-lt target a [] all = tt
All-lt target a (w ∷ ws) all = (omega (arith, all.0), All-lt target a ws all.1)

foldl-closer :
    (target : ℕ) (start : Option SentWindow × ℕ) (ws : List SentWindow)
    → Found target start ws (foldl (closer target) start ws)
foldl-closer target start [] = inl (refl, tt)
foldl-closer target (best, s) (w ∷ ws) = elim (Bool-cases (ltb (skew target w) s)) [
  | inl less ↦
      let step : closer target (best, s) w ≡ (some w, skew target w) = rw less refl in
      subst (Found target (best, s) (w ∷ ws)) (ap (λ p. foldl (closer target) p ws) (sym step))
        (nearer (foldl-closer target (some w, skew target w) ws) (ground arith))
  | inr more ↦
      let step : closer target (best, s) w ≡ (best, s) = rw more refl in
      subst (Found target (best, s) (w ∷ ws)) (ap (λ p. foldl (closer target) p ws) (sym step))
        (farther (foldl-closer target (best, s) ws) (ground arith))
]
  where
    nearer :
        {f : Option SentWindow × ℕ}
        → Found target (some w, skew target w) ws f
        → skew target w < s
        → Found target (best, s) (w ∷ ws) f
    nearer {f = f} (inl (e, all)) h =
        let same : f.1 ≡ skew target w = ap (λ p. p.1) e in
        inr (
          w,
          0,
          ap (λ p. p.0) e,
          refl,
          same,
          omega arith,
          (omega arith, All-le target f.1 (skew target w) ws (omega arith) all),
        )
    nearer (inr (v, i, e, at, e', lt, all)) h =
        inr (v, suc i, e, at, e', omega arith, (omega arith, all))

    farther :
        {f : Option SentWindow × ℕ}
        → Found target (best, s) ws f
        → s ≤ skew target w
        → Found target (best, s) (w ∷ ws) f
    farther (inl (e, all)) h = inl (e, (h, all))
    farther (inr (v, i, e, at, e', lt, all)) h = inr (v, suc i, e, at, e', lt, (omega arith, all))

-- The window that `find_closest` gives is one of the ring, at most `max_skew_ns` from the target,
-- and none of the ring is nearer; it gives none exactly when every window is farther away than that.
pub find_closest_lem :
    (r : SentWindowRing) (target max_skew : ℕ)
    → ((find_closest r target max_skew ≡ none) × All (λ w. max_skew < skew target w) r.ring)
      ⊎ ((w : SentWindow) × (i : ℕ) × (find_closest r target max_skew ≡ some w)
          × (get_elem? r.ring i ≡ some w)
          × (skew target w ≤ max_skew)
          × All (λ v. skew target w ≤ skew target v) r.ring)
unfolding find_closest
find_closest_lem r target max_skew = elim (foldl-closer target (none, max_skew + 1) r.ring) [
  | inl (e, all) ↦ inl (ap (λ p. p.0) e, All-lt target max_skew r.ring all)
  | inr (w, i, e, at, same, near, all) ↦
      inr (w, i, e, at, omega arith, All-le target (skew target w) _ r.ring (omega arith) all)
]

drop-append_of_le :
    (n : ℕ) (xs ys : List SentWindow) → n ≤ length xs → drop n (xs ++ ys) ≡ drop n xs ++ ys
drop-append_of_le zero xs ys h = refl
drop-append_of_le (suc n) [] ys h = elim h [ ]
drop-append_of_le (suc n) (x ∷ xs) ys h = drop-append_of_le n xs ys (omega arith)

-- On a ring that holds at most its capacity, a push keeps that bound, and the windows after it are
-- the newest ones: the pushed one last, before it those that were there, less the oldest when the
-- ring is full.
pub push_lem :
    (r r' : SentWindowRing) (w : SentWindow)
    → 1 ≤ r.capacity
    → length r.ring ≤ r.capacity
    → push r w ≡ ok r'
    → (length r'.ring ≤ r'.capacity)
      × (r'.ring ≡ drop (length r.ring + 1 - r.capacity) r.ring ++ (w ∷ []))
unfolding push
push_lem r r' w one bound h =
    let grown = r.ring ++ (w ∷ []) in
    let sizes = length-append r.ring (w ∷ []) in
    let e : r' ≡ record r { ring = drop (length grown - r.capacity) grown } = ground arith in
    let kept : length r'.ring ≤ r.capacity =
      rw e (omega (arith, length-drop (length grown - r.capacity) grown)) in
    let count : length grown - r.capacity ≡ length r.ring + 1 - r.capacity = omega arith in
    let split = drop-append_of_le (length r.ring + 1 - r.capacity) r.ring (w ∷ []) (omega arith) in
    (
      omega (arith, ap (λ (q : SentWindowRing). q.capacity) e, kept),
      ap (λ (q : SentWindowRing). q.ring) e ∙ ap (λ k. drop k grown) count ∙ split,
    )
