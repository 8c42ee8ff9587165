-- ===== src/LossWindow/Counters.antt =====
-- The counters of one plane summarise the packets that it got in the window (loss_window.py).
use srv6_ai_fabric.Prelude.{
  List, Option, [], ap, arith, length, max, min, none, refl, some, sym, ℕ, ◌+◌, ◌-◌, ◌∙◌, ◌∷◌, ◌≡◌,
}
use mathlib.Core.List.{foldl}
use srv6_ai_fabric.LossWindow.{PlaneCounters, count_packet, higher, lower, no_packets, wider_gap}

unfoldable pub minimum : List ℕ → Option ℕ
minimum [] = none
minimum (s ∷ ss) = elim (minimum ss) [ none ↦ some s | some m ↦ some (min s m) ]

unfoldable pub maximum : List ℕ → Option ℕ
maximum [] = none
maximum (s ∷ ss) = elim (maximum ss) [ none ↦ some s | some m ↦ some (max s m) ]

-- The largest step from one packet to the next, in order of arrival.
unfoldable pub largest_gap : List ℕ → ℕ
largest_gap [] = 0
largest_gap (s ∷ []) = 0
largest_gap (s ∷ r ∷ ss) = max (r - s) (largest_gap (r ∷ ss))

abbrev pub count_all : PlaneCounters → List ℕ → PlaneCounters
count_all = foldl count_packet

seen-count_all : (c : PlaneCounters) (ss : List ℕ) → (count_all c ss).seen ≡ c.seen + length ss
unfolding count_packet
seen-count_all c [] = omega arith
seen-count_all c (s ∷ ss) = omega (arith, seen-count_all (count_packet c s) ss)

abbrev low_of : Option ℕ → Option ℕ → Option ℕ
low_of none b = b
low_of (some a) none = some a
low_of (some a) (some b) = some (min a b)

abbrev high_of : Option ℕ → Option ℕ → Option ℕ
high_of none b = b
high_of (some a) none = some a
high_of (some a) (some b) = some (max a b)

low_step : (o p : Option ℕ) (s : ℕ) → low_of (lower o s) p ≡ low_of o (low_of (some s) p)
unfolding lower
low_step none none s = refl
low_step none (some p) s = refl
low_step (some o) none s = ground arith
low_step (some o) (some p) s = ground arith

high_step : (o p : Option ℕ) (s : ℕ) → high_of (higher o s) p ≡ high_of o (high_of (some s) p)
unfolding higher
high_step none none s = refl
high_step none (some p) s = refl
high_step (some o) none s = ground arith
high_step (some o) (some p) s = ground arith

minimum-cons : (s : ℕ) (ss : List ℕ) → minimum (s ∷ ss) ≡ low_of (some s) (minimum ss)
unfolding minimum
minimum-cons s ss = ground arith

maximum-cons : (s : ℕ) (ss : List ℕ) → maximum (s ∷ ss) ≡ high_of (some s) (maximum ss)
unfolding maximum
maximum-cons s ss = ground arith

min_seq-count_all :
    (c : PlaneCounters) (ss : List ℕ) → (count_all c ss).min_seq ≡ low_of c.min_seq (minimum ss)
unfolding count_packet minimum
min_seq-count_all c [] = ground arith
min_seq-count_all c (s ∷ ss) =
    min_seq-count_all (count_packet c s) ss
    ∙ low_step c.min_seq (minimum ss) s
    ∙ ap (low_of c.min_seq) (sym (minimum-cons s ss))

max_seq-count_all :
    (c : PlaneCounters) (ss : List ℕ) → (count_all c ss).max_seq ≡ high_of c.max_seq (maximum ss)
unfolding count_packet maximum
max_seq-count_all c [] = ground arith
max_seq-count_all c (s ∷ ss) =
    max_seq-count_all (count_packet c s) ss
    ∙ high_step c.max_seq (maximum ss) s
    ∙ ap (high_of c.max_seq) (sym (maximum-cons s ss))

max_gap-count_all :
    (c : PlaneCounters) (last : ℕ) (ss : List ℕ)
    → c.last_seq ≡ some last
    → (count_all c ss).max_gap ≡ max c.max_gap (largest_gap (last ∷ ss))
unfolding count_packet largest_gap wider_gap
max_gap-count_all c last [] h = omega arith
max_gap-count_all c last (s ∷ ss) h = max_gap-count_all (count_packet c s) s ss refl ∙ ground arith

-- After the packets `ss`, in order of arrival, the counters of a plane hold their number, their
-- least and their greatest sequence number, and the largest forward step between two in a row.
pub count_all_lem :
    (ss : List ℕ)
    → ((count_all no_packets ss).seen ≡ length ss)
      × ((count_all no_packets ss).min_seq ≡ minimum ss)
      × ((count_all no_packets ss).max_seq ≡ maximum ss)
      × ((count_all no_packets ss).max_gap ≡ largest_gap ss)
unfolding count_packet largest_gap wider_gap
count_all_lem ss = (
  seen-count_all no_packets ss ∙ omega arith,
  min_seq-count_all no_packets ss,
  max_seq-count_all no_packets ss,
  gaps ss,
)
  where
    gaps : (ss : List ℕ) → (count_all no_packets ss).max_gap ≡ largest_gap ss
    gaps [] = refl
    gaps (s ∷ ss) = max_gap-count_all (count_packet no_packets s) s ss refl ∙ omega arith
