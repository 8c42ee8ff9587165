-- ===== src/Agent/SentWindows.antt =====
-- What the sender counts in a window (agent.py, `record_sent` and `_rotate_window`).
use srv6_ai_fabric.Prelude.{
  ap, sym, subst, ==_iff, drop, ◌++◌, true, ◌%◌, length-replicate, get_elem?_of_lt-length,
  get_elem?-replicate, ◌≡◌, ◌∷◌, ◌+◌, ◌==◌, List, Option-cases, arith, get_elem?, get_elem?-set_ne,
  get_elem?-set_self, inl, inr, some, ℕ, [], Bool-cases, if◌then◌else◌, lt-length_of_get_elem?,
  false, length, refl, suc, zero, length-set, ok, replicate, ◌<◌, ◌∙◌, ◌⊎◌, ap, drop,
  length-replicate, true, ◌%◌, ◌++◌, ◌-◌, ltb, ltb→lt,
}
use mathlib.Core.Option.{some-injective}
use srv6_ai_fabric.LossCompute.{SentWindow, SentWindowRing, push}
use srv6_ai_fabric.Agent.{SenderAgent, record_sent, any_positive, rotate_window}

-- How many of the packets went out on the plane.
unfoldable pub count : ℕ → List ℕ → ℕ
count p [] = 0
count p (q ∷ qs) = let rest = count p qs in if q == p then 1 + rest else rest

module _ {F : Type 0} where
  unfoldable pub record_all : SenderAgent F → List ℕ → SenderAgent F
  record_all a [] = a
  record_all a (p ∷ ps) = record_all (record_sent a p) ps

  record_sent-count :
      (a : SenderAgent F) (q p m : ℕ)
      → get_elem? a.current_window_sent p ≡ some m
      → get_elem? (record_sent a q).current_window_sent p ≡ some (if q == p then 1 + m else m)
  unfolding record_sent
  record_sent-count a q p m h = elim (Option-cases (get_elem? a.current_window_sent q)) [
    | inl outside ↦ ground arith
    | inr (k, inside) ↦ elim (Bool-cases (q == p)) [
      | inl same ↦ ground (
        arith,
        get_elem?-set_self a.current_window_sent q (k + 1)
            (lt-length_of_get_elem? a.current_window_sent q inside),
      )
      | inr away ↦ ground (arith, get_elem?-set_ne a.current_window_sent q p (k + 1))
    ]
  ]

  record_all-count :
      (a : SenderAgent F) (ps : List ℕ) (p m : ℕ)
      → get_elem? a.current_window_sent p ≡ some m
      → get_elem? (record_all a ps).current_window_sent p ≡ some (m + count p ps)
  unfolding record_all count
  record_all-count a [] p m h = ground arith
  record_all-count a (q ∷ ps) p m h = elim (Bool-cases (q == p)) [
    | inl same ↦
        ground (arith, record_all-count (record_sent a q) ps p (1 + m), record_sent-count a q p m h)
    | inr away ↦
        ground (arith, record_all-count (record_sent a q) ps p m, record_sent-count a q p m h)
  ]

  -- What recording packets keeps of the agent.
  record Keeps (a b : SenderAgent F) : Type 0 where
    same_ring : b.sent_ring ≡ a.sent_ring
    same_start : b.current_window_start_ns ≡ a.current_window_start_ns
    same_planes : b.num_planes ≡ a.num_planes
    same_length : length b.current_window_sent ≡ length a.current_window_sent

  record_sent-Keeps : (a : SenderAgent F) (q : ℕ) → Keeps a (record_sent a q)
  unfolding record_sent
  record_sent-Keeps a q = elim (Option-cases (get_elem? a.current_window_sent q)) [
    | inl outside ↦
        rw (outside, record_sent)
          (record { same_ring = refl; same_start = refl; same_planes = refl; same_length = refl })
    | inr (k, inside) ↦
        rw (inside, record_sent)
          (record {
            same_ring = refl;
            same_start = refl;
            same_planes = refl;
            same_length = length-set a.current_window_sent q (k + 1);
          })
  ]

  record_all-Keeps : (a : SenderAgent F) (ps : List ℕ) → Keeps a (record_all a ps)
  unfolding record_all
  record_all-Keeps a [] = record {
    same_ring = refl;
    same_start = refl;
    same_planes = refl;
    same_length = refl;
  }
  record_all-Keeps a (q ∷ ps) =
      let one = record_sent-Keeps a q in
      let more = record_all-Keeps (record_sent a q) ps in
      record {
        same_ring = more.same_ring ∙ one.same_ring;
        same_start = more.same_start ∙ one.same_start;
        same_planes = more.same_planes ∙ one.same_planes;
        same_length = more.same_length ∙ one.same_length;
      }

any_positive-zero :
    (ns : List ℕ) (p m : ℕ) → any_positive ns ≡ false → get_elem? ns p ≡ some m → m ≡ 0
unfolding any_positive
any_positive-zero [] p m h at = cc
any_positive-zero (n ∷ ns) zero m h at = ground arith
any_positive-zero (n ∷ ns) (suc p) m h at = ground (arith, any_positive-zero ns p m)

any_positive-some :
    (ns : List ℕ)
    → any_positive ns ≡ true
    → (p : ℕ) × (m : ℕ) × (p < length ns) × (get_elem? ns p ≡ some m) × (0 < m)
unfolding any_positive
any_positive-some [] h = cc
any_positive-some (n ∷ ns) h = elim (Bool-cases (ltb 0 n)) [
  | inl here ↦ (0, n, omega arith, refl, ltb→lt 0 n here)
  | inr not_here ↦
      let (p, m, inside, at, positive) = any_positive-some ns (ground arith) in
      (suc p, m, omega arith, at, positive)
]

module _ {F : Type 0} where
  -- A window in which packets went out on the planes `ps`, in any order, is closed without an error
  -- and the next one is empty. If a packet went out on a plane of the fabric, the ring gets a window
  -- with the number of packets of each plane and the time from the last rotation to this one, and
  -- only then; if none did, the ring stays as it was.
  pub rotate_window-record_all :
      (a : SenderAgent F) (ps : List ℕ) (now : ℕ)
      → a.current_window_sent ≡ replicate a.num_planes 0
      → a.sent_ring.num_planes ≡ a.num_planes
      → (a' : SenderAgent F) × (rotate_window (record_all a ps) now ≡ ok a')
        × (a'.current_window_sent ≡ replicate a.num_planes 0)
        × (((a'.sent_ring ≡ a.sent_ring) × ((p : ℕ) → p < a.num_planes → count p ps ≡ 0))
            ⊎ ((w : SentWindow) × (q : ℕ) × (q < a.num_planes)
                × (0 < count q ps)
                × (push a.sent_ring w ≡ ok a'.sent_ring)
                × (w.start_ns ≡ a.current_window_start_ns)
                × (w.end_ns ≡ now)
                × ((p : ℕ) → p < a.num_planes → get_elem? w.sent p ≡ some (count p ps))))
  unfolding rotate_window push
  rotate_window-record_all a ps now fresh sized =
      let b = record_all a ps in
      let k = record_all-Keeps a ps in
      let zero_at : (p : ℕ) → p < a.num_planes → get_elem? a.current_window_sent p ≡ some 0 = λ p h.
        let (v, at) =
          get_elem?_of_lt-length (replicate a.num_planes 0) p
            (omega (arith, length-replicate {A = ℕ} a.num_planes 0)) in
        ap (λ l. get_elem? l p) fresh ∙ at ∙ ap some (get_elem?-replicate a.num_planes 0 p at) in
      let counts : (p : ℕ)
          → p < a.num_planes
          → get_elem? b.current_window_sent p ≡ some (count p ps) =
        λ p h. record_all-count a ps p 0 (zero_at p h) ∙ ap some (omega arith) in
      elim (Bool-cases (any_positive b.current_window_sent)) [
        | inl busy ↦
            let w : SentWindow = record {
              start_ns = b.current_window_start_ns;
              end_ns = now;
              sent = b.current_window_sent;
              window_id = b.current_window_id;
            } in
            let fits : (length b.current_window_sent == b.sent_ring.num_planes) ≡ true =
              (==_iff _ _).1 (
                k.same_length
                ∙ ap length fresh
                ∙ length-replicate {A = ℕ} a.num_planes 0
                ∙ sym sized
                ∙ ap (λ (r : SentWindowRing). r.num_planes) (sym k.same_ring)) in
            let (q, m, inside, at, some_sent) = any_positive-some b.current_window_sent busy in
            let in_fabric : q < a.num_planes = omega (
              arith,
              inside,
              k.same_length,
              ap length fresh,
              length-replicate {A = ℕ} a.num_planes 0,
            ) in
            let positive : 0 < count q ps =
              subst (λ n. 0 < n) (some-injective m (count q ps) (sym at ∙ counts q in_fabric))
                some_sent in
            let grown = b.sent_ring.ring ++ (w ∷ []) in
            let ring = record b.sent_ring {
              ring = drop (length grown - b.sent_ring.capacity) grown;
            } in
            (
              record b {
                current_window_sent = replicate b.num_planes 0;
                current_window_start_ns = now;
                current_window_id = (b.current_window_id + 1) % 0x10000;
                sent_ring = ring;
              },
              rw (busy, fits) refl,
              ap (λ n. replicate n 0) k.same_planes,
              inr (
                w,
                q,
                in_fabric,
                positive,
                subst (λ r. push r w ≡ ok ring) k.same_ring (rw fits refl),
                k.same_start,
                refl,
                counts,
              ),
            )
        | inr silent ↦ (
          record b {
            current_window_sent = replicate b.num_planes 0;
            current_window_start_ns = now;
            current_window_id = (b.current_window_id + 1) % 0x10000;
          },
          rw silent refl,
          ap (λ n. replicate n 0) k.same_planes,
          inl (k.same_ring, λ p h. any_positive-zero b.current_window_sent p _ silent (counts p h)),
        )
      ]
