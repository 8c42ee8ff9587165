-- ===== src/Runner/Sends.antt =====
-- Data packets are read back, and the send loop counts its turns (runner.py, `run_sender`).
use srv6_ai_fabric.Prelude.{
  ℕ, List, ℕ_eq, length-append, Bool, [], arith, false, get_elem?_of_lt-length, length, ltb, lt→ltb,
  ok, refl, some, subst, take, take-append, ◌++◌, ◌+◌, ◌<◌, ◌^◌, ◌∷◌, ◌≡◌, ◌≤◌, true,
}
use srv6_ai_fabric.Wire.Words.{pack_total, length-pack, unpack-pack, calcsize}
use srv6_ai_fabric.Reorder.{total}
use srv6_ai_fabric.Reorder.Counts.{total-bump}
use srv6_ai_fabric.Runner.{
  SendLoop, SendSetup, build_packet, encode_payload, pad, parse_payload, payload_hdr, send_one,
  SentFrame, after_send, send_all, send_start, frame_of,
}

take_append_of : {A : Type 0} (n : ℕ) (xs ys : List A) → length xs ≡ n → take n (xs ++ ys) ≡ xs
take_append_of n xs ys h = subst (λ k. take k (xs ++ ys) ≡ xs) h (take-append xs ys)

-- A data packet's payload is made for each sequence number of 64 bits and each plane of 8 bits, and
-- read back as the two of them.
pub parse_payload-encode_payload :
    (seq plane : ℕ)
    → seq < 2 ^ 64
    → plane < 256
    → (raw : List ℕ) × (encode_payload seq plane ≡ ok raw)
      × (parse_payload raw ≡ ok (some (seq, plane)))
unfolding encode_payload parse_payload calcsize
parse_payload-encode_payload seq plane h k =
    let (header, e) = pack_total payload_hdr (seq ∷ plane ∷ []) (h, (k, tt)) in
    let nine : length header ≡ 9 = length-pack payload_hdr (seq ∷ plane ∷ []) header e in
    let whole : ltb (length (header ++ pad)) 9 ≡ false = ground (arith, length-append header pad) in
    (
      header ++ pad,
      rw e refl,
      rw
          (
            whole,
            take_append_of 9 header pad nine,
            unpack-pack payload_hdr (seq ∷ plane ∷ []) header e,
          )
          refl,
    )

-- What the counters of the loop say after `n` turns.
abbrev pub IsSent : SendLoop → ℕ → Type 0
IsSent s n =
    (s.seq ≡ n)
    × (s.sent + s.errors ≡ n)
    × (total s.per_plane_sent ≡ s.sent)
    × (length s.wire ≡ s.sent)

-- The policy gives a plane of the fabric for each packet, and each plane has its addresses.
abbrev pub IsReady : SendSetup → Type 0
IsReady setup =
    ((seq : ℕ) → (plane : ℕ) × (setup.choose seq ≡ ok plane) × (plane < setup.num_planes))
    × (length setup.plane_meta ≡ setup.num_planes)
    × (setup.num_planes ≤ 256)

after_send-IsSent :
    (s : SendLoop) (n plane : ℕ) (frame : SentFrame) (taken : Bool)
    → IsSent s n
    → IsSent (after_send s plane frame taken) (n + 1)
unfolding after_send
after_send-IsSent s n plane frame true h = (
  omega (arith, h.0),
  omega (arith, h.1),
  omega (arith, h.2, total-bump plane s.per_plane_sent),
  omega (arith, h.3, length-append s.wire (frame ∷ [])),
)
after_send-IsSent s n plane frame false h = (omega (arith, h.0), omega (arith, h.1), h.2, h.3)

send_one_total :
    (setup : SendSetup) (s : SendLoop) (taken : Bool)
    → IsReady setup
    → s.seq < 2 ^ 64
    → (plane : ℕ) × (frame : SentFrame) × (send_one setup s taken
        ≡ ok (after_send s plane frame taken))
unfolding send_one build_packet
send_one_total setup s taken ready small =
    let (plane, chosen, inside) = ready.0 s.seq in
    let (meta, found) = get_elem?_of_lt-length setup.plane_meta plane (omega (arith, ready.1)) in
    let (raw, encoded, _) =
      parse_payload-encode_payload s.seq plane small (omega (arith, ready.2)) in
    (
      plane,
      frame_of meta setup.src_inner setup.dst_inner raw,
      rw (chosen, lt→ltb _ _ inside, found, encoded) refl,
    )

send_all_from :
    (turns : List Bool) (setup : SendSetup) (s : SendLoop) (n : ℕ)
    → IsReady setup
    → n + length turns ≤ 2 ^ 64
    → IsSent s n
    → (final : SendLoop) × (send_all setup s turns ≡ ok final) × IsSent final (n + length turns)
unfolding send_all
send_all_from [] setup s n ready small h =
    (s, refl, (omega (arith, h.0), omega (arith, h.1), h.2, h.3))
send_all_from (taken ∷ turns) setup s n ready small h =
    let (plane, frame, e) = send_one_total setup s taken ready (omega (arith, h.0)) in
    let (final, e', (q, c, t, w)) =
      send_all_from turns setup (after_send s plane frame taken) (n + 1) ready (omega arith)
        (after_send-IsSent s n plane frame taken h) in
    (final, rw e e', (omega (arith, q), omega (arith, c), t, w))

-- With a policy that gives planes of the fabric, the send loop ends in order after any turns; every turn
-- has taken a sequence number and is counted as sent or as an error, and the counts of the planes add up
-- to the frames on the wire.
pub send_all-IsSent :
    (setup : SendSetup) (turns : List Bool)
    → IsReady setup
    → length turns ≤ 2 ^ 64
    → (final : SendLoop) × (send_all setup send_start turns ≡ ok final)
      × IsSent final (length turns)
unfolding total
send_all-IsSent setup turns ready small =
    let (final, e, (q, c, t, w)) =
      send_all_from turns setup send_start 0 ready (omega arith) (refl, refl, refl, refl) in
    (final, e, (omega (arith, q), omega (arith, c), t, w))
