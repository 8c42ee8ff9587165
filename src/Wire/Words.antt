-- ===== src/Wire/Words.antt =====
-- `struct.pack` and `struct.unpack` of big-endian unsigned fields, and the range checks
-- (probe.py, `_PROBE_FMT`, `_LOSS_HDR_FMT`, `_LOSS_REC_FMT`, `_check_u8` to `_check_u64`).
use srv6_ai_fabric.Prelude.{
  ap, All, All-append, List, [], arith, length, length-append, refl, suc, zero, ℕ, ◌%◌, ◌*◌, ◌++◌,
  ◌+◌, ◌/◌, ◌<◌, ◌^◌, ◌∷◌, ◌≡◌, Result, drop, drop-append, guard, leb, ltb, ok, raise, struct_error,
  subst, take, take-append, ◌>>=◌, ◌>>◌, ◌≤◌, >>=-eq-ok, le→leb, ok-injective, All-drop, guard-ok,
  length-drop, ltb→lt, lt→ltb, All-take, leb→le, length-take_of_le,
}
use native.Mathlib.Nat.{pow-suc}

-- The big-endian bytes of a number, `n` of them.
unfoldable pub be : ℕ → ℕ → List ℕ
be zero v = []
be (suc n) v = be n (v / 256) ++ (v % 256 ∷ [])

unfoldable pub of_be : ℕ → List ℕ → ℕ
of_be acc [] = acc
of_be acc (b ∷ bs) = of_be (acc * 256 + b) bs

pub length-be : (n v : ℕ) → length (be n v) ≡ n
unfolding be
length-be zero v = refl
length-be (suc n) v =
    omega (arith, length-append (be n (v / 256)) (v % 256 ∷ []), length-be n (v / 256))

of_be-append : (acc : ℕ) (bs : List ℕ) (b : ℕ) → of_be acc (bs ++ (b ∷ [])) ≡ of_be acc bs * 256 + b
unfolding of_be
of_be-append acc [] b = refl
of_be-append acc (c ∷ bs) b = of_be-append (acc * 256 + c) bs b

-- A number below 256 ^ n is read back from its n bytes.
pub of_be-be : (n v : ℕ) → v < 256 ^ n → of_be 0 (be n v) ≡ v
unfolding be of_be
of_be-be zero v h = omega arith
of_be-be (suc n) v h = omega (
  arith,
  pow-suc 256 n,
  of_be-append 0 (be n (v / 256)) (v % 256),
  of_be-be n (v / 256) (omega (arith, pow-suc 256 n)),
)

pub All-be : (n v : ℕ) → All (λ b. b < 256) (be n v)
unfolding be
All-be zero v = tt
All-be (suc n) v =
    All-append (λ b. b < 256) (be n (v / 256)) _ (All-be n (v / 256)) (omega arith, tt)

mul_mono : (a b c : ℕ) → a ≤ b → a * c ≤ b * c
mul_mono a b c h = grind arith

-- n bytes are less than 256 ^ n.
pub of_be-lt :
    (acc : ℕ) (bs : List ℕ) → All (λ b. b < 256) bs → of_be acc bs < (acc + 1) * 256 ^ length bs
unfolding of_be
of_be-lt acc [] h = omega arith
of_be-lt acc (b ∷ bs) (small, h) = rw (pow-suc 256 (length bs)) (
    omega (
      arith,
      of_be-lt (acc * 256 + b) bs h,
      mul_mono (acc * 256 + b + 1) (acc * 256 + 256) (256 ^ length bs) (omega arith),
    ))

-- `struct.pack(fmt, *values)`, the format being the widths of its fields in bytes.
unfoldable pub pack : List ℕ → List ℕ → Result (List ℕ)
pack [] [] = ok []
pack [] (v ∷ vs) = raise struct_error
pack (w ∷ ws) [] = raise struct_error
pack (w ∷ ws) (v ∷ vs) = do
  guard (ltb v (256 ^ w)) struct_error
  rest ← pack ws vs
  ok (be w v ++ rest)

-- `struct.unpack(fmt, payload)`
unfoldable pub unpack : List ℕ → List ℕ → Result (List ℕ)
unpack [] [] = ok []
unpack [] (b ∷ bs) = raise struct_error
unpack (w ∷ ws) bs = do
  guard (leb w (length bs)) struct_error
  rest ← unpack ws (drop w bs)
  ok (of_be 0 (take w bs) ∷ rest)

-- `struct.calcsize(fmt)`
unfoldable pub calcsize : List ℕ → ℕ
calcsize [] = 0
calcsize (w ∷ ws) = w + calcsize ws

take-be : (w v : ℕ) (bs : List ℕ) → take w (be w v ++ bs) ≡ be w v
take-be w v bs =
    subst (λ n. take n (be w v ++ bs) ≡ be w v) (length-be w v) (take-append (be w v) bs)

drop-be : (w v : ℕ) (bs : List ℕ) → drop w (be w v ++ bs) ≡ bs
drop-be w v bs = subst (λ n. drop n (be w v ++ bs) ≡ bs) (length-be w v) (drop-append (be w v) bs)

pub length-pack : (ws vs bs : List ℕ) → pack ws vs ≡ ok bs → length bs ≡ calcsize ws
unfolding pack calcsize
length-pack [] [] bs h = ground arith
length-pack [] (v ∷ vs) bs h = cc
length-pack (w ∷ ws) [] bs h = cc
length-pack (w ∷ ws) (v ∷ vs) bs h =
    let (_, _, r) = >>=-eq-ok (guard (ltb v (256 ^ w)) struct_error) _ h in
    let (rest, e, q) = >>=-eq-ok (pack ws vs) _ r in
    subst (λ bs. length bs ≡ w + calcsize ws) (ok-injective _ _ q)
      (omega (arith, length-append (be w v) rest, length-be w v, length-pack ws vs rest e))

-- What is packed is unpacked.
pub unpack-pack : (ws vs bs : List ℕ) → pack ws vs ≡ ok bs → unpack ws bs ≡ ok vs
unfolding pack unpack
unpack-pack [] [] bs h = ground arith
unpack-pack [] (v ∷ vs) bs h = cc
unpack-pack (w ∷ ws) [] bs h = cc
unpack-pack (w ∷ ws) (v ∷ vs) bs h =
    let (_, fits, r) = >>=-eq-ok (guard (ltb v (256 ^ w)) struct_error) _ h in
    let (rest, e, q) = >>=-eq-ok (pack ws vs) _ r in
    subst (λ bs. unpack (w ∷ ws) bs ≡ ok (v ∷ vs)) (ok-injective _ _ q)
      (rw (
        le→leb w (length (be w v ++ rest))
            (omega (arith, length-append (be w v) rest, length-be w v)),
        drop-be w v rest,
        unpack-pack ws vs rest e,
        take-be w v rest,
        of_be-be w v (ltb→lt v (256 ^ w) (guard-ok _ _ fits)),
      ))

-- Values that fit their fields are packed.
abbrev pub Fits : List ℕ → List ℕ → Type 0
Fits [] [] = Unit
Fits [] (v ∷ vs) = ⊥
Fits (w ∷ ws) [] = ⊥
Fits (w ∷ ws) (v ∷ vs) = (v < 256 ^ w) × Fits ws vs

pub pack_total : (ws vs : List ℕ) → Fits ws vs → (bs : List ℕ) × (pack ws vs ≡ ok bs)
unfolding pack
pack_total [] [] h = ([], refl)
pack_total [] (v ∷ vs) h = absurd h
pack_total (w ∷ ws) [] h = absurd h
pack_total (w ∷ ws) (v ∷ vs) (fits, h) =
    let (rest, e) = pack_total ws vs h in (be w v ++ rest, rw (lt→ltb v (256 ^ w) fits, e))

field-lt :
    (w : ℕ) (bs : List ℕ) → All (λ b. b < 256) bs → w ≤ length bs → of_be 0 (take w bs) < 256 ^ w
field-lt w bs a h =
    subst (λ n. of_be 0 (take w bs) < 256 ^ n) (length-take_of_le w bs h)
      (omega (arith, of_be-lt 0 (take w bs) (All-take _ w bs a)))

-- What is unpacked from bytes fits the fields.
pub unpack-Fits : (ws vs bs : List ℕ) → All (λ b. b < 256) bs → unpack ws bs ≡ ok vs → Fits ws vs
unfolding unpack
unpack-Fits [] vs [] a h = subst (Fits []) (ok-injective _ _ h) tt
unpack-Fits [] vs (b ∷ bs) a h = cc
unpack-Fits (w ∷ ws) vs bs a h =
    let (_, enough, r) = >>=-eq-ok (guard (leb w (length bs)) struct_error) _ h in
    let (rest, e, q) = >>=-eq-ok (unpack ws (drop w bs)) _ r in
    subst (Fits (w ∷ ws)) (ok-injective _ _ q) (
      field-lt w bs a (leb→le w (length bs) (guard-ok _ _ enough)),
      unpack-Fits ws rest (drop w bs) (All-drop _ w bs a) e,
    )

-- As many bytes as the format has are unpacked.
pub unpack_total :
    (ws bs : List ℕ) → length bs ≡ calcsize ws → (vs : List ℕ) × (unpack ws bs ≡ ok vs)
unfolding unpack calcsize
unpack_total [] [] h = ([], refl)
unpack_total [] (b ∷ bs) h = absurd (omega arith)
unpack_total (w ∷ ws) bs h =
    let (vs, e) = unpack_total ws (drop w bs) (omega (arith, length-drop w bs)) in
    (of_be 0 (take w bs) ∷ vs, rw (le→leb w (length bs) (omega arith), e))

-- One value for each field.
pub length-unpack : (ws vs bs : List ℕ) → unpack ws bs ≡ ok vs → length vs ≡ length ws
unfolding unpack
length-unpack [] vs [] h = subst (λ l. length l ≡ 0) (ok-injective _ _ h) refl
length-unpack [] vs (b ∷ bs) h = cc
length-unpack (w ∷ ws) vs bs h =
    let (_, _, r) = >>=-eq-ok (guard (leb w (length bs)) struct_error) _ h in
    let (rest, e, q) = >>=-eq-ok (unpack ws (drop w bs)) _ r in
    subst (λ l. length l ≡ suc (length ws)) (ok-injective _ _ q)
      (ap suc (length-unpack ws rest (drop w bs) e))
