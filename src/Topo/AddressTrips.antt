-- ===== src/Topo/AddressTrips.antt =====
-- Addresses read back (topo.py, `host_id_from_inner_addr`), and carriers told apart.
use mathlib.Core.Option.{some-injective}
use native.Mathlib.Nat.{mod-lt, mod-eq_of_lt}
use Prim.Native.Char.{Char, code}
use srv6_ai_fabric.Prelude.{
  String_eq, List, Option, String, [], some, ℕ, ◌%◌, ◌/◌, ◌<◌, ◌∷◌, ◌≡◌, Bool-cases, arith, inl,
  inr, ltb, ltb→lt, lt→ltb, refl, suc, zero, ap, if◌then◌else◌, ok, true, Bool, false, leb, none,
  ◌*◌, ◌+◌, ◌∙◌, ◌≤◌, sym,
}
use srv6_ai_fabric.Policy.{known_tenant}
use srv6_ai_fabric.Topo.Addresses.{
  hex_02, hex_char, hex_value, hex_on, int_16, Fabric, green_anycast_addr, inner_addr,
  yellow_anycast_addr, host_id_from_inner_addr, host_of_parts, tenant_of_groups, cat, carrier, hex,
}

abbrev pub group_of : Bool → String
group_of green = if green then "bbbb" else "cccc"

-- What `exploded` documents for an address of this shape, with two lower-case hexadecimal digits in the
-- fourth group: leading zeros are written out, and so are the groups that `::` stands for.
abbrev pub Explodes : (String → Option (List String)) → Type 0
Explodes exploded =
    (green : Bool) (a b : ℕ)
    → a < 16
    → b < 16
    → exploded (
        cat (if green then "2001:db8:bbbb:" else "2001:db8:cccc:")
          (String.◌∷◌ (hex_char a) (String.◌∷◌ (hex_char b) "::2")))
      ≡ some (
          "2001"
          ∷ "0db8"
          ∷ group_of green
          ∷ String.◌∷◌ "0" (String.◌∷◌ "0" (String.◌∷◌ (hex_char a) (String.◌∷◌ (hex_char b) "")))
          ∷ "0000"
          ∷ "0000"
          ∷ "0000"
          ∷ "0002"
          ∷ [])

hex_value-hex_char : (d : ℕ) → d < 16 → hex_value (code (hex_char d)) ≡ some d
unfolding hex_value hex_char
hex_value-hex_char zero h = refl
hex_value-hex_char (suc zero) h = refl
hex_value-hex_char (suc (suc zero)) h = refl
hex_value-hex_char (suc (suc (suc zero))) h = refl
hex_value-hex_char (suc (suc (suc (suc zero)))) h = refl
hex_value-hex_char (suc (suc (suc (suc (suc zero))))) h = refl
hex_value-hex_char (suc (suc (suc (suc (suc (suc zero)))))) h = refl
hex_value-hex_char (suc (suc (suc (suc (suc (suc (suc zero))))))) h = refl
hex_value-hex_char (suc (suc (suc (suc (suc (suc (suc (suc zero)))))))) h = refl
hex_value-hex_char (suc (suc (suc (suc (suc (suc (suc (suc (suc zero))))))))) h = refl
hex_value-hex_char (suc (suc (suc (suc (suc (suc (suc (suc (suc (suc zero)))))))))) h = refl
hex_value-hex_char (suc (suc (suc (suc (suc (suc (suc (suc (suc (suc (suc zero))))))))))) h = refl
hex_value-hex_char (suc (suc (suc (suc (suc (suc (suc (suc (suc (suc (suc (suc zero)))))))))))) h =
    refl
hex_value-hex_char
      (suc (suc (suc (suc (suc (suc (suc (suc (suc (suc (suc (suc (suc zero))))))))))))) h =
    refl
hex_value-hex_char
      (suc (suc (suc (suc (suc (suc (suc (suc (suc (suc (suc (suc (suc (suc zero)))))))))))))) h =
    refl
hex_value-hex_char
      (suc (suc (suc (suc (suc (suc (suc (suc (suc (suc (suc (suc (suc (suc (suc zero)))))))))))))))
      h =
    refl
hex_value-hex_char
      (suc
        (suc (suc (suc (suc (suc (suc (suc (suc (suc (suc (suc (suc (suc (suc (suc d))))))))))))))))
      h =
    absurd (omega arith)

hex_on_one :
    (fuel n : ℕ) (rest : String) → n < 16 → hex_on fuel n rest ≡ String.◌∷◌ (hex_char n) rest
unfolding hex_on
hex_on_one zero n rest h = rw (mod-eq_of_lt h) refl
hex_on_one (suc fuel) n rest h = rw (mod-eq_of_lt h, lt→ltb n 16 h) refl

hex_char_zero : hex_char 0 ≡ "0"
unfolding hex_char
hex_char_zero = refl

hex_02_digits :
    (n : ℕ) (rest : String)
    → n < 256
    → hex_02 n rest ≡ String.◌∷◌ (hex_char (n / 16)) (String.◌∷◌ (hex_char (n % 16)) rest)
unfolding hex_02 hex_on
hex_02_digits zero rest h = rw hex_char_zero refl
hex_02_digits (suc n) rest h = elim (Bool-cases (ltb (suc n) 16)) [
  | inl one ↦
      let e : suc n / 16 ≡ 0 = (let small = ltb→lt (suc n) 16 one in omega arith) in
      rw (one, e, hex_char_zero) refl
  | inr two ↦
      rw two (hex_on_one n (suc n / 16) (String.◌∷◌ (hex_char (suc n % 16)) rest) (omega arith))
]

int_16_step :
    (acc : ℕ) {d : ℕ} (c : Char) (s : String)
    → hex_value (code c) ≡ some d
    → int_16 acc (String.◌∷◌ c s) ≡ int_16 (acc * 16 + d) s
unfolding int_16
int_16_step acc c s h = rw (int_16, h) refl

int_16_nil : (acc : ℕ) → int_16 acc "" ≡ some acc
unfolding int_16
int_16_nil acc = refl

zero_digit : hex_value (code "0") ≡ some 0
unfolding hex_value
zero_digit = refl

int_16-digits :
    (n : ℕ)
    → n < 256
    → int_16 0 (
        String.◌∷◌ "0"
          (String.◌∷◌ "0" (String.◌∷◌ (hex_char (n / 16)) (String.◌∷◌ (hex_char (n % 16)) ""))))
      ≡ some n
int_16-digits n h =
    int_16_step 0 "0" _ zero_digit
    ∙ int_16_step 0 "0" _ zero_digit
    ∙ int_16_step 0 _ _ (hex_value-hex_char (n / 16) (omega arith))
    ∙ int_16_step _ _ _ (hex_value-hex_char (n % 16) (mod-lt n (omega arith)))
    ∙ int_16_nil _
    ∙ ap some (omega arith)

-- The text of an inner address, its digits apart.
inner_addr-text :
    (f : Fabric) (tenant : String) (host_id : ℕ)
    → known_tenant tenant f.tenants ≡ true
    → host_id < f.num_leaves
    → host_id < 256
    → inner_addr f tenant host_id
      ≡ ok (
          cat
            (if String_eq.beq tenant "green" then "2001:db8:bbbb:" else "2001:db8:cccc:")
            (String.◌∷◌ (hex_char (host_id / 16)) (String.◌∷◌ (hex_char (host_id % 16)) "::2")))
unfolding inner_addr green_anycast_addr yellow_anycast_addr
inner_addr-text f tenant host_id known inside small =
    elim (Bool-cases (String_eq.beq tenant "green")) [
      | inl green ↦ rw (known, green, lt→ltb _ _ inside, hex_02_digits host_id "::2" small) refl
      | inr yellow ↦ rw (known, yellow, lt→ltb _ _ inside, hex_02_digits host_id "::2" small) refl
    ]

tenant_of_groups-group :
    (green : Bool)
    → tenant_of_groups (group_of green) "0002" ≡ some (if green then "green" else "yellow")
unfolding tenant_of_groups
tenant_of_groups-group true = refl
tenant_of_groups-group false = refl

-- An inner address of a host, in a fabric of at most 256 leaves and as `ipaddress` writes it out, is
-- read back as its tenant (any tenant but green as yellow) and host if the host is one of the first 16,
-- and not at all if it is a later one.
pub host_id_from_inner_addr-inner_addr :
    (f : Fabric) (exploded : String → Option (List String)) (tenant : String) (host_id : ℕ)
    → Explodes exploded
    → known_tenant tenant f.tenants ≡ true
    → host_id < f.num_leaves
    → f.num_leaves ≤ 256
    → (addr : String) × (inner_addr f tenant host_id ≡ ok addr)
      × (host_id_from_inner_addr exploded addr ≡ (
          if leb host_id 15
          then some (if String_eq.beq tenant "green" then "green" else "yellow", host_id)
          else none))
unfolding host_id_from_inner_addr host_of_parts
host_id_from_inner_addr-inner_addr f exploded tenant host_id law known inside small =
    let green = String_eq.beq tenant "green" in
    (
      _,
      inner_addr-text f tenant host_id known inside (omega arith),
      rw
          (
            host_id_from_inner_addr,
            law green (host_id / 16) (host_id % 16) (omega arith) (mod-lt host_id (omega arith)),
            host_of_parts,
            tenant_of_groups-group green,
            int_16-digits host_id (omega arith),
          )
          refl,
    )

hex-one : (n : ℕ) (rest : String) → n < 16 → hex n rest ≡ String.◌∷◌ (hex_char n) rest
hex-one n rest h = hex_on_one n n rest h

hex_char-injective : (a b : ℕ) → a < 16 → b < 16 → hex_char a ≡ hex_char b → a ≡ b
hex_char-injective a b ha hb e =
    some-injective _ _
      (sym (hex_value-hex_char a ha) ∙ ap (λ c. hex_value (code c)) e ∙ hex_value-hex_char b hb)

-- The character at a place, `0` behind the end.
abbrev nth : ℕ → String → Char
nth n String.[] = "0"
nth zero (String.◌∷◌ c s) = c
nth (suc n) (String.◌∷◌ c s) = nth n s

carrier-digits :
    (green : Bool) (plane spine leaf : ℕ)
    → plane < 16
    → spine < 16
    → leaf < 16
    → carrier green plane spine leaf
      ≡ cat "fc00:000" (
          String.◌∷◌ (hex_char plane) (
            cat ":f00" (
              String.◌∷◌ (hex_char spine) (
                cat ":e00"
                  (String.◌∷◌ (hex_char leaf) (if green then ":d000::" else ":e009:d001::"))))))
unfolding carrier
carrier-digits green plane spine leaf hp hs hl =
    rw (hex-one plane _ hp, hex-one spine _ hs, hex-one leaf _ hl) refl

-- The carriers of different planes, spines or leaves are different, for ids of one hexadecimal digit.
pub carrier-injective :
    (green green' : Bool) (plane plane' spine spine' leaf leaf' : ℕ)
    → (plane < 16) × (spine < 16) × (leaf < 16)
    → (plane' < 16) × (spine' < 16) × (leaf' < 16)
    → carrier green plane spine leaf ≡ carrier green' plane' spine' leaf'
    → (plane ≡ plane') × (spine ≡ spine') × (leaf ≡ leaf')
carrier-injective green green' p p' s s' l l' (hp, hs, hl) (hp', hs', hl') e =
    let same =
      sym (carrier-digits green p s l hp hs hl) ∙ e ∙ carrier-digits green' p' s' l' hp' hs' hl' in
    (
      hex_char-injective p p' hp hp' (ap (nth 8) same),
      hex_char-injective s s' hs hs' (ap (nth 13) same),
      hex_char-injective l l' hl hl' (ap (nth 18) same),
    )
