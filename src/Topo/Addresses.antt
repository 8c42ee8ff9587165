-- ===== src/Topo/Addresses.antt =====
-- Addresses and SIDs as texts (topo.py, from `tenant_id` to `usid_outer_dst`). The shape of the fabric
-- comes from a YAML file and is a record of arguments; `ipaddress` is an argument too.
use Prim.Native.Char.{Char, code}
use srv6_ai_fabric.Policy.{known_tenant}
use srv6_ai_fabric.Prelude.{
  String_eq, ◌>>◌, ℕ_eq, ℕ, List, Bool, Option, Result, String, [], get_elem?, guard, if◌then◌else◌,
  leb, ltb, none, ok, require, some, suc, value_error, zero, ◌%◌, ◌&&◌, ◌*◌, ◌+◌, ◌-◌, ◌/◌, ◌∷◌,
}
use srv6_ai_fabric.Prelude.Dict.{Dict, insert, lookup}

pub record Fabric : Type 0 where
  pub num_planes : ℕ
  pub num_spines : ℕ
  pub num_leaves : ℕ
  pub tenants : List String

abbrev pub check_tenant : Fabric → String → Result (Unit {0})
check_tenant f tenant = guard (known_tenant tenant f.tenants) value_error

abbrev pub check_plane : Fabric → ℕ → Result (Unit {0})
check_plane f plane = guard (ltb plane f.num_planes) value_error

abbrev pub check_spine : Fabric → ℕ → Result (Unit {0})
check_spine f spine = guard (ltb spine f.num_spines) value_error

abbrev pub check_host : Fabric → ℕ → Result (Unit {0})
check_host f host_id = guard (ltb host_id f.num_leaves) value_error

-- `s + t` on texts
abbrev pub cat : String → String → String
cat String.[] t = t
cat (String.◌∷◌ c s) t = String.◌∷◌ c (cat s t)

abbrev hex_chars : List Char
hex_chars =
    "0" ∷ "1" ∷ "2" ∷ "3" ∷ "4" ∷ "5" ∷ "6" ∷ "7" ∷ "8" ∷ "9" ∷ "a" ∷ "b" ∷ "c" ∷ "d" ∷ "e" ∷ "f"
    ∷ []

-- The hexadecimal digit of a number below 16.
unfoldable pub hex_char : ℕ → Char
hex_char d = elim (get_elem? hex_chars d) [ none ↦ "0" | some c ↦ c ]

-- The hexadecimal digits of a number before those of `rest`; `fuel` bounds their number.
unfoldable pub hex_on : ℕ → ℕ → String → String
hex_on zero n rest = String.◌∷◌ (hex_char (n % 16)) rest
hex_on (suc fuel) n rest =
    let shown = String.◌∷◌ (hex_char (n % 16)) rest in
    let more = hex_on fuel (n / 16) shown in if ltb n 16 then shown else more

-- `{n:x}` and `{n:02x}`, before `rest`
abbrev pub hex : ℕ → String → String
hex n rest = hex_on n n rest

unfoldable pub hex_02 : ℕ → String → String
hex_02 n rest = if ltb n 16 then String.◌∷◌ "0" (hex n rest) else hex n rest

unfoldable pub green_anycast_addr : Fabric → ℕ → Result String
green_anycast_addr f host_id =
    check_host f host_id >> ok (cat "2001:db8:bbbb:" (hex_02 host_id "::2"))

unfoldable pub yellow_anycast_addr : Fabric → ℕ → Result String
yellow_anycast_addr f host_id =
    check_host f host_id >> ok (cat "2001:db8:cccc:" (hex_02 host_id "::2"))

abbrev pub yellow_loopback_addr : Fabric → ℕ → Result String
yellow_loopback_addr = yellow_anycast_addr

unfoldable pub inner_addr : Fabric → String → ℕ → Result String
inner_addr f tenant host_id =
    check_tenant f tenant
    >> (if String_eq.beq tenant "green"
        then green_anycast_addr f host_id
        else yellow_anycast_addr f host_id)

abbrev pub host_underlay_addr : Fabric → String → ℕ → ℕ → Result String
host_underlay_addr f tenant plane host_id =
    check_tenant f tenant
    >> check_plane f plane
    >> check_host f host_id
    >> inner_addr f tenant host_id

abbrev pub host_probe_peer_addr : Fabric → String → ℕ → ℕ → Result String
host_probe_peer_addr f tenant plane host_id =
    check_tenant f tenant
    >> check_plane f plane
    >> check_host f host_id
    >> inner_addr f tenant host_id

unfoldable pub leaf_gateway_addr : Fabric → String → ℕ → ℕ → Result String
leaf_gateway_addr f tenant plane host_id =
    check_tenant f tenant
    >> check_plane f plane
    >> check_host f host_id
    >> (if String_eq.beq tenant "green"
        then ok (cat "2001:db8:bbbb:" (hex_02 host_id "::1"))
        else ok (cat "2001:db8:cccc:" (hex plane (hex_02 host_id "::1"))))

-- The text of `usid_outer_dst`, `green` or not.
unfoldable pub carrier : Bool → ℕ → ℕ → ℕ → String
carrier green plane spine dst_leaf =
    let tail = if green then ":d000::" else ":e009:d001::" in
    cat "fc00:000" (hex plane (cat ":f00" (hex spine (cat ":e00" (hex dst_leaf tail)))))

unfoldable pub usid_outer_dst : Fabric → String → ℕ → ℕ → ℕ → Result String
usid_outer_dst f tenant plane spine dst_leaf =
    check_tenant f tenant
    >> check_plane f plane
    >> check_spine f spine
    >> check_host f dst_leaf
    >> ok (carrier (String_eq.beq tenant "green") plane spine dst_leaf)

-- The value of a lower-case hexadecimal digit.
unfoldable pub hex_value : ℕ → Option ℕ
hex_value c =
    if leb b'0' c && leb c b'9'
    then some (c - b'0')
    else if leb b'a' c && leb c b'f'
    then some (c - b'a' + 10)
    else none

-- `int(part, 16)` on the lower-case digits that `exploded` has; `acc` is what stands before.
unfoldable pub int_16 : ℕ → String → Option ℕ
int_16 acc String.[] = some acc
int_16 acc (String.◌∷◌ c s) = elim (hex_value (code c)) [
  | none ↦ none
  | some d ↦ int_16 (acc * 16 + d) s
]

-- `tenant` by the third and the last group
unfoldable pub tenant_of_groups : String → String → Option String
tenant_of_groups third last =
    if String_eq.beq third "bbbb" && String_eq.beq last "0002"
    then some "green"
    else if String_eq.beq third "cccc" && String_eq.beq last "0002"
    then some "yellow"
    else none

unfoldable pub host_of_parts : List String → Option (String × ℕ)
host_of_parts (a ∷ b ∷ c ∷ d ∷ e ∷ f ∷ g ∷ h ∷ []) =
    if String_eq.beq a "2001" && String_eq.beq b "0db8"
    then elim (tenant_of_groups c h) [
      | none ↦ none
      | some tenant ↦ elim (int_16 0 d) [
        | none ↦ none
        | some host_id ↦ if leb host_id 15 then some (tenant, host_id) else none
      ]
    ]
    else none
host_of_parts _ = none

-- `exploded` gives the groups of `ipaddress.IPv6Address(addr).exploded.lower()` between the colons, or
-- `none` where the constructor raises.
unfoldable pub host_id_from_inner_addr :
    (String → Option (List String)) → String → Option (String × ℕ)
host_id_from_inner_addr exploded addr = elim (exploded addr) [
  | none ↦ none
  | some parts ↦ host_of_parts parts
]

-- `TENANT_ID`, from the place `i` on
unfoldable pub tenant_ids_from : ℕ → List String → Dict String ℕ → Dict String ℕ
tenant_ids_from i [] ids = ids
tenant_ids_from i (name ∷ names) ids = tenant_ids_from (i + 1) names (insert name (i + 1) ids)

abbrev pub tenant_ids : Fabric → Dict String ℕ
tenant_ids f = tenant_ids_from 0 f.tenants []

-- `TENANT_BY_ID`
unfoldable pub invert : Dict String ℕ → Dict ℕ String → Dict ℕ String
invert [] names = names
invert ((name, i) ∷ ids) names = invert ids (insert i name names)

abbrev pub tenant_id : Fabric → String → Result ℕ
tenant_id f tenant = require (lookup tenant (tenant_ids f)) value_error

abbrev pub tenant_name : Fabric → ℕ → Result String
tenant_name f tid = require (lookup tid (invert (tenant_ids f) [])) value_error
