-- ===== src/Wire/Probes.antt =====
-- PROBE and PROBE_REPLY (srv6_fabric/mrc/probe.py).
use srv6_ai_fabric.Prelude.{
  List, Result, [], guard, leb, length, ok, probe_decode_error, raise, struct_error, take,
  value_error, ℕ, ◌==◌, ◌>>=◌, ◌>>◌, ◌∷◌,
}
use srv6_ai_fabric.Wire.Words.{pack, unpack}

abbrev pub probe_version : ℕ
probe_version = 2

abbrev pub magic_probe : ℕ
magic_probe = 0xa5

abbrev pub magic_probe_reply : ℕ
magic_probe_reply = 0xa6

-- "!BBHBBQQHHH"
abbrev pub probe_fmt : List ℕ
probe_fmt = 1 ∷ 1 ∷ 2 ∷ 1 ∷ 1 ∷ 8 ∷ 8 ∷ 2 ∷ 2 ∷ 2 ∷ []

abbrev pub probe_size : ℕ
probe_size = 28

-- `_check_u8` to `_check_u64`
abbrev pub check_u8 : ℕ → Result (Unit {0})
check_u8 v = guard (leb v 0xff) value_error

abbrev pub check_u16 : ℕ → Result (Unit {0})
check_u16 v = guard (leb v 0xffff) value_error

abbrev pub check_u32 : ℕ → Result (Unit {0})
check_u32 v = guard (leb v 0xffff_ffff) value_error

abbrev pub check_u64 : ℕ → Result (Unit {0})
check_u64 v = guard (leb v 0xffff_ffff_ffff_ffff) value_error

pub record Probe : Type 0 where
  pub req_id : ℕ
  pub plane_id : ℕ
  pub tx_ns : ℕ
  pub tenant_id : ℕ
  pub src_id : ℕ
  pub reply_port : ℕ

pub record ProbeReply : Type 0 where
  pub req_id : ℕ
  pub plane_id : ℕ
  pub tx_ns : ℕ
  pub svc_time_ns : ℕ
  pub tenant_id : ℕ
  pub src_id : ℕ
  pub reply_port : ℕ

-- The constructors run `__post_init__`.
unfoldable pub make_probe : Probe → Result Probe
make_probe p = do
  check_u16 p.req_id
  check_u8 p.plane_id
  check_u64 p.tx_ns
  check_u16 p.tenant_id
  check_u16 p.src_id
  check_u16 p.reply_port
  ok p

unfoldable pub make_probe_reply : ProbeReply → Result ProbeReply
make_probe_reply p = do
  check_u16 p.req_id
  check_u8 p.plane_id
  check_u64 p.tx_ns
  check_u64 p.svc_time_ns
  check_u16 p.tenant_id
  check_u16 p.src_id
  check_u16 p.reply_port
  ok p

unfoldable pub encode_probe : Probe → Result (List ℕ)
encode_probe p = do
  check_u16 p.req_id
  check_u8 p.plane_id
  check_u64 p.tx_ns
  check_u16 p.tenant_id
  check_u16 p.src_id
  check_u16 p.reply_port
  pack probe_fmt (
      magic_probe ∷ probe_version ∷ p.req_id ∷ p.plane_id ∷ 0 ∷ p.tx_ns ∷ 0 ∷ p.tenant_id ∷ p.src_id
      ∷ p.reply_port ∷ [])

unfoldable pub encode_probe_reply : ProbeReply → Result (List ℕ)
encode_probe_reply p = do
  check_u16 p.req_id
  check_u8 p.plane_id
  check_u64 p.tx_ns
  check_u64 p.svc_time_ns
  check_u16 p.tenant_id
  check_u16 p.src_id
  check_u16 p.reply_port
  pack probe_fmt (
      magic_probe_reply ∷ probe_version ∷ p.req_id ∷ p.plane_id ∷ 0 ∷ p.tx_ns ∷ p.svc_time_ns
      ∷ p.tenant_id ∷ p.src_id ∷ p.reply_port ∷ [])

-- The tests of `_decode_probe_packet` on the unpacked fields; the tuple that it returns is a
-- ProbeReply. `struct.unpack` gives as many fields as the format has.
unfoldable pub check_fields : ℕ → List ℕ → Result ProbeReply
check_fields expect_magic
      (magic ∷ version ∷ req_id ∷ plane_id ∷ rsv ∷ tx_ns ∷ svc_time_ns ∷ tenant_id ∷ src_id
        ∷ reply_port ∷ []) =
    do
      guard (magic == expect_magic) probe_decode_error
      guard (version == probe_version) probe_decode_error
      ok (record {
        req_id = req_id;
        plane_id = plane_id;
        tx_ns = tx_ns;
        svc_time_ns = svc_time_ns;
        tenant_id = tenant_id;
        src_id = src_id;
        reply_port = reply_port;
      })
check_fields expect_magic _ = raise struct_error

unfoldable pub decode_probe_packet : List ℕ → ℕ → Result ProbeReply
decode_probe_packet payload expect_magic = do
  guard (leb probe_size (length payload)) probe_decode_error
  fields ← unpack probe_fmt (take probe_size payload)
  check_fields expect_magic fields

unfoldable pub decode_probe : List ℕ → Result Probe
decode_probe payload = do
  f ← decode_probe_packet payload magic_probe
  make_probe (record {
    req_id = f.req_id;
    plane_id = f.plane_id;
    tx_ns = f.tx_ns;
    tenant_id = f.tenant_id;
    src_id = f.src_id;
    reply_port = f.reply_port;
  })

unfoldable pub decode_probe_reply : List ℕ → Result ProbeReply
decode_probe_reply payload = do
  f ← decode_probe_packet payload magic_probe_reply
  make_probe_reply f
