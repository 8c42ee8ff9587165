-- ===== src/Wire/Reports.antt =====
-- LOSS_REPORT (srv6_fabric/mrc/probe.py).
use srv6_ai_fabric.Prelude.{
  List, Result, [], drop, guard, leb, length, ok, probe_decode_error, raise, struct_error, suc,
  take, value_error, zero, ℕ, ◌*◌, ◌++◌, ◌+◌, ◌==◌, ◌>>=◌, ◌>>◌, ◌∷◌,
}
use srv6_ai_fabric.Wire.Words.{pack, unpack}
use srv6_ai_fabric.Wire.Probes.{check_u16, check_u32, check_u8}

abbrev pub loss_report_version : ℕ
loss_report_version = 1

abbrev pub magic_loss_report : ℕ
magic_loss_report = 0xa7

-- "!BBHHH" and "!BBHIII"
abbrev pub loss_hdr_fmt : List ℕ
loss_hdr_fmt = 1 ∷ 1 ∷ 2 ∷ 2 ∷ 2 ∷ []

abbrev pub loss_rec_fmt : List ℕ
loss_rec_fmt = 1 ∷ 1 ∷ 2 ∷ 4 ∷ 4 ∷ 4 ∷ []

abbrev pub loss_hdr_size : ℕ
loss_hdr_size = 8

abbrev pub loss_rec_size : ℕ
loss_rec_size = 16

pub record PlaneLossRecord : Type 0 where
  pub plane_id : ℕ
  pub seen : ℕ
  pub expected : ℕ
  pub max_gap : ℕ

pub record LossReport : Type 0 where
  pub window_id : ℕ
  pub planes : List PlaneLossRecord

-- The constructors run `__post_init__`.
unfoldable pub make_record : PlaneLossRecord → Result PlaneLossRecord
make_record r = do
  check_u8 r.plane_id
  check_u32 r.seen
  check_u32 r.expected
  check_u32 r.max_gap
  ok r

unfoldable pub make_report : ℕ → List PlaneLossRecord → Result LossReport
make_report window_id planes = do
  check_u16 window_id
  ok (record { window_id = window_id; planes = planes })

-- The loop of `encode_loss_report`.
unfoldable pub encode_records : List PlaneLossRecord → Result (List ℕ)
encode_records [] = ok []
encode_records (r ∷ rs) = do
  head ← pack loss_rec_fmt (r.plane_id ∷ 0 ∷ 0 ∷ r.seen ∷ r.expected ∷ r.max_gap ∷ [])
  rest ← encode_records rs
  ok (head ++ rest)

unfoldable pub encode_loss_report : ℕ → List PlaneLossRecord → Result (List ℕ)
encode_loss_report window_id planes = do
  check_u16 window_id
  guard (leb (length planes) 0xffff) value_error
  head ←
      pack loss_hdr_fmt
        (magic_loss_report ∷ loss_report_version ∷ window_id ∷ length planes ∷ 0 ∷ [])
  records ← encode_records planes
  ok (head ++ records)

unfoldable pub record_of_fields : List ℕ → Result PlaneLossRecord
record_of_fields (plane_id ∷ r1 ∷ r2 ∷ seen ∷ expected ∷ max_gap ∷ []) =
    make_record
      (record { plane_id = plane_id; seen = seen; expected = expected; max_gap = max_gap })
record_of_fields _ = raise struct_error

-- The loop of `decode_loss_report`; the list is what lies at `off`.
unfoldable pub decode_records : ℕ → List ℕ → Result (List PlaneLossRecord)
decode_records zero payload = ok []
decode_records (suc n) payload = do
  fields ← unpack loss_rec_fmt (take loss_rec_size payload)
  r ← record_of_fields fields
  rest ← decode_records n (drop loss_rec_size payload)
  ok (r ∷ rest)

unfoldable pub decode_body : List ℕ → List ℕ → Result LossReport
decode_body payload (magic ∷ version ∷ window_id ∷ num_planes ∷ rsv ∷ []) = do
  guard (magic == magic_loss_report) probe_decode_error
  guard (version == loss_report_version) probe_decode_error
  guard (leb (loss_hdr_size + num_planes * loss_rec_size) (length payload)) probe_decode_error
  planes ← decode_records num_planes (drop loss_hdr_size payload)
  make_report window_id planes
decode_body payload _ = raise struct_error

unfoldable pub decode_loss_report : List ℕ → Result LossReport
decode_loss_report payload = do
  guard (leb loss_hdr_size (length payload)) probe_decode_error
  fields ← unpack loss_hdr_fmt (take loss_hdr_size payload)
  decode_body payload fields
