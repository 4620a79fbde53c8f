-- ===== src/Config.antt =====
-- src/rle_conf.c and the configuration of include/rle.h. The `int` parameters are naturals:
-- a negative one is refused by `rle_config_check` as any other value but 0 and 1 is.
pub mod Laws
use librle.Prelude.{
  ℕ, ◌+◌, Bool, true, false, ◌&&◌, not, Option, none, some, ltb, ◌==◌, if◌then◌else◌,
}

-- `struct rle_config`
pub record Config : Type 0 where
  pub allow_ptype_omission : ℕ
  pub use_compressed_ptype : ℕ
  pub allow_alpdu_crc : ℕ
  pub allow_alpdu_sequence_number : ℕ
  pub use_explicit_payload_header_map : ℕ
  pub implicit_protocol_type : ℕ
  pub implicit_ppdu_label_size : ℕ
  pub implicit_payload_label_size : ℕ
  pub type_0_alpdu_label_size : ℕ

-- `x != 0 && x != 1`
not_bool : ℕ → Bool
not_bool x = if x == 0 then false else if x == 1 then false else true

check_values : Config → Bool
unfolding not_bool
check_values conf =
    if not_bool conf.allow_ptype_omission
    then false
    else if not_bool conf.use_compressed_ptype
    then false
    else if not_bool conf.allow_alpdu_crc
    then false
    else if not_bool conf.allow_alpdu_sequence_number
    then false
    else if conf.allow_alpdu_crc + conf.allow_alpdu_sequence_number == 0
    then false
    else if not_bool conf.use_explicit_payload_header_map
    then false
    else if conf.use_explicit_payload_header_map == 1
    then false
    else if ltb 0x0f conf.implicit_ppdu_label_size
    then false
    else if ltb 0x0f conf.implicit_payload_label_size
    then false
    else if ltb 0x0f conf.type_0_alpdu_label_size
    then false
    else true

-- `rle_config_check`; `none` is the NULL pointer.
unfoldable pub config_check : Option Config → Bool
unfolding check_values
config_check none = false
config_check (some conf) = check_values conf

-- `rle_conf->allow_alpdu_sequence_number ? false : !!rle_conf->allow_alpdu_crc`
unfoldable pub use_alpdu_crc : Config → Bool
use_alpdu_crc conf =
    if conf.allow_alpdu_sequence_number == 0 then not (conf.allow_alpdu_crc == 0) else false

-- `enum rle_fpdu_types`
pub data FpduType : Type 0 where
  logon_fpdu ctrl_fpdu traffic_fpdu traffic_ctrl_fpdu : FpduType

-- `enum rle_header_size_status`
pub data HeaderSizeStatus : Type 0 where
  ok err non_deterministic : HeaderSizeStatus

fpdu_header_size : FpduType → HeaderSizeStatus × ℕ
fpdu_header_size logon_fpdu = (ok, 6)
fpdu_header_size ctrl_fpdu = (ok, 3)
fpdu_header_size traffic_fpdu = (non_deterministic, 0)
fpdu_header_size traffic_ctrl_fpdu = (ok, 3 + (2 + 0) + (0 + 0 + 0))

-- `rle_get_header_size`: the status, and what is written to `*rle_header_size`. The flag says
-- whether that pointer is given.
unfoldable pub get_header_size : Option Config → FpduType → Bool → HeaderSizeStatus × Option ℕ
unfolding fpdu_header_size
get_header_size none t given = (err, none)
get_header_size (some conf) t false = (err, none)
get_header_size (some conf) t true = let (s, n) = fpdu_header_size t in (s, some n)
