-- ===== src/Config/Laws.antt =====
-- What an accepted configuration guarantees (src/rle_conf.c).
use librle.Prelude.{◌+◌, ◌≤◌, ◌<◌, ◌≡◌, ◌↔◌, true, some, arith}
use librle.Config.{Config, config_check, check_values}

-- A configuration that makes sense for the transmitter and the receiver.
pub record IsValid (c : Config) : Type 0 where
  pub omission : c.allow_ptype_omission ≤ 1
  pub compression : c.use_compressed_ptype ≤ 1
  pub crc : c.allow_alpdu_crc ≤ 1
  pub seqno : c.allow_alpdu_sequence_number ≤ 1
  pub protected : 0 < c.allow_alpdu_crc + c.allow_alpdu_sequence_number
  pub header_map : c.use_explicit_payload_header_map ≡ 0
  pub ppdu_label : c.implicit_ppdu_label_size < 16
  pub payload_label : c.implicit_payload_label_size < 16
  pub alpdu_label : c.type_0_alpdu_label_size < 16

check_values-IsValid : (c : Config) → check_values c ≡ true → IsValid c
unfolding check_values
check_values-IsValid c h = ground arith

IsValid-check_values : (c : Config) → IsValid c → check_values c ≡ true
unfolding check_values
IsValid-check_values c v = ground arith

-- `rle_config_check` accepts exactly the configurations whose flags are 0 or 1, which protect the
-- ALPDU by CRC or sequence number or both, which use no explicit header map, and whose three label
-- sizes fit 4 bits.
pub config_check-IsValid : (c : Config) → (config_check (some c) ≡ true) ↔ IsValid c
unfolding config_check
config_check-IsValid c = (check_values-IsValid c, IsValid-check_values c)
