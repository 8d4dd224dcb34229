-- ===== src/Dl/Header.antt =====
-- ilink/iolink_dl.c: the first bytes of an ISDU, and its checksum.
use normans_fork.Prelude.{
  ℕ, zero, suc, ◌+◌, ◌-◌, ◌/◌, ◌%◌, bit_xor, Bool, false, ◌&&◌, ◌||◌, not, Option, none, some, ltb,
  ◌==◌, if◌then◌else◌, u8, Bytes,
}
use normans_fork.Al.Errors.{
  no_service, write_response_neg, write_response_pos, read_response_neg, read_response_pos,
}
use normans_fork.Dl.{Dl}

-- The `for` loop of `calcCHKPDU`.
unfoldable pub xor_rest : Bytes → ℕ → ℕ → ℕ → ℕ
xor_rest m idx zero chksum = chksum
xor_rest m idx (suc n) chksum = xor_rest m (idx + 1) n (bit_xor chksum (m idx))

-- `calcCHKPDU`
unfoldable pub calc_chkpdu : Bytes → ℕ → ℕ
unfolding xor_rest
calc_chkpdu m zero = 0
calc_chkpdu m (suc n) = xor_rest m 1 n (m 0)

abbrev pub valid_isdu_checksum : Dl → Bool
valid_isdu_checksum dl = calc_chkpdu dl.isdu_data dl.total_isdu_len == 0

abbrev pub get_isdu_iserv : Dl → ℕ
get_isdu_iserv dl = dl.isdu_data 0 / 16 % 16

abbrev pub get_isdu_len : Dl → ℕ
get_isdu_len dl = dl.isdu_data 0 % 16

-- The length that `get_isdu_total_len` weighs.
abbrev pub declared_len : Dl → ℕ
declared_len dl = if get_isdu_len dl == 1 then dl.isdu_data 1 else get_isdu_len dl

unfoldable pub get_isdu_total_len : Dl → Option ℕ
get_isdu_total_len dl =
    if ltb (declared_len dl) 2 || declared_len dl == 16 then none else some (declared_len dl)

-- The bytes of a response that are not data, but for the checksum.
abbrev pub data_offset : Dl → ℕ
data_offset dl = if get_isdu_len dl == 1 then 2 else 1

-- `get_isdu_data_length`: a total that is less than the overhead wraps.
unfoldable pub get_isdu_data_length : Dl → Option ℕ
unfolding get_isdu_total_len
get_isdu_data_length dl = elim (get_isdu_total_len dl) [
  | none ↦ none
  | some total ↦ some (u8 (total + 256 - (data_offset dl + 1)))
]

-- `get_isdu_response_data`
abbrev pub get_isdu_response_data : Dl → Bytes
get_isdu_response_data dl i = dl.isdu_data (data_offset dl + i)

-- `get_isdu_total_segments`
unfoldable pub get_isdu_total_segments : Dl → ℕ
get_isdu_total_segments dl = u8 ((dl.total_isdu_len + dl.od_len - 1) / dl.od_len)

abbrev is_write_response : ℕ → Bool
is_write_response iserv = iserv == write_response_neg || iserv == write_response_pos

abbrev is_read_response : ℕ → Bool
is_read_response iserv = iserv == read_response_neg || iserv == read_response_pos

-- `valid_isdu_header`
unfoldable pub valid_isdu_header : Dl → Bool
valid_isdu_header dl =
    let iserv = get_isdu_iserv dl in
    let len = get_isdu_len dl in
    if iserv == no_service
    then not (ltb 1 len)
    else if is_write_response iserv || is_read_response iserv
    then not (
        (len == 0 || ltb 15 len)
        || (dl.data_dir_read && is_write_response iserv)
        || (not dl.data_dir_read && is_read_response iserv))
    else false
