-- ===== src/Al/Errors.antt =====
-- ilink/iolink_al.c: the error that a client is told.
use normans_fork.Types.SmiError
use normans_fork.Prelude.{ℕ, ◌+◌, ◌*◌, Bool, true, false, ◌&&◌, ◌==◌, if◌then◌else◌}
use normans_fork.Al.{Service}
use normans_fork.Types.{
  Status, status_no_error, status_invalid, isdu_timeout, isdu_checksum_error,
  isdu_illegal_service_primitive, Direction, reading, writing,
}

-- IOL_ISERVICE_DEVICE_NO_SERVICE
abbrev pub no_service : ℕ
no_service = 0

-- IOL_ISERVICE_DEVICE_WRITE_RESPONSE_NEG
abbrev pub write_response_neg : ℕ
write_response_neg = 4

-- IOL_ISERVICE_DEVICE_WRITE_RESPONSE_POS
abbrev pub write_response_pos : ℕ
write_response_pos = 5

-- IOL_ISERVICE_DEVICE_READ_RESPONSE_NEG
abbrev pub read_response_neg : ℕ
read_response_neg = 12

-- IOL_ISERVICE_DEVICE_READ_RESPONSE_POS
abbrev pub read_response_pos : ℕ
read_response_pos = 13

-- `al_status_to_errortype`
unfoldable pub al_status_to_errortype : Status → ℕ
al_status_to_errortype status_no_error = SmiError.no_error
al_status_to_errortype isdu_illegal_service_primitive = SmiError.m_isdu_illegal
al_status_to_errortype status_invalid = SmiError.com_err
al_status_to_errortype isdu_checksum_error = SmiError.m_isdu_checksum
al_status_to_errortype isdu_timeout = SmiError.i_service_timeout
al_status_to_errortype _ = SmiError.app_dev

-- The error that a device sends in two bytes.
abbrev pub device_error : Service → ℕ
device_error s = if s.data_len == 2 then s.data_read 0 * 256 + s.data_read 1 else SmiError.app_dev

-- `stat == IOLINK_STATUS_NO_ERROR`
abbrev pub is_no_error : Status → Bool
is_no_error status_no_error = true
is_no_error _ = false

-- `stat == IOLINK_STATUS_ISDU_CHECKSUM_ERROR`
abbrev pub is_checksum_error : Status → Bool
is_checksum_error isdu_checksum_error = true
is_checksum_error _ = false

-- The two `switch`es on the qualifier of the device's response.
unfoldable pub qualifier_error : Direction → Service → ℕ
qualifier_error reading s =
    if s.qualifier == read_response_neg
    then device_error s
    else if s.qualifier == read_response_pos
    then SmiError.no_error
    else SmiError.app_dev
qualifier_error writing s =
    if s.qualifier == write_response_neg
    then device_error s
    else if s.qualifier == write_response_pos
    then SmiError.no_error
    else if s.qualifier == no_service && is_no_error s.errinfo
    then SmiError.com_err
    else SmiError.no_error

-- What `al_err_to_errortype` finds in the response of an ISDU.
unfoldable pub isdu_error : Service → ℕ
unfolding qualifier_error
isdu_error s =
    if is_checksum_error s.errinfo then SmiError.m_isdu_checksum else qualifier_error s.direction s

-- `al_err_to_errortype`
unfoldable pub al_err_to_errortype : Bool → Service → ℕ
unfolding isdu_error al_status_to_errortype
al_err_to_errortype is_isdu s =
    let found = if is_isdu then isdu_error s else SmiError.no_error in
    if found == SmiError.no_error then al_status_to_errortype s.errinfo else found
