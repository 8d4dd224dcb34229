-- ===== src/Al/Reported.antt =====
-- ilink/iolink_al.c: which errors reach the client, by `al_err_to_errortype`.
use normans_fork.Types.SmiError
use normans_fork.Prelude.{◌≡◌, ◌≢◌, ◌⊎◌, Bool, true, arith}
use normans_fork.Al.{Service}
use normans_fork.Al.Errors.{
  read_response_neg, read_response_pos, al_status_to_errortype, qualifier_error, isdu_error,
  al_err_to_errortype,
}
use normans_fork.Types.{status_no_error, reading}

-- A status that is not IOLINK_STATUS_NO_ERROR is never told to a client as a success, whatever the
-- qualifier and the data are.
al_err_to_errortype-ne_no_error :
    (is_isdu : Bool) (s : Service)
    → s.errinfo ≢ status_no_error
    → al_err_to_errortype is_isdu s ≢ SmiError.no_error
unfolding al_err_to_errortype isdu_error qualifier_error al_status_to_errortype
al_err_to_errortype-ne_no_error is_isdu s bad = ground arith

-- Where the direction is a read and the confirmation of an ISDU is told as a success, the data
-- link layer had no error, and the device's response was positive, or negative with the two bytes
-- 0 and 0 for its error.
pub read_success :
    (s : Service)
    → s.direction ≡ reading
    → al_err_to_errortype true s ≡ SmiError.no_error
    → (s.errinfo ≡ status_no_error)
      × ((s.qualifier ≡ read_response_pos)
          ⊎ ((s.qualifier ≡ read_response_neg)
              × (s.data_len ≡ 2)
              × (s.data_read 0 ≡ 0)
              × (s.data_read 1 ≡ 0)))
unfolding al_err_to_errortype isdu_error qualifier_error al_status_to_errortype
read_success s dir good = ground arith
