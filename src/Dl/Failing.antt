-- ===== src/Dl/Failing.antt =====
-- ilink/iolink_dl.c: the timer of the handler of ISDUs, and its error state.
use normans_fork.Prelude.{
  ℕ, ◌+◌, ◌-◌, Bool, true, false, ◌&&◌, not, none, [], ◌∷◌, ltb, ◌==◌, if◌then◌else◌, u32,
}
use normans_fork.Types.{
  Status, no_comm, status_invalid, isdu_timeout, isdu_illegal_service_primitive, isdu_abort,
}
use normans_fork.Dl.{
  inactive, idle, isdu_error, ih_inactive, ih_active, RwCmd, rw_none, rw_isduabort, master_message,
  MhInfo, mhinfo_comlost, channel_isdu, Dl, od_read, isdu_transport_cnf, Step,
}
use normans_fork.Dl.Header.{get_isdu_iserv, valid_isdu_header}

abbrev pub flowctrl_abort : ℕ
flowctrl_abort = 31

-- IOLINK_ISDU_RESPONSE_TIME
abbrev pub response_time : ℕ
response_time = 5000000

-- `isdu_timer_start`
abbrev pub isdu_timer_start : ℕ → Dl → Dl
isdu_timer_start now dl = record dl { isdu_timer = if now == 0 then 1 else now }

-- `isdu_timer_reset`
abbrev pub isdu_timer_reset : Dl → Dl
isdu_timer_reset dl = record dl { isdu_timer = 0 }

-- `isdu_timer_elapsed`
abbrev pub isdu_timer_elapsed : ℕ → Dl → Bool
isdu_timer_elapsed now dl =
    ltb response_time (u32 (now + 4294967296 - dl.isdu_timer)) && not (dl.isdu_timer == 0)

abbrev pub is_comlost : MhInfo → Bool
is_comlost mhinfo_comlost = true
is_comlost _ = false

abbrev pub is_abort : RwCmd → Bool
is_abort rw_isduabort = true
is_abort _ = false

-- The qualifier and the status that `iolink_dl_isdu_h_sm_isdu_error4` finds.
unfoldable pub error_cause : ℕ → Dl → ℕ × Status
error_cause now dl =
    if isdu_timer_elapsed now dl
    then (0, isdu_timeout)
    else if is_comlost dl.mhinfo
    then (0, no_comm)
    else if is_abort dl.rwcmd
    then (0, isdu_abort)
    else if not (valid_isdu_header dl)
    then (get_isdu_iserv dl, isdu_illegal_service_primitive)
    else (0, status_invalid)

-- `iolink_dl_isdu_h_sm_isdu_error4`
unfoldable pub isdu_error4 : ℕ → Dl → Step
unfolding error_cause
isdu_error4 now dl = elim dl.ihcmd [
  | ih_inactive ↦ (record dl { state = inactive }, [])
  | ih_active ↦
      let (qualifier, errinfo) = error_cause now dl in
      (
        record dl { total_isdu_seg = 0; rwcmd = rw_none; state = idle },
        od_read channel_isdu flowctrl_abort 0 ∷ isdu_transport_cnf none 0 qualifier errinfo ∷ [],
      )
]

-- `iolink_dl_isdu_h_sm_enter_isduerror4`
unfoldable pub enter_isduerror4 : ℕ → Dl → Step
unfolding isdu_error4
enter_isduerror4 now dl = elim dl.ihcmd [
  | ih_inactive ↦
      (record dl { total_isdu_seg = 0; state = inactive }, isdu_transport_cnf none 0 0 no_comm ∷ [])
  | ih_active ↦ elim dl.trigger [
    | master_message ↦ isdu_error4 now dl
    | _ ↦ (record dl { state = isdu_error }, [])
  ]
]
