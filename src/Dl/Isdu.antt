-- ===== src/Dl/Isdu.antt =====
-- ilink/iolink_dl.c: the handler of ISDUs, `iolink_dl_isdu_h_sm`. The time, in microseconds, is what
-- `os_get_current_time_us` gives while the handler runs.
use normans_fork.Prelude.{
  ℕ, ◌+◌, ◌*◌, ◌%◌, ◌||◌, not, none, some, List, [], ◌∷◌, leb, ◌==◌, if◌then◌else◌, u8, memcpy,
  bytes_at,
}
use normans_fork.Types.{status_no_error, no_comm, status_invalid, isdu_checksum_error}
use normans_fork.Dl.{
  IsduState, inactive, idle, isdu_request, isdu_wait, isdu_error, isdu_response, ih_inactive,
  ih_active, RwCmd, rw_none, rw_writeparam, rw_readparam, rw_isdutransport, no_trigger,
  device_message, master_message, channel_page, channel_isdu, Dl, DlCall, od_read, od_write,
  isdu_transport_cnf, read_param_cnf, write_param_cnf, Step,
}
use normans_fork.Dl.Header.{
  valid_isdu_checksum, get_isdu_iserv, get_isdu_total_len, get_isdu_data_length,
  get_isdu_response_data, get_isdu_total_segments, valid_isdu_header,
}
use normans_fork.Dl.Failing.{
  isdu_timer_start, isdu_timer_reset, isdu_timer_elapsed, is_comlost, is_abort, isdu_error4,
  enter_isduerror4,
}

-- The flow controls of `iolink_isdu_flowctrl_t`
abbrev pub flowctrl_start : ℕ
flowctrl_start = 16

abbrev pub flowctrl_idle_1 : ℕ
flowctrl_idle_1 = 17

-- The confirmation of `iolink_dl_isdu_h_sm_reception_complete`.
unfoldable pub response_cnf : Dl → DlCall
unfolding get_isdu_data_length
response_cnf dl = elim (get_isdu_data_length dl) [
  | none ↦
      isdu_transport_cnf (some (get_isdu_response_data dl)) 0 (get_isdu_iserv dl) status_invalid
  | some len ↦
      isdu_transport_cnf (some (get_isdu_response_data dl)) len (get_isdu_iserv dl)
        (if valid_isdu_checksum dl then status_no_error else isdu_checksum_error)
]

-- `iolink_dl_isdu_h_sm_reception_complete`
unfoldable pub reception_complete : Dl → Step
unfolding response_cnf
reception_complete dl = (
  record dl { current_isdu_seg = 0; total_isdu_seg = 0; rwcmd = rw_none; state = idle },
  response_cnf dl ∷ [],
)

-- `iolink_dl_isdu_h_sm_inactive0`
unfoldable pub inactive0 : Dl → Step
inactive0 dl = elim dl.ihcmd [
  | ih_active ↦ (record dl { total_isdu_seg = 0; current_isdu_seg = 0; state = idle }, [])
  | ih_inactive ↦ (dl, [])
]

-- The master message of `iolink_dl_isdu_h_sm_idle1`.
unfoldable pub idle_message : RwCmd → Dl → Step
idle_message rw_isdutransport dl = (
  record dl { current_isdu_seg = 1; state = isdu_request },
  od_write channel_isdu flowctrl_start dl.od_len (bytes_at dl.isdu_data 0 dl.od_len) ∷ [],
)
idle_message rw_readparam dl = (dl, od_read channel_page dl.data_addr 0 ∷ [])
idle_message rw_writeparam dl = (dl, od_write channel_page dl.data_addr 1 (dl.data_value ∷ []) ∷ [])
idle_message _ dl = (dl, od_read channel_isdu flowctrl_idle_1 0 ∷ [])

-- The device message of `iolink_dl_isdu_h_sm_idle1`.
unfoldable pub idle_reply : RwCmd → Dl → Step
idle_reply rw_readparam dl =
    (record dl { rwcmd = rw_none }, read_param_cnf (dl.rxbuffer 0) status_no_error ∷ [])
idle_reply rw_writeparam dl = (record dl { rwcmd = rw_none }, write_param_cnf status_no_error ∷ [])
idle_reply _ dl = (dl, [])

-- `iolink_dl_isdu_h_sm_idle1`
unfoldable pub idle1 : Dl → Step
unfolding idle_message idle_reply
idle1 dl = elim dl.ihcmd [
  | ih_inactive ↦ (
    record dl { total_isdu_seg = 0; state = inactive },
    (if dl.total_isdu_seg == 0 then [] else isdu_transport_cnf none 0 0 no_comm ∷ []),
  )
  | ih_active ↦ elim dl.trigger [
    | master_message ↦ idle_message dl.rwcmd dl
    | device_message ↦ idle_reply dl.rwcmd dl
    | no_trigger ↦ (dl, [])
  ]
]

-- The segment of the data at the current position.
abbrev pub segment : Dl → List ℕ
segment dl = bytes_at dl.isdu_data (dl.od_len * dl.current_isdu_seg) dl.od_len

-- `iolink_dl_isdu_h_sm_isdu_request2`
unfoldable pub isdu_request2 : ℕ → Dl → Step
unfolding enter_isduerror4
isdu_request2 now dl =
    if is_abort dl.rwcmd || is_comlost dl.mhinfo then enter_isduerror4 now dl else elim dl.trigger [
      | master_message ↦ (
        record dl { current_isdu_seg = u8 (dl.current_isdu_seg + 1) },
        od_write channel_isdu (dl.current_isdu_seg % 16) dl.od_len (segment dl) ∷ [],
      )
      | device_message ↦ (
        if leb dl.total_isdu_seg dl.current_isdu_seg
            then record (isdu_timer_start now dl) { current_isdu_seg = 0; state = isdu_wait }
            else dl,
        [],
      )
      | no_trigger ↦ (dl, [])
    ]

-- The reply is copied to the current position.
abbrev pub take_segment : Dl → Dl
take_segment dl = record dl {
  isdu_data =
      memcpy dl.isdu_data (dl.current_isdu_seg * dl.od_len) (bytes_at dl.rxbuffer 0 dl.od_len);
}

-- The total length and the number of segments as the header gives them, 0 where it is no length.
abbrev pub take_total : Dl → Dl
take_total dl =
    let total = elim (get_isdu_total_len dl) as (λ _. ℕ) [ none ↦ 0 | some n ↦ n ] in
    record dl {
      total_isdu_len = total;
      total_isdu_seg = get_isdu_total_segments (record dl { total_isdu_len = total });
    }

-- The end of the response, or the wait for its next segment.
unfoldable pub or_wait_for_more : Dl → Step
unfolding reception_complete
or_wait_for_more dl =
    if leb dl.total_isdu_seg dl.current_isdu_seg
    then reception_complete dl
    else (record dl { state = isdu_response }, [])

-- What `iolink_dl_isdu_h_sm_isdu_wait3` makes of the first segment of a response.
unfoldable pub first_segment : ℕ → Dl → Step
unfolding enter_isduerror4 or_wait_for_more
first_segment now dl =
    if dl.isdu_data 0 == 1
    then (dl, [])
    else if dl.isdu_data 0 == 0
    then enter_isduerror4 now (isdu_timer_reset dl)
    else if not (valid_isdu_header dl)
    then enter_isduerror4 now (isdu_timer_reset dl)
    else or_wait_for_more (isdu_timer_reset (take_total (record dl { current_isdu_seg = 1 })))

-- `iolink_dl_isdu_h_sm_isdu_wait3`
unfoldable pub isdu_wait3 : ℕ → Dl → Step
unfolding enter_isduerror4 first_segment
isdu_wait3 now dl =
    if is_abort dl.rwcmd
    then enter_isduerror4 now (isdu_timer_reset dl)
    else if isdu_timer_elapsed now dl || is_comlost dl.mhinfo
    then enter_isduerror4 now dl
    else elim dl.trigger [
      | master_message ↦ (dl, od_read channel_isdu flowctrl_start dl.od_len ∷ [])
      | device_message ↦ first_segment now (take_segment dl)
      | no_trigger ↦ (dl, [])
    ]

-- `iolink_dl_isdu_h_sm_isdu_response5`: the length is read before the segment is stored.
unfoldable pub isdu_response5 : ℕ → Dl → Step
unfolding enter_isduerror4 or_wait_for_more
isdu_response5 now dl =
    if is_abort dl.rwcmd || is_comlost dl.mhinfo then enter_isduerror4 now dl else elim dl.trigger [
      | master_message ↦ (dl, od_read channel_isdu (dl.current_isdu_seg % 16) dl.od_len ∷ [])
      | device_message ↦
          let stored = take_segment (take_total dl) in
          or_wait_for_more (record stored { current_isdu_seg = u8 (stored.current_isdu_seg + 1) })
      | no_trigger ↦ (dl, [])
    ]

-- The `switch` of `iolink_dl_isdu_h_sm`.
unfoldable pub isdu_h_sm_in : IsduState → ℕ → Dl → Step
unfolding inactive0 idle1 isdu_request2 isdu_wait3 isdu_error4 isdu_response5
isdu_h_sm_in inactive now dl = inactive0 dl
isdu_h_sm_in idle now dl = idle1 dl
isdu_h_sm_in isdu_request now dl = isdu_request2 now dl
isdu_h_sm_in isdu_wait now dl = isdu_wait3 now dl
isdu_h_sm_in isdu_error now dl = isdu_error4 now dl
isdu_h_sm_in isdu_response now dl = isdu_response5 now dl

-- `iolink_dl_isdu_h_sm`
unfoldable pub isdu_h_sm : ℕ → Dl → Step
unfolding isdu_h_sm_in
isdu_h_sm now dl = isdu_h_sm_in dl.state now dl
