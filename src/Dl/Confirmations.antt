-- ===== src/Dl/Confirmations.antt =====
-- ilink/iolink_dl.c: how often a request for an ISDU is confirmed.
use normans_fork.Prelude.{ℕ, ◌+◌, ◌≤◌, ◌≡◌, refl, ◌≢◌, List, [], ◌∷◌, ◌++◌, arith, u8, All}
use normans_fork.Dl.{
  IsduState, inactive, idle, isdu_request, isdu_wait, isdu_error, isdu_response, ih_active, Trigger,
  device_message, Dl, DlCall,
}
use normans_fork.Dl.Isdu.{
  response_cnf, reception_complete, inactive0, idle_message, idle_reply, idle1, isdu_request2,
  take_segment, take_total, or_wait_for_more, first_segment, isdu_wait3, isdu_response5,
  isdu_h_sm_in, isdu_h_sm,
}
use normans_fork.Dl.Transport.{dl_isdu_transport_req}
use normans_fork.Dl.Inputs.{
  dl_read_write_param_req, od_message, ih_conf, Input, transport, param, master, device, conf,
  com_lost, mode_change, handle, handle_all,
}
use normans_fork.Dl.Failing.{isdu_timer_reset, error_cause, isdu_error4, enter_isduerror4}
use normans_fork.Dl.Counting.{
  is_confirmation, confirmations, is_request, requests, pending, IsCounted, IsInRange, replaced,
  request_laid_out-IsCounted, Balanced,
}

or_wait_for_more-Balanced :
    (dl : Dl) → dl.ihcmd ≡ ih_active → 1 ≤ dl.od_len → Balanced 0 1 (or_wait_for_more dl)
unfolding or_wait_for_more reception_complete response_cnf IsCounted confirmations is_confirmation
    pending
or_wait_for_more-Balanced dl active pos = ground arith

enter_isduerror4-Balanced :
    (now : ℕ) (dl : Dl)
    → dl.ihcmd ≡ ih_active
    → dl.total_isdu_seg ≢ 0
    → 1 ≤ dl.od_len
    → Balanced 0 1 (enter_isduerror4 now dl)
unfolding enter_isduerror4 isdu_error4 error_cause IsCounted confirmations is_confirmation pending
enter_isduerror4-Balanced now dl active counted pos = ground arith

first_segment-Balanced :
    (now : ℕ) (dl : Dl)
    → dl.state ≡ isdu_wait
    → dl.ihcmd ≡ ih_active
    → dl.total_isdu_seg ≢ 0
    → 1 ≤ dl.od_len
    → Balanced 0 1 (first_segment now dl)
unfolding first_segment IsCounted confirmations is_confirmation pending
first_segment-Balanced now dl h active counted pos = ground (
  arith,
  enter_isduerror4-Balanced now (isdu_timer_reset dl) active counted pos,
  or_wait_for_more-Balanced (isdu_timer_reset (take_total (record dl { current_isdu_seg = 1 })))
      active pos,
)

wait_reply-Balanced :
    (now : ℕ) (dl : Dl)
    → dl.state ≡ isdu_wait
    → dl.ihcmd ≡ ih_active
    → dl.total_isdu_seg ≢ 0
    → 1 ≤ dl.od_len
    → dl.trigger ≡ device_message
    → Balanced 0 1 (isdu_wait3 now dl)
unfolding isdu_wait3
wait_reply-Balanced now dl h active counted pos reply = ground (
  arith,
  enter_isduerror4-Balanced now (isdu_timer_reset dl) active counted pos,
  enter_isduerror4-Balanced now dl active counted pos,
  first_segment-Balanced now (take_segment dl) h active counted pos,
)

response_reply-Balanced :
    (now : ℕ) (dl : Dl)
    → dl.ihcmd ≡ ih_active
    → dl.total_isdu_seg ≢ 0
    → 1 ≤ dl.od_len
    → dl.trigger ≡ device_message
    → Balanced 0 1 (isdu_response5 now dl)
unfolding isdu_response5
response_reply-Balanced now dl active counted pos reply =
    let stored = take_segment (take_total dl) in
    ground (
      arith,
      enter_isduerror4-Balanced now dl active counted pos,
      or_wait_for_more-Balanced
          (record stored { current_isdu_seg = u8 (stored.current_isdu_seg + 1) }) active pos,
    )

od_message-Balanced :
    (s : IsduState) (t : Trigger) (now before asked : ℕ) (dl : Dl)
    → dl.state ≡ s
    → Balanced before asked (isdu_h_sm_in s now (record dl { trigger = t }))
    → Balanced before asked (od_message t now dl)
unfolding od_message isdu_h_sm
od_message-Balanced s t now before asked dl h step = rw h (rw h at step)

handle-Balanced :
    (s : IsduState) (dl : Dl) (i : Input)
    → dl.state ≡ s
    → dl.ihcmd ≡ ih_active
    → IsCounted s dl.rwcmd dl.total_isdu_seg
    → 1 ≤ dl.od_len
    → IsInRange i
    → Balanced (replaced dl i) (is_request i + pending s dl.total_isdu_seg) (handle dl i)
unfolding handle od_message ih_conf dl_isdu_transport_req dl_read_write_param_req isdu_h_sm
    isdu_h_sm_in inactive0 idle1 idle_message idle_reply isdu_request2 isdu_wait3 isdu_error4
    isdu_response5 first_segment enter_isduerror4 reception_complete response_cnf error_cause
    IsCounted IsInRange confirmations is_confirmation is_request pending replaced
handle-Balanced inactive dl i h active counted pos range = absurd counted
handle-Balanced s dl (conf cmd now) h active counted pos range = absurd range
handle-Balanced s dl com_lost h active counted pos range = ground arith
handle-Balanced s dl (mode_change mode mhinfo od_len) h active counted pos range = ground arith
handle-Balanced s dl (param write mh_ready address value) h active counted pos range = ground arith
handle-Balanced idle dl (transport v) h active counted pos range =
    ground (arith, request_laid_out-IsCounted v dl h active pos range)
handle-Balanced s dl (transport v) h active counted pos range = ground arith
handle-Balanced idle dl (master now) h active counted pos range = ground arith
handle-Balanced isdu_request dl (master now) h active counted pos range = ground arith
handle-Balanced isdu_wait dl (master now) h active counted pos range = ground arith
handle-Balanced isdu_error dl (master now) h active counted pos range = ground arith
handle-Balanced isdu_response dl (master now) h active counted pos range = ground arith
handle-Balanced idle dl (device now rx) h active counted pos range = ground arith
handle-Balanced isdu_request dl (device now rx) h active counted pos range = ground arith
handle-Balanced isdu_wait dl (device now rx) h active counted pos range =
    let got = record dl { rxbuffer = rx } in
    od_message-Balanced isdu_wait device_message now 0 1 got h
      (wait_reply-Balanced now (record got { trigger = device_message }) h active counted pos refl)
handle-Balanced isdu_error dl (device now rx) h active counted pos range = ground arith
handle-Balanced isdu_response dl (device now rx) h active counted pos range =
    let got = record dl { rxbuffer = rx } in
    od_message-Balanced isdu_response device_message now 0 1 got h (
      response_reply-Balanced now (record got { trigger = device_message }) active counted pos refl)

confirmations-append :
    (xs ys : List DlCall) → confirmations (xs ++ ys) ≡ confirmations xs + confirmations ys
unfolding confirmations
confirmations-append [] ys = omega arith
confirmations-append (x ∷ xs) ys = omega (arith, confirmations-append xs ys)

-- The requests of a run that take the place of one that is queued.
unfoldable pub replaced_all : Dl → List Input → ℕ
replaced_all dl [] = 0
replaced_all dl (i ∷ inputs) = replaced dl i + replaced_all ((handle dl i).0) inputs

-- In a run of the handler that begins with it active, and in which no input makes it inactive, on-request
-- data have a length and each request's ISDU fits a byte: each request for an ISDU, refused ones
-- included, is confirmed exactly once, but for one that is open at the end and those that another
-- request replaced while they were queued. One that is open at the start counts as made.
pub confirmations-requests :
    (inputs : List Input) (dl : Dl)
    → dl.ihcmd ≡ ih_active
    → IsCounted dl.state dl.rwcmd dl.total_isdu_seg
    → 1 ≤ dl.od_len
    → All IsInRange inputs
    → let (d, calls) = handle_all dl inputs in
      (d.ihcmd ≡ ih_active)
      × IsCounted d.state d.rwcmd d.total_isdu_seg
      × (confirmations calls + pending d.state d.total_isdu_seg + replaced_all dl inputs
          ≡ requests inputs + pending dl.state dl.total_isdu_seg)
unfolding handle_all confirmations requests replaced_all
confirmations-requests [] dl active counted pos range = (active, counted, omega arith)
confirmations-requests (i ∷ inputs) dl active counted pos (here, later) =
    let (active', counted', pos', sum) =
      handle-Balanced dl.state dl i refl active counted pos here in
    let (active_end, counted_end, total) =
      confirmations-requests inputs (handle dl i).0 active' counted' pos' later in
    (
      active_end,
      counted_end,
      omega (arith, confirmations-append (handle dl i).1 (handle_all (handle dl i).0 inputs).1),
    )
