-- ===== src/Dl/Tests.antt =====
-- ilink/iolink_dl.c on concrete inputs.
use normans_fork.Types.{no_comm, isdu_timeout, reading, writing}
use normans_fork.Prelude.{
  ℕ, ◌+◌, ◌<◌, ◌≡◌, refl, inl, inr, true, false, none, some, List, [], ◌∷◌, ◌++◌, arith, ltb, ◌==◌,
  if◌then◌else◌, length, Bytes, memcpy, bytes_at, zeros,
}
use normans_fork.Dl.{
  inactive, idle, isdu_wait, ih_active, rw_none, rw_isdutransport, no_trigger, mode_operate,
  mhinfo_none, channel_page, Dl, od_write, isdu_transport_cnf,
}
use normans_fork.Dl.Transport.{ValueList, overhead}
use normans_fork.Dl.Inputs.{transport, master, handle, handle_all}
use normans_fork.Dl.Format.{decode_request}
use normans_fork.Dl.Encoded.{meant}
use normans_fork.Dl.Counting.{confirmations, is_request, requests, pending, IsCounted, IsInRange}
use normans_fork.Dl.Confirmations.{replaced_all, confirmations-requests}
use normans_fork.Dl.Sending.{further, sent}
use normans_fork.Dl.Request.{request_transfer}
use normans_fork.Dl.Answer.{IsAnswered}
use normans_fork.Dl.Response.{answers, receive, answered, response_transfer}
use normans_fork.Dl.Recovery.{
  IsUnderWay, IsFree, losing, stopped, com_lost_answered, polls, IsBusyRound, busy_device,
}
use normans_fork.Dl.Header.{calc_chkpdu, get_isdu_total_segments}
use normans_fork.Dl.Isdu.{isdu_h_sm}
use normans_fork.Pde.{code_none, code_pdoutvalid, code_pdoutinvalid}
use normans_fork.Dl.Command.{command_idle, ch_active, Command, IsReady}
use normans_fork.Dl.Outputs.{controls_sent, second_control_lost}

-- An active handler in operation, with messages of 2 bytes of on-request data.
abbrev quiet : Dl
quiet = record {
  state = idle;
  ihcmd = ih_active;
  total_isdu_len = 0;
  current_isdu_seg = 0;
  total_isdu_seg = 0;
  isdu_data = λ i. 0;
  isdu_timer = 0;
  data_dir_read = false;
  rwcmd = rw_none;
  od_len = 2;
  mode = mode_operate;
  mhinfo = mhinfo_none;
  trigger = no_trigger;
  data_addr = 0;
  data_value = 0;
  rxbuffer = λ i. 0;
}

-- A write of three bytes.
abbrev write_three : ValueList
write_three = record { index = 16; subindex = 2; bytes = λ i. i + 65; len = 3; readwrite = writing }

-- A read of an index of two bytes.
abbrev read_far : ValueList
read_far = record { index = 300; subindex = 0; bytes = λ i. 0; len = 0; readwrite = reading }

-- The device answers a read with 1, 2 and 3.
abbrev answer : Bytes
answer i = if i == 0 then 213 else if i == 4 then 213 else if ltb i 4 then i else 0

abbrev waiting : Dl
waiting = record quiet {
  state = isdu_wait;
  rwcmd = rw_isdutransport;
  total_isdu_seg = 3;
  isdu_timer = 100;
  data_dir_read = true;
}

abbrev replies : List (ℕ × ℕ × Bytes)
replies = (2, 3, λ i. 0) ∷ (4, 5, λ i. 1) ∷ (6, 7, λ i. 2) ∷ []

-- What goes to the device.
sent-write_three :
    sent (handle_all quiet (transport write_three ∷ master 0 ∷ further 1 (λ i. 7) replies)).1
    ≡ 39 ∷ 16 ∷ 2 ∷ 65 ∷ 66 ∷ 67 ∷ 117 ∷ 0 ∷ []
unfolding sent handle_all handle isdu_h_sm bytes_at memcpy further zeros get_isdu_total_segments
    calc_chkpdu
sent-write_three = refl

confirmations-requests_example :
    let (d, calls) =
      handle_all quiet (transport write_three ∷ master 5 ∷ transport read_far ∷ []) in
    (d.ihcmd ≡ ih_active)
    × IsCounted d.state d.rwcmd d.total_isdu_seg
    × (confirmations calls
          + pending d.state d.total_isdu_seg
          + replaced_all quiet (transport write_three ∷ master 5 ∷ transport read_far ∷ [])
        ≡ 2 + 0)
unfolding IsCounted IsInRange requests is_request pending
confirmations-requests_example =
    confirmations-requests (transport write_three ∷ master 5 ∷ transport read_far ∷ []) quiet refl
      tt (omega arith) (omega arith, (tt, (omega arith, tt)))

request_transfer_example :
    let (d, calls) =
      handle_all quiet (transport write_three ∷ master 0 ∷ further 1 (λ i. 7) replies) in
    (isdu padding : List ℕ) × (sent calls ≡ isdu ++ padding)
    × (length padding < 2)
    × (decode_request isdu ≡ some (meant write_three))
    × (d.state ≡ isdu_wait)
    × (d.current_isdu_seg ≡ 0)
unfolding overhead
request_transfer_example =
    request_transfer quiet write_three 0 1 (λ i. 7) replies
      (refl, refl, refl, refl, omega arith, omega arith) (omega arith) (omega arith) (omega arith)
      refl

response_transfer_example :
    IsAnswered
      (answered
        (handle_all waiting (receive answer 2 0 ((200, 300) ∷ (400, 500) ∷ (600, 700) ∷ []))))
      answer
      1
      3
      13
unfolding bytes_at
response_transfer_example =
    response_transfer waiting answer 2 5 1 13 200 300 ((400, 500) ∷ (600, 700) ∷ [])
      (refl, refl, refl, refl, refl) (omega arith) refl refl
      (refl, inr (refl, refl, omega arith, omega arith)) (inl refl) refl (omega arith) refl

com_lost_answered_example :
    let (d, calls) = handle_all waiting (losing 200 2) in
    (d.state ≡ inactive)
    × (d.rwcmd ≡ rw_none)
    × (d.total_isdu_seg ≡ 0)
    × (calls ≡ stopped ++ isdu_transport_cnf none 0 0 no_comm ∷ [])
unfolding IsUnderWay
com_lost_answered_example = com_lost_answered waiting 200 2 tt

busy_device_example :
    let (d, calls) =
      handle_all waiting
        (polls ((200, 300, λ i. 1) ∷ (400, 500, λ i. 1) ∷ []) ++ master 5000101 ∷ []) in
    IsFree d × (answers calls ≡ isdu_transport_cnf none 0 0 isdu_timeout ∷ [])
unfolding IsBusyRound
busy_device_example =
    busy_device ((200, 300, λ i. 1) ∷ (400, 500, λ i. 1) ∷ []) waiting 5000101
      ((refl, refl, refl, refl, refl), refl, omega arith)
      ((refl, refl, refl), ((refl, refl, refl), tt)) refl

abbrev ready : Command
ready = record {
  state = command_idle;
  chcmd = ch_active;
  control_code = code_none;
  master_command = 0;
}

second_control_lost_example :
    let (c', calls) = controls_sent code_pdoutvalid code_pdoutinvalid ready in
    (calls ≡ od_write channel_page 0 1 (0x98 ∷ []) ∷ [])
    × (c'.control_code ≡ code_none)
    × IsReady c'
second_control_lost_example = second_control_lost ready true (refl, refl)
