-- ===== src/Dl/Recovery.antt =====
-- ilink/iolink_dl.c: a request that the device does not answer.
use mathlib.Core.Path.{subst}
use normans_fork.Prelude.{
  ℕ, ◌*◌, ◌≤◌, ◌≡◌, refl, sym, ap, ◌∙◌, true, false, none, List, [], ◌∷◌, ◌++◌, arith, All, Bytes,
  memcpy, bytes_at,
}
use normans_fork.Dl.{
  IsduState, inactive, idle, isdu_request, isdu_wait, isdu_error, isdu_response, ih_inactive,
  ih_active, rw_none, no_trigger, device_message, mode_idle, mhinfo_none, Dl, DlCall,
  isdu_transport_cnf, stop_message_handler, wake_mode_handler, Step,
}
use normans_fork.Types.{no_comm, isdu_timeout}
use normans_fork.Dl.Failing.{isdu_timer_elapsed, error_cause, isdu_error4, enter_isduerror4}
use normans_fork.Dl.Isdu.{
  isdu_request2, take_segment, first_segment, isdu_wait3, isdu_response5, isdu_h_sm_in, isdu_h_sm,
}
use normans_fork.Dl.Inputs.{
  od_message, ih_conf, Input, master, device, conf, com_lost, mode_change, handle, handle_all,
}
use normans_fork.Dl.First.{IsWaiting, asked_first}
use normans_fork.Prelude.Memory.Laws.{memcpy_inside}
use normans_fork.Dl.Response.{answers, answers-read, answers-none}

-- A request is under way: it is being sent, or its response is awaited or received.
unfoldable pub IsUnderWay : IsduState → Type 0
IsUnderWay isdu_request = Unit
IsUnderWay isdu_wait = Unit
IsUnderWay isdu_response = Unit
IsUnderWay _ = ⊥

-- The handler is idle, without a request.
abbrev pub IsFree : Dl → Type 0
IsFree d = (d.state ≡ idle) × (d.rwcmd ≡ rw_none) × (d.total_isdu_seg ≡ 0)

-- What becomes of a device that is lost: `iolink_dl_mh_handle_com_lost`, and then, as the mode handler
-- does in `iolink_dl_mode_h_sm_goto_idle`, IH_Conf and the change to IDLE_0.
abbrev pub losing : (now od_len : ℕ) → List Input
losing now od_len = com_lost ∷ conf ih_inactive now ∷ mode_change mode_idle mhinfo_none od_len ∷ []

-- The calls that stop the messages of a device that is lost.
abbrev pub stopped : List DlCall
stopped = stop_message_handler ∷ wake_mode_handler ∷ []

lost_in :
    (s : IsduState) (dl : Dl) (now od_len : ℕ)
    → dl.state ≡ s
    → IsUnderWay s
    → let (d, calls) = handle_all dl (losing now od_len) in
      (d.state ≡ inactive)
      × (d.rwcmd ≡ rw_none)
      × (d.total_isdu_seg ≡ 0)
      × (calls ≡ stopped ++ isdu_transport_cnf none 0 0 no_comm ∷ [])
unfolding handle_all handle ih_conf isdu_h_sm isdu_h_sm_in IsUnderWay isdu_request2 isdu_wait3
    isdu_response5 enter_isduerror4
lost_in inactive dl now od_len h busy = absurd busy
lost_in idle dl now od_len h busy = absurd busy
lost_in isdu_request dl now od_len h busy = ground arith
lost_in isdu_wait dl now od_len h busy = ground arith
lost_in isdu_error dl now od_len h busy = absurd busy
lost_in isdu_response dl now od_len h busy = ground arith

-- When the device is lost while a request is being sent or its response is awaited or received, the
-- message handler is stopped, and the mode handler then makes the handler of ISDUs inactive: the
-- request is answered once, with the error `no_comm`, nothing more is sent to the device, and no
-- request is left. The timer of the response does not matter.
pub com_lost_answered :
    (dl : Dl) (now od_len : ℕ)
    → IsUnderWay dl.state
    → let (d, calls) = handle_all dl (losing now od_len) in
      (d.state ≡ inactive)
      × (d.rwcmd ≡ rw_none)
      × (d.total_isdu_seg ≡ 0)
      × (calls ≡ stopped ++ isdu_transport_cnf none 0 0 no_comm ∷ [])
com_lost_answered dl now od_len busy = lost_in dl.state dl now od_len refl busy

-- The handler waits for the response, which the device has not begun.
abbrev pub IsPolling : Dl → Type 0
IsPolling dl = IsWaiting dl dl.od_len × (dl.ihcmd ≡ ih_active) × (1 ≤ dl.od_len)

-- The device is asked, and replies: when, and with what.
unfoldable pub polls : List (ℕ × ℕ × Bytes) → List Input
polls [] = []
polls ((asked, told, rx) ∷ rounds) = master asked ∷ device told rx ∷ polls rounds

-- A round before the timer elapses, in which the device is busy.
unfoldable pub IsBusyRound : Dl → ℕ × ℕ × Bytes → Type 0
IsBusyRound dl (asked, told, rx) =
    (isdu_timer_elapsed asked dl ≡ false) × (isdu_timer_elapsed told dl ≡ false) × (rx 0 ≡ 1)

-- The reply of a busy device is stored, and nothing else happens.
busy_told :
    (dl : Dl) (now : ℕ) (rx : Bytes)
    → IsPolling dl
    → isdu_timer_elapsed now dl ≡ false
    → rx 0 ≡ 1
    → handle dl (device now rx) ≡ (
      record (take_segment (record dl { rxbuffer = rx; trigger = device_message })) {
        trigger = no_trigger;
      },
      [],
    )
unfolding handle od_message isdu_h_sm isdu_h_sm_in isdu_wait3 first_segment
busy_told dl now rx ((a, b, c, d, e), active, pos) early busy =
    let place : dl.current_isdu_seg * dl.od_len ≡ 0 = rw d (grind arith) in
    let first : memcpy dl.isdu_data (dl.current_isdu_seg * dl.od_len) (bytes_at rx 0 dl.od_len) 0
        ≡ 1 =
      rw place (memcpy_inside dl.od_len dl.isdu_data rx 0 0 0 pos ∙ busy) in
    ground arith

timed_out :
    (dl : Dl) (now : ℕ)
    → IsPolling dl
    → isdu_timer_elapsed now dl ≡ true
    → let (d, calls) = handle_all dl (master now ∷ []) in
      IsFree d × (answers calls ≡ isdu_transport_cnf none 0 0 isdu_timeout ∷ [])
unfolding handle_all handle od_message isdu_h_sm isdu_h_sm_in isdu_wait3 enter_isduerror4
    isdu_error4 error_cause answers
timed_out dl now ((a, b, c, d, e), active, pos) late = ground arith

-- A request that ends with the error of a response that does not come.
abbrev IsTimedOut : Step → Type 0
IsTimedOut (d, calls) = IsFree d × (answers calls ≡ isdu_transport_cnf none 0 0 isdu_timeout ∷ [])

IsTimedOut-cons :
    (dl : Dl) (i : Input) (inputs : List Input)
    → ((rest : List DlCall) → answers ((handle dl i).1 ++ rest) ≡ answers rest)
    → IsTimedOut (handle_all (handle dl i).0 inputs)
    → IsTimedOut (handle_all dl (i ∷ inputs))
unfolding handle_all
IsTimedOut-cons dl i inputs silent (free, calls) =
    (free, silent (handle_all (handle dl i).0 inputs).1 ∙ calls)

-- A device that is always busy, and replies so to every message of the master until the timer of the
-- response has elapsed: the next message of the master then ends the request. In all these messages it
-- is answered once, with the error of a timeout, and the handler is idle, without a request.
pub busy_device :
    (rounds : List (ℕ × ℕ × Bytes)) (dl : Dl) (last : ℕ)
    → IsPolling dl
    → All (IsBusyRound dl) rounds
    → isdu_timer_elapsed last dl ≡ true
    → let (d, calls) = handle_all dl (polls rounds ++ master last ∷ []) in
      IsFree d × (answers calls ≡ isdu_transport_cnf none 0 0 isdu_timeout ∷ [])
unfolding polls IsBusyRound
busy_device [] dl last polling busy late = timed_out dl last polling late
busy_device ((asked, told, rx) ∷ rounds) dl last polling ((in_time, in_time', is_busy), busy) late =
    let (waiting, active, pos) = polling in
    let step = asked_first dl dl.od_len asked waiting in_time in
    let d₁ = record dl { trigger = no_trigger } in
    let step' = busy_told d₁ told rx polling in_time' is_busy in
    let later = polls rounds ++ master last ∷ [] in
    IsTimedOut-cons dl (master asked) (device told rx ∷ later)
      (λ rest. answers-read _ rest _ _ _ (ap (λ (s : Step). s.1) step))
      (subst (λ (s : Step). IsTimedOut (handle_all s.0 (device told rx ∷ later))) (sym step)
        (IsTimedOut-cons d₁ (device told rx) later
          (λ rest. answers-none _ rest (ap (λ (s : Step). s.1) step'))
          (subst (λ (s : Step). IsTimedOut (handle_all s.0 later)) (sym step')
            (busy_device rounds _ last polling busy late))))
