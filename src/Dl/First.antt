-- ===== src/Dl/First.antt =====
-- ilink/iolink_dl.c: the wait for a response, up to its first message.
use mathlib.Core.Path.{subst}
use normans_fork.Prelude.{
  ℕ, ◌+◌, ◌-◌, ◌*◌, ◌/◌, ◌≤◌, ◌≡◌, refl, sym, ap, ◌∙◌, true, false, Option, none, some, [], ◌∷◌,
  arith, ltb, u8, Bytes, memcpy, bytes_at,
}
use normans_fork.Dl.{
  isdu_wait, rw_isdutransport, no_trigger, device_message, channel_isdu, Dl, od_read,
}
use normans_fork.Dl.Isdu.{
  flowctrl_start, take_segment, take_total, or_wait_for_more, first_segment, isdu_wait3,
  isdu_h_sm_in, isdu_h_sm,
}
use normans_fork.Dl.Header.{get_isdu_total_segments, valid_isdu_header}
use normans_fork.Dl.Inputs.{od_message, master, device, handle}
use normans_fork.Dl.Segments.{segments, segments-le}
use normans_fork.Dl.Failing.{isdu_timer_reset, isdu_timer_elapsed, is_comlost}
use normans_fork.Dl.Answer.{IsHeader, IsAnswer, Agrees, message, declared, valid_answer}
use normans_fork.Dl.Stored.{take_segment-Agrees, HasStored, untriggered}

-- The handler waits for the response, which answers what the request asked.
abbrev pub IsWaiting : Dl → (w : ℕ) → Type 0
IsWaiting dl w =
    (dl.state ≡ isdu_wait)
    × (dl.rwcmd ≡ rw_isdutransport)
    × (is_comlost dl.mhinfo ≡ false)
    × (dl.current_isdu_seg ≡ 0)
    × (dl.od_len ≡ w)

pub asked_first :
    (dl : Dl) (w now : ℕ)
    → IsWaiting dl w
    → isdu_timer_elapsed now dl ≡ false
    → handle dl (master now)
      ≡ (record dl { trigger = no_trigger }, od_read channel_isdu flowctrl_start w ∷ [])
unfolding handle od_message isdu_h_sm isdu_h_sm_in isdu_wait3
asked_first dl w now (a, b, c, d, e) early = ground arith

abbrev first_stored : Bytes → Dl → Dl
first_stored rx dl = isdu_timer_reset (
    take_total (record (take_segment (record dl { rxbuffer = rx; trigger = device_message })) {
      current_isdu_seg = 1;
    }))

device_first :
    (dl : Dl) (w now : ℕ) (rx : Bytes)
    → IsWaiting dl w
    → isdu_timer_elapsed now dl ≡ false
    → (let d = take_segment (record dl { rxbuffer = rx; trigger = device_message }) in
        (ltb 1 (d.isdu_data 0) ≡ true) × (valid_isdu_header d ≡ true))
    → handle dl (device now rx) ≡ untriggered (or_wait_for_more (first_stored rx dl))
unfolding handle od_message isdu_h_sm isdu_h_sm_in isdu_wait3 first_segment
device_first dl w now rx (a, b, c, d, e) early (proper, valid) = ground arith

pub told_first :
    (dl : Dl) (resp : Bytes) (w n offset service now : ℕ)
    → IsWaiting dl w
    → 2 ≤ w
    → isdu_timer_elapsed now dl ≡ false
    → IsHeader resp n offset service
    → IsAnswer dl.data_dir_read service
    → HasStored (first_stored (message resp w 0) dl) 1 w n resp
      × (handle dl (device now (message resp w 0))
          ≡ untriggered (or_wait_for_more (first_stored (message resp w 0) dl)))
unfolding get_isdu_total_segments
told_first dl resp w n offset service now waiting wide early header answer =
    let (a, b, c, d, e) = waiting in
    let rx = message resp w 0 in
    let d₀ = take_segment (record dl { rxbuffer = rx; trigger = device_message }) in
    let place : d₀.isdu_data ≡ memcpy dl.isdu_data (0 * w) (bytes_at rx 0 w) = rw (d, e) refl in
    let copied : Agrees d₀.isdu_data resp (1 * w) =
      subst (λ (m : Bytes). Agrees m resp (1 * w)) (sym place)
        (take_segment-Agrees dl.isdu_data resp 0 w (λ i lt. absurd (omega arith))) in
    let begun : Agrees d₀.isdu_data resp 2 = λ i lt. copied i (omega arith) in
    let (total, _) =
      declared (record d₀ { current_isdu_seg = 1 }) resp n offset service header begun in
    let some_segments = segments-le w n (omega arith) (omega arith) in
    let byte : u8 (segments n w) ≡ segments n w = omega arith in
    let len = ap (λ (o : Option ℕ). elim o as (λ _. ℕ) [ none ↦ 0 | some t ↦ t ]) total in
    (
      (
        b,
        c,
        e,
        refl,
        len,
        ap (λ (t : ℕ). u8 ((t + dl.od_len - 1) / dl.od_len)) len ∙ rw e byte,
        copied,
      ),
      device_first dl w now rx waiting early
          (valid_answer d₀ resp n offset service begun header answer),
    )
