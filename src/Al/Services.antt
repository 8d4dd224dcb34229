-- ===== src/Al/Services.antt =====
-- ilink/iolink_al.c: a whole read and a whole write by an ISDU.
use normans_fork.Types.SmiError
use normans_fork.Prelude.{
  ℕ, ◌+◌, ◌*◌, ◌≤◌, ◌<◌, ◌≡◌, refl, true, false, Option, some, [], ◌∷◌, arith, leb, Bytes, memcpy,
  bytes_at,
}
use normans_fork.Al.{
  onreq_idle, await_dl_isdu_cnf, Request, read_req, write_req, Service, Al, AlCall, dl_isdu_req,
  read_answer, write_answer,
}
use normans_fork.Al.Errors.{
  write_response_neg, read_response_pos, al_status_to_errortype, qualifier_error, isdu_error,
  al_err_to_errortype,
}
use normans_fork.Al.Actions.{
  service_event, take_request, al_od_build_dl_service, answer_in, data_of, al_cnf,
  al_od_send_al_cnf, al_od_isdu_read_write, act,
}
use normans_fork.Al.Fsm.{transitions, find_transition, event_loop, iolink_al_od_event}
use normans_fork.Al.Callbacks.{
  al_read_write_cb, al_dl_isdu_transport_cnf_cb, copy_response, store_response, request,
  isdu_response, isdu_cnf, handle, handle_all,
}
use normans_fork.Al.Answers.{handle_all-cons}
use normans_fork.Prelude.Memory.Laws.{bytes_at-memcpy, length-bytes_at}
use normans_fork.Types.{Status, status_no_error, reading, writing, isdu_max_size}

-- The layer that waits for the ISDU of a request.
abbrev asked : Request → Al → Al
asked req al = record al {
  od_state = await_dl_isdu_cnf;
  service = take_request req (record (al.service) { job_req = req });
}

request_read :
    (al : Al) (client index subindex : ℕ)
    → al.od_state ≡ onreq_idle
    → 2 ≤ index
    → handle al (request (read_req client index subindex))
      ≡ some
          (asked (read_req client index subindex) al, dl_isdu_req reading index subindex 0 [] ∷ [])
unfolding handle al_read_write_cb iolink_al_od_event event_loop find_transition transitions act
    al_od_build_dl_service service_event take_request al_od_isdu_read_write
request_read al client index subindex h large = ground arith

request_write :
    (al : Al) (client index subindex len : ℕ) (bytes : Bytes)
    → al.od_state ≡ onreq_idle
    → 2 ≤ index
    → handle al (request (write_req client index subindex len bytes))
      ≡ some (
        asked (write_req client index subindex len bytes) al,
        dl_isdu_req writing index subindex len (bytes_at bytes 0 len) ∷ [],
      )
unfolding handle al_read_write_cb iolink_al_od_event event_loop find_transition transitions act
    al_od_build_dl_service service_event take_request al_od_isdu_read_write
request_write al client index subindex len bytes h large = ground arith

-- The job that confirms an ISDU.
confirmed :
    (al : Al) (qualifier : ℕ) (stat : Status)
    → al.od_state ≡ await_dl_isdu_cnf
    → let s = record (al.service) { errinfo = stat; qualifier = qualifier } in
      handle al (isdu_cnf qualifier stat)
      ≡ some (
        record al { od_state = onreq_idle; service = s },
        answer_in s.direction s.data_len (data_of s) (al_err_to_errortype true s) s.client ∷ [],
      )
unfolding handle al_dl_isdu_transport_cnf_cb iolink_al_od_event event_loop find_transition
    transitions act al_od_send_al_cnf al_cnf
confirmed al qualifier stat h = ground arith

-- The service when the response to its ISDU has come and is confirmed.
abbrev responded : Request → Al → Option Bytes → (len qualifier : ℕ) → Status → Service
responded req al response len qualifier stat =
    record (store_response response len qualifier stat (asked req al).service) {
      errinfo = stat;
      qualifier = qualifier;
    }

abbrev isdu_answer : Service → AlCall
isdu_answer s = answer_in s.direction s.data_len (data_of s) (al_err_to_errortype true s) s.client

-- A request, the response of the device, and its confirmation.
exchange :
    (al : Al) (req : Request) (call : AlCall) (response : Option Bytes) (len qualifier : ℕ)
    (stat : Status)
    → handle al (request req) ≡ some (asked req al, call ∷ [])
    → handle_all al
        (request req ∷ isdu_response response len qualifier stat ∷ isdu_cnf qualifier stat ∷ [])
      ≡ some (
        record { od_state = onreq_idle; service = responded req al response len qualifier stat },
        call ∷ isdu_answer (responded req al response len qualifier stat) ∷ [],
      )
unfolding handle_all handle
exchange al req call response len qualifier stat h =
    let stored = record (asked req al) {
      service = store_response response len qualifier stat (asked req al).service;
    } in
    let d : Al = record {
      od_state = onreq_idle;
      service = responded req al response len qualifier stat;
    } in
    handle_all-cons al (asked req al) d (request req)
      (isdu_response response len qualifier stat ∷ isdu_cnf qualifier stat ∷ []) (call ∷ []) _ h
      (handle_all-cons (asked req al) stored d (isdu_response response len qualifier stat)
        (isdu_cnf qualifier stat ∷ []) [] _ refl
        (handle_all-cons stored d d (isdu_cnf qualifier stat) [] _ []
          (confirmed stored qualifier stat refl) refl))

-- In an idle layer, a read of an index from 2 on becomes one request for an ISDU, and a positive
-- response of at most 241 bytes that comes without an error is handed to the client as it is. The
-- layer is then idle.
pub isdu_read_service :
    (al : Al) (client index subindex len : ℕ) (response : Bytes)
    → al.od_state ≡ onreq_idle
    → 2 ≤ index
    → len ≤ isdu_max_size
    → (d : Al) × (handle_all al (
          request (read_req client index subindex)
          ∷ isdu_response (some response) len read_response_pos status_no_error
          ∷ isdu_cnf read_response_pos status_no_error
          ∷ [])
        ≡ some (
          d,
          dl_isdu_req reading index subindex 0 []
              ∷ read_answer client len (bytes_at response 0 len) SmiError.no_error
              ∷ [],
        ))
      × (d.od_state ≡ onreq_idle)
unfolding store_response copy_response take_request answer_in al_err_to_errortype isdu_error
    qualifier_error al_status_to_errortype
isdu_read_service al client index subindex len response h large fits =
    let req = read_req client index subindex in
    let s = responded req al (some response) len read_response_pos status_no_error in
    let test : leb len isdu_max_size ≡ true = ground arith in
    let copied =
      rw (length-bytes_at len response 0) at
        (bytes_at-memcpy (bytes_at response 0 len) al.service.data_read 0) in
    let answer : isdu_answer s
        ≡ read_answer client len (bytes_at response 0 len) SmiError.no_error =
      rw (test, copied) in
    (
      record { od_state = onreq_idle; service = s },
      rw answer at (
          exchange al req _ (some response) len read_response_pos status_no_error
            (request_read al client index subindex h large)),
      refl,
    )

-- In an idle layer, a read of an index from 2 on whose positive response comes without an error
-- but has more than 241 bytes is told to the client as a success with no bytes. The layer is then
-- idle.
pub isdu_read_too_long :
    (al : Al) (client index subindex len : ℕ) (response : Bytes)
    → al.od_state ≡ onreq_idle
    → 2 ≤ index
    → isdu_max_size < len
    → (d : Al) × (handle_all al (
          request (read_req client index subindex)
          ∷ isdu_response (some response) len read_response_pos status_no_error
          ∷ isdu_cnf read_response_pos status_no_error
          ∷ [])
        ≡ some (
          d,
          dl_isdu_req reading index subindex 0 [] ∷ read_answer client 0 [] SmiError.no_error ∷ [],
        ))
      × (d.od_state ≡ onreq_idle)
unfolding store_response copy_response take_request answer_in al_err_to_errortype isdu_error
    qualifier_error al_status_to_errortype bytes_at
isdu_read_too_long al client index subindex len response h large long =
    let req = read_req client index subindex in
    let s = responded req al (some response) len read_response_pos status_no_error in
    let test : leb len isdu_max_size ≡ false = ground arith in
    let answer : isdu_answer s ≡ read_answer client 0 [] SmiError.no_error = rw test in
    (
      record { od_state = onreq_idle; service = s },
      rw answer at (
          exchange al req _ (some response) len read_response_pos status_no_error
            (request_read al client index subindex h large)),
      refl,
    )

-- In an idle layer, a write of an index from 2 on becomes one request for an ISDU with the
-- client's bytes. Where a negative response of two bytes comes, the client is told the error that
-- they spell. The layer is then idle.
pub isdu_write_refused :
    (al : Al) (client index subindex len : ℕ) (bytes response : Bytes)
    → al.od_state ≡ onreq_idle
    → 2 ≤ index
    → (d : Al) × (handle_all al (
          request (write_req client index subindex len bytes)
          ∷ isdu_response (some response) 2 write_response_neg status_no_error
          ∷ isdu_cnf write_response_neg status_no_error
          ∷ [])
        ≡ some (
          d,
          dl_isdu_req writing index subindex len (bytes_at bytes 0 len)
              ∷ write_answer client (response 0 * 256 + response 1)
              ∷ [],
        ))
      × (d.od_state ≡ onreq_idle)
unfolding store_response copy_response take_request answer_in al_err_to_errortype isdu_error
    qualifier_error al_status_to_errortype bytes_at memcpy
isdu_write_refused al client index subindex len bytes response h large =
    let req = write_req client index subindex len bytes in
    let s = responded req al (some response) 2 write_response_neg status_no_error in
    let answer : isdu_answer s ≡ write_answer client (response 0 * 256 + response 1) =
      ground arith in
    (
      record { od_state = onreq_idle; service = s },
      rw answer at (
          exchange al req _ (some response) 2 write_response_neg status_no_error
            (request_write al client index subindex len bytes h large)),
      refl,
    )
