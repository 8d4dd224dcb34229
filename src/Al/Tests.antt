-- ===== src/Al/Tests.antt =====
-- ilink/iolink_al.c on concrete inputs.
use normans_fork.Types.SmiError
use normans_fork.Prelude.{ℕ, ◌+◌, ◌≡◌, refl, ◌≢◌, ◌⊎◌, true, some, List, [], ◌∷◌, arith, bytes_at}
use normans_fork.Al.{
  onreq_idle, read_req, write_req, Service, Al, AlCall, dl_isdu_req, read_answer, write_answer,
}
use normans_fork.Al.Errors.{
  write_response_neg, read_response_neg, read_response_pos, al_status_to_errortype, qualifier_error,
  isdu_error, al_err_to_errortype,
}
use normans_fork.Al.Callbacks.{Input, request, isdu_response, isdu_cnf, abort, handle_all}
use normans_fork.Al.Answers.{
  answers_to, asserts, is_request_of, requests_of, waiting_of, IsResting, answers-requests_of,
}
use normans_fork.Al.Reported.{read_success}
use normans_fork.Al.Services.{isdu_read_service, isdu_read_too_long, isdu_write_refused}
use normans_fork.Types.{status_no_error, isdu_checksum_error, reading, writing}
use normans_fork.Al.Events.{
  event_idle, du_event_handling, DiagEntry, Events, al_event_ind, dl_event, al_event_rsp,
  handle_events,
}
use normans_fork.Al.Diagnosis.{sets, reports, IsSmall, sets-reports, late_event_lost}
use normans_fork.Al.Collected.{indications}

abbrev idle : Al
idle = record {
  od_state = onreq_idle;
  service = record {
    index = 0;
    subindex = 0;
    direction = writing;
    data_read = λ i. 0;
    data_write = λ i. 0;
    data_len = 0;
    errinfo = status_no_error;
    qualifier = 0;
    job_req = read_req 0 0 0;
    client = 0;
  };
}

abbrev jobs : List Input
jobs =
    request (read_req 1 16 0)
    ∷ request (write_req 2 24 0 3 (λ i. i))
    ∷ abort
    ∷ isdu_cnf read_response_pos status_no_error
    ∷ request (read_req 1 0 0)
    ∷ []

answers-requests_of_example :
    (d : Al) × (calls : List AlCall) × (handle_all idle jobs ≡ some (d, calls))
    × IsResting d.od_state
    × (asserts calls ≡ 0)
    × (answers_to 1 calls + waiting_of 1 d.od_state d.service ≡ 2)
unfolding requests_of is_request_of waiting_of IsResting
answers-requests_of_example = answers-requests_of 1 jobs idle tt

isdu_read_service_example :
    (d : Al) × (handle_all idle (
        request (read_req 1 16 2)
        ∷ isdu_response (some (λ i. i + 5)) 2 read_response_pos status_no_error
        ∷ isdu_cnf read_response_pos status_no_error
        ∷ [])
      ≡ some (d, dl_isdu_req reading 16 2 0 [] ∷ read_answer 1 2 (5 ∷ 6 ∷ []) 0 ∷ []))
    × (d.od_state ≡ onreq_idle)
unfolding bytes_at
isdu_read_service_example =
    isdu_read_service idle 1 16 2 2 (λ i. i + 5) refl (omega arith) (omega arith)

isdu_read_too_long_example :
    (d : Al) × (handle_all idle (
        request (read_req 1 16 2)
        ∷ isdu_response (some (λ i. i + 5)) 250 read_response_pos status_no_error
        ∷ isdu_cnf read_response_pos status_no_error
        ∷ [])
      ≡ some (d, dl_isdu_req reading 16 2 0 [] ∷ read_answer 1 0 [] 0 ∷ []))
    × (d.od_state ≡ onreq_idle)
isdu_read_too_long_example =
    isdu_read_too_long idle 1 16 2 250 (λ i. i + 5) refl (omega arith) (omega arith)

isdu_write_refused_example :
    (d : Al) × (handle_all idle (
        request (write_req 2 24 0 2 (λ i. i + 65))
        ∷ isdu_response (some (λ i. 0x80)) 2 write_response_neg status_no_error
        ∷ isdu_cnf write_response_neg status_no_error
        ∷ [])
      ≡ some (d, dl_isdu_req writing 24 0 2 (65 ∷ 66 ∷ []) ∷ write_answer 2 0x8080 ∷ []))
    × (d.od_state ≡ onreq_idle)
unfolding bytes_at
isdu_write_refused_example =
    isdu_write_refused idle 2 24 0 2 (λ i. i + 65) (λ i. 0x80) refl (omega arith)

-- A response whose checksum was wrong.
abbrev garbled : Service
garbled = record (idle.service) {
  direction = reading;
  errinfo = isdu_checksum_error;
  qualifier = read_response_pos;
}

garbled-ne_no_error : garbled.errinfo ≢ status_no_error
garbled-ne_no_error = λ e. cc

-- A negative response that spells no error.
abbrev no_reason : Service
no_reason = record (idle.service) {
  direction = reading;
  qualifier = read_response_neg;
  data_len = 2;
}

no_reason-no_error : al_err_to_errortype true no_reason ≡ SmiError.no_error
unfolding al_err_to_errortype isdu_error qualifier_error al_status_to_errortype
no_reason-no_error = refl

read_success_example :
    (no_reason.errinfo ≡ status_no_error)
    × ((no_reason.qualifier ≡ read_response_pos)
        ⊎ ((no_reason.qualifier ≡ read_response_neg)
            × (no_reason.data_len ≡ 2)
            × (no_reason.data_read 0 ≡ 0)
            × (no_reason.data_read 1 ≡ 0)))
read_success_example = read_success no_reason refl no_reason-no_error

-- Three events of a device, as its numbers.
abbrev entry : ℕ → DiagEntry
entry n = record { event_qualifier = n; event_code = 100 + n }

abbrev events_idle : Events
events_idle = record { event_state = event_idle; event_cnt = 0; events = λ i. entry 0 }

sets-reports_example :
    let (end, calls) = handle_events events_idle (
      dl_event 2 (entry 1)
      ∷ dl_event 1 (entry 2)
      ∷ dl_event 0 (entry 3)
      ∷ al_event_rsp
      ∷ dl_event 0 (entry 4)
      ∷ al_event_rsp
      ∷ []) in
    (end.event_state ≡ event_idle)
    × (end.event_cnt ≡ 0)
    × (calls
        ≡ al_event_ind 3 (entry 1 ∷ entry 2 ∷ entry 3 ∷ []) ∷ al_event_ind 1 (entry 4 ∷ []) ∷ [])
unfolding sets indications reports IsSmall
sets-reports_example =
    sets-reports ((entry 1 ∷ entry 2 ∷ [], entry 3) ∷ ([], entry 4) ∷ []) events_idle refl refl
      (omega arith, (omega arith, tt))

late_event_lost_example :
    let (end, calls) =
      handle_events
        (record events_idle { event_state = du_event_handling; event_cnt = 1 })
        (dl_event 0 (entry 2) ∷ al_event_rsp ∷ []) in
    (end.event_state ≡ event_idle) × (end.event_cnt ≡ 0) × (calls ≡ [])
late_event_lost_example =
    late_event_lost (record events_idle { event_state = du_event_handling; event_cnt = 1 }) 0
      (entry 2) refl (omega arith)
