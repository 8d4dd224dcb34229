-- ===== src/Al/Actions.antt =====
-- ilink/iolink_al.c: the actions of the on-request state machine, its tables and its loop.
use normans_fork.Types.SmiError
use normans_fork.Prelude.{
  ℕ, Bool, true, false, List, [], ◌∷◌, ◌++◌, leb, ◌==◌, if◌then◌else◌, bytes_at,
}
use normans_fork.Al.{
  Event, ev_none, ev_arg_err, ev_param_read, ev_param_write_1, ev_param_write_2, ev_isdu_read,
  ev_isdu_write, ev_abort, ev_readparam_cnf, ev_writeparam_cnf, ev_isdutransport_cnf, Request,
  read_req, write_req, Service, Al, AlCall, dl_isdu_req, dl_read_param, dl_write_param, read_answer,
  write_answer, al_assert_failed, Effect,
}
use normans_fork.Al.Errors.{al_err_to_errortype}
use normans_fork.Types.{parameter_conflict, Direction, reading, writing}

-- `al_od_busy`
unfoldable pub busy_answer : Request → AlCall
busy_answer (read_req client index subindex) =
    read_answer client 0 [] SmiError.service_temp_unavailable
busy_answer (write_req client index subindex len bytes) =
    write_answer client SmiError.service_temp_unavailable

unfoldable pub al_od_busy : Al → Effect
unfolding busy_answer
al_od_busy al = (al, busy_answer al.service.job_req ∷ [], ev_none)

-- The event that `al_od_build_dl_service` chooses; `isdu_flag` is always true.
unfoldable pub service_event : Request → Event
service_event (read_req client index subindex) = if leb index 1 then ev_param_read else ev_isdu_read
service_event (write_req client index subindex len bytes) =
    if index == 1 then ev_param_write_1 else if leb 2 index then ev_isdu_write else ev_arg_err

-- The fields that `al_od_build_dl_service` takes from the job.
unfoldable pub take_request : Request → Service → Service
take_request (read_req client index subindex) s = record s {
  data_len = 0;
  index = index;
  subindex = subindex;
  direction = reading;
  client = client;
}
take_request (write_req client index subindex len bytes) s = record s {
  index = index;
  subindex = subindex;
  data_len = len;
  direction = writing;
  data_write = bytes;
  client = client;
}

abbrev is_arg_err : Event → Bool
is_arg_err ev_arg_err = true
is_arg_err _ = false

unfoldable pub al_od_build_dl_service : Al → Effect
unfolding service_event take_request
al_od_build_dl_service al =
    let s = take_request al.service.job_req al.service in
    let e = service_event al.service.job_req in
    (
      record al { service = if is_arg_err e then record s { errinfo = parameter_conflict } else s },
      [],
      e,
    )

-- The confirmation that belongs to the direction of the service.
unfoldable pub answer_in : Direction → (len : ℕ) (bytes : List ℕ) (error client : ℕ) → AlCall
answer_in reading len bytes error client = read_answer client len bytes error
answer_in writing len bytes error client = write_answer client error

abbrev pub data_of : Service → List ℕ
data_of s = bytes_at s.data_read 0 s.data_len

-- The `switch` of `al_od_send_al_cnf`.
unfoldable pub al_cnf : Event → Service → AlCall
unfolding answer_in
al_cnf ev_abort s = answer_in s.direction 0 [] (al_err_to_errortype false s) s.client
al_cnf ev_arg_err s = answer_in s.direction 0 [] (al_err_to_errortype false s) s.client
al_cnf ev_readparam_cnf s =
    read_answer s.client s.data_len (data_of s) (al_err_to_errortype false s)
al_cnf ev_isdutransport_cnf s =
    answer_in s.direction s.data_len (data_of s) (al_err_to_errortype true s) s.client
al_cnf ev_writeparam_cnf s = write_answer s.client (al_err_to_errortype false s)
al_cnf _ s = al_assert_failed

unfoldable pub al_od_send_al_cnf : Event → Al → Effect
unfolding al_cnf
al_od_send_al_cnf e al = (al, al_cnf e al.service ∷ [], ev_none)

-- `al_od_isdu_read_write`; a request that DL_ISDUTransport_req refuses is logged.
unfoldable pub al_od_isdu_read_write : Direction → Al → Effect
al_od_isdu_read_write reading al = (
  al,
  dl_isdu_req reading al.service.index al.service.subindex al.service.data_len [] ∷ [],
  ev_none,
)
al_od_isdu_read_write writing al = (
  al,
  dl_isdu_req writing al.service.index al.service.subindex al.service.data_len
        (bytes_at al.service.data_write 0 al.service.data_len)
      ∷ [],
  ev_none,
)

unfoldable pub al_od_param_read : Al → Effect
al_od_param_read al = (al, dl_read_param al.service.index ∷ [], ev_none)

-- The assertions of `al_od_param_write`.
unfoldable pub param_write_asserts : Event → ℕ → List AlCall
param_write_asserts ev_param_write_1 index = if index == 1 then [] else al_assert_failed ∷ []
param_write_asserts ev_param_write_2 index = if index == 2 then [] else al_assert_failed ∷ []
param_write_asserts _ index = al_assert_failed ∷ []

unfoldable pub al_od_param_write : Event → Al → Effect
unfolding param_write_asserts
al_od_param_write e al = (
  al,
  param_write_asserts e al.service.index
      ++ (dl_write_param al.service.index (al.service.data_write 0) ∷ []),
  ev_none,
)

-- The function pointers of the transition tables.
pub data Action : Type 0 where
  do_busy do_build do_send_cnf do_send_abort do_isdu_read do_isdu_write : Action
  do_param_read do_param_write do_next_rw : Action

unfoldable pub act : Action → Event → Al → Effect
unfolding al_od_busy al_od_build_dl_service al_od_send_al_cnf al_od_isdu_read_write al_od_param_read
    al_od_param_write
act do_busy e al = al_od_busy al
act do_build e al = al_od_build_dl_service al
act do_send_cnf e al = al_od_send_al_cnf e al
act do_send_abort e al = (al, [], ev_none)
act do_isdu_read e al = al_od_isdu_read_write reading al
act do_isdu_write e al = al_od_isdu_read_write writing al
act do_param_read e al = al_od_param_read al
act do_param_write e al = al_od_param_write e al
act do_next_rw e al = (al, [], ev_none)
