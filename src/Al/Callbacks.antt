-- ===== src/Al/Callbacks.antt =====
-- ilink/iolink_al.c: the jobs of on-request data, and DL_ISDUTransport_cnf.
use normans_fork.Prelude.{
  ℕ, ◌+◌, Bool, true, false, Option, none, some, List, [], ◌∷◌, leb, ◌==◌, if◌then◌else◌, u8, Bytes,
  update, memcpy, bytes_at,
}
use normans_fork.Al.{
  State, onreq_idle, ev_service, ev_abort, ev_readparam_cnf, ev_writeparam_cnf,
  ev_isdutransport_cnf, ev_abort_port, Request, Service, Al,
}
use normans_fork.Al.Errors.{write_response_neg, is_no_error}
use normans_fork.Al.Fsm.{Run, ◌>>=◌, iolink_al_od_event}
use normans_fork.Types.{Status, isdu_abort, reading, writing, isdu_max_size}

-- `al_read_write_cb`
unfoldable pub al_read_write_cb : Request → Al → Run
al_read_write_cb req al =
    iolink_al_od_event (record al { service = record (al.service) { job_req = req } }) ev_service

-- `al_dl_readparam_cnf_cb`
unfoldable pub al_dl_readparam_cnf_cb : ℕ → Status → Al → Run
al_dl_readparam_cnf_cb value stat al =
    let s = al.service in
    iolink_al_od_event
      (record al {
        service = record s {
          data_read = update s.data_read s.data_len value;
          data_len = u8 (s.data_len + 1);
          errinfo = stat;
        };
      })
      ev_readparam_cnf

-- `al_dl_writeparam_cnf_cb`; `octets_left` is always false.
unfoldable pub al_dl_writeparam_cnf_cb : Status → Al → Run
al_dl_writeparam_cnf_cb stat al =
    iolink_al_od_event (record al { service = record (al.service) { errinfo = stat } })
      ev_writeparam_cnf

-- `al_dl_isdu_transport_cnf_cb`
unfoldable pub al_dl_isdu_transport_cnf_cb : ℕ → Status → Al → Run
al_dl_isdu_transport_cnf_cb qualifier stat al =
    iolink_al_od_event
      (record al { service = record (al.service) { errinfo = stat; qualifier = qualifier } })
      ev_isdutransport_cnf

abbrev is_idle : State → Bool
is_idle onreq_idle = true
is_idle _ = false

-- `al_abort_cb`
unfoldable pub al_abort_cb : Al → Run
al_abort_cb al =
    iolink_al_od_event
      (record al { service = record (al.service) { errinfo = isdu_abort; data_len = 0 } })
      (if is_idle al.od_state then ev_abort_port else ev_abort)

-- The copy of a response, where there is one and it fits.
unfoldable pub copy_response : Option Bytes → ℕ → Service → Service
copy_response none len s = s
copy_response (some response) len s =
    if leb len isdu_max_size
    then record s { data_read = memcpy s.data_read 0 (bytes_at response 0 len); data_len = len }
    else s

-- What DL_ISDUTransport_cnf stores before it posts the job.
unfoldable pub store_response : Option Bytes → ℕ → ℕ → Status → Service → Service
unfolding copy_response
store_response response len qualifier stat s = elim s.direction [
  | reading ↦ if is_no_error stat then copy_response response len s else s
  | writing ↦ if qualifier == write_response_neg then copy_response response len s else s
]

-- The jobs that AL_Read_req, AL_Write_req, DL_ReadParam_cnf, DL_WriteParam_cnf, DL_ISDUTransport_cnf
-- and AL_Abort post, and the part of DL_ISDUTransport_cnf that runs at once.
pub data Input : Type 0 where
  request : Request → Input
  readparam_cnf : (value : ℕ) → Status → Input
  writeparam_cnf : Status → Input
  isdu_response : Option Bytes → (len qualifier : ℕ) → Status → Input
  isdu_cnf : (qualifier : ℕ) → Status → Input
  abort : Input

unfoldable pub handle : Al → Input → Run
unfolding al_read_write_cb al_dl_readparam_cnf_cb al_dl_writeparam_cnf_cb
    al_dl_isdu_transport_cnf_cb al_abort_cb store_response
handle al (request req) = al_read_write_cb req al
handle al (readparam_cnf value stat) = al_dl_readparam_cnf_cb value stat al
handle al (writeparam_cnf stat) = al_dl_writeparam_cnf_cb stat al
handle al (isdu_response response len qualifier stat) =
    some (record al { service = store_response response len qualifier stat al.service }, [])
handle al (isdu_cnf qualifier stat) = al_dl_isdu_transport_cnf_cb qualifier stat al
handle al abort = al_abort_cb al

unfoldable pub handle_all : Al → List Input → Run
handle_all al [] = some (al, [])
handle_all al (i ∷ inputs) = handle al i >>= λ d. handle_all d inputs
