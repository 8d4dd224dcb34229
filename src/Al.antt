-- ===== src/Al.antt =====
-- ilink/iolink_al.h: the on-request part of the application layer of one port.
pub mod Errors
pub mod Actions
pub mod Fsm
pub mod Callbacks
pub mod Answers
pub mod Reported
pub mod Services
pub mod Events
pub mod Collected
pub mod Diagnosis
mod Tests
use normans_fork.Prelude.{ℕ, List, Bytes}
use normans_fork.Types.{Status, Direction}

-- `iolink_al_od_state_t`
pub data State : Type 0 where
  onreq_idle build_dl_service await_dl_param_cnf await_dl_isdu_cnf : State

-- `iolink_fsm_al_od_event_t`
pub data Event : Type 0 where
  ev_none ev_service ev_arg_err ev_param_read ev_param_write_1 ev_param_write_2 : Event
  ev_isdu_read ev_isdu_write ev_abort ev_rwparam ev_readparam_cnf ev_writeparam_cnf : Event
  ev_isdutransport_cnf ev_abort_port : Event

-- The jobs of AL_Read_req and AL_Write_req; `client` is the function that is called with the answer.
pub data Request : Type 0 where
  read_req : (client index subindex : ℕ) → Request
  write_req : (client index subindex len : ℕ) (bytes : Bytes) → Request

-- `service` of `iolink_al_port_t`
pub record Service : Type 0 where
  pub index : ℕ  -- uint16
  pub subindex : ℕ  -- uint8
  pub direction : Direction
  pub data_read : Bytes
  pub data_write : Bytes
  pub data_len : ℕ  -- uint8
  pub errinfo : Status
  pub qualifier : ℕ
  pub job_req : Request
  pub client : ℕ

-- `iolink_al_port_t`, as far as on-request data use it.
pub record Al : Type 0 where
  pub od_state : State
  pub service : Service

-- What the layer asks of the data link layer, and what it answers a client. A request for an ISDU
-- shows the bytes that are to be written.
pub data AlCall : Type 0 where
  dl_isdu_req : Direction → (index subindex len : ℕ) (bytes : List ℕ) → AlCall
  dl_read_param : (index : ℕ) → AlCall
  dl_write_param : (index value : ℕ) → AlCall
  read_answer : (client len : ℕ) (bytes : List ℕ) (error : ℕ) → AlCall
  write_answer : (client error : ℕ) → AlCall
  al_assert_failed : AlCall

abbrev pub Effect : Type 0
Effect = Al × List AlCall × Event
