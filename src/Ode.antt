-- ===== src/Ode.antt =====
-- ilink/iolink_ode.h and the types of ilink/iolink_ode.c: the on-request data exchange of one port.
pub mod Actions
pub mod Callbacks
pub mod Answers
pub mod Served
pub mod Transfers
pub mod Refusals
mod Tests
use normans_fork.Prelude.{ℕ, List, Bytes}
use normans_fork.Types.{Call}

-- `iolink_ode_state_t`
pub data State : Type 0 where
  inactive od_active od_blocked : State

-- `iolink_fsm_ode_event_t`
pub data Event : Type 0 where
  ev_none ev_smi_dev_rw_1 ev_od_start ev_od_stop ev_smi_dev_rw_4 ev_od_block : Event
  ev_smi_dev_rw_6 ev_od_unblock : Event

-- `arg_block_od_t`, with the id that stands first in every ArgBlock. The data are the client's
-- memory from the field `data` on.
pub record OdBlock : Type 0 where
  pub id : ℕ
  pub index : ℕ  -- uint16
  pub subindex : ℕ  -- uint8
  pub bytes : Bytes

-- `iolink_smi_service_req_t`
pub record SmiReq : Type 0 where
  pub exp_id : ℕ
  pub len : ℕ  -- uint16, `arg_block_len`
  pub block : OdBlock
  pub result : ℕ

-- `iolink_ode_port_t`; `busy` is the request of `job_smi_req_busy`.
pub record Ode : Type 0 where
  pub state : State
  pub smi_req : SmiReq
  pub busy : SmiReq

-- sizeof (arg_block_od_t)
abbrev pub head_size : ℕ
head_size = 5

abbrev pub Effect : Type 0
Effect = Ode × List Call × Event
