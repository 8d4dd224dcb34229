-- ===== src/Pde.antt =====
-- ilink/iolink_pde.h: the process data exchange of one port, with the process data that the
-- application layer and the data link layer keep for it.
pub mod Data
pub mod Checks
pub mod Callbacks
pub mod Answers
pub mod Output
pub mod Written
pub mod Transfers
mod Tests
use normans_fork.Prelude.{ℕ, Bool, List, Bytes}

-- `iolink_pde_state_t`
pub data PdState : Type 0 where
  pd_inactive pd_active : PdState

-- `iolink_controlcode_t`
pub data ControlCode : Type 0 where
  code_none code_valid code_invalid code_pdoutvalid code_pdoutinvalid code_devicemode : ControlCode

-- `iolink_pde_port_t`, the port's status and quality, the input data of the application layer, and of
-- the handler of process data whether it is inactive, its output data and their length.
pub record Pde : Type 0 where
  pub state : PdState
  pub output_enable : Bool
  pub port_status_info : ℕ
  pub port_quality_info : ℕ
  pub pdin_data : Bytes
  pub pdin_data_len : ℕ  -- uint8
  pub pdh_inactive : Bool
  pub pdoutdata : Bytes
  pub pd_txlen : ℕ  -- uint8

-- `arg_block_t` with what follows it: for an output the enable byte `oe`, the length and the data.
pub record PdBlock : Type 0 where
  pub id : ℕ
  pub oe : ℕ  -- uint8
  pub len : ℕ  -- uint8
  pub bytes : Bytes

-- What is asked of the client, of the hardware and of the handler of commands.
pub data PdCall : Type 0 where
  -- `iolink_smi_cnf`: the reference id, the length, and the block's id and bytes behind it
  block_cnf : (ref_id len exp_id : ℕ) (bytes : List ℕ) → PdCall
  -- `iolink_smi_voidblock_cnf`
  void_cnf : (ref_id : ℕ) → PdCall
  -- `iolink_smi_joberror_ind`
  job_error : (exp_id ref_id error : ℕ) → PdCall
  -- `drv->ops->write_do`
  write_do : Bool → PdCall
  -- `iolink_dl_cmd_h_sm` with this control code
  command : ControlCode → PdCall
  -- `iolink_post_job_pd_event`
  pd_event : (bytes : List ℕ) → PdCall
  -- an assertion that does not hold
  pd_assert_failed : PdCall

-- IOLINK_PORT_STATUS_INFO_DI and IOLINK_PORT_STATUS_INFO_DO
abbrev pub status_di : ℕ
status_di = 5

abbrev pub status_do : ℕ
status_do = 6

-- IOLINK_PD_MAX_SIZE
abbrev pub pd_max_size : ℕ
pd_max_size = 32
