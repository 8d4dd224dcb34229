-- ===== src/Cm.antt =====
-- ilink/iolink_cm.h: the configuration manager of one port.
pub mod Config
pub mod Actions
pub mod Fsm
pub mod Callbacks
pub mod Served
pub mod Answers
pub mod Valid
mod Tests
use normans_fork.Prelude.{ℕ, List}
use normans_fork.Types.{DsFault}
use normans_fork.Sm.{MhMode, ParameterList}

-- `iolink_cm_state_t`
pub data CmState : Type 0 where
  check_port_mode sm_startup ds_param_manager port_fault waiting_on_operate : CmState
  port_active port_dido port_deactivated : CmState

-- `iolink_fsm_cm_event_t`
pub data CmEvent : Type 0 where
  cm_none cm_iol_manual cm_iol_autostart cm_sm_comready cm_sm_fault cm_ds_ready : CmEvent
  cm_ds_fault cm_sm_operate cm_sm_comlost cm_di_cq cm_do_cq cm_deactivated : CmEvent
  cm_cfg_change cm_ds_change cm_unknown cm_sm_comlost_ds : CmEvent

-- `portconfiglist_t`, which a client fills in with any bytes.
pub record PortConfigList : Type 0 where
  pub portmode : ℕ  -- uint8
  pub validation_backup : ℕ  -- uint8
  pub iq_behavior : ℕ  -- uint8
  pub port_cycle_time : ℕ  -- uint8
  pub vendorid : ℕ  -- uint16
  pub deviceid : ℕ  -- uint32
  pub in_buffer_len : ℕ  -- uint8
  pub out_buffer_len : ℕ  -- uint8

-- `iolink_port_info_t`, without the fields that no one sets
pub record PortInfoList : Type 0 where
  pub deviceid : ℕ
  pub vendorid : ℕ
  pub revisionid : ℕ
  pub cycletime : ℕ
  pub port_quality_info : ℕ
  pub port_status_info : ℕ
  pub transmission_rate : ℕ

-- `iolink_smi_service_req_t`, with the id and the configuration of its block
pub record ConfigReq : Type 0 where
  pub exp_id : ℕ
  pub ref_id : ℕ
  pub len : ℕ  -- uint16
  pub configlist : PortConfigList

-- `iolink_cm_port_t` and the port's information
pub record Cm : Type 0 where
  pub state : CmState
  pub smi_req : ConfigReq
  pub cfg_list : PortConfigList
  pub ds_fault : DsFault
  pub port_info : PortInfoList

-- What the other components tell a job: the parameters of the device and its baud rate, from SM; the
-- ids of the data set, from DS; the number of ports; and the sizes of `diag_entry_t *` and
-- `iolink_port_types_t`, which the compiler determines.
pub record Around : Type 0 where
  pub real_paramlist : ParameterList
  pub comrate : MhMode
  pub backup_vid : ℕ
  pub backup_did : ℕ
  pub port_cnt : ℕ  -- uint8
  pub pointer_size : ℕ
  pub port_type_size : ℕ

-- `arg_block_portevent_t`, `arg_block_masterident_t`, `arg_block_portconfiglist_t` and
-- `arg_block_portstatuslist_t`
pub data CmBlock : Type 0 where
  event_block : (event_qualifier event_code : ℕ) → CmBlock
  ident_block :
      (vendorid masterid master_type features_1 features_2 max_number_of_ports : ℕ)
      (port_types : List ℕ)
      → CmBlock
  config_block : PortConfigList → CmBlock
  status_block : PortInfoList → CmBlock

-- What the configuration manager asks of the other components and tells the client.
pub data CmCall : Type 0 where
  ds_init : PortConfigList → CmCall
  ds_delete ds_startup : CmCall
  sm_set_port_config : ParameterList → CmCall
  sm_operate_req : CmCall
  od_start od_stop pd_start pd_stop : CmCall
  -- `iolink_smi_cnf`: the reference id, the length and the block
  cm_cnf : (ref_id len : ℕ) → CmBlock → CmCall
  -- `iolink_smi_voidblock_cnf`
  cm_void_cnf : (ref_id : ℕ) → CmCall
  -- `iolink_smi_joberror_ind`
  cm_job_error : (exp_id ref_id error : ℕ) → CmCall
  -- an assertion that does not hold
  cm_assert_failed : CmCall
