-- ===== src/Sm.antt =====
-- ilink/iolink_sm.h: the system management of one port, which starts up the device and checks that it
-- is the one that is configured.
pub mod Mseq
pub mod Actions
pub mod Fsm
pub mod Startup
pub mod Callbacks
pub mod Confirmations
pub mod Checked
pub mod Sound
pub mod Announced
pub mod Runs
pub mod Reached
pub mod Lengths
pub mod Stuck
pub mod Partner
pub mod Starting
pub mod Identified
pub mod Started
mod Tests
use normans_fork.Prelude.{ℕ, List, Bytes}

-- `iolink_sm_state_t`
pub data SmState : Type 0 where
  port_inactive wait_on_dl_preoperate check_ser_num sm_wait sm_operate inspection_fault : SmState
  wait_on_dl_operate dido read_com_parameter check_comp_v10 check_vxy check_comp : SmState
  restart_device wait_for_fallback write_master_cycl wait_devmode_cnf : SmState

-- `iolink_fsm_sm_event_t`
pub data SmEvent : Type 0 where
  ev_none ev_dl_mode_startup ev_comp_ok ev_dl_mode_comlost ev_v10_comp_ok : SmEvent
  ev_v10_comp_fault ev_revision_fault ev_comp_fault ev_dl_mode_preoperate : SmEvent
  ev_dl_mode_operate ev_ser_num_ok ev_ser_num_fault ev_sm_operate ev_sm_operate_v10 : SmEvent
  ev_set_inactive ev_set_com ev_set_dido ev_cyc_time_fault ev_cyc_time_fault_v10 : SmEvent
  ev_v10 ev_not_v10 ev_revision_ok ev_retry_startup ev_write_done ev_cnf_comlost : SmEvent
  ev_write_master_cycl_req ev_write_master_cycl_done : SmEvent

-- `iolink_mhmode_t`
pub data MhMode : Type 0 where
  mh_inactive mh_com1 mh_com2 mh_com3 mh_comlost mh_estabcom mh_startup : MhMode
  mh_preoperate mh_operate : MhMode

-- `iolink_sm_target_mode_t`
pub data TargetMode : Type 0 where
  target_cfgcom target_autocom target_inactive target_di target_do : TargetMode

-- `iolink_inspectionlevel_t`
pub data InspectionLevel : Type 0 where
  no_check type_comp identical : InspectionLevel

-- `iolink_sm_portmode_t`
pub data PortMode : Type 0 where
  portmode_inactive portmode_di portmode_do portmode_comready portmode_operate : PortMode
  portmode_comlost portmode_revision_fault portmode_comp_fault : PortMode
  portmode_sernum_fault portmode_cyctime_fault : PortMode

-- `iolink_dl_mode_t`
pub data DlMode : Type 0 where
  dlmode_inactive dlmode_startup dlmode_preoperate dlmode_operate : DlMode

-- `iolink_pl_mode_t`
pub data PlMode : Type 0 where
  pl_inactive pl_do pl_di pl_sdci : PlMode

-- `iolink_msequencetype_t`
pub data MseqType : Type 0 where
  type_none type_0 type_1_1 type_1_2 type_1_v type_2_1 type_2_2 type_2_3 type_2_4 : MseqType
  type_2_5 type_2_6 type_2_v : MseqType

-- `iolink_mode_vl_t`
pub record ModeList : Type 0 where
  pub time : ℕ  -- uint8
  pub mseq : MseqType
  pub pdinputlength : ℕ  -- uint8
  pub pdoutputlength : ℕ  -- uint8
  pub onreqdatalengthpermessage : ℕ  -- uint8

-- `iolink_smp_parameterlist_t`
pub record ParameterList : Type 0 where
  pub cycletime : ℕ  -- uint8
  pub mode : TargetMode
  pub revisionid : ℕ  -- uint8
  pub inspectionlevel : InspectionLevel
  pub vendorid : ℕ  -- uint16
  pub deviceid : ℕ  -- uint32
  pub functionid : ℕ  -- uint16
  pub serialnumber : Bytes  -- 16 bytes

-- `iolink_dev_com_t`
pub record DevCom : Type 0 where
  pub mincycle : ℕ
  pub mseq_cap : ℕ
  pub pdi : ℕ
  pub pdo : ℕ

-- `iolink_sm_port_t`. The static `older_cycletime` of sm_DL_Read_cnf_cb is one for all ports of the
-- source; here it is the value that the port finds.
pub record Sm : Type 0 where
  pub state : SmState
  pub mh_mode : MhMode
  pub comrate : MhMode
  pub config_paramlist : ParameterList
  pub real_paramlist : ParameterList
  pub dev_com : DevCom
  pub dl_addr : ℕ  -- uint8
  pub comp_retry : ℕ  -- uint8
  pub error_event : SmEvent
  pub older_cycletime : ℕ  -- uint8

-- What the system management asks of the other layers.
pub data SmCall : Type 0 where
  dl_read_req : (addr : ℕ) → SmCall
  dl_write_req : (addr value : ℕ) → SmCall
  dl_write_devicemode_req : DlMode → SmCall
  dl_set_mode_req : DlMode → ModeList → SmCall
  pl_set_mode_req : PlMode → SmCall
  -- `iolink_pl_set_cycletime`
  pl_set_cycletime : ℕ → SmCall
  sm_portmode_ind : PortMode → SmCall
  sm_al_read_req : (index subindex : ℕ) → SmCall
  sm_al_write_req : (index subindex : ℕ) (bytes : List ℕ) → SmCall
  -- `ds->ds_enable = false`
  ds_disable : SmCall
  -- an assertion that does not hold
  sm_assert_failed : SmCall

-- The system management after a handler, and the handler's calls.
abbrev pub Step : Type 0
Step = Sm × List SmCall

-- The addresses of the direct parameter page, `IOL_DIR_PARAMA_…`
abbrev pub addr_master_cmd : ℕ
addr_master_cmd = 0x00

abbrev pub addr_master_cycl : ℕ
addr_master_cycl = 0x01

abbrev pub addr_min_cycl : ℕ
addr_min_cycl = 0x02

abbrev pub addr_mseq_cap : ℕ
addr_mseq_cap = 0x03

abbrev pub addr_rev_id : ℕ
addr_rev_id = 0x04

abbrev pub addr_pdi : ℕ
addr_pdi = 0x05

abbrev pub addr_pdo : ℕ
addr_pdo = 0x06

abbrev pub addr_vid_1 : ℕ
addr_vid_1 = 0x07

abbrev pub addr_vid_2 : ℕ
addr_vid_2 = 0x08

abbrev pub addr_did_1 : ℕ
addr_did_1 = 0x09

abbrev pub addr_did_2 : ℕ
addr_did_2 = 0x0a

abbrev pub addr_did_3 : ℕ
addr_did_3 = 0x0b

abbrev pub addr_fid_1 : ℕ
addr_fid_1 = 0x0c

abbrev pub addr_fid_2 : ℕ
addr_fid_2 = 0x0d

abbrev pub addr_dummy_wurq : ℕ
addr_dummy_wurq = 0xff

-- The master commands, `IOL_MASTERCMD_…`
abbrev pub cmd_master_ident : ℕ
cmd_master_ident = 0x95

abbrev pub cmd_device_ident : ℕ
cmd_device_ident = 0x96

abbrev pub cmd_device_operate : ℕ
cmd_device_operate = 0x99

abbrev pub cmd_device_preop : ℕ
cmd_device_preop = 0x9a

-- IOL_DEV_PARAMA_SERIAL_NUMBER
abbrev pub index_serial_number : ℕ
index_serial_number = 0x15

-- IOL_DIR_PARAM_REV_V10, and IOLINK_REVISION_1_1, which is IOL_DIR_PARAM_REV_V11
abbrev pub rev_v10 : ℕ
rev_v10 = 0x10

abbrev pub rev_v11 : ℕ
rev_v11 = 0x11
