-- ===== src/Cm/Callbacks.antt =====
-- ilink/iolink_cm.c: the jobs of the configuration manager, and the functions that post them.
use normans_fork.Prelude.{
  ℕ, zero, suc, ◌+◌, ◌*◌, Bool, true, false, ◌||◌, not, none, some, List, [], ◌∷◌, ◌==◌,
  if◌then◌else◌, u8,
}
use normans_fork.Types.{DsFault, no_fault}
use normans_fork.Types.SmiError
use normans_fork.Types.ArgBlockId
use normans_fork.Sm.{
  PortMode, portmode_inactive, portmode_comready, portmode_operate, portmode_comlost,
  portmode_revision_fault, portmode_comp_fault, portmode_sernum_fault, portmode_cyctime_fault,
}
use normans_fork.Cm.{
  port_deactivated, CmEvent, cm_none, cm_sm_comready, cm_sm_fault, cm_ds_ready, cm_ds_fault,
  cm_sm_operate, cm_sm_comlost, cm_cfg_change, cm_ds_change, PortInfoList, ConfigReq, Cm, Around,
  ident_block, config_block, status_block, CmCall, cm_cnf, cm_job_error,
}
use normans_fork.Cm.Actions.{port_event}
use normans_fork.Cm.Fsm.{is_cm_none, CmRun, after_calls, iolink_cm_event}
use normans_fork.Cm.Config.{
  info_no_dev, info_deactivated, info_di, info_do, code_status_change, init_port_info, with_info,
}

-- The event of a mode of the port.
abbrev pub event_of_mode : PortMode → CmEvent
event_of_mode portmode_comready = cm_sm_comready
event_of_mode portmode_revision_fault = cm_sm_fault
event_of_mode portmode_comp_fault = cm_sm_fault
event_of_mode portmode_sernum_fault = cm_sm_fault
event_of_mode portmode_cyctime_fault = cm_sm_fault
event_of_mode portmode_operate = cm_sm_operate
event_of_mode portmode_comlost = cm_sm_comlost
event_of_mode _ = cm_none

abbrev pub is_mode_inactive : PortMode → Bool
is_mode_inactive portmode_inactive = true
is_mode_inactive _ = false

-- The case IOLINK_SM_PORTMODE_INACTIVE of `cm_sm_port_mode_ind_cb`.
unfoldable pub mode_inactive : Cm → Cm × List CmCall
mode_inactive cm = if cm.port_info.port_status_info == info_deactivated then (cm, []) else (
  record cm { port_info = record cm.port_info { port_status_info = info_deactivated } },
  port_event code_status_change ∷ [],
)

-- `cm_sm_port_mode_ind_cb`
unfoldable pub cm_sm_port_mode_ind_cb : Around → PortMode → Cm → CmRun
unfolding mode_inactive iolink_cm_event
cm_sm_port_mode_ind_cb env mode cm =
    if is_mode_inactive mode
    then some (mode_inactive cm)
    else if is_cm_none (event_of_mode mode)
    then some (cm, [])
    else iolink_cm_event env (event_of_mode mode) cm

-- `cm_ds_fault_cb`
unfoldable pub cm_ds_fault_cb : Around → DsFault → Cm → CmRun
unfolding iolink_cm_event
cm_ds_fault_cb env fault cm = iolink_cm_event env cm_ds_fault (record cm { ds_fault = fault })

-- `check_arg_block`: whether the request is in order, and the calls.
unfoldable pub check_arg_block : (ref_id len exp_id errortype : ℕ) → ConfigReq → Bool × List CmCall
check_arg_block ref_id len exp_id errortype r =
    if not (r.ref_id == ref_id)
    then (false, cm_job_error r.exp_id r.ref_id SmiError.argblock_not_supported ∷ [])
    else if not (r.len == len)
    then (false, cm_job_error r.exp_id r.ref_id SmiError.argblock_length_invalid ∷ [])
    else if not (r.exp_id == exp_id)
    then (
      false,
      (if errortype == SmiError.no_error
          then []
          else cm_job_error r.exp_id r.ref_id errortype ∷ []),
    )
    else (true, [])

-- `sizeof (arg_block_void_t)` and `sizeof (arg_block_portconfiglist_t)`
abbrev pub void_len : ℕ
void_len = 2

abbrev pub config_len : ℕ
config_len = 14

-- The ports of the identification, all of them of IOLINK_PORT_TYPES_A.
unfoldable pub types_of : ℕ → List ℕ
types_of zero = []
types_of (suc n) = 0 ∷ types_of n

-- `cm_smi_masterident_cb`
unfoldable pub cm_smi_masterident_cb : Around → ConfigReq → Cm → CmRun
unfolding check_arg_block types_of
cm_smi_masterident_cb env r cm =
    let (ok, calls) =
      check_arg_block ArgBlockId.void_block void_len ArgBlockId.masterident SmiError.no_error r in
    some (
      cm,
      (if ok
          then cm_cnf r.ref_id (u8 (12 + env.port_type_size * env.port_cnt))
              (ident_block 0xffff 0xffff 2 0 0 env.port_cnt (types_of env.port_cnt))
            ∷ []
          else calls),
    )

-- `cm_smi_portconfiguration_cb`
unfoldable pub cm_smi_portconfiguration_cb : Around → ConfigReq → Cm → CmRun
unfolding check_arg_block iolink_cm_event
cm_smi_portconfiguration_cb env r cm =
    let (ok, calls) =
      check_arg_block ArgBlockId.port_cfg_list config_len ArgBlockId.void_block
        SmiError.argblock_inconsistent r in
    if ok then iolink_cm_event env cm_cfg_change (record cm { smi_req = r }) else some (cm, calls)

-- `cm_smi_readbackportconfiguration_cb`
unfoldable pub cm_smi_readbackportconfiguration_cb : ConfigReq → Cm → CmRun
unfolding check_arg_block
cm_smi_readbackportconfiguration_cb r cm =
    let (ok, calls) =
      check_arg_block ArgBlockId.void_block void_len ArgBlockId.port_cfg_list
        SmiError.argblock_inconsistent r in
    some (cm, (if ok then cm_cnf r.ref_id config_len (config_block cm.cfg_list) ∷ [] else calls))

-- The cycle time that a client is told.
abbrev pub master_cycle_time : PortInfoList → ℕ
master_cycle_time info =
    if info.port_status_info == info_no_dev
      || info.port_status_info == info_deactivated
      || info.port_status_info == info_di
      || info.port_status_info == info_do
    then 0
    else info.cycletime

-- `cm_smi_portstatus_cb`, whose block has no diagnosis.
unfoldable pub cm_smi_portstatus_cb : Around → ConfigReq → Cm → CmRun
unfolding check_arg_block
cm_smi_portstatus_cb env r cm =
    let (ok, calls) =
      check_arg_block ArgBlockId.void_block void_len ArgBlockId.port_status_list SmiError.no_error
        r in
    let info = record cm.port_info { cycletime = master_cycle_time cm.port_info } in
    some
      (cm, (if ok then cm_cnf r.ref_id (env.pointer_size + 15) (status_block info) ∷ [] else calls))

-- `iolink_cm_init`
unfoldable pub iolink_cm_init : Around → Cm → Cm
unfolding init_port_info
iolink_cm_init env cm = record (with_info env info_deactivated 1 cm) {
  ds_fault = no_fault;
  state = port_deactivated;
}

-- The jobs: the indications of SM and DS, and the services that a client asks for.
pub data CmInput : Type 0 where
  port_mode_ind : PortMode → CmInput
  ds_ready_job ds_change_job : CmInput
  ds_fault_job : DsFault → CmInput
  masterident_req portconfiguration_req : ConfigReq → CmInput
  readback_req portstatus_req : ConfigReq → CmInput

unfoldable pub handle : Around → Cm → CmInput → CmRun
unfolding cm_sm_port_mode_ind_cb cm_ds_fault_cb cm_smi_masterident_cb cm_smi_portconfiguration_cb
    cm_smi_readbackportconfiguration_cb cm_smi_portstatus_cb iolink_cm_event
handle env cm (port_mode_ind mode) = cm_sm_port_mode_ind_cb env mode cm
handle env cm ds_ready_job = iolink_cm_event env cm_ds_ready cm
handle env cm ds_change_job = iolink_cm_event env cm_ds_change cm
handle env cm (ds_fault_job fault) = cm_ds_fault_cb env fault cm
handle env cm (masterident_req r) = cm_smi_masterident_cb env r cm
handle env cm (portconfiguration_req r) = cm_smi_portconfiguration_cb env r cm
handle env cm (readback_req r) = cm_smi_readbackportconfiguration_cb r cm
handle env cm (portstatus_req r) = cm_smi_portstatus_cb env r cm

-- The main loop, each job with what the other components tell it.
unfoldable pub handle_all : Cm → List (Around × CmInput) → CmRun
unfolding handle
handle_all cm [] = some (cm, [])
handle_all cm ((env, i) ∷ inputs) = elim (handle env cm i) [
  | none ↦ none
  | some (cm', calls) ↦ after_calls calls (handle_all cm' inputs)
]
