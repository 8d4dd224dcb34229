-- ===== src/Cm/Actions.antt =====
-- ilink/iolink_cm.c: the actions of the transitions.
use normans_fork.Prelude.{ℕ, Bool, true, false, ◌||◌, not, List, [], ◌∷◌, ◌++◌, if◌then◌else◌}
use normans_fork.Types.{DsFault, id_fault, size_fault, com_err_fault, lock_fault}
use normans_fork.Types.SmiError
use normans_fork.Types.ArgBlockId
use normans_fork.Cm.{
  CmEvent, cm_none, cm_iol_autostart, cm_sm_fault, cm_ds_fault, cm_sm_comlost, cm_di_cq, cm_do_cq,
  cm_cfg_change, cm_unknown, Cm, Around, event_block, CmCall, ds_delete, ds_startup,
  sm_set_port_config, sm_operate_req, od_start, od_stop, pd_start, pd_stop, cm_cnf, cm_void_cnf,
  cm_job_error, cm_assert_failed,
}
use normans_fork.Cm.Config.{
  info_no_dev, info_deactivated, info_port_diag, info_preop, info_op, info_di, info_do, code_no_dev,
  code_bad_did, code_incon_size, code_incon_id, code_incon, code_status_change,
  portmode_to_target_mode, portmode_failed, no_parameters, set_port_config, ds_chk_cfg,
  event_of_config, init_port_info, with_info,
}

-- The configuration manager after an action, the calls and the next event.
abbrev pub Acted : Type 0
Acted = Cm × (List CmCall × CmEvent)

abbrev pub CmAction : Type 0
CmAction = Around → CmEvent → Cm → Acted

abbrev pub is_autostart : CmEvent → Bool
is_autostart cm_iol_autostart = true
is_autostart _ = false

-- `cm_startup`
unfoldable pub cm_startup : CmAction
unfolding set_port_config
cm_startup env e cm = (
  cm,
  (
    (if is_autostart e || not (ds_chk_cfg env cm.cfg_list) then ds_delete ∷ [] else [])
        ++ set_port_config true cm,
    cm_none,
  ),
)

-- The information of a port for DI or DO, by the event.
abbrev pub dido_status : CmEvent → ℕ → ℕ
dido_status cm_di_cq status = info_di
dido_status cm_do_cq status = info_do
dido_status _ status = status

-- `cm_dido`
unfoldable pub cm_dido : CmAction
unfolding set_port_config
cm_dido env e cm =
    let cm' = record cm {
      port_info = record cm.port_info {
        port_status_info = dido_status e cm.port_info.port_status_info;
        revisionid = 0;
        transmission_rate = 0;
        vendorid = 0;
        deviceid = 0;
        port_quality_info = 1;
      };
    } in
    (cm', (ds_delete ∷ set_port_config true cm', cm_none))

abbrev pub is_unknown : CmEvent → Bool
is_unknown cm_unknown = true
is_unknown _ = false

-- `cm_check_mode`
unfoldable pub cm_check_mode : CmAction
unfolding event_of_config
cm_check_mode env cm_cfg_change cm =
    let r = cm.smi_req in
    let e = event_of_config r.configlist in
    if is_unknown e
    then (
      cm,
      (pd_stop ∷ od_stop ∷ cm_job_error r.exp_id r.ref_id SmiError.argblock_inconsistent ∷ [], e),
    )
    else (record cm { cfg_list = r.configlist }, (pd_stop ∷ od_stop ∷ cm_void_cnf r.ref_id ∷ [], e))
cm_check_mode env e cm = (cm, ([], cm_none))

-- `iolink_cm_do_smi_port_event`: an event of the application, the master, a notification, single shot
abbrev pub port_event : ℕ → CmCall
port_event event_code = cm_cnf ArgBlockId.void_block 5 (event_block 0x5c event_code)

-- `cm_comlost`, which goes on with `cm_check_mode`
unfoldable pub cm_comlost : CmAction
unfolding cm_check_mode
cm_comlost env e cm =
    let cm' = record cm { port_info = record cm.port_info { port_status_info = info_no_dev } } in
    let (end, (calls, next)) = cm_check_mode env e cm' in
    (end, (port_event code_no_dev ∷ calls, next))

-- `cm_comlost_ignore`, `cm_cfg_change_ignore` and `cm_ds_ready_ignore`
abbrev pub cm_ignore : CmAction
cm_ignore env e cm = (cm, ([], cm_none))

-- `cm_ds_change`
unfoldable pub cm_ds_change_action : CmAction
unfolding set_port_config
cm_ds_change_action env e cm = (cm, (set_port_config false cm, cm_none))

-- `cm_start_ds`
abbrev pub cm_start_ds : CmAction
cm_start_ds env e cm = (with_info env info_preop 1 cm, (ds_startup ∷ [], cm_none))

-- `cm_ds_ready`
abbrev pub cm_ds_ready_action : CmAction
cm_ds_ready_action env e cm = (cm, (sm_operate_req ∷ [], cm_none))

-- `cm_sm_operate`
abbrev pub cm_sm_operate_action : CmAction
cm_sm_operate_action env e cm = (
  with_info env info_op 0 cm,
  (od_start ∷ pd_start ∷ port_event code_status_change ∷ [], cm_none),
)

-- The code of a fault of the data storage; another one has the code of a bad device.
abbrev pub fault_code : DsFault → ℕ
fault_code id_fault = code_incon_id
fault_code size_fault = code_incon_size
fault_code lock_fault = code_incon
fault_code _ = code_bad_did

abbrev pub is_com_err : DsFault → Bool
is_com_err com_err_fault = true
is_com_err _ = false

-- `cm_port_fault`
unfoldable pub cm_port_fault : CmAction
unfolding init_port_info
cm_port_fault env cm_ds_fault cm =
    if is_com_err cm.ds_fault
    then (cm, ([], cm_sm_comlost))
    else (with_info env info_port_diag 1 cm, (port_event (fault_code cm.ds_fault) ∷ [], cm_none))
cm_port_fault env cm_sm_fault cm =
    (with_info env info_port_diag 1 cm, (port_event code_bad_did ∷ [], cm_none))
cm_port_fault env e cm =
    (with_info env info_port_diag 1 cm, (cm_assert_failed ∷ port_event code_bad_did ∷ [], cm_none))

-- `cm_deactivate`
unfoldable pub cm_deactivate : CmAction
unfolding init_port_info
cm_deactivate env e cm =
    let paraml = record no_parameters { mode = portmode_to_target_mode cm.cfg_list.portmode } in
    (
      with_info env info_deactivated 1 cm,
      (
        portmode_failed cm.cfg_list.portmode
            ++ (if is_unknown e then ds_delete ∷ [] else [])
            ++ sm_set_port_config paraml ∷ [],
        cm_none,
      ),
    )
