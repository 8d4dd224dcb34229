-- ===== src/Sm/Fsm.antt =====
-- ilink/iolink_sm.c: the sixteen transition tables and `iolink_sm_event`. As each action returns
-- SM_EVENT_NONE, the loop is one round.
use normans_fork.Prelude.{Option, none, some, []}
use normans_fork.Sm.{
  SmState, port_inactive, wait_on_dl_preoperate, check_ser_num, sm_wait, sm_operate,
  inspection_fault, wait_on_dl_operate, dido, read_com_parameter, check_comp_v10, check_vxy,
  check_comp, restart_device, wait_for_fallback, write_master_cycl, wait_devmode_cnf, SmEvent,
  ev_dl_mode_startup, ev_comp_ok, ev_dl_mode_comlost, ev_v10_comp_ok, ev_v10_comp_fault,
  ev_revision_fault, ev_comp_fault, ev_dl_mode_preoperate, ev_dl_mode_operate, ev_ser_num_ok,
  ev_ser_num_fault, ev_sm_operate, ev_sm_operate_v10, ev_set_inactive, ev_set_com, ev_set_dido,
  ev_cyc_time_fault, ev_cyc_time_fault_v10, ev_v10, ev_not_v10, ev_revision_ok, ev_retry_startup,
  ev_write_done, ev_cnf_comlost, ev_write_master_cycl_req, ev_write_master_cycl_done, Sm, Step,
}
use normans_fork.Sm.Actions.{
  Action, sm_wr_master_cycl, sm_check_comp, sm_readcomparameter, sm_restart_device, sm_check_vxy,
  sm_write_mcmd_preop, sm_fallback, sm_portinactive, sm_comlost, sm_ignore, sm_wait_on_dl_op,
  sm_inspect_fault, sm_check_ser_num, sm_comready, sm_write_devmode, sm_smoperate_ind, sm_dido,
}

-- The rows of `sm_trans_s0` to `sm_trans_s15`, by state and event: the next state and the action.
unfoldable pub transition : SmState → SmEvent → Option (SmState × Action)
transition port_inactive ev_dl_mode_startup = some (read_com_parameter, sm_readcomparameter)
transition port_inactive ev_set_inactive = some (port_inactive, sm_portinactive)
transition port_inactive ev_set_com = some (port_inactive, sm_portinactive)
transition port_inactive ev_set_dido = some (dido, sm_dido)
transition port_inactive ev_sm_operate = some (port_inactive, sm_ignore)
transition port_inactive ev_dl_mode_comlost = some (port_inactive, sm_ignore)
transition wait_on_dl_preoperate ev_dl_mode_preoperate = some (check_ser_num, sm_check_ser_num)
transition wait_on_dl_preoperate ev_cnf_comlost = some (port_inactive, sm_comlost)
transition wait_on_dl_preoperate ev_dl_mode_comlost = some (wait_on_dl_preoperate, sm_ignore)
transition check_ser_num ev_ser_num_ok = some (sm_wait, sm_comready)
transition check_ser_num ev_ser_num_fault = some (inspection_fault, sm_inspect_fault)
transition check_ser_num ev_cnf_comlost = some (port_inactive, sm_comlost)
transition check_ser_num ev_set_com = some (port_inactive, sm_portinactive)
transition check_ser_num ev_dl_mode_comlost = some (check_ser_num, sm_ignore)
transition check_ser_num ev_set_inactive = some (wait_for_fallback, sm_fallback)
transition sm_wait ev_set_com = some (port_inactive, sm_portinactive)
transition sm_wait ev_set_dido = some (dido, sm_dido)
transition sm_wait ev_sm_operate_v10 = some (sm_operate, sm_smoperate_ind)
transition sm_wait ev_dl_mode_comlost = some (port_inactive, sm_comlost)
transition sm_wait ev_write_master_cycl_req = some (write_master_cycl, sm_wr_master_cycl)
transition sm_wait ev_set_inactive = some (wait_for_fallback, sm_fallback)
transition sm_operate ev_dl_mode_comlost = some (port_inactive, sm_comlost)
transition sm_operate ev_dl_mode_operate = some (sm_operate, sm_smoperate_ind)
transition sm_operate ev_set_inactive = some (wait_for_fallback, sm_fallback)
transition sm_operate ev_set_com = some (port_inactive, sm_portinactive)
transition sm_operate ev_set_dido = some (dido, sm_dido)
transition inspection_fault ev_revision_fault = some (inspection_fault, sm_inspect_fault)
transition inspection_fault ev_comp_fault = some (inspection_fault, sm_inspect_fault)
transition inspection_fault ev_cyc_time_fault = some (inspection_fault, sm_inspect_fault)
transition inspection_fault ev_set_inactive = some (wait_for_fallback, sm_fallback)
transition inspection_fault ev_set_com = some (port_inactive, sm_portinactive)
transition inspection_fault ev_set_dido = some (dido, sm_dido)
transition inspection_fault ev_dl_mode_comlost = some (port_inactive, sm_comlost)
transition wait_on_dl_operate ev_dl_mode_operate = some (check_ser_num, sm_check_ser_num)
transition wait_on_dl_operate ev_cnf_comlost = some (port_inactive, sm_comlost)
transition wait_on_dl_operate ev_dl_mode_comlost = some (port_inactive, sm_comlost)
transition dido ev_set_inactive = some (port_inactive, sm_portinactive)
transition dido ev_set_com = some (port_inactive, sm_portinactive)
transition dido ev_set_dido = some (dido, sm_dido)
transition read_com_parameter ev_not_v10 = some (check_vxy, sm_check_vxy)
transition read_com_parameter ev_v10 = some (check_comp_v10, sm_check_comp)
transition read_com_parameter ev_cnf_comlost = some (port_inactive, sm_comlost)
transition read_com_parameter ev_dl_mode_comlost = some (read_com_parameter, sm_ignore)
transition read_com_parameter ev_set_com = some (port_inactive, sm_portinactive)
transition check_comp_v10 ev_v10_comp_ok = some (wait_on_dl_operate, sm_wait_on_dl_op)
transition check_comp_v10 ev_v10_comp_fault = some (inspection_fault, sm_inspect_fault)
transition check_comp_v10 ev_cyc_time_fault_v10 = some (inspection_fault, sm_inspect_fault)
transition check_comp_v10 ev_cnf_comlost = some (port_inactive, sm_comlost)
transition check_comp_v10 ev_dl_mode_comlost = some (check_comp_v10, sm_ignore)
transition check_vxy ev_revision_ok = some (check_comp, sm_check_comp)
transition check_vxy ev_retry_startup = some (restart_device, sm_restart_device)
transition check_vxy ev_revision_fault = some (inspection_fault, sm_write_mcmd_preop)
transition check_vxy ev_cnf_comlost = some (port_inactive, sm_comlost)
transition check_vxy ev_dl_mode_comlost = some (check_vxy, sm_ignore)
transition check_comp ev_comp_ok = some (wait_on_dl_preoperate, sm_write_mcmd_preop)
transition check_comp ev_retry_startup = some (restart_device, sm_restart_device)
transition check_comp ev_comp_fault = some (inspection_fault, sm_write_mcmd_preop)
transition check_comp ev_cyc_time_fault = some (inspection_fault, sm_write_mcmd_preop)
transition check_comp ev_cnf_comlost = some (port_inactive, sm_comlost)
transition check_comp ev_dl_mode_comlost = some (check_comp, sm_ignore)
transition restart_device ev_write_done = some (read_com_parameter, sm_readcomparameter)
transition restart_device ev_cnf_comlost = some (restart_device, sm_comlost)
transition restart_device ev_dl_mode_comlost = some (check_comp, sm_ignore)
transition wait_for_fallback ev_set_inactive = some (port_inactive, sm_portinactive)
transition wait_for_fallback ev_dl_mode_comlost = some (port_inactive, sm_comlost)
transition write_master_cycl ev_cnf_comlost = some (port_inactive, sm_comlost)
transition write_master_cycl ev_write_master_cycl_done = some (wait_devmode_cnf, sm_write_devmode)
transition write_master_cycl ev_dl_mode_comlost = some (write_master_cycl, sm_ignore)
transition wait_devmode_cnf ev_sm_operate_v10 = some (sm_operate, sm_smoperate_ind)
transition wait_devmode_cnf ev_sm_operate = some (sm_operate, sm_smoperate_ind)
transition wait_devmode_cnf ev_cnf_comlost = some (port_inactive, sm_comlost)
transition wait_devmode_cnf ev_dl_mode_comlost = some (wait_devmode_cnf, sm_ignore)
transition _ _ = none

-- `iolink_sm_event`: an event without a row is logged and dropped.
unfoldable pub iolink_sm_event : SmEvent → Sm → Step
unfolding transition
iolink_sm_event e sm = elim (transition sm.state e) [
  | none ↦ (sm, [])
  | some (next_state, action) ↦ action e (record sm { state = next_state })
]
