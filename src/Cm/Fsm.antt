-- ===== src/Cm/Fsm.antt =====
-- ilink/iolink_cm.c: the eight transition tables and `iolink_cm_event`, on fuel: no chain of
-- transitions is longer than two.
use normans_fork.Prelude.{ℕ, zero, suc, Bool, true, false, Option, none, some, List, [], ◌++◌}
use normans_fork.Cm.{
  CmState, check_port_mode, sm_startup, ds_param_manager, port_fault, waiting_on_operate,
  port_active, port_dido, port_deactivated, CmEvent, cm_none, cm_iol_manual, cm_iol_autostart,
  cm_sm_comready, cm_sm_fault, cm_ds_ready, cm_ds_fault, cm_sm_operate, cm_sm_comlost, cm_di_cq,
  cm_do_cq, cm_deactivated, cm_cfg_change, cm_ds_change, cm_unknown, Cm, Around, CmCall,
}
use normans_fork.Cm.Actions.{
  CmAction, cm_startup, cm_dido, cm_check_mode, cm_comlost, cm_ignore, cm_ds_change_action,
  cm_start_ds, cm_ds_ready_action, cm_sm_operate_action, cm_port_fault, cm_deactivate,
}

-- The rows of `cm_trans_s0` to `cm_trans_s7`: the next state and the action.
unfoldable pub transition : CmState → CmEvent → Option (CmState × CmAction)
transition check_port_mode cm_iol_manual = some (sm_startup, cm_startup)
transition check_port_mode cm_iol_autostart = some (sm_startup, cm_startup)
transition check_port_mode cm_di_cq = some (port_dido, cm_dido)
transition check_port_mode cm_do_cq = some (port_dido, cm_dido)
transition check_port_mode cm_deactivated = some (port_deactivated, cm_deactivate)
transition check_port_mode cm_unknown = some (port_deactivated, cm_deactivate)
transition check_port_mode cm_cfg_change = some (check_port_mode, cm_check_mode)
transition check_port_mode cm_sm_comlost = some (check_port_mode, cm_comlost)
transition sm_startup cm_sm_comready = some (ds_param_manager, cm_start_ds)
transition sm_startup cm_cfg_change = some (check_port_mode, cm_check_mode)
transition sm_startup cm_sm_fault = some (port_fault, cm_port_fault)
transition sm_startup cm_sm_comlost = some (check_port_mode, cm_comlost)
transition ds_param_manager cm_ds_ready = some (waiting_on_operate, cm_ds_ready_action)
transition ds_param_manager cm_ds_change = some (sm_startup, cm_ds_change_action)
transition ds_param_manager cm_ds_fault = some (port_fault, cm_port_fault)
transition ds_param_manager cm_cfg_change = some (ds_param_manager, cm_ignore)
transition ds_param_manager cm_sm_comlost = some (ds_param_manager, cm_ignore)
transition port_fault cm_cfg_change = some (check_port_mode, cm_check_mode)
transition port_fault cm_ds_change = some (sm_startup, cm_ds_change_action)
transition port_fault cm_sm_comlost = some (check_port_mode, cm_comlost)
transition waiting_on_operate cm_sm_operate = some (port_active, cm_sm_operate_action)
transition waiting_on_operate cm_cfg_change = some (check_port_mode, cm_check_mode)
transition waiting_on_operate cm_ds_change = some (sm_startup, cm_ds_change_action)
transition waiting_on_operate cm_sm_comlost = some (check_port_mode, cm_comlost)
transition waiting_on_operate cm_ds_fault = some (port_fault, cm_port_fault)
transition port_active cm_cfg_change = some (check_port_mode, cm_check_mode)
transition port_active cm_ds_change = some (sm_startup, cm_ds_change_action)
transition port_active cm_sm_comlost = some (check_port_mode, cm_comlost)
transition port_active cm_ds_ready = some (port_active, cm_ignore)
transition port_active cm_ds_fault = some (port_fault, cm_port_fault)
transition port_dido cm_cfg_change = some (check_port_mode, cm_check_mode)
transition port_deactivated cm_cfg_change = some (check_port_mode, cm_check_mode)
transition _ _ = none

abbrev pub is_cm_none : CmEvent → Bool
is_cm_none cm_none = true
is_cm_none _ = false

-- The configuration manager and the calls; nothing where the fuel does not reach.
abbrev pub CmRun : Type 0
CmRun = Option (Cm × List CmCall)

-- Calls before those of a run.
abbrev pub after_calls : List CmCall → CmRun → CmRun
after_calls calls none = none
after_calls calls (some (cm, more)) = some (cm, calls ++ more)

-- The loop of `iolink_cm_event`.
unfoldable pub event_loop : ℕ → Around → CmEvent → Cm → CmRun
unfolding transition
event_loop zero env e cm = none
event_loop (suc fuel) env e cm = elim (transition cm.state e) [
  | none ↦ some (cm, [])
  | some (next_state, action) ↦
      let (cm', (calls, next)) = action env e (record cm { state = next_state }) in
      elim (is_cm_none next) [
        | true ↦ some (cm', calls)
        | false ↦ after_calls calls (event_loop fuel env next cm')
      ]
]

unfoldable pub iolink_cm_event : Around → CmEvent → Cm → CmRun
unfolding event_loop
iolink_cm_event env e cm = event_loop 2 env e cm
