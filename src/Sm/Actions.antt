-- ===== src/Sm/Actions.antt =====
-- ilink/iolink_sm.c: the actions of the transitions. All of them return SM_EVENT_NONE.
use normans_fork.Prelude.{
  ℕ, ◌+◌, Bool, true, false, ◌&&◌, List, [], ◌∷◌, ◌++◌, leb, if◌then◌else◌, u8,
}
use normans_fork.Sm.{
  SmEvent, ev_none, ev_dl_mode_startup, ev_v10_comp_fault, ev_revision_fault, ev_comp_fault,
  ev_dl_mode_operate, ev_ser_num_fault, ev_sm_operate_v10, ev_set_inactive, ev_set_com,
  ev_cyc_time_fault, ev_cyc_time_fault_v10, TargetMode, target_di, target_do, PortMode,
  portmode_inactive, portmode_di, portmode_do, portmode_comready, portmode_operate,
  portmode_comlost, portmode_revision_fault, portmode_comp_fault, portmode_sernum_fault,
  portmode_cyctime_fault, DlMode, dlmode_inactive, dlmode_startup, dlmode_preoperate,
  dlmode_operate, PlMode, pl_inactive, pl_do, pl_di, pl_sdci, MseqType, type_none, type_0, type_1_1,
  ModeList, Sm, SmCall, dl_read_req, dl_write_req, dl_write_devicemode_req, dl_set_mode_req,
  pl_set_mode_req, sm_portmode_ind, sm_al_read_req, sm_al_write_req, ds_disable, sm_assert_failed,
  Step, addr_master_cmd, addr_master_cycl, addr_min_cycl, addr_rev_id, addr_vid_1, addr_did_3,
  addr_fid_2, addr_dummy_wurq, cmd_master_ident, cmd_device_preop, index_serial_number,
}
use normans_fork.Sm.Mseq.{set_valuelist, populate_valuelist, type_0_or_1_2_fails}

-- The target modes DI and DO, the type of a message, and others, as tests
abbrev pub is_di : TargetMode → Bool
is_di target_di = true
is_di _ = false

abbrev pub is_do : TargetMode → Bool
is_do target_do = true
is_do _ = false

abbrev pub is_operate_mode : DlMode → Bool
is_operate_mode dlmode_operate = true
is_operate_mode _ = false

abbrev pub is_type_1_1 : MseqType → Bool
is_type_1_1 type_1_1 = true
is_type_1_1 _ = false

-- `sm_DL_Read_req`
abbrev pub sm_dl_read_req : ℕ → Sm → Step
sm_dl_read_req addr sm = (
  record sm { dl_addr = addr },
  (if leb addr_min_cycl addr && leb addr addr_fid_2 then [] else sm_assert_failed ∷ [])
      ++ dl_read_req addr ∷ [],
)

-- `sm_DL_Write_req`
abbrev pub sm_dl_write_req : (addr value : ℕ) → Sm → Step
sm_dl_write_req addr value sm = (
  record sm { dl_addr = addr },
  (if leb addr addr_did_3 then [] else sm_assert_failed ∷ []) ++ dl_write_req addr value ∷ [],
)

-- `sm_DL_SetMode_req_startup` and `sm_DL_SetMode_req_inactive`
abbrev pub set_mode_startup : SmCall
set_mode_startup = dl_set_mode_req dlmode_startup (set_valuelist 1 0 0 0 type_0)

abbrev pub set_mode_inactive : SmCall
set_mode_inactive = dl_set_mode_req dlmode_inactive (set_valuelist 0 0 0 0 type_none)

-- The list that `sm_DL_SetMode_req_preop_op` populates.
abbrev pub mode_list_of : DlMode → Sm → ModeList
mode_list_of mode sm =
    populate_valuelist sm.dev_com.mseq_cap sm.real_paramlist.revisionid sm.dev_com.pdi
      sm.dev_com.pdo sm.real_paramlist.cycletime (is_operate_mode mode)
      (set_valuelist 1 0 0 0 type_0)

-- `sm_DL_SetMode_req_preop_op`
unfoldable pub set_mode_preop_op : DlMode → Sm → List SmCall
set_mode_preop_op mode sm =
    let failed =
      type_0_or_1_2_fails sm.dev_com.mseq_cap sm.real_paramlist.revisionid sm.dev_com.pdi
        sm.dev_com.pdo (is_operate_mode mode) in
    (if failed then sm_assert_failed ∷ [] else [])
    ++ (if is_type_1_1 (mode_list_of mode sm).mseq then ds_disable ∷ [] else [])
    ++ dl_set_mode_req mode (mode_list_of mode sm) ∷ []

abbrev pub set_mode_preop : Sm → List SmCall
set_mode_preop sm = set_mode_preop_op dlmode_preoperate sm

abbrev pub set_mode_operate : Sm → List SmCall
set_mode_operate sm = set_mode_preop_op dlmode_operate sm

-- The actions take the event of their transition.
abbrev pub Action : Type 0
Action = SmEvent → Sm → Step

-- `sm_wr_master_cycl`
abbrev pub sm_wr_master_cycl : Action
sm_wr_master_cycl e sm =
    (sm, sm_al_write_req addr_master_cycl 0 (sm.real_paramlist.cycletime ∷ []) ∷ [])

-- `sm_checkCompV10_21` and `sm_checkComp`
abbrev pub sm_check_comp : Action
sm_check_comp e sm = sm_dl_read_req addr_vid_1 sm

-- `sm_readcomparameter`
abbrev pub sm_readcomparameter : Action
sm_readcomparameter ev_dl_mode_startup sm =
    sm_dl_read_req addr_min_cycl (record sm { comp_retry = 0 })
sm_readcomparameter e sm = sm_dl_read_req addr_min_cycl sm

-- `sm_restartDevice`
abbrev pub sm_restart_device : Action
sm_restart_device e sm =
    sm_dl_write_req addr_rev_id sm.config_paramlist.revisionid
      (record sm { comp_retry = u8 (sm.comp_retry + 1) })

-- `sm_checkVxy`
abbrev pub sm_check_vxy : Action
sm_check_vxy e sm = sm_dl_write_req addr_master_cmd cmd_master_ident sm

-- `sm_write_mcmd_preop`
abbrev pub sm_write_mcmd_preop : Action
sm_write_mcmd_preop e sm = sm_dl_write_req addr_master_cmd cmd_device_preop sm

-- `sm_fallback`
abbrev pub sm_fallback : Action
sm_fallback e sm = (sm, dl_write_devicemode_req dlmode_inactive ∷ [])

-- `sm_portinactive`
unfoldable pub sm_portinactive : Action
sm_portinactive ev_set_inactive sm = (
  record sm { dl_addr = addr_dummy_wurq; error_event = ev_none },
  sm_portmode_ind portmode_inactive ∷ set_mode_inactive ∷ [],
)
sm_portinactive ev_set_com sm = (
  record sm { dl_addr = addr_dummy_wurq; error_event = ev_none },
  pl_set_mode_req pl_sdci ∷ set_mode_startup ∷ [],
)
sm_portinactive _ sm = (record sm { dl_addr = addr_dummy_wurq; error_event = ev_none }, [])

-- `sm_comlost`
abbrev pub sm_comlost : Action
sm_comlost e sm = (sm, set_mode_inactive ∷ sm_portmode_ind portmode_comlost ∷ [])

-- `sm_smoperate_ignore` and `sm_comlost_ignore`
abbrev pub sm_ignore : Action
sm_ignore e sm = (sm, [])

-- `sm_waitonDLOp`
abbrev pub sm_wait_on_dl_op : Action
sm_wait_on_dl_op e sm = sm_dl_write_req addr_master_cycl sm.real_paramlist.cycletime sm

-- `sm_inspectFault`
unfoldable pub sm_inspect_fault : Action
sm_inspect_fault ev_v10_comp_fault sm =
    (sm, sm_portmode_ind portmode_comp_fault ∷ set_mode_operate sm)
sm_inspect_fault ev_revision_fault sm =
    (sm, sm_portmode_ind portmode_revision_fault ∷ set_mode_preop sm)
sm_inspect_fault ev_comp_fault sm = (sm, sm_portmode_ind portmode_comp_fault ∷ set_mode_preop sm)
sm_inspect_fault ev_ser_num_fault sm = (sm, sm_portmode_ind portmode_sernum_fault ∷ [])
sm_inspect_fault ev_cyc_time_fault sm =
    (sm, sm_portmode_ind portmode_cyctime_fault ∷ set_mode_preop sm)
sm_inspect_fault ev_cyc_time_fault_v10 sm =
    (sm, sm_portmode_ind portmode_cyctime_fault ∷ set_mode_inactive ∷ [])
sm_inspect_fault _ sm = (sm, [])

-- `sm_checkSerNum`
abbrev pub sm_check_ser_num : Action
sm_check_ser_num e sm = (sm, sm_al_read_req index_serial_number 0 ∷ [])

-- The action `sm_wait`
abbrev pub sm_comready : Action
sm_comready e sm = (sm, sm_portmode_ind portmode_comready ∷ [])

-- `sm_write_devmode`
abbrev pub sm_write_devmode : Action
sm_write_devmode e sm = (sm, dl_write_devicemode_req dlmode_operate ∷ [])

-- `sm_smoperate_ind`
unfoldable pub sm_smoperate_ind : Action
sm_smoperate_ind ev_dl_mode_operate sm = (sm, sm_portmode_ind portmode_operate ∷ [])
sm_smoperate_ind ev_sm_operate_v10 sm = (sm, sm_portmode_ind portmode_operate ∷ [])
sm_smoperate_ind _ sm = (sm, [])

-- The modes that `sm_dido` sets.
abbrev pub dido_pl_mode : TargetMode → PlMode
dido_pl_mode mode = if is_di mode then pl_di else if is_do mode then pl_do else pl_inactive

abbrev pub dido_port_mode : TargetMode → PortMode
dido_port_mode mode =
    if is_di mode then portmode_di else if is_do mode then portmode_do else portmode_inactive

-- `sm_dido`
abbrev pub sm_dido : Action
sm_dido e sm = (
  sm,
  pl_set_mode_req (dido_pl_mode sm.config_paramlist.mode)
      ∷ sm_portmode_ind (dido_port_mode sm.config_paramlist.mode)
      ∷ set_mode_inactive
      ∷ [],
)
