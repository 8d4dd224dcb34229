-- ===== src/Sm/Confirmations.antt =====
-- ilink/iolink_sm.c: the confirmations of the data link layer, and the jobs as inputs.
use normans_fork.Prelude.{
  ℕ, ◌+◌, ◌*◌, bit_or, ◌&&◌, not, List, [], ◌∷◌, ◌++◌, ltb, ◌==◌, if◌then◌else◌, u16,
}
use normans_fork.Types.{ReadCnf, Status}
use normans_fork.Sm.{
  SmState, port_inactive, wait_on_dl_preoperate, inspection_fault, wait_on_dl_operate,
  read_com_parameter, check_comp_v10, check_vxy, check_comp, restart_device, wait_for_fallback,
  wait_devmode_cnf, ev_dl_mode_comlost, ev_sm_operate, ev_sm_operate_v10, ev_set_inactive,
  ev_write_done, ev_cnf_comlost, MhMode, mh_com1, ParameterList, DevCom, Sm, pl_set_cycletime,
  sm_assert_failed, Step, addr_min_cycl, addr_mseq_cap, addr_rev_id, addr_pdi, addr_pdo, addr_vid_1,
  addr_vid_2, addr_did_1, addr_did_2, addr_did_3, addr_fid_1, addr_fid_2, addr_dummy_wurq, rev_v10,
}
use normans_fork.Sm.Actions.{set_mode_preop, set_mode_operate}
use normans_fork.Sm.Fsm.{iolink_sm_event}
use normans_fork.Sm.Startup.{
  read_cnf_read_com_param, read_cnf_check_comp, write_cnf_check_vxy, write_cnf_restart_dev,
  write_cnf_wait_on_operate,
}
use normans_fork.Sm.Callbacks.{
  is_no_error, sm_write_cycl_cnf_cb, sm_al_read_cnf_cb, sm_dl_mode_ind_cb, dl_mode_ind_baud,
  sm_operate_cb, sm_setportcfg_req_cb,
}

-- The shortest cycle time, by the baud rate
abbrev pub min_cycle_time : MhMode → ℕ
min_cycle_time mh_com1 = 92
min_cycle_time _ = 80

-- The address MIN_CYCL of `sm_DL_Read_cnf_cb`, without IOLINKMASTER_USB_MODE_ENABLE.
unfoldable pub store_min_cycl : ℕ → Sm → Step
store_min_cycl value sm =
    let shortest = min_cycle_time sm.comrate in
    let new_cycletime = if ltb value shortest then shortest else value in
    let old_cycletime = sm.real_paramlist.cycletime in
    (
      record sm {
        real_paramlist = record sm.real_paramlist { cycletime = new_cycletime };
        older_cycletime = old_cycletime;
        dev_com = record sm.dev_com { mincycle = value };
      },
      (if value == 40 && new_cycletime == 80 && old_cycletime == sm.older_cycletime
          then []
          else pl_set_cycletime new_cycletime ∷ []),
    )

-- The parameters of the device, with one of them set or a part of it.
unfoldable pub real_with : (addr value : ℕ) → ParameterList → ParameterList
real_with addr value p =
    if addr == addr_rev_id
    then record p { revisionid = value }
    else if addr == addr_vid_1
    then record p { vendorid = u16 (value * 256) }
    else if addr == addr_vid_2
    then record p { vendorid = bit_or p.vendorid value }
    else if addr == addr_did_1
    then record p { deviceid = value * 65536 }
    else if addr == addr_did_2
    then record p { deviceid = bit_or p.deviceid (value * 256) }
    else if addr == addr_did_3
    then record p { deviceid = bit_or p.deviceid value }
    else if addr == addr_fid_1
    then record p { functionid = u16 (value * 256) }
    else if addr == addr_fid_2
    then record p { functionid = bit_or p.functionid value }
    else p

unfoldable pub dev_com_with : (addr value : ℕ) → DevCom → DevCom
dev_com_with addr value d =
    if addr == addr_mseq_cap
    then record d { mseq_cap = value }
    else if addr == addr_pdi
    then record d { pdi = value }
    else if addr == addr_pdo
    then record d { pdo = value }
    else d

-- The first `switch` of `sm_DL_Read_cnf_cb`.
unfoldable pub store_value : (addr value : ℕ) → Sm → Step
unfolding store_min_cycl real_with dev_com_with
store_value addr value sm = if addr == addr_min_cycl then store_min_cycl value sm else (
  record sm {
    real_paramlist = real_with addr value sm.real_paramlist;
    dev_com = dev_com_with addr value sm.dev_com;
  },
  (if ltb addr_min_cycl addr && ltb addr (addr_fid_2 + 1) then [] else sm_assert_failed ∷ []),
)

-- The second `switch` of `sm_DL_Read_cnf_cb`.
unfoldable pub value_read : SmState → ℕ → Sm → Step
unfolding read_cnf_read_com_param read_cnf_check_comp iolink_sm_event
value_read read_com_parameter addr sm = read_cnf_read_com_param addr sm
value_read check_comp addr sm = read_cnf_check_comp addr check_comp sm
value_read check_comp_v10 addr sm = read_cnf_check_comp addr check_comp_v10 sm
value_read restart_device addr sm = iolink_sm_event ev_write_done sm
value_read _ addr sm = (sm, sm_assert_failed ∷ [])

-- `sm_DL_Read_cnf_cb`
unfoldable pub sm_dl_read_cnf_cb : (addr value : ℕ) → Status → Sm → Step
unfolding store_value value_read iolink_sm_event
sm_dl_read_cnf_cb addr value stat sm =
    if not (is_no_error stat)
    then iolink_sm_event ev_cnf_comlost sm
    else if addr == addr_dummy_wurq
    then (sm, [])
    else let (sm', calls) = store_value addr value sm in
      let (end, more) = value_read sm'.state addr sm' in (end, calls ++ more)

-- The `switch` of `sm_DL_Write_cnf_cb`.
unfoldable pub value_written : SmState → ℕ → Sm → Step
unfolding write_cnf_check_vxy write_cnf_restart_dev write_cnf_wait_on_operate iolink_sm_event
value_written wait_on_dl_preoperate addr sm = (sm, set_mode_preop sm)
value_written inspection_fault addr sm = iolink_sm_event sm.error_event sm
value_written check_vxy addr sm = write_cnf_check_vxy sm
value_written restart_device addr sm = write_cnf_restart_dev addr sm
value_written wait_on_dl_operate addr sm = write_cnf_wait_on_operate addr sm
value_written _ addr sm = (sm, sm_assert_failed ∷ [])

-- `sm_DL_Write_cnf_cb`
unfoldable pub sm_dl_write_cnf_cb : (addr : ℕ) → Status → Sm → Step
unfolding value_written iolink_sm_event
sm_dl_write_cnf_cb addr stat sm =
    if is_no_error stat then value_written sm.state addr sm else iolink_sm_event ev_cnf_comlost sm

-- `sm_DL_Write_Devmode_cnf` where there is no error.
unfoldable pub devmode_written : SmState → Sm → Step
unfolding iolink_sm_event
devmode_written wait_devmode_cnf sm =
    let e = if sm.real_paramlist.revisionid == rev_v10 then ev_sm_operate_v10 else ev_sm_operate in
    let (sm', calls) = iolink_sm_event e sm in (sm', set_mode_operate sm ++ calls)
devmode_written wait_for_fallback sm = iolink_sm_event ev_set_inactive sm
devmode_written _ sm = iolink_sm_event ev_dl_mode_comlost sm

-- `sm_DL_Write_Devmode_cnf` where there is an error.
unfoldable pub devmode_failed : SmState → Sm → Step
unfolding iolink_sm_event
devmode_failed wait_devmode_cnf sm = iolink_sm_event ev_cnf_comlost sm
devmode_failed _ sm = iolink_sm_event ev_dl_mode_comlost sm

-- `sm_DL_Write_Devmode_cnf`
unfoldable pub sm_dl_write_devmode_cnf : Status → Sm → Step
unfolding devmode_written devmode_failed
sm_dl_write_devmode_cnf errorinfo sm =
    if is_no_error errorinfo then devmode_written sm.state sm else devmode_failed sm.state sm

-- `iolink_sm_init`
abbrev pub iolink_sm_init : Sm → Sm
iolink_sm_init sm = record sm { state = port_inactive; dl_addr = addr_dummy_wurq }

-- The jobs of the system management; the address of a confirmation is `dl_addr` when it is posted.
pub data Input : Type 0 where
  write_cycl_cnf : (errortype : ℕ) → Input
  al_read_cnf : ReadCnf → Input
  dl_mode_ind : MhMode → Input
  mode_ind_baud : MhMode → Input
  operate_req : Input
  set_port_config : ParameterList → Input
  dl_read_cnf : (addr value : ℕ) → Status → Input
  dl_write_cnf : (addr : ℕ) → Status → Input
  dl_write_devmode_cnf : Status → Input

-- `SM_SetPortConfig_req`, whose checks of the mode and the inspection level hold for each value of
-- their types; and `DL_Read_cnf` and `DL_Write_cnf`.
abbrev pub dl_read_cnf_of : (value : ℕ) → Status → Sm → Input
dl_read_cnf_of value errorinfo sm = dl_read_cnf sm.dl_addr value errorinfo

abbrev pub dl_write_cnf_of : Status → Sm → Input
dl_write_cnf_of errorinfo sm = dl_write_cnf sm.dl_addr errorinfo

unfoldable pub handle : Sm → Input → Step
unfolding sm_write_cycl_cnf_cb sm_al_read_cnf_cb sm_dl_mode_ind_cb sm_operate_cb
    sm_setportcfg_req_cb sm_dl_read_cnf_cb sm_dl_write_cnf_cb sm_dl_write_devmode_cnf
handle sm (write_cycl_cnf errortype) = sm_write_cycl_cnf_cb errortype sm
handle sm (al_read_cnf r) = sm_al_read_cnf_cb r sm
handle sm (dl_mode_ind mode) = sm_dl_mode_ind_cb mode sm
handle sm (mode_ind_baud mode) = (dl_mode_ind_baud mode sm, [])
handle sm operate_req = sm_operate_cb sm
handle sm (set_port_config paramlist) = sm_setportcfg_req_cb paramlist sm
handle sm (dl_read_cnf addr value stat) = sm_dl_read_cnf_cb addr value stat sm
handle sm (dl_write_cnf addr stat) = sm_dl_write_cnf_cb addr stat sm
handle sm (dl_write_devmode_cnf errorinfo) = sm_dl_write_devmode_cnf errorinfo sm

unfoldable pub handle_all : Sm → List Input → Step
handle_all sm [] = (sm, [])
handle_all sm (i ∷ inputs) =
    let (sm', calls) = handle sm i in
    let (end, more) = handle_all sm' inputs in (end, calls ++ more)
