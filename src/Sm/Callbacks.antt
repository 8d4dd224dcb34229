-- ===== src/Sm/Callbacks.antt =====
-- ilink/iolink_sm.c: the jobs of the system management, and the functions that post them.
use normans_fork.Prelude.{
  ℕ, Bool, true, false, ◌||◌, not, [], ◌∷◌, ltb, ◌==◌, if◌then◌else◌, Bytes, memcpy, bytes_at,
  zeros,
}
use normans_fork.Types.SmiError
use normans_fork.Types.{ReadCnf, Status, status_no_error}
use normans_fork.Sm.{
  SmState, port_inactive, wait_on_dl_preoperate, check_ser_num, sm_wait, sm_operate,
  inspection_fault, wait_on_dl_operate, dido, SmEvent, ev_dl_mode_startup, ev_dl_mode_comlost,
  ev_dl_mode_preoperate, ev_dl_mode_operate, ev_sm_operate_v10, ev_set_inactive, ev_set_com,
  ev_set_dido, ev_cnf_comlost, ev_write_master_cycl_req, ev_write_master_cycl_done, MhMode,
  mh_inactive, mh_com1, mh_com2, mh_com3, mh_comlost, mh_startup, mh_preoperate, mh_operate,
  TargetMode, target_cfgcom, target_autocom, target_inactive, target_di, target_do,
  portmode_inactive, portmode_comlost, ParameterList, Sm, sm_portmode_ind, Step, rev_v10, rev_v11,
}
use normans_fork.Sm.Fsm.{iolink_sm_event}
use normans_fork.Sm.Startup.{sm_check_sernum}

abbrev pub is_no_error : Status → Bool
is_no_error status_no_error = true
is_no_error _ = false

-- `sm_write_cycl_cnf_cb`
unfoldable pub sm_write_cycl_cnf_cb : (errortype : ℕ) → Sm → Step
unfolding iolink_sm_event
sm_write_cycl_cnf_cb errortype sm =
    if errortype == SmiError.no_error
    then iolink_sm_event ev_write_master_cycl_done sm
    else iolink_sm_event ev_cnf_comlost sm

-- The serial number of the device.
abbrev pub with_serial : Bytes → Sm → Sm
with_serial serial sm = record sm {
  real_paramlist = record sm.real_paramlist { serialnumber = serial };
}

-- `sm_AL_Read_cnf_cb`
unfoldable pub sm_al_read_cnf_cb : ReadCnf → Sm → Step
unfolding iolink_sm_event sm_check_sernum
sm_al_read_cnf_cb r sm =
    let cleared = memcpy sm.real_paramlist.serialnumber 0 (zeros 16) in
    if r.errortype == SmiError.idx_notavail
    then sm_check_sernum (with_serial cleared sm)
    else if not (r.errortype == SmiError.no_error)
    then (if sm.real_paramlist.revisionid == rev_v11
        then iolink_sm_event ev_cnf_comlost sm
        else iolink_sm_event ev_dl_mode_comlost sm)
    else if ltb 16 r.data_len
    then iolink_sm_event ev_cnf_comlost sm
    else sm_check_sernum (with_serial (memcpy cleared 0 (bytes_at r.buffer 0 r.data_len)) sm)

-- `sm_DL_Mode_ind_cb_preop` and `sm_DL_Mode_ind_cb_operate`: another mode is only logged.
unfoldable pub mode_ind_preop : MhMode → Sm → Step
unfolding iolink_sm_event
mode_ind_preop mh_preoperate sm = iolink_sm_event ev_dl_mode_preoperate sm
mode_ind_preop _ sm = (sm, [])

unfoldable pub mode_ind_operate : MhMode → Sm → Step
unfolding iolink_sm_event
mode_ind_operate mh_operate sm = iolink_sm_event ev_dl_mode_operate sm
mode_ind_operate _ sm = (sm, [])

abbrev pub is_target_inactive : TargetMode → Bool
is_target_inactive target_inactive = true
is_target_inactive _ = false

-- `sm_DL_Mode_ind_cb_inactive`
unfoldable pub mode_ind_inactive : MhMode → Sm → Step
unfolding iolink_sm_event
mode_ind_inactive mh_startup sm = iolink_sm_event ev_dl_mode_startup sm
mode_ind_inactive mh_inactive sm = (
  sm,
  sm_portmode_ind (
        if is_target_inactive sm.config_paramlist.mode then portmode_inactive else portmode_comlost)
      ∷ [],
)
mode_ind_inactive _ sm = (sm, [])

-- `sm_DL_Mode_ind_cb` where the communication is lost.
unfoldable pub mode_ind_comlost : SmState → Sm → Step
unfolding iolink_sm_event
mode_ind_comlost port_inactive sm = (sm, [])
mode_ind_comlost dido sm = (sm, [])
mode_ind_comlost _ sm = iolink_sm_event ev_dl_mode_comlost sm

-- `sm_DL_Mode_ind_cb` for the other modes; in InspectionFault it only logs.
unfoldable pub mode_ind_in : SmState → MhMode → Sm → Step
unfolding mode_ind_inactive mode_ind_preop mode_ind_operate iolink_sm_event
mode_ind_in port_inactive mode sm = mode_ind_inactive mode sm
mode_ind_in wait_on_dl_preoperate mode sm = mode_ind_preop mode sm
mode_ind_in sm_operate mode sm = mode_ind_operate mode sm
mode_ind_in wait_on_dl_operate mode sm = mode_ind_operate mode sm
mode_ind_in inspection_fault mode sm = (sm, [])
mode_ind_in _ mode sm = iolink_sm_event ev_dl_mode_comlost sm

-- The mode is kept as the baud rate or as the mode of the message handler.
abbrev pub with_mode : MhMode → Sm → Sm
with_mode mh_com1 sm = record sm { comrate = mh_com1 }
with_mode mh_com2 sm = record sm { comrate = mh_com2 }
with_mode mh_com3 sm = record sm { comrate = mh_com3 }
with_mode mode sm = record sm { mh_mode = mode }

abbrev pub is_mh_comlost : MhMode → Bool
is_mh_comlost mh_comlost = true
is_mh_comlost _ = false

-- `sm_DL_Mode_ind_cb`
unfoldable pub sm_dl_mode_ind_cb : MhMode → Sm → Step
unfolding mode_ind_comlost mode_ind_in
sm_dl_mode_ind_cb mode sm =
    if is_mh_comlost mode
    then mode_ind_comlost sm.state (with_mode mode sm)
    else mode_ind_in sm.state mode (with_mode mode sm)

-- `DL_Mode_ind_baud`
abbrev pub dl_mode_ind_baud : MhMode → Sm → Sm
dl_mode_ind_baud mh_com1 sm = record sm { comrate = mh_com1 }
dl_mode_ind_baud mh_com2 sm = record sm { comrate = mh_com2 }
dl_mode_ind_baud mh_com3 sm = record sm { comrate = mh_com3 }
dl_mode_ind_baud _ sm = sm

-- `sm_operate_cb`
unfoldable pub sm_operate_cb : Sm → Step
unfolding iolink_sm_event
sm_operate_cb sm =
    if not (sm.real_paramlist.revisionid == rev_v10) || not (sm.real_paramlist.vendorid == 0x014e)
    then iolink_sm_event ev_write_master_cycl_req sm
    else iolink_sm_event ev_sm_operate_v10 sm

-- The states in which `sm_setportcfg_req_cb` takes a configuration.
abbrev pub takes_config : SmState → Bool
takes_config port_inactive = true
takes_config sm_wait = true
takes_config sm_operate = true
takes_config inspection_fault = true
takes_config dido = true
takes_config check_ser_num = true
takes_config _ = false

abbrev pub config_event : TargetMode → SmEvent
config_event target_cfgcom = ev_set_com
config_event target_autocom = ev_set_com
config_event target_di = ev_set_dido
config_event target_do = ev_set_dido
config_event target_inactive = ev_set_inactive

-- The configuration, with the serial number of the one before if it has one.
abbrev pub stored_config : ParameterList → ParameterList → ParameterList
stored_config old new =
    if old.serialnumber 0 == 0
    then new
    else record new { serialnumber = memcpy new.serialnumber 0 (bytes_at old.serialnumber 0 16) }

-- `sm_setportcfg_req_cb`
unfoldable pub sm_setportcfg_req_cb : ParameterList → Sm → Step
unfolding iolink_sm_event
sm_setportcfg_req_cb paramlist sm =
    if takes_config sm.state
    then iolink_sm_event (config_event paramlist.mode)
        (record sm { config_paramlist = stored_config sm.config_paramlist paramlist })
    else (sm, [])
