-- ===== src/Sm/Startup.antt =====
-- ilink/iolink_sm.c: the checks of a device, and what the confirmations of reads and writes lead to
-- while it starts up.
use normans_fork.Prelude.{
  ℕ, zero, suc, ◌+◌, ◌/◌, Bool, true, false, ◌&&◌, ◌||◌, not, [], ◌∷◌, ltb, ◌==◌, if◌then◌else◌, u8,
  Bytes,
}
use normans_fork.Sm.{
  SmState, check_comp_v10, SmEvent, ev_comp_ok, ev_v10_comp_ok, ev_v10_comp_fault,
  ev_revision_fault, ev_comp_fault, ev_ser_num_ok, ev_ser_num_fault, ev_cyc_time_fault,
  ev_cyc_time_fault_v10, ev_v10, ev_not_v10, ev_revision_ok, ev_retry_startup, TargetMode,
  target_cfgcom, target_autocom, InspectionLevel, no_check, identical, ParameterList, Sm,
  sm_assert_failed, Step, addr_master_cmd, addr_master_cycl, addr_min_cycl, addr_rev_id, addr_pdo,
  addr_did_1, addr_did_2, addr_did_3, addr_fid_2, cmd_device_ident, cmd_device_operate, rev_v10,
}
use normans_fork.Sm.Actions.{sm_dl_read_req, sm_dl_write_req, set_mode_operate}
use normans_fork.Sm.Fsm.{iolink_sm_event}

-- The tests of the source on the modes, levels and states
abbrev pub is_no_check : InspectionLevel → Bool
is_no_check no_check = true
is_no_check _ = false

abbrev pub is_identical : InspectionLevel → Bool
is_identical identical = true
is_identical _ = false

abbrev pub is_v10_state : SmState → Bool
is_v10_state check_comp_v10 = true
is_v10_state _ = false

-- The configured cycle time is shorter than the device allows.
abbrev pub cycle_time_fault : ParameterList → ParameterList → Bool
cycle_time_fault config real = not (config.cycletime == 0) && ltb config.cycletime real.cycletime

-- An event, and whether it is kept in `error_event`.
abbrev pub raise : (keep : Bool) → SmEvent → Sm → Step
raise true e sm = iolink_sm_event e (record sm { error_event = e })
raise false e sm = iolink_sm_event e sm

-- What `sm_do_check_comp_v10` finds: whether it is an error, and the event.
unfoldable pub check_comp_v10_event : ParameterList → ParameterList → Bool × SmEvent
check_comp_v10_event config real =
    if cycle_time_fault config real
    then (true, ev_cyc_time_fault_v10)
    else if is_no_check config.inspectionlevel
    then (false, ev_v10_comp_ok)
    else if config.vendorid == real.vendorid && config.deviceid == real.deviceid
    then (false, ev_v10_comp_ok)
    else (true, ev_v10_comp_fault)

-- `sm_do_check_comp_v10`
unfoldable pub sm_do_check_comp_v10 : Sm → Step
unfolding check_comp_v10_event iolink_sm_event
sm_do_check_comp_v10 sm =
    let (keep, e) = check_comp_v10_event sm.config_paramlist sm.real_paramlist in raise keep e sm

-- What `sm_do_check_comp` finds.
unfoldable pub check_comp_event : (comp_retry : ℕ) → ParameterList → ParameterList → Bool × SmEvent
check_comp_event comp_retry config real =
    if cycle_time_fault config real
    then (true, ev_cyc_time_fault)
    else if is_no_check config.inspectionlevel
    then (false, ev_comp_ok)
    else if not (config.vendorid == real.vendorid)
    then (true, ev_comp_fault)
    else if config.deviceid == real.deviceid
    then (false, ev_comp_ok)
    else if comp_retry == 0
    then (false, ev_retry_startup)
    else (true, ev_comp_fault)

-- `sm_do_check_comp`
unfoldable pub sm_do_check_comp : Sm → Step
unfolding check_comp_event iolink_sm_event
sm_do_check_comp sm =
    let (keep, e) = check_comp_event sm.comp_retry sm.config_paramlist sm.real_paramlist in
    raise keep e sm

-- `sm_DL_Read_cnf_read_com_param`
unfoldable pub read_cnf_read_com_param : ℕ → Sm → Step
unfolding iolink_sm_event
read_cnf_read_com_param addr sm =
    if not (addr == addr_pdo)
    then sm_dl_read_req (u8 (addr + 1)) sm
    else if sm.real_paramlist.revisionid == rev_v10
    then iolink_sm_event ev_v10 sm
    else iolink_sm_event ev_not_v10 sm

-- `sm_DL_Read_cnf_check_comp`
unfoldable pub read_cnf_check_comp : ℕ → SmState → Sm → Step
unfolding sm_do_check_comp_v10 sm_do_check_comp
read_cnf_check_comp addr state sm =
    if not (addr == addr_fid_2)
    then sm_dl_read_req (u8 (addr + 1)) sm
    else if is_v10_state state
    then sm_do_check_comp_v10 sm
    else sm_do_check_comp sm

-- `sm_DL_Write_cnf_checkvxy`
unfoldable pub write_cnf_check_vxy : Sm → Step
unfolding iolink_sm_event
write_cnf_check_vxy sm =
    if sm.config_paramlist.revisionid == 0
      || sm.config_paramlist.revisionid == sm.real_paramlist.revisionid
    then raise false ev_revision_ok sm
    else if sm.comp_retry == 0
    then raise false ev_retry_startup sm
    else raise true ev_revision_fault sm

-- The case IOL_DIR_PARAMA_REV_ID of `sm_DL_Write_cnf_restart_dev`.
abbrev pub rev_id_written : TargetMode → Sm → Step
rev_id_written target_cfgcom sm =
    sm_dl_write_req addr_did_1 (u8 (sm.config_paramlist.deviceid / 65536)) sm
rev_id_written target_autocom sm = sm_dl_write_req addr_master_cmd cmd_device_ident sm
rev_id_written _ sm = (sm, sm_assert_failed ∷ [])

-- `sm_DL_Write_cnf_restart_dev`
unfoldable pub write_cnf_restart_dev : ℕ → Sm → Step
write_cnf_restart_dev addr sm =
    if addr == addr_rev_id
    then rev_id_written sm.config_paramlist.mode sm
    else if addr == addr_did_1
    then sm_dl_write_req addr_did_2 (u8 (sm.config_paramlist.deviceid / 256)) sm
    else if addr == addr_did_2
    then sm_dl_write_req addr_did_3 (u8 sm.config_paramlist.deviceid) sm
    else if addr == addr_did_3
    then sm_dl_write_req addr_master_cmd cmd_device_ident sm
    else if addr == addr_master_cmd
    then sm_dl_read_req addr_min_cycl sm
    else (sm, [])

-- `sm_DL_Write_cnf_waiton_operate`
unfoldable pub write_cnf_wait_on_operate : ℕ → Sm → Step
write_cnf_wait_on_operate addr sm =
    if addr == addr_master_cycl
    then sm_dl_write_req addr_master_cmd cmd_device_operate sm
    else if addr == addr_master_cmd
    then (sm, set_mode_operate sm)
    else (sm, [])

-- `memcmp`, as the test whether there is no difference.
unfoldable pub same_bytes : ℕ → Bytes → Bytes → Bool
same_bytes zero a b = true
same_bytes (suc n) a b = a n == b n && same_bytes n a b

-- What `sm_check_sernum` finds; its callers all say that the read succeeded.
unfoldable pub check_sernum_event : ParameterList → ParameterList → Bool × SmEvent
check_sernum_event config real =
    if not (is_identical config.inspectionlevel)
    then (false, ev_ser_num_ok)
    else if not (same_bytes 16 config.serialnumber real.serialnumber)
    then (true, ev_ser_num_fault)
    else (false, ev_ser_num_ok)

-- `sm_check_sernum`
unfoldable pub sm_check_sernum : Sm → Step
unfolding check_sernum_event iolink_sm_event
sm_check_sernum sm =
    let (keep, e) = check_sernum_event sm.config_paramlist sm.real_paramlist in raise keep e sm
