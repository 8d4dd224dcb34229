-- ===== src/Sm/Announced.antt =====
-- ilink/iolink_sm.c: the confirmations of reads and writes, the mode and the configuration keep what a
-- device has passed.
use normans_fork.Prelude.{
  ℕ, ◌+◌, ◌≡◌, refl, true, false, ◌&&◌, ◌||◌, not, List, [], ◌∷◌, ◌++◌, arith, ◌==◌, u8,
}
use normans_fork.Sm.{
  SmState, wait_on_dl_preoperate, inspection_fault, wait_on_dl_operate, read_com_parameter,
  check_comp_v10, check_vxy, check_comp, restart_device, SmEvent, ev_dl_mode_startup,
  ev_revision_fault, ev_dl_mode_preoperate, ev_dl_mode_operate, ev_v10, ev_not_v10, ev_revision_ok,
  ev_retry_startup, ev_write_done, MhMode, TargetMode, dlmode_preoperate, dlmode_operate,
  ParameterList, Sm, SmCall, addr_pdo, addr_fid_2, rev_v10,
}
use normans_fork.Sm.Actions.{sm_dl_read_req, sm_dl_write_req, sm_portinactive}
use normans_fork.Sm.Fsm.{transition, iolink_sm_event}
use normans_fork.Sm.Startup.{
  is_v10_state, check_comp_v10_event, sm_do_check_comp_v10, check_comp_event, sm_do_check_comp,
  read_cnf_read_com_param, read_cnf_check_comp, write_cnf_check_vxy, rev_id_written,
  write_cnf_restart_dev, write_cnf_wait_on_operate,
}
use normans_fork.Sm.Callbacks.{
  mode_ind_preop, mode_ind_operate, mode_ind_inactive, mode_ind_comlost, mode_ind_in, with_mode,
  is_mh_comlost, sm_dl_mode_ind_cb, sm_setportcfg_req_cb,
}
use normans_fork.Sm.Confirmations.{value_read, value_written}
use normans_fork.Sm.Checked.{
  HasPassed, IsVouched, IsSound, Tells, set_mode-IsVouched, fault-IsSound, event-IsSound,
}
use normans_fork.Sm.Sound.{
  check_comp-Tells, check_comp_v10-Tells, raise-IsSound, is_check_ser_num, is_dido, Passed,
  comlost-IsSound, if-IsSound,
}

-- Calls that announce nothing do not change what is vouched for.
pub IsVouched-append :
    (calls more : List SmCall) (config real : ParameterList)
    → IsVouched calls config real
    → IsVouched more config real
    → IsVouched (calls ++ more) config real
unfolding IsVouched
IsVouched-append [] more config real h h' = h'
IsVouched-append (c ∷ calls) more config real h h' =
    let rest = IsVouched-append calls more config real in ground arith

read_req-IsSound : (addr : ℕ) (sm : Sm) → Passed sm → IsSound (sm_dl_read_req addr sm)
unfolding IsVouched
read_req-IsSound addr sm passed = ground arith

write_req-IsSound : (addr value : ℕ) (sm : Sm) → Passed sm → IsSound (sm_dl_write_req addr value sm)
unfolding IsVouched
write_req-IsSound addr value sm passed = ground arith

-- An event that says nothing of the device.
pub event_only-IsSound :
    (e : SmEvent) (sm : Sm)
    → Passed sm
    → Tells e sm.config_paramlist sm.real_paramlist
    → IsSound (iolink_sm_event e sm)
event_only-IsSound e sm passed tells = event-IsSound sm.state e sm refl passed tells

mode_ind_inactive-IsSound :
    (mode : MhMode) (sm : Sm) → Passed sm → IsSound (mode_ind_inactive mode sm)
unfolding mode_ind_inactive IsVouched Tells
mode_ind_inactive-IsSound mode sm passed =
    let started = event_only-IsSound ev_dl_mode_startup sm passed tt in ground arith

mode_in-IsSound :
    (s : SmState) (mode : MhMode) (sm : Sm) → Passed sm → IsSound (mode_ind_in s mode sm)
unfolding mode_ind_in mode_ind_preop mode_ind_operate IsVouched Tells
mode_in-IsSound s mode sm passed =
    let inactive = mode_ind_inactive-IsSound mode sm passed in
    let preop = event_only-IsSound ev_dl_mode_preoperate sm passed tt in
    let operate = event_only-IsSound ev_dl_mode_operate sm passed tt in
    let lost = comlost-IsSound sm passed in ground arith

mode_comlost-IsSound : (s : SmState) (sm : Sm) → Passed sm → IsSound (mode_ind_comlost s sm)
unfolding mode_ind_comlost IsVouched
mode_comlost-IsSound s sm passed = let lost = comlost-IsSound sm passed in ground arith

with_mode-Passed : (mode : MhMode) (sm : Sm) → Passed sm → Passed (with_mode mode sm)
with_mode-Passed mode sm passed = ground arith

pub mode_ind-IsSound : (mode : MhMode) (sm : Sm) → Passed sm → IsSound (sm_dl_mode_ind_cb mode sm)
unfolding sm_dl_mode_ind_cb
mode_ind-IsSound mode sm passed =
    let passed' = with_mode-Passed mode sm passed in
    if-IsSound (is_mh_comlost mode) _ _ (mode_comlost-IsSound sm.state (with_mode mode sm) passed')
      (mode_in-IsSound sm.state mode (with_mode mode sm) passed')

pub set_port_config-IsSound :
    (paramlist : ParameterList) (sm : Sm)
    → (is_check_ser_num sm.state && is_dido paramlist.mode) ≡ false
    → Passed sm
    → IsSound (sm_setportcfg_req_cb paramlist sm)
unfolding sm_setportcfg_req_cb iolink_sm_event transition HasPassed IsVouched sm_portinactive
set_port_config-IsSound paramlist sm h passed = ground arith

read_com-IsSound : (addr : ℕ) (sm : Sm) → Passed sm → IsSound (read_cnf_read_com_param addr sm)
unfolding read_cnf_read_com_param Tells
read_com-IsSound addr sm passed =
    if-IsSound (not (addr == addr_pdo)) _ _ (read_req-IsSound (u8 (addr + 1)) sm passed) (
      if-IsSound (sm.real_paramlist.revisionid == rev_v10) _ _
        (event_only-IsSound ev_v10 sm passed tt) (event_only-IsSound ev_not_v10 sm passed tt))

check_comp-IsSound : (sm : Sm) → Passed sm → IsSound (sm_do_check_comp sm)
unfolding sm_do_check_comp
check_comp-IsSound sm passed =
    let found = check_comp_event sm.comp_retry sm.config_paramlist sm.real_paramlist in
    raise-IsSound found.0 found.1 sm passed
      (check_comp-Tells sm.comp_retry sm.config_paramlist sm.real_paramlist)

check_comp_v10-IsSound : (sm : Sm) → Passed sm → IsSound (sm_do_check_comp_v10 sm)
unfolding sm_do_check_comp_v10
check_comp_v10-IsSound sm passed =
    let found = check_comp_v10_event sm.config_paramlist sm.real_paramlist in
    raise-IsSound found.0 found.1 sm passed
      (check_comp_v10-Tells sm.config_paramlist sm.real_paramlist)

read_comp-IsSound :
    (addr : ℕ) (s : SmState) (sm : Sm) → Passed sm → IsSound (read_cnf_check_comp addr s sm)
unfolding read_cnf_check_comp
read_comp-IsSound addr s sm passed =
    if-IsSound (not (addr == addr_fid_2)) _ _ (read_req-IsSound (u8 (addr + 1)) sm passed) (
      if-IsSound (is_v10_state s) _ _ (check_comp_v10-IsSound sm passed)
        (check_comp-IsSound sm passed))

pub value_read-IsSound :
    (s : SmState) (addr : ℕ) (sm : Sm) → Passed sm → IsSound (value_read s addr sm)
unfolding value_read IsVouched Tells
value_read-IsSound read_com_parameter addr sm passed = read_com-IsSound addr sm passed
value_read-IsSound check_comp addr sm passed = read_comp-IsSound addr check_comp sm passed
value_read-IsSound check_comp_v10 addr sm passed = read_comp-IsSound addr check_comp_v10 sm passed
value_read-IsSound restart_device addr sm passed = event_only-IsSound ev_write_done sm passed tt
value_read-IsSound _ addr sm passed = ground arith

check_vxy-IsSound : (sm : Sm) → Passed sm → IsSound (write_cnf_check_vxy sm)
unfolding write_cnf_check_vxy Tells
check_vxy-IsSound sm passed =
    let config = sm.config_paramlist in
    if-IsSound (config.revisionid == 0 || config.revisionid == sm.real_paramlist.revisionid) _ _
      (raise-IsSound false ev_revision_ok sm passed tt)
      (if-IsSound (sm.comp_retry == 0) _ _ (raise-IsSound false ev_retry_startup sm passed tt)
        (raise-IsSound true ev_revision_fault sm passed tt))

rev_id-IsSound : (mode : TargetMode) (sm : Sm) → Passed sm → IsSound (rev_id_written mode sm)
unfolding IsVouched
rev_id-IsSound mode sm passed = ground arith

restart_dev-IsSound : (addr : ℕ) (sm : Sm) → Passed sm → IsSound (write_cnf_restart_dev addr sm)
unfolding write_cnf_restart_dev IsVouched
restart_dev-IsSound addr sm passed =
    let written = rev_id-IsSound sm.config_paramlist.mode sm passed in ground arith

on_operate-IsSound : (addr : ℕ) (sm : Sm) → Passed sm → IsSound (write_cnf_wait_on_operate addr sm)
unfolding write_cnf_wait_on_operate IsVouched
on_operate-IsSound addr sm passed =
    let set = set_mode-IsVouched dlmode_operate sm sm.config_paramlist sm.real_paramlist in
    ground arith

pub value_written-IsSound :
    (s : SmState) (addr : ℕ) (sm : Sm)
    → sm.state ≡ s
    → Passed sm
    → IsSound (value_written s addr sm)
unfolding value_written IsVouched
value_written-IsSound wait_on_dl_preoperate addr sm h passed =
    (passed, set_mode-IsVouched dlmode_preoperate sm sm.config_paramlist sm.real_paramlist)
value_written-IsSound inspection_fault addr sm h passed = fault-IsSound sm.error_event sm h
value_written-IsSound check_vxy addr sm h passed = check_vxy-IsSound sm passed
value_written-IsSound restart_device addr sm h passed = restart_dev-IsSound addr sm passed
value_written-IsSound wait_on_dl_operate addr sm h passed = on_operate-IsSound addr sm passed
value_written-IsSound _ addr sm h passed = ground arith
