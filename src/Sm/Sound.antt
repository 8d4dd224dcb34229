-- ===== src/Sm/Sound.antt =====
-- ilink/iolink_sm.c: a device is only announced when it has passed the checks.
use normans_fork.Prelude.{
  ℕ, ◌≡◌, refl, Bool, true, false, ◌&&◌, ◌||◌, not, arith, ltb, ◌==◌, if◌then◌else◌, Bytes, memcpy,
  bytes_at, zeros,
}
use normans_fork.Prelude.{
  ℕ, ◌≡◌, refl, Bool, true, false, ◌&&◌, ◌||◌, not, arith, ltb, ◌==◌, if◌then◌else◌, Bytes, memcpy,
  bytes_at, zeros,
}
use normans_fork.Sm.{
  SmState, check_ser_num, sm_wait, sm_operate, read_com_parameter, check_comp_v10, check_comp,
  restart_device, write_master_cycl, wait_devmode_cnf, SmEvent, ev_dl_mode_comlost, ev_cnf_comlost,
  TargetMode, ParameterList, Sm, Step, addr_dummy_wurq, rev_v11,
}
use normans_fork.Sm.{
  SmState, check_ser_num, sm_wait, sm_operate, read_com_parameter, check_comp_v10, check_comp,
  restart_device, write_master_cycl, wait_devmode_cnf, SmEvent, ev_dl_mode_comlost, ev_cnf_comlost,
  TargetMode, ParameterList, Sm, Step, addr_dummy_wurq, rev_v11,
}
use normans_fork.Types.{ReadCnf}
use normans_fork.Sm.Actions.{is_di, is_do}
use normans_fork.Types.SmiError
use normans_fork.Sm.Fsm.{iolink_sm_event}
use normans_fork.Sm.Startup.{
  raise, check_comp_v10_event, check_comp_event, check_sernum_event, sm_check_sernum,
}
use normans_fork.Sm.Callbacks.{is_no_error, with_serial, sm_al_read_cnf_cb}
use normans_fork.Sm.Confirmations.{Input, al_read_cnf, set_port_config, dl_read_cnf}
use normans_fork.Sm.Checked.{HasPassed, IsSound, Tells, event-IsSound}

pub check_comp-Tells :
    (comp_retry : ℕ) (config real : ParameterList)
    → Tells (check_comp_event comp_retry config real).1 config real
unfolding check_comp_event Tells
check_comp-Tells comp_retry config real = ground arith

pub check_comp_v10-Tells :
    (config real : ParameterList) → Tells (check_comp_v10_event config real).1 config real
unfolding check_comp_v10_event Tells
check_comp_v10-Tells config real = ground arith

check_sernum-Tells :
    (config real : ParameterList) → Tells (check_sernum_event config real).1 config real
unfolding check_sernum_event Tells
check_sernum-Tells config real = ground arith

pub raise-IsSound :
    (keep : Bool) (e : SmEvent) (sm : Sm)
    → HasPassed sm.state sm.config_paramlist sm.real_paramlist
    → Tells e sm.config_paramlist sm.real_paramlist
    → IsSound (raise keep e sm)
raise-IsSound true e sm passed tells =
    event-IsSound sm.state e (record sm { error_event = e }) refl passed tells
raise-IsSound false e sm passed tells = event-IsSound sm.state e sm refl passed tells

-- The states in which a parameter of the device is read, and those in which its serial number has
-- been checked.
abbrev pub is_reading_state : SmState → Bool
is_reading_state read_com_parameter = true
is_reading_state check_comp = true
is_reading_state check_comp_v10 = true
is_reading_state restart_device = true
is_reading_state _ = false

abbrev pub is_past_serial : SmState → Bool
is_past_serial sm_wait = true
is_past_serial write_master_cycl = true
is_past_serial wait_devmode_cnf = true
is_past_serial sm_operate = true
is_past_serial _ = false

abbrev pub is_check_ser_num : SmState → Bool
is_check_ser_num check_ser_num = true
is_check_ser_num _ = false

abbrev pub is_dido : TargetMode → Bool
is_dido mode = is_di mode || is_do mode

-- A parameter is read only while parameters are asked for, a serial number is not read once it has
-- been checked, and a port is not configured for DI or DO while the serial number is checked.
unfoldable pub is_expected : Sm → Input → Bool
is_expected sm (dl_read_cnf addr value stat) =
    is_reading_state sm.state || not (is_no_error stat) || addr == addr_dummy_wurq
is_expected sm (al_read_cnf r) = not (is_past_serial sm.state)
is_expected sm (set_port_config paramlist) =
    not (is_check_ser_num sm.state && is_dido paramlist.mode)
is_expected sm _ = true

-- A state in which no check has been passed yet says nothing.
pub HasPassed-reading :
    (s : SmState) (config real : ParameterList)
    → is_reading_state s ≡ true
    → HasPassed s config real
unfolding HasPassed
HasPassed-reading s config real h = ground arith

-- The serial number does not matter before it is checked.
HasPassed-serial :
    (s : SmState) (serial : Bytes) (config real : ParameterList)
    → is_past_serial s ≡ false
    → HasPassed s config real
    → HasPassed s config (record real { serialnumber = serial })
unfolding HasPassed
HasPassed-serial s serial config real h passed = ground arith

abbrev pub Passed : Sm → Type 0
Passed sm = HasPassed sm.state sm.config_paramlist sm.real_paramlist

sernum-IsSound :
    (serial : Bytes) (sm : Sm)
    → is_past_serial sm.state ≡ false
    → Passed sm
    → IsSound (sm_check_sernum (with_serial serial sm))
unfolding sm_check_sernum
sernum-IsSound serial sm h passed =
    let real = record sm.real_paramlist { serialnumber = serial } in
    raise-IsSound (check_sernum_event sm.config_paramlist real).0
      (check_sernum_event sm.config_paramlist real).1 (with_serial serial sm)
      (HasPassed-serial sm.state serial sm.config_paramlist sm.real_paramlist h passed)
      (check_sernum-Tells sm.config_paramlist real)

pub lost-IsSound : (sm : Sm) → Passed sm → IsSound (iolink_sm_event ev_cnf_comlost sm)
unfolding Tells
lost-IsSound sm passed = event-IsSound sm.state ev_cnf_comlost sm refl passed tt

pub comlost-IsSound : (sm : Sm) → Passed sm → IsSound (iolink_sm_event ev_dl_mode_comlost sm)
unfolding Tells
comlost-IsSound sm passed = event-IsSound sm.state ev_dl_mode_comlost sm refl passed tt

-- A step that is sound on both sides of a test is sound.
pub if-IsSound : (b : Bool) (x y : Step) → IsSound x → IsSound y → IsSound (if b then x else y)
if-IsSound true x y on_true on_false = on_true
if-IsSound false x y on_true on_false = on_false

pub al_read_cnf-IsSound :
    (r : ReadCnf) (sm : Sm)
    → is_past_serial sm.state ≡ false
    → Passed sm
    → IsSound (sm_al_read_cnf_cb r sm)
unfolding sm_al_read_cnf_cb
al_read_cnf-IsSound r sm h passed =
    let cleared = memcpy sm.real_paramlist.serialnumber 0 (zeros 16) in
    let got = memcpy cleared 0 (bytes_at r.buffer 0 r.data_len) in
    let lost = lost-IsSound sm passed in
    let on_error =
      if-IsSound (sm.real_paramlist.revisionid == rev_v11) _ _ lost (comlost-IsSound sm passed) in
    let on_read = if-IsSound (ltb 16 r.data_len) _ _ lost (sernum-IsSound got sm h passed) in
    if-IsSound (r.errortype == SmiError.idx_notavail) _ _ (sernum-IsSound cleared sm h passed)
      (if-IsSound (not (r.errortype == SmiError.no_error)) _ _ on_error on_read)
