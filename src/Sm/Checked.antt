-- ===== src/Sm/Checked.antt =====
-- ilink/iolink_sm.c: what a device has passed in each state, and when it is announced.
use normans_fork.Prelude.{◌≤◌, ◌≡◌, ◌⊎◌, true, false, List, [], ◌∷◌, arith}
use normans_fork.Sm.{
  SmState, wait_on_dl_preoperate, check_ser_num, sm_wait, sm_operate, inspection_fault,
  wait_on_dl_operate, write_master_cycl, wait_devmode_cnf, SmEvent, ev_comp_ok, ev_v10_comp_ok,
  ev_ser_num_ok, portmode_comready, portmode_operate, DlMode, dlmode_preoperate, dlmode_operate,
  ParameterList, Sm, SmCall, sm_portmode_ind, Step,
}
use normans_fork.Sm.Actions.{set_mode_preop_op, sm_portinactive, sm_inspect_fault, sm_smoperate_ind}
use normans_fork.Sm.Fsm.{transition, iolink_sm_event}
use normans_fork.Sm.Startup.{is_no_check, is_identical, same_bytes}

-- The cycle time, and by the level the vendor and the device, are as configured.
abbrev pub IsCompatible : (config real : ParameterList) → Type 0
IsCompatible config real =
    ((config.cycletime ≡ 0) ⊎ (real.cycletime ≤ config.cycletime))
    × ((is_no_check config.inspectionlevel ≡ true)
        ⊎ ((config.vendorid ≡ real.vendorid) × (config.deviceid ≡ real.deviceid)))

-- So is the serial number, if the level says that it has to be.
abbrev pub IsSerial : (config real : ParameterList) → Type 0
IsSerial config real =
    (is_identical config.inspectionlevel ≡ false)
    ⊎ (same_bytes 16 config.serialnumber real.serialnumber ≡ true)

-- What a device has passed in a state.
unfoldable pub HasPassed : SmState → (config real : ParameterList) → Type 0
HasPassed wait_on_dl_preoperate config real = IsCompatible config real
HasPassed wait_on_dl_operate config real = IsCompatible config real
HasPassed check_ser_num config real = IsCompatible config real
HasPassed sm_wait config real = IsCompatible config real × IsSerial config real
HasPassed write_master_cycl config real = IsCompatible config real × IsSerial config real
HasPassed wait_devmode_cnf config real = IsCompatible config real × IsSerial config real
HasPassed sm_operate config real = IsCompatible config real × IsSerial config real
HasPassed _ config real = Unit

-- A device that is announced as ready or in operation has passed all checks.
unfoldable pub IsVouched : List SmCall → (config real : ParameterList) → Type 0
IsVouched [] config real = Unit
IsVouched (sm_portmode_ind portmode_comready ∷ calls) config real =
    IsCompatible config real × IsSerial config real × IsVouched calls config real
IsVouched (sm_portmode_ind portmode_operate ∷ calls) config real =
    IsCompatible config real × IsSerial config real × IsVouched calls config real
IsVouched (_ ∷ calls) config real = IsVouched calls config real

abbrev pub IsSound : Step → Type 0
IsSound (sm, calls) =
    HasPassed sm.state sm.config_paramlist sm.real_paramlist
    × IsVouched calls sm.config_paramlist sm.real_paramlist

-- What an event says of the device.
unfoldable pub Tells : SmEvent → (config real : ParameterList) → Type 0
Tells ev_comp_ok config real = IsCompatible config real
Tells ev_v10_comp_ok config real = IsCompatible config real
Tells ev_ser_num_ok config real = IsSerial config real
Tells _ config real = Unit

pub set_mode-IsVouched :
    (mode : DlMode) (sm : Sm) (config real : ParameterList)
    → IsVouched (set_mode_preop_op mode sm) config real
unfolding set_mode_preop_op IsVouched
set_mode-IsVouched mode sm config real = ground arith

inspect_fault-IsVouched :
    (e : SmEvent) (sm : Sm) (config real : ParameterList)
    → IsVouched (sm_inspect_fault e sm).1 config real
unfolding sm_inspect_fault IsVouched
inspect_fault-IsVouched e sm config real =
    let preop = set_mode-IsVouched dlmode_preoperate sm config real in
    let operate = set_mode-IsVouched dlmode_operate sm config real in ground arith

sm-inspect_fault : (e : SmEvent) (sm : Sm) → (sm_inspect_fault e sm).0 ≡ sm
unfolding sm_inspect_fault
sm-inspect_fault e sm = ground arith

-- An event in the state InspectionFault leads to no state that needs a check.
pub fault-IsSound :
    (e : SmEvent) (sm : Sm) → sm.state ≡ inspection_fault → IsSound (iolink_sm_event e sm)
unfolding iolink_sm_event transition HasPassed IsVouched sm_portinactive
fault-IsSound e sm h =
    let sm' = record sm { state = inspection_fault } in
    let config = sm.config_paramlist in
    let real = sm.real_paramlist in
    ground (arith, inspect_fault-IsVouched e sm' config real, sm-inspect_fault e sm')

pub event-IsSound :
    (s : SmState) (e : SmEvent) (sm : Sm)
    → sm.state ≡ s
    → HasPassed s sm.config_paramlist sm.real_paramlist
    → Tells e sm.config_paramlist sm.real_paramlist
    → IsSound (iolink_sm_event e sm)
unfolding iolink_sm_event transition HasPassed IsVouched Tells sm_portinactive sm_smoperate_ind
event-IsSound inspection_fault e sm h passed tells = fault-IsSound e sm h
event-IsSound s e sm h passed tells =
    let sm' = record sm { state = inspection_fault } in
    let config = sm.config_paramlist in
    let real = sm.real_paramlist in
    ground (arith, inspect_fault-IsVouched e sm' config real, sm-inspect_fault e sm')
