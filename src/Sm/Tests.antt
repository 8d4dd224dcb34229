-- ===== src/Sm/Tests.antt =====
-- ilink/iolink_sm.c: examples and tests.
use normans_fork.Prelude.{
  ℕ, ◌≡◌, refl, true, false, List, [], ◌∷◌, arith, ◌==◌, if◌then◌else◌, Bytes, memcpy, bytes_at,
}
use normans_fork.Types.{ReadCnf, status_no_error, no_comm}
use normans_fork.Sm.Startup.{same_bytes}
use normans_fork.Sm.{
  port_inactive, check_ser_num, restart_device, ev_none, mh_inactive, mh_com3, mh_comlost,
  mh_startup, mh_preoperate, target_cfgcom, InspectionLevel, no_check, identical, portmode_comlost,
  dlmode_operate, type_none, ModeList, ParameterList, Sm, sm_portmode_ind, rev_v11,
}
use normans_fork.Sm.Confirmations.{
  Input, al_read_cnf, dl_mode_ind, set_port_config, dl_read_cnf, dl_write_cnf, handle, handle_all,
}
use normans_fork.Sm.Mseq.{set_valuelist, populate_valuelist}
use normans_fork.Sm.Actions.{set_mode_inactive, mode_list_of}
use normans_fork.Sm.Callbacks.{takes_config}
use normans_fork.Sm.Lengths.{interleaved_list, populate-octets, mode_list-no_time}
use normans_fork.Sm.Checked.{IsCompatible, IsSerial}
use normans_fork.Sm.Sound.{is_expected, Passed}
use normans_fork.Sm.Reached.{
  Reached, start, more, Reached-Passed, announces, announced-IsCompatible, are_expected,
  Reached-all,
}
use normans_fork.Sm.Stuck.{lost-no_config}
use normans_fork.Sm.Partner.{Partner}

no_serial : Bytes
no_serial n = 0

abbrev set_none : ModeList
set_none = set_valuelist 1 0 0 0 type_none

abbrev config_of : (vendorid deviceid : ℕ) → InspectionLevel → ParameterList
config_of vendorid deviceid level = record {
  cycletime = 0;
  mode = target_cfgcom;
  revisionid = 0x11;
  inspectionlevel = level;
  vendorid = vendorid;
  deviceid = deviceid;
  functionid = 0;
  serialnumber = λ n. 65;
}

abbrev inactive_port : Sm
inactive_port = record {
  state = port_inactive;
  mh_mode = mh_inactive;
  comrate = mh_com3;
  config_paramlist = config_of 0x0136 0x010203 identical;
  real_paramlist = config_of 0 0 no_check;
  dev_com = record { mincycle = 0; mseq_cap = 0; pdi = 0; pdo = 0 };
  dl_addr = 0xff;
  comp_retry = 0;
  error_event = ev_none;
  older_cycletime = 0;
}

-- A device of revision 1.1 that is as configured, with one octet of input.
abbrev answer : (addr value : ℕ) → Input
answer addr value = dl_read_cnf addr value status_no_error

abbrev starting_up : List Input
starting_up =
    dl_mode_ind mh_startup
    ∷ answer 2 80
    ∷ answer 3 0
    ∷ answer 4 0x11
    ∷ answer 5 8
    ∷ answer 6 0
    ∷ dl_write_cnf 0 status_no_error
    ∷ answer 7 0x01
    ∷ answer 8 0x36
    ∷ answer 9 0x01
    ∷ answer 10 0x02
    ∷ answer 11 0x03
    ∷ answer 12 0
    ∷ answer 13 0
    ∷ dl_write_cnf 0 status_no_error
    ∷ dl_mode_ind mh_preoperate
    ∷ []

abbrev serial_read : ReadCnf
serial_read = record { buffer = λ n. 65; data_len = 16; errortype = 0 }

-- The port with the serial number asked for, and with a device that is ready.
abbrev checking_port : Sm
checking_port = (handle_all inactive_port starting_up).0

abbrev ready_port : Sm
ready_port = (handle checking_port (al_read_cnf serial_read)).0

test_started : checking_port.state ≡ check_ser_num
unfolding handle_all handle
test_started = refl

checking_port-Reached : Reached checking_port
unfolding are_expected is_expected handle
checking_port-Reached = Reached-all inactive_port starting_up (start inactive_port refl) refl

announced-IsCompatible_example :
    IsCompatible ready_port.config_paramlist ready_port.real_paramlist
    × IsSerial ready_port.config_paramlist ready_port.real_paramlist
unfolding is_expected handle handle_all announces same_bytes memcpy bytes_at
announced-IsCompatible_example =
    announced-IsCompatible checking_port (al_read_cnf serial_read) checking_port-Reached refl refl

Reached-Passed_example : Passed ready_port
unfolding is_expected handle handle_all
Reached-Passed_example =
    Reached-Passed ready_port
      (more checking_port (al_read_cnf serial_read) checking_port-Reached refl)

populate-octets_example :
    populate_valuelist 0 rev_v11 12 3 80 true set_none ≡ interleaved_list 2 1 80
populate-octets_example =
    populate-octets 0 12 3 80 set_none (omega arith) (ground arith) (ground arith) (omega arith)
      (omega arith)

-- A device whose messages have eight octets of on-request data.
abbrev wide_port : Sm
wide_port = record inactive_port {
  real_paramlist = config_of 0 0 no_check;
  dev_com = record { mincycle = 80; mseq_cap = 12; pdi = 8; pdo = 0 };
}

mode_list-no_time_example : (mode_list_of dlmode_operate wide_port).time ≡ 0
mode_list-no_time_example = mode_list-no_time wide_port refl (omega arith) (omega arith)

abbrev restarting_port : Sm
restarting_port = record inactive_port { state = restart_device }

abbrev new_config : Input
new_config = set_port_config (config_of 0 0 no_check)

lost-no_config_example :
    ((handle restarting_port (dl_write_cnf 4 no_comm)).1
      ≡ set_mode_inactive ∷ sm_portmode_ind portmode_comlost ∷ [])
    × (takes_config
          (handle_all restarting_port
            (dl_write_cnf 4 no_comm ∷ new_config ∷ dl_mode_ind mh_comlost ∷ [])).0.state
        ≡ false)
lost-no_config_example =
    lost-no_config 4 no_comm (new_config ∷ dl_mode_ind mh_comlost ∷ []) restarting_port refl refl
      refl

-- The direct parameters of the device that is configured.
abbrev direct : ℕ → ℕ
direct n =
    if n == 2
    then 80
    else if n == 4
    then 0x11
    else if n == 5
    then 8
    else if n == 7
    then 0x01
    else if n == 8
    then 0x36
    else if n == 9
    then 0x01
    else if n == 10
    then 0x02
    else if n == 11
    then 0x03
    else 0

-- The device, with a serial number of 16 bytes, and what is configured.
abbrev partner : Partner
partner = record { direct = direct; serial = serial_read }

abbrev start_config : ParameterList
start_config = config_of 0x0136 0x010203 identical
