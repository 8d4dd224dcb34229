-- ===== src/Cm/Tests.antt =====
-- ilink/iolink_cm.c: examples and tests.
use normans_fork.Prelude.{◌≡◌, some, List, [], ◌∷◌, arith}
use normans_fork.Types.{no_fault, com_err_fault}
use normans_fork.Types.ArgBlockId
use normans_fork.Sm.{mh_com3, portmode_comready}
use normans_fork.Cm.{
  CmState, port_active, port_deactivated, PortConfigList, ConfigReq, Cm, Around, od_stop, pd_stop,
}
use normans_fork.Cm.Callbacks.{
  CmInput, port_mode_ind, ds_fault_job, portconfiguration_req, handle, handle_all,
}
use normans_fork.Cm.Served.{summary_of}
use normans_fork.Cm.Answers.{expected_of, handle-summary}
use normans_fork.Cm.Valid.{HoldsRun, handle_all-HoldsRun}
use normans_fork.Cm.Config.{no_parameters}

abbrev config_list : PortConfigList
config_list = record {
  portmode = 1;
  validation_backup = 3;
  iq_behavior = 0;
  port_cycle_time = 0;
  vendorid = 42;
  deviceid = 7;
  in_buffer_len = 0;
  out_buffer_len = 0;
}

abbrev configuration : ConfigReq
configuration = record {
  exp_id = ArgBlockId.void_block;
  ref_id = ArgBlockId.port_cfg_list;
  len = 14;
  configlist = config_list;
}

abbrev surroundings : Around
surroundings = record {
  real_paramlist = no_parameters;
  comrate = mh_com3;
  backup_vid = 0;
  backup_did = 0;
  port_cnt = 4;
  pointer_size = 8;
  port_type_size = 4;
}

abbrev port_at : CmState → Cm
port_at s = record {
  state = s;
  smi_req = configuration;
  cfg_list = config_list;
  ds_fault = no_fault;
  port_info = record {
    deviceid = 0;
    vendorid = 0;
    revisionid = 0;
    cycletime = 0;
    port_quality_info = 1;
    port_status_info = 1;
    transmission_rate = 0;
  };
}

handle-summary_example :
    summary_of (handle surroundings (port_at port_active) (portconfiguration_req configuration))
    ≡ some (1, pd_stop ∷ od_stop ∷ [])
unfolding expected_of
handle-summary_example =
    handle-summary surroundings (port_at port_active) (portconfiguration_req configuration)

abbrev jobs : List (Around × CmInput)
jobs =
    (surroundings, portconfiguration_req configuration)
    ∷ (surroundings, port_mode_ind portmode_comready)
    ∷ (surroundings, ds_fault_job com_err_fault)
    ∷ []

handle_all-HoldsRun_example : HoldsRun (handle_all (port_at port_deactivated) jobs)
handle_all-HoldsRun_example =
    handle_all-HoldsRun (port_at port_deactivated) jobs (omega arith, omega arith)
