-- ===== src/Cm/Config.antt =====
-- ilink/iolink_cm.c: what a configuration is translated to, and the information of a port.
use normans_fork.Prelude.{ℕ, Bool, ◌&&◌, not, List, [], ◌∷◌, ◌++◌, leb, ◌==◌, if◌then◌else◌}
use normans_fork.Sm.{
  MhMode, mh_com1, mh_com2, mh_com3, TargetMode, target_cfgcom, target_autocom, target_inactive,
  target_di, target_do, InspectionLevel, no_check, type_comp, identical, ParameterList, rev_v10,
  rev_v11,
}
use normans_fork.Cm.{
  CmEvent, cm_iol_manual, cm_iol_autostart, cm_di_cq, cm_do_cq, cm_deactivated, cm_unknown,
  PortConfigList, PortInfoList, Cm, Around, CmCall, ds_init, sm_set_port_config, cm_assert_failed,
}

-- IOLINK_PORT_STATUS_INFO_…
abbrev pub info_no_dev : ℕ
info_no_dev = 0

abbrev pub info_deactivated : ℕ
info_deactivated = 1

abbrev pub info_port_diag : ℕ
info_port_diag = 2

abbrev pub info_preop : ℕ
info_preop = 3

abbrev pub info_op : ℕ
info_op = 4

abbrev pub info_di : ℕ
info_di = 5

abbrev pub info_do : ℕ
info_do = 6

-- IOLINK_EVENTCODE_…
abbrev pub code_no_dev : ℕ
code_no_dev = 0x1800

abbrev pub code_bad_did : ℕ
code_bad_did = 0x1803

abbrev pub code_incon_size : ℕ
code_incon_size = 0x1809

abbrev pub code_incon_id : ℕ
code_incon_id = 0x180a

abbrev pub code_incon : ℕ
code_incon = 0x180b

abbrev pub code_status_change : ℕ
code_status_change = 0xff26

-- `portmode_to_target_mode`, and the assertion of its default case.
abbrev pub portmode_to_target_mode : ℕ → TargetMode
portmode_to_target_mode portmode =
    if portmode == 1
    then target_cfgcom
    else if portmode == 2
    then target_autocom
    else if portmode == 3
    then target_di
    else if portmode == 4
    then target_do
    else target_inactive

abbrev pub portmode_failed : ℕ → List CmCall
portmode_failed portmode = if leb portmode 4 then [] else cm_assert_failed ∷ []

-- `memset (&paraml, 0, …)`
abbrev pub no_parameters : ParameterList
no_parameters = record {
  cycletime = 0;
  mode = target_inactive;
  revisionid = 0;
  inspectionlevel = no_check;
  vendorid = 0;
  deviceid = 0;
  functionid = 0;
  serialnumber = λ n. 0;
}

-- The inspection level and the revision of a validation, and the assertion of the default case.
abbrev pub level_of : ℕ → InspectionLevel
level_of validation =
    if validation == 0
    then no_check
    else if validation == 1
    then identical
    else if leb validation 4
    then type_comp
    else no_check

abbrev pub revision_of : ℕ → ℕ
revision_of validation =
    if validation == 0
    then 0
    else if validation == 1
    then rev_v10
    else if leb validation 4
    then rev_v11
    else 0

abbrev pub validation_failed : ℕ → List CmCall
validation_failed validation = if leb validation 4 then [] else cm_assert_failed ∷ []

-- `portconfiglist_to_parameterlist`
unfoldable pub portconfiglist_to_parameterlist : PortConfigList → ParameterList × List CmCall
portconfiglist_to_parameterlist cfg_list = (
  record no_parameters {
    cycletime = cfg_list.port_cycle_time;
    vendorid = cfg_list.vendorid;
    deviceid = cfg_list.deviceid;
    mode = portmode_to_target_mode cfg_list.portmode;
    inspectionlevel = level_of cfg_list.validation_backup;
    revisionid = revision_of cfg_list.validation_backup;
  },
  portmode_failed cfg_list.portmode ++ validation_failed cfg_list.validation_backup,
)

-- `set_port_config`
unfoldable pub set_port_config : (with_ds_init : Bool) → Cm → List CmCall
unfolding portconfiglist_to_parameterlist
set_port_config with_ds_init cm =
    let (paraml, failed) = portconfiglist_to_parameterlist cm.cfg_list in
    failed
    ++ (if with_ds_init
        then ds_init cm.cfg_list ∷ sm_set_port_config paraml ∷ []
        else sm_set_port_config (record paraml { mode = target_cfgcom }) ∷ [])

-- `DS_Chk_Cfg`
abbrev pub ds_chk_cfg : Around → PortConfigList → Bool
ds_chk_cfg env cfg_list =
    not (env.backup_vid == 0)
    && env.backup_vid == cfg_list.vendorid
    && env.backup_did == cfg_list.deviceid

-- The event of a configuration: the three `switch`es of `cm_check_mode`.
unfoldable pub event_of_config : PortConfigList → CmEvent
event_of_config cfg_list =
    if not (leb cfg_list.validation_backup 4 && leb cfg_list.iq_behavior 5)
    then cm_unknown
    else if cfg_list.portmode == 0
    then cm_deactivated
    else if cfg_list.portmode == 1
    then cm_iol_manual
    else if cfg_list.portmode == 2
    then cm_iol_autostart
    else if cfg_list.portmode == 3
    then cm_di_cq
    else if cfg_list.portmode == 4
    then cm_do_cq
    else cm_unknown

-- `mhmode_to_transmission_rate` of ilink/iolink_main.c
abbrev pub mhmode_to_transmission_rate : MhMode → ℕ
mhmode_to_transmission_rate mh_com1 = 1
mhmode_to_transmission_rate mh_com2 = 2
mhmode_to_transmission_rate mh_com3 = 3
mhmode_to_transmission_rate _ = 0

-- `init_port_info`
unfoldable pub init_port_info : Around → (status quality : ℕ) → PortInfoList → PortInfoList
init_port_info env status quality info =
    if status == info_deactivated
    then record info {
      port_status_info = status;
      revisionid = 0;
      transmission_rate = 0;
      vendorid = 0;
      deviceid = 0;
      cycletime = 0;
      port_quality_info = quality;
    }
    else record info {
      port_status_info = status;
      revisionid = env.real_paramlist.revisionid;
      transmission_rate = mhmode_to_transmission_rate env.comrate;
      vendorid = env.real_paramlist.vendorid;
      deviceid = env.real_paramlist.deviceid;
      cycletime = (if status == info_preop then env.real_paramlist.cycletime else info.cycletime);
      port_quality_info = quality;
    }

abbrev pub with_info : Around → (status quality : ℕ) → Cm → Cm
with_info env status quality cm = record cm {
  port_info = init_port_info env status quality cm.port_info;
}
