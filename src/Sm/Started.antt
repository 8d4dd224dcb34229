-- ===== src/Sm/Started.antt =====
-- ilink/iolink_sm.c: the whole start-up of a device that is as configured.
use normans_fork.Prelude.{ℕ}
use normans_fork.Sm.{sm_wait, check_comp, ev_none, mh_preoperate, ParameterList, Sm}
use normans_fork.Sm.Partner.{Partner}
use normans_fork.Sm.Starting.{ident_of, serial_of, checking_vxy}
use normans_fork.Sm.Callbacks.{stored_config}

-- The port with the configuration.
abbrev with_config : Sm → ParameterList → Sm
with_config sm paramlist = record sm {
  config_paramlist = stored_config sm.config_paramlist paramlist;
  error_event = ev_none;
}

-- The first nine rounds: the communication parameters are read and the revision is checked.
abbrev checking_ids : Sm → (ℕ → ℕ) → Sm
checking_ids sm d = record (checking_vxy sm d) { state = check_comp; dl_addr = 7 }

-- The other ten: the ids are read and checked, and so is the serial number.
abbrev ready : Sm → Partner → Sm
ready sm p = record sm {
  state = sm_wait;
  mh_mode = mh_preoperate;
  real_paramlist = serial_of (ident_of sm.real_paramlist p.direct) p.serial;
  dl_addr = 0;
}
