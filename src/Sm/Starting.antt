-- ===== src/Sm/Starting.antt =====
-- ilink/iolink_sm.c: the start-up of a device that is as configured, step by step.
use normans_fork.Prelude.{
  ℕ, suc, ◌*◌, bit_or, ◌≡◌, refl, Bool, true, false, List, [], ◌∷◌, ◌++◌, ltb, ◌==◌, if◌then◌else◌,
  u16, memcpy, bytes_at, zeros,
}
use normans_fork.Types.{ReadCnf, status_no_error}
use normans_fork.Sm.{
  read_com_parameter, check_vxy, ev_none, ev_set_com, mh_startup, ParameterList, Sm, SmCall,
  pl_set_cycletime, rev_v10,
}
use normans_fork.Sm.Confirmations.{
  min_cycle_time, iolink_sm_init, Input, dl_mode_ind, set_port_config, dl_read_cnf, dl_write_cnf,
  handle,
}
use normans_fork.Sm.Callbacks.{config_event, stored_config}
use normans_fork.Sm.Partner.{Partner, reply, replies, told, converse}
use normans_fork.Sm.Actions.{sm_portinactive}

-- The confirmation of a read, without an error.
abbrev pub read_of : Partner → ℕ → Input
read_of p addr = dl_read_cnf addr (p.direct addr) status_no_error

-- The parameters of the device, after the communication parameters and after the identification.
abbrev pub com_of : Sm → (ℕ → ℕ) → ParameterList
com_of sm d = record sm.real_paramlist {
  cycletime = (if ltb (d 2) (min_cycle_time sm.comrate) then min_cycle_time sm.comrate else d 2);
  revisionid = d 4;
}

abbrev pub ident_of : ParameterList → (ℕ → ℕ) → ParameterList
ident_of p d = record p {
  vendorid = bit_or (u16 (d 7 * 256)) (d 8);
  deviceid = bit_or (bit_or (d 9 * 65536) (d 10 * 256)) (d 11);
  functionid = bit_or (u16 (d 12 * 256)) (d 13);
}

-- The parameters with the serial number that is read.
abbrev pub serial_of : ParameterList → ReadCnf → ParameterList
serial_of p r = record p {
  serialnumber = memcpy (memcpy p.serialnumber 0 (zeros 16)) 0 (bytes_at r.buffer 0 r.data_len);
}

abbrev pub checking_vxy : Sm → (ℕ → ℕ) → Sm
checking_vxy sm d = record sm {
  state = check_vxy;
  mh_mode = mh_startup;
  real_paramlist = com_of sm d;
  dev_com = record sm.dev_com { mincycle = d 2; mseq_cap = d 3; pdi = d 5; pdo = d 6 };
  dl_addr = 0;
  comp_retry = 0;
  older_cycletime = sm.real_paramlist.cycletime;
}

-- The port with a configuration, and the one that reads the communication parameters.
abbrev pub configured : Sm → ParameterList → Sm
configured sm paramlist = record (iolink_sm_init sm) {
  config_paramlist = stored_config sm.config_paramlist paramlist;
  error_event = ev_none;
}

abbrev pub reading_com : Sm → Sm
reading_com sm = record sm {
  state = read_com_parameter;
  mh_mode = mh_startup;
  dl_addr = 2;
  comp_retry = 0;
}

abbrev pub cycle_read : Sm → (ℕ → ℕ) → Sm
cycle_read sm d = record (reading_com sm) {
  real_paramlist = record sm.real_paramlist {
    cycletime = (if ltb (d 2) (min_cycle_time sm.comrate) then min_cycle_time sm.comrate else d 2);
  };
  older_cycletime = sm.real_paramlist.cycletime;
  dev_com = record sm.dev_com { mincycle = d 2 };
  dl_addr = 3;
}

told-if :
    (b : Bool) (time : ℕ) (calls : List SmCall)
    → told ((if b then [] else pl_set_cycletime time ∷ []) ++ calls) ≡ told calls
unfolding told
told-if true time calls = refl
told-if false time calls = refl

replies-if :
    (b : Bool) (time : ℕ) (p : Partner) (sm : Sm) (calls : List SmCall)
    → replies p sm ((if b then [] else pl_set_cycletime time ∷ []) ++ calls) ≡ replies p sm calls
unfolding replies reply
replies-if true time p sm calls = refl
replies-if false time p sm calls = refl

pub converse-configured :
    (n : ℕ) (p : Partner) (sm : Sm) (paramlist : ParameterList)
    → config_event paramlist.mode ≡ ev_set_com
    → converse (suc n) p [] (iolink_sm_init sm) (set_port_config paramlist ∷ [])
      ≡ converse n p []
          (configured sm paramlist)
          (dl_read_cnf 0xff (p.direct 2) status_no_error ∷ dl_mode_ind mh_startup ∷ [])
unfolding converse handle replies reply told sm_portinactive
converse-configured n p sm paramlist h = rw h refl

pub converse-woken :
    (n : ℕ) (p : Partner) (sm : Sm)
    → converse
        (suc (suc n))
        p
        []
        (iolink_sm_init sm)
        (dl_read_cnf 0xff (p.direct 2) status_no_error ∷ dl_mode_ind mh_startup ∷ [])
      ≡ converse n p [] (reading_com sm) (read_of p 2 ∷ [])
unfolding converse handle replies reply told
converse-woken n p sm = refl

pub converse-cycle_read :
    (n : ℕ) (p : Partner) (sm : Sm)
    → converse (suc n) p [] (reading_com sm) (read_of p 2 ∷ [])
      ≡ converse n p [] (cycle_read sm p.direct) (read_of p 3 ∷ [])
unfolding converse handle replies reply told
converse-cycle_read n p sm = rw (told-if, replies-if) refl

pub converse-com_read :
    (n : ℕ) (p : Partner) (sm : Sm)
    → (p.direct 4 == rev_v10) ≡ false
    → converse (suc (suc (suc (suc n)))) p [] (cycle_read sm p.direct) (read_of p 3 ∷ [])
      ≡ converse n p [] (checking_vxy sm p.direct) (dl_write_cnf 0 status_no_error ∷ [])
unfolding converse handle replies reply told
converse-com_read n p sm h = rw h refl
