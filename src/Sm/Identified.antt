-- ===== src/Sm/Identified.antt =====
-- ilink/iolink_sm.c: the start-up of a device, from the check of its revision on, step by step.
use normans_fork.Prelude.{
  ℕ, suc, ◌≤◌, ◌≡◌, refl, Bool, true, false, ◌||◌, List, [], ◌∷◌, ◌++◌, arith, ltb, ◌==◌,
  if◌then◌else◌,
}
use normans_fork.Types.{status_no_error}
use normans_fork.Sm.{
  wait_on_dl_preoperate, check_ser_num, sm_wait, check_vxy, check_comp, ev_comp_ok, ev_ser_num_ok,
  mh_preoperate, portmode_comready, Sm, SmCall, ds_disable,
}
use normans_fork.Sm.Startup.{check_comp_event, check_sernum_event}
use normans_fork.Sm.Confirmations.{al_read_cnf, dl_mode_ind, dl_write_cnf, handle}
use normans_fork.Sm.Partner.{Partner, reply, replies, told, converse}
use normans_fork.Sm.Starting.{read_of, ident_of, serial_of}
use normans_fork.Sm.Actions.{set_mode_preop_op}

short_of : (n : ℕ) → n ≤ 16 → ltb 16 n ≡ false
short_of n h = ground arith

pub converse-vxy :
    (n : ℕ) (p : Partner) (sm : Sm)
    → (sm.config_paramlist.revisionid == 0
        || sm.config_paramlist.revisionid == sm.real_paramlist.revisionid)
      ≡ true
    → converse (suc n) p [] (record sm { state = check_vxy }) (dl_write_cnf 0 status_no_error ∷ [])
      ≡ converse n p [] (record sm { state = check_comp; dl_addr = 7 }) (read_of p 7 ∷ [])
unfolding converse handle replies reply told
converse-vxy n p sm h = rw h refl

pub converse-ident :
    (n : ℕ) (p : Partner) (sm : Sm)
    → check_comp_event sm.comp_retry sm.config_paramlist (ident_of sm.real_paramlist p.direct)
      ≡ (false, ev_comp_ok)
    → converse
        (suc (suc (suc (suc (suc (suc (suc n)))))))
        p
        []
        (record sm { state = check_comp; dl_addr = 7 })
        (read_of p 7 ∷ [])
      ≡ converse n p []
          (record sm {
            state = wait_on_dl_preoperate;
            real_paramlist = ident_of sm.real_paramlist p.direct;
            dl_addr = 0;
          })
          (dl_write_cnf 0 status_no_error ∷ [])
unfolding converse handle replies reply told
converse-ident n p sm h = rw h refl

told-disable :
    (b : Bool) (calls : List SmCall)
    → told ((if b then ds_disable ∷ [] else []) ++ calls) ≡ told calls
unfolding told
told-disable true calls = refl
told-disable false calls = refl

replies-disable :
    (b : Bool) (p : Partner) (sm : Sm) (calls : List SmCall)
    → replies p sm ((if b then ds_disable ∷ [] else []) ++ calls) ≡ replies p sm calls
unfolding replies reply
replies-disable true p sm calls = refl
replies-disable false p sm calls = refl

pub converse-preop_asked :
    (n : ℕ) (p : Partner) (sm : Sm)
    → converse
        (suc n)
        p
        []
        (record sm { state = wait_on_dl_preoperate })
        (dl_write_cnf 0 status_no_error ∷ [])
      ≡ converse n p []
          (record sm { state = wait_on_dl_preoperate })
          (dl_mode_ind mh_preoperate ∷ [])
unfolding converse handle replies reply told set_mode_preop_op
converse-preop_asked n p sm = rw (told-disable, replies-disable) refl

pub converse-preop :
    (n : ℕ) (p : Partner) (sm : Sm)
    → converse
        (suc n)
        p
        []
        (record sm { state = wait_on_dl_preoperate })
        (dl_mode_ind mh_preoperate ∷ [])
      ≡ converse n p []
          (record sm { state = check_ser_num; mh_mode = mh_preoperate })
          (al_read_cnf p.serial ∷ [])
unfolding converse handle replies reply told
converse-preop n p sm = refl

pub converse-serial :
    (n : ℕ) (p : Partner) (sm : Sm)
    → p.serial.errortype ≡ 0
    → p.serial.data_len ≤ 16
    → check_sernum_event sm.config_paramlist (serial_of sm.real_paramlist p.serial)
      ≡ (false, ev_ser_num_ok)
    → converse (suc n) p [] (record sm { state = check_ser_num }) (al_read_cnf p.serial ∷ [])
      ≡ converse n p
          (portmode_comready ∷ [])
          (record sm { state = sm_wait; real_paramlist = serial_of sm.real_paramlist p.serial })
          []
unfolding converse handle replies reply told
converse-serial n p sm h h' h₁ = let short = short_of p.serial.data_len h' in rw (h, short, h₁) refl
