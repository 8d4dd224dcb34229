-- ===== src/Cm/Valid.antt =====
-- ilink/iolink_cm.c: the configuration that is kept is one that the code can translate.
use normans_fork.Prelude.{◌≤◌, ◌≡◌, refl, Bool, true, false, none, some, List, [], ◌∷◌, ◌++◌, arith}
use normans_fork.Cm.{
  CmState, check_port_mode, sm_startup, port_dido, port_deactivated, CmEvent, cm_ds_ready,
  cm_ds_fault, cm_cfg_change, cm_ds_change, Cm, Around, CmCall, cm_assert_failed,
}
use normans_fork.Cm.Actions.{
  Acted, cm_startup, cm_dido, cm_check_mode, cm_comlost, cm_ds_change_action, cm_port_fault,
  cm_deactivate,
}
use normans_fork.Cm.Fsm.{transition, CmRun, after_calls, event_loop, iolink_cm_event}
use normans_fork.Cm.Callbacks.{
  event_of_mode, mode_inactive, cm_sm_port_mode_ind_cb, cm_ds_fault_cb, check_arg_block,
  cm_smi_masterident_cb, cm_smi_portconfiguration_cb, cm_smi_readbackportconfiguration_cb,
  cm_smi_portstatus_cb, CmInput, port_mode_ind, ds_ready_job, ds_change_job, ds_fault_job,
  portconfiguration_req, handle, handle_all,
}
use normans_fork.Cm.Served.{
  startup-IsLast, dido-IsLast, deactivate-IsLast, ds_change-IsLast, is_mode_event,
  check_mode-summary,
}
use normans_fork.Cm.Answers.{next_of, is_cfg_change}
use normans_fork.Cm.Config.{portconfiglist_to_parameterlist, set_port_config, event_of_config}

-- The mode and the validation are values of their enumerations.
abbrev pub IsValid : Cm → Type 0
IsValid cm = (cm.cfg_list.portmode ≤ 4) × (cm.cfg_list.validation_backup ≤ 4)

-- No assertion has failed.
unfoldable pub is_free : List CmCall → Bool
is_free [] = true
is_free (cm_assert_failed ∷ calls) = false
is_free (_ ∷ calls) = is_free calls

abbrev IsFree : Acted → Type 0
IsFree (cm, (calls, next)) = IsValid cm × (is_free calls ≡ true)

-- A run that ends with a valid configuration and no failed assertion.
unfoldable pub HoldsRun : CmRun → Type 0
HoldsRun none = ⊥
HoldsRun (some (cm, calls)) = IsValid cm × (is_free calls ≡ true)

free-append :
    (calls more : List CmCall)
    → is_free calls ≡ true
    → is_free more ≡ true
    → is_free (calls ++ more) ≡ true
unfolding is_free
free-append [] more h h' = h'
free-append (c ∷ calls) more h h' = let rest = free-append calls more in ground arith

after_calls-HoldsRun :
    (calls : List CmCall) (r : CmRun)
    → is_free calls ≡ true
    → HoldsRun r
    → HoldsRun (after_calls calls r)
unfolding HoldsRun
after_calls-HoldsRun calls none h holds = elim holds [ ]
after_calls-HoldsRun calls (some (cm, more)) h (valid, free) =
    (valid, free-append calls more h free)

set_port_config-free : (b : Bool) (cm : Cm) → IsValid cm → is_free (set_port_config b cm) ≡ true
unfolding set_port_config portconfiglist_to_parameterlist is_free
set_port_config-free b cm valid = ground arith

startup-IsFree : (env : Around) (e : CmEvent) (cm : Cm) → IsValid cm → IsFree (cm_startup env e cm)
unfolding cm_startup is_free
startup-IsFree env e cm valid = let set = set_port_config-free true cm valid in ground arith

dido-IsFree : (env : Around) (e : CmEvent) (cm : Cm) → IsValid cm → IsFree (cm_dido env e cm)
unfolding cm_dido is_free
dido-IsFree env e cm valid = (valid, set_port_config-free true (cm_dido env e cm).0 valid)

deactivate-IsFree :
    (env : Around) (e : CmEvent) (cm : Cm) → IsValid cm → IsFree (cm_deactivate env e cm)
unfolding cm_deactivate is_free
deactivate-IsFree env e cm valid = ground arith

ds_change-IsFree :
    (env : Around) (e : CmEvent) (cm : Cm) → IsValid cm → IsFree (cm_ds_change_action env e cm)
unfolding cm_ds_change_action
ds_change-IsFree env e cm valid = (valid, set_port_config-free false cm valid)

check_mode-IsFree :
    (env : Around) (e : CmEvent) (cm : Cm) → IsValid cm → IsFree (cm_check_mode env e cm)
unfolding cm_check_mode event_of_config is_free
check_mode-IsFree env e cm valid = ground arith

mode_event-HoldsRun :
    (e : CmEvent) (env : Around) (cm : Cm)
    → is_mode_event e ≡ true
    → cm.state ≡ check_port_mode
    → IsValid cm
    → HoldsRun (event_loop 1 env e cm)
unfolding event_loop transition HoldsRun
mode_event-HoldsRun e env cm h h' valid =
    let at_startup = record cm { state = sm_startup } in
    let at_dido = record cm { state = port_dido } in
    let at_rest = record cm { state = port_deactivated } in
    let started = startup-IsLast env e at_startup in
    let switched = dido-IsLast env e at_dido in
    let rested = deactivate-IsLast env e at_rest in
    let free = startup-IsFree env e at_startup valid in
    let free' = dido-IsFree env e at_dido valid in
    let free₂ = deactivate-IsFree env e at_rest valid in ground arith

config-HoldsRun :
    (env : Around) (cm : Cm) → IsValid cm → HoldsRun (iolink_cm_event env cm_cfg_change cm)
unfolding iolink_cm_event event_loop transition HoldsRun is_free
config-HoldsRun env cm valid =
    let cm' = record cm { state = check_port_mode } in
    let acted = cm_check_mode env cm_cfg_change cm' in
    let (state, (mode, _)) = check_mode-summary env cm' refl in
    let (kept, free) = check_mode-IsFree env cm_cfg_change cm' valid in
    let end =
      after_calls-HoldsRun acted.1.0 (event_loop 1 env acted.1.1 acted.0) free
        (mode_event-HoldsRun acted.1.1 env acted.0 mode state kept) in
    let last = next_of acted.1.1 mode in ground arith

event-HoldsRun :
    (s : CmState) (e : CmEvent) (env : Around) (cm : Cm)
    → cm.state ≡ s
    → is_cfg_change e ≡ false
    → IsValid cm
    → HoldsRun (iolink_cm_event env e cm)
unfolding iolink_cm_event event_loop transition HoldsRun is_free cm_comlost cm_check_mode
    cm_port_fault
event-HoldsRun s e env cm h h' valid =
    let at_startup = record cm { state = sm_startup } in
    let at_dido = record cm { state = port_dido } in
    let at_rest = record cm { state = port_deactivated } in
    let started = startup-IsLast env e at_startup in
    let switched = dido-IsLast env e at_dido in
    let rested = deactivate-IsLast env e at_rest in
    let changed = ds_change-IsLast env e at_startup in
    let free = startup-IsFree env e at_startup valid in
    let free' = dido-IsFree env e at_dido valid in
    let free₂ = deactivate-IsFree env e at_rest valid in
    let free₃ = ds_change-IsFree env e at_startup valid in ground arith

handle-HoldsRun : (env : Around) (cm : Cm) (i : CmInput) → IsValid cm → HoldsRun (handle env cm i)
unfolding handle cm_sm_port_mode_ind_cb mode_inactive cm_ds_fault_cb cm_smi_masterident_cb
    cm_smi_portconfiguration_cb cm_smi_readbackportconfiguration_cb cm_smi_portstatus_cb
    check_arg_block is_free HoldsRun
handle-HoldsRun env cm (port_mode_ind mode) valid =
    let run = event-HoldsRun cm.state (event_of_mode mode) env cm refl in ground arith
handle-HoldsRun env cm ds_ready_job valid =
    event-HoldsRun cm.state cm_ds_ready env cm refl refl valid
handle-HoldsRun env cm ds_change_job valid =
    event-HoldsRun cm.state cm_ds_change env cm refl refl valid
handle-HoldsRun env cm (ds_fault_job fault) valid =
    event-HoldsRun cm.state cm_ds_fault env (record cm { ds_fault = fault }) refl refl valid
handle-HoldsRun env cm (portconfiguration_req r) valid =
    let changed = config-HoldsRun env (record cm { smi_req = r }) valid in ground arith
handle-HoldsRun env cm i valid = ground arith

then-HoldsRun :
    (r : CmRun) (rest : Cm → CmRun)
    → HoldsRun r
    → ((cm : Cm) → IsValid cm → HoldsRun (rest cm))
    → HoldsRun
        (elim r as (λ x. CmRun) [ none ↦ none | some (cm, calls) ↦ after_calls calls (rest cm) ])
unfolding HoldsRun
then-HoldsRun none rest h next = elim h [ ]
then-HoldsRun (some (cm, calls)) rest (valid, free) next =
    after_calls-HoldsRun calls (rest cm) free (next cm valid)

-- Whatever jobs come, the port keeps a configuration that it can translate: no assertion fails and
-- every job is handled to its end.
pub handle_all-HoldsRun :
    (cm : Cm) (inputs : List (Around × CmInput)) → IsValid cm → HoldsRun (handle_all cm inputs)
unfolding handle_all HoldsRun is_free
handle_all-HoldsRun cm [] valid = (valid, refl)
handle_all-HoldsRun cm ((env, i) ∷ inputs) valid =
    then-HoldsRun (handle env cm i) (λ cm'. handle_all cm' inputs) (handle-HoldsRun env cm i valid)
      (λ cm' kept. handle_all-HoldsRun cm' inputs kept)
