-- ===== src/Cm/Served.antt =====
-- ilink/iolink_cm.c: which requests of a client are answered, and when the exchange is started.
use normans_fork.Prelude.{
  ℕ, ◌+◌, ◌≡◌, refl, Bool, true, false, ◌||◌, not, Option, none, some, List, [], ◌∷◌, ◌++◌, arith,
  if◌then◌else◌,
}
use normans_fork.Cm.{
  check_port_mode, sm_startup, port_dido, port_deactivated, CmEvent, cm_none, cm_iol_manual,
  cm_iol_autostart, cm_di_cq, cm_do_cq, cm_deactivated, cm_cfg_change, cm_unknown, PortConfigList,
  Cm, Around, event_block, CmCall, ds_init, ds_delete, ds_startup, sm_set_port_config,
  sm_operate_req, od_start, od_stop, pd_start, pd_stop, cm_cnf, cm_void_cnf, cm_job_error,
  cm_assert_failed,
}
use normans_fork.Cm.Actions.{
  Acted, is_autostart, cm_startup, cm_dido, cm_check_mode, cm_ds_change_action, cm_deactivate,
}
use normans_fork.Cm.Fsm.{transition, CmRun, after_calls, event_loop}
use normans_fork.Cm.Config.{
  portconfiglist_to_parameterlist, set_port_config, ds_chk_cfg, event_of_config,
}

-- The number of answers to a request; an indication of an event of the port is none.
unfoldable pub answers : List CmCall → ℕ
answers [] = 0
answers (cm_cnf ref_id len (event_block event_qualifier event_code) ∷ calls) = answers calls
answers (cm_cnf ref_id len _ ∷ calls) = 1 + answers calls
answers (cm_void_cnf ref_id ∷ calls) = 1 + answers calls
answers (cm_job_error exp_id ref_id error ∷ calls) = 1 + answers calls
answers (_ ∷ calls) = answers calls

-- What is asked of the exchanges of process data and of on-request data.
unfoldable pub exchange : List CmCall → List CmCall
exchange [] = []
exchange (od_start ∷ calls) = od_start ∷ exchange calls
exchange (od_stop ∷ calls) = od_stop ∷ exchange calls
exchange (pd_start ∷ calls) = pd_start ∷ exchange calls
exchange (pd_stop ∷ calls) = pd_stop ∷ exchange calls
exchange (_ ∷ calls) = exchange calls

-- Both, of a run that ends.
abbrev pub summary_of : CmRun → Option (ℕ × List CmCall)
summary_of none = none
summary_of (some (cm, calls)) = some (answers calls, exchange calls)

-- Calls that neither answer nor start nor stop anything.
unfoldable pub is_quiet : List CmCall → Bool
is_quiet [] = true
is_quiet (cm_cnf ref_id len (event_block event_qualifier event_code) ∷ calls) = is_quiet calls
is_quiet (ds_init cfg_list ∷ calls) = is_quiet calls
is_quiet (ds_delete ∷ calls) = is_quiet calls
is_quiet (ds_startup ∷ calls) = is_quiet calls
is_quiet (sm_set_port_config paraml ∷ calls) = is_quiet calls
is_quiet (sm_operate_req ∷ calls) = is_quiet calls
is_quiet (cm_assert_failed ∷ calls) = is_quiet calls
is_quiet (_ ∷ calls) = false

quiet-append :
    (calls more : List CmCall)
    → is_quiet calls ≡ true
    → is_quiet more ≡ true
    → is_quiet (calls ++ more) ≡ true
unfolding is_quiet
quiet-append [] more h h' = h'
quiet-append (c ∷ calls) more h h' = let rest = quiet-append calls more in ground arith

pub answers-quiet : (calls : List CmCall) → is_quiet calls ≡ true → answers calls ≡ 0
unfolding is_quiet answers
answers-quiet [] h = refl
answers-quiet (c ∷ calls) h = let rest = answers-quiet calls in ground arith

pub exchange-quiet : (calls : List CmCall) → is_quiet calls ≡ true → exchange calls ≡ []
unfolding is_quiet exchange
exchange-quiet [] h = refl
exchange-quiet (c ∷ calls) h = let rest = exchange-quiet calls in ground arith

-- An action that is quiet and the last one.
abbrev pub IsLast : Acted → Type 0
IsLast (cm, (calls, next)) = (is_quiet calls ≡ true) × (next ≡ cm_none)

if-quiet :
    (b : Bool) (x y : List CmCall)
    → is_quiet x ≡ true
    → is_quiet y ≡ true
    → is_quiet (if b then x else y) ≡ true
if-quiet true x y h h' = h
if-quiet false x y h h' = h'

set_port_config-quiet : (b : Bool) (cm : Cm) → is_quiet (set_port_config b cm) ≡ true
unfolding set_port_config portconfiglist_to_parameterlist is_quiet
set_port_config-quiet b cm = ground arith

pub startup-IsLast : (env : Around) (e : CmEvent) (cm : Cm) → IsLast (cm_startup env e cm)
unfolding cm_startup is_quiet
startup-IsLast env e cm =
    let deletes = is_autostart e || not (ds_chk_cfg env cm.cfg_list) in
    (
      quiet-append (if deletes then ds_delete ∷ [] else []) (set_port_config true cm)
          (if-quiet deletes (ds_delete ∷ []) [] refl refl) (set_port_config-quiet true cm),
      refl,
    )

pub dido-IsLast : (env : Around) (e : CmEvent) (cm : Cm) → IsLast (cm_dido env e cm)
unfolding cm_dido is_quiet
dido-IsLast env e cm = (set_port_config-quiet true (cm_dido env e cm).0, refl)

pub deactivate-IsLast : (env : Around) (e : CmEvent) (cm : Cm) → IsLast (cm_deactivate env e cm)
unfolding cm_deactivate is_quiet
deactivate-IsLast env e cm = (ground arith, refl)

pub ds_change-IsLast :
    (env : Around) (e : CmEvent) (cm : Cm) → IsLast (cm_ds_change_action env e cm)
unfolding cm_ds_change_action
ds_change-IsLast env e cm = (set_port_config-quiet false cm, refl)

-- The events that `cm_check_mode` finds.
abbrev pub is_mode_event : CmEvent → Bool
is_mode_event cm_iol_manual = true
is_mode_event cm_iol_autostart = true
is_mode_event cm_di_cq = true
is_mode_event cm_do_cq = true
is_mode_event cm_deactivated = true
is_mode_event cm_unknown = true
is_mode_event _ = false

event_of_config-is_mode_event :
    (cfg_list : PortConfigList) → is_mode_event (event_of_config cfg_list) ≡ true
unfolding event_of_config
event_of_config-is_mode_event cfg_list = ground arith

-- A run that ends with these calls.
unfoldable pub IsQuietRun : CmRun → Type 0
IsQuietRun none = ⊥
IsQuietRun (some (cm, calls)) = is_quiet calls ≡ true

pub mode_event-quiet :
    (e : CmEvent) (env : Around) (cm : Cm)
    → is_mode_event e ≡ true
    → cm.state ≡ check_port_mode
    → IsQuietRun (event_loop 1 env e cm)
unfolding event_loop transition IsQuietRun
mode_event-quiet e env cm h h' =
    let started = startup-IsLast env e (record cm { state = sm_startup }) in
    let switched = dido-IsLast env e (record cm { state = port_dido }) in
    let deactivated = deactivate-IsLast env e (record cm { state = port_deactivated }) in
    ground arith

-- A configuration that is looked at: the exchange is stopped and the request answered.
pub check_mode-summary :
    (env : Around) (cm : Cm)
    → cm.state ≡ check_port_mode
    → let (cm', (calls, next)) = cm_check_mode env cm_cfg_change cm in
      (cm'.state ≡ check_port_mode)
      × ((is_mode_event next ≡ true)
          × ((answers calls ≡ 1) × (exchange calls ≡ pd_stop ∷ od_stop ∷ [])))
unfolding cm_check_mode answers exchange
check_mode-summary env cm h =
    let found = event_of_config-is_mode_event cm.smi_req.configlist in ground arith

answers-append :
    (calls more : List CmCall) → is_quiet more ≡ true → answers (calls ++ more) ≡ answers calls
unfolding answers
answers-append [] more h = answers-quiet more h
answers-append (c ∷ calls) more h = let rest = answers-append calls more h in ground arith

exchange-append :
    (calls more : List CmCall) → is_quiet more ≡ true → exchange (calls ++ more) ≡ exchange calls
unfolding exchange
exchange-append [] more h = exchange-quiet more h
exchange-append (c ∷ calls) more h = let rest = exchange-append calls more h in ground arith

pub summary-after_calls :
    (calls : List CmCall) (r : CmRun)
    → IsQuietRun r
    → summary_of (after_calls calls r) ≡ some (answers calls, exchange calls)
unfolding IsQuietRun
summary-after_calls calls none h = elim h [ ]
summary-after_calls calls (some (cm, more)) h =
    let first = answers-append calls more h in
    let rest = exchange-append calls more h in rw (first, rest) refl
