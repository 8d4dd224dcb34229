-- ===== src/Cm/Answers.antt =====
-- ilink/iolink_cm.c: what each job answers, and when the exchange is started and stopped.
use normans_fork.Types.ArgBlockId
use normans_fork.Prelude.{
  ℕ, ◌≡◌, refl, Bool, true, false, ◌&&◌, not, some, List, [], ◌∷◌, arith, ◌==◌, if◌then◌else◌,
}
use normans_fork.Cm.{
  CmState, check_port_mode, sm_startup, ds_param_manager, waiting_on_operate, port_dido,
  port_deactivated, CmEvent, cm_none, cm_ds_ready, cm_ds_fault, cm_sm_operate, cm_cfg_change,
  cm_ds_change, ConfigReq, Cm, Around, CmCall, od_start, od_stop, pd_start, pd_stop,
}
use normans_fork.Cm.Fsm.{transition, is_cm_none, after_calls, event_loop, iolink_cm_event}
use normans_fork.Cm.Served.{
  answers, exchange, summary_of, answers-quiet, exchange-quiet, IsLast, startup-IsLast, dido-IsLast,
  deactivate-IsLast, ds_change-IsLast, is_mode_event, mode_event-quiet, check_mode-summary,
  summary-after_calls,
}
use normans_fork.Cm.Actions.{
  Acted, cm_startup, cm_dido, cm_check_mode, cm_comlost, cm_ds_change_action, cm_port_fault,
  cm_deactivate,
}
use normans_fork.Sm.{PortMode}
use normans_fork.Cm.Callbacks.{
  event_of_mode, mode_inactive, cm_sm_port_mode_ind_cb, cm_ds_fault_cb, check_arg_block, void_len,
  config_len, cm_smi_masterident_cb, cm_smi_portconfiguration_cb,
  cm_smi_readbackportconfiguration_cb, cm_smi_portstatus_cb, CmInput, port_mode_ind, ds_ready_job,
  ds_change_job, ds_fault_job, masterident_req, portconfiguration_req, readback_req, portstatus_req,
  handle,
}

abbrev pub is_ds_param_manager : CmState → Bool
is_ds_param_manager ds_param_manager = true
is_ds_param_manager _ = false

pub next_of : (next : CmEvent) → is_mode_event next ≡ true → is_cm_none next ≡ false
next_of next h = ground arith

-- The run of an action that is followed by others.
looked_at-summary :
    (env : Around) (cm : Cm) (calls : List CmCall) (next : CmEvent)
    → cm.state ≡ check_port_mode
    → is_mode_event next ≡ true
    → answers calls ≡ 1
    → exchange calls ≡ pd_stop ∷ od_stop ∷ []
    → (is_cm_none next ≡ false)
      × (summary_of (after_calls calls (event_loop 1 env next cm))
          ≡ some (1, pd_stop ∷ od_stop ∷ []))
looked_at-summary env cm calls next h h' h₁ h₂ =
    let end =
      summary-after_calls calls (event_loop 1 env next cm) (mode_event-quiet next env cm h' h) in
    (next_of next h', rw (end, h₁, h₂) refl)

config-summary :
    (env : Around) (cm : Cm)
    → summary_of (iolink_cm_event env cm_cfg_change cm)
      ≡ (if is_ds_param_manager cm.state then some (0, []) else some (1, pd_stop ∷ od_stop ∷ []))
unfolding iolink_cm_event event_loop transition answers exchange
config-summary env cm =
    let cm' = record cm { state = check_port_mode } in
    let acted = cm_check_mode env cm_cfg_change cm' in
    let (state, (mode, (one, stops))) = check_mode-summary env cm' refl in
    let end = looked_at-summary env acted.0 acted.1.0 acted.1.1 state mode one stops in ground arith

last-summary :
    (a : Acted) → IsLast a → (answers a.1.0 ≡ 0) × ((exchange a.1.0 ≡ []) × (a.1.1 ≡ cm_none))
last-summary a (quiet, last) = (answers-quiet a.1.0 quiet, (exchange-quiet a.1.0 quiet, last))

abbrev pub is_cfg_change : CmEvent → Bool
is_cfg_change cm_cfg_change = true
is_cfg_change _ = false

abbrev pub is_waiting : CmState → Bool
is_waiting waiting_on_operate = true
is_waiting _ = false

abbrev pub is_operate : CmEvent → Bool
is_operate cm_sm_operate = true
is_operate _ = false

-- What an event other than a new configuration asks of the exchange.
abbrev pub started_by : CmState → CmEvent → List CmCall
started_by s e = if is_operate e && is_waiting s then od_start ∷ pd_start ∷ [] else []

event-summary :
    (s : CmState) (e : CmEvent) (env : Around) (cm : Cm)
    → cm.state ≡ s
    → is_cfg_change e ≡ false
    → summary_of (iolink_cm_event env e cm) ≡ some (0, started_by s e)
unfolding iolink_cm_event event_loop transition answers exchange cm_comlost cm_check_mode
    cm_port_fault
event-summary s e env cm h h' =
    let at_startup = record cm { state = sm_startup } in
    let at_dido = record cm { state = port_dido } in
    let at_rest = record cm { state = port_deactivated } in
    let started = last-summary (cm_startup env e at_startup) (startup-IsLast env e at_startup) in
    let switched = last-summary (cm_dido env e at_dido) (dido-IsLast env e at_dido) in
    let rested = last-summary (cm_deactivate env e at_rest) (deactivate-IsLast env e at_rest) in
    let changed =
      last-summary (cm_ds_change_action env e at_startup) (ds_change-IsLast env e at_startup) in
    ground arith

-- The request is in order but for the id that it expects in return.
abbrev pub is_only_misled : (ref_id len exp_id : ℕ) → ConfigReq → Bool
is_only_misled ref_id len exp_id r = r.ref_id == ref_id && r.len == len && not (r.exp_id == exp_id)

abbrev pub is_in_order : (ref_id len exp_id : ℕ) → ConfigReq → Bool
is_in_order ref_id len exp_id r = r.ref_id == ref_id && r.len == len && r.exp_id == exp_id

-- What a job has to answer and to ask of the exchange: each request has one answer, except for an
-- identification or a status with another expected id, and for a configuration that is in order while
-- the data storage is at work.
unfoldable pub expected_of : CmState → CmInput → ℕ × List CmCall
expected_of s (port_mode_ind mode) = (0, started_by s (event_of_mode mode))
expected_of s (masterident_req r) =
    ((if is_only_misled ArgBlockId.void_block void_len ArgBlockId.masterident r then 0 else 1), [])
expected_of s (portstatus_req r) = (
  (if is_only_misled ArgBlockId.void_block void_len ArgBlockId.port_status_list r then 0 else 1),
  [],
)
expected_of s (readback_req r) = (1, [])
expected_of s (portconfiguration_req r) =
    if not (is_in_order ArgBlockId.port_cfg_list config_len ArgBlockId.void_block r)
    then (1, [])
    else if is_ds_param_manager s
    then (0, [])
    else (1, pd_stop ∷ od_stop ∷ [])
expected_of s _ = (0, [])

mode-summary :
    (env : Around) (cm : Cm) (mode : PortMode)
    → summary_of (cm_sm_port_mode_ind_cb env mode cm)
      ≡ some (0, started_by cm.state (event_of_mode mode))
unfolding cm_sm_port_mode_ind_cb mode_inactive answers exchange
mode-summary env cm mode =
    let done = event-summary cm.state (event_of_mode mode) env cm refl in ground arith

-- Every job ends, with as many answers and such commands to the exchanges as `expected_of` says by the
-- state and the job: of the indications only that of OPERATE while it is waited for starts them, and
-- only a configuration that is looked at stops them.
pub handle-summary :
    (env : Around) (cm : Cm) (i : CmInput)
    → summary_of (handle env cm i) ≡ some (expected_of cm.state i)
unfolding handle expected_of cm_ds_fault_cb cm_smi_masterident_cb cm_smi_portconfiguration_cb
    cm_smi_readbackportconfiguration_cb cm_smi_portstatus_cb check_arg_block answers exchange
handle-summary env cm (port_mode_ind mode) = mode-summary env cm mode
handle-summary env cm ds_ready_job = event-summary cm.state cm_ds_ready env cm refl refl
handle-summary env cm ds_change_job = event-summary cm.state cm_ds_change env cm refl refl
handle-summary env cm (ds_fault_job fault) =
    event-summary cm.state cm_ds_fault env (record cm { ds_fault = fault }) refl refl
handle-summary env cm (masterident_req r) = ground arith
handle-summary env cm (portconfiguration_req r) =
    let changed = config-summary env (record cm { smi_req = r }) in ground arith
handle-summary env cm (readback_req r) = ground arith
handle-summary env cm (portstatus_req r) = ground arith
