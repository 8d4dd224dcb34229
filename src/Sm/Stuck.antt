-- ===== src/Sm/Stuck.antt =====
-- ilink/iolink_sm.c: the state RestartDevice after an error.
use normans_fork.Prelude.{ℕ, ◌≡◌, refl, ap, Bool, true, false, ◌&&◌, List, [], ◌∷◌, arith}
use normans_fork.Sm.{
  SmState, check_comp, restart_device, ev_dl_mode_comlost, ev_cnf_comlost, MhMode, portmode_comlost,
  Sm, sm_portmode_ind,
}
use normans_fork.Sm.Fsm.{transition, iolink_sm_event}
use normans_fork.Sm.Callbacks.{
  is_no_error, mode_ind_comlost, mode_ind_in, with_mode, sm_dl_mode_ind_cb, takes_config,
  sm_setportcfg_req_cb,
}
use normans_fork.Sm.Confirmations.{
  sm_dl_write_cnf_cb, Input, dl_mode_ind, mode_ind_baud, set_port_config, dl_write_cnf, handle,
  handle_all,
}
use normans_fork.Types.{Status}
use normans_fork.Sm.Actions.{set_mode_inactive}

-- The states in which no configuration is taken and that no indication of the mode leaves.
abbrev pub is_restarting : SmState → Bool
is_restarting restart_device = true
is_restarting check_comp = true
is_restarting _ = false

-- What the application and the data link layer bring about without an answer of the device.
abbrev pub is_unanswered : Input → Bool
is_unanswered (set_port_config paramlist) = true
is_unanswered (dl_mode_ind mode) = true
is_unanswered (mode_ind_baud mode) = true
is_unanswered _ = false

comlost-restarting :
    (sm : Sm)
    → is_restarting sm.state ≡ true
    → is_restarting (iolink_sm_event ev_dl_mode_comlost sm).0.state ≡ true
unfolding iolink_sm_event transition
comlost-restarting sm h = ground arith

state-with_mode : (mode : MhMode) (sm : Sm) → (with_mode mode sm).state ≡ sm.state
state-with_mode mode sm = ground arith

mode_in-restarting :
    (s : SmState) (mode : MhMode) (sm : Sm)
    → sm.state ≡ s
    → is_restarting s ≡ true
    → is_restarting (mode_ind_in s mode sm).0.state ≡ true
unfolding mode_ind_in
mode_in-restarting s mode sm h h' = let lost = comlost-restarting sm in ground arith

mode_comlost-restarting :
    (s : SmState) (sm : Sm)
    → sm.state ≡ s
    → is_restarting s ≡ true
    → is_restarting (mode_ind_comlost s sm).0.state ≡ true
unfolding mode_ind_comlost
mode_comlost-restarting s sm h h' = let lost = comlost-restarting sm in ground arith

mode_ind-restarting :
    (mode : MhMode) (sm : Sm)
    → is_restarting sm.state ≡ true
    → is_restarting (sm_dl_mode_ind_cb mode sm).0.state ≡ true
unfolding sm_dl_mode_ind_cb
mode_ind-restarting mode sm h =
    let kept = state-with_mode mode sm in
    let known = mode_in-restarting sm.state mode (with_mode mode sm) kept h in
    let lost = mode_comlost-restarting sm.state (with_mode mode sm) kept h in ground arith

handle-restarting :
    (i : Input) (sm : Sm)
    → is_unanswered i ≡ true
    → is_restarting sm.state ≡ true
    → is_restarting (handle sm i).0.state ≡ true
unfolding handle sm_setportcfg_req_cb
handle-restarting (set_port_config paramlist) sm h h' = ground arith
handle-restarting (dl_mode_ind mode) sm h h' = mode_ind-restarting mode sm h'
handle-restarting (mode_ind_baud mode) sm h h' = ground arith
handle-restarting i sm h h' = ground arith

-- All jobs are such.
abbrev pub are_unanswered : List Input → Bool
are_unanswered [] = true
are_unanswered (i ∷ inputs) = is_unanswered i && are_unanswered inputs

all-restarting :
    (inputs : List Input) (sm : Sm)
    → are_unanswered inputs ≡ true
    → is_restarting sm.state ≡ true
    → is_restarting (handle_all sm inputs).0.state ≡ true
unfolding handle_all
all-restarting [] sm h h' = h'
all-restarting (i ∷ inputs) sm h h' =
    let first = handle-restarting i sm in
    let rest = all-restarting inputs (handle sm i).0 in ground arith

lost-restarting :
    (sm : Sm)
    → sm.state ≡ restart_device
    → iolink_sm_event ev_cnf_comlost sm ≡ (
      record sm { state = restart_device },
      set_mode_inactive ∷ sm_portmode_ind portmode_comlost ∷ [],
    )
unfolding iolink_sm_event transition
lost-restarting sm h = ground arith

restarting-takes_config : (s : SmState) → is_restarting s ≡ true → takes_config s ≡ false
restarting-takes_config s h = ground arith

-- When a write fails while the device restarts, the data link layer is made inactive and the loss is
-- reported; from then on no configuration is taken, whatever configurations and modes follow.
pub lost-no_config :
    (addr : ℕ) (stat : Status) (inputs : List Input) (sm : Sm)
    → sm.state ≡ restart_device
    → is_no_error stat ≡ false
    → are_unanswered inputs ≡ true
    → ((handle sm (dl_write_cnf addr stat)).1
        ≡ set_mode_inactive ∷ sm_portmode_ind portmode_comlost ∷ [])
      × (takes_config (handle_all sm (dl_write_cnf addr stat ∷ inputs)).0.state ≡ false)
unfolding handle handle_all sm_dl_write_cnf_cb
lost-no_config addr stat inputs sm h h' h'' =
    let lost = lost-restarting sm h in
    let rest = all-restarting inputs (iolink_sm_event ev_cnf_comlost sm).0 h'' in
    let done = restarting-takes_config _ (rest (rw lost refl)) in rw h' (ap (λ r. r.1) lost, done)
