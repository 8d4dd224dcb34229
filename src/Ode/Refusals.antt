-- ===== src/Ode/Refusals.antt =====
-- ilink/iolink_ode.c: requests that come while the port is inactive or busy.
use normans_fork.Types.ArgBlockId
use normans_fork.Types.SmiError
use normans_fork.Prelude.{
  ℕ, ◌≡◌, refl, ◌≢◌, ◌||◌, some, List, [], ◌∷◌, map, arith, ◌==◌, if◌then◌else◌,
}
use normans_fork.Types.{Call, smi_job_error}
use normans_fork.Ode.{State, inactive, od_active, od_blocked, SmiReq, Ode}
use normans_fork.Ode.Actions.{
  access_error, is_batch, od_err_type, ode_smi_od_err, act, transitions, find_transition,
  event_loop, iolink_ode_event,
}
use normans_fork.Ode.Callbacks.{rw_req_in, smi_rw_req_cb, request, handle, handle_all}
use normans_fork.Ode.Answers.{handle_all-cons}

-- The answer to a request that is not served, in a state other than od_active.
abbrev pub refusal : State → SmiReq → Call
refusal s req = smi_job_error req.exp_id req.block.id (
    if is_batch req.block.id
    then SmiError.service_not_supported
    else if req.block.id == ArgBlockId.od_rd || req.block.id == ArgBlockId.od_wr
    then elim s as (λ _. ℕ) [
      | od_blocked ↦ SmiError.service_temp_unavailable
      | _ ↦ SmiError.idx_notavail
    ]
    else SmiError.argblock_not_supported)

request_refused :
    (s : State) (ode : Ode) (req : SmiReq)
    → ode.state ≡ s
    → s ≢ od_active
    → handle ode (request req) ≡ some (record ode { busy = req }, refusal s req ∷ [])
unfolding handle smi_rw_req_cb rw_req_in iolink_ode_event event_loop find_transition transitions act
    ode_smi_od_err od_err_type access_error
request_refused inactive ode req h other = ground arith
request_refused od_active ode req h other = absurd (other refl)
request_refused od_blocked ode req h other = ground arith

-- Requests that come while the port is inactive, or while another request waits for the device,
-- are refused at once, each with one job error: SERVICE_NOT_SUPPORTED for a batch, IDX_NOTAVAIL or
-- SERVICE_TEMP_UNAVAILABLE by the state for a read or a write, ARGBLOCK_NOT_SUPPORTED for any
-- other block. The state and the request that waits are as before.
pub requests_refused :
    (reqs : List SmiReq) (ode : Ode)
    → ode.state ≢ od_active
    → (d : Ode) × (handle_all ode (map request reqs) ≡ some (d, map (refusal ode.state) reqs))
      × (d.state ≡ ode.state)
      × (d.smi_req ≡ ode.smi_req)
unfolding handle_all
requests_refused [] ode other = (ode, refl, refl, refl)
requests_refused (req ∷ reqs) ode other =
    let (d, rest, same, kept) = requests_refused reqs (record ode { busy = req }) other in
    (
      d,
      handle_all-cons ode (record ode { busy = req }) d (request req) (map request reqs)
          (refusal ode.state req ∷ []) _ (request_refused ode.state ode req refl other) rest,
      same,
      kept,
    )
