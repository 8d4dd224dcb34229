-- ===== src/Ds/Termination.antt =====
-- The loop `iolink_ds_event` ends, and so does every handler and every sequence of jobs.
use normans_fork.Prelude.{
  ◌≡◌, refl, ◌≢◌, none, some, List, [], ◌∷◌, arith, is_some_of_ne_none, some-ne-none,
}
use normans_fork.Types.{Call, ds_fault_ind, ReadCnf}
use normans_fork.Ds.{
  State, check_identity, check_mem_size, check_upload, ds_fault_state, read_parameter,
  store_data_set, download_done, Event, ev_startup, ev_ready, ev_upload, ev_fault_done, ev_delete,
  ev_no_upload, ev_com_err, ev_init, Ds, PortInfo,
}
use normans_fork.Ds.Actions.{
  ds_delete, ds_fault, ds_off, ds_check_vid_did, ds_chk_id, ds_chk_mem_size, ds_chk_upload,
  ds_upload_next, ds_upload_action, ds_chk_validity, ds_chk_csum, ds_write_param, ds_dl_done,
  ds_readparam, ds_ready, ds_decompose_rest, ds_decompose_set, ds_init_dl, ds_reinit, act,
}
use normans_fork.Ds.Fsm.{
  event_num, transitions, find_transition, Run, ◌>>=◌, event_loop, iolink_ds_event,
}
use normans_fork.Ds.Callbacks.{
  take_checksum, read_cnf_in, ds_read_cnf_cb, write_cnf_in, ds_write_cnf_cb, ds_init_cb, Input,
  startup, delete, upload, init, read_cnf, write_cnf, handle, handle_all,
}

ends_from :
    (s : State) (info : PortInfo) (ds : Ds) (e : Event)
    → ds.state ≡ s
    → event_loop 4 info ds e ≢ none
unfolding event_loop find_transition transitions event_num act ds_delete ds_fault ds_off
    ds_check_vid_did ds_chk_id ds_chk_mem_size ds_chk_upload ds_upload_next ds_upload_action
    ds_chk_validity ds_chk_csum ds_write_param ds_dl_done ds_readparam ds_ready ds_decompose_rest
    ds_decompose_set ds_init_dl ds_reinit
ends_from check_upload info ds e h = ground arith
ends_from _ info ds e h = ground arith

-- In every state the loop comes to an end, whatever the event, within the four rounds that
-- `iolink_ds_event` is given here.
pub iolink_ds_event_ends :
    (info : PortInfo) (ds : Ds) (e : Event)
    → (o : Ds × List Call) × (iolink_ds_event info ds e ≡ some o)
unfolding iolink_ds_event
iolink_ds_event_ends info ds e = is_some_of_ne_none _ (ends_from ds.state info ds e refl)

>>=_ends : (m : Run) (f : Ds → Run) → m ≢ none → ((d : Ds) → f d ≢ none) → (m >>= f) ≢ none
>>=_ends none f hm hf = absurd (hm refl)
>>=_ends (some (d, calls)) f hm hf = ground (arith, hf d)

event_ne_none : (info : PortInfo) (ds : Ds) (e : Event) → iolink_ds_event info ds e ≢ none
event_ne_none info ds e = ground (arith, iolink_ds_event_ends info ds e)

take_checksum_ends : (info : PortInfo) (r : ReadCnf) (ds : Ds) → take_checksum info r ds ≢ none
unfolding take_checksum
take_checksum_ends info r ds = ground (arith, event_ne_none info ds ev_com_err)

read_cnf_ends :
    (s : State) (info : PortInfo) (r : ReadCnf) (ds : Ds) → read_cnf_in s info r ds ≢ none
unfolding read_cnf_in
read_cnf_ends check_identity info r ds = grind (arith, event_ne_none)
read_cnf_ends check_mem_size info r ds = grind (arith, event_ne_none)
read_cnf_ends read_parameter info r ds = grind (arith, event_ne_none)
read_cnf_ends check_upload info r ds =
    >>=_ends _ _ (take_checksum_ends info r ds) (λ d. event_ne_none info d ev_no_upload)
read_cnf_ends store_data_set info r ds = >>=_ends _ _ (take_checksum_ends info r ds) (λ d. cc)
read_cnf_ends download_done info r ds =
    >>=_ends _ _ (take_checksum_ends info r ds) (λ d. event_ne_none info d ev_ready)
read_cnf_ends _ info r ds = cc

write_cnf_ends : (s : State) (info : PortInfo) (ds : Ds) → write_cnf_in s info ds ≢ none
unfolding write_cnf_in
write_cnf_ends ds_fault_state info ds =
    >>=_ends (some (ds, ds_fault_ind ds.fault ∷ [])) _ (some-ne-none _)
      (λ d. event_ne_none info d ev_fault_done)
write_cnf_ends _ info ds = grind (arith, event_ne_none)

handle_ends : (info : PortInfo) (ds : Ds) (i : Input) → handle info ds i ≢ none
unfolding handle ds_read_cnf_cb ds_write_cnf_cb ds_init_cb
handle_ends info ds startup = event_ne_none info ds ev_startup
handle_ends info ds delete = event_ne_none info ds ev_delete
handle_ends info ds upload = event_ne_none info ds ev_upload
handle_ends info ds (init cfg) = event_ne_none info _ ev_init
handle_ends info ds (read_cnf r) =
    ground (arith, event_ne_none info ds ev_com_err, read_cnf_ends ds.state info r ds)
handle_ends info ds (write_cnf errortype) =
    ground (arith, event_ne_none info ds ev_com_err, write_cnf_ends ds.state info ds)

handle_all_ne_none :
    (info : PortInfo) (inputs : List Input) (ds : Ds) → handle_all info ds inputs ≢ none
unfolding handle_all
handle_all_ne_none info [] ds = cc
handle_all_ne_none info (i ∷ inputs) ds =
    >>=_ends _ _ (handle_ends info ds i) (handle_all_ne_none info inputs)

-- Every sequence of jobs is handled to its end, in every state of the data storage: no event loop
-- that it starts runs on.
pub handle_all_ends :
    (info : PortInfo) (ds : Ds) (inputs : List Input)
    → (o : Ds × List Call) × (handle_all info ds inputs ≡ some o)
handle_all_ends info ds inputs = is_some_of_ne_none _ (handle_all_ne_none info inputs ds)
