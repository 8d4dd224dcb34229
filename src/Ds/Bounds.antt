-- ===== src/Ds/Bounds.antt =====
-- ilink/iolink_ds.c stays inside its data set: no job writes at or past IOLINK_DS_MAX_SIZE.
use normans_fork.Prelude.{
  ℕ, ◌+◌, ◌≤◌, ◌≡◌, refl, ap, ◌∙◌, inl, inr, Bool, true, false, none, some, List, [], ◌∷◌, arith,
  ltb, if◌then◌else◌, ltb→lt, Bool-cases, Bytes, bytes_at,
}
use normans_fork.Ds.{
  State, check_identity, check_mem_size, check_upload, check_ds_validity, ds_fault_state,
  read_parameter, store_data_set, decompose_set, write_parameter, download_done, Event, ev_startup,
  ev_ready, ev_upload, ev_fault_done, ev_fault_id, ev_fault_size, ev_delete, ev_passed,
  ev_do_upload, ev_no_upload, ev_download, ev_read_done, ev_ul_done, ev_dev_err, ev_com_err,
  ev_wr_done, ev_init, cmd_ul_end, Ds, PortInfo, max_size,
}
use normans_fork.Ds.Actions.{
  ds_al_write_ds_cmd_req, ds_delete, ds_fault, ds_off, ds_check_vid_did, ds_chk_id, ds_chk_mem_size,
  ds_chk_upload, ds_upload_next, ds_upload_action, ds_chk_validity, ds_chk_csum, ds_write_param,
  ds_dl_done, ds_readparam, ds_ready, ds_decompose_rest, ds_decompose_set, ds_init_dl, ds_reinit,
  act,
}
use normans_fork.Ds.Fsm.{
  event_num, transitions, find_transition, Run, ◌>>=◌, event_loop, iolink_ds_event,
}
use normans_fork.Types.{Call, ds_fault_ind, ReadCnf}
use normans_fork.Ds.Callbacks.{
  PortConfig, big_endian_32, param_header, store_param, take_param, set_device_cs, take_checksum,
  run_effect, read_cnf_in, ds_read_cnf_cb, write_cnf_in, ds_write_cnf_cb, init_flags, ds_init_cb,
  Input, startup, delete, upload, init, read_cnf, write_cnf, handle, handle_all,
}
use normans_fork.Prelude.Memory.Laws.{memcpy_above, length-bytes_at}
use normans_fork.Ds.Upload.{stored_bytes, store_param-bytes}

-- What holds of the data storage that a handler leaves.
abbrev pub After : (Ds → Type 0) → Run → Type 0
After P none = Unit {0}
After P (some (d, calls)) = P d

After-more :
    (Q : Ds → Type 0) (d : Ds) (c : List Call) (r : Run)
    → After Q r
    → After Q (some (d, c) >>= λ _. r)
After-more Q d c none h = tt
After-more Q d c (some (d', more)) h = h

pub After->>= :
    (P Q : Ds → Type 0) (m : Run) (f : Ds → Run)
    → After P m
    → ((d : Ds) → P d → After Q (f d))
    → After Q (m >>= f)
After->>= P Q none f h k = tt
After->>= P Q (some (d, c)) f h k = After-more Q d c (f d) (k d h)

pub After-mono : (P Q : Ds → Type 0) (m : Run) → After P m → ((d : Ds) → P d → Q d) → After Q m
After-mono P Q none h k = tt
After-mono P Q (some (d, c)) h k = k d h

abbrev SameBytes : Ds → Ds → Type 0
SameBytes ds d = d.master_ds.bytes ≡ ds.master_ds.bytes

loop_bytes :
    (s : State) (info : PortInfo) (ds : Ds) (e : Event)
    → ds.state ≡ s
    → After (SameBytes ds) (event_loop 4 info ds e)
unfolding event_loop find_transition transitions event_num act ds_delete ds_fault ds_off
    ds_check_vid_did ds_chk_id ds_chk_mem_size ds_chk_upload ds_upload_next ds_upload_action
    ds_chk_validity ds_chk_csum ds_write_param ds_dl_done ds_readparam ds_ready ds_decompose_rest
    ds_decompose_set ds_init_dl ds_reinit
loop_bytes check_upload info ds e h = ground arith
loop_bytes _ info ds e h = ground arith

-- A choice between two handlers.
After-if :
    (P : Ds → Type 0) (b : Bool) (m n : Run) → After P m → After P n → After P (if b then m else n)
After-if P true m n hm hn = hm
After-if P false m n hm hn = hn

-- The same bytes at and past the end of the data set.
abbrev pub SameOutside : Ds → Ds → Type 0
SameOutside ds d = (a : ℕ) → max_size ≤ a → d.master_ds.bytes a ≡ ds.master_ds.bytes a

event_outside :
    (info : PortInfo) (e : Event) (ds d : Ds)
    → SameOutside ds d
    → After (SameOutside ds) (iolink_ds_event info d e)
unfolding iolink_ds_event
event_outside info e ds d h =
    After-mono (SameBytes d) (SameOutside ds) _ (loop_bytes d.state info d e refl)
      (λ d' same a le. ap (λ (m : Bytes). m a) same ∙ h a le)

store_param-SameOutside : (r : ReadCnf) (ds : Ds) → SameOutside ds (store_param r ds)
unfolding stored_bytes param_header
store_param-SameOutside r ds a le =
    elim (Bool-cases (ltb (ds.master_ds.pos + 2 + 1 + r.data_len) 2048)) [
      | inl room ↦
          let fits = ltb→lt (ds.master_ds.pos + 2 + 1 + r.data_len) 2048 room in
          ap (λ (m : Bytes). m a) (store_param-bytes r ds (omega arith))
          ∙ memcpy_above (bytes_at r.buffer 0 r.data_len) _ (ds.master_ds.pos + 4) a
              (omega (arith, length-bytes_at r.data_len r.buffer 0))
          ∙ memcpy_above (param_header ds.current_index ds.current_subindex r.data_len)
              ds.master_ds.bytes ds.master_ds.pos a (omega arith)
      | inr full ↦ unfold store_param in rw full
    ]

take_param-SameOutside : (r : ReadCnf) (ds : Ds) → SameOutside ds (take_param r ds)
unfolding take_param
take_param-SameOutside r ds a le = ground (arith, store_param-SameOutside r ds a le)

checksum_outside :
    (info : PortInfo) (r : ReadCnf) (ds : Ds) → After (SameOutside ds) (take_checksum info r ds)
unfolding take_checksum
checksum_outside info r ds =
    After->>= (SameOutside ds) (SameOutside ds)
      (if ltb r.data_len 4 then iolink_ds_event info ds ev_com_err else some (ds, []))
      (λ d. some (set_device_cs (big_endian_32 r.buffer) d, []))
      (After-if (SameOutside ds) (ltb r.data_len 4) _ _
        (event_outside info ev_com_err ds ds (λ a le. refl)) (λ a le. refl))
      (λ d h. h)

read_cnf_outside :
    (s : State) (info : PortInfo) (r : ReadCnf) (ds : Ds)
    → After (SameOutside ds) (read_cnf_in s info r ds)
unfolding read_cnf_in
read_cnf_outside check_identity info r ds =
    After-if (SameOutside ds) _ _ _ (event_outside info ev_fault_id ds ds (λ a le. refl))
      (event_outside info ev_passed ds _ (λ a le. refl))
read_cnf_outside check_mem_size info r ds =
    After-if (SameOutside ds) _ _ _ (event_outside info ev_fault_size ds ds (λ a le. refl))
      (event_outside info ev_passed ds _ (λ a le. refl))
read_cnf_outside read_parameter info r ds =
    After-if (SameOutside ds) _ _ _
      (event_outside info ev_read_done ds _ (take_param-SameOutside r ds))
      (event_outside info ev_dev_err ds ds (λ a le. refl))
read_cnf_outside check_upload info r ds =
    After->>= (SameOutside ds) (SameOutside ds) (take_checksum info r ds)
      (λ d. iolink_ds_event info d ev_no_upload) (checksum_outside info r ds)
      (λ d h. event_outside info ev_no_upload ds d h)
read_cnf_outside store_data_set info r ds =
    After->>= (SameOutside ds) (SameOutside ds) (take_checksum info r ds)
      (λ d. run_effect (ds_al_write_ds_cmd_req d cmd_ul_end)) (checksum_outside info r ds)
      (λ d h. h)
read_cnf_outside download_done info r ds =
    After->>= (SameOutside ds) (SameOutside ds) (take_checksum info r ds)
      (λ d. iolink_ds_event info d ev_ready) (checksum_outside info r ds)
      (λ d h. event_outside info ev_ready ds d h)
read_cnf_outside _ info r ds = λ a le. refl

write_cnf_outside :
    (s : State) (info : PortInfo) (ds : Ds) → After (SameOutside ds) (write_cnf_in s info ds)
unfolding write_cnf_in
write_cnf_outside check_upload info ds = event_outside info ev_do_upload ds ds (λ a le. refl)
write_cnf_outside check_ds_validity info ds = event_outside info ev_do_upload ds ds (λ a le. refl)
write_cnf_outside write_parameter info ds = event_outside info ev_wr_done ds ds (λ a le. refl)
write_cnf_outside store_data_set info ds = event_outside info ev_ul_done ds _ (λ a le. refl)
write_cnf_outside decompose_set info ds = event_outside info ev_download ds ds (λ a le. refl)
write_cnf_outside ds_fault_state info ds =
    After-more (SameOutside ds) ds (ds_fault_ind ds.fault ∷ []) _
      (event_outside info ev_fault_done ds ds (λ a le. refl))
write_cnf_outside _ info ds = λ a le. refl

init_flags-SameOutside : (cfg : PortConfig) (ds : Ds) → SameOutside ds (init_flags cfg ds)
unfolding init_flags
init_flags-SameOutside cfg ds a le = ground arith

handle-SameOutside :
    (info : PortInfo) (ds : Ds) (i : Input) → After (SameOutside ds) (handle info ds i)
unfolding handle ds_read_cnf_cb ds_write_cnf_cb ds_init_cb
handle-SameOutside info ds startup = event_outside info ev_startup ds ds (λ a le. refl)
handle-SameOutside info ds delete = event_outside info ev_delete ds ds (λ a le. refl)
handle-SameOutside info ds upload = event_outside info ev_upload ds ds (λ a le. refl)
handle-SameOutside info ds (init cfg) =
    event_outside info ev_init ds _ (init_flags-SameOutside cfg ds)
handle-SameOutside info ds (read_cnf r) =
    After-if (SameOutside ds) _ _ _ (event_outside info ev_com_err ds ds (λ a le. refl))
      (read_cnf_outside ds.state info r ds)
handle-SameOutside info ds (write_cnf errortype) =
    After-if (SameOutside ds) _ _ _ (write_cnf_outside ds.state info ds)
      (event_outside info ev_com_err ds ds (λ a le. refl))

-- No sequence of jobs, from any state, changes a byte at or past IOLINK_DS_MAX_SIZE: whatever the
-- device replies, the upload stays inside the array of the data set.
pub handle_all-SameOutside :
    (info : PortInfo) (inputs : List Input) (ds : Ds)
    → After (SameOutside ds) (handle_all info ds inputs)
unfolding handle_all
handle_all-SameOutside info [] ds = λ a le. refl
handle_all-SameOutside info (i ∷ inputs) ds =
    After->>= (SameOutside ds) (SameOutside ds) (handle info ds i) (λ d. handle_all info d inputs)
      (handle-SameOutside info ds i)
      (λ d h.
        After-mono (SameOutside d) (SameOutside ds) (handle_all info d inputs)
          (handle_all-SameOutside info inputs d) (λ d' k a le. k a le ∙ h a le))
