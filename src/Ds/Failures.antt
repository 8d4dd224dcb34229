-- ===== src/Ds/Failures.antt =====
-- ilink/iolink_ds.c where a device or the communication fails, and what a configuration sets.
use normans_fork.Types.SmiError
use normans_fork.Prelude.{
  ℕ, ◌≡◌, refl, ◌∙◌, ◌≢◌, ◌⊎◌, some, List, [], ◌∷◌, arith, ◌==◌, if◌then◌else◌, All, bytes_at,
}
use normans_fork.Types.{up_fault, down_fault, al_write, ds_fault_ind}
use normans_fork.Ds.{
  State, waiting_on_ds_activity, check_upload, check_ds_validity, decompose_set, write_parameter,
  cmd_break, Ds, PortInfo, param_index, subindex_cmd,
}
use normans_fork.Ds.Actions.{ds_fault, act}
use normans_fork.Ds.Fsm.{event_num, transitions, find_transition, event_loop, iolink_ds_event}
use normans_fork.Ds.Callbacks.{
  read_cnf_in, ds_read_cnf_cb, write_cnf_in, ds_write_cnf_cb, init_flags, ds_init_cb, Input,
  startup, delete, upload, init, read_cnf, write_cnf, handle, handle_all,
}
use normans_fork.Ds.Codec.{Param, encode}
use normans_fork.Ds.Runs.{handle_all-cons}
use normans_fork.Ds.Replies.{Answer, answer_job, IsReading}

module _ (info : PortInfo) where
  -- A parameter that cannot be written ends the download: DS_CMD_BREAK is sent, and once that is
  -- confirmed the fault DS_FAULT_DOWN is reported and the state machine is idle. Where the
  -- confirmation of the break is an error too, it is idle and nothing is reported.
  write_failure :
      (ds : Ds) (first second : ℕ)
      → ds.state ≡ write_parameter
      → first ≢ SmiError.no_error
      → (d : Ds) × (handle_all info ds (write_cnf first ∷ write_cnf second ∷ [])
          ≡ some (
            d,
            al_write param_index subindex_cmd (5 ∷ [])
                ∷ (if second == SmiError.no_error then ds_fault_ind down_fault ∷ [] else []),
          ))
        × (d.state ≡ waiting_on_ds_activity)
        × (d.fault ≡ down_fault)
        × (d.master_ds ≡ ds.master_ds)
  unfolding handle_all handle ds_write_cnf_cb write_cnf_in iolink_ds_event event_loop
      find_transition transitions event_num act ds_fault
  write_failure ds first second h bad = (
    record ds {
      state = waiting_on_ds_activity;
      fault = down_fault;
      current_index = param_index;
      current_subindex = subindex_cmd;
      command = cmd_break;
    },
    ground arith,
    refl,
    refl,
    refl,
  )

  -- A parameter that cannot be read ends the upload in the same way, with the fault DS_FAULT_UP.
  -- The data set keeps its mark of validity, its size and its checksum, although its first bytes
  -- are already those of the parameters that were read.
  pub read_failure :
      (ds : Ds) (stored : List Param) (a : Answer) (todo : List Answer)
      → IsReading ds stored a todo
      → a.reply.errortype ≢ SmiError.no_error
      → (d : Ds) × (handle_all info ds (answer_job a ∷ write_cnf 0 ∷ [])
          ≡ some (d, al_write param_index subindex_cmd (5 ∷ []) ∷ ds_fault_ind up_fault ∷ []))
        × (d.state ≡ waiting_on_ds_activity)
        × (d.master_ds.valid ≡ ds.master_ds.valid)
        × (d.master_ds.size ≡ ds.master_ds.size)
        × (d.master_ds.cs ≡ ds.master_ds.cs)
        × (bytes_at d.master_ds.bytes 0 ds.master_ds.pos ≡ encode stored)
  unfolding handle_all handle ds_read_cnf_cb read_cnf_in ds_write_cnf_cb write_cnf_in
      iolink_ds_event event_loop find_transition transitions event_num act ds_fault
  read_failure ds stored a todo w bad = (
    record ds {
      state = waiting_on_ds_activity;
      fault = up_fault;
      current_index = param_index;
      current_subindex = subindex_cmd;
      command = cmd_break;
    },
    ground (arith, w.in_state),
    refl,
    refl,
    refl,
    refl,
    w.bytes_of,
  )

-- A job that another part of the master posts, and no confirmation of the AL.
abbrev pub IsRequest : Input → Type 0
IsRequest (read_cnf r) = ⊥
IsRequest (write_cnf errortype) = ⊥
IsRequest _ = Unit {0}

-- The states in which a command's confirmation is awaited and DS_EVENT_COM_ERR has no transition.
abbrev pub AwaitsCommand : State → Type 0
AwaitsCommand s = (s ≡ check_upload) ⊎ (s ≡ check_ds_validity) ⊎ (s ≡ decompose_set)

module _ (info : PortInfo) where
  error_dropped :
      (ds : Ds) (errortype : ℕ)
      → AwaitsCommand ds.state
      → errortype ≢ SmiError.no_error
      → handle info ds (write_cnf errortype) ≡ some (ds, [])
  unfolding handle ds_write_cnf_cb iolink_ds_event event_loop find_transition transitions event_num
  error_dropped ds errortype h bad = ground arith

  request_dropped :
      (ds : Ds) (i : Input)
      → AwaitsCommand ds.state
      → IsRequest i
      → (d : Ds) × (handle info ds i ≡ some (d, [])) × (d.state ≡ ds.state)
  unfolding handle ds_init_cb init_flags iolink_ds_event event_loop find_transition transitions
      event_num
  request_dropped ds startup h r = (ds, ground arith, refl)
  request_dropped ds delete h r = (ds, ground arith, refl)
  request_dropped ds upload h r = (ds, ground arith, refl)
  request_dropped ds (init cfg) h r = (
    record (init_flags cfg ds) { pending_vendorid = cfg.vendorid; pending_deviceid = cfg.deviceid },
    ground arith,
    ground arith,
  )
  request_dropped ds (read_cnf x) h r = elim r [ ]
  request_dropped ds (write_cnf x) h r = elim r [ ]

  requests_dropped :
      (inputs : List Input) (ds : Ds)
      → AwaitsCommand ds.state
      → All IsRequest inputs
      → (d : Ds) × (handle_all info ds inputs ≡ some (d, [])) × (d.state ≡ ds.state)
  unfolding handle_all
  requests_dropped [] ds h rs = (ds, refl, refl)
  requests_dropped (i ∷ inputs) ds h rs =
      let (d, run, same) = request_dropped ds i h rs.0 in
      let (d', rest, same') = requests_dropped inputs d (rw same h) rs.1 in
      (d', handle_all-cons info ds d d' i inputs [] [] run rest, same' ∙ same)

  -- Where DS_CMD_UL_START or DS_CMD_DL_START is confirmed with an error, the error is dropped, and
  -- no later start-up, upload request, deletion or configuration moves the state machine or makes
  -- it ask for anything: neither DS_Ready nor DS_Fault is reported.
  pub command_failure_sticks :
      (ds : Ds) (errortype : ℕ) (inputs : List Input)
      → AwaitsCommand ds.state
      → errortype ≢ SmiError.no_error
      → All IsRequest inputs
      → (d : Ds) × (handle_all info ds (write_cnf errortype ∷ inputs) ≡ some (d, []))
        × (d.state ≡ ds.state)
  command_failure_sticks ds errortype inputs h bad rs =
      let (d, run, same) = requests_dropped inputs ds h rs in
      (
        d,
        handle_all-cons info ds ds d (write_cnf errortype) inputs [] []
            (error_dropped ds errortype h bad) run,
        same,
      )
