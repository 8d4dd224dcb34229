-- ===== src/Ode/Actions.antt =====
-- ilink/iolink_ode.c: the actions of the state machine, its tables and its loop.
use normans_fork.Types.ArgBlockId
use normans_fork.Types.SmiError
use normans_fork.Prelude.{
  ℕ, zero, suc, ◌-◌, Bool, true, false, ◌&&◌, ◌||◌, Option, none, some, List, [], ◌∷◌, ◌++◌, leb,
  ◌==◌, if◌then◌else◌, u8, bytes_at,
}
use normans_fork.Types.{
  Call, al_read, al_write, smi_cnf, smi_void_cnf, smi_job_error, assert_failed,
}
use normans_fork.Ode.{
  State, inactive, od_active, od_blocked, Event, ev_none, ev_smi_dev_rw_1, ev_od_start, ev_od_stop,
  ev_smi_dev_rw_4, ev_od_block, ev_smi_dev_rw_6, ev_od_unblock, SmiReq, Ode, head_size, Effect,
}

-- The `switch` of `ode_smi_od_err` on the event.
unfoldable pub access_error : Event → ℕ
access_error ev_smi_dev_rw_1 = SmiError.idx_notavail
access_error ev_smi_dev_rw_6 = SmiError.service_temp_unavailable
access_error _ = SmiError.no_error

-- SMI_ParamReadBatch and SMI_ParamWriteBatch
abbrev pub is_batch : ℕ → Bool
is_batch ref_id = ref_id == ArgBlockId.port_index_list || ref_id == ArgBlockId.dev_par_bat

-- The error that `ode_smi_od_err` chooses by the id of the block and the event.
unfoldable pub od_err_type : ℕ → Event → ℕ
unfolding access_error
od_err_type ref_id e =
    if ref_id == ArgBlockId.od_rd || ref_id == ArgBlockId.od_wr || is_batch ref_id
    then (if is_batch ref_id then SmiError.service_not_supported else access_error e)
    else SmiError.argblock_not_supported

-- The assertion of the default case of that `switch`.
unfoldable pub od_err_failed : ℕ → Event → List Call
od_err_failed ref_id ev_smi_dev_rw_1 = []
od_err_failed ref_id ev_smi_dev_rw_6 = []
od_err_failed ref_id e = if is_batch ref_id then [] else assert_failed ∷ []

-- `ode_smi_od_err`; the tables call it on the events T1 and T6 alone.
unfoldable pub ode_smi_od_err : Ode → Event → Effect
unfolding od_err_type od_err_failed
ode_smi_od_err ode e = (
  ode,
  od_err_failed ode.busy.block.id e
      ++ smi_job_error ode.busy.exp_id ode.busy.block.id (od_err_type ode.busy.block.id e) ∷ [],
  ev_none,
)

-- `ode_AL_Read_req`
unfoldable pub ode_al_read_req : Ode → Effect
ode_al_read_req ode =
    (ode, al_read ode.smi_req.block.index ode.smi_req.block.subindex ∷ [], ev_od_block)

-- The length of the data that `ode_AL_Write_req` sends: the block's length, kept in eight bits,
-- without the head.
abbrev pub write_len : ℕ → ℕ
write_len len = if leb head_size (u8 len) then u8 len - head_size else 0

-- `ode_AL_Write_req`
unfoldable pub ode_al_write_req : Ode → Effect
ode_al_write_req ode =
    let b = ode.smi_req.block in
    (
      ode,
      al_write b.index b.subindex (bytes_at b.bytes 0 (write_len ode.smi_req.len)) ∷ [],
      ev_od_block,
    )

abbrev pub is_read : SmiReq → Bool
is_read r = r.exp_id == ArgBlockId.od_rd && r.block.id == ArgBlockId.od_rd

abbrev pub is_write : SmiReq → Bool
is_write r = r.exp_id == ArgBlockId.void_block && r.block.id == ArgBlockId.od_wr

unfoldable pub ode_smi_rw : Ode → Effect
unfolding ode_al_read_req ode_al_write_req
ode_smi_rw ode =
    let r = ode.smi_req in
    if is_read r then ode_al_read_req ode else if is_write r then ode_al_write_req ode else (
      ode,
      smi_job_error r.exp_id r.block.id (
            if r.block.id == ArgBlockId.port_index_list || r.block.id == ArgBlockId.dev_par_bat
            then SmiError.service_not_supported
            else SmiError.argblock_not_supported)
          ∷ [],
      ev_none,
    )

-- `iolink_smi_cnf` shows the client as many bytes of its block as the length says.
abbrev pub cnf_of : SmiReq → Call
cnf_of r =
    smi_cnf r.block.id r.len r.block.index r.block.subindex
      (bytes_at r.block.bytes 0 (r.len - head_size))

unfoldable pub ode_smi_done : Ode → Effect
ode_smi_done ode =
    let r = ode.smi_req in
    (
      ode,
      (if r.result == SmiError.no_error
            then (if is_read r
                then cnf_of r
                else if is_write r
                then smi_void_cnf r.block.id
                else assert_failed)
            else smi_job_error r.exp_id r.block.id r.result)
          ∷ [],
      ev_none,
    )

-- The function pointers of the transition tables.
pub data Action : Type 0 where
  do_od_err do_od_start do_od_stop do_rw do_done do_wait : Action

unfoldable pub act : Action → Event → Ode → Effect
unfolding ode_smi_od_err ode_smi_rw ode_smi_done
act do_od_err e ode = ode_smi_od_err ode e
act do_od_start e ode = (ode, [], ev_none)
act do_od_stop e ode = (ode, [], ev_none)
act do_rw e ode = ode_smi_rw ode
act do_done e ode = ode_smi_done ode
act do_wait e ode = (ode, [], ev_none)

-- The number of the enumerator.
abbrev pub event_num : Event → ℕ
event_num ev_none = 0
event_num ev_smi_dev_rw_1 = 1
event_num ev_od_start = 2
event_num ev_od_stop = 3
event_num ev_smi_dev_rw_4 = 4
event_num ev_od_block = 5
event_num ev_smi_dev_rw_6 = 6
event_num ev_od_unblock = 7

abbrev pub same_event : Event → Event → Bool
same_event a b = event_num a == event_num b

-- `iolink_fsm_ode_transition_t`
pub record Transition : Type 0 where
  pub event : Event
  pub next_state : State
  pub action : Action

abbrev on : Event → State → Action → Transition
on e s a = record { event = e; next_state = s; action = a }

-- `ode_trans_s0` to `ode_trans_s2`
unfoldable pub transitions : State → List Transition
transitions inactive =
    on ev_od_start od_active do_od_start
    ∷ on ev_smi_dev_rw_1 inactive do_od_err
    ∷ on ev_od_stop inactive do_od_stop
    ∷ []
transitions od_active =
    on ev_smi_dev_rw_4 od_active do_rw
    ∷ on ev_od_block od_blocked do_wait
    ∷ on ev_od_stop inactive do_od_stop
    ∷ []
transitions od_blocked =
    on ev_od_unblock od_active do_done
    ∷ on ev_smi_dev_rw_6 od_blocked do_od_err
    ∷ on ev_od_stop inactive do_od_stop
    ∷ []

-- The `for` loop over a table.
unfoldable pub find_transition : List Transition → Event → Option Transition
find_transition [] e = none
find_transition (tr ∷ rows) e = if same_event tr.event e then some tr else find_transition rows e

abbrev pub Run : Type 0
Run = Option (Ode × List Call)

infixl 5 ◌>>=◌
abbrev pub ◌>>=◌ : Run → (Ode → Run) → Run
none >>= f = none
some (ode, calls) >>= f = elim (f ode) [
  | none ↦ none
  | some (ode', more) ↦ some (ode', calls ++ more)
]

-- `iolink_ode_event`: an event without a row is logged and dropped.
unfoldable pub event_loop : ℕ → Ode → Event → Run
unfolding transitions find_transition act
event_loop zero ode e = none
event_loop (suc fuel) ode e = elim (find_transition (transitions ode.state) e) [
  | none ↦ some (ode, [])
  | some tr ↦
      let (ode', calls, next) = act tr.action e (record ode { state = tr.next_state }) in
      elim (same_event next ev_none) [
        | true ↦ some (ode', calls)
        | false ↦ some (ode', calls) >>= λ d. event_loop fuel d next
      ]
]

-- Two rounds are the most that an event takes.
unfoldable pub iolink_ode_event : Ode → Event → Run
unfolding event_loop
iolink_ode_event ode e = event_loop 2 ode e
