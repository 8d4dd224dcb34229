-- ===== src/Ds/Fsm.antt =====
-- ilink/iolink_ds.c: the transition tables `ds_trans_s0` to `ds_trans_s17`, and the loop
-- `iolink_ds_event` that runs them.
--
-- The loop runs on fuel; `none` would mean that the fuel ran out.
use normans_fork.Prelude.{
  ℕ, zero, suc, Bool, true, false, Option, none, some, List, [], ◌∷◌, ◌++◌, ◌==◌, if◌then◌else◌,
}
use normans_fork.Types.{Call}
use normans_fork.Ds.{
  State, check_activation_state, waiting_on_ds_activity, off, check_identity, check_mem_size,
  check_upload, check_ds_validity, check_checksum, ds_ready_state, ds_fault_state, decompose_il,
  read_parameter, store_data_set, upload_fault, decompose_set, write_parameter, download_done,
  download_fault, Event, ev_none, ev_enable, ev_startup, ev_ready, ev_upload, ev_fault_done,
  ev_fault_id, ev_fault_size, ev_fault_ul, ev_fault_dl, ev_fault_lock, ev_enable_com, ev_clr_disa,
  ev_enable_no_c, ev_delete, ev_clear, ev_disable, ev_passed, ev_do_upload, ev_no_upload,
  ev_download, ev_more_data, ev_read_done, ev_store_data, ev_ul_done, ev_dev_err, ev_com_err,
  ev_wr_done, ev_dl_done, ev_init, Ds, PortInfo,
}
use normans_fork.Ds.Actions.{
  Action, do_delete, do_todo, do_ul_fault, do_dl_fault, do_fault, do_off, do_chk_id,
  do_chk_mem_size, do_chk_upload, do_upload, do_chk_validity, do_chk_csum, do_write_param,
  do_wait_ds_act, do_dl_done, do_readparam, do_store_data, do_ready, do_decompose_set, do_init_dl,
  do_reinit, act,
}

-- The number of the enumerator, by which C compares events.
unfoldable pub event_num : Event → ℕ
event_num ev_none = 0
event_num ev_enable = 1
event_num ev_startup = 2
event_num ev_ready = 3
event_num ev_upload = 4
event_num ev_fault_done = 5
event_num ev_fault_id = 6
event_num ev_fault_size = 7
event_num ev_fault_ul = 8
event_num ev_fault_dl = 9
event_num ev_fault_lock = 10
event_num ev_enable_com = 11
event_num ev_clr_disa = 12
event_num ev_enable_no_c = 13
event_num ev_delete = 14
event_num ev_clear = 15
event_num ev_disable = 16
event_num ev_passed = 17
event_num ev_do_upload = 18
event_num ev_no_upload = 19
event_num ev_download = 20
event_num ev_more_data = 21
event_num ev_read_done = 22
event_num ev_store_data = 23
event_num ev_ul_done = 24
event_num ev_dev_err = 25
event_num ev_com_err = 26
event_num ev_wr_done = 27
event_num ev_dl_done = 28
event_num ev_init = 29

abbrev pub same_event : Event → Event → Bool
unfolding event_num
same_event a b = event_num a == event_num b

-- `iolink_fsm_ds_transition_t`
pub record Transition : Type 0 where
  pub event : Event
  pub next_state : State
  pub action : Action

abbrev on : Event → State → Action → Transition
on e s a = record { event = e; next_state = s; action = a }

unfoldable pub transitions : State → List Transition
transitions check_activation_state =
    on ev_enable waiting_on_ds_activity do_wait_ds_act
    ∷ on ev_clr_disa off do_off
    ∷ on ev_delete check_activation_state do_delete
    ∷ on ev_init check_activation_state do_reinit
    ∷ []
transitions waiting_on_ds_activity =
    on ev_startup check_identity do_chk_id
    ∷ on ev_upload check_identity do_chk_id
    ∷ on ev_delete waiting_on_ds_activity do_delete
    ∷ on ev_clear off do_todo
    ∷ on ev_disable off do_todo
    ∷ on ev_init check_activation_state do_reinit
    ∷ []
transitions off =
    on ev_enable_com check_identity do_todo
    ∷ on ev_enable_no_c waiting_on_ds_activity do_todo
    ∷ on ev_delete off do_delete
    ∷ on ev_upload off do_off
    ∷ on ev_startup off do_off
    ∷ on ev_init check_activation_state do_reinit
    ∷ []
transitions check_identity =
    on ev_passed check_mem_size do_chk_mem_size
    ∷ on ev_fault_id ds_fault_state do_fault
    ∷ on ev_init check_activation_state do_reinit
    ∷ []
transitions check_mem_size =
    on ev_passed check_upload do_chk_upload
    ∷ on ev_fault_size ds_fault_state do_fault
    ∷ on ev_init check_activation_state do_reinit
    ∷ []
transitions check_upload =
    on ev_do_upload decompose_il do_upload
    ∷ on ev_no_upload check_ds_validity do_chk_validity
    ∷ on ev_fault_lock ds_fault_state do_fault
    ∷ []
transitions check_ds_validity =
    on ev_do_upload decompose_il do_upload ∷ on ev_passed check_checksum do_chk_csum ∷ []
transitions check_checksum =
    on ev_download decompose_set do_init_dl ∷ on ev_ready ds_ready_state do_ready ∷ []
transitions ds_ready_state = on ev_ready waiting_on_ds_activity do_wait_ds_act ∷ []
transitions ds_fault_state =
    on ev_fault_done waiting_on_ds_activity do_wait_ds_act
    ∷ on ev_com_err waiting_on_ds_activity do_wait_ds_act
    ∷ []
transitions decompose_il =
    on ev_more_data read_parameter do_readparam
    ∷ on ev_store_data store_data_set do_store_data
    ∷ on ev_com_err upload_fault do_ul_fault
    ∷ []
transitions read_parameter =
    on ev_read_done decompose_il do_upload
    ∷ on ev_dev_err upload_fault do_ul_fault
    ∷ on ev_com_err upload_fault do_ul_fault
    ∷ []
transitions store_data_set =
    on ev_ul_done ds_ready_state do_ready ∷ on ev_com_err upload_fault do_ul_fault ∷ []
transitions upload_fault = on ev_fault_ul ds_fault_state do_fault ∷ []
transitions decompose_set =
    on ev_more_data write_parameter do_write_param
    ∷ on ev_download decompose_set do_decompose_set
    ∷ on ev_dl_done download_done do_dl_done
    ∷ []
transitions write_parameter =
    on ev_wr_done decompose_set do_decompose_set
    ∷ on ev_dev_err download_fault do_dl_fault
    ∷ on ev_com_err download_fault do_dl_fault
    ∷ []
transitions download_done =
    on ev_ready ds_ready_state do_ready ∷ on ev_com_err download_fault do_dl_fault ∷ []
transitions download_fault = on ev_fault_dl ds_fault_state do_fault ∷ []

-- The `for` loop over a table: the first row for the event.
unfoldable pub find_transition : List Transition → Event → Option Transition
find_transition [] e = none
find_transition (tr ∷ rows) e = if same_event tr.event e then some tr else find_transition rows e

-- The data storage after a handler and the calls that the handler made.
abbrev pub Run : Type 0
Run = Option (Ds × List Call)

infixl 5 ◌>>=◌
abbrev pub ◌>>=◌ : Run → (Ds → Run) → Run
none >>= f = none
some (ds, calls) >>= f = elim (f ds) [ none ↦ none | some (ds', more) ↦ some (ds', calls ++ more) ]

-- `iolink_ds_event`: an event without a row is logged and dropped.
unfoldable pub event_loop : ℕ → PortInfo → Ds → Event → Run
event_loop zero info ds e = none
event_loop (suc fuel) info ds e = elim (find_transition (transitions ds.state) e) [
  | none ↦ some (ds, [])
  | some tr ↦
      let (ds', calls, next) = act info tr.action e (record ds { state = tr.next_state }) in
      elim (same_event next ev_none) [
        | true ↦ some (ds', calls)
        | false ↦ some (ds', calls) >>= λ d. event_loop fuel info d next
      ]
]

-- Four rounds are the most that an event takes.
unfoldable pub iolink_ds_event : PortInfo → Ds → Event → Run
iolink_ds_event info ds e = event_loop 4 info ds e
