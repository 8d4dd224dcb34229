-- ===== src/Al/Fsm.antt =====
-- ilink/iolink_al.c: the tables of the on-request state machine and the loop `iolink_al_od_event`.
use normans_fork.Prelude.{
  ℕ, zero, suc, Bool, true, false, Option, none, some, List, [], ◌∷◌, ◌++◌, ◌==◌, if◌then◌else◌,
}
use normans_fork.Al.{
  State, onreq_idle, build_dl_service, await_dl_param_cnf, await_dl_isdu_cnf, Event, ev_none,
  ev_service, ev_arg_err, ev_param_read, ev_param_write_1, ev_param_write_2, ev_isdu_read,
  ev_isdu_write, ev_abort, ev_rwparam, ev_readparam_cnf, ev_writeparam_cnf, ev_isdutransport_cnf,
  ev_abort_port, Al, AlCall,
}
use normans_fork.Al.Actions.{
  Action, do_busy, do_build, do_send_cnf, do_send_abort, do_isdu_read, do_isdu_write, do_param_read,
  do_param_write, do_next_rw, act,
}

-- The number of the enumerator.
abbrev pub event_num : Event → ℕ
event_num ev_none = 0
event_num ev_service = 1
event_num ev_arg_err = 2
event_num ev_param_read = 3
event_num ev_param_write_1 = 4
event_num ev_param_write_2 = 5
event_num ev_isdu_read = 6
event_num ev_isdu_write = 7
event_num ev_abort = 8
event_num ev_rwparam = 9
event_num ev_readparam_cnf = 10
event_num ev_writeparam_cnf = 11
event_num ev_isdutransport_cnf = 12
event_num ev_abort_port = 13

abbrev pub same_event : Event → Event → Bool
same_event a b = event_num a == event_num b

-- `iolink_fsm_al_od_transition_t`
pub record Transition : Type 0 where
  pub event : Event
  pub next_state : State
  pub action : Action

abbrev on : Event → State → Action → Transition
on e s a = record { event = e; next_state = s; action = a }

-- `al_od_trans_s0` to `al_od_trans_s3`
unfoldable pub transitions : State → List Transition
transitions onreq_idle =
    on ev_service build_dl_service do_build ∷ on ev_abort_port onreq_idle do_send_abort ∷ []
transitions build_dl_service =
    on ev_arg_err onreq_idle do_send_cnf
    ∷ on ev_param_read await_dl_param_cnf do_param_read
    ∷ on ev_param_write_1 await_dl_param_cnf do_param_write
    ∷ on ev_param_write_2 await_dl_param_cnf do_param_write
    ∷ on ev_isdu_read await_dl_isdu_cnf do_isdu_read
    ∷ on ev_isdu_write await_dl_isdu_cnf do_isdu_write
    ∷ []
transitions await_dl_param_cnf =
    on ev_service await_dl_param_cnf do_busy
    ∷ on ev_abort onreq_idle do_send_cnf
    ∷ on ev_rwparam await_dl_param_cnf do_next_rw
    ∷ on ev_readparam_cnf onreq_idle do_send_cnf
    ∷ on ev_writeparam_cnf onreq_idle do_send_cnf
    ∷ []
transitions await_dl_isdu_cnf =
    on ev_abort onreq_idle do_send_cnf
    ∷ on ev_service await_dl_isdu_cnf do_busy
    ∷ on ev_isdutransport_cnf onreq_idle do_send_cnf
    ∷ []

-- The `for` loop over a table.
unfoldable pub find_transition : List Transition → Event → Option Transition
find_transition [] e = none
find_transition (tr ∷ rows) e = if same_event tr.event e then some tr else find_transition rows e

abbrev pub Run : Type 0
Run = Option (Al × List AlCall)

infixl 5 ◌>>=◌
abbrev pub ◌>>=◌ : Run → (Al → Run) → Run
none >>= f = none
some (al, calls) >>= f = elim (f al) [ none ↦ none | some (al', more) ↦ some (al', calls ++ more) ]

-- `iolink_al_od_event`: an event without a row is logged and dropped.
unfoldable pub event_loop : ℕ → Al → Event → Run
unfolding transitions find_transition act
event_loop zero al e = none
event_loop (suc fuel) al e = elim (find_transition (transitions al.od_state) e) [
  | none ↦ some (al, [])
  | some tr ↦
      let (al', calls, next) = act tr.action e (record al { od_state = tr.next_state }) in
      elim (same_event next ev_none) [
        | true ↦ some (al', calls)
        | false ↦ some (al', calls) >>= λ d. event_loop fuel d next
      ]
]

-- Two rounds are the most that an event takes.
unfoldable pub iolink_al_od_event : Al → Event → Run
unfolding event_loop
iolink_al_od_event al e = event_loop 2 al e
