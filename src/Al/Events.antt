-- ===== src/Al/Events.antt =====
-- ilink/iolink_al.c: the events of a device, which are collected and then handed to the diagnosis unit.
use normans_fork.Prelude.{
  ℕ, zero, suc, ◌+◌, Option, none, some, List, [], ◌∷◌, ◌++◌, ltb, ◌==◌, if◌then◌else◌, u8, update,
}

-- `iolink_al_event_state_t`
pub data EventState : Type 0 where
  event_inactive event_idle read_event_set du_event_handling : EventState

-- The events of `iolink_fsm_al_event_event_t`; each action gives AL_EVENT_EVENT_NONE.
pub data EventEvent : Type 0 where
  ind_more ind_done event_rsp event_req : EventEvent

-- `diag_entry_t`
pub record DiagEntry : Type 0 where
  pub event_qualifier : ℕ
  pub event_code : ℕ

-- `event_state` and `event` of `iolink_al_port_t`
pub record Events : Type 0 where
  pub event_state : EventState
  pub event_cnt : ℕ  -- uint8
  pub events : ℕ → DiagEntry

-- What the diagnosis unit is told, and an assertion that fails.
pub data EventCall : Type 0 where
  al_event_ind : (event_cnt : ℕ) (events : List DiagEntry) → EventCall
  event_assert_failed : EventCall

-- The first entries of the array.
unfoldable pub first_entries : (ℕ → DiagEntry) → ℕ → List DiagEntry
first_entries m zero = []
first_entries m (suc n) = first_entries m n ++ m n ∷ []

pub data EventAction : Type 0 where
  do_wait_read do_du_handle do_idle : EventAction

-- `al_event_idle`
unfoldable pub al_event_idle : EventEvent → Events → Events × List EventCall
al_event_idle event_rsp s = (record s { event_cnt = 0 }, [])
al_event_idle event_req s = (record s { event_cnt = 0 }, [])
al_event_idle _ s = (record s { event_cnt = 0 }, event_assert_failed ∷ [])

-- `al_event_wait_read`, `al_event_du_handle` and `al_event_idle`
unfoldable pub act : EventAction → EventEvent → Events → Events × List EventCall
unfolding al_event_idle
act do_wait_read e s = (s, [])
act do_du_handle e s = (s, al_event_ind s.event_cnt (first_entries s.events s.event_cnt) ∷ [])
act do_idle e s = al_event_idle e s

-- A row of `al_event_trans_s0` to `al_event_trans_s2`, of the state and the event: where to, and what to do.
unfoldable pub transition : EventState → EventEvent → Option (EventState × EventAction)
transition event_idle ind_more = some (read_event_set, do_wait_read)
transition event_idle ind_done = some (du_event_handling, do_du_handle)
transition event_idle event_req = some (event_idle, do_idle)
transition read_event_set ind_more = some (read_event_set, do_wait_read)
transition read_event_set ind_done = some (du_event_handling, do_du_handle)
transition du_event_handling event_rsp = some (event_idle, do_idle)
transition _ _ = none

-- `iolink_al_event_event`: an event without a row is logged and dropped.
unfoldable pub iolink_al_event_event : EventEvent → Events → Events × List EventCall
unfolding transition act
iolink_al_event_event e s = elim (transition s.event_state e) [
  | none ↦ (s, [])
  | some (next_state, action) ↦ act action e (record s { event_state = next_state })
]

-- `al_dl_event_ind_cb`: the event is counted whatever the state is.
unfoldable pub al_dl_event_ind_cb : (eventsleft : ℕ) → DiagEntry → Events → Events × List EventCall
unfolding iolink_al_event_event
al_dl_event_ind_cb eventsleft entry s =
    let stored = record s {
      events = update s.events s.event_cnt entry;
      event_cnt = u8 (s.event_cnt + 1);
    } in
    let (s', calls) =
      iolink_al_event_event (if eventsleft == 0 then ind_done else ind_more) stored in
    (s', (if ltb s.event_cnt 6 then [] else event_assert_failed ∷ []) ++ calls)

-- The jobs, of DL_Event_ind, AL_Event_rsp and AL_Event_req.
pub data EventInput : Type 0 where
  dl_event : (eventsleft : ℕ) → DiagEntry → EventInput
  al_event_rsp al_event_req : EventInput

unfoldable pub handle_event : Events → EventInput → Events × List EventCall
unfolding iolink_al_event_event al_dl_event_ind_cb
handle_event s (dl_event eventsleft entry) = al_dl_event_ind_cb eventsleft entry s
handle_event s al_event_rsp = iolink_al_event_event event_rsp s
handle_event s al_event_req = iolink_al_event_event event_req s

unfoldable pub handle_events : Events → List EventInput → Events × List EventCall
handle_events s [] = (s, [])
handle_events s (i ∷ inputs) =
    let (s', calls) = handle_event s i in
    let (end, more) = handle_events s' inputs in (end, calls ++ more)
