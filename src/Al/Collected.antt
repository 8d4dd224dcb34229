-- ===== src/Al/Collected.antt =====
-- ilink/iolink_al.c: how the events of a device are collected, one job at a time.
use mathlib.Core.Path.{ap₂}
use normans_fork.Prelude.Memory.Laws.{update_self, update_ne}
use normans_fork.Prelude.{
  ℕ, zero, suc, ◌+◌, ◌<◌, ◌≡◌, refl, ap, ◌∙◌, List, [], ◌∷◌, ◌++◌, arith, length, update,
}
use normans_fork.Al.Events.{
  EventState, event_inactive, event_idle, read_event_set, du_event_handling, DiagEntry, Events,
  al_event_ind, first_entries, al_event_idle, act, transition, iolink_al_event_event,
  al_dl_event_ind_cb, EventInput, dl_event, al_event_rsp, handle_event,
}

first_entries_ext :
    (n : ℕ) (m m' : ℕ → DiagEntry)
    → ((i : ℕ) → i < n → m i ≡ m' i)
    → first_entries m n ≡ first_entries m' n
unfolding first_entries
first_entries_ext zero m m' h = refl
first_entries_ext (suc n) m m' h =
    ap₂ ◌++◌ (first_entries_ext n m m' (λ i lt. h i (omega arith)))
      (ap (λ x. x ∷ []) (h n (omega arith)))

first_entries-update :
    (n : ℕ) (m : ℕ → DiagEntry) (x : DiagEntry)
    → first_entries (update m n x) (suc n) ≡ first_entries m n ++ x ∷ []
unfolding first_entries
first_entries-update n m x =
    ap₂ ◌++◌ (first_entries_ext n _ m (λ i lt. update_ne m n i x (omega arith)))
      (ap (λ y. y ∷ []) (update_self m n x))

-- The handler takes events.
unfoldable pub IsOpen : EventState → Type 0
IsOpen event_idle = Unit
IsOpen read_event_set = Unit
IsOpen _ = ⊥

-- The jobs for a set of events, each with the number of those that are left behind it, and for its
-- confirmation by the diagnosis unit; then other jobs.
unfoldable pub indications : List DiagEntry → (last : DiagEntry) → List EventInput → List EventInput
indications [] last rest = dl_event 0 last ∷ al_event_rsp ∷ rest
indications (x ∷ before) last rest = dl_event (length before + 1) x ∷ indications before last rest

pub event_more :
    (st : EventState) (s : Events) (left : ℕ) (x : DiagEntry)
    → 0 < left
    → s.event_state ≡ st
    → IsOpen st
    → s.event_cnt < 6
    → handle_event s (dl_event left x) ≡ (
      record s {
        event_state = read_event_set;
        event_cnt = s.event_cnt + 1;
        events = update s.events s.event_cnt x;
      },
      [],
    )
unfolding handle_event al_dl_event_ind_cb iolink_al_event_event transition act IsOpen
event_more event_idle s left x some_left h taking few = ground arith
event_more read_event_set s left x some_left h taking few = ground arith
event_more event_inactive s left x some_left h taking few = absurd taking
event_more du_event_handling s left x some_left h taking few = absurd taking

pub event_done :
    (st : EventState) (s : Events) (x : DiagEntry)
    → s.event_state ≡ st
    → IsOpen st
    → s.event_cnt < 6
    → handle_event s (dl_event 0 x) ≡ (
      record s {
        event_state = du_event_handling;
        event_cnt = s.event_cnt + 1;
        events = update s.events s.event_cnt x;
      },
      al_event_ind
            (s.event_cnt + 1)
            (first_entries (update s.events s.event_cnt x) (s.event_cnt + 1))
          ∷ [],
    )
unfolding handle_event al_dl_event_ind_cb iolink_al_event_event transition act IsOpen
event_done event_idle s x h taking few = ground arith
event_done read_event_set s x h taking few = ground arith
event_done event_inactive s x h taking few = absurd taking
event_done du_event_handling s x h taking few = absurd taking

pub confirmed :
    (s : Events)
    → s.event_state ≡ du_event_handling
    → handle_event s al_event_rsp ≡ (record s { event_state = event_idle; event_cnt = 0 }, [])
unfolding handle_event iolink_al_event_event transition act al_event_idle
confirmed s h = ground arith

pub entries_with :
    (s : Events) (xs : List DiagEntry) (x : DiagEntry)
    → first_entries s.events s.event_cnt ≡ xs
    → first_entries (update s.events s.event_cnt x) (s.event_cnt + 1) ≡ xs ++ x ∷ []
entries_with s xs x so_far =
    ap (first_entries (update s.events s.event_cnt x)) (omega arith)
    ∙ first_entries-update s.event_cnt s.events x
    ∙ ap (λ ys. ys ++ x ∷ []) so_far
