-- ===== src/Al/Diagnosis.antt =====
-- ilink/iolink_al.c: what the diagnosis unit is told of a device's events.
use mathlib.Core.Path.{subst, ap₂}
use normans_fork.Prelude.{
  ℕ, suc, ◌+◌, ◌<◌, ◌≡◌, refl, sym, ap, ◌∙◌, List, [], ◌∷◌, ◌++◌, append_assoc, arith, length, All,
  update,
}
use normans_fork.Al.Events.{
  event_idle, read_event_set, du_event_handling, DiagEntry, Events, EventCall, al_event_ind,
  first_entries, al_event_idle, act, transition, iolink_al_event_event, al_dl_event_ind_cb,
  EventInput, dl_event, al_event_rsp, handle_event, handle_events,
}
use normans_fork.Al.Collected.{IsOpen, indications, event_more, event_done, confirmed, entries_with}

-- A run in which one set of events is handed on before other jobs.
abbrev Reports :
    (run : Events × List EventCall) (count : ℕ) (entries : List DiagEntry) (rest : List EventInput)
    → Type 0
Reports (end, calls) count entries rest =
    (s : Events) × (s.event_state ≡ event_idle)
    × (s.event_cnt ≡ 0)
    × (end ≡ (handle_events s rest).0)
    × (calls ≡ al_event_ind count entries ∷ (handle_events s rest).1)

-- A job and the jobs after it.
abbrev continued : Events × List EventCall → List EventInput → Events × List EventCall
continued (s, calls) inputs = ((handle_events s inputs).0, calls ++ (handle_events s inputs).1)

collected :
    (before : List DiagEntry) (last : DiagEntry) (rest : List EventInput) (s : Events)
    (xs : List DiagEntry)
    → IsOpen s.event_state
    → first_entries s.events s.event_cnt ≡ xs
    → s.event_cnt + length before < 6
    → Reports
        (handle_events s (indications before last rest))
        (s.event_cnt + length before + 1)
        (xs ++ (before ++ last ∷ []))
        rest
unfolding indications handle_events IsOpen
collected [] last rest s xs taking so_far few =
    let s₁ = record s {
      event_state = du_event_handling;
      event_cnt = s.event_cnt + 1;
      events = update s.events s.event_cnt last;
    } in
    let s₂ = record s₁ { event_state = event_idle; event_cnt = 0 } in
    let first = event_done s.event_state s last refl taking (omega arith) in
    let all = entries_with s xs last so_far in
    subst
      (λ (r : Events × List EventCall).
        Reports (continued r (al_event_rsp ∷ rest)) (s.event_cnt + 0 + 1) (xs ++ (last ∷ [])) rest)
      (sym first)
      (subst
        (λ (r : Events × List EventCall).
          Reports
            (
              (handle_events r.0 rest).0,
              al_event_ind (s.event_cnt + 1) (first_entries s₁.events (s.event_cnt + 1))
                  ∷ (r.1 ++ (handle_events r.0 rest).1),
            )
            (s.event_cnt + 0 + 1) (xs ++ (last ∷ [])) rest)
        (sym (confirmed s₁ refl))
        (
          s₂,
          refl,
          refl,
          refl,
          ap₂ (λ n es. al_event_ind n es ∷ (handle_events s₂ rest).1) (omega arith) all,
        ))
collected (x ∷ before) last rest s xs taking so_far few =
    let s₁ = record s {
      event_state = read_event_set;
      event_cnt = s.event_cnt + 1;
      events = update s.events s.event_cnt x;
    } in
    let first =
      event_more s.event_state s (length before + 1) x (omega arith) refl taking (omega arith) in
    let (s', idle, none_left, end, calls) =
      collected before last rest s₁ (xs ++ x ∷ []) tt (entries_with s xs x so_far) (omega arith) in
    subst
      (λ (r : Events × List EventCall).
        Reports (continued r (indications before last rest)) (s.event_cnt + suc (length before) + 1)
          (xs ++ (x ∷ before ++ last ∷ [])) rest)
      (sym first)
      (
        s',
        idle,
        none_left,
        end,
        calls
            ∙ ap₂ (λ n es. al_event_ind n es ∷ (handle_events s' rest).1) (omega arith)
                (append_assoc xs (x ∷ []) (before ++ last ∷ [])),
      )

-- Sets of events, one after the other, each confirmed before the next.
unfoldable pub sets : List (List DiagEntry × DiagEntry) → List EventInput
sets [] = []
sets ((before, last) ∷ more) = indications before last (sets more)

-- What the diagnosis unit is told of them.
unfoldable pub reports : List (List DiagEntry × DiagEntry) → List EventCall
reports [] = []
reports ((before, last) ∷ more) =
    al_event_ind (length before + 1) (before ++ last ∷ []) ∷ reports more

-- A set of at most six events.
unfoldable pub IsSmall : List DiagEntry × DiagEntry → Type 0
IsSmall (before, last) = length before < 6

-- Sets of at most six events each, signalled one after the other and each event with the number of
-- those that are left of its set, are handed to the diagnosis unit in one indication per set, with all its events in the order in which they came, if
-- each set is confirmed before the next begins. No assertion fails, and the handler is idle again.
pub sets-reports :
    (all : List (List DiagEntry × DiagEntry)) (s : Events)
    → s.event_state ≡ event_idle
    → s.event_cnt ≡ 0
    → All IsSmall all
    → let (end, calls) = handle_events s (sets all) in
      (end.event_state ≡ event_idle) × (end.event_cnt ≡ 0) × (calls ≡ reports all)
unfolding sets reports handle_events IsSmall IsOpen first_entries
sets-reports [] s idle empty small = (idle, empty, refl)
sets-reports ((before, last) ∷ more) s idle empty (here, later) =
    let taking : IsOpen s.event_state = rw idle tt in
    let nothing : first_entries s.events s.event_cnt ≡ [] = rw empty refl in
    let (s', idle', empty', end, calls) =
      collected before last (sets more) s [] taking nothing (omega arith) in
    let (state, count, told) = sets-reports more s' idle' empty' later in
    (
      ap (λ (e : Events). e.event_state) end ∙ state,
      ap (λ (e : Events). e.event_cnt) end ∙ count,
      calls ∙ ap₂ (λ n cs. al_event_ind n (before ++ last ∷ []) ∷ cs) (omega arith) told,
    )

-- An event that comes after a set has been handed on and before it is confirmed, when fewer than six
-- are stored, is lost: the confirmation leaves no event, and the diagnosis unit is not told.
pub late_event_lost :
    (s : Events) (eventsleft : ℕ) (x : DiagEntry)
    → s.event_state ≡ du_event_handling
    → s.event_cnt < 6
    → let (end, calls) = handle_events s (dl_event eventsleft x ∷ al_event_rsp ∷ []) in
      (end.event_state ≡ event_idle) × (end.event_cnt ≡ 0) × (calls ≡ [])
unfolding handle_events handle_event al_dl_event_ind_cb iolink_al_event_event transition act
    al_event_idle
late_event_lost s eventsleft x h few = ground arith
