-- ===== src/Al/Answers.antt =====
-- ilink/iolink_al.c: which clients are answered over any sequence of jobs.
use normans_fork.Prelude.{
  ℕ, ◌+◌, ◌≡◌, refl, Bool, true, false, none, some, List, [], ◌∷◌, ◌++◌, arith, ◌==◌,
}
use normans_fork.Al.{
  State, onreq_idle, build_dl_service, await_dl_param_cnf, await_dl_isdu_cnf, read_req, write_req,
  Service, Al, AlCall, read_answer, write_answer, al_assert_failed,
}
use normans_fork.Al.Actions.{
  busy_answer, al_od_busy, service_event, take_request, al_od_build_dl_service, answer_in, al_cnf,
  al_od_send_al_cnf, al_od_isdu_read_write, al_od_param_read, param_write_asserts,
  al_od_param_write, act,
}
use normans_fork.Al.Fsm.{transitions, find_transition, Run, event_loop, iolink_al_od_event}
use normans_fork.Al.Callbacks.{
  al_read_write_cb, al_dl_readparam_cnf_cb, al_dl_writeparam_cnf_cb, al_dl_isdu_transport_cnf_cb,
  al_abort_cb, copy_response, store_response, Input, request, readparam_cnf, writeparam_cnf,
  isdu_response, isdu_cnf, abort, handle, handle_all,
}

abbrev pub one_if : Bool → ℕ
one_if true = 1
one_if false = 0

-- One for a call that answers the client `c`.
unfoldable pub is_answer_to : ℕ → AlCall → ℕ
is_answer_to c (read_answer client len bytes error) = one_if (client == c)
is_answer_to c (write_answer client error) = one_if (client == c)
is_answer_to c _ = 0

unfoldable pub answers_to : ℕ → List AlCall → ℕ
answers_to c [] = 0
answers_to c (x ∷ calls) = is_answer_to c x + answers_to c calls

unfoldable pub is_assert : AlCall → ℕ
is_assert al_assert_failed = 1
is_assert _ = 0

unfoldable pub asserts : List AlCall → ℕ
asserts [] = 0
asserts (x ∷ calls) = is_assert x + asserts calls

-- One for a request of the client `c`.
unfoldable pub is_request_of : ℕ → Input → ℕ
is_request_of c (request (read_req client index subindex)) = one_if (client == c)
is_request_of c (request (write_req client index subindex len bytes)) = one_if (client == c)
is_request_of c _ = 0

unfoldable pub requests_of : ℕ → List Input → ℕ
requests_of c [] = 0
requests_of c (i ∷ inputs) = is_request_of c i + requests_of c inputs

-- One where the request of the client `c` waits for the data link layer.
unfoldable pub waiting_of : ℕ → State → Service → ℕ
waiting_of c await_dl_param_cnf s = one_if (s.client == c)
waiting_of c await_dl_isdu_cnf s = one_if (s.client == c)
waiting_of c _ s = 0

-- Between jobs the state is one in which the layer waits for something.
unfoldable pub IsResting : State → Type 0
IsResting build_dl_service = ⊥
IsResting _ = Unit

-- What holds of the state and the calls that a handler leaves.
abbrev After : (Al → List AlCall → Type 0) → Run → Type 0
After P none = ⊥
After P (some (d, calls)) = P d calls

abbrev Balanced : ℕ → ℕ → Al → List AlCall → Type 0
Balanced c asked d calls =
    IsResting d.od_state
    × (asserts calls ≡ 0)
    × (answers_to c calls + waiting_of c d.od_state d.service ≡ asked)

handle-Balanced :
    (s : State) (c : ℕ) (al : Al) (i : Input)
    → al.od_state ≡ s
    → IsResting s
    → After (Balanced c (is_request_of c i + waiting_of c s al.service)) (handle al i)
unfolding handle al_read_write_cb al_dl_readparam_cnf_cb al_dl_writeparam_cnf_cb
    al_dl_isdu_transport_cnf_cb al_abort_cb iolink_al_od_event event_loop find_transition
    transitions act al_od_busy busy_answer al_od_build_dl_service service_event take_request
    answer_in al_cnf al_od_send_al_cnf al_od_isdu_read_write al_od_param_read param_write_asserts
    al_od_param_write store_response copy_response IsResting answers_to is_answer_to asserts
    is_assert waiting_of is_request_of
handle-Balanced onreq_idle c al (request (read_req client index subindex)) h rest = ground arith
handle-Balanced onreq_idle c al (request (write_req client index subindex len bytes)) h rest =
    ground arith
handle-Balanced await_dl_param_cnf c al (request (read_req client index subindex)) h rest =
    ground arith
handle-Balanced await_dl_param_cnf c al (request (write_req client index subindex len bytes)) h
      rest =
    ground arith
handle-Balanced await_dl_isdu_cnf c al (request (read_req client index subindex)) h rest =
    ground arith
handle-Balanced await_dl_isdu_cnf c al (request (write_req client index subindex len bytes)) h
      rest =
    ground arith
handle-Balanced build_dl_service c al i h rest = absurd rest
handle-Balanced s c al (readparam_cnf value stat) h rest = ground arith
handle-Balanced s c al (writeparam_cnf stat) h rest = ground arith
handle-Balanced s c al (isdu_response response len qualifier stat) h rest = ground arith
handle-Balanced s c al (isdu_cnf qualifier stat) h rest = ground arith
handle-Balanced s c al abort h rest = ground arith

answers_to-append :
    (c : ℕ) (xs ys : List AlCall) → answers_to c (xs ++ ys) ≡ answers_to c xs + answers_to c ys
unfolding answers_to
answers_to-append c [] ys = omega arith
answers_to-append c (x ∷ xs) ys = omega (arith, answers_to-append c xs ys)

asserts-append : (xs ys : List AlCall) → asserts (xs ++ ys) ≡ asserts xs + asserts ys
unfolding asserts
asserts-append [] ys = omega arith
asserts-append (x ∷ xs) ys = omega (arith, asserts-append xs ys)

run_of :
    (P : Al → List AlCall → Type 0) (m : Run)
    → After P m
    → (d : Al) × (calls : List AlCall) × (m ≡ some (d, calls)) × P d calls
run_of P none h = absurd h
run_of P (some (d, calls)) h = (d, calls, refl, h)

-- A job's calls before those of the jobs that follow it.
pub handle_all-cons :
    (al d d' : Al) (i : Input) (inputs : List Input) (calls more : List AlCall)
    → handle al i ≡ some (d, calls)
    → handle_all d inputs ≡ some (d', more)
    → handle_all al (i ∷ inputs) ≡ some (d', calls ++ more)
unfolding handle_all
handle_all-cons al d d' i inputs calls more h k = rw (h, k)

-- From any state between jobs, and over any sequence of jobs: the jobs are handled to their end,
-- no assertion fails, and each client is called exactly as often as it made requests, where a
-- request that waits at the start counts as made and one that waits for the data link layer at the
-- end as still open. Aborts, refusals and confirmations out of place are among the jobs.
pub answers-requests_of :
    (c : ℕ) (inputs : List Input) (al : Al)
    → IsResting al.od_state
    → (d : Al) × (calls : List AlCall) × (handle_all al inputs ≡ some (d, calls))
      × IsResting d.od_state
      × (asserts calls ≡ 0)
      × (answers_to c calls + waiting_of c d.od_state d.service
          ≡ requests_of c inputs + waiting_of c al.od_state al.service)
unfolding handle_all answers_to asserts requests_of
answers-requests_of c [] al rest = (al, [], refl, rest, refl, omega arith)
answers-requests_of c (i ∷ inputs) al rest =
    let (d, calls, here, (kept, sound, sum)) =
      run_of (Balanced c (is_request_of c i + waiting_of c al.od_state al.service)) _
        (handle-Balanced al.od_state c al i refl rest) in
    let (d', more, later, kept', sound', sum') = answers-requests_of c inputs d kept in
    (
      d',
      calls ++ more,
      handle_all-cons al d d' i inputs calls more here later,
      kept',
      omega (arith, asserts-append calls more),
      omega (arith, answers_to-append c calls more),
    )
