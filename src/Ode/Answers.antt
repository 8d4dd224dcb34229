-- ===== src/Ode/Answers.antt =====
-- ilink/iolink_ode.c: what a client is answered over any sequence of jobs.
use normans_fork.Prelude.{
  ℕ, ◌+◌, ◌≤◌, ◌≡◌, refl, true, ◌||◌, none, some, List, [], ◌∷◌, ◌++◌, append-nil, arith,
}
use normans_fork.Types.{Call, smi_cnf, smi_void_cnf, smi_job_error, assert_failed}
use normans_fork.Ode.{State, inactive, od_active, od_blocked, SmiReq, Ode}
use normans_fork.Ode.Actions.{
  ode_smi_od_err, ode_al_read_req, ode_al_write_req, is_read, is_write, ode_smi_rw, ode_smi_done,
  act, transitions, find_transition, Run, event_loop, iolink_ode_event,
}
use normans_fork.Ode.Callbacks.{
  take_reply, ode_read_cnf_cb, ode_write_cnf_cb, rw_req_in, smi_rw_req_cb, Input, start, stop,
  request, read_cnf, write_cnf, handle, handle_all,
}

-- One for a call that answers the client.
unfoldable pub is_answer : Call → ℕ
is_answer (smi_cnf a b c d e) = 1
is_answer (smi_void_cnf a) = 1
is_answer (smi_job_error a b c) = 1
is_answer _ = 0

unfoldable pub answers : List Call → ℕ
answers [] = 0
answers (c ∷ calls) = is_answer c + answers calls

-- One for an assertion of the source that fails.
unfoldable pub is_assert : Call → ℕ
is_assert assert_failed = 1
is_assert _ = 0

unfoldable pub asserts : List Call → ℕ
asserts [] = 0
asserts (c ∷ calls) = is_assert c + asserts calls

unfoldable pub is_request : Input → ℕ
is_request (request req) = 1
is_request _ = 0

unfoldable pub requests : List Input → ℕ
requests [] = 0
requests (i ∷ inputs) = is_request i + requests inputs

-- One where a request waits for the reply of the device.
unfoldable pub waiting : State → ℕ
waiting od_blocked = 1
waiting _ = 0

-- One where a stop drops the request that waits.
unfoldable pub dropped : State → Input → ℕ
dropped od_blocked stop = 1
dropped _ _ = 0

unfoldable pub is_stop : Input → ℕ
is_stop stop = 1
is_stop _ = 0

unfoldable pub stops : List Input → ℕ
stops [] = 0
stops (i ∷ inputs) = is_stop i + stops inputs

-- While it waits, the request is a read or a write.
unfoldable pub IsServed : State → SmiReq → Type 0
IsServed od_blocked req = (is_read req || is_write req) ≡ true
IsServed _ req = Unit

-- What holds of the state and the calls that a handler leaves.
abbrev pub After : (Ode → List Call → Type 0) → Run → Type 0
After P none = ⊥
After P (some (d, calls)) = P d calls

abbrev Balanced : ℕ → ℕ → Ode → List Call → Type 0
Balanced lost asked d calls =
    IsServed d.state d.smi_req
    × (asserts calls ≡ 0)
    × (answers calls + waiting d.state + lost ≡ asked)

handle-Balanced :
    (s : State) (ode : Ode) (i : Input)
    → ode.state ≡ s
    → IsServed s ode.smi_req
    → After (Balanced (dropped s i) (is_request i + waiting s)) (handle ode i)
unfolding handle ode_read_cnf_cb ode_write_cnf_cb smi_rw_req_cb rw_req_in iolink_ode_event
    event_loop find_transition transitions act ode_smi_od_err ode_smi_rw ode_smi_done
    ode_al_read_req ode_al_write_req take_reply IsServed answers is_answer asserts is_assert waiting
    dropped is_request
handle-Balanced inactive ode start h served = ground arith
handle-Balanced inactive ode stop h served = ground arith
handle-Balanced inactive ode (request req) h served = ground arith
handle-Balanced inactive ode (read_cnf r) h served = ground arith
handle-Balanced inactive ode (write_cnf e) h served = ground arith
handle-Balanced od_active ode start h served = ground arith
handle-Balanced od_active ode stop h served = ground arith
handle-Balanced od_active ode (request req) h served = ground arith
handle-Balanced od_active ode (read_cnf r) h served = ground arith
handle-Balanced od_active ode (write_cnf e) h served = ground arith
handle-Balanced od_blocked ode start h served = ground arith
handle-Balanced od_blocked ode stop h served = ground arith
handle-Balanced od_blocked ode (request req) h served = ground arith
handle-Balanced od_blocked ode (read_cnf r) h served = ground arith
handle-Balanced od_blocked ode (write_cnf e) h served = ground arith

answers-append : (xs ys : List Call) → answers (xs ++ ys) ≡ answers xs + answers ys
unfolding answers
answers-append [] ys = omega arith
answers-append (x ∷ xs) ys = omega (arith, answers-append xs ys)

asserts-append : (xs ys : List Call) → asserts (xs ++ ys) ≡ asserts xs + asserts ys
unfolding asserts
asserts-append [] ys = omega arith
asserts-append (x ∷ xs) ys = omega (arith, asserts-append xs ys)

dropped-is_stop : (s : State) (i : Input) → dropped s i ≤ is_stop i
unfolding dropped is_stop
dropped-is_stop inactive i = omega arith
dropped-is_stop od_active i = omega arith
dropped-is_stop od_blocked stop = omega arith
dropped-is_stop od_blocked _ = omega arith

run_of :
    (P : Ode → List Call → Type 0) (m : Run)
    → After P m
    → (d : Ode) × (calls : List Call) × (m ≡ some (d, calls)) × P d calls
run_of P none h = absurd h
run_of P (some (d, calls)) h = (d, calls, refl, h)

-- A job's calls before those of the jobs that follow it.
pub handle_all-cons :
    (ode d d' : Ode) (i : Input) (inputs : List Input) (calls more : List Call)
    → handle ode i ≡ some (d, calls)
    → handle_all d inputs ≡ some (d', more)
    → handle_all ode (i ∷ inputs) ≡ some (d', calls ++ more)
unfolding handle_all
handle_all-cons ode d d' i inputs calls more h k = rw (h, k)

-- Two jobs one after the other.
pub handle_two :
    (ode d d' : Ode) (i j : Input) (calls more : List Call)
    → handle ode i ≡ some (d, calls)
    → handle d j ≡ some (d', more)
    → handle_all ode (i ∷ j ∷ []) ≡ some (d', calls ++ more)
unfolding handle_all
handle_two ode d d' i j calls more h k =
    handle_all-cons ode d d' i (j ∷ []) calls more h (rw (k, append-nil more))

-- From any state in which a request that waits is a read or a write, and over any sequence of
-- jobs: the jobs are handled to their end, no assertion fails, and what waits at the end is again
-- a read or a write. The client gets at most one answer for each request, and all of them but for
-- one at most at each stop, where a request that waits at the start counts as made and one that
-- waits at the end as still open.
pub answers-requests :
    (inputs : List Input) (ode : Ode)
    → IsServed ode.state ode.smi_req
    → (d : Ode) × (calls : List Call) × (handle_all ode inputs ≡ some (d, calls))
      × IsServed d.state d.smi_req
      × (asserts calls ≡ 0)
      × (answers calls + waiting d.state ≤ requests inputs + waiting ode.state)
      × (requests inputs + waiting ode.state ≤ answers calls + waiting d.state + stops inputs)
unfolding handle_all answers asserts requests stops
answers-requests [] ode served = (ode, [], refl, served, refl, omega arith, omega arith)
answers-requests (i ∷ inputs) ode served =
    let (d, calls, here, (kept, sound, sum)) =
      run_of (Balanced (dropped ode.state i) (is_request i + waiting ode.state)) _
        (handle-Balanced ode.state ode i refl served) in
    let (d', more, rest, kept', sound', low, high) = answers-requests inputs d kept in
    (
      d',
      calls ++ more,
      handle_all-cons ode d d' i inputs calls more here rest,
      kept',
      omega (arith, asserts-append calls more),
      omega (arith, answers-append calls more),
      omega (arith, answers-append calls more, dropped-is_stop ode.state i),
    )
