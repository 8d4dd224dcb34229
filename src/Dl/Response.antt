-- ===== src/Dl/Response.antt =====
-- ilink/iolink_dl.c: the response of a device, put together from its messages.
use mathlib.Core.Path.{subst}
use normans_fork.Prelude.{
  ℕ, suc, ◌+◌, ◌-◌, ◌*◌, ◌%◌, ◌≤◌, ◌<◌, ◌≡◌, sym, ap, ◌∙◌, false, List, [], ◌∷◌, ◌++◌, arith,
  length, Bytes, bytes_at,
}
use normans_fork.Dl.{
  no_trigger, Channel, channel_isdu, Dl, DlCall, od_read, isdu_transport_cnf, read_param_cnf,
  write_param_cnf, Step,
}
use normans_fork.Dl.Isdu.{isdu_response5, isdu_h_sm_in, isdu_h_sm}
use normans_fork.Dl.Inputs.{od_message, Input, master, device, handle, handle_all}
use normans_fork.Prelude.Xor.{xor_from}
use normans_fork.Dl.Segments.{segments, segments-le}
use normans_fork.Dl.Failing.{isdu_timer_elapsed}
use normans_fork.Dl.Answer.{IsHeader, IsAnswer, Agrees, message, IsAnswered, IsAnswer-nibble}
use normans_fork.Dl.Stored.{
  IsReceiving, stored, device_next, GoesOn, goes_on, is_answered, next_stored,
}
use normans_fork.Dl.First.{IsWaiting, asked_first, told_first}
use normans_fork.Types.{isdu_max_size}

-- The master's message while a response is under way.
asked_next :
    (dl : Dl) (k w now : ℕ)
    → IsReceiving dl k w
    → IsReceiving (handle dl (master now)).0 k w
      × ((handle dl (master now)).0.isdu_data ≡ dl.isdu_data)
      × ((handle dl (master now)).1 ≡ od_read channel_isdu (k % 16) w ∷ [])
unfolding handle od_message isdu_h_sm isdu_h_sm_in isdu_response5
asked_next dl k w now (a, b, c, d, e) = ground arith

-- The calls that answer the application layer.
unfoldable pub answers : List DlCall → List DlCall
answers [] = []
answers (isdu_transport_cnf pointer len qualifier errinfo ∷ calls) =
    isdu_transport_cnf pointer len qualifier errinfo ∷ answers calls
answers (read_param_cnf value errinfo ∷ calls) = read_param_cnf value errinfo ∷ answers calls
answers (write_param_cnf errinfo ∷ calls) = write_param_cnf errinfo ∷ answers calls
answers (_ ∷ calls) = answers calls

-- The messages of the response from the `k`th on, each asked for by the master: when it asks, and
-- when the device replies.
unfoldable pub receive : Bytes → (w k : ℕ) → List (ℕ × ℕ) → List Input
receive resp w k [] = []
receive resp w k ((asked, told) ∷ rounds) =
    master asked ∷ device told (message resp w k) ∷ receive resp w (k + 1) rounds

-- A response of which `k` messages have come.
abbrev HasBegun : Dl → (k w : ℕ) → Bytes → Type 0
HasBegun d k w resp = IsReceiving d k w × Agrees d.isdu_data resp (k * w)

begun-asked :
    (dl : Dl) (resp : Bytes) (k w now : ℕ)
    → HasBegun dl k w resp
    → HasBegun (handle dl (master now)).0 k w resp
      × ((handle dl (master now)).1 ≡ od_read channel_isdu (k % 16) w ∷ [])
begun-asked dl resp k w now (under, agrees) =
    let (still, same, call) = asked_next dl k w now under in
    ((still, subst (λ (m : Bytes). Agrees m resp (k * w)) (sym same) agrees), call)

begun-told :
    (dl : Dl) (resp : Bytes) (k w n offset service now : ℕ)
    → HasBegun dl k w resp
    → IsHeader resp n offset service
    → 2 ≤ k * w
    → 1 ≤ w
    → k + 1 < segments n w
    → GoesOn (handle dl (device now (message resp w k))) (k + 1) w resp
begun-told dl resp k w n offset service now (under, agrees) header begun pos more =
    let few = segments-le w n pos (omega arith) in
    subst (λ (s : Step). GoesOn s (k + 1) w resp)
      (sym (device_next dl k w now (message resp w k) under))
      (goes_on (stored (message resp w k) dl) resp (k + 1) w n
        (next_stored dl resp k w n offset service under agrees header begun pos (omega arith)) more)

begun-last :
    (dl : Dl) (resp : Bytes) (k w n offset service now : ℕ)
    → HasBegun dl k w resp
    → IsHeader resp n offset service
    → xor_from 0 (bytes_at resp 0 n) ≡ 0
    → service < 16
    → 2 ≤ k * w
    → 1 ≤ w
    → k + 1 ≡ segments n w
    → IsAnswered (handle dl (device now (message resp w k))) resp offset (n - (offset + 1)) service
begun-last dl resp k w n offset service now (under, agrees) header checked nibble begun pos done =
    let few = segments-le w n pos (omega arith) in
    subst (λ (s : Step). IsAnswered s resp offset (n - (offset + 1)) service)
      (sym (device_next dl k w now (message resp w k) under))
      (is_answered (stored (message resp w k) dl) resp (k + 1) w n offset service
        (next_stored dl resp k w n offset service under agrees header begun pos (omega arith)) done
        pos header checked nibble)

-- A handler's last state, and its answers.
abbrev pub answered : Step → Step
answered (d, calls) = (d, answers calls)

-- A job that answers nothing.
answered-cons :
    (dl : Dl) (i : Input) (inputs : List Input) (resp : Bytes) (offset len service : ℕ)
    → ((rest : List DlCall) → answers ((handle dl i).1 ++ rest) ≡ answers rest)
    → IsAnswered (answered (handle_all (handle dl i).0 inputs)) resp offset len service
    → IsAnswered (answered (handle_all dl (i ∷ inputs))) resp offset len service
unfolding handle_all
answered-cons dl i inputs resp offset len service silent (state, cmd, p, same, calls) =
    (state, cmd, p, same, silent (handle_all (handle dl i).0 inputs).1 ∙ calls)

pub answers-read :
    (calls rest : List DlCall) (c : Channel) (address len : ℕ)
    → calls ≡ od_read c address len ∷ []
    → answers (calls ++ rest) ≡ answers rest
unfolding answers
answers-read calls rest c address len h = rw h

pub answers-none : (calls rest : List DlCall) → calls ≡ [] → answers (calls ++ rest) ≡ answers rest
answers-none calls rest h = rw h

-- The job that answers, as the last.
answered-last :
    (dl : Dl) (i : Input) (resp : Bytes) (offset len service : ℕ)
    → IsAnswered (handle dl i) resp offset len service
    → IsAnswered (answered (handle_all dl (i ∷ []))) resp offset len service
unfolding handle_all answers
answered-last dl i resp offset len service (state, cmd, p, same, calls) =
    (state, cmd, p, same, rw calls)

receiving :
    (rounds : List (ℕ × ℕ)) (dl : Dl) (resp : Bytes) (k w n offset service : ℕ)
    → HasBegun dl k w resp
    → IsHeader resp n offset service
    → xor_from 0 (bytes_at resp 0 n) ≡ 0
    → service < 16
    → 2 ≤ k * w
    → 1 ≤ w
    → segments n w ≡ k + length rounds
    → 1 ≤ length rounds
    → IsAnswered
        (answered (handle_all dl (receive resp w k rounds)))
        resp
        offset
        (n - (offset + 1))
        service
unfolding receive
receiving [] dl resp k w n offset service under header checked nibble begun pos count some_left =
    absurd (omega arith)
receiving ((asked, told) ∷ []) dl resp k w n offset service under header checked nibble begun pos
      count some_left =
    let (still, call) = begun-asked dl resp k w asked under in
    answered-cons dl (master asked) _ resp offset _ service (λ rest. answers-read _ rest _ _ _ call)
      (answered-last (handle dl (master asked)).0 _ resp offset _ service (
        begun-last _ resp k w n offset service told still header checked nibble begun pos
          (omega arith)))
receiving ((asked, told) ∷ r ∷ rounds) dl resp k w n offset service under header checked nibble
      begun pos count some_left =
    let (still, call) = begun-asked dl resp k w asked under in
    let (next, agrees, silent) =
      begun-told (handle dl (master asked)).0 resp k w n offset service told still header begun pos
        (omega arith) in
    let step_on : (k + 1) * w ≡ k * w + w = grind arith in
    answered-cons dl (master asked) _ resp offset _ service (λ rest. answers-read _ rest _ _ _ call)
      (answered-cons (handle dl (master asked)).0 (device told (message resp w k)) _ resp offset _
        service (λ rest. answers-none _ rest silent)
        (receiving (r ∷ rounds) _ resp (k + 1) w n offset service (next, agrees) header checked
          nibble (omega arith) pos (omega arith) (omega arith)))

-- The device's messages from the first on.
from_first :
    (rounds : List (ℕ × ℕ)) (dl : Dl) (resp : Bytes) (w n offset service told : ℕ)
    → IsWaiting dl w
    → 2 ≤ w
    → isdu_timer_elapsed told dl ≡ false
    → IsHeader resp n offset service
    → IsAnswer dl.data_dir_read service
    → xor_from 0 (bytes_at resp 0 n) ≡ 0
    → service < 16
    → segments n w ≡ suc (length rounds)
    → IsAnswered
        (answered (handle_all dl (device told (message resp w 0) ∷ receive resp w 1 rounds)))
        resp
        offset
        (n - (offset + 1))
        service
unfolding receive
from_first [] dl resp w n offset service told waiting wide early header answer checked nibble
      count =
    let (has, step) = told_first dl resp w n offset service told waiting wide early header answer in
    answered-last dl _ resp offset _ service (
      subst (λ (s : Step). IsAnswered s resp offset (n - (offset + 1)) service) (sym step)
        (is_answered _ resp 1 w n offset service has (sym count) (omega arith) header checked
          nibble))
from_first (r ∷ rounds) dl resp w n offset service told waiting wide early header answer checked
      nibble count =
    let (has, step) = told_first dl resp w n offset service told waiting wide early header answer in
    let (under, agrees, silent) =
      subst (λ (s : Step). GoesOn s 1 w resp) (sym step) (goes_on _ resp 1 w n has (omega arith)) in
    answered-cons dl (device told (message resp w 0)) _ resp offset _ service
      (λ rest. answers-none _ rest silent)
      (receiving (r ∷ rounds) _ resp 1 w n offset service (under, agrees) header checked nibble
        (omega arith) (omega arith) (omega arith) (omega arith))

-- The response of a device, of `n` bytes, is put together from its messages of `w` bytes, at least two, whatever
-- the times between them, as long as the first comes before the timer has elapsed: it is confirmed
-- once, without an error, with the service and the data that the device has sent, and the handler is
-- idle again. The response has the header and the service of an answer to the request, its checksum
-- is right, and its messages fit the store of an ISDU.
pub response_transfer :
    (dl : Dl) (resp : Bytes) (w n offset service asked told : ℕ) (rounds : List (ℕ × ℕ))
    → IsWaiting dl w
    → 2 ≤ w
    → isdu_timer_elapsed asked dl ≡ false
    → isdu_timer_elapsed told dl ≡ false
    → IsHeader resp n offset service
    → IsAnswer dl.data_dir_read service
    → xor_from 0 (bytes_at resp 0 n) ≡ 0
    → w * segments n w ≤ isdu_max_size
    → segments n w ≡ suc (length rounds)
    → IsAnswered
        (answered (handle_all dl (receive resp w 0 ((asked, told) ∷ rounds))))
        resp
        offset
        (n - (offset + 1))
        service
unfolding receive
response_transfer dl resp w n offset service asked told rounds waiting wide early early' header
      answer checked fits count =
    let step = asked_first dl w asked waiting early in
    let nibble = IsAnswer-nibble dl.data_dir_read service answer in
    let later = device told (message resp w 0) ∷ receive resp w 1 rounds in
    answered-cons dl (master asked) later resp offset _ service
      (λ rest. answers-read _ rest _ _ _ (ap (λ (s : Step). s.1) step))
      (subst
        (λ (s : Step).
          IsAnswered (answered (handle_all s.0 later)) resp offset (n - (offset + 1)) service)
        (sym step)
        (from_first rounds (record dl { trigger = no_trigger }) resp w n offset service told waiting
          wide early' header answer checked nibble count))
