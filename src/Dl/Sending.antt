-- ===== src/Dl/Sending.antt =====
-- ilink/iolink_dl.c: the messages that carry a request, one segment after the other.
use normans_fork.Prelude.{
  ℕ, suc, ◌+◌, ◌*◌, ◌%◌, ◌≤◌, ◌<◌, ◌≡◌, sym, ap, ◌∙◌, false, List, [], ◌∷◌, ◌++◌, arith, length,
  Bytes, bytes_at,
}
use normans_fork.Dl.{isdu_request, isdu_wait, rw_isdutransport, channel_isdu, Dl, DlCall, od_write}
use normans_fork.Dl.Isdu.{isdu_request2, isdu_h_sm_in, isdu_h_sm}
use normans_fork.Dl.Inputs.{od_message, Input, master, device, handle, handle_all}
use normans_fork.Prelude.Memory.Laws.{bytes_at-add}
use normans_fork.Dl.Failing.{is_comlost}

-- The messages that follow the first segment: the device's reply to it, and for each further segment
-- a message of the master and the device's reply.
unfoldable pub further : (now : ℕ) → Bytes → List (ℕ × ℕ × Bytes) → List Input
further now rx [] = device now rx ∷ []
further now rx ((asked, told, rx') ∷ rounds) =
    device now rx ∷ master asked ∷ further told rx' rounds

-- The bytes of an ISDU that go to the device.
unfoldable pub sent : List DlCall → List ℕ
sent [] = []
sent (od_write channel_isdu address len bytes ∷ calls) = bytes ++ sent calls
sent (_ ∷ calls) = sent calls

-- A transfer under way: `k` of `total` segments are sent.
abbrev pub IsSending : Dl → (k total w : ℕ) → Bytes → Type 0
IsSending dl k total w data_of =
    (dl.state ≡ isdu_request)
    × (dl.rwcmd ≡ rw_isdutransport)
    × (is_comlost dl.mhinfo ≡ false)
    × (dl.current_isdu_seg ≡ k)
    × (dl.total_isdu_seg ≡ total)
    × (dl.od_len ≡ w)
    × (dl.isdu_data ≡ data_of)

reply_between :
    (dl : Dl) (k total w now : ℕ) (m rx : Bytes)
    → IsSending dl k total w m
    → k < total
    → IsSending (handle dl (device now rx)).0 k total w m × ((handle dl (device now rx)).1 ≡ [])
unfolding handle od_message isdu_h_sm isdu_h_sm_in isdu_request2
reply_between dl k total w now m rx (a, b, c, d, e, f, g) lt = ground arith

segment_sent :
    (dl : Dl) (k total w now : ℕ) (m : Bytes)
    → IsSending dl k total w m
    → k < 255
    → IsSending (handle dl (master now)).0 (k + 1) total w m
      × ((handle dl (master now)).1 ≡ od_write channel_isdu (k % 16) w (bytes_at m (w * k) w) ∷ [])
unfolding handle od_message isdu_h_sm isdu_h_sm_in isdu_request2
segment_sent dl k total w now m (a, b, c, d, e, f, g) lt = ground arith

last_reply :
    (dl : Dl) (k total w now : ℕ) (m rx : Bytes)
    → IsSending dl k total w m
    → total ≤ k
    → ((handle dl (device now rx)).0.state ≡ isdu_wait)
      × ((handle dl (device now rx)).0.isdu_data ≡ m)
      × ((handle dl (device now rx)).0.current_isdu_seg ≡ 0)
      × ((handle dl (device now rx)).1 ≡ [])
unfolding handle od_message isdu_h_sm isdu_h_sm_in isdu_request2
last_reply dl k total w now m rx (a, b, c, d, e, f, g) done = ground arith

-- The calls of a job before those of the jobs that follow it.
pub sent-cons :
    (dl : Dl) (i : Input) (inputs : List Input) (first later : List ℕ)
    → ((rest : List DlCall) → sent ((handle dl i).1 ++ rest) ≡ first ++ sent rest)
    → sent (handle_all (handle dl i).0 inputs).1 ≡ later
    → sent (handle_all dl (i ∷ inputs)).1 ≡ first ++ later
unfolding handle_all
sent-cons dl i inputs first later here there =
    here ((handle_all (handle dl i).0 inputs).1) ∙ ap (λ (xs : List ℕ). first ++ xs) there

sent-silent : (calls rest : List DlCall) → calls ≡ [] → sent (calls ++ rest) ≡ sent rest
sent-silent calls rest h = rw h

pub sent-write :
    (calls rest : List DlCall) (address len : ℕ) (bytes : List ℕ)
    → calls ≡ od_write channel_isdu address len bytes ∷ []
    → sent (calls ++ rest) ≡ bytes ++ sent rest
unfolding sent
sent-write calls rest address len bytes h = rw h

-- All segments from the `k`th on.
abbrev IsSent : ℕ → ℕ → ℕ → Bytes → Dl → List Input → Type 0
IsSent k n w m dl inputs =
    ((handle_all dl inputs).0.state ≡ isdu_wait)
    × ((handle_all dl inputs).0.isdu_data ≡ m)
    × ((handle_all dl inputs).0.current_isdu_seg ≡ 0)
    × (sent (handle_all dl inputs).1 ≡ bytes_at m (w * k) (w * n))

pub next_bytes :
    (m : Bytes) (k n w : ℕ)
    → bytes_at m (w * k) w ++ bytes_at m (w * (k + 1)) (w * n) ≡ bytes_at m (w * k) (w * suc n)
next_bytes m k n w =
    let after : w * (k + 1) ≡ w * k + w = grind arith in
    let all : w * suc n ≡ w + w * n = grind arith in
    rw (after, all) (sym (bytes_at-add w (w * n) m (w * k)))

pub sending :
    (rounds : List (ℕ × ℕ × Bytes)) (dl : Dl) (k total w now : ℕ) (m rx : Bytes)
    → IsSending dl k total w m
    → total ≡ k + length rounds
    → total < 256
    → IsSent k (length rounds) w m dl (further now rx rounds)
unfolding further handle_all sent bytes_at
sending [] dl k total w now m rx under sum small =
    let (state, same, start, silent) = last_reply dl k total w now m rx under (omega arith) in
    let nothing : w * 0 ≡ 0 = grind arith in
    let none_left : bytes_at m (w * k) (w * 0) ≡ [] = rw nothing in
    (state, same, start, rw (silent, none_left))
sending ((asked, told, rx') ∷ rounds) dl k total w now m rx under sum small =
    let d₁ = (handle dl (device now rx)).0 in
    let d₂ = (handle d₁ (master asked)).0 in
    let (still, silent) = reply_between dl k total w now m rx under (omega arith) in
    let (next, call) = segment_sent d₁ k total w asked m still (omega arith) in
    let (state, same, start, later) =
      sending rounds d₂ (k + 1) total w told m rx' next (omega arith) small in
    (
      state,
      same,
      start,
      sent-cons dl (device now rx) (master asked ∷ further told rx' rounds) [] _
            (λ rest. sent-silent _ rest silent)
            (sent-cons d₁ (master asked) (further told rx' rounds) _ _
              (λ rest. sent-write _ rest _ _ _ call) later)
          ∙ next_bytes m k (length rounds) w,
    )
