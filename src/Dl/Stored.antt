-- ===== src/Dl/Stored.antt =====
-- ilink/iolink_dl.c: the messages of a response in the store of ISDUs.
use mathlib.Core.Path.{subst}
use normans_fork.Prelude.{
  ℕ, ◌+◌, ◌-◌, ◌*◌, ◌/◌, ◌≤◌, ◌<◌, ◌≡◌, refl, sym, ap, ◌∙◌, inl, inr, false, Option, none, some, [],
  ◌∷◌, arith, ltb, ltb→lt, Bool-cases, u8, Bytes, memcpy, bytes_at,
}
use normans_fork.Dl.{isdu_response, rw_isdutransport, no_trigger, device_message, Dl, Step}
use normans_fork.Dl.Isdu.{
  reception_complete, take_segment, take_total, or_wait_for_more, isdu_response5, isdu_h_sm_in,
  isdu_h_sm,
}
use normans_fork.Prelude.Memory.Laws.{memcpy_below, memcpy_inside, bytes_at-shift}
use normans_fork.Dl.Header.{get_isdu_total_len, get_isdu_response_data, get_isdu_total_segments}
use normans_fork.Dl.Inputs.{od_message, device, handle}
use normans_fork.Prelude.Xor.{xor_from}
use normans_fork.Dl.Segments.{segments, segments-le, segments-hold}
use normans_fork.Dl.Failing.{is_comlost}
use normans_fork.Dl.Answer.{IsHeader, Agrees, message, declared, response_cnf_lem, IsAnswered}

-- A response under way: `k` of its messages of `w` bytes have come.
abbrev pub IsReceiving : Dl → (k w : ℕ) → Type 0
IsReceiving dl k w =
    (dl.state ≡ isdu_response)
    × (dl.rwcmd ≡ rw_isdutransport)
    × (is_comlost dl.mhinfo ≡ false)
    × (dl.current_isdu_seg ≡ k)
    × (dl.od_len ≡ w)

pub take_segment-Agrees :
    (m resp : Bytes) (k w : ℕ)
    → Agrees m resp (k * w)
    → Agrees (memcpy m (k * w) (bytes_at (message resp w k) 0 w)) resp ((k + 1) * w)
take_segment-Agrees m resp k w h i lt = elim (Bool-cases (ltb i (k * w))) [
  | inl before ↦ let early = ltb→lt i (k * w) before in memcpy_below _ m (k * w) i early ∙ h i early
  | inr after ↦
      let next : (k + 1) * w ≡ k * w + w = grind arith in
      let late : k * w ≤ i = ground arith in
      let place : i ≡ k * w + (i - k * w) = omega arith in
      ap (memcpy m (k * w) (bytes_at (message resp w k) 0 w)) place
      ∙ memcpy_inside w m (message resp w k) (k * w) 0 (i - k * w) (omega arith)
      ∙ ap resp (omega arith)
]

-- The handler when it has stored a segment of the response.
abbrev pub stored : Bytes → Dl → Dl
stored rx dl =
    let d = take_segment (take_total (record dl { rxbuffer = rx; trigger = device_message })) in
    record d { current_isdu_seg = u8 (d.current_isdu_seg + 1) }

pub device_next :
    (dl : Dl) (k w now : ℕ) (rx : Bytes)
    → IsReceiving dl k w
    → handle dl (device now rx) ≡ (
      record (or_wait_for_more (stored rx dl)).0 { trigger = no_trigger },
      (or_wait_for_more (stored rx dl)).1,
    )
unfolding handle od_message isdu_h_sm isdu_h_sm_in isdu_response5
device_next dl k w now rx (a, b, c, d, e) = ground arith

-- What is stored of a segment that belongs to a response of `n` bytes.
stored_lem :
    (dl : Dl) (k w n : ℕ) (rx : Bytes)
    → IsReceiving dl k w
    → get_isdu_total_len (record dl { rxbuffer = rx; trigger = device_message }) ≡ some n
    → n < 256
    → 1 ≤ w
    → k < 255
    → ((stored rx dl).total_isdu_len ≡ n)
      × ((stored rx dl).total_isdu_seg ≡ segments n w)
      × ((stored rx dl).current_isdu_seg ≡ k + 1)
      × ((stored rx dl).isdu_data ≡ memcpy dl.isdu_data (k * w) (bytes_at rx 0 w))
unfolding get_isdu_total_segments
stored_lem dl k w n rx (a, b, c, d, e) total small pos few =
    let some_segments = segments-le w n pos small in
    let byte : u8 (segments n w) ≡ segments n w = omega arith in
    let next : u8 (k + 1) ≡ k + 1 = omega arith in
    let len = ap (λ (o : Option ℕ). elim o as (λ _. ℕ) [ none ↦ 0 | some t ↦ t ]) total in
    (
      len,
      ap (λ (t : ℕ). u8 ((t + dl.od_len - 1) / dl.od_len)) len ∙ rw e byte,
      rw d next,
      rw (d, e) refl,
    )

-- The handler has stored `k` messages, and knows how long the response is.
abbrev pub HasStored : Dl → (k w n : ℕ) → Bytes → Type 0
HasStored d k w n resp =
    (d.rwcmd ≡ rw_isdutransport)
    × (is_comlost d.mhinfo ≡ false)
    × (d.od_len ≡ w)
    × (d.current_isdu_seg ≡ k)
    × (d.total_isdu_len ≡ n)
    × (d.total_isdu_seg ≡ segments n w)
    × Agrees d.isdu_data resp (k * w)

-- The end of the branch T2 of `iolink_dl_od_h_sm_isdu1`.
abbrev pub untriggered : Step → Step
untriggered (d, calls) = (record d { trigger = no_trigger }, calls)

or_wait_for_more-wait :
    (d : Dl)
    → d.current_isdu_seg < d.total_isdu_seg
    → or_wait_for_more d ≡ (record d { state = isdu_response }, [])
unfolding or_wait_for_more
or_wait_for_more-wait d lt = ground arith

or_wait_for_more-end :
    (d : Dl) → d.total_isdu_seg ≤ d.current_isdu_seg → or_wait_for_more d ≡ reception_complete d
unfolding or_wait_for_more
or_wait_for_more-end d le = ground arith

-- What a message of the device leads to that is not the last of the response.
abbrev pub GoesOn : Step → (k w : ℕ) → Bytes → Type 0
GoesOn (d, calls) k w resp = IsReceiving d k w × Agrees d.isdu_data resp (k * w) × (calls ≡ [])

pub goes_on :
    (d : Dl) (resp : Bytes) (k w n : ℕ)
    → HasStored d k w n resp
    → k < segments n w
    → GoesOn (untriggered (or_wait_for_more d)) k w resp
goes_on d resp k w n (cmd, present, len, at, total, count, agrees) more =
    subst (λ (s : Step). GoesOn (untriggered s) k w resp)
      (sym (or_wait_for_more-wait d (omega arith))) ((refl, cmd, present, at, len), agrees, refl)

pub is_answered :
    (d : Dl) (resp : Bytes) (k w n offset service : ℕ)
    → HasStored d k w n resp
    → k ≡ segments n w
    → 1 ≤ w
    → IsHeader resp n offset service
    → xor_from 0 (bytes_at resp 0 n) ≡ 0
    → service < 16
    → IsAnswered (untriggered (or_wait_for_more d)) resp offset (n - (offset + 1)) service
unfolding reception_complete
is_answered d resp k w n offset service (cmd, present, len, at, total, count, agrees) done pos
      header checked nibble =
    let hold = segments-hold w n pos in
    let swap : k * w ≡ w * segments n w = rw done (grind arith) in
    let whole : Agrees d.isdu_data resp n = λ i lt. agrees i (omega arith) in
    let (_, start) = declared d resp n offset service header (λ i lt. whole i (omega arith)) in
    subst (λ (s : Step). IsAnswered (untriggered s) resp offset (n - (offset + 1)) service)
      (sym (or_wait_for_more-end d (omega arith)))
      (
        refl,
        refl,
        get_isdu_response_data d,
        bytes_at-shift (n - (offset + 1)) (get_isdu_response_data d) resp 0 offset offset
            (omega arith)
            (λ i le lt. ap (λ o. d.isdu_data (o + i)) start ∙ whole (offset + i) (omega arith)),
        ap (λ c. c ∷ [])
            (response_cnf_lem d resp n offset service header whole total checked nibble),
      )

pub next_stored :
    (dl : Dl) (resp : Bytes) (k w n offset service : ℕ)
    → IsReceiving dl k w
    → Agrees dl.isdu_data resp (k * w)
    → IsHeader resp n offset service
    → 2 ≤ k * w
    → 1 ≤ w
    → k < 255
    → HasStored (stored (message resp w k) dl) (k + 1) w n resp
next_stored dl resp k w n offset service under agrees header begun pos few =
    let (a, b, c, d, e) = under in
    let rx = message resp w k in
    let (total, _) =
      declared (record dl { rxbuffer = rx; trigger = device_message }) resp n offset service header
        (λ i lt. agrees i (omega arith)) in
    let (len, count, at, copied) = stored_lem dl k w n rx under total (omega arith) pos few in
    (
      b,
      c,
      e,
      at,
      len,
      count,
      subst (λ (m : Bytes). Agrees m resp ((k + 1) * w)) (sym copied)
          (take_segment-Agrees dl.isdu_data resp k w agrees),
    )
