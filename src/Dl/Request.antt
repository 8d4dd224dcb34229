-- ===== src/Dl/Request.antt =====
-- ilink/iolink_dl.c: the segments in which the ISDU of a request is sent.
use native.Mathlib.Nat.{zero-add}
use mathlib.Core.Path.{subst}
use normans_fork.Prelude.{
  ℕ, suc, ◌+◌, ◌-◌, ◌*◌, ◌≤◌, ◌<◌, ◌≡◌, refl, sym, ap, ◌∙◌, false, some, List, [], ◌∷◌, ◌++◌, arith,
  u8, length, Bytes, bytes_at,
}
use normans_fork.Dl.{idle, isdu_wait, ih_active, channel_isdu, Dl, DlCall, od_write}
use normans_fork.Dl.Isdu.{flowctrl_start, idle_message, idle1, isdu_h_sm_in, isdu_h_sm}
use normans_fork.Dl.Inputs.{od_message, transport, master, handle, handle_all}
use normans_fork.Prelude.Memory.Laws.{bytes_at-add, length-bytes_at}
use normans_fork.Dl.Header.{get_isdu_total_segments}
use normans_fork.Dl.Transport.{
  ValueList, total_of, lay_out, request_laid_out, is_silent, dl_isdu_transport_req,
}
use normans_fork.Dl.Segments.{segments, segments-le, segments-hold, segments-tight}
use normans_fork.Dl.Format.{decode_request}
use normans_fork.Dl.Encoded.{encoded, lay_out-bytes, total_of_lem, meant, decode_request-encoded}
use normans_fork.Dl.Failing.{is_comlost}
use normans_fork.Dl.Sending.{further, sent, IsSending, sent-cons, sent-write, next_bytes, sending}
use normans_fork.Types.{isdu_max_size}

-- A request that is laid out is ready to be sent.
abbrev IsReady : Dl → ValueList → Type 0
IsReady dl v =
    (dl.state ≡ idle)
    × (dl.ihcmd ≡ ih_active)
    × (is_comlost dl.mhinfo ≡ false)
    × (is_silent dl.mode ≡ false)
    × (2 ≤ v.index)
    × (v.len + 6 < 256)

laid_out :
    (dl : Dl) (v : ValueList) → IsReady dl v → (handle dl (transport v)).0 ≡ request_laid_out v dl
unfolding handle dl_isdu_transport_req
laid_out dl v (h, active, present, heard, index, small) = ground arith

laid_out-sent :
    (dl : Dl) (v : ValueList) (rest : List DlCall)
    → IsReady dl v
    → sent ((handle dl (transport v)).1 ++ rest) ≡ sent rest
unfolding handle dl_isdu_transport_req sent
laid_out-sent dl v rest (h, active, present, heard, index, small) = ground arith

first_sent :
    (dl : Dl) (v : ValueList) (now : ℕ)
    → IsReady dl v
    → 1 ≤ dl.od_len
    → let d = (handle (request_laid_out v dl) (master now)).0 in
      IsSending d 1 (segments (total_of v) dl.od_len) dl.od_len (lay_out v dl.isdu_data)
      × ((handle (request_laid_out v dl) (master now)).1
          ≡ od_write channel_isdu flowctrl_start dl.od_len
              (bytes_at (lay_out v dl.isdu_data) 0 dl.od_len)
            ∷ [])
unfolding request_laid_out get_isdu_total_segments handle od_message isdu_h_sm isdu_h_sm_in idle1
    idle_message
first_sent dl v now (h, active, present, heard, index, small) pos =
    let few = segments-le dl.od_len (total_of v) pos (omega arith) in
    let byte : u8 (segments (total_of v) dl.od_len) ≡ segments (total_of v) dl.od_len =
      omega arith in
    rw h (rw active ((refl, refl, present, refl, byte, refl, refl), refl))

-- What the whole transfer of a laid-out request sends.
laid_out_transfer :
    (dl : Dl) (v : ValueList) (first told : ℕ) (rx : Bytes) (rounds : List (ℕ × ℕ × Bytes))
    → IsReady dl v
    → 1 ≤ dl.od_len
    → segments (total_of v) dl.od_len ≡ suc (length rounds)
    → let (d, calls) = handle_all (request_laid_out v dl) (master first ∷ further told rx rounds) in
      (d.state ≡ isdu_wait)
      × (d.current_isdu_seg ≡ 0)
      × (sent calls
          ≡ bytes_at (lay_out v dl.isdu_data) 0 (dl.od_len * segments (total_of v) dl.od_len))
unfolding handle_all
laid_out_transfer dl v first told rx rounds ready pos count =
    let d₀ = request_laid_out v dl in
    let w = dl.od_len in
    let m = lay_out v dl.isdu_data in
    let (under, call) = first_sent dl v first ready pos in
    let few = segments-le w (total_of v) pos (omega arith) in
    let (state, same, start, later) =
      sending rounds ((handle d₀ (master first)).0) 1 (segments (total_of v) w) w told m rx under
        (omega arith) (omega arith) in
    let zero_first : w * 0 ≡ 0 = grind arith in
    (
      state,
      start,
      sent-cons d₀ (master first) (further told rx rounds) _ _
            (λ rest. sent-write _ rest _ _ _ call) later
          ∙ rw count (rw zero_first at (next_bytes m 0 (length rounds) w)),
    )

-- The bytes of the ISDU, and what is left of the last message.
isdu_and_padding :
    (v : ValueList) (m : Bytes) (w : ℕ)
    → v.len + 6 < 256
    → 1 ≤ w
    → let padding = w * segments (total_of v) w - total_of v in
      (bytes_at (lay_out v m) 0 (w * segments (total_of v) w)
        ≡ encoded v ++ bytes_at (lay_out v m) (total_of v) padding)
      × (length (bytes_at (lay_out v m) (total_of v) padding) < w)
isdu_and_padding v m w small pos =
    let total = total_of_lem v small in
    let hold = segments-hold w (total_of v) pos in
    let tight = segments-tight w (total_of v) pos in
    let padding = w * segments (total_of v) w - total_of v in
    let split : w * segments (total_of v) w ≡ total_of v + padding = omega arith in
    let isdu = rw (sym total) at (lay_out-bytes v m (omega arith)) in
    (
      ap (bytes_at (lay_out v m) 0) split
          ∙ rw zero-add at (bytes_at-add (total_of v) padding (lay_out v m) 0)
          ∙ ap (λ (xs : List ℕ). xs ++ bytes_at (lay_out v m) (total_of v) padding) isdu,
      omega (arith, length-bytes_at padding (lay_out v m) (total_of v)),
    )

-- A request that DL_ISDUTransport_req accepts is sent to the device in as many messages as its ISDU
-- needs, whatever the device replies in the meantime. What is sent is the ISDU, with less than one
-- message of padding behind it, and a device that reads it by the format finds the request's direction,
-- index, subindex and data. The messages
-- that carry the ISDU lie in the store of ISDUs. Then the handler waits for the device's response.
pub request_transfer :
    (dl : Dl) (v : ValueList) (first told : ℕ) (rx : Bytes) (rounds : List (ℕ × ℕ × Bytes))
    → IsReady dl v
    → v.index < 65536
    → 1 ≤ dl.od_len
    → dl.od_len * segments (total_of v) dl.od_len ≤ isdu_max_size
    → segments (total_of v) dl.od_len ≡ suc (length rounds)
    → let (d, calls) = handle_all dl (transport v ∷ master first ∷ further told rx rounds) in
      (isdu padding : List ℕ) × (sent calls ≡ isdu ++ padding)
      × (length padding < dl.od_len)
      × (decode_request isdu ≡ some (meant v))
      × (d.state ≡ isdu_wait)
      × (d.current_isdu_seg ≡ 0)
unfolding handle_all
request_transfer dl v first told rx rounds ready fits pos inside count =
    let (h, active, present, heard, index, small) = ready in
    let (state, start, all) = laid_out_transfer dl v first told rx rounds ready pos count in
    let (bytes, rest) = isdu_and_padding v dl.isdu_data dl.od_len small pos in
    let after = laid_out dl v ready in
    let later = master first ∷ further told rx rounds in
    (
      encoded v,
      _,
      sent-cons dl (transport v) (master first ∷ further told rx rounds) [] _
            (λ calls. laid_out-sent dl v calls ready) (rw after all)
          ∙ bytes,
      rest,
      decode_request-encoded v fits small,
      subst (λ (d : Dl). (handle_all d later).0.state ≡ isdu_wait) (sym after) state,
      subst (λ (d : Dl). (handle_all d later).0.current_isdu_seg ≡ 0) (sym after) start,
    )
