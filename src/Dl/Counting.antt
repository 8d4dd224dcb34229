-- ===== src/Dl/Counting.antt =====
-- ilink/iolink_dl.c: what is counted of requests for an ISDU and of their confirmations.
use normans_fork.Prelude.{
  ℕ, ◌+◌, ◌≤◌, ◌<◌, ◌≡◌, ◌≢◌, ◌||◌, not, List, [], ◌∷◌, arith, ltb, ◌==◌, if◌then◌else◌,
}
use normans_fork.Dl.{
  IsduState, inactive, idle, ih_active, RwCmd, rw_isdutransport, Dl, DlCall, isdu_transport_cnf,
  Step,
}
use normans_fork.Dl.Transport.{
  ValueList, is_reading, total_of, lay_out, request_laid_out, is_silent, is_idle,
}
use normans_fork.Dl.Encoded.{total_of_lem}
use normans_fork.Dl.Inputs.{Input, transport, conf, mode_change}
use normans_fork.Dl.Header.{get_isdu_total_segments}
use normans_fork.Dl.Segments.{segments-pos, segments-le}

-- One for a confirmation of an ISDU.
unfoldable pub is_confirmation : DlCall → ℕ
is_confirmation (isdu_transport_cnf response len qualifier stat) = 1
is_confirmation _ = 0

unfoldable pub confirmations : List DlCall → ℕ
confirmations [] = 0
confirmations (x ∷ calls) = is_confirmation x + confirmations calls

unfoldable pub is_request : Input → ℕ
is_request (transport v) = 1
is_request _ = 0

unfoldable pub requests : List Input → ℕ
requests [] = 0
requests (i ∷ inputs) = is_request i + requests inputs

abbrev is_some_number : ℕ → ℕ
is_some_number n = if n == 0 then 0 else 1

-- One where a request has been accepted and is not yet confirmed.
unfoldable pub pending : IsduState → (total_isdu_seg : ℕ) → ℕ
pending inactive n = 0
pending idle n = is_some_number n
pending _ n = 1

-- The handler is active, and a request that is queued or under way has segments.
unfoldable pub IsCounted : IsduState → RwCmd → (total_isdu_seg : ℕ) → Type 0
IsCounted inactive c n = ⊥
IsCounted idle rw_isdutransport n = n ≢ 0
IsCounted idle _ n = Unit
IsCounted _ c n = n ≢ 0

-- The handler stays active, on-request data have a length, and the ISDU of a request fits a byte.
unfoldable pub IsInRange : Input → Type 0
IsInRange (transport v) = v.len + 6 < 256
IsInRange (mode_change mode mhinfo od_len) = 1 ≤ od_len
IsInRange (conf cmd now) = ⊥
IsInRange _ = Unit

-- One where a request takes the place of one that is queued.
unfoldable pub replaced : Dl → Input → ℕ
replaced dl (transport v) =
    if is_silent dl.mode || ltb v.index 2 || not (is_idle dl.state)
    then 0
    else is_some_number dl.total_isdu_seg
replaced dl i = 0

segments_ne :
    (dl : Dl)
    → 1 ≤ dl.od_len
    → 1 ≤ dl.total_isdu_len
    → dl.total_isdu_len < 256
    → get_isdu_total_segments dl ≢ 0
unfolding get_isdu_total_segments
segments_ne dl h k k' =
    let low = segments-pos dl.od_len dl.total_isdu_len h k in
    let high = segments-le dl.od_len dl.total_isdu_len h k' in omega arith

laid_out_segments :
    (v : ValueList) (dl : Dl)
    → v.len + 6 < 256
    → 1 ≤ dl.od_len
    → (request_laid_out v dl).total_isdu_seg ≢ 0
unfolding request_laid_out
laid_out_segments v dl small pos =
    segments_ne
      (record dl {
        isdu_data = lay_out v dl.isdu_data;
        data_dir_read = is_reading v.readwrite;
        total_isdu_len = total_of v;
        current_isdu_seg = 0;
        rwcmd = rw_isdutransport;
      })
      pos (omega (arith, total_of_lem v small)) (omega arith)

pub request_laid_out-IsCounted :
    (v : ValueList) (dl : Dl)
    → dl.state ≡ idle
    → dl.ihcmd ≡ ih_active
    → 1 ≤ dl.od_len
    → v.len + 6 < 256
    → let d = request_laid_out v dl in
      (d.ihcmd ≡ ih_active)
      × IsCounted d.state d.rwcmd d.total_isdu_seg
      × (1 ≤ d.od_len)
      × (pending d.state d.total_isdu_seg ≡ 1)
unfolding request_laid_out IsCounted pending get_isdu_total_segments
request_laid_out-IsCounted v dl h active pos small =
    let some_segments = laid_out_segments v dl small pos in
    rw h (active, some_segments, pos, ground arith)

-- What holds of a step.
abbrev pub Balanced : ℕ → ℕ → Step → Type 0
Balanced before asked (d, calls) =
    (d.ihcmd ≡ ih_active)
    × IsCounted d.state d.rwcmd d.total_isdu_seg
    × (1 ≤ d.od_len)
    × (confirmations calls + pending d.state d.total_isdu_seg + before ≡ asked)
