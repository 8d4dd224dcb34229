-- ===== src/Dl/Transport.antt =====
-- ilink/iolink_dl.c: DL_ISDUTransport_req, which lays out the ISDU of a request.
use normans_fork.Prelude.{
  ℕ, ◌+◌, ◌-◌, ◌*◌, ◌/◌, ◌%◌, Bool, true, false, not, none, List, [], ◌∷◌, ltb, leb, ◌==◌,
  if◌then◌else◌, u8, length, Bytes, update, memcpy, bytes_at, zeros,
}
use normans_fork.Types.{
  IolinkError, error_none, error_comchannel_invalid, error_address_invalid, error_incorrect_data,
  no_comm, state_conflict, value_out_of_range, Direction, reading, writing, isdu_max_size,
}
use normans_fork.Dl.{
  IsduState, idle, rw_isdutransport, ModeState, mode_idle, mode_estcom, mode_preoperate, Dl, DlCall,
  isdu_transport_cnf, wake_message_handler,
}
use normans_fork.Dl.Header.{calc_chkpdu, get_isdu_total_segments}

-- IOLINK_OD_MAX_SIZE and IOLINK_ISDU_MAX_SIZE
abbrev pub od_max_size : ℕ
od_max_size = 32

-- `iolink_isdu_vl_t`; the data of a read are not used, its length is 0.
pub record ValueList : Type 0 where
  pub index : ℕ  -- uint16
  pub subindex : ℕ  -- uint8
  pub bytes : Bytes
  pub len : ℕ  -- uint8
  pub readwrite : Direction

abbrev pub is_reading : Direction → Bool
is_reading reading = true
is_reading writing = false

-- The service nibble, `iserv`.
unfoldable pub service_of : ValueList → ℕ
service_of v =
    (if is_reading v.readwrite then 8 else 0)
    + (if ltb v.index 256 then (if v.subindex == 0 then 1 else 2) else 3)

-- `overheadlen`, before a second length byte is needed.
unfoldable pub overhead : ValueList → ℕ
overhead v = if ltb v.index 256 then (if v.subindex == 0 then 3 else 4) else 5

-- Whether the length stands in the first byte.
abbrev pub is_short : ValueList → Bool
is_short v = leb v.len (15 - overhead v)

-- `total_isdu_len`
abbrev pub total_of : ValueList → ℕ
total_of v = u8 (v.len + (if is_short v then overhead v else overhead v + 1))

-- The bytes of the index and the subindex.
unfoldable pub address_bytes : ValueList → List ℕ
address_bytes v =
    if ltb 255 v.index
    then v.index / 256 % 256 ∷ v.index % 256 ∷ v.subindex ∷ []
    else if ltb 0 v.subindex
    then v.index % 256 ∷ v.subindex ∷ []
    else v.index % 256 ∷ []

-- The bytes that stand before the data, from the first byte of `isdu_data` on.
unfoldable pub head_bytes : ValueList → List ℕ
unfolding service_of overhead address_bytes
head_bytes v =
    if is_short v
    then u8 (service_of v * 16 + total_of v % 16) ∷ address_bytes v
    else u8 (service_of v * 16 + 1) ∷ total_of v ∷ address_bytes v

-- What is stored in `isdu_data`: zeros, the head, the data, the checksum, and zeros to the end. Where
-- no room is left for the last zeros, the source hands `memset` a negative length.
unfoldable pub lay_out : ValueList → Bytes → Bytes
unfolding head_bytes
lay_out v m =
    let head = head_bytes v in
    let filled =
      memcpy (memcpy (memcpy m 0 (zeros od_max_size)) 0 head) (length head)
        (bytes_at v.bytes 0 v.len) in
    let end = u8 (length head + v.len) in
    memcpy (update filled end (calc_chkpdu filled end)) (end + 1)
      (zeros (isdu_max_size - (end + 1)))

-- The request that is ready to be sent.
unfoldable pub request_laid_out : ValueList → Dl → Dl
unfolding lay_out
request_laid_out v dl =
    let filled = record dl {
      isdu_data = lay_out v dl.isdu_data;
      data_dir_read = is_reading v.readwrite;
      total_isdu_len = total_of v;
      current_isdu_seg = 0;
      rwcmd = rw_isdutransport;
    } in
    record filled { total_isdu_seg = get_isdu_total_segments filled }

-- The modes in which there is no communication.
abbrev pub is_silent : ModeState → Bool
is_silent mode_idle = true
is_silent mode_estcom = true
is_silent _ = false

abbrev pub is_preoperate : ModeState → Bool
is_preoperate mode_preoperate = true
is_preoperate _ = false

abbrev pub is_idle : IsduState → Bool
is_idle idle = true
is_idle _ = false

-- `DL_ISDUTransport_req`
unfoldable pub dl_isdu_transport_req : ValueList → Dl → IolinkError × Dl × List DlCall
unfolding request_laid_out
dl_isdu_transport_req v dl =
    if is_silent dl.mode
    then (error_comchannel_invalid, dl, isdu_transport_cnf none 0 0 no_comm ∷ [])
    else if ltb v.index 2
    then (error_address_invalid, dl, isdu_transport_cnf none 0 0 value_out_of_range ∷ [])
    else if not (is_idle dl.state)
    then (error_incorrect_data, dl, isdu_transport_cnf none 0 0 state_conflict ∷ [])
    else (
      error_none,
      request_laid_out v dl,
      (if is_preoperate dl.mode then wake_message_handler ∷ [] else []),
    )
