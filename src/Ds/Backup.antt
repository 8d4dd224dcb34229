-- ===== src/Ds/Backup.antt =====
-- The whole upload of ilink/iolink_ds.c: from the confirmed command to the valid data set.
use normans_fork.Types.SmiError
use normans_fork.Prelude.{
  ◌≤◌, ◌<◌, ◌≡◌, refl, ap, ◌∙◌, ◌≢◌, ◌⊎◌, true, some, List, [], ◌∷◌, ◌++◌, map, append_assoc, arith,
  length, All, length-map, bytes_at,
}
use normans_fork.Types.{Call, al_read, al_write, ds_ready_ind, ReadCnf}
use normans_fork.Ds.{
  waiting_on_ds_activity, check_upload, check_ds_validity, store_data_set, ev_read_done, cmd_ul_end,
  IndexEntry, Ds, PortInfo, max_size, max_entries, param_index, subindex_cmd, subindex_checksum,
  subindex_index_list,
}
use normans_fork.Ds.Callbacks.{
  big_endian_32, read_index_list, take_param, take_checksum, read_cnf_in, ds_read_cnf_cb,
  accept_data_set, write_cnf_in, ds_write_cnf_cb, Input, read_cnf, write_cnf, handle, handle_all,
}
use normans_fork.Ds.Codec.{Param, encode}
use normans_fork.Ds.Events.{
  read_next, begin_upload, event-read_done_more, event-do_upload, event-ul_done,
}
use normans_fork.Ds.Index.{EncodesAt, read_index_list_lem, read_index_list-pos}
use normans_fork.Ds.Replies.{
  Answer, answer_param, answer_entry, answer_read, answer_job, IsAnswer, IsReading, SameSetup,
  replies_stored,
}
use normans_fork.Ds.Fsm.{iolink_ds_event}
use normans_fork.Ds.Runs.{handle_all-cons, handle_all-append, handle_two}

-- The data set holds a device's parameters, and the state machine is idle.
pub record HoldsBackup (d : Ds) (ps : List Param) : Type 0 where
  pub in_state : d.state ≡ waiting_on_ds_activity
  pub is_valid : d.master_ds.valid ≡ true
  pub bytes_of : bytes_at d.master_ds.bytes 0 d.master_ds.size ≡ encode ps

-- The reply to the read of the checksum.
pub record IsChecksum (r : ReadCnf) : Type 0 where
  pub no_com_err : r.errortype ≢ SmiError.com_err
  pub long : 4 ≤ r.data_len

module _ (info : PortInfo) where
  list_taken :
      (ds : Ds) (r : ReadCnf)
      → r.errortype ≡ SmiError.no_error
      → handle info (begin_upload ds) (read_cnf r)
        ≡ iolink_ds_event info
            (record (begin_upload ds) {
              index_list = read_index_list max_entries 0 0 r.buffer (begin_upload ds).index_list;
            })
            ev_read_done
  unfolding handle ds_read_cnf_cb read_cnf_in take_param
  list_taken ds r ok = ground arith

  -- The index list is taken, and the first entry is read.
  list_reply :
      (ds : Ds) (r : ReadCnf) (a : Answer) (todo : List Answer)
      → r.errortype ≡ SmiError.no_error
      → EncodesAt r.buffer 0 (map answer_entry (a ∷ todo))
      → length (map answer_entry (a ∷ todo)) < max_entries
      → (d : Ds) × (handle info (begin_upload ds) (read_cnf r) ≡ some (d, answer_read a ∷ []))
        × IsReading d [] a todo
        × SameSetup d ds
        × (d.master_ds.pos ≡ 0)
  unfolding bytes_at
  list_reply ds r a todo ok enc few =
      let il = (begin_upload ds).index_list in
      let list = read_index_list max_entries 0 0 r.buffer il in
      let (count_of, listed) =
        read_index_list_lem (map answer_entry (a ∷ todo)) max_entries 0 0 r.buffer il enc few
          (omega arith) (omega arith) in
      let pos_of : list.pos ≡ 0 = read_index_list-pos max_entries 0 0 r.buffer il in
      let first : list.entries list.pos ≡ a.entry = rw pos_of listed.0 in
      let taken : Ds = record (begin_upload ds) { index_list = list } in
      (
        read_next taken,
        list_taken ds r ok
            ∙ event-read_done_more info taken refl (omega (arith, count_of, pos_of))
            ∙ ap (λ (e : IndexEntry). some (read_next taken, al_read e.index e.subindex ∷ []))
                first,
        record {
          in_state = refl;
          index_of = ap (λ (e : IndexEntry). e.index) first;
          subindex_of = ap (λ (e : IndexEntry). e.subindex) first;
          bytes_of = refl;
          list_of = rw pos_of listed.1;
          count_of = omega (arith, count_of, pos_of, length-map answer_entry todo);
          count_fits = omega (arith, count_of);
        },
        record {
          enable_of = refl;
          download_of = refl;
          vendorid_of = refl;
          deviceid_of = refl;
          size_max_of = refl;
        },
        refl,
      )

  -- The checksum is stored and the end of the upload is announced.
  checksum_reply :
      (ds : Ds) (r : ReadCnf)
      → ds.state ≡ store_data_set
      → IsChecksum r
      → handle info ds (read_cnf r)
        ≡ some (
          record ds {
            device_ds = record (ds.device_ds) { cs = big_endian_32 r.buffer };
            current_index = param_index;
            current_subindex = subindex_cmd;
            command = cmd_ul_end;
          },
          al_write param_index subindex_cmd (2 ∷ []) ∷ [],
        )
  unfolding handle ds_read_cnf_cb read_cnf_in take_checksum
  checksum_reply ds r h ok = ground arith

  upload_confirmed :
      (ds : Ds)
      → ds.state ≡ store_data_set
      → handle info ds (write_cnf 0)
        ≡ some (
          record ds {
            state = waiting_on_ds_activity;
            master_ds = record (ds.master_ds) {
              vid = ds.pending_vendorid;
              did = ds.pending_deviceid;
              cs = ds.device_ds.cs;
              valid = true;
            };
          },
          ds_ready_ind ∷ [],
        )
  unfolding handle ds_write_cnf_cb write_cnf_in
  upload_confirmed ds h = ground (arith, event-ul_done info (accept_data_set ds) h)

-- What the AL confirms during an upload: the command, the index list, each of its entries, the
-- checksum, and the command that ends the upload.
abbrev pub upload_jobs : ReadCnf → List Answer → ReadCnf → List Input
upload_jobs list answers checksum =
    write_cnf 0 ∷ read_cnf list ∷ (map answer_job answers ++ (read_cnf checksum ∷ write_cnf 0 ∷ []))

-- What the master asks for: the index list, each of its entries in order, the checksum, and
-- DS_CMD_UL_END; then it reports that it is ready.
abbrev pub upload_calls : List Answer → List Call
upload_calls answers =
    al_read param_index subindex_index_list
    ∷ (map answer_read answers
        ++ (al_read param_index subindex_checksum
            ∷ al_write param_index subindex_cmd (2 ∷ [])
            ∷ ds_ready_ind
            ∷ []))

-- The preconditions of an upload: the device's index list ends within 69 entries, every entry is
-- answered without an error, and the parameters fit the data set.
pub record IsUpload (list : ReadCnf) (answers : List Answer) (checksum : ReadCnf) : Type 0 where
  pub list_ok : list.errortype ≡ SmiError.no_error
  pub list_of : EncodesAt list.buffer 0 (map answer_entry answers)
  pub few : length answers < max_entries
  pub answers_ok : All IsAnswer answers
  pub fits : length (encode (map answer_param answers)) ≤ max_size
  pub checksum_ok : IsChecksum checksum

module _ (info : PortInfo) where
  upload_started :
      (ds : Ds)
      → (ds.state ≡ check_upload) ⊎ (ds.state ≡ check_ds_validity)
      → handle info ds (write_cnf 0)
        ≡ some (begin_upload ds, al_read param_index subindex_index_list ∷ [])
  unfolding handle ds_write_cnf_cb write_cnf_in
  upload_started ds h = ground (arith, event-do_upload info ds h)

  -- An upload of at least one parameter under the preconditions of `IsUpload`, begun by the
  -- confirmation of DS_CMD_UL_START, reads every entry of the index list once and in order. It
  -- leaves a valid data set that encodes exactly the device's parameters, under the configured
  -- vendor and device and the device's checksum, and the configuration flags as they were.
  pub upload_lem :
      (ds : Ds) (list : ReadCnf) (a : Answer) (todo : List Answer) (checksum : ReadCnf)
      → (ds.state ≡ check_upload) ⊎ (ds.state ≡ check_ds_validity)
      → IsUpload list (a ∷ todo) checksum
      → (d : Ds) × (handle_all info ds (upload_jobs list (a ∷ todo) checksum)
          ≡ some (d, upload_calls (a ∷ todo)))
        × HoldsBackup d (map answer_param (a ∷ todo))
        × (d.master_ds.vid ≡ ds.pending_vendorid)
        × (d.master_ds.did ≡ ds.pending_deviceid)
        × (d.master_ds.cs ≡ big_endian_32 checksum.buffer)
        × SameSetup d ds
  upload_lem ds list a todo checksum h up =
      let (d₁, run₁, reading, setup₁, pos_of) =
        list_reply info ds list a todo up.list_ok up.list_of
          (omega (arith, up.few, length-map answer_entry todo)) in
      let (d₂, run₂, closed, setup₂) =
        replies_stored info todo d₁ [] a reading up.answers_ok.0 up.answers_ok.1
          (omega (arith, pos_of, up.fits)) in
      let run₃ = checksum_reply info d₂ checksum closed.in_state up.checksum_ok in
      let d₃ : Ds = record d₂ {
        device_ds = record (d₂.device_ds) { cs = big_endian_32 checksum.buffer };
        current_index = param_index;
        current_subindex = subindex_cmd;
        command = cmd_ul_end;
      } in
      let d₄ : Ds = record (accept_data_set d₃) { state = waiting_on_ds_activity } in
      let run₄ = upload_confirmed info d₃ closed.in_state in
      let whole =
        handle_all-cons info ds (begin_upload ds) d₄ (write_cnf 0)
          (read_cnf list ∷ (map answer_job (a ∷ todo) ++ (read_cnf checksum ∷ write_cnf 0 ∷ []))) _
          _ (upload_started ds h)
          (handle_all-cons info (begin_upload ds) d₁ d₄ (read_cnf list)
            (map answer_job (a ∷ todo) ++ (read_cnf checksum ∷ write_cnf 0 ∷ [])) _ _ run₁
            (handle_all-append info (map answer_job (a ∷ todo)) d₁ d₂ d₄ _ _ _ run₂
              (handle_two info d₂ d₃ d₄ (read_cnf checksum) (write_cnf 0) _ _ run₃ run₄))) in
      (
        d₄,
        rw append_assoc at whole,
        record { in_state = refl; is_valid = refl; bytes_of = closed.bytes_of },
        ground arith,
        ground arith,
        refl,
        ground arith,
      )
