-- ===== src/Ds/Handshake.antt =====
-- ilink/iolink_ds.c around a download: the jobs before its first parameter and after its last one.
use normans_fork.Types.SmiError
use normans_fork.Prelude.{ℕ, ◌≤◌, ◌≡◌, ◌≢◌, true, false, some, [], ◌∷◌, arith}
use normans_fork.Types.{al_read, al_write, ds_ready_ind, ReadCnf}
use normans_fork.Ds.{
  State, waiting_on_ds_activity, check_identity, check_mem_size, check_upload, decompose_set,
  download_done, ev_download, cmd_dl_start, Ds, PortInfo, param_index, subindex_cmd, subindex_state,
  subindex_size, subindex_checksum,
}
use normans_fork.Ds.Actions.{
  ds_check_vid_did, ds_chk_id, ds_chk_mem_size, is_upload_req, is_locked, ds_chk_upload,
  ds_chk_validity, ds_chk_csum, ds_ready, ds_init_dl, act,
}
use normans_fork.Ds.Fsm.{event_num, transitions, find_transition, event_loop, iolink_ds_event}
use normans_fork.Ds.Callbacks.{
  big_endian_32, set_device_cs, take_checksum, read_cnf_in, ds_read_cnf_cb, write_cnf_in,
  ds_write_cnf_cb, startup, read_cnf, write_cnf, handle,
}
use normans_fork.Ds.Backup.{IsChecksum}

-- A restore is allowed and called for: the data set belongs to the connected device, the device has
-- room for no more than the master, it is not locked and asks for no upload, and the checksums
-- differ.
pub record IsRestore (info : PortInfo) (ds : Ds) (size property checksum : ReadCnf) : Type 0 where
  pub download_on : ds.ds_download ≡ true
  pub vid_of : ds.master_ds.vid ≡ info.vendorid
  pub did_of : ds.master_ds.did ≡ info.deviceid
  pub size_ok : size.errortype ≡ SmiError.no_error
  pub size_long : 4 ≤ size.data_len
  pub size_fits : big_endian_32 size.buffer ≤ ds.master_ds.size_max
  pub property_ok : property.errortype ≡ SmiError.no_error
  pub property_len : property.data_len ≡ 1
  pub not_locked : is_locked (property.buffer 0) ≡ false
  pub no_upload : is_upload_req (property.buffer 0) ≡ false
  pub checksum_ok : IsChecksum checksum
  pub differs : ds.master_ds.cs ≢ big_endian_32 checksum.buffer

-- The state in which the reply to the read of a parameter of the data storage is awaited.
abbrev pub asking : State → ℕ → Ds → Ds
asking s subindex ds = record ds {
  state = s;
  current_index = param_index;
  current_subindex = subindex;
}

abbrev pub with_size : ReadCnf → Ds → Ds
with_size r ds = record ds {
  device_ds = record (ds.device_ds) { size_max = big_endian_32 r.buffer };
}

abbrev pub with_property : ReadCnf → Ds → Ds
with_property r ds = record ds { device_ds = record (ds.device_ds) { state_property = r.buffer 0 } }

module _ (info : PortInfo) (ds : Ds) where
  pub startup_asks_size :
      ds.state ≡ waiting_on_ds_activity
      → ds.master_ds.vid ≡ info.vendorid
      → ds.master_ds.did ≡ info.deviceid
      → handle info ds startup
        ≡ some (asking check_identity subindex_size ds, al_read param_index subindex_size ∷ [])
  unfolding handle iolink_ds_event event_loop find_transition transitions event_num act ds_chk_id
      ds_check_vid_did
  startup_asks_size h v d = ground arith

  pub size_asks_property :
      (r : ReadCnf)
      → r.errortype ≡ SmiError.no_error
      → 4 ≤ r.data_len
      → big_endian_32 r.buffer ≤ ds.master_ds.size_max
      → handle info (asking check_identity subindex_size ds) (read_cnf r)
        ≡ some (
          asking check_mem_size subindex_state (with_size r ds),
          al_read param_index subindex_state ∷ [],
        )
  unfolding handle ds_read_cnf_cb read_cnf_in iolink_ds_event event_loop find_transition transitions
      event_num act ds_chk_mem_size
  size_asks_property r ok long fits = ground arith

  pub property_asks_checksum :
      (r : ReadCnf)
      → r.errortype ≡ SmiError.no_error
      → r.data_len ≡ 1
      → is_locked (r.buffer 0) ≡ false
      → is_upload_req (r.buffer 0) ≡ false
      → handle info (asking check_mem_size subindex_state ds) (read_cnf r)
        ≡ some (
          asking check_upload subindex_checksum (with_property r ds),
          al_read param_index subindex_checksum ∷ [],
        )
  unfolding handle ds_read_cnf_cb read_cnf_in iolink_ds_event event_loop find_transition transitions
      event_num act ds_chk_upload
  property_asks_checksum r ok len free quiet = ground arith

  pub checksum_starts_download :
      (r : ReadCnf)
      → IsChecksum r
      → ds.master_ds.valid ≡ true
      → ds.ds_download ≡ true
      → ds.master_ds.cs ≢ big_endian_32 r.buffer
      → handle info (asking check_upload subindex_checksum ds) (read_cnf r)
        ≡ some (
          asking decompose_set subindex_cmd
              (record (set_device_cs (big_endian_32 r.buffer) ds) { command = cmd_dl_start }),
          al_write param_index subindex_cmd (3 ∷ []) ∷ [],
        )
  unfolding handle ds_read_cnf_cb read_cnf_in take_checksum iolink_ds_event event_loop
      find_transition transitions event_num act ds_chk_validity ds_chk_csum ds_init_dl
  checksum_starts_download r ok valid on ne = ground arith

  pub download_confirmed :
      ds.state ≡ decompose_set → handle info ds (write_cnf 0) ≡ iolink_ds_event info ds ev_download
  unfolding handle ds_write_cnf_cb write_cnf_in
  download_confirmed h = ground arith

  pub end_confirmed :
      ds.state ≡ download_done
      → handle info ds (write_cnf 0)
        ≡ some (
          record ds { current_index = param_index; current_subindex = subindex_checksum },
          al_read param_index subindex_checksum ∷ [],
        )
  unfolding handle ds_write_cnf_cb write_cnf_in
  end_confirmed h = ground arith

  pub checksum_ends_download :
      (r : ReadCnf)
      → ds.state ≡ download_done
      → IsChecksum r
      → handle info ds (read_cnf r)
        ≡ some (
          record (set_device_cs (big_endian_32 r.buffer) ds) { state = waiting_on_ds_activity },
          ds_ready_ind ∷ [],
        )
  unfolding handle ds_read_cnf_cb read_cnf_in take_checksum iolink_ds_event event_loop
      find_transition transitions event_num act ds_ready
  checksum_ends_download r h ok = ground arith
