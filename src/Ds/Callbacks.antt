-- ===== src/Ds/Callbacks.antt =====
-- ilink/iolink_ds.c: what runs on the main thread for the data storage, one function for each job,
-- and the order of the jobs as a list of inputs.
use normans_fork.Prelude.{
  ℕ, zero, suc, ◌+◌, ◌*◌, ◌/◌, true, false, ◌&&◌, ◌||◌, not, some, List, [], ◌∷◌, ltb, ◌==◌,
  if◌then◌else◌, u8, u16, u32, Bytes, update, memcpy, bytes_at,
}
use normans_fork.Types.{no_fault, ds_fault_ind, ReadCnf}
use normans_fork.Types.SmiError
use normans_fork.Ds.{
  State, check_activation_state, check_identity, check_mem_size, check_upload, check_ds_validity,
  ds_fault_state, read_parameter, store_data_set, decompose_set, write_parameter, download_done,
  ev_none, ev_startup, ev_ready, ev_upload, ev_fault_done, ev_fault_id, ev_fault_size, ev_delete,
  ev_passed, ev_do_upload, ev_no_upload, ev_download, ev_read_done, ev_ul_done, ev_dev_err,
  ev_com_err, ev_wr_done, ev_init, cmd_res, cmd_ul_end, IndexEntry, IndexList, Ds, PortInfo,
  max_size, max_entries, param_index, subindex_checksum, subindex_index_list, Effect,
}
use normans_fork.Ds.Actions.{ds_al_read_req, ds_al_write_ds_cmd_req}
use normans_fork.Ds.Fsm.{Run, ◌>>=◌, iolink_ds_event}

-- The fields of `portconfiglist_t` that `ds_init_cb` reads.
pub record PortConfig : Type 0 where
  pub portmode : ℕ
  pub validation_backup : ℕ
  pub vendorid : ℕ
  pub deviceid : ℕ

abbrev pub portmode_iol_man : ℕ
portmode_iol_man = 1

abbrev pub validation_v11_bak_restore : ℕ
validation_v11_bak_restore = 3

abbrev pub validation_v11_restore : ℕ
validation_v11_restore = 4

-- Four bytes, high byte first, as the source adds them up.
abbrev pub big_endian_32 : Bytes → ℕ
big_endian_32 b = u32 (b 0 * 16777216 + b 1 * 65536 + b 2 * 256 + b 3)

-- Two bytes, high byte first.
abbrev pub big_endian_16 : Bytes → ℕ → ℕ
big_endian_16 b p = u16 (u16 (b p * 256) + b (p + 1))

-- The `while` loop over the index list, with the rounds left as its first argument: `i` is the
-- entry and `p` the position in the reply.
unfoldable pub read_index_list : ℕ → ℕ → ℕ → Bytes → IndexList → IndexList
read_index_list zero i p b il = il
read_index_list (suc rounds) i p b il =
    let entry : IndexEntry = record { index = big_endian_16 b p; subindex = b (u16 (p + 2)) } in
    let rest =
      read_index_list rounds (u8 (i + 1)) (u16 (p + 3)) b
        (record il { entries = update il.entries i entry }) in
    if big_endian_16 b p == 0 then record il { count = i } else rest

-- The record that `ds_read_cnf_cb` writes for a parameter, and then its bytes.
unfoldable pub param_header : ℕ → ℕ → ℕ → List ℕ
param_header index subindex len = u8 (index / 256) ∷ u8 index ∷ subindex ∷ u8 len ∷ []

-- The reply to the read of a parameter: stored where it fits, else logged and left out.
unfoldable pub store_param : ReadCnf → Ds → Ds
unfolding param_header
store_param r ds =
    let p = ds.master_ds.pos in
    let len = r.data_len in
    let header = param_header ds.current_index ds.current_subindex len in
    if ltb (p + 2 + 1 + len) max_size
    then record ds {
      master_ds = record (ds.master_ds) {
        bytes = memcpy (memcpy ds.master_ds.bytes p header) (u16 (p + 4)) (bytes_at r.buffer 0 len);
        pos = u16 (u16 (p + 4) + len);
      };
    }
    else ds

-- The reply in DS_STATE_ReadParameter, when it is no error.
unfoldable pub take_param : ReadCnf → Ds → Ds
take_param r ds =
    if ds.current_index == param_index && ds.current_subindex == subindex_index_list
    then record ds { index_list = read_index_list max_entries 0 0 r.buffer ds.index_list }
    else store_param r ds

abbrev pub set_device_cs : ℕ → Ds → Ds
set_device_cs cs ds = record ds { device_ds = record (ds.device_ds) { cs = cs } }

-- The checksum branches: a reply that is too short raises DS_EVENT_COM_ERR, and is then used.
unfoldable pub take_checksum : PortInfo → ReadCnf → Ds → Run
take_checksum info r ds =
    (if ltb r.data_len 4 then iolink_ds_event info ds ev_com_err else some (ds, [])) >>= λ d.
    some (set_device_cs (big_endian_32 r.buffer) d, [])

abbrev pub run_effect : Effect → Run
run_effect (ds, calls, next) = some (ds, calls)

-- The `switch` of `ds_read_cnf_cb`.
unfoldable pub read_cnf_in : State → PortInfo → ReadCnf → Ds → Run
read_cnf_in check_identity info r ds =
    if not (r.errortype == SmiError.no_error) || ltb r.data_len 4
    then iolink_ds_event info ds ev_fault_id
    else iolink_ds_event info
        (record ds { device_ds = record (ds.device_ds) { size_max = big_endian_32 r.buffer } })
        ev_passed
read_cnf_in check_mem_size info r ds =
    if not (r.errortype == SmiError.no_error) || not (r.data_len == 1)
    then iolink_ds_event info ds ev_fault_size
    else iolink_ds_event info
        (record ds { device_ds = record (ds.device_ds) { state_property = r.buffer 0 } }) ev_passed
read_cnf_in read_parameter info r ds =
    if r.errortype == SmiError.no_error
    then iolink_ds_event info (take_param r ds) ev_read_done
    else iolink_ds_event info ds ev_dev_err
read_cnf_in check_upload info r ds =
    take_checksum info r ds >>= λ d. iolink_ds_event info d ev_no_upload
read_cnf_in store_data_set info r ds =
    take_checksum info r ds >>= λ d. run_effect (ds_al_write_ds_cmd_req d cmd_ul_end)
read_cnf_in download_done info r ds =
    take_checksum info r ds >>= λ d. iolink_ds_event info d ev_ready
read_cnf_in _ info r ds = some (ds, [])

unfoldable pub ds_read_cnf_cb : PortInfo → ReadCnf → Ds → Run
unfolding read_cnf_in
ds_read_cnf_cb info r ds =
    if r.errortype == SmiError.com_err
    then iolink_ds_event info ds ev_com_err
    else read_cnf_in ds.state info r ds

-- The data set becomes the one of the configured device.
abbrev pub accept_data_set : Ds → Ds
accept_data_set ds = record ds {
  master_ds = record (ds.master_ds) {
    vid = ds.pending_vendorid;
    did = ds.pending_deviceid;
    cs = ds.device_ds.cs;
    valid = true;
  };
}

-- The `switch` of `ds_write_cnf_cb`.
unfoldable pub write_cnf_in : State → PortInfo → Ds → Run
write_cnf_in check_upload info ds = iolink_ds_event info ds ev_do_upload
write_cnf_in check_ds_validity info ds = iolink_ds_event info ds ev_do_upload
write_cnf_in write_parameter info ds = iolink_ds_event info ds ev_wr_done
write_cnf_in store_data_set info ds = iolink_ds_event info (accept_data_set ds) ev_ul_done
write_cnf_in decompose_set info ds = iolink_ds_event info ds ev_download
write_cnf_in download_done info ds =
    run_effect (ds_al_read_req ds param_index subindex_checksum ev_none)
write_cnf_in ds_fault_state info ds =
    some (ds, ds_fault_ind ds.fault ∷ []) >>= λ d. iolink_ds_event info d ev_fault_done
write_cnf_in _ info ds = some (ds, [])

unfoldable pub ds_write_cnf_cb : PortInfo → ℕ → Ds → Run
unfolding write_cnf_in
ds_write_cnf_cb info errortype ds =
    if errortype == SmiError.no_error
    then write_cnf_in ds.state info ds
    else iolink_ds_event info ds ev_com_err

-- The flags that `ds_init_cb` sets from the configuration.
unfoldable pub init_flags : PortConfig → Ds → Ds
init_flags cfg ds =
    let d = record ds { ds_upload = false; ds_download = false; fault = no_fault } in
    if cfg.portmode == portmode_iol_man
    then (if cfg.validation_backup == validation_v11_bak_restore
        then record d { ds_upload = true; ds_download = true; ds_enable = true }
        else if cfg.validation_backup == validation_v11_restore
        then record d { ds_download = true; ds_enable = true }
        else d)
    else d

unfoldable pub ds_init_cb : PortInfo → PortConfig → Ds → Run
unfolding init_flags
ds_init_cb info cfg ds =
    iolink_ds_event info
      (record (init_flags cfg ds) {
        pending_vendorid = cfg.vendorid;
        pending_deviceid = cfg.deviceid;
      })
      ev_init

-- The jobs that DS_Startup, DS_Delete, DS_Upload, DS_Init and the confirmations of the AL post.
pub data Input : Type 0 where
  startup delete upload : Input
  init : PortConfig → Input
  read_cnf : ReadCnf → Input
  write_cnf : (errortype : ℕ) → Input

unfoldable pub handle : PortInfo → Ds → Input → Run
unfolding ds_read_cnf_cb ds_write_cnf_cb ds_init_cb
handle info ds startup = iolink_ds_event info ds ev_startup
handle info ds delete = iolink_ds_event info ds ev_delete
handle info ds upload = iolink_ds_event info ds ev_upload
handle info ds (init cfg) = ds_init_cb info cfg ds
handle info ds (read_cnf r) = ds_read_cnf_cb info r ds
handle info ds (write_cnf errortype) = ds_write_cnf_cb info errortype ds

-- The main thread takes the jobs of a port one after the other.
unfoldable pub handle_all : PortInfo → Ds → List Input → Run
handle_all info ds [] = some (ds, [])
handle_all info ds (i ∷ inputs) = handle info ds i >>= λ d. handle_all info d inputs

-- `iolink_ds_init`
abbrev pub fresh : Ds
fresh = record {
  state = check_activation_state;
  fault = no_fault;
  ds_enable = false;
  ds_upload = false;
  ds_download = false;
  device_ds = record { cs = 0; size_max = 0; state_property = 0 };
  master_ds = record {
    cs = 0;
    vid = 0;
    did = 0;
    fid = 0;
    valid = false;
    size = 0;
    size_max = max_size;
    pos = 0;
    bytes = λ _. 0;
  };
  index_list = record { count = 0; pos = 0; entries = λ _. record { index = 0; subindex = 0 } };
  command = cmd_res;
  current_index = 0;
  current_subindex = 0;
  pending_vendorid = 0;
  pending_deviceid = 0;
}
