-- ===== src/Ds/Actions.antt =====
-- ilink/iolink_ds.c: the actions that the state machine takes on a transition.
use normans_fork.Prelude.{
  ℕ, ◌+◌, ◌*◌, ◌/◌, ◌%◌, Bool, false, ◌&&◌, ◌||◌, not, [], ◌∷◌, ltb, leb, ◌==◌, if◌then◌else◌, u8,
  u16, bytes_at,
}
use normans_fork.Types.{
  id_fault, size_fault, up_fault, down_fault, lock_fault, al_read, al_write, ds_ready_ind,
  ds_fault_ind, assert_failed,
}
use normans_fork.Ds.{
  Event, ev_none, ev_enable, ev_startup, ev_ready, ev_fault_done, ev_fault_id, ev_fault_size,
  ev_fault_ul, ev_fault_dl, ev_fault_lock, ev_clr_disa, ev_passed, ev_do_upload, ev_download,
  ev_more_data, ev_read_done, ev_store_data, ev_dl_done, Command, cmd_ul_start, cmd_dl_start,
  cmd_dl_end, cmd_break, command_byte, Ds, PortInfo, param_index, subindex_cmd, subindex_state,
  subindex_size, subindex_checksum, subindex_index_list, Effect,
}

-- `ds_AL_Read_req`
abbrev pub ds_al_read_req : Ds → ℕ → ℕ → Event → Effect
ds_al_read_req ds index subindex next = (
  record ds { current_index = index; current_subindex = subindex },
  al_read index subindex ∷ [],
  next,
)

-- `ds_AL_Write_ds_cmd_req`
abbrev pub ds_al_write_ds_cmd_req : Ds → Command → Effect
ds_al_write_ds_cmd_req ds cmd = (
  record ds { current_index = param_index; current_subindex = subindex_cmd; command = cmd },
  al_write param_index subindex_cmd (command_byte cmd ∷ []) ∷ [],
  ev_none,
)

unfoldable pub ds_delete : Ds → Effect
ds_delete ds = (
  record ds {
    master_ds = record (ds.master_ds) { cs = 0; vid = 0; did = 0; valid = false; pos = 0 };
  },
  [],
  ev_none,
)

unfoldable pub ds_fault : Ds → Event → Effect
ds_fault ds ev_fault_id = (ds, ds_fault_ind id_fault ∷ [], ev_fault_done)
ds_fault ds ev_fault_size = (ds, ds_fault_ind size_fault ∷ [], ev_fault_done)
ds_fault ds ev_fault_ul = ds_al_write_ds_cmd_req (record ds { fault = up_fault }) cmd_break
ds_fault ds ev_fault_dl = ds_al_write_ds_cmd_req (record ds { fault = down_fault }) cmd_break
ds_fault ds ev_fault_lock =
    (record ds { ds_enable = false }, ds_fault_ind lock_fault ∷ [], ev_fault_done)
ds_fault ds _ = (ds, [], ev_none)

unfoldable pub ds_off : Ds → Event → Effect
ds_off ds ev_startup = (ds, ds_ready_ind ∷ [], ev_none)
ds_off ds _ = (ds, [], ev_none)

unfoldable pub ds_check_vid_did : PortInfo → Ds → Bool
ds_check_vid_did info ds =
    ds.master_ds.vid == 0
    || (ds.master_ds.vid == info.vendorid && ds.master_ds.did == info.deviceid)

unfoldable pub ds_chk_id : PortInfo → Ds → Effect
ds_chk_id info ds =
    if ds_check_vid_did info ds
    then ds_al_read_req ds param_index subindex_size ev_none
    else (ds, [], ev_fault_id)

unfoldable pub ds_chk_mem_size : Ds → Effect
ds_chk_mem_size ds =
    if ltb ds.master_ds.size_max ds.device_ds.size_max
    then (ds, [], ev_fault_size)
    else ds_al_read_req ds param_index subindex_state ev_none

-- DS_STATE_PROPERTY_UPLOAD_REQ is bit 7; DS_STATE_PROPERTY_STATE_MASK is bits 1 and 2, both set in
-- DS_STATE_PROPERTY_STATE_LOCKED.
abbrev pub is_upload_req : ℕ → Bool
is_upload_req property = property / 128 % 2 == 1

abbrev pub is_locked : ℕ → Bool
is_locked property = property / 2 % 4 == 3

unfoldable pub ds_chk_upload : Ds → Effect
ds_chk_upload ds =
    if is_locked ds.device_ds.state_property
    then (ds, [], ev_fault_lock)
    else if is_upload_req ds.device_ds.state_property && ds.ds_upload
    then ds_al_write_ds_cmd_req ds cmd_ul_start
    else ds_al_read_req ds param_index subindex_checksum ev_none

-- The branch of `ds_upload` on DS_EVENT_READ_DONE.
unfoldable pub ds_upload_next : Ds → Effect
ds_upload_next ds =
    if ltb ds.index_list.pos ds.index_list.count
    then (
      record ds {
        current_index = (ds.index_list.entries ds.index_list.pos).index;
        current_subindex = (ds.index_list.entries ds.index_list.pos).subindex;
        index_list = record (ds.index_list) { pos = u8 (ds.index_list.pos + 1) };
      },
      [],
      ev_more_data,
    )
    else ds_al_read_req
        (record ds { master_ds = record (ds.master_ds) { size = ds.master_ds.pos } }) param_index
        subindex_checksum ev_store_data

unfoldable pub ds_upload_action : Ds → Event → Effect
ds_upload_action ds ev_do_upload = (
  record ds {
    master_ds = record (ds.master_ds) { pos = 0 };
    index_list = record (ds.index_list) { pos = 0 };
    current_index = param_index;
    current_subindex = subindex_index_list;
  },
  [],
  ev_more_data,
)
ds_upload_action ds ev_read_done = ds_upload_next ds
ds_upload_action ds _ = (ds, [], ev_none)

unfoldable pub ds_chk_validity : Ds → Effect
ds_chk_validity ds =
    if ds.master_ds.valid then (ds, [], ev_passed) else ds_al_write_ds_cmd_req ds cmd_ul_start

unfoldable pub ds_chk_csum : Ds → Effect
ds_chk_csum ds =
    if ds.ds_download && not (ds.master_ds.cs == ds.device_ds.cs)
    then (ds, [], ev_download)
    else (ds, [], ev_ready)

-- A stored parameter is its index, high byte first, its subindex, its length and its bytes.
unfoldable pub ds_write_param : Ds → Effect
ds_write_param ds =
    let p = ds.master_ds.pos in
    let m = ds.master_ds.bytes in
    let index = u16 (u16 (m p * 256) + m (u16 (p + 1))) in
    let subindex = m (u16 (p + 2)) in
    let len = m (u16 (p + 3)) in
    (
      record ds {
        master_ds = record (ds.master_ds) { pos = u16 (u16 (p + 4) + len) };
        current_index = param_index;
        current_subindex = subindex;
      },
      al_write index subindex (bytes_at m (u16 (p + 4)) len) ∷ [],
      ev_none,
    )

unfoldable pub ds_dl_done : Ds → Effect
ds_dl_done ds = ds_al_write_ds_cmd_req ds cmd_dl_end

unfoldable pub ds_readparam : Ds → Effect
ds_readparam ds = ds_al_read_req ds ds.current_index ds.current_subindex ev_none

unfoldable pub ds_ready : Ds → Effect
ds_ready ds = (ds, ds_ready_ind ∷ [], ev_ready)

-- The comparison with which `ds_decompose_set` ends.
unfoldable pub ds_decompose_rest : Ds → Effect
ds_decompose_rest ds =
    (ds, [], if leb ds.master_ds.size ds.master_ds.pos then ev_dl_done else ev_more_data)

unfoldable pub ds_decompose_set : Ds → Event → Effect
ds_decompose_set ds ev_download =
    ds_decompose_rest (record ds { master_ds = record (ds.master_ds) { pos = 0 } })
ds_decompose_set ds _ = ds_decompose_rest ds

unfoldable pub ds_init_dl : Ds → Effect
ds_init_dl ds = ds_al_write_ds_cmd_req ds cmd_dl_start

unfoldable pub ds_reinit : Ds → Effect
ds_reinit ds = (ds, [], if ds.ds_enable then ev_enable else ev_clr_disa)

-- The function pointers of the transition tables.
pub data Action : Type 0 where
  do_delete do_todo do_ul_fault do_dl_fault do_fault do_off do_chk_id do_chk_mem_size : Action
  do_chk_upload do_upload do_chk_validity do_chk_csum do_write_param do_wait_ds_act : Action
  do_dl_done do_readparam do_store_data do_ready do_decompose_set do_init_dl do_reinit : Action

-- The call through the pointer.
unfoldable pub act : PortInfo → Action → Event → Ds → Effect
act info do_delete e ds = ds_delete ds
act info do_todo e ds = (ds, assert_failed ∷ [], ev_none)
act info do_ul_fault e ds = (ds, [], ev_fault_ul)
act info do_dl_fault e ds = (ds, [], ev_fault_dl)
act info do_fault e ds = ds_fault ds e
act info do_off e ds = ds_off ds e
act info do_chk_id e ds = ds_chk_id info ds
act info do_chk_mem_size e ds = ds_chk_mem_size ds
act info do_chk_upload e ds = ds_chk_upload ds
act info do_upload e ds = ds_upload_action ds e
act info do_chk_validity e ds = ds_chk_validity ds
act info do_chk_csum e ds = ds_chk_csum ds
act info do_write_param e ds = ds_write_param ds
act info do_wait_ds_act e ds = (ds, [], ev_none)
act info do_dl_done e ds = ds_dl_done ds
act info do_readparam e ds = ds_readparam ds
act info do_store_data e ds = (ds, [], ev_none)
act info do_ready e ds = ds_ready ds
act info do_decompose_set e ds = ds_decompose_set ds e
act info do_init_dl e ds = ds_init_dl ds
act info do_reinit e ds = ds_reinit ds
