-- ===== src/Ds/Events.antt =====
-- What `iolink_ds_event` does in the states of an upload and of a download: one equation for each
-- state and event that the proofs about them meet, with the whole chain of transitions taken.
use normans_fork.Prelude.{◌+◌, ◌≤◌, ◌<◌, ◌≡◌, ◌⊎◌, some, [], ◌∷◌, arith, u8}
use normans_fork.Types.{al_read, ds_ready_ind}
use normans_fork.Ds.{
  waiting_on_ds_activity, check_upload, check_ds_validity, read_parameter, store_data_set,
  ev_do_upload, ev_read_done, ev_ul_done, Ds, PortInfo, param_index, subindex_checksum,
  subindex_index_list,
}
use normans_fork.Ds.Actions.{ds_upload_next, ds_upload_action, ds_readparam, ds_ready, act}
use normans_fork.Ds.Fsm.{event_num, transitions, find_transition, event_loop, iolink_ds_event}

-- The next entry of the index list is being read.
abbrev pub read_next : Ds → Ds
read_next ds = record ds {
  state = read_parameter;
  current_index = (ds.index_list.entries ds.index_list.pos).index;
  current_subindex = (ds.index_list.entries ds.index_list.pos).subindex;
  index_list = record (ds.index_list) { pos = u8 (ds.index_list.pos + 1) };
}

-- The data set is complete, and its checksum is being read.
abbrev pub close_data_set : Ds → Ds
close_data_set ds = record ds {
  state = store_data_set;
  current_index = param_index;
  current_subindex = subindex_checksum;
  master_ds = record (ds.master_ds) { size = ds.master_ds.pos };
}

-- An upload has begun: the index list is being read.
abbrev pub begin_upload : Ds → Ds
begin_upload ds = record ds {
  state = read_parameter;
  current_index = param_index;
  current_subindex = subindex_index_list;
  master_ds = record (ds.master_ds) { pos = 0 };
  index_list = record (ds.index_list) { pos = 0 };
}

module _ (info : PortInfo) (ds : Ds) where
  pub event-read_done_more :
      ds.state ≡ read_parameter
      → ds.index_list.pos < ds.index_list.count
      → iolink_ds_event info ds ev_read_done
        ≡ some (
          read_next ds,
          al_read
                (ds.index_list.entries ds.index_list.pos).index
                (ds.index_list.entries ds.index_list.pos).subindex
              ∷ [],
        )
  unfolding iolink_ds_event event_loop find_transition transitions event_num act ds_upload_action
      ds_upload_next ds_readparam
  event-read_done_more h lt = ground arith

  pub event-read_done_end :
      ds.state ≡ read_parameter
      → ds.index_list.count ≤ ds.index_list.pos
      → iolink_ds_event info ds ev_read_done
        ≡ some (close_data_set ds, al_read param_index subindex_checksum ∷ [])
  unfolding iolink_ds_event event_loop find_transition transitions event_num act ds_upload_action
      ds_upload_next ds_readparam
  event-read_done_end h le = ground arith

  -- The index list is being read.
  pub event-do_upload :
      (ds.state ≡ check_upload) ⊎ (ds.state ≡ check_ds_validity)
      → iolink_ds_event info ds ev_do_upload
        ≡ some (begin_upload ds, al_read param_index subindex_index_list ∷ [])
  unfolding iolink_ds_event event_loop find_transition transitions event_num act ds_upload_action
      ds_readparam
  event-do_upload h = ground arith

  pub event-ul_done :
      ds.state ≡ store_data_set
      → iolink_ds_event info ds ev_ul_done
        ≡ some (record ds { state = waiting_on_ds_activity }, ds_ready_ind ∷ [])
  unfolding iolink_ds_event event_loop find_transition transitions event_num act ds_ready
  event-ul_done h = ground arith
