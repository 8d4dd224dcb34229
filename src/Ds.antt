-- ===== src/Ds.antt =====
-- ilink/iolink_ds.h and the tables of ilink/iolink_ds.c: the data storage of one port, its states
-- and its events.
pub mod Actions
pub mod Fsm
pub mod Callbacks
pub mod Termination
pub mod Events
pub mod Codec
pub mod Index
pub mod Runs
pub mod Backup
pub mod Decode
pub mod Restore
pub mod Handshake
pub mod RoundTrip
pub mod Bounds
pub mod Smi
pub mod Failures
pub mod Setup
mod Tests
pub mod Upload
pub mod Replies
use normans_fork.Prelude.{ℕ, Bool, List, Bytes}
use normans_fork.Types.{DsFault, Call}

-- `iolink_ds_state_t`
pub data State : Type 0 where
  check_activation_state waiting_on_ds_activity off : State
  check_identity check_mem_size check_upload check_ds_validity check_checksum : State
  ds_ready_state ds_fault_state : State
  decompose_il read_parameter store_data_set upload_fault : State
  decompose_set write_parameter download_done download_fault : State

-- `iolink_fsm_ds_event_t`
pub data Event : Type 0 where
  ev_none ev_enable ev_startup ev_ready ev_upload ev_fault_done ev_fault_id ev_fault_size : Event
  ev_fault_ul ev_fault_dl ev_fault_lock ev_enable_com ev_clr_disa ev_enable_no_c ev_delete : Event
  ev_clear ev_disable ev_passed ev_do_upload ev_no_upload ev_download ev_more_data : Event
  ev_read_done ev_store_data ev_ul_done ev_dev_err ev_com_err ev_wr_done ev_dl_done ev_init : Event

-- `iolink_ds_command_t`
pub data Command : Type 0 where
  cmd_res cmd_ul_start cmd_ul_end cmd_dl_start cmd_dl_end cmd_break : Command

-- The byte that a command is sent as.
abbrev pub command_byte : Command → ℕ
command_byte cmd_res = 0
command_byte cmd_ul_start = 1
command_byte cmd_ul_end = 2
command_byte cmd_dl_start = 3
command_byte cmd_dl_end = 4
command_byte cmd_break = 5

-- `ds_index_list_entry_t`
pub record IndexEntry : Type 0 where
  pub index : ℕ  -- uint16
  pub subindex : ℕ  -- uint8

-- `device_ds`, without its `size`, which nothing reads or writes
pub record DeviceDs : Type 0 where
  pub cs : ℕ  -- uint32
  pub size_max : ℕ  -- uint32
  pub state_property : ℕ  -- uint8

-- `master_ds`
pub record MasterDs : Type 0 where
  pub cs : ℕ  -- uint32
  pub vid : ℕ  -- uint16
  pub did : ℕ  -- uint32
  pub fid : ℕ  -- uint16
  pub valid : Bool
  pub size : ℕ  -- uint32
  pub size_max : ℕ  -- uint32
  pub pos : ℕ  -- uint16, position in the data
  pub bytes : Bytes  -- `data`, of `max_size` bytes

-- `index_list`
pub record IndexList : Type 0 where
  pub count : ℕ  -- uint8
  pub pos : ℕ  -- uint8, position in the entries
  pub entries : ℕ → IndexEntry

-- `iolink_ds_port_t`
pub record Ds : Type 0 where
  pub state : State
  pub fault : DsFault
  pub ds_enable : Bool
  pub ds_upload : Bool
  pub ds_download : Bool
  pub device_ds : DeviceDs
  pub master_ds : MasterDs
  pub index_list : IndexList
  pub command : Command
  pub current_index : ℕ  -- uint16
  pub current_subindex : ℕ  -- uint8
  pub pending_vendorid : ℕ  -- uint16
  pub pending_deviceid : ℕ  -- uint32

-- The fields of `iolink_port_info_t` that the data storage reads: the connected device's ids.
pub record PortInfo : Type 0 where
  pub vendorid : ℕ  -- uint16
  pub deviceid : ℕ  -- uint32

-- IOLINK_DS_MAX_SIZE
abbrev pub max_size : ℕ
max_size = 2048

-- DS_INDEX_LIST_MAX_ENTRIES
abbrev pub max_entries : ℕ
max_entries = 70

-- DS_PARAM_INDEX and the subindices under it
abbrev pub param_index : ℕ
param_index = 3

abbrev pub subindex_cmd : ℕ
subindex_cmd = 1

abbrev pub subindex_state : ℕ
subindex_state = 2

abbrev pub subindex_size : ℕ
subindex_size = 3

abbrev pub subindex_checksum : ℕ
subindex_checksum = 4

abbrev pub subindex_index_list : ℕ
subindex_index_list = 5

-- What an action leaves: the port's data storage, the calls made, the event to handle next.
abbrev pub Effect : Type 0
Effect = Ds × List Call × Event
