-- ===== src/Dl.antt =====
-- include/ilink/iolink_dl.h: the part of the data link layer of one port that carries ISDUs, the
-- device's parameters in more than one message.
pub mod Header
pub mod Failing
pub mod Isdu
pub mod Transport
pub mod Inputs
pub mod Format
pub mod Encoded
pub mod Segments
pub mod Counting
pub mod Confirmations
pub mod Sending
pub mod Request
pub mod Answer
pub mod Stored
pub mod First
pub mod Response
pub mod Recovery
pub mod Command
pub mod Outputs
mod Tests
use normans_fork.Prelude.{ℕ, Bool, Option, List, Bytes}
use normans_fork.Types.{Status}

-- `dl_isduh_st_t`
pub data IsduState : Type 0 where
  inactive idle isdu_request isdu_wait isdu_error isdu_response : IsduState

-- `IHCmd_t`
pub data IhCmd : Type 0 where
  ih_inactive ih_active : IhCmd

-- `MHRWCmd`
pub data RwCmd : Type 0 where
  rw_none rw_write rw_read rw_writeparam rw_readparam rw_isdutransport : RwCmd
  rw_isduabort rw_writedevicemode : RwCmd

-- `iol_trigger_t`
pub data Trigger : Type 0 where
  no_trigger device_message master_message : Trigger

-- `dl_mdh_st_t`
pub data ModeState : Type 0 where
  mode_idle mode_estcom mode_startup mode_preoperate mode_operate : ModeState

-- `iolink_mhinfo_t`
pub data MhInfo : Type 0 where
  mhinfo_none mhinfo_comlost mhinfo_illegal_messagetype mhinfo_checksum_mismatch : MhInfo

-- The channels of `iolink_comchannel_t` that the handler of ISDUs uses.
pub data Channel : Type 0 where
  channel_page channel_isdu : Channel

-- `isdu_h_t`, with the fields of `iolink_dl_t` that its handler reads: `rwcmd` and `od_len` of
-- `message_handler`, the `state` and `mhinfo` of `mode_handler`, the `trigger`, `data_addr` and
-- `data_value` of `od_handler`, and `rxbuffer`.
pub record Dl : Type 0 where
  pub state : IsduState
  pub ihcmd : IhCmd
  pub total_isdu_len : ℕ  -- uint8
  pub current_isdu_seg : ℕ  -- uint8
  pub total_isdu_seg : ℕ  -- uint8
  pub isdu_data : Bytes
  pub isdu_timer : ℕ  -- uint32
  pub data_dir_read : Bool
  pub rwcmd : RwCmd
  pub od_len : ℕ  -- uint8
  pub mode : ModeState
  pub mhinfo : MhInfo
  pub trigger : Trigger
  pub data_addr : ℕ
  pub data_value : ℕ
  pub rxbuffer : Bytes

-- What the handler asks of the message handler, by `OD_req`, and what it answers the application
-- layer. `OD_req` takes bytes where it writes. The address of an ISDU is its flow control.
pub data DlCall : Type 0 where
  od_read : Channel → (address len : ℕ) → DlCall
  od_write : Channel → (address len : ℕ) (bytes : List ℕ) → DlCall
  isdu_transport_cnf : Option Bytes → (len qualifier : ℕ) → Status → DlCall
  read_param_cnf : (value : ℕ) → Status → DlCall
  write_param_cnf : Status → DlCall
  -- `os_event_set (dl->event, IOLINK_DL_EVENT_MH)`
  wake_message_handler : DlCall
  -- `message_handler.state = IOL_DL_MH_ST_INACTIVE_0`, from where it sends no messages
  stop_message_handler : DlCall
  -- `os_event_set (dl->event, IOLINK_DL_EVENT_MDH)`
  wake_mode_handler : DlCall

-- The layer after a handler, and the handler's calls.
abbrev pub Step : Type 0
Step = Dl × List DlCall
