-- ===== src/Types.antt =====
-- include/ilink/iolink.h and include/ilink/iolink_types.h: the codes that the components exchange,
-- and the calls that one component makes of another.
--
-- An ArgBlock id and an SMI error type come from clients and devices as any 16-bit number, so they
-- are numbers here, with the source's names for those that the code compares with.
pub mod ArgBlockId
pub mod SmiError
use normans_fork.Prelude.{ℕ, List, Bytes}

-- `iolink_ds_fault_t`
pub data DsFault : Type 0 where
  no_fault id_fault size_fault up_fault down_fault com_err_fault lock_fault : DsFault

-- `iolink_error_t`, as far as the modelled components return it.
pub data IolinkError : Type 0 where
  error_none error_state_invalid error_parameter_conflict error_odlength : IolinkError
  error_comchannel_invalid error_address_invalid error_incorrect_data : IolinkError
  error_conditions_not_correct error_controlcode_invalid : IolinkError

-- What a handler asks of the other layers, in the order in which it asks.
pub data Call : Type 0 where
  -- `AL_Read_req (port, index, subindex, …)`
  al_read : (index subindex : ℕ) → Call
  -- `AL_Write_req (port, index, subindex, length, data, …)`
  al_write : (index subindex : ℕ) (bytes : List ℕ) → Call
  -- `DS_Ready (port)` and `DS_Fault (port, fault)`
  ds_ready_ind : Call
  ds_fault_ind : DsFault → Call
  -- `iolink_smi_cnf`: the reference id, the length, and the block's index, subindex and data bytes
  smi_cnf : (ref_id len index subindex : ℕ) (bytes : List ℕ) → Call
  -- `iolink_smi_voidblock_cnf`
  smi_void_cnf : (ref_id : ℕ) → Call
  -- `iolink_smi_joberror_ind`
  smi_job_error : (exp_id ref_id error : ℕ) → Call
  -- `CC_ASSERT (0)`
  assert_failed : Call

-- `al_read_cnf` of `iolink_job_t`, the AL's reply to a read. The data pointer shows the buffer of
-- the AL, whose bytes past `data_len` are whatever an earlier reply left there.
pub record ReadCnf : Type 0 where
  pub buffer : Bytes
  pub data_len : ℕ  -- uint8
  pub errortype : ℕ

-- `iolink_status_t`
pub data Status : Type 0 where
  status_no_error parity_error framing_error overrun no_comm state_conflict status_valid : Status
  status_invalid parameter_conflict isdu_timeout isdu_not_supported value_out_of_range : Status
  isdu_checksum_error isdu_illegal_service_primitive isdu_abort : Status

-- `iolink_rwdirection_t`
pub data Direction : Type 0 where
  reading writing : Direction

-- IOLINK_ISDU_MAX_SIZE
abbrev pub isdu_max_size : ℕ
isdu_max_size = 241
