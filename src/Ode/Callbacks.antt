-- ===== src/Ode/Callbacks.antt =====
-- ilink/iolink_ode.c: the jobs of the on-request data exchange, and the entry points that post them.
use normans_fork.Types.ArgBlockId
use normans_fork.Types.SmiError
use normans_fork.Prelude.{
  ℕ, ◌+◌, ◌-◌, some, List, [], ◌∷◌, leb, ◌==◌, if◌then◌else◌, u8, memcpy, bytes_at, zeros,
}
use normans_fork.Types.{IolinkError, error_none, error_parameter_conflict, ReadCnf}
use normans_fork.Ode.{
  State, inactive, od_active, od_blocked, ev_smi_dev_rw_1, ev_od_start, ev_od_stop, ev_smi_dev_rw_4,
  ev_smi_dev_rw_6, ev_od_unblock, SmiReq, Ode, head_size,
}
use normans_fork.Ode.Actions.{Run, ◌>>=◌, iolink_ode_event}

-- The room for data in the client's block, as `ode_read_cnf_cb` reckons it, in eight bits.
abbrev pub read_room : ℕ → ℕ
read_room len = u8 (u8 len + 256 - head_size)

-- The request with the data of a reply in its block.
abbrev pub with_reply : ReadCnf → SmiReq → SmiReq
with_reply r req = record req {
  len = u8 (r.data_len + head_size);
  block = record (req.block) {
    bytes =
        memcpy (memcpy req.block.bytes 0 (zeros (read_room req.len))) 0
          (bytes_at r.buffer 0 r.data_len);
  };
  result = SmiError.no_error;
}

-- What `ode_read_cnf_cb` makes of the request.
unfoldable pub take_reply : ReadCnf → SmiReq → SmiReq
take_reply r req =
    if r.errortype == SmiError.no_error
    then (if leb r.data_len (read_room req.len)
        then with_reply r req
        else record req { result = SmiError.argblock_length_invalid })
    else record req { result = r.errortype }

unfoldable pub ode_read_cnf_cb : ReadCnf → Ode → Run
ode_read_cnf_cb r ode =
    iolink_ode_event (record ode { smi_req = take_reply r ode.smi_req }) ev_od_unblock

unfoldable pub ode_write_cnf_cb : ℕ → Ode → Run
ode_write_cnf_cb errortype ode =
    iolink_ode_event
      (if errortype == SmiError.no_error
        then ode
        else record ode { smi_req = record (ode.smi_req) { result = errortype } })
      ev_od_unblock

-- The `switch` of `SMI_rw_req_cb`.
unfoldable pub rw_req_in : State → SmiReq → Ode → Run
rw_req_in od_active req ode =
    iolink_ode_event (record ode { smi_req = record req { result = SmiError.no_error } })
      ev_smi_dev_rw_4
rw_req_in inactive req ode = iolink_ode_event (record ode { busy = req }) ev_smi_dev_rw_1
rw_req_in od_blocked req ode = iolink_ode_event (record ode { busy = req }) ev_smi_dev_rw_6

unfoldable pub smi_rw_req_cb : SmiReq → Ode → Run
unfolding rw_req_in
smi_rw_req_cb req ode = rw_req_in ode.state req ode

-- The jobs that OD_Start, OD_Stop, ode_SMI_rw_req, ode_AL_Read_cnf and ode_AL_Write_cnf post.
pub data Input : Type 0 where
  start stop : Input
  request : SmiReq → Input
  read_cnf : ReadCnf → Input
  write_cnf : (errortype : ℕ) → Input

unfoldable pub handle : Ode → Input → Run
unfolding ode_read_cnf_cb ode_write_cnf_cb smi_rw_req_cb
handle ode start = iolink_ode_event ode ev_od_start
handle ode stop = iolink_ode_event ode ev_od_stop
handle ode (request req) = smi_rw_req_cb req ode
handle ode (read_cnf r) = ode_read_cnf_cb r ode
handle ode (write_cnf errortype) = ode_write_cnf_cb errortype ode

unfoldable pub handle_all : Ode → List Input → Run
handle_all ode [] = some (ode, [])
handle_all ode (i ∷ inputs) = handle ode i >>= λ d. handle_all d inputs

-- `ode_SMI_DeviceReadWrite_req`: the error that is returned, and the jobs that are posted.
unfoldable pub device_read_write_req : ℕ → SmiReq → IolinkError × List Input
device_read_write_req od_or_void req =
    if req.exp_id == od_or_void
    then (error_none, request req ∷ [])
    else (error_parameter_conflict, [])

-- `ode_SMI_DeviceRead_req`
unfoldable pub ode_smi_device_read_req : SmiReq → IolinkError × List Input
unfolding device_read_write_req
ode_smi_device_read_req req = device_read_write_req ArgBlockId.od_rd req

-- `ode_SMI_DeviceWrite_req`
unfoldable pub ode_smi_device_write_req : SmiReq → IolinkError × List Input
unfolding device_read_write_req
ode_smi_device_write_req req = device_read_write_req ArgBlockId.void_block req

-- `ode_SMI_ParamReadBatch_req` and `ode_SMI_ParamWriteBatch_req` post every request.
abbrev pub ode_smi_param_batch_req : SmiReq → IolinkError × List Input
ode_smi_param_batch_req req = (error_none, request req ∷ [])

-- `iolink_ode_init`
abbrev pub iolink_ode_init : Ode → Ode
iolink_ode_init ode = record ode { state = inactive }
