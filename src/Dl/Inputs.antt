-- ===== src/Dl/Inputs.antt =====
-- ilink/iolink_dl.c: what reaches the handler of ISDUs: the requests of the application layer, the
-- messages that the handler of on-request data passes on, and the commands of the mode handler.
use normans_fork.Prelude.{ℕ, Bool, true, false, not, List, [], ◌∷◌, ◌++◌, ltb, if◌then◌else◌, Bytes}
use normans_fork.Types.{
  IolinkError, error_none, error_state_invalid, error_address_invalid, Status, state_conflict,
  value_out_of_range,
}
use normans_fork.Dl.{
  IhCmd, rw_none, rw_writeparam, rw_readparam, Trigger, no_trigger, device_message, master_message,
  ModeState, MhInfo, mhinfo_comlost, Dl, DlCall, read_param_cnf, write_param_cnf,
  wake_message_handler, stop_message_handler, wake_mode_handler, Step,
}
use normans_fork.Dl.Isdu.{isdu_h_sm}
use normans_fork.Dl.Transport.{ValueList, is_preoperate, dl_isdu_transport_req}

-- The address and the value that DL_ReadWriteParam_req stores for a write or a read.
abbrev with_param : Bool → (address value : ℕ) → Dl → Dl
with_param true address value dl = record dl { data_addr = address; data_value = value }
with_param false address value dl = record dl { data_addr = address }

abbrev param_refused : Bool → Status → DlCall
param_refused true errinfo = write_param_cnf errinfo
param_refused false errinfo = read_param_cnf 0 errinfo

-- `DL_ReadWriteParam_req`; `mh_ready` tells that the message handler is in PREOPERATE_6 or AW_REPLY_16.
-- The command is set before the request is looked at.
unfoldable pub dl_read_write_param_req :
    (write mh_ready : Bool) (address value : ℕ) → Dl → IolinkError × Dl × List DlCall
dl_read_write_param_req write mh_ready address value dl =
    let dl' = record dl { rwcmd = if write then rw_writeparam else rw_readparam } in
    if not mh_ready
    then (error_state_invalid, dl', param_refused write state_conflict ∷ [])
    else if ltb 31 address
    then (error_address_invalid, dl', param_refused write value_out_of_range ∷ [])
    else (
      error_none,
      with_param write address value dl',
      (if is_preoperate dl'.mode then wake_message_handler ∷ [] else []),
    )

-- The branch T2 of `iolink_dl_od_h_sm_isdu1`.
unfoldable pub od_message : Trigger → ℕ → Dl → Step
od_message t now dl =
    let (dl', calls) = isdu_h_sm now (record dl { trigger = t }) in
    (record dl' { trigger = no_trigger }, calls)

-- `IH_Conf`
unfoldable pub ih_conf : IhCmd → ℕ → Dl → Step
ih_conf cmd now dl = isdu_h_sm now (record dl { ihcmd = cmd })

pub data Input : Type 0 where
  transport : ValueList → Input
  param : (write mh_ready : Bool) (address value : ℕ) → Input
  master : (now : ℕ) → Input
  device : (now : ℕ) → Bytes → Input
  conf : IhCmd → (now : ℕ) → Input
  -- `iolink_dl_mh_handle_com_lost`, without the timers and flags of the message handler; the mode
  -- handler that it wakes gives the next input, `conf ih_inactive`
  com_lost : Input
  -- what the mode handler, `MHInfo_ind` and DL_SetMode_req set
  mode_change : ModeState → MhInfo → (od_len : ℕ) → Input

abbrev without_error : IolinkError × Dl × List DlCall → Step
without_error (error, dl, calls) = (dl, calls)

unfoldable pub handle : Dl → Input → Step
unfolding od_message ih_conf dl_isdu_transport_req dl_read_write_param_req
handle dl (transport v) = without_error (dl_isdu_transport_req v dl)
handle dl (param write mh_ready address value) =
    without_error (dl_read_write_param_req write mh_ready address value dl)
handle dl (master now) = od_message master_message now dl
handle dl (device now rx) = od_message device_message now (record dl { rxbuffer = rx })
handle dl (conf cmd now) = ih_conf cmd now dl
handle dl com_lost = (
  record dl { mhinfo = mhinfo_comlost; rwcmd = rw_none },
  stop_message_handler ∷ wake_mode_handler ∷ [],
)
handle dl (mode_change mode mhinfo od_len) =
    (record dl { mode = mode; mhinfo = mhinfo; od_len = od_len }, [])

unfoldable pub handle_all : Dl → List Input → Step
handle_all dl [] = (dl, [])
handle_all dl (i ∷ inputs) =
    let (dl', calls) = handle dl i in
    let (end, more) = handle_all dl' inputs in (end, calls ++ more)
