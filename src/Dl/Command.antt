-- ===== src/Dl/Command.antt =====
-- ilink/iolink_dl.c: the handler of commands, `iolink_dl_cmd_h_sm`, and DL_Control_req, which drives it
-- from the caller's thread.
use normans_fork.Prelude.{ℕ, ◌≡◌, List, [], ◌∷◌}
use normans_fork.Types.{IolinkError, error_none, error_controlcode_invalid}
use normans_fork.Pde.{ControlCode, code_none, code_pdoutvalid, code_pdoutinvalid, code_devicemode}
use normans_fork.Dl.{channel_page, DlCall, od_write}

-- `dl_cmdh_st_t`
pub data CommandState : Type 0 where
  command_inactive command_idle master_command_2 : CommandState

-- `CHCmd_t`
pub data ChCmd : Type 0 where
  ch_inactive ch_active : ChCmd

-- `command_h_t`
pub record Command : Type 0 where
  pub state : CommandState
  pub chcmd : ChCmd
  pub control_code : ControlCode
  pub master_command : ℕ

-- IOL_MASTERCMD_DEVICE_OPERATE and IOL_MASTERCMD_DEVICE_PD_OUT_OP
abbrev pub device_operate : ℕ
device_operate = 0x99

abbrev pub device_pd_out_op : ℕ
device_pd_out_op = 0x98

-- The case IDLE_1 of an active handler.
unfoldable pub take_code : ControlCode → Command → Command
take_code code_pdoutvalid c = record c {
  master_command = device_pd_out_op;
  state = master_command_2;
}
take_code code_pdoutinvalid c = record c {
  master_command = device_operate;
  state = master_command_2;
}
take_code code_devicemode c = record c { state = master_command_2 }
take_code _ c = c

-- The cases of an active and of an inactive handler where no command is under way.
abbrev pub cmd_idle : ChCmd → Command → Command
cmd_idle ch_inactive c = record c { state = command_inactive }
cmd_idle ch_active c = take_code c.control_code c

abbrev pub cmd_inactive : ChCmd → Command → Command
cmd_inactive ch_active c = record c { state = command_idle }
cmd_inactive ch_inactive c = c

-- The `switch` of `iolink_dl_cmd_h_sm`.
unfoldable pub cmd_h_sm_in : CommandState → Command → Command × List DlCall
unfolding take_code
cmd_h_sm_in command_inactive c = (cmd_inactive c.chcmd c, [])
cmd_h_sm_in command_idle c = (cmd_idle c.chcmd c, [])
cmd_h_sm_in master_command_2 c = (
  record c { control_code = code_none; state = command_idle },
  od_write channel_page 0 1 (c.master_command ∷ []) ∷ [],
)

-- `iolink_dl_cmd_h_sm`
unfoldable pub dl_cmd_h_sm : Command → Command × List DlCall
unfolding cmd_h_sm_in
dl_cmd_h_sm c = cmd_h_sm_in c.state c

-- `DL_Control_req`, with the handler of commands.
unfoldable pub control_req : ControlCode → Command → IolinkError × Command × List DlCall
unfolding dl_cmd_h_sm
control_req code_none c = (error_controlcode_invalid, c, [])
control_req code_devicemode c = (error_controlcode_invalid, c, [])
control_req code c =
    let (c', calls) = dl_cmd_h_sm (record c { control_code = code }) in (error_none, c', calls)

-- The branch T3 of `iolink_dl_od_h_sm_isdu1`, for a message of the master: the handler of commands has
-- the message if there is a control code, and the handler of ISDUs has it otherwise.
unfoldable pub on_master_message : Command → Command × List DlCall
unfolding dl_cmd_h_sm
on_master_message c = elim c.control_code as (λ _. Command × List DlCall) [
  | code_none ↦ (c, [])
  | _ ↦ dl_cmd_h_sm c
]

-- The handler waits for a control code.
abbrev pub IsReady : Command → Type 0
IsReady c = (c.state ≡ command_idle) × (c.chcmd ≡ ch_active)

-- The master command for a change of the outputs.
abbrev pub master_command_of : ControlCode → ℕ
master_command_of code_pdoutvalid = device_pd_out_op
master_command_of _ = device_operate
