-- ===== src/Dl/Outputs.antt =====
-- ilink/iolink_dl.c: what becomes of a request to enable or disable the outputs of a device.
use normans_fork.Dl.Command.{
  Command, take_code, cmd_h_sm_in, dl_cmd_h_sm, control_req, on_master_message, IsReady,
  master_command_of,
}
use normans_fork.Prelude.{◌≡◌, Bool, true, false, not, List, [], ◌∷◌, ◌++◌, arith}
use normans_fork.Dl.{channel_page, DlCall, od_write}
use normans_fork.Pde.{ControlCode, code_none}
use normans_fork.Pde.Callbacks.{enable_code}

-- What is sent for a request, until the next message of the master.
unfoldable pub control_sent : ControlCode → Command → Command × List DlCall
control_sent code c =
    let (error, c₁, calls) = control_req code c in
    let (c₂, more) = on_master_message c₁ in (c₂, calls ++ more)

-- What is sent for two requests, until the next message of the master.
unfoldable pub controls_sent : (first second : ControlCode) → Command → Command × List DlCall
unfolding control_sent
controls_sent first second c =
    let (error, c₁, calls) = control_req first c in
    let (c₂, more) = control_sent second c₁ in (c₂, calls ++ more)

-- Of two different requests to enable or disable the outputs, made of an active handler that has no
-- other, where no message of the master comes between them, the second is lost: it only has OD_req
-- called at once for the command of the first. Its own command is not sent with the next message of
-- the master, no control code is left, and the handler is ready for the next request.
pub second_control_lost :
    (c : Command) (enable : Bool)
    → IsReady c
    → let first = enable_code enable in
      let (c', calls) = controls_sent first (enable_code (not enable)) c in
      (calls ≡ od_write channel_page 0 1 (master_command_of first ∷ []) ∷ [])
      × (c'.control_code ≡ code_none)
      × IsReady c'
unfolding controls_sent control_sent control_req on_master_message dl_cmd_h_sm cmd_h_sm_in take_code
second_control_lost c true (ready, active) = ground arith
second_control_lost c false (ready, active) = ground arith

-- A request to enable or disable the outputs, made of an active handler that has no other, is sent to
-- the device as its master command, once, with the next message of the master; no control code is
-- left, and the handler is ready for the next request.
control_sent_lem :
    (c : Command) (enable : Bool)
    → IsReady c
    → let (c', calls) = control_sent (enable_code enable) c in
      (calls ≡ od_write channel_page 0 1 (master_command_of (enable_code enable) ∷ []) ∷ [])
      × (c'.control_code ≡ code_none)
      × IsReady c'
unfolding control_sent control_req on_master_message dl_cmd_h_sm cmd_h_sm_in take_code
control_sent_lem c true (ready, active) = ground arith
control_sent_lem c false (ready, active) = ground arith
