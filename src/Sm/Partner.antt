-- ===== src/Sm/Partner.antt =====
-- ilink/iolink_sm.c: a conversation of the system management with the layers below it and a device.
use normans_fork.Prelude.{
  ℕ, zero, suc, Option, none, some, List, [], ◌∷◌, ◌++◌, ◌==◌, if◌then◌else◌,
}
use normans_fork.Types.{ReadCnf, status_no_error}
use normans_fork.Sm.{
  mh_inactive, mh_startup, mh_preoperate, mh_operate, PortMode, DlMode, dlmode_inactive,
  dlmode_startup, dlmode_preoperate, dlmode_operate, Sm, SmCall, dl_read_req, dl_write_req,
  dl_write_devicemode_req, dl_set_mode_req, sm_portmode_ind, sm_al_read_req, sm_al_write_req,
  index_serial_number,
}
use normans_fork.Sm.Confirmations.{
  Input, write_cycl_cnf, al_read_cnf, dl_mode_ind, dl_write_devmode_cnf, dl_read_cnf_of,
  dl_write_cnf_of, handle,
}

-- A device that can be read: its direct parameters by address, and the reply to a read of its serial
-- number.
pub record Partner : Type 0 where
  pub direct : ℕ → ℕ
  pub serial : ReadCnf

-- What the data link layer indicates of a mode that it is asked for. With STARTUP it first confirms a
-- read of the minimum cycle time that was not asked for, as `iolink_dl_message_h_sm_await_reply1` does.
abbrev pub mode_reply : Partner → Sm → DlMode → List Input
mode_reply p sm dlmode_startup =
    dl_read_cnf_of (p.direct 2) status_no_error sm ∷ dl_mode_ind mh_startup ∷ []
mode_reply p sm dlmode_preoperate = dl_mode_ind mh_preoperate ∷ []
mode_reply p sm dlmode_operate = dl_mode_ind mh_operate ∷ []
mode_reply p sm dlmode_inactive = dl_mode_ind mh_inactive ∷ []

-- The jobs that a call leads to, where nothing fails. The value that is read is that of the address
-- asked for, and the confirmation has the address that the port keeps.
unfoldable pub reply : Partner → Sm → SmCall → List Input
reply p sm (dl_read_req addr) = dl_read_cnf_of (p.direct addr) status_no_error sm ∷ []
reply p sm (dl_write_req addr value) = dl_write_cnf_of status_no_error sm ∷ []
reply p sm (dl_write_devicemode_req mode) = dl_write_devmode_cnf status_no_error ∷ []
reply p sm (dl_set_mode_req mode list) = mode_reply p sm mode
reply p sm (sm_al_read_req index subindex) =
    if index == index_serial_number then al_read_cnf p.serial ∷ [] else []
reply p sm (sm_al_write_req index subindex bytes) = write_cycl_cnf 0 ∷ []
reply p sm _ = []

unfoldable pub replies : Partner → Sm → List SmCall → List Input
unfolding reply
replies p sm [] = []
replies p sm (c ∷ calls) = reply p sm c ++ replies p sm calls

-- The modes that the configuration manager is told.
unfoldable pub told : List SmCall → List PortMode
told [] = []
told (sm_portmode_ind mode ∷ calls) = mode ∷ told calls
told (_ ∷ calls) = told calls

-- The jobs are taken in order, and each call that a job makes adds the jobs that it leads to. The
-- result is the port when no job is left, with the modes told so far; there is none if jobs are left
-- after the number of rounds.
unfoldable pub converse :
    (rounds : ℕ) → Partner → List PortMode → Sm → List Input → Option (Sm × List PortMode)
unfolding handle replies told
converse zero p so_far sm [] = some (sm, so_far)
converse zero p so_far sm (i ∷ inputs) = none
converse (suc rounds) p so_far sm [] = some (sm, so_far)
converse (suc rounds) p so_far sm (i ∷ inputs) =
    let (sm', calls) = handle sm i in
    converse rounds p (so_far ++ told calls) sm' (inputs ++ replies p sm' calls)
