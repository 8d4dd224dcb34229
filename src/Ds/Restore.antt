-- ===== src/Ds/Restore.antt =====
-- The download of ilink/iolink_ds.c: a valid data set is written back, parameter by parameter.
use normans_fork.Prelude.{
  ◌+◌, ◌≤◌, ◌<◌, ◌≡◌, refl, ◌∙◌, some, List, [], ◌∷◌, ◌++◌, map, arith, length, All,
}
use normans_fork.Types.{Call, al_write}
use normans_fork.Ds.{
  decompose_set, write_parameter, download_done, ev_none, ev_download, ev_wr_done, cmd_dl_end, Ds,
  PortInfo, param_index, subindex_cmd,
}
use normans_fork.Ds.Actions.{ds_write_param, ds_dl_done, ds_decompose_rest, ds_decompose_set, act}
use normans_fork.Ds.Fsm.{event_num, transitions, find_transition, event_loop, iolink_ds_event}
use normans_fork.Ds.Callbacks.{write_cnf_in, ds_write_cnf_cb, Input, write_cnf, handle, handle_all}
use normans_fork.Ds.Codec.{Param, IsParam}
use normans_fork.Ds.Runs.{handle_all-cons}
use normans_fork.Ds.Decode.{Encodes, param_write, ds_write_param_lem}

-- The parameters `ps` are still to be written after the one whose confirmation is awaited.
pub record IsRestoring (ds : Ds) (ps : List Param) : Type 0 where
  pub in_state : ds.state ≡ write_parameter
  pub left_of : Encodes ds.master_ds ps

-- What a download leaves alone.
pub record SameData (d ds : Ds) : Type 0 where
  pub bytes_same : d.master_ds.bytes ≡ ds.master_ds.bytes
  pub size_same : d.master_ds.size ≡ ds.master_ds.size
  pub valid_same : d.master_ds.valid ≡ ds.master_ds.valid

-- The confirmation of a written parameter.
abbrev pub confirm : Param → Input
confirm p = write_cnf 0

-- A parameter has been sent.
abbrev sent : Ds → Param → Ds
sent ds p = record ds {
  state = write_parameter;
  master_ds = record (ds.master_ds) { pos = ds.master_ds.pos + (4 + length p.bytes) };
  current_index = param_index;
  current_subindex = p.subindex;
}

-- All parameters have been sent.
abbrev finished : Ds → Ds
finished ds = record ds {
  state = download_done;
  current_index = param_index;
  current_subindex = subindex_cmd;
  command = cmd_dl_end;
}

module _ (info : PortInfo) where
  write_confirmed :
      (ds : Ds)
      → ds.state ≡ write_parameter
      → handle info ds (write_cnf 0) ≡ iolink_ds_event info ds ev_wr_done
  unfolding handle ds_write_cnf_cb write_cnf_in
  write_confirmed ds h = ground arith

  send_next :
      (ds d : Ds) (c : List Call)
      → ds.state ≡ write_parameter
      → ds.master_ds.pos < ds.master_ds.size
      → ds_write_param (record ds { state = write_parameter }) ≡ (d, c, ev_none)
      → iolink_ds_event info ds ev_wr_done ≡ some (d, c)
  unfolding iolink_ds_event event_loop find_transition transitions event_num act ds_decompose_set
      ds_decompose_rest
  send_next ds d c h lt e = ground arith

  pub send_first :
      (ds d : Ds) (c : List Call)
      → ds.state ≡ decompose_set
      → 0 < ds.master_ds.size
      → ds_write_param
          (record ds { state = write_parameter; master_ds = record (ds.master_ds) { pos = 0 } })
        ≡ (d, c, ev_none)
      → iolink_ds_event info ds ev_download ≡ some (d, c)
  unfolding iolink_ds_event event_loop find_transition transitions event_num act ds_decompose_set
      ds_decompose_rest
  send_first ds d c h lt e = ground arith

  send_end :
      (ds : Ds)
      → ds.state ≡ write_parameter
      → ds.master_ds.size ≤ ds.master_ds.pos
      → iolink_ds_event info ds ev_wr_done
        ≡ some (finished ds, al_write param_index subindex_cmd (4 ∷ []) ∷ [])
  unfolding iolink_ds_event event_loop find_transition transitions event_num act ds_decompose_set
      ds_decompose_rest ds_dl_done
  send_end ds h le = ground arith

  -- Each confirmation brings the next parameter of the data set, whole and in order, and the last
  -- one DS_CMD_DL_END.
  pub params_sent :
      (ps : List Param) (ds : Ds)
      → IsRestoring ds ps
      → All IsParam ps
      → (d : Ds) × (handle_all info ds (write_cnf 0 ∷ map confirm ps)
          ≡ some (d, map param_write ps ++ (al_write param_index subindex_cmd (4 ∷ []) ∷ [])))
        × (d.state ≡ download_done)
        × SameData d ds
  unfolding handle_all
  params_sent [] ds w ok = (
    finished ds,
    handle_all-cons info ds (finished ds) (finished ds) (write_cnf 0) [] _ []
        (write_confirmed ds w.in_state ∙ send_end ds w.in_state (omega (arith, w.left_of.end_of)))
        refl,
    refl,
    record { bytes_same = refl; size_same = refl; valid_same = refl },
  )
  params_sent (p ∷ ps) ds w ok =
      let (step, rest) =
        ds_write_param_lem (record ds { state = write_parameter }) p ps w.left_of ok.0 in
      let some_left : ds.master_ds.pos < ds.master_ds.size = omega (arith, w.left_of.end_of) in
      let (d, run, done, same) =
        params_sent ps (sent ds p) (record { in_state = refl; left_of = rest }) ok.1 in
      (
        d,
        handle_all-cons info ds (sent ds p) d (write_cnf 0) (write_cnf 0 ∷ map confirm ps) _ _
            (write_confirmed ds w.in_state ∙ send_next ds (sent ds p) _ w.in_state some_left step)
            run,
        done,
        ground arith,
      )
