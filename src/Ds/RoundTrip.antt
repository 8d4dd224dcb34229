-- ===== src/Ds/RoundTrip.antt =====
-- The download of ilink/iolink_ds.c as a whole, and a backup followed by a restore.
use mathlib.Core.Path.{ap₂}
use normans_fork.Prelude.{
  ◌≤◌, ◌<◌, ◌≡◌, refl, sym, ap, ◌∙◌, ◌⊎◌, some, List, [], ◌∷◌, ◌++◌, map, arith, length,
  length-append, All, bytes_at,
}
use normans_fork.Prelude.Memory.Laws.{length-bytes_at}
use normans_fork.Types.{Call, al_read, al_write, ds_ready_ind, ReadCnf}
use normans_fork.Ds.{
  waiting_on_ds_activity, check_identity, check_mem_size, check_upload, check_ds_validity,
  decompose_set, write_parameter, cmd_dl_start, MasterDs, Ds, PortInfo, max_size, param_index,
  subindex_cmd, subindex_state, subindex_size, subindex_checksum,
}
use normans_fork.Ds.Callbacks.{
  big_endian_32, set_device_cs, Input, startup, read_cnf, write_cnf, handle, handle_all,
}
use normans_fork.Ds.Codec.{Param, encode_param, encode, IsParam}
use normans_fork.Ds.Decode.{param_write, ds_write_param_lem}
use normans_fork.Ds.Restore.{IsRestoring, SameData, confirm, send_first, params_sent}
use normans_fork.Ds.Runs.{handle_all-cons, handle_all-append, handle_two}
use normans_fork.Ds.Backup.{
  HoldsBackup, IsChecksum, upload_jobs, upload_calls, IsUpload, upload_lem,
}
use normans_fork.Ds.Handshake.{
  IsRestore, asking, with_size, with_property, startup_asks_size, size_asks_property,
  property_asks_checksum, checksum_starts_download, download_confirmed, end_confirmed,
  checksum_ends_download,
}
use normans_fork.Ds.Replies.{Answer, answer_param}

-- What the AL confirms during the restore of `p` and `ps`: the device's data storage size, its
-- state property, its checksum, DS_CMD_DL_START, every parameter, DS_CMD_DL_END and the checksum.
abbrev pub restore_jobs : ReadCnf → ReadCnf → ReadCnf → List Param → ReadCnf → List Input
restore_jobs size property checksum ps last =
    startup
    ∷ read_cnf size
    ∷ read_cnf property
    ∷ read_cnf checksum
    ∷ write_cnf 0
    ∷ ((write_cnf 0 ∷ map confirm ps) ++ (write_cnf 0 ∷ read_cnf last ∷ []))

-- What the master asks for: those three parameters of the data storage, DS_CMD_DL_START, the write
-- of every parameter in order, DS_CMD_DL_END and the checksum; then it reports that it is ready.
abbrev pub restore_calls : Param → List Param → List Call
restore_calls p ps =
    al_read param_index subindex_size
    ∷ al_read param_index subindex_state
    ∷ al_read param_index subindex_checksum
    ∷ al_write param_index subindex_cmd (3 ∷ [])
    ∷ param_write p
    ∷ ((map param_write ps ++ (al_write param_index subindex_cmd (4 ∷ []) ∷ []))
        ++ (al_read param_index subindex_checksum ∷ ds_ready_ind ∷ []))

module _ (info : PortInfo) where
  -- The first parameter is sent from the beginning of the data set.
  first_sent :
      (ds : Ds) (p : Param) (ps : List Param)
      → ds.state ≡ decompose_set
      → bytes_at ds.master_ds.bytes 0 ds.master_ds.size ≡ encode (p ∷ ps)
      → ds.master_ds.size ≤ max_size
      → IsParam p
      → (d : Ds) × (handle info ds (write_cnf 0) ≡ some (d, param_write p ∷ []))
        × IsRestoring d ps
        × SameData d ds
  first_sent ds p ps h bytes_of fits ok =
      let n : length (encode (p ∷ ps)) ≡ ds.master_ds.size =
        ap length (sym bytes_of) ∙ length-bytes_at ds.master_ds.size ds.master_ds.bytes 0 in
      let m : MasterDs = record (ds.master_ds) { pos = 0 } in
      let (step, rest) =
        ds_write_param_lem (record ds { state = write_parameter; master_ds = m }) p ps
          (record { left_of = rw n bytes_of; end_of = omega (arith, n); fits = fits }) ok in
      let some_left : 0 < ds.master_ds.size =
        omega (arith, n, length-append (encode_param p) (encode ps)) in
      (
        _,
        download_confirmed info ds h ∙ send_first info ds _ _ h some_left step,
        record { in_state = refl; left_of = rest },
        record { bytes_same = refl; size_same = refl; valid_same = refl },
      )

  -- A start-up of the device whose parameters the data set holds, where a restore is allowed and
  -- called for and every confirmation is positive, writes exactly those parameters back, each whole
  -- and in the order of the data set, between DS_CMD_DL_START and DS_CMD_DL_END; then the state
  -- machine is idle and holds the same data set.
  pub restore_lem :
      (ds : Ds) (p : Param) (ps : List Param) (size property checksum last : ReadCnf)
      → HoldsBackup ds (p ∷ ps)
      → IsRestore info ds size property checksum
      → ds.master_ds.size ≤ max_size
      → IsParam p
      → All IsParam ps
      → IsChecksum last
      → (d : Ds) × (handle_all info ds (restore_jobs size property checksum ps last)
          ≡ some (d, restore_calls p ps))
        × HoldsBackup d (p ∷ ps)
  restore_lem ds p ps size property checksum last held w fits ok oks last_ok =
      let d₁ = with_size size ds in
      let d₂ = with_property property d₁ in
      let d₃ : Ds =
        asking decompose_set subindex_cmd
          (record (set_device_cs (big_endian_32 checksum.buffer) d₂) { command = cmd_dl_start }) in
      let (d₄, run₄, restoring, same₄) = first_sent d₃ p ps refl held.bytes_of fits ok in
      let (d₅, run₅, done, same₅) = params_sent info ps d₄ restoring oks in
      let d₆ : Ds = record d₅ {
        current_index = param_index;
        current_subindex = subindex_checksum;
      } in
      let d₇ : Ds = record (set_device_cs (big_endian_32 last.buffer) d₆) {
        state = waiting_on_ds_activity;
      } in
      let tail : List Input = write_cnf 0 ∷ read_cnf last ∷ [] in
      let params : List Input = (write_cnf 0 ∷ map confirm ps) ++ tail in
      (
        d₇,
        handle_all-cons info ds (asking check_identity subindex_size ds) d₇ startup
            (read_cnf size ∷ read_cnf property ∷ read_cnf checksum ∷ write_cnf 0 ∷ params) _ _
            (startup_asks_size info ds held.in_state w.vid_of w.did_of)
            (handle_all-cons info _ (asking check_mem_size subindex_state d₁) d₇ (read_cnf size)
              (read_cnf property ∷ read_cnf checksum ∷ write_cnf 0 ∷ params) _ _
              (size_asks_property info ds size w.size_ok w.size_long w.size_fits)
              (handle_all-cons info _ (asking check_upload subindex_checksum d₂) d₇
                (read_cnf property) (read_cnf checksum ∷ write_cnf 0 ∷ params) _ _
                (property_asks_checksum info d₁ property w.property_ok w.property_len w.not_locked
                  w.no_upload)
                (handle_all-cons info _ d₃ d₇ (read_cnf checksum) (write_cnf 0 ∷ params) _ _
                  (checksum_starts_download info d₂ checksum w.checksum_ok held.is_valid
                    w.download_on w.differs)
                  (handle_all-cons info d₃ d₄ d₇ (write_cnf 0) params _ _ run₄ (
                    handle_all-append info (write_cnf 0 ∷ map confirm ps) d₄ d₅ d₇ tail _ _ run₅ (
                      handle_two info d₅ d₆ d₇ (write_cnf 0) (read_cnf last) _ _
                        (end_confirmed info d₅ done)
                        (checksum_ends_download info d₆ last done last_ok))))))),
        record {
          in_state = refl;
          is_valid = ground (arith, held.is_valid);
          bytes_of =
              ap₂ (λ m n. bytes_at m 0 n) (same₅.bytes_same ∙ same₄.bytes_same)
                (same₅.size_same ∙ same₄.size_same)
              ∙ held.bytes_of;
        },
      )

-- What the data storage knows of its data set after an upload, beside the parameters.
abbrev pub backed_up : Ds → ReadCnf → Ds
backed_up ds checksum = record ds {
  master_ds = record (ds.master_ds) {
    vid = ds.pending_vendorid;
    did = ds.pending_deviceid;
    cs = big_endian_32 checksum.buffer;
  };
}

module _ (info : PortInfo) where
  -- The parameters that a device replies with during an upload are the parameters that the next
  -- restore writes: every index, subindex and byte, in the order of the index list. The upload and
  -- the restore meet the conditions of `IsUpload` and `IsRestore`, and every index, subindex and
  -- length fits its field.
  pub round_trip :
      (ds : Ds) (list : ReadCnf) (a : Answer) (todo : List Answer) (taken : ReadCnf)
      (size property checksum last : ReadCnf)
      → (ds.state ≡ check_upload) ⊎ (ds.state ≡ check_ds_validity)
      → IsUpload list (a ∷ todo) taken
      → IsRestore info (backed_up ds taken) size property checksum
      → IsParam (answer_param a)
      → All IsParam (map answer_param todo)
      → IsChecksum last
      → (d : Ds) × (handle_all info ds (
            upload_jobs list (a ∷ todo) taken
            ++ restore_jobs size property checksum (map answer_param todo) last)
          ≡ some (
            d,
            upload_calls (a ∷ todo) ++ restore_calls (answer_param a) (map answer_param todo),
          ))
  round_trip ds list a todo taken size property checksum last h up w ok oks last_ok =
      let (d₁, run₁, held, vid_of, did_of, cs_of, setup) =
        upload_lem info ds list a todo taken h up in
      let n =
        ap length (sym held.bytes_of) ∙ length-bytes_at d₁.master_ds.size d₁.master_ds.bytes 0 in
      let allowed : IsRestore info d₁ size property checksum = record {
        download_on = setup.download_of ∙ w.download_on;
        vid_of = vid_of ∙ w.vid_of;
        did_of = did_of ∙ w.did_of;
        size_ok = w.size_ok;
        size_long = w.size_long;
        size_fits = omega (arith, setup.size_max_of, w.size_fits);
        property_ok = w.property_ok;
        property_len = w.property_len;
        not_locked = w.not_locked;
        no_upload = w.no_upload;
        checksum_ok = w.checksum_ok;
        differs = λ e. w.differs (sym cs_of ∙ e);
      } in
      let (d₂, run₂, _) =
        restore_lem info d₁ (answer_param a) (map answer_param todo) size property checksum last
          held allowed (omega (arith, n, up.fits)) ok oks last_ok in
      (d₂, handle_all-append info (upload_jobs list (a ∷ todo) taken) ds d₁ d₂ _ _ _ run₁ run₂)
