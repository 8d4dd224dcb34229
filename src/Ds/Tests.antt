-- ===== src/Ds/Tests.antt =====
-- The data storage on one device: two parameters, backed up and restored.
use normans_fork.Types.ArgBlockId
use normans_fork.Prelude.{
  ℕ, zero, suc, ◌+◌, ◌≡◌, refl, inl, inr, true, false, some, List, [], ◌∷◌, ◌++◌, arith,
  if◌then◌else◌, length, Bytes, bytes_at,
}
use normans_fork.Types.{up_fault, error_none, Call, al_write, ds_fault_ind, smi_void_cnf, ReadCnf}
use normans_fork.Ds.{
  waiting_on_ds_activity, off, check_upload, read_parameter, write_parameter, Ds, PortInfo,
  max_entries, param_index, subindex_cmd,
}
use normans_fork.Ds.Callbacks.{
  PortConfig, read_index_list, param_header, startup, delete, upload, init, read_cnf, write_cnf,
  handle, handle_all, fresh,
}
use normans_fork.Ds.Codec.{encode, IsParam}
use normans_fork.Ds.Index.{
  EntriesAt, HasEntries, read_index_list_lem, read_index_list-count_of_full,
}
use normans_fork.Ds.Replies.{Answer, answer_param, answer_job, IsReading, SameSetup}
use normans_fork.Ds.Backup.{HoldsBackup, upload_jobs, upload_calls, IsUpload, upload_lem}
use normans_fork.Ds.Handshake.{IsRestore}
use normans_fork.Ds.RoundTrip.{restore_jobs, restore_calls, restore_lem, backed_up, round_trip}
use normans_fork.Ds.Bounds.{After, SameOutside, handle_all-SameOutside}
use normans_fork.Ds.Termination.{handle_all_ends}
use normans_fork.Ds.Smi.{DsBlock, ds_smi_par_serv_to_ds_req, par_serv_length_wraps}
use normans_fork.Ds.Failures.{read_failure, command_failure_sticks}
use normans_fork.Ds.Setup.{init_lem}

-- A buffer that begins with these bytes.
abbrev of_list : List ℕ → Bytes
of_list [] i = 0
of_list (x ∷ xs) zero = x
of_list (x ∷ xs) (suc i) = of_list xs i

abbrev reply_with : List ℕ → ReadCnf
reply_with xs = record { buffer = of_list xs; data_len = length xs; errortype = 0 }

abbrev reply_failed : ReadCnf
reply_failed = record { buffer = of_list []; data_len = 0; errortype = 0x8011 }

abbrev info : PortInfo
info = record { vendorid = 42; deviceid = 7 }

abbrev first : Answer
first = record { entry = record { index = 300; subindex = 0 }; reply = reply_with (11 ∷ 12 ∷ []) }

abbrev second : Answer
second = record { entry = record { index = 101; subindex = 1 }; reply = reply_with (21 ∷ []) }

abbrev list_answer : ReadCnf
list_answer = reply_with (1 ∷ 44 ∷ 0 ∷ 0 ∷ 101 ∷ 1 ∷ 0 ∷ 0 ∷ [])

abbrev cs_one : ReadCnf
cs_one = reply_with (1 ∷ 2 ∷ 3 ∷ 4 ∷ [])

abbrev cs_two : ReadCnf
cs_two = reply_with (9 ∷ 9 ∷ 9 ∷ 9 ∷ [])

abbrev size_reply : ReadCnf
size_reply = reply_with (0 ∷ 0 ∷ 1 ∷ 0 ∷ [])

abbrev property_reply : ReadCnf
property_reply = reply_with (0 ∷ [])

-- An upload has been requested and DS_CMD_UL_START been sent.
abbrev uploading : Ds
uploading = record fresh {
  state = check_upload;
  ds_enable = true;
  ds_upload = true;
  ds_download = true;
  pending_vendorid = 42;
  pending_deviceid = 7;
}

is_upload : IsUpload list_answer (first ∷ second ∷ []) cs_one
unfolding bytes_at param_header
is_upload = record {
  list_ok = refl;
  list_of = omega arith;
  few = omega arith;
  answers_ok = (
    record { no_error = refl; no_list = refl },
    (record { no_error = refl; no_list = refl }, tt),
  );
  fits = omega arith;
  checksum_ok = omega arith;
}

is_restore : IsRestore info (backed_up uploading cs_one) size_reply property_reply cs_two
is_restore = record {
  download_on = refl;
  vid_of = refl;
  did_of = refl;
  size_ok = refl;
  size_long = omega arith;
  size_fits = omega arith;
  property_ok = refl;
  property_len = refl;
  not_locked = refl;
  no_upload = refl;
  checksum_ok = omega arith;
  differs = omega arith;
}

params_ok : IsParam (answer_param first) × IsParam (answer_param second)
unfolding bytes_at
params_ok = omega arith

round_trip_example :
    (d : Ds) × (handle_all info uploading (
        upload_jobs list_answer (first ∷ second ∷ []) cs_one
        ++ restore_jobs size_reply property_reply cs_two (answer_param second ∷ []) cs_two)
      ≡ some (
        d,
        upload_calls (first ∷ second ∷ [])
            ++ restore_calls (answer_param first) (answer_param second ∷ []),
      ))
round_trip_example =
    round_trip info uploading list_answer first (second ∷ []) cs_one size_reply property_reply
      cs_two cs_two (inl refl) is_upload is_restore params_ok.0 (params_ok.1, tt) (omega arith)

upload_lem_example :
    (d : Ds) × (handle_all info uploading (upload_jobs list_answer (first ∷ second ∷ []) cs_one)
      ≡ some (d, upload_calls (first ∷ second ∷ [])))
    × HoldsBackup d (answer_param first ∷ answer_param second ∷ [])
    × (d.master_ds.vid ≡ 42)
    × (d.master_ds.did ≡ 7)
    × (d.master_ds.cs ≡ 0x1020304)
    × SameSetup d uploading
upload_lem_example =
    upload_lem info uploading list_answer first (second ∷ []) cs_one (inl refl) is_upload

-- The data set after that upload.
abbrev backup : Ds
backup = record uploading {
  state = waiting_on_ds_activity;
  master_ds = record (fresh.master_ds) {
    cs = 0x1020304;
    vid = 42;
    did = 7;
    valid = true;
    size = 11;
    bytes = of_list (1 ∷ 44 ∷ 0 ∷ 2 ∷ 11 ∷ 12 ∷ 0 ∷ 101 ∷ 1 ∷ 1 ∷ 21 ∷ []);
  };
}

backup-HoldsBackup : HoldsBackup backup (answer_param first ∷ answer_param second ∷ [])
unfolding bytes_at param_header
backup-HoldsBackup = record { in_state = refl; is_valid = refl; bytes_of = refl }

restore_lem_example :
    (d : Ds) × (handle_all info backup
        (restore_jobs size_reply property_reply cs_two (answer_param second ∷ []) cs_two)
      ≡ some (d, restore_calls (answer_param first) (answer_param second ∷ [])))
    × HoldsBackup d (answer_param first ∷ answer_param second ∷ [])
restore_lem_example =
    restore_lem info backup (answer_param first) (answer_param second ∷ []) size_reply
      property_reply cs_two cs_two backup-HoldsBackup
      (record {
        download_on = refl;
        vid_of = refl;
        did_of = refl;
        size_ok = refl;
        size_long = omega arith;
        size_fits = omega arith;
        property_ok = refl;
        property_len = refl;
        not_locked = refl;
        no_upload = refl;
        checksum_ok = omega arith;
        differs = omega arith;
      })
      (omega arith) params_ok.0 (params_ok.1, tt) (omega arith)

-- The reply of 200 bytes does not fit behind 1900.
abbrev nearly_full : Ds
nearly_full = record uploading {
  state = read_parameter;
  current_index = 300;
  master_ds = record (fresh.master_ds) { pos = 1900 };
}

handle_all-SameOutside_example : After (SameOutside nearly_full) (
    handle_all info nearly_full
      (read_cnf (record { buffer = λ i. 5; data_len = 200; errortype = 0 }) ∷ []))
handle_all-SameOutside_example =
    handle_all-SameOutside info
      (read_cnf (record { buffer = λ i. 5; data_len = 200; errortype = 0 }) ∷ []) nearly_full

handle_all_ends_example :
    (o : Ds × List Call) × (handle_all info fresh (startup ∷ upload ∷ delete ∷ []) ≡ some o)
handle_all_ends_example = handle_all_ends info fresh (startup ∷ upload ∷ delete ∷ [])

command_failure_sticks_example :
    (d : Ds) × (handle_all info uploading (write_cnf 0x1000 ∷ upload ∷ startup ∷ []) ≡ some (d, []))
    × (d.state ≡ check_upload)
command_failure_sticks_example =
    command_failure_sticks info uploading 0x1000 (upload ∷ startup ∷ []) (inl refl) (omega arith)
      (tt, (tt, tt))

-- The first parameter has been stored, and the second is being read.
abbrev half_way : Ds
half_way = record uploading {
  state = read_parameter;
  current_index = 101;
  current_subindex = 1;
  master_ds = record (fresh.master_ds) { pos = 6; bytes = of_list (1 ∷ 44 ∷ 0 ∷ 2 ∷ 11 ∷ 12 ∷ []) };
  index_list = record (fresh.index_list) { count = 2; pos = 2 };
}

abbrev second_failed : Answer
second_failed = record second { reply = reply_failed }

half_way-IsReading : IsReading half_way (answer_param first ∷ []) second_failed []
unfolding bytes_at param_header
half_way-IsReading = record {
  in_state = refl;
  index_of = refl;
  subindex_of = refl;
  bytes_of = refl;
  list_of = tt;
  count_of = refl;
  count_fits = omega arith;
}

read_failure_example :
    (d : Ds) × (handle_all info half_way (answer_job second_failed ∷ write_cnf 0 ∷ [])
      ≡ some (d, al_write param_index subindex_cmd (5 ∷ []) ∷ ds_fault_ind up_fault ∷ []))
    × (d.state ≡ waiting_on_ds_activity)
    × (d.master_ds.valid ≡ false)
    × (d.master_ds.size ≡ 0)
    × (d.master_ds.cs ≡ 0)
    × (bytes_at d.master_ds.bytes 0 6 ≡ encode (answer_param first ∷ []))
read_failure_example =
    read_failure info half_way (answer_param first ∷ []) second_failed [] half_way-IsReading
      (omega arith)

abbrev writing : Ds
writing = record backup { state = write_parameter }

abbrev block : DsBlock
block = record { id = 0x7000; vid = 42; did = 7; fid = 0; ds_bytes = λ i. 1 }

par_serv_length_wraps_example :
    let (error, d, calls) =
      ds_smi_par_serv_to_ds_req ArgBlockId.void_block (300 + 14) block fresh in
    (error ≡ error_none)
    × (d.master_ds.size ≡ 44)
    × (bytes_at d.master_ds.bytes 0 44 ≡ bytes_at block.ds_bytes 0 44)
    × (d.master_ds.valid ≡ true)
    × (d.master_ds.vid ≡ 42)
    × (d.master_ds.did ≡ 7)
    × (d.master_ds.cs ≡ 0)
    × (calls ≡ smi_void_cnf 0x7000 ∷ [])
par_serv_length_wraps_example = par_serv_length_wraps 300 block fresh refl refl (omega arith)

-- A configuration without a backup, after one with a restore.
abbrev no_backup : PortConfig
no_backup = record { portmode = 1; validation_backup = 2; vendorid = 42; deviceid = 7 }

init_lem_example :
    (d : Ds) × (handle info backup (init no_backup) ≡ some (d, []))
    × (d.ds_upload ≡ false)
    × (d.ds_download ≡ false)
    × (d.ds_enable ≡ true)
    × (d.state ≡ (if d.ds_enable then waiting_on_ds_activity else off))
    × (d.pending_vendorid ≡ 42)
    × (d.pending_deviceid ≡ 7)
    × (d.master_ds ≡ backup.master_ds)
init_lem_example = init_lem info backup no_backup (inr (inl refl))

read_index_list_lem_example :
    ((read_index_list max_entries 0 0 list_answer.buffer fresh.index_list).count ≡ 2)
    × EntriesAt
        (read_index_list max_entries 0 0 list_answer.buffer fresh.index_list).entries
        0
        (first.entry ∷ second.entry ∷ [])
read_index_list_lem_example =
    read_index_list_lem (first.entry ∷ second.entry ∷ []) max_entries 0 0 list_answer.buffer
      fresh.index_list (omega arith) (omega arith) (omega arith) (omega arith)

all_ones : HasEntries (λ i. 1) 0 max_entries
all_ones = omega arith

read_index_list-count_of_full_example :
    (read_index_list max_entries 0 0 (λ i. 1) half_way.index_list).count ≡ 2
read_index_list-count_of_full_example =
    read_index_list-count_of_full max_entries 0 0 (λ i. 1) half_way.index_list all_ones
      (omega arith) (omega arith)
