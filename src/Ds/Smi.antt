-- ===== src/Ds/Smi.antt =====
-- ilink/iolink_ds.c: the SMI service that loads a data set into the master. It runs on the caller's
-- thread, and has no job.
use normans_fork.Types.ArgBlockId
use normans_fork.Types.SmiError
use normans_fork.Prelude.{
  ℕ, ◌+◌, ◌-◌, ◌%◌, ◌<◌, ◌≡◌, refl, ◌≢◌, ◌⊎◌, true, ◌||◌, not, List, [], ◌∷◌, arith, ltb, ◌==◌,
  if◌then◌else◌, u8, Bytes, memcpy, bytes_at,
}
use normans_fork.Types.{
  IolinkError, error_none, error_parameter_conflict, Call, smi_void_cnf, smi_job_error,
}
use normans_fork.Ds.{Ds, max_size}
use normans_fork.Prelude.Memory.Laws.{bytes_at-memcpy, length-bytes_at}

-- `arg_block_ds_data_t`, behind the common id of every ArgBlock
pub record DsBlock : Type 0 where
  pub id : ℕ
  pub vid : ℕ
  pub did : ℕ
  pub fid : ℕ
  pub ds_bytes : Bytes  -- `ds_data`

-- `uint8_t arg_block_ds_data_len = arg_block_len - sizeof (arg_block_ds_data_t)`
abbrev pub ds_data_len : ℕ → ℕ
ds_data_len arg_block_len = u8 (arg_block_len + 65536 - 14)

abbrev load_block : DsBlock → ℕ → Ds → Ds
load_block b len ds = record ds {
  master_ds = record (ds.master_ds) {
    bytes = memcpy ds.master_ds.bytes 0 (bytes_at b.ds_bytes 0 len);
    cs = 0;
    vid = b.vid;
    did = b.did;
    fid = b.fid;
    valid = true;
    size = len;
  };
}

-- `ds_SMI_ParServToDS_req`
pub ds_smi_par_serv_to_ds_req : ℕ → ℕ → DsBlock → Ds → IolinkError × Ds × List Call
ds_smi_par_serv_to_ds_req exp_id arg_block_len b ds =
    if not (exp_id == ArgBlockId.void_block) || not (b.id == ArgBlockId.ds_data)
    then (
      error_parameter_conflict,
      ds,
      smi_job_error exp_id b.id SmiError.argblock_not_supported ∷ [],
    )
    else if ltb ds.master_ds.size_max (ds_data_len arg_block_len)
    then (
      error_parameter_conflict,
      ds,
      smi_job_error exp_id b.id SmiError.argblock_inconsistent ∷ [],
    )
    else (error_none, load_block b (ds_data_len arg_block_len) ds, smi_void_cnf b.id ∷ [])

-- A request with other ids than those of the service is refused with one job error, and the data
-- storage is as before.
par_serv_refused :
    (exp_id len : ℕ) (b : DsBlock) (ds : Ds)
    → (exp_id ≢ ArgBlockId.void_block) ⊎ (b.id ≢ ArgBlockId.ds_data)
    → ds_smi_par_serv_to_ds_req exp_id len b ds ≡ (
      error_parameter_conflict,
      ds,
      smi_job_error exp_id b.id SmiError.argblock_not_supported ∷ [],
    )
unfolding ds_smi_par_serv_to_ds_req
par_serv_refused exp_id len b ds h = ground arith

-- Where the master has its full size, a block of the service's ids with `n` bytes of data is never
-- refused for its length, but only `n` modulo 256 of the bytes are loaded: the length is held in
-- eight bits. The data set is valid, with the block's ids and the checksum 0.
pub par_serv_length_wraps :
    (n : ℕ) (b : DsBlock) (ds : Ds)
    → ds.master_ds.size_max ≡ max_size
    → b.id ≡ ArgBlockId.ds_data
    → n + 14 < 65536
    → let (error, d, calls) = ds_smi_par_serv_to_ds_req ArgBlockId.void_block (n + 14) b ds in
      (error ≡ error_none)
      × (d.master_ds.size ≡ n % 256)
      × (bytes_at d.master_ds.bytes 0 (n % 256) ≡ bytes_at b.ds_bytes 0 (n % 256))
      × (d.master_ds.valid ≡ true)
      × (d.master_ds.vid ≡ b.vid)
      × (d.master_ds.did ≡ b.did)
      × (d.master_ds.cs ≡ 0)
      × (calls ≡ smi_void_cnf b.id ∷ [])
unfolding ds_smi_par_serv_to_ds_req
par_serv_length_wraps n b ds size_of id_of small =
    let loaded =
      rw (length-bytes_at (n % 256) b.ds_bytes 0) at
        (bytes_at-memcpy (bytes_at b.ds_bytes 0 (n % 256)) ds.master_ds.bytes 0) in
    let len_of : ds_data_len (n + 14) ≡ n % 256 = omega arith in
    let accepted : ds_smi_par_serv_to_ds_req ArgBlockId.void_block (n + 14) b ds
        ≡ (error_none, load_block b (n % 256) ds, smi_void_cnf b.id ∷ []) =
      ground arith in
    rw accepted (refl, refl, loaded, refl, refl, refl, refl, refl)
