-- ===== src/Ds/Setup.antt =====
-- ilink/iolink_ds.c: what a port configuration makes of the data storage, and whose data set a
-- start-up accepts.
use normans_fork.Prelude.{
  ◌≡◌, refl, ◌≢◌, ◌⊎◌, Bool, ◌&&◌, ◌||◌, some, [], ◌∷◌, arith, ◌==◌, if◌then◌else◌,
}
use normans_fork.Types.{id_fault, ds_fault_ind}
use normans_fork.Ds.{
  State, check_activation_state, waiting_on_ds_activity, off, check_identity, check_mem_size, Ds,
  PortInfo,
}
use normans_fork.Ds.Actions.{ds_fault, ds_off, ds_check_vid_did, ds_chk_id, ds_reinit, act}
use normans_fork.Ds.Fsm.{event_num, transitions, find_transition, event_loop, iolink_ds_event}
use normans_fork.Ds.Callbacks.{
  PortConfig, portmode_iol_man, validation_v11_bak_restore, validation_v11_restore, init_flags,
  ds_init_cb, startup, init, handle,
}

-- The configuration asks for a backup and restore, or for a restore.
abbrev pub asks_upload : PortConfig → Bool
asks_upload cfg =
    cfg.portmode == portmode_iol_man && cfg.validation_backup == validation_v11_bak_restore

abbrev pub asks_download : PortConfig → Bool
asks_download cfg =
    cfg.portmode == portmode_iol_man
    && (cfg.validation_backup == validation_v11_bak_restore
        || cfg.validation_backup == validation_v11_restore)

-- The states in which DS_EVENT_INIT has a transition.
abbrev pub TakesInit : State → Type 0
TakesInit s =
    (s ≡ check_activation_state)
    ⊎ (s ≡ waiting_on_ds_activity)
    ⊎ (s ≡ off)
    ⊎ (s ≡ check_identity)
    ⊎ (s ≡ check_mem_size)

module _ (info : PortInfo) where
  -- In those states a configuration sets upload and download exactly as it asks for them, and
  -- takes its ids over. The data storage is then active if the configuration asks for a download or
  -- if it was enabled before, and off if neither: a configuration that asks for nothing does not
  -- switch it off. Nothing is asked of the device.
  pub init_lem :
      (ds : Ds) (cfg : PortConfig)
      → TakesInit ds.state
      → (d : Ds) × (handle info ds (init cfg) ≡ some (d, []))
        × (d.ds_upload ≡ asks_upload cfg)
        × (d.ds_download ≡ asks_download cfg)
        × (d.ds_enable ≡ (ds.ds_enable || asks_download cfg))
        × (d.state ≡ (if d.ds_enable then waiting_on_ds_activity else off))
        × (d.pending_vendorid ≡ cfg.vendorid)
        × (d.pending_deviceid ≡ cfg.deviceid)
        × (d.master_ds ≡ ds.master_ds)
  unfolding handle ds_init_cb init_flags iolink_ds_event event_loop find_transition transitions
      event_num act ds_reinit ds_off
  init_lem ds cfg h =
      let d : Ds = record (init_flags cfg ds) {
        pending_vendorid = cfg.vendorid;
        pending_deviceid = cfg.deviceid;
      } in
      (
        record d { state = if d.ds_enable then waiting_on_ds_activity else off },
        ground arith,
        ground arith,
        ground arith,
        ground arith,
        refl,
        refl,
        refl,
        ground arith,
      )

  -- A start-up with a data set of another device, not an empty one, reports DS_FAULT_ID at once,
  -- asks nothing of the device and leaves the data storage as it was.
  startup_of_other_device :
      (ds : Ds)
      → ds.state ≡ waiting_on_ds_activity
      → ds.master_ds.vid ≢ 0
      → (ds.master_ds.vid ≢ info.vendorid) ⊎ (ds.master_ds.did ≢ info.deviceid)
      → handle info ds startup ≡ some (ds, ds_fault_ind id_fault ∷ [])
  unfolding handle iolink_ds_event event_loop find_transition transitions event_num act ds_chk_id
      ds_check_vid_did ds_fault
  startup_of_other_device ds h v other = ground arith
