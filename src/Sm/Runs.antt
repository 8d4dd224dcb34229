-- ===== src/Sm/Runs.antt =====
-- ilink/iolink_sm.c: every handler keeps what a device has passed.
use normans_fork.Prelude.{
  ℕ, ◌≡◌, refl, Bool, true, false, ◌||◌, not, List, [], ◌∷◌, ◌++◌, arith, ◌==◌, if◌then◌else◌,
}
use normans_fork.Types.SmiError
use normans_fork.Types.{Status}
use normans_fork.Sm.{
  SmState, wait_for_fallback, wait_devmode_cnf, ev_sm_operate, ev_sm_operate_v10, ev_set_inactive,
  ev_write_master_cycl_req, ev_write_master_cycl_done, MhMode, dlmode_operate, ParameterList, Sm,
  SmCall, Step, addr_min_cycl, addr_dummy_wurq, rev_v10,
}
use normans_fork.Sm.Callbacks.{is_no_error, sm_write_cycl_cnf_cb, dl_mode_ind_baud, sm_operate_cb}
use normans_fork.Sm.Confirmations.{
  store_min_cycl, store_value, value_read, sm_dl_read_cnf_cb, sm_dl_write_cnf_cb, devmode_written,
  devmode_failed, sm_dl_write_devmode_cnf, Input, write_cycl_cnf, al_read_cnf, dl_mode_ind,
  mode_ind_baud, operate_req, set_port_config, dl_read_cnf, dl_write_cnf, dl_write_devmode_cnf,
  handle,
}
use normans_fork.Sm.Checked.{IsVouched, IsSound, Tells, set_mode-IsVouched}
use normans_fork.Sm.Sound.{
  is_reading_state, is_expected, HasPassed-reading, Passed, lost-IsSound, comlost-IsSound,
  if-IsSound, al_read_cnf-IsSound,
}
use normans_fork.Sm.Announced.{
  IsVouched-append, event_only-IsSound, mode_ind-IsSound, set_port_config-IsSound,
  value_read-IsSound, value_written-IsSound,
}
use normans_fork.Sm.Actions.{set_mode_operate}
use normans_fork.Sm.Fsm.{iolink_sm_event}

-- A step that keeps the state and announces nothing.
abbrev IsQuiet : SmState → Step → Type 0
IsQuiet s (sm, calls) =
    (sm.state ≡ s) × ((config real : ParameterList) → IsVouched calls config real)

if-IsQuiet :
    (b : Bool) (s : SmState) (x y : Step)
    → IsQuiet s x
    → IsQuiet s y
    → IsQuiet s (if b then x else y)
if-IsQuiet true s x y on_true on_false = on_true
if-IsQuiet false s x y on_true on_false = on_false

if_none-IsVouched :
    (b : Bool) (c : SmCall) (config real : ParameterList)
    → IsVouched (c ∷ []) config real
    → IsVouched (if b then [] else c ∷ []) config real
unfolding IsVouched
if_none-IsVouched true c config real h = tt
if_none-IsVouched false c config real h = h

store_value-IsQuiet : (addr value : ℕ) (sm : Sm) → IsQuiet sm.state (store_value addr value sm)
unfolding store_value store_min_cycl IsVouched
store_value-IsQuiet addr value sm =
    if-IsQuiet (addr == addr_min_cycl) sm.state _ _
      (refl, λ config real. if_none-IsVouched _ _ config real tt)
      (refl, λ config real. if_none-IsVouched _ _ config real tt)

-- What is read while the parameters are asked for.
reading-IsSound :
    (addr value : ℕ) (sm : Sm)
    → is_reading_state sm.state ≡ true
    → IsSound (
        let (sm', calls) = store_value addr value sm in
        let (end, more) = value_read sm'.state addr sm' in (end, calls ++ more))
reading-IsSound addr value sm h =
    let sm' = (store_value addr value sm).0 in
    let (state, vouched) = store_value-IsQuiet addr value sm in
    let passed = HasPassed-reading sm'.state sm'.config_paramlist sm'.real_paramlist (rw state h) in
    let (after, more) = value_read-IsSound sm'.state addr sm' passed in
    (after, IsVouched-append _ _ _ _ (vouched _ _) more)

-- Either side is only needed where the test chooses it.
test-IsSound :
    (b : Bool) (x y : Step)
    → ((b ≡ true) → IsSound x)
    → ((b ≡ false) → IsSound y)
    → IsSound (if b then x else y)
test-IsSound true x y on_true on_false = on_true refl
test-IsSound false x y on_true on_false = on_false refl

reading_of : (a b c : Bool) → (a || b || c) ≡ true → b ≡ false → c ≡ false → a ≡ true
reading_of a b c h h' h'' = ground arith

read_cnf-IsSound :
    (addr value : ℕ) (stat : Status) (sm : Sm)
    → (is_reading_state sm.state || not (is_no_error stat) || addr == addr_dummy_wurq) ≡ true
    → Passed sm
    → IsSound (sm_dl_read_cnf_cb addr value stat sm)
unfolding sm_dl_read_cnf_cb IsVouched
read_cnf-IsSound addr value stat sm h passed =
    test-IsSound (not (is_no_error stat)) _ _ (λ failed. lost-IsSound sm passed)
      (λ done.
        test-IsSound (addr == addr_dummy_wurq) _ _ (λ woken. (passed, tt))
          (λ other. reading-IsSound addr value sm (reading_of _ _ _ h done other)))

write_cnf-IsSound :
    (addr : ℕ) (stat : Status) (sm : Sm) → Passed sm → IsSound (sm_dl_write_cnf_cb addr stat sm)
unfolding sm_dl_write_cnf_cb
write_cnf-IsSound addr stat sm passed =
    if-IsSound (is_no_error stat) _ _ (value_written-IsSound sm.state addr sm refl passed)
      (lost-IsSound sm passed)

-- The announcements of an event after calls that announce nothing.
after-IsSound :
    (calls : List SmCall) (r : Step)
    → IsVouched calls r.0.config_paramlist r.0.real_paramlist
    → IsSound r
    → IsSound (r.0, calls ++ r.1)
after-IsSound calls r h (passed, vouched) = (passed, IsVouched-append calls r.1 _ _ h vouched)

operate-Tells :
    (b : Bool) (config real : ParameterList)
    → Tells (if b then ev_sm_operate_v10 else ev_sm_operate) config real
unfolding Tells
operate-Tells true config real = tt
operate-Tells false config real = tt

devmode_written-IsSound : (s : SmState) (sm : Sm) → Passed sm → IsSound (devmode_written s sm)
unfolding devmode_written Tells
devmode_written-IsSound wait_devmode_cnf sm passed =
    let e = if sm.real_paramlist.revisionid == rev_v10 then ev_sm_operate_v10 else ev_sm_operate in
    after-IsSound (set_mode_operate sm) (iolink_sm_event e sm)
      (set_mode-IsVouched dlmode_operate sm _ _)
      (event_only-IsSound e sm passed (
        operate-Tells (sm.real_paramlist.revisionid == rev_v10) sm.config_paramlist
          sm.real_paramlist))
devmode_written-IsSound wait_for_fallback sm passed =
    event_only-IsSound ev_set_inactive sm passed tt
devmode_written-IsSound _ sm passed = comlost-IsSound sm passed

devmode_failed-IsSound : (s : SmState) (sm : Sm) → Passed sm → IsSound (devmode_failed s sm)
unfolding devmode_failed
devmode_failed-IsSound wait_devmode_cnf sm passed = lost-IsSound sm passed
devmode_failed-IsSound _ sm passed = comlost-IsSound sm passed

devmode-IsSound :
    (errorinfo : Status) (sm : Sm) → Passed sm → IsSound (sm_dl_write_devmode_cnf errorinfo sm)
unfolding sm_dl_write_devmode_cnf
devmode-IsSound errorinfo sm passed =
    if-IsSound (is_no_error errorinfo) _ _ (devmode_written-IsSound sm.state sm passed)
      (devmode_failed-IsSound sm.state sm passed)

operate-IsSound : (sm : Sm) → Passed sm → IsSound (sm_operate_cb sm)
unfolding sm_operate_cb Tells
operate-IsSound sm passed =
    if-IsSound
      (not (sm.real_paramlist.revisionid == rev_v10) || not (sm.real_paramlist.vendorid == 0x014e))
      _ _ (event_only-IsSound ev_write_master_cycl_req sm passed tt)
      (event_only-IsSound ev_sm_operate_v10 sm passed tt)

write_cycl-IsSound :
    (errortype : ℕ) (sm : Sm) → Passed sm → IsSound (sm_write_cycl_cnf_cb errortype sm)
unfolding sm_write_cycl_cnf_cb Tells
write_cycl-IsSound errortype sm passed =
    if-IsSound (errortype == SmiError.no_error) _ _
      (event_only-IsSound ev_write_master_cycl_done sm passed tt) (lost-IsSound sm passed)

baud-Passed : (mode : MhMode) (sm : Sm) → Passed sm → Passed (dl_mode_ind_baud mode sm)
baud-Passed mode sm passed = ground arith

of_not : (b : Bool) → not b ≡ true → b ≡ false
of_not b h = ground arith

pub handle-IsSound :
    (sm : Sm) (i : Input) → is_expected sm i ≡ true → Passed sm → IsSound (handle sm i)
unfolding handle is_expected IsVouched
handle-IsSound sm (write_cycl_cnf errortype) h passed = write_cycl-IsSound errortype sm passed
handle-IsSound sm (al_read_cnf r) h passed = al_read_cnf-IsSound r sm (of_not _ h) passed
handle-IsSound sm (dl_mode_ind mode) h passed = mode_ind-IsSound mode sm passed
handle-IsSound sm (mode_ind_baud mode) h passed = (baud-Passed mode sm passed, tt)
handle-IsSound sm operate_req h passed = operate-IsSound sm passed
handle-IsSound sm (set_port_config paramlist) h passed =
    set_port_config-IsSound paramlist sm (of_not _ h) passed
handle-IsSound sm (dl_read_cnf addr value stat) h passed =
    read_cnf-IsSound addr value stat sm h passed
handle-IsSound sm (dl_write_cnf addr stat) h passed = write_cnf-IsSound addr stat sm passed
handle-IsSound sm (dl_write_devmode_cnf errorinfo) h passed = devmode-IsSound errorinfo sm passed
