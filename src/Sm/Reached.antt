-- ===== src/Sm/Reached.antt =====
-- ilink/iolink_sm.c: the ports that a run leads to, and what their handlers announce.
use normans_fork.Prelude.{◌≡◌, Bool, true, false, ◌&&◌, List, [], ◌∷◌, arith}
use normans_fork.Sm.{
  port_inactive, portmode_comready, portmode_operate, ParameterList, Sm, SmCall, sm_portmode_ind,
}
use normans_fork.Sm.Confirmations.{Input, handle, handle_all}
use normans_fork.Sm.Checked.{IsCompatible, IsSerial, HasPassed, IsVouched}
use normans_fork.Sm.Sound.{is_expected, Passed}
use normans_fork.Sm.{
  port_inactive, portmode_comready, portmode_operate, ParameterList, Sm, SmCall, sm_portmode_ind,
}
use normans_fork.Sm.Runs.{handle-IsSound}

left : (a b : Bool) → (a && b) ≡ true → a ≡ true
left a b h = ground arith

right : (a b : Bool) → (a && b) ≡ true → b ≡ true
right a b h = ground arith

-- The ports that expected jobs lead to from an inactive port.
pub data Reached : Sm → Type 0 where
  start : (sm : Sm) → sm.state ≡ port_inactive → Reached sm
  more : (sm : Sm) (i : Input) → Reached sm → is_expected sm i ≡ true → Reached (handle sm i).0

-- Every port that a run of expected jobs leads to from an inactive one has a device that has passed
-- the checks that its state stands for.
pub Reached-Passed : (sm : Sm) → Reached sm → Passed sm
unfolding HasPassed
Reached-Passed sm (start s h) = ground arith
Reached-Passed sm (more before i reached h) =
    (handle-IsSound before i h (Reached-Passed before reached)).0

-- The calls say that a device is ready for communication or in operation.
unfoldable pub announces : List SmCall → Bool
announces [] = false
announces (sm_portmode_ind portmode_comready ∷ calls) = true
announces (sm_portmode_ind portmode_operate ∷ calls) = true
announces (_ ∷ calls) = announces calls

announces-IsVouched :
    (calls : List SmCall) (config real : ParameterList)
    → announces calls ≡ true
    → IsVouched calls config real
    → IsCompatible config real × IsSerial config real
unfolding announces IsVouched
announces-IsVouched [] config real h vouched = ground arith
announces-IsVouched (c ∷ calls) config real h vouched =
    let rest = announces-IsVouched calls config real in ground arith

-- In any run from an inactive port by jobs that are expected, a job that announces the device as ready
-- or in operation does so only with the cycle time, the vendor, the device and the serial number as
-- the inspection level of the configuration asks for.
pub announced-IsCompatible :
    (sm : Sm) (i : Input)
    → Reached sm
    → is_expected sm i ≡ true
    → announces (handle sm i).1 ≡ true
    → IsCompatible (handle sm i).0.config_paramlist (handle sm i).0.real_paramlist
      × IsSerial (handle sm i).0.config_paramlist (handle sm i).0.real_paramlist
announced-IsCompatible sm i reached expected h =
    announces-IsVouched (handle sm i).1 _ _ h
      (handle-IsSound sm i expected (Reached-Passed sm reached)).1

unfoldable pub are_expected : Sm → List Input → Bool
unfolding handle is_expected
are_expected sm [] = true
are_expected sm (i ∷ inputs) = is_expected sm i && are_expected (handle sm i).0 inputs

pub Reached-all :
    (sm : Sm) (inputs : List Input)
    → Reached sm
    → are_expected sm inputs ≡ true
    → Reached (handle_all sm inputs).0
unfolding handle_all are_expected
Reached-all sm [] reached h = reached
Reached-all sm (i ∷ inputs) reached h =
    Reached-all (handle sm i).0 inputs (more sm i reached (left _ _ h)) (right _ _ h)
