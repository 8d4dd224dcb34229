-- ===== src/Pde/Output.antt =====
-- ilink/iolink_pde.c: what the device is told of the outputs.
use normans_fork.Prelude.{
  ◌≡◌, refl, ap, ◌∙◌, Bool, true, false, Option, none, some, List, [], ◌∷◌, ◌++◌, arith, length,
  All,
}
use normans_fork.Pde.{
  ControlCode, code_pdoutvalid, code_pdoutinvalid, Pde, PdCall, block_cnf, void_cnf, job_error,
  write_do, command, pd_event, pd_assert_failed,
}
use normans_fork.Pde.Data.{dl_pd_output_update_req, dl_control_req, dl_pd_input_transport_ind}
use normans_fork.Pde.Callbacks.{
  al_control_ind, pde_smi_pd_in_req, enable_output, set_output, pde_smi_pd_out_req,
  pde_smi_pd_in_out_req, Input, start, stop, control, pd_in_req, pd_out_req, pd_in_out_req,
  new_input, port_status, pd_handler, handle, handle_all,
}
use normans_fork.Pde.Checks.{pde_check_smi_req}

abbrev is_enabling : ControlCode → (was : Bool) → Option Bool
is_enabling code_pdoutvalid false = some true
is_enabling code_pdoutinvalid true = some false
is_enabling _ _ = none

-- What the device knows of the outputs after commands: none where a command is not a change.
unfoldable pub told : Bool → List PdCall → Option Bool
told was [] = some was
told was (command code ∷ calls) = elim (is_enabling code was) [
  | none ↦ none
  | some now ↦ told now calls
]
told was (_ ∷ calls) = told was calls

-- The process data exchange is not stopped.
unfoldable pub IsRunning : Input → Type 0
IsRunning stop = ⊥
IsRunning _ = Unit

-- What follows some commands, if they are changes.
abbrev then_told : Option Bool → List PdCall → Option Bool
then_told o calls = elim o [ none ↦ none | some now ↦ told now calls ]

then_told-append :
    (o : Option Bool) (xs ys : List PdCall)
    → ((was : Bool) → told was (xs ++ ys) ≡ then_told (told was xs) ys)
    → then_told o (xs ++ ys) ≡ then_told (then_told o xs) ys
then_told-append none xs ys h = refl
then_told-append (some now) xs ys h = h now

told-append : (xs ys : List PdCall) (was : Bool) → told was (xs ++ ys) ≡ then_told (told was xs) ys
unfolding told
told-append [] ys was = refl
told-append (command code ∷ xs) ys was =
    then_told-append (is_enabling code was) xs ys (told-append xs ys)
told-append (block_cnf ref_id len exp_id bytes ∷ xs) ys was = told-append xs ys was
told-append (void_cnf ref_id ∷ xs) ys was = told-append xs ys was
told-append (job_error exp_id ref_id error ∷ xs) ys was = told-append xs ys was
told-append (write_do b ∷ xs) ys was = told-append xs ys was
told-append (pd_event bytes ∷ xs) ys was = told-append xs ys was
told-append (pd_assert_failed ∷ xs) ys was = told-append xs ys was

told-handle :
    (s : Pde) (i : Input)
    → IsRunning i
    → told s.output_enable (handle s i).1 ≡ some (handle s i).0.output_enable
unfolding handle al_control_ind pde_smi_pd_in_req pde_smi_pd_out_req pde_smi_pd_in_out_req
    pde_check_smi_req set_output enable_output dl_pd_output_update_req dl_control_req
    dl_pd_input_transport_ind told IsRunning
told-handle s start running = refl
told-handle s stop running = absurd running
told-handle s (control code) running = ground arith
told-handle s (pd_in_req di exp_id len block) running = ground arith
told-handle s (pd_out_req exp_id len block) running = ground arith
told-handle s (pd_in_out_req exp_id len block) running = ground arith
told-handle s (new_input pdin_data length) running = ground arith
told-handle s (port_status info) running = refl
told-handle s (pd_handler is_off pd_txlen) running = refl

-- In a run in which the process data exchange is not stopped, the commands to the device about its
-- outputs are all changes, and they end with what `output_enable` says.
pub told-handle_all :
    (inputs : List Input) (s : Pde)
    → All IsRunning inputs
    → told s.output_enable (handle_all s inputs).1 ≡ some (handle_all s inputs).0.output_enable
unfolding handle_all told
told-handle_all [] s running = refl
told-handle_all (i ∷ inputs) s (here, later) =
    told-append (handle s i).1 (handle_all (handle s i).0 inputs).1 s.output_enable
    ∙ ap (λ o. then_told o (handle_all (handle s i).0 inputs).1) (told-handle s i here)
    ∙ told-handle_all inputs (handle s i).0 later
