-- ===== src/Pde/Callbacks.antt =====
-- ilink/iolink_pde.c: the services of the process data exchange, and what starts and stops it.
use normans_fork.Types.ArgBlockId
use normans_fork.Types.SmiError
use normans_fork.Prelude.{
  ℕ, ◌+◌, ◌%◌, Bool, true, false, not, List, [], ◌∷◌, ◌++◌, ◌==◌, if◌then◌else◌, u8, length, Bytes,
  bytes_at,
}
use normans_fork.Types.{IolinkError, error_none}
use normans_fork.Pde.{
  pd_inactive, pd_active, ControlCode, code_valid, code_invalid, code_pdoutvalid, code_pdoutinvalid,
  Pde, PdBlock, PdCall, block_cnf, void_cnf, job_error, write_do, pd_assert_failed, status_di,
  status_do,
}
use normans_fork.Pde.Data.{
  dl_pd_output_update_req, dl_control_req, al_get_input_req, al_get_input_output_req,
  dl_pd_input_transport_ind,
}
use normans_fork.Pde.Checks.{
  void_size, head_size, is_none, without_bit, with_bit, pde_port_quality_to_qualifier, Expected,
  pde_check_smi_req,
}

-- The state after a service, what the service returns, and its calls.
abbrev pub PdStep : Type 0
PdStep = IolinkError × Pde × List PdCall

-- `iolink_pde_init`, which is `PD_Stop`, and `PD_Start`
abbrev pub pd_stop : Pde → Pde
pd_stop s = record s { output_enable = false; state = pd_inactive }

abbrev pub pd_start : Pde → Pde
pd_start s = record s { state = pd_active }

-- `AL_Control_ind`
unfoldable pub al_control_ind : ControlCode → Pde → Pde × List PdCall
al_control_ind code_valid s =
    (record s { port_quality_info = without_bit 1 s.port_quality_info }, [])
al_control_ind code_invalid s =
    (record s { port_quality_info = with_bit 1 s.port_quality_info }, [])
al_control_ind code_pdoutvalid s =
    (record s { port_quality_info = without_bit 2 s.port_quality_info }, [])
al_control_ind code_pdoutinvalid s =
    (record s { port_quality_info = with_bit 2 s.port_quality_info }, [])
al_control_ind _ s = (s, pd_assert_failed ∷ [])

abbrev pub pdin_expected : Expected
pdin_expected = record {
  exp_id = ArgBlockId.pd_in;
  ref_id = ArgBlockId.void_block;
  len_min = void_size;
  len_max = void_size;
}

-- The confirmation of an input with its qualifier.
abbrev pub pdin_cnf : (exp_id ref_id qualifier pdin_len : ℕ) → Bytes → PdCall
pdin_cnf exp_id ref_id qualifier pdin_len m =
    block_cnf ref_id (head_size + pdin_len) exp_id (qualifier ∷ pdin_len ∷ bytes_at m 0 pdin_len)

-- `pde_SMI_PDIn_req`; `di` is what `read_di` gives. AL_GetInput_req has no errors.
unfoldable pub pde_smi_pd_in_req : (di exp_id len : ℕ) → PdBlock → Pde → PdStep
unfolding pde_check_smi_req
pde_smi_pd_in_req di exp_id len block s =
    let (error, calls) = pde_check_smi_req pdin_expected exp_id block.id len s in
    if not (is_none error)
    then (error, s, calls)
    else if s.port_status_info == status_di
    then (error_none, s, pdin_cnf exp_id block.id 0 1 (λ i. if i == 0 then di else 0) ∷ [])
    else let (pdin_len, m) = al_get_input_req s (λ i. 0) in
      (error_none, s, pdin_cnf exp_id block.id (pde_port_quality_to_qualifier s) pdin_len m ∷ [])

abbrev pub pdout_expected : Expected
pdout_expected = record {
  exp_id = ArgBlockId.void_block;
  ref_id = ArgBlockId.pd_out;
  len_min = head_size + 1;
  len_max = head_size + 32;
}

abbrev pub enable_code : Bool → ControlCode
enable_code true = code_pdoutvalid
enable_code false = code_pdoutinvalid

abbrev pub same : Bool → Bool → Bool
same true b = b
same false b = not b

-- The part of `pde_SMI_PDOut_req` that follows the output of the data.
unfoldable pub enable_output : Bool → Pde → PdStep
enable_output oe s =
    if same s.output_enable oe
    then (error_none, s, [])
    else let (error, calls) = dl_control_req (enable_code oe) in
      if is_none error
      then (error_none, record s { output_enable = oe }, calls)
      else (error, s, calls)

-- The part of `pde_SMI_PDOut_req` that sets outputs of a device, without the answer to an error.
unfoldable pub set_output : PdBlock → Pde → PdStep
unfolding enable_output
set_output block s =
    let (error, s') = dl_pd_output_update_req block.bytes s in
    if is_none error then enable_output (block.oe % 2 == 1) s' else (error, s, [])

-- `pde_SMI_PDOut_req`
unfoldable pub pde_smi_pd_out_req : (exp_id len : ℕ) → PdBlock → Pde → PdStep
unfolding pde_check_smi_req set_output
pde_smi_pd_out_req exp_id len block s =
    let (error, calls) = pde_check_smi_req pdout_expected exp_id block.id len s in
    if not (is_none error)
    then (error, s, calls)
    else if s.port_status_info == status_do
    then (error_none, s, write_do (block.bytes 0 % 2 == 1) ∷ void_cnf block.id ∷ [])
    else let (error', s', calls') = set_output block s in
      (
        error',
        s',
        calls'
            ++ (if is_none error'
                then void_cnf block.id
                else job_error exp_id block.id SmiError.dev_not_accessible)
              ∷ [],
      )

abbrev pub pdinout_expected : Expected
pdinout_expected = record {
  exp_id = ArgBlockId.pd_in_out;
  ref_id = ArgBlockId.void_block;
  len_min = void_size;
  len_max = void_size;
}

abbrev pub bit : Bool → ℕ
bit true = 1
bit false = 0

-- `pde_SMI_PDInOut_req`; AL_GetInputOutput_req has no errors. A digital input is not answered.
unfoldable pub pde_smi_pd_in_out_req : (exp_id len : ℕ) → PdBlock → Pde → PdStep
unfolding pde_check_smi_req
pde_smi_pd_in_out_req exp_id len block s =
    let (error, calls) = pde_check_smi_req pdinout_expected exp_id block.id len s in
    if not (is_none error)
    then (error, s, calls)
    else if s.port_status_info == status_di
    then (error_none, s, [])
    else let (pdlen, m) = al_get_input_output_req s (λ i. 0) in
      (
        error_none,
        s,
        block_cnf block.id (u8 (head_size + pdlen)) exp_id
              (pde_port_quality_to_qualifier s ∷ bit s.output_enable ∷ bytes_at m 0 pdlen)
            ∷ [],
      )

-- What reaches the process data exchange of a port.
pub data Input : Type 0 where
  start : Input
  stop : Input
  control : ControlCode → Input
  pd_in_req : (di exp_id len : ℕ) → PdBlock → Input
  pd_out_req : (exp_id len : ℕ) → PdBlock → Input
  pd_in_out_req : (exp_id len : ℕ) → PdBlock → Input
  new_input : (pdin_data : Bytes) (length : ℕ) → Input
  -- what the configuration manager sets
  port_status : ℕ → Input
  -- what the mode handler of the data link layer sets
  pd_handler : (inactive : Bool) (pd_txlen : ℕ) → Input

abbrev pub without_error : PdStep → Pde × List PdCall
without_error (error, s, calls) = (s, calls)

unfoldable pub handle : Pde → Input → Pde × List PdCall
unfolding al_control_ind pde_smi_pd_in_req pde_smi_pd_out_req pde_smi_pd_in_out_req
handle s start = (pd_start s, [])
handle s stop = (pd_stop s, [])
handle s (control code) = al_control_ind code s
handle s (pd_in_req di exp_id len block) = without_error (pde_smi_pd_in_req di exp_id len block s)
handle s (pd_out_req exp_id len block) = without_error (pde_smi_pd_out_req exp_id len block s)
handle s (pd_in_out_req exp_id len block) = without_error (pde_smi_pd_in_out_req exp_id len block s)
handle s (new_input pdin_data length) = dl_pd_input_transport_ind pdin_data length s
handle s (port_status info) = (record s { port_status_info = info }, [])
handle s (pd_handler is_off pd_txlen) =
    (record s { pdh_inactive = is_off; pd_txlen = pd_txlen }, [])

unfoldable pub handle_all : Pde → List Input → Pde × List PdCall
handle_all s [] = (s, [])
handle_all s (i ∷ inputs) =
    let (s', calls) = handle s i in let (end, more) = handle_all s' inputs in (end, calls ++ more)
