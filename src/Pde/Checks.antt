-- ===== src/Pde/Checks.antt =====
-- ilink/iolink_pde.c: what the services of the process data exchange expect of a request.
use normans_fork.Types.SmiError
use normans_fork.Prelude.{
  ℕ, ◌+◌, ◌-◌, ◌*◌, ◌/◌, ◌%◌, Bool, true, false, ◌&&◌, ◌||◌, not, List, [], ◌∷◌, ltb, ◌==◌,
  if◌then◌else◌, u8,
}
use normans_fork.Types.{IolinkError, error_none, error_state_invalid, error_parameter_conflict}
use normans_fork.Pde.{PdState, pd_inactive, pd_active, Pde, PdCall, job_error, status_di, status_do}

-- `sizeof (arg_block_void_t)` and `sizeof (arg_block_pdout_head_t)`, which is that of the other heads
abbrev pub void_size : ℕ
void_size = 2

abbrev pub head_size : ℕ
head_size = 4

abbrev pub is_none : IolinkError → Bool
is_none error_none = true
is_none _ = false

-- `IOLINK_PORT_QUALITY_INFO_INVALID` and `IOLINK_PORT_QUALITY_INFO_PDO_INVALID`, bits 0 and 1
abbrev pub without_bit : (weight quality : ℕ) → ℕ
without_bit weight quality = quality - quality / weight % 2 * weight

abbrev pub with_bit : (weight quality : ℕ) → ℕ
with_bit weight quality = without_bit weight quality + weight

-- `pde_port_quality_to_qualifier`
abbrev pub pde_port_quality_to_qualifier : Pde → ℕ
pde_port_quality_to_qualifier s = if s.port_quality_info % 2 == 1 then 128 else 0

abbrev pub is_inactive : PdState → Bool
is_inactive pd_inactive = true
is_inactive pd_active = false

-- The ids and the length that a service expects.
pub record Expected : Type 0 where
  pub exp_id : ℕ
  pub ref_id : ℕ
  pub len_min : ℕ
  pub len_max : ℕ

-- The error that `pde_check_smi_req` finds, IOLINK_SMI_ERRORTYPE_NONE where there is none.
unfoldable pub check_error : Expected → (exp_id ref_id len : ℕ) → ℕ
check_error e exp_id ref_id len =
    if not (e.ref_id == ref_id)
    then SmiError.argblock_not_supported
    else if ltb len e.len_min || ltb e.len_max len
    then SmiError.argblock_length_invalid
    else if not (e.exp_id == exp_id)
    then SmiError.argblock_inconsistent
    else SmiError.no_error

-- `pde_check_smi_req`; the length is passed on as a byte.
unfoldable pub pde_check_smi_req :
    Expected → (exp_id ref_id len : ℕ) → Pde → IolinkError × List PdCall
unfolding check_error
pde_check_smi_req e exp_id ref_id len s =
    let smi_error = check_error e exp_id ref_id (u8 len) in
    if not (smi_error == SmiError.no_error)
    then (error_parameter_conflict, job_error exp_id ref_id smi_error ∷ [])
    else if is_inactive s.state
        && (not (s.port_status_info == status_di) && not (s.port_status_info == status_do))
    then (error_state_invalid, job_error exp_id ref_id SmiError.dev_not_in_operate ∷ [])
    else (error_none, [])
