-- ===== src/Pde/Answers.antt =====
-- ilink/iolink_pde.c: how often a request is answered.
use normans_fork.Prelude.{
  ℕ, ◌+◌, ◌≡◌, refl, ◌&&◌, List, [], ◌∷◌, ◌++◌, arith, ◌==◌, if◌then◌else◌, u8, length,
}
use normans_fork.Pde.{Pde, PdCall, block_cnf, void_cnf, job_error, status_di}
use normans_fork.Pde.Data.{dl_pd_output_update_req, dl_control_req, dl_pd_input_transport_ind}
use normans_fork.Pde.Callbacks.{
  al_control_ind, pde_smi_pd_in_req, enable_output, set_output, pde_smi_pd_out_req,
  pdinout_expected, pde_smi_pd_in_out_req, Input, start, stop, control, pd_in_req, pd_out_req,
  pd_in_out_req, new_input, port_status, pd_handler, handle, handle_all,
}
use normans_fork.Pde.Checks.{check_error, pde_check_smi_req}

-- One for an answer to the client.
unfoldable pub is_answer : PdCall → ℕ
is_answer (block_cnf ref_id len exp_id bytes) = 1
is_answer (void_cnf ref_id) = 1
is_answer (job_error exp_id ref_id error) = 1
is_answer _ = 0

unfoldable pub answers : List PdCall → ℕ
answers [] = 0
answers (x ∷ calls) = is_answer x + answers calls

unfoldable pub is_request : Input → ℕ
is_request (pd_in_req di exp_id len block) = 1
is_request (pd_out_req exp_id len block) = 1
is_request (pd_in_out_req exp_id len block) = 1
is_request _ = 0

unfoldable pub requests : List Input → ℕ
requests [] = 0
requests (i ∷ inputs) = is_request i + requests inputs

-- One for a request of inputs and outputs, without a mistake in it, of a port with a digital input.
unfoldable pub unanswered : Pde → Input → ℕ
unanswered s (pd_in_out_req exp_id len block) =
    if s.port_status_info == status_di && check_error pdinout_expected exp_id block.id (u8 len) == 0
    then 1
    else 0
unanswered s i = 0

unfoldable pub unanswered_all : Pde → List Input → ℕ
unanswered_all s [] = 0
unanswered_all s (i ∷ inputs) = unanswered s i + unanswered_all (handle s i).0 inputs

answers-handle : (s : Pde) (i : Input) → answers (handle s i).1 + unanswered s i ≡ is_request i
unfolding handle al_control_ind pde_smi_pd_in_req pde_smi_pd_out_req pde_smi_pd_in_out_req
    pde_check_smi_req set_output enable_output dl_pd_output_update_req dl_control_req
    dl_pd_input_transport_ind answers is_answer is_request unanswered
answers-handle s start = refl
answers-handle s stop = refl
answers-handle s (control code) = ground arith
answers-handle s (pd_in_req di exp_id len block) = ground arith
answers-handle s (pd_out_req exp_id len block) = ground arith
answers-handle s (pd_in_out_req exp_id len block) = ground arith
answers-handle s (new_input pdin_data length) = ground arith
answers-handle s (port_status info) = refl
answers-handle s (pd_handler is_off pd_txlen) = refl

answers-append : (xs ys : List PdCall) → answers (xs ++ ys) ≡ answers xs + answers ys
unfolding answers
answers-append [] ys = omega arith
answers-append (x ∷ xs) ys = omega (arith, answers-append xs ys)

-- Over any sequence of inputs each request of the process data exchange, refused ones included, is
-- answered exactly once, but for the requests of inputs and outputs, without a mistake in them, of a
-- port with a digital input: those are not answered.
pub answers-handle_all :
    (inputs : List Input) (s : Pde)
    → answers (handle_all s inputs).1 + unanswered_all s inputs ≡ requests inputs
unfolding handle_all answers requests unanswered_all
answers-handle_all [] s = refl
answers-handle_all (i ∷ inputs) s = omega (
  arith,
  answers-append (handle s i).1 (handle_all (handle s i).0 inputs).1,
  answers-handle s i,
  answers-handle_all inputs (handle s i).0,
)
