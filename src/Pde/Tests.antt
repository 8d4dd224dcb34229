-- ===== src/Pde/Tests.antt =====
-- ilink/iolink_pde.c on concrete inputs.
use normans_fork.Types.ArgBlockId
use normans_fork.Prelude.{◌+◌, ◌≡◌, refl, false, some, [], ◌∷◌, arith, memcpy, bytes_at}
use normans_fork.Pde.{
  pd_active, code_pdoutvalid, Pde, PdBlock, block_cnf, void_cnf, command, pd_event,
}
use normans_fork.Pde.Callbacks.{
  start, stop, pd_in_req, pd_out_req, pd_in_out_req, new_input, handle, handle_all,
}
use normans_fork.Pde.Answers.{answers, is_request, requests, unanswered_all, answers-handle_all}
use normans_fork.Pde.Output.{told, IsRunning, told-handle_all}
use normans_fork.Pde.Transfers.{output_read_back}

-- A port in operation, with a device of three bytes of outputs.
abbrev exchanging : Pde
exchanging = record {
  state = pd_active;
  output_enable = false;
  port_status_info = 4;
  port_quality_info = 1;
  pdin_data = λ i. 0;
  pdin_data_len = 2;
  pdh_inactive = false;
  pdoutdata = λ i. 0;
  pd_txlen = 3;
}

abbrev digital : Pde
digital = record exchanging { port_status_info = 5 }

-- An output of three bytes that enables it, and the block of a read.
abbrev out : PdBlock
out = record { id = ArgBlockId.pd_out; oe = 1; len = 3; bytes = λ i. i + 7 }

abbrev read : PdBlock
read = record { id = ArgBlockId.void_block; oe = 0; len = 0; bytes = λ i. 0 }

-- A length of 258 is taken for one of 2.
long_request :
    (handle exchanging (pd_in_req 0 ArgBlockId.pd_in 258 read)).1
    ≡ block_cnf ArgBlockId.void_block 6 ArgBlockId.pd_in (128 ∷ 2 ∷ 0 ∷ 0 ∷ []) ∷ []
unfolding handle bytes_at memcpy
long_request = refl

output_read_back_example :
    (handle_all exchanging (
      pd_out_req ArgBlockId.void_block 7 out
      ∷ new_input (λ i. i) 2
      ∷ pd_in_out_req ArgBlockId.pd_in_out 2 read
      ∷ [])).1
    ≡ command code_pdoutvalid
      ∷ void_cnf ArgBlockId.pd_out
      ∷ pd_event (0 ∷ 1 ∷ [])
      ∷ block_cnf ArgBlockId.void_block 11 ArgBlockId.pd_in_out
          (128 ∷ 1 ∷ 2 ∷ 0 ∷ 1 ∷ 3 ∷ 7 ∷ 8 ∷ 9 ∷ [])
      ∷ []
unfolding bytes_at
output_read_back_example =
    output_read_back exchanging out read 7 2 (λ i. i) (refl, omega arith, omega arith, refl) refl
      refl (omega arith) (omega arith) (omega arith) (omega arith)

answers-handle_all_example :
    answers
        (handle_all digital
          (pd_in_out_req ArgBlockId.pd_in_out 2 read ∷ stop ∷ pd_out_req 0 7 out ∷ [])).1
      + unanswered_all digital
          (pd_in_out_req ArgBlockId.pd_in_out 2 read ∷ stop ∷ pd_out_req 0 7 out ∷ [])
    ≡ 2
unfolding requests is_request
answers-handle_all_example =
    answers-handle_all (pd_in_out_req ArgBlockId.pd_in_out 2 read ∷ stop ∷ pd_out_req 0 7 out ∷ [])
      digital

told-handle_all_example :
    told false
      (handle_all exchanging (
        pd_out_req ArgBlockId.void_block 7 out
        ∷ start
        ∷ pd_out_req ArgBlockId.void_block 7 out
        ∷ [])).1
    ≡ some
        (handle_all exchanging (
          pd_out_req ArgBlockId.void_block 7 out
          ∷ start
          ∷ pd_out_req ArgBlockId.void_block 7 out
          ∷ [])).0.output_enable
unfolding IsRunning
told-handle_all_example =
    told-handle_all
      (pd_out_req ArgBlockId.void_block 7 out ∷ start ∷ pd_out_req ArgBlockId.void_block 7 out ∷ [])
      exchanging (tt, (tt, (tt, tt)))
