-- ===== src/Ode/Tests.antt =====
-- ilink/iolink_ode.c on concrete inputs.
use normans_fork.Types.ArgBlockId
use normans_fork.Types.SmiError
use normans_fork.Prelude.{◌+◌, ◌≤◌, ◌≡◌, refl, ◌≢◌, some, List, [], ◌∷◌, arith, bytes_at}
use normans_fork.Types.{Call, al_read, al_write, smi_cnf, smi_job_error, ReadCnf}
use normans_fork.Ode.{od_active, od_blocked, SmiReq, Ode}
use normans_fork.Ode.Callbacks.{stop, request, read_cnf, write_cnf, handle_all}
use normans_fork.Ode.Answers.{
  answers, asserts, is_request, requests, waiting, is_stop, stops, IsServed, answers-requests,
}
use normans_fork.Ode.Transfers.{read_transfer, write_transfer, read_into_short_block}
use normans_fork.Ode.Refusals.{requests_refused}

abbrev read_req : SmiReq
read_req = record {
  exp_id = ArgBlockId.od_rd;
  len = 13;
  block = record { id = ArgBlockId.od_rd; index = 16; subindex = 2; bytes = λ i. 9 };
  result = 0;
}

abbrev write_req : SmiReq
write_req = record {
  exp_id = ArgBlockId.void_block;
  len = 7;
  block = record { id = ArgBlockId.od_wr; index = 24; subindex = 0; bytes = λ i. i + 65 };
  result = 0;
}

abbrev reply : ReadCnf
reply = record { buffer = λ i. i + 1; data_len = 3; errortype = 0 }

abbrev ready : Ode
ready = record { state = od_active; smi_req = read_req; busy = read_req }

abbrev blocked : Ode
blocked = record ready { state = od_blocked }

answers-requests_example :
    (d : Ode) × (calls : List Call) × (handle_all blocked
        (request write_req ∷ read_cnf reply ∷ request write_req ∷ stop ∷ [])
      ≡ some (d, calls))
    × IsServed d.state d.smi_req
    × (asserts calls ≡ 0)
    × (answers calls + waiting d.state ≤ 2 + 1)
    × (2 + 1 ≤ answers calls + waiting d.state + 1)
unfolding requests is_request stops is_stop IsServed waiting
answers-requests_example =
    answers-requests (request write_req ∷ read_cnf reply ∷ request write_req ∷ stop ∷ []) blocked
      refl

read_transfer_example :
    (d : Ode) × (handle_all ready (request read_req ∷ read_cnf reply ∷ [])
      ≡ some (d, al_read 16 2 ∷ smi_cnf ArgBlockId.od_rd 8 16 2 (1 ∷ 2 ∷ 3 ∷ []) ∷ []))
    × (d.state ≡ od_active)
    × (bytes_at d.smi_req.block.bytes 0 3 ≡ 1 ∷ 2 ∷ 3 ∷ [])
unfolding bytes_at
read_transfer_example =
    read_transfer ready read_req reply refl refl refl refl (omega arith) (omega arith)

write_transfer_example :
    (d : Ode) × (handle_all ready (request write_req ∷ write_cnf 0x8030 ∷ [])
      ≡ some (
        d,
        al_write 24 0 (65 ∷ 66 ∷ [])
            ∷ smi_job_error ArgBlockId.void_block ArgBlockId.od_wr 0x8030
            ∷ [],
      ))
    × (d.state ≡ od_active)
unfolding bytes_at
write_transfer_example =
    write_transfer ready write_req 0x8030 refl refl refl (omega arith) (omega arith)

read_into_short_block_example :
    (d : Ode) × (handle_all ready (request (record read_req { len = 2 }) ∷ read_cnf reply ∷ [])
      ≡ some (d, al_read 16 2 ∷ smi_cnf ArgBlockId.od_rd 8 16 2 (1 ∷ 2 ∷ 3 ∷ []) ∷ []))
    × (d.state ≡ od_active)
    × (bytes_at d.smi_req.block.bytes 0 3 ≡ 1 ∷ 2 ∷ 3 ∷ [])
unfolding bytes_at
read_into_short_block_example =
    read_into_short_block ready (record read_req { len = 2 }) reply refl refl refl refl
      (omega arith) (omega arith)

blocked-ne_active : blocked.state ≢ od_active
blocked-ne_active = λ e. cc

requests_refused_example :
    (d : Ode) × (handle_all blocked (request write_req ∷ request read_req ∷ [])
      ≡ some (
        d,
        smi_job_error ArgBlockId.void_block ArgBlockId.od_wr SmiError.service_temp_unavailable
            ∷ smi_job_error ArgBlockId.od_rd ArgBlockId.od_rd SmiError.service_temp_unavailable
            ∷ [],
      ))
    × (d.state ≡ od_blocked)
    × (d.smi_req ≡ read_req)
requests_refused_example = requests_refused (write_req ∷ read_req ∷ []) blocked blocked-ne_active
