-- ===== src/Ode/Transfers.antt =====
-- ilink/iolink_ode.c: a whole read and a whole write of a device's parameter.
use normans_fork.Types.ArgBlockId
use normans_fork.Types.SmiError
use normans_fork.Prelude.{
  ℕ, ◌+◌, ◌-◌, ◌≤◌, ◌<◌, ◌≡◌, refl, ap, ◌∙◌, ◌≢◌, ◌⊎◌, some, [], ◌∷◌, arith, ◌==◌, if◌then◌else◌,
  bytes_at,
}
use normans_fork.Types.{Call, al_read, al_write, smi_cnf, smi_void_cnf, smi_job_error, ReadCnf}
use normans_fork.Ode.{od_active, SmiReq, Ode, head_size}
use normans_fork.Ode.Actions.{write_len}
use normans_fork.Ode.Callbacks.{read_room, with_reply, request, read_cnf, write_cnf, handle_all}
use normans_fork.Ode.Answers.{handle_two}
use normans_fork.Ode.Served.{
  with_reply-bytes, waiting_for, request_read, request_write, reply_done, cnf_of-with_reply,
  refusal_of, reply_refused, write_done,
}

read_copied :
    (ode : Ode) (req : SmiReq) (r : ReadCnf)
    → ode.state ≡ od_active
    → req.exp_id ≡ ArgBlockId.od_rd
    → req.block.id ≡ ArgBlockId.od_rd
    → r.errortype ≡ SmiError.no_error
    → r.data_len + head_size < 256
    → r.data_len ≤ read_room req.len
    → (d : Ode) × (handle_all ode (request req ∷ read_cnf r ∷ [])
        ≡ some (
          d,
          al_read req.block.index req.block.subindex
              ∷ smi_cnf ArgBlockId.od_rd
                  (r.data_len + head_size)
                  req.block.index
                  req.block.subindex
                  (bytes_at r.buffer 0 r.data_len)
              ∷ [],
        ))
      × (d.state ≡ od_active)
      × (bytes_at d.smi_req.block.bytes 0 r.data_len ≡ bytes_at r.buffer 0 r.data_len)
read_copied ode req r h exp id_of good small room =
    let asked = waiting_for req ode in
    let d = record asked { state = od_active; smi_req = with_reply r asked.smi_req } in
    (
      d,
      handle_two ode asked d (request req) (read_cnf r) _ _ (request_read ode req h exp id_of) (
          reply_done asked r refl exp id_of good room
          ∙ ap (λ (c : Call). some (d, c ∷ [])) (cnf_of-with_reply r asked.smi_req id_of small)),
      refl,
      with_reply-bytes r asked.smi_req,
    )

-- In ODactive, a read whose block has fewer than 256 bytes, and whose reply has no error and fits
-- the block after its head, asks the device for the index and the subindex of the block. It
-- confirms to the client the reply's bytes, no more and no fewer, under the same index and
-- subindex, and leaves them in the block. The port is ready for the next request.
pub read_transfer :
    (ode : Ode) (req : SmiReq) (r : ReadCnf)
    → ode.state ≡ od_active
    → req.exp_id ≡ ArgBlockId.od_rd
    → req.block.id ≡ ArgBlockId.od_rd
    → r.errortype ≡ SmiError.no_error
    → r.data_len + head_size ≤ req.len
    → req.len < 256
    → (d : Ode) × (handle_all ode (request req ∷ read_cnf r ∷ [])
        ≡ some (
          d,
          al_read req.block.index req.block.subindex
              ∷ smi_cnf ArgBlockId.od_rd
                  (r.data_len + head_size)
                  req.block.index
                  req.block.subindex
                  (bytes_at r.buffer 0 r.data_len)
              ∷ [],
        ))
      × (d.state ≡ od_active)
      × (bytes_at d.smi_req.block.bytes 0 r.data_len ≡ bytes_at r.buffer 0 r.data_len)
read_transfer ode req r h exp id_of good fits short =
    read_copied ode req r h exp id_of good (omega arith) (omega arith)

-- In ODactive, a read whose reply is an error, or is longer than the room that is reckoned from
-- the block's length, is answered by one job error: the error of the reply, or else
-- ARGBLOCK_LENGTH_INVALID. The block is as before, and the port is ready for the next request.
read_refused :
    (ode : Ode) (req : SmiReq) (r : ReadCnf)
    → ode.state ≡ od_active
    → req.exp_id ≡ ArgBlockId.od_rd
    → req.block.id ≡ ArgBlockId.od_rd
    → (r.errortype ≢ SmiError.no_error) ⊎ (read_room req.len < r.data_len)
    → (d : Ode) × (handle_all ode (request req ∷ read_cnf r ∷ [])
        ≡ some (
          d,
          al_read req.block.index req.block.subindex
              ∷ smi_job_error ArgBlockId.od_rd ArgBlockId.od_rd (
                  if r.errortype == SmiError.no_error
                  then SmiError.argblock_length_invalid
                  else r.errortype)
              ∷ [],
        ))
      × (d.state ≡ od_active)
      × (d.smi_req.block ≡ req.block)
read_refused ode req r h exp id_of bad =
    let d = record (waiting_for req ode) {
      state = od_active;
      smi_req = record req { result = refusal_of r };
    } in
    (
      d,
      handle_two ode (waiting_for req ode) d (request req) (read_cnf r) _ _
          (request_read ode req h exp id_of)
          (reply_refused (waiting_for req ode) r refl exp id_of bad),
      refl,
      refl,
    )

-- In ODactive, a write whose block has from 5 to 255 bytes sends the device the bytes that follow
-- the block's head, under its index and subindex. Once the device has replied, the client is
-- answered by a void block, or by a job error with the error of the reply. The port is then ready
-- for the next request.
pub write_transfer :
    (ode : Ode) (req : SmiReq) (error : ℕ)
    → ode.state ≡ od_active
    → req.exp_id ≡ ArgBlockId.void_block
    → req.block.id ≡ ArgBlockId.od_wr
    → head_size ≤ req.len
    → req.len < 256
    → (d : Ode) × (handle_all ode (request req ∷ write_cnf error ∷ [])
        ≡ some (
          d,
          al_write req.block.index req.block.subindex
                (bytes_at req.block.bytes 0 (req.len - head_size))
              ∷ (if error == SmiError.no_error
                  then smi_void_cnf ArgBlockId.od_wr
                  else smi_job_error ArgBlockId.void_block ArgBlockId.od_wr error)
              ∷ [],
        ))
      × (d.state ≡ od_active)
write_transfer ode req error h exp id_of low short =
    let d = record (waiting_for req ode) {
      state = od_active;
      smi_req = record req { result = error };
    } in
    let whole : write_len req.len ≡ req.len - head_size = ground arith in
    (
      d,
      handle_two ode (waiting_for req ode) d (request req) (write_cnf error) _ _
          (rw whole at (request_write ode req h exp id_of))
          (write_done (waiting_for req ode) error refl exp id_of refl),
      refl,
    )

-- In ODactive, a read whose block is shorter than its own head copies a whole reply without error,
-- of up to 250 bytes, behind the head, and confirms it: the client gets no error.
pub read_into_short_block :
    (ode : Ode) (req : SmiReq) (r : ReadCnf)
    → ode.state ≡ od_active
    → req.exp_id ≡ ArgBlockId.od_rd
    → req.block.id ≡ ArgBlockId.od_rd
    → r.errortype ≡ SmiError.no_error
    → r.data_len + head_size < 256
    → req.len < head_size
    → (d : Ode) × (handle_all ode (request req ∷ read_cnf r ∷ [])
        ≡ some (
          d,
          al_read req.block.index req.block.subindex
              ∷ smi_cnf ArgBlockId.od_rd
                  (r.data_len + head_size)
                  req.block.index
                  req.block.subindex
                  (bytes_at r.buffer 0 r.data_len)
              ∷ [],
        ))
      × (d.state ≡ od_active)
      × (bytes_at d.smi_req.block.bytes 0 r.data_len ≡ bytes_at r.buffer 0 r.data_len)
read_into_short_block ode req r h exp id_of good small short =
    read_copied ode req r h exp id_of good small (omega arith)
