-- ===== src/Ode/Served.antt =====
-- ilink/iolink_ode.c: one job of a request that is served.
use normans_fork.Types.ArgBlockId
use normans_fork.Types.SmiError
use normans_fork.Prelude.{
  ℕ, ◌+◌, ◌-◌, ◌≤◌, ◌<◌, ◌≡◌, ◌≢◌, ◌⊎◌, some, [], ◌∷◌, arith, ◌==◌, if◌then◌else◌, u8, memcpy,
  bytes_at, zeros,
}
use normans_fork.Prelude.Memory.Laws.{bytes_at-memcpy, length-bytes_at}
use normans_fork.Types.{Call, al_read, al_write, smi_cnf, smi_void_cnf, smi_job_error, ReadCnf}
use normans_fork.Ode.{od_active, od_blocked, SmiReq, Ode, head_size}
use normans_fork.Ode.Actions.{
  ode_al_read_req, write_len, ode_al_write_req, ode_smi_rw, cnf_of, ode_smi_done, act, transitions,
  find_transition, event_loop, iolink_ode_event,
}
use normans_fork.Ode.Callbacks.{
  read_room, with_reply, take_reply, ode_read_cnf_cb, ode_write_cnf_cb, rw_req_in, smi_rw_req_cb,
  request, read_cnf, write_cnf, handle,
}

-- A reply lands in the client's block from its first data byte on.
pub with_reply-bytes :
    (r : ReadCnf) (req : SmiReq)
    → bytes_at (with_reply r req).block.bytes 0 r.data_len ≡ bytes_at r.buffer 0 r.data_len
with_reply-bytes r req = rw (length-bytes_at r.data_len r.buffer 0) at (
    bytes_at-memcpy (bytes_at r.buffer 0 r.data_len)
      (memcpy req.block.bytes 0 (zeros (read_room req.len))) 0)

-- The state that waits for the reply to a request that is served.
abbrev pub waiting_for : SmiReq → Ode → Ode
waiting_for req ode = record ode {
  state = od_blocked;
  smi_req = record req { result = SmiError.no_error };
}

pub request_read :
    (ode : Ode) (req : SmiReq)
    → ode.state ≡ od_active
    → req.exp_id ≡ ArgBlockId.od_rd
    → req.block.id ≡ ArgBlockId.od_rd
    → handle ode (request req)
      ≡ some (waiting_for req ode, al_read req.block.index req.block.subindex ∷ [])
unfolding handle smi_rw_req_cb rw_req_in iolink_ode_event event_loop find_transition transitions act
    ode_smi_rw ode_al_read_req
request_read ode req h exp id_of = ground arith

pub request_write :
    (ode : Ode) (req : SmiReq)
    → ode.state ≡ od_active
    → req.exp_id ≡ ArgBlockId.void_block
    → req.block.id ≡ ArgBlockId.od_wr
    → handle ode (request req)
      ≡ some (
        waiting_for req ode,
        al_write req.block.index req.block.subindex (bytes_at req.block.bytes 0 (write_len req.len))
            ∷ [],
      )
unfolding handle smi_rw_req_cb rw_req_in iolink_ode_event event_loop find_transition transitions act
    ode_smi_rw ode_al_write_req
request_write ode req h exp id_of = ground arith

-- The reply to a read that waits, where it has no error.
pub reply_done :
    (ode : Ode) (r : ReadCnf)
    → ode.state ≡ od_blocked
    → ode.smi_req.exp_id ≡ ArgBlockId.od_rd
    → ode.smi_req.block.id ≡ ArgBlockId.od_rd
    → r.errortype ≡ SmiError.no_error
    → r.data_len ≤ read_room ode.smi_req.len
    → handle ode (read_cnf r)
      ≡ some (
        record ode { state = od_active; smi_req = with_reply r ode.smi_req },
        cnf_of (with_reply r ode.smi_req) ∷ [],
      )
unfolding handle ode_read_cnf_cb take_reply iolink_ode_event event_loop find_transition transitions
    act ode_smi_done
reply_done ode r h exp id_of good room = ground arith

pub cnf_of-with_reply :
    (r : ReadCnf) (req : SmiReq)
    → req.block.id ≡ ArgBlockId.od_rd
    → r.data_len + head_size < 256
    → cnf_of (with_reply r req)
      ≡ smi_cnf ArgBlockId.od_rd
          (r.data_len + head_size)
          req.block.index
          req.block.subindex
          (bytes_at r.buffer 0 r.data_len)
cnf_of-with_reply r req id_of small =
    let whole : u8 (r.data_len + head_size) ≡ r.data_len + head_size = omega arith in
    let body : (r.data_len + head_size) - head_size ≡ r.data_len = omega arith in
    rw (whole, body, with_reply-bytes r req, id_of)

-- The reply to a read that waits, where nothing of it is copied.
abbrev pub refusal_of : ReadCnf → ℕ
refusal_of r =
    if r.errortype == SmiError.no_error then SmiError.argblock_length_invalid else r.errortype

pub reply_refused :
    (ode : Ode) (r : ReadCnf)
    → ode.state ≡ od_blocked
    → ode.smi_req.exp_id ≡ ArgBlockId.od_rd
    → ode.smi_req.block.id ≡ ArgBlockId.od_rd
    → (r.errortype ≢ SmiError.no_error) ⊎ (read_room ode.smi_req.len < r.data_len)
    → handle ode (read_cnf r)
      ≡ some (
        record ode { state = od_active; smi_req = record (ode.smi_req) { result = refusal_of r } },
        smi_job_error ArgBlockId.od_rd ArgBlockId.od_rd (refusal_of r) ∷ [],
      )
unfolding handle ode_read_cnf_cb take_reply iolink_ode_event event_loop find_transition transitions
    act ode_smi_done
reply_refused ode r h exp id_of bad = ground arith

abbrev pub write_answer : ℕ → Call
write_answer error =
    if error == SmiError.no_error
    then smi_void_cnf ArgBlockId.od_wr
    else smi_job_error ArgBlockId.void_block ArgBlockId.od_wr error

-- The reply to a write that waits.
pub write_done :
    (ode : Ode) (error : ℕ)
    → ode.state ≡ od_blocked
    → ode.smi_req.exp_id ≡ ArgBlockId.void_block
    → ode.smi_req.block.id ≡ ArgBlockId.od_wr
    → ode.smi_req.result ≡ SmiError.no_error
    → handle ode (write_cnf error)
      ≡ some (
        record ode { state = od_active; smi_req = record (ode.smi_req) { result = error } },
        write_answer error ∷ [],
      )
unfolding handle ode_write_cnf_cb iolink_ode_event event_loop find_transition transitions act
    ode_smi_done
write_done ode error h exp id_of good = ground arith
