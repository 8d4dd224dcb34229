-- ===== src/Pde/Transfers.antt =====
-- ilink/iolink_pde.c: outputs that are written, and read back with the inputs.
use normans_fork.Prelude.{
  ℕ, ◌+◌, ◌%◌, ◌≤◌, ◌≡◌, refl, ap, ◌∙◌, ◌≢◌, inl, inr, Bool, true, false, List, [], ◌∷◌, ◌++◌,
  append_assoc, arith, ◌==◌, if◌then◌else◌, Bool-cases, u8, Bytes, memcpy, bytes_at,
}
use normans_fork.Types.ArgBlockId
use normans_fork.Pde.{
  pd_active, Pde, PdBlock, PdCall, block_cnf, void_cnf, command, pd_event, status_di, status_do,
}
use normans_fork.Pde.Data.{
  padded, dl_pd_output_update_req, dl_control_req, al_get_input_output_req,
  dl_pd_input_transport_ind,
}
use normans_fork.Types.{error_none}
use normans_fork.Pde.Callbacks.{
  enable_code, same, enable_output, set_output, pde_smi_pd_out_req, bit, pde_smi_pd_in_out_req,
  pd_out_req, pd_in_out_req, new_input, handle, handle_all,
}
use normans_fork.Pde.Checks.{
  head_size, pde_port_quality_to_qualifier, check_error, pde_check_smi_req,
}
use normans_fork.Pde.Written.{in_and_out, padded-bytes, kept_bytes}

-- The output goes to a device that exchanges process data.
abbrev pub IsExchanging : Pde → Type 0
IsExchanging s =
    (s.state ≡ pd_active)
    × (s.port_status_info ≢ status_di)
    × (s.port_status_info ≢ status_do)
    × (s.pdh_inactive ≡ false)

-- The commands for a change of `output_enable`.
abbrev pub commands : (was now : Bool) → List PdCall
commands was now = if same was now then [] else command (enable_code now) ∷ []

enable_output_lem :
    (s : Pde) (oe : Bool)
    → enable_output oe s
      ≡ (error_none, record s { output_enable = oe }, commands s.output_enable oe)
unfolding enable_output dl_control_req
enable_output_lem s true = elim (Bool-cases s.output_enable) [
  | inl h ↦ ground arith
  | inr h ↦ ground arith
]
enable_output_lem s false = elim (Bool-cases s.output_enable) [
  | inl h ↦ ground arith
  | inr h ↦ ground arith
]

output_written :
    (s : Pde) (block : PdBlock) (len : ℕ)
    → IsExchanging s
    → block.id ≡ ArgBlockId.pd_out
    → 5 ≤ len
    → len ≤ 36
    → handle s (pd_out_req ArgBlockId.void_block len block) ≡ (
      record s {
        pdoutdata = padded s.pd_txlen (memcpy s.pdoutdata 0 (bytes_at block.bytes 0 s.pd_txlen));
        output_enable = block.oe % 2 == 1;
      },
      commands s.output_enable (block.oe % 2 == 1) ++ void_cnf ArgBlockId.pd_out ∷ [],
    )
unfolding handle pde_smi_pd_out_req pde_check_smi_req check_error set_output dl_pd_output_update_req
output_written s block len (active, not_di, not_do, on) id low high =
    let kept = record s {
      pdoutdata = padded s.pd_txlen (memcpy s.pdoutdata 0 (bytes_at block.bytes 0 s.pd_txlen));
    } in
    ground (arith, enable_output_lem kept (block.oe % 2 == 1))

-- A request of inputs and outputs is answered with what AL_GetInputOutput_req gives.
answered_lem :
    (s : Pde) (block : PdBlock)
    → s.state ≡ pd_active
    → s.port_status_info ≢ status_di
    → block.id ≡ ArgBlockId.void_block
    → let (pdlen, m) = al_get_input_output_req s (λ i. 0) in
      handle s (pd_in_out_req ArgBlockId.pd_in_out 2 block) ≡ (
        s,
        block_cnf ArgBlockId.void_block
              (u8 (head_size + pdlen))
              ArgBlockId.pd_in_out
              (pde_port_quality_to_qualifier s ∷ bit s.output_enable ∷ bytes_at m 0 pdlen)
            ∷ [],
      )
unfolding handle pde_smi_pd_in_out_req pde_check_smi_req check_error
answered_lem s block active not_di id = ground arith

-- A request of inputs and outputs, without a mistake in it.
read_back :
    (s : Pde) (block : PdBlock)
    → s.state ≡ pd_active
    → s.port_status_info ≢ status_di
    → block.id ≡ ArgBlockId.void_block
    → s.pdin_data_len + s.pd_txlen ≤ 64
    → handle s (pd_in_out_req ArgBlockId.pd_in_out 2 block) ≡ (
      s,
      block_cnf ArgBlockId.void_block (s.pdin_data_len + s.pd_txlen + 6) ArgBlockId.pd_in_out (
            pde_port_quality_to_qualifier s
            ∷ bit s.output_enable
            ∷ (s.pdin_data_len ∷ bytes_at s.pdin_data 0 s.pdin_data_len
                ++ s.pd_txlen ∷ bytes_at s.pdoutdata 0 s.pd_txlen))
          ∷ [],
    )
read_back s block active not_di id small =
    let (len, bytes) = in_and_out s (λ i. 0) (omega arith) in
    let total : u8 (head_size + (1 + (s.pdin_data_len + (1 + s.pd_txlen))))
        ≡ s.pdin_data_len + s.pd_txlen + 6 =
      omega arith in
    answered_lem s block active not_di id ∙ rw (len, bytes, total) refl

new_input_lem :
    (s : Pde) (pdin : Bytes) (n : ℕ)
    → n ≤ 32
    → handle s (new_input pdin n) ≡ (
      record s { pdin_data = memcpy s.pdin_data 0 (bytes_at pdin 0 n); pdin_data_len = n },
      pd_event (bytes_at pdin 0 n) ∷ [],
    )
unfolding handle dl_pd_input_transport_ind
new_input_lem s pdin n small = ground arith

-- While a port exchanges process data with a device, an output that is written, and then read back
-- with the inputs, is what was written: as many bytes of it as the device has outputs, and the bit that
-- enables them. With them come the inputs that the device last sent, which may come in between, and
-- the qualifier of the port. The device is told of the outputs by a command only if they are enabled or
-- disabled by this. The block that is written has all bytes of the device's outputs, and inputs and
-- outputs have at most 32 bytes each.
pub output_read_back :
    (s : Pde) (block back : PdBlock) (len n : ℕ) (pdin : Bytes)
    → IsExchanging s
    → block.id ≡ ArgBlockId.pd_out
    → back.id ≡ ArgBlockId.void_block
    → 5 ≤ len
    → s.pd_txlen + head_size ≤ len
    → len ≤ 36
    → n ≤ 32
    → (handle_all s (
        pd_out_req ArgBlockId.void_block len block
        ∷ new_input pdin n
        ∷ pd_in_out_req ArgBlockId.pd_in_out 2 back
        ∷ [])).1
      ≡ commands s.output_enable (block.oe % 2 == 1)
        ++ void_cnf ArgBlockId.pd_out
          ∷ pd_event (bytes_at pdin 0 n)
          ∷ block_cnf ArgBlockId.void_block (n + s.pd_txlen + 6) ArgBlockId.pd_in_out (
              pde_port_quality_to_qualifier s
              ∷ bit (block.oe % 2 == 1)
              ∷ (n ∷ bytes_at pdin 0 n ++ s.pd_txlen ∷ bytes_at block.bytes 0 s.pd_txlen))
          ∷ []
unfolding handle_all
output_read_back s block back len n pdin exchanging id back_id low whole high small =
    let (active, not_di, not_do, on) = exchanging in
    let s₁ = record s {
      pdoutdata = padded s.pd_txlen (memcpy s.pdoutdata 0 (bytes_at block.bytes 0 s.pd_txlen));
      output_enable = block.oe % 2 == 1;
    } in
    let first = output_written s block len exchanging id low high in
    let in_between = new_input pdin n in
    let asking = pd_in_out_req ArgBlockId.pd_in_out 2 back in
    let s₂ = record s₁ {
      pdin_data = memcpy s.pdin_data 0 (bytes_at pdin 0 n);
      pdin_data_len = n;
    } in
    let second : handle s₁ in_between ≡ (s₂, pd_event (bytes_at pdin 0 n) ∷ []) =
      new_input_lem s₁ pdin n small in
    let third = read_back s₂ back active not_di back_id (omega arith) in
    let ins : bytes_at s₂.pdin_data 0 n ≡ bytes_at pdin 0 n = kept_bytes n s.pdin_data pdin in
    let outs : bytes_at s₂.pdoutdata 0 s.pd_txlen ≡ bytes_at block.bytes 0 s.pd_txlen =
      padded-bytes s.pd_txlen s.pdoutdata block.bytes in
    ap (λ (x : Pde × List PdCall). x.1 ++ (handle_all x.0 (in_between ∷ asking ∷ [])).1) first
    ∙ ap
        (λ (x : Pde × List PdCall).
          (commands s.output_enable (block.oe % 2 == 1) ++ void_cnf ArgBlockId.pd_out ∷ [])
          ++ (x.1 ++ (handle_all x.0 (asking ∷ [])).1))
        second
    ∙ ap
        (λ (x : Pde × List PdCall).
          (commands s.output_enable (block.oe % 2 == 1) ++ void_cnf ArgBlockId.pd_out ∷ [])
          ++ pd_event (bytes_at pdin 0 n) ∷ (x.1 ++ []))
        third
    ∙ append_assoc (commands s.output_enable (block.oe % 2 == 1)) (void_cnf ArgBlockId.pd_out ∷ [])
        _
    ∙ rw (ins, outs) refl
