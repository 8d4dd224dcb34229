-- ===== src/Pde/Data.antt =====
-- ilink/iolink_al.c and ilink/iolink_dl.c: how process data are kept and handed on.
use normans_fork.Prelude.{
  ℕ, ◌+◌, ◌%◌, List, [], ◌∷◌, ◌++◌, leb, ◌==◌, if◌then◌else◌, u8, length, Bytes, update, memcpy,
  bytes_at,
}
use normans_fork.Types.{
  IolinkError, error_none, error_conditions_not_correct, error_controlcode_invalid,
}
use normans_fork.Pde.{
  ControlCode, code_none, code_devicemode, Pde, PdCall, command, pd_event, pd_assert_failed,
  pd_max_size,
}

-- `DL_PDOutputGet_req`, which copies to `data`; the length is handed back.
abbrev pub dl_pd_output_get_req : Pde → (m : Bytes) (data_at : ℕ) → ℕ × Bytes
dl_pd_output_get_req s m data_at =
    (s.pd_txlen, memcpy m data_at (bytes_at s.pdoutdata 0 s.pd_txlen))

-- An odd number of bytes is followed by a 0.
abbrev pub padded : (len : ℕ) → Bytes → Bytes
padded len m = if len % 2 == 1 then update m len 0 else m

-- `DL_PDOutputUpdate_req`
unfoldable pub dl_pd_output_update_req : Bytes → Pde → IolinkError × Pde
dl_pd_output_update_req outputdata s =
    if s.pdh_inactive then (error_conditions_not_correct, s) else (
      error_none,
      record s {
        pdoutdata = padded s.pd_txlen (memcpy s.pdoutdata 0 (bytes_at outputdata 0 s.pd_txlen));
      },
    )

-- `DL_Control_req`
unfoldable pub dl_control_req : ControlCode → IolinkError × List PdCall
dl_control_req code_none = (error_controlcode_invalid, [])
dl_control_req code_devicemode = (error_controlcode_invalid, [])
dl_control_req code = (error_none, command code ∷ [])

-- `AL_GetInput_req`: the length, and the copy.
abbrev pub al_get_input_req : Pde → Bytes → ℕ × Bytes
al_get_input_req s m = (s.pdin_data_len, memcpy m 0 (bytes_at s.pdin_data 0 s.pdin_data_len))

-- `AL_GetInputOutput_req`: the length, and the data with their lengths before them.
unfoldable pub al_get_input_output_req : Pde → Bytes → ℕ × Bytes
al_get_input_output_req s m =
    let with_in = memcpy (update m 0 s.pdin_data_len) 1 (bytes_at s.pdin_data 0 s.pdin_data_len) in
    let (pdout_len, with_out) = dl_pd_output_get_req s with_in (s.pdin_data_len + 2) in
    (u8 (1 + s.pdin_data_len + 1 + pdout_len), update with_out (s.pdin_data_len + 1) pdout_len)

-- `DL_PDInputTransport_ind`
unfoldable pub dl_pd_input_transport_ind :
    (pdin_data : Bytes) (length : ℕ) → Pde → Pde × List PdCall
dl_pd_input_transport_ind pdin_data length s = (
  record s {
    pdin_data = memcpy s.pdin_data 0 (bytes_at pdin_data 0 length);
    pdin_data_len = length;
  },
  (if leb length pd_max_size then [] else pd_assert_failed ∷ [])
      ++ pd_event (bytes_at pdin_data 0 length) ∷ [],
)
