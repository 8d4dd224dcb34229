-- ===== src/Ds/Upload.antt =====
-- The upload of ilink/iolink_ds.c: the replies of the device end up in the data set, in order.
use normans_fork.Prelude.{
  ℕ, ◌+◌, ◌≤◌, ◌≡◌, refl, sym, ap, ◌∙◌, ◌++◌, append_assoc, arith, lt→ltb, length, Bytes, memcpy,
  bytes_at,
}
use normans_fork.Prelude.Memory.Laws.{length-bytes_at, bytes_at-memcpy_append}
use normans_fork.Ds.{Ds, max_size}
use normans_fork.Ds.Callbacks.{param_header, store_param}
use normans_fork.Ds.Codec.{Param, encode_param}
use normans_fork.Types.{ReadCnf}

-- The parameter that a reply to the current read stands for.
abbrev pub reply_param : ℕ → ℕ → ReadCnf → Param
reply_param index subindex r = record {
  index = index;
  subindex = subindex;
  bytes = bytes_at r.buffer 0 r.data_len;
}

store_param-pos :
    (r : ReadCnf) (ds : Ds)
    → ds.master_ds.pos + 4 + r.data_len ≤ max_size
    → (store_param r ds).master_ds.pos ≡ ds.master_ds.pos + 4 + r.data_len
unfolding store_param
store_param-pos r ds h = ground arith

-- Both copies of `ds_read_cnf_cb`, with no position wrapping round.
unfoldable pub stored_bytes : ReadCnf → Ds → ℕ → Bytes
stored_bytes r ds p =
    memcpy
      (memcpy ds.master_ds.bytes ds.master_ds.pos
        (param_header ds.current_index ds.current_subindex r.data_len))
      p (bytes_at r.buffer 0 r.data_len)

pub store_param-bytes :
    (r : ReadCnf) (ds : Ds)
    → ds.master_ds.pos + 4 + r.data_len ≤ max_size
    → (store_param r ds).master_ds.bytes ≡ stored_bytes r ds (ds.master_ds.pos + 4)
unfolding store_param param_header stored_bytes
store_param-bytes r ds h =
    rw (lt→ltb (ds.master_ds.pos + 2 + 1 + r.data_len) 2048 (omega arith))
      (ap (stored_bytes r ds) (omega arith))

stored_bytes-append :
    (r : ReadCnf) (ds : Ds)
    → bytes_at (stored_bytes r ds (ds.master_ds.pos + 4)) 0 (ds.master_ds.pos + 4 + r.data_len)
      ≡ bytes_at ds.master_ds.bytes 0 ds.master_ds.pos
        ++ encode_param (reply_param ds.current_index ds.current_subindex r)
unfolding stored_bytes param_header
stored_bytes-append r ds =
    bytes_at-memcpy_append _ (ds.master_ds.pos + 4) r.data_len (bytes_at r.buffer 0 r.data_len)
      (sym (length-bytes_at r.data_len r.buffer 0))
    ∙ rw (
      bytes_at-memcpy_append ds.master_ds.bytes ds.master_ds.pos 4
          (param_header ds.current_index ds.current_subindex r.data_len) refl,
      append_assoc,
      length-bytes_at r.data_len r.buffer 0,
    )

-- Where there is room, a parameter's reply is appended to the data set as its header and its bytes.
pub store_param-append :
    (r : ReadCnf) (ds : Ds)
    → ds.master_ds.pos + 4 + r.data_len ≤ max_size
    → let d = store_param r ds in
      let p = reply_param ds.current_index ds.current_subindex r in
      (d.master_ds.pos ≡ ds.master_ds.pos + length (encode_param p))
      × (bytes_at d.master_ds.bytes 0 d.master_ds.pos
          ≡ bytes_at ds.master_ds.bytes 0 ds.master_ds.pos ++ encode_param p)
unfolding param_header
store_param-append r ds h = (
  omega (arith, store_param-pos r ds h, length-bytes_at r.data_len r.buffer 0),
  rw (store_param-pos r ds h, store_param-bytes r ds h) (stored_bytes-append r ds),
)

pub length-encode_param :
    (index subindex : ℕ) (r : ReadCnf)
    → length (encode_param (reply_param index subindex r)) ≡ 4 + r.data_len
unfolding param_header
length-encode_param index subindex r = omega (arith, length-bytes_at r.data_len r.buffer 0)
