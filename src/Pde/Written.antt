-- ===== src/Pde/Written.antt =====
-- ilink/iolink_pde.c: where process data are kept, byte by byte.
use native.Mathlib.Nat.{zero-add}
use mathlib.Core.Path.{ap₂}
use normans_fork.Prelude.{
  ℕ, ◌+◌, ◌<◌, ◌≡◌, refl, sym, ap, ◌∙◌, ◌∷◌, ◌++◌, arith, Bytes, update, memcpy, bytes_at,
}
use normans_fork.Pde.{Pde}
use normans_fork.Pde.Data.{padded, al_get_input_output_req}
use normans_fork.Prelude.Memory.Laws.{
  update_self, update_ne, memcpy_below, bytes_at_ext, bytes_at-add, memcpy_inside, bytes_at-shift,
}

-- The data of AL_GetInputOutput_req: each length, and the bytes behind it.
pub in_and_out :
    (s : Pde) (m : Bytes)
    → s.pdin_data_len + s.pd_txlen + 2 < 256
    → ((al_get_input_output_req s m).0 ≡ 1 + (s.pdin_data_len + (1 + s.pd_txlen)))
      × (bytes_at (al_get_input_output_req s m).1 0 (1 + (s.pdin_data_len + (1 + s.pd_txlen)))
          ≡ s.pdin_data_len ∷ bytes_at s.pdin_data 0 s.pdin_data_len
            ++ s.pd_txlen ∷ bytes_at s.pdoutdata 0 s.pd_txlen)
unfolding al_get_input_output_req bytes_at
in_and_out s m small =
    let n = s.pdin_data_len in
    let t = s.pd_txlen in
    let with_in = memcpy (update m 0 n) 1 (bytes_at s.pdin_data 0 n) in
    let with_out = memcpy with_in (n + 2) (bytes_at s.pdoutdata 0 t) in
    let end = update with_out (n + 1) t in
    let after_in : (b : ℕ) → b < n + 1 → end b ≡ with_in b = λ b lt.
      update_ne with_out (n + 1) b t (omega arith)
      ∙ memcpy_below _ with_in (n + 2) b (omega arith) in
    let head : end 0 ≡ n =
      after_in 0 (omega arith)
      ∙ memcpy_below _ (update m 0 n) 1 0 (omega arith)
      ∙ update_self m 0 n in
    let ins : bytes_at s.pdin_data 0 n ≡ bytes_at end 1 n =
      bytes_at-shift n s.pdin_data end 0 1 1 refl (λ i le lt. sym (
        after_in (1 + i) (omega arith)
        ∙ memcpy_inside n (update m 0 n) s.pdin_data 1 0 i (omega arith)
        ∙ ap s.pdin_data (zero-add i))) in
    let len : end (1 + n) ≡ t = ap end (omega arith) ∙ update_self with_out (n + 1) t in
    let outs : bytes_at s.pdoutdata 0 t ≡ bytes_at end (1 + n + 1) t =
      bytes_at-shift t s.pdoutdata end 0 (1 + n + 1) (n + 2) (omega arith) (λ i le lt. sym (
        update_ne with_out (n + 1) (n + 2 + i) t (omega arith)
        ∙ memcpy_inside t with_in s.pdoutdata (n + 2) 0 i (omega arith)
        ∙ ap s.pdoutdata (zero-add i))) in
    (
      omega arith,
      bytes_at-add 1 (n + (1 + t)) end 0
          ∙ ap₂ ◌∷◌ head (
              bytes_at-add n (1 + t) end 1
              ∙ ap₂ ◌++◌ (sym ins) (bytes_at-add 1 t end (1 + n) ∙ ap₂ ◌∷◌ len (sym outs))),
    )

padded_below : (len : ℕ) (m : Bytes) (i : ℕ) → i < len → padded len m i ≡ m i
padded_below len m i lt = ground (arith, update_ne m len i 0)

-- What is kept of an output that is written.
pub padded-bytes :
    (t : ℕ) (m bytes : Bytes)
    → bytes_at (padded t (memcpy m 0 (bytes_at bytes 0 t))) 0 t ≡ bytes_at bytes 0 t
padded-bytes t m bytes = bytes_at_ext t _ bytes 0 (λ i le lt.
    padded_below t _ i (omega arith)
    ∙ ap (memcpy m 0 (bytes_at bytes 0 t)) (sym (zero-add i))
    ∙ memcpy_inside t m bytes 0 0 i (omega arith)
    ∙ ap bytes (zero-add i))

pub kept_bytes :
    (t : ℕ) (m bytes : Bytes) → bytes_at (memcpy m 0 (bytes_at bytes 0 t)) 0 t ≡ bytes_at bytes 0 t
kept_bytes t m bytes = bytes_at_ext t _ bytes 0 (λ i le lt.
    ap (memcpy m 0 (bytes_at bytes 0 t)) (sym (zero-add i))
    ∙ memcpy_inside t m bytes 0 0 i (omega arith)
    ∙ ap bytes (zero-add i))
