-- ===== src/Dl/Answer.antt =====
-- ilink/iolink_dl.c: what the response of a device says, and how it is confirmed.
use mathlib.Core.Path.{subst}
use normans_fork.Prelude.{
  ℕ, ◌+◌, ◌-◌, ◌*◌, ◌/◌, ◌%◌, ◌≤◌, ◌<◌, ◌≡◌, ap, ◌∙◌, ◌⊎◌, inl, inr, Bool, true, false, some, [],
  ◌∷◌, arith, ltb, Bool-cases, u8, Bytes, bytes_at,
}
use normans_fork.Al.Errors.{
  write_response_neg, write_response_pos, read_response_neg, read_response_pos,
}
use normans_fork.Dl.{idle, rw_none, Dl, isdu_transport_cnf, Step}
use normans_fork.Dl.Isdu.{response_cnf}
use normans_fork.Prelude.Memory.Laws.{bytes_at_ext}
use normans_fork.Dl.Header.{
  calc_chkpdu, get_isdu_iserv, get_isdu_total_len, data_offset, get_isdu_data_length,
  get_isdu_response_data, valid_isdu_header,
}
use normans_fork.Prelude.Xor.{xor_from}
use normans_fork.Types.{status_no_error}
use normans_fork.Dl.Encoded.{calc_chkpdu_lem}

-- A response of `n` bytes, its service and where its data begin: what the first two bytes say.
abbrev pub IsHeader : Bytes → (n offset service : ℕ) → Type 0
IsHeader resp n offset service =
    (resp 0 / 16 ≡ service)
    × (((resp 0 % 16 ≡ 1) × (resp 1 ≡ n) × (offset ≡ 2) × (16 < n) × (n < 256))
        ⊎ ((resp 0 % 16 ≡ n) × (offset ≡ 1) × (2 ≤ n) × (n < 16)))

-- The services with which a device answers a read, and a write.
abbrev pub IsAnswer : (read : Bool) → (service : ℕ) → Type 0
IsAnswer true service = (service ≡ read_response_pos) ⊎ (service ≡ read_response_neg)
IsAnswer false service = (service ≡ write_response_pos) ⊎ (service ≡ write_response_neg)

abbrev pub Agrees : Bytes → Bytes → ℕ → Type 0
Agrees m resp n = (i : ℕ) → i < n → m i ≡ resp i

-- The `k`th message of the response.
abbrev pub message : Bytes → (w k : ℕ) → Bytes
message resp w k i = resp (k * w + i)

-- The header as the handler reads it.
pub declared :
    (dl : Dl) (resp : Bytes) (n offset service : ℕ)
    → IsHeader resp n offset service
    → Agrees dl.isdu_data resp 2
    → (get_isdu_total_len dl ≡ some n) × (data_offset dl ≡ offset)
unfolding get_isdu_total_len
declared dl resp n offset service header agrees =
    let first = agrees 0 (omega arith) in let second = agrees 1 (omega arith) in ground arith

-- A response that is whole is confirmed with its data and its service.
pub response_cnf_lem :
    (dl : Dl) (resp : Bytes) (n offset service : ℕ)
    → IsHeader resp n offset service
    → Agrees dl.isdu_data resp n
    → dl.total_isdu_len ≡ n
    → xor_from 0 (bytes_at resp 0 n) ≡ 0
    → service < 16
    → response_cnf dl
      ≡ isdu_transport_cnf
          (some (get_isdu_response_data dl))
          (n - (offset + 1))
          service
          status_no_error
unfolding response_cnf get_isdu_data_length
response_cnf_lem dl resp n offset service header agrees len checked nibble =
    let (total, start) =
      declared dl resp n offset service header (λ i lt. agrees i (omega arith)) in
    let sum : calc_chkpdu dl.isdu_data n ≡ 0 =
      calc_chkpdu_lem n dl.isdu_data
      ∙ ap (xor_from 0) (bytes_at_ext n dl.isdu_data resp 0 (λ i _ lt. agrees i (omega arith)))
      ∙ checked in
    let serv : get_isdu_iserv dl ≡ service = omega (arith, agrees 0 (omega arith), header.0) in
    let size : u8 (n + 256 - (offset + 1)) ≡ n - (offset + 1) = omega arith in
    rw (response_cnf, get_isdu_data_length, total, len, sum, serv, start, size)

-- What the last message of the response leads to.
abbrev pub IsAnswered : Step → Bytes → (offset len service : ℕ) → Type 0
IsAnswered (d, calls) resp offset len service =
    (d.state ≡ idle)
    × (d.rwcmd ≡ rw_none)
    × (p : Bytes) × (bytes_at p 0 len ≡ bytes_at resp offset len)
    × (calls ≡ isdu_transport_cnf (some p) len service status_no_error ∷ [])

pub valid_answer :
    (d : Dl) (resp : Bytes) (n offset service : ℕ)
    → Agrees d.isdu_data resp 2
    → IsHeader resp n offset service
    → IsAnswer d.data_dir_read service
    → (ltb 1 (d.isdu_data 0) ≡ true) × (valid_isdu_header d ≡ true)
unfolding valid_isdu_header
valid_answer d resp n offset service agrees header answer =
    let first = agrees 0 (omega arith) in
    elim (Bool-cases d.data_dir_read) [
      | inl read ↦
          let answer' : IsAnswer true service =
            subst (λ (r : Bool). IsAnswer r service) read answer in
          ground arith
      | inr write ↦
          let answer' : IsAnswer false service =
            subst (λ (r : Bool). IsAnswer r service) write answer in
          ground arith
    ]

pub IsAnswer-nibble : (read : Bool) (service : ℕ) → IsAnswer read service → service < 16
IsAnswer-nibble true service h = ground arith
IsAnswer-nibble false service h = ground arith
