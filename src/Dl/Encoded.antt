-- ===== src/Dl/Encoded.antt =====
-- ilink/iolink_dl.c: what DL_ISDUTransport_req leaves in `isdu_data` is the ISDU of the request.
use normans_fork.Prelude.{
  ℕ, zero, suc, ◌+◌, ◌*◌, ◌/◌, ◌%◌, ◌<◌, bit_xor, ◌≡◌, refl, sym, ap, ◌∙◌, ◌≢◌, inl, inr, true,
  false, some, List, [], ◌∷◌, ◌++◌, arith, Bool-cases, u8, length, length-append, Bytes, update,
  memcpy, bytes_at, zeros,
}
use normans_fork.Prelude.Xor.{zero-bit_xor, xor_from, xor_from-checked}
use normans_fork.Dl.Header.{xor_rest, calc_chkpdu}
use normans_fork.Dl.Transport.{
  od_max_size, ValueList, service_of, overhead, is_short, total_of, address_bytes, head_bytes,
  lay_out,
}
use normans_fork.Prelude.Memory.Laws.{
  memcpy_below, bytes_at_ext, bytes_at-memcpy, length-bytes_at, bytes_at-memcpy_append,
}
use normans_fork.Dl.Format.{
  without_last, IsduRequest, read_index, read_subindex, read_long_index, read_form, read_body,
  read_extended, decode_request,
}

-- `calcCHKPDU` is the exclusive or of the bytes.
xor_rest-bytes_at :
    (n idx chksum : ℕ) (m : Bytes) → xor_rest m idx n chksum ≡ xor_from chksum (bytes_at m idx n)
unfolding xor_rest bytes_at
xor_rest-bytes_at zero idx chksum m = refl
xor_rest-bytes_at (suc n) idx chksum m = xor_rest-bytes_at n (idx + 1) (bit_xor chksum (m idx)) m

pub calc_chkpdu_lem : (n : ℕ) (m : Bytes) → calc_chkpdu m n ≡ xor_from 0 (bytes_at m 0 n)
unfolding calc_chkpdu bytes_at
calc_chkpdu_lem zero m = refl
calc_chkpdu_lem (suc n) m =
    xor_rest-bytes_at n 1 (m 0) m
    ∙ ap (λ (c : ℕ). xor_from c (bytes_at m 1 n)) (sym (zero-bit_xor (m 0)))

-- The ISDU as a list.
abbrev payload : ValueList → List ℕ
payload v = head_bytes v ++ bytes_at v.bytes 0 v.len

abbrev pub encoded : ValueList → List ℕ
encoded v = payload v ++ (xor_from 0 (payload v) ∷ [])

-- Two lists one after the other, and a byte behind them.
stored_list :
    (m : Bytes) (head body : List ℕ)
    → bytes_at (memcpy (memcpy m 0 head) (length head) body) 0 (length head + length body)
      ≡ head ++ body
stored_list m head body =
    bytes_at-memcpy_append (memcpy m 0 head) (length head) (length body) body refl
    ∙ ap (λ (xs : List ℕ). xs ++ body) (bytes_at-memcpy head m 0)

-- A list, its checksum, and whatever is stored behind them.
checked_list :
    (m : Bytes) (xs later : List ℕ) (n : ℕ)
    → bytes_at m 0 n ≡ xs
    → bytes_at (memcpy (update m n (calc_chkpdu m n)) (n + 1) later) 0 (n + 1)
      ≡ xs ++ (xor_from 0 xs ∷ [])
unfolding memcpy
checked_list m xs later n h =
    let c = calc_chkpdu m n in
    bytes_at_ext (n + 1) _ (memcpy m n (c ∷ [])) 0
      (λ b _ lt. memcpy_below later (update m n c) (n + 1) b (omega arith))
    ∙ bytes_at-memcpy_append m n 1 (c ∷ []) refl
    ∙ rw (calc_chkpdu_lem n m, h)

length-payload : (v : ValueList) → length (payload v) ≡ length (head_bytes v) + v.len
length-payload v = omega (
  arith,
  length-append (head_bytes v) (bytes_at v.bytes 0 v.len),
  length-bytes_at v.len v.bytes 0,
)

-- What the request lays out is the list `encoded`.
pub lay_out-bytes :
    (v : ValueList) (m : Bytes)
    → length (head_bytes v) + v.len < 256
    → bytes_at (lay_out v m) 0 (length (head_bytes v) + v.len + 1) ≡ encoded v
unfolding lay_out
lay_out-bytes v m small =
    let end_of : u8 (length (head_bytes v) + v.len) ≡ length (head_bytes v) + v.len = omega arith in
    let body =
      stored_list (memcpy m 0 (zeros od_max_size)) (head_bytes v) (bytes_at v.bytes 0 v.len) in
    rw end_of (
      checked_list _ (payload v) _ (length (head_bytes v) + v.len)
        (rw (length-bytes_at v.len v.bytes 0) at body))

pub total_of_lem :
    (v : ValueList) → v.len + 6 < 256 → total_of v ≡ length (head_bytes v) + v.len + 1
unfolding head_bytes overhead address_bytes
total_of_lem v small = ground arith

without_last-append : (xs : List ℕ) (c : ℕ) → without_last (xs ++ (c ∷ [])) ≡ xs
unfolding without_last
without_last-append [] c = refl
without_last-append (x ∷ []) c = refl
without_last-append (x ∷ y ∷ xs) c = ap (λ (ys : List ℕ). x ∷ ys) (without_last-append (y ∷ xs) c)

-- The request that the value list stands for.
abbrev pub meant : ValueList → IsduRequest
meant v = record {
  direction = v.readwrite;
  index = v.index;
  subindex = v.subindex;
  bytes = bytes_at v.bytes 0 v.len;
}

read_body-meant :
    (v : ValueList) (c : ℕ)
    → v.index < 65536
    → read_body (service_of v) ((address_bytes v ++ bytes_at v.bytes 0 v.len) ++ (c ∷ []))
      ≡ some (meant v)
unfolding read_body read_form read_index read_subindex read_long_index service_of address_bytes
read_body-meant v c fits =
    ground (arith, without_last-append (address_bytes v ++ bytes_at v.bytes 0 v.len) c)

-- The bytes behind the length bytes.
abbrev body_of : ValueList → List ℕ
body_of v = (address_bytes v ++ bytes_at v.bytes 0 v.len) ++ (xor_from 0 (payload v) ∷ [])

service_of-lt : (v : ValueList) → service_of v < 12
unfolding service_of
service_of-lt v = ground arith

length-encoded : (v : ValueList) → v.len + 6 < 256 → length (encoded v) ≡ total_of v
length-encoded v small = omega (
  arith,
  length-append (payload v) (xor_from 0 (payload v) ∷ []),
  length-payload v,
  total_of_lem v small,
)

decode_short :
    (first : ℕ) (rest : List ℕ)
    → xor_from 0 (first ∷ rest) ≡ 0
    → first % 16 ≢ 1
    → first % 16 ≡ length (first ∷ rest)
    → decode_request (first ∷ rest) ≡ read_body (first / 16) rest
unfolding decode_request
decode_short first rest checked long size = ground arith

decode_long :
    (first total : ℕ) (body : List ℕ)
    → xor_from 0 (first ∷ total ∷ body) ≡ 0
    → first % 16 ≡ 1
    → total ≡ length (first ∷ total ∷ body)
    → decode_request (first ∷ total ∷ body) ≡ read_body (first / 16) body
unfolding decode_request read_extended
decode_long first total body checked long size = ground arith

encoded-short :
    (v : ValueList)
    → is_short v ≡ true
    → encoded v ≡ u8 (service_of v * 16 + total_of v % 16) ∷ body_of v
unfolding head_bytes
encoded-short v h = rw h

encoded-long :
    (v : ValueList)
    → is_short v ≡ false
    → encoded v ≡ u8 (service_of v * 16 + 1) ∷ total_of v ∷ body_of v
unfolding head_bytes
encoded-long v h = rw h

-- A device that reads the ISDU by its format finds the request.
pub decode_request-encoded :
    (v : ValueList)
    → v.index < 65536
    → v.len + 6 < 256
    → decode_request (encoded v) ≡ some (meant v)
unfolding overhead
decode_request-encoded v fits small =
    let checked = xor_from-checked 0 (payload v) in
    let size = length-encoded v small in
    let meaning = read_body-meant v (xor_from 0 (payload v)) fits in
    let few = service_of-lt v in
    elim (Bool-cases (is_short v)) [
      | inl h ↦
          let e = encoded-short v h in
          let total : total_of v < 16 = ground arith in
          let more : 1 < total_of v = ground arith in
          let nibble : u8 (service_of v * 16 + total_of v % 16) % 16 ≡ total_of v = omega arith in
          let service : u8 (service_of v * 16 + total_of v % 16) / 16 ≡ service_of v =
            omega arith in
          rw e (
            decode_short _ (body_of v) (rw e at checked) (omega arith) (nibble ∙ sym (rw e at size))
            ∙ rw service meaning)
      | inr h ↦
          let e = encoded-long v h in
          let service : u8 (service_of v * 16 + 1) / 16 ≡ service_of v = omega arith in
          rw e (
            decode_long _ _ (body_of v) (rw e at checked) (omega arith) (sym (rw e at size))
            ∙ rw service meaning)
    ]
