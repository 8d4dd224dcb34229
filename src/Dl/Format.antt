-- ===== src/Dl/Format.antt =====
-- The ISDU of a request as a device reads it, by the format of IO-Link: a service and a length in the
-- first byte, a second length byte where the first says 1, the index and the subindex in the form
-- that the service tells, the data, and a checksum that brings the exclusive or to 0.
use normans_fork.Prelude.{
  ℕ, ◌+◌, ◌*◌, ◌/◌, ◌%◌, not, Option, none, some, List, [], ◌∷◌, leb, ◌==◌, if◌then◌else◌, length,
}
use normans_fork.Prelude.Xor.{xor_from}
use normans_fork.Types.{Direction, reading, writing}

-- The bytes without the last one.
unfoldable pub without_last : List ℕ → List ℕ
without_last [] = []
without_last (x ∷ []) = []
without_last (x ∷ y ∷ xs) = x ∷ without_last (y ∷ xs)

pub record IsduRequest : Type 0 where
  pub direction : Direction
  pub index : ℕ
  pub subindex : ℕ
  pub bytes : List ℕ

abbrev request : Direction → ℕ → ℕ → List ℕ → IsduRequest
request direction index subindex bytes = record {
  direction = direction;
  index = index;
  subindex = subindex;
  bytes = bytes;
}

-- An index of one byte, an index and a subindex, and an index of two bytes and a subindex.
unfoldable pub read_index : Direction → List ℕ → Option IsduRequest
read_index d (index ∷ bytes) = some (request d index 0 bytes)
read_index d _ = none

unfoldable pub read_subindex : Direction → List ℕ → Option IsduRequest
read_subindex d (index ∷ subindex ∷ bytes) = some (request d index subindex bytes)
read_subindex d _ = none

unfoldable pub read_long_index : Direction → List ℕ → Option IsduRequest
read_long_index d (high ∷ low ∷ subindex ∷ bytes) =
    some (request d (high * 256 + low) subindex bytes)
read_long_index d _ = none

-- The address and the data in the form that the last three bits of the service tell.
unfoldable pub read_form : Direction → (form : ℕ) → List ℕ → Option IsduRequest
unfolding read_index read_subindex read_long_index
read_form d form body =
    if form == 1
    then read_index d body
    else if form == 2
    then read_subindex d body
    else if form == 3
    then read_long_index d body
    else none

abbrev direction_of : ℕ → Direction
direction_of service = if leb 8 service then reading else writing

-- What follows the length: the address, the data and the checksum.
unfoldable pub read_body : (service : ℕ) → List ℕ → Option IsduRequest
unfolding read_form
read_body service body = read_form (direction_of service) (service % 8) (without_last body)

-- What follows a first byte that tells no length.
unfoldable pub read_extended : (service size : ℕ) → List ℕ → Option IsduRequest
unfolding read_body
read_extended service size [] = none
read_extended service size (total ∷ body) = if total == size then read_body service body else none

-- A whole ISDU, refused where its length or its checksum is wrong.
unfoldable pub decode_request : List ℕ → Option IsduRequest
unfolding read_body read_extended
decode_request [] = none
decode_request (first ∷ rest) =
    if not (xor_from 0 (first ∷ rest) == 0)
    then none
    else if first % 16 == 1
    then read_extended (first / 16) (length (first ∷ rest)) rest
    else if first % 16 == length (first ∷ rest)
    then read_body (first / 16) rest
    else none
